-- ===== src/Workspace/Queue/Clients.antt =====
-- What the job queue (JobQueue.cpp) makes of the payload that a client sends (Job.cpp, Contract.cpp).
use styio_platform.Base.{
  String, ◌≡◌, ◌∙◌, refl, true, false, Option, none, some, List, ◌==◌, arith, eq_refl,
}
use styio_platform.Base.Dict.{get}
use styio_platform.Json.{Json, ℤ}
use styio_platform.Execution.{CloudExecutionPolicy}
use styio_platform.Protocol.{CloudBuildJobRequest, CloudJobSourceSelection}
use styio_platform.Base.Checks.{◌or_else◌, reject_if}
use styio_platform.Protocol.Contract.{
  with_text, source_payload, target_payload, build_cloud_build_job_request_payload,
  serialize_cloud_execution_policy, serialize_worker_pool_key,
}
use styio_platform.Workspace.Sources.{git_source_policy_violation, public_git_source_policy}
use styio_platform.Workspace.Queue.{
  text_at, text_of, has_text, present_without_text, validate_origin, object_at, not_object,
  is_integer_at, validate_source, validate_cloud_build_request, pool_of_cloud, pool_of_job_request,
  pool_or_default, worker_pool_from_request, default_worker_pool,
}

module _ (J : Json) where
  open J use {
    Value, is_object, is_string, is_number_integer, string, number, object, find, get_string,
    is_object-object, find-object, is_object-set, find-set, is_string-string, get_string-string,
    is_string-object, is_number_integer-number,
  }

  text_of-string : (s : String) → text_of J (string s) ≡ some s
  text_of-string s = ground (arith, is_string-string s, get_string-string s)

  text_at_lem : (v : Value) (k s : String) → find v k ≡ some (string s) → text_at J v k ≡ some s
  text_at_lem v k s h = ground (arith, text_of-string s)

  object_at_lem :
      (v w : Value) (k : String) → find v k ≡ some w → is_object w ≡ true → object_at J v k ≡ some w
  object_at_lem v w k h o = ground arith

  with_text-is_object :
      (o : Option String) (k : String) (v : Value)
      → is_object v ≡ true
      → is_object (with_text J o k v) ≡ true
  unfolding with_text
  with_text-is_object none k v h = h
  with_text-is_object (some s) k v h = is_object-set v (string s) k h

  with_text-find :
      (o : Option String) (k j : String) (v : Value)
      → is_object v ≡ true
      → (k == j) ≡ false
      → find (with_text J o k v) j ≡ find v j
  unfolding with_text
  with_text-find none k j v h other = refl
  with_text-find (some s) k j v h other = ground (arith, find-set v (string s) k j h)

  validate_origin-none :
      (v : Value) (origin : String)
      → (origin == "") ≡ false
      → git_source_policy_violation origin public_git_source_policy ≡ none
      → present_without_text J v "requested_revision" ≡ false
      → validate_origin J v (some origin) ≡ none
  unfolding validate_origin ◌or_else◌ reject_if
  validate_origin-none v origin filled allowed revision = rw (filled, allowed, revision) refl

  with_text-absent :
      (o : Option String) (k : String) (v : Value)
      → is_object v ≡ true
      → find v k ≡ none
      → o ≡ none
      → find (with_text J o k v) k ≡ none
  unfolding with_text
  with_text-absent none k v h absent e = absent
  with_text-absent (some s) k v h absent e = cc

  with_text-present :
      (o : Option String) (k s : String) (v : Value)
      → is_object v ≡ true
      → o ≡ some s
      → find (with_text J o k v) k ≡ some (string s)
  unfolding with_text
  with_text-present none k s v h e = cc
  with_text-present (some t) k s v h e = ground (arith, find-set v (string t) k k, eq_refl k)

  -- A revision that a client may ask for: none, or a text that is not empty.
  abbrev pub IsRevision : Option String → Type 0
  IsRevision none = Unit
  IsRevision (some revision) = (revision == "") ≡ false

  revision_present :
      (v : Value) (o : Option String)
      → is_object v ≡ true
      → find v "requested_revision" ≡ none
      → IsRevision o
      → present_without_text J (with_text J o "requested_revision" v) "requested_revision" ≡ false
  revision_present v none h absent r =
      let e = with_text-absent none "requested_revision" v h absent refl in ground arith
  revision_present v (some s) h absent r =
      let e = with_text-present (some s) "requested_revision" s v h refl in
      let t = text_at_lem (with_text J (some s) "requested_revision" v) "requested_revision" s e in
      ground arith

  same_present :
      (u v : Value) (k : String)
      → find u k ≡ find v k
      → present_without_text J u k ≡ present_without_text J v k
  same_present u v k e = ground arith

  module _ (absolute : String → String) (source : CloudJobSourceSelection) where
    abbrev payload : Value
    payload = source_payload J absolute source

    pub source_payload-is_object : is_object payload ≡ true
    unfolding source_payload
    source_payload-is_object =
        with_text-is_object _ _ _
          (with_text-is_object _ _ _ (with_text-is_object _ _ _ (is_object-object _)))

    pub source_payload-origin : find payload "origin" ≡ some (string source.origin)
    unfolding source_payload get
    source_payload-origin =
        with_text-find _ _ _ _
          (with_text-is_object _ _ _ (with_text-is_object _ _ _ (is_object-object _))) refl
        ∙ with_text-find _ _ _ _ (with_text-is_object _ _ _ (is_object-object _)) refl
        ∙ with_text-find _ _ _ _ (is_object-object _) refl
        ∙ find-object _ _

    pub source_payload-revision :
        IsRevision source.requested_revision
        → present_without_text J payload "requested_revision" ≡ false
    unfolding source_payload get
    source_payload-revision r =
        same_present _ _ "requested_revision" (
          with_text-find _ _ _ _
            (with_text-is_object _ _ _ (with_text-is_object _ _ _ (is_object-object _))) refl)
        ∙ revision_present _ _ (with_text-is_object _ _ _ (is_object-object _))
            (with_text-find _ _ _ _ (is_object-object _) refl ∙ find-object _ _) r

    pub validate_source-payload :
        (source.origin == "") ≡ false
        → git_source_policy_violation source.origin public_git_source_policy ≡ none
        → IsRevision source.requested_revision
        → validate_source J (some payload) ≡ none
    unfolding validate_source
    validate_source-payload filled allowed r =
        rw (text_at_lem payload "origin" source.origin source_payload-origin)
          (validate_origin-none payload source.origin filled allowed (source_payload-revision r))

  text_at-object :
      (v : Value) (k : String) (fs : List (String × Value))
      → find v k ≡ some (object fs)
      → text_at J v k ≡ none
  text_at-object v k fs h = ground (arith, is_string-object fs)

  pool_of_cloud-policy :
      (policy : CloudExecutionPolicy)
      → pool_of_cloud J (some (serialize_cloud_execution_policy J policy)) ≡ none
  unfolding pool_of_cloud serialize_cloud_execution_policy serialize_worker_pool_key get
  pool_of_cloud-policy policy = text_at-object _ "worker_pool_key" _ (find-object _ _)

  module _ (absolute : String → String) (request : CloudBuildJobRequest) where
    abbrev sent : Value
    sent = build_cloud_build_job_request_payload J absolute request

    sent-schema_version : find sent "schema_version" ≡ some (number (ℤ.pos request.schema_version))
    unfolding build_cloud_build_job_request_payload get
    sent-schema_version = find-object _ _

    sent-manifest_path : find sent "manifest_path" ≡ some (string (absolute request.manifest_path))
    unfolding build_cloud_build_job_request_payload get
    sent-manifest_path = find-object _ _

    sent-source : find sent "source" ≡ some (source_payload J absolute request.source)
    unfolding build_cloud_build_job_request_payload get
    sent-source = find-object _ _

    sent-cloud : find sent "cloud" ≡ some (serialize_cloud_execution_policy J request.cloud_policy)
    unfolding build_cloud_build_job_request_payload get
    sent-cloud = find-object _ _

    sent-is_object : is_object sent ≡ true
    unfolding build_cloud_build_job_request_payload
    sent-is_object = is_object-object _

    policy-is_object : is_object (serialize_cloud_execution_policy J request.cloud_policy) ≡ true
    unfolding serialize_cloud_execution_policy
    policy-is_object = is_object-object _

    object-not_object :
        (k : String) (fs : List (String × Value))
        → find sent k ≡ some (object fs)
        → not_object J sent k ≡ false
    object-not_object k fs h = ground (arith, is_object-object fs)

    sent-toolchain : not_object J sent "toolchain" ≡ false
    unfolding build_cloud_build_job_request_payload get
    sent-toolchain = object-not_object "toolchain" _ (find-object _ _)

    sent-workflow : not_object J sent "workflow" ≡ false
    unfolding build_cloud_build_job_request_payload get
    sent-workflow = object-not_object "workflow" _ (find-object _ _)

    sent-target : not_object J sent "target" ≡ false
    unfolding build_cloud_build_job_request_payload get target_payload
    sent-target = object-not_object "target" _ (find-object _ _)

    sent-cloud_object : not_object J sent "cloud" ≡ false
    unfolding build_cloud_build_job_request_payload get serialize_cloud_execution_policy
    sent-cloud_object = object-not_object "cloud" _ (find-object _ _)

    has_schema_version : is_integer_at J sent "schema_version" ≡ true
    has_schema_version =
        ground (arith, sent-schema_version, is_number_integer-number (ℤ.pos request.schema_version))

    has_manifest_path :
        (absolute request.manifest_path == "") ≡ false → has_text J sent "manifest_path" ≡ true
    has_manifest_path filled =
        let t =
          text_at_lem sent "manifest_path" (absolute request.manifest_path) sent-manifest_path in
        ground arith

    source_found : object_at J sent "source" ≡ some (source_payload J absolute request.source)
    source_found =
        object_at_lem sent (source_payload J absolute request.source) "source" sent-source
          (source_payload-is_object absolute request.source)

    -- The queue's checks of a job request pass what a client sends, if its manifest path is a text,
    -- its origin is a Git source that is allowed, and its revision, if it asks for one, is a text.
    pub build_payload-accepted :
        (absolute request.manifest_path == "") ≡ false
        → (request.source.origin == "") ≡ false
        → git_source_policy_violation request.source.origin public_git_source_policy ≡ none
        → IsRevision request.source.requested_revision
        → validate_cloud_build_request J sent ≡ none
    unfolding validate_cloud_build_request ◌or_else◌ reject_if
    build_payload-accepted path filled allowed revision =
        rw
          (
            has_schema_version,
            has_manifest_path path,
            source_found,
            validate_source-payload absolute request.source filled allowed revision,
            sent-toolchain,
            sent-workflow,
            sent-target,
            sent-cloud_object,
          )
          refl

    sent-pool : pool_of_job_request J (some sent) ≡ none
    unfolding pool_of_job_request
    sent-pool =
        rw
          (object_at_lem sent (serialize_cloud_execution_policy J request.cloud_policy) "cloud"
            sent-cloud policy-is_object)
          (pool_of_cloud-policy request.cloud_policy)

    -- The queue never reads the worker pool of the policy that a client sends: a request with no
    -- preferred pool of its own is queued for the default pool, whatever the policy.
    pub worker_pool-sent :
        (body : Value)
        → find body "preferred_worker_pool" ≡ none
        → find body "job_request" ≡ some sent
        → worker_pool_from_request J body ≡ default_worker_pool
    unfolding worker_pool_from_request
    worker_pool-sent body absent here =
        let no_preference : text_at J body "preferred_worker_pool" ≡ none = ground arith in
        let found : object_at J body "job_request" ≡ some sent =
          object_at_lem body sent "job_request" here sent-is_object in
        rw (no_preference, found, sent-pool) (unfold pool_or_default in refl)
