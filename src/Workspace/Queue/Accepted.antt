-- ===== src/Workspace/Queue/Accepted.antt =====
-- What ValidateSubmitJobRequest (JobQueue.cpp) makes sure of for BuildQueuedJobRecord.
use styio_platform.Base.{
  String, ◌≡◌, inl, inr, refl, true, false, none, some, [], ◌==◌, arith, ok, Option-cases,
  Bool-cases,
}
use styio_platform.Json.{Json, field, at, value_string}
use styio_platform.Store.Records.{PlatformJobRecord}
use styio_platform.Base.Checks.{or_else-none, reject_if-none, not-false}
use styio_platform.Workspace.Queue.{
  text_at, text_of, has_text, has_action, is_action, object_at, require_text, validate_job_request,
  validate_submit_job_request, build_queued_job_record, worker_pool_from_request,
}

module _ (J : Json) where
  open J use {Value, is_object, is_string, find, get_string, get_string-is_string}

  text_of-get_string : (v : Value) (s : String) → text_of J v ≡ some s → get_string v ≡ ok s
  text_of-get_string v s h = elim (Bool-cases (is_string v)) [
    | inl yes_string ↦ let (t, e) = get_string-is_string v yes_string in ground (arith)
    | inr no_string ↦ ground arith
  ]

  -- A text that a validation has found is the one that is read.
  pub text_at-field : (v : Value) (k s : String) → text_at J v k ≡ some s → field J v k ≡ ok s
  text_at-field v k s h = elim (Option-cases (find v k)) [
    | inl missing ↦ ground arith
    | inr (w, found) ↦ ground (arith, text_of-get_string w s)
  ]

  pub has_text-text_at :
      (v : Value) (k : String)
      → has_text J v k ≡ true
      → (s : String) × (text_at J v k ≡ some s) × ((s == "") ≡ false)
  has_text-text_at v k h = elim (Option-cases (text_at J v k)) [
    | inl missing ↦ ground arith
    | inr (s, found) ↦ (s, found, ground arith)
  ]

  -- A text field that is not empty: what the record takes from it.
  pub record IsField (v : Value) (k s : String) : Type 0 where
    pub read : field J v k ≡ ok s
    pub filled : (s == "") ≡ false

  pub require_text-none :
      (v : Value) (k : String) → require_text J v k ≡ none → (s : String) × IsField v k s
  require_text-none v k h =
      let (s, found, filled) =
        has_text-text_at v k (not-false (has_text J v k) (reject_if-none _ _ h)) in
      (s, record { read = text_at-field v k s found; filled = filled })

  has_action-read :
      (v : Value) (action : String)
      → field J v "action" ≡ ok action
      → has_action J v ≡ true
      → is_action action ≡ true
  has_action-read v action read h = elim (Option-cases (text_at J v "action")) [
    | inl missing ↦ ground arith
    | inr (s, found) ↦ let e = text_at-field v "action" s found in ground arith
  ]

  job_request-at :
      (v : Value)
      → validate_job_request J (object_at J v "job_request") ≡ none
      → (w : Value) × (at J v "job_request" ≡ ok w)
  unfolding validate_job_request
  job_request-at v h = elim (Option-cases (find v "job_request")) [
    | inl missing ↦ ground arith
    | inr (w, found) ↦ (w, ground arith)
  ]

  -- The record of a job that waits in the queue, with the fields of its request.
  pub record IsQueued (request : Value) (region job_id : String) (job : PlatformJobRecord Value)
      : Type 0 where
    pub job_id_kept : job.job_id ≡ job_id
    pub queued : job.status ≡ "queued"
    pub unclaimed : job.worker_id ≡ ""
    pub tenant : IsField request "tenant_id" job.tenant_id
    pub user : IsField request "user_id" job.user_id
    pub workspace : IsField request "workspace_id" job.workspace_id
    pub action : is_action job.action ≡ true
    pub placed : job.region ≡ region
    pub pool : job.worker_pool_key ≡ worker_pool_from_request J request
    pub payload : at J request "job_request" ≡ ok job.job_request

  -- A request that is accepted, and whose region, if it has one, is a text, gives the record of a
  -- queued job: its tenant, user and workspace are the request's and not empty, its action is build,
  -- run or test, and nothing throws.
  pub build_queued_job_record-IsQueued :
      (request : Value) (default_region region job_id : String)
      → validate_submit_job_request J request ≡ none
      → value_string J request "region" default_region ≡ ok region
      → (job : PlatformJobRecord Value) × (build_queued_job_record J request default_region job_id
          ≡ ok job)
        × IsQueued request region job_id job
  unfolding validate_submit_job_request build_queued_job_record
  build_queued_job_record-IsQueued request default_region region job_id valid at_region =
      let (object_ok, v1) = or_else-none _ _ valid in
      let (has_tenant, v2) = or_else-none _ _ v1 in
      let (has_user, v3) = or_else-none _ _ v2 in
      let (has_workspace, v4) = or_else-none _ _ v3 in
      let (has_action_text, v5) = or_else-none _ _ v4 in
      let (known_action, has_job_request) = or_else-none _ _ v5 in
      let (tenant, t) = require_text-none request "tenant_id" has_tenant in
      let (user, u) = require_text-none request "user_id" has_user in
      let (workspace, w) = require_text-none request "workspace_id" has_workspace in
      let (action, a) = require_text-none request "action" has_action_text in
      let (job_request, j) = job_request-at request has_job_request in
      let known : is_action action ≡ true =
        has_action-read request action a.read
          (not-false (has_action J request) (reject_if-none _ _ known_action)) in
      let job : PlatformJobRecord Value = record {
        job_id = job_id;
        tenant_id = tenant;
        user_id = user;
        workspace_id = workspace;
        action = action;
        status = "queued";
        region = region;
        worker_pool_key = worker_pool_from_request J request;
        created_at = "2026-04-24T00:00:00Z";
        worker_id = "";
        finished_at = "";
        job_request = job_request;
        artifacts = [];
      } in
      (
        job,
        rw (t.read, u.read, w.read, a.read, at_region, j) refl,
        record {
          job_id_kept = refl;
          queued = refl;
          unclaimed = refl;
          tenant = t;
          user = u;
          workspace = w;
          action = known;
          placed = refl;
          pool = refl;
          payload = j;
        },
      )
