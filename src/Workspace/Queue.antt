-- ===== src/Workspace/Queue.antt =====
-- PlatformCloud/DeveloperWorkspace/JobQueue.cpp: which job requests are accepted, and the record of a
-- queued job.
pub mod Accepted
pub mod Clients
use styio_platform.Base.{
  String, Bool, true, false, not, ◌||◌, ◌&&◌, Option, none, some, List, [], ◌∷◌, ◌==◌, concat,
  if◌then◌else◌, Result, ok, err, ◌>>=◌,
}
use styio_platform.Json.{Json, has_string, field, at, value_string}
use styio_platform.Store.Records.{PlatformJobRecord}
use styio_platform.Base.Checks.{◌or_else◌, reject_if}
use styio_platform.Workspace.Sources.{git_source_policy_violation, public_git_source_policy}

abbrev pub is_action : String → Bool
is_action value = value == "build" || value == "run" || value == "test"

abbrev pub default_worker_pool : String
default_worker_pool = "linux/x86_64/binary/stable/minimal"

unfoldable pub pool_or_default : Option String → Option String → String
pool_or_default (some preferred) pool = preferred
pool_or_default none (some pool) = pool
pool_or_default none none = default_worker_pool

module _ (J : Json) where
  open J use {Value, is_object, is_string, is_number_integer, find, get_string}

  -- What `v[k].is_object()` says behind a test for the key.
  abbrev pub object_at : Value → String → Option Value
  object_at v k = elim (find v k) [ none ↦ none | some w ↦ if is_object w then some w else none ]

  -- The text of a value that is_string() has been asked of.
  abbrev pub text_of : Value → Option String
  text_of v = if is_string v then elim (get_string v) [ err e ↦ none | ok s ↦ some s ] else none

  -- `v.contains(k) && v[k].is_string()`, and the text
  abbrev pub text_at : Value → String → Option String
  text_at v k = elim (find v k) [ none ↦ none | some w ↦ text_of w ]

  -- `v.contains(k) && v[k].is_string() && !v[k].get<std::string>().empty()`
  abbrev pub has_text : Value → String → Bool
  has_text v k = elim (text_at v k) [ none ↦ not true | some s ↦ not (s == "") ]

  -- The pool that `job_request["cloud"]` names.
  unfoldable pub pool_of_cloud : Option Value → Option String
  pool_of_cloud none = none
  pool_of_cloud (some cloud) = text_at cloud "worker_pool_key"

  unfoldable pub pool_of_job_request : Option Value → Option String
  unfolding pool_of_cloud
  pool_of_job_request none = none
  pool_of_job_request (some job_request) = pool_of_cloud (object_at job_request "cloud")

  unfoldable pub worker_pool_from_request : Value → String
  unfolding pool_of_job_request pool_or_default
  worker_pool_from_request request =
      pool_or_default (text_at request "preferred_worker_pool")
        (pool_of_job_request (object_at request "job_request"))

  -- `if (job_request.contains(field) && !job_request[field].is_object())`
  abbrev pub not_object : Value → String → Bool
  not_object v k = elim (find v k) [ none ↦ not true | some w ↦ not (is_object w) ]

  abbrev pub is_integer_at : Value → String → Bool
  is_integer_at v k = elim (find v k) [ none ↦ not true | some w ↦ is_number_integer w ]

  -- `v.contains(k) && (!v[k].is_string() || v[k].get<std::string>().empty())`
  abbrev pub present_without_text : Value → String → Bool
  present_without_text v k = elim (find v k) [ none ↦ not true | some w ↦ not (has_text v k) ]

  -- `"job_request.source.origin " + *violation`
  abbrev pub origin_violation : Option String → Option String
  origin_violation none = none
  origin_violation (some violation) = some (concat "job_request.source.origin " violation)

  -- The checks of `job_request["source"]`, from its origin on.
  unfoldable pub validate_origin : Value → Option String → Option String
  validate_origin source none = some "job_request.source.origin is required"
  validate_origin source (some origin) =
      reject_if (origin == "") "job_request.source.origin is required"
      or_else origin_violation (git_source_policy_violation origin public_git_source_policy)
      or_else reject_if (present_without_text source "requested_revision")
          "job_request.source.requested_revision must be a non-empty string when present"

  unfoldable pub validate_source : Option Value → Option String
  unfolding validate_origin
  validate_source none = some "job_request.source is required"
  validate_source (some source) = validate_origin source (text_at source "origin")

  abbrev pub reject_not_object : Value → String → Option String
  reject_not_object v k =
      reject_if (not_object v k)
        (concat "job_request." (concat k " must be an object when present"))

  unfoldable pub validate_cloud_build_request : Value → Option String
  unfolding validate_source
  validate_cloud_build_request job_request =
      reject_if (not (is_integer_at job_request "schema_version"))
        "job_request.schema_version is required"
      or_else reject_if (not (has_text job_request "manifest_path"))
          "job_request.manifest_path is required"
      or_else validate_source (object_at job_request "source")
      or_else reject_not_object job_request "toolchain"
      or_else reject_not_object job_request "workflow"
      or_else reject_not_object job_request "target"
      or_else reject_not_object job_request "cloud"

  abbrev pub require_text : Value → String → Option String
  require_text v k = reject_if (not (has_text v k)) (concat k " is required")

  unfoldable pub validate_job_request : Option Value → Option String
  unfolding validate_cloud_build_request
  validate_job_request none = some "job_request is required"
  validate_job_request (some job_request) = validate_cloud_build_request job_request

  -- `IsAction(request["action"].get<std::string>())`
  abbrev pub has_action : Value → Bool
  has_action request = elim (text_at request "action") [
    | none ↦ not true
    | some action ↦ is_action action
  ]

  unfoldable pub validate_submit_job_request : Value → Option String
  unfolding validate_job_request
  validate_submit_job_request request =
      reject_if (not (is_object request)) "request body must be an object"
      or_else require_text request "tenant_id"
      or_else require_text request "user_id"
      or_else require_text request "workspace_id"
      or_else require_text request "action"
      or_else reject_if (not (has_action request)) "action must be build, run, or test"
      or_else validate_job_request (object_at request "job_request")

  -- `BuildQueuedJobRecord`, where `region` is `config.region`. Reading a value of another kind throws.
  unfoldable pub build_queued_job_record :
      Value → String → String → Result (PlatformJobRecord Value)
  unfolding worker_pool_from_request
  build_queued_job_record request region job_id = do
    tenant_id ← field J request "tenant_id"
    user_id ← field J request "user_id"
    workspace_id ← field J request "workspace_id"
    action ← field J request "action"
    job_region ← value_string J request "region" region
    job_request ← at J request "job_request"
    ok (record {
      job_id = job_id;
      tenant_id = tenant_id;
      user_id = user_id;
      workspace_id = workspace_id;
      action = action;
      status = "queued";
      region = job_region;
      worker_pool_key = worker_pool_from_request request;
      created_at = "2026-04-24T00:00:00Z";
      worker_id = "";
      finished_at = "";
      job_request = job_request;
      artifacts = [];
    })
