-- ===== src/Workspace/Examples.antt =====
-- A build request from a client, and what the router, the queue and the store make of it.
use styio_platform.Base.{
  ℕ, String, ◌≡◌, ◌≢◌, refl, ap, sym, ◌∙◌, arith, true, false, none, some, [], ◌∷◌, ok,
}
use styio_platform.Base.Checks.{◌or_else◌, reject_if}
use styio_platform.Base.Text.{split_items}
use styio_platform.Base.Dict.{get}
use styio_platform.Json.Tree.{Tree, null, str, obj, entry, end, tree_json}
use styio_platform.Execution.{ProjectToolchainState, resolve_cloud_execution_policy}
use styio_platform.Routing.{HttpRequest, RouteMatch, post_method}
use styio_platform.Routing.Catalog.{all_routes}
use styio_platform.Store.Records.{PlatformJobRecord}
use styio_platform.Store.State.{empty}
use styio_platform.Store.Jobs.{submit_job, push_event}
use styio_platform.Store.JobLog.{IsConsistent}
use styio_platform.Store.JobLog.Histories.{empty-IsConsistent}
use styio_platform.Protocol.{CloudBuildJobRequest}
use styio_platform.Protocol.Contract.{
  build_cloud_build_job_request_payload, with_text, absolute_root,
}
use styio_platform.Workspace.Queue.{
  validate_submit_job_request, validate_cloud_build_request, build_queued_job_record,
  worker_pool_from_request, default_worker_pool,
}
use styio_platform.Workspace.Queue.Accepted.{IsQueued, build_queued_job_record-IsQueued}
use styio_platform.Workspace.Queue.Clients.{build_payload-accepted, worker_pool-sent}
use styio_platform.Workspace.Sources.{git_source_policy_violation}
use styio_platform.Workspace.Dispatch.{Config, Router, dispatch}
use styio_platform.Workspace.Dispatch.Guarded.{
  IsServed, after_requests, after_requests-IsConsistent, dispatch-IsServed,
}

abbrev toolchain : ProjectToolchainState
toolchain = record {
  mode = "binary";
  channel = "stable";
  build_mode = "minimal";
  risk_class = "trusted-internal";
  preferred_execution_lane = "warm-shared";
  security_profile = "trusted-warm";
  source_revision = none;
}

abbrev job_request : CloudBuildJobRequest
job_request = record {
  schema_version = 1;
  api_path = "/api/styio-platform/v1/jobs";
  action = "build";
  manifest_path = "/work/spio.toml";
  toolchain_mode = "binary";
  channel = "stable";
  build_mode = "minimal";
  profile = "dev";
  locked = false;
  offline = false;
  target = record { package_name = none; bin_name = none; test_name = none; select_lib = true };
  source = record {
    origin = "https://github.com/eBioRing/Styio.git";
    explicit_source_root = none;
    requested_revision = some "main";
    resolved_revision = none;
    allow_fetch = true;
    assume_yes = false;
    non_interactive = false;
    offline = false;
  };
  cloud_policy =
      resolve_cloud_execution_policy
        (record { platform = "linux"; architecture = "x86_64"; base_image_variable = none })
        toolchain;
}

abbrev unchanged : String → String
unchanged path = path

abbrev sent : Tree
sent = build_cloud_build_job_request_payload tree_json unchanged job_request

abbrev body : Tree
body = obj (
    entry "tenant_id" (str "tenant-a") (
      entry "user_id" (str "user-a") (
        entry "workspace_id" (str "workspace-a")
          (entry "action" (str "build") (entry "job_request" sent end)))))

abbrev submit_request : HttpRequest Tree
submit_request = record {
  method = post_method;
  path = "/jobs";
  headers = [];
  body = body;
  identity = some (record { role = "client"; tenant_id = "platform"; node_id = "ops-1" });
}

abbrev config : Config tree_json
config = record {
  region = "eu";
  mtls_required = true;
  subject = λ request. "ops-1";
  others = λ s match request. (s, ok (record { status_code = 501; body = null }));
}

abbrev router : Router tree_json
router = record { memory = empty; rate_limiter = record { buckets = [] } }

build_payload-accepted_example : validate_cloud_build_request tree_json sent ≡ none
unfolding git_source_policy_violation
build_payload-accepted_example =
    build_payload-accepted tree_json unchanged job_request refl refl refl refl

worker_pool-sent_example : worker_pool_from_request tree_json body ≡ default_worker_pool
worker_pool-sent_example = worker_pool-sent tree_json unchanged job_request body refl refl

build_queued_job_record-IsQueued_example :
    (job : PlatformJobRecord Tree) × (build_queued_job_record tree_json body "eu" "job-000000000001"
      ≡ ok job)
    × IsQueued tree_json body "eu" "job-000000000001" job
unfolding validate_submit_job_request ◌or_else◌ reject_if build_cloud_build_job_request_payload
    with_text absolute_root git_source_policy_violation
build_queued_job_record-IsQueued_example =
    build_queued_job_record-IsQueued tree_json body "eu" "eu" "job-000000000001" refl refl

after_requests-IsConsistent_example :
    IsConsistent
      (after_requests tree_json config router
        ((100, submit_request) ∷ (101, submit_request) ∷ [])).memory
after_requests-IsConsistent_example =
    after_requests-IsConsistent tree_json config router
      ((100, submit_request) ∷ (101, submit_request) ∷ []) (λ s match request c. c)
      empty-IsConsistent

queues_job : (dispatch tree_json config router 100 submit_request).0.memory.next_job_sequence ≡ 2
unfolding dispatch all_routes split_items empty validate_submit_job_request ◌or_else◌ reject_if
    build_cloud_build_job_request_payload with_text absolute_root git_source_policy_violation get
    submit_job push_event
queues_job = refl

changed : (dispatch tree_json config router 100 submit_request).0.memory ≢ router.memory
unfolding empty
changed e =
    let same : ◌≡◌ {A = ℕ} 2 1 = sym queues_job ∙ ap (λ s. s.next_job_sequence) e in omega arith

dispatch-IsServed_example :
    (match : RouteMatch) × IsServed tree_json config router 100 submit_request match
dispatch-IsServed_example = dispatch-IsServed tree_json config router 100 submit_request changed
