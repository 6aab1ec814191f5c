-- ===== src/Protocol.antt =====
-- SpioPlatformProtocols/Job.cpp and Job.hpp: the request for a cloud build job.
mod Examples
pub mod Contract
pub mod Invocation
use styio_platform.Base.{
  ℕ, String, Bool, true, false, not, ◌||◌, ◌&&◌, Option, none, some, List, [], ◌∷◌, ◌==◌,
  if◌then◌else◌, is_some, member, Result, ok, err,
}
use styio_platform.Base.Checks.{◌or_else◌, reject_if}
use styio_platform.Execution.{ProjectToolchainState, CloudExecutionPolicy}
use styio_platform.Plan.{BuildPlanRequest}

pub record CloudJobTargetSelection : Type 0 where
  pub package_name : Option String
  pub bin_name : Option String
  pub test_name : Option String
  pub select_lib : Bool

pub record CloudJobSourceSelection : Type 0 where
  pub origin : String
  pub explicit_source_root : Option String
  pub requested_revision : Option String
  pub resolved_revision : Option String
  pub allow_fetch : Bool
  pub assume_yes : Bool
  pub non_interactive : Bool
  pub offline : Bool

pub record WorkflowInvocationOptions : Type 0 where
  pub locked : Bool
  pub offline : Bool
  pub styio_bin : Option String
  pub allow_fetch : Bool
  pub assume_yes : Bool
  pub non_interactive : Bool
  pub source_root : Option String
  pub source_revision : Option String

pub record CloudBuildJobRequest : Type 0 where
  pub schema_version : ℕ
  pub api_path : String
  pub action : String
  pub manifest_path : String
  pub toolchain_mode : String
  pub channel : String
  pub build_mode : String
  pub profile : String
  pub locked : Bool
  pub offline : Bool
  pub target : CloudJobTargetSelection
  pub source : CloudJobSourceSelection
  pub cloud_policy : CloudExecutionPolicy

abbrev pub supported_build_modes : List String
supported_build_modes = "minimal" ∷ []

abbrev pub is_supported_build_mode : String → Bool
is_supported_build_mode value = member value supported_build_modes

-- `request.build_mode.empty() ? toolchain_state.build_mode : request.build_mode`
abbrev pub effective_build_mode : BuildPlanRequest → ProjectToolchainState → String
effective_build_mode request state =
    if request.build_mode == "" then state.build_mode else request.build_mode

abbrev has_source_options : WorkflowInvocationOptions → Bool
has_source_options options =
    options.assume_yes
    || not options.allow_fetch
    || options.non_interactive
    || is_some options.source_root
    || is_some options.source_revision

-- The checks of a request's targets against the action.
unfoldable pub validate_targets : String → BuildPlanRequest → Option String
validate_targets action request =
    reject_if (action == "run" && request.select_lib) "run does not accept --lib"
    or_else reject_if (action == "run" && is_some request.test_name) "run does not accept --test"
    or_else reject_if (action == "test" && request.select_lib) "test does not accept --lib"
    or_else reject_if (action == "test" && is_some request.bin_name) "test does not accept --bin"
    or_else reject_if (action == "build" && is_some request.test_name)
        "build does not accept --test"

-- `ValidateWorkflowInvocationImpl`
unfoldable pub validate_workflow_invocation :
    String → BuildPlanRequest → ProjectToolchainState → WorkflowInvocationOptions → Option String
unfolding validate_targets
validate_workflow_invocation action request state options =
    reject_if (not (action == "build") && not (action == "run") && not (action == "test"))
      "workflow action must be one of: build, run, test"
    or_else reject_if
        (effective_build_mode request state == ""
          || not (is_supported_build_mode (effective_build_mode request state)))
        "build currently supports only the 'minimal' mode"
    or_else reject_if (state.mode == "binary" && has_source_options options)
        "source-build options require 'spio use build'"
    or_else reject_if (state.mode == "build" && is_some options.styio_bin)
        "--styio-bin is only valid when the project toolchain mode is 'binary'"
    or_else validate_targets action request

-- The environment variable SPIO_STYIO_SOURCE_ORIGIN is an argument: unset, or its text.
unfoldable pub resolve_source_origin_baseline : Option String → String
resolve_source_origin_baseline none = "https://github.com/eBioRing/Styio.git"
resolve_source_origin_baseline (some origin) =
    if origin == "" then "https://github.com/eBioRing/Styio.git" else origin

-- What BuildCloudBuildJobRequest returns once the request is validated.
unfoldable pub job_request_of :
    Option String
    → String
    → BuildPlanRequest
    → ProjectToolchainState
    → WorkflowInvocationOptions
    → CloudExecutionPolicy
    → CloudBuildJobRequest
unfolding resolve_source_origin_baseline
job_request_of origin action request state options policy =
    let build_mode = effective_build_mode request state in
    record {
      schema_version = 1;
      api_path = "/api/styio-platform/v1/jobs";
      action = action;
      manifest_path = request.manifest_path;
      toolchain_mode = state.mode;
      channel = state.channel;
      build_mode = if build_mode == "" then "minimal" else build_mode;
      profile = request.profile;
      locked = options.locked;
      offline = options.offline;
      target = record {
        package_name = request.package_name;
        bin_name = request.bin_name;
        test_name = request.test_name;
        select_lib = request.select_lib;
      };
      source = record {
        origin = resolve_source_origin_baseline origin;
        explicit_source_root = options.source_root;
        requested_revision = options.source_revision;
        resolved_revision = state.source_revision;
        allow_fetch = options.allow_fetch;
        assume_yes = options.assume_yes;
        non_interactive = options.non_interactive;
        offline = options.offline;
      };
      cloud_policy = policy;
    }

abbrev pub accepted {ℓ} : {T : Type ℓ} → Option String → T → Result T
accepted none value = ok value
accepted (some message) value = err message

unfoldable pub build_cloud_build_job_request :
    Option String
    → String
    → BuildPlanRequest
    → ProjectToolchainState
    → WorkflowInvocationOptions
    → CloudExecutionPolicy
    → Result CloudBuildJobRequest
unfolding validate_workflow_invocation job_request_of
build_cloud_build_job_request origin action request state options policy =
    accepted (validate_workflow_invocation action request state options)
      (job_request_of origin action request state options policy)
