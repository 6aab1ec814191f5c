-- ===== src/Protocol/Examples.antt =====
-- A run of the only binary of a package.
use styio_platform.Base.{String, ◌≡◌, refl, true, false, none, some, [], ◌∷◌, ok}
use styio_platform.Base.Files.{Files}
use styio_platform.Base.Checks.{◌or_else◌, reject_if}
use styio_platform.Resolve.{ResolvedPackage}
use styio_platform.Execution.{ProjectToolchainState}
use styio_platform.Plan.{BuildPlanRequest}
use styio_platform.Plan.Target.{SelectedTarget, resolve_entry_target}
use styio_platform.Protocol.{WorkflowInvocationOptions, validate_workflow_invocation}
use styio_platform.Protocol.Invocation.{Fits, validate_workflow_invocation-Fits}

abbrev files : Files
files = record {
  absolute = λ path. path;
  lexically_normal = λ path. path;
  join = λ root path. path;
  parent_path = λ path. path;
  is_absolute = λ path. false;
  generic_string = λ path. path;
  exists = λ path. true;
  is_regular_file = λ path. true;
  content = λ path. none;
}

abbrev app : ResolvedPackage
app = record {
  manifest_path = "/work/spio.toml";
  root_dir = "/work";
  pkg = record {
    name = "acme/app";
    version = "1.0.0";
    edition = "2026";
    publish = false;
    toolchain = record { channel = "stable"; implicit_std = true };
    lib = some (record { path = "src/lib.styio" });
    bins = record { name = "app"; path = "src/main.styio" } ∷ [];
    tests = [];
    dependencies = [];
    dev_dependencies = [];
  };
  id = "app";
  source_kind = "path";
  git = none;
  rev = none;
  registry = none;
  sha256 = none;
  repo_hash = none;
  snapshot_root = none;
  dependencies = [];
  dependency_aliases = [];
}

abbrev request : String → BuildPlanRequest
request intent = record {
  manifest_path = "/work/spio.toml";
  intent = intent;
  package_name = none;
  bin_name = none;
  test_name = none;
  select_lib = false;
  profile = "dev";
  build_mode = "minimal";
  compiler_version = none;
  offline = false;
  vendor_root = none;
}

abbrev toolchain : ProjectToolchainState
toolchain = record {
  mode = "build";
  channel = "stable";
  build_mode = "minimal";
  risk_class = "trusted";
  preferred_execution_lane = "binary";
  security_profile = "default";
  source_revision = none;
}

abbrev options : WorkflowInvocationOptions
options = record {
  locked = false;
  offline = false;
  styio_bin = none;
  allow_fetch = true;
  assume_yes = false;
  non_interactive = false;
  source_root = none;
  source_revision = none;
}

abbrev target : SelectedTarget
target = record { pkg = "app"; kind = "bin"; name = "app"; file = "src/main.styio" }

runs_binary : resolve_entry_target files (request "run") app ≡ ok target
unfolding resolve_entry_target
runs_binary = refl

refuses_run_of_library :
    validate_workflow_invocation "run"
      (record (request "run") { select_lib = true })
      toolchain
      options
    ≡ some "run does not accept --lib"
unfolding validate_workflow_invocation ◌or_else◌ reject_if
refuses_run_of_library = refl

validate_workflow_invocation-Fits_example : Fits files app "run" target
unfolding validate_workflow_invocation resolve_entry_target ◌or_else◌ reject_if
validate_workflow_invocation-Fits_example =
    validate_workflow_invocation-Fits files app "run" (request "run") toolchain options target refl
      refl refl
