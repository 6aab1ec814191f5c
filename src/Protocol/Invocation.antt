-- ===== src/Protocol/Invocation.antt =====
-- What the checks of a workflow invocation (ValidateWorkflowInvocationImpl, Job.cpp) mean for the
-- target that the compile plan takes (ResolveEntryTarget, CompilePlan.cpp).
use styio_platform.Base.{
  String, ◌≡◌, ◌∙◌, ◌⊎◌, inl, inr, refl, sym, Bool, false, ◌&&◌, Option, none, some, ◌==◌, arith,
  eq_iff, is_some, ok,
}
use styio_platform.Base.Files.{Files}
use styio_platform.Base.Ensures.{Ensures_ok}
use styio_platform.Resolve.{ResolvedPackage}
use styio_platform.Execution.{ProjectToolchainState}
use styio_platform.Plan.{BuildPlanRequest}
use styio_platform.Plan.Target.{SelectedTarget, resolve_entry_target}
use styio_platform.Plan.Target.Declared.{
  IsTarget, IsChosen, IsLibOf, IsBin, IsTest, resolve_entry_target-IsTarget,
}
use styio_platform.Protocol.{
  WorkflowInvocationOptions, validate_targets, validate_workflow_invocation,
}
use styio_platform.Base.Checks.{or_else-none, reject_if-none}

differ : (a b : String) → (a == b) ≡ false → a ≡ b → ⊥
differ a b h e = cc (h, (eq_iff a b).1 e)

-- The kinds of target that an action works on.
pub record Fits (files : Files) (pkg : ResolvedPackage) (action : String) (t : SelectedTarget)
    : Type 0 where
  pub run : action ≡ "run" → IsBin files pkg pkg.pkg.bins t
  pub test : action ≡ "test" → IsTest files pkg pkg.pkg.tests t
  pub build : action ≡ "build" → IsLibOf files pkg pkg.pkg.lib t ⊎ IsBin files pkg pkg.pkg.bins t

module _ (action : String) (request : BuildPlanRequest) where
  -- What the checks of the targets rule out.
  pub record IsAllowed : Type 0 where
    pub run_lib : action ≡ "run" → request.select_lib ≡ false
    pub run_test : action ≡ "run" → request.test_name ≡ none
    pub test_lib : action ≡ "test" → request.select_lib ≡ false
    pub test_bin : action ≡ "test" → request.bin_name ≡ none
    pub build_test : action ≡ "build" → request.test_name ≡ none

  is_some-none : (o : Option String) → is_some o ≡ false → o ≡ none
  is_some-none none h = refl
  is_some-none (some s) h = cc

  both_false :
      (word : String) (b : Bool) → (action == word && b) ≡ false → action ≡ word → b ≡ false
  both_false word b h e = ground (arith, (eq_iff action word).1 e)

  pub validate_targets-IsAllowed : validate_targets action request ≡ none → IsAllowed
  unfolding validate_targets
  validate_targets-IsAllowed h =
      let (a, h1) = or_else-none _ _ h in
      let (b, h2) = or_else-none _ _ h1 in
      let (c, h3) = or_else-none _ _ h2 in
      let (d, e) = or_else-none _ _ h3 in
      record {
        run_lib = λ x. both_false "run" request.select_lib (reject_if-none _ _ a) x;
        run_test = λ x.
            is_some-none _ (both_false "run" (is_some request.test_name) (reject_if-none _ _ b) x);
        test_lib = λ x. both_false "test" request.select_lib (reject_if-none _ _ c) x;
        test_bin = λ x.
            is_some-none _ (both_false "test" (is_some request.bin_name) (reject_if-none _ _ d) x);
        build_test = λ x.
            is_some-none _
              (both_false "build" (is_some request.test_name) (reject_if-none _ _ e) x);
      }

  pub validate-IsAllowed :
      (state : ProjectToolchainState) (options : WorkflowInvocationOptions)
      → validate_workflow_invocation action request state options ≡ none
      → IsAllowed
  unfolding validate_workflow_invocation
  validate-IsAllowed state options h =
      let (a, h1) = or_else-none _ _ h in
      let (b, h2) = or_else-none _ _ h1 in
      let (c, h3) = or_else-none _ _ h2 in
      let (d, targets) = or_else-none _ _ h3 in validate_targets-IsAllowed targets

  module _ (files : Files) (pkg : ResolvedPackage) (t : SelectedTarget)
      (intended : request.intent ≡ action) where
    -- A request that names a binary.
    abbrev Chosen : Option String → Option String → Type 0
    Chosen bin test = IsChosen files pkg request.intent bin test t

    run-Chosen :
        (bin test : Option String)
        → test ≡ none
        → action ≡ "run"
        → Chosen bin test
        → IsBin files pkg pkg.pkg.bins t
    run-Chosen (some b) test no_test e c = c.0
    run-Chosen none (some n) no_test e c = cc
    run-Chosen none none no_test e (inl (i, c)) =
        absurd (differ "test" "run" refl (sym i ∙ (intended ∙ e)))
    run-Chosen none none no_test e (inr (inl (i, c))) = c
    run-Chosen none none no_test e (inr (inr (i, j, c))) = absurd (j (intended ∙ e))

    IsTest-Chosen :
        (bin test : Option String)
        → bin ≡ none
        → action ≡ "test"
        → Chosen bin test
        → IsTest files pkg pkg.pkg.tests t
    IsTest-Chosen (some b) test no_bin e c = cc
    IsTest-Chosen none (some n) no_bin e c = c.0
    IsTest-Chosen none none no_bin e (inl (i, c)) = c
    IsTest-Chosen none none no_bin e (inr (inl (i, c))) =
        absurd (differ "run" "test" refl (sym i ∙ (intended ∙ e)))
    IsTest-Chosen none none no_bin e (inr (inr (i, j, c))) = absurd (i (intended ∙ e))

    build-Chosen :
        (bin test : Option String)
        → test ≡ none
        → action ≡ "build"
        → Chosen bin test
        → IsLibOf files pkg pkg.pkg.lib t ⊎ IsBin files pkg pkg.pkg.bins t
    build-Chosen (some b) test no_test e c = inr c.0
    build-Chosen none (some n) no_test e c = cc
    build-Chosen none none no_test e (inl (i, c)) =
        absurd (differ "test" "build" refl (sym i ∙ (intended ∙ e)))
    build-Chosen none none no_test e (inr (inl (i, c))) = inr c
    build-Chosen none none no_test e (inr (inr (i, j, c))) = c

    target-Fits : IsAllowed → IsTarget files pkg request t → Fits files pkg action t
    target-Fits a (inl (lib, l)) = record {
      run = λ e. absurd (l.0 (intended ∙ e));
      test = λ e. absurd (l.1 (intended ∙ e));
      build = λ e. inl l.2;
    }
    target-Fits a (inr (named, c)) = record {
      run = λ e. run-Chosen request.bin_name request.test_name (a.run_test e) e c;
      test = λ e. IsTest-Chosen request.bin_name request.test_name (a.test_bin e) e c;
      build = λ e. build-Chosen request.bin_name request.test_name (a.build_test e) e c;
    }

-- Where the checks of an invocation let an action pass, and the compile plan is made for the same
-- intent, the target is of the action's kind: a run has a binary of the package, a test one of its
-- tests, a build its library or a binary. The target's file exists and is a regular file.
pub validate_workflow_invocation-Fits :
    (files : Files) (pkg : ResolvedPackage) (action : String) (request : BuildPlanRequest)
    (state : ProjectToolchainState) (options : WorkflowInvocationOptions) (t : SelectedTarget)
    → validate_workflow_invocation action request state options ≡ none
    → request.intent ≡ action
    → resolve_entry_target files request pkg ≡ ok t
    → Fits files pkg action t
validate_workflow_invocation-Fits files pkg action request state options t valid intended found =
    target-Fits action request files pkg t intended
      (validate-IsAllowed action request state options valid)
      (Ensures_ok (IsTarget files pkg request) (resolve_entry_target files request pkg) t
        (resolve_entry_target-IsTarget files pkg request) found)
