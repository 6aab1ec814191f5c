-- ===== src/Plan/Target/Declared.antt =====
-- What ResolveEntryTarget (CompilePlan.cpp) returns is a target of the package, and its file exists.
use styio_platform.Base.{
  String, ◌≡◌, ◌∙◌, ◌≢◌, ◌⊎◌, inl, inr, refl, true, false, Option, none, some, List, [], ◌∷◌, ◌==◌,
  eq_iff, if◌then◌else◌, Bool-cases,
}
use mathlib.Core.List.{Memᴰ}
use styio_platform.Base.Ensures.{Ensures, Ensures-mono, >>-Ensures, if-Ensures}
use styio_platform.Base.Files.{Files}
use styio_platform.Manifest.{LibTarget, BinTarget, TestTarget}
use styio_platform.Resolve.{ResolvedPackage}
use styio_platform.Plan.{BuildPlanRequest}
use styio_platform.Plan.Target.{
  SelectedTarget, absolute_target_path, require_existing_source_file, selected, select_lib,
  select_bin, select_test, only_test, only_bin, only_target, require_lib, check_selection,
  default_target, named_target, resolve_entry_target,
}

module _ (files : Files) (pkg : ResolvedPackage) where
  -- The target that `selected` was asked for, with a file that exists.
  pub record IsSelected (kind name path : String) (t : SelectedTarget) : Type 0 where
    pub of_package : t.pkg ≡ pkg.id
    pub of_kind : t.kind ≡ kind
    pub of_name : t.name ≡ name
    pub of_file : t.file ≡ absolute_target_path files pkg path
    pub exists : files.exists t.file ≡ true
    pub regular : files.is_regular_file t.file ≡ true

  abbrev pub IsLibOf : Option LibTarget → SelectedTarget → Type 0
  IsLibOf lib t = (l : LibTarget) × (lib ≡ some l) × IsSelected "lib" pkg.pkg.name l.path t

  abbrev pub IsBin : List BinTarget → SelectedTarget → Type 0
  IsBin bins t = (b : BinTarget) × Memᴰ b bins × IsSelected "bin" b.name b.path t

  abbrev pub IsTest : List TestTarget → SelectedTarget → Type 0
  IsTest tests t = (s : TestTarget) × Memᴰ s tests × IsSelected "test" s.name s.path t

  -- A library, binary or test of the package's manifest.
  abbrev pub IsDeclared : SelectedTarget → Type 0
  IsDeclared t = IsLibOf pkg.pkg.lib t ⊎ IsBin pkg.pkg.bins t ⊎ IsTest pkg.pkg.tests t

  selected-IsSelected :
      (kind context name path : String)
      → Ensures (IsSelected kind name path) (selected files pkg kind context name path)
  unfolding selected require_existing_source_file
  selected-IsSelected kind context name path =
      elim (Bool-cases (files.exists (absolute_target_path files pkg path))) [
        | inl e ↦ elim (Bool-cases (files.is_regular_file (absolute_target_path files pkg path))) [
          | inl r ↦
              rw (e, r)
                (record {
                  of_package = refl;
                  of_kind = refl;
                  of_name = refl;
                  of_file = refl;
                  exists = e;
                  regular = r;
                })
          | inr r ↦ rw (e, r) tt
        ]
        | inr e ↦ rw e tt
      ]

  select_bin-IsBin :
      (name : String) (bins : List BinTarget)
      → Ensures (λ t. IsBin bins t × (t.name ≡ name)) (select_bin files pkg name bins)
  unfolding select_bin
  select_bin-IsBin name [] = tt
  select_bin-IsBin name (b ∷ bins) = elim (Bool-cases (b.name == name)) [
    | inl same ↦ rw same (
        Ensures-mono (IsSelected "bin" b.name b.path) (λ t. IsBin (b ∷ bins) t × (t.name ≡ name)) _
          (λ t s. ((b, Memᴰ.head refl, s), s.of_name ∙ (eq_iff b.name name).0 same))
          (selected-IsSelected "bin" "binary" b.name b.path))
    | inr other ↦ rw other (
        Ensures-mono (λ t. IsBin bins t × (t.name ≡ name))
          (λ t. IsBin (b ∷ bins) t × (t.name ≡ name)) _ (λ t (s, e). ((s.0, Memᴰ.tail s.1, s.2), e))
          (select_bin-IsBin name bins))
  ]

  select_test-IsTest :
      (name : String) (tests : List TestTarget)
      → Ensures (λ t. IsTest tests t × (t.name ≡ name)) (select_test files pkg name tests)
  unfolding select_test
  select_test-IsTest name [] = tt
  select_test-IsTest name (b ∷ tests) = elim (Bool-cases (b.name == name)) [
    | inl same ↦ rw same (
        Ensures-mono (IsSelected "test" b.name b.path) (λ t. IsTest (b ∷ tests) t × (t.name ≡ name))
          _ (λ t s. ((b, Memᴰ.head refl, s), s.of_name ∙ (eq_iff b.name name).0 same))
          (selected-IsSelected "test" "test" b.name b.path))
    | inr other ↦ rw other (
        Ensures-mono (λ t. IsTest tests t × (t.name ≡ name))
          (λ t. IsTest (b ∷ tests) t × (t.name ≡ name)) _
          (λ t (s, e). ((s.0, Memᴰ.tail s.1, s.2), e)) (select_test-IsTest name tests))
  ]

  only_bin-IsBin : (bins : List BinTarget) → Ensures (IsBin bins) (only_bin files pkg bins)
  unfolding only_bin
  only_bin-IsBin [] = tt
  only_bin-IsBin (b ∷ []) =
      Ensures-mono (IsSelected "bin" b.name b.path) (IsBin (b ∷ [])) _
        (λ t s. (b, Memᴰ.head refl, s)) (selected-IsSelected "bin" "binary" b.name b.path)
  only_bin-IsBin (b ∷ c ∷ bins) = tt

  only_test-IsTest : (tests : List TestTarget) → Ensures (IsTest tests) (only_test files pkg tests)
  unfolding only_test
  only_test-IsTest [] = tt
  only_test-IsTest (b ∷ []) =
      Ensures-mono (IsSelected "test" b.name b.path) (IsTest (b ∷ [])) _
        (λ t s. (b, Memᴰ.head refl, s)) (selected-IsSelected "test" "test" b.name b.path)
  only_test-IsTest (b ∷ c ∷ tests) = tt

  only_target-IsLib :
      (lib : Option LibTarget) (bins : List BinTarget)
      → Ensures (λ t. IsLibOf lib t ⊎ IsBin bins t) (only_target files pkg lib bins)
  unfolding only_target
  only_target-IsLib (some l) [] =
      Ensures-mono (IsSelected "lib" pkg.pkg.name l.path) (λ t. IsLibOf (some l) t ⊎ IsBin [] t) _
        (λ t s. inl (l, refl, s)) (selected-IsSelected "lib" "library" pkg.pkg.name l.path)
  only_target-IsLib none (b ∷ []) =
      Ensures-mono (IsSelected "bin" b.name b.path) (λ t. IsLibOf none t ⊎ IsBin (b ∷ []) t) _
        (λ t s. inr (b, Memᴰ.head refl, s)) (selected-IsSelected "bin" "binary" b.name b.path)
  only_target-IsLib none [] = tt
  only_target-IsLib none (b ∷ c ∷ bins) = tt
  only_target-IsLib (some l) (b ∷ bins) = tt

  -- The target that a request's intent and names ask for.
  abbrev pub IsChosen : String → Option String → Option String → SelectedTarget → Type 0
  IsChosen intent (some bin) test t = IsBin pkg.pkg.bins t × (t.name ≡ bin)
  IsChosen intent none (some test) t = IsTest pkg.pkg.tests t × (t.name ≡ test)
  IsChosen intent none none t =
      ((intent ≡ "test") × IsTest pkg.pkg.tests t)
      ⊎ ((intent ≡ "run") × IsBin pkg.pkg.bins t)
      ⊎ ((intent ≢ "test") × (intent ≢ "run") × (IsLibOf pkg.pkg.lib t ⊎ IsBin pkg.pkg.bins t))

  default_target-IsChosen :
      (request : BuildPlanRequest)
      → Ensures (IsChosen request.intent none none) (default_target files request pkg)
  unfolding default_target
  default_target-IsChosen request = elim (Bool-cases (request.intent == "test")) [
    | inl test ↦ rw test (
        Ensures-mono (IsTest pkg.pkg.tests) (IsChosen request.intent none none) _
          (λ t s. inl ((eq_iff request.intent "test").0 test, s)) (only_test-IsTest pkg.pkg.tests))
    | inr no_test ↦ elim (Bool-cases (request.intent == "run")) [
      | inl run ↦
          rw (no_test, run)
            (Ensures-mono (IsBin pkg.pkg.bins) (IsChosen request.intent none none) _
              (λ t s. inr (inl ((eq_iff request.intent "run").0 run, s)))
              (only_bin-IsBin pkg.pkg.bins))
      | inr no_run ↦
          rw (no_test, no_run)
            (Ensures-mono (λ t. IsLibOf pkg.pkg.lib t ⊎ IsBin pkg.pkg.bins t)
              (IsChosen request.intent none none) _
              (λ t s. inr (
                inr (
                  (λ e. cc (no_test, (eq_iff request.intent "test").1 e)),
                  (λ e. cc (no_run, (eq_iff request.intent "run").1 e)),
                  s,
                )))
              (only_target-IsLib pkg.pkg.lib pkg.pkg.bins))
    ]
  ]

  named_target-IsChosen :
      (request : BuildPlanRequest) (bin test : Option String)
      → Ensures (IsChosen request.intent bin test) (named_target files request pkg bin test)
  unfolding named_target
  named_target-IsChosen request (some bin) test = select_bin-IsBin bin pkg.pkg.bins
  named_target-IsChosen request none (some test) = select_test-IsTest test pkg.pkg.tests
  named_target-IsChosen request none none = default_target-IsChosen request

  -- What the library is selected for.
  abbrev pub IsLibChosen : String → SelectedTarget → Type 0
  IsLibChosen intent t = (intent ≢ "run") × (intent ≢ "test") × IsLibOf pkg.pkg.lib t

  require_lib-IsLibOf : (lib : Option LibTarget) → Ensures (IsLibOf lib) (require_lib files pkg lib)
  unfolding require_lib
  require_lib-IsLibOf none = tt
  require_lib-IsLibOf (some l) =
      Ensures-mono (IsSelected "lib" pkg.pkg.name l.path) (IsLibOf (some l)) _ (λ t s. (l, refl, s))
        (selected-IsSelected "lib" "library" pkg.pkg.name l.path)

  select_lib-IsLibChosen :
      (request : BuildPlanRequest)
      → Ensures (IsLibChosen request.intent) (select_lib files request pkg pkg.pkg.lib)
  unfolding select_lib
  select_lib-IsLibChosen request = elim (Bool-cases (request.intent == "run")) [
    | inl run ↦ rw run tt
    | inr no_run ↦ elim (Bool-cases (request.intent == "test")) [
      | inl test ↦ rw (no_run, test) tt
      | inr no_test ↦
          rw (no_run, no_test)
            (Ensures-mono (IsLibOf pkg.pkg.lib) (IsLibChosen request.intent) _
              (λ t s. (
                (λ e. cc (no_run, (eq_iff request.intent "run").1 e)),
                (λ e. cc (no_test, (eq_iff request.intent "test").1 e)),
                s,
              ))
              (require_lib-IsLibOf pkg.pkg.lib))
    ]
  ]

  -- What ResolveEntryTarget may return: the library if the request selects it, or what its names ask for.
  abbrev pub IsTarget : BuildPlanRequest → SelectedTarget → Type 0
  IsTarget request t =
      ((request.select_lib ≡ true) × IsLibChosen request.intent t)
      ⊎ ((request.select_lib ≡ false)
          × IsChosen request.intent request.bin_name request.test_name t)

  pub resolve_entry_target-IsTarget :
      (request : BuildPlanRequest)
      → Ensures (IsTarget request) (resolve_entry_target files request pkg)
  unfolding resolve_entry_target
  resolve_entry_target-IsTarget request =
      let lib = select_lib files request pkg pkg.pkg.lib in
      let named = named_target files request pkg request.bin_name request.test_name in
      >>-Ensures (IsTarget request) (check_selection request)
        (if request.select_lib then lib else named)
        (if-Ensures (IsTarget request) request.select_lib lib named
          (λ e.
            Ensures-mono (IsLibChosen request.intent) (IsTarget request) lib (λ t s. inl (e, s))
              (select_lib-IsLibChosen request))
          (λ e.
            Ensures-mono (IsChosen request.intent request.bin_name request.test_name)
              (IsTarget request) named (λ t s. inr (e, s))
              (named_target-IsChosen request request.bin_name request.test_name)))
