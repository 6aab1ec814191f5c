-- ===== src/Manifest/Targets.antt =====
-- LoadManifest (Manifest.cpp): the toolchain and the targets of a package that it reads.
use styio_platform.Base.{
  String, ◌≡◌, subst, false, Option, none, some, List, [], ◌∷◌, arith, concat, member, ok,
  ok-injective, >>=-ok,
}
use styio_platform.Base.Files.{Files}
use styio_platform.Manifest.{Toolchain, LibTarget, BinTarget, TestTarget}
use styio_platform.Manifest.Toml.{Toml, Table, require_table, require_string, at_key}
use styio_platform.Manifest.Parse.{require_relative_path}
use styio_platform.Manifest.Load.{
  parse_toolchain, parse_lib, parse_lib_table, parse_target, parse_bins_from, parse_tests_from,
}
use styio_platform.Manifest.Valid.{IsFilled, IsRelative, AreBins, AreTests, IsLib}

module _ (files : Files) (T : Toml) where
  pub parse_toolchain_lem :
      (doc : Table T) (t : Toolchain) → parse_toolchain files T doc ≡ ok t → IsFilled t.channel
  unfolding parse_toolchain
  parse_toolchain_lem doc t h =
      let (table, e1, h1) = >>=-ok (require_table T doc "toolchain" "package manifest") h in
      let (channel, e2, h2) = >>=-ok (require_string T table "channel" "[toolchain]") h1 in
      ground arith

  IsLib-table :
      (table : Option (Table T)) (l : Option LibTarget)
      → parse_lib_table files T table ≡ ok l
      → IsLib files l
  unfolding parse_lib_table require_relative_path
  IsLib-table none l h = subst (IsLib files) (ok-injective h) tt
  IsLib-table (some table) none h = ground arith
  IsLib-table (some table) (some lib) h = ground arith

  pub parse_lib-IsLib :
      (doc : Table T) (l : Option LibTarget) → parse_lib files T doc ≡ ok l → IsLib files l
  unfolding parse_lib
  parse_lib-IsLib doc l h = IsLib-table (at_key T T.as_table doc "lib") l h

  parse_target_lem :
      (word : String) (seen : List String) (table : Option (Table T)) (name target : String)
      → parse_target files T word seen table ≡ ok (name, target)
      → IsFilled name × IsRelative files target × (member name seen ≡ false)
  unfolding parse_target require_relative_path
  parse_target_lem word seen none name target h = cc
  parse_target_lem word seen (some table) name target h =
      let (n, e1, h1) = >>=-ok (require_string T table "name" (concat "[[" (concat word "]]"))) h in
      let (t, e2, h2) =
        >>=-ok (require_string T table "path" (concat "[[" (concat word "]]"))) h1 in
      (ground arith, ground arith, ground arith)

  pub parse_bins_from-AreBins :
      (seen : List String) (nodes : List T.Node) (bins : List BinTarget)
      → parse_bins_from files T seen nodes ≡ ok bins
      → AreBins files seen bins
  unfolding parse_bins_from
  parse_bins_from-AreBins seen [] bins h = subst (AreBins files seen) (ok-injective h) tt
  parse_bins_from-AreBins seen (node ∷ nodes) bins h =
      let ((name, target), e, h1) = >>=-ok (parse_target files T "bin" seen (T.as_table node)) h in
      let (rest, e2, h2) = >>=-ok (parse_bins_from files T (name ∷ seen) nodes) h1 in
      let (filled, relative, new) = parse_target_lem "bin" seen (T.as_table node) name target e in
      subst (AreBins files seen) (ok-injective h2)
        (filled, relative, new, parse_bins_from-AreBins (name ∷ seen) nodes rest e2)

  pub parse_tests_from-AreTests :
      (seen : List String) (nodes : List T.Node) (tests : List TestTarget)
      → parse_tests_from files T seen nodes ≡ ok tests
      → AreTests files seen tests
  unfolding parse_tests_from
  parse_tests_from-AreTests seen [] tests h = subst (AreTests files seen) (ok-injective h) tt
  parse_tests_from-AreTests seen (node ∷ nodes) tests h =
      let ((name, target), e, h1) = >>=-ok (parse_target files T "test" seen (T.as_table node)) h in
      let (rest, e2, h2) = >>=-ok (parse_tests_from files T (name ∷ seen) nodes) h1 in
      let (filled, relative, new) = parse_target_lem "test" seen (T.as_table node) name target e in
      subst (AreTests files seen) (ok-injective h2)
        (filled, relative, new, parse_tests_from-AreTests (name ∷ seen) nodes rest e2)
