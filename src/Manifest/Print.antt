-- ===== src/Manifest/Print.antt =====
-- Manifest.cpp: SerializeManifestCanonical, which writes a manifest as TOML. What is written to the
-- stream is a text, piece behind piece.
pub mod Quoted
use Prim.Native.Char.{Char, code}
use styio_platform.Base.{
  ℕ, String, Bool, true, false, ◌&&◌, ◌||◌, not, Option, none, some, List, [], ◌∷◌, ◌++◌, map, ◌==◌,
  concat, if◌then◌else◌, leb,
}
use styio_platform.Base.Text.{same_char, all_chars}
use styio_platform.Base.Sorting.{sort_by}
use styio_platform.Registry.{is_lower, is_digit}
use styio_platform.Manifest.{
  DependencySourceKind, path, git, registry, Dependency, Toolchain, LibTarget, BinTarget,
  TestTarget, WorkspaceConfig, PackageConfig, ManifestDocument,
}
use styio_platform.Manifest.Load.{is_nil}

-- `out << a << b << …`
unfoldable pub written : List String → String
written [] = ""
written (s ∷ ss) = concat s (written ss)

-- What std::quoted puts between its quotes: a backslash before each quote and each backslash.
unfoldable pub escaped : String → String
escaped String.[] = String.[]
escaped (String.◌∷◌ c s) =
    let rest = String.◌∷◌ c (escaped s) in
    if same_char c "\"" || same_char c "\\" then String.◌∷◌ "\\" rest else rest

unfoldable pub quote_toml_string : String → String
unfolding escaped
quote_toml_string value = String.◌∷◌ "\"" (concat (escaped value) "\"")

abbrev pub is_upper : Char → Bool
is_upper c = leb (code "A") (code c) && leb (code c) (code "Z")

-- BareKeyRegex, ^[A-Za-z0-9_-]+$
unfoldable pub is_bare_key : String → Bool
is_bare_key value =
    not (value == "")
    && all_chars (λ c. is_upper c || is_lower c || is_digit c || same_char c "_" || same_char c "-")
        value

unfoldable pub quote_toml_key : String → String
unfolding quote_toml_string is_bare_key
quote_toml_key value = if is_bare_key value then value else quote_toml_string value

-- The items with ", " between them.
unfoldable pub comma_separated : List String → List String
comma_separated [] = []
comma_separated (x ∷ []) = x ∷ []
comma_separated (x ∷ y ∷ xs) = x ∷ ", " ∷ comma_separated (y ∷ xs)

-- EmitStringArray with QuoteTomlString, the one formatter that it is given
unfoldable pub emit_string_array : String → List String → List String
unfolding comma_separated quote_toml_string
emit_string_array key values =
    key ∷ " = [" ∷ comma_separated (map quote_toml_string values) ++ "]\n" ∷ []

-- A line `label = "value"`.
unfoldable pub emit_text : String → String → List String
unfolding quote_toml_string
emit_text label value = label ∷ " = " ∷ quote_toml_string value ∷ "\n" ∷ []

-- emit_field, without the comma before it
unfoldable pub emit_field : String → String → String
unfolding quote_toml_string written
emit_field label value = written (label ∷ " = " ∷ quote_toml_string value ∷ [])

abbrev pub value_or_empty : Option String → String
value_or_empty none = ""
value_or_empty (some s) = s

abbrev pub package_field : Option String → List String
package_field none = []
package_field (some name) = emit_field "package" name ∷ []

unfoldable pub source_fields : DependencySourceKind → Dependency → List String
unfolding emit_field
source_fields path d = emit_field "path" d.source ∷ []
source_fields git d = emit_field "git" d.source ∷ emit_field "rev" (value_or_empty d.rev) ∷ []
source_fields registry d =
    emit_field "version" (value_or_empty d.version) ∷ emit_field "registry" d.source ∷ []

unfoldable pub emit_dependency : Dependency → List String
unfolding quote_toml_key comma_separated source_fields emit_field
emit_dependency d =
    quote_toml_key d.alias
      ∷ " = { "
      ∷ comma_separated (package_field d.package_name ++ source_fields d.source_kind d)
    ++ " }\n" ∷ []

-- The pieces that `emit` gives for each item, in the items' order.
unfoldable pub emit_each {ℓ} : {A : Type ℓ} → (A → List String) → List A → List String
emit_each emit [] = []
emit_each emit (x ∷ xs) = emit x ++ emit_each emit xs

unfoldable pub emit_dependency_section : String → List Dependency → List String
unfolding emit_dependency emit_each sort_by
emit_dependency_section section_name dependencies =
    if is_nil dependencies
    then []
    else "["
      ∷ section_name
      ∷ "]\n"
      ∷ emit_each emit_dependency (sort_by (λ d. d.alias) dependencies)

abbrev pub boolean_text : Bool → String
boolean_text true = "true"
boolean_text false = "false"

unfoldable pub emit_lib : Option LibTarget → List String
unfolding emit_text
emit_lib none = []
emit_lib (some lib) = "\n[lib]\n" ∷ emit_text "path" lib.path

unfoldable pub emit_bins : List BinTarget → List String
unfolding emit_text emit_each sort_by
emit_bins bins =
    emit_each (λ b. "\n[[bin]]\n" ∷ emit_text "name" b.name ++ emit_text "path" b.path)
      (sort_by (λ b. b.name) bins)

unfoldable pub emit_tests : List TestTarget → List String
unfolding emit_text emit_each sort_by
emit_tests tests =
    emit_each (λ t. "\n[[test]]\n" ∷ emit_text "name" t.name ++ emit_text "path" t.path)
      (sort_by (λ t. t.name) tests)

-- An empty line before a section that is not empty.
abbrev pub after_line : List Dependency → List String → List String
after_line dependencies section = if is_nil dependencies then [] else "\n" ∷ section

unfoldable pub emit_package : PackageConfig → List String
unfolding emit_text emit_lib emit_bins emit_tests emit_dependency_section
emit_package p =
    ("\n[package]\n" ∷ emit_text "name" p.name)
    ++ emit_text "version" p.version
    ++ emit_text "edition" p.edition
    ++ ("publish = "
        ∷ boolean_text p.publish
        ∷ "\n"
        ∷ "\n[toolchain]\n"
        ∷ emit_text "channel" p.toolchain.channel)
    ++ ("implicit-std = " ∷ boolean_text p.toolchain.implicit_std ∷ "\n" ∷ emit_lib p.lib)
    ++ emit_bins p.bins
    ++ emit_tests p.tests
    ++ after_line p.dependencies (emit_dependency_section "dependencies" p.dependencies)
    ++ after_line p.dev_dependencies (emit_dependency_section "dev-dependencies" p.dev_dependencies)

unfoldable pub emit_workspace : WorkspaceConfig → List String
unfolding emit_string_array emit_text
emit_workspace w =
    ("\n[workspace]\n" ∷ emit_string_array "members" w.members)
    ++ (if is_nil w.exclude then [] else emit_string_array "exclude" w.exclude)
    ++ emit_text "resolver" w.resolver

abbrev pub emit_if {ℓ} : {A : Type ℓ} → (A → List String) → Option A → List String
emit_if emit none = []
emit_if emit (some a) = emit a

unfoldable pub serialize_manifest_canonical : ManifestDocument → String
unfolding emit_package emit_workspace written
serialize_manifest_canonical m = written (
    "[spio]\n" ∷ "manifest-version = 1\n" ∷ emit_if emit_package m.pkg
    ++ emit_if emit_workspace m.workspace)
