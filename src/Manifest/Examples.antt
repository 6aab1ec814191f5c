-- ===== src/Manifest/Examples.antt =====
-- A manifest of a package with one binary and one dependency. Trees stand for the nodes of toml++.
use styio_platform.Base.{
  concat, String, ◌≡◌, refl, Bool, true, false, Option, none, some, List, [], ◌∷◌, ok,
}
use styio_platform.Base.Dict.{Dict, get}
use styio_platform.Base.Files.{Files}
use styio_platform.Base.Text.{all_chars}
use styio_platform.Json.{ℤ}
use styio_platform.Json.Tree.{
  Tree, str, num, bool, arr, obj, Fields, entry, end, nil, cons, entries_of,
}
use styio_platform.Manifest.{path, ManifestDocument}
use styio_platform.Manifest.Toml.{Toml, Table}
use styio_platform.Manifest.Parse.{matches_semver}
use styio_platform.Manifest.Load.{load_manifest}
use styio_platform.Manifest.Print.{serialize_manifest_canonical, quote_toml_string, written}
use styio_platform.Manifest.Print.Quoted.{read_toml_string, read_toml_string-quote_toml_string}
use styio_platform.Manifest.Valid.{IsManifest, HasDeclared}
use styio_platform.Manifest.Loaded.{load_manifest-IsManifest}

abbrev dict_of : Fields → Dict Tree
dict_of end = []
dict_of (entry k v fs) = (k, v) ∷ dict_of fs

abbrev table_of : Tree → Option (Dict Tree)
table_of (obj fs) = some (dict_of fs)
table_of v = none

abbrev array_of : Tree → Option (List Tree)
array_of (arr vs) = some (entries_of vs)
array_of v = none

abbrev text_of : Tree → Option String
text_of (str s) = some s
text_of v = none

abbrev flag_of : Tree → Option Bool
flag_of (bool b) = some b
flag_of v = none

abbrev integer_of : Tree → Option ℤ
integer_of (num n) = some n
integer_of v = none

abbrev document : Dict Tree
document =
    ("spio", obj (entry "manifest-version" (num (ℤ.pos 1)) end))
    ∷ (
      "package",
      obj (
          entry "name" (str "acme/app")
            (entry "version" (str "1.0.0") (entry "edition" (str "2026") end))),
    )
    ∷ ("toolchain", obj (entry "channel" (str "stable") (entry "implicit-std" (bool true) end)))
    ∷ (
      "bin",
      arr (cons (obj (entry "name" (str "app") (entry "path" (str "src/main.styio") end))) nil),
    )
    ∷ ("dependencies", obj (entry "util" (obj (entry "path" (str "../util") end)) end))
    ∷ []

abbrev toml : Toml
toml = record {
  Node = Tree;
  as_table = table_of;
  as_array = array_of;
  value_string = text_of;
  value_bool = flag_of;
  value_integer = integer_of;
  parse_file = λ path. ok document;
}

abbrev files : Files
files = record {
  absolute = λ path. path;
  lexically_normal = λ path. path;
  join = λ root path. path;
  parent_path = λ path. path;
  is_absolute = λ path. false;
  generic_string = λ path. path;
  exists = λ path. true;
  is_regular_file = λ path. true;
  content = λ path. none;
}

abbrev loaded : ManifestDocument
loaded = record {
  pkg = some (record {
    name = "acme/app";
    version = "1.0.0";
    edition = "2026";
    publish = false;
    toolchain = record { channel = "stable"; implicit_std = true };
    lib = none;
    bins = record { name = "app"; path = "src/main.styio" } ∷ [];
    tests = [];
    dependencies =
        record {
          alias = "util";
          package_name = none;
          source_kind = path;
          source = "../util";
          rev = none;
          version = none;
        }
        ∷ [];
    dev_dependencies = [];
  });
  workspace = none;
}

reads_versions :
    (matches_semver "1.20.3" ≡ true)
    × (matches_semver "1.20" ≡ false)
    × (matches_semver "1..3" ≡ false)
unfolding matches_semver
reads_versions = (refl, refl, refl)

loads_document : load_manifest files toml "/work/spio.toml" ≡ ok loaded
unfolding load_manifest get all_chars
loads_document = refl

load_manifest-IsManifest_example :
    IsManifest files loaded
    × ((doc : Table toml) × (toml.parse_file "/work/spio.toml" ≡ ok doc)
        × HasDeclared toml files doc loaded.pkg)
load_manifest-IsManifest_example =
    load_manifest-IsManifest files toml "/work/spio.toml" loaded loads_document

prints_document :
    serialize_manifest_canonical loaded
    ≡ written (
        "[spio]\nmanifest-version = 1\n\n[package]\nname = \"acme/app\"\nversion = \"1.0.0\"\n"
        ∷ "edition = \"2026\"\npublish = false\n\n[toolchain]\nchannel = \"stable\"\nimplicit-std = true\n"
        ∷ "\n[[bin]]\nname = \"app\"\npath = \"src/main.styio\"\n"
        ∷ "\n[dependencies]\nutil = { path = \"../util\" }\n" ∷ [])
unfolding serialize_manifest_canonical all_chars
prints_document = refl

read_toml_string-quote_toml_string_example :
    read_toml_string (concat (quote_toml_string "a \"quoted\" \\ text") "\n")
    ≡ some ("a \"quoted\" \\ text", "\n")
read_toml_string-quote_toml_string_example =
    read_toml_string-quote_toml_string "a \"quoted\" \\ text" "\n"
