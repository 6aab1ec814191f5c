-- ===== src/Registry/Examples.antt =====
-- The theorems on registry writes at one token.
use styio_platform.Registry.{package_pattern_matches}
use styio_platform.Base.Dict.{put}
use styio_platform.Base.Text.{strip_prefix}
use styio_platform.Base.Dict.{get}
use styio_platform.Base.{
  String, concat, ◌≡◌, ◌≢◌, ◌⊎◌, ◌↔◌, refl, true, false, none, some, [], ◌∷◌, eq_refl, ◌==◌, ◌&&◌,
  is_some, if◌then◌else◌,
}
use styio_platform.Json.Tree.{Tree, null}
use styio_platform.Routing.{HttpRequest, post_method}
use styio_platform.Store.Records.{
  RegistryPublishTokenRecord, RegistryPackageReleaseRecord, RegistryPackageOwnerRecord,
}
use styio_platform.Store.State.{MemoryStateStore, empty}
use styio_platform.Store.Registry.{
  upsert_registry_package_release, get_registry_package_release,
  set_registry_package_release_yanked, add_registry_package_owner, remove_registry_package_owner,
  has_registry_package_owner, upsert_registry_publish_token, get_registry_publish_token,
  revoke_registry_publish_token,
}
use styio_platform.Registry.{token_grants, validate_package_name, is_safe_lowercase_identifier}
use styio_platform.Registry.Writers.{revoke-token_grants}
use styio_platform.Registry.Tables.{
  with_yanked, get-set_yanked, has_registry_package_owner-add, has_registry_package_owner-remove,
}
use styio_platform.Registry.Names.{package_pattern_matches_sound, validate_package_name-none}

abbrev token : RegistryPublishTokenRecord
token = record {
  token_id = "tok-000000000001";
  token_hash = "hash:secret";
  owner_id = "node-1";
  scopes = "package:publish" ∷ [];
  package_patterns = "acme/*" ∷ [];
  expires_at = "";
  revoked_at = "";
  created_at = "2026-04-24T00:00:00Z";
}

abbrev store : MemoryStateStore Tree
store = upsert_registry_publish_token empty token

-- A function that stands for Sha256Bytes.
abbrev hash : String → String
hash s = concat "hash:" s

abbrev request : HttpRequest Tree
request = record {
  method = post_method;
  path = "/api/spio-registry-control/v1/publish";
  headers = ("authorization", "Bearer secret") ∷ [];
  body = null;
  identity = none;
}

differs : (s t : String) → (s == t) ≡ false → s ≢ t
differs s t h e = cc (h, e, eq_refl s)

revoke-token_grants_example :
    (q : RegistryPublishTokenRecord) × (get_registry_publish_token
        (revoke_registry_publish_token store "tok-000000000001" "2026-05-01T00:00:00Z").0
        "tok-000000000001"
      ≡ some q)
    × (token_grants "2026-05-02T00:00:00Z" q "package:publish" "acme/tool" ≡ false)
unfolding get_registry_publish_token get upsert_registry_publish_token put empty
revoke-token_grants_example =
    revoke-token_grants store "tok-000000000001" "2026-05-01T00:00:00Z" "2026-05-02T00:00:00Z"
      "package:publish" "acme/tool" token (differs "2026-05-01T00:00:00Z" "" refl) refl

abbrev wildcard : String
wildcard = "acme/*"

abbrev tool : String
tool = "acme/tool"

package_pattern_matches_sound_example :
    (wildcard ≡ "*")
    ⊎ (wildcard ≡ tool)
    ⊎ ((space : String) × (name : String) × (wildcard ≡ concat space "/*")
        × (tool ≡ concat (concat space "/") name))
unfolding package_pattern_matches strip_prefix
package_pattern_matches_sound_example = package_pattern_matches_sound wildcard tool refl

validate_package_name-none_example : (validate_package_name tool ≡ none) ↔ (
    (space : String) × (name : String) × (tool ≡ concat space (String.◌∷◌ "/" name))
    × (is_safe_lowercase_identifier space ≡ true)
    × (is_safe_lowercase_identifier name ≡ true))
validate_package_name-none_example = validate_package_name-none tool

abbrev release : String → RegistryPackageReleaseRecord Tree
release version = record {
  package_id = "acme/tool";
  version = version;
  edition = "2026";
  manifest_sha256 = "m";
  source_artifact_sha256 = "s";
  dependencies = null;
  publisher_id = "node-1";
  published_at = "2026-04-24T00:00:00Z";
  yanked = false;
  yanked_reason = "";
}

abbrev owner : RegistryPackageOwnerRecord
owner = record {
  package_id = "acme/tool";
  owner_id = "node-1";
  owner_kind = "user";
  role = "owner";
  added_by = "operator";
  added_at = "2026-04-24T00:00:00Z";
}

-- Two releases and one owner.
abbrev stocked : MemoryStateStore Tree
stocked =
    add_registry_package_owner
      (upsert_registry_package_release (upsert_registry_package_release empty (release "1.0.0"))
        (release "2.0.0"))
      owner

valid_tool : validate_package_name "acme/tool" ≡ none
unfolding validate_package_name styio_platform.Base.Text.all_chars
valid_tool = refl

get-set_yanked_example :
    ((set_registry_package_release_yanked stocked "acme/tool" "1.0.0" true "broken").1
      ≡ is_some (get_registry_package_release stocked "acme/tool" "1.0.0"))
    × (get_registry_package_release
          (set_registry_package_release_yanked stocked "acme/tool" "1.0.0" true "broken").0
          "acme/tool"
          "2.0.0"
        ≡ (if "acme/tool" == "acme/tool" && "1.0.0" == "2.0.0"
            then with_yanked true "broken"
                (get_registry_package_release stocked "acme/tool" "2.0.0")
            else get_registry_package_release stocked "acme/tool" "2.0.0"))
get-set_yanked_example =
    get-set_yanked stocked "acme/tool" "1.0.0" "broken" "acme/tool" "2.0.0" true valid_tool
      valid_tool

-- The yanked release is found with its flag, the other one without it.
yanks_one_version :
    ((set_registry_package_release_yanked stocked "acme/tool" "1.0.0" true "broken").1 ≡ true)
    × (get_registry_package_release
          (set_registry_package_release_yanked stocked "acme/tool" "1.0.0" true "broken").0
          "acme/tool"
          "1.0.0"
        ≡ some (record (release "1.0.0") { yanked = true; yanked_reason = "broken" }))
    × (get_registry_package_release
          (set_registry_package_release_yanked stocked "acme/tool" "1.0.0" true "broken").0
          "acme/tool"
          "2.0.0"
        ≡ some (release "2.0.0"))
unfolding set_registry_package_release_yanked get_registry_package_release get
    add_registry_package_owner upsert_registry_package_release put empty
    styio_platform.Base.Order.text_lt
yanks_one_version = (refl, refl, refl)

abbrev node : String
node = "node-1"

abbrev stranger : String
stranger = "node-2"

has_registry_package_owner-add_example :
    (has_registry_package_owner (add_registry_package_owner stocked owner) tool stranger ≡ true) ↔ (
      ((owner.package_id ≡ tool) × (owner.owner_id ≡ stranger))
      ⊎ (has_registry_package_owner stocked tool stranger ≡ true))
has_registry_package_owner-add_example =
    has_registry_package_owner-add stocked owner tool stranger valid_tool valid_tool

has_registry_package_owner-remove_example :
    ((has_registry_package_owner (remove_registry_package_owner stocked tool node).0 tool node
        ≡ true)
      ↔ ((¬ ((tool ≡ tool) × (node ≡ node)))
          × (has_registry_package_owner stocked tool node ≡ true)))
    × ((remove_registry_package_owner stocked tool node).1
        ≡ has_registry_package_owner stocked tool node)
has_registry_package_owner-remove_example =
    has_registry_package_owner-remove stocked tool node tool node valid_tool valid_tool
