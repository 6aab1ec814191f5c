-- ===== src/Store/Registry.antt =====
-- The package, owner and token operations of MemoryStateStore. Where the source returns a JSON
-- array of serialised records, the operation returns the records.
use styio_platform.Base.{
  ◌+◌, ◌%◌, ◌^◌, String, Bool, true, false, ◌||◌, Option, none, some, List, [], ◌∷◌, ◌==◌,
  if◌then◌else◌, concat,
}
use styio_platform.Base.Dict.{get, put, erase, contains, values, find_first}
use styio_platform.Base.Padded.{padded_number}
use styio_platform.Store.Records.{
  RegistryPackageRecord, RegistryPackageReleaseRecord, RegistryPackageOwnerRecord,
  RegistryPublishTokenRecord,
}
use styio_platform.Store.State.{MemoryStateStore}

abbrev pub keep {ℓ} : {A : Type ℓ} → (A → Bool) → List A → List A
keep p [] = []
keep p (x ∷ xs) = let rest = keep p xs in if p x then x ∷ rest else rest

-- `package_id + "@" + version`
unfoldable pub release_key : String → String → String
release_key package_id version = concat package_id (concat "@" version)

-- `package_id + "/" + owner_id`
unfoldable pub owner_key : String → String → String
owner_key package_id owner_id = concat package_id (concat "/" owner_id)

module _ {V : Type 0} where
  unfoldable pub has_published_release : MemoryStateStore V → String → Bool
  has_published_release s key = contains key s.published_releases

  unfoldable pub record_published_release : MemoryStateStore V → String → V → MemoryStateStore V
  record_published_release s key release = record s {
    published_releases = put key release s.published_releases;
  }

  unfoldable pub list_published_release_payloads : MemoryStateStore V → List V
  list_published_release_payloads s = values s.published_releases

  unfoldable pub upsert_registry_package :
      MemoryStateStore V → RegistryPackageRecord → MemoryStateStore V
  upsert_registry_package s r = record s {
    registry_packages = put r.package_id r s.registry_packages;
  }

  unfoldable pub get_registry_package : MemoryStateStore V → String → Option RegistryPackageRecord
  get_registry_package s package_id = get package_id s.registry_packages

  unfoldable pub list_registry_packages : MemoryStateStore V → List RegistryPackageRecord
  list_registry_packages s = values s.registry_packages

  unfoldable pub upsert_registry_package_release :
      MemoryStateStore V → RegistryPackageReleaseRecord V → MemoryStateStore V
  unfolding release_key
  upsert_registry_package_release s r = record s {
    registry_releases = put (release_key r.package_id r.version) r s.registry_releases;
  }

  unfoldable pub get_registry_package_release :
      MemoryStateStore V → String → String → Option (RegistryPackageReleaseRecord V)
  unfolding release_key
  get_registry_package_release s package_id version =
      get (release_key package_id version) s.registry_releases

  unfoldable pub list_registry_package_releases :
      MemoryStateStore V → String → List (RegistryPackageReleaseRecord V)
  list_registry_package_releases s package_id =
      keep (λ r. r.package_id == package_id) (values s.registry_releases)

  unfoldable pub set_registry_package_release_yanked :
      MemoryStateStore V → String → String → Bool → String → MemoryStateStore V × Bool
  unfolding release_key
  set_registry_package_release_yanked s package_id version yanked reason =
      elim (get (release_key package_id version) s.registry_releases) [
        | none ↦ (s, false)
        | some found ↦ (
          record s {
            registry_releases =
                put (release_key package_id version)
                  (record found { yanked = yanked; yanked_reason = reason }) s.registry_releases;
          },
          true,
        )
      ]

  unfoldable pub add_registry_package_owner :
      MemoryStateStore V → RegistryPackageOwnerRecord → MemoryStateStore V
  unfolding owner_key
  add_registry_package_owner s r = record s {
    registry_owners = put (owner_key r.package_id r.owner_id) r s.registry_owners;
  }

  unfoldable pub remove_registry_package_owner :
      MemoryStateStore V → String → String → MemoryStateStore V × Bool
  unfolding owner_key
  remove_registry_package_owner s package_id owner_id =
      let key = owner_key package_id owner_id in
      (record s { registry_owners = erase key s.registry_owners }, contains key s.registry_owners)

  unfoldable pub has_registry_package_owner : MemoryStateStore V → String → String → Bool
  unfolding owner_key
  has_registry_package_owner s package_id owner_id =
      contains (owner_key package_id owner_id) s.registry_owners

  unfoldable pub list_registry_package_owners :
      MemoryStateStore V → String → List RegistryPackageOwnerRecord
  list_registry_package_owners s package_id =
      keep (λ r. r.package_id == package_id) (values s.registry_owners)

  unfoldable pub next_registry_token_id : MemoryStateStore V → String × MemoryStateStore V
  next_registry_token_id s =
      let n = s.next_registry_token_sequence in
      (
        concat "tok-" (padded_number n 12),
        record s { next_registry_token_sequence = (n + 1) % 2 ^ 64 },
      )

  unfoldable pub upsert_registry_publish_token :
      MemoryStateStore V → RegistryPublishTokenRecord → MemoryStateStore V
  upsert_registry_publish_token s r = record s {
    registry_tokens = put r.token_id r s.registry_tokens;
  }

  unfoldable pub get_registry_publish_token :
      MemoryStateStore V → String → Option RegistryPublishTokenRecord
  get_registry_publish_token s token_id = get token_id s.registry_tokens

  unfoldable pub find_registry_publish_token_by_hash :
      MemoryStateStore V → String → Option RegistryPublishTokenRecord
  find_registry_publish_token_by_hash s token_hash =
      elim (find_first (λ r. r.token_hash == token_hash) s.registry_tokens) [
        | none ↦ none
        | some (key, r) ↦ some r
      ]

  unfoldable pub list_registry_publish_tokens :
      MemoryStateStore V → String → List RegistryPublishTokenRecord
  list_registry_publish_tokens s owner_id =
      keep (λ r. owner_id == "" || r.owner_id == owner_id) (values s.registry_tokens)

  unfoldable pub revoke_registry_publish_token :
      MemoryStateStore V → String → String → MemoryStateStore V × Bool
  revoke_registry_publish_token s token_id revoked_at = elim (get token_id s.registry_tokens) [
    | none ↦ (s, false)
    | some found ↦ (
      record s {
        registry_tokens = put token_id (record found { revoked_at = revoked_at }) s.registry_tokens;
      },
      true,
    )
  ]
