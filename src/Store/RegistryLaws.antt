-- ===== src/Store/RegistryLaws.antt =====
-- The package registry's tables: yanking, ownership, and the numbers of repository versions.
use mathlib.Core.Option.{some-injective}
use styio_platform.Base.{
  ℕ, ◌+◌, ◌-◌, ◌^◌, ◌≤◌, ◌<◌, All, String, ◌≡◌, ◌≢◌, ◌↔◌, refl, ap, subst, inl, inr, ◌⊎◌, Bool,
  true, ◌&&◌, none, some, List, [], ◌∷◌, ◌==◌, if◌then◌else◌, ltb, arith, eq_iff, Bool-cases,
  Option-cases, ◌∙◌,
}
use styio_platform.Base.Dict.{Dict, get, values, get-put, get-erase}
use styio_platform.Store.Records.{RegistryPackageOwnerRecord, RegistryRepositoryVersionRecord}
use styio_platform.Store.State.{MemoryStateStore}
use styio_platform.Store.Registry.{
  release_key, owner_key, get_registry_package_release, set_registry_package_release_yanked,
  add_registry_package_owner, remove_registry_package_owner, has_registry_package_owner,
}
use styio_platform.Store.Publications.{max_sequence, next_repository_version_sequence}

max_sequence-ge :
    (id : String) (n : ℕ) (rs : List RegistryRepositoryVersionRecord) → n ≤ max_sequence id n rs
unfolding max_sequence
max_sequence-ge id n [] = omega arith
max_sequence-ge id n (r ∷ rs) =
    let step : n ≤ (if r.repository_id == id && ltb n r.sequence then r.sequence else n) =
      ground arith in
    omega (
      arith,
      max_sequence-ge id (if r.repository_id == id && ltb n r.sequence then r.sequence else n) rs,
    )

taken :
    (q : RegistryRepositoryVersionRecord) (id : String) (n : ℕ)
    → q.repository_id ≡ id
    → q.sequence ≤ (if q.repository_id == id && ltb n q.sequence then q.sequence else n)
taken q id n own = ground (arith, eq_iff q.repository_id id)

max_sequence-get :
    (id k : String) (n : ℕ) (m : Dict RegistryRepositoryVersionRecord)
    (r : RegistryRepositoryVersionRecord)
    → get k m ≡ some r
    → r.repository_id ≡ id
    → r.sequence ≤ max_sequence id n (values m)
unfolding max_sequence get
max_sequence-get id k n [] r h e = cc
max_sequence-get id k n ((j, q) ∷ m) r h e =
    let next = if q.repository_id == id && ltb n q.sequence then q.sequence else n in
    elim (Bool-cases (j == k)) [
      | inl here ↦
          let same : q ≡ r = some-injective _ _ (rw (get, here) at h) in
          let own : q.repository_id ≡ id =
            ap (λ (x : RegistryRepositoryVersionRecord). x.repository_id) same ∙ e in
          let level : q.sequence ≡ r.sequence =
            ap (λ (x : RegistryRepositoryVersionRecord). x.sequence) same in
          omega (arith, level, taken q id n own, max_sequence-ge id next (values m))
      | inr later ↦ max_sequence-get id k next m r (rw (get, later) at h) e
    ]

-- A version of another repository, or one that is numbered below the greatest int.
abbrev pub IsNumbered : String → RegistryRepositoryVersionRecord → Type 0
IsNumbered id r = (r.repository_id ≢ id) ⊎ (r.sequence < 2 ^ 31 - 1)

max_sequence-lt :
    (id : String) (n : ℕ) (rs : List RegistryRepositoryVersionRecord)
    → n < 2 ^ 31 - 1
    → All (IsNumbered id) rs
    → max_sequence id n rs < 2 ^ 31 - 1
unfolding max_sequence
max_sequence-lt id n [] small bounded = small
max_sequence-lt id n (r ∷ rs) small (first, rest) =
    max_sequence-lt id (if r.repository_id == id && ltb n r.sequence then r.sequence else n) rs
      (elim (Bool-cases (r.repository_id == id)) [
        | inl own ↦ elim first [
          | inl foreign ↦ absurd (foreign ((eq_iff r.repository_id id).0 own))
          | inr b ↦ ground (arith, b, small)
        ]
        | inr other ↦ rw other small
      ])
      rest

module _ {V : Type 0} where
  -- Where every version that the repository has is numbered below the greatest int, its next version
  -- gets a number: an int that is greater than that of each version of the repository.
  pub next_repository_version_sequence-lt :
      (s : MemoryStateStore V) (id k : String) (r : RegistryRepositoryVersionRecord)
      → All (IsNumbered id) (values s.registry_repository_versions)
      → get k s.registry_repository_versions ≡ some r
      → r.repository_id ≡ id
      → (n : ℕ) × (next_repository_version_sequence s id ≡ some n) × (n < 2 ^ 31) × (r.sequence < n)
  unfolding next_repository_version_sequence
  next_repository_version_sequence-lt s id k r bounded h e =
      let m = max_sequence id 0 (values s.registry_repository_versions) in
      let small : m < 2 ^ 31 - 1 =
        max_sequence-lt id 0 (values s.registry_repository_versions) (omega arith) bounded in
      (
        m + 1,
        ground (arith, small),
        omega (arith, small),
        omega (arith, max_sequence-get id k 0 s.registry_repository_versions r h e),
      )

  -- Yanking changes the release under its key.
  pub set_yanked-get :
      (s : MemoryStateStore V) (package_id version reason p v : String) (yanked : Bool)
      → get_registry_package_release
          (set_registry_package_release_yanked s package_id version yanked reason).0
          p
          v
        ≡ (if release_key package_id version == release_key p v
            then elim (get_registry_package_release s p v) [
              | none ↦ none
              | some r ↦ some (record r { yanked = yanked; yanked_reason = reason })
            ]
            else get_registry_package_release s p v)
  unfolding get_registry_package_release set_registry_package_release_yanked
  set_yanked-get s package_id version reason p v yanked =
      let k = release_key package_id version in
      elim (Option-cases (get k s.registry_releases)) [
        | inl e ↦
            rw (set_registry_package_release_yanked, e)
              (elim (Bool-cases (k == release_key p v)) [
                | inl same ↦
                    let f : get (release_key p v) s.registry_releases ≡ none =
                      subst (λ i. get i s.registry_releases ≡ none)
                        ((eq_iff k (release_key p v)).0 same) e in
                    rw (same, f) refl
                | inr other ↦ rw other refl
              ])
        | inr (r, e) ↦
            rw (set_registry_package_release_yanked, e)
              (elim (Bool-cases (k == release_key p v)) [
                | inl same ↦
                    let f : get (release_key p v) s.registry_releases ≡ some r =
                      subst (λ i. get i s.registry_releases ≡ some r)
                        ((eq_iff k (release_key p v)).0 same) e in
                    get-put k (release_key p v)
                      (record r { yanked = yanked; yanked_reason = reason }) s.registry_releases
                    ∙ (rw (same, f) refl)
                | inr other ↦
                    get-put k (release_key p v)
                      (record r { yanked = yanked; yanked_reason = reason }) s.registry_releases
                    ∙ (rw other refl)
              ])
      ]

  -- Adding an owner, by keys.
  pub has_owner-add :
      (s : MemoryStateStore V) (r : RegistryPackageOwnerRecord) (p o : String)
      → (has_registry_package_owner (add_registry_package_owner s r) p o ≡ true) ↔ (
          (owner_key r.package_id r.owner_id ≡ owner_key p o)
          ⊎ (has_registry_package_owner s p o ≡ true))
  unfolding has_registry_package_owner add_registry_package_owner
  has_owner-add s r p o = ground (
    arith,
    get-put (owner_key r.package_id r.owner_id) (owner_key p o) r s.registry_owners,
    eq_iff (owner_key r.package_id r.owner_id) (owner_key p o),
  )

  -- Removing an owner, by keys.
  pub has_owner-remove :
      (s : MemoryStateStore V) (package_id owner_id p o : String)
      → ((has_registry_package_owner (remove_registry_package_owner s package_id owner_id).0 p o
            ≡ true)
          ↔ ((owner_key package_id owner_id ≢ owner_key p o)
              × (has_registry_package_owner s p o ≡ true)))
        × ((remove_registry_package_owner s package_id owner_id).1
            ≡ has_registry_package_owner s package_id owner_id)
  unfolding has_registry_package_owner remove_registry_package_owner
  has_owner-remove s package_id owner_id p o = (
    ground (
      arith,
      get-erase (owner_key package_id owner_id) (owner_key p o) s.registry_owners,
      eq_iff (owner_key package_id owner_id) (owner_key p o),
    ),
    refl,
  )
