-- ===== src/Store/Publications.antt =====
-- The repository, publication, audit, mirror and workgroup operations of MemoryStateStore.
use styio_platform.Base.{
  ℕ, ◌+◌, ◌%◌, ◌^◌, String, ◌&&◌, Option, none, some, List, [], ◌∷◌, ◌++◌, ◌==◌, if◌then◌else◌,
  Result, ok, ◌>>=◌, concat, ltb,
}
use styio_platform.Base.Dict.{Dict, get, put, values}
use styio_platform.Base.Padded.{padded_number}
use styio_platform.Json.{Json, field}
use styio_platform.Store.Records.{
  MirrorCursorRecord, RegistryRepositoryRecord, RegistryRepositoryVersionRecord,
  RegistryPublicationRecord, RegistryDistributionRecord, RegistryAuditEventRecord,
}
use styio_platform.Store.State.{MemoryStateStore}
use styio_platform.Store.Registry.{keep}

abbrev pub inner {ℓ} : {A : Type ℓ} → Option (Dict A) → Dict A
inner none = []
inner (some d) = d

module _ (J : Json) where
  open J use {Value}

  unfoldable pub register_workgroup_cluster :
      MemoryStateStore Value → String → Value → Result (MemoryStateStore Value × Value)
  register_workgroup_cluster s workgroup_id cluster = do
    cluster_id ← field J cluster "cluster_id"
    let clusters = put cluster_id cluster (inner (get workgroup_id s.workgroups))
    ok (record s { workgroups = put workgroup_id clusters s.workgroups }, cluster)

-- The loop of NextRepositoryVersionSequence.
unfoldable pub max_sequence : String → ℕ → List RegistryRepositoryVersionRecord → ℕ
max_sequence repository_id n [] = n
max_sequence repository_id n (r ∷ rs) =
    max_sequence repository_id
      (if r.repository_id == repository_id && ltb n r.sequence then r.sequence else n) rs

module _ {V : Type 0} where
  unfoldable pub list_workgroup_clusters : MemoryStateStore V → String → List V
  list_workgroup_clusters s workgroup_id = values (inner (get workgroup_id s.workgroups))

  unfoldable pub record_mirror_state : MemoryStateStore V → MirrorCursorRecord → MemoryStateStore V
  record_mirror_state s mirror = record s { mirrors = put mirror.mirror_id mirror s.mirrors }

  unfoldable pub get_mirror_state : MemoryStateStore V → String → Option MirrorCursorRecord
  get_mirror_state s mirror_id = get mirror_id s.mirrors

  -- `none` where `max_sequence + 1` is no int: the overflow of a signed number is undefined.
  unfoldable pub next_repository_version_sequence : MemoryStateStore V → String → Option ℕ
  unfolding max_sequence
  next_repository_version_sequence s repository_id =
      let next = max_sequence repository_id 0 (values s.registry_repository_versions) + 1 in
      if ltb next (2 ^ 31) then some next else none

  unfoldable pub upsert_registry_repository :
      MemoryStateStore V → RegistryRepositoryRecord V → MemoryStateStore V
  upsert_registry_repository s r = record s {
    registry_repositories = put r.repository_id r s.registry_repositories;
  }

  unfoldable pub list_registry_repositories : MemoryStateStore V → List (RegistryRepositoryRecord V)
  list_registry_repositories s = values s.registry_repositories

  unfoldable pub record_registry_repository_version :
      MemoryStateStore V → RegistryRepositoryVersionRecord → MemoryStateStore V
  record_registry_repository_version s r = record s {
    registry_repository_versions = put r.repository_version_id r s.registry_repository_versions;
  }

  unfoldable pub list_registry_repository_versions :
      MemoryStateStore V → String → List RegistryRepositoryVersionRecord
  list_registry_repository_versions s repository_id =
      keep (λ r. r.repository_id == repository_id) (values s.registry_repository_versions)

  unfoldable pub record_registry_publication :
      MemoryStateStore V → RegistryPublicationRecord → MemoryStateStore V
  record_registry_publication s r = record s {
    registry_publications = put r.publication_id r s.registry_publications;
  }

  unfoldable pub get_registry_publication :
      MemoryStateStore V → String → Option RegistryPublicationRecord
  get_registry_publication s publication_id = get publication_id s.registry_publications

  unfoldable pub list_registry_publications : MemoryStateStore V → List RegistryPublicationRecord
  list_registry_publications s = values s.registry_publications

  unfoldable pub upsert_registry_distribution :
      MemoryStateStore V → RegistryDistributionRecord → MemoryStateStore V
  upsert_registry_distribution s r = record s {
    registry_distributions = put r.distribution_id r s.registry_distributions;
  }

  unfoldable pub get_registry_distribution :
      MemoryStateStore V → String → Option RegistryDistributionRecord
  get_registry_distribution s distribution_id = get distribution_id s.registry_distributions

  unfoldable pub list_registry_distributions : MemoryStateStore V → List RegistryDistributionRecord
  list_registry_distributions s = values s.registry_distributions

  unfoldable pub next_registry_audit_event_id : MemoryStateStore V → String × MemoryStateStore V
  next_registry_audit_event_id s =
      let n = s.next_registry_audit_sequence in
      (
        concat "audit-" (padded_number n 12),
        record s { next_registry_audit_sequence = (n + 1) % 2 ^ 64 },
      )

  unfoldable pub record_registry_audit_event :
      MemoryStateStore V → RegistryAuditEventRecord V → MemoryStateStore V
  record_registry_audit_event s r = record s {
    registry_audit_events = s.registry_audit_events ++ r ∷ [];
  }

  unfoldable pub list_registry_audit_events : MemoryStateStore V → List (RegistryAuditEventRecord V)
  list_registry_audit_events s = s.registry_audit_events
