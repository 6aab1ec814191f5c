-- ===== src/Store/State.antt =====
-- The fields of MemoryStateStore.
use styio_platform.Base.{ℕ, List, []}
use styio_platform.Base.Dict.{Dict}
use styio_platform.Store.Records.{
  PlatformJobRecord, CompileContainerRecord, JobEventRecord, MirrorCursorRecord,
  RegistryPackageRecord, RegistryPackageReleaseRecord, RegistryPackageOwnerRecord,
  RegistryPublishTokenRecord, RegistryRepositoryRecord, RegistryRepositoryVersionRecord,
  RegistryPublicationRecord, RegistryDistributionRecord, RegistryAuditEventRecord,
}

pub record MemoryStateStore (V : Type 0) : Type 0 where
  pub jobs : Dict (PlatformJobRecord V)
  pub events : Dict (List JobEventRecord)
  pub workers : Dict V
  pub compile_containers : Dict CompileContainerRecord
  pub workgroups : Dict (Dict V)
  pub mirrors : Dict MirrorCursorRecord
  pub published_releases : Dict V
  pub registry_packages : Dict RegistryPackageRecord
  pub registry_releases : Dict (RegistryPackageReleaseRecord V)
  pub registry_owners : Dict RegistryPackageOwnerRecord
  pub registry_tokens : Dict RegistryPublishTokenRecord
  pub registry_repositories : Dict (RegistryRepositoryRecord V)
  pub registry_repository_versions : Dict RegistryRepositoryVersionRecord
  pub registry_publications : Dict RegistryPublicationRecord
  pub registry_distributions : Dict RegistryDistributionRecord
  pub registry_audit_events : List (RegistryAuditEventRecord V)
  pub next_job_sequence : ℕ
  pub next_registry_token_sequence : ℕ
  pub next_registry_audit_sequence : ℕ

unfoldable pub empty : {V : Type 0} → MemoryStateStore V
empty = record {
  jobs = [];
  events = [];
  workers = [];
  compile_containers = [];
  workgroups = [];
  mirrors = [];
  published_releases = [];
  registry_packages = [];
  registry_releases = [];
  registry_owners = [];
  registry_tokens = [];
  registry_repositories = [];
  registry_repository_versions = [];
  registry_publications = [];
  registry_distributions = [];
  registry_audit_events = [];
  next_job_sequence = 1;
  next_registry_token_sequence = 1;
  next_registry_audit_sequence = 1;
}
