-- ===== src/Store/Records.antt =====
-- StateRecords.hpp. `V` is the type of JSON values; counters that only grow are natural numbers.
use styio_platform.Base.{ℕ, String, Bool, List}
use styio_platform.Json.{ℤ}

pub record ArtifactRecord : Type 0 where
  pub artifact_id : String
  pub object_key : String
  pub kind : String

pub record PlatformJobRecord (V : Type 0) : Type 0 where
  pub job_id : String
  pub tenant_id : String
  pub user_id : String
  pub workspace_id : String
  pub action : String
  pub status : String
  pub region : String
  pub worker_pool_key : String
  pub created_at : String
  pub worker_id : String
  pub finished_at : String
  pub job_request : V
  pub artifacts : List ArtifactRecord

pub record CompileContainerRecord : Type 0 where
  pub container_id : String
  pub worker_id : String
  pub tenant_id : String
  pub user_id : String
  pub current_workspace_id : String
  pub region : String
  pub worker_pool_key : String
  pub status : String
  pub capacity : ℤ
  pub workspace_generation : ℕ
  pub created_at : String
  pub last_switched_at : String
  pub last_switch_reason : String

pub record JobEventRecord : Type 0 where
  pub event_id : String
  pub job_id : String
  pub status : String
  pub message : String
  pub created_at : String

pub record MirrorCursorRecord : Type 0 where
  pub mirror_id : String
  pub region : String
  pub origin : String
  pub freshness : String
  pub replay_cursor : String
  pub publication_id : String
  pub repository_version_id : String
  pub synced_at : String
  pub tree_size : ℕ

pub record RegistryPackageRecord : Type 0 where
  pub package_id : String
  pub package_namespace : String
  pub name : String
  pub created_at : String
  pub created_by : String
  pub visibility : String

pub record RegistryPackageReleaseRecord (V : Type 0) : Type 0 where
  pub package_id : String
  pub version : String
  pub edition : String
  pub manifest_sha256 : String
  pub source_artifact_sha256 : String
  pub dependencies : V
  pub publisher_id : String
  pub published_at : String
  pub yanked : Bool
  pub yanked_reason : String

pub record RegistryPackageOwnerRecord : Type 0 where
  pub package_id : String
  pub owner_id : String
  pub owner_kind : String
  pub role : String
  pub added_by : String
  pub added_at : String

pub record RegistryPublishTokenRecord : Type 0 where
  pub token_id : String
  pub token_hash : String
  pub owner_id : String
  pub scopes : List String
  pub package_patterns : List String
  pub expires_at : String
  pub revoked_at : String
  pub created_at : String

pub record RegistryRepositoryRecord (V : Type 0) : Type 0 where
  pub repository_id : String
  pub name : String
  pub tenant_id : String
  pub policy : V
  pub created_at : String

pub record RegistryRepositoryVersionRecord : Type 0 where
  pub repository_version_id : String
  pub repository_id : String
  pub sequence : ℕ
  pub change_kind : String
  pub change_ref : String
  pub created_at : String

pub record RegistryPublicationRecord : Type 0 where
  pub publication_id : String
  pub repository_version_id : String
  pub layout_version : ℕ
  pub root_path : String
  pub manifest_sha256 : String
  pub tree_size : ℕ
  pub created_at : String
  pub verified : Bool

pub record RegistryDistributionRecord : Type 0 where
  pub distribution_id : String
  pub repository_id : String
  pub name : String
  pub base_url : String
  pub current_publication_id : String
  pub previous_publication_id : String
  pub updated_at : String

pub record RegistryAuditEventRecord (V : Type 0) : Type 0 where
  pub event_id : String
  pub actor_id : String
  pub operation : String
  pub target : V
  pub request_id : String
  pub result : String
  pub created_at : String
