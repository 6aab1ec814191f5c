-- ===== src/Store/Payloads.antt =====
-- StateRecords.cpp: the records as JSON, and the container that a registration gives.
use styio_platform.Base.{
  String, Bool, List, [], ◌∷◌, map, ◌==◌, ltb, if◌then◌else◌, Result, ok, ◌>>=◌,
}
use styio_platform.Json.{Json, ℤ, field, value_string, value_int}
use styio_platform.Store.Records.{
  ArtifactRecord, PlatformJobRecord, CompileContainerRecord, JobEventRecord, MirrorCursorRecord,
  RegistryPackageRecord, RegistryPackageReleaseRecord, RegistryPackageOwnerRecord,
  RegistryPublishTokenRecord, RegistryRepositoryRecord, RegistryRepositoryVersionRecord,
  RegistryPublicationRecord, RegistryDistributionRecord, RegistryAuditEventRecord,
}

module _ (J : Json) where
  open J use {Value, string, number, boolean, array, object, set, is_empty}

  -- `if (!text.empty()) payload[key] = text;`
  abbrev pub with_filled : String → String → Value → Value
  with_filled key text payload = if text == "" then payload else set payload key (string text)

  unfoldable pub serialize_artifact : ArtifactRecord → Value
  serialize_artifact artifact = object (
      ("artifact_id", string artifact.artifact_id)
      ∷ ("object_key", string artifact.object_key)
      ∷ ("kind", string artifact.kind)
      ∷ [])

  unfoldable pub job_fields : PlatformJobRecord Value → Value
  job_fields job = object (
      ("job_id", string job.job_id)
      ∷ ("tenant_id", string job.tenant_id)
      ∷ ("user_id", string job.user_id)
      ∷ ("workspace_id", string job.workspace_id)
      ∷ ("action", string job.action)
      ∷ ("status", string job.status)
      ∷ ("region", string job.region)
      ∷ ("worker_pool_key", string job.worker_pool_key)
      ∷ ("created_at", string job.created_at)
      ∷ [])

  unfoldable pub with_job_request : Value → Value → Value
  with_job_request job_request payload =
      if is_empty job_request then payload else set payload "job_request" job_request

  unfoldable pub with_artifacts : List ArtifactRecord → Value → Value
  unfolding serialize_artifact
  with_artifacts [] payload = payload
  with_artifacts (artifact ∷ artifacts) payload =
      set payload "artifacts" (array (map serialize_artifact (artifact ∷ artifacts)))

  unfoldable pub serialize_job_record : PlatformJobRecord Value → Value
  unfolding job_fields with_job_request with_artifacts
  serialize_job_record job = with_artifacts job.artifacts (
      with_job_request job.job_request (
        with_filled "finished_at" job.finished_at
          (with_filled "worker_id" job.worker_id (job_fields job))))

  unfoldable pub serialize_job_event : JobEventRecord → Value
  serialize_job_event event = object (
      ("event_id", string event.event_id)
      ∷ ("job_id", string event.job_id)
      ∷ ("status", string event.status)
      ∷ ("message", string event.message)
      ∷ ("created_at", string event.created_at)
      ∷ [])

  unfoldable pub serialize_compile_container_record : CompileContainerRecord → Value
  serialize_compile_container_record container =
      let payload = object (
        ("container_id", string container.container_id)
        ∷ ("worker_id", string container.worker_id)
        ∷ ("tenant_id", string container.tenant_id)
        ∷ ("user_id", string container.user_id)
        ∷ ("current_workspace_id", string container.current_workspace_id)
        ∷ ("region", string container.region)
        ∷ ("worker_pool_key", string container.worker_pool_key)
        ∷ ("status", string container.status)
        ∷ ("capacity", number container.capacity)
        ∷ ("workspace_generation", number (ℤ.pos container.workspace_generation))
        ∷ ("created_at", string container.created_at)
        ∷ []) in
      with_filled "last_switch_reason" container.last_switch_reason
        (with_filled "last_switched_at" container.last_switched_at payload)

  unfoldable pub serialize_mirror_cursor_record : MirrorCursorRecord → Value
  serialize_mirror_cursor_record mirror =
      let payload = object (
        ("mirror_id", string mirror.mirror_id)
        ∷ ("region", string mirror.region)
        ∷ ("origin", string mirror.origin)
        ∷ ("freshness", string mirror.freshness)
        ∷ ("replay_cursor", string mirror.replay_cursor)
        ∷ []) in
      let filled = with_filled "synced_at" mirror.synced_at (
        with_filled "repository_version_id" mirror.repository_version_id
          (with_filled "publication_id" mirror.publication_id payload)) in
      if ltb 0 mirror.tree_size
      then set filled "tree_size" (number (ℤ.pos mirror.tree_size))
      else filled

  unfoldable pub serialize_registry_package_record : RegistryPackageRecord → Value
  serialize_registry_package_record entry = object (
      ("package_id", string entry.package_id)
      ∷ ("namespace", string entry.package_namespace)
      ∷ ("name", string entry.name)
      ∷ ("created_at", string entry.created_at)
      ∷ ("created_by", string entry.created_by)
      ∷ ("visibility", string entry.visibility)
      ∷ [])

  unfoldable pub serialize_registry_package_release_record :
      RegistryPackageReleaseRecord Value → Value
  serialize_registry_package_release_record entry = object (
      ("package_id", string entry.package_id)
      ∷ ("version", string entry.version)
      ∷ ("edition", string entry.edition)
      ∷ ("manifest_sha256", string entry.manifest_sha256)
      ∷ ("source_artifact_sha256", string entry.source_artifact_sha256)
      ∷ ("dependencies", entry.dependencies)
      ∷ ("publisher_id", string entry.publisher_id)
      ∷ ("published_at", string entry.published_at)
      ∷ ("yanked", boolean entry.yanked)
      ∷ ("yanked_reason", string entry.yanked_reason)
      ∷ [])

  unfoldable pub serialize_registry_package_owner_record : RegistryPackageOwnerRecord → Value
  serialize_registry_package_owner_record entry = object (
      ("package_id", string entry.package_id)
      ∷ ("owner_id", string entry.owner_id)
      ∷ ("owner_kind", string entry.owner_kind)
      ∷ ("role", string entry.role)
      ∷ ("added_by", string entry.added_by)
      ∷ ("added_at", string entry.added_at)
      ∷ [])

  unfoldable pub serialize_registry_publish_token_record : RegistryPublishTokenRecord → Bool → Value
  serialize_registry_publish_token_record entry include_hash =
      let payload = object (
        ("token_id", string entry.token_id)
        ∷ ("owner_id", string entry.owner_id)
        ∷ ("scopes", array (map string entry.scopes))
        ∷ ("package_patterns", array (map string entry.package_patterns))
        ∷ ("expires_at", string entry.expires_at)
        ∷ ("revoked_at", string entry.revoked_at)
        ∷ ("created_at", string entry.created_at)
        ∷ []) in
      if include_hash then set payload "token_hash" (string entry.token_hash) else payload

  unfoldable pub serialize_registry_repository_record : RegistryRepositoryRecord Value → Value
  serialize_registry_repository_record entry = object (
      ("repository_id", string entry.repository_id)
      ∷ ("name", string entry.name)
      ∷ ("tenant_id", string entry.tenant_id)
      ∷ ("policy", entry.policy)
      ∷ ("created_at", string entry.created_at)
      ∷ [])

  unfoldable pub serialize_registry_repository_version_record :
      RegistryRepositoryVersionRecord → Value
  serialize_registry_repository_version_record entry = object (
      ("repository_version_id", string entry.repository_version_id)
      ∷ ("repository_id", string entry.repository_id)
      ∷ ("sequence", number (ℤ.pos entry.sequence))
      ∷ ("change_kind", string entry.change_kind)
      ∷ ("change_ref", string entry.change_ref)
      ∷ ("created_at", string entry.created_at)
      ∷ [])

  unfoldable pub serialize_registry_publication_record : RegistryPublicationRecord → Value
  serialize_registry_publication_record entry = object (
      ("publication_id", string entry.publication_id)
      ∷ ("repository_version_id", string entry.repository_version_id)
      ∷ ("layout_version", number (ℤ.pos entry.layout_version))
      ∷ ("root_path", string entry.root_path)
      ∷ ("manifest_sha256", string entry.manifest_sha256)
      ∷ ("tree_size", number (ℤ.pos entry.tree_size))
      ∷ ("created_at", string entry.created_at)
      ∷ ("verified", boolean entry.verified)
      ∷ [])

  unfoldable pub serialize_registry_distribution_record : RegistryDistributionRecord → Value
  serialize_registry_distribution_record entry = object (
      ("distribution_id", string entry.distribution_id)
      ∷ ("repository_id", string entry.repository_id)
      ∷ ("name", string entry.name)
      ∷ ("base_url", string entry.base_url)
      ∷ ("current_publication_id", string entry.current_publication_id)
      ∷ ("previous_publication_id", string entry.previous_publication_id)
      ∷ ("updated_at", string entry.updated_at)
      ∷ [])

  unfoldable pub serialize_registry_audit_event_record : RegistryAuditEventRecord Value → Value
  serialize_registry_audit_event_record entry = object (
      ("event_id", string entry.event_id)
      ∷ ("actor_id", string entry.actor_id)
      ∷ ("operation", string entry.operation)
      ∷ ("target", entry.target)
      ∷ ("request_id", string entry.request_id)
      ∷ ("result", string entry.result)
      ∷ ("created_at", string entry.created_at)
      ∷ [])

  -- `CompileContainerRecordFactory::CreateFromRegistration`
  unfoldable pub create_from_registration : Value → Result CompileContainerRecord
  create_from_registration body = do
    container_id ← field J body "container_id"
    worker_id ← field J body "worker_id"
    tenant_id ← field J body "tenant_id"
    user_id ← field J body "user_id"
    workspace_id ← field J body "workspace_id"
    region ← field J body "region"
    worker_pool_key ← field J body "worker_pool_key"
    status ← value_string J body "status" "active"
    capacity ← value_int J body "capacity" (ℤ.pos 1)
    ok (record {
      container_id = container_id;
      worker_id = worker_id;
      tenant_id = tenant_id;
      user_id = user_id;
      current_workspace_id = workspace_id;
      region = region;
      worker_pool_key = worker_pool_key;
      status = status;
      capacity = capacity;
      workspace_generation = 1;
      created_at = "2026-04-24T00:00:00Z";
      last_switched_at = "";
      last_switch_reason = "";
    })
