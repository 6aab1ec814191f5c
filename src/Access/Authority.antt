-- ===== src/Access/Authority.antt =====
-- PlatformSecurity/PlatformCA (CertificateAuthority.cpp): the subject of a node's certificate, and the
-- URI name that is written into it.
use styio_platform.Base.{String, ◌==◌, if◌then◌else◌, concat, Result, ok, err, require, ◌>>◌, ◌>>=◌}
use styio_platform.Access.{is_platform_service_role}

pub record PlatformCertificateSubject : Type 0 where
  pub role : String
  pub tenant_id : String
  pub node_id : String
  pub common_name : String

unfoldable pub require_subject_value : String → String → Result String
require_subject_value value field_name =
    if value == ""
    then err (concat field_name " is required for platform certificate subject")
    else ok value

unfoldable pub build_platform_node_certificate_subject :
    String → String → String → Result PlatformCertificateSubject
unfolding require_subject_value is_platform_service_role
build_platform_node_certificate_subject role_text tenant_text node_text = do
  role ← require_subject_value role_text "role"
  tenant_id ← require_subject_value tenant_text "tenant_id"
  node_id ← require_subject_value node_text "node_id"
  require (is_platform_service_role role) (concat "unsupported platform certificate role: " role)
  ok (record {
    role = role;
    tenant_id = tenant_id;
    node_id = node_id;
    common_name = concat role (concat "/" node_id);
  })

-- The trust domain is `config.spiffe_trust_domain`.
unfoldable pub build_platform_mtls_uri_san : String → PlatformCertificateSubject → String
build_platform_mtls_uri_san trust_domain subject = concat "spiffe://" (
    concat trust_domain (
      concat "/tenant/" (
        concat subject.tenant_id
          (concat "/role/" (concat subject.role (concat "/node/" subject.node_id))))))
