-- ===== src/Access/Examples.antt =====
-- The theorems on access at one certificate and one request.
use styio_platform.Base.Text.{split_items}
use styio_platform.Base.Text.{strip_prefix}
use styio_platform.Routing.Catalog.{is_registry_operation}
use styio_platform.Base.{
  String, concat, ◌≡◌, ◌↔◌, refl, true, false, none, some, [], ◌∷◌, member, ◌≢◌, eq_refl, ◌==◌,
}
use styio_platform.Base.Text.{all_chars}
use styio_platform.Json.Tree.{Tree, null, tree_json}
use styio_platform.Routing.{MtlsIdentity, HttpRequest, RouteMatch, post_method}
use styio_platform.Routing.Catalog.{route_spec}
use styio_platform.Access.{
  is_authorized_for_operation, is_platform_service_role, parse_mtls_uri_san, require_identity,
  identity_of, split_path,
}
use styio_platform.Access.Authority.{
  PlatformCertificateSubject, build_platform_node_certificate_subject, build_platform_mtls_uri_san,
}
use styio_platform.Access.Gate.{Admitted, require_identity-Admitted}
use styio_platform.Access.Roles.{registry_roles, registry_operation-roles, operator-is_authorized}
use styio_platform.Access.Certificates.{parse_mtls_uri_san-build, parse_mtls_uri_san_sound}

abbrev mirror_node : MtlsIdentity
mirror_node = record { role = "mirror"; tenant_id = "platform"; node_id = "mirror-1" }

abbrev operator_node : MtlsIdentity
operator_node = record { role = "operator"; tenant_id = "platform"; node_id = "ops-1" }

abbrev publish : RouteMatch
publish = record {
  route = route_spec "publishRelease" post_method "/api/spio-registry-control/v1/publish" true;
  parameters = [];
}

abbrev token_request : HttpRequest Tree
token_request = record {
  method = post_method;
  path = "/api/spio-registry-control/v1/publish";
  headers = ("authorization", "Bearer secret") ∷ [];
  body = null;
  identity = none;
}

require_identity-Admitted_example :
    ((require_identity tree_json true publish token_request).status_code ≡ 200)
    ↔ Admitted publish token_request
require_identity-Admitted_example = require_identity-Admitted tree_json publish token_request

registry_operation-roles_example : member mirror_node.role registry_roles ≡ true
unfolding is_registry_operation is_authorized_for_operation
registry_operation-roles_example = registry_operation-roles "verifyRegistry" mirror_node refl refl

operator-is_authorized_example :
    is_authorized_for_operation "rolloutReleaseChannel" operator_node ≡ true
operator-is_authorized_example = operator-is_authorized "rolloutReleaseChannel" operator_node refl

differs : (s t : String) → (s == t) ≡ false → s ≢ t
differs s t h e = cc (h, e, eq_refl s)

abbrev worker_subject : PlatformCertificateSubject
worker_subject = record {
  role = "worker";
  tenant_id = "acme";
  node_id = "node-7";
  common_name = "worker/node-7";
}

parse_mtls_uri_san-build_example :
    parse_mtls_uri_san (build_platform_mtls_uri_san "styio-platform" worker_subject)
    ≡ some (record { role = "worker"; tenant_id = "acme"; node_id = "node-7" })
unfolding all_chars build_platform_node_certificate_subject
parse_mtls_uri_san-build_example =
    parse_mtls_uri_san-build "worker" "acme" "node-7" worker_subject refl refl refl refl
      (differs "acme" "role" refl) (differs "acme" "node" refl)

-- A node of a tenant called "role" has a certificate that is read as no identity.
role_tenant_is_lost :
    parse_mtls_uri_san
      (build_platform_mtls_uri_san "styio-platform" (record worker_subject { tenant_id = "role" }))
    ≡ none
unfolding parse_mtls_uri_san build_platform_mtls_uri_san split_items strip_prefix
    is_platform_service_role
role_tenant_is_lost = refl

parse_mtls_uri_san_sound_example :
    ((rest : String) × ("spiffe://styio-platform/role/mirror/tenant/platform/node/mirror-1"
        ≡ concat "spiffe://styio-platform/" rest)
      × (mirror_node ≡ identity_of (split_path rest)))
    × (is_platform_service_role mirror_node.role ≡ true)
    × (mirror_node.node_id ≢ "")
unfolding parse_mtls_uri_san strip_prefix split_items
parse_mtls_uri_san_sound_example =
    parse_mtls_uri_san_sound "spiffe://styio-platform/role/mirror/tenant/platform/node/mirror-1"
      mirror_node refl
