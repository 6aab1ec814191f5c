-- ===== src/Access/Certificates.antt =====
-- The URI names of client certificates (ParseMtlsUriSan of Identity.cpp).
use styio_platform.Base.{
  String, concat, ◌≡◌, ◌≢◌, inl, inr, refl, sym, ap, subst, ◌∙◌, true, false, not, ◌||◌, Option,
  none, some, [], ◌∷◌, ◌==◌, if◌then◌else◌, arith, eq_iff, eq_refl, Bool-cases, ok,
}
use Prim.Native.String.append
use text.Mathlib.TextLemmas.{append_assoc}
use mathlib.Core.Option.{some-injective}
use styio_platform.Base.Text.{
  IsItem, strip_prefix, strip_prefix-concat, strip_prefix_sound, split_items-concat,
  split_items-whole, all_chars, same_char,
}
use styio_platform.Routing.{MtlsIdentity}
use styio_platform.Access.Authority.{
  PlatformCertificateSubject, require_subject_value, build_platform_node_certificate_subject,
  build_platform_mtls_uri_san,
}
use styio_platform.Access.{
  is_platform_service_role, split_path, value_after, identity_of, checked_identity,
  parse_mtls_uri_san,
}

abbrev slash : String → String
slash s = String.◌∷◌ "/" s

-- tenant/<tenant>/role/<role>/node/<node>
abbrev pub san_path : String → String → String → String
san_path tenant role node = concat "tenant" (
    slash (
      concat tenant
        (slash (concat "role" (slash (concat role (slash (concat "node" (slash node)))))))))

word-IsItem :
    (s : String)
    → all_chars (λ c. not (same_char c "/")) s ≡ true
    → (s == "") ≡ false
    → IsItem "/" s
word-IsItem s h e = (h, λ f. cc (e, f, eq_refl s))

split_path-san_path :
    (tenant role node : String)
    → IsItem "/" tenant
    → IsItem "/" role
    → IsItem "/" node
    → split_path (san_path tenant role node)
      ≡ "tenant" ∷ tenant ∷ "role" ∷ role ∷ "node" ∷ node ∷ []
unfolding split_path all_chars
split_path-san_path tenant role node t r n =
    split_items-concat "/" "tenant" _ (word-IsItem "tenant" refl refl)
    ∙ ap (λ xs. "tenant" ∷ xs)
        (split_items-concat "/" tenant _ t
          ∙ ap (λ xs. tenant ∷ xs)
              (split_items-concat "/" "role" _ (word-IsItem "role" refl refl)
                ∙ ap (λ xs. "role" ∷ xs)
                    (split_items-concat "/" role _ r
                      ∙ ap (λ xs. role ∷ xs)
                          (split_items-concat "/" "node" _ (word-IsItem "node" refl refl)
                            ∙ ap (λ xs. "node" ∷ xs) (split_items-whole "/" node n)))))

service_role-other :
    (role word : String)
    → is_platform_service_role role ≡ true
    → is_platform_service_role word ≡ false
    → (role == word) ≡ false
service_role-other role word h k = elim (Bool-cases (role == word)) [
  | inl same ↦ cc (h, k, (eq_iff role word).0 same)
  | inr other ↦ other
]

other-false : (s t : String) → s ≢ t → (s == t) ≡ false
other-false s t n = elim (Bool-cases (s == t)) [
  | inl same ↦ absurd (n ((eq_iff s t).0 same))
  | inr other ↦ other
]

identity_of-parts :
    (tenant role node : String)
    → is_platform_service_role role ≡ true
    → tenant ≢ "role"
    → tenant ≢ "node"
    → identity_of ("tenant" ∷ tenant ∷ "role" ∷ role ∷ "node" ∷ node ∷ [])
      ≡ record { role = role; tenant_id = tenant; node_id = node }
unfolding value_after is_platform_service_role
identity_of-parts tenant role node s c d =
    rw
      (
        other-false tenant "role" c,
        service_role-other role "node" s refl,
        other-false tenant "node" d,
      )
      refl

checked_identity-accepts :
    (rest : String) (i : MtlsIdentity)
    → identity_of (split_path rest) ≡ i
    → is_platform_service_role i.role ≡ true
    → (i.node_id == "") ≡ false
    → checked_identity (some rest) ≡ some i
unfolding checked_identity
checked_identity-accepts rest i e s n =
    subst
      (λ (x : MtlsIdentity).
        (if not (is_platform_service_role x.role) || x.node_id == "" then none else some x)
        ≡ some i)
      (sym e) (rw (s, n) refl)

slash-concat : (s : String) → concat "/" s ≡ slash s
slash-concat s = append.cons "/" "" s ∙ ap slash (append.nil s)

-- A word between two slashes.
between_slashes : (w s : String) → concat (concat "/" (concat w "/")) s ≡ slash (concat w (slash s))
between_slashes w s =
    append_assoc "/" (concat w "/") s
    ∙ slash-concat (concat (concat w "/") s)
    ∙ ap slash (append_assoc w "/" s ∙ ap (concat w) (slash-concat s))

build-san_path :
    (subject : PlatformCertificateSubject)
    → build_platform_mtls_uri_san "styio-platform" subject
      ≡ concat "spiffe://styio-platform/" (san_path subject.tenant_id subject.role subject.node_id)
unfolding build_platform_mtls_uri_san
build-san_path subject =
    let node = between_slashes "node" subject.node_id in
    let role =
      between_slashes "role"
        (concat subject.role (slash (concat "node" (slash subject.node_id)))) in
    let tail = slash (
      concat "role"
        (slash (concat subject.role (slash (concat "node" (slash subject.node_id)))))) in
    let t = concat subject.tenant_id tail in
    ap
      (λ x.
        concat "spiffe://"
          (concat "styio-platform" (concat "/tenant/" (concat subject.tenant_id x))))
      (ap (λ x. concat "/role/" (concat subject.role x)) node ∙ role)
    ∙ ap (concat "spiffe://") (sym (append_assoc "styio-platform" "/tenant/" t))
    ∙ sym (append_assoc "spiffe://" "styio-platform/tenant/" t)
    ∙ append_assoc "spiffe://styio-platform/" "tenant/" t
    ∙ ap (concat "spiffe://styio-platform/")
        (append_assoc "tenant" "/" t ∙ ap (concat "tenant") (slash-concat t))

parse_mtls_uri_san-subject :
    (subject : PlatformCertificateSubject)
    → is_platform_service_role subject.role ≡ true
    → IsItem "/" subject.role
    → IsItem "/" subject.tenant_id
    → IsItem "/" subject.node_id
    → subject.tenant_id ≢ "role"
    → subject.tenant_id ≢ "node"
    → parse_mtls_uri_san (build_platform_mtls_uri_san "styio-platform" subject)
      ≡ some
          (record { role = subject.role; tenant_id = subject.tenant_id; node_id = subject.node_id })
unfolding parse_mtls_uri_san
parse_mtls_uri_san-subject subject s r t n c d =
    let path = san_path subject.tenant_id subject.role subject.node_id in
    ap parse_mtls_uri_san (build-san_path subject)
    ∙ ap checked_identity (strip_prefix-concat "spiffe://styio-platform/" path)
    ∙ checked_identity-accepts path _
        (ap identity_of (split_path-san_path subject.tenant_id subject.role subject.node_id t r n)
          ∙ identity_of-parts subject.tenant_id subject.role subject.node_id s c d)
        s (other-false subject.node_id "" n.1)

-- A text that holds no slash.
abbrev pub NoSlash : String → Type 0
NoSlash s = all_chars (λ c. not (same_char c "/")) s ≡ true

record IsMade (role tenant_id node_id : String) (subject : PlatformCertificateSubject)
    : Type 0 where
  fields : (subject.role ≡ role) × (subject.tenant_id ≡ tenant_id) × (subject.node_id ≡ node_id)
  filled : (role ≢ "") × (tenant_id ≢ "") × (node_id ≢ "")
  known : is_platform_service_role role ≡ true

build-IsMade :
    (role tenant_id node_id : String) (subject : PlatformCertificateSubject)
    → build_platform_node_certificate_subject role tenant_id node_id ≡ ok subject
    → IsMade role tenant_id node_id subject
unfolding build_platform_node_certificate_subject require_subject_value
build-IsMade role tenant_id node_id subject h = record {
  fields = (ground arith, ground arith, ground arith);
  filled = (
    ground (arith, eq_iff role ""),
    ground (arith, eq_iff tenant_id ""),
    ground (arith, eq_iff node_id ""),
  );
  known = ground arith;
}

-- For a node whose certificate subject the authority makes, the name that it writes into the
-- certificate, in its default trust domain, is read back as the node's role, tenant and id, provided
-- that none of the three holds a slash and that the tenant is called neither "role" nor "node".
pub parse_mtls_uri_san-build :
    (role tenant_id node_id : String) (subject : PlatformCertificateSubject)
    → build_platform_node_certificate_subject role tenant_id node_id ≡ ok subject
    → NoSlash role
    → NoSlash tenant_id
    → NoSlash node_id
    → tenant_id ≢ "role"
    → tenant_id ≢ "node"
    → parse_mtls_uri_san (build_platform_mtls_uri_san "styio-platform" subject)
      ≡ some (record { role = role; tenant_id = tenant_id; node_id = node_id })
parse_mtls_uri_san-build role tenant_id node_id subject h r t n c d =
    let made = build-IsMade role tenant_id node_id subject h in
    let (same_role, same_tenant, same_node) = made.fields in
    let (some_role, some_tenant, some_node) = made.filled in
    parse_mtls_uri_san-subject subject (rw same_role made.known) (rw same_role (r, some_role))
      (rw same_tenant (t, some_tenant)) (rw same_node (n, some_node)) (rw same_tenant c)
      (rw same_tenant d)
    ∙ rw (same_role, same_tenant, same_node) refl

checked_sound :
    (j i : MtlsIdentity)
    → (if not (is_platform_service_role j.role) || j.node_id == "" then none else some j) ≡ some i
    → (j ≡ i) × (is_platform_service_role i.role ≡ true) × (i.node_id ≢ "")
checked_sound j i h = elim (Bool-cases (not (is_platform_service_role j.role) || j.node_id == "")) [
  | inl refused ↦ cc (rw refused at h)
  | inr accepted ↦
      let same : j ≡ i = some-injective _ _ (rw accepted at h) in
      subst
        (λ (x : MtlsIdentity).
          (j ≡ x) × (is_platform_service_role x.role ≡ true) × (x.node_id ≢ ""))
        same (refl, ground arith, ground (arith, eq_iff j.node_id ""))
]

checked_identity_sound :
    (o : Option String) (i : MtlsIdentity)
    → checked_identity o ≡ some i
    → ((rest : String) × (o ≡ some rest) × (i ≡ identity_of (split_path rest)))
      × (is_platform_service_role i.role ≡ true)
      × (i.node_id ≢ "")
unfolding checked_identity
checked_identity_sound none i h = cc
checked_identity_sound (some rest) i h =
    let (same, role, node) = checked_sound (identity_of (split_path rest)) i h in
    ((rest, refl, sym same), role, node)

-- What is read from a certificate comes from a name under the platform's prefix, has a service role
-- and names a node.
pub parse_mtls_uri_san_sound :
    (value : String) (i : MtlsIdentity)
    → parse_mtls_uri_san value ≡ some i
    → ((rest : String) × (value ≡ concat "spiffe://styio-platform/" rest)
        × (i ≡ identity_of (split_path rest)))
      × (is_platform_service_role i.role ≡ true)
      × (i.node_id ≢ "")
unfolding parse_mtls_uri_san
parse_mtls_uri_san_sound value i h =
    let ((rest, e, same), role, node) =
      checked_identity_sound (strip_prefix "spiffe://styio-platform/" value) i h in
    ((rest, strip_prefix_sound _ value rest e, same), role, node)
