-- ===== src/Registry/Writers.antt =====
-- RegistryWriteAuthorized and the tokens that it accepts.
use styio_platform.Base.{
  String, ◌≡◌, ◌≢◌, ◌⊎◌, inl, inr, refl, ◌∙◌, true, false, some, arith, eq_iff, eq_refl,
  Option-cases,
}
use styio_platform.Base.Dict.{get, HasEntry, get-put}
use styio_platform.Base.Order.{text_lt}
use styio_platform.Routing.{MtlsIdentity, HttpRequest}
use styio_platform.Access.{registry_token_from_headers}
use styio_platform.Store.Records.{RegistryPublishTokenRecord}
use styio_platform.Store.State.{MemoryStateStore}
use styio_platform.Store.Registry.{
  has_registry_package_owner, revoke_registry_publish_token, get_registry_publish_token,
}
use styio_platform.Registry.{token_has_scope, token_matches_package, token_grants}

-- A token that is not revoked and not past its time, for the scope and the package.
abbrev pub IsGood : String → String → String → RegistryPublishTokenRecord → Type 0
IsGood now scope package_id token =
    (token.revoked_at ≡ "")
    × ((token.expires_at ≡ "") ⊎ (text_lt token.expires_at now ≡ false))
    × (token_has_scope token scope ≡ true)
    × (token_matches_package token package_id ≡ true)

module _ {V : Type 0} where
  -- The caller shows a token: the store holds its hash, in an entry in good standing.
  pub record ShowsToken (sha256 : String → String) (now : String) (store : MemoryStateStore V)
      (request : HttpRequest V) (scope package_id : String) : Type 0 where
    pub clear_token : String
    pub shown : registry_token_from_headers request.headers ≡ some clear_token
    pub token : RegistryPublishTokenRecord
    pub token_id : String
    pub stored : HasEntry token_id token store.registry_tokens
    pub hashed : token.token_hash ≡ sha256 clear_token
    pub good : IsGood now scope package_id token

  -- Who may write without a token.
  abbrev pub MayWrite : MemoryStateStore V → String → String → MtlsIdentity → Type 0
  MayWrite store scope package_id identity =
      (identity.role ≡ "operator")
      ⊎ ((identity.role ≡ "registry-writer") × (scope ≡ "package:publish"))
      ⊎ ((package_id ≢ "") × (has_registry_package_owner store package_id identity.node_id ≡ true))

  -- After a revocation with a time, the token that the id names grants nothing any more, for no
  -- scope, package and time.
  pub revoke-token_grants :
      (s : MemoryStateStore V) (id at_time now scope package_id : String)
      (r : RegistryPublishTokenRecord)
      → at_time ≢ ""
      → get_registry_publish_token s id ≡ some r
      → (q : RegistryPublishTokenRecord) × (get_registry_publish_token
            (revoke_registry_publish_token s id at_time).0
            id
          ≡ some q)
        × (token_grants now q scope package_id ≡ false)
  unfolding get_registry_publish_token revoke_registry_publish_token token_grants
  revoke-token_grants s id at_time now scope package_id r n e =
      let q = record r { revoked_at = at_time } in
      rw (revoke_registry_publish_token, e)
        (
          q,
          get-put id id q s.registry_tokens ∙ (rw (eq_refl id) refl),
          ground (arith, eq_iff at_time ""),
        )

  -- A revocation touches no other token.
  revoke-other :
      (s : MemoryStateStore V) (id at_time i : String)
      → id ≢ i
      → get_registry_publish_token (revoke_registry_publish_token s id at_time).0 i
        ≡ get_registry_publish_token s i
  unfolding get_registry_publish_token revoke_registry_publish_token
  revoke-other s id at_time i apart = elim (Option-cases (get id s.registry_tokens)) [
    | inl e ↦ rw (revoke_registry_publish_token, e) refl
    | inr (r, e) ↦
        rw (revoke_registry_publish_token, e)
          (ground (
            arith,
            get-put id i (record r { revoked_at = at_time }) s.registry_tokens,
            eq_iff id i,
          ))
  ]
