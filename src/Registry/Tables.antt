-- ===== src/Registry/Tables.antt =====
-- The releases and the owners of the package registry by package, version and owner: the tables of
-- MemoryStateStore hold them under one text, `ReleaseKey` and `OwnerKey`, which are different for
-- different packages, versions and owners where the package names are valid.
use Prim.Native.Char.{Char, code}
use Prim.Native.String.append
use text.Mathlib.TextLemmas.{append_assoc, append-nil}
use mathlib.Core.Option.{some-injective}
use styio_platform.Base.{
  String, concat, ◌≡◌, ◌↔◌, ◌⊎◌, inl, inr, refl, sym, ap, ◌∙◌, Bool, true, false, ◌&&◌, Option,
  none, some, ◌==◌, arith, eq_iff, eqb, is_some, Option-cases, if◌then◌else◌,
}
use styio_platform.Base.Dict.{get}
use styio_platform.Base.Text.{all_chars}
use styio_platform.Store.Records.{RegistryPackageOwnerRecord, RegistryPackageReleaseRecord}
use styio_platform.Store.State.{MemoryStateStore}
use styio_platform.Store.Registry.{
  release_key, owner_key, get_registry_package_release, set_registry_package_release_yanked,
  add_registry_package_owner, remove_registry_package_owner, has_registry_package_owner,
}
use styio_platform.Store.RegistryLaws.{set_yanked-get, has_owner-add, has_owner-remove}
use styio_platform.Registry.{cut_at_slash, validate_package_name}
use styio_platform.Registry.Names.{
  slash, is_safe_char, safe-chars, cut_at_slash-concat, validate_package_name-none,
}

-- The parts of a text around its first "@".
unfoldable cut_at_sign : String → Option (String × String)
cut_at_sign String.[] = none
cut_at_sign (String.◌∷◌ c s) =
    let rest = cut_at_sign s in
    if eqb (code c) (code "@")
    then some ("", s)
    else elim rest [ none ↦ none | some (l, r) ↦ some (String.◌∷◌ c l, r) ]

safe_char-sign : (c : Char) → is_safe_char c ≡ true → eqb (code c) (code "@") ≡ false
safe_char-sign c h = ground arith

cut_at_sign-concat :
    (s u l r : String)
    → all_chars is_safe_char s ≡ true
    → cut_at_sign u ≡ some (l, r)
    → cut_at_sign (concat s u) ≡ some (concat s l, r)
unfolding cut_at_sign all_chars
cut_at_sign-concat String.[] u l r h e =
    ap cut_at_sign (append.nil u) ∙ e ∙ ap (λ k. some (k, r)) (sym (append.nil l))
cut_at_sign-concat (String.◌∷◌ c s) u l r h e =
    rw (append.cons c s u, append.cons c s l)
      (rw (safe_char-sign c (ground arith), cut_at_sign-concat s u l r (ground arith) e) refl)

-- A release's key shows the package and the version.
cut_at_sign-release_key :
    (p v : String) → validate_package_name p ≡ none → cut_at_sign (release_key p v) ≡ some (p, v)
unfolding release_key
cut_at_sign-release_key p v valid =
    let (space, name, e, left, right) = (validate_package_name-none p).0 valid in
    let version : cut_at_sign (concat "@" v) ≡ some ("", v) =
      ap cut_at_sign (append.cons "@" "" v ∙ ap (String.◌∷◌ "@") (append.nil v))
      ∙ (unfold cut_at_sign in refl) in
    let tail : cut_at_sign (concat name (concat "@" v)) ≡ some (concat name "", v) =
      cut_at_sign-concat name (concat "@" v) "" v (safe-chars name right) version in
    let slashed : cut_at_sign (slash (concat name (concat "@" v)))
        ≡ some (slash (concat name ""), v) =
      unfold cut_at_sign in rw tail refl in
    ap (λ q. cut_at_sign (concat q (concat "@" v))) e
    ∙ ap cut_at_sign (append_assoc space (slash name) (concat "@" v))
    ∙ ap (λ q. cut_at_sign (concat space q)) (append.cons "/" name (concat "@" v))
    ∙ cut_at_sign-concat space (slash (concat name (concat "@" v))) (slash (concat name "")) v
        (safe-chars space left) slashed
    ∙ ap (λ q. some (concat space (slash q), v)) (append-nil name)
    ∙ ap (λ q. some (q, v)) (sym e)

release_key-injective :
    (p q v w : String)
    → validate_package_name p ≡ none
    → validate_package_name q ≡ none
    → release_key p v ≡ release_key q w
    → (p ≡ q) × (v ≡ w)
release_key-injective p q v w valid_p valid_q e =
    let both : (p, v) ≡ (q, w) = some-injective _ _ (
      sym (cut_at_sign-release_key p v valid_p)
      ∙ ap cut_at_sign e
      ∙ cut_at_sign-release_key q w valid_q) in
    (ap (λ (x : String × String). x.0) both, ap (λ (x : String × String). x.1) both)

-- An owner's key shows the namespace, the name and the owner.
owner_key-parts :
    (p o space name : String)
    → p ≡ concat space (slash name)
    → owner_key p o ≡ concat space (slash (concat name (slash o)))
unfolding owner_key
owner_key-parts p o space name e =
    let one : concat "/" o ≡ slash o = append.cons "/" "" o ∙ ap slash (append.nil o) in
    ap (λ q. concat q (concat "/" o)) e
    ∙ append_assoc space (slash name) (concat "/" o)
    ∙ ap (concat space) (append.cons "/" name (concat "/" o))
    ∙ ap (λ q. concat space (slash (concat name q))) one

owner_key-injective :
    (p q o u : String)
    → validate_package_name p ≡ none
    → validate_package_name q ≡ none
    → owner_key p o ≡ owner_key q u
    → (p ≡ q) × (o ≡ u)
owner_key-injective p q o u valid_p valid_q e =
    let (space, name, f, left, right) = (validate_package_name-none p).0 valid_p in
    let (place, word, g, here, there) = (validate_package_name-none q).0 valid_q in
    let outer : (space, concat name (slash o)) ≡ (place, concat word (slash u)) =
      some-injective _ _ (
        sym (cut_at_slash-concat space (concat name (slash o)) (safe-chars space left))
        ∙ ap cut_at_slash
            (sym (owner_key-parts p o space name f) ∙ e ∙ owner_key-parts q u place word g)
        ∙ cut_at_slash-concat place (concat word (slash u)) (safe-chars place here)) in
    let inner : (name, o) ≡ (word, u) = some-injective _ _ (
      sym (cut_at_slash-concat name o (safe-chars name right))
      ∙ ap (λ (x : String × String). cut_at_slash x.1) outer
      ∙ cut_at_slash-concat word u (safe-chars word there)) in
    (
      f
          ∙ ap (λ (x : String × String). concat x.0 (slash name)) outer
          ∙ ap (λ (x : String × String). concat place (slash x.0)) inner
          ∙ sym g,
      ap (λ (x : String × String). x.1) inner,
    )

release_key-same :
    (p q v w : String)
    → validate_package_name p ≡ none
    → validate_package_name q ≡ none
    → (release_key p v == release_key q w) ≡ (p == q && v == w)
release_key-same p q v w valid_p valid_q = ground (
  arith,
  eq_iff (release_key p v) (release_key q w),
  eq_iff p q,
  eq_iff v w,
  release_key-injective p q v w valid_p valid_q,
  λ (a : p ≡ q) (b : v ≡ w). ap (λ x. release_key x v) a ∙ ap (release_key q) b,
)

module _ {V : Type 0} where
  abbrev pub with_yanked :
      Bool
      → String
      → Option (RegistryPackageReleaseRecord V)
      → Option (RegistryPackageReleaseRecord V)
  with_yanked yanked reason none = none
  with_yanked yanked reason (some r) = some (record r { yanked = yanked; yanked_reason = reason })

  flagged :
      (same yanked : Bool) (reason : String) (found : Option (RegistryPackageReleaseRecord V))
      → (if same
          then elim found [
            | none ↦ none
            | some r ↦ some (record r { yanked = yanked; yanked_reason = reason })
          ]
          else found)
        ≡ (if same then with_yanked yanked reason found else found)
  flagged same yanked reason none = refl
  flagged same yanked reason (some r) = refl

  set_yanked-answer :
      (s : MemoryStateStore V) (package_id version reason : String) (yanked : Bool)
      → (set_registry_package_release_yanked s package_id version yanked reason).1
        ≡ is_some (get_registry_package_release s package_id version)
  unfolding set_registry_package_release_yanked get_registry_package_release
  set_yanked-answer s package_id version reason yanked =
      elim (Option-cases (get (release_key package_id version) s.registry_releases)) [
        | inl e ↦ rw (e, set_registry_package_release_yanked, get_registry_package_release) refl
        | inr (r, e) ↦
            rw (e, set_registry_package_release_yanked, get_registry_package_release) refl
      ]

  -- Where two package names are valid, yanking a version of the first or taking that back answers
  -- whether the registry has the release. Then a release of the second package is the one of before
  -- with the flag and the reason, where it is that package's and that version's, and the one of
  -- before where the package or the version differs.
  pub get-set_yanked :
      (s : MemoryStateStore V) (package_id version reason p v : String) (yanked : Bool)
      → validate_package_name package_id ≡ none
      → validate_package_name p ≡ none
      → ((set_registry_package_release_yanked s package_id version yanked reason).1
          ≡ is_some (get_registry_package_release s package_id version))
        × (get_registry_package_release
              (set_registry_package_release_yanked s package_id version yanked reason).0
              p
              v
            ≡ (if package_id == p && version == v
                then with_yanked yanked reason (get_registry_package_release s p v)
                else get_registry_package_release s p v))
  get-set_yanked s package_id version reason p v yanked valid_id valid_p = (
    set_yanked-answer s package_id version reason yanked,
    set_yanked-get s package_id version reason p v yanked
        ∙ (rw (release_key-same package_id p version v valid_id valid_p) (
            flagged (package_id == p && version == v) yanked reason
              (get_registry_package_release s p v))),
  )

  -- Where two package names are valid, after a package got an owner, a package has exactly the
  -- owners of before and, where it is that package, the new one.
  pub has_registry_package_owner-add :
      (s : MemoryStateStore V) (r : RegistryPackageOwnerRecord) (p o : String)
      → validate_package_name r.package_id ≡ none
      → validate_package_name p ≡ none
      → (has_registry_package_owner (add_registry_package_owner s r) p o ≡ true)
        ↔ (((r.package_id ≡ p) × (r.owner_id ≡ o)) ⊎ (has_registry_package_owner s p o ≡ true))
  has_registry_package_owner-add s r p o valid_r valid_p = ground (
    arith,
    has_owner-add s r p o,
    owner_key-injective r.package_id p r.owner_id o valid_r valid_p,
    λ (a : r.package_id ≡ p) (b : r.owner_id ≡ o).
        ap (λ x. owner_key x r.owner_id) a ∙ ap (owner_key p) b,
  )

  -- Where two package names are valid, taking an owner from a package answers whether it was one;
  -- then a package has exactly the owners of before but for that one, where it is that package.
  pub has_registry_package_owner-remove :
      (s : MemoryStateStore V) (package_id owner_id p o : String)
      → validate_package_name package_id ≡ none
      → validate_package_name p ≡ none
      → ((has_registry_package_owner (remove_registry_package_owner s package_id owner_id).0 p o
            ≡ true)
          ↔ ((¬ ((package_id ≡ p) × (owner_id ≡ o))) × (has_registry_package_owner s p o ≡ true)))
        × ((remove_registry_package_owner s package_id owner_id).1
            ≡ has_registry_package_owner s package_id owner_id)
  has_registry_package_owner-remove s package_id owner_id p o valid_id valid_p =
      let (there, back) = (has_owner-remove s package_id owner_id p o).0 in
      (
        (
          λ h. (
            λ (a, b). (there h).0 (ap (λ x. owner_key x owner_id) a ∙ ap (owner_key p) b),
            (there h).1,
          ),
          λ (other, was).
              back (
                (λ e. other (owner_key-injective package_id p owner_id o valid_id valid_p e)),
                was,
              ),
        ),
        (has_owner-remove s package_id owner_id p o).1,
      )
