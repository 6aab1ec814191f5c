-- ===== src/Plan/Order/Walks.antt =====
-- What a call of `visit` (BuildPackageOrder, CompilePlan.cpp) does to the walk: the states agree
-- with the order and the stack, and the count of unseen packages falls.
use styio_platform.Base.{
  ℕ, ◌+◌, ◌≤◌, ◌<◌, String, ◌≡◌, ◌∙◌, refl, sym, subst, Bool, true, false, some, List, [], ◌∷◌,
  ◌++◌, ◌==◌, eq_iff, arith, inl, inr, if◌then◌else◌, member, all, Bool-cases,
}
use styio_platform.Base.Dict.{get-put}
use styio_platform.Resolve.{ResolvedPackage}
use styio_platform.Plan.Order.{
  VisitState, unseen, active, done, Walk, Outcome, out_of_fuel, unknown_package, cyclic, finished,
  state_of, enter, leave, find_package, pop_back,
}
use styio_platform.Plan.Order.Graph.{
  IsBuildOrder, IsBuildOrder-snoc, IsCycle, IsMissing, member-snoc, member_self, pop_back-snoc,
}

abbrev pub is_done : VisitState → Bool
is_done done = true
is_done active = false
is_done unseen = false

abbrev pub is_active : VisitState → Bool
is_active active = true
is_active done = false
is_active unseen = false

abbrev pub is_unseen : VisitState → Bool
is_unseen unseen = true
is_unseen active = false
is_unseen done = false

pub state_of-enter :
    (id j : String) (w : Walk)
    → state_of (enter id w) j ≡ (if id == j then active else state_of w j)
unfolding enter
state_of-enter id j w = ground (arith, get-put id j active w.visit_state)

pub state_of-leave :
    (id j : String) (w : Walk) → state_of (leave id w) j ≡ (if id == j then done else state_of w j)
unfolding leave
state_of-leave id j w = ground (arith, get-put id j done w.visit_state)

pub stack-enter : (id : String) (w : Walk) → (enter id w).stack ≡ w.stack ++ id ∷ []
unfolding enter
stack-enter id w = refl

pub order-enter : (id : String) (w : Walk) → (enter id w).order ≡ w.order
unfolding enter
order-enter id w = refl

pub order-leave : (id : String) (w : Walk) → (leave id w).order ≡ w.order ++ id ∷ []
unfolding leave
order-leave id w = refl

pub stack-leave : (id : String) (w : Walk) → (leave id w).stack ≡ pop_back w.stack
unfolding leave
stack-leave id w = refl

-- How many of the ids are unseen.
abbrev pub unseen_count : List String → Walk → ℕ
unseen_count [] w = 0
unseen_count (id ∷ ids) w = (if is_unseen (state_of w id) then 1 else 0) + unseen_count ids w

-- `v` sees no fewer ids than `w`.
abbrev pub SeesMore : Walk → Walk → Type 0
SeesMore w v = (j : String) → is_unseen (state_of v j) ≡ true → is_unseen (state_of w j) ≡ true

pub unseen_count_mono :
    (ids : List String) (w v : Walk) → SeesMore w v → unseen_count ids v ≤ unseen_count ids w
unseen_count_mono [] w v h = omega arith
unseen_count_mono (id ∷ ids) w v h = ground (arith, h id, unseen_count_mono ids w v h)

pub unseen_count-lt :
    (ids : List String) (w v : Walk) (id : String)
    → SeesMore w v
    → member id ids ≡ true
    → is_unseen (state_of w id) ≡ true
    → is_unseen (state_of v id) ≡ false
    → unseen_count ids v < unseen_count ids w
unseen_count-lt [] w v id h m before after = cc
unseen_count-lt (x ∷ ids) w v id h m before after = elim (Bool-cases (x == id)) [
  | inl same ↦
      let e : x ≡ id = (eq_iff x id).0 same in
      rw (e, before, after) (ground (arith, unseen_count_mono ids w v h))
  | inr other ↦ ground (arith, h x, unseen_count-lt ids w v id h)
]

module _ (packages : List ResolvedPackage) where
  -- The three records of `visit` tell the same story.
  pub record IsSound (w : Walk) : Type 0 where
    pub done_order : (j : String) → is_done (state_of w j) ≡ member j w.order
    pub active_stack : (j : String) → is_active (state_of w j) ≡ member j w.stack
    pub ordered : IsBuildOrder packages [] w.order

  -- From `w`, calls of `visit` on `ids` have led to `v`.
  pub record Reached (w : Walk) (ids : List String) (v : Walk) : Type 0 where
    pub sound : IsSound v
    pub same_stack : v.stack ≡ w.stack
    pub built : all (λ j. member j v.order) ids ≡ true
    pub keeps : (j : String) → member j w.order ≡ true → member j v.order ≡ true
    pub sees : SeesMore w v

  -- Every way in which calls of `visit` end, with what each one shows.
  abbrev pub Ends : Walk → List String → Outcome Walk → Type 0
  Ends w ids out_of_fuel = ⊥
  Ends w ids (unknown_package id) = IsMissing packages id
  Ends w ids (cyclic ids') = IsCycle packages ids'
  Ends w ids (finished v) = Reached w ids v

  pub Reached-nil : (w : Walk) → IsSound w → Reached w [] w
  Reached-nil w s = record {
    sound = s;
    same_stack = refl;
    built = refl;
    keeps = λ j h. h;
    sees = λ j h. h;
  }

  pub Reached-cons :
      (w u v : Walk) (id : String) (ids : List String)
      → Reached w (id ∷ []) u
      → Reached u ids v
      → Reached w (id ∷ ids) v
  Reached-cons w u v id ids first rest = record {
    sound = rest.sound;
    same_stack = rest.same_stack ∙ first.same_stack;
    built = ground (arith, first.built, rest.built, rest.keeps id);
    keeps = λ j h. rest.keeps j (first.keeps j h);
    sees = λ j h. first.sees j (rest.sees j h);
  }

  -- Entering an unseen package.
  pub enter-IsSound :
      (id : String) (w : Walk) → IsSound w → state_of w id ≡ unseen → IsSound (enter id w)
  enter-IsSound id w s e = record {
    done_order =
        λ j. ground (arith, state_of-enter id j w, s.done_order j, eq_iff id j, order-enter id w);
    active_stack = λ j. ground (
      arith,
      state_of-enter id j w,
      s.active_stack j,
      member-snoc j id w.stack,
      stack-enter id w,
    );
    ordered = subst (IsBuildOrder packages []) (sym (order-enter id w)) s.ordered;
  }

  -- Leaving a package whose dependencies are built.
  pub leave-Reached :
      (id : String) (w v : Walk) (p : ResolvedPackage)
      → IsSound w
      → state_of w id ≡ unseen
      → find_package packages id ≡ some p
      → Reached (enter id w) p.dependencies v
      → Reached w (id ∷ []) (leave id v)
  leave-Reached id w v p s e found r =
      let stack : v.stack ≡ w.stack ++ id ∷ [] = r.same_stack ∙ stack-enter id w in
      let here : member id v.stack ≡ true = rw stack (member_self id w.stack) in
      let absent : member id v.order ≡ false =
        ground (arith, r.sound.done_order id, r.sound.active_stack id) in
      record {
        sound = record {
          done_order = λ j. ground (
            arith,
            state_of-leave id j v,
            r.sound.done_order j,
            member-snoc j id v.order,
            order-leave id v,
            eq_iff id j,
          );
          active_stack = λ j. ground (
            arith,
            state_of-leave id j v,
            r.sound.active_stack j,
            s.active_stack j,
            member-snoc j id w.stack,
            stack-leave id v,
            pop_back-snoc w.stack id,
            eq_iff id j,
          );
          ordered = subst (IsBuildOrder packages []) (sym (order-leave id v)) (
              IsBuildOrder-snoc packages [] v.order id r.sound.ordered
                (absent, (p, found, r.built)));
        };
        same_stack = stack-leave id v ∙ (rw stack (pop_back-snoc w.stack id));
        built = ground (arith, order-leave id v, member_self id v.order);
        keeps = λ j h.
            ground (arith, order-leave id v, order-enter id w, member-snoc j id v.order, r.keeps j);
        sees = λ j h.
            ground (arith, state_of-leave id j v, state_of-enter id j w, r.sees j, eq_iff id j);
      }
