-- ===== src/Fiat/Graph/Routes.antt =====
-- What `analyzeRoute` of packages/fx-fiat/src/settlement-graph.js promises of a route.
use blueballs.Prelude.{
  ◌<◌, String, Bool, true, false, ◌≡◌, refl, sym, ap, ap₂, subst, inl, inr, Option, none, some,
  List, [], ◌∷◌, all, map, ◌==◌, All, All-weaken, arith, str_eq, str_eq_iff, Bool-cases,
  Option-cases, Outcome, ok, err, require, require-eq-ok, >>=-eq-ok, >>-eq-ok, ok-injective,
}
use blueballs.Prelude.Dict.{Dict, lookup, str_eq_refl}
use blueballs.Fiat.Graph.{
  GraphError, discontinuity, route_required, Edge, is_atomic, same_group, route_guarantee, Route,
  check_path, checked_edge, usable_edge, usable_edges, route_of, analyze_route,
}
use blueballs.Fiat.Graph.Building.{IsGrouped, IsSound, Built, Built-IsSound}

-- Each edge begins where the one before it ends.
abbrev pub Connects : List Edge → Type 0
Connects [] = Unit
Connects (e ∷ []) = Unit
Connects (e ∷ f ∷ es) = (e.to_asset ≡ f.from_asset) × Connects (f ∷ es)

-- One atomic boundary: every edge is atomic, and all are of the group `g`.
abbrev pub IsOneBoundary : String → List Edge → Type 0
IsOneBoundary g es = All (λ e. (e.finality_class ≡ "ATOMIC") × (e.atomic_group ≡ some g)) es

pub record IsRoute (authorized : Edge → Bool) (graph : Dict Edge) (ids : List String) (r : Route)
    : Type 0 where
  pub ids_are : map (λ e. e.edge_id) r.edges ≡ ids
  pub usable :
      All
        (λ e.
          (lookup e.edge_id graph ≡ some e)
          × (e.available ≡ true)
          × (0 < e.capacity)
          × (authorized e ≡ true))
        r.edges
  pub connects : Connects r.edges
  pub atomic_means : r.guarantee.atomic ≡ true → (g : String) × IsOneBoundary g r.edges
  pub boundary_means : (g : String) → IsOneBoundary g r.edges → r.guarantee.atomic ≡ true

check_path-Connects : (e : Edge) (es : List Edge) → check_path e es ≡ ok tt → Connects (e ∷ es)
unfolding check_path
check_path-Connects e [] done = tt
check_path-Connects e (f ∷ es) done =
    let (joined, rest) =
      >>-eq-ok (require (str_eq e.to_asset f.from_asset) (discontinuity e.edge_id f.edge_id))
        (check_path f es) done in
    (
      (str_eq_iff e.to_asset f.from_asset).0
          (require-eq-ok _ (discontinuity e.edge_id f.edge_id) joined),
      check_path-Connects f es rest,
    )

all-All : (p : Edge → Bool) (es : List Edge) → all p es ≡ true → All (λ e. p e ≡ true) es
all-All p [] h = tt
all-All p (e ∷ es) h = (ground arith, all-All p es (ground arith))

All-all : (p : Edge → Bool) (es : List Edge) → All (λ e. p e ≡ true) es → all p es ≡ true
All-all p [] h = refl
All-all p (e ∷ es) h = rw (h.0, All-all p es h.1) refl

same_group_of : (g : String) (o : Option String) → same_group o (some g) ≡ true → o ≡ some g
same_group_of g none h = cc
same_group_of g (some f) h = ap (λ x. some x) ((str_eq_iff f g).0 h)

same_group_refl : (g : String) (o : Option String) → o ≡ some g → same_group o (some g) ≡ true
same_group_refl g o h = rw h (str_eq_refl g)

atomic-IsOneBoundary :
    (e : Edge) (es : List Edge)
    → IsGrouped e
    → (route_guarantee (e ∷ es)).atomic ≡ true
    → (g : String) × IsOneBoundary g (e ∷ es)
unfolding route_guarantee
atomic-IsOneBoundary e es grouped h =
    elim (Bool-cases (all (λ x. is_atomic x.finality_class) (e ∷ es))) [
      | inr mixed ↦ let wrong = rw (mixed, route_guarantee) at h in cc
      | inl atomic ↦
          elim (Bool-cases (all (λ x. same_group x.atomic_group e.atomic_group) (e ∷ es))) [
            | inr many ↦ let wrong = rw (atomic, many, route_guarantee) at h in cc
            | inl one ↦
                let each = all-All (λ x. is_atomic x.finality_class) (e ∷ es) atomic in
                let (g, group) = grouped each.0 in
                (
                  g,
                  boundary g (e ∷ es) each (
                      all-All (λ x. same_group x.atomic_group (some g)) (e ∷ es)
                        (subst (λ o. all (λ x. same_group x.atomic_group o) (e ∷ es) ≡ true) group
                          one)),
                )
          ]
    ]
  where
    boundary :
        (g : String) (xs : List Edge)
        → All (λ x. is_atomic x.finality_class ≡ true) xs
        → All (λ x. same_group x.atomic_group (some g) ≡ true) xs
        → IsOneBoundary g xs
    boundary g [] a b = tt
    boundary g (x ∷ xs) a b = (
      ((str_eq_iff x.finality_class "ATOMIC").0 a.0, same_group_of g x.atomic_group b.0),
      boundary g xs a.1 b.1,
    )

IsOneBoundary-atomic :
    (g : String) (e : Edge) (es : List Edge)
    → IsOneBoundary g (e ∷ es)
    → (route_guarantee (e ∷ es)).atomic ≡ true
unfolding route_guarantee
IsOneBoundary-atomic g e es b =
    let atomic : all (λ x. is_atomic x.finality_class) (e ∷ es) ≡ true =
      All-all (λ x. is_atomic x.finality_class) (e ∷ es)
        (All-weaken _ (λ x. is_atomic x.finality_class ≡ true)
          (λ x h. (str_eq_iff x.finality_class "ATOMIC").1 h.0) (e ∷ es) b) in
    let one : all (λ x. same_group x.atomic_group e.atomic_group) (e ∷ es) ≡ true =
      All-all (λ x. same_group x.atomic_group e.atomic_group) (e ∷ es)
        (All-weaken _ (λ x. same_group x.atomic_group e.atomic_group ≡ true)
          (λ x h.
            subst (λ o. same_group x.atomic_group o ≡ true) (sym b.0.1)
              (same_group_refl g x.atomic_group h.1))
          (e ∷ es) b) in
    rw (atomic, one) refl

module _ (authorized : Edge → Bool) (graph : Dict Edge) (sound : IsSound graph) where
  abbrev Usable : Edge → Type 0
  Usable e =
      (lookup e.edge_id graph ≡ some e)
      × (e.available ≡ true)
      × (0 < e.capacity)
      × (authorized e ≡ true)

  checked_edge-Usable :
      {id : String} (e : Edge) {e' : Edge}
      → lookup e.edge_id graph ≡ some e
      → 0 < e.capacity
      → IsGrouped e
      → e.edge_id ≡ id
      → checked_edge authorized e ≡ ok e'
      → (e'.edge_id ≡ id) × Usable e' × IsGrouped e'
  unfolding checked_edge
  checked_edge-Usable {id} e there some_capacity grouped own done =
      let some_left : (e.capacity == 0) ≡ false = ground arith in
      elim (Bool-cases e.available) [
        | inr away ↦ let wrong = simp away at done in cc
        | inl available ↦ elim (Bool-cases (authorized e)) [
          | inr refused ↦ let wrong = simp (available, some_left, refused) at done in cc
          | inl allowed ↦
              subst (λ x. (x.edge_id ≡ id) × Usable x × IsGrouped x)
                (ok-injective (simp (available, some_left, allowed) at done))
                (own, (there, available, some_capacity, allowed), grouped)
        ]
      ]

  usable_edge-Usable :
      (id : String) {e : Edge}
      → usable_edge authorized graph id ≡ ok e
      → (e.edge_id ≡ id) × Usable e × IsGrouped e
  unfolding usable_edge
  usable_edge-Usable id done = elim (Option-cases (lookup id graph)) [
    | inl missing ↦ let wrong = rw (missing, usable_edge) at done in cc
    | inr (e, found) ↦
        let (own, some_capacity, grouped) = sound id e found in
        let there : lookup e.edge_id graph ≡ some e =
          subst (λ k. lookup k graph ≡ some e) (sym own) found in
        checked_edge-Usable e there some_capacity grouped own (rw (found, usable_edge) at done)
  ]

  usable_edges-Usable :
      (ids : List String) {es : List Edge}
      → usable_edges authorized graph ids ≡ ok es
      → (map (λ e. e.edge_id) es ≡ ids) × All Usable es × All IsGrouped es
  unfolding usable_edges
  usable_edges-Usable [] done =
      subst (λ es. (map (λ e. e.edge_id) es ≡ []) × All Usable es × All IsGrouped es)
        (ok-injective done) (refl, tt, tt)
  usable_edges-Usable (id ∷ ids) done =
      let (e, here, next) = >>=-eq-ok (usable_edge authorized graph id) _ done in
      let (es, there, result) = >>=-eq-ok (usable_edges authorized graph ids) _ next in
      let (own, usable, grouped) = usable_edge-Usable id here in
      let (owns, usables, groups) = usable_edges-Usable ids there in
      subst (λ xs. (map (λ x. x.edge_id) xs ≡ id ∷ ids) × All Usable xs × All IsGrouped xs)
        (ok-injective result) (ap₂ (λ x xs. x ∷ xs) own owns, (usable, usables), (grouped, groups))

  route_of-IsRoute :
      (ids : List String) (es : List Edge) {r : Route}
      → map (λ e. e.edge_id) es ≡ ids
      → All Usable es
      → All IsGrouped es
      → route_of authorized ids es ≡ ok r
      → IsRoute authorized graph ids r
  unfolding route_of
  route_of-IsRoute ids [] owns usable grouped done = absurd (refused done)
    where
      refused : {r : Route} → ◌≡◌ {A = Outcome GraphError Route} (err route_required) (ok r) → ⊥
      refused h = cc
  route_of-IsRoute ids (e ∷ es) owns usable grouped done =
      let (joined, result) = >>-eq-ok (check_path e es) _ done in
      subst (IsRoute authorized graph ids) (ok-injective result) (record {
        ids_are = owns;
        usable = usable;
        connects = check_path-Connects e es joined;
        atomic_means = atomic-IsOneBoundary e es grouped.0;
        boundary_means = λ g b. IsOneBoundary-atomic g e es b;
      })

-- A route that is analyzed in a graph that the calls built consists of the current edges of the ids, in
-- their order, each available, with capacity and authorized, each beginning with the asset in which the one
-- before it ends; and it is reported as atomic exactly when all its edges are atomic and of one named group.
pub analyze_route-IsRoute :
    (authorized : Edge → Bool) (graph : Dict Edge) (ids : List String) {r : Route}
    → Built graph
    → analyze_route authorized graph ids ≡ ok r
    → IsRoute authorized graph ids r
unfolding analyze_route
analyze_route-IsRoute authorized graph ids built done =
    let sound = Built-IsSound built in
    let (es, usable, result) =
      >>=-eq-ok (usable_edges authorized graph ids) (route_of authorized ids) done in
    let (owns, usables, groups) = usable_edges-Usable authorized graph sound ids usable in
    route_of-IsRoute authorized graph sound ids es owns usables groups result
