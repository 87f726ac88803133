-- ===== src/Liquidity/Coordinator/Compensation.antt =====
-- What `reservePlan` of packages/fx-liquidity/src/coordinator.js leaves of a plan that it cannot reserve.
use blueballs.Prelude.{
  ℕ, String, Bool, ◌||◌, ◌≡◌, ◌⊎◌, inl, inr, none, some, List, [], ◌∷◌, ◌++◌, map, ◌==◌,
  if◌then◌else◌,
}
use blueballs.Liquidity.Optimizer.{Leg, Plan}
use blueballs.Liquidity.Coordinator.{
  ReservedLeg, Adapters, ReserveError, Route, ReleaseError, Progress, backwards,
}
use blueballs.Liquidity.Coordinator.Releasing.{Implies, Tracks, any_at, report, Released}

abbrev legs_of : List ReservedLeg → List Leg
legs_of items = map (λ l. l.leg) items

module _ {S : Type 0} (adapters : Adapters S) (route_id : String) where
  module _ (held : S → ℕ → Bool) (tracks : Tracks adapters route_id held) where
    abbrev Adds : (start s : S) → List ReservedLeg → Type 0
    Adds start s reserved = (j : ℕ) → Implies (held s j) (any_at j reserved || held start j)

    -- The loop adds no more than the legs that it has reserved, the first ones of `legs`, and all of them where
    -- it ends without an error.
    abbrev Advances : (start : S) → (legs : List Leg) → Progress S → Type 0
    Advances start legs p =
        Adds start p.state p.reserved
        × ((rest : List Leg) × (legs_of p.reserved ++ rest ≡ legs) × (p.error ≡ none → rest ≡ []))

    abbrev reserved_leg : Leg → ℕ → String → ReservedLeg
    reserved_leg leg index handle = record { leg = leg; reservation_handle = handle; index = index }

    -- What one call of `reserve` adds.
    abbrev AddsOwn : S → ℕ → (ReserveError × S) ⊎ (String × S) → Type 0
    AddsOwn s index (inl (e, s')) = (j : ℕ) → Implies (held s' j) (held s j)
    AddsOwn s index (inr (handle, s')) = (j : ℕ) → Implies (held s' j) ((j == index) || held s j)

    -- How the loop goes on after one leg.
    abbrev continued :
        Leg
        → ℕ
        → List ReservedLeg
        → (rest : S → List ReservedLeg → Progress S) → (ReserveError × S) ⊎ (String × S)
        → Progress S
    continued leg index reserved rest o = elim o [
      | inl (e, s') ↦ record { error = some e; reserved = reserved; state = s' }
      | inr (handle, s') ↦ rest s' (reserved ++ reserved_leg leg index handle ∷ [])
    ]

    -- How `reservePlan` ends. Where it fails: reservations of the first legs of the plan are released, from the
    -- last to the first, the error names exactly those whose release throws, and no leg is held that was not
    -- held before the call, but those that the error names. Otherwise the route has a reservation for every
    -- leg of the plan, in its order.
    abbrev pub LeavesNothing : Plan → S → ((ReserveError × List ReleaseError) ⊎ Route) × S → Type 0
    LeavesNothing plan s (inl (e, errors), end) =
        (reserved : List ReservedLeg) × (rest : List Leg) × (stuck : List ReservedLeg) × (mid : S)
        × (map (λ l. l.leg) reserved ++ rest ≡ plan.legs)
        × Released adapters route_id mid (backwards reserved) stuck end
        × (errors ≡ map report stuck)
        × ((j : ℕ) → Implies (held end j) (if any_at j reserved then any_at j stuck else held s j))
    LeavesNothing plan s (inr route, end) =
        (route.route_id ≡ route_id)
        × (map (λ l. l.leg) route.legs ≡ plan.legs)
        × ((j : ℕ) → Implies (held end j) (any_at j route.legs || held s j))
