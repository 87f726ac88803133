-- ===== src/Liquidity/Coordinator/Releasing.antt =====
-- What releasing the legs of a route leaves, in packages/fx-liquidity/src/coordinator.js.
use blueballs.Prelude.{
  ℕ, String, Bool, true, false, ◌&&◌, ◌||◌, not, ◌≡◌, refl, ap, subst, inl, inr, none, some, List,
  [], ◌∷◌, ◌++◌, map, is_empty, ◌==◌, Bool-cases, if◌then◌else◌, arith,
}
use blueballs.Liquidity.Optimizer.{Leg}
use blueballs.Liquidity.Coordinator.{
  ReservedLeg, Adapters, ReleaseError, backwards, release_leg, release_items,
}

-- Where the first holds, the second does.
abbrev pub Implies : Bool → Bool → Type 0
Implies a b = (a && not b) ≡ false

-- What the coordinator relies on, for a view of the sources that says which legs of the route, by their
-- index, have a reservation that is held: `reserve` adds no more than its own leg, and nothing where it
-- throws or gives no handle; `release` frees its leg where it returns, and adds nothing where it throws.
pub record Tracks {S : Type 0} (adapters : Adapters S) (route_id : String) (held : S → ℕ → Bool)
    : Type 0 where
  pub reserve_adds_own :
      (s : S) (leg : Leg) (index : ℕ) (handle : String) (s' : S)
      → adapters.reserve s route_id leg index ≡ (some handle, s')
      → (j : ℕ) → Implies (held s' j) ((j == index) || held s j)
  pub failure_adds_nothing :
      (s : S) (leg : Leg) (index : ℕ) (s' : S)
      → adapters.reserve s route_id leg index ≡ (none, s')
      → (j : ℕ) → Implies (held s' j) (held s j)
  pub invalid_adds_nothing :
      (s : S) (leg : Leg) (index : ℕ) (handle : String) (s' : S)
      → adapters.reserve s route_id leg index ≡ (some handle, s')
      → is_empty handle ≡ true
      → (j : ℕ) → Implies (held s' j) (held s j)
  pub release_frees :
      (s : S) (item : ReservedLeg) (reason : String) (s' : S)
      → adapters.release s route_id item reason ≡ (true, s')
      → (j : ℕ) → Implies (held s' j) (not (j == item.index) && held s j)
  pub release_adds_nothing :
      (s : S) (item : ReservedLeg) (reason : String) (s' : S)
      → adapters.release s route_id item reason ≡ (false, s')
      → (j : ℕ) → Implies (held s' j) (held s j)

-- Whether one of the legs has the index.
unfoldable pub any_at : ℕ → List ReservedLeg → Bool
any_at j [] = false
any_at j (x ∷ xs) = (j == x.index) || any_at j xs

pub any_at-append :
    (j : ℕ) (xs ys : List ReservedLeg) → any_at j (xs ++ ys) ≡ (any_at j xs || any_at j ys)
unfolding any_at
any_at-append j [] ys = refl
any_at-append j (x ∷ xs) ys = ground (arith, any_at-append j xs ys)

pub any_at-backwards : (j : ℕ) (xs : List ReservedLeg) → any_at j (backwards xs) ≡ any_at j xs
unfolding any_at
any_at-backwards j [] = refl
any_at-backwards j (x ∷ xs) =
    ground (arith, any_at-append j (backwards xs) (x ∷ []), any_at-backwards j xs)

-- The entry of `releaseErrors` for a leg.
abbrev pub report : ReservedLeg → ReleaseError
report item = record {
  source_type = item.leg.source_type;
  source_id = item.leg.source_id;
  reservation_handle = item.reservation_handle;
}

module _ {S : Type 0} (adapters : Adapters S) (route_id : String) where
  -- The legs are released one after the other; those whose release throws are stuck.
  pub data Released : S → List ReservedLeg → (stuck : List ReservedLeg) → S → Type 0 where
    released_all : {s : S} → Released s [] [] s
    freed :
        {s s' end : S} (item : ReservedLeg) (items stuck : List ReservedLeg)
        → release_leg adapters route_id s "ROUTE_RESERVATION_FAILED" item ≡ (true, s')
        → Released s' items stuck end
        → Released s (item ∷ items) stuck end
    kept :
        {s s' end : S} (item : ReservedLeg) (items stuck : List ReservedLeg)
        → release_leg adapters route_id s "ROUTE_RESERVATION_FAILED" item ≡ (false, s')
        → Released s' items stuck end
        → Released s (item ∷ items) (item ∷ stuck) end

  release_items-next :
      (s : S) (item : ReservedLeg) (items : List ReservedLeg) (released : Bool) (s' : S)
      → release_leg adapters route_id s "ROUTE_RESERVATION_FAILED" item ≡ (released, s')
      → ((stuck : List ReservedLeg) × Released s' items stuck
            (release_items adapters route_id s' items).1
          × ((release_items adapters route_id s' items).0 ≡ map report stuck))
      → (stuck : List ReservedLeg) × Released s
          (item ∷ items)
          stuck
          (release_items adapters route_id s (item ∷ items)).1
        × ((release_items adapters route_id s (item ∷ items)).0 ≡ map report stuck)
  unfolding release_items
  release_items-next s item items true s' e (stuck, run, errors) =
      rw e (stuck, freed item items stuck e run, errors)
  release_items-next s item items false s' e (stuck, run, errors) =
      rw e (item ∷ stuck, kept item items stuck e run, ap (λ es. report item ∷ es) errors)

  pub release_items-Released :
      (s : S) (items : List ReservedLeg)
      → (stuck : List ReservedLeg) × Released s items stuck
          (release_items adapters route_id s items).1
        × ((release_items adapters route_id s items).0 ≡ map report stuck)
  unfolding release_items
  release_items-Released s [] = ([], released_all, refl)
  release_items-Released s (item ∷ items) =
      let result = release_leg adapters route_id s "ROUTE_RESERVATION_FAILED" item in
      release_items-next s item items result.0 result.1 refl (release_items-Released result.1 items)

  module _ (held : S → ℕ → Bool) (tracks : Tracks adapters route_id held) where
    release_leg-frees :
        (s : S) (item : ReservedLeg) (s' : S)
        → release_leg adapters route_id s "ROUTE_RESERVATION_FAILED" item ≡ (true, s')
        → (j : ℕ) → Implies (held s' j) (not (j == item.index) && held s j)
    unfolding release_leg
    release_leg-frees s item s' e j =
        elim (Bool-cases (adapters.has_adapter item.leg.source_type)) [
          | inl present ↦
              tracks.release_frees s item "ROUTE_RESERVATION_FAILED" s' (rw present at e) j
          | inr missing ↦
              let result : (false, s) ≡ (true, s') = rw missing at e in
              let clash : false ≡ true = ap (λ x. x.0) result in cc
        ]

    release_leg-keeps :
        (s : S) (item : ReservedLeg) (s' : S)
        → release_leg adapters route_id s "ROUTE_RESERVATION_FAILED" item ≡ (false, s')
        → (j : ℕ) → Implies (held s' j) (held s j)
    unfolding release_leg
    release_leg-keeps s item s' e j =
        elim (Bool-cases (adapters.has_adapter item.leg.source_type)) [
          | inl present ↦
              tracks.release_adds_nothing s item "ROUTE_RESERVATION_FAILED" s' (rw present at e) j
          | inr missing ↦
              let result : (false, s) ≡ (false, s') = rw missing at e in
              subst (λ t. Implies (held t j) (held s j)) (ap (λ x. x.1) result) (ground arith)
        ]

    pub Released-held :
        {s end : S} {items stuck : List ReservedLeg}
        → Released s items stuck end
        → (j : ℕ) → Implies (held end j) (if any_at j items then any_at j stuck else held s j)
    unfolding any_at
    Released-held released_all j = ground arith
    Released-held {s} (freed {s' = s'} item items stuck e run) j =
        let after = Released-held run j in
        let frees = release_leg-frees s item s' e j in ground arith
    Released-held {s} (kept {s' = s'} item items stuck e run) j =
        let after = Released-held run j in
        let keeps = release_leg-keeps s item s' e j in ground arith
