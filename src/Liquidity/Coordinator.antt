-- ===== src/Liquidity/Coordinator.antt =====
-- `reservePlan` of packages/fx-liquidity/src/coordinator.js. The adapters of the
-- liquidity sources are a parameter: how each call changes the state `S` of the sources, and whether it
-- throws. An adapter without both methods counts as missing.
pub mod Releasing
pub mod Compensation
use blueballs.Prelude.{
  ℕ, ◌+◌, String, Bool, true, false, Option, none, some, List, [], ◌∷◌, ◌++◌, ◌⊎◌, inl, inr, length,
  is_empty, ◌==◌, if◌then◌else◌,
}
use blueballs.Liquidity.Optimizer.{Leg, Plan}

-- A leg with its reservation.
pub record ReservedLeg : Type 0 where
  pub leg : Leg
  pub reservation_handle : String
  pub index : ℕ

-- `none` and `false` are calls that throw.
pub record Adapters (S : Type 0) : Type 0 where
  pub has_adapter : String → Bool
  pub reserve : S → (route_id : String) → Leg → (index : ℕ) → Option String × S
  pub release : S → (route_id : String) → ReservedLeg → (reason : String) → Bool × S

pub data ReserveError : Type 0 where
  route_id_required plan_required missing_adapter adapter_failed invalid_handle : ReserveError

pub record Route : Type 0 where
  pub route_id : String
  pub input_asset : String
  pub output_asset : String
  pub total_input : ℕ
  pub total_output : ℕ
  pub legs : List ReservedLeg

-- The reservation that could not be released.
pub record ReleaseError : Type 0 where
  pub source_type : String
  pub source_id : String
  pub reservation_handle : String

-- How the loop over the legs ended.
pub record Progress (S : Type 0) : Type 0 where
  pub error : Option ReserveError
  pub reserved : List ReservedLeg
  pub state : S

-- The elements from the last to the first.
abbrev pub backwards : {A : Type 0} → List A → List A
backwards [] = []
backwards (x ∷ xs) = backwards xs ++ x ∷ []

-- The check of the result of `reserve`.
unfoldable pub checked : {S : Type 0} → Option String × S → (ReserveError × S) ⊎ (String × S)
checked (none, s) = inl (adapter_failed, s)
checked (some handle, s) = if is_empty handle then inl (invalid_handle, s) else inr (handle, s)

module _ {S : Type 0} (adapters : Adapters S) (route_id : String) where
  unfoldable pub reserve_leg : S → Leg → ℕ → (ReserveError × S) ⊎ (String × S)
  unfolding checked
  reserve_leg s leg index =
      if adapters.has_adapter leg.source_type
      then checked (adapters.reserve s route_id leg index)
      else inl (missing_adapter, s)

  unfoldable pub reserve_legs : S → ℕ → List ReservedLeg → List Leg → Progress S
  unfolding reserve_leg
  reserve_legs s index reserved [] = record { error = none; reserved = reserved; state = s }
  reserve_legs s index reserved (leg ∷ legs) = elim (reserve_leg s leg index) [
    | inl (e, s') ↦ record { error = some e; reserved = reserved; state = s' }
    | inr (handle, s') ↦
        reserve_legs s' (index + 1)
          (reserved ++ record { leg = leg; reservation_handle = handle; index = index } ∷ []) legs
  ]

  unfoldable pub release_leg : S → String → ReservedLeg → Bool × S
  release_leg s reason item =
      if adapters.has_adapter item.leg.source_type
      then adapters.release s route_id item reason
      else (false, s)

  abbrev noted : Bool → ReservedLeg → List ReleaseError → List ReleaseError
  noted true item errors = errors
  noted false item errors =
      record {
        source_type = item.leg.source_type;
        source_id = item.leg.source_id;
        reservation_handle = item.reservation_handle;
      }
      ∷ errors

  -- The handler's loop: an item that cannot be released is noted and the loop goes on.
  unfoldable pub release_items : S → List ReservedLeg → List ReleaseError × S
  unfolding release_leg
  release_items s [] = ([], s)
  release_items s (item ∷ items) =
      let (released, s') = release_leg s "ROUTE_RESERVATION_FAILED" item in
      let (errors, end) = release_items s' items in (noted released item errors, end)

  -- What `reservePlan` does once the loop has ended.
  unfoldable pub end_reservation :
      Plan → Progress S → ((ReserveError × List ReleaseError) ⊎ Route) × S
  unfolding release_items
  end_reservation plan p = elim p.error [
    | none ↦ (
      inr (record {
        route_id = route_id;
        input_asset = plan.input_asset;
        output_asset = plan.output_asset;
        total_input = plan.total_input;
        total_output = plan.total_output;
        legs = p.reserved;
      }),
      p.state,
    )
    | some e ↦
        let (errors, s) = release_items p.state (backwards p.reserved) in (inl (e, errors), s)
  ]

  -- `reservePlan`
  unfoldable pub reserve_plan : Plan → S → ((ReserveError × List ReleaseError) ⊎ Route) × S
  unfolding reserve_legs end_reservation
  reserve_plan plan s =
      if is_empty route_id
      then (inl (route_id_required, []), s)
      else if length plan.legs == 0
      then (inl (plan_required, []), s)
      else end_reservation plan (reserve_legs s 0 [] plan.legs)
