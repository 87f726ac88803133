-- ===== src/Site/Fx/Finality.antt =====
-- The settlement legs of a journey, after `executionFinalityLeg` and `finalityLegs` of
-- src/fx/final-fx-engine.ts and the finality view of `inspectorPayload` in
-- src/fx/final-fx-scenarios.ts.
pub mod Boundary
use blueballs.Prelude.{
  String, Bool, true, false, ◌&&◌, Option, none, some, List, [], ◌∷◌, length, map, all, ◌==◌,
  str_eq, ◌^^◌, if◌then◌else◌,
}
use blueballs.Prelude.Double.{Double}
use blueballs.Site.Fx.Definitions.{
  JourneyId, ExecutionPlaneId, blueballs_router, Corridor, SimulationState,
}

-- `class` is `finality`, and an absent `atomic` is `none`.
pub record FinalityLeg : Type 0 where
  pub kick : String
  pub label : String
  pub mechanism : String
  pub finality : String
  pub atomic : Option Bool

abbrev leg : String → String → String → String → FinalityLeg
leg kick label mechanism finality = record {
  kick = kick;
  label = label;
  mechanism = mechanism;
  finality = finality;
  atomic = none;
}

module _ {d : Double} where
  unfoldable pub token_leg : ExecutionPlaneId → Corridor d → FinalityLeg
  token_leg ExecutionPlaneId.internal c = record {
    kick = "TOKEN LEG";
    label = c.from_token ^^ " → " ^^ c.to_token;
    mechanism = "internal token transfer";
    finality = "AUTHORITATIVE LEDGER";
    atomic = some false;
  }
  token_leg ExecutionPlaneId.external c = record {
    kick = "TOKEN LEG";
    label = c.from_token ^^ " → " ^^ c.to_token;
    mechanism = "external execution venue";
    finality = "ASYNC EXTERNAL";
    atomic = some false;
  }
  token_leg blueballs_router c = record {
    kick = "TOKEN LEG";
    label = c.from_token ^^ " → " ^^ c.to_token;
    mechanism = "selected token fills";
    finality = "ATOMIC · REFERENCE";
    atomic = some true;
  }

  -- `executionFinalityLeg`
  unfoldable pub execution_finality_leg : SimulationState d → Corridor d → FinalityLeg
  unfolding token_leg
  execution_finality_leg state c = token_leg state.execution_plane c

  -- The legs of a journey around the token leg. The last return of the code is `provider` and
  -- `hybrid`, which differ in the mechanism of the input leg.
  unfoldable pub legs_around : FinalityLeg → Corridor d → JourneyId → List FinalityLeg
  legs_around core c JourneyId.stable = core ∷ []
  legs_around core c JourneyId.own =
      leg "INPUT LEG" (c.from ^^ " account debit") "internal ledger entry" "AUTHORITATIVE LEDGER"
      ∷ core
      ∷ leg "OUTPUT LEG" (c.to ^^ " account credit") "internal ledger entry" "AUTHORITATIVE LEDGER"
      ∷ []
  legs_around core c JourneyId.issuer =
      leg "INPUT LEG" (c.from ^^ " → " ^^ c.from_token) "issuer mint" "ATTESTED EXTERNAL"
      ∷ core
      ∷ leg "OUTPUT LEG" (c.to_token ^^ " → " ^^ c.to) "issuer redemption and payout"
          "ASYNC EXTERNAL"
      ∷ []
  legs_around core c JourneyId.p2p =
      leg "INPUT LEG" (c.from ^^ " payment → " ^^ c.from_token)
        "verified P2P payment and token release" "ATTESTED EXTERNAL"
      ∷ core
      ∷ leg "OUTPUT LEG" (c.to_token ^^ " → " ^^ c.to) "redemption or payout adapter"
          "ASYNC EXTERNAL"
      ∷ []
  legs_around core c JourneyId.provider =
      leg "INPUT LEG" (c.from ^^ " → " ^^ c.from_token) "provider-confirmed deposit"
        "ASYNC EXTERNAL"
      ∷ core
      ∷ leg "OUTPUT LEG" (c.to_token ^^ " → " ^^ c.to) "external payout" "ASYNC EXTERNAL"
      ∷ []
  legs_around core c JourneyId.hybrid =
      leg "INPUT LEG" (c.from ^^ " → " ^^ c.from_token) "account or provider funding"
        "ASYNC EXTERNAL"
      ∷ core
      ∷ leg "OUTPUT LEG" (c.to_token ^^ " → " ^^ c.to) "external payout" "ASYNC EXTERNAL"
      ∷ []

  unfoldable pub finality_legs : SimulationState d → Corridor d → List FinalityLeg
  unfolding execution_finality_leg legs_around
  finality_legs state c = legs_around (execution_finality_leg state c) c state.journey

-- `legs[0].class` where all classes are the same, and "MIXED_FINALITY" otherwise; `new Set(…).size
-- === 1` says that every class is the first.
unfoldable pub guarantee : List FinalityLeg → String
guarantee [] = "MIXED_FINALITY"
guarantee (l ∷ ls) =
    if all (λ m. str_eq m.finality l.finality) ls then l.finality else "MIXED_FINALITY"

abbrev is_true : Option Bool → Bool
is_true none = false
is_true (some b) = b

-- `singleAtomicBoundaryInReferenceModel`
unfoldable pub single_atomic_boundary : List FinalityLeg → Bool
single_atomic_boundary [] = false
single_atomic_boundary (l ∷ []) = is_true l.atomic
single_atomic_boundary (l ∷ m ∷ ls) = false
