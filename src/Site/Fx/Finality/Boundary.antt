-- ===== src/Site/Fx/Finality/Boundary.antt =====
-- The guarantee that the laboratory shows for the legs of src/fx/final-fx-engine.ts.
use blueballs.Prelude.{Bool, true, false, ◌&&◌, ◌≡◌, refl, str_eq}
use blueballs.Prelude.Double.{Double}
use blueballs.Site.Fx.Definitions.{
  JourneyId, ExecutionPlaneId, blueballs_router, Corridor, SimulationState,
}
use blueballs.Site.Fx.Setup.{is_stable}
use blueballs.Site.Fx.Finality.{
  token_leg, execution_finality_leg, legs_around, finality_legs, guarantee, single_atomic_boundary,
}

-- `executionPlane === "blueballs"`
abbrev pub is_router : ExecutionPlaneId → Bool
is_router blueballs_router = true
is_router _ = false

boundary_for :
    {d : Double} (plane : ExecutionPlaneId) (journey : JourneyId) (c : Corridor d)
    → (single_atomic_boundary (legs_around (token_leg plane c) c journey)
        ≡ is_stable journey && is_router plane)
      × (str_eq (guarantee (legs_around (token_leg plane c) c journey)) "ATOMIC · REFERENCE"
          ≡ is_stable journey && is_router plane)
unfolding token_leg legs_around guarantee single_atomic_boundary
boundary_for ExecutionPlaneId.internal JourneyId.hybrid c = (refl, refl)
boundary_for ExecutionPlaneId.internal JourneyId.own c = (refl, refl)
boundary_for ExecutionPlaneId.internal JourneyId.provider c = (refl, refl)
boundary_for ExecutionPlaneId.internal JourneyId.issuer c = (refl, refl)
boundary_for ExecutionPlaneId.internal JourneyId.p2p c = (refl, refl)
boundary_for ExecutionPlaneId.internal JourneyId.stable c = (refl, refl)
boundary_for ExecutionPlaneId.external JourneyId.hybrid c = (refl, refl)
boundary_for ExecutionPlaneId.external JourneyId.own c = (refl, refl)
boundary_for ExecutionPlaneId.external JourneyId.provider c = (refl, refl)
boundary_for ExecutionPlaneId.external JourneyId.issuer c = (refl, refl)
boundary_for ExecutionPlaneId.external JourneyId.p2p c = (refl, refl)
boundary_for ExecutionPlaneId.external JourneyId.stable c = (refl, refl)
boundary_for blueballs_router JourneyId.hybrid c = (refl, refl)
boundary_for blueballs_router JourneyId.own c = (refl, refl)
boundary_for blueballs_router JourneyId.provider c = (refl, refl)
boundary_for blueballs_router JourneyId.issuer c = (refl, refl)
boundary_for blueballs_router JourneyId.p2p c = (refl, refl)
boundary_for blueballs_router JourneyId.stable c = (refl, refl)

-- A route counts as a single atomic boundary, and its guarantee reads atomic, exactly for the
-- token-only journey on the Blueballs contracts: no route with a fiat leg claims atomicity.
pub finality_legs_atomic :
    {d : Double} (state : SimulationState d) (c : Corridor d)
    → (single_atomic_boundary (finality_legs state c)
        ≡ is_stable state.journey && is_router state.execution_plane)
      × (str_eq (guarantee (finality_legs state c)) "ATOMIC · REFERENCE"
          ≡ is_stable state.journey && is_router state.execution_plane)
unfolding finality_legs execution_finality_leg
finality_legs_atomic state c = boundary_for state.execution_plane state.journey c
