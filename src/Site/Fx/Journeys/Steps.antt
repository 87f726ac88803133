-- ===== src/Site/Fx/Journeys/Steps.antt =====
-- The shape of the journeys of src/fx/final-fx-engine.ts.
use blueballs.Prelude.{Bool, true, false, not, ◌≡◌, arith, List, [], ◌∷◌, keep, ◌&&◌}
use blueballs.Prelude.Double.{Double}
use blueballs.Site.Fx.Definitions.{JourneyId, SimulationState, Corridor}
use blueballs.Site.Fx.Journeys.{
  JourneyStep, execution_core_step, journey_steps, build_journey_steps,
}

-- Whether the first and the last step exist and are not the exchange itself.
abbrev pub is_outer : List JourneyStep → Bool
is_outer [] = false
is_outer (s ∷ []) = not s.is_core
is_outer (s ∷ t ∷ ss) = not s.is_core && is_last_outer t ss
  where
    is_last_outer : JourneyStep → List JourneyStep → Bool
    is_last_outer t [] = not t.is_core
    is_last_outer t (u ∷ ss) = is_last_outer u ss

one_core :
    {d : Double} (core : JourneyStep) (c : Corridor d) (journey : JourneyId)
    → core.is_core ≡ true
    → (keep (λ s. s.is_core) (journey_steps core c journey) ≡ core ∷ [])
      × (is_outer (journey_steps core c journey) ≡ true)
unfolding journey_steps
one_core core c journey h = ground arith

core_step-is_core :
    {d : Double} (c : Corridor d) (state : SimulationState d)
    → (execution_core_step state c).is_core ≡ true
unfolding execution_core_step
core_step-is_core c state = ground arith

-- Every journey has exactly one exchange step, the one of the execution plane, and it is neither the
-- first nor the last step.
pub build_journey_steps_one_core :
    {d : Double} (state : SimulationState d) (c : Corridor d)
    → (keep (λ s. s.is_core) (build_journey_steps state c) ≡ execution_core_step state c ∷ [])
      × (is_outer (build_journey_steps state c) ≡ true)
unfolding build_journey_steps
build_journey_steps_one_core state c =
    one_core (execution_core_step state c) c state.journey (core_step-is_core c state)
