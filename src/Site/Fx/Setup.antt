-- ===== src/Site/Fx/Setup.antt =====
-- The configuration of the FX laboratory and what its controls do to it, after `setJourneyState` of
-- src/fx/final-fx-scenarios.ts, `changeCorridor`, `changeFiatPlane` and the effects of
-- src/fx/FinalFxPage.tsx, `changeFundingModel` of src/fx/FxProductBuilder.tsx, and the event
-- handlers of src/fx/FinalFxSectionsA.tsx, FinalFxSectionsB.tsx and FinalFxSectionsC.tsx.
pub mod Coherence
use blueballs.Prelude.{
  ℕ, ◌+◌, ◌%◌, String, Bool, true, false, not, List, [], ◌∷◌, any, length, if◌then◌else◌,
}
use blueballs.Prelude.Double.{Double}
use blueballs.Site.Fx.Definitions.{
  CorridorId, usd_eur, eur_brl, usdc_eurc, JourneyId, ScenarioId, normal, FiatPlaneId, bank,
  no_fiat, LiquidityPlaneId, ExecutionPlaneId, InspectorView, SimulationState, Corridor, Journey,
  corridors, journeys, initial_state,
}
use blueballs.Site.Fx.Scenarios.{available_scenarios, eq_scenario}
use blueballs.Site.Fx.Journeys.{build_journey_steps}

-- `journeyId === "stable"`
abbrev pub is_stable : JourneyId → Bool
is_stable JourneyId.stable = true
is_stable _ = false

-- `corridor === "usdc-eurc"`
abbrev pub is_token_corridor : CorridorId → Bool
is_token_corridor usdc_eurc = true
is_token_corridor _ = false

-- `fiatPlane === "none"`
abbrev pub is_no_fiat : FiatPlaneId → Bool
is_no_fiat no_fiat = true
is_no_fiat _ = false

-- `journeyByFiat`
unfoldable pub journey_by_fiat : FiatPlaneId → JourneyId
journey_by_fiat FiatPlaneId.hybrid = JourneyId.hybrid
journey_by_fiat FiatPlaneId.own = JourneyId.own
journey_by_fiat FiatPlaneId.provider = JourneyId.provider
journey_by_fiat FiatPlaneId.issuer = JourneyId.issuer
journey_by_fiat bank = JourneyId.hybrid
journey_by_fiat FiatPlaneId.p2p = JourneyId.p2p
journey_by_fiat no_fiat = JourneyId.stable

-- The corridor and the amount that `setJourneyState` and `changeFundingModel` go on with, for
-- whether the new journey is the token-only one.
unfoldable pub corridor_for : Bool → CorridorId → CorridorId
corridor_for stable corridor =
    if stable then usdc_eurc else if is_token_corridor corridor then usd_eur else corridor

unfoldable pub amount_for : (d : Double) → Bool → CorridorId → d.Number → d.Number
unfolding corridors
amount_for d stable corridor amount =
    if stable
    then (corridors d usdc_eurc).default_amount
    else if is_token_corridor corridor
    then (corridors d usd_eur).default_amount
    else amount

module _ {d : Double} where
  unfoldable pub set_journey_state : SimulationState d → JourneyId → SimulationState d
  unfolding journeys corridor_for amount_for
  set_journey_state current journey = record current {
    journey = journey;
    corridor = corridor_for (is_stable journey) current.corridor;
    amount = amount_for d (is_stable journey) current.corridor current.amount;
    fiat_plane = (journeys journey).fiat;
    liquidity_plane = (journeys journey).liquidity;
    execution_plane = (journeys journey).execution;
    scenario = normal;
    journey_step = 0;
    journey_playing = true;
  }

  -- What `changeCorridor` overwrites in each of its three returns.
  unfoldable pub with_corridor : CorridorId → SimulationState d → SimulationState d
  unfolding corridors
  with_corridor corridor current = record current {
    corridor = corridor;
    amount = (corridors d corridor).default_amount;
    scenario = normal;
    journey_step = 0;
  }

  unfoldable pub change_corridor : CorridorId → SimulationState d → SimulationState d
  unfolding set_journey_state with_corridor
  change_corridor corridor current =
      if is_token_corridor corridor
      then with_corridor corridor (set_journey_state current JourneyId.stable)
      else if is_stable current.journey
      then with_corridor corridor (set_journey_state current JourneyId.hybrid)
      else with_corridor corridor current

  unfoldable pub change_fiat_plane : FiatPlaneId → SimulationState d → SimulationState d
  unfolding set_journey_state journey_by_fiat
  change_fiat_plane plane current = record (set_journey_state current (journey_by_fiat plane)) {
    fiat_plane = plane;
  }

  unfoldable pub change_funding_model : FiatPlaneId → SimulationState d → SimulationState d
  unfolding journey_by_fiat corridor_for amount_for
  change_funding_model plane current = record current {
    journey = journey_by_fiat plane;
    fiat_plane = plane;
    corridor = corridor_for (is_no_fiat plane) current.corridor;
    amount = amount_for d (is_no_fiat plane) current.corridor current.amount;
    scenario = normal;
    journey_step = 0;
    journey_playing = true;
  }

  -- `journeySteps.length` of the page, for the corridor that the configuration names.
  unfoldable pub step_count : SimulationState d → ℕ
  unfolding build_journey_steps corridors
  step_count current = length (build_journey_steps current (corridors d current.corridor))

  -- The timer of the animation.
  unfoldable pub tick : SimulationState d → SimulationState d
  unfolding step_count
  tick current = record current { journey_step = (current.journey_step + 1) % step_count current }

  -- The effect that returns to the normal scenario where the journey does not offer the chosen one.
  unfoldable pub settle_scenario : SimulationState d → SimulationState d
  unfolding available_scenarios
  settle_scenario current =
      if any (eq_scenario current.scenario) (available_scenarios current.journey)
      then current
      else record current { scenario = normal }

-- What a visitor can do. The buttons for a scenario and for a step exist only for the scenarios and
-- the steps that the page lists, which `IsOffered` says.
pub data Action (d : Double) : Type 0 where
  choose_journey : JourneyId → Action d
  choose_corridor : CorridorId → Action d
  choose_fiat_plane : FiatPlaneId → Action d
  choose_funding_model : FiatPlaneId → Action d
  choose_liquidity_plane : LiquidityPlaneId → Action d
  choose_execution_plane : ExecutionPlaneId → Action d
  choose_scenario : ScenarioId → Action d
  choose_inspector : InspectorView → Action d
  choose_step : ℕ → Action d
  enter_amount : d.Number → Action d
  toggle_playing toggle_customer_liquidity timer effect reset : Action d

module _ {d : Double} where
  unfoldable pub perform : Action d → SimulationState d → SimulationState d
  unfolding set_journey_state change_corridor change_fiat_plane change_funding_model tick
      settle_scenario initial_state
  perform (choose_journey journey) s = set_journey_state s journey
  perform (choose_corridor corridor) s = change_corridor corridor s
  perform (choose_fiat_plane plane) s = change_fiat_plane plane s
  perform (choose_funding_model plane) s = change_funding_model plane s
  perform (choose_liquidity_plane plane) s = record s { liquidity_plane = plane; scenario = normal }
  perform (choose_execution_plane plane) s = record s { execution_plane = plane; scenario = normal }
  perform (choose_scenario scenario) s = record s { scenario = scenario }
  perform (choose_inspector view) s = record s { inspector = view }
  perform (choose_step index) s = record s { journey_step = index; journey_playing = false }
  perform (enter_amount amount) s = record s { amount = amount }
  perform toggle_playing s = record s { journey_playing = not s.journey_playing }
  perform toggle_customer_liquidity s = record s {
    customer_liquidity = not s.customer_liquidity;
    scenario = normal;
  }
  perform timer s = tick s
  perform effect s = settle_scenario s
  perform reset s = initial_state d
