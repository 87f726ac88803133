-- ===== src/Site/Fx/Setup/Coherence.antt =====
-- How the parts of the laboratory's configuration fit together under the controls of src/fx.
use blueballs.Prelude.{
  ℕ, ◌<◌, if◌then◌else◌, Bool, true, ◌≡◌, refl, sym, ◌∙◌, arith, any, length, subst,
}
use blueballs.Prelude.Double.{Double}
use blueballs.Site.Fx.Definitions.{
  CorridorId, JourneyId, ScenarioId, normal, FiatPlaneId, SimulationState, Corridor, corridors,
  initial_state,
}
use blueballs.Site.Fx.Scenarios.{available_scenarios, eq_scenario}
use blueballs.Site.Fx.Journeys.{
  JourneyStep, execution_core_step, journey_steps, build_journey_steps,
}
use blueballs.Site.Fx.Setup.{
  is_stable, is_token_corridor, is_no_fiat, corridor_for, set_journey_state, with_corridor,
  change_corridor, journey_by_fiat, change_fiat_plane, change_funding_model, step_count, tick,
  settle_scenario, Action, choose_journey, choose_corridor, choose_fiat_plane, choose_funding_model,
  choose_liquidity_plane, choose_execution_plane, choose_scenario, choose_inspector, choose_step,
  enter_amount, toggle_playing, toggle_customer_liquidity, timer, effect, reset, perform,
}

-- `available.includes(scenario)`
abbrev pub offers : JourneyId → ScenarioId → Bool
unfolding available_scenarios
offers journey scenario = any (eq_scenario scenario) (available_scenarios journey)

-- How many steps a journey has.
abbrev pub steps_of : JourneyId → ℕ
steps_of JourneyId.hybrid = 5
steps_of JourneyId.own = 4
steps_of JourneyId.provider = 5
steps_of JourneyId.issuer = 5
steps_of JourneyId.p2p = 6
steps_of JourneyId.stable = 3

-- The token corridor goes with the token-only journey, the scenario is one that the journey offers,
-- and the current step is one of the journey's.
pub record IsCoherent {d : Double} (s : SimulationState d) : Type 0 where
  pub corridor_fits : is_token_corridor s.corridor ≡ is_stable s.journey
  pub scenario_offered : offers s.journey s.scenario ≡ true
  pub step_exists : s.journey_step < step_count s

length-journey_steps :
    {d : Double} (core : JourneyStep) (c : Corridor d) (journey : JourneyId)
    → length (journey_steps core c journey) ≡ steps_of journey
unfolding journey_steps
length-journey_steps core c journey = ground arith

step_count_lem : {d : Double} (s : SimulationState d) → step_count s ≡ steps_of s.journey
unfolding step_count build_journey_steps execution_core_step
step_count_lem {d} s =
    length-journey_steps (execution_core_step s (corridors d s.corridor)) (corridors d s.corridor)
      s.journey

offers_normal : (journey : JourneyId) → offers journey normal ≡ true
unfolding available_scenarios
offers_normal journey = ground arith

steps_positive : (journey : JourneyId) → 0 < steps_of journey
steps_positive journey = ground arith

corridor_for_fits :
    (stable : Bool) (corridor : CorridorId)
    → is_token_corridor (corridor_for stable corridor) ≡ stable
unfolding corridor_for
corridor_for_fits stable corridor = ground arith

journey_by_fiat-is_stable :
    (plane : FiatPlaneId) → is_stable (journey_by_fiat plane) ≡ is_no_fiat plane
unfolding journey_by_fiat
journey_by_fiat-is_stable plane = ground arith

module _ {d : Double} where
  in_steps :
      (s : SimulationState d) → s.journey_step < steps_of s.journey → s.journey_step < step_count s
  in_steps s h = subst (λ n. s.journey_step < n) (sym (step_count_lem s)) h

  of_steps : (s : SimulationState d) {i : ℕ} → i < step_count s → i < steps_of s.journey
  of_steps s {i} h = subst (λ n. i < n) (step_count_lem s) h

  -- A configuration at the start of a journey fits together if its corridor does.
  pub started-IsCoherent :
      (s : SimulationState d)
      → is_token_corridor s.corridor ≡ is_stable s.journey
      → s.scenario ≡ normal
      → s.journey_step ≡ 0
      → IsCoherent s
  started-IsCoherent s fits scenario step = record {
    corridor_fits = fits;
    scenario_offered =
        subst (λ x. offers s.journey x ≡ true) (sym scenario) (offers_normal s.journey);
    step_exists = in_steps s (ground (arith, step, steps_positive s.journey));
  }

  set_journey_state-IsCoherent :
      (s : SimulationState d) (journey : JourneyId) → IsCoherent (set_journey_state s journey)
  unfolding set_journey_state
  set_journey_state-IsCoherent s journey =
      started-IsCoherent (set_journey_state s journey)
        (corridor_for_fits (is_stable journey) s.corridor) refl refl

  change_corridor-IsCoherent :
      (s : SimulationState d) (corridor : CorridorId) → IsCoherent (change_corridor corridor s)
  unfolding change_corridor with_corridor set_journey_state
  change_corridor-IsCoherent s corridor =
      started-IsCoherent (change_corridor corridor s) (ground arith) (ground arith) (ground arith)

  change_funding_model-IsCoherent :
      (s : SimulationState d) (plane : FiatPlaneId) → IsCoherent (change_funding_model plane s)
  unfolding change_funding_model
  change_funding_model-IsCoherent s plane =
      started-IsCoherent (change_funding_model plane s)
        (corridor_for_fits (is_no_fiat plane) s.corridor ∙ sym (journey_by_fiat-is_stable plane))
        refl refl

  change_fiat_plane-IsCoherent :
      (s : SimulationState d) (plane : FiatPlaneId) → IsCoherent (change_fiat_plane plane s)
  unfolding change_fiat_plane set_journey_state
  change_fiat_plane-IsCoherent s plane =
      started-IsCoherent (change_fiat_plane plane s)
        (corridor_for_fits (is_stable (journey_by_fiat plane)) s.corridor) refl refl

  tick-IsCoherent : (s : SimulationState d) → IsCoherent s → IsCoherent (tick s)
  unfolding tick
  tick-IsCoherent s h = record {
    corridor_fits = h.corridor_fits;
    scenario_offered = h.scenario_offered;
    step_exists = in_steps (tick s) (ground (arith, step_count_lem s, steps_positive s.journey));
  }

  settle_scenario-IsCoherent :
      (s : SimulationState d) → IsCoherent s → IsCoherent (settle_scenario s)
  unfolding settle_scenario
  settle_scenario-IsCoherent s h =
      subst (λ b. IsCoherent (if b then s else record s { scenario = normal }))
        (sym h.scenario_offered) h

  -- The page has a button only for what it lists.
  abbrev pub IsOffered : Action d → SimulationState d → Type 0
  IsOffered (choose_scenario scenario) s = offers s.journey scenario ≡ true
  IsOffered (choose_step index) s = index < step_count s
  IsOffered _ s = Unit

  -- A configuration whose corridor, journey, scenario and step are those of another.
  same-IsCoherent :
      (s t : SimulationState d)
      → t.corridor ≡ s.corridor
      → t.journey ≡ s.journey
      → offers s.journey t.scenario ≡ true
      → t.journey_step < steps_of s.journey
      → IsCoherent s
      → IsCoherent t
  same-IsCoherent s t corridor journey scenario step h = record {
    corridor_fits = rw (corridor, journey, h.corridor_fits);
    scenario_offered = rw (journey, scenario);
    step_exists = in_steps t (rw (journey) step);
  }

  -- Whatever a visitor does with the controls that the page offers, the token corridor goes with
  -- the token-only journey and with no other, the scenario is one that the journey offers, and the
  -- current step is one of the journey's steps.
  pub perform-IsCoherent :
      (a : Action d) (s : SimulationState d)
      → IsOffered a s
      → IsCoherent s
      → IsCoherent (perform a s)
  unfolding perform initial_state
  perform-IsCoherent (choose_journey journey) s o h = set_journey_state-IsCoherent s journey
  perform-IsCoherent (choose_corridor corridor) s o h = change_corridor-IsCoherent s corridor
  perform-IsCoherent (choose_fiat_plane plane) s o h = change_fiat_plane-IsCoherent s plane
  perform-IsCoherent (choose_funding_model plane) s o h = change_funding_model-IsCoherent s plane
  perform-IsCoherent (choose_liquidity_plane plane) s o h =
      same-IsCoherent s _ refl refl (offers_normal s.journey) (of_steps s h.step_exists) h
  perform-IsCoherent (choose_execution_plane plane) s o h =
      same-IsCoherent s _ refl refl (offers_normal s.journey) (of_steps s h.step_exists) h
  perform-IsCoherent (choose_scenario scenario) s o h =
      same-IsCoherent s _ refl refl o (of_steps s h.step_exists) h
  perform-IsCoherent (choose_inspector view) s o h =
      same-IsCoherent s _ refl refl h.scenario_offered (of_steps s h.step_exists) h
  perform-IsCoherent (choose_step index) s o h =
      same-IsCoherent s _ refl refl h.scenario_offered (of_steps s o) h
  perform-IsCoherent (enter_amount amount) s o h =
      same-IsCoherent s _ refl refl h.scenario_offered (of_steps s h.step_exists) h
  perform-IsCoherent toggle_playing s o h =
      same-IsCoherent s _ refl refl h.scenario_offered (of_steps s h.step_exists) h
  perform-IsCoherent toggle_customer_liquidity s o h =
      same-IsCoherent s _ refl refl (offers_normal s.journey) (of_steps s h.step_exists) h
  perform-IsCoherent timer s o h = tick-IsCoherent s h
  perform-IsCoherent effect s o h = settle_scenario-IsCoherent s h
  perform-IsCoherent reset s o h = started-IsCoherent (initial_state d) refl refl refl
