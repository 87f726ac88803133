-- ===== src/Site/Fx/Tests.antt =====
-- Examples of what is proved of the laboratory, with natural numbers for JavaScript's.
use Prim.Native.Nat.{◌+◌, ◌-◌, ◌*◌, ◌/◌}
use blueballs.Prelude.{
  false, String, ℕ, true, not, ◌≡◌, refl, ltb, leb, length, ◌==◌, keep, [], ◌∷◌, str_eq, ◌&&◌,
}
use blueballs.Prelude.Double.{Double}
use blueballs.Prelude.Dict.{lookup, insert, str_eq_refl}
use blueballs.Site.Fx.Demo.Trades.{
  Trade, Demo, create_trade, execute_trade, is_success, traded, confirmed_trade, released_trade,
  demo_call,
}
use blueballs.Site.Fx.Demo.Lifecycle.{IsConsistent, demo_call-IsConsistent, demo_call-failure}
use blueballs.Site.Fx.Definitions.{
  JourneyId, proof_replay, reference_outage, usdc_eurc, SimulationState, corridors, initial_state,
}
use blueballs.Site.Fx.Sources.{selected_sources, route_status}
use blueballs.Site.Fx.Sources.Selection.{
  is_eligible, all_sources, ids, ids-selected_sources, route_status-complete,
}
use blueballs.Site.Fx.Journeys.{execution_core_step, build_journey_steps}
use blueballs.Site.Fx.Journeys.Steps.{is_outer, build_journey_steps_one_core}
use blueballs.Site.Fx.Finality.{finality_legs, guarantee, single_atomic_boundary}
use blueballs.Site.Fx.Finality.Boundary.{is_router, finality_legs_atomic}
use blueballs.Site.Fx.Scenarios.{available_scenarios, eq_scenario, available_scenarios-count}
use blueballs.Site.Fx.Setup.{is_stable, choose_journey, perform}
use blueballs.Site.Fx.Setup.Coherence.{IsCoherent, perform-IsCoherent, started-IsCoherent}

abbrev whole : Double
whole = record {
  Number = ℕ;
  literal = λ digits places. digits;
  add = λ x y. x + y;
  sub = λ x y. x - y;
  mul = λ x y. x * y;
  div = λ x y. x / y;
  less = ltb;
  less_eq = leb;
  is_finite = λ x. true;
  of_text = λ s. 100;
  fixed = λ x places. "100";
  round = λ x. x;
  show = λ x. "100";
}

abbrev outage : SimulationState whole
unfolding initial_state
outage = record (initial_state whole) { scenario = reference_outage }

abbrev token_only : SimulationState whole
unfolding initial_state
token_only = record (initial_state whole) { journey = JourneyId.stable; corridor = usdc_eurc }

ids-selected_sources_example :
    ids (selected_sources whole outage)
    ≡ keep
        (is_eligible outage.liquidity_plane outage.customer_liquidity outage.scenario)
        all_sources
ids-selected_sources_example = ids-selected_sources whole outage

route_status-complete_example :
    (route_status outage (selected_sources whole outage)).complete
    ≡ not (length (selected_sources whole outage) == 0)
route_status-complete_example = route_status-complete whole outage

build_journey_steps_one_core_example :
    (keep (λ s. s.is_core) (build_journey_steps token_only (corridors whole usdc_eurc))
      ≡ execution_core_step token_only (corridors whole usdc_eurc) ∷ [])
    × (is_outer (build_journey_steps token_only (corridors whole usdc_eurc)) ≡ true)
build_journey_steps_one_core_example =
    build_journey_steps_one_core token_only (corridors whole usdc_eurc)

finality_legs_atomic_example :
    (single_atomic_boundary (finality_legs token_only (corridors whole usdc_eurc))
      ≡ is_stable token_only.journey && is_router token_only.execution_plane)
    × (str_eq
          (guarantee (finality_legs token_only (corridors whole usdc_eurc)))
          "ATOMIC · REFERENCE"
        ≡ is_stable token_only.journey && is_router token_only.execution_plane)
finality_legs_atomic_example = finality_legs_atomic token_only (corridors whole usdc_eurc)

available_scenarios-count_example :
    length (keep (eq_scenario proof_replay) (available_scenarios JourneyId.p2p)) ≡ 1
available_scenarios-count_example = available_scenarios-count JourneyId.p2p proof_replay

initial_state-IsCoherent : IsCoherent (initial_state whole)
unfolding initial_state
initial_state-IsCoherent = started-IsCoherent (initial_state whole) refl refl refl

perform-IsCoherent_example :
    IsCoherent (perform (choose_journey JourneyId.stable) (initial_state whole))
perform-IsCoherent_example =
    perform-IsCoherent (choose_journey JourneyId.stable) (initial_state whole) tt
      initial_state-IsCoherent

abbrev fresh_demo : Demo
fresh_demo = record { active_scenario = "balanced"; serial = 0; trades = [] }

fresh_demo-IsConsistent : IsConsistent fresh_demo
unfolding lookup
fresh_demo-IsConsistent = record { scenario_known = refl; all_kept = λ id t h. cc }

demo_call-IsConsistent_example : IsConsistent (demo_call whole 5 (create_trade "100") fresh_demo).1
demo_call-IsConsistent_example =
    demo_call-IsConsistent whole 5 (create_trade "100") fresh_demo fresh_demo-IsConsistent

nothing_to_execute :
    is_success (demo_call whole 5 (execute_trade "trade_demo_0001") fresh_demo).0 ≡ false
unfolding demo_call lookup
nothing_to_execute = refl

demo_call-failure_example :
    (demo_call whole 5 (execute_trade "trade_demo_0001") fresh_demo).1 ≡ fresh_demo
demo_call-failure_example =
    demo_call-failure whole 5 (execute_trade "trade_demo_0001") fresh_demo nothing_to_execute

-- A trade that was released can still be executed.
released_then_executed :
    (id : String) (t : Trade)
    → (demo_call whole 9
        (execute_trade id)
        (record fresh_demo { trades = insert id (released_trade t) [] })).0
      ≡ traded 202 (confirmed_trade id (released_trade t))
unfolding demo_call lookup insert
released_then_executed id t = rw (str_eq_refl id) refl
