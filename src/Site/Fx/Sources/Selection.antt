-- ===== src/Site/Fx/Sources/Selection.antt =====
-- `selectedSources` and `routeStatus` of src/fx/final-fx-engine.ts against a table of what can be
-- selected.
use blueballs.Prelude.{
  Bool, true, false, not, ◌&&◌, ◌||◌, ◌≡◌, arith, List, [], ◌∷◌, map, keep, length, ◌==◌,
}
use blueballs.Prelude.Double.{Double}
use blueballs.Site.Fx.Definitions.{
  ScenarioId, maker_offline, issuer_revoked, treasury_limit, quote_expired, proof_replay,
  reference_outage, LiquidityPlaneId, institutional, SourceId, maker, treasury, Source,
  SimulationState,
}
use blueballs.Site.Fx.Sources.{
  eq_source, weighted_for, scale, selected_sources, status_for, route_status,
}

-- The scenario stops the quote.
abbrev pub is_stopped : ScenarioId → Bool
is_stopped quote_expired = true
is_stopped proof_replay = true
is_stopped _ = false

-- The scenario takes this source out.
abbrev pub is_removed : ScenarioId → SourceId → Bool
is_removed maker_offline id = eq_source id maker
is_removed issuer_revoked id = eq_source id SourceId.issuer
is_removed treasury_limit id = eq_source id treasury
is_removed reference_outage id = eq_source id treasury
is_removed _ id = false

-- The plane has no customer orders.
abbrev pub is_institutional : LiquidityPlaneId → Bool
is_institutional institutional = true
is_institutional _ = false

-- A source may be quoted from: the scenario neither stops the quote nor removes the source, and
-- customer orders are wanted and present in the plane.
abbrev pub is_eligible : LiquidityPlaneId → Bool → ScenarioId → SourceId → Bool
is_eligible plane customer_liquidity scenario id =
    not (is_stopped scenario)
    && not (is_removed scenario id)
    && (not (eq_source id SourceId.customer)
        || (customer_liquidity && not (is_institutional plane)))

abbrev pub all_sources : List SourceId
all_sources = SourceId.customer ∷ SourceId.issuer ∷ maker ∷ treasury ∷ SourceId.external ∷ []

abbrev pub ids : {P : Type 0} → List (Source P) → List SourceId
ids sources = map (λ s. s.id) sources

selected_for :
    (d : Double) (plane : LiquidityPlaneId) (customer_liquidity : Bool) (scenario : ScenarioId)
    → ids (scale d (weighted_for plane customer_liquidity scenario))
      ≡ keep (is_eligible plane customer_liquidity scenario) all_sources
unfolding weighted_for scale
selected_for d plane wanted scenario = ground arith

-- The sources of a quote are exactly the eligible ones, each once, in the order of the table.
pub ids-selected_sources :
    (d : Double) (state : SimulationState d)
    → ids (selected_sources d state)
      ≡ keep (is_eligible state.liquidity_plane state.customer_liquidity state.scenario) all_sources
unfolding selected_sources
ids-selected_sources d state =
    selected_for d state.liquidity_plane state.customer_liquidity state.scenario

complete_for :
    (d : Double) (plane : LiquidityPlaneId) (customer_liquidity : Bool) (scenario : ScenarioId)
    → let sources = scale d (weighted_for plane customer_liquidity scenario) in
      (status_for scenario (length sources)).complete ≡ not (length sources == 0)
unfolding weighted_for scale status_for
complete_for d plane wanted scenario = ground arith

-- The status of a quote says complete exactly where the selection left a source: also when the
-- reference price is out, where the code would stop with fewer than three sources, it never does.
pub route_status-complete :
    (d : Double) (state : SimulationState d)
    → (route_status state (selected_sources d state)).complete
      ≡ not (length (selected_sources d state) == 0)
unfolding route_status selected_sources
route_status-complete d state =
    complete_for d state.liquidity_plane state.customer_liquidity state.scenario
