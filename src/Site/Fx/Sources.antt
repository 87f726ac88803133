-- ===== src/Site/Fx/Sources.antt =====
-- Which sources the laboratory quotes from, after `outputAmount`, `selectedSources` and
-- `routeStatus` of src/fx/final-fx-engine.ts. The weights are small whole numbers, which doubles
-- hold exactly; the percentages that they are scaled to are doubles.
pub mod Selection
use blueballs.Prelude.{
  ℕ, ◌+◌, ◌<◌, String, Bool, true, false, not, ◌&&◌, ◌||◌, List, [], ◌∷◌, map, keep, length, ltb,
  ◌==◌, if◌then◌else◌,
}
use blueballs.Prelude.Double.{Double}
use blueballs.Site.Fx.Definitions.{
  ScenarioId, normal, maker_offline, issuer_revoked, treasury_limit, quote_expired, proof_replay,
  payout_pending, reference_outage, LiquidityPlaneId, mixed, issuer_heavy, institutional, SourceId,
  maker, treasury, Corridor, Source, SimulationState, base_sources,
}

-- The scenarios' `penalty`, in ten-thousandths.
unfoldable pub penalty : ScenarioId → ℕ
penalty normal = 0
penalty maker_offline = 11
penalty issuer_revoked = 16
penalty treasury_limit = 8
penalty quote_expired = 0
penalty proof_replay = 0
penalty payout_pending = 0
penalty reference_outage = 32

unfoldable pub output_amount : (d : Double) → SimulationState d → Corridor d → d.Number
unfolding penalty
output_amount d state corridor =
    d.mul (d.mul state.amount corridor.rate)
      (d.sub (d.literal 1 0) (d.literal (penalty state.scenario) 4))

-- `profiles`
unfoldable pub profile : LiquidityPlaneId → SourceId → ℕ
profile mixed SourceId.customer = 20
profile mixed SourceId.issuer = 25
profile mixed maker = 35
profile mixed treasury = 15
profile mixed SourceId.external = 5
profile LiquidityPlaneId.customer SourceId.customer = 48
profile LiquidityPlaneId.customer SourceId.issuer = 18
profile LiquidityPlaneId.customer maker = 19
profile LiquidityPlaneId.customer treasury = 10
profile LiquidityPlaneId.customer SourceId.external = 5
profile issuer_heavy SourceId.customer = 10
profile issuer_heavy SourceId.issuer = 50
profile issuer_heavy maker = 25
profile issuer_heavy treasury = 10
profile issuer_heavy SourceId.external = 5
profile institutional SourceId.customer = 0
profile institutional SourceId.issuer = 20
profile institutional maker = 48
profile institutional treasury = 27
profile institutional SourceId.external = 5
profile LiquidityPlaneId.external SourceId.customer = 5
profile LiquidityPlaneId.external SourceId.issuer = 12
profile LiquidityPlaneId.external maker = 18
profile LiquidityPlaneId.external treasury = 10
profile LiquidityPlaneId.external SourceId.external = 55

abbrev pub eq_source : SourceId → SourceId → Bool
eq_source SourceId.customer SourceId.customer = true
eq_source SourceId.issuer SourceId.issuer = true
eq_source maker maker = true
eq_source treasury treasury = true
eq_source SourceId.external SourceId.external = true
eq_source _ _ = false

abbrev pub without : SourceId → List (Source ℕ) → List (Source ℕ)
without id sources = keep (λ s. not (eq_source s.id id)) sources

-- The filters on the scenario.
unfoldable pub drop_for_scenario : ScenarioId → List (Source ℕ) → List (Source ℕ)
drop_for_scenario maker_offline sources = without maker sources
drop_for_scenario issuer_revoked sources = without SourceId.issuer sources
drop_for_scenario treasury_limit sources = without treasury sources
drop_for_scenario reference_outage sources = without treasury sources
drop_for_scenario quote_expired sources = []
drop_for_scenario proof_replay sources = []
drop_for_scenario normal sources = sources
drop_for_scenario payout_pending sources = sources

-- `selectedSources` up to the scaling: the sources with their weights.
unfoldable pub weighted_for : LiquidityPlaneId → Bool → ScenarioId → List (Source ℕ)
unfolding profile drop_for_scenario base_sources
weighted_for plane customer_liquidity scenario =
    let weighted = map {A = Source ℕ} (λ s. record s { pct = profile plane s.id }) base_sources in
    let present = keep (λ s. ltb 0 s.pct) weighted in
    drop_for_scenario scenario
      (if customer_liquidity then present else without SourceId.customer present)

unfoldable pub total_weight : List (Source ℕ) → ℕ
total_weight [] = 0
total_weight (s ∷ ss) = s.pct + total_weight ss

-- `(source.pct / total) * 100`
abbrev pub share : (d : Double) → ℕ → ℕ → d.Number
share d pct total = d.mul (d.div (d.literal pct 0) (d.literal total 0)) (d.literal 100 0)

unfoldable pub scale : (d : Double) → List (Source ℕ) → List (Source d.Number)
unfolding total_weight
scale d sources =
    let total = total_weight sources in
    if total == 0
    then []
    else map (λ s. record { id = s.id; label = s.label; pct = share d s.pct total; kind = s.kind })
        sources

unfoldable pub selected_sources : (d : Double) → SimulationState d → List (Source d.Number)
unfolding weighted_for scale
selected_sources d state =
    scale d (weighted_for state.liquidity_plane state.customer_liquidity state.scenario)

pub record RouteStatus : Type 0 where
  pub label : String
  pub complete : Bool

-- `routeStatus`, given the number of sources.
unfoldable pub status_for : ScenarioId → ℕ → RouteStatus
status_for quote_expired n = record { label = "QUOTE EXPIRED"; complete = false }
status_for proof_replay n = record { label = "PAYMENT PROOF REJECTED"; complete = false }
status_for payout_pending n = record { label = "PAYOUT PENDING"; complete = true }
status_for reference_outage n =
    if ltb n 3
    then record { label = "NO COMPLETE ROUTE"; complete = false }
    else record { label = "SIMULATED QUOTE READY"; complete = true }
status_for _ n = record { label = "SIMULATED QUOTE READY"; complete = true }

unfoldable pub route_status :
    {d : Double} {P : Type 0} → SimulationState d → List (Source P) → RouteStatus
unfolding status_for
route_status state sources = status_for state.scenario (length sources)
