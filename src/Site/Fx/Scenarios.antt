-- ===== src/Site/Fx/Scenarios.antt =====
-- The scenarios that a journey offers, after `availableScenarios` of src/fx/final-fx-engine.ts.
use blueballs.Prelude.{
  Bool, true, false, ◌≡◌, arith, List, [], ◌∷◌, ◌++◌, keep, length, if◌then◌else◌,
}
use blueballs.Site.Fx.Definitions.{
  JourneyId, ScenarioId, normal, maker_offline, issuer_revoked, treasury_limit, quote_expired,
  proof_replay, payout_pending, reference_outage,
}

-- `if (journey === "p2p") ids.splice(5, 0, "proof_replay")`: what stands at index 5.
replay_scenarios : JourneyId → List ScenarioId
replay_scenarios JourneyId.p2p = proof_replay ∷ []
replay_scenarios _ = []

-- `["hybrid", "provider", "issuer", "p2p"].includes(journey)`: what is pushed at the end.
payout_scenarios : JourneyId → List ScenarioId
payout_scenarios JourneyId.own = []
payout_scenarios JourneyId.stable = []
payout_scenarios _ = payout_pending ∷ []

unfoldable pub available_scenarios : JourneyId → List ScenarioId
unfolding replay_scenarios payout_scenarios
available_scenarios journey =
    (normal ∷ maker_offline ∷ issuer_revoked ∷ treasury_limit ∷ quote_expired ∷ [])
    ++ replay_scenarios journey
    ++ (reference_outage ∷ [])
    ++ payout_scenarios journey

abbrev pub eq_scenario : ScenarioId → ScenarioId → Bool
eq_scenario normal normal = true
eq_scenario maker_offline maker_offline = true
eq_scenario issuer_revoked issuer_revoked = true
eq_scenario treasury_limit treasury_limit = true
eq_scenario quote_expired quote_expired = true
eq_scenario proof_replay proof_replay = true
eq_scenario payout_pending payout_pending = true
eq_scenario reference_outage reference_outage = true
eq_scenario _ _ = false

-- The journeys in which a scenario can happen: a replayed proof needs a P2P payment, a pending
-- payout needs a payout outside of the institution, and the others can happen in every journey.
abbrev pub is_possible : JourneyId → ScenarioId → Bool
is_possible JourneyId.p2p proof_replay = true
is_possible _ proof_replay = false
is_possible JourneyId.own payout_pending = false
is_possible JourneyId.stable payout_pending = false
is_possible _ _ = true

-- A journey offers a scenario once if it can happen there, and not at all if it cannot.
pub available_scenarios-count :
    (journey : JourneyId) (scenario : ScenarioId)
    → length (keep (eq_scenario scenario) (available_scenarios journey))
      ≡ (if is_possible journey scenario then 1 else 0)
unfolding available_scenarios
available_scenarios-count journey scenario = ground arith
