-- ===== src/Site/Fx/Demo.antt =====
-- The embedded demo of src/fx/demoRuntime.ts: its market, how it fills an amount, and the trades that it
-- keeps. A request stands for a method and a path that `demoFxCall` tells apart, with the texts that it
-- reads from them. The clock is an argument; waiting and the measured times are left out, and so are
-- the parts of a trade that are the same in all trades.
pub mod Trades
pub mod Lifecycle
use blueballs.Prelude.{
  ℕ, ◌+◌, String, Bool, true, false, not, ◌&&◌, ◌||◌, Option, none, some, List, [], ◌∷◌, ◌++◌, map,
  any, keep, str_eq, ◌^^◌, if◌then◌else◌,
}
use blueballs.Prelude.Double.{Double}
use blueballs.Prelude.Dict.{Dict, lookup, insert}
use blueballs.Prelude.Sorting.{sort_by}

pub data SourceType : Type 0 where
  private_market issuer neobank institutional_lp bank_treasury bank_principal : SourceType

pub record DemoSource (d : Double) : Type 0 where
  pub type : SourceType
  pub source_id : String
  pub label : String
  pub rate : d.Number
  pub capacity_eur : d.Number
  pub reason : String

-- A source with `eligible`; `capacity_eur` and `reason` are those of the scenario.
pub record OfferedSource (d : Double) : Type 0 where
  pub source : DemoSource d
  pub eligible : Bool
  pub capacity_eur : d.Number
  pub status_reason : String

-- The ids of `SCENARIOS`.
abbrev pub scenario_ids : List String
scenario_ids =
    "balanced" ∷ "lp_offline" ∷ "issuer_policy_blocked" ∷ "treasury_near_limit" ∷ "principal_limit"
    ∷ "reference_outage" ∷ []

abbrev demo_source :
    {d : Double} → SourceType → String → String → d.Number → d.Number → String → DemoSource d
demo_source type source_id label rate capacity reason = record {
  type = type;
  source_id = source_id;
  label = label;
  rate = rate;
  capacity_eur = capacity;
  reason = reason;
}

-- `SOURCES`
unfoldable pub sources : (d : Double) → List (DemoSource d)
sources d =
    demo_source private_market "customer-liquidity" "Customer liquidity" (d.literal 6035 3)
      (d.literal 1250 0) "SIGNED_AND_POLICY_AUTHORISED"
    ∷ demo_source issuer "eurc-issuer" "Issuer" (d.literal 6045 3) (d.literal 1500 0)
        "POLICY_AUTHORISED"
    ∷ demo_source neobank "regional-bank" "Another institution" (d.literal 606 2) (d.literal 900 0)
        "POLICY_AUTHORISED"
    ∷ demo_source institutional_lp "institutional-lp" "Institutional LP" (d.literal 607 2)
        (d.literal 1800 0) "POLICY_AUTHORISED"
    ∷ demo_source bank_treasury "bank-treasury" "Treasury" (d.literal 608 2) (d.literal 1200 0)
        "WITHIN_INVENTORY_LIMIT"
    ∷ demo_source bank_principal "bank-principal" "Bank balance sheet" (d.literal 6095 3)
        (d.literal 5000 0) "WITHIN_RISK_LIMIT"
    ∷ []

abbrev offered : {d : Double} → DemoSource d → Bool → d.Number → String → OfferedSource d
offered s eligible capacity reason = record {
  source = s;
  eligible = eligible;
  capacity_eur = capacity;
  status_reason = reason;
}

abbrev is_type : SourceType → SourceType → Bool
is_type private_market private_market = true
is_type issuer issuer = true
is_type neobank neobank = true
is_type institutional_lp institutional_lp = true
is_type bank_treasury bank_treasury = true
is_type bank_principal bank_principal = true
is_type _ _ = false

-- `sourceForScenario`
unfoldable pub source_for_scenario : (d : Double) → String → DemoSource d → OfferedSource d
source_for_scenario d scenario s =
    if str_eq scenario "lp_offline" && is_type s.type institutional_lp
    then offered s false (d.literal 0 0) "SOURCE_OFFLINE"
    else if str_eq scenario "issuer_policy_blocked" && is_type s.type issuer
    then offered s false s.capacity_eur "AUTHORISATION_REVOKED"
    else if str_eq scenario "treasury_near_limit" && is_type s.type bank_treasury
    then offered s true (d.literal 200 0) "NEAR_INVENTORY_LIMIT"
    else if str_eq scenario "principal_limit" && is_type s.type bank_principal
    then offered s true (d.literal 300 0) "NEAR_RISK_LIMIT"
    else if str_eq scenario "reference_outage" && is_type s.type bank_principal
    then offered s false (d.literal 0 0) "REFERENCE_PRICE_UNAVAILABLE"
    else offered s true s.capacity_eur s.reason

abbrev pub atomic : (d : Double) → d.Number → String
atomic d value = d.show (d.round (d.mul value (d.literal 1000000 0)))

pub record SourceStatus : Type 0 where
  pub source_type : SourceType
  pub source_id : String
  pub label : String
  pub eligible : Bool
  pub available_output : String
  pub reason : String

-- `sourceStatuses`
unfoldable pub source_statuses : (d : Double) → String → List SourceStatus
unfolding sources source_for_scenario
source_statuses d scenario =
    map
      (λ s.
        let o = source_for_scenario d scenario s in
        record {
          source_type = s.type;
          source_id = s.source_id;
          label = s.label;
          eligible = o.eligible;
          available_output = atomic d o.capacity_eur;
          reason = o.status_reason;
        })
      (sources d)

pub record Allocation : Type 0 where
  pub type : SourceType
  pub source_id : String
  pub input_atomic : String
  pub output_atomic : String
  pub input_amount : String
  pub output_amount : String

-- The variables of the loop of `allocate`.
pub record Filling (d : Double) : Type 0 where
  pub remaining : d.Number
  pub allocations : List Allocation

-- One round of the loop, which has not stopped.
abbrev fill_from : {d : Double} → Filling d → OfferedSource d → Filling d
fill_from {d} f o =
    let most = d.mul o.capacity_eur o.source.rate in
    let used = if d.less most f.remaining then most else f.remaining in
    let output = d.div used o.source.rate in
    if d.less_eq used (d.literal 5 3) then f else record {
      remaining = d.sub f.remaining used;
      allocations =
          f.allocations
          ++ record {
            type = o.source.type;
            source_id = o.source.source_id;
            input_atomic = atomic d used;
            output_atomic = atomic d output;
            input_amount = d.fixed used 2;
            output_amount = d.fixed output 2;
          }
            ∷ [];
    }

unfoldable pub fill_all : {d : Double} → Filling d → List (OfferedSource d) → Filling d
fill_all f [] = f
fill_all {d} f (o ∷ os) =
    if d.less_eq f.remaining (d.literal 5 3) then f else fill_all (fill_from f o) os

-- The sources that `allocate` goes through.
unfoldable pub available_sources : (d : Double) → String → List (OfferedSource d)
unfolding sources source_for_scenario
available_sources d scenario =
    sort_by (λ a b. d.less b.source.rate a.source.rate)
      (keep (λ o. o.eligible && d.less (d.literal 0 0) o.capacity_eur)
        (map (source_for_scenario d scenario) (sources d)))

-- `allocate`, up to the sum of the outputs.
unfoldable pub allocate : (d : Double) → String → d.Number → Filling d
unfolding fill_all available_sources
allocate d scenario input =
    fill_all (record { remaining = input; allocations = [] }) (available_sources d scenario)

-- `output`: the sum of the amounts as they are shown.
unfoldable pub output_total : (d : Double) → d.Number → List Allocation → d.Number
output_total d sum [] = sum
output_total d sum (a ∷ more) = output_total d (d.add sum (d.of_text a.output_amount)) more
