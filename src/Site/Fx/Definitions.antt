-- ===== src/Site/Fx/Definitions.antt =====
-- The types and tables of src/fx/final-fx-definitions.ts. Display texts of the journeys (title,
-- summary, status) are left out. Amounts and rates are JavaScript numbers.
use blueballs.Prelude.{ℕ, String, Bool, true, List, [], ◌∷◌}
use blueballs.Prelude.Double.{Double}

pub data CorridorId : Type 0 where
  usd_eur eur_brl usdc_eurc : CorridorId

pub data JourneyId : Type 0 where
  hybrid own provider issuer p2p stable : JourneyId

pub data ScenarioId : Type 0 where
  normal maker_offline issuer_revoked treasury_limit : ScenarioId
  quote_expired proof_replay payout_pending reference_outage : ScenarioId

pub data LiquidityPlaneId : Type 0 where
  mixed customer issuer_heavy institutional external : LiquidityPlaneId

pub data FiatPlaneId : Type 0 where
  hybrid own provider issuer bank p2p no_fiat : FiatPlaneId

-- `blueballs_router` is "blueballs".
pub data ExecutionPlaneId : Type 0 where
  blueballs_router internal external : ExecutionPlaneId

pub data InspectorView : Type 0 where
  request route policy finality events source : InspectorView

pub data SourceId : Type 0 where
  customer issuer maker treasury external : SourceId

pub record Corridor (d : Double) : Type 0 where
  pub id : CorridorId
  pub from : String
  pub to : String
  pub from_token : String
  pub to_token : String
  pub from_symbol : String
  pub to_symbol : String
  pub rate : d.Number
  pub default_amount : d.Number
  pub pair_label : String
  pub illustrative_spread_bps : ℕ

pub record Journey : Type 0 where
  pub label : String
  pub fiat : FiatPlaneId
  pub liquidity : LiquidityPlaneId
  pub execution : ExecutionPlaneId

-- A source of liquidity; `pct` is a weight or a share of its type `P`.
pub record Source (P : Type 0) : Type 0 where
  pub id : SourceId
  pub label : String
  pub pct : P
  pub kind : String

pub record SimulationState (d : Double) : Type 0 where
  pub corridor : CorridorId
  pub amount : d.Number
  pub journey : JourneyId
  pub scenario : ScenarioId
  pub customer_liquidity : Bool
  pub inspector : InspectorView
  pub journey_step : ℕ
  pub journey_playing : Bool
  pub fiat_plane : FiatPlaneId
  pub liquidity_plane : LiquidityPlaneId
  pub execution_plane : ExecutionPlaneId

-- `CORRIDORS`
unfoldable pub corridors : (d : Double) → CorridorId → Corridor d
corridors d usd_eur = record {
  id = usd_eur;
  from = "USD";
  to = "EUR";
  from_token = "USDC";
  to_token = "EURC";
  from_symbol = "$";
  to_symbol = "€";
  rate = d.literal 9238 4;
  default_amount = d.literal 10000 0;
  pair_label = "USDC / EURC";
  illustrative_spread_bps = 18;
}
corridors d eur_brl = record {
  id = eur_brl;
  from = "EUR";
  to = "BRL";
  from_token = "EURC";
  to_token = "BRLT";
  from_symbol = "€";
  to_symbol = "R$";
  rate = d.literal 619 2;
  default_amount = d.literal 25000 0;
  pair_label = "EURC / BRLT";
  illustrative_spread_bps = 24;
}
corridors d usdc_eurc = record {
  id = usdc_eurc;
  from = "USDC";
  to = "EURC";
  from_token = "USDC";
  to_token = "EURC";
  from_symbol = "";
  to_symbol = "";
  rate = d.literal 9252 4;
  default_amount = d.literal 50000 0;
  pair_label = "USDC / EURC";
  illustrative_spread_bps = 11;
}

-- `JOURNEYS`
unfoldable pub journeys : JourneyId → Journey
journeys JourneyId.hybrid = record {
  label = "Internal + external";
  fiat = FiatPlaneId.hybrid;
  liquidity = mixed;
  execution = blueballs_router;
}
journeys JourneyId.own = record {
  label = "Internal accounts";
  fiat = FiatPlaneId.own;
  liquidity = mixed;
  execution = blueballs_router;
}
journeys JourneyId.provider = record {
  label = "Payments provider";
  fiat = FiatPlaneId.provider;
  liquidity = mixed;
  execution = blueballs_router;
}
journeys JourneyId.issuer = record {
  label = "Issuer mint / redeem";
  fiat = FiatPlaneId.issuer;
  liquidity = issuer_heavy;
  execution = blueballs_router;
}
journeys JourneyId.p2p = record {
  label = "Open P2P";
  fiat = FiatPlaneId.p2p;
  liquidity = mixed;
  execution = blueballs_router;
}
journeys JourneyId.stable = record {
  label = "Stablecoin-only";
  fiat = no_fiat;
  liquidity = mixed;
  execution = blueballs_router;
}

-- `BASE_SOURCES`, without the unused display field `rateAdj`.
unfoldable pub base_sources : List (Source ℕ)
base_sources =
    record { id = SourceId.customer; label = "Customer orders"; pct = 20; kind = "PRIVATE ORDER" }
    ∷ record {
      id = SourceId.issuer;
      label = "Issuer liquidity";
      pct = 25;
      kind = "ISSUER INVENTORY";
    }
    ∷ record { id = maker; label = "Professional maker"; pct = 35; kind = "FIRM QUOTE" }
    ∷ record { id = treasury; label = "Treasury"; pct = 15; kind = "LIMITED PRINCIPAL" }
    ∷ record { id = SourceId.external; label = "External venue"; pct = 5; kind = "EXTERNAL QUOTE" }
    ∷ []

-- `INITIAL_STATE`
unfoldable pub initial_state : (d : Double) → SimulationState d
initial_state d = record {
  corridor = usd_eur;
  amount = d.literal 10000 0;
  journey = JourneyId.hybrid;
  scenario = normal;
  customer_liquidity = true;
  inspector = request;
  journey_step = 0;
  journey_playing = true;
  fiat_plane = FiatPlaneId.hybrid;
  liquidity_plane = mixed;
  execution_plane = blueballs_router;
}
