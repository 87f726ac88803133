-- ===== src/Site/Fx/Demo/Trades.antt =====
-- The trades of the embedded demo and the calls that it answers, after `buildTrade` and `demoFxCall`
-- of src/fx/demoRuntime.ts.
use Prim.Native.String.{count}
use blueballs.Prelude.{
  ℕ, zero, suc, ◌+◌, ◌-◌, String, Bool, true, false, not, ◌||◌, Option, none, some, List, any,
  str_eq, ◌^^◌, if◌then◌else◌, Outcome, ok, err,
}
use blueballs.Prelude.Double.{Double}
use blueballs.Prelude.Dict.{Dict, lookup, insert}
use blueballs.Site.Fx.Demo.{
  scenario_ids, SourceStatus, source_statuses, Allocation, Filling, allocate, output_total, atomic,
}

pub data TradeState : Type 0 where
  preview reserved confirmed released : TradeState

pub record Evidence : Type 0 where
  pub reserved : Bool
  pub label : String
  pub note : String

-- What `buildTrade` adds to a reserved trade.
pub record TradeIds : Type 0 where
  pub id : String
  pub quote_id : String
  pub route_id : String
  pub authorization_id : String

pub record Trade : Type 0 where
  pub state : TradeState
  pub created_at : ℕ
  pub expires_at : ℕ
  pub requested : String
  pub charged : String
  pub input_atomic : String
  pub output_amount : String
  pub output_atomic : String
  pub rate : String
  pub sources : List Allocation
  pub source_status : List SourceStatus
  pub token_input_atomic : String
  pub token_output_atomic : String
  pub evidence : Evidence
  pub ids : Option TradeIds
  pub submission_ref : Option String
  pub event_id : Option String

pub data Failure : Type 0 where
  validation_error not_found : Failure
  no_liquidity : (unfilled scenario : String) → Failure

-- `activeScenario`, `serial` and `trades`.
pub record Demo : Type 0 where
  pub active_scenario : String
  pub serial : ℕ
  pub trades : Dict Trade

abbrev zeros : ℕ → String
zeros zero = ""
zeros (suc n) = "0" ^^ zeros n

-- `s.padStart(4, "0")`
abbrev pad_start : String → String
pad_start s = zeros (4 - count s) ^^ s

abbrev pub ids_of : (d : Double) → ℕ → TradeIds
ids_of d serial =
    let id = pad_start (d.show (d.literal serial 0)) in
    record {
      id = "trade_demo_" ^^ id;
      quote_id = "quote_demo_" ^^ id;
      route_id = "route_demo_" ^^ id;
      authorization_id = "auth_demo_" ^^ id;
    }

abbrev evidence_for : Bool → Evidence
evidence_for true = record {
  reserved = true;
  label = "WEBSITE DEMO · RESERVED";
  note = "Seeded demo capacity is held for this browser session.";
}
evidence_for false = record {
  reserved = false;
  label = "WEBSITE DEMO PREVIEW";
  note = "Seeded demo data. No money moves.";
}

-- The trade of a complete filling, without the ids of a reserved one.
unfoldable pub trade_of : (d : Double) → String → ℕ → d.Number → Bool → Filling d → Trade
unfolding output_total source_statuses
trade_of d scenario now input is_reserved plan =
    let output = output_total d (d.literal 0 0) plan.allocations in
    record {
      state = (if is_reserved then reserved else preview);
      created_at = now;
      expires_at = now + (if is_reserved then 60000 else 30000);
      requested = d.fixed input 2;
      charged = d.fixed input 2;
      input_atomic = d.show (d.round (d.mul input (d.literal 100 0)));
      output_amount = d.fixed output 2;
      output_atomic = d.show (d.round (d.mul output (d.literal 100 0)));
      rate = d.fixed (d.div input output) 6;
      sources = plan.allocations;
      source_status = source_statuses d scenario;
      token_input_atomic = atomic d input;
      token_output_atomic = atomic d output;
      evidence = evidence_for is_reserved;
      ids = none;
      submission_ref = none;
      event_id = none;
    }

-- `buildTrade`, up to the serial and the ids of a reserved trade.
unfoldable pub plan_trade : (d : Double) → String → ℕ → String → Bool → Outcome Failure Trade
unfolding allocate trade_of
plan_trade d scenario now text is_reserved =
    let input = d.of_text text in
    let plan = allocate d scenario input in
    if not (d.is_finite input) || d.less_eq input (d.literal 0 0)
    then err validation_error
    else if d.less_eq plan.remaining (d.literal 1 2)
    then ok (trade_of d scenario now input is_reserved plan)
    else err (
        no_liquidity
          (d.fixed (if d.less plan.remaining (d.literal 0 0) then d.literal 0 0 else plan.remaining)
            2)
          scenario)

pub data Request : Type 0 where
  reference_status reference_policy read_scenario read_market read_liquidity : Request
  read_settlement_route unknown : Request
  choose_scenario preview_trade create_trade execute_trade read_trade release_trade :
      String → Request

pub data Reply : Type 0 where
  succeeded : (status : ℕ) → Reply
  traded : (status : ℕ) → Trade → Reply
  failed : Failure → Reply

abbrev pub is_success : Reply → Bool
is_success (succeeded _) = true
is_success (traded _ _) = true
is_success (failed _) = false

abbrev pub preview_reply : Outcome Failure Trade → Reply
preview_reply (ok t) = traded 200 t
preview_reply (err e) = failed e

-- The reply and the state where a reserved trade was planned.
abbrev pub keep_trade : Double → Demo → Outcome Failure Trade → Reply × Demo
keep_trade d demo (ok t) =
    let ids = ids_of d (demo.serial + 1) in
    let kept : Trade = record t { ids = some ids } in
    (
      traded 201 kept,
      record demo { serial = demo.serial + 1; trades = insert ids.id kept demo.trades },
    )
keep_trade d demo (err e) = (failed e, demo)

abbrev pub confirmed_trade : String → Trade → Trade
confirmed_trade id t = record t {
  state = confirmed;
  submission_ref = some ("submission_" ^^ id);
  event_id = some ("event_" ^^ id);
  evidence = record {
    reserved = true;
    label = "WEBSITE DEMO · COMPLETE";
    note = "Simulated receipt. No money moved.";
  };
}

abbrev pub released_trade : Trade → Trade
released_trade t = record t {
  state = released;
  evidence = record {
    reserved = false;
    label = "WEBSITE DEMO · RELEASED";
    note = "The seeded reservation was released.";
  };
}

abbrev pub execute_found : Demo → String → Option Trade → Reply × Demo
execute_found demo id none = (failed not_found, demo)
execute_found demo id (some t) = (
  traded 202 (confirmed_trade id t),
  record demo { trades = insert id (confirmed_trade id t) demo.trades },
)

abbrev pub read_found : Option Trade → Reply
read_found none = failed not_found
read_found (some t) = traded 200 t

abbrev pub release_found : Demo → String → Option Trade → Reply × Demo
release_found demo id none = (failed not_found, demo)
release_found demo id (some t) = (
  traded 200 (released_trade t),
  record demo { trades = insert id (released_trade t) demo.trades },
)

-- `demoFxCall`
unfoldable pub demo_call : Double → ℕ → Request → Demo → Reply × Demo
unfolding plan_trade
demo_call d now reference_status demo = (succeeded 200, demo)
demo_call d now reference_policy demo = (succeeded 200, demo)
demo_call d now read_scenario demo = (succeeded 200, demo)
demo_call d now read_market demo = (succeeded 200, demo)
demo_call d now read_liquidity demo = (succeeded 200, demo)
demo_call d now read_settlement_route demo = (succeeded 200, demo)
demo_call d now unknown demo = (failed not_found, demo)
demo_call d now (choose_scenario id) demo =
    if any (str_eq id) scenario_ids
    then (succeeded 200, record demo { active_scenario = id })
    else (failed validation_error, demo)
demo_call d now (preview_trade text) demo =
    (preview_reply (plan_trade d demo.active_scenario now text false), demo)
demo_call d now (create_trade text) demo =
    keep_trade d demo (plan_trade d demo.active_scenario now text true)
demo_call d now (execute_trade id) demo = execute_found demo id (lookup id demo.trades)
demo_call d now (read_trade id) demo = (read_found (lookup id demo.trades), demo)
demo_call d now (release_trade id) demo = release_found demo id (lookup id demo.trades)
