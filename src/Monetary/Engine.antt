-- ===== src/Monetary/Engine.antt =====
-- The operations of `MonetaryEngine` in packages/fx-monetary/src/index.js that create and take away
-- money. An operation that throws returns no state, since `transactionSync` discards its writes. The
-- clock and the random ids are arguments.
pub mod Draining
pub mod Reserves
pub mod Calls
pub mod Instruments
pub mod History
pub mod Movements
use blueballs.Prelude.{
  ℕ, ◌+◌, ◌-◌, ◌*◌, ◌/◌, String, Bool, true, false, not, ◌&&◌, ◌||◌, Option, none, some, List, [],
  ◌∷◌, ◌++◌, map, keep, unique, str_ltb, any, leb, ltb, ◌==◌, str_eq, is_empty, trim, upper,
  if◌then◌else◌, Outcome, ok, err, ◌>>=◌, ◌>>◌, throw_if, require,
}
use blueballs.Prelude.Int.{ℤ, pos, ltb_ℤ, pos_part}
use blueballs.Prelude.Sorting.{sort_by}
use blueballs.Prelude.Dict.{Dict, lookup, insert, is_some}
use blueballs.Monetary.Tables.{
  InstrumentKind, stablecoin, tokenized_deposit, Instrument, pending, settled, redeemed, disbursed,
  Deposit, DepositState, active, consumed, Receipt, ReceiptState, EventKind,
  reserve_deposit_created, reserve_deposit_settled, risk_capital_set, minted, was_redeemed,
  receipt_created, receipt_consumed, Event, Engine, is_active, amount_or_zero, expire_receipts,
  currency_totals, rows, settled_deposits, drain,
}
use blueballs.Monetary.Inputs.{
  EngineError, atomic, coverage_limit, event, instrument_disabled, instrument_has_supply,
  insufficient_settled_reserve, insufficient_supply, invalid_state, not_found, required_code,
  required_string, reserve_replay, safe_integer, validation_error,
}

-- `(supply * bps + 9999) / 10000`
unfoldable pub required_for : ℕ → ℕ → ℕ
required_for supply bps = (supply * bps + 9999) / 10000

-- `requiredReserve` of `mint`: the reserve that the currency's instruments need, where the supply of
-- one of them becomes another.
unfoldable pub required_reserve : String → String → ℕ → Dict ℕ → Dict Instrument → ℕ
unfolding required_for
required_reserve currency code next supply [] = 0
required_reserve currency code next supply ((other, i) ∷ is) =
    (if str_eq i.reserve_currency currency
      then required_for (if str_eq other code then next else amount_or_zero (lookup other supply))
          i.min_coverage_bps
      else 0)
    + required_reserve currency code next supply is

-- One row of `reserves` in the answer of `health`; the coverage of no supply is `none`.
-- Coverage is taken to be below 2^53, so that `Number` keeps it.
pub record Health : Type 0 where
  pub reserve_currency : String
  pub settled_reserve : ℕ
  pub redeemable_supply : ℕ
  pub locked_receipts : ℕ
  pub unallocated_reserve : ℕ
  pub coverage_bps : Option ℕ
  pub risk_capital : ℕ

unfoldable pub health_row : Engine → String → Health
health_row e currency =
    let totals = currency_totals e currency in
    record {
      reserve_currency = currency;
      settled_reserve = totals.settled;
      redeemable_supply = totals.supply;
      locked_receipts = totals.locked_receipts;
      unallocated_reserve = pos_part totals.unallocated;
      coverage_bps =
          if totals.supply == 0 then none else some (totals.settled * 10000 / totals.supply);
      risk_capital = totals.risk_capital;
    }

-- The loop of `health`, whose call of `#currencyTotals` expires the receipts of a currency.
unfoldable pub health_rows : Engine → ℕ → List String → List Health × Engine
unfolding health_row
health_rows e now [] = ([], e)
health_rows e now (c ∷ cs) =
    let e' = expire_receipts e c now in
    let rest = health_rows e' now cs in (health_row e' c ∷ rest.0, rest.1)

abbrev text_after : String → String → Bool
text_after s t = str_ltb t s

-- The currencies of the instruments that are enabled, each once and in their order.
abbrev pub health_currencies : Dict Instrument → List String
health_currencies is =
    sort_by text_after (unique (map (λ i. i.reserve_currency) (keep (λ i. i.enabled) (rows is))))

-- `health`, with the rows of the currencies and the tables that it leaves.
unfoldable pub health : Engine → ℕ → List Health × Engine
unfolding health_rows
health e now = health_rows e now (health_currencies e.instruments)

-- The checks of `mint` on the instrument and on the tables after the expiry.
unfoldable pub check_mint : Engine → String → ℕ → Instrument → Outcome EngineError (Unit {0})
unfolding required_reserve
check_mint e code amount i = do
  require i.enabled instrument_disabled
  throw_if (ltb_ℤ (currency_totals e i.reserve_currency).unallocated (pos amount))
      insufficient_settled_reserve
  throw_if
      (ltb (currency_totals e i.reserve_currency).settled (
        required_reserve i.reserve_currency code (amount_or_zero (lookup code e.supply) + amount)
          e.supply e.instruments))
      coverage_limit

-- The tables that `mint` leaves.
unfoldable pub mint_state : Engine → String → ℕ → String → String → Engine
mint_state e code amount beneficiary currency = record e {
  supply = insert code (amount_or_zero (lookup code e.supply) + amount) e.supply;
  events = e.events ++ event (minted beneficiary) (some code) currency amount ∷ [];
}

-- The transaction of `mint`, from the row of the instrument.
unfoldable pub mint_row :
    Engine → ℕ → String → ℕ → String → Option Instrument → Outcome EngineError Engine
unfolding check_mint mint_state
mint_row e now code amount beneficiary none = err not_found
mint_row e now code amount beneficiary (some i) = do
  let e' = expire_receipts e i.reserve_currency now
  check_mint e' code amount i
  ok (mint_state e' code amount beneficiary i.reserve_currency)

unfoldable pub mint : Engine → ℕ → String → Option ℕ → String → Outcome EngineError Engine
unfolding required_string required_code atomic mint_row
mint e now given amount ref = do
  code ← required_code given
  value ← atomic amount
  beneficiary ← required_string ref
  mint_row e now code value beneficiary (lookup code e.instruments)

-- What `redeem` leaves to take out of the currency's deposits, and the deposits.
abbrev pub redeem_drain : Engine → ℕ → String → ℕ × Dict Deposit
redeem_drain e amount currency =
    drain redeemed amount (settled_deposits currency e.deposits) e.deposits

unfoldable pub check_redeem : Engine → String → ℕ → String → Outcome EngineError (Unit {0})
check_redeem e code amount currency = do
  throw_if (ltb (amount_or_zero (lookup code e.supply)) amount) insufficient_supply
  require ((redeem_drain e amount currency).0 == 0) insufficient_settled_reserve

unfoldable pub redeem_state : Engine → String → ℕ → String → String → Engine
redeem_state e code amount holder currency = record e {
  deposits = (redeem_drain e amount currency).1;
  supply = insert code (amount_or_zero (lookup code e.supply) - amount) e.supply;
  events = e.events ++ event (was_redeemed holder) (some code) currency amount ∷ [];
}

-- The transaction of `redeem`, from the row of the instrument.
unfoldable pub redeem_row :
    Engine → String → ℕ → String → Option Instrument → Outcome EngineError Engine
unfolding check_redeem redeem_state
redeem_row e code amount holder none = err not_found
redeem_row e code amount holder (some i) = do
  check_redeem e code amount i.reserve_currency
  ok (redeem_state e code amount holder i.reserve_currency)

unfoldable pub redeem : Engine → String → Option ℕ → String → Outcome EngineError Engine
unfolding required_string required_code atomic redeem_row
redeem e given amount ref = do
  code ← required_code given
  value ← atomic amount
  holder ← required_string ref
  redeem_row e code value holder (lookup code e.instruments)

-- A random id that is taken makes the insertion fail.
unfoldable pub check_receipt : Engine → String → String → ℕ → Outcome EngineError (Unit {0})
check_receipt e id currency amount = do
  throw_if (ltb_ℤ (currency_totals e currency).unallocated (pos amount))
      insufficient_settled_reserve
  throw_if (is_some (lookup id e.receipts)) invalid_state

unfoldable pub receipt_state : Engine → String → Receipt → Engine
receipt_state e id r = record e {
  receipts = insert id r e.receipts;
  events =
      e.events
      ++ event (receipt_created id r.beneficiary_ref r.purpose r.expires_at) none r.reserve_currency
          r.amount
        ∷ [];
}

-- The transaction of `createReceipt`, with the row that it inserts.
unfoldable pub receipt_row : Engine → ℕ → String → Receipt → Outcome EngineError Engine
unfolding check_receipt receipt_state
receipt_row e now id r = do
  let e' = expire_receipts e r.reserve_currency now
  check_receipt e' id r.reserve_currency r.amount
  ok (receipt_state e' id r)

unfoldable pub create_receipt :
    Engine → ℕ → String → String → Option ℕ → String → String → ℕ → Outcome EngineError Engine
unfolding required_string required_code atomic safe_integer receipt_row
create_receipt e now id given amount ref why expires_at = do
  currency ← required_code given
  value ← atomic amount
  beneficiary ← required_string ref
  purpose ← required_string why
  safe_integer expires_at (now + 1) 0x1f_ffff_ffff_ffff
  receipt_row e now id (record {
    reserve_currency = currency;
    amount = value;
    beneficiary_ref = beneficiary;
    purpose = purpose;
    state = active;
    created_at = now;
    expires_at = expires_at;
    consumed_at = none;
  })

-- The state that `getReceipt` leaves: a receipt that is due is expired with its currency's others.
unfoldable pub seen_receipt : Engine → ℕ → Option Receipt → Engine
seen_receipt e now none = e
seen_receipt e now (some r) =
    if is_active r.state && leb r.expires_at now
    then expire_receipts e r.reserve_currency now
    else e

unfoldable pub get_receipt : Engine → ℕ → String → Option Receipt × Engine
unfolding seen_receipt
get_receipt e now id =
    let e' = seen_receipt e now (lookup id e.receipts) in (lookup id e'.receipts, e')

abbrev pub consume_drain : Engine → Receipt → ℕ × Dict Deposit
consume_drain e r =
    drain disbursed r.amount (settled_deposits r.reserve_currency e.deposits) e.deposits

unfoldable pub check_consume : Engine → Receipt → Outcome EngineError (Unit {0})
check_consume e r = do
  require (is_active r.state) invalid_state
  require ((consume_drain e r).0 == 0) insufficient_settled_reserve

unfoldable pub consume_state : Engine → ℕ → String → Receipt → Engine
consume_state e now id r = record e {
  deposits = (consume_drain e r).1;
  receipts = insert id (record r { state = consumed; consumed_at = some now }) e.receipts;
  events = e.events ++ event (receipt_consumed id) none r.reserve_currency r.amount ∷ [];
}

-- The rest of `consumeReceipt`, from the receipt that was read.
unfoldable pub consume_row : Engine → ℕ → String → Option Receipt → Outcome EngineError Engine
unfolding check_consume consume_state
consume_row e now id none = err not_found
consume_row e now id (some r) = do check_consume e r; ok (consume_state e now id r)

-- `consumeReceipt`, whose transaction begins with `getReceipt`.
unfoldable pub consume_receipt : Engine → ℕ → String → Outcome EngineError Engine
unfolding get_receipt consume_row
consume_receipt e now id = let seen = get_receipt e now id in consume_row seen.1 now id seen.0
