-- ===== src/Monetary/Deposits.antt =====
-- The operations of `MonetaryEngine` in packages/fx-monetary/src/index.js on instruments, reserve
-- deposits and risk capital. An operation that throws returns no state, since `transactionSync`
-- discards its writes. The clock and the random ids are arguments.
use blueballs.Prelude.{
  ℕ, String, Bool, true, false, not, ◌&&◌, ◌||◌, Option, none, some, [], ◌∷◌, ◌++◌, any, ◌==◌,
  str_eq, if◌then◌else◌, Outcome, ok, err, ◌>>=◌, ◌>>◌, throw_if,
}
use blueballs.Prelude.Dict.{Dict, lookup, insert, is_some}
use blueballs.Monetary.Tables.{
  InstrumentKind, stablecoin, tokenized_deposit, Instrument, pending, settled, redeemed, disbursed,
  Deposit, DepositState, reserve_deposit_created, reserve_deposit_settled, risk_capital_set, Engine,
  amount_or_zero, rows,
}
use blueballs.Monetary.Inputs.{
  EngineError, atomic, event, instrument_has_supply, invalid_state, not_found, required_code,
  required_string, reserve_replay, safe_integer, validation_error,
}

abbrev is_tokenized_deposit : InstrumentKind → Bool
is_tokenized_deposit tokenized_deposit = true
is_tokenized_deposit stablecoin = false

-- The row that `configureInstrument` writes: a new one, or the old one with its time of creation.
abbrev pub configured_row : Option Instrument → Instrument → Instrument
configured_row none i = i
configured_row (some old) i = record i { created_at = old.created_at }

abbrev pub supply_row : String → Option ℕ → Dict ℕ → Dict ℕ
supply_row code none supply = insert code 0 supply
supply_row code (some n) supply = supply

-- `configureInstrument`, with the texts of an instrument as they are given.
unfoldable pub configure_instrument : Engine → ℕ → String → Instrument → Outcome EngineError Engine
unfolding required_string required_code safe_integer
configure_instrument e now given i = do
  code ← required_code given
  name ← required_string i.name
  currency ← required_code i.reserve_currency
  safe_integer i.decimals 0 18
  safe_integer i.min_coverage_bps 10000 100000
  throw_if (is_tokenized_deposit i.kind && not i.transferable) validation_error
  ok (record e {
    instruments =
        insert code
          (configured_row (lookup code e.instruments)
            (record i { name = name; reserve_currency = currency; created_at = now }))
          e.instruments;
    supply = supply_row code (lookup code e.supply) e.supply;
  })

unfoldable pub disable_row : Engine → String → Option Instrument → Outcome EngineError Engine
disable_row e code none = ok e
disable_row e code (some i) =
    if amount_or_zero (lookup code e.supply) == 0
    then ok (record e { instruments = insert code (record i { enabled = false }) e.instruments })
    else err instrument_has_supply

unfoldable pub disable_instrument : Engine → String → Outcome EngineError Engine
unfolding required_code disable_row
disable_instrument e given = do
  code ← required_code given
  disable_row e code (lookup code e.instruments)

-- Both columns of the table that are unique make the insertion fail.
unfoldable pub create_reserve_deposit :
    Engine → ℕ → String → String → Option ℕ → String → Outcome EngineError Engine
unfolding required_string required_code atomic
create_reserve_deposit e now id given amount ref = do
  currency ← required_code given
  value ← atomic amount
  provider_ref ← required_string ref
  throw_if
      (is_some (lookup id e.deposits)
        || any (λ d. str_eq d.provider_ref provider_ref) (rows e.deposits))
      reserve_replay
  ok (record e {
    deposits =
        insert id
          (record {
            deposit_id = id;
            reserve_currency = currency;
            amount = value;
            state = pending;
            provider_ref = provider_ref;
            created_at = now;
            settled_at = none;
          })
          e.deposits;
    events = e.events ++ event (reserve_deposit_created id provider_ref) none currency value ∷ [];
  })

abbrev pub is_pending : DepositState → Bool
is_pending pending = true
is_pending settled = false
is_pending redeemed = false
is_pending disbursed = false

unfoldable pub settle_row : Engine → ℕ → String → Option Deposit → Outcome EngineError Engine
settle_row e now id none = err not_found
settle_row e now id (some d) =
    if is_pending d.state
    then ok (record e {
      deposits = insert id (record d { state = settled; settled_at = some now }) e.deposits;
      events = e.events ++ event (reserve_deposit_settled id) none d.reserve_currency d.amount ∷ [];
    })
    else err invalid_state

unfoldable pub settle_reserve_deposit : Engine → ℕ → String → Outcome EngineError Engine
unfolding settle_row
settle_reserve_deposit e now id = settle_row e now id (lookup id e.deposits)

-- `setRiskCapital`, whose amount may be zero.
unfoldable pub set_risk_capital : Engine → String → Option ℕ → Outcome EngineError Engine
unfolding required_code
set_risk_capital e given amount = do
  currency ← required_code given
  value ← elim amount [ none ↦ err validation_error | some n ↦ ok n ]
  ok (record e {
    risk_capital = insert currency value e.risk_capital;
    events = e.events ++ event risk_capital_set none currency value ∷ [];
  })
