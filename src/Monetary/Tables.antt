-- ===== src/Monetary/Tables.antt =====
-- The tables of `MonetaryEngine` in packages/fx-monetary/src/index.js, and what its private methods
-- read of them. A table is a dictionary by its primary key. An instrument's row of `monetary_supply`
-- is a row of its own, which `configureInstrument` makes with the instrument. Amounts are texts of
-- digits in the database and natural numbers here.
pub mod Sums
pub mod Keyed
use blueballs.Prelude.{
  ℕ, ◌+◌, ◌-◌, ◌*◌, ◌/◌, String, Bool, true, false, not, ◌&&◌, Option, none, some, List, [], ◌∷◌,
  ◌++◌, keep, map, leb, ltb, ◌==◌, str_eq, str_ltb, if◌then◌else◌,
}
use blueballs.Prelude.Int.{ℤ, pos, sub_ℕ}
use blueballs.Prelude.Dict.{Dict, lookup, insert}
use blueballs.Prelude.Sorting.{sort_by}

pub data InstrumentKind : Type 0 where
  stablecoin tokenized_deposit : InstrumentKind

pub record Instrument : Type 0 where
  pub name : String
  pub kind : InstrumentKind
  pub reserve_currency : String
  pub decimals : ℕ
  pub min_coverage_bps : ℕ
  pub transferable : Bool
  pub enabled : Bool
  pub created_at : ℕ

pub data DepositState : Type 0 where
  pending settled redeemed disbursed : DepositState

pub record Deposit : Type 0 where
  pub deposit_id : String
  pub reserve_currency : String
  pub amount : ℕ
  pub state : DepositState
  pub provider_ref : String
  pub created_at : ℕ
  pub settled_at : Option ℕ

pub data ReceiptState : Type 0 where
  active consumed expired : ReceiptState

pub record Receipt : Type 0 where
  pub reserve_currency : String
  pub amount : ℕ
  pub beneficiary_ref : String
  pub purpose : String
  pub state : ReceiptState
  pub created_at : ℕ
  pub expires_at : ℕ
  pub consumed_at : Option ℕ

-- The kind of an event with the fields of its payload.
pub data EventKind : Type 0 where
  reserve_deposit_created : (deposit_id provider_ref : String) → EventKind
  reserve_deposit_settled : (deposit_id : String) → EventKind
  risk_capital_set : EventKind
  receipt_expired : (receipt_id : String) → EventKind
  minted : (beneficiary_ref : String) → EventKind
  was_redeemed : (holder_ref : String) → EventKind
  receipt_created : (receipt_id beneficiary_ref purpose : String) (expires_at : ℕ) → EventKind
  receipt_consumed : (receipt_id : String) → EventKind

-- An event, without its random id and its time.
pub record Event : Type 0 where
  pub kind : EventKind
  pub instrument_code : Option String
  pub reserve_currency : String
  pub amount : ℕ

pub record Engine : Type 0 where
  pub instruments : Dict Instrument
  pub deposits : Dict Deposit
  pub supply : Dict ℕ
  pub risk_capital : Dict ℕ
  pub receipts : Dict Receipt
  pub events : List Event

abbrev pub is_settled : DepositState → Bool
is_settled settled = true
is_settled pending = false
is_settled redeemed = false
is_settled disbursed = false

abbrev pub is_active : ReceiptState → Bool
is_active active = true
is_active consumed = false
is_active expired = false

-- `BigInt(row?.amount ?? "0")`
abbrev pub amount_or_zero : Option ℕ → ℕ
amount_or_zero none = 0
amount_or_zero (some n) = n

-- What a deposit adds to the settled reserve of a currency.
abbrev pub settled_part : String → Deposit → ℕ
settled_part currency d =
    if str_eq d.reserve_currency currency && is_settled d.state then d.amount else 0

-- `settled` of `#currencyTotals`.
unfoldable pub settled_total : String → Dict Deposit → ℕ
settled_total currency [] = 0
settled_total currency ((id, d) ∷ ds) = settled_part currency d + settled_total currency ds

-- `supply` of `#currencyTotals`: the join of the supplies with the instruments of a currency.
unfoldable pub supply_total : String → Dict ℕ → Dict Instrument → ℕ
supply_total currency supply [] = 0
supply_total currency supply ((code, i) ∷ is) =
    (if str_eq i.reserve_currency currency then amount_or_zero (lookup code supply) else 0)
    + supply_total currency supply is

abbrev pub locked_part : String → Receipt → ℕ
locked_part currency r =
    if str_eq r.reserve_currency currency && is_active r.state then r.amount else 0

-- `lockedReceipts` of `#currencyTotals`.
unfoldable pub locked_total : String → Dict Receipt → ℕ
locked_total currency [] = 0
locked_total currency ((id, r) ∷ rs) = locked_part currency r + locked_total currency rs

-- The receipts that `#expireReceipts` picks for a currency.
abbrev pub is_due : String → ℕ → Receipt → Bool
is_due currency now r =
    str_eq r.reserve_currency currency && is_active r.state && leb r.expires_at now

-- The receipts after `#expireReceipts`.
unfoldable pub expire_rows : String → ℕ → Dict Receipt → Dict Receipt
expire_rows currency now [] = []
expire_rows currency now ((id, r) ∷ rs) =
    (id, (if is_due currency now r then record r { state = expired } else r))
    ∷ expire_rows currency now rs

-- The events that `#expireReceipts` writes.
unfoldable pub expiry_events : String → ℕ → Dict Receipt → List Event
expiry_events currency now [] = []
expiry_events currency now ((id, r) ∷ rs) =
    let rest = expiry_events currency now rs in
    if is_due currency now r
    then record {
      kind = receipt_expired id;
      instrument_code = none;
      reserve_currency = r.reserve_currency;
      amount = r.amount;
    }
      ∷ rest
    else rest

-- `#expireReceipts`
unfoldable pub expire_receipts : Engine → String → ℕ → Engine
unfolding expire_rows expiry_events
expire_receipts e currency now = record e {
  receipts = expire_rows currency now e.receipts;
  events = e.events ++ expiry_events currency now e.receipts;
}

pub record Totals : Type 0 where
  pub settled : ℕ
  pub supply : ℕ
  pub locked_receipts : ℕ
  pub risk_capital : ℕ
  pub unallocated : ℤ

-- What `#currencyTotals` reads after it has expired the currency's receipts.
unfoldable pub currency_totals : Engine → String → Totals
unfolding settled_total supply_total locked_total
currency_totals e currency = record {
  settled = settled_total currency e.deposits;
  supply = supply_total currency e.supply e.instruments;
  locked_receipts = locked_total currency e.receipts;
  risk_capital = amount_or_zero (lookup currency e.risk_capital);
  unallocated =
      sub_ℕ (settled_total currency e.deposits)
        (supply_total currency e.supply e.instruments + locked_total currency e.receipts);
}

abbrev settled_order : Option ℕ → Option ℕ → Bool × Bool
settled_order none none = (false, true)
settled_order none (some n) = (false, false)
settled_order (some m) none = (true, false)
settled_order (some m) (some n) = (ltb n m, m == n)

-- `ORDER BY settled_at, deposit_id`, with the absent time first.
abbrev pub is_after : Deposit → Deposit → Bool
is_after d e =
    let (behind, same) = settled_order d.settled_at e.settled_at in
    if same then str_ltb e.deposit_id d.deposit_id else behind

abbrev pub rows : {A : Type 0} → Dict A → List A
rows [] = []
rows ((k, v) ∷ d) = v ∷ rows d

-- `SELECT … WHERE reserve_currency = ? AND state = 'SETTLED' ORDER BY settled_at, deposit_id`
unfoldable pub settled_deposits : String → Dict Deposit → List Deposit
settled_deposits currency ds =
    sort_by is_after
      (keep (λ d. str_eq d.reserve_currency currency && is_settled d.state) (rows ds))

-- The loop of `redeem` and `consumeReceipt` that takes an amount out of the settled deposits: what is
-- left to take, and the table. An emptied deposit gets the state that is given.
unfoldable pub drain : DepositState → ℕ → List Deposit → Dict Deposit → ℕ × Dict Deposit
drain emptied remaining [] table = (remaining, table)
drain emptied remaining (d ∷ ds) table =
    if remaining == 0
    then (remaining, table)
    else (if leb d.amount remaining
        then drain emptied (remaining - d.amount) ds
            (insert d.deposit_id (record d { amount = 0; state = emptied }) table)
        else drain emptied 0 ds
            (insert d.deposit_id (record d { amount = d.amount - remaining }) table))
