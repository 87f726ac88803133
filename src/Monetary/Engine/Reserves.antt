-- ===== src/Monetary/Engine/Reserves.antt =====
-- What a currency owes and its settled reserve, for the writes of packages/fx-monetary/src/index.js.
use blueballs.Prelude.{
  ℕ, ◌+◌, ◌-◌, ◌≤◌, String, true, false, ◌≡◌, none, some, arith, ltb, ◌==◌, str_eq_iff, ok,
  >>-eq-ok, throw_if, require, throw_if-eq-ok, require-eq-ok,
}
use blueballs.Prelude.Int.{pos, ltb_ℤ}
use blueballs.Prelude.Dict.{Dict, lookup, insert, lookup-insert, HasDistinctKeys}
use blueballs.Monetary.Tables.{
  Instrument, Deposit, Receipt, Engine, consumed, settled, redeemed, disbursed, amount_or_zero,
  settled_total, supply_total, locked_total, expire_receipts, currency_totals, is_active,
}
use blueballs.Monetary.Tables.Sums.{
  settled_of, settled_total-insert, locked_of, locked_total-insert, locked_total-expire_rows,
  supply_total-insert,
}
use blueballs.Monetary.Inputs.{
  insufficient_settled_reserve, instrument_disabled, invalid_state, insufficient_supply,
}
use blueballs.Monetary.Deposits.{is_pending}
use blueballs.Monetary.Engine.{
  check_mint, mint_state, check_redeem, redeem_state, redeem_drain, check_receipt, receipt_state,
  check_consume, consume_state, consume_drain,
}
use blueballs.Monetary.Tables.Keyed.{IsKeyed}
use blueballs.Monetary.Engine.Draining.{counted, drained-settled_total, drained-IsKeyed}

-- The tables fit together, and no currency owes more than its settled reserve: `IsSupported` says
-- so of the supply of its instruments and the amounts of its active receipts.
abbrev pub IsSupported : Dict Instrument → Dict ℕ → Dict Deposit → Dict Receipt → Type 0
IsSupported instruments supply deposits receipts =
    (c : String)
    → supply_total c supply instruments + locked_total c receipts ≤ settled_total c deposits

pub record IsSound (e : Engine) : Type 0 where
  pub distinct_instruments : HasDistinctKeys e.instruments
  pub deposits_keyed : IsKeyed e.deposits
  pub no_stray_supply :
      (code : String) → lookup code e.instruments ≡ none → amount_or_zero (lookup code e.supply) ≡ 0
  pub supported : IsSupported e.instruments e.supply e.deposits e.receipts

pub expire_receipts-IsSound :
    (e : Engine) (currency : String) (now : ℕ)
    → IsSound e
    → IsSound (expire_receipts e currency now)
unfolding expire_receipts
expire_receipts-IsSound e currency now s = record {
  distinct_instruments = s.distinct_instruments;
  deposits_keyed = s.deposits_keyed;
  no_stray_supply = s.no_stray_supply;
  supported = λ c. omega (arith, s.supported c, locked_total-expire_rows c currency now e.receipts);
}

-- What an unallocated reserve that covers an amount means.
unallocated_covers :
    (e : Engine) (c : String) (n : ℕ)
    → ltb_ℤ (currency_totals e c).unallocated (pos n) ≡ false
    → supply_total c e.supply e.instruments + locked_total c e.receipts + n
      ≤ settled_total c e.deposits
unfolding currency_totals
unallocated_covers e c n h = ground arith

-- A supply that is written with an instrument's row.
insert_supply-no_stray :
    (code : String) (n : ℕ) (i : Instrument) (supply : Dict ℕ) (is : Dict Instrument)
    → lookup code is ≡ some i
    → ((k : String) → lookup k is ≡ none → amount_or_zero (lookup k supply) ≡ 0)
    → (k : String) → lookup k is ≡ none
    → amount_or_zero (lookup k (insert code n supply)) ≡ 0
insert_supply-no_stray code n i supply is found h k missing =
    ground (arith, lookup-insert code k n supply, str_eq_iff code k, h k missing)

pub mint_state-IsSound :
    (e : Engine) (code : String) (amount : ℕ) (beneficiary : String) (i : Instrument)
    → lookup code e.instruments ≡ some i
    → check_mint e code amount i ≡ ok tt
    → IsSound e
    → IsSound (mint_state e code amount beneficiary i.reserve_currency)
unfolding check_mint mint_state
mint_state-IsSound e code amount beneficiary i found h s =
    let (_, rest) = >>-eq-ok (require i.enabled instrument_disabled) _ h in
    let (covered, _) = >>-eq-ok (throw_if _ insufficient_settled_reserve) _ rest in
    let fits = unallocated_covers e i.reserve_currency amount (throw_if-eq-ok _ _ covered) in
    let next = amount_or_zero (lookup code e.supply) + amount in
    record {
      distinct_instruments = s.distinct_instruments;
      deposits_keyed = s.deposits_keyed;
      no_stray_supply =
          insert_supply-no_stray code next i e.supply e.instruments found s.no_stray_supply;
      supported = λ c. ground (
        arith,
        s.supported c,
        fits,
        str_eq_iff i.reserve_currency c,
        supply_total-insert c code next e.supply e.instruments i s.distinct_instruments found,
      );
    }

pub redeem_state-IsSound :
    (e : Engine) (code : String) (amount : ℕ) (holder : String) (i : Instrument)
    → lookup code e.instruments ≡ some i
    → check_redeem e code amount i.reserve_currency ≡ ok tt
    → IsSound e
    → IsSound (redeem_state e code amount holder i.reserve_currency)
unfolding check_redeem redeem_state
redeem_state-IsSound e code amount holder i found h s =
    let currency = i.reserve_currency in
    let (enough, rest) = >>-eq-ok (throw_if _ insufficient_supply) _ h in
    let covered =
      throw_if-eq-ok (ltb (amount_or_zero (lookup code e.supply)) amount) insufficient_supply
        enough in
    let whole =
      require-eq-ok ((redeem_drain e amount currency).0 == 0) insufficient_settled_reserve rest in
    let next = amount_or_zero (lookup code e.supply) - amount in
    record {
      distinct_instruments = s.distinct_instruments;
      deposits_keyed = drained-IsKeyed currency redeemed amount e.deposits s.deposits_keyed;
      no_stray_supply =
          insert_supply-no_stray code next i e.supply e.instruments found s.no_stray_supply;
      supported = λ c. ground (
        arith,
        s.supported c,
        covered,
        drained-settled_total currency c redeemed amount e.deposits s.deposits_keyed whole,
        supply_total-insert c code next e.supply e.instruments i s.distinct_instruments found,
      );
    }

pub receipt_state-IsSound :
    (e : Engine) (id : String) (r : Receipt)
    → check_receipt e id r.reserve_currency r.amount ≡ ok tt
    → IsSound e
    → IsSound (receipt_state e id r)
unfolding check_receipt receipt_state
receipt_state-IsSound e id r h s =
    let (covered, _) = >>-eq-ok (throw_if _ insufficient_settled_reserve) _ h in
    let fits = unallocated_covers e r.reserve_currency r.amount (throw_if-eq-ok _ _ covered) in
    record {
      distinct_instruments = s.distinct_instruments;
      deposits_keyed = s.deposits_keyed;
      no_stray_supply = s.no_stray_supply;
      supported = λ c. ground (
        arith,
        s.supported c,
        fits,
        str_eq_iff r.reserve_currency c,
        locked_total-insert c id r e.receipts,
      );
    }

pub consume_state-IsSound :
    (e : Engine) (now : ℕ) (id : String) (r : Receipt)
    → lookup id e.receipts ≡ some r
    → check_consume e r ≡ ok tt
    → IsSound e
    → IsSound (consume_state e now id r)
unfolding check_consume consume_state
consume_state-IsSound e now id r found h s =
    let (live, rest) = >>-eq-ok (require (is_active r.state) invalid_state) _ h in
    let is_live = require-eq-ok (is_active r.state) invalid_state live in
    let whole = require-eq-ok ((consume_drain e r).0 == 0) insufficient_settled_reserve rest in
    let used : Receipt = record r { state = consumed; consumed_at = some now } in
    record {
      distinct_instruments = s.distinct_instruments;
      deposits_keyed =
          drained-IsKeyed r.reserve_currency disbursed r.amount e.deposits s.deposits_keyed;
      no_stray_supply = s.no_stray_supply;
      supported = λ c.
          let freed = locked_total-insert c id used e.receipts in
          let locked : locked_of c (lookup id e.receipts) ≡ counted r.reserve_currency c r.amount =
            rw (found, is_live) (ground arith) in
          ground (
            arith,
            s.supported c,
            freed,
            locked,
            drained-settled_total r.reserve_currency c disbursed r.amount e.deposits
                s.deposits_keyed whole,
          );
    }

pub settle_row-IsSupported :
    (e : Engine) (now : ℕ) (id : String) (d : Deposit)
    → lookup id e.deposits ≡ some d
    → is_pending d.state ≡ true
    → IsSound e
    → IsSupported e.instruments e.supply
        (insert id (record d { state = settled; settled_at = some now }) e.deposits)
        e.receipts
settle_row-IsSupported e now id d found waiting s c =
    let settled_row : Deposit = record d { state = settled; settled_at = some now } in
    let before : settled_of c (lookup id e.deposits) ≡ 0 = rw found (ground arith) in
    ground (arith, s.supported c, before, settled_total-insert c id settled_row e.deposits)
