-- ===== src/Monetary/Tests.antt =====
-- A run of the monetary engine, and examples of what is proved of it.
use blueballs.Prelude.{unique, [], ◌∷◌, ◌+◌, ◌≤◌, true, ◌≡◌, refl, some, Outcome, ok, err}
use blueballs.Prelude.Dict.{lookup, insert}
use blueballs.Prelude.Sorting.{sort_by, insert_by}
use blueballs.Monetary.Tables.{
  stablecoin, Instrument, Engine, settled_total, supply_total, locked_total, expire_receipts,
  expire_rows, expiry_events, currency_totals, settled_deposits, drain,
}
use blueballs.Monetary.Inputs.{EngineError, required_string, required_code, atomic, safe_integer}
use blueballs.Monetary.Deposits.{
  configure_instrument, create_reserve_deposit, settle_reserve_deposit,
}
use blueballs.Monetary.Engine.{
  health, required_for, required_reserve, check_mint, mint_state, mint_row, mint, check_redeem,
  redeem_state, redeem_row, redeem,
}
use blueballs.Monetary.Engine.Instruments.{KeepsCurrency}
use blueballs.Monetary.Engine.History.{
  configuring, depositing, settling_deposit, minting, History, start, then_call, History-IsSound,
  empty_engine, empty_engine-IsSound, History-IsSupported,
}
use blueballs.Monetary.Engine.Movements.{Covers, mint-IsCovered, Redeems, redeem-Redeems}

abbrev coin : Instrument
coin = record {
  name = "US Coin";
  kind = stablecoin;
  reserve_currency = "usd";
  decimals = 6;
  min_coverage_bps = 12000;
  transferable = true;
  enabled = true;
  created_at = 0;
}

abbrev run : Outcome EngineError Engine → Engine
run (ok e) = e
run (err _) = empty_engine

abbrev with_coin : Engine
unfolding configure_instrument required_code required_string safe_integer lookup insert
with_coin = run (configure_instrument empty_engine 1 " usc " coin)

abbrev with_deposit : Engine
unfolding create_reserve_deposit required_code required_string atomic lookup insert
with_deposit = run (create_reserve_deposit with_coin 2 "d1" "usd" (some 120) "ref 1")

abbrev with_reserve : Engine
unfolding settle_reserve_deposit lookup insert
with_reserve = run (settle_reserve_deposit with_deposit 3 "d1")

abbrev with_supply : Engine
unfolding mint mint_row check_mint mint_state required_code required_string atomic expire_receipts
    expire_rows expiry_events currency_totals settled_total supply_total locked_total
    required_reserve required_for lookup insert
with_supply = run (mint with_reserve 4 "USC" (some 100) "holder")

abbrev after_redemption : Engine
unfolding redeem redeem_row check_redeem redeem_state required_code required_string atomic
    settled_deposits sort_by insert_by drain lookup insert
after_redemption = run (redeem with_supply "USC" (some 40) "holder")

configures : configure_instrument empty_engine 1 " usc " coin ≡ ok with_coin
unfolding configure_instrument required_code required_string safe_integer lookup insert
configures = refl

deposits : create_reserve_deposit with_coin 2 "d1" "usd" (some 120) "ref 1" ≡ ok with_deposit
unfolding create_reserve_deposit required_code required_string atomic lookup insert with_coin
deposits = refl

settles : settle_reserve_deposit with_deposit 3 "d1" ≡ ok with_reserve
unfolding settle_reserve_deposit lookup insert with_deposit with_coin
settles = refl

mints : mint with_reserve 4 "USC" (some 100) "holder" ≡ ok with_supply
unfolding mint mint_row check_mint mint_state required_code required_string atomic expire_receipts
    expire_rows expiry_events currency_totals settled_total supply_total locked_total
    required_reserve required_for lookup insert with_reserve with_deposit with_coin
mints = refl

redeems : redeem with_supply "USC" (some 40) "holder" ≡ ok after_redemption
unfolding redeem redeem_row check_redeem redeem_state required_code required_string atomic
    settled_deposits sort_by insert_by drain lookup insert with_supply with_reserve with_deposit
    with_coin
redeems = refl

new_code : KeepsCurrency empty_engine " usc " coin
unfolding lookup
new_code code currency old h k found = cc

history : History empty_engine with_supply
history =
    then_call
      (then_call
        (then_call (then_call start (configuring 1 " usc " coin new_code configures))
          (depositing 2 "d1" "usd" (some 120) "ref 1" deposits))
        (settling_deposit 3 "d1" settles))
      (minting 4 "USC" (some 100) "holder" mints)

History-IsSupported_example :
    supply_total "USD" with_supply.supply with_supply.instruments
      + locked_total "USD" with_supply.receipts
    ≤ settled_total "USD" with_supply.deposits
History-IsSupported_example = History-IsSupported with_supply history "USD"

abbrev coin_row : Instrument
coin_row = record coin { name = "US Coin"; reserve_currency = "USD"; created_at = 1 }

usc_is_code : required_code "USC" ≡ ok "USC"
unfolding required_code required_string
usc_is_code = refl

has_coin : lookup "USC" with_reserve.instruments ≡ some coin_row
unfolding with_reserve with_deposit with_coin settle_reserve_deposit create_reserve_deposit
    configure_instrument required_code required_string atomic safe_integer lookup insert
has_coin = refl

still_has_coin : lookup "USC" with_supply.instruments ≡ some coin_row
unfolding with_supply with_reserve with_deposit with_coin mint mint_row check_mint mint_state
    required_code required_string atomic expire_receipts expire_rows expiry_events currency_totals
    settled_total supply_total locked_total required_reserve required_for lookup insert
    settle_reserve_deposit create_reserve_deposit configure_instrument safe_integer
still_has_coin = refl

-- The answer of `health` for the only currency.
healthy :
    (health with_supply 5).0
    ≡ record {
      reserve_currency = "USD";
      settled_reserve = 120;
      redeemable_supply = 100;
      locked_receipts = 0;
      unallocated_reserve = 20;
      coverage_bps = some 12000;
      risk_capital = 0;
    }
      ∷ []
unfolding health sort_by unique with_supply with_reserve with_deposit with_coin
healthy = refl

mint-IsCovered_example :
    Covers
      (settled_total coin_row.reserve_currency with_supply.deposits)
      coin_row.reserve_currency
      with_supply.supply
      with_supply.instruments
mint-IsCovered_example =
    mint-IsCovered with_reserve 4 "USC" "USC" (some 100) "holder" coin_row usc_is_code has_coin
      mints

redeem-Redeems_example : Redeems coin_row.reserve_currency 40 with_supply after_redemption
redeem-Redeems_example =
    redeem-Redeems with_supply "USC" "USC" 40 "holder" coin_row
      (History-IsSound history empty_engine-IsSound) usc_is_code still_has_coin redeems

-- Nothing stops an instrument with supply from moving to a currency that has no reserve.
moved_to_euro :
    supply_total "EUR"
      (run (
        configure_instrument with_supply 5 "USC" (record coin { reserve_currency = "EUR" }))).supply
      (run (
        configure_instrument with_supply 5 "USC"
          (record coin { reserve_currency = "EUR" }))).instruments
    ≡ 100
unfolding with_supply with_reserve with_deposit with_coin mint mint_row check_mint mint_state
    required_code required_string atomic expire_receipts expire_rows expiry_events currency_totals
    settled_total supply_total locked_total required_reserve required_for lookup insert
    settle_reserve_deposit create_reserve_deposit configure_instrument safe_integer
moved_to_euro = refl
