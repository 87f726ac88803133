-- ===== src/Monetary/Engine/History.antt =====
-- Sequences of calls of `MonetaryEngine` in packages/fx-monetary/src/index.js, and what a currency
-- owes after them.
use blueballs.Prelude.{
  ℕ, ◌+◌, ◌≤◌, String, true, false, ◌||◌, ◌≡◌, refl, subst, inl, inr, Option, none, some, List, [],
  ◌∷◌, arith, str_eq, Bool-cases, ok, err, ok-injective, >>=-eq-ok, >>-eq-ok, throw_if,
  throw_if-eq-ok, any,
}
use blueballs.Prelude.Dict.{is_some, lookup, insert, lookup-insert, insert-HasDistinctKeys}
use blueballs.Monetary.Tables.{
  Instrument, Deposit, pending, settled, Engine, settled_total, supply_total, locked_total, rows,
  expire_receipts,
}
use blueballs.Monetary.Tables.Sums.{settled_of, settled_total-insert}
use blueballs.Monetary.Inputs.{
  validation_error, reserve_replay, required_code, required_string, atomic,
}
use blueballs.Monetary.Deposits.{
  configure_instrument, disable_instrument, disable_row, create_reserve_deposit,
  settle_reserve_deposit, settle_row, is_pending, set_risk_capital,
}
use blueballs.Monetary.Engine.{
  mint, redeem, create_receipt, get_receipt, consume_receipt, health, health_rows,
  health_currencies,
}
use blueballs.Monetary.Tables.Keyed.{insert-IsKeyed}
use blueballs.Monetary.Engine.Reserves.{
  IsSupported, IsSound, expire_receipts-IsSound, settle_row-IsSupported,
}
use blueballs.Monetary.Engine.Instruments.{
  KeepsCurrency, supply_total-same_currency, configure_instrument-IsSound,
}
use blueballs.Monetary.Engine.Calls.{
  mint-IsSound, redeem-IsSound, create_receipt-IsSound, get_receipt-IsSound,
  consume_receipt-IsSound,
}

disable_row-IsSound :
    (e : Engine) (code : String) (o : Option Instrument) {e' : Engine}
    → lookup code e.instruments ≡ o
    → IsSound e
    → disable_row e code o ≡ ok e'
    → IsSound e'
unfolding disable_row
disable_row-IsSound e code none found s h = subst IsSound (ok-injective h) s
disable_row-IsSound e code (some i) {e'} found s h =
    let off : Instrument = record i { enabled = false } in
    let done : record e { instruments = insert code off e.instruments } ≡ e' = ground arith in
    subst IsSound done (record {
      distinct_instruments = insert-HasDistinctKeys code off e.instruments s.distinct_instruments;
      deposits_keyed = s.deposits_keyed;
      no_stray_supply =
          λ k missing. s.no_stray_supply k (ground (arith, lookup-insert code k off e.instruments));
      supported = λ c.
          rw (supply_total-same_currency c code off i e.supply e.instruments found refl)
            (s.supported c);
    })

disable_instrument-IsSound :
    (e : Engine) (given : String) {e' : Engine}
    → IsSound e
    → disable_instrument e given ≡ ok e'
    → IsSound e'
unfolding disable_instrument
disable_instrument-IsSound e given s h =
    let (code, _, rest) = >>=-eq-ok (required_code given) _ h in
    disable_row-IsSound e code (lookup code e.instruments) refl s rest

-- A deposit that starts pending under a new id adds no settled reserve.
fresh_deposit-IsSupported :
    (e : Engine) (id : String) (d : Deposit)
    → is_some (lookup id e.deposits) ≡ false
    → is_pending d.state ≡ true
    → IsSound e
    → IsSupported e.instruments e.supply (insert id d e.deposits) e.receipts
fresh_deposit-IsSupported e id d fresh waiting s c =
    let missing : lookup id e.deposits ≡ none = ground arith in
    let before : settled_of c (lookup id e.deposits) ≡ 0 = rw missing refl in
    omega (arith, s.supported c, before, settled_total-insert c id d e.deposits)

create_reserve_deposit-IsSound :
    (e : Engine) (now : ℕ) (id given : String) (amount : Option ℕ) (ref : String) {e' : Engine}
    → IsSound e
    → create_reserve_deposit e now id given amount ref ≡ ok e'
    → IsSound e'
unfolding create_reserve_deposit
create_reserve_deposit-IsSound e now id given amount ref s h =
    let (currency, _, rest) = >>=-eq-ok (required_code given) _ h in
    let (value, _, more) = >>=-eq-ok (atomic amount) _ rest in
    let (provider_ref, _, last) = >>=-eq-ok (required_string ref) _ more in
    let taken = any (λ d. str_eq d.provider_ref provider_ref) (rows e.deposits) in
    let (new, done) =
      >>-eq-ok (throw_if (is_some (lookup id e.deposits) || taken) reserve_replay) _ last in
    let fresh = throw_if-eq-ok (is_some (lookup id e.deposits) || taken) reserve_replay new in
    let d : Deposit = record {
      deposit_id = id;
      reserve_currency = currency;
      amount = value;
      state = pending;
      provider_ref = provider_ref;
      created_at = now;
      settled_at = none;
    } in
    subst IsSound (ok-injective done) (record {
      distinct_instruments = s.distinct_instruments;
      deposits_keyed = insert-IsKeyed id d e.deposits refl s.deposits_keyed;
      no_stray_supply = s.no_stray_supply;
      supported = fresh_deposit-IsSupported e id d (ground arith) refl s;
    })

settle_row-IsSound :
    (e : Engine) (now : ℕ) (id : String) (o : Option Deposit) {e' : Engine}
    → lookup id e.deposits ≡ o
    → IsSound e
    → settle_row e now id o ≡ ok e'
    → IsSound e'
unfolding settle_row
settle_row-IsSound e now id none found s h = cc
settle_row-IsSound e now id (some d) {e'} found s h = elim (Bool-cases (is_pending d.state)) [
  | inl waiting ↦ subst IsSound (ok-injective (rw waiting at h)) (record {
    distinct_instruments = s.distinct_instruments;
    deposits_keyed =
        insert-IsKeyed id (record d { state = settled; settled_at = some now }) e.deposits
          (s.deposits_keyed.keyed id d found) s.deposits_keyed;
    no_stray_supply = s.no_stray_supply;
    supported = settle_row-IsSupported e now id d found waiting s;
  })
  | inr settled_before ↦ ground arith
]

set_risk_capital-IsSound :
    (e : Engine) (given : String) (amount : Option ℕ) {e' : Engine}
    → IsSound e
    → set_risk_capital e given amount ≡ ok e'
    → IsSound e'
unfolding set_risk_capital
set_risk_capital-IsSound e given amount s h =
    let (currency, _, rest) = >>=-eq-ok (required_code given) _ h in
    let (value, _, done) =
      >>=-eq-ok (elim amount [ none ↦ err validation_error | some n ↦ ok n ]) _ rest in
    subst IsSound (ok-injective done) (record {
      distinct_instruments = s.distinct_instruments;
      deposits_keyed = s.deposits_keyed;
      no_stray_supply = s.no_stray_supply;
      supported = s.supported;
    })

health_rows-IsSound :
    (e : Engine) (now : ℕ) (currencies : List String)
    → IsSound e
    → IsSound (health_rows e now currencies).1
unfolding health_rows
health_rows-IsSound e now [] s = s
health_rows-IsSound e now (c ∷ cs) s =
    health_rows-IsSound (expire_receipts e c now) now cs (expire_receipts-IsSound e c now s)

-- One call that returns. An instrument may be configured again, but not in another currency while
-- it exists.
pub data Call (e e' : Engine) : Type 0 where
  configuring :
      (now : ℕ) (given : String) (i : Instrument)
      → KeepsCurrency e given i
      → configure_instrument e now given i ≡ ok e'
      → Call e e'
  disabling : (given : String) → disable_instrument e given ≡ ok e' → Call e e'
  depositing :
      (now : ℕ) (id given : String) (amount : Option ℕ) (ref : String)
      → create_reserve_deposit e now id given amount ref ≡ ok e'
      → Call e e'
  settling_deposit : (now : ℕ) (id : String) → settle_reserve_deposit e now id ≡ ok e' → Call e e'
  setting_capital :
      (given : String) (amount : Option ℕ) → set_risk_capital e given amount ≡ ok e' → Call e e'
  minting :
      (now : ℕ) (given : String) (amount : Option ℕ) (ref : String)
      → mint e now given amount ref ≡ ok e'
      → Call e e'
  redeeming :
      (given : String) (amount : Option ℕ) (ref : String)
      → redeem e given amount ref ≡ ok e'
      → Call e e'
  issuing_receipt :
      (now : ℕ) (id given : String) (amount : Option ℕ) (ref why : String) (expires_at : ℕ)
      → create_receipt e now id given amount ref why expires_at ≡ ok e'
      → Call e e'
  reading_receipt : (now : ℕ) (id : String) → (get_receipt e now id).1 ≡ e' → Call e e'
  reading_health : (now : ℕ) → (health e now).1 ≡ e' → Call e e'
  consuming_receipt : (now : ℕ) (id : String) → consume_receipt e now id ≡ ok e' → Call e e'

-- The engines that calls lead to.
pub data History (e : Engine) : Engine → Type 0 where
  start : History e e
  then_call : {e' e'' : Engine} → History e e' → Call e' e'' → History e e''

Call-IsSound : {e e' : Engine} → Call e e' → IsSound e → IsSound e'
unfolding settle_reserve_deposit health
Call-IsSound {e} (configuring now given i keeps h) s =
    configure_instrument-IsSound e now given i keeps s h
Call-IsSound {e} (disabling given h) s = disable_instrument-IsSound e given s h
Call-IsSound {e} (depositing now id given amount ref h) s =
    create_reserve_deposit-IsSound e now id given amount ref s h
Call-IsSound {e} (settling_deposit now id h) s =
    settle_row-IsSound e now id (lookup id e.deposits) refl s h
Call-IsSound {e} (setting_capital given amount h) s = set_risk_capital-IsSound e given amount s h
Call-IsSound {e} (minting now given amount ref h) s = mint-IsSound e now given amount ref s h
Call-IsSound {e} (redeeming given amount ref h) s = redeem-IsSound e given amount ref s h
Call-IsSound {e} (issuing_receipt now id given amount ref why expires_at h) s =
    create_receipt-IsSound e now id given amount ref why expires_at s h
Call-IsSound {e} (reading_receipt now id h) s = subst IsSound h (get_receipt-IsSound e now id s)
Call-IsSound {e} (reading_health now h) s =
    subst IsSound h (health_rows-IsSound e now (health_currencies e.instruments) s)
Call-IsSound {e} (consuming_receipt now id h) s = consume_receipt-IsSound e now id s h

pub History-IsSound : {e e' : Engine} → History e e' → IsSound e → IsSound e'
History-IsSound start s = s
History-IsSound (then_call h c) s = Call-IsSound c (History-IsSound h s)

-- The tables of a new database.
abbrev pub empty_engine : Engine
empty_engine = record {
  instruments = [];
  deposits = [];
  supply = [];
  risk_capital = [];
  receipts = [];
  events = [];
}

pub empty_engine-IsSound : IsSound empty_engine
unfolding lookup supply_total locked_total settled_total
empty_engine-IsSound = record {
  distinct_instruments = tt;
  deposits_keyed = record { distinct = tt; keyed = λ id d h. cc };
  no_stray_supply = λ code h. refl;
  supported = λ c. omega arith;
}

-- However the monetary engine is used from empty tables, as long as no call moves an existing
-- instrument to another currency: for every currency, the supply of its instruments and the amounts
-- of its active receipts together stay within its settled reserve.
pub History-IsSupported :
    (e : Engine)
    → History empty_engine e
    → (c : String)
    → supply_total c e.supply e.instruments + locked_total c e.receipts ≤ settled_total c e.deposits
History-IsSupported e h = (History-IsSound h empty_engine-IsSound).supported
