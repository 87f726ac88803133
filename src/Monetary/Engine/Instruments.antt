-- ===== src/Monetary/Engine/Instruments.antt =====
-- `configureInstrument` of packages/fx-monetary/src/index.js and what a currency owes.
use blueballs.Prelude.{
  ℕ, String, ◌≡◌, refl, ◌∙◌, subst, Option, none, some, [], ◌∷◌, arith, str_eq_iff, ok,
  ok-injective, >>=-eq-ok, >>-eq-ok, throw_if,
}
use blueballs.Prelude.Dict.{Dict, lookup, insert, lookup-insert, insert-HasDistinctKeys}
use blueballs.Monetary.Tables.{Instrument, Engine, amount_or_zero, supply_total}
use blueballs.Monetary.Tables.Sums.{supply_part, supply_total-insert_instrument}
use blueballs.Monetary.Inputs.{validation_error, required_code, required_string, safe_integer}
use blueballs.Monetary.Deposits.{configured_row, supply_row, configure_instrument}
use blueballs.Monetary.Engine.Reserves.{IsSound}

-- Writing an instrument in the currency of the one that stands there.
pub supply_total-same_currency :
    (c code : String) (i old : Instrument) (supply : Dict ℕ) (is : Dict Instrument)
    → lookup code is ≡ some old
    → old.reserve_currency ≡ i.reserve_currency
    → supply_total c supply (insert code i is) ≡ supply_total c supply is
supply_total-same_currency c code i old supply is found same =
    let moved = supply_total-insert_instrument c code i supply is in
    let before : supply_part c code supply (lookup code is) ≡ supply_part c code supply (some i) =
      rw (found, same) refl in
    omega (arith, moved, before)

-- Writing an instrument in the currency of the one that it replaces, if it replaces one.
supply_total-configured :
    (c code : String) (i : Instrument) (o : Option Instrument) (supply : Dict ℕ)
    (is : Dict Instrument)
    → lookup code is ≡ o
    → (lookup code is ≡ none → amount_or_zero (lookup code supply) ≡ 0)
    → ((old : Instrument) → lookup code is ≡ some old → old.reserve_currency ≡ i.reserve_currency)
    → supply_total c supply (insert code (configured_row o i) is) ≡ supply_total c supply is
supply_total-configured c code i none supply is found fresh same =
    let moved = supply_total-insert_instrument c code i supply is in
    let old : supply_part c code supply (lookup code is) ≡ 0 = rw found refl in
    ground (arith, moved, old, fresh found)
supply_total-configured c code i (some old) supply is found fresh same =
    supply_total-same_currency c code (configured_row (some old) i) old supply is found
      (same old found)

-- A supply row that is made with zero changes no supply.
supply_row-amount :
    (code k : String) (o : Option ℕ) (supply : Dict ℕ)
    → lookup code supply ≡ o
    → amount_or_zero (lookup k (supply_row code o supply)) ≡ amount_or_zero (lookup k supply)
supply_row-amount code k none supply missing =
    ground (arith, lookup-insert code k 0 supply, str_eq_iff code k, missing)
supply_row-amount code k (some n) supply found = refl

supply_total-supply_row :
    (c code : String) (o : Option ℕ) (supply : Dict ℕ) (is : Dict Instrument)
    → lookup code supply ≡ o
    → supply_total c (supply_row code o supply) is ≡ supply_total c supply is
unfolding supply_total
supply_total-supply_row c code o supply [] found = refl
supply_total-supply_row c code o supply ((j, i) ∷ is) found =
    rw (supply_row-amount code j o supply found, supply_total-supply_row c code o supply is found)
      refl

-- The call does not move an instrument that exists to another currency.
abbrev pub KeepsCurrency : Engine → String → Instrument → Type 0
KeepsCurrency e given i =
    (code currency : String) (old : Instrument)
    → required_code given ≡ ok code
    → required_code i.reserve_currency ≡ ok currency
    → lookup code e.instruments ≡ some old
    → old.reserve_currency ≡ currency

-- Writing an instrument, with its supply row, keeps the tables sound.
written-IsSound :
    (e : Engine) (code : String) (i : Instrument)
    → IsSound e
    → ((old : Instrument)
        → lookup code e.instruments ≡ some old
        → old.reserve_currency ≡ i.reserve_currency)
    → IsSound (record e {
      instruments = insert code (configured_row (lookup code e.instruments) i) e.instruments;
      supply = supply_row code (lookup code e.supply) e.supply;
    })
written-IsSound e code i s same = record {
  distinct_instruments = insert-HasDistinctKeys code _ e.instruments s.distinct_instruments;
  deposits_keyed = s.deposits_keyed;
  no_stray_supply = λ k missing.
      supply_row-amount code k (lookup code e.supply) e.supply refl
      ∙ s.no_stray_supply k (
          ground (
            arith,
            lookup-insert code k (configured_row (lookup code e.instruments) i) e.instruments,
          ));
  supported = λ c.
      rw
        (
          supply_total-supply_row c code (lookup code e.supply) e.supply
              (insert code (configured_row (lookup code e.instruments) i) e.instruments) refl,
          supply_total-configured c code i (lookup code e.instruments) e.supply e.instruments refl
              (s.no_stray_supply code) same,
        )
        (s.supported c);
}

pub configure_instrument-IsSound :
    (e : Engine) (now : ℕ) (given : String) (i : Instrument) {e' : Engine}
    → KeepsCurrency e given i
    → IsSound e
    → configure_instrument e now given i ≡ ok e'
    → IsSound e'
unfolding configure_instrument
configure_instrument-IsSound e now given i keeps s h =
    let (code, is_code, rest) = >>=-eq-ok (required_code given) _ h in
    let (name, _, more) = >>=-eq-ok (required_string i.name) _ rest in
    let (currency, is_currency, further) = >>=-eq-ok (required_code i.reserve_currency) _ more in
    let (_, last) = >>-eq-ok (safe_integer i.decimals 0 18) _ further in
    let (_, almost) = >>-eq-ok (safe_integer i.min_coverage_bps 10000 100000) _ last in
    let (_, done) = >>-eq-ok (throw_if _ validation_error) _ almost in
    let i' : Instrument = record i { name = name; reserve_currency = currency; created_at = now } in
    subst IsSound (ok-injective done)
      (written-IsSound e code i' s (λ old found. keeps code currency old is_code is_currency found))
