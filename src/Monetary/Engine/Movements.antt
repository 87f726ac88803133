-- ===== src/Monetary/Engine/Movements.antt =====
-- The totals of a currency after `mint` and `redeem` of packages/fx-monetary/src/index.js.
use blueballs.Prelude.{
  ℕ, ◌+◌, ◌-◌, ◌*◌, ◌≤◌, String, Bool, true, false, ◌≡◌, refl, sym, ◌∙◌, subst, inl, inr, Option,
  some, [], ◌∷◌, arith, ltb, ◌==◌, str_eq, str_eq_iff, if◌then◌else◌, Bool-cases, ok, ok-injective,
  >>=-eq-ok, >>-eq-ok, throw_if, require, throw_if-eq-ok, require-eq-ok,
}
use blueballs.Prelude.Int.{pos, ltb_ℤ}
use blueballs.Prelude.Dict.{Dict, lookup, insert, lookup-insert}
use blueballs.Monetary.Tables.{
  Instrument, redeemed, Engine, amount_or_zero, settled_total, supply_total, expire_receipts,
  currency_totals,
}
use blueballs.Monetary.Tables.Sums.{supply_total-insert}
use blueballs.Monetary.Inputs.{
  instrument_disabled, insufficient_settled_reserve, coverage_limit, insufficient_supply,
  required_code, required_string, atomic,
}
use blueballs.Monetary.Engine.{
  required_for, required_reserve, check_mint, mint_state, mint_row, mint, redeem_drain,
  check_redeem, redeem_state, redeem_row, redeem,
}
use blueballs.Monetary.Engine.Draining.{counted, drained-settled_total}
use blueballs.Monetary.Engine.Reserves.{IsSound}

-- The reserve that the instruments of a currency need for their supplies, each rounded up.
unfoldable pub needed_reserve : String → Dict ℕ → Dict Instrument → ℕ
needed_reserve c supply [] = 0
needed_reserve c supply ((code, i) ∷ is) =
    (if str_eq i.reserve_currency c
      then required_for (amount_or_zero (lookup code supply)) i.min_coverage_bps
      else 0)
    + needed_reserve c supply is

-- A reserve that splits into a share for each instrument of a currency, where a share of 10000 times
-- at least the supply times `minCoverageBps` covers the instrument.
unfoldable pub Covers : ℕ → String → Dict ℕ → Dict Instrument → Type 0
Covers reserve c supply [] = Unit {0}
Covers reserve c supply ((code, i) ∷ is) =
    (share : ℕ) × (rest : ℕ) × (share + rest ≤ reserve)
    × ((if str_eq i.reserve_currency c
          then amount_or_zero (lookup code supply) * i.min_coverage_bps
          else 0)
        ≤ share * 10000)
    × Covers rest c supply is

required_for-covers : (supply bps : ℕ) → supply * bps ≤ required_for supply bps * 10000
unfolding required_for
required_for-covers supply bps = omega arith

share_covers :
    (counts : Bool) (supply bps : ℕ)
    → (if counts then supply * bps else 0) ≤ (if counts then required_for supply bps else 0) * 10000
share_covers true supply bps = required_for-covers supply bps
share_covers false supply bps = omega arith

needed_reserve-Covers :
    (reserve : ℕ) (c : String) (supply : Dict ℕ) (is : Dict Instrument)
    → needed_reserve c supply is ≤ reserve
    → Covers reserve c supply is
unfolding Covers needed_reserve
needed_reserve-Covers reserve c supply [] h = tt
needed_reserve-Covers reserve c supply ((code, i) ∷ is) h =
    let need = required_for (amount_or_zero (lookup code supply)) i.min_coverage_bps in
    let share = if str_eq i.reserve_currency c then need else 0 in
    (
      share,
      needed_reserve c supply is,
      h,
      share_covers (str_eq i.reserve_currency c) (amount_or_zero (lookup code supply))
          i.min_coverage_bps,
      needed_reserve-Covers (needed_reserve c supply is) c supply is (omega arith),
    )

-- The reserve that `mint` requires is the one needed once the supply is written.
required_reserve-insert :
    (c code : String) (next : ℕ) (supply : Dict ℕ) (is : Dict Instrument)
    → needed_reserve c (insert code next supply) is ≡ required_reserve c code next supply is
unfolding needed_reserve required_reserve
required_reserve-insert c code next supply [] = refl
required_reserve-insert c code next supply ((other, i) ∷ is) =
    elim (Bool-cases (str_eq other code)) [
      | inl same ↦
          rw
            (
              lookup-insert code other next supply,
              required_reserve-insert c code next supply is,
              same,
              (str_eq_iff code other).1 (sym ((str_eq_iff other code).0 same)),
            )
            refl
      | inr differs ↦
          let other_way : str_eq code other ≡ false =
            ground (arith, str_eq_iff code other, str_eq_iff other code) in
          rw
            (
              lookup-insert code other next supply,
              required_reserve-insert c code next supply is,
              differs,
              other_way,
            )
            refl
    ]

mint_state-IsCovered :
    (e : Engine) (code : String) (amount : ℕ) (beneficiary : String) (i : Instrument)
    → check_mint e code amount i ≡ ok tt
    → let e' = mint_state e code amount beneficiary i.reserve_currency in
      needed_reserve i.reserve_currency e'.supply e'.instruments
      ≤ settled_total i.reserve_currency e'.deposits
unfolding check_mint mint_state currency_totals
mint_state-IsCovered e code amount beneficiary i h =
    let c = i.reserve_currency in
    let next = amount_or_zero (lookup code e.supply) + amount in
    let (_, rest) = >>-eq-ok (require i.enabled instrument_disabled) _ h in
    let short = ltb_ℤ (currency_totals e c).unallocated (pos amount) in
    let (_, last) = >>-eq-ok (throw_if short insufficient_settled_reserve) _ rest in
    let enough =
      throw_if-eq-ok
        (ltb (settled_total c e.deposits) (required_reserve c code next e.supply e.instruments))
        coverage_limit last in
    rw (required_reserve-insert c code next e.supply e.instruments) (ground arith)

mint_row-IsCovered :
    (e : Engine) (now : ℕ) (code : String) (amount : ℕ) (beneficiary : String) (i : Instrument)
    {e' : Engine}
    → mint_row e now code amount beneficiary (some i) ≡ ok e'
    → needed_reserve i.reserve_currency e'.supply e'.instruments
      ≤ settled_total i.reserve_currency e'.deposits
unfolding mint_row
mint_row-IsCovered e now code amount beneficiary i h =
    let x = expire_receipts e i.reserve_currency now in
    let (checked, done) = >>-eq-ok (check_mint x code amount i) _ h in
    subst
      (λ y.
        needed_reserve i.reserve_currency y.supply y.instruments
        ≤ settled_total i.reserve_currency y.deposits)
      (ok-injective done) (mint_state-IsCovered x code amount beneficiary i checked)

-- After a mint that succeeds, the settled reserve of the instrument's currency splits into shares, one
-- for each instrument of that currency, each at least the instrument's supply times its minimal
-- coverage (in basis points).
pub mint-IsCovered :
    (e : Engine) (now : ℕ) (given code : String) (amount : Option ℕ) (ref : String) (i : Instrument)
    {e' : Engine}
    → required_code given ≡ ok code
    → lookup code e.instruments ≡ some i
    → mint e now given amount ref ≡ ok e'
    → Covers
        (settled_total i.reserve_currency e'.deposits)
        i.reserve_currency
        e'.supply
        e'.instruments
unfolding mint
mint-IsCovered e now given code amount ref i {e'} is_code found h =
    let (code', same, rest) = >>=-eq-ok (required_code given) _ h in
    let (value, _, more) = >>=-eq-ok (atomic amount) _ rest in
    let (beneficiary, _, done) = >>=-eq-ok (required_string ref) _ more in
    let known : code' ≡ code = ok-injective (sym same ∙ is_code) in
    needed_reserve-Covers (settled_total i.reserve_currency e'.deposits) i.reserve_currency
      e'.supply e'.instruments
      (mint_row-IsCovered e now code value beneficiary i (
        subst (λ o. mint_row e now code value beneficiary o ≡ ok e') found
          (subst (λ k. mint_row e now k value beneficiary (lookup k e.instruments) ≡ ok e') known
            done)))

-- How redeeming an amount of a currency `c` moves the totals.
pub record Redeems (c : String) (n : ℕ) (e e' : Engine) : Type 0 where
  pub supply_falls :
      (x : String)
      → supply_total x e'.supply e'.instruments + counted c x n
        ≡ supply_total x e.supply e.instruments
  pub reserve_falls :
      (x : String) → settled_total x e'.deposits + counted c x n ≡ settled_total x e.deposits
  pub receipts_stay : e'.receipts ≡ e.receipts

redeem_state-Redeems :
    (e : Engine) (code : String) (amount : ℕ) (holder : String) (i : Instrument)
    → lookup code e.instruments ≡ some i
    → check_redeem e code amount i.reserve_currency ≡ ok tt
    → IsSound e
    → Redeems i.reserve_currency amount e (redeem_state e code amount holder i.reserve_currency)
unfolding check_redeem redeem_state
redeem_state-Redeems e code amount holder i found h s =
    let currency = i.reserve_currency in
    let old = amount_or_zero (lookup code e.supply) in
    let (enough, rest) = >>-eq-ok (throw_if (ltb old amount) insufficient_supply) _ h in
    let covered = throw_if-eq-ok (ltb old amount) insufficient_supply enough in
    let whole =
      require-eq-ok ((redeem_drain e amount currency).0 == 0) insufficient_settled_reserve rest in
    record {
      supply_falls = λ x. ground (
        arith,
        covered,
        supply_total-insert x code (old - amount) e.supply e.instruments i s.distinct_instruments
            found,
      );
      reserve_falls =
          λ x. drained-settled_total currency x redeemed amount e.deposits s.deposits_keyed whole;
      receipts_stay = refl;
    }

redeem_row-Redeems :
    (e : Engine) (code : String) (amount : ℕ) (holder : String) (i : Instrument) {e' : Engine}
    → lookup code e.instruments ≡ some i
    → IsSound e
    → redeem_row e code amount holder (some i) ≡ ok e'
    → Redeems i.reserve_currency amount e e'
unfolding redeem_row
redeem_row-Redeems e code amount holder i found s h =
    let (checked, done) = >>-eq-ok (check_redeem e code amount i.reserve_currency) _ h in
    subst (Redeems i.reserve_currency amount e) (ok-injective done)
      (redeem_state-Redeems e code amount holder i found checked s)

atomic-eq-ok : (n : ℕ) {m : ℕ} → atomic (some n) ≡ ok m → n ≡ m
unfolding atomic
atomic-eq-ok n h = ground arith

-- A redemption that succeeds on sound tables takes exactly its amount out of the supply and out of
-- the settled reserve of the instrument's currency; other currencies and the receipts stay.
pub redeem-Redeems :
    (e : Engine) (given code : String) (n : ℕ) (ref : String) (i : Instrument) {e' : Engine}
    → IsSound e
    → required_code given ≡ ok code
    → lookup code e.instruments ≡ some i
    → redeem e given (some n) ref ≡ ok e'
    → Redeems i.reserve_currency n e e'
unfolding redeem
redeem-Redeems e given code n ref i {e'} s is_code found h =
    let (code', same, rest) = >>=-eq-ok (required_code given) _ h in
    let (value, is_value, more) = >>=-eq-ok (atomic (some n)) _ rest in
    let (holder, _, done) = >>=-eq-ok (required_string ref) _ more in
    let known : code' ≡ code = ok-injective (sym same ∙ is_code) in
    subst (λ m. Redeems i.reserve_currency m e e') (sym (atomic-eq-ok n is_value))
      (redeem_row-Redeems e code value holder i found s (
        subst (λ o. redeem_row e code value holder o ≡ ok e') found
          (subst (λ k. redeem_row e k value holder (lookup k e.instruments) ≡ ok e') known done)))
