-- ===== src/Monetary/Engine/Calls.antt =====
-- `mint`, `redeem` and the calls on receipts of packages/fx-monetary/src/index.js, and what a currency
-- owes.
use blueballs.Prelude.{
  ℕ, ◌+◌, String, ◌&&◌, ◌≡◌, refl, subst, inl, inr, Option, none, some, leb, Bool-cases, ok,
  ok-injective, >>=-eq-ok, >>-eq-ok,
}
use blueballs.Prelude.Dict.{lookup}
use blueballs.Monetary.Tables.{Instrument, Receipt, Engine, expire_receipts, is_active}
use blueballs.Monetary.Inputs.{required_code, required_string, safe_integer, atomic}
use blueballs.Monetary.Engine.{
  check_mint, mint_row, mint, check_redeem, redeem_row, redeem, check_receipt, receipt_row,
  create_receipt, seen_receipt, get_receipt, check_consume, consume_row, consume_receipt,
}
use blueballs.Monetary.Engine.Reserves.{
  IsSound, expire_receipts-IsSound, mint_state-IsSound, redeem_state-IsSound, receipt_state-IsSound,
  consume_state-IsSound,
}

mint_row-IsSound :
    (e : Engine) (now : ℕ) (code : String) (amount : ℕ) (beneficiary : String)
    (o : Option Instrument) {e' : Engine}
    → lookup code e.instruments ≡ o
    → IsSound e
    → mint_row e now code amount beneficiary o ≡ ok e'
    → IsSound e'
unfolding mint_row expire_receipts
mint_row-IsSound e now code amount beneficiary none found s h = cc
mint_row-IsSound e now code amount beneficiary (some i) found s h =
    let x = expire_receipts e i.reserve_currency now in
    let (checked, done) = >>-eq-ok (check_mint x code amount i) _ h in
    subst IsSound (ok-injective done) (
      mint_state-IsSound x code amount beneficiary i found checked
        (expire_receipts-IsSound e i.reserve_currency now s))

redeem_row-IsSound :
    (e : Engine) (code : String) (amount : ℕ) (holder : String) (o : Option Instrument)
    {e' : Engine}
    → lookup code e.instruments ≡ o
    → IsSound e
    → redeem_row e code amount holder o ≡ ok e'
    → IsSound e'
unfolding redeem_row
redeem_row-IsSound e code amount holder none found s h = cc
redeem_row-IsSound e code amount holder (some i) found s h =
    let (checked, done) = >>-eq-ok (check_redeem e code amount i.reserve_currency) _ h in
    subst IsSound (ok-injective done) (redeem_state-IsSound e code amount holder i found checked s)

pub mint-IsSound :
    (e : Engine) (now : ℕ) (given : String) (amount : Option ℕ) (ref : String) {e' : Engine}
    → IsSound e
    → mint e now given amount ref ≡ ok e'
    → IsSound e'
unfolding mint
mint-IsSound e now given amount ref s h =
    let (code, _, rest) = >>=-eq-ok (required_code given) _ h in
    let (value, _, more) = >>=-eq-ok (atomic amount) _ rest in
    let (beneficiary, _, done) = >>=-eq-ok (required_string ref) _ more in
    mint_row-IsSound e now code value beneficiary (lookup code e.instruments) refl s done

pub redeem-IsSound :
    (e : Engine) (given : String) (amount : Option ℕ) (ref : String) {e' : Engine}
    → IsSound e
    → redeem e given amount ref ≡ ok e'
    → IsSound e'
unfolding redeem
redeem-IsSound e given amount ref s h =
    let (code, _, rest) = >>=-eq-ok (required_code given) _ h in
    let (value, _, more) = >>=-eq-ok (atomic amount) _ rest in
    let (holder, _, done) = >>=-eq-ok (required_string ref) _ more in
    redeem_row-IsSound e code value holder (lookup code e.instruments) refl s done

receipt_row-IsSound :
    (e : Engine) (now : ℕ) (id : String) (r : Receipt) {e' : Engine}
    → IsSound e
    → receipt_row e now id r ≡ ok e'
    → IsSound e'
unfolding receipt_row
receipt_row-IsSound e now id r s h =
    let x = expire_receipts e r.reserve_currency now in
    let (checked, done) = >>-eq-ok (check_receipt x id r.reserve_currency r.amount) _ h in
    subst IsSound (ok-injective done)
      (receipt_state-IsSound x id r checked (expire_receipts-IsSound e r.reserve_currency now s))

pub create_receipt-IsSound :
    (e : Engine) (now : ℕ) (id given : String) (amount : Option ℕ) (ref why : String)
    (expires_at : ℕ) {e' : Engine}
    → IsSound e
    → create_receipt e now id given amount ref why expires_at ≡ ok e'
    → IsSound e'
unfolding create_receipt
create_receipt-IsSound e now id given amount ref why expires_at s h =
    let (currency, _, rest) = >>=-eq-ok (required_code given) _ h in
    let (value, _, more) = >>=-eq-ok (atomic amount) _ rest in
    let (beneficiary, _, further) = >>=-eq-ok (required_string ref) _ more in
    let (purpose, _, last) = >>=-eq-ok (required_string why) _ further in
    let (_, done) = >>-eq-ok (safe_integer expires_at (now + 1) 0x1f_ffff_ffff_ffff) _ last in
    receipt_row-IsSound e now id _ s done

seen_receipt-IsSound :
    (e : Engine) (now : ℕ) (o : Option Receipt) → IsSound e → IsSound (seen_receipt e now o)
unfolding seen_receipt
seen_receipt-IsSound e now none s = s
seen_receipt-IsSound e now (some r) s =
    elim (Bool-cases (is_active r.state && leb r.expires_at now)) [
      | inl due ↦ rw due (expire_receipts-IsSound e r.reserve_currency now s)
      | inr keeps ↦ rw keeps s
    ]

consume_row-IsSound :
    (e : Engine) (now : ℕ) (id : String) (o : Option Receipt) {e' : Engine}
    → lookup id e.receipts ≡ o
    → IsSound e
    → consume_row e now id o ≡ ok e'
    → IsSound e'
unfolding consume_row
consume_row-IsSound e now id none found s h = cc
consume_row-IsSound e now id (some r) found s h =
    let (checked, done) = >>-eq-ok (check_consume e r) _ h in
    subst IsSound (ok-injective done) (consume_state-IsSound e now id r found checked s)

pub consume_receipt-IsSound :
    (e : Engine) (now : ℕ) (id : String) {e' : Engine}
    → IsSound e
    → consume_receipt e now id ≡ ok e'
    → IsSound e'
unfolding consume_receipt get_receipt
consume_receipt-IsSound e now id s h =
    let x = seen_receipt e now (lookup id e.receipts) in
    consume_row-IsSound x now id (lookup id x.receipts) refl
      (seen_receipt-IsSound e now (lookup id e.receipts) s) h

pub get_receipt-IsSound :
    (e : Engine) (now : ℕ) (id : String) → IsSound e → IsSound (get_receipt e now id).1
unfolding get_receipt
get_receipt-IsSound e now id s = seen_receipt-IsSound e now (lookup id e.receipts) s
