-- ===== src/Bank/Ledger/Sums.antt =====
-- The loops of the ledger as plain sums over entries and rows.
use blueballs.Prelude.{
  String, true, false, ◌≡◌, ◌↔◌, refl, ap, inl, inr, List, [], ◌∷◌, ◌++◌, map, arith, str_eq_iff,
  if◌then◌else◌, Bool-cases,
}
use blueballs.Prelude.Int.{ℤ, pos, ◌+ℤ◌, int_laws}
use blueballs.Bank.Ledger.{
  Entry, Row, Ledger, Stamp, Deltas, is_key, tally, staged_rows, balance, is_system_account,
  add_delta, collect_deltas, reduce_amounts, row_of,
}

-- What a list of rows adds to one account in one currency.
unfoldable pub row_sum : String → String → List Row → ℤ
row_sum a c [] = pos 0
row_sum a c (r ∷ rs) =
    (if is_key a c r.account r.currency then r.amount else pos 0) +ℤ row_sum a c rs

-- What a list of entries adds to one account in one currency.
unfoldable pub entry_sum : String → String → List Entry → ℤ
entry_sum a c [] = pos 0
entry_sum a c (e ∷ es) =
    (if is_key a c e.account e.currency then e.amount else pos 0) +ℤ entry_sum a c es

-- The sum of all amounts.
unfoldable pub total : List Row → ℤ
total [] = pos 0
total (r ∷ rs) = r.amount +ℤ total rs

unfoldable pub entry_total : List Entry → ℤ
entry_total [] = pos 0
entry_total (e ∷ es) = e.amount +ℤ entry_total es

pub tally-eq-row_sum : (a c : String) (n : ℤ) (rs : List Row) → tally a c n rs ≡ n +ℤ row_sum a c rs
unfolding tally row_sum
tally-eq-row_sum a c n [] = omega int_laws
tally-eq-row_sum a c n (r ∷ rs) = elim (Bool-cases (is_key a c r.account r.currency)) [
  | inl h ↦ rw h (rw (tally-eq-row_sum a c (n +ℤ r.amount) rs) (omega int_laws))
  | inr h ↦ rw h (rw (tally-eq-row_sum a c n rs) (omega int_laws))
]

pub row_sum-append :
    (a c : String) (xs ys : List Row) → row_sum a c (xs ++ ys) ≡ row_sum a c xs +ℤ row_sum a c ys
unfolding row_sum
row_sum-append a c [] ys = omega int_laws
row_sum-append a c (r ∷ xs) ys = rw (row_sum-append a c xs ys) (omega int_laws)

pub total-append : (xs ys : List Row) → total (xs ++ ys) ≡ total xs +ℤ total ys
unfolding total
total-append [] ys = omega int_laws
total-append (r ∷ xs) ys = rw (total-append xs ys) (omega int_laws)

pub row_sum-map-row_of :
    (a c : String) (t : Stamp) (memo : _) (es : List Entry)
    → row_sum a c (map (row_of t memo) es) ≡ entry_sum a c es
unfolding row_sum entry_sum
row_sum-map-row_of a c t memo [] = refl
row_sum-map-row_of a c t memo (e ∷ es) = rw (row_sum-map-row_of a c t memo es)

pub total-map-row_of :
    (t : Stamp) (memo : _) (es : List Entry) → total (map (row_of t memo) es) ≡ entry_total es
unfolding total entry_total
total-map-row_of t memo [] = refl
total-map-row_of t memo (e ∷ es) = rw (total-map-row_of t memo es)

pub reduce_amounts-eq-entry_total :
    (n : ℤ) (es : List Entry) → reduce_amounts n es ≡ n +ℤ entry_total es
unfolding reduce_amounts entry_total
reduce_amounts-eq-entry_total n [] = omega int_laws
reduce_amounts-eq-entry_total n (e ∷ es) =
    rw (reduce_amounts-eq-entry_total (n +ℤ e.amount) es) (omega int_laws)

-- The balance is the sum of the rows of the table and of the store.
pub balance-eq-row_sum :
    (l : Ledger) (a c : String)
    → balance l a c ≡ row_sum a c l.committed +ℤ row_sum a c (staged_rows l.staged)
unfolding balance
balance-eq-row_sum l a c =
    rw (tally-eq-row_sum a c (tally a c (pos 0) l.committed) (staged_rows l.staged))
      (rw (tally-eq-row_sum a c (pos 0) l.committed) (omega int_laws))

-- The delta that a map holds for a key; `?? 0n` where it holds none.
unfoldable pub delta_of : String → String → Deltas → ℤ
delta_of a c [] = pos 0
delta_of a c ((a', c', y) ∷ m) = if is_key a c a' c' then y else delta_of a c m

-- Two keys that a third matches hold the same texts.
pub is_key_iff : (a c a' c' : String) → (is_key a c a' c' ≡ true) ↔ ((a' ≡ a) × (c' ≡ c))
is_key_iff a c a' c' = ground (arith, str_eq_iff a' a, str_eq_iff c' c)

pub delta_of-add_delta :
    (a c b d : String) (x : ℤ) (m : Deltas)
    → delta_of a c (add_delta b d x m)
      ≡ (if is_key a c b d then delta_of a c m +ℤ x else delta_of a c m)
unfolding delta_of add_delta
delta_of-add_delta a c b d x [] = ground arith
delta_of-add_delta a c b d x ((b', d', y) ∷ m) = ground (
  arith,
  is_key_iff a c b d,
  is_key_iff b d b' d',
  is_key_iff a c b' d',
  delta_of-add_delta a c b d x m,
)

delta_of_step :
    (a c : String) (m : Deltas) (e : Entry)
    → is_system_account a ≡ false
    → delta_of a c
        (if is_system_account e.account then m else add_delta e.account e.currency e.amount m)
      ≡ delta_of a c m +ℤ (if is_key a c e.account e.currency then e.amount else pos 0)
delta_of_step a c m e h = elim (Bool-cases (is_system_account e.account)) [
  | inl sys ↦ elim (Bool-cases (is_key a c e.account e.currency)) [
    | inl k ↦ let same = ap is_system_account ((is_key_iff a c e.account e.currency).0 k).0 in cc
    | inr k ↦ rw (sys, k) (omega int_laws)
  ]
  | inr user ↦ rw user (
      rw (delta_of-add_delta a c e.account e.currency e.amount m)
        (elim (Bool-cases (is_key a c e.account e.currency)) [
          | inl k ↦ rw k
          | inr k ↦ rw k (omega int_laws)
        ]))
]

-- The map of deltas holds, for an account that is no system account, the sum of its entries.
pub delta_of-collect_deltas :
    (a c : String) (m : Deltas) (es : List Entry)
    → is_system_account a ≡ false
    → delta_of a c (collect_deltas m es) ≡ delta_of a c m +ℤ entry_sum a c es
unfolding collect_deltas entry_sum
delta_of-collect_deltas a c m [] h = omega int_laws
delta_of-collect_deltas a c m (e ∷ es) h =
    let m' = if is_system_account e.account then m else add_delta e.account e.currency e.amount m in
    rw (delta_of-collect_deltas a c m' es h) (rw (delta_of_step a c m e h) (omega int_laws))
