-- ===== src/Bank/Ledger/Solvency.antt =====
-- `post` of apps/api/src/lib.js and the balances of the ledger.
use blueballs.Prelude.{
  ok, String, false, ◌≡◌, ◌⊎◌, inl, inr, Option, none, some, List, [], ◌∷◌, map, arith, sym, ap₂,
  ◌∙◌,
}
use blueballs.Prelude.Int.{pos, ◌+ℤ◌, +ℤ_parts, ◌≤ℤ◌, int_laws}
use blueballs.Bank.Ledger.{
  Entry, Row, Ledger, Stamp, Deltas, balance, staged_rows, is_system_account, collect_deltas,
  check_deltas, assert_no_overdraft, row_of, push_rows, push_to, post,
}
use blueballs.Bank.Ledger.Sums.{
  row_sum, entry_sum, total, entry_total, row_sum-append, total-append, row_sum-map-row_of,
  total-map-row_of, reduce_amounts-eq-entry_total, balance-eq-row_sum, delta_of, is_key_iff,
  delta_of-collect_deltas,
}

-- Every account of a customer holds zero or more of every currency.
abbrev pub IsSolvent : Ledger → Type 0
IsSolvent l = (a c : String) → is_system_account a ≡ false → pos 0 ≤ℤ balance l a c

-- The rows of the table and of the store sum to zero.
abbrev pub IsBalanced : Ledger → Type 0
IsBalanced l = total l.committed +ℤ total (staged_rows l.staged) ≡ pos 0

push_to-row_sum :
    (a c : String) (xs rows : List Row) (o : Option (List Row))
    → row_sum a c (push_to xs rows o).committed
        +ℤ row_sum a c (staged_rows (push_to xs rows o).staged)
      ≡ row_sum a c xs +ℤ row_sum a c (staged_rows o) +ℤ row_sum a c rows
unfolding push_to row_sum
push_to-row_sum a c xs rows none = rw (row_sum-append a c xs rows) (omega int_laws)
push_to-row_sum a c xs rows (some staged) = rw (row_sum-append a c staged rows) (omega int_laws)

push_to-total :
    (xs rows : List Row) (o : Option (List Row))
    → total (push_to xs rows o).committed +ℤ total (staged_rows (push_to xs rows o).staged)
      ≡ total xs +ℤ total (staged_rows o) +ℤ total rows
unfolding push_to total
push_to-total xs rows none = rw (total-append xs rows) (omega int_laws)
push_to-total xs rows (some staged) = rw (total-append staged rows) (omega int_laws)

-- If the overdraft check passes, a key's delta is covered by its balance.
check_deltas_sound :
    (l : Ledger) (a c : String) (m : Deltas)
    → check_deltas l m ≡ none
    → (pos 0 ≤ℤ delta_of a c m) ⊎ (pos 0 ≤ℤ balance l a c +ℤ delta_of a c m)
unfolding check_deltas delta_of
check_deltas_sound l a c [] h = inl (omega arith)
check_deltas_sound l a c ((b, d, y) ∷ m) h =
    ground (arith, is_key_iff a c b d, check_deltas_sound l a c m, +ℤ_parts (balance l b d) y)

-- A successful `post` balances, passes the overdraft check and pushes one row for each entry.
pub post-eq-ok :
    (l : Ledger) (t : Stamp) (es : List Entry) (memo : Option String) (txn : String) {l' : Ledger}
    → post l t es memo ≡ ok (txn, l')
    → (entry_total es ≡ pos 0)
      × (assert_no_overdraft l es ≡ none)
      × (l' ≡ push_rows l (map (row_of t memo) es))
unfolding post
post-eq-ok l t es memo txn h = (
  ground (arith, reduce_amounts-eq-entry_total (pos 0) es, +ℤ_parts (pos 0) (entry_total es)),
  ground arith,
  ground arith,
)

push_rows-row_sum :
    (a c : String) (l : Ledger) (t : Stamp) (memo : Option String) (es : List Entry)
    → balance (push_rows l (map (row_of t memo) es)) a c ≡ balance l a c +ℤ entry_sum a c es
unfolding push_rows
push_rows-row_sum a c l t memo es =
    let l' = push_rows l (map (row_of t memo) es) in
    balance-eq-row_sum l' a c
    ∙ push_to-row_sum a c l.committed (map (row_of t memo) es) l.staged
    ∙ ap₂ ◌+ℤ◌ (sym (balance-eq-row_sum l a c)) (row_sum-map-row_of a c t memo es)

-- A successful posting changes the balance of every account, in every currency, by exactly the sum
-- of the entries that name both.
pub balance-post :
    (l : Ledger) (t : Stamp) (es : List Entry) (memo : Option String) (txn : String) {l' : Ledger}
    → post l t es memo ≡ ok (txn, l')
    → (a c : String) → balance l' a c ≡ balance l a c +ℤ entry_sum a c es
balance-post l t es memo txn h a c =
    let (_, _, e) = post-eq-ok l t es memo txn h in rw e (push_rows-row_sum a c l t memo es)

delta_of_entries :
    (a c : String) (es : List Entry)
    → is_system_account a ≡ false
    → delta_of a c (collect_deltas [] es) ≡ entry_sum a c es
unfolding delta_of
delta_of_entries a c es user = rw (delta_of-collect_deltas a c [] es user) (omega int_laws)

-- If no customer account is overdrawn, none is after a successful posting.
pub post-IsSolvent :
    (l : Ledger) (t : Stamp) (es : List Entry) (memo : Option String) (txn : String) {l' : Ledger}
    → IsSolvent l
    → post l t es memo ≡ ok (txn, l')
    → IsSolvent l'
unfolding assert_no_overdraft
post-IsSolvent l t es memo txn safe h a c user =
    let (_, checked, _) = post-eq-ok l t es memo txn h in
    let covered = check_deltas_sound l a c (collect_deltas [] es) checked in
    let before = safe a c user in
    let delta = delta_of_entries a c es user in
    rw (balance-post l t es memo txn h a c)
      (elim covered [ inl up ↦ omega (int_laws, rw delta at up) | inr enough ↦ rw delta at enough ])

-- If the amounts of the ledger sum to zero, they do after a successful posting.
pub post-IsBalanced :
    (l : Ledger) (t : Stamp) (es : List Entry) (memo : Option String) (txn : String) {l' : Ledger}
    → IsBalanced l
    → post l t es memo ≡ ok (txn, l')
    → IsBalanced l'
unfolding push_rows
post-IsBalanced l t es memo txn even h =
    let (zero_sum, _, e) = post-eq-ok l t es memo txn h in
    rw e (
      rw (push_to-total l.committed (map (row_of t memo) es) l.staged)
        (rw (total-map-row_of t memo es) (rw (even, zero_sum) (omega int_laws))))
