-- ===== src/Bank/Ledger.antt =====
-- The double-entry ledger of apps/api/src/lib.js: `PersistentLedger`, `assertNoOverdraft`, `post` and
-- `balanceOf`. Amounts are BigInts in minor units. What the runtime supplies (`ksuid`, the clock) is
-- an argument. The key `account\0currency` of the overdraft check is the pair of its two texts: no
-- account or currency holds a NUL.
pub mod Sums
pub mod Solvency
pub mod Requests
use Prim.Native.Char.{code}
use Prim.Native.String.{[] as empty, ◌∷◌ as char_then}
use blueballs.Prelude.{
  String, Bool, true, false, ◌&&◌, ◌||◌, Option, none, some, List, [], ◌∷◌, ◌++◌, map, str_eq, ◌==◌,
  if◌then◌else◌, Outcome, ok, err, ◌>>=◌,
}
use blueballs.Prelude.Int.{ℤ, pos, ◌+ℤ◌, ◌-ℤ◌, ltb_ℤ, leb_ℤ, eqb_ℤ}

pub record Entry : Type 0 where
  pub account : String
  pub currency : String
  pub amount : ℤ

pub record Row : Type 0 where
  pub txn : String
  pub at : String
  pub account : String
  pub currency : String
  pub amount : ℤ
  pub memo : Option String
  pub command_id : String

-- The table `ledger`, and the rows that the current request has staged, if one is active.
pub record Ledger : Type 0 where
  pub committed : List Row
  pub staged : Option (List Row)

-- The ids and the time that one call draws.
pub record Stamp : Type 0 where
  pub txn : String
  pub at : String
  pub command_id : String

pub data LedgerError : Type 0 where
  unbalanced : LedgerError
  insufficient_balance : (account currency : String) (balance needed : ℤ) → LedgerError

abbrev pub is_key : String → String → String → String → Bool
is_key a c account currency = str_eq account a && str_eq currency c

-- `n += r.amount` over the rows of one account and currency.
unfoldable pub tally : String → String → ℤ → List Row → ℤ
tally a c n [] = n
tally a c n (r ∷ rs) = tally a c (if is_key a c r.account r.currency then n +ℤ r.amount else n) rs

abbrev pub staged_rows : Option (List Row) → List Row
staged_rows none = []
staged_rows (some rows) = rows

-- `PersistentLedger.balance`, which is also `balanceOf`.
unfoldable pub balance : Ledger → String → String → ℤ
unfolding tally
balance l a c = tally a c (tally a c (pos 0) l.committed) (staged_rows l.staged)

-- `account.includes(":")`
unfoldable pub is_system_account : String → Bool
is_system_account empty = false
is_system_account (char_then ch s) = (code ch == b':') || is_system_account s

abbrev pub Deltas : Type 0
Deltas = List (String × String × ℤ)

-- `deltas.set(k, (deltas.get(k) ?? 0n) + e.amount)`
unfoldable pub add_delta : String → String → ℤ → Deltas → Deltas
add_delta a c x [] = (a, c, pos 0 +ℤ x) ∷ []
add_delta a c x ((a', c', y) ∷ m) =
    if is_key a c a' c' then (a', c', y +ℤ x) ∷ m else (a', c', y) ∷ add_delta a c x m

unfoldable pub collect_deltas : Deltas → List Entry → Deltas
unfolding is_system_account add_delta
collect_deltas m [] = m
collect_deltas m (e ∷ es) =
    collect_deltas
      (if is_system_account e.account then m else add_delta e.account e.currency e.amount m) es

-- The second loop of `assertNoOverdraft`: `none` if it does not throw.
unfoldable pub check_deltas : Ledger → Deltas → Option LedgerError
unfolding balance
check_deltas l [] = none
check_deltas l ((a, c, delta) ∷ m) =
    let rest = check_deltas l m in
    if leb_ℤ (pos 0) delta
    then rest
    else (if ltb_ℤ (balance l a c +ℤ delta) (pos 0)
        then some (insufficient_balance a c (balance l a c) (pos 0 -ℤ delta))
        else rest)

unfoldable pub assert_no_overdraft : Ledger → List Entry → Option LedgerError
unfolding collect_deltas check_deltas
assert_no_overdraft l entries = check_deltas l (collect_deltas [] entries)

-- `entries.reduce((n, e) => n + e.amount, 0n)`
unfoldable pub reduce_amounts : ℤ → List Entry → ℤ
reduce_amounts n [] = n
reduce_amounts n (e ∷ es) = reduce_amounts (n +ℤ e.amount) es

abbrev pub row_of : Stamp → Option String → Entry → Row
row_of t memo e = record {
  txn = t.txn;
  at = t.at;
  account = e.account;
  currency = e.currency;
  amount = e.amount;
  memo = memo;
  command_id = t.command_id;
}

push_to : List Row → List Row → Option (List Row) → Ledger
push_to committed rows none = record { committed = committed ++ rows; staged = none }
push_to committed rows (some staged) = record {
  committed = committed;
  staged = some (staged ++ rows);
}

-- Rows go to the request's store where there is one, and to the table otherwise.
unfoldable pub push_rows : Ledger → List Row → Ledger
unfolding push_to
push_rows l rows = push_to l.committed rows l.staged

unfoldable pub post :
    Ledger → Stamp → List Entry → Option String → Outcome LedgerError (String × Ledger)
unfolding assert_no_overdraft reduce_amounts push_rows
post l t entries memo =
    if eqb_ℤ (reduce_amounts (pos 0) entries) (pos 0)
    then (elim (assert_no_overdraft l entries) [
      | none ↦ ok (t.txn, push_rows l (map (row_of t memo) entries))
      | some e ↦ err e
    ])
    else err unbalanced

-- `inRequestScope`, on the ledger: a request begins with an empty store; on success its rows are
-- written to the table in order, on failure they are dropped.
unfoldable pub begin_request : Ledger → Ledger
begin_request l = record l { staged = some [] }

unfoldable pub commit_request : Ledger → Ledger
commit_request l = record { committed = l.committed ++ staged_rows l.staged; staged = none }

unfoldable pub abort_request : Ledger → Ledger
abort_request l = record l { staged = none }

-- One posting of a request, as its handler asks for it.
pub record Posting : Type 0 where
  pub stamp : Stamp
  pub entries : List Entry
  pub memo : Option String

-- A handler that posts in turn and lets the first exception through: the exception, if there is one,
-- and the ledger at that time, which has the rows of the postings before. `post` itself throws before it
-- pushes a row.
unfoldable pub post_all : Ledger → List Posting → Option LedgerError × Ledger
unfolding post
post_all l [] = (none, l)
post_all l (p ∷ ps) = elim (post l p.stamp p.entries p.memo) [
  | ok posted ↦ post_all posted.1 ps
  | err e ↦ (some e, l)
]

-- The end of a request, from what its handler leaves.
unfoldable pub end_request : Option LedgerError × Ledger → Option LedgerError × Ledger
unfolding commit_request abort_request
end_request (none, l) = (none, commit_request l)
end_request (some e, l) = (some e, abort_request l)

-- The whole request: what the caller sees, and the ledger that it leaves.
unfoldable pub run_request : Ledger → List Posting → Option LedgerError × Ledger
unfolding begin_request end_request post_all
run_request l ps = end_request (post_all (begin_request l) ps)
