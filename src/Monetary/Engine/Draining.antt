-- ===== src/Monetary/Engine/Draining.antt =====
-- The loop of `redeem` and `consumeReceipt` in packages/fx-monetary/src/index.js, and the reserves.
use blueballs.Prelude.{
  ℕ, ◌+◌, ◌-◌, String, Bool, true, false, ◌&&◌, ◌≡◌, refl, ◌∙◌, ap, inl, inr, some, List, [], ◌∷◌,
  keep, arith, leb, ◌==◌, str_eq, str_eq_iff, if◌then◌else◌, All, All-keep, All-weaken, keep_passes,
  Bool-cases,
}
use blueballs.Prelude.Dict.{Dict, lookup, insert, lookup-insert}
use blueballs.Prelude.Sorting.{Pairwise, Pairwise-keep, All-sort_by, Pairwise-sort_by}
use blueballs.Monetary.Tables.{
  Deposit, DepositState, is_settled, settled_part, settled_total, is_after, rows, settled_deposits,
  drain,
}
use blueballs.Monetary.Tables.Sums.{settled_of, settled_total-insert}
use blueballs.Monetary.Tables.Keyed.{
  IsKeyed, insert-IsKeyed, Differs, Differs-sym, rows-All, rows-Pairwise,
}

-- A row of the table that is settled and of the currency.
pub record IsDrainable (c : String) (table : Dict Deposit) (d : Deposit) : Type 0 where
  pub found : lookup d.deposit_id table ≡ some d
  pub of_currency : str_eq d.reserve_currency c ≡ true
  pub is_settled_row : is_settled d.state ≡ true

-- Writing one row leaves the others as they are.
IsDrainable-after :
    (c : String) (table : Dict Deposit) (d d' : Deposit) (ds : List Deposit)
    → All (Differs d) ds
    → All (IsDrainable c table) ds
    → All (IsDrainable c (insert d.deposit_id d' table)) ds
IsDrainable-after c table d d' [] apart h = tt
IsDrainable-after c table d d' (e ∷ ds) (differs, apart) (i, h) = (
  record {
    found = ground (arith, lookup-insert d.deposit_id e.deposit_id d' table, i.found);
    of_currency = i.of_currency;
    is_settled_row = i.is_settled_row;
  },
  IsDrainable-after c table d d' ds apart h,
)

-- The amount that counts for a currency `x` where the drained currency is `c`.
abbrev pub counted : String → String → ℕ → ℕ
counted c x n = if str_eq c x then n else 0

-- The row that is written instead of a drainable one: what it loses is taken.
written-settled_total :
    (c x : String) (table : Dict Deposit) (d d' : Deposit) (taken : ℕ)
    → IsDrainable c table d
    → settled_part x d' + counted c x taken ≡ counted c x d.amount
    → settled_total x (insert d.deposit_id d' table) + counted c x taken ≡ settled_total x table
written-settled_total c x table d d' taken i part =
    let moved = settled_total-insert x d.deposit_id d' table in
    let before : settled_of x (lookup d.deposit_id table) ≡ counted c x d.amount = rw i.found (
      ground (
        arith,
        i.is_settled_row,
        i.of_currency,
        str_eq_iff d.reserve_currency c,
        str_eq_iff d.reserve_currency x,
        str_eq_iff c x,
      )) in
    omega (arith, moved, before, part)

emptied-settled_total :
    (c x : String) (table : Dict Deposit) (d : Deposit) (state : DepositState)
    → IsDrainable c table d
    → settled_total x (insert d.deposit_id (record d { amount = 0; state = state }) table)
        + counted c x d.amount
      ≡ settled_total x table
emptied-settled_total c x table d state i =
    written-settled_total c x table d (record d { amount = 0; state = state }) d.amount i
      (ground arith)

reduced-settled_total :
    (c x : String) (table : Dict Deposit) (d : Deposit) (n : ℕ)
    → leb d.amount n ≡ false
    → IsDrainable c table d
    → settled_total x (insert d.deposit_id (record d { amount = d.amount - n }) table)
        + counted c x n
      ≡ settled_total x table
reduced-settled_total c x table d n less i =
    written-settled_total c x table d (record d { amount = d.amount - n }) n i
      (ground (
        arith,
        i.is_settled_row,
        i.of_currency,
        str_eq_iff d.reserve_currency c,
        str_eq_iff d.reserve_currency x,
        str_eq_iff c x,
      ))

drain_nothing :
    (emptied : DepositState) (ds : List Deposit) (table : Dict Deposit)
    → drain emptied 0 ds table ≡ (0, table)
unfolding drain
drain_nothing emptied [] table = refl
drain_nothing emptied (d ∷ ds) table = refl

-- What the loop takes of a currency is what its settled reserve loses; other currencies keep theirs.
drain-settled_total :
    (c x : String) (emptied : DepositState) (n : ℕ) (ds : List Deposit) (table : Dict Deposit)
    → All (IsDrainable c table) ds
    → Pairwise Differs ds
    → settled_total x (drain emptied n ds table).1 + counted c x n
      ≡ settled_total x table + counted c x (drain emptied n ds table).0
unfolding drain
drain-settled_total c x emptied n [] table h p = refl
drain-settled_total c x emptied n (d ∷ ds) table (i, h) (apart, p) = elim (Bool-cases (n == 0)) [
  | inl done ↦ rw done refl
  | inr going ↦ elim (Bool-cases (leb d.amount n)) [
    | inl whole ↦
        let d' : Deposit = record d { amount = 0; state = emptied } in
        let rest =
          drain-settled_total c x emptied (n - d.amount) ds (insert d.deposit_id d' table)
            (IsDrainable-after c table d d' ds apart h) p in
        rw (going, whole) (ground (arith, rest, emptied-settled_total c x table d emptied i))
    | inr part ↦
        let d' : Deposit = record d { amount = d.amount - n } in
        rw (going, part, drain_nothing emptied ds (insert d.deposit_id d' table))
          (ground (arith, reduced-settled_total c x table d n part i))
  ]
]

drain-IsKeyed :
    (emptied : DepositState) (n : ℕ) (ds : List Deposit) (table : Dict Deposit)
    → IsKeyed table
    → IsKeyed (drain emptied n ds table).1
unfolding drain
drain-IsKeyed emptied n [] table k = k
drain-IsKeyed emptied n (d ∷ ds) table k = elim (Bool-cases (n == 0)) [
  | inl done ↦ rw done k
  | inr going ↦ elim (Bool-cases (leb d.amount n)) [
    | inl whole ↦
        rw (going, whole)
          (drain-IsKeyed emptied (n - d.amount) ds _
            (insert-IsKeyed d.deposit_id (record d { amount = 0; state = emptied }) table refl k))
    | inr part ↦
        rw (going, part)
          (drain-IsKeyed emptied 0 ds _
            (insert-IsKeyed d.deposit_id (record d { amount = d.amount - n }) table refl k))
  ]
]

All-both :
    {A : Type 0} (P Q : A → Type 0) (xs : List A) → All P xs → All Q xs → All (λ x. P x × Q x) xs
All-both P Q [] h k = tt
All-both P Q (x ∷ xs) (p, h) (q, k) = ((p, q), All-both P Q xs h k)

-- The deposits that the loop goes over are drainable and differ in their ids.
settled_deposits-IsDrainable :
    (c : String) (table : Dict Deposit)
    → IsKeyed table
    → All (IsDrainable c table) (settled_deposits c table)
      × Pairwise Differs (settled_deposits c table)
unfolding settled_deposits
settled_deposits-IsDrainable c table k =
    let p : Deposit → Bool = λ d. str_eq d.reserve_currency c && is_settled d.state in
    let found =
      rows-All (λ d. lookup d.deposit_id table ≡ some d) table k.distinct
        (λ id d h. ap (λ x. lookup x table) (k.keyed id d h) ∙ h) in
    let kept = All-keep _ p (rows table) found in
    (
      All-sort_by is_after (IsDrainable c table) (keep p (rows table)) (
          All-weaken _ (IsDrainable c table)
            (λ d both. record {
              found = both.0;
              of_currency = ground arith;
              is_settled_row = ground arith;
            })
            (keep p (rows table))
            (All-both _ _ (keep p (rows table)) kept (keep_passes p (rows table)))),
      Pairwise-sort_by is_after Differs Differs-sym (keep p (rows table))
          (Pairwise-keep Differs p (rows table) (rows-Pairwise table k.distinct k.keyed)),
    )

-- Where the loop takes the whole amount, the currency's settled reserve loses exactly the amount,
-- every other currency keeps its own, and the table stays keyed.
pub drained-settled_total :
    (c x : String) (emptied : DepositState) (n : ℕ) (table : Dict Deposit)
    → IsKeyed table
    → ((drain emptied n (settled_deposits c table) table).0 == 0) ≡ true
    → settled_total x (drain emptied n (settled_deposits c table) table).1 + counted c x n
      ≡ settled_total x table
drained-settled_total c x emptied n table k done =
    let (h, p) = settled_deposits-IsDrainable c table k in
    ground (arith, drain-settled_total c x emptied n (settled_deposits c table) table h p)

pub drained-IsKeyed :
    (c : String) (emptied : DepositState) (n : ℕ) (table : Dict Deposit)
    → IsKeyed table
    → IsKeyed (drain emptied n (settled_deposits c table) table).1
drained-IsKeyed c emptied n table k = drain-IsKeyed emptied n (settled_deposits c table) table k
