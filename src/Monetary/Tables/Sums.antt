-- ===== src/Monetary/Tables/Sums.antt =====
-- The totals of `#currencyTotals` in packages/fx-monetary/src/index.js, where one row is written.
use blueballs.Prelude.{
  ℕ, ◌+◌, ◌≤◌, String, ◌≡◌, refl, inl, inr, Option, none, some, [], ◌∷◌, arith, str_eq, str_eq_iff,
  if◌then◌else◌, Bool-cases,
}
use blueballs.Prelude.Dict.{Dict, lookup, insert, lookup-insert, HasDistinctKeys}
use blueballs.Monetary.Tables.{
  Instrument, Deposit, Receipt, amount_or_zero, settled_part, settled_total, supply_total,
  locked_part, locked_total, expire_rows,
}

abbrev pub settled_of : String → Option Deposit → ℕ
settled_of c none = 0
settled_of c (some d) = settled_part c d

abbrev pub locked_of : String → Option Receipt → ℕ
locked_of c none = 0
locked_of c (some r) = locked_part c r

-- A written deposit counts in place of the one that stood under its id.
pub settled_total-insert :
    (c id : String) (d : Deposit) (ds : Dict Deposit)
    → settled_total c (insert id d ds) + settled_of c (lookup id ds)
      ≡ settled_total c ds + settled_part c d
unfolding settled_total lookup insert
settled_total-insert c id d [] = omega arith
settled_total-insert c id d ((j, e) ∷ ds) = elim (Bool-cases (str_eq j id)) [
  | inl same ↦ rw same (omega arith)
  | inr differs ↦ rw differs (omega (arith, settled_total-insert c id d ds))
]

pub locked_total-insert :
    (c id : String) (r : Receipt) (rs : Dict Receipt)
    → locked_total c (insert id r rs) + locked_of c (lookup id rs)
      ≡ locked_total c rs + locked_part c r
unfolding locked_total lookup insert
locked_total-insert c id r [] = omega arith
locked_total-insert c id r ((j, q) ∷ rs) = elim (Bool-cases (str_eq j id)) [
  | inl same ↦ rw same (omega arith)
  | inr differs ↦ rw differs (omega (arith, locked_total-insert c id r rs))
]

-- Expiring receipts can only free reserve.
pub locked_total-expire_rows :
    (c currency : String) (now : ℕ) (rs : Dict Receipt)
    → locked_total c (expire_rows currency now rs) ≤ locked_total c rs
unfolding locked_total expire_rows
locked_total-expire_rows c currency now [] = omega arith
locked_total-expire_rows c currency now ((id, r) ∷ rs) =
    ground (arith, locked_total-expire_rows c currency now rs)

-- What an instrument's row counts for.
abbrev pub supply_part : String → String → Dict ℕ → Option Instrument → ℕ
supply_part c code supply none = 0
supply_part c code supply (some i) =
    if str_eq i.reserve_currency c then amount_or_zero (lookup code supply) else 0

-- The supply of a code that no instrument has counts for nothing.
supply_total-other :
    (c code : String) (n : ℕ) (supply : Dict ℕ) (is : Dict Instrument)
    → lookup code is ≡ none
    → supply_total c (insert code n supply) is ≡ supply_total c supply is
unfolding supply_total lookup
supply_total-other c code n supply [] h = refl
supply_total-other c code n supply ((j, i) ∷ is) h = ground (
  arith,
  lookup-insert code j n supply,
  str_eq_iff code j,
  str_eq_iff j code,
  supply_total-other c code n supply is,
)

pub supply_total-insert :
    (c code : String) (n : ℕ) (supply : Dict ℕ) (is : Dict Instrument) (i : Instrument)
    → HasDistinctKeys is
    → lookup code is ≡ some i
    → supply_total c (insert code n supply) is + supply_part c code supply (some i)
      ≡ supply_total c supply is + (if str_eq i.reserve_currency c then n else 0)
unfolding supply_total lookup
supply_total-insert c code n supply [] i h e = cc
supply_total-insert c code n supply ((j, k) ∷ is) i (fresh, h) e =
    elim (Bool-cases (str_eq j code)) [
      | inl same ↦ ground (
        arith,
        lookup-insert code j n supply,
        str_eq_iff code j,
        str_eq_iff j code,
        supply_total-other c code n supply is,
      )
      | inr differs ↦ ground (
        arith,
        lookup-insert code j n supply,
        str_eq_iff code j,
        str_eq_iff j code,
        supply_total-insert c code n supply is i h,
      )
    ]

-- A written instrument counts in place of the one that stood under its code.
pub supply_total-insert_instrument :
    (c code : String) (i : Instrument) (supply : Dict ℕ) (is : Dict Instrument)
    → supply_total c supply (insert code i is) + supply_part c code supply (lookup code is)
      ≡ supply_total c supply is + supply_part c code supply (some i)
unfolding supply_total lookup insert
supply_total-insert_instrument c code i supply [] = omega arith
supply_total-insert_instrument c code i supply ((j, k) ∷ is) = elim (Bool-cases (str_eq j code)) [
  | inl same ↦ ground (arith, (str_eq_iff j code).0 same)
  | inr differs ↦ rw differs (omega (arith, supply_total-insert_instrument c code i supply is))
]
