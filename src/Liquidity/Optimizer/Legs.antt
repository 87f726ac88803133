-- ===== src/Liquidity/Optimizer/Legs.antt =====
-- The fills of packages/fx-liquidity/src/optimizer.js one by one: what one draws of a slice.
use blueballs.Prelude.{
  ℕ, ◌+◌, ◌-◌, ◌*◌, ◌≤◌, ◌<◌, String, true, ◌≡◌, Option, List, [], ◌∷◌, ◌++◌, All, arith,
  Bool-cases, inl, inr,
}
use native.Mathlib.Nat.{div-add-mod, mod-lt}
use blueballs.Prelude.Int.{ℤ}
use blueballs.Liquidity.Optimizer.{
  Slice, Leg, is_positive, amount_of, validate_slice, is_after, compare_price, insert_slice,
  sort_slices, ceil_div,
}

abbrev pub output_sum : List Leg → ℕ
output_sum [] = 0
output_sum (l ∷ ls) = l.output_amount + output_sum ls

abbrev pub input_sum : List Leg → ℕ
input_sum [] = 0
input_sum (l ∷ ls) = l.input_amount + input_sum ls

pub output_sum-append : (xs ys : List Leg) → output_sum (xs ++ ys) ≡ output_sum xs + output_sum ys
output_sum-append [] ys = omega arith
output_sum-append (l ∷ xs) ys = omega (arith, output_sum-append xs ys)

pub input_sum-append : (xs ys : List Leg) → input_sum (xs ++ ys) ≡ input_sum xs + input_sum ys
input_sum-append [] ys = omega arith
input_sum-append (l ∷ xs) ys = omega (arith, input_sum-append xs ys)

-- A predicate holds of every slice that the planner considers if it holds of every slice given.
module _ (P : Slice → Type 0) where
  insert_slice-All : (s : Slice) (ss : List Slice) → P s → All P ss → All P (insert_slice s ss)
  unfolding insert_slice
  insert_slice-All s [] p h = (p, tt)
  insert_slice-All s (t ∷ ts) p h = elim (Bool-cases (is_after (compare_price s t))) [
    | inl e ↦ rw e (h.0, insert_slice-All s ts p h.1)
    | inr e ↦ rw e (p, h)
  ]

  pub sort_slices-All : (ss : List Slice) → All P ss → All P (sort_slices ss)
  unfolding sort_slices
  sort_slices-All [] h = tt
  sort_slices-All (s ∷ ss) h = insert_slice-All s (sort_slices ss) h.0 (sort_slices-All ss h.1)

-- A leg against the slice that it draws on: the slice is eligible for this plan, the leg draws
-- more than nothing and no more than the slice offers, and pays the slice's price rounded up to
-- the next unit.
pub record Draws (input output : String) (now : ℤ) (s : Slice) (l : Leg) : Type 0 where
  pub eligible : validate_slice input output now s ≡ true
  pub some_output : 0 < l.output_amount
  pub within_capacity : l.output_amount ≤ amount_of s.max_output
  pub pays :
      l.output_amount * amount_of s.input_numerator ≤ l.input_amount * amount_of s.input_denominator
  pub pays_no_more :
      l.input_amount * amount_of s.input_denominator
      < l.output_amount * amount_of s.input_numerator + amount_of s.input_denominator
  pub same_source : l.source_id ≡ s.source_id
  pub same_slice : l.slice_id ≡ s.slice_id
  pub same_authorization : l.policy_authorization_id ≡ s.policy_authorization_id

pub ceil_div_bounds : (n d : ℕ) → 0 < d → (n ≤ ceil_div n d * d) × (ceil_div n d * d < n + d)
unfolding ceil_div
ceil_div_bounds n d h =
    (grind (arith, div-add-mod (n + d - 1) d, mod-lt), grind (arith, div-add-mod (n + d - 1) d))

pub is_positive_pos : (o : Option ℤ) → is_positive o ≡ true → 0 < amount_of o
is_positive_pos o h = ground arith

pub validate_slice_positive :
    (input output : String) (now : ℤ) (s : Slice)
    → validate_slice input output now s ≡ true
    → (0 < amount_of s.max_output) × (0 < amount_of s.input_denominator)
unfolding validate_slice
validate_slice_positive input output now s h = (
  is_positive_pos s.max_output (ground arith),
  is_positive_pos s.input_denominator (ground arith),
)
