-- ===== src/Liquidity/Optimizer/Capacity.antt =====
-- When `planExactOutput` of packages/fx-liquidity/src/optimizer.js finds a plan.
use blueballs.Prelude.{
  ℕ, ◌+◌, ◌-◌, ◌≤◌, ◌<◌, String, ◌≡◌, refl, inl, inr, ◌⊎◌, Option, List, [], ◌∷◌, keep, arith, ltb,
  ◌==◌, Bool-cases, ok, err,
}
use native.Mathlib.Decide.{dec_le}
use blueballs.Prelude.Int.{ℤ}
use blueballs.Liquidity.Optimizer.{
  Slice, Plan, no_liquidity, amount_of, validate_slice, is_after, compare_price, insert_slice,
  sort_slices, Fill, take_from, fill, eligible_slices, plan_of, check_request, plan_exact_output,
}
use blueballs.Liquidity.Optimizer.Fills.{final_fill}

-- What a list of slices offers in all.
abbrev pub capacity_sum : List Slice → ℕ
capacity_sum [] = 0
capacity_sum (s ∷ ss) = amount_of s.max_output + capacity_sum ss

-- What the valid slices of a request offer in all.
abbrev pub valid_capacity : String → String → ℤ → List Slice → ℕ
valid_capacity input output now slices =
    capacity_sum (keep (validate_slice input output now) slices)

capacity_sum-insert_slice :
    (s : Slice) (ss : List Slice)
    → capacity_sum (insert_slice s ss) ≡ amount_of s.max_output + capacity_sum ss
unfolding insert_slice
capacity_sum-insert_slice s [] = refl
capacity_sum-insert_slice s (t ∷ ts) = elim (Bool-cases (is_after (compare_price s t))) [
  | inl e ↦ rw e (omega (arith, capacity_sum-insert_slice s ts))
  | inr e ↦ rw e
]

capacity_sum-sort_slices : (ss : List Slice) → capacity_sum (sort_slices ss) ≡ capacity_sum ss
unfolding sort_slices
capacity_sum-sort_slices [] = refl
capacity_sum-sort_slices (s ∷ ss) =
    omega (arith, capacity_sum-insert_slice s (sort_slices ss), capacity_sum-sort_slices ss)

take_from-remaining :
    (input output : String) (f : Fill) (s : Slice)
    → (take_from input output f s).remaining ≡ f.remaining - amount_of s.max_output
unfolding take_from
take_from-remaining input output f s =
    elim (Bool-cases (ltb (amount_of s.max_output) f.remaining)) [
      | inl e ↦ rw e
      | inr e ↦ rw e (ground arith)
    ]

-- What the loop leaves: the part of the remainder that the slices cannot cover.
fill-remaining :
    (input output : String) (f : Fill) (ss : List Slice)
    → (fill input output f ss).remaining ≡ f.remaining - capacity_sum ss
unfolding fill
fill-remaining input output f [] = omega arith
fill-remaining input output f (s ∷ ss) = elim (Bool-cases (f.remaining == 0)) [
  | inl e ↦ rw e (ground arith)
  | inr e ↦ rw e (
      omega (
        arith,
        fill-remaining input output (take_from input output f s) ss,
        take_from-remaining input output f s,
      ))
]

final_fill-remaining :
    (input output : String) (now : ℤ) (slices : List Slice) (desired : ℕ)
    → (final_fill input output now slices desired).remaining
      ≡ desired - valid_capacity input output now slices
unfolding eligible_slices
final_fill-remaining input output now slices desired = omega (
  arith,
  fill-remaining input output (record { remaining = desired; total_input = 0; legs = [] })
      (sort_slices (keep (validate_slice input output now) slices)),
  capacity_sum-sort_slices (keep (validate_slice input output now) slices),
)

plan_of_done :
    (input output : String) (desired : ℕ) (f : Fill)
    → f.remaining ≡ 0
    → (plan : Plan) × (plan_of input output desired f ≡ ok plan)
plan_of_done input output desired f e = (
  record {
    input_asset = input;
    output_asset = output;
    total_input = f.total_input;
    total_output = desired;
    legs = f.legs;
  },
  ground arith,
)

plan_of_short :
    (input output : String) (desired : ℕ) (f : Fill) (missing : ℕ)
    → f.remaining ≡ missing
    → 0 < missing
    → plan_of input output desired f ≡ err (no_liquidity missing)
plan_of_short input output desired f missing e h = ground arith

-- For a request that passes the planner's checks: either the valid slices offer at least the
-- desired output and a plan is returned; or they offer less, and the planner fails with
-- NO_LIQUIDITY, reporting as missing exactly the shortfall.
pub plan_exact_output_decides :
    (input output : String) (desired_output : Option ℤ) (slices : List Slice) (now : ℤ)
    → check_request input output desired_output now ≡ ok tt
    → ((amount_of desired_output ≤ valid_capacity input output now slices)
        × ((plan : Plan) × (plan_exact_output input output desired_output slices now ≡ ok plan)))
      ⊎ ((valid_capacity input output now slices < amount_of desired_output)
          × (plan_exact_output input output desired_output slices now
              ≡ err (
                  no_liquidity
                    (amount_of desired_output - valid_capacity input output now slices))))
unfolding plan_exact_output
plan_exact_output_decides input output desired_output slices now checked =
    let desired = amount_of desired_output in
    let f = final_fill input output now slices desired in
    let left = final_fill-remaining input output now slices desired in
    let missing = desired - valid_capacity input output now slices in
    rw checked (elim (dec_le desired (valid_capacity input output now slices)) [
      | yes enough ↦ inl (enough, plan_of_done input output desired f (omega arith))
      | no short ↦
          inr (omega arith, plan_of_short input output desired f missing left (omega arith))
    ])
