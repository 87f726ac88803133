-- ===== src/Liquidity/Optimizer/Fills.antt =====
-- The loop of `planExactOutput` in packages/fx-liquidity/src/optimizer.js and the legs of its plans.
use blueballs.Prelude.{
  ℕ, ◌+◌, ◌-◌, ◌*◌, ◌≤◌, ◌<◌, String, true, ◌≡◌, refl, Option, List, [], ◌∷◌, ◌++◌, keep, All,
  throw_if, require-eq-ok, is_empty, str_eq, not, ◌||◌, All-append, arith, ltb, ◌==◌, Bool-cases,
  inl, inr, if◌then◌else◌, ok, >>-eq-ok,
}
use blueballs.Prelude.Int.{ℤ, pos, ltb_ℤ}
use blueballs.Liquidity.Optimizer.{
  input_asset_required, output_asset_required, assets_equal, now_invalid, desired_invalid,
  is_positive, is_safe_integer, Slice, Leg, Plan, amount_of, validate_slice, ceil_div, Fill, leg_of,
  take_from, fill, eligible_slices, empty_fill, plan_of, check_request, plan_exact_output,
}
use blueballs.Liquidity.Optimizer.Legs.{
  is_positive_pos, output_sum, input_sum, output_sum-append, input_sum-append, sort_slices-All,
  Draws, ceil_div_bounds, validate_slice_positive,
}

-- The loop's invariant, for slices that satisfy `P`: what is left and what the legs deliver make up
-- the desired output, the input is that of the legs, and each leg draws on a slice with `P`.
pub record IsFilling (P : Slice → Type 0) (input output : String) (now : ℤ) (desired : ℕ) (f : Fill)
    : Type 0 where
  pub outputs : f.remaining + output_sum f.legs ≡ desired
  pub inputs : f.total_input ≡ input_sum f.legs
  pub draws : All (λ l. (s : Slice) × P s × Draws input output now s l) f.legs

module _ (P : Slice → Type 0) (input output : String) (now : ℤ) (desired : ℕ) where
  leg_of-Draws :
      (s : Slice) (out : ℕ)
      → validate_slice input output now s ≡ true
      → 0 < out
      → out ≤ amount_of s.max_output
      → Draws input output now s (
          leg_of input output s
            (ceil_div (out * amount_of s.input_numerator) (amount_of s.input_denominator))
            out)
  unfolding leg_of
  leg_of-Draws s out valid some_out within =
      let (_, den) = validate_slice_positive input output now s valid in
      let (low, high) = ceil_div_bounds (out * amount_of s.input_numerator) _ den in
      record {
        eligible = valid;
        some_output = some_out;
        within_capacity = within;
        pays = low;
        pays_no_more = high;
        same_source = refl;
        same_slice = refl;
        same_authorization = refl;
      }

  -- The output that one round takes.
  abbrev taken : ℕ → ℕ → ℕ
  taken capacity remaining = if ltb capacity remaining then capacity else remaining

  taken_bounds :
      (capacity remaining : ℕ)
      → 0 < capacity
      → 0 < remaining
      → (0 < taken capacity remaining)
        × (taken capacity remaining ≤ capacity)
        × (taken capacity remaining ≤ remaining)
  taken_bounds capacity remaining h k = ground arith

  add_leg-IsFilling :
      (f : Fill) (l : Leg)
      → IsFilling P input output now desired f
      → l.output_amount ≤ f.remaining
      → (s : Slice) × P s × Draws input output now s l
      → IsFilling P input output now desired (record {
        remaining = f.remaining - l.output_amount;
        total_input = f.total_input + l.input_amount;
        legs = f.legs ++ l ∷ [];
      })
  add_leg-IsFilling f l i enough draws = record {
    outputs = omega (arith, output_sum-append f.legs (l ∷ []), i.outputs);
    inputs = omega (arith, input_sum-append f.legs (l ∷ []), i.inputs);
    draws = All-append _ f.legs (l ∷ []) i.draws (draws, tt);
  }

  take_from-IsFilling :
      (f : Fill) (s : Slice)
      → IsFilling P input output now desired f
      → P s
      → validate_slice input output now s ≡ true
      → 0 < f.remaining
      → IsFilling P input output now desired (take_from input output f s)
  unfolding take_from
  take_from-IsFilling f s i p valid left =
      let out = taken (amount_of s.max_output) f.remaining in
      let (offers, _) = validate_slice_positive input output now s valid in
      let (some_out, within, enough) =
        taken_bounds (amount_of s.max_output) f.remaining offers left in
      let paid = ceil_div (out * amount_of s.input_numerator) (amount_of s.input_denominator) in
      add_leg-IsFilling f (leg_of input output s paid out) i enough
        (s, p, leg_of-Draws s out valid some_out within)

  fill-IsFilling :
      (f : Fill) (ss : List Slice)
      → IsFilling P input output now desired f
      → All (λ s. P s × (validate_slice input output now s ≡ true)) ss
      → IsFilling P input output now desired (fill input output f ss)
  unfolding fill
  fill-IsFilling f [] i h = i
  fill-IsFilling f (s ∷ ss) i ((p, valid), h) = elim (Bool-cases (f.remaining == 0)) [
    | inl done ↦ rw done i
    | inr more ↦ rw more (
        fill-IsFilling (take_from input output f s) ss
          (take_from-IsFilling f s i p valid (ground arith)) h)
  ]

keep_valid-All :
    (P : Slice → Type 0) (input output : String) (now : ℤ) (ss : List Slice)
    → All P ss
    → All
        (λ s. P s × (validate_slice input output now s ≡ true))
        (keep (validate_slice input output now) ss)
keep_valid-All P input output now [] h = tt
keep_valid-All P input output now (s ∷ ss) (p, h) =
    elim (Bool-cases (validate_slice input output now s)) [
      | inl valid ↦ rw valid ((p, valid), keep_valid-All P input output now ss h)
      | inr other ↦ rw other (keep_valid-All P input output now ss h)
    ]

pub eligible_slices-All :
    (P : Slice → Type 0) (input output : String) (now : ℤ) (ss : List Slice)
    → All P ss
    → All
        (λ s. P s × (validate_slice input output now s ≡ true))
        (eligible_slices input output now ss)
unfolding eligible_slices
eligible_slices-All P input output now ss h =
    sort_slices-All _ (keep (validate_slice input output now) ss)
      (keep_valid-All P input output now ss h)

-- The loop over the eligible slices, from the empty fill.
abbrev pub final_fill : String → String → ℤ → List Slice → ℕ → Fill
final_fill input output now slices desired =
    fill input output (empty_fill desired) (eligible_slices input output now slices)

pub final_fill-IsFilling :
    (P : Slice → Type 0) (input output : String) (now : ℤ) (slices : List Slice) (desired : ℕ)
    → All P slices
    → IsFilling P input output now desired (final_fill input output now slices desired)
final_fill-IsFilling P input output now slices desired h =
    fill-IsFilling P input output now desired (empty_fill desired)
      (eligible_slices input output now slices)
      (record { outputs = omega arith; inputs = refl; draws = tt })
      (eligible_slices-All P input output now slices h)

-- Every check before the loop passed, where a plan is returned.
pub plan_exact_output-eq-ok :
    (input output : String) (desired_output : Option ℤ) (slices : List Slice) (now : ℤ)
    {plan : Plan}
    → plan_exact_output input output desired_output slices now ≡ ok plan
    → let desired = amount_of desired_output in
      plan_of input output desired (final_fill input output now slices desired) ≡ ok plan
unfolding plan_exact_output
plan_exact_output-eq-ok input output desired_output slices now h =
    (>>-eq-ok (check_request input output desired_output now) _ h).1

plan_exact_output-positive :
    (input output : String) (desired_output : Option ℤ) (slices : List Slice) (now : ℤ)
    {plan : Plan}
    → plan_exact_output input output desired_output slices now ≡ ok plan
    → 0 < amount_of desired_output
unfolding plan_exact_output check_request
plan_exact_output-positive input output desired_output slices now h =
    let (checked, _) = >>-eq-ok (check_request input output desired_output now) _ h in
    let (_, d1) = >>-eq-ok (throw_if (is_empty input) input_asset_required) _ checked in
    let (_, d2) = >>-eq-ok (throw_if (is_empty output) output_asset_required) _ d1 in
    let (_, d3) = >>-eq-ok (throw_if (str_eq input output) assets_equal) _ d2 in
    let (_, d4) =
      >>-eq-ok (throw_if (not (is_safe_integer now) || ltb_ℤ now (pos 0)) now_invalid) _ d3 in
    is_positive_pos desired_output (require-eq-ok (is_positive desired_output) desired_invalid d4)

plan_of-IsFilling :
    (P : Slice → Type 0) (input output : String) (now : ℤ) (desired : ℕ) (f : Fill) {plan : Plan}
    → IsFilling P input output now desired f
    → plan_of input output desired f ≡ ok plan
    → (f.remaining ≡ 0)
      × (plan.total_output ≡ desired)
      × (plan.total_input ≡ f.total_input)
      × (plan.legs ≡ f.legs)
plan_of-IsFilling P input output now desired f i e = ground arith

-- A plan that is returned delivers exactly the output that was asked for, which is positive, its
-- legs add up to its two totals, and every leg draws on one of the given slices within the terms
-- of that slice (`Draws`), of which `P` stands for any property that the given slices share.
pub plan_exact_output-IsExact :
    (P : Slice → Type 0) (input output : String) (desired_output : Option ℤ) (slices : List Slice)
    (now : ℤ) {plan : Plan}
    → All P slices
    → plan_exact_output input output desired_output slices now ≡ ok plan
    → (0 < plan.total_output)
      × (plan.total_output ≡ amount_of desired_output)
      × (output_sum plan.legs ≡ plan.total_output)
      × (input_sum plan.legs ≡ plan.total_input)
      × All (λ l. (s : Slice) × P s × Draws input output now s l) plan.legs
plan_exact_output-IsExact P input output desired_output slices now {plan} h e =
    let desired = amount_of desired_output in
    let f = final_fill input output now slices desired in
    let i = final_fill-IsFilling P input output now slices desired h in
    let returned = plan_exact_output-eq-ok input output desired_output slices now e in
    let (done, out, paid, legs) = plan_of-IsFilling P input output now desired f i returned in
    (
      rw out (plan_exact_output-positive input output desired_output slices now e),
      out,
      rw legs (omega (arith, i.outputs, done, out)),
      rw legs (omega (arith, i.inputs, paid)),
      rw legs i.draws,
    )
