-- ===== src/Pricing/Rational/Tests.antt =====
-- Tests of packages/fx-pricing/src/rational.js at concrete fractions.
use blueballs.Prelude.{ℕ, ◌≡◌, refl, true, false, [], ◌∷◌, ok, err, arith}
use blueballs.Prelude.Int.{ℤ, pos, negsuc, ◌+ℤ◌, ◌-ℤ◌, ◌*ℤ◌}
use blueballs.Prelude.Sorting.{sort_by}
use blueballs.Pricing.Rational.{
  zero_denominator, bps_not_positive, Rational, rational, apply_bps, median, deviation_within_bps,
  quote_input_atomic_exact_output,
}
use blueballs.Pricing.Rational.Lowest.{IsLowest, rational-IsLowest}

abbrev ratio : ℤ → ℕ → Rational
ratio n d = record { n = n; d = d }

sign_and_terms : rational (pos 6) (negsuc 3) ≡ ok (ratio (negsuc 2) 2)
unfolding rational
sign_and_terms = refl

no_denominator : rational (pos 6) (pos 0) ≡ err zero_denominator
unfolding rational
no_denominator = refl

five_points : apply_bps (ratio (pos 11) 10) (pos 5) ≡ ok (ratio (pos 22011) 20000)
unfolding apply_bps ◌+ℤ◌ ◌*ℤ◌
five_points = refl

all_points : apply_bps (ratio (pos 11) 10) (negsuc 9999) ≡ err bps_not_positive
unfolding apply_bps
all_points = refl

median_of_four :
    median (ratio (pos 3) 1 ∷ ratio (pos 1) 2 ∷ ratio (pos 2) 1 ∷ ratio (pos 1) 1 ∷ [])
    ≡ ok (ratio (pos 3) 2)
unfolding median sort_by ◌*ℤ◌ ◌+ℤ◌ rational
median_of_four = refl

median_of_three :
    median (ratio (pos 3) 1 ∷ ratio (pos 1) 2 ∷ ratio (pos 2) 1 ∷ []) ≡ ok (ratio (pos 2) 1)
unfolding median sort_by ◌*ℤ◌ ◌+ℤ◌ rational
median_of_three = refl

near : deviation_within_bps (ratio (pos 101) 100) (ratio (pos 1) 1) (pos 100) ≡ ok true
unfolding deviation_within_bps ◌*ℤ◌ ◌-ℤ◌ rational
near = refl

far : deviation_within_bps (ratio (pos 99) 100) (ratio (pos 1) 1) (pos 99) ≡ ok false
unfolding deviation_within_bps ◌*ℤ◌ ◌-ℤ◌ rational
far = refl

rounds_up : quote_input_atomic_exact_output 1000001 (ratio (pos 22011) 20000) 6 6 ≡ ok 1100552
unfolding quote_input_atomic_exact_output
rounds_up = refl

rational-IsLowest_example :
    (r : Rational) × (rational (pos 6) (negsuc 3) ≡ ok r) × IsLowest (pos 6) (negsuc 3) r
rational-IsLowest_example = rational-IsLowest (pos 6) (negsuc 3) (omega arith)
