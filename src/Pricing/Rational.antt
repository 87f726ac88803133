-- ===== src/Pricing/Rational.antt =====
-- packages/fx-pricing/src/rational.js: fractions of BigInt. A fraction that `rational` has made has a
-- positive denominator, kept here as a natural number. The text forms `parseDecimal` and
-- `toDecimalString` are left out, as are arguments of a wrong type.
pub mod Lowest
pub mod Ratios
pub mod Ceiling
mod Tests
use blueballs.Prelude.{
  ℕ, zero, suc, ◌+◌, ◌-◌, ◌*◌, ◌/◌, ◌%◌, ◌^◌, Bool, true, false, List, [], ◌∷◌, length, leb, ltb,
  ◌==◌, if◌then◌else◌, Outcome, ok, err, ◌>>=◌, ◌>>◌, throw_if, require,
}
use blueballs.Prelude.Int.{ℤ, pos, negsuc, ◌+ℤ◌, ◌-ℤ◌, ◌*ℤ◌, abs, ltb_ℤ, leb_ℤ, eqb_ℤ}
use blueballs.Prelude.Sorting.{sort_by}

pub data PriceError : Type 0 where
  zero_denominator division_by_zero bps_not_positive reference_not_positive : PriceError
  ceil_div_domain price_not_positive base_decimals_invalid quote_decimals_invalid : PriceError
  median_requires_values : PriceError

pub record Rational : Type 0 where
  pub n : ℤ
  pub d : ℕ

-- The loop of `gcd` on the absolute values, for at most `fuel` turns.
unfoldable pub gcd_loop : (fuel x y : ℕ) → ℕ
gcd_loop zero x y = x
gcd_loop (suc fuel) x zero = x
gcd_loop (suc fuel) x (suc y) = gcd_loop fuel (suc y) (x % suc y)

-- The second variable decreases in every turn, so its first value and one turn more are enough.
unfoldable pub gcd : ℤ → ℤ → ℕ
unfolding gcd_loop
gcd a b = gcd_loop (suc (abs b)) (abs a) (abs b)

abbrev pub neg : ℕ → ℤ
neg zero = pos 0
neg (suc a) = negsuc a

-- `-n`
abbrev pub negate : ℤ → ℤ
negate (pos a) = neg a
negate (negsuc a) = pos (suc a)

-- `n / divisor`, which rounds towards zero.
unfoldable pub divide : ℤ → ℕ → ℤ
divide (pos a) divisor = pos (a / divisor)
divide (negsuc a) divisor = neg (suc a / divisor)

-- `rational` from the sign on.
unfoldable pub reduce : ℤ → ℕ → Rational
unfolding gcd divide
reduce n d = record { n = divide n (gcd n (pos d)); d = d / gcd n (pos d) }

unfoldable pub rational : (numerator denominator : ℤ) → Outcome PriceError Rational
unfolding reduce
rational n (pos d) = if d == 0 then err zero_denominator else ok (reduce n d)
rational n (negsuc d) = ok (reduce (negate n) (suc d))

abbrev pub add : Rational → Rational → Outcome PriceError Rational
add a b = rational (a.n *ℤ pos b.d +ℤ b.n *ℤ pos a.d) (pos (a.d * b.d))

abbrev pub sub : Rational → Rational → Outcome PriceError Rational
sub a b = rational (a.n *ℤ pos b.d -ℤ b.n *ℤ pos a.d) (pos (a.d * b.d))

unfoldable pub mul : Rational → Rational → Outcome PriceError Rational
unfolding rational
mul a b = rational (a.n *ℤ b.n) (pos (a.d * b.d))

abbrev pub div : Rational → Rational → Outcome PriceError Rational
div a b =
    if eqb_ℤ b.n (pos 0) then err division_by_zero else rational (a.n *ℤ pos b.d) (pos a.d *ℤ b.n)

abbrev pub compare : Rational → Rational → ℤ
compare a b =
    let left = a.n *ℤ pos b.d in
    let right = b.n *ℤ pos a.d in
    if ltb_ℤ left right then negsuc 0 else if ltb_ℤ right left then pos 1 else pos 0

abbrev pub absolute : Rational → Outcome PriceError Rational
absolute a = rational (pos (abs a.n)) (pos a.d)

abbrev pub midpoint : Rational → Rational → Outcome PriceError Rational
midpoint a b = do sum ← add a b; two ← rational (pos 2) (pos 1); div sum two

-- The elements at the places i - 1 and i of a sorted list, or at the place i alone.
abbrev pub middle : ℕ → (is_odd : Bool) → List Rational → Outcome PriceError Rational
middle i is_odd [] = err median_requires_values
middle zero is_odd (a ∷ xs) = ok a
middle (suc zero) true (a ∷ []) = err median_requires_values
middle (suc zero) true (a ∷ b ∷ xs) = ok b
middle (suc zero) false (a ∷ []) = err median_requires_values
middle (suc zero) false (a ∷ b ∷ xs) = midpoint a b
middle (suc (suc i)) is_odd (a ∷ xs) = middle (suc i) is_odd xs

abbrev pub is_after : Rational → Rational → Bool
is_after a b = eqb_ℤ (compare a b) (pos 1)

unfoldable pub median : List Rational → Outcome PriceError Rational
median values = middle (length values / 2) (length values % 2 == 1) (sort_by is_after values)

unfoldable pub apply_bps : Rational → ℤ → Outcome PriceError Rational
unfolding mul
apply_bps value bps = do
  throw_if (leb_ℤ bps (negsuc 9999)) bps_not_positive
  factor ← rational (pos 10000 +ℤ bps) (pos 10000)
  mul value factor

unfoldable pub deviation_within_bps : Rational → Rational → ℤ → Outcome PriceError Bool
unfolding rational
deviation_within_bps value reference max_bps = do
  throw_if (leb_ℤ reference.n (pos 0)) reference_not_positive
  apart ← sub value reference
  difference ← absolute apart
  let left = difference.n *ℤ pos reference.d *ℤ pos 10000
  let right = max_bps *ℤ pos difference.d *ℤ reference.n
  ok (leb_ℤ left right)

unfoldable pub ceil_div : (numerator denominator : ℕ) → Outcome PriceError ℕ
ceil_div n d = if d == 0 then err ceil_div_domain else ok ((n + d - 1) / d)

-- `quoteInputAtomicExactOutput`; the numerator of a positive price is its absolute value.
unfoldable pub quote_input_atomic_exact_output :
    (output_atomic : ℕ) → Rational → (base_decimals quote_decimals : ℕ) → Outcome PriceError ℕ
unfolding ceil_div
quote_input_atomic_exact_output output price base_decimals quote_decimals = do
  require (leb base_decimals 255) base_decimals_invalid
  require (leb quote_decimals 255) quote_decimals_invalid
  throw_if (leb_ℤ price.n (pos 0)) price_not_positive
  ceil_div (output * abs price.n * 10 ^ quote_decimals) (price.d * 10 ^ base_decimals)
