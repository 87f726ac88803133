-- ===== src/Pricing/Rational/Ratios.antt =====
-- The values that `rational`, `mul` and `applyBps` of packages/fx-pricing/src/rational.js give on
-- positive fractions, without the reduction to lowest terms.
use native.Mathlib.Nat
use blueballs.Prelude.{
  ℕ, zero, suc, ◌*◌, ◌^◌, ◌<◌, ◌≤◌, ◌≡◌, refl, sym, ap, ap₂, ◌∙◌, subst, false, ok, arith, throw_if,
  >>=-eq-ok, >>-eq-ok, ok-injective, throw_if-eq-ok, require, leb,
}
use blueballs.Prelude.Int.{ℤ, pos, negsuc, ◌+ℤ◌, ◌*ℤ◌, abs, pos_part, sub_ℕ, leb_ℤ}
use blueballs.Pricing.Rational.{
  Rational, rational, reduce, mul, apply_bps, quote_input_atomic_exact_output, divide,
  bps_not_positive, base_decimals_invalid, quote_decimals_invalid, price_not_positive,
}
use blueballs.Pricing.Rational.Lowest.{reduce_value, reduce_pos, times_pos}
use blueballs.Pricing.Rational.Ceiling.{IsLeast, covers_equal, ceil_div-IsLeast}

-- A fraction with a natural numerator whose value is n / d.
abbrev pub IsRatio : Rational → ℕ → ℕ → Type 0
IsRatio r n d = (a : ℕ) × (r.n ≡ pos a) × (0 < r.d) × (a * d ≡ n * r.d)

mul_cancel : (a b k : ℕ) → 0 < k → a * k ≡ b * k → a ≡ b
mul_cancel a b k h same =
    let below : a ≤ b = Nat.le_of_mul-le-mul_right {k = k} (omega arith) h in
    let above : b ≤ a = Nat.le_of_mul-le-mul_right {k = k} (omega arith) h in omega arith

ratio_trans : (p r a b n d : ℕ) → 0 < b → p * b ≡ a * r → a * d ≡ n * b → p * d ≡ n * r
ratio_trans p r a b n d h first second = mul_cancel (p * d) (n * r) b h (
    Nat.mul_right_comm p d b
    ∙ ap (λ x. x * d) first
    ∙ Nat.mul_right_comm a r d
    ∙ ap (λ x. x * r) second
    ∙ Nat.mul_right_comm n b r)

ratio_mul :
    (a b n d f g m e : ℕ) → a * d ≡ n * b → f * e ≡ m * g → a * f * (d * e) ≡ n * m * (b * g)
ratio_mul a b n d f g m e first second =
    Nat.mul-mul-mul_comm a f d e ∙ ap₂ (λ x y. x * y) first second ∙ Nat.mul-mul-mul_comm n b m g

reduce-IsRatio : (n d : ℕ) → 0 < d → IsRatio (reduce (pos n) d) n d
unfolding reduce divide
reduce-IsRatio n d h = (_, refl, reduce_pos (pos n) d h, (reduce_value (pos n) d).0)

rational_of_pos : (n d : ℕ) → 0 < d → rational (pos n) (pos d) ≡ ok (reduce (pos n) d)
unfolding rational
rational_of_pos n d h = ground arith

pub rational-IsRatio : (n d : ℕ) {r : Rational} → rational (pos n) (pos d) ≡ ok r → IsRatio r n d
unfolding rational
rational-IsRatio n zero made = absurd (ground arith)
rational-IsRatio n (suc d) {r} made =
    subst (λ x. IsRatio x n (suc d))
      (ok-injective (sym (rational_of_pos n (suc d) (omega arith)) ∙ made))
      (reduce-IsRatio n (suc d) (omega arith))

times_of_pos : (a b : ℕ) → pos a *ℤ pos b ≡ pos (a * b)
times_of_pos a b = times_pos (pos a) b ∙ ap (sub_ℕ (a * b)) (Nat.zero-mul b) ∙ ground arith

mul-IsRatio :
    (x y : Rational) (n d m e : ℕ) {r : Rational}
    → IsRatio x n d
    → IsRatio y m e
    → mul x y ≡ ok r
    → IsRatio r (n * m) (d * e)
unfolding mul
mul-IsRatio x y n d m e {r} (a, at_a, x_pos, first) (f, at_f, y_pos, second) made =
    let plain : rational (pos (a * f)) (pos (x.d * y.d)) ≡ ok r =
      subst (λ z. rational z (pos (x.d * y.d)) ≡ ok r)
        (ap₂ (λ u v. u *ℤ v) at_a at_f ∙ times_of_pos a f) made in
    let (p, at_p, r_pos, whole) = rational-IsRatio (a * f) (x.d * y.d) plain in
    (
      p,
      at_p,
      r_pos,
      ratio_trans p r.d (a * f) (x.d * y.d) (n * m) (d * e) (Nat.mul-pos x_pos y_pos) whole
          (ratio_mul a x.d n d f y.d m e first second),
    )

-- 10000 + bps, where that is no negative number.
abbrev pub multiplier : ℤ → ℕ
multiplier bps = pos_part (pos 10000 +ℤ bps)

multiplier_pos :
    (bps : ℤ) → leb_ℤ bps (negsuc 9999) ≡ false → pos 10000 +ℤ bps ≡ pos (multiplier bps)
unfolding ◌+ℤ◌
multiplier_pos bps h = ground arith

pub apply_bps-IsRatio :
    (v : Rational) (bps : ℤ) (n d : ℕ) {r : Rational}
    → IsRatio v n d
    → apply_bps v bps ≡ ok r
    → IsRatio r (n * multiplier bps) (d * 10000)
unfolding apply_bps
apply_bps-IsRatio v bps n d {r} ratio made =
    let (passed, rest) = >>-eq-ok (throw_if (leb_ℤ bps (negsuc 9999)) bps_not_positive) _ made in
    let (factor, factored, product) =
      >>=-eq-ok (rational (pos 10000 +ℤ bps) (pos 10000)) (mul v) rest in
    let plain =
      subst (λ z. rational z (pos 10000) ≡ ok factor)
        (multiplier_pos bps (throw_if-eq-ok _ _ passed)) factored in
    mul-IsRatio v factor n d (multiplier bps) 10000 ratio
      (rational-IsRatio (multiplier bps) 10000 plain) product

pow_pos : (k : ℕ) → 0 < 10 ^ k
pow_pos k = Nat.pow-le-pow_right {n = 10} (omega arith) {i = 0} {j = k} (omega arith)

regroup : (o a q d b : ℕ) → o * a * q * (d * b) ≡ o * q * (a * d) * b
regroup o a q d b =
    ap (λ x. x * (d * b)) (Nat.mul_right_comm o a q)
    ∙ sym (Nat.mul_assoc (o * q * a) d b)
    ∙ ap (λ x. x * b) (Nat.mul_assoc (o * q) a d)

scaled_ratio : (o q b a p n d : ℕ) → a * d ≡ n * p → o * a * q * (d * b) ≡ o * n * q * (p * b)
scaled_ratio o q b a p n d same =
    regroup o a q d b ∙ ap (λ x. o * q * x * b) same ∙ sym (regroup o n q p b)

-- The input of a quote at a price whose value is n / d is the least amount that pays for the output.
pub quote_input-IsLeast :
    (output : ℕ) (price : Rational) (base quote n d : ℕ) {t : ℕ}
    → 0 < d
    → IsRatio price n d
    → quote_input_atomic_exact_output output price base quote ≡ ok t
    → IsLeast t (output * n * 10 ^ quote) (d * 10 ^ base)
unfolding quote_input_atomic_exact_output
quote_input-IsLeast output price base quote n d {t} h (a, at_a, price_pos, value) made =
    let (_, first) = >>-eq-ok (require (leb base 255) base_decimals_invalid) _ made in
    let (_, second) = >>-eq-ok (require (leb quote 255) quote_decimals_invalid) _ first in
    let (_, divided) = >>-eq-ok (throw_if (leb_ℤ price.n (pos 0)) price_not_positive) _ second in
    let unit_pos : 0 < price.d * 10 ^ base = Nat.mul-pos price_pos (pow_pos base) in
    let (t', at_t, least) =
      ceil_div-IsLeast (output * abs price.n * 10 ^ quote) (price.d * 10 ^ base) unit_pos in
    let found : t' ≡ t = ok-injective (sym at_t ∙ divided) in
    let amount : abs price.n ≡ a = ap abs at_a ∙ omega arith in
    covers_equal t (output * a * 10 ^ quote) (price.d * 10 ^ base) (output * n * 10 ^ quote)
      (d * 10 ^ base) unit_pos (Nat.mul-pos h (pow_pos base))
      (scaled_ratio output (10 ^ quote) (10 ^ base) a price.d n d value)
      (subst (λ y. IsLeast t (output * y * 10 ^ quote) (price.d * 10 ^ base)) amount
        (subst (λ u. IsLeast u (output * abs price.n * 10 ^ quote) (price.d * 10 ^ base)) found
          least))
