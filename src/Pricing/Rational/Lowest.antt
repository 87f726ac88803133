-- ===== src/Pricing/Rational/Lowest.antt =====
-- `gcd` and `rational` of packages/fx-pricing/src/rational.js: the greatest common divisor and the
-- lowest terms.
use Prim.Native.Nat.{◌∣◌}
use native.Mathlib.Nat
use blueballs.Prelude.{
  ℕ, zero, suc, ◌*◌, ◌/◌, ◌%◌, ◌<◌, ◌≡◌, refl, sym, ap, ap₂, ◌∙◌, subst, ok, arith,
}
use blueballs.Prelude.Int.{ℤ, pos, negsuc, ◌*ℤ◌, abs, pos_part, neg_part, sub_ℕ}
use blueballs.Pricing.Rational.{Rational, gcd_loop, gcd, neg, negate, divide, reduce, rational}

abbrev pub IsGcd : ℕ → ℕ → ℕ → Type 0
IsGcd g a b = (g ∣ a) × (g ∣ b) × ((k : ℕ) → k ∣ a → k ∣ b → k ∣ g)

gcd_loop-IsGcd : (fuel x y : ℕ) → y < fuel → IsGcd (gcd_loop fuel x y) x y
unfolding gcd_loop
gcd_loop-IsGcd zero x y enough = absurd (omega arith)
gcd_loop-IsGcd (suc fuel) x zero enough = (Nat.dvd_refl x, Nat.dvd-zero x, λ k to_x to_y. to_x)
gcd_loop-IsGcd (suc fuel) x (suc y) enough =
    let (to_y, to_rest, greatest) = gcd_loop-IsGcd fuel (suc y) (x % suc y) (omega arith) in
    (
      (Nat.dvd-mod_iff _ to_y).0 to_rest,
      to_y,
      λ k k_x k_y. greatest k k_y ((Nat.dvd-mod_iff k k_y).1 k_x),
    )

pub gcd-IsGcd : (a b : ℤ) → IsGcd (gcd a b) (abs a) (abs b)
unfolding gcd
gcd-IsGcd a b = gcd_loop-IsGcd (suc (abs b)) (abs a) (abs b) (omega arith)

-- Quotients by a common divisor cross over.
cross : (g a b : ℕ) → g ∣ a → g ∣ b → a / g * b ≡ a * (b / g)
cross g a b to_a to_b =
    ap (λ m. a / g * m) (sym (Nat.div-mul_cancel g to_b))
    ∙ sym (Nat.mul_assoc (a / g) (b / g) g)
    ∙ Nat.mul_right_comm (a / g) (b / g) g
    ∙ ap (λ m. m * (b / g)) (Nat.div-mul_cancel g to_a)

div_pos : (g b : ℕ) → g ∣ b → 0 < b → 0 < b / g
div_pos g b to_b h =
    Nat.pos_of_dvd_of_pos
      (subst (λ m. b / g ∣ m) (Nat.div-mul_cancel g to_b) (Nat.dvd-mul_right (b / g) g)) h

neg_parts : (a : ℕ) → (pos_part (neg a) ≡ 0) × (neg_part (neg a) ≡ a)
neg_parts zero = (refl, refl)
neg_parts (suc a) = (refl, refl)

divide_parts :
    (n : ℤ) (g : ℕ)
    → (pos_part (divide n g) ≡ pos_part n / g) × (neg_part (divide n g) ≡ neg_part n / g)
unfolding divide
divide_parts (pos a) g = (refl, sym (Nat.zero-div g))
divide_parts (negsuc a) g =
    ((neg_parts (suc a / g)).0 ∙ sym (Nat.zero-div g), (neg_parts (suc a / g)).1)

to_parts : (g : ℕ) (n : ℤ) → g ∣ abs n → (g ∣ pos_part n) × (g ∣ neg_part n)
to_parts g (pos a) h = (subst (λ m. g ∣ m) (omega arith) h, Nat.dvd-zero g)
to_parts g (negsuc a) h = (Nat.dvd-zero g, subst (λ m. g ∣ m) (omega arith) h)

abs-divide : (n : ℤ) (g : ℕ) → abs (divide n g) ≡ abs n / g
unfolding divide
abs-divide (pos a) g = simp Nat.add-zero
abs-divide (negsuc a) g = simp ((neg_parts (suc a / g)).0, (neg_parts (suc a / g)).1, Nat.zero-add)

common : (n : ℤ) (d : ℕ) → IsGcd (gcd n (pos d)) (abs n) d
common n d = subst (λ m. IsGcd (gcd n (pos d)) (abs n) m) (omega arith) (gcd-IsGcd n (pos d))

-- The value of `reduce` is n / d, its denominator is positive, and only one divides both parts.
abbrev pub IsLowest : ℤ → ℤ → Rational → Type 0
IsLowest n d r = (r.n *ℤ d ≡ n *ℤ pos r.d) × (0 < r.d) × ((k : ℕ) → k ∣ abs r.n → k ∣ r.d → k ≡ 1)

reduce_coprime :
    (n : ℤ) (d : ℕ) → 0 < d → (k : ℕ) → k ∣ abs (reduce n d).n → k ∣ (reduce n d).d → k ≡ 1
unfolding reduce
reduce_coprime n d h k to_n to_d = Nat.eq-one_of_dvd-one (
    Nat.dvd_of_mul-dvd-mul_right k g_pos (
      subst (λ m. k * g ∣ m) (sym (Nat.one-mul g))
        (all_g.2 (k * g) (scaled (abs n) all_g.0 (subst (λ m. k ∣ m) (abs-divide n g) to_n))
          (scaled d all_g.1 to_d))))
  where
    g : ℕ
    g = gcd n (pos d)

    all_g : IsGcd g (abs n) d
    all_g = common n d

    g_pos : 0 < g
    g_pos = Nat.pos_of_dvd_of_pos all_g.1 h

    scaled : (a : ℕ) → g ∣ a → k ∣ a / g → k * g ∣ a
    scaled a to_a to_q =
        subst (λ m. k * g ∣ m) (Nat.div-mul_cancel g to_a) (Nat.mul-dvd-mul_right k to_q g)

pub reduce_value :
    (n : ℤ) (d : ℕ)
    → (pos_part (reduce n d).n * d ≡ pos_part n * (reduce n d).d)
      × (neg_part (reduce n d).n * d ≡ neg_part n * (reduce n d).d)
unfolding reduce
reduce_value n d =
    let g = gcd n (pos d) in
    let (to_n, to_d, _) = common n d in
    let (to_pos, to_neg) = to_parts g n to_n in
    (
      ap (λ m. m * d) (divide_parts n g).0 ∙ cross g (pos_part n) d to_pos to_d,
      ap (λ m. m * d) (divide_parts n g).1 ∙ cross g (neg_part n) d to_neg to_d,
    )

pub reduce_pos : (n : ℤ) (d : ℕ) → 0 < d → 0 < (reduce n d).d
unfolding reduce
reduce_pos n d h = div_pos (gcd n (pos d)) d (common n d).1 h

negate_parts : (n : ℤ) → (pos_part (negate n) ≡ neg_part n) × (neg_part (negate n) ≡ pos_part n)
negate_parts (pos a) = neg_parts a
negate_parts (negsuc a) = (refl, refl)

pub times_pos : (a : ℤ) (d : ℕ) → a *ℤ pos d ≡ sub_ℕ (pos_part a * d) (neg_part a * d)
unfolding ◌*ℤ◌
times_pos a d = simp (Nat.mul-zero, Nat.add-zero, Nat.zero-add)

times_negsuc : (a : ℤ) (d : ℕ) → a *ℤ negsuc d ≡ sub_ℕ (neg_part a * suc d) (pos_part a * suc d)
unfolding ◌*ℤ◌
times_negsuc a d = simp (Nat.mul-zero, Nat.add-zero, Nat.zero-add)

-- For a denominator that is not zero, `rational` returns a fraction in lowest terms: its value is the
-- given one (cross products, signs included), its denominator is positive, and no number but one
-- divides both of its parts.
pub rational-IsLowest :
    (n d : ℤ) → 0 < abs d → (r : Rational) × (rational n d ≡ ok r) × IsLowest n d r
unfolding rational
rational-IsLowest n (pos d) h =
    let positive : 0 < d = omega arith in
    let value = reduce_value n d in
    (
      reduce n d,
      ground arith,
      (
        times_pos _ d ∙ ap₂ sub_ℕ value.0 value.1 ∙ sym (times_pos n _),
        reduce_pos n d positive,
        reduce_coprime n d positive,
      ),
    )
rational-IsLowest n (negsuc d) h =
    let positive : 0 < suc d = omega arith in
    let value = reduce_value (negate n) (suc d) in
    let (on_pos, on_neg) = negate_parts n in
    (
      reduce (negate n) (suc d),
      refl,
      (
        times_negsuc _ d
            ∙ ap₂ sub_ℕ (value.1 ∙ ap (λ m. m * (reduce (negate n) (suc d)).d) on_neg)
                (value.0 ∙ ap (λ m. m * (reduce (negate n) (suc d)).d) on_pos)
            ∙ sym (times_pos n _),
        reduce_pos (negate n) (suc d) positive,
        reduce_coprime (negate n) (suc d) positive,
      ),
    )
