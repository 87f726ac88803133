-- ===== src/Pricing/Rational/Ceiling.antt =====
-- `ceilDiv` and `quoteInputAtomicExactOutput` of packages/fx-pricing/src/rational.js: the least amount
-- that covers a quotient.
use native.Mathlib.Nat
use blueballs.Prelude.{ℕ, ◌+◌, ◌-◌, ◌*◌, ◌/◌, ◌≤◌, ◌<◌, ◌≡◌, sym, ap, ap₂, ◌∙◌, subst, ok, arith}
use blueballs.Pricing.Rational.{ceil_div}

-- t is the least number with demand ≤ t · unit.
abbrev pub IsLeast : (t demand unit : ℕ) → Type 0
IsLeast t demand unit = (demand ≤ t * unit) × ((s : ℕ) → demand ≤ s * unit → t ≤ s)

ceil_covers : (n d : ℕ) → 0 < d → n ≤ (n + d - 1) / d * d
ceil_covers n d h = omega arith
  where
    q : ℕ
    q = (n + d - 1) / d

    below : n + d - 1 < d * (q + 1)
    below = Nat.lt-mul-div-succ (n + d - 1) h

    spread : d * (q + 1) ≡ q * d + d
    spread = Nat.mul-add d q 1 ∙ ap₂ (λ x y. x + y) (Nat.mul_comm d q) (Nat.mul-one d)

ceil_least : (n d s : ℕ) → 0 < d → n ≤ s * d → (n + d - 1) / d ≤ s
ceil_least n d s h covers =
    let below : (n + d - 1) / d < s + 1 = (Nat.div-lt_iff_lt-mul h).1 within in omega arith
  where
    spread : (s + 1) * d ≡ s * d + d
    spread = Nat.add-mul s 1 d ∙ ap (λ x. s * d + x) (Nat.one-mul d)

    within : n + d - 1 < (s + 1) * d
    within = omega arith

pub ceil_div-IsLeast : (n d : ℕ) → 0 < d → (t : ℕ) × (ceil_div n d ≡ ok t) × IsLeast t n d
unfolding ceil_div
ceil_div-IsLeast n d h =
    ((n + d - 1) / d, ground arith, (ceil_covers n d h, λ s. ceil_least n d s h))

-- The least number that covers one quotient covers an equal one.
pub covers_equal :
    (t demand unit demand' unit' : ℕ)
    → 0 < unit
    → 0 < unit'
    → demand * unit' ≡ demand' * unit
    → IsLeast t demand unit
    → IsLeast t demand' unit'
covers_equal t demand unit demand' unit' h h' same (covers, least) = (
  Nat.le_of_mul-le-mul_right {k = unit} scaled_back h,
  λ s covers'. least s (Nat.le_of_mul-le-mul_right {k = unit'} (scaled s covers') h'),
)
  where
    scaled_back : demand' * unit ≤ t * unit' * unit
    scaled_back =
        subst (λ x. x ≤ t * unit' * unit) same
          (subst (λ x. demand * unit' ≤ x) (Nat.mul_right_comm t unit unit')
            (Nat.mul-le-mul_right unit' covers))

    scaled : (s : ℕ) → demand' ≤ s * unit' → demand * unit' ≤ s * unit * unit'
    scaled s covers' =
        subst (λ x. x ≤ s * unit * unit') (sym same)
          (subst (λ x. demand' * unit ≤ x) (Nat.mul_right_comm s unit' unit)
            (Nat.mul-le-mul_right unit covers'))
