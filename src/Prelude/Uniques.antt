-- ===== src/Prelude/Uniques.antt =====
-- What the texts of `[...new Set(xs)]` are.
use mathlib.Core.Path.{◌≡◌, refl, ap}
use mathlib.Core.Bool.{Bool, true, false, not}
use mathlib.Core.List.{List, [], ◌∷◌}
use Prim.Native.String.{String}
use native.Mathlib.Omega.{arith}
use blueballs.Prelude.Tests.{str_eq}
use blueballs.Prelude.Lists.{All, All-keep, All-weaken, keep, keep_passes}
use blueballs.Prelude.Texts.{unique}
use blueballs.Prelude.Sorting.{Pairwise, Pairwise-keep}

abbrev pub Differ : String → String → Type 0
Differ x y = str_eq x y ≡ false

pub unique-Pairwise : (xs : List String) → Pairwise Differ (unique xs)
unfolding unique
unique-Pairwise [] = tt
unique-Pairwise (x ∷ xs) =
    let different : All (λ y. not (str_eq x y) ≡ true) _ =
      keep_passes (λ y. not (str_eq x y)) (unique xs) in
    (
      All-weaken _ (Differ x) (λ y h. ground arith) _ different,
      Pairwise-keep Differ (λ y. not (str_eq x y)) (unique xs) (unique-Pairwise xs),
    )

pub unique-All : (P : String → Type 0) (xs : List String) → All P xs → All P (unique xs)
unfolding unique
unique-All P [] h = tt
unique-All P (x ∷ xs) h =
    (h.0, All-keep P (λ y. not (str_eq x y)) (unique xs) (unique-All P xs h.1))

pub keep_passing :
    (p : String → Bool) (xs : List String) → All (λ x. p x ≡ true) xs → keep p xs ≡ xs
keep_passing p [] h = refl
keep_passing p (x ∷ xs) h = rw (h.0, keep_passing p xs h.1) refl

pub unique_different : (xs : List String) → Pairwise Differ xs → unique xs ≡ xs
unfolding unique
unique_different [] h = refl
unique_different (x ∷ xs) h = rw (unique_different xs h.1) (
    ap (λ ys. x ∷ ys)
      (keep_passing (λ y. not (str_eq x y)) xs
        (All-weaken (Differ x) _ (λ y d. ground (arith, d)) xs h.0)))
