-- ===== src/Prelude/Sorting.antt =====
-- `xs.sort(compare)`, which is stable, and `ORDER BY`: an insertion sort, with what it keeps. `after x y`
-- says that x belongs behind y.
use Prim.Native.Nat.{ℕ, zero, suc}
use mathlib.Core.Path.{◌≡◌}
use mathlib.Core.Bool.{Bool, true, false}
use mathlib.Core.Logic.{◌⊎◌, inl, inr}
use mathlib.Core.List.{List, [], ◌∷◌}
use blueballs.Prelude.Tests.{if◌then◌else◌, Bool-cases}
use blueballs.Prelude.Lists.{All, All-weaken, All-take, All-keep, keep, Among, All-Among, take}

module _ {ℓ κ} {A : Type ℓ} (R : A → A → Type κ) where
  -- Every element stands in the relation to each later one.
  abbrev pub Pairwise : List A → Type κ
  Pairwise [] = Unit
  Pairwise (x ∷ xs) = All (R x) xs × Pairwise xs

module _ {ℓ} {A : Type ℓ} (after : A → A → Bool) where
  unfoldable pub insert_by : A → List A → List A
  insert_by x [] = x ∷ []
  insert_by x (y ∷ ys) = if after x y then y ∷ insert_by x ys else x ∷ y ∷ ys

  unfoldable pub sort_by : List A → List A
  unfolding insert_by
  sort_by [] = []
  sort_by (x ∷ xs) = insert_by x (sort_by xs)

  pub All-insert_by {κ} :
      (P : A → Type κ) (x : A) (xs : List A) → P x → All P xs → All P (insert_by x xs)
  unfolding insert_by
  All-insert_by P x [] p h = (p, tt)
  All-insert_by P x (y ∷ ys) p h = elim (Bool-cases (after x y)) [
    | inl behind ↦ rw behind (h.0, All-insert_by P x ys p h.1)
    | inr before ↦ rw before (p, h)
  ]

  pub All-sort_by {κ} : (P : A → Type κ) (xs : List A) → All P xs → All P (sort_by xs)
  unfolding sort_by
  All-sort_by P [] h = tt
  All-sort_by P (x ∷ xs) h = All-insert_by P x (sort_by xs) h.0 (All-sort_by P xs h.1)

module _ {A : Type 0} (after : A → A → Bool) where
  Among-insert_by : (z x : A) (xs : List A) → (z ≡ x) ⊎ Among z xs → Among z (insert_by after x xs)
  unfolding insert_by
  Among-insert_by z x [] m = m
  Among-insert_by z x (y ∷ ys) m = elim (Bool-cases (after x y)) [
    | inl behind ↦ rw behind (elim m [
      | inl new ↦ inr (Among-insert_by z x ys (inl new))
      | inr old ↦ elim old [
        | inl here ↦ inl here
        | inr later ↦ inr (Among-insert_by z x ys (inr later))
      ]
    ])
    | inr before ↦ rw before m
  ]

  -- Sorting loses no element.
  pub Among-sort_by : (z : A) (xs : List A) → Among z xs → Among z (sort_by after xs)
  unfolding sort_by
  Among-sort_by z [] m = m
  Among-sort_by z (x ∷ xs) (inl here) = Among-insert_by z x (sort_by after xs) (inl here)
  Among-sort_by z (x ∷ xs) (inr later) =
      Among-insert_by z x (sort_by after xs) (inr (Among-sort_by z xs later))

module _ {κ} {A : Type 0} (R : A → A → Type κ) where
  -- An element of an ordered list is one of the first `n`, or all of these stand in front of it.
  pub Among-take :
      (n : ℕ) (x : A) (xs : List A)
      → Pairwise R xs
      → Among x xs
      → Among x (take n xs) ⊎ All (λ r. R r x) (take n xs)
  Among-take zero x xs p m = inr tt
  Among-take (suc n) x [] p m = inl m
  Among-take (suc n) x (y ∷ ys) p (inl here) = inl (inl here)
  Among-take (suc n) x (y ∷ ys) p (inr later) = elim (Among-take n x ys p.1 later) [
    | inl kept ↦ inl (inr kept)
    | inr ahead ↦ inr (All-Among (R y) x ys p.0 later, ahead)
  ]

  pub Pairwise-keep : (p : A → Bool) (xs : List A) → Pairwise R xs → Pairwise R (keep p xs)
  Pairwise-keep p [] h = tt
  Pairwise-keep p (x ∷ xs) h = elim (Bool-cases (p x)) [
    | inl kept ↦ rw kept (All-keep (R x) p xs h.0, Pairwise-keep p xs h.1)
    | inr dropped ↦ rw dropped (Pairwise-keep p xs h.1)
  ]

  pub Pairwise-take : (n : ℕ) (xs : List A) → Pairwise R xs → Pairwise R (take n xs)
  Pairwise-take zero xs p = tt
  Pairwise-take (suc n) [] p = tt
  Pairwise-take (suc n) (x ∷ xs) p = (All-take (R x) n xs p.0, Pairwise-take n xs p.1)

module _ {ℓ κ} {A : Type ℓ} (after : A → A → Bool) (R : A → A → Type κ) where
  -- A symmetric relation between all elements does not depend on their order.
  pub Pairwise-insert_by :
      (sym_R : (x y : A) → R x y → R y x) (x : A) (xs : List A)
      → All (R x) xs
      → Pairwise R xs
      → Pairwise R (insert_by after x xs)
  unfolding insert_by
  Pairwise-insert_by sym_R x [] h p = (tt, tt)
  Pairwise-insert_by sym_R x (y ∷ ys) h p = elim (Bool-cases (after x y)) [
    | inl behind ↦
        rw behind (
          All-insert_by after (R y) x ys (sym_R x y h.0) p.0,
          Pairwise-insert_by sym_R x ys h.1 p.1,
        )
    | inr before ↦ rw before (h, p)
  ]

  pub Pairwise-sort_by :
      (sym_R : (x y : A) → R x y → R y x) (xs : List A)
      → Pairwise R xs
      → Pairwise R (sort_by after xs)
  unfolding sort_by
  Pairwise-sort_by sym_R [] p = tt
  Pairwise-sort_by sym_R (x ∷ xs) p =
      Pairwise-insert_by sym_R x (sort_by after xs) (All-sort_by after (R x) xs p.0)
        (Pairwise-sort_by sym_R xs p.1)

  -- Where the test decides an order, the result is in that order.
  insert_by-IsSorted :
      (ahead : (x y : A) → after x y ≡ false → R x y)
      (behind : (x y : A) → after x y ≡ true → R y x) (trans : (x y z : A) → R x y → R y z → R x z)
      (x : A) (xs : List A)
      → Pairwise R xs
      → Pairwise R (insert_by after x xs)
  unfolding insert_by
  insert_by-IsSorted ahead behind trans x [] p = (tt, tt)
  insert_by-IsSorted ahead behind trans x (y ∷ ys) p = elim (Bool-cases (after x y)) [
    | inl b ↦ rw b (
      All-insert_by after (R y) x ys (behind x y b) p.0,
      insert_by-IsSorted ahead behind trans x ys p.1,
    )
    | inr a ↦
        rw a ((ahead x y a, All-weaken (R y) (R x) (λ z. trans x y z (ahead x y a)) ys p.0), p)
  ]

  pub sort_by-IsSorted :
      (ahead : (x y : A) → after x y ≡ false → R x y)
      (behind : (x y : A) → after x y ≡ true → R y x) (trans : (x y z : A) → R x y → R y z → R x z)
      (xs : List A)
      → Pairwise R (sort_by after xs)
  unfolding sort_by
  sort_by-IsSorted ahead behind trans [] = tt
  sort_by-IsSorted ahead behind trans (x ∷ xs) =
      insert_by-IsSorted ahead behind trans x (sort_by after xs)
        (sort_by-IsSorted ahead behind trans xs)
