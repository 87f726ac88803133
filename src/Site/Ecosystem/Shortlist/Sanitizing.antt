-- ===== src/Site/Ecosystem/Shortlist/Sanitizing.antt =====
-- The lists that src/ecosystem/shortlist.ts returns, stores and reads.
use blueballs.Prelude.{
  ℕ, zero, suc, ◌≤◌, String, true, false, ◌≡◌, refl, ap, inl, inr, none, some, List, [], ◌∷◌, map,
  arith, length, length-take, take, keep, keep_passes, find, All, All-take, str_eq, str_eq_iff,
  unique, Bool-cases, ap₂,
}
use blueballs.Prelude.Sorting.{Pairwise, Pairwise-take}
use blueballs.Prelude.Uniques.{Differ, unique-Pairwise, unique-All, keep_passing, unique_different}
use blueballs.Site.Ecosystem.Providers.{Provider}
use blueballs.Site.Ecosystem.Shortlist.{
  is_listed, Value, texts, sanitize, of_ids, Storage, read_shortlist, write_shortlist, providers_of,
  providers_for_shortlist,
}

-- A list that the sanitizer leaves as it is.
pub record IsShortlist (providers : List Provider) (ids : List String) : Type 0 where
  pub few : length ids ≤ 3
  pub different : Pairwise Differ ids
  pub listed : All (λ id. is_listed providers id ≡ true) ids

take_few : (n : ℕ) (xs : List String) → length xs ≤ n → take n xs ≡ xs
take_few zero [] h = refl
take_few zero (x ∷ xs) h = absurd (omega (arith, h))
take_few (suc n) [] h = refl
take_few (suc n) (x ∷ xs) h = ap (λ ys. x ∷ ys) (take_few n xs (omega arith))

texts-map : (ids : List String) → texts (map some ids) ≡ ids
texts-map [] = refl
texts-map (x ∷ xs) = ap (λ ys. x ∷ ys) (texts-map xs)

-- Whatever value it is given, the sanitizer returns at most three ids, all different and all of
-- listed providers.
pub sanitize-IsShortlist :
    (providers : List Provider) (value : Value) → IsShortlist providers (sanitize providers value)
unfolding sanitize
sanitize-IsShortlist providers none = record { few = omega arith; different = tt; listed = tt }
sanitize-IsShortlist providers (some items) =
    let kept = keep (is_listed providers) (texts items) in
    record {
      few = omega (arith, length-take 3 (unique kept));
      different = Pairwise-take Differ 3 (unique kept) (unique-Pairwise kept);
      listed =
          All-take _ 3 (unique kept)
            (unique-All _ kept (keep_passes (is_listed providers) (texts items)));
    }

sanitize_shortlist :
    (providers : List Provider) (ids : List String)
    → IsShortlist providers ids
    → sanitize providers (of_ids ids) ≡ ids
unfolding sanitize
sanitize_shortlist providers ids s =
    rw
      (
        texts-map ids,
        keep_passing (is_listed providers) ids s.listed,
        unique_different ids s.different,
      )
      (take_few 3 ids s.few)

-- Where the storage is not blocked, what is read after a write is what the write returned.
pub read-write_shortlist :
    (providers : List Provider) (ids : List String) (s : Storage)
    → s.blocked ≡ false
    → read_shortlist providers (write_shortlist providers ids s).1
      ≡ (write_shortlist providers ids s).0
unfolding read_shortlist write_shortlist
read-write_shortlist providers ids s free =
    let safe = sanitize providers (of_ids ids) in
    rw (free) (sanitize_shortlist providers safe (sanitize-IsShortlist providers (of_ids ids)))

found_listed :
    (ps : List Provider) (id : String)
    → is_listed ps id ≡ true
    → (p : Provider) × (find (λ q. str_eq q.id id) ps ≡ some p) × (p.id ≡ id)
found_listed [] id h = cc
found_listed (p ∷ ps) id h = elim (Bool-cases (str_eq p.id id)) [
  | inl here ↦ (p, rw here refl, (str_eq_iff p.id id).0 here)
  | inr later ↦ let (q, found, own) = found_listed ps id (ground arith) in (q, rw later found, own)
]

ids-providers_of :
    (ps : List Provider) (ids : List String)
    → All (λ id. is_listed ps id ≡ true) ids
    → map (λ p. p.id) (providers_of ps ids) ≡ ids
ids-providers_of ps [] h = refl
ids-providers_of ps (id ∷ ids) h =
    let (p, found, own) = found_listed ps id h.0 in
    rw found (ap₂ (λ x xs. x ∷ xs) own (ids-providers_of ps ids h.1))

-- The providers of a shortlist are those of its sanitized ids, one for each, in the same order.
pub ids-providers_for_shortlist :
    (providers : List Provider) (ids : List String)
    → map (λ p. p.id) (providers_for_shortlist providers ids) ≡ sanitize providers (of_ids ids)
unfolding providers_for_shortlist
ids-providers_for_shortlist providers ids =
    ids-providers_of providers (sanitize providers (of_ids ids))
      (sanitize-IsShortlist providers (of_ids ids)).listed
