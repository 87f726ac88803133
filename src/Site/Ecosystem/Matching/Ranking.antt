-- ===== src/Site/Ecosystem/Matching/Ranking.antt =====
-- The order of the matches of src/ecosystem/matching.ts.
use blueballs.Prelude.{
  ◌≤◌, String, Bool, ◌≡◌, refl, sym, ap, ◌∙◌, subst, ◌⊎◌, inl, inr, some, List, [], ◌∷◌, arith,
  length, length-take, All, All-take, Among, Option-cases,
}
use blueballs.Prelude.Int.{ℤ, pos_part, ◌≤ℤ◌}
use blueballs.Prelude.Sorting.{
  Pairwise, Pairwise-take, sort_by, sort_by-IsSorted, All-sort_by, Among-sort_by, Among-take,
}
use blueballs.Site.Ecosystem.Providers.{Provider}
use blueballs.Site.Ecosystem.Matching.{
  BlueprintMatchInput, ProviderMatch, match_of, score_provider, with_match, matches_of,
  is_ranked_after, match_providers,
}

-- The first match scores at least as much as the second.
abbrev pub Ranks : ProviderMatch → ProviderMatch → Type 0
Ranks left right = right.score ≤ℤ left.score

module _ (name_after : String → String → Bool) where
  ranked-IsSorted :
      (ms : List ProviderMatch) → Pairwise Ranks (sort_by (is_ranked_after name_after) ms)
  ranked-IsSorted ms =
      sort_by-IsSorted (is_ranked_after name_after) Ranks (λ x y h. ground arith)
        (λ x y h. ground arith) (λ x y z h k. omega (arith, h, k)) ms

-- A provider that scores stands in the unsorted matches.
scored-Among :
    (ps : List Provider) (input : BlueprintMatchInput) (p : Provider) (m : ProviderMatch)
    → Among p ps
    → score_provider p input ≡ some m
    → Among m (matches_of ps input)
unfolding matches_of
scored-Among [] input p m h e = absurd h
scored-Among (q ∷ ps) input p m (inl same) e =
    subst (λ o. Among m (with_match o (matches_of ps input)))
      (sym e ∙ ap (λ x. score_provider x input) same) (inl refl)
scored-Among (q ∷ ps) input p m (inr later) e = elim (Option-cases (score_provider q input)) [
  | inl missing ↦ rw missing (scored-Among ps input p m later e)
  | inr (n, found) ↦ rw found (inr (scored-Among ps input p m later e))
]

-- A match is made for its own provider.
score_provider-provider :
    (p : Provider) (input : BlueprintMatchInput) (m : ProviderMatch)
    → score_provider p input ≡ some m
    → m.provider ≡ p
unfolding score_provider match_of
score_provider-provider p input m h = ground arith

matches_of-All :
    (ps : List Provider) (input : BlueprintMatchInput)
    → All (λ m. score_provider m.provider input ≡ some m) (matches_of ps input)
unfolding matches_of
matches_of-All [] input = tt
matches_of-All (p ∷ ps) input = elim (Option-cases (score_provider p input)) [
  | inl missing ↦ rw missing (matches_of-All ps input)
  | inr (m, found) ↦
      let own = score_provider-provider p input m found in
      rw found
        (subst (λ q. score_provider q input ≡ some m) (sym own) found, matches_of-All ps input)
]

-- The ranking returns at most as many matches as are asked for, best first, each of them the score of
-- its provider.
pub match_providers-IsRanked :
    (providers : List Provider) (name_after : String → String → Bool) (input : BlueprintMatchInput)
    (limit : ℤ)
    → let found = match_providers providers name_after input limit in
      (length found ≤ pos_part limit)
      × Pairwise Ranks found
      × All (λ m. score_provider m.provider input ≡ some m) found
unfolding match_providers
match_providers-IsRanked providers name_after input limit =
    let ms = matches_of providers input in
    let sorted = sort_by (is_ranked_after name_after) ms in
    (
      omega (arith, length-take (pos_part limit) sorted),
      Pairwise-take Ranks (pos_part limit) sorted (ranked-IsSorted name_after ms),
      All-take _ (pos_part limit) sorted
          (All-sort_by (is_ranked_after name_after) _ ms (matches_of-All providers input)),
    )

-- No better match is left out: a provider of the table that scores is among the returned matches, or
-- every returned match scores at least as much.
pub match_providers_best :
    (providers : List Provider) (name_after : String → String → Bool) (input : BlueprintMatchInput)
    (limit : ℤ) (p : Provider) (m : ProviderMatch)
    → Among p providers
    → score_provider p input ≡ some m
    → Among m (match_providers providers name_after input limit)
      ⊎ All (λ r. Ranks r m) (match_providers providers name_after input limit)
unfolding match_providers
match_providers_best providers name_after input limit p m listed scored =
    let ms = matches_of providers input in
    Among-take Ranks (pos_part limit) m (sort_by (is_ranked_after name_after) ms)
      (ranked-IsSorted name_after ms)
      (Among-sort_by (is_ranked_after name_after) m ms
        (scored-Among providers input p m listed scored))
