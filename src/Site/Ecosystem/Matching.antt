-- ===== src/Site/Ecosystem/Matching.antt =====
-- How providers are ranked for a blueprint, after src/ecosystem/matching.ts. The comparison of names by
-- `localeCompare` depends on the runtime's language data and is an argument: whether it is positive.
-- The keys that are looked up are the values of the builder.
pub mod Ranking
use blueballs.Prelude.{
  ℕ, ◌+◌, ◌*◌, min, String, Bool, true, false, not, ◌&&◌, ◌||◌, Option, none, some, List, [], ◌∷◌,
  ◌++◌, any, keep, length, take, leb, ltb, ◌==◌, str_eq, is_empty, trim, lower, includes, unique,
  ◌^^◌, if◌then◌else◌,
}
use blueballs.Prelude.Int.{ℤ, pos, negsuc, pos_part, ◌+ℤ◌, ltb_ℤ, eqb_ℤ}
use blueballs.Prelude.Dict.{is_some}
use blueballs.Prelude.Sorting.{sort_by}
use blueballs.Site.Ecosystem.Providers.{
  CategoryId, sponsor, compliance, accounts, rails, stablecoins, custody, cards, fx, operations,
  ProviderSandbox, available, gated, not_listed, not_offered, ProviderTechnicalStatus, link_only,
  included_descriptor, Provider, eq_category,
}

pub record BlueprintMatchInput : Type 0 where
  pub markets : List String
  pub capabilities : List String
  pub rails : List String

-- What a reason's text is made of.
pub data Reason : Type 0 where
  layers_matched : ℕ → Reason
  region_fit : List String → Reason
  region_unverified : Reason
  rail_signals : List String → Reason
  sandbox_available : Reason

pub record ProviderMatch : Type 0 where
  pub provider : Provider
  pub score : ℤ
  pub matched_categories : List CategoryId
  pub matched_regions : List String
  pub matched_rails : List String
  pub reasons : List Reason

abbrev Weights : Type 0
Weights = List (CategoryId × ℕ)

-- `CAPABILITY_CATEGORIES[capability] ?? []`
unfoldable pub capability_categories : String → Weights
capability_categories capability =
    if str_eq capability "accounts"
    then (accounts, 6) ∷ (sponsor, 3) ∷ []
    else if str_eq capability "onboarding"
    then (compliance, 6) ∷ (sponsor, 1) ∷ []
    else if str_eq capability "transfers"
    then (rails, 6) ∷ (accounts, 1) ∷ []
    else if str_eq capability "cards"
    then (cards, 6) ∷ (sponsor, 1) ∷ []
    else if str_eq capability "wallets"
    then (custody, 6) ∷ (stablecoins, 4) ∷ []
    else if str_eq capability "fx"
    then (fx, 6) ∷ (stablecoins, 2) ∷ (accounts, 1) ∷ []
    else if str_eq capability "savings"
    then (sponsor, 5) ∷ (accounts, 3) ∷ []
    else if str_eq capability "business"
    then (sponsor, 4) ∷ (accounts, 3) ∷ (compliance, 2) ∷ []
    else if str_eq capability "payment_links"
    then (rails, 6) ∷ []
    else if str_eq capability "webhooks"
    then (operations, 6) ∷ []
    else []

-- `MARKET_REGIONS[market] ?? []`
unfoldable pub market_regions : String → List String
market_regions market =
    if str_eq market "GLOBAL"
    then "Global" ∷ []
    else if str_eq market "US"
    then "US" ∷ "Global" ∷ []
    else if str_eq market "GB"
    then "UK" ∷ "Europe" ∷ "Global" ∷ []
    else if str_eq market "EU"
    then "Europe" ∷ "Global" ∷ []
    else if str_eq market "SG"
    then "APAC" ∷ "Global" ∷ []
    else if str_eq market "MY"
    then "APAC" ∷ "Global" ∷ []
    else []

abbrev normalize : String → String
normalize value = lower (trim value)

-- `RAIL_TERMS[rail] ?? [normalize(rail)]`
unfoldable pub rail_terms : String → List String
rail_terms rail =
    if str_eq rail "ach"
    then "ach" ∷ []
    else if str_eq rail "sepa"
    then "sepa" ∷ []
    else if str_eq rail "sepa_instant"
    then "sepa instant" ∷ []
    else if str_eq rail "faster_payments"
    then "faster payments" ∷ []
    else if str_eq rail "paynow"
    then "paynow" ∷ []
    else if str_eq rail "wire"
    then "wire" ∷ "wires" ∷ []
    else normalize rail ∷ []

-- `xs.join(" ")`
abbrev join : List String → String
join [] = ""
join (x ∷ []) = x
join (x ∷ y ∷ ys) = x ^^ " " ^^ join (y ∷ ys)

-- `providerProductText`
unfoldable pub provider_product_text : Provider → String
provider_product_text p =
    lower (join ((p.name ∷ p.kind ∷ p.provides ∷ []) ++ p.capabilities ++ p.modules))

flat_regions : List String → List String
unfolding market_regions
flat_regions [] = []
flat_regions (m ∷ ms) = market_regions m ++ flat_regions ms

-- `desiredRegions`
unfoldable pub desired_regions : List String → List String
unfolding flat_regions
desired_regions markets =
    unique (flat_regions (if length markets == 0 then "GLOBAL" ∷ [] else markets))

abbrev pub weight_of : CategoryId → Weights → Option ℕ
weight_of c [] = none
weight_of c ((k, w) ∷ ws) = if eq_category k c then some w else weight_of c ws

abbrev weight_or_zero : Option ℕ → ℕ
weight_or_zero none = 0
weight_or_zero (some w) = w

-- `categoryWeights.set(id, Math.max(categoryWeights.get(id) ?? 0, weight))`
abbrev set_weight : CategoryId → ℕ → Weights → Weights
set_weight c w [] = (c, w) ∷ []
set_weight c w ((k, v) ∷ ws) =
    if eq_category k c then (k, (if leb v w then w else v)) ∷ ws else (k, v) ∷ set_weight c w ws

abbrev add_weights : Weights → Weights → Weights
add_weights ws [] = ws
add_weights ws ((c, w) ∷ more) = add_weights (set_weight c w ws) more

unfoldable pub category_weights : Weights → List String → Weights
unfolding capability_categories
category_weights ws [] = ws
category_weights ws (c ∷ cs) = category_weights (add_weights ws (capability_categories c)) cs

abbrev total_weight : Weights → List CategoryId → ℕ
total_weight ws [] = 0
total_weight ws (c ∷ cs) = weight_or_zero (weight_of c ws) + total_weight ws cs

abbrev is_global : String → Bool
is_global region = str_eq (normalize region) "global"

-- What the regions add to the score.
unfoldable pub region_score : List String → List String → ℤ
region_score matched markets =
    if any (λ r. not (is_global r)) matched
    then pos 4
    else if any is_global matched
    then pos 2
    else if any (str_eq "GLOBAL") markets
    then pos 0
    else negsuc 2

abbrev is_available : ProviderSandbox → Bool
is_available available = true
is_available gated = false
is_available not_listed = false
is_available not_offered = false

abbrev is_included : ProviderTechnicalStatus → Bool
is_included included_descriptor = true
is_included link_only = false

unfoldable pub matched_regions_of : Provider → BlueprintMatchInput → List String
unfolding desired_regions
matched_regions_of p input =
    let regions = desired_regions input.markets in
    keep (λ region. any (λ desired. str_eq (normalize desired) (normalize region)) regions)
      p.regions

unfoldable pub matched_rails_of : Provider → BlueprintMatchInput → List String
unfolding rail_terms provider_product_text
matched_rails_of p input =
    let text = provider_product_text p in
    keep (λ rail. any (λ term. includes text (normalize term)) (rail_terms rail)) input.rails

reasons_of : Provider → List CategoryId → List String → List String → List Reason
reasons_of p categories regions signals =
    (layers_matched (length categories)
      ∷ (if ltb 0 (length regions) then region_fit regions else region_unverified)
      ∷ [])
    ++ (if ltb 0 (length signals) then rail_signals signals ∷ [] else [])
    ++ (if is_available p.sandbox then sandbox_available ∷ [] else [])

-- `scoreProvider`, from the matched categories on.
match_of : Provider → BlueprintMatchInput → Weights → List CategoryId → Option ProviderMatch
unfolding region_score matched_regions_of matched_rails_of reasons_of
match_of p input ws categories =
    let regions = matched_regions_of p input in
    let signals = matched_rails_of p input in
    if length categories == 0
    then none
    else some (record {
      provider = p;
      score =
          pos (total_weight ws categories)
          +ℤ region_score regions input.markets
          +ℤ pos (
              min (length signals * 2) 4
              + (if is_available p.sandbox then 1 else 0)
              + (if is_included p.technical_status then 1 else 0));
      matched_categories = categories;
      matched_regions = regions;
      matched_rails = signals;
      reasons = reasons_of p categories regions signals;
    })

unfoldable pub score_provider : Provider → BlueprintMatchInput → Option ProviderMatch
unfolding category_weights match_of
score_provider p input =
    let ws = category_weights [] input.capabilities in
    match_of p input ws (keep (λ c. is_some (weight_of c ws)) p.categories)

abbrev with_match : Option ProviderMatch → List ProviderMatch → List ProviderMatch
with_match none ms = ms
with_match (some m) ms = m ∷ ms

-- `PROVIDERS.map(…).filter(…)`
unfoldable pub matches_of : List Provider → BlueprintMatchInput → List ProviderMatch
unfolding score_provider
matches_of [] input = []
matches_of (p ∷ ps) input = with_match (score_provider p input) (matches_of ps input)

-- The comparison of the sort: a higher score stands in front, equal scores by name.
abbrev pub is_ranked_after : (String → String → Bool) → ProviderMatch → ProviderMatch → Bool
is_ranked_after name_after left right =
    if eqb_ℤ left.score right.score
    then name_after left.provider.name right.provider.name
    else ltb_ℤ left.score right.score

-- `matchProvidersForBlueprint`
unfoldable pub match_providers :
    List Provider → (String → String → Bool) → BlueprintMatchInput → ℤ → List ProviderMatch
unfolding matches_of
match_providers providers name_after input limit =
    take (pos_part limit) (sort_by (is_ranked_after name_after) (matches_of providers input))
