-- ===== src/Site/Tests.antt =====
-- Examples of what is proved of the directory, of shared blueprints and of navigation.
use blueballs.Prelude.{
  ◌≤◌, String, Bool, false, not, ◌≡◌, refl, ◌⊎◌, inl, inr, none, some, List, [], ◌∷◌, map, length,
  All, Among, str_eq, if◌then◌else◌, unique,
}
use blueballs.Prelude.Int.{pos, ◌+ℤ◌}
use blueballs.Prelude.Sorting.{Pairwise}
use blueballs.Site.Ecosystem.Providers.{
  accounts, sponsor, cards, available, gated, link_only, included_descriptor, Provider,
}
use blueballs.Site.Ecosystem.Matching.{
  BlueprintMatchInput, ProviderMatch, layers_matched, region_fit, sandbox_available, score_provider,
  match_providers, category_weights, capability_categories, region_score, matched_regions_of,
  matched_rails_of, desired_regions, market_regions,
}
use blueballs.Site.Ecosystem.Matching.Ranking.{
  Ranks, match_providers-IsRanked, match_providers_best,
}
use blueballs.Site.Ecosystem.Shortlist.{
  sanitize, of_ids, absent, Storage, read_shortlist, write_shortlist, providers_for_shortlist,
}
use blueballs.Site.Ecosystem.Shortlist.Sanitizing.{
  IsShortlist, sanitize-IsShortlist, read-write_shortlist, ids-providers_for_shortlist,
}
use blueballs.Site.Blueprint.Share.{
  SharedBlueprint, ShareableInput, without_controls, clean_string, clean_array, clean_accent,
  sanitize_shared_blueprint,
}
use blueballs.Site.Blueprint.Share.Bounds.{IsBounded, sanitize_shared_blueprint-IsBounded}
use blueballs.Site.Navigation.{navigate_path}
use blueballs.Site.Navigation.Arrival.{path_after, pushes, navigate_path_arrives}

abbrev column : Provider
column = record {
  id = "column";
  name = "Column";
  kind = "Sponsor bank";
  provides = "US accounts, ACH, wires and bank ledger services.";
  regions = "US" ∷ [];
  categories = sponsor ∷ accounts ∷ [];
  capabilities = "ACH & wires" ∷ [];
  modules = "Accounts" ∷ [];
  sandbox = available;
  technical_status = link_only;
}

abbrev issuer : Provider
issuer = record {
  id = "issuer";
  name = "Issuer";
  kind = "Cards";
  provides = "Cards.";
  regions = "Global" ∷ [];
  categories = cards ∷ [];
  capabilities = [];
  modules = [];
  sandbox = gated;
  technical_status = included_descriptor;
}

abbrev providers : List Provider
providers = issuer ∷ column ∷ []

abbrev input : BlueprintMatchInput
input = record { markets = "US" ∷ []; capabilities = "accounts" ∷ "cards" ∷ []; rails = [] }

abbrev by_name : String → String → Bool
by_name a b = false

abbrev column_match : ProviderMatch
column_match = record {
  provider = column;
  score = pos 14;
  matched_categories = sponsor ∷ accounts ∷ [];
  matched_regions = "US" ∷ [];
  matched_rails = [];
  reasons = layers_matched 2 ∷ region_fit ("US" ∷ []) ∷ sandbox_available ∷ [];
}

column_scored : score_provider column input ≡ some column_match
unfolding score_provider category_weights capability_categories region_score matched_regions_of
    matched_rails_of desired_regions market_regions unique ◌+ℤ◌
column_scored = refl

match_providers-IsRanked_example :
    let found = match_providers providers by_name input (pos 1) in
    (length found ≤ 1)
    × Pairwise Ranks found
    × All (λ m. score_provider m.provider input ≡ some m) found
match_providers-IsRanked_example = match_providers-IsRanked providers by_name input (pos 1)

match_providers_best_example :
    Among column_match (match_providers providers by_name input (pos 1))
    ⊎ All (λ r. Ranks r column_match) (match_providers providers by_name input (pos 1))
match_providers_best_example =
    match_providers_best providers by_name input (pos 1) column column_match (inr (inl refl))
      column_scored

sanitize-IsShortlist_example :
    IsShortlist providers (sanitize providers (some (some "column" ∷ none ∷ some "column" ∷ [])))
sanitize-IsShortlist_example =
    sanitize-IsShortlist providers (some (some "column" ∷ none ∷ some "column" ∷ []))

abbrev storage : Storage
storage = record { content = absent; blocked = false }

abbrev wanted : List String
wanted = "issuer" ∷ "nobody" ∷ "issuer" ∷ "column" ∷ []

read-write_shortlist_example :
    read_shortlist providers (write_shortlist providers wanted storage).1
    ≡ (write_shortlist providers wanted storage).0
read-write_shortlist_example = read-write_shortlist providers wanted storage refl

ids-providers_for_shortlist_example :
    map (λ p. p.id) (providers_for_shortlist providers wanted) ≡ sanitize providers (of_ids wanted)
ids-providers_for_shortlist_example = ids-providers_for_shortlist providers wanted

navigate_path_arrives_example :
    let (result, calls) = navigate_path "/sandbox" "/" in
    (path_after "/" calls ≡ "/sandbox")
    × (pushes calls ≡ (if result.changed then 1 else 0))
    × (result.changed ≡ not (str_eq "/sandbox" "/"))
navigate_path_arrives_example = navigate_path_arrives "/sandbox" "/"

abbrev shareable : ShareableInput
shareable = record {
  name = some " My bank ";
  markets = some (some "US" ∷ some "US" ∷ none ∷ []);
  currencies = none;
  capabilities = some (some "accounts" ∷ some " " ∷ []);
  rails = none;
  brand_accent = some "red";
  accent = some "#00ffAA";
}

abbrev shared : SharedBlueprint
shared = record {
  name = "My bank";
  markets = "US" ∷ [];
  currencies = [];
  capabilities = "accounts" ∷ [];
  rails = [];
  accent = some "#00FFAA";
}

sanitizes : sanitize_shared_blueprint shareable ≡ some shared
unfolding sanitize_shared_blueprint clean_string clean_array clean_accent without_controls unique
sanitizes = refl

sanitize_shared_blueprint-IsBounded_example : IsBounded shared
sanitize_shared_blueprint-IsBounded_example =
    sanitize_shared_blueprint-IsBounded shareable shared sanitizes

-- A text that is cut behind a blank is cut again when the link is read: cleaning is not idempotent.
cleaned_once : clean_string (some "abcdef g") 7 ≡ "abcdef "
unfolding clean_string without_controls
cleaned_once = refl

cleaned_twice : clean_string (some "abcdef ") 7 ≡ "abcdef"
unfolding clean_string without_controls
cleaned_twice = refl
