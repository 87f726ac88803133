-- ===== src/Site/Ecosystem/Shortlist.antt =====
-- The visitor's shortlist of providers, after src/ecosystem/shortlist.ts. The stored text is kept as the
-- value that it parses to, if it parses. `window` is there: on a server the functions only sanitize.
pub mod Sanitizing
use blueballs.Prelude.{
  ℕ, String, Bool, true, false, Option, none, some, List, [], ◌∷◌, map, any, find, keep, take,
  str_eq, unique, if◌then◌else◌,
}
use blueballs.Site.Ecosystem.Providers.{Provider}

-- `PROVIDER_SHORTLIST_LIMIT`
abbrev pub shortlist_limit : ℕ
shortlist_limit = 3

-- `PROVIDER_IDS.has(id)`
abbrev pub is_listed : List Provider → String → Bool
is_listed providers id = any (λ p. str_eq p.id id) providers

-- A JSON value, as far as the sanitizer looks: an array of items of which some are texts, or
-- something else.
abbrev pub Value : Type 0
Value = Option (List (Option String))

-- The texts among the items.
abbrev pub texts : List (Option String) → List String
texts [] = []
texts (none ∷ items) = texts items
texts (some s ∷ items) = s ∷ texts items

-- `sanitizeProviderShortlist`
unfoldable pub sanitize : List Provider → Value → List String
sanitize providers none = []
sanitize providers (some items) =
    take shortlist_limit (unique (keep (is_listed providers) (texts items)))

abbrev pub of_ids : List String → Value
of_ids ids = some (map some ids)

pub data Stored : Type 0 where
  absent unparsable : Stored
  parsed : Value → Stored

-- `window.localStorage`, at the key of the shortlist.
pub record Storage : Type 0 where
  pub content : Stored
  pub blocked : Bool

abbrev read_content : List Provider → Stored → List String
unfolding sanitize
read_content providers absent = sanitize providers (some [])
read_content providers unparsable = []
read_content providers (parsed value) = sanitize providers value

-- `readProviderShortlist`
unfoldable pub read_shortlist : List Provider → Storage → List String
unfolding read_content
read_shortlist providers s = if s.blocked then [] else read_content providers s.content

-- `writeProviderShortlist`: the ids that it returns, which its event carries too, and the storage.
unfoldable pub write_shortlist : List Provider → List String → Storage → List String × Storage
unfolding sanitize
write_shortlist providers ids s =
    let safe = sanitize providers (of_ids ids) in
    (safe, (if s.blocked then s else record s { content = parsed (of_ids safe) }))

abbrev with_provider : Option Provider → List Provider → List Provider
with_provider none ps = ps
with_provider (some p) ps = p ∷ ps

abbrev pub providers_of : List Provider → List String → List Provider
providers_of providers [] = []
providers_of providers (id ∷ ids) =
    with_provider (find (λ p. str_eq p.id id) providers) (providers_of providers ids)

-- `providersForShortlist`
unfoldable pub providers_for_shortlist : List Provider → List String → List Provider
unfolding sanitize
providers_for_shortlist providers ids = providers_of providers (sanitize providers (of_ids ids))
