-- ===== src/Site/Ecosystem/Providers.antt =====
-- The types of src/ecosystem/types.ts, without the fields that are only shown. The table `PROVIDERS`
-- is an argument of the definitions that read it.
use blueballs.Prelude.{ℕ, String, Bool, List, ◌==◌}

pub data CategoryId : Type 0 where
  sponsor compliance accounts rails stablecoins custody cards fx openbanking operations : CategoryId

pub data ProviderSandbox : Type 0 where
  available gated not_listed not_offered : ProviderSandbox

pub data ProviderTechnicalStatus : Type 0 where
  link_only included_descriptor : ProviderTechnicalStatus

pub record Provider : Type 0 where
  pub id : String
  pub name : String
  pub kind : String
  pub provides : String
  pub regions : List String
  pub categories : List CategoryId
  pub capabilities : List String
  pub modules : List String
  pub sandbox : ProviderSandbox
  pub technical_status : ProviderTechnicalStatus

-- The place of a category in its type.
abbrev category_index : CategoryId → ℕ
category_index sponsor = 0
category_index compliance = 1
category_index accounts = 2
category_index rails = 3
category_index stablecoins = 4
category_index custody = 5
category_index cards = 6
category_index fx = 7
category_index openbanking = 8
category_index operations = 9

abbrev pub eq_category : CategoryId → CategoryId → Bool
eq_category a b = category_index a == category_index b
