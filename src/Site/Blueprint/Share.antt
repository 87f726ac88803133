-- ===== src/Site/Blueprint/Share.antt =====
-- The sanitizer of a shared blueprint, after src/blueprint/share.ts. A value of unknown type is `none` where
-- it is not of the type that the code looks for.
pub mod Bounds
use Prim.Native.Char.{code}
use Prim.Native.String.{[] as empty, ◌∷◌ as char_then}
use blueballs.Prelude.{
  ℕ, String, Bool, true, false, not, ◌&&◌, ◌||◌, Option, none, some, List, [], ◌∷◌, map, keep, take,
  length, leb, ltb, ◌==◌, is_empty, trim, upper, unique, take_chars, text_length, if◌then◌else◌,
}

pub record SharedBlueprint : Type 0 where
  pub name : String
  pub markets : List String
  pub currencies : List String
  pub capabilities : List String
  pub rails : List String
  pub accent : Option String

abbrev pub Values : Type 0
Values = Option (List (Option String))

-- `brand_accent` is the accent of `brand`, where that is an object.
pub record ShareableInput : Type 0 where
  pub name : Option String
  pub markets : Values
  pub currencies : Values
  pub capabilities : Values
  pub rails : Values
  pub brand_accent : Option String
  pub accent : Option String

abbrev pub max_name_length : ℕ
max_name_length = 80

abbrev pub max_items : ℕ
max_items = 16

abbrev pub max_item_length : ℕ
max_item_length = 40

-- `/[\u0000-\u001f\u007f]/`
abbrev pub is_control : ℕ → Bool
is_control n = ltb n 32 || n == 127

-- `s.replace(/[\u0000-\u001f\u007f]/g, "")`
unfoldable pub without_controls : String → String
without_controls empty = ""
without_controls (char_then c s) =
    if is_control (code c) then without_controls s else char_then c (without_controls s)

-- `cleanString`
unfoldable pub clean_string : Option String → ℕ → String
unfolding without_controls
clean_string none max = ""
clean_string (some s) max = without_controls (take_chars max (trim s))

abbrev clean_items : List (Option String) → List String
unfolding clean_string
clean_items [] = []
clean_items (item ∷ items) = clean_string item max_item_length ∷ clean_items items

-- `cleanArray`
unfoldable pub clean_array : Values → List String
unfolding clean_items
clean_array none = []
clean_array (some items) =
    take max_items (unique (keep (λ s. not (is_empty s)) (clean_items items)))

abbrev is_hex_digit : ℕ → Bool
is_hex_digit n = (leb 48 n && leb n 57) || (leb 65 n && leb n 70) || (leb 97 n && leb n 102)

abbrev are_hex_digits : String → Bool
are_hex_digits empty = true
are_hex_digits (char_then c s) = is_hex_digit (code c) && are_hex_digits s

-- `/^#[0-9a-fA-F]{6}$/`
abbrev pub is_color : String → Bool
is_color empty = false
is_color (char_then c s) = (code c == 35) && (text_length s == 6) && are_hex_digits s

-- `cleanAccent`
unfoldable pub clean_accent : Option String → Option String
unfolding clean_string
clean_accent value =
    let accent = clean_string value 7 in if is_color accent then some (upper accent) else none

-- `a ?? b`
abbrev or_else : Option String → Option String → Option String
or_else none b = b
or_else (some a) b = some a

-- `sanitizeSharedBlueprint`
unfoldable pub sanitize_shared_blueprint : ShareableInput → Option SharedBlueprint
unfolding clean_string clean_array clean_accent
sanitize_shared_blueprint input =
    let name = clean_string input.name max_name_length in
    let capabilities = clean_array input.capabilities in
    if is_empty name || length capabilities == 0
    then none
    else some (record {
      name = name;
      markets = clean_array input.markets;
      currencies = clean_array input.currencies;
      capabilities = capabilities;
      rails = clean_array input.rails;
      accent = or_else (clean_accent input.brand_accent) (clean_accent input.accent);
    })
