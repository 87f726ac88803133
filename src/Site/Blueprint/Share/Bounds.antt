-- ===== src/Site/Blueprint/Share/Bounds.antt =====
-- The bounds of src/blueprint/share.ts.
use Prim.Native.Char.{code}
use Prim.Native.String.{[] as empty, ◌∷◌ as char_then}
use blueballs.Prelude.{
  ℕ, zero, suc, ◌≤◌, ◌<◌, String, Bool, true, false, not, ◌&&◌, ◌||◌, ◌≡◌, refl, subst,
  some-injective, Option, none, some, List, [], ◌∷◌, arith, length, length-take, keep, keep_passes,
  All, All-take, All-keep, is_empty, trim, unique, take_chars, text_length, ◌==◌, Bool-cases, inl,
  inr,
}
use blueballs.Prelude.Sorting.{Pairwise, Pairwise-take}
use blueballs.Prelude.Uniques.{Differ, unique-Pairwise, unique-All}
use blueballs.Site.Blueprint.Share.{
  SharedBlueprint, ShareableInput, Values, is_control, without_controls, clean_string, clean_items,
  clean_array, sanitize_shared_blueprint,
}

-- No character of the text is a control character.
abbrev pub has_no_controls : String → Bool
has_no_controls empty = true
has_no_controls (char_then c s) = not (is_control (code c)) && has_no_controls s

-- A text that is not longer than a bound and has no control characters.
pub record IsClean (max : ℕ) (s : String) : Type 0 where
  pub bounded : text_length s ≤ max
  pub no_controls : has_no_controls s ≡ true

length-take_chars : (n : ℕ) (s : String) → text_length (take_chars n s) ≤ n
length-take_chars zero s = omega arith
length-take_chars (suc n) empty = omega arith
length-take_chars (suc n) (char_then c s) = omega (arith, length-take_chars n s)

length-without_controls : (s : String) → text_length (without_controls s) ≤ text_length s
unfolding without_controls
length-without_controls empty = omega arith
length-without_controls (char_then c s) = elim (Bool-cases (is_control (code c))) [
  | inl control ↦ rw control (omega (arith, length-without_controls s))
  | inr other ↦ rw other (omega (arith, length-without_controls s))
]

without_controls_clean : (s : String) → has_no_controls (without_controls s) ≡ true
unfolding without_controls
without_controls_clean empty = refl
without_controls_clean (char_then c s) = elim (Bool-cases (is_control (code c))) [
  | inl control ↦ rw control (without_controls_clean s)
  | inr other ↦ rw (other, other) (without_controls_clean s)
]

clean_string-IsClean : (o : Option String) (max : ℕ) → IsClean max (clean_string o max)
unfolding clean_string
clean_string-IsClean none max = record { bounded = omega arith; no_controls = refl }
clean_string-IsClean (some s) max = record {
  bounded =
      omega
        (arith, length-take_chars max (trim s), length-without_controls (take_chars max (trim s)));
  no_controls = without_controls_clean (take_chars max (trim s));
}

-- A list of the blueprint: few, different, clean texts.
pub record IsCleanList (xs : List String) : Type 0 where
  pub few : length xs ≤ 16
  pub different : Pairwise Differ xs
  pub clean : All (IsClean 40) xs
  pub none_empty : All (λ s. not (is_empty s) ≡ true) xs

clean_items-All : (items : List (Option String)) → All (IsClean 40) (clean_items items)
unfolding clean_items
clean_items-All [] = tt
clean_items-All (item ∷ items) = (clean_string-IsClean item 40, clean_items-All items)

clean_array-IsCleanList : (values : Values) → IsCleanList (clean_array values)
unfolding clean_array
clean_array-IsCleanList none = record {
  few = omega arith;
  different = tt;
  clean = tt;
  none_empty = tt;
}
clean_array-IsCleanList (some items) =
    let kept = keep (λ s. not (is_empty s)) (clean_items items) in
    record {
      few = omega (arith, length-take 16 (unique kept));
      different = Pairwise-take Differ 16 (unique kept) (unique-Pairwise kept);
      clean = All-take (IsClean 40) 16 (unique kept) (
          unique-All (IsClean 40) kept (
            All-keep (IsClean 40) (λ s. not (is_empty s)) (clean_items items)
              (clean_items-All items)));
      none_empty =
          All-take _ 16 (unique kept)
            (unique-All _ kept (keep_passes (λ s. not (is_empty s)) (clean_items items)));
    }

-- What a sanitized blueprint keeps to.
pub record IsBounded (b : SharedBlueprint) : Type 0 where
  pub name_clean : IsClean 80 b.name
  pub name_given : is_empty b.name ≡ false
  pub markets_clean : IsCleanList b.markets
  pub currencies_clean : IsCleanList b.currencies
  pub capabilities_clean : IsCleanList b.capabilities
  pub rails_clean : IsCleanList b.rails
  pub some_capability : 0 < length b.capabilities

-- A blueprint that passes the sanitizer has a name of at most 80 characters, at least one capability,
-- and lists of at most 16 different texts, none of them empty or longer than 40 characters; no text
-- of them holds a control character.
pub sanitize_shared_blueprint-IsBounded :
    (input : ShareableInput) (b : SharedBlueprint)
    → sanitize_shared_blueprint input ≡ some b
    → IsBounded b
unfolding sanitize_shared_blueprint
sanitize_shared_blueprint-IsBounded input b h =
    let name = clean_string input.name 80 in
    let capabilities = clean_array input.capabilities in
    elim (Bool-cases (is_empty name || length capabilities == 0)) [
      | inl lacking ↦ ground arith
      | inr complete ↦ subst IsBounded (some-injective _ _ (rw complete at h)) (record {
        name_clean = clean_string-IsClean input.name 80;
        name_given = ground arith;
        markets_clean = clean_array-IsCleanList input.markets;
        currencies_clean = clean_array-IsCleanList input.currencies;
        capabilities_clean = clean_array-IsCleanList input.capabilities;
        rails_clean = clean_array-IsCleanList input.rails;
        some_capability = ground arith;
      })
    ]
