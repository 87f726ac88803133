-- ===== src/Liquidity/Optimizer.antt =====
-- The exact-output planner of packages/fx-liquidity/src/optimizer.js. A field that the code parses
-- by `BigInt(String(value))` is the integer that it parses to, or `none` where the parse throws.
-- The reservation payload is opaque and kept as a text.
pub mod Legs
pub mod Fills
pub mod Capacity
use Prim.Native.Nat.{Ordering}
use blueballs.Prelude.{
  ℕ, zero, suc, ◌+◌, ◌-◌, ◌*◌, ◌/◌, String, Bool, true, false, not, ◌&&◌, ◌||◌, Option, none, some,
  List, [], ◌∷◌, ◌++◌, keep, ltb, leb, ◌==◌, str_eq, str_ltb, is_empty, if◌then◌else◌, Outcome, ok,
  err, ◌>>=◌, ◌>>◌, throw_if, require,
}
use blueballs.Prelude.Int.{ℤ, pos, negsuc, abs, ltb_ℤ, leb_ℤ}

pub record Slice : Type 0 where
  pub source_type : String
  pub source_id : String
  pub slice_id : String
  pub input_asset : String
  pub output_asset : String
  pub policy_authorization_id : String
  pub policy_snapshot_hash : Option String
  pub expires_at : ℤ
  pub max_output : Option ℤ
  pub input_numerator : Option ℤ
  pub input_denominator : Option ℤ
  pub reservation_payload : Option String

pub record Leg : Type 0 where
  pub source_type : String
  pub source_id : String
  pub slice_id : String
  pub input_asset : String
  pub output_asset : String
  pub input_amount : ℕ
  pub output_amount : ℕ
  pub policy_authorization_id : String
  pub policy_snapshot_hash : Option String
  pub expires_at : ℤ
  pub reservation_payload : Option String

pub record Plan : Type 0 where
  pub input_asset : String
  pub output_asset : String
  pub total_input : ℕ
  pub total_output : ℕ
  pub legs : List Leg

pub data PlanError : Type 0 where
  input_asset_required output_asset_required assets_equal now_invalid desired_invalid : PlanError
  no_liquidity : (missing_output : ℕ) → PlanError

-- `SOURCE_TYPES.has`
unfoldable pub is_source_type : String → Bool
is_source_type t =
    str_eq t "PRIVATE_MARKET"
    || str_eq t "ISSUER"
    || str_eq t "INSTITUTIONAL_LP"
    || str_eq t "NEOBANK"
    || str_eq t "BANK_TREASURY"
    || str_eq t "BANK_PRINCIPAL"

-- `Number.isSafeInteger`, on an integer.
unfoldable pub is_safe_integer : ℤ → Bool
is_safe_integer n = ltb (abs n) 0x20_0000_0000_0000

-- Whether `asPositiveBigInt` returns; where it throws, `validateSlice` catches.
abbrev pub is_positive : Option ℤ → Bool
is_positive (some (pos (suc n))) = true
is_positive (some (pos zero)) = false
is_positive (some (negsuc n)) = false
is_positive none = false

-- The value that `asPositiveBigInt` returns; `BigInt(value)` of a validated field.
abbrev pub amount_of : Option ℤ → ℕ
amount_of (some (pos n)) = n
amount_of (some (negsuc n)) = 0
amount_of none = 0

unfoldable pub validate_slice : String → String → ℤ → Slice → Bool
unfolding is_source_type is_safe_integer
validate_slice input output now s =
    is_source_type s.source_type
    && not (is_empty s.source_id)
    && not (is_empty s.slice_id)
    && (str_eq s.input_asset input && str_eq s.output_asset output)
    && not (is_empty s.policy_authorization_id)
    && (is_safe_integer s.expires_at && ltb_ℤ now s.expires_at)
    && is_positive s.max_output
    && is_positive s.input_numerator
    && is_positive s.input_denominator

-- The part of `comparePrice` after the prices.
unfoldable pub compare_ids : Slice → Slice → Ordering
compare_ids a b =
    if not (str_eq a.source_id b.source_id)
    then (if str_ltb a.source_id b.source_id then Ordering.lt else Ordering.gt)
    else (if str_ltb a.slice_id b.slice_id
        then Ordering.lt
        else (if str_ltb b.slice_id a.slice_id then Ordering.gt else Ordering.eq))

unfoldable pub compare_price : Slice → Slice → Ordering
unfolding compare_ids
compare_price a b =
    let left = amount_of a.input_numerator * amount_of b.input_denominator in
    let right = amount_of b.input_numerator * amount_of a.input_denominator in
    if not (left == right)
    then (if ltb left right then Ordering.lt else Ordering.gt)
    else compare_ids a b

abbrev pub is_after : Ordering → Bool
is_after Ordering.gt = true
is_after Ordering.lt = false
is_after Ordering.eq = false

-- `.sort(comparePrice)`, which is stable: an element goes in front of its equals.
unfoldable pub insert_slice : Slice → List Slice → List Slice
unfolding compare_price
insert_slice s [] = s ∷ []
insert_slice s (t ∷ ts) = if is_after (compare_price s t) then t ∷ insert_slice s ts else s ∷ t ∷ ts

unfoldable pub sort_slices : List Slice → List Slice
unfolding insert_slice
sort_slices [] = []
sort_slices (s ∷ ss) = insert_slice s (sort_slices ss)

unfoldable pub ceil_div : ℕ → ℕ → ℕ
ceil_div n d = (n + d - 1) / d

-- The variables of the planner's loop.
pub record Fill : Type 0 where
  pub remaining : ℕ
  pub total_input : ℕ
  pub legs : List Leg

unfoldable pub leg_of : String → String → Slice → ℕ → ℕ → Leg
leg_of input output s input_amount output_amount = record {
  source_type = s.source_type;
  source_id = s.source_id;
  slice_id = s.slice_id;
  input_asset = input;
  output_asset = output;
  input_amount = input_amount;
  output_amount = output_amount;
  policy_authorization_id = s.policy_authorization_id;
  policy_snapshot_hash = s.policy_snapshot_hash;
  expires_at = s.expires_at;
  reservation_payload = s.reservation_payload;
}

-- One round of the loop.
unfoldable pub take_from : String → String → Fill → Slice → Fill
unfolding ceil_div leg_of
take_from input output f s =
    let capacity = amount_of s.max_output in
    let output_amount = if ltb capacity f.remaining then capacity else f.remaining in
    let input_amount =
      ceil_div (output_amount * amount_of s.input_numerator) (amount_of s.input_denominator) in
    record {
      remaining = f.remaining - output_amount;
      total_input = f.total_input + input_amount;
      legs = f.legs ++ leg_of input output s input_amount output_amount ∷ [];
    }

unfoldable pub fill : String → String → Fill → List Slice → Fill
unfolding take_from
fill input output f [] = f
fill input output f (s ∷ ss) =
    if f.remaining == 0 then f else fill input output (take_from input output f s) ss

unfoldable pub eligible_slices : String → String → ℤ → List Slice → List Slice
unfolding validate_slice sort_slices
eligible_slices input output now slices =
    sort_slices (keep (validate_slice input output now) slices)

abbrev pub empty_fill : ℕ → Fill
empty_fill desired = record { remaining = desired; total_input = 0; legs = [] }

abbrev pub plan_of : String → String → ℕ → Fill → Outcome PlanError Plan
plan_of input output desired f =
    if f.remaining == 0
    then ok (record {
      input_asset = input;
      output_asset = output;
      total_input = f.total_input;
      total_output = desired;
      legs = f.legs;
    })
    else err (no_liquidity f.remaining)

-- The checks in front of the loop.
unfoldable pub check_request : String → String → Option ℤ → ℤ → Outcome PlanError (Unit {0})
unfolding is_safe_integer
check_request input output desired_output now = do
  throw_if (is_empty input) input_asset_required
  throw_if (is_empty output) output_asset_required
  throw_if (str_eq input output) assets_equal
  throw_if (not (is_safe_integer now) || ltb_ℤ now (pos 0)) now_invalid
  require (is_positive desired_output) desired_invalid

unfoldable pub plan_exact_output :
    String → String → Option ℤ → List Slice → ℤ → Outcome PlanError Plan
unfolding eligible_slices fill check_request
plan_exact_output input output desired_output slices now = do
  check_request input output desired_output now
  plan_of input output (amount_of desired_output) (
      fill input output (empty_fill (amount_of desired_output))
        (eligible_slices input output now slices))
