-- ===== src/Liquidity/Tests.antt =====
-- Runs of the planner and of the coordinator, and examples of what is proved of them.
use blueballs.Prelude.{
  Bool, ◌||◌, ◌==◌, ◌++◌, true, false, if◌then◌else◌, Option, ℕ, ◌≤◌, ◌<◌, ◌-◌, String, ◌≡◌, refl,
  ◌⊎◌, inl, none, some, List, [], ◌∷◌, All, ok, err,
}
use blueballs.Prelude.Int.{ℤ, pos}
use blueballs.Liquidity.Optimizer.{
  Slice, Plan, no_liquidity, check_request, validate_slice, is_source_type, is_safe_integer,
  sort_slices, insert_slice, compare_price, compare_ids, fill, take_from, ceil_div, leg_of,
  eligible_slices, Leg, plan_exact_output,
}
use blueballs.Liquidity.Optimizer.Legs.{Draws, output_sum, input_sum}
use blueballs.Liquidity.Optimizer.Fills.{plan_exact_output-IsExact}
use blueballs.Liquidity.Optimizer.Capacity.{valid_capacity, plan_exact_output_decides}
use blueballs.Liquidity.Coordinator.{
  Adapters, adapter_failed, reserve_plan, reserve_legs, end_reservation, release_items, release_leg,
  reserve_leg, checked,
}

abbrev slice : String → ℤ → ℤ → Slice
slice id max_output price = record {
  source_type = "ISSUER";
  source_id = id;
  slice_id = "s1";
  input_asset = "BRL";
  output_asset = "EUR";
  policy_authorization_id = "auth";
  policy_snapshot_hash = none;
  expires_at = pos 100;
  max_output = some max_output;
  input_numerator = some price;
  input_denominator = some (pos 10);
  reservation_payload = none;
}

abbrev offers : List Slice
offers = slice "dear" (pos 50) (pos 61) ∷ slice "cheap" (pos 7) (pos 60) ∷ []

abbrev leg : String → ℤ → ℤ → ℕ → ℕ → Leg
unfolding leg_of
leg id max_output price paid got = leg_of "BRL" "EUR" (slice id max_output price) paid got

abbrev plan : Plan
plan = record {
  input_asset = "BRL";
  output_asset = "EUR";
  total_input = 61;
  total_output = 10;
  legs = leg "cheap" (pos 7) (pos 60) 42 7 ∷ leg "dear" (pos 50) (pos 61) 19 3 ∷ [];
}

request_passes : check_request "BRL" "EUR" (some (pos 10)) (pos 1) ≡ ok tt
unfolding check_request is_safe_integer
request_passes = refl

planned : plan_exact_output "BRL" "EUR" (some (pos 10)) offers (pos 1) ≡ ok plan
unfolding plan_exact_output check_request eligible_slices validate_slice is_source_type
    is_safe_integer sort_slices insert_slice compare_price compare_ids fill take_from ceil_div
    leg_of
planned = refl

are_issuers : All (λ s. s.source_type ≡ "ISSUER") offers
are_issuers = (refl, (refl, tt))

plan_exact_output-IsExact_example :
    (0 < plan.total_output)
    × (plan.total_output ≡ 10)
    × (output_sum plan.legs ≡ plan.total_output)
    × (input_sum plan.legs ≡ plan.total_input)
    × All (λ l. (s : Slice) × (s.source_type ≡ "ISSUER") × Draws "BRL" "EUR" (pos 1) s l) plan.legs
plan_exact_output-IsExact_example =
    plan_exact_output-IsExact (λ s. s.source_type ≡ "ISSUER") "BRL" "EUR" (some (pos 10)) offers
      (pos 1) are_issuers planned

plan_exact_output_decides_example :
    ((10 ≤ valid_capacity "BRL" "EUR" (pos 1) offers)
      × ((p : Plan) × (plan_exact_output "BRL" "EUR" (some (pos 10)) offers (pos 1) ≡ ok p)))
    ⊎ ((valid_capacity "BRL" "EUR" (pos 1) offers < 10)
        × (plan_exact_output "BRL" "EUR" (some (pos 10)) offers (pos 1)
            ≡ err (no_liquidity (10 - valid_capacity "BRL" "EUR" (pos 1) offers))))
plan_exact_output_decides_example =
    plan_exact_output_decides "BRL" "EUR" (some (pos 10)) offers (pos 1) request_passes

-- Sources that hold the legs of one route by their index, have nothing for the third leg, and cannot
-- release the second one.
abbrev holds : List ℕ → ℕ → Bool
holds [] j = false
holds (i ∷ is) j = (j == i) || holds is j

abbrev give_back : ℕ → List ℕ → List ℕ
give_back i [] = []
give_back i (k ∷ ks) = if k == i then give_back i ks else k ∷ give_back i ks

abbrev reserve_index : List ℕ → ℕ → Option String × List ℕ
reserve_index s index = if index == 2 then (none, s) else (some "handle", index ∷ s)

abbrev release_index : List ℕ → ℕ → Bool × List ℕ
release_index s index = if index == 1 then (false, s) else (true, give_back index s)

abbrev sources : Adapters (List ℕ)
sources = record {
  has_adapter = λ source_type. true;
  reserve = λ s route_id l index. reserve_index s index;
  release = λ s route_id item reason. release_index s item.index;
}

abbrev three_legs : Plan
three_legs = record plan { legs = plan.legs ++ leg "last" (pos 5) (pos 60) 30 5 ∷ [] }

-- The third leg fails and the second one cannot be released: it stays held, and is named.
third_leg_fails : reserve_plan sources "route" three_legs (7 ∷ []) ≡ (
  inl (
    adapter_failed,
    record { source_type = "ISSUER"; source_id = "dear"; reservation_handle = "handle" } ∷ [],
  ),
  1 ∷ 7 ∷ [],
)
unfolding reserve_plan reserve_legs end_reservation release_items release_leg reserve_leg checked
    leg
third_leg_fails = refl
