-- ===== src/Market/Soundness/Reserving.antt =====
-- `reserveExactOutput` of packages/fx-market/src/sqlite-market.js keeps the tables sound and reserves exactly
-- what was asked for.
use blueballs.Prelude.{
  ℕ, ◌/◌, String, Bool, false, not, ◌≡◌, refl, sym, subst, Option, List, ◌++◌, length, All, arith,
  str_eq, is_empty, ltb, ◌==◌, ok, throw_if, throw_if-eq-ok, >>=-eq-ok, >>-eq-ok, ok-injective,
}
use mathlib.Core.List.{append-nil}
use blueballs.Prelude.Sorting.{Pairwise}
use blueballs.Market.Validation.{
  normalize_address, route_id_required, same_tokens, desired_not_positive, route_already_reserved,
  insufficient_liquidity,
}
use blueballs.Market.Orders.{Order}
use blueballs.Market.Book.{Hold, Market, active_of_route, audit}
use blueballs.Market.Reserving.{
  candidate_rows, Progress, reserve_rows, ReservedRoute, reserve_exact_output, future_expiry,
  end_route, first_round, reserve_found,
}
use blueballs.Market.Soundness.Candidates.{IsOffered, OtherOrder, candidate_rows-IsOffered}
use blueballs.Market.Soundness.Closings.{Sound}
use blueballs.Market.Soundness.Rounds.{sell_sum, pay_sum, IsReserving, reserve_rows-IsReserving}

nothing_left : (n : ℕ) → not (n == 0) ≡ false → n ≡ 0
nothing_left n h = ground arith

-- What an answer promises of the reservations before it, of the tables after it, and of what was asked for.
pub record IsExact (start : List Hold) (desired : ℕ) (r : ReservedRoute) (m : Market) : Type 0 where
  pub sound : Sound m
  pub added : m.holds ≡ start ++ r.fills
  pub delivers : sell_sum r.fills ≡ desired
  pub costs : pay_sum r.fills ≡ r.total_input
  pub answers : r.total_output ≡ desired

end_route-IsExact :
    (now : ℕ) (route_id input output : String) (desired expires_at : ℕ) (start : List Hold)
    (p : Progress) {r : ReservedRoute} {m : Market}
    → IsReserving start desired p
    → end_route now route_id input output desired expires_at p ≡ ok (r, m)
    → IsExact start desired r m
unfolding end_route audit
end_route-IsExact now route_id input output desired expires_at start p inv done =
    let (covered, result) =
      >>-eq-ok (throw_if (not (p.remaining == 0)) insufficient_liquidity) _ done in
    let none_left : p.remaining ≡ 0 =
      nothing_left p.remaining
        (throw_if-eq-ok (not (p.remaining == 0)) insufficient_liquidity covered) in
    subst (λ x. IsExact start desired x.0 x.1) (ok-injective result)
      (record {
        sound = inv.sound;
        added = inv.stored;
        delivers = omega (arith, inv.total, none_left);
        costs = sym inv.paid;
        answers = refl;
      })

first_round-IsReserving :
    (desired : ℕ) (m : Market) → Sound m → IsReserving m.holds desired (first_round desired m)
first_round-IsReserving desired m s = record {
  sound = s;
  total = omega arith;
  paid = refl;
  stored = sym (append-nil m.holds);
}

reserve_found-IsExact :
    (new_id : ℕ → String) (now : ℕ) (route_id input output : String) (desired expires_at : ℕ)
    (found : List Order) (m : Market) {r : ReservedRoute} {m' : Market}
    → Sound m
    → All (IsOffered m.orders) found
    → Pairwise OtherOrder found
    → reserve_found new_id now route_id input output desired expires_at found m ≡ ok (r, m')
    → IsExact m.holds desired r m'
unfolding reserve_found
reserve_found-IsExact new_id now route_id input output desired expires_at found m s f d done =
    let (p, looped, ended) =
      >>=-eq-ok (reserve_rows new_id route_id now expires_at (first_round desired m) found)
        (end_route now route_id input output desired expires_at) done in
    end_route-IsExact now route_id input output desired expires_at m.holds p
      (reserve_rows-IsReserving new_id route_id now expires_at m.holds desired
        (first_round desired m) found (first_round-IsReserving desired m s) f d looped)
      ended

module _ (locale_after : String → String → Bool) (new_id : ℕ → String) (now : ℕ)
    (route_id input_token output_token : String) (desired : ℕ) (expires_at : Option ℕ)
    (m : Market) where
  -- A call that succeeds has passed its checks.
  reserve_exact_output-eq-ok :
      {answer : ReservedRoute × Market}
      → reserve_exact_output locale_after new_id now route_id input_token output_token desired
          expires_at m
        ≡ ok answer
      → (input : String) × (output : String) × (expiry : ℕ) × (found : List Order) × (candidate_rows
            locale_after input output
            (now / 1000)
            m.orders
          ≡ ok found)
        × (reserve_found new_id now route_id input output desired expiry found m ≡ ok answer)
  unfolding reserve_exact_output
  reserve_exact_output-eq-ok done =
      let (_, d1) = >>-eq-ok (throw_if (is_empty route_id) route_id_required) _ done in
      let (input, _, d2) = >>=-eq-ok (normalize_address input_token "inputToken") _ d1 in
      let (output, _, d3) = >>=-eq-ok (normalize_address output_token "outputToken") _ d2 in
      let (_, d4) = >>-eq-ok (throw_if (str_eq input output) same_tokens) _ d3 in
      let (_, d5) = >>-eq-ok (throw_if (desired == 0) desired_not_positive) _ d4 in
      let (expiry, _, d6) = >>=-eq-ok (future_expiry now expires_at) _ d5 in
      let (_, d7) =
        >>-eq-ok (throw_if (ltb 0 (length (active_of_route route_id m))) route_already_reserved) _
          d6 in
      let (found, searched, d8) =
        >>=-eq-ok (candidate_rows locale_after input output (now / 1000) m.orders) _ d7 in
      (input, output, expiry, found, searched, d8)

  -- In sound tables, a reservation that succeeds leaves the tables sound, adds its fills to the
  -- reservations, and these deliver exactly the output that was asked for, for the input that is answered.
  pub reserve_exact_output-IsExact :
      {r : ReservedRoute} {m' : Market}
      → Sound m
      → reserve_exact_output locale_after new_id now route_id input_token output_token desired
          expires_at m
        ≡ ok (r, m')
      → IsExact m.holds desired r m'
  reserve_exact_output-IsExact s done =
      let (input, output, expiry, found, searched, ended) = reserve_exact_output-eq-ok done in
      let (f, d) =
        candidate_rows-IsOffered locale_after input output (now / 1000) m.orders s.sound_rows
          searched in
      reserve_found-IsExact new_id now route_id input output desired expiry found m s f d ended
