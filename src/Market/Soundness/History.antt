-- ===== src/Market/Soundness/History.antt =====
-- The histories of the calls of packages/fx-market/src/sqlite-market.js.
use blueballs.Prelude.{ℕ, String, Bool, false, ◌≡◌, Option, none, some, List, [], str_eq, ok}
use blueballs.Prelude.Dict.{lookup}
use blueballs.Market.Validation.{Payload, Admission}
use blueballs.Market.Orders.{Order}
use blueballs.Market.Book.{Market, admit_order}
use blueballs.Market.Reserving.{ReservedRoute, reserve_exact_output}
use blueballs.Market.Closing.{Fill, release_route, expire_reservations, confirm_route, fail_route}
use blueballs.Market.Withdrawing.{
  block_policy, unblock_policy, cancel_offchain, mark_on_chain_invalidated,
}
use blueballs.Market.Soundness.Closings.{
  Sound, release_route-Sound, expire_reservations-Sound, fail_route-Sound,
}
use blueballs.Market.Soundness.Confirming.{confirm_route-Sound}
use blueballs.Market.Soundness.Reserving.{reserve_exact_output-IsExact}
use blueballs.Market.Soundness.Admitting.{admit_order-Sound}
use blueballs.Market.Soundness.Withdrawals.{
  block_policy-Sound, unblock_policy-Sound, cancel_offchain-Sound, mark_on_chain_invalidated-Sound,
}

abbrev pub empty_market : Market
empty_market = record { orders = []; holds = []; chain_events = []; audit_events = [] }

-- A call that changes the tables. A call that throws changes nothing, and is no step.
pub data Step (m : Market) : Market → Type 0 where
  admit :
      (verify authorize : Admission → Bool) (now : ℕ) (payload : Payload) (o : Order) {m' : Market}
      → admit_order verify authorize now payload m ≡ ok (o, m')
      → Step m m'
  reserve :
      (locale_after : String → String → Bool) (new_id : ℕ → String) (now : ℕ)
      (route_id input output : String) (desired : ℕ) (expires_at : Option ℕ) (r : ReservedRoute)
      {m' : Market}
      → reserve_exact_output locale_after new_id now route_id input output desired expires_at m
        ≡ ok (r, m')
      → Step m m'
  release :
      (now : ℕ) (route_id reason : String)
      → str_eq reason "ACTIVE" ≡ false
      → Step m (release_route now route_id reason m).1
  expire : (now : ℕ) → Step m (expire_reservations now m).1
  confirm :
      (now : ℕ) (route_id event_id : String) (fills : List Fill) (duplicate : Bool) {m' : Market}
      → confirm_route now route_id event_id fills m ≡ ok (duplicate, m')
      → Step m m'
  fail : (now : ℕ) (route_id event_id : String) → Step m (fail_route now route_id event_id m).2
  block :
      (now : ℕ) (order_hash reason : String) (released : ℕ) {m' : Market}
      → block_policy now order_hash reason m ≡ ok (released, m')
      → Step m m'
  unblock :
      (now : ℕ) (order_hash : String) {m' : Market}
      → unblock_policy now order_hash m ≡ ok m'
      → Step m m'
  cancel :
      (now : ℕ) (order_hash : String) (on_chain : Bool) (released : ℕ) {m' : Market}
      → cancel_offchain now order_hash on_chain m ≡ ok (released, m')
      → Step m m'
  invalidate :
      (now : ℕ) (order_hash : String) {m' : Market}
      → mark_on_chain_invalidated now order_hash m ≡ ok m'
      → Step m m'

pub data Reach : Market → Type 0 where
  begin : Reach empty_market
  next : {m m' : Market} → Reach m → Step m m' → Reach m'

Step-Sound : {m m' : Market} → Step m m' → Sound m → Sound m'
Step-Sound {m} (admit verify authorize now payload o done) s =
    admit_order-Sound verify authorize now payload m s done
Step-Sound {m} (reserve locale_after new_id now route_id input output desired expires_at r done) s =
    (reserve_exact_output-IsExact locale_after new_id now route_id input output desired expires_at m
      s done).sound
Step-Sound {m} (release now route_id reason ends) s =
    release_route-Sound now route_id reason m ends s
Step-Sound {m} (expire now) s = expire_reservations-Sound now m s
Step-Sound {m} (confirm now route_id event_id fills duplicate done) s =
    confirm_route-Sound now route_id event_id fills m s done
Step-Sound {m} (fail now route_id event_id) s = fail_route-Sound now route_id event_id m s
Step-Sound {m} (block now order_hash reason released done) s =
    block_policy-Sound now order_hash reason m s done
Step-Sound {m} (unblock now order_hash done) s = unblock_policy-Sound now order_hash m s done
Step-Sound {m} (cancel now order_hash on_chain released done) s =
    cancel_offchain-Sound now order_hash on_chain m s done
Step-Sound {m} (invalidate now order_hash done) s =
    mark_on_chain_invalidated-Sound now order_hash m s done

empty-Sound : Sound empty_market
unfolding lookup
empty-Sound = record {
  sound_rows = record {
    distinct = tt;
    keyed = λ k o found. cc;
    priced = λ k o found. absurd (none_some found);
  };
  backed = tt;
  apart = tt;
}
  where
    none_some : {o : Order} → ◌≡◌ {A = Option Order} none (some o) → ⊥
    none_some h = cc

-- In every state that calls lead to from an empty market, where no reservation is released under the reason
-- "ACTIVE": the order book is keyed by its hashes; of each order what is filled and what is reserved do not
-- exceed what is offered, and its maker has been paid the price of what is filled, rounded up once however
-- many fills there were; no two active reservations draw on one order, and each draws on a part that the
-- order has left, at what its fill will make due, and is noted in the order unless that was invalidated.
pub Reach-Sound : {m : Market} → Reach m → Sound m
Reach-Sound begin = empty-Sound
Reach-Sound (next r step) = Step-Sound step (Reach-Sound r)
