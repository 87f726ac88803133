-- ===== src/Market/Soundness/Confirming.antt =====
-- `confirmRoute` of packages/fx-market/src/sqlite-market.js keeps the tables sound, and confirms a settlement
-- that reports what was reserved.
use blueballs.Prelude.{
  ℕ, suc, ◌+◌, ◌≤◌, String, Bool, true, false, ◌≡◌, refl, ap, subst, inl, inr, none, some, List, [],
  ◌∷◌, ◌++◌, map, length, arith, is_empty, ltb, ◌==◌, Bool-cases, ok, err, >>=-eq-ok, >>-eq-ok,
  ok-injective,
}
use blueballs.Prelude.Dict.{lookup, insert, str_eq_refl}
use blueballs.Market.Validation.{fill_mismatch}
use blueballs.Market.Orders.{Order}
use blueballs.Market.Book.{ChainEvent, Hold, Market, with_state, active_of_route, audit}
use blueballs.Market.Closing.{
  Fill, matches, filled_by, confirm_order, confirm_hold, confirm_holds, has_event, event_of,
  confirm_new, confirm_route,
}
use blueballs.Market.Soundness.Invariant.{IsPriced, Fits, ceil_div-le}
use blueballs.Market.Soundness.Ending.{end-IsSound}
use blueballs.Market.Soundness.Closings.{Sound, Ready, active_of_route-Ready}

filled_by-IsPriced : (h : Hold) (o : Order) → IsPriced o → Fits o h → IsPriced (filled_by h o)
unfolding filled_by
filled_by-IsPriced h o p f = record {
  some_sell = p.some_sell;
  within = omega (arith, f.fits);
  priced = f.pays;
}

-- The guard against an exceeded order never fires.
confirm_order-ok :
    (h : Hold) (o : Order) → IsPriced o → Fits o h → confirm_order h (some o) ≡ ok (filled_by h o)
unfolding confirm_order filled_by
confirm_order-ok h o p f =
    let sold : ltb o.sell_amount (o.filled_sell + h.maker_sell) ≡ false = ground (arith, f.fits) in
    let due : o.filled_buy + h.taker_pay ≤ o.buy_amount = omega (
      arith,
      f.pays,
      ceil_div-le (o.filled_sell + h.maker_sell) o.buy_amount o.sell_amount p.some_sell f.fits,
    ) in
    let bought : ltb o.buy_amount (o.filled_buy + h.taker_pay) ≡ false = ground arith in
    rw (sold, bought) refl

abbrev confirmed : Hold → Order → Market → Market
confirmed h o m = record m {
  orders = insert h.order_hash (filled_by h o) m.orders;
  holds = map (with_state h.reservation_id "CONSUMED") m.holds;
}

confirm_hold-ok :
    (f : Fill) (h : Hold) (m : Market) (o : Order)
    → matches f h ≡ true
    → lookup h.order_hash m.orders ≡ some o
    → IsPriced o
    → Fits o h
    → confirm_hold f h m ≡ ok (confirmed h o m)
unfolding confirm_hold
confirm_hold-ok f h m o matched found p fits = rw (matched, found, confirm_order-ok h o p fits) refl

confirmed-Sound :
    (h : Hold) (hs : List Hold) (o : Order) (m : Market)
    → lookup h.order_hash m.orders ≡ some o
    → Fits o h
    → Sound m
    → Ready m (h ∷ hs)
    → Sound (confirmed h o m) × Ready (confirmed h o m) hs
unfolding filled_by
confirmed-Sound h hs o m found fits s r =
    end-IsSound m.orders m.holds "CONSUMED" refl h hs (filled_by h o) s r
      (filled_by-IsPriced h o (s.sound_rows.priced h.order_hash o found) fits)
      (s.sound_rows.keyed h.order_hash o found)

confirm_hold-mismatch :
    (f : Fill) (h : Hold) (m : Market)
    → matches f h ≡ false
    → confirm_hold f h m ≡ err fill_mismatch
unfolding confirm_hold
confirm_hold-mismatch f h m differs = rw differs refl

confirm_holds-Sound :
    (fs : List Fill) (hs : List Hold) (m : Market) {m' : Market}
    → Sound m
    → Ready m hs
    → confirm_holds fs hs m ≡ ok m'
    → Sound m'
unfolding confirm_holds
confirm_holds-Sound [] [] m s r done = subst Sound (ok-injective done) s
confirm_holds-Sound (f ∷ fs) [] m s r done = subst Sound (ok-injective done) s
confirm_holds-Sound [] (h ∷ hs) m s r done = subst Sound (ok-injective done) s
confirm_holds-Sound (f ∷ fs) (h ∷ hs) m s r done = elim (Bool-cases (matches f h)) [
  | inl matched ↦
      let (o, found, fits) = r.fit.0 in
      let first =
        confirm_hold-ok f h m o matched found (s.sound_rows.priced h.order_hash o found) fits in
      let (s', r') = confirmed-Sound h hs o m found fits s r in
      confirm_holds-Sound fs hs (confirmed h o m) s' r' (rw first at done)
  | inr differs ↦ let none_done = rw (confirm_hold-mismatch f h m differs) at done in cc
]

-- Each fill reports the reservation at its place.
abbrev pub Report : List Fill → List Hold → Type 0
Report [] [] = Unit
Report [] (h ∷ hs) = ⊥
Report (f ∷ fs) [] = ⊥
Report (f ∷ fs) (h ∷ hs) = (matches f h ≡ true) × Report fs hs

confirm_holds_succeeds :
    (fs : List Fill) (hs : List Hold) (m : Market)
    → Report fs hs
    → Sound m
    → Ready m hs
    → (m' : Market) × (confirm_holds fs hs m ≡ ok m') × Sound m'
unfolding confirm_holds
confirm_holds_succeeds [] [] m report s r = (m, refl, s)
confirm_holds_succeeds [] (h ∷ hs) m report s r = absurd report
confirm_holds_succeeds (f ∷ fs) [] m report s r = absurd report
confirm_holds_succeeds (f ∷ fs) (h ∷ hs) m report s r =
    let (o, found, fits) = r.fit.0 in
    let first =
      confirm_hold-ok f h m o report.0 found (s.sound_rows.priced h.order_hash o found) fits in
    let (s', r') = confirmed-Sound h hs o m found fits s r in
    let (m', rest, s'') = confirm_holds_succeeds fs hs (confirmed h o m) report.1 s' r' in
    (m', rw first rest, s'')

Report-length : (fs : List Fill) (hs : List Hold) → Report fs hs → length hs ≡ length fs
Report-length [] [] r = refl
Report-length [] (h ∷ hs) r = absurd r
Report-length (f ∷ fs) [] r = absurd r
Report-length (f ∷ fs) (h ∷ hs) r = ap suc (Report-length fs hs r.1)

abbrev noted : (now : ℕ) → (route_id event_id : String) → Market → Market
noted now route_id event_id m = record m {
  chain_events = m.chain_events ++ event_of event_id route_id "SETTLEMENT_CONFIRMED" now ∷ [];
}

confirm_new-Sound :
    (now : ℕ) (route_id event_id : String) (fills : List Fill) (m : Market) {dup : Bool}
    {m' : Market}
    → Sound m
    → confirm_new now route_id event_id fills m ≡ ok (dup, m')
    → Sound m'
unfolding confirm_new audit
confirm_new-Sound now route_id event_id fills m s done =
    let (some_found, rest) = >>-eq-ok _ _ done in
    let (same_count, rest') = >>-eq-ok _ _ rest in
    let (end, ended, result) = >>=-eq-ok _ _ rest' in
    let sound : Sound end =
      confirm_holds-Sound fills (active_of_route route_id m) m s
        (active_of_route-Ready route_id m s) ended in
    subst Sound (ap (λ x. x.1) (ok-injective result)) sound

pub confirm_route-Sound :
    (now : ℕ) (route_id event_id : String) (fills : List Fill) (m : Market) {dup : Bool}
    {m' : Market}
    → Sound m
    → confirm_route now route_id event_id fills m ≡ ok (dup, m')
    → Sound m'
unfolding confirm_route
confirm_route-Sound now route_id event_id fills m s done = elim (Bool-cases (is_empty event_id)) [
  | inl nameless ↦ let wrong = rw nameless at done in cc
  | inr named ↦ elim (Bool-cases (has_event event_id m.chain_events)) [
    | inl old ↦
        let kept = rw (named, old) at done in subst Sound (ap (λ x. x.1) (ok-injective kept)) s
    | inr new ↦ confirm_new-Sound now route_id event_id fills m s (rw (named, new) at done)
  ]
]

==_refl : (n : ℕ) → (n == n) ≡ true
==_refl n = ground arith

has_event-append :
    (event_id : String) (es : List ChainEvent) (e : ChainEvent)
    → e.event_id ≡ event_id
    → has_event event_id (es ++ e ∷ []) ≡ true
has_event-append event_id [] e same = rw (same, str_eq_refl event_id) refl
has_event-append event_id (x ∷ es) e same = ground (arith, has_event-append event_id es e same)

-- In sound tables, a settlement of a route that has active reservations, reported under a new event with
-- the fills of these reservations in their order, is confirmed: no order is exceeded, the tables stay sound,
-- and reporting the event again changes nothing.
pub confirm_route_succeeds :
    (now : ℕ) (route_id event_id : String) (fills : List Fill) (m : Market)
    → Sound m
    → is_empty event_id ≡ false
    → has_event event_id m.chain_events ≡ false
    → (length fills == 0) ≡ false
    → Report fills (active_of_route route_id m)
    → (m' : Market) × (confirm_route now route_id event_id fills m ≡ ok (false, m'))
      × Sound m'
      × ((later : ℕ) (others : List Fill)
          → confirm_route later route_id event_id others m' ≡ ok (true, m'))
unfolding confirm_route confirm_new audit
confirm_route_succeeds now route_id event_id fills m s named new some_fills report =
    let (end, ended, sound) =
      confirm_holds_succeeds fills (active_of_route route_id m) m report s
        (active_of_route-Ready route_id m s) in
    let count = Report-length fills (active_of_route route_id m) report in
    (
      audit "SETTLEMENT_CONFIRMED" none (some route_id) now (noted now route_id event_id end),
      rw (named, new, count, some_fills, ==_refl (length fills), ended) refl,
      sound,
      λ later others.
          rw
            (
              named,
              has_event-append event_id end.chain_events
                  (event_of event_id route_id "SETTLEMENT_CONFIRMED" now) refl,
            )
            refl,
    )
