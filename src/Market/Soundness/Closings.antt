-- ===== src/Market/Soundness/Closings.antt =====
-- `releaseRoute`, `expireReservations` and `failRoute` of packages/fx-market/src/sqlite-market.js keep the
-- tables sound.
use blueballs.Prelude.{
  ℕ, String, false, not, ◌&&◌, ◌≡◌, refl, inl, inr, none, some, List, [], ◌∷◌, ◌++◌, map, keep,
  unique, leb, length, arith, str_eq, is_empty, ltb, Bool-cases,
}
use blueballs.Prelude.Dict.{Dict, lookup, insert}
use blueballs.Market.Orders.{Order, restored}
use blueballs.Market.Book.{Hold, Market, is_active, update_order, active_of_route, audit}
use blueballs.Market.Closing.{
  close_hold, close_holds, release_route, expire_routes, expire_reservations, has_event, event_of,
  fail_route,
}
use blueballs.Market.Soundness.Invariant.{IsPriced, IsSound}
use blueballs.Market.Soundness.Ending.{IsReady, keep-IsReady, end-IsSound}

restored-IsPriced : (o : Order) → IsPriced o → IsPriced (restored o)
unfolding restored
restored-IsPriced o p = record {
  some_sell = p.some_sell;
  within = omega (arith, p.within);
  priced = p.priced;
}

pub update_order-found :
    (k : String) (change : Order → Order) (orders : Dict Order) (o : Order)
    → lookup k orders ≡ some o
    → update_order k change orders ≡ insert k (change o) orders
unfolding update_order
update_order-found k change orders o found = rw (found, update_order) refl

abbrev pub Sound : Market → Type 0
Sound m = IsSound m.orders m.holds

abbrev pub Ready : Market → List Hold → Type 0
Ready m hs = IsReady m.orders m.holds hs

close_hold-Sound :
    (reason : String) (m : Market) (h : Hold) (hs : List Hold)
    → str_eq reason "ACTIVE" ≡ false
    → Sound m
    → Ready m (h ∷ hs)
    → Sound (close_hold reason m h) × Ready (close_hold reason m h) hs
unfolding close_hold restored
close_hold-Sound reason m h hs ends s r =
    let (o, found, fits) = r.fit.0 in
    rw (update_order-found h.order_hash restored m.orders o found) (
      end-IsSound m.orders m.holds reason ends h hs (restored o) s r
        (restored-IsPriced o (s.sound_rows.priced h.order_hash o found))
        (s.sound_rows.keyed h.order_hash o found))

close_holds-Sound :
    (reason : String) (m : Market) (hs : List Hold)
    → str_eq reason "ACTIVE" ≡ false
    → Sound m
    → Ready m hs
    → Sound (close_holds reason m hs)
unfolding close_holds
close_holds-Sound reason m [] ends s r = s
close_holds-Sound reason m (h ∷ hs) ends s r =
    let (s', r') = close_hold-Sound reason m h hs ends s r in
    close_holds-Sound reason (close_hold reason m h) hs ends s' r'

pub active_of_route-Ready :
    (route_id : String) (m : Market) → Sound m → Ready m (active_of_route route_id m)
active_of_route-Ready route_id m s =
    keep-IsReady (λ h. str_eq h.route_id route_id && is_active h) (λ h both. ground arith) m.orders
      m.holds s

close_route-Sound :
    (reason route_id : String) (m : Market)
    → str_eq reason "ACTIVE" ≡ false
    → Sound m
    → Sound (close_holds reason m (active_of_route route_id m))
close_route-Sound reason route_id m ends s =
    close_holds-Sound reason m (active_of_route route_id m) ends s
      (active_of_route-Ready route_id m s)

pub release_route-Sound :
    (now : ℕ) (route_id reason : String) (m : Market)
    → str_eq reason "ACTIVE" ≡ false
    → Sound m
    → Sound (release_route now route_id reason m).1
unfolding release_route audit
release_route-Sound now route_id reason m ends s =
    elim (Bool-cases (ltb 0 (length (active_of_route route_id m)))) [
      | inl e ↦ rw e (close_route-Sound reason route_id m ends s)
      | inr e ↦ rw e (close_route-Sound reason route_id m ends s)
    ]

expire_routes-Sound :
    (now : ℕ) (m : Market) (routes : List String) → Sound m → Sound (expire_routes now m routes).1
unfolding expire_routes audit
expire_routes-Sound now m [] s = s
expire_routes-Sound now m (route_id ∷ routes) s =
    expire_routes-Sound now
      (audit "ROUTE_EXPIRED" none (some route_id) now
        (close_holds "EXPIRED" m (active_of_route route_id m)))
      routes (close_route-Sound "EXPIRED" route_id m refl s)

pub expire_reservations-Sound :
    (now : ℕ) (m : Market) → Sound m → Sound (expire_reservations now m).1
unfolding expire_reservations
expire_reservations-Sound now m s =
    expire_routes-Sound now m
      (unique (map (λ h. h.route_id) (keep (λ h. is_active h && leb h.expires_at now) m.holds))) s

pub fail_route-Sound :
    (now : ℕ) (route_id event_id : String) (m : Market)
    → Sound m
    → Sound (fail_route now route_id event_id m).2
unfolding fail_route audit
fail_route-Sound now route_id event_id m s =
    elim (Bool-cases (not (is_empty event_id) && has_event event_id m.chain_events)) [
      | inl e ↦ rw e s
      | inr e ↦ elim (Bool-cases (is_empty event_id)) [
        | inl nameless ↦ rw (e, nameless) (close_route-Sound "RELEASED" route_id m refl s)
        | inr named ↦
            rw (e, named)
              (close_holds-Sound "RELEASED"
                (record m {
                  chain_events =
                      m.chain_events ++ event_of event_id route_id "SETTLEMENT_FAILED" now ∷ [];
                })
                (active_of_route route_id m) refl s (active_of_route-Ready route_id m s))
      ]
    ]
