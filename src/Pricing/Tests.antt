-- ===== src/Pricing/Tests.antt =====
-- A run of the risk book, and examples of what is proved of it.
use blueballs.Prelude.{String, true, false, ◌≡◌, refl, none, some, List, [], ◌∷◌, ok, err}
use blueballs.Prelude.Int.{ℤ, pos, negsuc, ◌+ℤ◌}
use blueballs.Prelude.Dict.{lookup, insert}
use blueballs.Pricing.RiskBook.{
  Reservation, RiskEvent, Book, risk_limit, position_row, exceeds, projected, check_deltas,
  configure_asset, reserve, check_reservation, reserve_rows, first_reservation, new_rows,
  active_reserved_delta, settle, first_settlement, settle_rows, close_rows,
}
use blueballs.Pricing.RiskBook.Limits.{
  AllWithin, here, next, configure, reserving, settling, Reach-AllWithin,
}
use blueballs.Pricing.RiskBook.Reservations.{IsProjectedWithin, reserve-IsProjectedWithin}
use blueballs.Pricing.RiskBook.Settlements.{Moves, settle-Moves, settle_again}

abbrev empty_book : Book
empty_book = record { positions = []; reservations = []; events = [] }

abbrev book : ℤ → List Reservation → List RiskEvent → Book
book settled reservations events = record {
  positions = ("EUR", record { settled = settled; hard_limit = pos 100 }) ∷ [];
  reservations = reservations;
  events = events;
}

abbrev held : String → Reservation
held state = record {
  quote_id = "q1";
  asset = "EUR";
  delta = negsuc 59;
  expires_at = pos 50;
  state = state;
}

abbrev configured_book : Book
configured_book = book (pos 0) [] []

abbrev reserved_book : Book
reserved_book = book (pos 0) (held "ACTIVE" ∷ []) []

abbrev settled_book : Book
settled_book =
    book (negsuc 59) (held "SETTLED" ∷ [])
      (record { event_id = "e1"; quote_id = "q1"; created_at = pos 2 } ∷ [])

configures : configure_asset empty_book "EUR" (pos 100) ≡ ok configured_book
unfolding configure_asset lookup insert
configures = refl

reserves :
    reserve configured_book (pos 1) "q1" (("EUR", negsuc 59) ∷ []) (pos 50)
    ≡ ok (false, reserved_book)
unfolding reserve check_reservation reserve_rows first_reservation check_deltas position_row
    projected active_reserved_delta exceeds new_rows lookup ◌+ℤ◌
reserves = refl

-- A second quote may not take the position beyond its limit.
limit_refused :
    reserve reserved_book (pos 1) "q2" (("EUR", negsuc 40) ∷ []) (pos 50)
    ≡ err (risk_limit ("EUR" ∷ []))
unfolding reserve check_reservation reserve_rows first_reservation check_deltas position_row
    projected active_reserved_delta exceeds new_rows lookup ◌+ℤ◌
limit_refused = refl

settles : settle reserved_book (pos 2) "q1" "e1" ≡ ok (false, settled_book)
unfolding settle first_settlement settle_rows close_rows position_row exceeds lookup insert ◌+ℤ◌
settles = refl

empty_book-AllWithin : AllWithin empty_book.positions
unfolding lookup
empty_book-AllWithin asset p h = cc

Reach-AllWithin_example : AllWithin settled_book.positions
Reach-AllWithin_example =
    Reach-AllWithin
      (next
        (next (next here (configure "EUR" (pos 100) configures))
          (reserving (pos 1) "q1" (("EUR", negsuc 59) ∷ []) (pos 50) false reserves))
        (settling (pos 2) "q1" "e1" false settles))
      empty_book-AllWithin

named : lookup "EUR" (("EUR", negsuc 59) ∷ []) ≡ some (negsuc 59)
unfolding lookup
named = refl

single : lookup {V = ℤ} "EUR" [] ≡ none
unfolding lookup
single = refl

reserve-IsProjectedWithin_example : IsProjectedWithin reserved_book "EUR"
reserve-IsProjectedWithin_example =
    reserve-IsProjectedWithin configured_book (pos 1) "q1" (("EUR", negsuc 59) ∷ []) (pos 50) "EUR"
      (negsuc 59) (single, tt) reserves named

settle-Moves_example : Moves "q1" "EUR" reserved_book settled_book
settle-Moves_example = settle-Moves reserved_book (pos 2) "q1" "e1" settles "EUR"

settle_again_example : settle settled_book (pos 9) "other" "e1" ≡ ok (true, settled_book)
settle_again_example = settle_again reserved_book (pos 2) "q1" "e1" false settles (pos 9) "other"
