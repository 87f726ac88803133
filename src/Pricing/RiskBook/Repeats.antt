-- ===== src/Pricing/RiskBook/Repeats.antt =====
-- The two outcomes of `reserve` of packages/fx-pricing/src/risk-book.js, a repetition and a new
-- reservation, and what a new one of two assets leaves.
use blueballs.Prelude.{
  sym, ◌++◌, ◌&&◌, all, ◌≡◌, ◌⊎◌, inl, inr, refl, ap, String, Bool, true, false, [], ◌∷◌, str_eq,
  str_eq_iff, ◌≢◌, ◌==◌, ok, arith, require, length, >>=-eq-ok, >>-eq-ok, ok-injective,
}
use blueballs.Prelude.Int.{ℤ}
use blueballs.Prelude.Dict.{Dict, lookup}
use blueballs.Pricing.RiskBook.{
  Book, check_deltas, risk_limit, reserve, reserve_rows, first_reservation, check_reservation,
  rows_of, active_rows_of, is_same_row, new_rows,
}
use blueballs.Pricing.RiskBook.Reservations.{IsProjectedWithin, IsObject, reserve-IsProjectedWithin}

-- A first reservation is no repetition.
first_reservation-new :
    (book : Book) (id : String) (deltas : Dict ℤ) (expires : ℤ) {book' : Book}
    → first_reservation book id deltas expires ≢ ok (true, book')
unfolding first_reservation
first_reservation-new book id deltas expires made =
    let (failures, _, rest) = >>=-eq-ok (check_deltas book deltas) _ made in
    let (_, done) = >>-eq-ok (require (length failures == 0) (risk_limit failures)) _ rest in
    let clash : false ≡ true = ap (λ r. r.0) (ok-injective done) in cc

-- The call repeats a reservation: the quote has rows, the active ones are those asked for, and nothing
-- changes.
pub record Repeats (book book' : Book) (id : String) (deltas : Dict ℤ) (expires : ℤ) : Type 0 where
  pub unchanged : book' ≡ book
  pub known : (length (rows_of id book.reservations) == 0) ≡ false
  pub same_rows :
      (length (active_rows_of id book.reservations) == length deltas
        && all (is_same_row deltas expires) (active_rows_of id book.reservations))
      ≡ true

-- The call reserves: rows for the deltas stand behind the ones that were there.
pub record Reserves (book book' : Book) (id : String) (deltas : Dict ℤ) (expires : ℤ) : Type 0 where
  pub unknown : (length (rows_of id book.reservations) == 0) ≡ true
  pub added : book'.reservations ≡ book.reservations ++ new_rows id expires deltas
  pub same_positions : book'.positions ≡ book.positions

first_reservation-added :
    (book : Book) (id : String) (deltas : Dict ℤ) (expires : ℤ) {book' : Book}
    → first_reservation book id deltas expires ≡ ok (false, book')
    → record book { reservations = book.reservations ++ new_rows id expires deltas } ≡ book'
unfolding first_reservation
first_reservation-added book id deltas expires made =
    let (failures, _, rest) = >>=-eq-ok (check_deltas book deltas) _ made in
    let (_, done) = >>-eq-ok (require (length failures == 0) (risk_limit failures)) _ rest in
    ap (λ r. r.1) (ok-injective done)

reserve_rows-new :
    (book : Book) (id : String) (deltas : Dict ℤ) (expires : ℤ) {book' : Book}
    → reserve_rows book id deltas expires ≡ ok (false, book')
    → Reserves book book' id deltas expires
unfolding reserve_rows
reserve_rows-new book id deltas expires {book'} made =
    let fresh : (length (rows_of id book.reservations) == 0) ≡ true = ground arith in
    let first : first_reservation book id deltas expires ≡ ok (false, book') = ground arith in
    let written = first_reservation-added book id deltas expires first in
    record {
      unknown = fresh;
      added = sym (ap (λ b. b.reservations) written);
      same_positions = sym (ap (λ b. b.positions) written);
    }

reserve_rows-repeat :
    (book : Book) (id : String) (deltas : Dict ℤ) (expires : ℤ) {book' : Book}
    → reserve_rows book id deltas expires ≡ ok (true, book')
    → Repeats book book' id deltas expires
unfolding reserve_rows
reserve_rows-repeat book id deltas expires {book'} made =
    let never = first_reservation-new book id deltas expires {book' = book'} in
    record { unchanged = ground arith; known = ground arith; same_rows = ground arith }

-- A reservation that returns repeats one that is there, or is new.
pub reserve-cases :
    (book : Book) (now : ℤ) (id : String) (deltas : Dict ℤ) (expires : ℤ) (duplicate : Bool)
    {book' : Book}
    → reserve book now id deltas expires ≡ ok (duplicate, book')
    → Repeats book book' id deltas expires
      ⊎ (Reserves book book' id deltas expires
          × (reserve book now id deltas expires ≡ ok (false, book')))
unfolding reserve
reserve-cases book now id deltas expires false made = inr (
  reserve_rows-new book id deltas expires
      (>>-eq-ok (check_reservation now id deltas expires) _ made).1,
  made,
)
reserve-cases book now id deltas expires true made = inl (
    reserve_rows-repeat book id deltas expires
      (>>-eq-ok (check_reservation now id deltas expires) _ made).1)

-- What two deltas of different assets leave in the book.
pub two_deltas-IsProjectedWithin :
    (book : Book) (now : ℤ) (id input output : String) (x y : ℤ) (expires : ℤ) {book' : Book}
    → str_eq input output ≡ false
    → reserve book now id ((input, x) ∷ (output, y) ∷ []) expires ≡ ok (false, book')
    → IsProjectedWithin book' input × IsProjectedWithin book' output
unfolding lookup
two_deltas-IsProjectedWithin book now id input output x y expires differ made =
    let deltas : Dict ℤ = (input, x) ∷ (output, y) ∷ [] in
    let apart : str_eq output input ≡ false =
      ground (arith, str_eq_iff input output, str_eq_iff output input) in
    let object : IsObject deltas = (rw apart refl, (refl, tt)) in
    (
      reserve-IsProjectedWithin book now id deltas expires input x object made
          (ground (arith, str_eq_iff input input)),
      reserve-IsProjectedWithin book now id deltas expires output y object made
          (ground (arith, str_eq_iff output output)),
    )
