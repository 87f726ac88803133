-- ===== src/Pricing/RiskBook/Reservations.antt =====
-- Projected positions and `reserve` of packages/fx-pricing/src/risk-book.js.
use blueballs.Prelude.{
  String, Bool, false, ◌≡◌, refl, sym, ap, ◌∙◌, subst, inl, inr, none, some, List, [], ◌∷◌, ◌++◌,
  arith, str_eq, str_eq_iff, ◌==◌, length, if◌then◌else◌, Bool-cases, ok, >>=-eq-ok, >>-eq-ok,
  require, require-eq-ok, ok-injective,
}
use blueballs.Prelude.Int.{ℤ, pos, ◌+ℤ◌, int_laws, +ℤ_assoc, +ℤ_zero}
use blueballs.Prelude.Dict.{Dict, lookup}
use blueballs.Pricing.RiskBook.{
  Position, Reservation, Book, exceeds, position_row, active_reserved_delta, projected,
  check_deltas, new_rows, first_reservation, risk_limit, check_reservation, reserve_rows, reserve,
}

-- The keys of an object are distinct.
abbrev pub IsObject : Dict ℤ → Type 0
IsObject [] = Unit {0}
IsObject ((k, v) ∷ d) = (lookup k d ≡ none) × IsObject d

pub active_reserved_delta-append :
    (asset : String) (xs ys : List Reservation)
    → active_reserved_delta asset (xs ++ ys)
      ≡ active_reserved_delta asset xs +ℤ active_reserved_delta asset ys
unfolding active_reserved_delta
active_reserved_delta-append asset [] ys = omega int_laws
active_reserved_delta-append asset (r ∷ xs) ys =
    rw (active_reserved_delta-append asset xs ys) (omega int_laws)

new_rows_missing :
    (asset quote : String) (expires : ℤ) (ds : Dict ℤ)
    → lookup asset ds ≡ none
    → active_reserved_delta asset (new_rows quote expires ds) ≡ pos 0
unfolding active_reserved_delta new_rows lookup
new_rows_missing asset quote expires [] h = refl
new_rows_missing asset quote expires ((k, d) ∷ ds) h = elim (Bool-cases (str_eq k asset)) [
  | inl same ↦ let absurd_case : some d ≡ none = rw same at h in cc
  | inr other ↦
      rw other (rw (new_rows_missing asset quote expires ds (rw other at h)) (omega int_laws))
]

new_rows_found :
    (asset quote : String) (expires d : ℤ) (ds : Dict ℤ)
    → IsObject ds
    → lookup asset ds ≡ some d
    → active_reserved_delta asset (new_rows quote expires ds) ≡ d
unfolding active_reserved_delta new_rows lookup
new_rows_found asset quote expires d [] o h = cc
new_rows_found asset quote expires d ((k, e) ∷ ds) (fresh, o) h =
    elim (Bool-cases (str_eq k asset)) [
      | inl same ↦
          let found : e ≡ d = ground arith in
          let gone : lookup asset ds ≡ none = rw (← (str_eq_iff k asset).0 same) fresh in
          rw (same, new_rows_missing asset quote expires ds gone) (+ℤ_zero e ∙ found)
      | inr other ↦
          rw other (rw (new_rows_found asset quote expires d ds o (rw other at h)) (omega int_laws))
    ]

pub projected-eq-ok :
    (b : Book) (asset : String) (row : Position) {x : ℤ}
    → position_row b.positions asset ≡ ok row
    → row.settled +ℤ active_reserved_delta asset b.reservations ≡ x
    → projected b asset ≡ ok x
unfolding projected
projected-eq-ok b asset row found e = rw found (ap ok e)

-- The row that a check tests for an asset and a delta, if it does not throw.
check_deltas-next :
    (b : Book) (k : String) (x : ℤ) (ds : Dict ℤ) {failures : List String}
    → check_deltas b ((k, x) ∷ ds) ≡ ok failures
    → (row : Position) × (rest : List String) × (position_row b.positions k ≡ ok row)
      × (check_deltas b ds ≡ ok rest)
      × ((if exceeds (row.settled +ℤ active_reserved_delta k b.reservations +ℤ x) row.hard_limit
            then k ∷ rest
            else rest)
          ≡ failures)
unfolding check_deltas projected
check_deltas-next b k x ds e =
    let (row, found, more) = >>=-eq-ok (position_row b.positions k) _ e in
    let (now, at_now, last) = >>=-eq-ok (projected b k) _ more in
    let (rest, checked, done) = >>=-eq-ok (check_deltas b ds) _ last in
    let same : now ≡ row.settled +ℤ active_reserved_delta k b.reservations =
      ok-injective (sym at_now ∙ rw found) in
    (row, rest, found, checked, rw (← same) (ok-injective done))

check_deltas_sound :
    (b : Book) (asset : String) (d : ℤ) (ds : Dict ℤ) {failures : List String}
    → check_deltas b ds ≡ ok failures
    → length failures ≡ 0
    → lookup asset ds ≡ some d
    → (row : Position) × (position_row b.positions asset ≡ ok row)
      × (exceeds (row.settled +ℤ active_reserved_delta asset b.reservations +ℤ d) row.hard_limit
          ≡ false)
unfolding lookup
check_deltas_sound b asset d [] e none_failed h = cc
check_deltas_sound b asset d ((k, x) ∷ ds) {failures} e none_failed h =
    let (row, rest, found, checked, listed) = check_deltas-next b k x ds e in
    let projection = row.settled +ℤ active_reserved_delta k b.reservations +ℤ x in
    elim (Bool-cases (exceeds projection row.hard_limit)) [
      | inl over ↦
          let failed : (k ∷ rest) ≡ failures = rw over at listed in
          absurd (omega (arith, ap length failed))
      | inr fits ↦ elim (Bool-cases (str_eq k asset)) [
        | inl same ↦
            let key = (str_eq_iff k asset).0 same in
            let value : x ≡ d = ground arith in
            subst
              (λ a.
                (r : Position) × (position_row b.positions a ≡ ok r)
                × (exceeds (r.settled +ℤ active_reserved_delta a b.reservations +ℤ d) r.hard_limit
                    ≡ false))
              key (row, found, rw (← value) fits)
        | inr other ↦
            let passed : rest ≡ failures = rw fits at listed in
            check_deltas_sound b asset d ds checked (ap length passed ∙ none_failed) (rw other at h)
      ]
    ]

-- The projected position of an asset in a book, within its limit.
abbrev pub IsProjectedWithin : Book → String → Type 0
IsProjectedWithin b asset =
    (row : Position) × (x : ℤ) × (position_row b.positions asset ≡ ok row)
    × (projected b asset ≡ ok x)
    × (exceeds x row.hard_limit ≡ false)

first_reservation-within :
    (b : Book) (quote : String) (deltas : Dict ℤ) (expires : ℤ) (duplicate : Bool) {b' : Book}
    (asset : String) (d : ℤ)
    → IsObject deltas
    → first_reservation b quote deltas expires ≡ ok (duplicate, b')
    → lookup asset deltas ≡ some d
    → IsProjectedWithin b' asset
unfolding first_reservation
first_reservation-within b quote deltas expires duplicate {b'} asset d o e h =
    let (failures, checked, rest) = >>=-eq-ok (check_deltas b deltas) _ e in
    let (passed, done) = >>-eq-ok (require (length failures == 0) (risk_limit failures)) _ rest in
    let none_failed : length failures ≡ 0 = ground (arith, require-eq-ok _ _ passed) in
    let (row, found, fits) = check_deltas_sound b asset d deltas checked none_failed h in
    let added = new_rows_found asset quote expires d deltas o h in
    let total = active_reserved_delta-append asset b.reservations (new_rows quote expires deltas) in
    let after = record b { reservations = b.reservations ++ new_rows quote expires deltas } in
    let x = row.settled +ℤ active_reserved_delta asset b.reservations +ℤ d in
    let at_x : row.settled +ℤ active_reserved_delta asset after.reservations ≡ x =
      rw (total, added)
        (sym (+ℤ_assoc row.settled (active_reserved_delta asset b.reservations) d)) in
    subst (λ c. IsProjectedWithin c.1 asset) (ok-injective done)
      (row, x, found, projected-eq-ok after asset row found at_x, fits)

-- What a transaction that is no repetition made is a first reservation.
reserve_rows-first :
    (b : Book) (quote : String) (deltas : Dict ℤ) (expires : ℤ) {b' : Book}
    → reserve_rows b quote deltas expires ≡ ok (false, b')
    → first_reservation b quote deltas expires ≡ ok (false, b')
unfolding reserve_rows
reserve_rows-first b quote deltas expires e = ground arith

-- A new reservation (a quote's first, no repetition) that is admitted leaves, for each asset that
-- its deltas name, a projected position (settled and all active reservations, the new one
-- included) whose absolute value is within the asset's hard limit.
pub reserve-IsProjectedWithin :
    (b : Book) (now : ℤ) (quote : String) (deltas : Dict ℤ) (expires : ℤ) {b' : Book}
    (asset : String) (d : ℤ)
    → IsObject deltas
    → reserve b now quote deltas expires ≡ ok (false, b')
    → lookup asset deltas ≡ some d
    → IsProjectedWithin b' asset
unfolding reserve
reserve-IsProjectedWithin b now quote deltas expires asset d o e h =
    first_reservation-within b quote deltas expires false asset d o
      (reserve_rows-first b quote deltas expires
        (>>-eq-ok (check_reservation now quote deltas expires) _ e).1)
      h
