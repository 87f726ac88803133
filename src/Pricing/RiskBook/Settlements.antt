-- ===== src/Pricing/RiskBook/Settlements.antt =====
-- Positions and `settle` of packages/fx-pricing/src/risk-book.js.
use blueballs.Prelude.{
  String, Bool, true, false, ◌≡◌, refl, ap, ◌∙◌, subst, inl, inr, List, [], ◌∷◌, ◌++◌, arith,
  str_eq, ◌==◌, length, is_empty, Bool-cases, ok, >>=-eq-ok, >>-eq-ok, throw_if, throw_if-eq-ok,
  ok-injective,
}
use blueballs.Prelude.Int.{ℤ, ◌+ℤ◌, int_laws}
use blueballs.Prelude.Dict.{lookup, str_eq_refl}
use blueballs.Pricing.RiskBook.{
  RiskEvent, Book, active_reserved_delta, active_rows_of, settle_rows, has_event, first_settlement,
  settle, no_active_reservation, event_id_required,
}
use blueballs.Pricing.RiskBook.Closings.{
  reserved_by, close_rows-reserved, settled_of, settle_rows-settled, delta_sum-active_rows_of,
  settle-first,
}

-- The effect of a settlement of `quote` on one asset.
pub record Moves (quote asset : String) (b b' : Book) : Type 0 where
  pub settled :
      settled_of (lookup asset b'.positions)
      ≡ settled_of (lookup asset b.positions) +ℤ reserved_by quote asset b.reservations
  pub freed_reservation :
      active_reserved_delta asset b'.reservations +ℤ reserved_by quote asset b.reservations
      ≡ active_reserved_delta asset b.reservations
  pub same_projection :
      settled_of (lookup asset b'.positions) +ℤ active_reserved_delta asset b'.reservations
      ≡ settled_of (lookup asset b.positions) +ℤ active_reserved_delta asset b.reservations

regroup_projection : (s q a : ℤ) → s +ℤ q +ℤ a ≡ s +ℤ (a +ℤ q)
regroup_projection s q a = omega int_laws

Moves-of_parts :
    (quote asset : String) (b b' : Book)
    → settled_of (lookup asset b'.positions)
      ≡ settled_of (lookup asset b.positions) +ℤ reserved_by quote asset b.reservations
    → active_reserved_delta asset b'.reservations +ℤ reserved_by quote asset b.reservations
      ≡ active_reserved_delta asset b.reservations
    → Moves quote asset b b'
Moves-of_parts quote asset b b' moved freed_delta = record {
  settled = moved;
  freed_reservation = freed_delta;
  same_projection =
      ap (λ x. x +ℤ active_reserved_delta asset b'.reservations) moved
      ∙ regroup_projection (settled_of (lookup asset b.positions))
          (reserved_by quote asset b.reservations) (active_reserved_delta asset b'.reservations)
      ∙ ap (λ x. settled_of (lookup asset b.positions) +ℤ x) freed_delta;
}

-- A settlement under a new event id that succeeds adds to the settled position of each asset what
-- the quote's active rows reserved of it, takes the same amount out of the active reservations,
-- and so leaves the projected position of every asset as it was.
pub settle-Moves :
    (b : Book) (now : ℤ) (quote event : String) {b' : Book}
    → settle b now quote event ≡ ok (false, b')
    → (asset : String) → Moves quote asset b b'
unfolding first_settlement
settle-Moves b now quote event e asset =
    let active = active_rows_of quote b.reservations in
    let first = settle-first b now quote event e in
    let (_, rest) = >>-eq-ok (throw_if (length active == 0) no_active_reservation) _ first in
    let (ps, settled, done) = >>=-eq-ok (settle_rows b.positions active) _ rest in
    subst (λ x. Moves quote asset b x.1) (ok-injective done)
      (Moves-of_parts quote asset b _
        (settle_rows-settled asset b.positions active settled
          ∙ ap (λ x. settled_of (lookup asset b.positions) +ℤ x)
              (delta_sum-active_rows_of quote asset b.reservations))
        (close_rows-reserved "SETTLED" quote asset b.reservations refl))

has_event-append :
    (event : String) (es : List RiskEvent) (e : RiskEvent)
    → str_eq e.event_id event ≡ true
    → has_event event (es ++ e ∷ []) ≡ true
has_event-append event [] e h = rw h
has_event-append event (x ∷ es) e h = ground (arith, has_event-append event es e h)

settle-has_event :
    (b : Book) (now : ℤ) (quote event : String) (duplicate : Bool) {b' : Book}
    → settle b now quote event ≡ ok (duplicate, b')
    → (is_empty event ≡ false) × (has_event event b'.events ≡ true)
unfolding settle first_settlement
settle-has_event b now quote event duplicate e =
    let (named, rest) = >>-eq-ok (throw_if (is_empty event) event_id_required) _ e in
    (
      throw_if-eq-ok _ _ named,
      elim (Bool-cases (has_event event b.events)) [
        | inl seen ↦
            subst (λ x. has_event event x.1.events ≡ true) (ok-injective (rw seen at rest)) seen
        | inr new ↦
            let active = active_rows_of quote b.reservations in
            let (_, more) =
              >>-eq-ok (throw_if (length active == 0) no_active_reservation) _ (rw new at rest) in
            let (ps, _, done) = >>=-eq-ok (settle_rows b.positions active) _ more in
            subst (λ x. has_event event x.1.events ≡ true) (ok-injective done)
              (has_event-append event b.events _ (str_eq_refl event))
      ],
    )

-- Settling is idempotent in the event id: after a settlement that succeeds, any later call with
-- the same event id, whatever quote it names, succeeds as a duplicate and changes nothing.
pub settle_again :
    (b : Book) (now : ℤ) (quote event : String) (duplicate : Bool) {b' : Book}
    → settle b now quote event ≡ ok (duplicate, b')
    → (later : ℤ) (other : String) → settle b' later other event ≡ ok (true, b')
unfolding settle
settle_again b now quote event duplicate e later other =
    let (named, seen) = settle-has_event b now quote event duplicate e in rw (named, seen)
