-- ===== src/Pricing/RiskBook/Closings.antt =====
-- What closing the reservations of a quote of packages/fx-pricing/src/risk-book.js moves, position by
-- position.
use blueballs.Prelude.{
  String, false, ◌≡◌, refl, sym, ap, ap₂, ◌∙◌, inl, inr, Option, none, some, List, [], ◌∷◌, arith,
  str_eq, str_eq_iff, ◌&&◌, is_empty, if◌then◌else◌, Bool-cases, ok, >>=-eq-ok, >>-eq-ok, throw_if,
  ok-injective,
}
use blueballs.Prelude.Int.{ℤ, pos, ◌+ℤ◌, int_laws, +ℤ_assoc, +ℤ_zero, +ℤ_regroup}
use blueballs.Prelude.Dict.{Dict, lookup, insert, lookup-insert}
use blueballs.Pricing.RiskBook.{
  Position, Reservation, Book, exceeds, position_row, is_active, delta_for, active_reserved_delta,
  active_rows_of, close_rows, settle_rows, has_event, first_settlement, settle,
  settlement_exceeds_limit, event_id_required,
}

-- What a quote's active rows reserve of an asset.
unfoldable pub reserved_by : String → String → List Reservation → ℤ
reserved_by quote asset [] = pos 0
reserved_by quote asset (r ∷ rs) =
    (if str_eq r.quote_id quote then delta_for asset r else pos 0) +ℤ reserved_by quote asset rs

abbrev closed : String → String → Reservation → Reservation
closed state quote r =
    if str_eq r.quote_id quote && is_active r then record r { state = state } else r

abbrev freed : String → String → Reservation → ℤ
freed quote asset r = if str_eq r.quote_id quote then delta_for asset r else pos 0

close_row :
    (state quote asset : String) (r : Reservation)
    → str_eq state "ACTIVE" ≡ false
    → delta_for asset (closed state quote r) +ℤ freed quote asset r ≡ delta_for asset r
close_row state quote asset r h = elim (Bool-cases (str_eq r.quote_id quote)) [
  | inl q ↦ elim (Bool-cases (is_active r)) [
    | inl a ↦ elim (Bool-cases (str_eq r.asset asset)) [
      | inl k ↦ rw (q, a, k, h) (omega int_laws)
      | inr k ↦ rw (q, a, k) (omega int_laws)
    ]
    | inr a ↦ elim (Bool-cases (str_eq r.asset asset)) [
      | inl k ↦ rw (q, a, a, k) (omega int_laws)
      | inr k ↦ rw (q, a, a, k) (omega int_laws)
    ]
  ]
  | inr q ↦ rw q (omega int_laws)
]

-- Closing a quote's rows frees what they reserve.
pub close_rows-reserved :
    (state quote asset : String) (rs : List Reservation)
    → str_eq state "ACTIVE" ≡ false
    → active_reserved_delta asset (close_rows state quote rs) +ℤ reserved_by quote asset rs
      ≡ active_reserved_delta asset rs
unfolding active_reserved_delta close_rows reserved_by
close_rows-reserved state quote asset [] h = omega int_laws
close_rows-reserved state quote asset (r ∷ rs) h =
    +ℤ_regroup (delta_for asset (closed state quote r))
      (active_reserved_delta asset (close_rows state quote rs)) (freed quote asset r)
      (reserved_by quote asset rs)
    ∙ ap₂ ◌+ℤ◌ (close_row state quote asset r h) (close_rows-reserved state quote asset rs h)

-- The settled position of an asset, 0 where none is configured.
abbrev pub settled_of : Option Position → ℤ
settled_of none = pos 0
settled_of (some p) = p.settled

-- The sum of the deltas of the rows of an asset.
unfoldable pub delta_sum : String → List Reservation → ℤ
delta_sum asset [] = pos 0
delta_sum asset (r ∷ rs) = (if str_eq r.asset asset then r.delta else pos 0) +ℤ delta_sum asset rs

abbrev row_delta : String → Reservation → ℤ
row_delta asset r = if str_eq r.asset asset then r.delta else pos 0

position_row-settled :
    (ps : Dict Position) (asset : String) (row : Position)
    → position_row ps asset ≡ ok row
    → settled_of (lookup asset ps) ≡ row.settled
unfolding position_row
position_row-settled ps asset row h = ground arith

settled_step :
    (asset : String) (ps : Dict Position) (r : Reservation) (row : Position)
    → position_row ps r.asset ≡ ok row
    → settled_of
        (lookup asset (insert r.asset (record row { settled = row.settled +ℤ r.delta }) ps))
      ≡ settled_of (lookup asset ps) +ℤ row_delta asset r
settled_step asset ps r row found =
    rw (lookup-insert r.asset asset (record row { settled = row.settled +ℤ r.delta }) ps)
      (elim (Bool-cases (str_eq r.asset asset)) [
        | inl k ↦ rw k (
            ap (λ x. x +ℤ r.delta)
              (sym (position_row-settled ps r.asset row found)
                ∙ ap (λ a. settled_of (lookup a ps)) ((str_eq_iff r.asset asset).0 k)))
        | inr k ↦ rw k (sym (+ℤ_zero _))
      ])

pub settle_rows-settled :
    (asset : String) (ps : Dict Position) (rs : List Reservation) {ps' : Dict Position}
    → settle_rows ps rs ≡ ok ps'
    → settled_of (lookup asset ps') ≡ settled_of (lookup asset ps) +ℤ delta_sum asset rs
unfolding settle_rows delta_sum
settle_rows-settled asset ps [] e =
    ap (λ d. settled_of (lookup asset d)) (sym (ok-injective e)) ∙ sym (+ℤ_zero _)
settle_rows-settled asset ps (r ∷ rs) e =
    let (row, found, rest) = >>=-eq-ok (position_row ps r.asset) _ e in
    let next = record row { settled = row.settled +ℤ r.delta } in
    let (_, more) =
      >>-eq-ok (throw_if (exceeds next.settled row.hard_limit) settlement_exceeds_limit) _ rest in
    settle_rows-settled asset (insert r.asset next ps) rs more
    ∙ rw (settled_step asset ps r row found)
        (+ℤ_assoc (settled_of (lookup asset ps)) (row_delta asset r) (delta_sum asset rs))

pub delta_sum-active_rows_of :
    (quote asset : String) (rs : List Reservation)
    → delta_sum asset (active_rows_of quote rs) ≡ reserved_by quote asset rs
unfolding delta_sum reserved_by
delta_sum-active_rows_of quote asset [] = refl
delta_sum-active_rows_of quote asset (r ∷ rs) = elim (Bool-cases (str_eq r.quote_id quote)) [
  | inl q ↦ elim (Bool-cases (is_active r)) [
    | inl a ↦ elim (Bool-cases (str_eq r.asset asset)) [
      | inl k ↦ rw (q, a, k) (rw (delta_sum-active_rows_of quote asset rs))
      | inr k ↦ rw (q, a, k) (rw (delta_sum-active_rows_of quote asset rs))
    ]
    | inr a ↦ elim (Bool-cases (str_eq r.asset asset)) [
      | inl k ↦ rw (q, a, k) (delta_sum-active_rows_of quote asset rs ∙ omega int_laws)
      | inr k ↦ rw (q, a, k) (delta_sum-active_rows_of quote asset rs ∙ omega int_laws)
    ]
  ]
  | inr q ↦ rw q (delta_sum-active_rows_of quote asset rs ∙ omega int_laws)
]

-- What a settlement under a new event did.
pub settle-first :
    (b : Book) (now : ℤ) (quote event : String) {b' : Book}
    → settle b now quote event ≡ ok (false, b')
    → first_settlement b now quote event ≡ ok (false, b')
unfolding settle
settle-first b now quote event e =
    let (_, rest) = >>-eq-ok (throw_if (is_empty event) event_id_required) _ e in
    elim (Bool-cases (has_event event b.events)) [
      | inl seen ↦ let wrong = ok-injective (rw seen at rest) in cc (ap (λ x. x.0) wrong)
      | inr new ↦ rw new at rest
    ]
