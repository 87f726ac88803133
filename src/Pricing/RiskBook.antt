-- ===== src/Pricing/RiskBook.antt =====
-- `PrincipalRiskBook` of packages/fx-pricing/src/risk-book.js. The three SQLite tables are a
-- dictionary and two lists; `transactionSync` discards the writes of a call that throws, so a call
-- that throws returns no state. `deltas` is a JavaScript object, a dictionary with distinct keys,
-- whose values are integers in canonical form.
pub mod Closings
pub mod Limits
pub mod Repeats
pub mod Reservations
pub mod Settlements
use blueballs.Prelude.{
  ℕ, ◌+◌, ◌*◌, ◌/◌, String, Bool, true, false, not, ◌&&◌, ◌||◌, Option, none, some, List, [], ◌∷◌,
  ◌++◌, keep, all, any, map, length, ltb, ◌==◌, str_eq, is_empty, if◌then◌else◌, Outcome, ok, err,
  ◌>>=◌, ◌>>◌, throw_if, require,
}
use blueballs.Prelude.Int.{ℤ, pos, ◌+ℤ◌, abs, ltb_ℤ, leb_ℤ, eqb_ℤ}
use blueballs.Prelude.Dict.{Dict, lookup, insert}

pub record Position : Type 0 where
  pub settled : ℤ
  pub hard_limit : ℤ

-- `state` is "ACTIVE", "SETTLED", "EXPIRED", or what `release` is given.
pub record Reservation : Type 0 where
  pub quote_id : String
  pub asset : String
  pub delta : ℤ
  pub expires_at : ℤ
  pub state : String

pub record RiskEvent : Type 0 where
  pub event_id : String
  pub quote_id : String
  pub created_at : ℤ

pub record Book : Type 0 where
  pub positions : Dict Position
  pub reservations : List Reservation
  pub events : List RiskEvent

pub data RiskError : Type 0 where
  asset_required limit_not_positive limit_below_settled settled_exceeds_limit : RiskError
  quote_id_required expires_at_invalid deltas_required reservation_conflict : RiskError
  event_id_required no_active_reservation settlement_exceeds_limit : RiskError
  unconfigured : (asset : String) → RiskError
  risk_limit : (assets : List String) → RiskError

-- `abs(x) > limit`
unfoldable pub exceeds : ℤ → ℤ → Bool
exceeds x limit = ltb_ℤ limit (pos (abs x))

unfoldable pub position_row : Dict Position → String → Outcome RiskError Position
position_row ps asset = elim (lookup asset ps) [ none ↦ err (unconfigured asset) | some p ↦ ok p ]

-- The position that `configureAsset` stores, if it does not throw.
configured : Option Position → ℤ → Outcome RiskError Position
configured none limit = ok (record { settled = pos 0; hard_limit = limit })
configured (some p) limit =
    if ltb_ℤ limit (pos (abs p.settled))
    then err limit_below_settled
    else ok (record p { hard_limit = limit })

unfoldable pub configure_asset : Book → String → ℤ → Outcome RiskError Book
unfolding configured
configure_asset b asset limit = do
  throw_if (is_empty asset) asset_required
  throw_if (leb_ℤ limit (pos 0)) limit_not_positive
  p ← configured (lookup asset b.positions) limit
  ok (record b { positions = insert asset p b.positions })

unfoldable pub set_settled_position : Book → String → ℤ → Outcome RiskError Book
unfolding position_row exceeds
set_settled_position b asset next = do
  row ← position_row b.positions asset
  throw_if (exceeds next row.hard_limit) settled_exceeds_limit
  ok (record b { positions = insert asset (record row { settled = next }) b.positions })

abbrev pub is_active : Reservation → Bool
is_active r = str_eq r.state "ACTIVE"

abbrev pub delta_for : String → Reservation → ℤ
delta_for asset r = if str_eq r.asset asset && is_active r then r.delta else pos 0

-- `activeReservedDelta`
unfoldable pub active_reserved_delta : String → List Reservation → ℤ
active_reserved_delta asset [] = pos 0
active_reserved_delta asset (r ∷ rs) = delta_for asset r +ℤ active_reserved_delta asset rs

-- `settled + activeReservedDelta(asset)`, the `projected` of `getPosition`.
unfoldable pub projected : Book → String → Outcome RiskError ℤ
unfolding position_row active_reserved_delta
projected b asset = do
  row ← position_row b.positions asset
  ok (row.settled +ℤ active_reserved_delta asset b.reservations)

unfoldable pub utilization_bps : Book → String → ℤ → Outcome RiskError ℕ
unfolding projected
utilization_bps b asset additional = do
  row ← position_row b.positions asset
  now ← projected b asset
  ok (abs (now +ℤ additional) * 10000 / abs row.hard_limit)

-- `checkDeltas`: the assets whose projected position would exceed its limit.
unfoldable pub check_deltas : Book → Dict ℤ → Outcome RiskError (List String)
unfolding projected exceeds
check_deltas b [] = ok []
check_deltas b ((asset, delta) ∷ ds) = do
  row ← position_row b.positions asset
  now ← projected b asset
  failures ← check_deltas b ds
  ok (if exceeds (now +ℤ delta) row.hard_limit then asset ∷ failures else failures)

-- Whether an active row repeats what is asked for.
abbrev pub is_same_row : Dict ℤ → ℤ → Reservation → Bool
is_same_row deltas expires_at r =
    elim (lookup r.asset deltas) [ none ↦ false | some d ↦ eqb_ℤ d r.delta ]
    && eqb_ℤ r.expires_at expires_at

abbrev pub rows_of : String → List Reservation → List Reservation
rows_of quote_id rs = keep (λ r. str_eq r.quote_id quote_id) rs

abbrev pub active_rows_of : String → List Reservation → List Reservation
active_rows_of quote_id rs = keep (λ r. str_eq r.quote_id quote_id && is_active r) rs

unfoldable pub new_rows : String → ℤ → Dict ℤ → List Reservation
new_rows quote_id expires_at [] = []
new_rows quote_id expires_at ((asset, delta) ∷ ds) =
    record {
      quote_id = quote_id;
      asset = asset;
      delta = delta;
      expires_at = expires_at;
      state = "ACTIVE";
    }
    ∷ new_rows quote_id expires_at ds

-- What `reserve` does for a quote that already has rows.
abbrev pub repeat_reservation :
    Book → Dict ℤ → ℤ → List Reservation → Outcome RiskError (Bool × Book)
repeat_reservation b deltas expires_at active =
    if length active == length deltas && all (is_same_row deltas expires_at) active
    then ok (true, b)
    else err reservation_conflict

-- What `reserve` does for a quote that has none.
unfoldable pub first_reservation : Book → String → Dict ℤ → ℤ → Outcome RiskError (Bool × Book)
unfolding check_deltas new_rows
first_reservation b quote_id deltas expires_at = do
  failures ← check_deltas b deltas
  require (length failures == 0) (risk_limit failures)
  ok (false, record b { reservations = b.reservations ++ new_rows quote_id expires_at deltas })

-- The checks of `reserve` in front of its transaction.
unfoldable pub check_reservation : ℤ → String → Dict ℤ → ℤ → Outcome RiskError (Unit {0})
check_reservation now quote_id deltas expires_at = do
  throw_if (is_empty quote_id) quote_id_required
  throw_if (not (ltb (abs expires_at) 0x20_0000_0000_0000) || leb_ℤ expires_at now)
      expires_at_invalid
  throw_if (length deltas == 0) deltas_required

-- The transaction of `reserve`.
unfoldable pub reserve_rows : Book → String → Dict ℤ → ℤ → Outcome RiskError (Bool × Book)
unfolding first_reservation
reserve_rows b quote_id deltas expires_at =
    if length (rows_of quote_id b.reservations) == 0
    then first_reservation b quote_id deltas expires_at
    else repeat_reservation b deltas expires_at (active_rows_of quote_id b.reservations)

-- `reserve`, at the time `now`; the Boolean is the result's `duplicate`.
unfoldable pub reserve : Book → ℤ → String → Dict ℤ → ℤ → Outcome RiskError (Bool × Book)
unfolding check_reservation reserve_rows
reserve b now quote_id deltas expires_at = do
  check_reservation now quote_id deltas expires_at
  reserve_rows b quote_id deltas expires_at

-- `UPDATE … SET state = ? WHERE quote_id = ? AND state = 'ACTIVE'`
unfoldable pub close_rows : String → String → List Reservation → List Reservation
close_rows state quote_id [] = []
close_rows state quote_id (r ∷ rs) =
    (if str_eq r.quote_id quote_id && is_active r then record r { state = state } else r)
    ∷ close_rows state quote_id rs

-- `release`, with the number of rows that it closed.
unfoldable pub release : Book → String → String → ℕ × Book
unfolding close_rows
release b quote_id state = (
  length (active_rows_of quote_id b.reservations),
  record b { reservations = close_rows state quote_id b.reservations },
)

abbrev pub is_due : ℤ → Reservation → Bool
is_due now r = is_active r && leb_ℤ r.expires_at now

unfoldable pub expire_rows : ℤ → List Reservation → List Reservation
expire_rows now [] = []
expire_rows now (r ∷ rs) =
    (if is_due now r then record r { state = "EXPIRED" } else r) ∷ expire_rows now rs

-- `expire`, with the number of rows that it changed.
unfoldable pub expire : Book → ℤ → ℕ × Book
unfolding expire_rows
expire b now = (
  length (keep (is_due now) b.reservations),
  record b { reservations = expire_rows now b.reservations },
)

-- The loop of `settle` over the active rows of the quote.
unfoldable pub settle_rows : Dict Position → List Reservation → Outcome RiskError (Dict Position)
unfolding position_row exceeds
settle_rows ps [] = ok ps
settle_rows ps (r ∷ rs) = do
  row ← position_row ps r.asset
  throw_if (exceeds (row.settled +ℤ r.delta) row.hard_limit) settlement_exceeds_limit
  settle_rows (insert r.asset (record row { settled = row.settled +ℤ r.delta }) ps) rs

abbrev pub has_event : String → List RiskEvent → Bool
has_event event_id es = any (λ e. str_eq e.event_id event_id) es

unfoldable pub first_settlement : Book → ℤ → String → String → Outcome RiskError (Bool × Book)
unfolding settle_rows close_rows
first_settlement b now quote_id event_id = do
  let active = active_rows_of quote_id b.reservations
  throw_if (length active == 0) no_active_reservation
  ps ← settle_rows b.positions active
  ok (
    false,
    record {
      positions = ps;
      reservations = close_rows "SETTLED" quote_id b.reservations;
      events =
          b.events ++ record { event_id = event_id; quote_id = quote_id; created_at = now } ∷ [];
    },
  )

-- `settle`, at the time `now`; the Boolean is the result's `duplicate`.
unfoldable pub settle : Book → ℤ → String → String → Outcome RiskError (Bool × Book)
unfolding first_settlement
settle b now quote_id event_id = do
  throw_if (is_empty event_id) event_id_required
  if has_event event_id b.events then ok (true, b) else first_settlement b now quote_id event_id
