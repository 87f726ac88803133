-- ===== src/Pricing/RiskBook/Limits.antt =====
-- Settled positions and hard limits under the calls of packages/fx-pricing/src/risk-book.js.
use blueballs.Prelude.{
  ◌≤◌, ◌<◌, String, Bool, false, ◌≡◌, ap, subst, inl, inr, Option, none, some, List, [], ◌∷◌, arith,
  str_eq, is_empty, length, ◌==◌, Bool-cases, ok, >>=-eq-ok, >>-eq-ok, sym, require, throw_if,
  throw_if-eq-ok, ok-injective,
}
use blueballs.Prelude.Int.{ℤ, pos, ◌+ℤ◌, abs, pos_part, leb_ℤ}
use blueballs.Prelude.Dict.{Dict, lookup, insert, lookup-insert}
use blueballs.Pricing.RiskBook.{
  Position, Reservation, Book, exceeds, position_row, configured, configure_asset,
  set_settled_position, active_rows_of, first_reservation, reserve, release, expire, settle_rows,
  first_settlement, has_event, settle, asset_required, limit_not_positive, settled_exceeds_limit,
  settlement_exceeds_limit, event_id_required, no_active_reservation, check_deltas,
  check_reservation, reserve_rows, risk_limit,
}

-- A position within its limit, which is positive.
pub record IsWithin (p : Position) : Type 0 where
  pub limit_positive : 0 < pos_part p.hard_limit
  pub settled_within : abs p.settled ≤ pos_part p.hard_limit

-- Every configured asset is within its limit.
abbrev pub AllWithin : Dict Position → Type 0
AllWithin ps = (asset : String) (p : Position) → lookup asset ps ≡ some p → IsWithin p

pub insert-AllWithin :
    (ps : Dict Position) (asset : String) (p : Position)
    → AllWithin ps
    → IsWithin p
    → AllWithin (insert asset p ps)
insert-AllWithin ps asset p h w other q found = elim (Bool-cases (str_eq asset other)) [
  | inl same ↦
      let equal : p ≡ q = ground (arith, lookup-insert asset other p ps) in subst IsWithin equal w
  | inr differs ↦ h other q (ground (arith, lookup-insert asset other p ps))
]

configured-IsWithin :
    (o : Option Position) (limit : ℤ) {p : Position}
    → leb_ℤ limit (pos 0) ≡ false
    → configured o limit ≡ ok p
    → IsWithin p
unfolding configured
configured-IsWithin none limit positive h = ground arith
configured-IsWithin (some q) limit positive h = ground arith

position_row-eq-ok :
    (ps : Dict Position) (asset : String) {p : Position}
    → position_row ps asset ≡ ok p
    → lookup asset ps ≡ some p
unfolding position_row
position_row-eq-ok ps asset h = ground arith

settled-IsWithin :
    (p : Position) (next : ℤ)
    → IsWithin p
    → exceeds next p.hard_limit ≡ false
    → IsWithin (record p { settled = next })
unfolding exceeds
settled-IsWithin p next w h = ground arith

settle_rows-AllWithin :
    (ps : Dict Position) (rs : List Reservation) {ps' : Dict Position}
    → AllWithin ps
    → settle_rows ps rs ≡ ok ps'
    → AllWithin ps'
unfolding settle_rows
settle_rows-AllWithin ps [] {ps'} h e = let same : ps ≡ ps' = cc in subst AllWithin same h
settle_rows-AllWithin ps (r ∷ rs) h e =
    let (row, found, rest) = >>=-eq-ok (position_row ps r.asset) _ e in
    let next = row.settled +ℤ r.delta in
    let (fits, more) =
      >>-eq-ok (throw_if (exceeds next row.hard_limit) settlement_exceeds_limit) _ rest in
    let w = h r.asset row (position_row-eq-ok ps r.asset found) in
    settle_rows-AllWithin (insert r.asset (record row { settled = next }) ps) rs
      (insert-AllWithin ps r.asset (record row { settled = next }) h
        (settled-IsWithin row next w (throw_if-eq-ok _ _ fits)))
      more

-- The calls of the risk book: `Step b b'` where a call at `b` that does not throw leaves `b'`.
pub data Step (b b' : Book) : Type 0 where
  configure : (asset : String) (limit : ℤ) → configure_asset b asset limit ≡ ok b' → Step b b'
  position : (asset : String) (next : ℤ) → set_settled_position b asset next ≡ ok b' → Step b b'
  reserving :
      (now : ℤ) (quote : String) (deltas : Dict ℤ) (expires : ℤ) (duplicate : Bool)
      → reserve b now quote deltas expires ≡ ok (duplicate, b')
      → Step b b'
  releasing : (quote state : String) → (release b quote state).1 ≡ b' → Step b b'
  expiring : (now : ℤ) → (expire b now).1 ≡ b' → Step b b'
  settling :
      (now : ℤ) (quote event : String) (duplicate : Bool)
      → settle b now quote event ≡ ok (duplicate, b')
      → Step b b'

-- The books that calls lead to.
pub data Reach (b : Book) : Book → Type 0 where
  here : Reach b b
  next : {b' b'' : Book} → Reach b b' → Step b' b'' → Reach b b''

configure_asset-AllWithin :
    (b : Book) (asset : String) (limit : ℤ) {b' : Book}
    → AllWithin b.positions
    → configure_asset b asset limit ≡ ok b'
    → AllWithin b'.positions
unfolding configure_asset
configure_asset-AllWithin b asset limit h e =
    let (_, rest) = >>-eq-ok (throw_if (is_empty asset) asset_required) _ e in
    let (positive, more) = >>-eq-ok (throw_if (leb_ℤ limit (pos 0)) limit_not_positive) _ rest in
    let (p, made, done) = >>=-eq-ok (configured (lookup asset b.positions) limit) _ more in
    let w =
      configured-IsWithin (lookup asset b.positions) limit (throw_if-eq-ok _ _ positive) made in
    subst (λ x. AllWithin x.positions) (ok-injective done)
      (insert-AllWithin b.positions asset p h w)

set_settled_position-AllWithin :
    (b : Book) (asset : String) (to : ℤ) {b' : Book}
    → AllWithin b.positions
    → set_settled_position b asset to ≡ ok b'
    → AllWithin b'.positions
unfolding set_settled_position
set_settled_position-AllWithin b asset to h e =
    let (row, found, rest) = >>=-eq-ok (position_row b.positions asset) _ e in
    let (fits, done) =
      >>-eq-ok (throw_if (exceeds to row.hard_limit) settled_exceeds_limit) _ rest in
    let w = h asset row (position_row-eq-ok b.positions asset found) in
    subst (λ x. AllWithin x.positions) (ok-injective done)
      (insert-AllWithin b.positions asset (record row { settled = to }) h
        (settled-IsWithin row to w (throw_if-eq-ok _ _ fits)))

first_reservation-positions :
    (b : Book) (quote : String) (deltas : Dict ℤ) (expires : ℤ) (duplicate : Bool) {b' : Book}
    → first_reservation b quote deltas expires ≡ ok (duplicate, b')
    → b'.positions ≡ b.positions
unfolding first_reservation
first_reservation-positions b quote deltas expires duplicate e =
    let (failures, _, rest) = >>=-eq-ok (check_deltas b deltas) _ e in
    let (_, done) = >>-eq-ok (require (length failures == 0) (risk_limit failures)) _ rest in
    ap (λ x. x.1.positions) (sym (ok-injective done))

reserve_rows-positions :
    (b : Book) (quote : String) (deltas : Dict ℤ) (expires : ℤ) (duplicate : Bool) {b' : Book}
    → reserve_rows b quote deltas expires ≡ ok (duplicate, b')
    → b'.positions ≡ b.positions
unfolding reserve_rows
reserve_rows-positions b quote deltas expires duplicate e =
    ground (arith, first_reservation-positions b quote deltas expires duplicate)

reserve-positions :
    (b : Book) (now : ℤ) (quote : String) (deltas : Dict ℤ) (expires : ℤ) (duplicate : Bool)
    {b' : Book}
    → reserve b now quote deltas expires ≡ ok (duplicate, b')
    → b'.positions ≡ b.positions
unfolding reserve
reserve-positions b now quote deltas expires duplicate e =
    reserve_rows-positions b quote deltas expires duplicate
      (>>-eq-ok (check_reservation now quote deltas expires) _ e).1

first_settlement-AllWithin :
    (b : Book) (now : ℤ) (quote event : String) (duplicate : Bool) {b' : Book}
    → AllWithin b.positions
    → first_settlement b now quote event ≡ ok (duplicate, b')
    → AllWithin b'.positions
unfolding first_settlement
first_settlement-AllWithin b now quote event duplicate h e =
    let active = active_rows_of quote b.reservations in
    let (_, rest) = >>-eq-ok (throw_if (length active == 0) no_active_reservation) _ e in
    let (ps, settled, done) = >>=-eq-ok (settle_rows b.positions active) _ rest in
    subst (λ x. AllWithin x.1.positions) (ok-injective done)
      (settle_rows-AllWithin b.positions active h settled)

settle-AllWithin :
    (b : Book) (now : ℤ) (quote event : String) (duplicate : Bool) {b' : Book}
    → AllWithin b.positions
    → settle b now quote event ≡ ok (duplicate, b')
    → AllWithin b'.positions
unfolding settle
settle-AllWithin b now quote event duplicate h e =
    let (_, rest) = >>-eq-ok (throw_if (is_empty event) event_id_required) _ e in
    elim (Bool-cases (has_event event b.events)) [
      | inl seen ↦ subst (λ x. AllWithin x.1.positions) (ok-injective (rw seen at rest)) h
      | inr new ↦ first_settlement-AllWithin b now quote event duplicate h (rw new at rest)
    ]

Step-AllWithin : {b b' : Book} → Step b b' → AllWithin b.positions → AllWithin b'.positions
unfolding release expire
Step-AllWithin {b} (configure asset limit e) h = configure_asset-AllWithin b asset limit h e
Step-AllWithin {b} (position asset to e) h = set_settled_position-AllWithin b asset to h e
Step-AllWithin {b} (reserving now quote deltas expires duplicate e) h =
    rw (reserve-positions b now quote deltas expires duplicate e) h
Step-AllWithin {b} (releasing quote state e) h = subst (λ x. AllWithin x.positions) e h
Step-AllWithin {b} (expiring now e) h = subst (λ x. AllWithin x.positions) e h
Step-AllWithin {b} (settling now quote event duplicate e) h =
    settle-AllWithin b now quote event duplicate h e

-- However the risk book is used, from a book whose settled positions are all within positive hard
-- limits, every book that its calls reach has its settled positions within positive hard limits.
pub Reach-AllWithin : {b b' : Book} → Reach b b' → AllWithin b.positions → AllWithin b'.positions
Reach-AllWithin here h = h
Reach-AllWithin (next r s) h = Step-AllWithin s (Reach-AllWithin r h)
