-- ===== src/Fiat/Transitions.antt =====
-- The calls of packages/fx-fiat/src/settlement-store.js that move an intent by `#transition`, and
-- `expireIntents`.
use blueballs.Prelude.{
  ℕ, String, Bool, true, false, ◌&&◌, not, Option, none, some, List, [], ◌∷◌, any, leb, is_empty,
  if◌then◌else◌, Outcome, ok, err, ◌>>=◌, ◌>>◌, throw_if, require,
}
use blueballs.Prelude.Dict.{Dict, lookup, insert}
use blueballs.Fiat.Intents.{
  FiatError, invalid, intent_expired, intent_missing, wrong_state, safe_time,
}
use blueballs.Fiat.Store.{
  IntentState, created, reserved, submitted, payment_observed, verified, settled, cancelled,
  expired, failed, manual_review, IntentRow, Store,
}

-- Whether the first state is the second one.
abbrev pub is_state : IntentState → IntentState → Bool
is_state created created = true
is_state reserved reserved = true
is_state submitted submitted = true
is_state payment_observed payment_observed = true
is_state verified verified = true
is_state settled settled = true
is_state cancelled cancelled = true
is_state expired expired = true
is_state failed failed = true
is_state manual_review manual_review = true
is_state a b = false

abbrev pub is_one_of : List IntentState → IntentState → Bool
is_one_of states a = any (λ b. is_state a b) states

-- The checks of `#transition` on the row.
unfoldable pub check_row :
    (now : ℕ) → List IntentState → (to : IntentState) → IntentRow → Outcome FiatError (Unit {0})
check_row now from to r = do
  require (is_one_of from r.state) wrong_state
  throw_if (leb r.expires_at now && not (is_one_of (expired ∷ failed ∷ []) to)) intent_expired

-- `#transition`; `change` sets the fields that come with the state.
unfoldable pub transition :
    (now : ℕ) (intent_id : String) (from : List IntentState) (to : IntentState)
    (change : IntentRow → IntentRow)
    → Store
    → Outcome FiatError Store
unfolding check_row
transition now intent_id from to change s = elim (lookup intent_id s.intents) [
  | none ↦ err intent_missing
  | some r ↦
      check_row now from to r
      >> ok (record s { intents = insert intent_id (record (change r) { state = to }) s.intents })
]

unfoldable pub reserve_intent : (now : ℕ) → String → Store → Outcome FiatError Store
unfolding transition
reserve_intent now intent_id s = transition now intent_id (created ∷ []) reserved (λ r. r) s

unfoldable pub submit_intent :
    (now : ℕ) → (intent_id submission_ref : String) → Store → Outcome FiatError Store
unfolding transition
submit_intent now intent_id submission_ref s = do
  throw_if (is_empty submission_ref) (invalid "submissionRef")
  transition now intent_id (reserved ∷ []) submitted
      (λ r. record r { submission_ref = some submission_ref }) s

unfoldable pub observe_payment :
    (now : ℕ) → String → (observed_at : Option ℕ) → Store → Outcome FiatError Store
unfolding safe_time transition
observe_payment now intent_id observed_at s = do
  at ← safe_time observed_at "observedAt"
  transition now intent_id (submitted ∷ []) payment_observed
      (λ r. record r { payment_observed_at = some at }) s

unfoldable pub cancel_intent : (now : ℕ) → String → Store → Outcome FiatError Store
unfolding transition
cancel_intent now intent_id s =
    transition now intent_id (created ∷ reserved ∷ []) cancelled (λ r. r) s

abbrev pub expire_row : (now : ℕ) → IntentRow → IntentRow
expire_row now r =
    if is_one_of (created ∷ reserved ∷ []) r.state && leb r.expires_at now
    then record r { state = expired }
    else r

unfoldable pub expire_rows : (now : ℕ) → Dict IntentRow → Dict IntentRow
expire_rows now [] = []
expire_rows now ((k, r) ∷ d) = (k, expire_row now r) ∷ expire_rows now d

unfoldable pub expire_intents : (now : ℕ) → Store → Store
unfolding expire_rows
expire_intents now s = record s { intents = expire_rows now s.intents }

abbrev in_flight : List IntentState
in_flight = submitted ∷ payment_observed ∷ verified ∷ []

unfoldable pub fail_intent :
    (now : ℕ) → (intent_id reason : String) → Store → Outcome FiatError Store
unfolding transition
fail_intent now intent_id reason s = do
  throw_if (is_empty reason) (invalid "reason")
  transition now intent_id in_flight failed (λ r. record r { failure_reason = some reason }) s

unfoldable pub manual_review_intent :
    (now : ℕ) → (intent_id reason : String) → Store → Outcome FiatError Store
unfolding transition
manual_review_intent now intent_id reason s = do
  throw_if (is_empty reason) (invalid "reason")
  transition now intent_id in_flight manual_review (λ r. record r { failure_reason = some reason })
      s
