-- ===== src/Fiat/Attesting.antt =====
-- `acceptAttestation` and `settleVerifiedIntent` of packages/fx-fiat/src/settlement-store.js.
use blueballs.Prelude.{
  ℕ, String, Bool, true, false, ◌&&◌, not, Option, none, some, List, [], ◌∷◌, ◌++◌, any, leb, ltb,
  ◌==◌, str_eq, is_empty, if◌then◌else◌, Outcome, ok, err, ◌>>=◌, ◌>>◌, throw_if, require,
}
use blueballs.Prelude.Dict.{lookup, insert, is_some}
use blueballs.Fiat.Intents.{
  FiatError, invalid, intent_expired, intent_missing, unique_violation, wrong_state,
  verifier_missing, verifier_disabled, attestation_collision, mismatch, attestation_expired,
  not_verified, payment_replay, safe_time,
}
use blueballs.Fiat.Store.{
  submitted, payment_observed, verified, settled, IntentRow, AttestationRow, Store, Verifier,
}
use blueballs.Fiat.Transitions.{is_state, is_one_of}

pub record Attestation : Type 0 where
  pub verifier_id : String
  pub attestation_id : Option String
  pub intent_id : String
  pub intent_hash : String
  pub payment_id : String
  pub currency : String
  pub amount : ℕ
  pub payer_ref_hash : String
  pub payee_ref_hash : String
  pub settled_at : Option ℕ
  pub issued_at : Option ℕ
  pub expires_at : Option ℕ
  pub status : String

abbrev pub row_with_id : String → List AttestationRow → Option AttestationRow
row_with_id id [] = none
row_with_id id (a ∷ bs) = if str_eq a.attestation_id id then some a else row_with_id id bs

-- A safe integer in the future.
unfoldable pub future_time : (now : ℕ) → Option ℕ → Outcome FiatError ℕ
future_time now none = err attestation_expired
future_time now (some t) =
    if leb t 9007199254740991 && not (leb t now) then ok t else err attestation_expired

-- The checks of `acceptAttestation` on the intent.
unfoldable pub check_attestation :
    (now : ℕ) → Attestation → IntentRow → Outcome FiatError (ℕ × ℕ × ℕ)
unfolding safe_time future_time
check_attestation now a r = do
  require (is_one_of (submitted ∷ payment_observed ∷ []) r.state) wrong_state
  throw_if (leb r.expires_at now) intent_expired
  require (str_eq a.intent_hash r.intent_hash) (mismatch "intentHash")
  require (str_eq a.currency r.currency) (mismatch "currency")
  require (a.amount == r.amount) (mismatch "amount")
  require (str_eq a.payer_ref_hash r.payer_ref_hash) (mismatch "payer")
  require (str_eq a.payee_ref_hash r.payee_ref_hash) (mismatch "payee")
  throw_if (is_empty a.payment_id) (invalid "paymentId")
  settled_at ← safe_time a.settled_at "settledAt"
  issued_at ← safe_time a.issued_at "issuedAt"
  throw_if (ltb issued_at settled_at) (invalid "issuedAt")
  expires_at ← future_time now a.expires_at
  require (str_eq a.status "VERIFIED") not_verified
  ok (settled_at, issued_at, expires_at)

abbrev pub same_payment : (verifier_id payment_id : String) → AttestationRow → Bool
same_payment verifier_id payment_id b =
    str_eq b.verifier_id verifier_id && str_eq b.payment_id payment_id

unfoldable pub attestation_row :
    (id : String) → Attestation → IntentRow → ℕ × ℕ × ℕ → AttestationRow
attestation_row id a r (settled_at, issued_at, expires_at) = record {
  attestation_id = id;
  verifier_id = a.verifier_id;
  intent_id = r.intent_id;
  intent_hash = r.intent_hash;
  payment_id = a.payment_id;
  currency = r.currency;
  amount = r.amount;
  payer_ref_hash = r.payer_ref_hash;
  payee_ref_hash = r.payee_ref_hash;
  settled_at = settled_at;
  issued_at = issued_at;
  expires_at = expires_at;
}

-- The row is inserted under its primary key, and the intent becomes verified.
unfoldable pub insert_attestation : AttestationRow → IntentRow → Store → Outcome FiatError Store
insert_attestation b r s = do
  throw_if (is_some (row_with_id b.attestation_id s.attestations)) unique_violation
  ok (record s {
    attestations = s.attestations ++ b ∷ [];
    intents =
        insert r.intent_id (record r { state = verified; attestation_id = some b.attestation_id })
          s.intents;
  })

-- The transaction of `acceptAttestation`.
unfoldable pub record_attestation :
    (now : ℕ) → (id : String) → Attestation → IntentRow → Store → Outcome FiatError Store
unfolding check_attestation attestation_row insert_attestation
record_attestation now id a r s = do
  times ← check_attestation now a r
  throw_if (any (same_payment a.verifier_id a.payment_id) s.attestations) payment_replay
  insert_attestation (attestation_row id a r times) r s

abbrev pub or_fresh : String → Option String → String
or_fresh fresh_id none = fresh_id
or_fresh fresh_id (some id) = id

-- What `acceptAttestation` does where no attestation has the supplied identifier.
unfoldable pub accept_new :
    (now : ℕ) → (fresh_id : String) → Attestation → Store → Outcome FiatError (Bool × Store)
unfolding record_attestation
accept_new now fresh_id a s = elim (lookup a.intent_id s.intents) [
  | none ↦ err intent_missing
  | some r ↦
      record_attestation now (or_fresh fresh_id a.attestation_id) a r s >>= λ s'. ok (false, s')
]

abbrev pub check_verifier : Option Verifier → Outcome FiatError (Unit {0})
check_verifier none = err verifier_missing
check_verifier (some v) = require v.enabled verifier_disabled

-- The attestation that already has the supplied identifier; an empty one counts as none.
abbrev pub prior_row : Option String → List AttestationRow → Option AttestationRow
prior_row none bs = none
prior_row (some id) bs = if is_empty id then none else row_with_id id bs

-- The answer says whether the attestation is a duplicate.
unfoldable pub accept_attestation :
    (now : ℕ) → (fresh_id : String) → Attestation → Store → Outcome FiatError (Bool × Store)
unfolding accept_new
accept_attestation now fresh_id a s =
    check_verifier (lookup a.verifier_id s.verifiers)
    >> elim (prior_row a.attestation_id s.attestations) [
      | some prior ↦
          if str_eq prior.intent_id a.intent_id && str_eq prior.payment_id a.payment_id
          then ok (true, s)
          else err attestation_collision
      | none ↦ accept_new now fresh_id a s
    ]

abbrev pub settled_row : (now : ℕ) → IntentRow → IntentRow
settled_row now r = record r { state = settled; settled_at = some now }

-- What `settleVerifiedIntent` does to the intent of a new event.
unfoldable pub settle_row :
    (now : ℕ) → (event_id : String) → IntentRow → Store → Outcome FiatError (Bool × Store)
settle_row now event_id r s = do
  require (is_state r.state verified) wrong_state
  ok (
    false,
    record s {
      intents = insert r.intent_id (settled_row now r) s.intents;
      events =
          s.events
          ++ record { event_id = event_id; intent_id = r.intent_id; created_at = now } ∷ [];
    },
  )

-- The answer says whether the event is a duplicate.
unfoldable pub settle_verified_intent :
    (now : ℕ) → (intent_id event_id : String) → Store → Outcome FiatError (Bool × Store)
unfolding settle_row
settle_verified_intent now intent_id event_id s =
    if any (λ e. str_eq e.event_id event_id) s.events
    then ok (true, s)
    else elim (lookup intent_id s.intents) [
      | none ↦ err intent_missing
      | some r ↦ settle_row now event_id r s
    ]
