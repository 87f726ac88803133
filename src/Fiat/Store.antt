-- ===== src/Fiat/Store.antt =====
-- `FiatSettlementStore` of packages/fx-fiat/src/settlement-store.js. Its tables are dictionaries by primary
-- key and lists in order of insertion; a call that throws returns no state, since its transaction is rolled
-- back. The hashes, the clock and fresh identifiers are arguments.
use blueballs.Prelude.{
  ℕ, String, Bool, Option, none, some, List, any, leb, str_eq, is_empty, if◌then◌else◌, Outcome, ok,
  err, ◌>>=◌, ◌>>◌, throw_if,
}
use blueballs.Prelude.Dict.{Dict, lookup, insert}
use blueballs.Prelude.Rows.{rows}
use blueballs.Fiat.Intents.{
  FiatError, invalid, intent_expired, intent_conflict, unique_violation, verifier_missing,
  RawIntent, Intent, normalize_fiat_intent,
}

pub data IntentState : Type 0 where
  created reserved submitted payment_observed verified settled cancelled expired failed
        manual_review :
      IntentState

pub record Verifier : Type 0 where
  pub verifier_type : String
  pub enabled : Bool

-- A row of `fiat_intents`.
pub record IntentRow : Type 0 where
  pub intent_id : String
  pub intent_hash : String
  pub currency : String
  pub amount : ℕ
  pub payer_ref_hash : String
  pub payee_ref_hash : String
  pub expires_at : ℕ
  pub state : IntentState
  pub intent : Intent
  pub submission_ref : Option String
  pub payment_observed_at : Option ℕ
  pub attestation_id : Option String
  pub settled_at : Option ℕ
  pub failure_reason : Option String

-- A row of `fiat_attestations`.
pub record AttestationRow : Type 0 where
  pub attestation_id : String
  pub verifier_id : String
  pub intent_id : String
  pub intent_hash : String
  pub payment_id : String
  pub currency : String
  pub amount : ℕ
  pub payer_ref_hash : String
  pub payee_ref_hash : String
  pub settled_at : ℕ
  pub issued_at : ℕ
  pub expires_at : ℕ

pub record FiatEvent : Type 0 where
  pub event_id : String
  pub intent_id : String
  pub created_at : ℕ

pub record Store : Type 0 where
  pub verifiers : Dict Verifier
  pub intents : Dict IntentRow
  pub attestations : List AttestationRow
  pub events : List FiatEvent

unfoldable pub register_verifier :
    (verifier_id verifier_type : String) → Bool → Store → Outcome FiatError Store
register_verifier verifier_id verifier_type enabled s = do
  throw_if (is_empty verifier_id) (invalid "verifierId")
  throw_if (is_empty verifier_type) (invalid "verifierType")
  ok (record s {
    verifiers =
        insert verifier_id (record { verifier_type = verifier_type; enabled = enabled })
          s.verifiers;
  })

unfoldable pub set_verifier_enabled :
    (verifier_id : String) → Bool → Store → Outcome FiatError Store
set_verifier_enabled verifier_id enabled s = elim (lookup verifier_id s.verifiers) [
  | none ↦ err verifier_missing
  | some v ↦
      ok (record s { verifiers = insert verifier_id (record v { enabled = enabled }) s.verifiers })
]

module _ (hash_intent : Intent → String) (hash_ref : String → String) where
  unfoldable pub new_row : Intent → IntentRow
  new_row i = record {
    intent_id = i.intent_id;
    intent_hash = hash_intent i;
    currency = i.currency;
    amount = i.amount;
    payer_ref_hash = hash_ref i.payer_account_ref;
    payee_ref_hash = hash_ref i.payee_account_ref;
    expires_at = i.expires_at;
    state = created;
    intent = i;
    submission_ref = none;
    payment_observed_at = none;
    attestation_id = none;
    settled_at = none;
    failure_reason = none;
  }

  -- The transaction of `createIntent`. The hash is unique in the table.
  unfoldable pub store_intent : Intent → Store → Outcome FiatError (IntentRow × Store)
  unfolding new_row
  store_intent i s = elim (lookup i.intent_id s.intents) [
    | some existing ↦
        if str_eq existing.intent_hash (hash_intent i)
        then ok (existing, s)
        else err intent_conflict
    | none ↦
        if any (λ r. str_eq r.intent_hash (hash_intent i)) (rows s.intents)
        then err unique_violation
        else ok (new_row i, record s { intents = insert i.intent_id (new_row i) s.intents })
  ]

  unfoldable pub create_intent :
      (now : ℕ) → RawIntent → Store → Outcome FiatError (IntentRow × Store)
  unfolding normalize_fiat_intent store_intent
  create_intent now raw s = do
    i ← normalize_fiat_intent raw
    throw_if (leb i.expires_at now) intent_expired
    store_intent i s
