-- ===== src/Fiat/Intents.antt =====
-- packages/fx-fiat/src/intent.js: what a fiat intent must be. `hashFiatIntent` is an argument of the store.
use blueballs.Prelude.{
  ℕ, String, Bool, Option, none, some, List, [], ◌∷◌, any, leb, str_eq, is_empty, if◌then◌else◌,
  Outcome, ok, err, ◌>>=◌, ◌>>◌, throw_if, require,
}
use blueballs.Prelude.Int.{ℤ, pos, negsuc}

pub data FiatError : Type 0 where
  invalid : (field : String) → FiatError
  intent_expired intent_conflict intent_missing unique_violation : FiatError
  wrong_state verifier_missing verifier_disabled attestation_collision : FiatError
  mismatch : (field : String) → FiatError
  attestation_expired not_verified payment_replay : FiatError

abbrev pub edge_types : List String
edge_types =
    "TOKEN_SWAP" ∷ "ISSUER_MINT" ∷ "ISSUER_REDEEM" ∷ "VERIFIED_FIAT_PAYMENT" ∷ "INTERNAL_LEDGER"
    ∷ "BANK_RAIL" ∷ []

abbrev pub finality_classes : List String
finality_classes = "ATOMIC" ∷ "AUTHORITATIVE_LEDGER" ∷ "ATTESTED_EXTERNAL" ∷ "ASYNC_EXTERNAL" ∷ []

-- `set.has(s)`
abbrev pub has : List String → String → Bool
has set s = any (λ t. str_eq t s) set

pub record RawIntent : Type 0 where
  pub intent_id : String
  pub route_id : String
  pub edge_id : String
  pub edge_type : String
  pub finality_class : String
  pub payer_participant_id : String
  pub payee_participant_id : String
  pub payer_account_ref : String
  pub payee_account_ref : String
  pub currency : String
  pub amount : ℤ
  pub rail : String
  pub provider_id : String
  pub policy_authorization_id : String
  -- `none` is no safe natural number.
  pub created_at : Option ℕ
  pub expires_at : Option ℕ
  pub nonce : String

pub record Intent : Type 0 where
  pub intent_id : String
  pub route_id : String
  pub edge_id : String
  pub edge_type : String
  pub finality_class : String
  pub payer_participant_id : String
  pub payee_participant_id : String
  pub payer_account_ref : String
  pub payee_account_ref : String
  pub currency : String
  pub amount : ℕ
  pub rail : String
  pub provider_id : String
  pub policy_authorization_id : String
  pub created_at : ℕ
  pub expires_at : ℕ
  pub nonce : String

unfoldable pub positive_amount : ℤ → Outcome FiatError ℕ
positive_amount (negsuc n) = err (invalid "amount")
positive_amount (pos n) = if leb n 0 then err (invalid "amount") else ok n

unfoldable pub safe_time : Option ℕ → (field : String) → Outcome FiatError ℕ
safe_time none field = err (invalid field)
safe_time (some n) field = if leb n 9007199254740991 then ok n else err (invalid field)

-- `requiredString` of the texts of the answer; a text that is no text counts as "".
-- A text that is missing is one error here, `invalid "text"`; the code names the field in its message.
abbrev pub has_empty_text : RawIntent → Bool
has_empty_text raw = any is_empty (
    raw.intent_id ∷ raw.route_id ∷ raw.edge_id ∷ raw.payer_participant_id ∷ raw.payee_participant_id
    ∷ raw.payer_account_ref ∷ raw.payee_account_ref ∷ raw.currency ∷ raw.rail ∷ raw.provider_id
    ∷ raw.policy_authorization_id ∷ raw.nonce ∷ [])

unfoldable pub intent_of : RawIntent → (amount created_at expires_at : ℕ) → Intent
intent_of raw amount created_at expires_at = record {
  intent_id = raw.intent_id;
  route_id = raw.route_id;
  edge_id = raw.edge_id;
  edge_type = raw.edge_type;
  finality_class = raw.finality_class;
  payer_participant_id = raw.payer_participant_id;
  payee_participant_id = raw.payee_participant_id;
  payer_account_ref = raw.payer_account_ref;
  payee_account_ref = raw.payee_account_ref;
  currency = raw.currency;
  amount = amount;
  rail = raw.rail;
  provider_id = raw.provider_id;
  policy_authorization_id = raw.policy_authorization_id;
  created_at = created_at;
  expires_at = expires_at;
  nonce = raw.nonce;
}

unfoldable pub normalize_fiat_intent : RawIntent → Outcome FiatError Intent
unfolding positive_amount safe_time intent_of
normalize_fiat_intent raw = do
  require (has edge_types raw.edge_type) (invalid "edgeType")
  require (has finality_classes raw.finality_class) (invalid "finalityClass")
  amount ← positive_amount raw.amount
  created_at ← safe_time raw.created_at "createdAt"
  expires_at ← safe_time raw.expires_at "expiresAt"
  throw_if (leb expires_at created_at) (invalid "expiresAt")
  throw_if (has_empty_text raw) (invalid "text")
  ok (intent_of raw amount created_at expires_at)
