-- ===== src/Fiat/Tests.antt =====
-- A run of the fiat store, in which two intents are settled, and examples of what is proved.
use blueballs.Prelude.{
  String, true, false, ◌≡◌, ◌≢◌, refl, none, some, Among, Outcome, ok, err, str_eq_iff,
}
use blueballs.Prelude.Int.{pos}
use blueballs.Prelude.Dict.{lookup, insert}
use blueballs.Fiat.Intents.{
  FiatError, RawIntent, Intent, normalize_fiat_intent, positive_amount, safe_time, intent_of,
}
use blueballs.Fiat.Store.{
  IntentRow, AttestationRow, Store, settled, register_verifier, create_intent, store_intent,
  new_row,
}
use blueballs.Fiat.Transitions.{reserve_intent, submit_intent, transition, check_row}
use blueballs.Fiat.Attesting.{
  Attestation, accept_attestation, accept_new, record_attestation, check_attestation,
  attestation_row, insert_attestation, settle_verified_intent, settle_row,
}
use blueballs.Fiat.Soundness.Proofs.{Proves, OtherPayment}
use blueballs.Fiat.Soundness.Finality.{is_open}
use blueballs.Fiat.Soundness.History.{
  empty_store, Step, Reach, begin, next, register, create, reserve, submit, attest, settle,
  settled_once, ended_stays,
}

abbrev hash_intent : Intent → String
hash_intent i = i.intent_id

abbrev hash_ref : String → String
hash_ref s = s

abbrev raw : String → RawIntent
raw id = record {
  intent_id = id;
  route_id = "route";
  edge_id = "edge";
  edge_type = "BANK_RAIL";
  finality_class = "ATTESTED_EXTERNAL";
  payer_participant_id = "p1";
  payee_participant_id = "p2";
  payer_account_ref = "a1";
  payee_account_ref = "a2";
  currency = "EUR";
  amount = pos 500;
  rail = "SEPA";
  provider_id = "bank";
  policy_authorization_id = "auth";
  created_at = some 1;
  expires_at = some 100;
  nonce = "n";
}

abbrev attestation : (id payment : String) → Attestation
attestation id payment = record {
  verifier_id = "v";
  attestation_id = none;
  intent_id = id;
  intent_hash = id;
  payment_id = payment;
  currency = "EUR";
  amount = 500;
  payer_ref_hash = "a1";
  payee_ref_hash = "a2";
  settled_at = some 5;
  issued_at = some 6;
  expires_at = some 90;
  status = "VERIFIED";
}

-- The tables after a call, or empty ones where it throws.
abbrev after : Outcome FiatError Store → Store
after (ok s) = s
after (err e) = empty_store

abbrev after_answer : {A : Type 0} → Outcome FiatError (A × Store) → Store
after_answer (ok (a, s)) = s
after_answer (err e) = empty_store

abbrev s0 : Store
s0 = empty_store

abbrev s1 : Store
unfolding register_verifier insert
s1 = after (register_verifier "v" "BANK" true s0)

reach1 : Reach hash_intent hash_ref s1
unfolding s1 register_verifier insert
reach1 = next begin (register "v" "BANK" true refl)

abbrev s2 : Store
unfolding register_verifier insert create_intent normalize_fiat_intent positive_amount safe_time
    intent_of store_intent new_row lookup
s2 = after_answer (create_intent hash_intent hash_ref 2 (raw "one") s1)

reach2 : Reach hash_intent hash_ref s2
unfolding s1 s2 register_verifier insert create_intent normalize_fiat_intent positive_amount
    safe_time intent_of store_intent new_row lookup
reach2 =
    next reach1
      (create 2 (raw "one") (new_row hash_intent hash_ref (intent_of (raw "one") 500 1 100)) refl)

abbrev s3 : Store
unfolding register_verifier insert create_intent normalize_fiat_intent positive_amount safe_time
    intent_of store_intent new_row lookup
s3 = after_answer (create_intent hash_intent hash_ref 2 (raw "two") s2)

reach3 : Reach hash_intent hash_ref s3
unfolding s1 s2 s3 register_verifier insert create_intent normalize_fiat_intent positive_amount
    safe_time intent_of store_intent new_row lookup
reach3 =
    next reach2
      (create 2 (raw "two") (new_row hash_intent hash_ref (intent_of (raw "two") 500 1 100)) refl)

abbrev s4 : Store
unfolding register_verifier insert create_intent normalize_fiat_intent positive_amount safe_time
    intent_of store_intent new_row lookup reserve_intent transition check_row
s4 = after (reserve_intent 3 "one" s3)

reach4 : Reach hash_intent hash_ref s4
unfolding s1 s2 s3 s4 register_verifier insert create_intent normalize_fiat_intent positive_amount
    safe_time intent_of store_intent new_row lookup reserve_intent transition check_row
reach4 = next reach3 (reserve 3 "one" refl)

abbrev s5 : Store
unfolding register_verifier insert create_intent normalize_fiat_intent positive_amount safe_time
    intent_of store_intent new_row lookup reserve_intent transition check_row submit_intent
s5 = after (submit_intent 3 "one" "ref" s4)

reach5 : Reach hash_intent hash_ref s5
unfolding s1 s2 s3 s4 s5 register_verifier insert create_intent normalize_fiat_intent
    positive_amount safe_time intent_of store_intent new_row lookup reserve_intent transition
    check_row submit_intent
reach5 = next reach4 (submit 3 "one" "ref" refl)

abbrev s6 : Store
unfolding register_verifier insert create_intent normalize_fiat_intent positive_amount safe_time
    intent_of store_intent new_row lookup reserve_intent transition check_row submit_intent
    accept_attestation accept_new record_attestation check_attestation attestation_row
    insert_attestation
s6 = after_answer (accept_attestation 7 "att_one" (attestation "one" "pay_one") s5)

reach6 : Reach hash_intent hash_ref s6
unfolding s1 s2 s3 s4 s5 s6 register_verifier insert create_intent normalize_fiat_intent
    positive_amount safe_time intent_of store_intent new_row lookup reserve_intent transition
    check_row submit_intent accept_attestation accept_new record_attestation check_attestation
    attestation_row insert_attestation
reach6 = next reach5 (attest 7 "att_one" (attestation "one" "pay_one") false refl)

abbrev s7 : Store
unfolding register_verifier insert create_intent normalize_fiat_intent positive_amount safe_time
    intent_of store_intent new_row lookup reserve_intent transition check_row submit_intent
    accept_attestation accept_new record_attestation check_attestation attestation_row
    insert_attestation settle_verified_intent settle_row
s7 = after_answer (settle_verified_intent 8 "one" "event_one" s6)

reach7 : Reach hash_intent hash_ref s7
unfolding s1 s2 s3 s4 s5 s6 s7 register_verifier insert create_intent normalize_fiat_intent
    positive_amount safe_time intent_of store_intent new_row lookup reserve_intent transition
    check_row submit_intent accept_attestation accept_new record_attestation check_attestation
    attestation_row insert_attestation settle_verified_intent settle_row
reach7 = next reach6 (settle 8 "one" "event_one" false refl)

abbrev s8 : Store
unfolding register_verifier insert create_intent normalize_fiat_intent positive_amount safe_time
    intent_of store_intent new_row lookup reserve_intent transition check_row submit_intent
    accept_attestation accept_new record_attestation check_attestation attestation_row
    insert_attestation settle_verified_intent settle_row
s8 = after (reserve_intent 3 "two" s7)

reach8 : Reach hash_intent hash_ref s8
unfolding s1 s2 s3 s4 s5 s6 s7 s8 register_verifier insert create_intent normalize_fiat_intent
    positive_amount safe_time intent_of store_intent new_row lookup reserve_intent transition
    check_row submit_intent accept_attestation accept_new record_attestation check_attestation
    attestation_row insert_attestation settle_verified_intent settle_row
reach8 = next reach7 (reserve 3 "two" refl)

abbrev s9 : Store
unfolding register_verifier insert create_intent normalize_fiat_intent positive_amount safe_time
    intent_of store_intent new_row lookup reserve_intent transition check_row submit_intent
    accept_attestation accept_new record_attestation check_attestation attestation_row
    insert_attestation settle_verified_intent settle_row
s9 = after (submit_intent 3 "two" "ref" s8)

reach9 : Reach hash_intent hash_ref s9
unfolding s1 s2 s3 s4 s5 s6 s7 s8 s9 register_verifier insert create_intent normalize_fiat_intent
    positive_amount safe_time intent_of store_intent new_row lookup reserve_intent transition
    check_row submit_intent accept_attestation accept_new record_attestation check_attestation
    attestation_row insert_attestation settle_verified_intent settle_row
reach9 = next reach8 (submit 3 "two" "ref" refl)

abbrev s10 : Store
unfolding register_verifier insert create_intent normalize_fiat_intent positive_amount safe_time
    intent_of store_intent new_row lookup reserve_intent transition check_row submit_intent
    accept_attestation accept_new record_attestation check_attestation attestation_row
    insert_attestation settle_verified_intent settle_row
s10 = after_answer (accept_attestation 7 "att_two" (attestation "two" "pay_two") s9)

reach10 : Reach hash_intent hash_ref s10
unfolding s1 s2 s3 s4 s5 s6 s7 s8 s9 s10 register_verifier insert create_intent
    normalize_fiat_intent positive_amount safe_time intent_of store_intent new_row lookup
    reserve_intent transition check_row submit_intent accept_attestation accept_new
    record_attestation check_attestation attestation_row insert_attestation settle_verified_intent
    settle_row
reach10 = next reach9 (attest 7 "att_two" (attestation "two" "pay_two") false refl)

abbrev s11 : Store
unfolding register_verifier insert create_intent normalize_fiat_intent positive_amount safe_time
    intent_of store_intent new_row lookup reserve_intent transition check_row submit_intent
    accept_attestation accept_new record_attestation check_attestation attestation_row
    insert_attestation settle_verified_intent settle_row
s11 = after_answer (settle_verified_intent 8 "two" "event_two" s10)

reach11 : Reach hash_intent hash_ref s11
unfolding s1 s2 s3 s4 s5 s6 s7 s8 s9 s10 s11 register_verifier insert create_intent
    normalize_fiat_intent positive_amount safe_time intent_of store_intent new_row lookup
    reserve_intent transition check_row submit_intent accept_attestation accept_new
    record_attestation check_attestation attestation_row insert_attestation settle_verified_intent
    settle_row
reach11 = next reach10 (settle 8 "two" "event_two" false refl)

-- The rows of the two intents in the end.
abbrev settled_intent : (id payment_row : String) → IntentRow
unfolding new_row intent_of
settled_intent id payment_row =
    record (new_row hash_intent hash_ref (intent_of (raw id) 500 1 100)) {
      state = settled;
      submission_ref = some "ref";
      attestation_id = some payment_row;
      settled_at = some 8;
    }

row_one : lookup "one" s11.intents ≡ some (settled_intent "one" "att_one")
unfolding s1 s2 s3 s4 s5 s6 s7 s8 s9 s10 s11 register_verifier insert create_intent
    normalize_fiat_intent positive_amount safe_time intent_of store_intent new_row lookup
    reserve_intent transition check_row submit_intent accept_attestation accept_new
    record_attestation check_attestation attestation_row insert_attestation settle_verified_intent
    settle_row settled_intent
row_one = refl

row_two : lookup "two" s11.intents ≡ some (settled_intent "two" "att_two")
unfolding s1 s2 s3 s4 s5 s6 s7 s8 s9 s10 s11 register_verifier insert create_intent
    normalize_fiat_intent positive_amount safe_time intent_of store_intent new_row lookup
    reserve_intent transition check_row submit_intent accept_attestation accept_new
    record_attestation check_attestation attestation_row insert_attestation settle_verified_intent
    settle_row settled_intent
row_two = refl

one_not_two : ◌≢◌ {A = String} "one" "two"
one_not_two same = cc ((str_eq_iff "one" "two").1 same)

settled_state : (id payment_row : String) → (settled_intent id payment_row).state ≡ settled
unfolding settled_intent new_row intent_of
settled_state id payment_row = refl

settled_once_example :
    (a : AttestationRow) × (b : AttestationRow) × Among a s11.attestations
    × Among b s11.attestations
    × Proves a (settled_intent "one" "att_one")
    × Proves b (settled_intent "two" "att_two")
    × OtherPayment a b
settled_once_example =
    settled_once "one" "two" (settled_intent "one" "att_one") (settled_intent "two" "att_two")
      reach11 row_one row_two one_not_two (settled_state "one" "att_one")
      (settled_state "two" "att_two")

settled_closed : is_open (settled_intent "one" "att_one").state ≡ false
unfolding settled_intent new_row intent_of
settled_closed = refl

row_one_before : lookup "one" s10.intents ≡ some (settled_intent "one" "att_one")
unfolding s1 s2 s3 s4 s5 s6 s7 s8 s9 s10 s11 register_verifier insert create_intent
    normalize_fiat_intent positive_amount safe_time intent_of store_intent new_row lookup
    reserve_intent transition check_row submit_intent accept_attestation accept_new
    record_attestation check_attestation attestation_row insert_attestation settle_verified_intent
    settle_row settled_intent
row_one_before = refl

last_step : Step hash_intent hash_ref s10 s11
unfolding s1 s2 s3 s4 s5 s6 s7 s8 s9 s10 s11 register_verifier insert create_intent
    normalize_fiat_intent positive_amount safe_time intent_of store_intent new_row lookup
    reserve_intent transition check_row submit_intent accept_attestation accept_new
    record_attestation check_attestation attestation_row insert_attestation settle_verified_intent
    settle_row
last_step = settle 8 "two" "event_two" false refl

ended_stays_example : lookup "one" s11.intents ≡ some (settled_intent "one" "att_one")
ended_stays_example =
    ended_stays "one" (settled_intent "one" "att_one") reach10 last_step row_one_before
      settled_closed
