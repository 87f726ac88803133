-- ===== src/Fiat/Soundness/History.antt =====
-- The histories of the calls of packages/fx-fiat/src/settlement-store.js.
use blueballs.Prelude.{
  ℕ, String, Bool, false, ◌≡◌, ◌≢◌, refl, sym, ◌∙◌, Option, none, some, [], Among, ok,
}
use blueballs.Prelude.Dict.{lookup}
use blueballs.Fiat.Intents.{RawIntent, Intent}
use blueballs.Fiat.Store.{
  settled, IntentRow, AttestationRow, Store, register_verifier, set_verifier_enabled, create_intent,
}
use blueballs.Fiat.Transitions.{
  reserve_intent, submit_intent, observe_payment, cancel_intent, expire_intents, fail_intent,
  manual_review_intent,
}
use blueballs.Fiat.Attesting.{Attestation, accept_attestation, settle_verified_intent}
use blueballs.Fiat.Soundness.Proofs.{Proves, OtherPayment, Among-OtherPayment}
use blueballs.Fiat.Soundness.Calls.{Proven, expire_intents-Proven, create_intent-Proven}
use blueballs.Fiat.Soundness.Acceptance.{accept_attestation-Proven, settle_verified_intent-Proven}
use blueballs.Fiat.Soundness.Finality.{is_open, expire_intents-KeepsEnded, create_intent-KeepsEnded}
use blueballs.Fiat.Soundness.Lasting.{
  accept_attestation-KeepsEnded, settle_verified_intent-KeepsEnded,
}
use blueballs.Fiat.Soundness.Keeping.{
  Keeps, register-Keeps, enable-Keeps, reserve-Keeps, submit-Keeps, observe-Keeps, cancel-Keeps,
  fail-Keeps, review-Keeps,
}

abbrev pub empty_store : Store
empty_store = record { verifiers = []; intents = []; attestations = []; events = [] }

-- A call that changes the tables. A call that throws changes nothing, and is no step.
pub data Step (hash_intent : Intent → String) (hash_ref : String → String) (s : Store)
    : Store → Type 0 where
  register :
      (verifier_id verifier_type : String) (enabled : Bool) {s' : Store}
      → register_verifier verifier_id verifier_type enabled s ≡ ok s'
      → Step hash_intent hash_ref s s'
  enable :
      (verifier_id : String) (enabled : Bool) {s' : Store}
      → set_verifier_enabled verifier_id enabled s ≡ ok s'
      → Step hash_intent hash_ref s s'
  create :
      (now : ℕ) (raw : RawIntent) (r : IntentRow) {s' : Store}
      → create_intent hash_intent hash_ref now raw s ≡ ok (r, s')
      → Step hash_intent hash_ref s s'
  reserve :
      (now : ℕ) (k : String) {s' : Store}
      → reserve_intent now k s ≡ ok s'
      → Step hash_intent hash_ref s s'
  submit :
      (now : ℕ) (k submission_ref : String) {s' : Store}
      → submit_intent now k submission_ref s ≡ ok s'
      → Step hash_intent hash_ref s s'
  observe :
      (now : ℕ) (k : String) (at : Option ℕ) {s' : Store}
      → observe_payment now k at s ≡ ok s'
      → Step hash_intent hash_ref s s'
  cancel :
      (now : ℕ) (k : String) {s' : Store}
      → cancel_intent now k s ≡ ok s'
      → Step hash_intent hash_ref s s'
  expire : (now : ℕ) → Step hash_intent hash_ref s (expire_intents now s)
  fail :
      (now : ℕ) (k reason : String) {s' : Store}
      → fail_intent now k reason s ≡ ok s'
      → Step hash_intent hash_ref s s'
  review :
      (now : ℕ) (k reason : String) {s' : Store}
      → manual_review_intent now k reason s ≡ ok s'
      → Step hash_intent hash_ref s s'
  attest :
      (now : ℕ) (fresh_id : String) (a : Attestation) (duplicate : Bool) {s' : Store}
      → accept_attestation now fresh_id a s ≡ ok (duplicate, s')
      → Step hash_intent hash_ref s s'
  settle :
      (now : ℕ) (k event_id : String) (duplicate : Bool) {s' : Store}
      → settle_verified_intent now k event_id s ≡ ok (duplicate, s')
      → Step hash_intent hash_ref s s'

pub data Reach (hash_intent : Intent → String) (hash_ref : String → String) : Store → Type 0 where
  begin : Reach hash_intent hash_ref empty_store
  next :
      {s s' : Store}
      → Reach hash_intent hash_ref s
      → Step hash_intent hash_ref s s'
      → Reach hash_intent hash_ref s'

empty-Proven : Proven empty_store
unfolding lookup
empty-Proven = record {
  keyed = λ k r found. cc;
  proofs = λ k r found proven. absurd (none_some found);
  once = tt;
}
  where
    none_some : {r : IntentRow} → ◌≡◌ {A = Option IntentRow} none (some r) → ⊥
    none_some h = cc

module _ {hash_intent : Intent → String} {hash_ref : String → String} where
  Step-Keeps : {s s' : Store} → Step hash_intent hash_ref s s' → Keeps s s'
  Step-Keeps {s} (register verifier_id verifier_type enabled done) p =
      register-Keeps verifier_id verifier_type enabled s done p
  Step-Keeps {s} (enable verifier_id enabled done) p = enable-Keeps verifier_id enabled s done p
  Step-Keeps {s} (create now raw r done) p = (
    create_intent-Proven hash_intent hash_ref now raw s p done,
    create_intent-KeepsEnded hash_intent hash_ref now raw s done,
  )
  Step-Keeps {s} (reserve now k done) p = reserve-Keeps now k s done p
  Step-Keeps {s} (submit now k submission_ref done) p = submit-Keeps now k submission_ref s done p
  Step-Keeps {s} (observe now k at done) p = observe-Keeps now k at s done p
  Step-Keeps {s} (cancel now k done) p = cancel-Keeps now k s done p
  Step-Keeps {s} (expire now) p = (expire_intents-Proven now s p, expire_intents-KeepsEnded now s)
  Step-Keeps {s} (fail now k reason done) p = fail-Keeps now k reason s done p
  Step-Keeps {s} (review now k reason done) p = review-Keeps now k reason s done p
  Step-Keeps {s} (attest now fresh_id a duplicate done) p = (
    accept_attestation-Proven now fresh_id a s p done,
    accept_attestation-KeepsEnded now fresh_id a s p.keyed done,
  )
  Step-Keeps {s} (settle now k event_id duplicate done) p = (
    settle_verified_intent-Proven now k event_id s p done,
    settle_verified_intent-KeepsEnded now k event_id s p.keyed done,
  )

  Reach-Proven : {s : Store} → Reach hash_intent hash_ref s → Proven s
  Reach-Proven begin = empty-Proven
  Reach-Proven (next r step) = (Step-Keeps step (Reach-Proven r)).0

  -- In every state that calls lead to from empty tables, two different intents that are settled stand on two
  -- recorded attestations, each of its own intent with its hash, amount, currency and parties, and of two
  -- different payments: no payment settles two intents.
  pub settled_once :
      {s : Store} (k j : String) (r q : IntentRow)
      → Reach hash_intent hash_ref s
      → lookup k s.intents ≡ some r
      → lookup j s.intents ≡ some q
      → k ≢ j
      → r.state ≡ settled
      → q.state ≡ settled
      → (a : AttestationRow) × (b : AttestationRow) × Among a s.attestations
        × Among b s.attestations
        × Proves a r
        × Proves b q
        × OtherPayment a b
  settled_once {s} k j r q reach here there other done also =
      let p = Reach-Proven reach in
      let (a, ma, pa) = p.proofs k r here (rw done refl) in
      let (b, mb, pb) = p.proofs j q there (rw also refl) in
      (
        a,
        b,
        ma,
        mb,
        pa,
        pb,
        Among-OtherPayment a b s.attestations
            (λ same. other (
              sym (p.keyed k r here)
              ∙ sym pa.same_intent
              ∙ same
              ∙ pb.same_intent
              ∙ p.keyed j q there))
            ma mb p.once,
      )

  -- In every reachable state, no call changes an intent that is settled, cancelled, expired, failed or in
  -- manual review.
  pub ended_stays :
      {s s' : Store} (k : String) (r : IntentRow)
      → Reach hash_intent hash_ref s
      → Step hash_intent hash_ref s s'
      → lookup k s.intents ≡ some r
      → is_open r.state ≡ false
      → lookup k s'.intents ≡ some r
  ended_stays k r reach step there ended = (Step-Keeps step (Reach-Proven reach)).1 k r there ended
