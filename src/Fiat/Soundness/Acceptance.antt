-- ===== src/Fiat/Soundness/Acceptance.antt =====
-- `acceptAttestation` and `settleVerifiedIntent` of packages/fx-fiat/src/settlement-store.js keep settled
-- intents proven.
use blueballs.Prelude.{
  ℕ, String, Bool, true, false, ◌&&◌, ◌≡◌, refl, sym, subst, inl, inr, some, [], ◌∷◌, ◌++◌, any,
  str_eq, Bool-cases, Option-cases, ok, require, throw_if, require-eq-ok, throw_if-eq-ok, >>=-eq-ok,
  >>-eq-ok, ok-injective,
}
use blueballs.Prelude.Dict.{lookup, insert, is_some}
use blueballs.Fiat.Intents.{payment_replay, wrong_state, unique_violation}
use blueballs.Fiat.Store.{
  IntentState, created, reserved, submitted, payment_observed, verified, settled, cancelled,
  expired, failed, manual_review, IntentRow, Store,
}
use blueballs.Fiat.Transitions.{is_state}
use blueballs.Fiat.Attesting.{
  Attestation, row_with_id, check_attestation, same_payment, attestation_row, insert_attestation,
  record_attestation, or_fresh, accept_new, check_verifier, prior_row, accept_attestation,
  settled_row, settle_row, settle_verified_intent,
}
use blueballs.Fiat.Soundness.Proofs.{is_proven, Proves, insert-IsProven, Among-last, snoc-IsProven}
use blueballs.Fiat.Soundness.Calls.{Proven}

-- What the checks of an attestation establish is what its row needs.
attestation_row-Proves :
    (id : String) (a : Attestation) (r : IntentRow) (times : ℕ × ℕ × ℕ)
    → Proves
        (attestation_row id a r times)
        (record r { state = verified; attestation_id = some id })
unfolding attestation_row
attestation_row-Proves id a r times = record {
  named = refl;
  same_intent = refl;
  same_hash = refl;
  same_amount = refl;
  same_currency = refl;
  same_payer = refl;
  same_payee = refl;
}

record_attestation-Proven :
    (now : ℕ) (id : String) (a : Attestation) (r : IntentRow) (s : Store) {s' : Store}
    → lookup r.intent_id s.intents ≡ some r
    → Proven s
    → record_attestation now id a r s ≡ ok s'
    → Proven s'
unfolding record_attestation insert_attestation attestation_row
record_attestation-Proven now id a r s found p done =
    let (times, _, d1) = >>=-eq-ok (check_attestation now a r) _ done in
    let (fresh, d2) =
      >>-eq-ok
        (throw_if (any (same_payment a.verifier_id a.payment_id) s.attestations) payment_replay) _
        d1 in
    let b = attestation_row id a r times in
    let (_, result) =
      >>-eq-ok (throw_if (is_some (row_with_id b.attestation_id s.attestations)) unique_violation) _
        d2 in
    subst Proven (ok-injective result) (stored times (throw_if-eq-ok _ payment_replay fresh))
  where
    stored :
        (times : ℕ × ℕ × ℕ)
        → any (same_payment a.verifier_id a.payment_id) s.attestations ≡ false
        → Proven (record s {
          attestations = s.attestations ++ attestation_row id a r times ∷ [];
          intents =
              insert r.intent_id
                (record r {
                  state = verified;
                  attestation_id = some (attestation_row id a r times).attestation_id;
                })
                s.intents;
        })
    stored times new =
        insert-IsProven r.intent_id _ s.intents
          (s.attestations ++ attestation_row id a r times ∷ []) refl
          (λ _. (
            attestation_row id a r times,
            Among-last _ s.attestations,
            attestation_row-Proves id a r times,
          ))
          (snoc-IsProven (attestation_row id a r times) s.intents s.attestations new p)

accept_new-Proven :
    (now : ℕ) (fresh_id : String) (a : Attestation) (s : Store) {answer : Bool × Store}
    → Proven s
    → accept_new now fresh_id a s ≡ ok answer
    → Proven answer.1
unfolding accept_new
accept_new-Proven now fresh_id a s p done = elim (Option-cases (lookup a.intent_id s.intents)) [
  | inl missing ↦ let wrong = rw (missing, accept_new) at done in cc
  | inr (r, found) ↦
      let (s', recorded, result) =
        >>=-eq-ok (record_attestation now (or_fresh fresh_id a.attestation_id) a r s) _
          (rw (found, accept_new) at done) in
      let own : lookup r.intent_id s.intents ≡ some r =
        subst (λ k. lookup k s.intents ≡ some r) (sym (p.keyed a.intent_id r found)) found in
      subst (λ x. Proven x.1) (ok-injective result)
        (record_attestation-Proven now (or_fresh fresh_id a.attestation_id) a r s own p recorded)
]

pub accept_attestation-Proven :
    (now : ℕ) (fresh_id : String) (a : Attestation) (s : Store) {answer : Bool × Store}
    → Proven s
    → accept_attestation now fresh_id a s ≡ ok answer
    → Proven answer.1
unfolding accept_attestation
accept_attestation-Proven now fresh_id a s p done =
    let (_, rest) = >>-eq-ok (check_verifier (lookup a.verifier_id s.verifiers)) _ done in
    elim (Option-cases (prior_row a.attestation_id s.attestations)) [
      | inl new ↦ accept_new-Proven now fresh_id a s p (rw new at rest)
      | inr (prior, found) ↦
          elim (Bool-cases
            (str_eq prior.intent_id a.intent_id && str_eq prior.payment_id a.payment_id)) [
              | inl same ↦ subst (λ x. Proven x.1) (ok-injective (rw (found, same) at rest)) p
              | inr differs ↦ let wrong = rw (found, differs) at rest in cc
            ]
    ]

verified_proven : (a : IntentState) → is_state a verified ≡ true → is_proven a ≡ true
verified_proven created h = cc
verified_proven reserved h = cc
verified_proven submitted h = cc
verified_proven payment_observed h = cc
verified_proven verified h = refl
verified_proven settled h = cc
verified_proven cancelled h = cc
verified_proven expired h = cc
verified_proven failed h = cc
verified_proven manual_review h = cc

settle_row-Proven :
    (now : ℕ) (event_id : String) (r : IntentRow) (s : Store) {answer : Bool × Store}
    → lookup r.intent_id s.intents ≡ some r
    → Proven s
    → settle_row now event_id r s ≡ ok answer
    → Proven answer.1
unfolding settle_row
settle_row-Proven now event_id r s found p done =
    let (state, result) = >>-eq-ok (require (is_state r.state verified) wrong_state) _ done in
    let proven : is_proven r.state ≡ true =
      verified_proven r.state (require-eq-ok _ wrong_state state) in
    let (b, among, proves) = p.proofs r.intent_id r found proven in
    subst (λ x. Proven x.1) (ok-injective result)
      (insert-IsProven r.intent_id (settled_row now r) s.intents s.attestations refl
        (λ _. (
          b,
          among,
          record {
            named = proves.named;
            same_intent = proves.same_intent;
            same_hash = proves.same_hash;
            same_amount = proves.same_amount;
            same_currency = proves.same_currency;
            same_payer = proves.same_payer;
            same_payee = proves.same_payee;
          },
        ))
        p)

pub settle_verified_intent-Proven :
    (now : ℕ) (intent_id event_id : String) (s : Store) {answer : Bool × Store}
    → Proven s
    → settle_verified_intent now intent_id event_id s ≡ ok answer
    → Proven answer.1
unfolding settle_verified_intent
settle_verified_intent-Proven now intent_id event_id s p done =
    elim (Bool-cases (any (λ e. str_eq e.event_id event_id) s.events)) [
      | inl old ↦ subst (λ x. Proven x.1) (ok-injective (rw old at done)) p
      | inr new ↦ elim (Option-cases (lookup intent_id s.intents)) [
        | inl missing ↦ let wrong = rw (new, missing, settle_verified_intent) at done in cc
        | inr (r, found) ↦
            settle_row-Proven now event_id r s
              (subst (λ k. lookup k s.intents ≡ some r) (sym (p.keyed intent_id r found)) found) p
              (rw (new, found, settle_verified_intent) at done)
      ]
    ]
