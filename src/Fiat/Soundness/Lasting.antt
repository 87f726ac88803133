-- ===== src/Fiat/Soundness/Lasting.antt =====
-- The attestation and the settlement of packages/fx-fiat/src/settlement-store.js keep the intents that
-- have come to an end.
use blueballs.Prelude.{
  ℕ, String, Bool, true, ◌&&◌, ◌≡◌, sym, subst, inl, inr, some, [], ◌∷◌, any, arith, str_eq,
  Bool-cases, Option-cases, ok, require, throw_if, require-eq-ok, >>=-eq-ok, >>-eq-ok, ok-injective,
}
use blueballs.Prelude.Dict.{lookup, is_some}
use blueballs.Fiat.Intents.{payment_replay, wrong_state, unique_violation}
use blueballs.Fiat.Store.{IntentState, submitted, payment_observed, verified, IntentRow, Store}
use blueballs.Fiat.Transitions.{is_state, is_one_of}
use blueballs.Fiat.Attesting.{
  Attestation, row_with_id, check_attestation, same_payment, attestation_row, insert_attestation,
  record_attestation, or_fresh, accept_new, check_verifier, prior_row, accept_attestation,
  settle_row, settle_verified_intent,
}
use blueballs.Fiat.Soundness.Finality.{is_open, KeepsEnded, insert-KeepsEnded}

two_open :
    (a : IntentState) → is_one_of (submitted ∷ payment_observed ∷ []) a ≡ true → is_open a ≡ true
two_open a h = ground arith

check_attestation-open :
    (now : ℕ) (a : Attestation) (r : IntentRow) {times : ℕ × ℕ × ℕ}
    → check_attestation now a r ≡ ok times
    → is_open r.state ≡ true
unfolding check_attestation
check_attestation-open now a r done =
    let (allowed, _) =
      >>-eq-ok (require (is_one_of (submitted ∷ payment_observed ∷ []) r.state) wrong_state) _
        done in
    two_open r.state
      (require-eq-ok (is_one_of (submitted ∷ payment_observed ∷ []) r.state) wrong_state allowed)

record_attestation-KeepsEnded :
    (now : ℕ) (id : String) (a : Attestation) (r : IntentRow) (s : Store) {s' : Store}
    → lookup r.intent_id s.intents ≡ some r
    → record_attestation now id a r s ≡ ok s'
    → KeepsEnded s s'
unfolding record_attestation insert_attestation
record_attestation-KeepsEnded now id a r s found done =
    let (times, checked, d1) = >>=-eq-ok (check_attestation now a r) _ done in
    let (_, d2) =
      >>-eq-ok
        (throw_if (any (same_payment a.verifier_id a.payment_id) s.attestations) payment_replay) _
        d1 in
    let (_, result) =
      >>-eq-ok
        (throw_if
          (is_some (row_with_id (attestation_row id a r times).attestation_id s.attestations))
          unique_violation)
        _ d2 in
    subst (KeepsEnded s) (ok-injective result) (λ k q there ended.
      insert-KeepsEnded r.intent_id r _ s.intents found (check_attestation-open now a r checked) k q
        there ended)

-- The rows stand under their identifiers.
abbrev IsKeyed : Store → Type 0
IsKeyed s = (k : String) (r : IntentRow) → lookup k s.intents ≡ some r → r.intent_id ≡ k

own_row :
    (s : Store) (k : String) (r : IntentRow)
    → IsKeyed s
    → lookup k s.intents ≡ some r
    → lookup r.intent_id s.intents ≡ some r
own_row s k r keyed found = subst (λ j. lookup j s.intents ≡ some r) (sym (keyed k r found)) found

accept_new-KeepsEnded :
    (now : ℕ) (fresh_id : String) (a : Attestation) (s : Store) {answer : Bool × Store}
    → IsKeyed s
    → accept_new now fresh_id a s ≡ ok answer
    → KeepsEnded s answer.1
unfolding accept_new
accept_new-KeepsEnded now fresh_id a s keyed done =
    elim (Option-cases (lookup a.intent_id s.intents)) [
      | inl missing ↦ let wrong = rw (missing, accept_new) at done in cc
      | inr (r, found) ↦
          let (s', recorded, result) =
            >>=-eq-ok (record_attestation now (or_fresh fresh_id a.attestation_id) a r s) _
              (rw (found, accept_new) at done) in
          subst (λ x. KeepsEnded s x.1) (ok-injective result)
            (record_attestation-KeepsEnded now (or_fresh fresh_id a.attestation_id) a r s
              (own_row s a.intent_id r keyed found) recorded)
    ]

pub accept_attestation-KeepsEnded :
    (now : ℕ) (fresh_id : String) (a : Attestation) (s : Store) {answer : Bool × Store}
    → IsKeyed s
    → accept_attestation now fresh_id a s ≡ ok answer
    → KeepsEnded s answer.1
unfolding accept_attestation
accept_attestation-KeepsEnded now fresh_id a s keyed done =
    let (_, rest) = >>-eq-ok (check_verifier (lookup a.verifier_id s.verifiers)) _ done in
    elim (Option-cases (prior_row a.attestation_id s.attestations)) [
      | inl new ↦ accept_new-KeepsEnded now fresh_id a s keyed (rw new at rest)
      | inr (prior, found) ↦
          elim (Bool-cases
            (str_eq prior.intent_id a.intent_id && str_eq prior.payment_id a.payment_id)) [
              | inl same ↦
                  subst (λ x. KeepsEnded s x.1) (ok-injective (rw (found, same) at rest))
                    (λ k r there ended. there)
              | inr differs ↦ let wrong = rw (found, differs) at rest in cc
            ]
    ]

verified_open : (a : IntentState) → is_state a verified ≡ true → is_open a ≡ true
verified_open a h = ground arith

pub settle_verified_intent-KeepsEnded :
    (now : ℕ) (intent_id event_id : String) (s : Store) {answer : Bool × Store}
    → IsKeyed s
    → settle_verified_intent now intent_id event_id s ≡ ok answer
    → KeepsEnded s answer.1
unfolding settle_verified_intent settle_row
settle_verified_intent-KeepsEnded now intent_id event_id s keyed done =
    elim (Bool-cases (any (λ e. str_eq e.event_id event_id) s.events)) [
      | inl old ↦
          subst (λ x. KeepsEnded s x.1) (ok-injective (rw old at done)) (λ k r there ended. there)
      | inr new ↦ elim (Option-cases (lookup intent_id s.intents)) [
        | inl missing ↦ let wrong = rw (new, missing, settle_verified_intent) at done in cc
        | inr (r, found) ↦
            let (allowed, result) =
              >>-eq-ok (require (is_state r.state verified) wrong_state) _
                (rw (new, found, settle_verified_intent) at done) in
            let opened =
              verified_open r.state
                (require-eq-ok (is_state r.state verified) wrong_state allowed) in
            subst (λ x. KeepsEnded s x.1) (ok-injective result)
              (λ k q there ended.
                insert-KeepsEnded r.intent_id r _ s.intents (own_row s intent_id r keyed found)
                  opened k q there ended)
      ]
    ]
