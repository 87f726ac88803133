-- ===== src/Fiat/Soundness/Keeping.antt =====
-- What the calls of packages/fx-fiat/src/settlement-store.js keep, call by call.
use blueballs.Prelude.{
  ℕ, String, Bool, true, false, ◌≡◌, refl, subst, Option, some, List, [], ◌∷◌, arith, ok, >>-eq-ok,
  >>=-eq-ok, throw_if, is_empty, ok-injective, Option-cases, inl, inr,
}
use blueballs.Prelude.Dict.{lookup}
use blueballs.Fiat.Intents.{invalid, safe_time}
use blueballs.Fiat.Store.{
  IntentState, created, reserved, submitted, payment_observed, verified, cancelled, failed,
  manual_review, IntentRow, Store, register_verifier, set_verifier_enabled,
}
use blueballs.Fiat.Transitions.{
  is_one_of, transition, reserve_intent, submit_intent, observe_payment, cancel_intent, fail_intent,
  manual_review_intent,
}
use blueballs.Fiat.Soundness.Proofs.{is_proven}
use blueballs.Fiat.Soundness.Calls.{Proven, transition-Proven}
use blueballs.Fiat.Soundness.Finality.{is_open, KeepsEnded, transition-KeepsEnded}

-- What a call keeps of sound tables: the settled intents are proven, and the ended ones stay.
abbrev pub Keeps : Store → Store → Type 0
Keeps s s' = Proven s → Proven s' × KeepsEnded s s'

-- A call that runs `transition` out of open states, to one that is not proven.
moves :
    (now : ℕ) (k : String) (from : List IntentState) (to : IntentState)
    (change : IntentRow → IntentRow)
    → is_proven to ≡ false
    → ((r : IntentRow) → (change r).intent_id ≡ r.intent_id)
    → ((a : IntentState) → is_one_of from a ≡ true → is_open a ≡ true)
    → (s : Store) {s' : Store} → transition now k from to change s ≡ ok s'
    → Keeps s s'
moves now k from to change unproven same_id leads s done p = (
  transition-Proven now k from to change unproven same_id s p done,
  transition-KeepsEnded now k from to change leads s done,
)

pub register-Keeps :
    (verifier_id verifier_type : String) (enabled : Bool) (s : Store) {s' : Store}
    → register_verifier verifier_id verifier_type enabled s ≡ ok s'
    → Keeps s s'
unfolding register_verifier
register-Keeps verifier_id verifier_type enabled s done p =
    let (_, d1) = >>-eq-ok (throw_if (is_empty verifier_id) (invalid "verifierId")) _ done in
    let (_, result) = >>-eq-ok (throw_if (is_empty verifier_type) (invalid "verifierType")) _ d1 in
    subst (λ t. Proven t × KeepsEnded s t) (ok-injective result) (p, λ k r there ended. there)

pub enable-Keeps :
    (verifier_id : String) (enabled : Bool) (s : Store) {s' : Store}
    → set_verifier_enabled verifier_id enabled s ≡ ok s'
    → Keeps s s'
unfolding set_verifier_enabled
enable-Keeps verifier_id enabled s done p = elim (Option-cases (lookup verifier_id s.verifiers)) [
  | inl missing ↦ let wrong = rw (missing, set_verifier_enabled) at done in cc
  | inr (v, found) ↦
      subst (λ t. Proven t × KeepsEnded s t)
        (ok-injective (rw (found, set_verifier_enabled) at done)) (p, λ k r there ended. there)
]

pub reserve-Keeps :
    (now : ℕ) (k : String) (s : Store) {s' : Store} → reserve_intent now k s ≡ ok s' → Keeps s s'
unfolding reserve_intent
reserve-Keeps now k s done =
    moves now k (created ∷ []) reserved (λ r. r) refl (λ r. refl) (λ a h. ground arith) s done

pub submit-Keeps :
    (now : ℕ) (k submission_ref : String) (s : Store) {s' : Store}
    → submit_intent now k submission_ref s ≡ ok s'
    → Keeps s s'
unfolding submit_intent
submit-Keeps now k submission_ref s done =
    moves now k (reserved ∷ []) submitted (λ r. record r { submission_ref = some submission_ref })
      refl (λ r. refl) (λ a h. ground arith) s
      (>>-eq-ok (throw_if (is_empty submission_ref) (invalid "submissionRef")) _ done).1

pub observe-Keeps :
    (now : ℕ) (k : String) (at : Option ℕ) (s : Store) {s' : Store}
    → observe_payment now k at s ≡ ok s'
    → Keeps s s'
unfolding observe_payment
observe-Keeps now k at s done =
    let (time, _, moved) = >>=-eq-ok (safe_time at "observedAt") _ done in
    moves now k (submitted ∷ []) payment_observed
      (λ r. record r { payment_observed_at = some time }) refl (λ r. refl) (λ a h. ground arith) s
      moved

pub cancel-Keeps :
    (now : ℕ) (k : String) (s : Store) {s' : Store} → cancel_intent now k s ≡ ok s' → Keeps s s'
unfolding cancel_intent
cancel-Keeps now k s done =
    moves now k (created ∷ reserved ∷ []) cancelled (λ r. r) refl (λ r. refl) (λ a h. ground arith)
      s done

in_flight_open :
    (a : IntentState)
    → is_one_of (submitted ∷ payment_observed ∷ verified ∷ []) a ≡ true
    → is_open a ≡ true
in_flight_open a h = ground arith

pub fail-Keeps :
    (now : ℕ) (k reason : String) (s : Store) {s' : Store}
    → fail_intent now k reason s ≡ ok s'
    → Keeps s s'
unfolding fail_intent
fail-Keeps now k reason s done =
    moves now k (submitted ∷ payment_observed ∷ verified ∷ []) failed
      (λ r. record r { failure_reason = some reason }) refl (λ r. refl) in_flight_open s
      (>>-eq-ok (throw_if (is_empty reason) (invalid "reason")) _ done).1

pub review-Keeps :
    (now : ℕ) (k reason : String) (s : Store) {s' : Store}
    → manual_review_intent now k reason s ≡ ok s'
    → Keeps s s'
unfolding manual_review_intent
review-Keeps now k reason s done =
    moves now k (submitted ∷ payment_observed ∷ verified ∷ []) manual_review
      (λ r. record r { failure_reason = some reason }) refl (λ r. refl) in_flight_open s
      (>>-eq-ok (throw_if (is_empty reason) (invalid "reason")) _ done).1
