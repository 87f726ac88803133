-- ===== src/Fiat/Soundness/Finality.antt =====
-- An intent of packages/fx-fiat/src/settlement-store.js that has come to an end stays as it is.
use blueballs.Prelude.{
  ℕ, String, Bool, true, false, ◌≡◌, refl, sym, ap, ◌∙◌, subst, inl, inr, none, some, List, [], ◌∷◌,
  any, leb, arith, str_eq, str_eq_iff, Bool-cases, Option-cases, ok, require, throw_if,
  require-eq-ok, >>=-eq-ok, >>-eq-ok, ok-injective,
}
use blueballs.Prelude.Dict.{Dict, lookup, insert, lookup-insert}
use blueballs.Prelude.Rows.{rows}
use blueballs.Fiat.Intents.{RawIntent, Intent, intent_expired, wrong_state, normalize_fiat_intent}
use blueballs.Fiat.Store.{
  IntentState, created, reserved, submitted, payment_observed, verified, IntentRow, Store,
  store_intent, create_intent,
}
use blueballs.Fiat.Transitions.{
  is_one_of, check_row, transition, expire_row, expire_rows, expire_intents,
}

-- The states that calls lead out of.
abbrev pub is_open : IntentState → Bool
is_open a = is_one_of (created ∷ reserved ∷ submitted ∷ payment_observed ∷ verified ∷ []) a

-- Every row whose state is not open is there unchanged.
abbrev pub KeepsEnded : Store → Store → Type 0
KeepsEnded s s' =
    (k : String) (r : IntentRow)
    → lookup k s.intents ≡ some r
    → is_open r.state ≡ false
    → lookup k s'.intents ≡ some r

-- Changing an open row keeps the ended ones.
pub insert-KeepsEnded :
    (j : String) (q x : IntentRow) (d : Dict IntentRow)
    → lookup j d ≡ some q
    → is_open q.state ≡ true
    → (k : String) (r : IntentRow) → lookup k d ≡ some r
    → is_open r.state ≡ false
    → lookup k (insert j x d) ≡ some r
insert-KeepsEnded j q x d found opened k r there ended = elim (Bool-cases (str_eq j k)) [
  | inr other ↦ lookup-insert j k x d ∙ rw other there
  | inl same ↦
      let key : j ≡ k = (str_eq_iff j k).0 same in
      let rows_are : some q ≡ some r =
        sym found ∙ subst (λ i. lookup i d ≡ some r) (sym key) there in
      let row_is : q ≡ r = cc rows_are in
      let wrong : is_open r.state ≡ true = subst (λ y. is_open y.state ≡ true) row_is opened in cc
]

insert_fresh-KeepsEnded :
    (j : String) (x : IntentRow) (d : Dict IntentRow)
    → lookup j d ≡ none
    → (k : String) (r : IntentRow) → lookup k d ≡ some r
    → lookup k (insert j x d) ≡ some r
insert_fresh-KeepsEnded j x d fresh k r there = elim (Bool-cases (str_eq j k)) [
  | inr other ↦ lookup-insert j k x d ∙ rw other there
  | inl same ↦
      let key : j ≡ k = (str_eq_iff j k).0 same in
      let wrong : none ≡ some r = sym fresh ∙ subst (λ i. lookup i d ≡ some r) (sym key) there in cc
]

pub transition-KeepsEnded :
    (now : ℕ) (j : String) (from : List IntentState) (to : IntentState)
    (change : IntentRow → IntentRow)
    → ((a : IntentState) → is_one_of from a ≡ true → is_open a ≡ true)
    → (s : Store) {s' : Store} → transition now j from to change s ≡ ok s'
    → KeepsEnded s s'
unfolding transition check_row
transition-KeepsEnded now j from to change leads s done = elim (Option-cases (lookup j s.intents)) [
  | inl missing ↦ let wrong = rw (missing, transition) at done in cc
  | inr (q, found) ↦
      let (checked, result) =
        >>-eq-ok (check_row now from to q) _ (rw (found, transition) at done) in
      let (allowed, _) = >>-eq-ok (require (is_one_of from q.state) wrong_state) _ checked in
      let opened = leads q.state (require-eq-ok (is_one_of from q.state) wrong_state allowed) in
      subst (KeepsEnded s) (ok-injective result)
        (λ k r there ended. insert-KeepsEnded j q _ s.intents found opened k r there ended)
]

two_open_first : (a : IntentState) → is_one_of (created ∷ reserved ∷ []) a ≡ true → is_open a ≡ true
two_open_first a h = ground arith

expire_row_ended : (now : ℕ) (r : IntentRow) → is_open r.state ≡ false → expire_row now r ≡ r
expire_row_ended now r ended = elim (Bool-cases (is_one_of (created ∷ reserved ∷ []) r.state)) [
  | inr other ↦ rw other refl
  | inl first ↦ let wrong = two_open_first r.state first in cc
]

expire_rows-kept :
    (now : ℕ) (k : String) (d : Dict IntentRow) (r : IntentRow)
    → lookup k d ≡ some r
    → is_open r.state ≡ false
    → lookup k (expire_rows now d) ≡ some r
unfolding expire_rows lookup
expire_rows-kept now k [] r found ended = found
expire_rows-kept now k ((j, q) ∷ d) r found ended = elim (Bool-cases (str_eq j k)) [
  | inr other ↦ rw other (expire_rows-kept now k d r (rw other at found) ended)
  | inl same ↦
      let here : some q ≡ some r = rw same at found in
      let row_is : q ≡ r = cc here in
      let kept : expire_row now r ≡ r = expire_row_ended now r ended in
      rw same (ap (λ x. some x) (ap (λ x. expire_row now x) row_is ∙ kept))
]

pub expire_intents-KeepsEnded : (now : ℕ) (s : Store) → KeepsEnded s (expire_intents now s)
unfolding expire_intents
expire_intents-KeepsEnded now s k r there ended = expire_rows-kept now k s.intents r there ended

module _ (hash_intent : Intent → String) (hash_ref : String → String) where
  store_intent-KeepsEnded :
      (i : Intent) (s : Store) {answer : IntentRow × Store}
      → store_intent hash_intent hash_ref i s ≡ ok answer
      → KeepsEnded s answer.1
  unfolding store_intent
  store_intent-KeepsEnded i s done = elim (Option-cases (lookup i.intent_id s.intents)) [
    | inr (q, found) ↦ elim (Bool-cases (str_eq q.intent_hash (hash_intent i))) [
      | inl same ↦
          subst (λ x. KeepsEnded s x.1) (ok-injective (rw (found, same, store_intent) at done))
            (λ k r there ended. there)
      | inr differs ↦ let wrong = rw (found, differs, store_intent) at done in cc
    ]
    | inl fresh ↦
        elim (Bool-cases (any (λ r. str_eq r.intent_hash (hash_intent i)) (rows s.intents))) [
          | inl taken ↦ let wrong = rw (fresh, taken, store_intent) at done in cc
          | inr new ↦
              subst (λ x. KeepsEnded s x.1) (ok-injective (rw (fresh, new, store_intent) at done))
                (λ k r there ended. insert_fresh-KeepsEnded i.intent_id _ s.intents fresh k r there)
        ]
  ]

  pub create_intent-KeepsEnded :
      (now : ℕ) (raw : RawIntent) (s : Store) {answer : IntentRow × Store}
      → create_intent hash_intent hash_ref now raw s ≡ ok answer
      → KeepsEnded s answer.1
  unfolding create_intent
  create_intent-KeepsEnded now raw s done =
      let (i, _, d1) = >>=-eq-ok (normalize_fiat_intent raw) _ done in
      let (_, stored) = >>-eq-ok (throw_if (leb i.expires_at now) intent_expired) _ d1 in
      store_intent-KeepsEnded i s stored
