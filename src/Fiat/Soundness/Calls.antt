-- ===== src/Fiat/Soundness/Calls.antt =====
-- Every call of packages/fx-fiat/src/settlement-store.js keeps settled intents proven.
use blueballs.Prelude.{
  ℕ, String, true, false, ◌&&◌, ◌≡◌, refl, sym, ap, ◌∙◌, subst, inl, inr, some, List, [], ◌∷◌, any,
  leb, str_eq, Bool-cases, Option-cases, ok, throw_if, >>=-eq-ok, >>-eq-ok, ok-injective,
}
use blueballs.Prelude.Dict.{Dict, lookup}
use blueballs.Prelude.Rows.{rows}
use blueballs.Fiat.Intents.{RawIntent, Intent, intent_expired, normalize_fiat_intent}
use blueballs.Fiat.Store.{
  IntentState, created, reserved, expired, IntentRow, Store, new_row, store_intent, create_intent,
}
use blueballs.Fiat.Transitions.{
  is_one_of, check_row, transition, expire_row, expire_rows, expire_intents,
}
use blueballs.Fiat.Soundness.Proofs.{is_proven, HasProof, IsProven, insert-IsProven}

abbrev pub Proven : Store → Type 0
Proven s = IsProven s.intents s.attestations

-- A row in a state that is not proven may be stored.
module _ (now : ℕ) (k : String) (from : List IntentState) (to : IntentState)
    (change : IntentRow → IntentRow) (unproven : is_proven to ≡ false)
    (same_id : (r : IntentRow) → (change r).intent_id ≡ r.intent_id) where
  pub transition-Proven :
      (s : Store) {s' : Store} → Proven s → transition now k from to change s ≡ ok s' → Proven s'
  unfolding transition
  transition-Proven s p done = elim (Option-cases (lookup k s.intents)) [
    | inl missing ↦ let wrong = rw (missing, transition) at done in cc
    | inr (r, found) ↦
        let (_, result) = >>-eq-ok (check_row now from to r) _ (rw (found, transition) at done) in
        subst Proven (ok-injective result) (
          insert-IsProven k (record (change r) { state = to }) s.intents s.attestations
            (same_id r ∙ p.keyed k r found) (λ proven. cc) p)
  ]

expire_rows-lookup :
    (now : ℕ) (k : String) (d : Dict IntentRow) (r : IntentRow)
    → lookup k (expire_rows now d) ≡ some r
    → (q : IntentRow) × (lookup k d ≡ some q) × (r ≡ expire_row now q)
unfolding expire_rows lookup
expire_rows-lookup now k [] r found = cc
expire_rows-lookup now k ((j, q) ∷ d) r found = elim (Bool-cases (str_eq j k)) [
  | inl same ↦
      let here : some (expire_row now q) ≡ some r = rw same at found in (q, rw same refl, cc)
  | inr other ↦
      let (x, there, is) = expire_rows-lookup now k d r (rw other at found) in
      (x, rw other there, is)
]

expire_row_kept :
    (now : ℕ) (q : IntentRow) → is_proven (expire_row now q).state ≡ true → expire_row now q ≡ q
expire_row_kept now q proven =
    elim (Bool-cases (is_one_of (created ∷ reserved ∷ []) q.state && leb q.expires_at now)) [
      | inl due ↦ let wrong : is_proven expired ≡ true = rw due at proven in cc
      | inr kept ↦ rw kept refl
    ]

expire_row-id : (now : ℕ) (q : IntentRow) → (expire_row now q).intent_id ≡ q.intent_id
expire_row-id now q =
    elim (Bool-cases (is_one_of (created ∷ reserved ∷ []) q.state && leb q.expires_at now)) [
      | inl due ↦ rw due refl
      | inr kept ↦ rw kept refl
    ]

pub expire_intents-Proven : (now : ℕ) (s : Store) → Proven s → Proven (expire_intents now s)
unfolding expire_intents
expire_intents-Proven now s p = record {
  keyed = λ k r found.
      let (q, there, is) = expire_rows-lookup now k s.intents r found in
      ap (λ x. x.intent_id) is ∙ expire_row-id now q ∙ p.keyed k q there;
  proofs = λ k r found proven.
      let (q, there, is) = expire_rows-lookup now k s.intents r found in
      let same : r ≡ q =
        is ∙ expire_row_kept now q (subst (λ x. is_proven x.state ≡ true) is proven) in
      subst (HasProof s.attestations) (sym same)
        (p.proofs k q there (subst (λ x. is_proven x.state ≡ true) same proven));
  once = p.once;
}

module _ (hash_intent : Intent → String) (hash_ref : String → String) where
  store_intent-Proven :
      (i : Intent) (s : Store) {answer : IntentRow × Store}
      → Proven s
      → store_intent hash_intent hash_ref i s ≡ ok answer
      → Proven answer.1
  unfolding store_intent new_row
  store_intent-Proven i s p done = elim (Option-cases (lookup i.intent_id s.intents)) [
    | inr (r, found) ↦ elim (Bool-cases (str_eq r.intent_hash (hash_intent i))) [
      | inl same ↦ subst (λ x. Proven x.1) (ok-injective (rw (found, same, store_intent) at done)) p
      | inr differs ↦ let wrong = rw (found, differs, store_intent) at done in cc
    ]
    | inl fresh ↦
        elim (Bool-cases (any (λ r. str_eq r.intent_hash (hash_intent i)) (rows s.intents))) [
          | inl taken ↦ let wrong = rw (fresh, taken, store_intent) at done in cc
          | inr new ↦
              subst (λ x. Proven x.1) (ok-injective (rw (fresh, new, store_intent) at done))
                (insert-IsProven i.intent_id (new_row hash_intent hash_ref i) s.intents
                  s.attestations refl (λ wrong. cc) p)
        ]
  ]

  pub create_intent-Proven :
      (now : ℕ) (raw : RawIntent) (s : Store) {answer : IntentRow × Store}
      → Proven s
      → create_intent hash_intent hash_ref now raw s ≡ ok answer
      → Proven answer.1
  unfolding create_intent
  create_intent-Proven now raw s p done =
      let (i, _, d1) = >>=-eq-ok (normalize_fiat_intent raw) _ done in
      let (_, stored) = >>-eq-ok (throw_if (leb i.expires_at now) intent_expired) _ d1 in
      store_intent-Proven i s p stored
