-- ===== src/Fiat/Soundness/Proofs.antt =====
-- That settled intents of packages/fx-fiat/src/settlement-store.js stand on attested payments: the invariant
-- of its tables, and what it becomes where an intent changes.
use blueballs.Prelude.{
  String, Bool, true, false, ◌≡◌, ◌≢◌, refl, sym, ap, ◌∙◌, subst, inl, inr, some, List, [], ◌∷◌,
  ◌++◌, any, All-append, All-Among, Among, arith, str_eq, str_eq_iff, Bool-cases,
}
use blueballs.Prelude.Dict.{Dict, lookup, insert, lookup-insert}
use blueballs.Prelude.Sorting.{Pairwise}
use blueballs.Fiat.Store.{
  IntentState, created, reserved, submitted, payment_observed, verified, settled, cancelled,
  expired, failed, manual_review, IntentRow, AttestationRow,
}
use blueballs.Fiat.Attesting.{same_payment}

-- The states that an intent has only once its payment is attested.
abbrev pub is_proven : IntentState → Bool
is_proven created = false
is_proven reserved = false
is_proven submitted = false
is_proven payment_observed = false
is_proven verified = true
is_proven settled = true
is_proven cancelled = false
is_proven expired = false
is_proven failed = false
is_proven manual_review = false

-- The attestation is the one that the intent names, and speaks of it and of its amount, currency and
-- parties.
pub record Proves (b : AttestationRow) (r : IntentRow) : Type 0 where
  pub named : r.attestation_id ≡ some b.attestation_id
  pub same_intent : b.intent_id ≡ r.intent_id
  pub same_hash : b.intent_hash ≡ r.intent_hash
  pub same_amount : b.amount ≡ r.amount
  pub same_currency : b.currency ≡ r.currency
  pub same_payer : b.payer_ref_hash ≡ r.payer_ref_hash
  pub same_payee : b.payee_ref_hash ≡ r.payee_ref_hash

abbrev pub HasProof : List AttestationRow → IntentRow → Type 0
HasProof attestations r = (b : AttestationRow) × Among b attestations × Proves b r

-- Not one payment of one verifier.
abbrev pub OtherPayment : AttestationRow → AttestationRow → Type 0
OtherPayment a b = same_payment b.verifier_id b.payment_id a ≡ false

pub record IsProven (intents : Dict IntentRow) (attestations : List AttestationRow) : Type 0 where
  pub keyed : (k : String) (r : IntentRow) → lookup k intents ≡ some r → r.intent_id ≡ k
  pub proofs :
      (k : String) (r : IntentRow)
      → lookup k intents ≡ some r
      → is_proven r.state ≡ true
      → HasProof attestations r
  pub once : Pairwise OtherPayment attestations

-- An intent may become any row whose state is proven if it says so.
pub insert-IsProven :
    (k : String) (r : IntentRow) (intents : Dict IntentRow) (attestations : List AttestationRow)
    → r.intent_id ≡ k
    → (is_proven r.state ≡ true → HasProof attestations r)
    → IsProven intents attestations
    → IsProven (insert k r intents) attestations
insert-IsProven k r intents attestations own proof p = record {
  keyed = λ j q found. elim (Bool-cases (str_eq k j)) [
    | inl same ↦
        let written : r ≡ q = ground (arith, lookup-insert k j r intents) in
        subst (λ x. x.intent_id ≡ j) written (own ∙ (str_eq_iff k j).0 same)
    | inr differs ↦ p.keyed j q (ground (arith, lookup-insert k j r intents))
  ];
  proofs = λ j q found. elim (Bool-cases (str_eq k j)) [
    | inl same ↦
        let written : r ≡ q = ground (arith, lookup-insert k j r intents) in
        subst (λ x. is_proven x.state ≡ true → HasProof attestations x) written proof
    | inr differs ↦ p.proofs j q (ground (arith, lookup-insert k j r intents))
  ];
  once = p.once;
}

Among-snoc : (a b : AttestationRow) (bs : List AttestationRow) → Among a bs → Among a (bs ++ b ∷ [])
Among-snoc a b [] m = absurd m
Among-snoc a b (x ∷ bs) (inl here) = inl here
Among-snoc a b (x ∷ bs) (inr later) = inr (Among-snoc a b bs later)

pub Among-last : (b : AttestationRow) (bs : List AttestationRow) → Among b (bs ++ b ∷ [])
Among-last b [] = inl refl
Among-last b (x ∷ bs) = inr (Among-last b bs)

once-snoc :
    (b : AttestationRow) (bs : List AttestationRow)
    → any (same_payment b.verifier_id b.payment_id) bs ≡ false
    → Pairwise OtherPayment bs
    → Pairwise OtherPayment (bs ++ b ∷ [])
once-snoc b [] fresh p = (tt, tt)
once-snoc b (x ∷ bs) fresh p = (
  All-append (OtherPayment x) bs (b ∷ []) p.0 (ground arith, tt),
  once-snoc b bs (ground arith) p.1,
)

-- An attestation of a new payment may be added.
pub snoc-IsProven :
    (b : AttestationRow) (intents : Dict IntentRow) (attestations : List AttestationRow)
    → any (same_payment b.verifier_id b.payment_id) attestations ≡ false
    → IsProven intents attestations
    → IsProven intents (attestations ++ b ∷ [])
snoc-IsProven b intents attestations fresh p = record {
  keyed = p.keyed;
  proofs = λ k r found proven.
      let (a, among, proves) = p.proofs k r found proven in
      (a, Among-snoc a b attestations among, proves);
  once = once-snoc b attestations fresh p.once;
}

OtherPayment-sym : (a b : AttestationRow) → OtherPayment a b → OtherPayment b a
OtherPayment-sym a b h = ground (
  arith,
  str_eq_iff a.verifier_id b.verifier_id,
  str_eq_iff b.verifier_id a.verifier_id,
  str_eq_iff a.payment_id b.payment_id,
  str_eq_iff b.payment_id a.payment_id,
)

-- Attestations of different intents speak of different payments.
pub Among-OtherPayment :
    (a b : AttestationRow) (bs : List AttestationRow)
    → a.intent_id ≢ b.intent_id
    → Among a bs
    → Among b bs
    → Pairwise OtherPayment bs
    → OtherPayment a b
Among-OtherPayment a b [] other ma mb p = absurd ma
Among-OtherPayment a b (x ∷ bs) other (inl ha) (inl hb) p =
    absurd (other (ap (λ y. y.intent_id) (ha ∙ sym hb)))
Among-OtherPayment a b (x ∷ bs) other (inl ha) (inr mb) p =
    subst (λ y. OtherPayment y b) (sym ha) (All-Among (OtherPayment x) b bs p.0 mb)
Among-OtherPayment a b (x ∷ bs) other (inr ma) (inl hb) p =
    subst (λ y. OtherPayment a y) (sym hb)
      (OtherPayment-sym x a (All-Among (OtherPayment x) a bs p.0 ma))
Among-OtherPayment a b (x ∷ bs) other (inr ma) (inr mb) p =
    Among-OtherPayment a b bs other ma mb p.1
