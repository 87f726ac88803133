-- ===== src/Bank/Ledger/Requests.antt =====
-- A request as a unit of work on the ledger: `inRequestScope` around handlers that `post`.
use blueballs.Prelude.{
  Outcome-cases, inl, inr, ok, String, ◌≡◌, refl, sym, ap, subst, ◌∙◌, Option, none, some, List, [],
  ◌∷◌, ◌++◌, map,
}
use blueballs.Prelude.Int.{ℤ, pos, ◌+ℤ◌, int_laws, +ℤ_assoc, +ℤ_zero}
use blueballs.Bank.Ledger.{
  Row, Ledger, LedgerError, Posting, balance, staged_rows, row_of, push_rows, push_to, post,
  post_all, begin_request, commit_request, abort_request, run_request, end_request,
}
use blueballs.Bank.Ledger.Sums.{
  row_sum, entry_sum, total, row_sum-append, total-append, balance-eq-row_sum,
}
use blueballs.Bank.Ledger.Solvency.{
  IsSolvent, IsBalanced, post-eq-ok, balance-post, post-IsSolvent, post-IsBalanced,
}

-- What the postings of a request add to one account in one currency.
unfoldable pub posted_sum : String → String → List Posting → ℤ
posted_sum a c [] = pos 0
posted_sum a c (p ∷ ps) = entry_sum a c p.entries +ℤ posted_sum a c ps

-- The rows of the postings of a request, in their order.
abbrev pub posted_rows : List Posting → List Row
posted_rows [] = []
posted_rows (p ∷ ps) = map (row_of p.stamp p.memo) p.entries ++ posted_rows ps

-- What a run of postings from `l` to `l'` keeps.
pub record Keeps (l l' : Ledger) (ps : List Posting) : Type 0 where
  pub solvent : IsSolvent l → IsSolvent l'
  pub even : IsBalanced l → IsBalanced l'
  pub moved : (a c : String) → balance l' a c ≡ balance l a c +ℤ posted_sum a c ps

Keeps-next :
    (l l' : Ledger) (p : Posting) (ps : List Posting) (txn : String) {l'' : Ledger}
    → post l p.stamp p.entries p.memo ≡ ok (txn, l')
    → Keeps l' l'' ps
    → Keeps l l'' (p ∷ ps)
unfolding posted_sum
Keeps-next l l' p ps txn h k = record {
  solvent = λ s. k.solvent (post-IsSolvent l p.stamp p.entries p.memo txn s h);
  even = λ s. k.even (post-IsBalanced l p.stamp p.entries p.memo txn s h);
  moved = λ a c.
      k.moved a c
      ∙ rw (balance-post l p.stamp p.entries p.memo txn h a c)
          (+ℤ_assoc (balance l a c) (entry_sum a c p.entries) (posted_sum a c ps));
}

Keeps-refl : (l : Ledger) → Keeps l l []
unfolding posted_sum
Keeps-refl l = record {
  solvent = λ s. s;
  even = λ s. s;
  moved = λ a c. sym (+ℤ_zero (balance l a c));
}

post_all-Keeps :
    (l : Ledger) (ps : List Posting) {l' : Ledger} → post_all l ps ≡ (none, l') → Keeps l l' ps
unfolding post_all
post_all-Keeps l [] {l'} h = subst (λ x. Keeps l x []) (ap (λ x. x.1) h) (Keeps-refl l)
post_all-Keeps l (p ∷ ps) {l'} h = elim (Outcome-cases (post l p.stamp p.entries p.memo)) [
  | inl ((txn, next), posted) ↦
      Keeps-next l next p ps txn posted (post_all-Keeps next ps (rw (posted, post_all) at h))
  | inr (e, thrown) ↦
      let stopped : (some e, l) ≡ (none, l') = rw (thrown, post_all) at h in
      let clash : some e ≡ none = ap (λ x. x.0) stopped in cc
]

push_to-staged :
    (xs rows staged : List Row) (o : Option (List Row))
    → o ≡ some staged
    → push_to xs rows o ≡ record { committed = xs; staged = some (staged ++ rows) }
unfolding push_to
push_to-staged xs rows staged o e = rw e

-- While a request runs, the table does not change and the store stays, however it goes on.
post_all-committed :
    (l : Ledger) (ps : List Posting) (staged : List Row)
    → l.staged ≡ some staged
    → (post_all l ps).1.committed ≡ l.committed
unfolding post_all push_rows
post_all-committed l [] staged e = refl
post_all-committed l (p ∷ ps) staged e = elim (Outcome-cases (post l p.stamp p.entries p.memo)) [
  | inl ((txn, next), posted) ↦
      let (_, _, pushed) = post-eq-ok l p.stamp p.entries p.memo txn posted in
      let rows = map (row_of p.stamp p.memo) p.entries in
      let same = pushed ∙ push_to-staged l.committed rows staged l.staged e in
      rw (posted, post_all)
        (post_all-committed next ps (staged ++ rows) (ap (λ x. x.staged) same)
          ∙ ap (λ x. x.committed) same)
  | inr (thrown, failed) ↦ rw (failed, post_all) refl
]

append_nil : (xs : List Row) → xs ++ [] ≡ xs
append_nil [] = refl
append_nil (x ∷ xs) = ap (λ ys. x ∷ ys) (append_nil xs)

append_assoc : (xs ys zs : List Row) → (xs ++ ys) ++ zs ≡ xs ++ (ys ++ zs)
append_assoc [] ys zs = refl
append_assoc (x ∷ xs) ys zs = ap (λ rest. x ∷ rest) (append_assoc xs ys zs)

-- A handler that returns has staged the rows of all its postings.
post_all-staged :
    (l : Ledger) (ps : List Posting) (staged : List Row) {l' : Ledger}
    → l.staged ≡ some staged
    → post_all l ps ≡ (none, l')
    → l'.staged ≡ some (staged ++ posted_rows ps)
unfolding post_all push_rows
post_all-staged l [] staged e h =
    sym (ap (λ x. x.1.staged) h) ∙ e ∙ ap some (sym (append_nil staged))
post_all-staged l (p ∷ ps) staged {l'} e h =
    elim (Outcome-cases (post l p.stamp p.entries p.memo)) [
      | inl ((txn, next), posted) ↦
          let (_, _, pushed) = post-eq-ok l p.stamp p.entries p.memo txn posted in
          let rows = map (row_of p.stamp p.memo) p.entries in
          let same = pushed ∙ push_to-staged l.committed rows staged l.staged e in
          post_all-staged next ps (staged ++ rows) (ap (λ x. x.staged) same)
            (rw (posted, post_all) at h)
          ∙ ap some (append_assoc staged rows (posted_rows ps))
      | inr (thrown, failed) ↦
          let stopped : (some thrown, l) ≡ (none, l') = rw (failed, post_all) at h in
          let clash : some thrown ≡ none = ap (λ x. x.0) stopped in cc
    ]

commit_request-balance :
    (l : Ledger) (a c : String) → balance (commit_request l) a c ≡ balance l a c
unfolding commit_request row_sum
commit_request-balance l a c = rw (balance-eq-row_sum (commit_request l) a c) (
    rw (balance-eq-row_sum l a c)
      (rw (row_sum-append a c l.committed (staged_rows l.staged)) (omega int_laws)))

commit_request-Keeps : (l : Ledger) → Keeps l (commit_request l) []
unfolding commit_request posted_sum total
commit_request-Keeps l = record {
  solvent = λ s a c user. rw (commit_request-balance l a c) (s a c user);
  even = λ e. rw (total-append l.committed (staged_rows l.staged)) (+ℤ_zero _ ∙ e);
  moved = λ a c. commit_request-balance l a c ∙ sym (+ℤ_zero (balance l a c));
}

-- What a request of the postings `ps` does to the ledger `l`, by how it ends: it commits all of
-- them, or it leaves the table as it was.
abbrev pub Settles : Ledger → List Posting → Option LedgerError × Ledger → Type 0
Settles l ps (none, l') =
    Keeps l l' ps × (l'.staged ≡ none) × (l'.committed ≡ l.committed ++ posted_rows ps)
Settles l ps (some e, l') = (l'.committed ≡ l.committed) × (l'.staged ≡ none)

begin_request-Keeps : (l : Ledger) → l.staged ≡ none → Keeps l (begin_request l) []
unfolding begin_request posted_sum
begin_request-Keeps l idle =
    let empty = ap staged_rows idle in
    let same_balance = λ (a c : String).
      balance-eq-row_sum (begin_request l) a c
      ∙ ap (λ rows. row_sum a c l.committed +ℤ row_sum a c rows) (sym empty)
      ∙ sym (balance-eq-row_sum l a c) in
    record {
      solvent = λ s a c user. rw (same_balance a c) (s a c user);
      even = λ e. ap (λ rows. total l.committed +ℤ total rows) (sym empty) ∙ e;
      moved = λ a c. same_balance a c ∙ sym (+ℤ_zero (balance l a c));
    }

Keeps-trans :
    {l l' l'' : Ledger} (ps : List Posting) → Keeps l l' [] → Keeps l' l'' ps → Keeps l l'' ps
unfolding posted_sum
Keeps-trans {l} ps h k = record {
  solvent = λ s. k.solvent (h.solvent s);
  even = λ e. k.even (h.even e);
  moved =
      λ a c. k.moved a c ∙ ap (λ b. b +ℤ posted_sum a c ps) (h.moved a c ∙ +ℤ_zero (balance l a c));
}

Keeps-trans_nil :
    {l l' l'' : Ledger} (ps : List Posting) → Keeps l l' ps → Keeps l' l'' [] → Keeps l l'' ps
unfolding posted_sum
Keeps-trans_nil ps h k = record {
  solvent = λ s. k.solvent (h.solvent s);
  even = λ e. k.even (h.even e);
  moved = λ a c. k.moved a c ∙ +ℤ_zero _ ∙ h.moved a c;
}

end_request-Settles :
    (l : Ledger) (ps : List Posting) (r : Option LedgerError × Ledger)
    → l.staged ≡ none
    → post_all (begin_request l) ps ≡ r
    → r.1.committed ≡ l.committed
    → Settles l ps (end_request r)
unfolding end_request begin_request commit_request abort_request
end_request-Settles l ps (none, l') idle h table = (
  Keeps-trans_nil ps
      (Keeps-trans ps (begin_request-Keeps l idle) (post_all-Keeps (begin_request l) ps h))
      (commit_request-Keeps l'),
  refl,
  ap (λ xs. xs ++ staged_rows l'.staged) table
      ∙ ap (λ o. l.committed ++ staged_rows o) (post_all-staged (begin_request l) ps [] refl h),
)
end_request-Settles l ps (some e, l') idle h table = (table, refl)

-- A request that begins with no store active either ends with no error, has appended the rows of its
-- postings to the table, in their order, has moved every balance by the sum of its postings and has kept the ledger balanced
-- and the customer accounts solvent; or it ends with an error, after postings that may have succeeded,
-- and the table is as it was. In both cases no store stays active.
pub run_request-Settles :
    (l : Ledger) (ps : List Posting) → l.staged ≡ none → Settles l ps (run_request l ps)
unfolding run_request begin_request
run_request-Settles l ps idle =
    end_request-Settles l ps (post_all (begin_request l) ps) idle refl
      (post_all-committed (begin_request l) ps [] refl)
