-- ===== src/Posting/Stored.antt =====
-- What is stored where a run ends with a settled or recovered posting.
use ap_hub.Prelude.{
  find-last, ℕ, ◌≡◌, refl, sym, ap, subst, Bool, true, ◌||◌, String, List, [], ◌∷◌, Option, some,
  str_eq, find, arith, Option-cases, Bool-cases, inl, inr,
}
use ap_hub.Mapping.Amount.{Amounts}
use ap_hub.Posting.Books.{
  Proposal, Posting, Books, AccountingMode, sandbox, production, PostedRef, is_posting,
}
use ap_hub.Posting.Grows.{is_posting_refl}
use ap_hub.Posting.Connector.{PostDeps, PostResult, posted, held, thrown}
use ap_hub.Posting.Record.{upsert_posting, update_all, replace}
use ap_hub.Posting.Post.{
  key_of, mode_of, posted_status, posting_row, record_posting, set_proposal_status, is_reconciled,
  anchor_posting, settle, read_back_created, recover_posting,
}
use ap_hub.Posting.Keeps.{Reply-cases, ReadBack-cases}

find-update_all :
    (p : Posting → Bool) (change : Posting → Posting) (rows : List Posting) (row : Posting)
    → ((r : Posting) → p (change r) ≡ p r)
    → find p rows ≡ some row
    → find p (update_all p change rows) ≡ some (change row)
find-update_all p change [] row same e = cc
find-update_all p change (first ∷ rows) row same e =
    ground (arith, same first, find-update_all p change rows row same)

abbrev pub is_posted : String → Bool
is_posted status = str_eq status "posted" || str_eq status "posted_sandbox"

-- The posting of the key is stored with the provider's id, as posted.
abbrev pub Recorded : ℕ → String → String → List Posting → Type 0
Recorded tenant key external_id rows =
    (row : Posting) × (find (is_posting tenant key) rows ≡ some row)
    × (row.external_id ≡ some external_id)
    × (is_posted row.status ≡ true)

posted_status-posted : (mode : AccountingMode) → is_posted (posted_status mode) ≡ true
posted_status-posted sandbox = refl
posted_status-posted production = refl

module _ {N : Type 0} where
  pub upsert_posting-Recorded :
      (new : Posting) (external_id : String) (s : Books N)
      → new.external_id ≡ some external_id
      → is_posted new.status ≡ true
      → Recorded new.tenant_id new.idempotency_key external_id (upsert_posting new s).0.postings
  unfolding upsert_posting
  upsert_posting-Recorded new external_id s e h = elim (Option-cases (find own s.postings)) [
    | inl absent ↦
        rw (absent, upsert_posting)
          (fresh, find-last own s.postings fresh absent (is_posting_refl new), e, h)
    | inr (old, found) ↦
        rw (found, upsert_posting)
          (
            replace new old,
            find-update_all own (replace new) s.postings old (λ _. refl) found,
            e,
            h,
          )
  ]
    where
      own : Posting → Bool
      own = is_posting new.tenant_id new.idempotency_key

      fresh : Posting
      fresh = record new { id = s.next_posting_id }

module _ {N : Type 0} (amounts : Amounts N) (tol : N) (deps : PostDeps N) (tenant : ℕ)
    (p : Proposal N) where
  abbrev pub Reports : String → Option ℕ → Books N × PostResult → Type 0
  Reports external_id id result =
      result.1 ≡ posted id external_id
      → Recorded tenant (key_of amounts tol p) external_id result.0.postings

  anchor_posting-postings :
      (posting_id : ℕ) (s : Books N)
      → (anchor_posting amounts tol deps tenant posting_id s).postings ≡ s.postings
  unfolding anchor_posting
  anchor_posting-postings posting_id s = ground arith

  settle-Recorded :
      (external revision external_id : String) (id : Option ℕ) (s : Books N)
      → Reports external_id id (settle amounts tol deps tenant p external revision s)
  unfolding settle
  settle-Recorded external revision external_id id s e =
      let same : external ≡ external_id = cc in
      let status = posted_status (mode_of amounts tol deps) in
      let stored =
        upsert_posting-Recorded
          (posting_row amounts tol deps tenant p (some external) (some revision) status) external_id
          s (ap some same) (posted_status-posted (mode_of amounts tol deps)) in
      subst (Recorded tenant (key_of amounts tol p) external_id) (sym (anchor_posting-postings _ _))
        stored

  pub recover_posting-Recorded :
      (external revision external_id : String) (id : Option ℕ) (s : Books N)
      → Reports external_id id (recover_posting amounts tol deps tenant p external revision s)
  unfolding recover_posting
  recover_posting-Recorded external revision external_id id s e =
      let same : external ≡ external_id = cc in
      let status = posted_status (mode_of amounts tol deps) in
      let stored =
        upsert_posting-Recorded
          (posting_row amounts tol deps tenant p (some external) (some revision) status) external_id
          s (ap some same) (posted_status-posted (mode_of amounts tol deps)) in
      elim (Bool-cases (
        is_reconciled amounts tol deps tenant p external (
          set_proposal_status amounts tol tenant p.id status
            (record_posting amounts tol deps tenant p external revision status s).0))) [
              | inl there ↦ rw there stored
              | inr absent ↦ rw absent stored
            ]

  pub read_back_created-Recorded :
      (ref : PostedRef) (external_id : String) (id : Option ℕ) (s : Books N)
      → Reports external_id id (read_back_created amounts tol deps tenant p ref s)
  unfolding read_back_created
  read_back_created-Recorded ref external_id id s e =
      elim (Reply-cases (deps.connector.read_back_verify s.calls p.proposed_txn ref.external_id)) [
        | inl (message, r) ↦
            let no : thrown message ≡ posted id external_id = rw (r, read_back_created) at e in
            absurd (cc)
        | inr (result, r) ↦ elim (ReadBack-cases result) [
          | inl (revision, m) ↦
              rw (r, m, read_back_created)
                (settle-Recorded ref.external_id ref.revision external_id id _
                  (rw (r, m, read_back_created) at e))
          | inr (reason, revision, m) ↦
              absurd (held_posted _ id external_id (rw (r, m, read_back_created) at e))
        ]
      ]
    where
      held_posted : (reason : String) (i : Option ℕ) (x : String) → held reason ≡ posted i x → ⊥
      held_posted reason i x h = cc
