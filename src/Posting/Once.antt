-- ===== src/Posting/Once.antt =====
-- The creates of a document through a history of runs.
use ap_hub.Prelude.{
  any-find-none, ℕ, ◌≡◌, refl, ◌≤◌, true, false, String, [], find, arith, Option-cases, Bool-cases,
  inl, inr,
}
use ap_hub.Mapping.Amount.{Amounts}
use ap_hub.Mapping.Tax.{truthy, text_or}
use ap_hub.Posting.Books.{
  Proposal, Books, BillReply, created, refused_duplicate, post_failed, posted_bill, probed,
  verified_identity, is_posting, log,
}
use ap_hub.Posting.Connector.{identity_match, identity_mismatch, PostDeps, PostResult}
use ap_hub.Posting.Gate.{Verdict, passes, holds, raises, entry_gate, tax_gate, dimension_gate}
use ap_hub.Posting.Post.{
  key_of, after_reply, create_bill, continue_if, gated_create, probe_provider, local_dedup,
  check_company, find_proposal, post_once,
}
use ap_hub.Posting.Grows.{
  create_count, has_posting, Grows, ledger, Safe, Grows-Safe, create-Safe, refused-Safe, log-Grows,
}
use ap_hub.Posting.Keeps.{
  Reply-cases, record_posting-Grows, existing_local-Grows, after_create-stored,
  after_failure-stored,
}

module _ {N : Type 0} (amounts : Amounts N) (tol : N) (deps : PostDeps N) (tenant : ℕ)
    (p : Proposal N) where
  after_reply-Safe :
      (reply : BillReply) (s : Books N)
      → has_posting tenant (key_of amounts tol p) (ledger s) ≡ false
      → Safe (ledger s)
      → Safe (
          ledger
            (after_reply amounts tol deps tenant p reply
              (log (posted_bill tenant (key_of amounts tol p) reply) s)).0)
  unfolding after_reply
  after_reply-Safe (created ref) s fresh v =
      let key = key_of amounts tol p in
      let after =
        after_create-stored amounts tol deps tenant p ref
          (log (posted_bill tenant key (created ref)) s) in
      create-Safe (ledger s) tenant key (created ref) v fresh after.0 after.1
  after_reply-Safe refused_duplicate s fresh v =
      refused-Safe tenant (key_of amounts tol p) (ledger s) v
  after_reply-Safe (post_failed message) s fresh v =
      let key = key_of amounts tol p in
      let after =
        after_failure-stored amounts tol deps tenant p message
          (log (posted_bill tenant key (post_failed message)) s) in
      create-Safe (ledger s) tenant key (post_failed message) v fresh after.0 after.1

  continue_if-Safe :
      (verdict : Verdict) (s : Books N) (rest : Books N × PostResult)
      → Safe (ledger s)
      → Safe (ledger rest.0)
      → Safe (ledger (continue_if amounts tol verdict tenant p s rest).0)
  continue_if-Safe passes s rest v after = after
  continue_if-Safe (holds reason) s rest v after = v
  continue_if-Safe (raises reason) s rest v after = v

  create_bill-Safe :
      (s : Books N)
      → has_posting tenant (key_of amounts tol p) (ledger s) ≡ false
      → Safe (ledger s)
      → Safe (ledger (create_bill amounts tol deps tenant p s).0)
  unfolding create_bill
  create_bill-Safe s fresh v = after_reply-Safe _ s fresh v

  gated_create-Safe :
      (s : Books N)
      → has_posting tenant (key_of amounts tol p) (ledger s) ≡ false
      → Safe (ledger s)
      → Safe (ledger (gated_create amounts tol deps tenant p s).0)
  unfolding gated_create
  gated_create-Safe s fresh v = continue_if-Safe (tax_gate amounts deps tol tenant p s) s _ v (
      continue_if-Safe (dimension_gate tenant p.id p.proposed_txn.dimensions s.dimension_mappings) s
        (create_bill amounts tol deps tenant p s) v (create_bill-Safe s fresh v))

  probe_provider-Safe :
      (s : Books N)
      → has_posting tenant (key_of amounts tol p) (ledger s) ≡ false
      → Safe (ledger s)
      → Safe (ledger (probe_provider amounts tol deps tenant p s).0)
  unfolding probe_provider
  probe_provider-Safe s fresh v =
      elim (Reply-cases (deps.connector.detect_existing s.calls p.proposed_txn key)) [
        | inl (error, e) ↦ rw (e, probe_provider) asked
        | inr (existing, e) ↦ elim (Option-cases existing) [
          | inl absent ↦ rw (e, absent, probe_provider) (gated_create-Safe t fresh asked)
          | inr (ref, found) ↦
              rw (e, found, probe_provider)
                (Grows-Safe
                  (record_posting-Grows amounts tol deps tenant p ref.external_id ref.revision _ t)
                  asked)
        ]
      ]
    where
      key : String
      key = key_of amounts tol p

      t : Books N
      t = log (probed tenant key) s

      asked : Safe (ledger t)
      asked = Grows-Safe (log-Grows (probed tenant key) (ledger s) refl) v

  local_dedup-Safe :
      (s : Books N) → Safe (ledger s) → Safe (ledger (local_dedup amounts tol deps tenant p s).0)
  unfolding local_dedup
  local_dedup-Safe s v =
      elim (Option-cases (find (is_posting tenant (key_of amounts tol p)) s.postings)) [
        | inl absent ↦
            rw (absent, local_dedup)
              (probe_provider-Safe s
                (any-find-none (is_posting tenant (key_of amounts tol p)) s.postings absent) v)
        | inr (row, e) ↦
            rw (e, local_dedup)
              (Grows-Safe (existing_local-Grows amounts tol deps tenant p row s) v)
      ]

  check_company-Safe :
      (s : Books N) → Safe (ledger s) → Safe (ledger (check_company amounts tol deps tenant p s).0)
  unfolding check_company
  check_company-Safe s v = elim (Bool-cases (truthy deps.expected_company_name)) [
    | inr unset ↦ rw unset (local_dedup-Safe s v)
    | inl set_name ↦ elim (Reply-cases (deps.connector.verify_company_identity s.calls name)) [
      | inl (message, e) ↦ rw (set_name, e, check_company) asked
      | inr (identity_match, e) ↦ rw (set_name, e, check_company) (local_dedup-Safe _ asked)
      | inr (identity_mismatch, e) ↦ rw (set_name, e, check_company) asked
    ]
  ]
    where
      name : String
      name = text_or "" deps.expected_company_name

      asked : Safe (ledger (log (verified_identity name) s))
      asked = Grows-Safe (log-Grows (verified_identity name) (ledger s) refl) v

module _ {N : Type 0} (amounts : Amounts N) (tol : N) where
  -- The runs of `postOnce`, one at a time, for any tenants, proposals and settings; between them the
  -- rest of the system may change the books, but not the creates nor the presence of a posting.
  pub data History (s : Books N) : Books N → Type 0 where
    start : History s s
    posts :
        {t : Books N} (deps : PostDeps N) (tenant proposal_id : ℕ)
        → History s t
        → History s (post_once amounts tol deps tenant proposal_id t).0
    edits : {t : Books N} (u : Books N) → Grows (ledger t) (ledger u) → History s t → History s u

  pub post_once-Safe :
      (deps : PostDeps N) (tenant proposal_id : ℕ) (s : Books N)
      → Safe (ledger s)
      → Safe (ledger (post_once amounts tol deps tenant proposal_id s).0)
  unfolding post_once
  post_once-Safe deps tenant proposal_id s v =
      elim (Option-cases (find_proposal amounts tol tenant proposal_id s)) [
        | inl absent ↦ rw (absent, post_once) v
        | inr (p, e) ↦
            rw (e, post_once)
              (continue_if-Safe amounts tol deps tenant p (entry_gate amounts deps tenant p s) s
                (check_company amounts tol deps tenant p s) v
                (check_company-Safe amounts tol deps tenant p s v))
      ]

  History-Safe : {s t : Books N} → History s t → Safe (ledger s) → Safe (ledger t)
  History-Safe start v = v
  History-Safe (posts deps tenant proposal_id before) v =
      post_once-Safe deps tenant proposal_id _ (History-Safe before v)
  History-Safe (edits u grows before) v = Grows-Safe grows (History-Safe before v)

  -- From books with no call of the provider so far, and whatever the provider answers, lost and failed
  -- creates included: after any sequence of runs, between which the books may change, but no create
  -- is added and no posting removed, at most one `postBill` for a tenant and an
  -- idempotency key ended otherwise than with the provider's duplicate refusal, and if one did, a
  -- posting with that tenant and key is stored.
  pub created_once :
      (s t : Books N) (tenant : ℕ) (key : String)
      → s.calls ≡ []
      → History s t
      → (create_count tenant key (ledger t) ≤ 1)
        × (create_count tenant key (ledger t) ≡ 1 → has_posting tenant key (ledger t) ≡ true)
  created_once s t tenant key empty history =
      let none_yet : Safe (ledger s) = record { bounded = λ t' k'. rw empty (omega arith) } in
      let v = (History-Safe history none_yet).bounded tenant key in
      (ground (arith, v), λ one. ground (arith, v, one))
