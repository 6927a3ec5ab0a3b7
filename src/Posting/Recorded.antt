-- ===== src/Posting/Recorded.antt =====
-- The stored posting of a run that reports `posted`.
use ap_hub.Prelude.{
  ℕ, ◌≡◌, refl, ap, true, false, not, String, Option, none, some, str_eq, find, Option-cases,
  Bool-cases, inl, inr,
}
use ap_hub.Mapping.Amount.{Amounts}
use ap_hub.Mapping.Tax.{truthy, text_or}
use ap_hub.Posting.Books.{
  Proposal, Posting, Books, PostedRef, BillReply, created, refused_duplicate, post_failed,
  is_posting,
}
use ap_hub.Posting.Connector.{
  identity_match, identity_mismatch, PostDeps, PostResult, posted, held, duplicate, skipped, thrown,
}
use ap_hub.Posting.Gate.{Verdict, passes, holds, raises, tax_gate, dimension_gate, entry_gate}
use ap_hub.Posting.Post.{
  key_of, posting_row, provider_result_unknown, attach_pdf, after_create, after_failure,
  after_reply, create_bill, continue_if, gated_create, probe_provider, resolve_unknown,
  existing_local, local_dedup, check_company, find_proposal, post_once,
}
use ap_hub.Posting.Keeps.{Reply-cases, ReadBack-cases}
use ap_hub.Posting.Stored.{
  Recorded, Reports, upsert_posting-Recorded, recover_posting-Recorded, read_back_created-Recorded,
}

module _ {N : Type 0} (amounts : Amounts N) (tol : N) (deps : PostDeps N) (tenant : ℕ)
    (p : Proposal N) where
  attach_pdf-Recorded :
      (ref : PostedRef) (external_id : String) (id : Option ℕ) (s : Books N)
      → Reports amounts tol deps tenant p external_id id
          (attach_pdf amounts tol deps tenant p ref s)
  unfolding attach_pdf
  attach_pdf-Recorded ref external_id id s e = elim (Option-cases p.attachment_id) [
    | inl a ↦
        rw (a, attach_pdf)
          (read_back_created-Recorded amounts tol deps tenant p ref external_id id s
            (rw (a, attach_pdf) at e))
    | inr (pdf, a) ↦ elim (Reply-cases (deps.load_pdf pdf)) [
      | inl (message, l) ↦
          let no : thrown message ≡ posted id external_id = rw (a, l, attach_pdf) at e in
          absurd (cc)
      | inr (true, l) ↦
          rw (a, l, attach_pdf)
            (read_back_created-Recorded amounts tol deps tenant p ref external_id id _
              (rw (a, l, attach_pdf) at e))
      | inr (false, l) ↦
          rw (a, l, attach_pdf)
            (read_back_created-Recorded amounts tol deps tenant p ref external_id id s
              (rw (a, l, attach_pdf) at e))
    ]
  ]

  after_failure-Recorded :
      (message external_id : String) (id : Option ℕ) (s : Books N)
      → Reports amounts tol deps tenant p external_id id
          (after_failure amounts tol deps tenant p message s)
  unfolding after_failure
  after_failure-Recorded message external_id id s e =
      elim (Reply-cases
        (deps.connector.detect_existing s.calls p.proposed_txn (key_of amounts tol p))) [
          | inl (error, r) ↦ absurd (thrown_posted (rw (r, after_failure) at e))
          | inr (none, r) ↦ absurd (thrown_posted (rw (r, after_failure) at e))
          | inr (some ref, r) ↦
              let adopted : posted none ref.external_id ≡ posted id external_id =
                rw (r, after_failure) at e in
              let same : ref.external_id ≡ external_id = cc in
              rw (r, after_failure)
                (upsert_posting-Recorded
                  (posting_row amounts tol deps tenant p (some ref.external_id) (some ref.revision)
                    "posted_sandbox")
                  external_id _ (ap some same) refl)
        ]
    where
      thrown_posted : thrown message ≡ posted id external_id → ⊥
      thrown_posted h = cc

  after_reply-Recorded :
      (reply : BillReply) (external_id : String) (id : Option ℕ) (s : Books N)
      → Reports amounts tol deps tenant p external_id id
          (after_reply amounts tol deps tenant p reply s)
  unfolding after_reply after_create
  after_reply-Recorded (created ref) external_id id s e = attach_pdf-Recorded ref external_id id _ e
  after_reply-Recorded refused_duplicate external_id id s e = absurd (cc)
  after_reply-Recorded (post_failed message) external_id id s e =
      after_failure-Recorded message external_id id s e

  continue_if-Recorded :
      (verdict : Verdict) (external_id : String) (id : Option ℕ) (s : Books N)
      (rest : Books N × PostResult)
      → Reports amounts tol deps tenant p external_id id rest
      → Reports amounts tol deps tenant p external_id id
          (continue_if amounts tol verdict tenant p s rest)
  continue_if-Recorded passes external_id id s rest go e = go e
  continue_if-Recorded (holds reason) external_id id s rest go e = absurd (cc)
  continue_if-Recorded (raises reason) external_id id s rest go e = absurd (cc)

  gated_create-Recorded :
      (external_id : String) (id : Option ℕ) (s : Books N)
      → Reports amounts tol deps tenant p external_id id (gated_create amounts tol deps tenant p s)
  unfolding gated_create create_bill
  gated_create-Recorded external_id id s =
      continue_if-Recorded (tax_gate amounts deps tol tenant p s) external_id id s _ (
        continue_if-Recorded
          (dimension_gate tenant p.id p.proposed_txn.dimensions s.dimension_mappings) external_id id
          s (create_bill amounts tol deps tenant p s) (after_reply-Recorded _ external_id id _))

  probe_provider-Recorded :
      (external_id : String) (id : Option ℕ) (s : Books N)
      → Reports amounts tol deps tenant p external_id id
          (probe_provider amounts tol deps tenant p s)
  unfolding probe_provider
  probe_provider-Recorded external_id id s e =
      elim (Reply-cases
        (deps.connector.detect_existing s.calls p.proposed_txn (key_of amounts tol p))) [
          | inl (error, r) ↦
              let no : held "dedup_unavailable" ≡ posted id external_id =
                rw (r, probe_provider) at e in
              absurd (cc)
          | inr (some ref, r) ↦
              let no : duplicate ≡ posted id external_id = rw (r, probe_provider) at e in
              absurd (cc)
          | inr (none, r) ↦
              rw (r, probe_provider)
                (gated_create-Recorded external_id id _ (rw (r, probe_provider) at e))
        ]

  existing_local-Recorded :
      (row : Posting) (external_id : String) (id : Option ℕ) (s : Books N)
      → Reports amounts tol deps tenant p external_id id
          (existing_local amounts tol deps tenant p row s)
  unfolding existing_local resolve_unknown
  existing_local-Recorded row external_id id s e =
      elim (Bool-cases (not (str_eq row.status provider_result_unknown))) [
        | inl settled ↦ let no : duplicate ≡ posted id external_id = rw settled at e in absurd (cc)
        | inr unknown ↦ elim (Bool-cases (truthy row.external_id)) [
          | inr absent ↦ absurd (held_posted (rw (unknown, absent) at e))
          | inl known ↦
              elim (Reply-cases (
                deps.connector.read_back_verify s.calls p.proposed_txn
                  (text_or "" row.external_id))) [
                    | inl (message, r) ↦
                        absurd (held_posted (rw (unknown, known, r, resolve_unknown) at e))
                    | inr (result, r) ↦ elim (ReadBack-cases result) [
                      | inr (reason, revision, m) ↦
                          absurd (held_posted (rw (unknown, known, r, m, resolve_unknown) at e))
                      | inl (revision, m) ↦
                          rw (unknown, known, r, m, resolve_unknown)
                            (recover_posting-Recorded amounts tol deps tenant p
                              (text_or "" row.external_id) revision external_id id _
                              (rw (unknown, known, r, m, resolve_unknown) at e))
                    ]
                  ]
        ]
      ]
    where
      held_posted : held provider_result_unknown ≡ posted id external_id → ⊥
      held_posted h = cc

  local_dedup-Recorded :
      (external_id : String) (id : Option ℕ) (s : Books N)
      → Reports amounts tol deps tenant p external_id id (local_dedup amounts tol deps tenant p s)
  unfolding local_dedup
  local_dedup-Recorded external_id id s e =
      elim (Option-cases (find (is_posting tenant (key_of amounts tol p)) s.postings)) [
        | inl absent ↦
            rw (absent, local_dedup)
              (probe_provider-Recorded external_id id s (rw (absent, local_dedup) at e))
        | inr (row, r) ↦
            rw (r, local_dedup)
              (existing_local-Recorded row external_id id s (rw (r, local_dedup) at e))
      ]

  check_company-Recorded :
      (external_id : String) (id : Option ℕ) (s : Books N)
      → Reports amounts tol deps tenant p external_id id (check_company amounts tol deps tenant p s)
  unfolding check_company
  check_company-Recorded external_id id s e =
      elim (Bool-cases (truthy deps.expected_company_name)) [
        | inr unset ↦ rw unset (local_dedup-Recorded external_id id s (rw unset at e))
        | inl set_name ↦
            elim (Reply-cases (
              deps.connector.verify_company_identity s.calls
                (text_or "" deps.expected_company_name))) [
                  | inl (message, r) ↦
                      let no : thrown message ≡ posted id external_id =
                        rw (set_name, r, check_company) at e in
                      absurd (cc)
                  | inr (identity_mismatch, r) ↦
                      let no : held "company_mismatch" ≡ posted id external_id =
                        rw (set_name, r, check_company) at e in
                      absurd (cc)
                  | inr (identity_match, r) ↦
                      rw (set_name, r, check_company)
                        (local_dedup-Recorded external_id id _
                          (rw (set_name, r, check_company) at e))
                ]
      ]

-- If a run reports `posted` with a provider's id, then the proposal is stored, and the posting of its
-- tenant and key is stored with that id and a status that says posted, whether it was created,
-- recovered by a read-back, or adopted after a failure.
pub post_once-Recorded :
    {N : Type 0} (amounts : Amounts N) (tol : N) (deps : PostDeps N) (tenant proposal_id : ℕ)
    (s : Books N) (id : Option ℕ) (external_id : String)
    → (post_once amounts tol deps tenant proposal_id s).1 ≡ posted id external_id
    → (p : Proposal N) × (find_proposal amounts tol tenant proposal_id s ≡ some p)
      × Recorded tenant
          (key_of amounts tol p)
          external_id
          (post_once amounts tol deps tenant proposal_id s).0.postings
unfolding post_once
post_once-Recorded amounts tol deps tenant proposal_id s id external_id e =
    elim (Option-cases (find_proposal amounts tol tenant proposal_id s)) [
      | inl absent ↦
          let no : skipped "not_found" ≡ posted id external_id = rw (absent, post_once) at e in
          absurd (cc)
      | inr (p, found) ↦ (
        p,
        found,
        rw (found, post_once)
            (continue_if-Recorded amounts tol deps tenant p (entry_gate amounts deps tenant p s)
              external_id id s (check_company amounts tol deps tenant p s)
              (check_company-Recorded amounts tol deps tenant p external_id id s)
              (rw (found, post_once) at e)),
      )
    ]
