-- ===== src/Posting/Keeps.antt =====
-- The parts of a run that make no call of `postBill`.
use ap_hub.Prelude.{
  ℕ, ◌≡◌, refl, true, not, String, none, some, str_eq, Option-cases, Bool-cases, inl, inr, ◌⊎◌,
}
use ap_hub.Mapping.Amount.{Amounts}
use ap_hub.Mapping.Tax.{truthy, text_or}
use ap_hub.Posting.Books.{
  Proposal, Posting, Books, PostedRef, probed, read_back, anchored, attached, posting, auditproof,
  has_proof_ref, log,
}
use ap_hub.Posting.Connector.{
  Reply, answers, throws, ReadBackResult, read_match, read_mismatch, MismatchReason, PostDeps,
}
use ap_hub.Posting.Record.{insert_posting}
use ap_hub.Posting.Post.{
  key_of, posting_row, provider_result_unknown, is_enabled, anchor_posting, settle,
  read_back_created, attach_pdf, after_create, after_failure, recover_posting, resolve_unknown,
  existing_local, is_reconciled, set_proposal_status, posted_status, mode_of, record_posting,
}
use ap_hub.Posting.Grows.{
  has_posting, Grows, Grows-refl, Grows-trans, ledger, upsert_posting-Grows, insert_posting-Grows,
  log-Grows,
}

pub Reply-cases :
    {A : Type 0} (r : Reply A)
    → ((message : String) × (r ≡ throws message)) ⊎ ((a : A) × (r ≡ answers a))
Reply-cases (throws message) = inl (message, refl)
Reply-cases (answers a) = inr (a, refl)

pub ReadBack-cases :
    (r : ReadBackResult)
    → ((revision : String) × (r ≡ read_match revision))
      ⊎ ((reason : MismatchReason) × (revision : String) × (r ≡ read_mismatch reason revision))
ReadBack-cases (read_match revision) = inl (revision, refl)
ReadBack-cases (read_mismatch reason revision) = inr (reason, revision, refl)

module _ {N : Type 0} (amounts : Amounts N) (tol : N) (deps : PostDeps N) (tenant : ℕ)
    (p : Proposal N) where
  pub record_posting-Grows :
      (external_id revision status : String) (s : Books N)
      → Grows
          (ledger s)
          (ledger (record_posting amounts tol deps tenant p external_id revision status s).0)
  record_posting-Grows external_id revision status s =
      (upsert_posting-Grows
        (posting_row amounts tol deps tenant p (some external_id) (some revision) status) s).0

  pub anchor_posting-Grows :
      (posting_id : ℕ) (s : Books N)
      → Grows (ledger s) (ledger (anchor_posting amounts tol deps tenant posting_id s))
  unfolding anchor_posting
  anchor_posting-Grows posting_id s = elim (Bool-cases (not (is_enabled deps.swarm_sync_enabled))) [
    | inl off ↦ rw off (Grows-refl (ledger s))
    | inr on ↦ elim (Bool-cases (has_proof_ref tenant posting posting_id auditproof s)) [
      | inl there ↦ rw (on, there) (Grows-refl (ledger s))
      | inr fresh ↦ elim (Bool-cases (deps.anchor s.calls posting_id)) [
        | inl got ↦ rw (on, fresh, got) (log-Grows (anchored posting_id) (ledger s) refl)
        | inr lost ↦ rw (on, fresh, lost) (log-Grows (anchored posting_id) (ledger s) refl)
      ]
    ]
  ]

  pub settle-Grows :
      (external_id revision : String) (s : Books N)
      → Grows (ledger s) (ledger (settle amounts tol deps tenant p external_id revision s).0)
  unfolding settle
  settle-Grows external_id revision s =
      Grows-trans (record_posting-Grows external_id revision _ s) (anchor_posting-Grows _ _)

  pub read_back_created-Grows :
      (ref : PostedRef) (s : Books N)
      → Grows (ledger s) (ledger (read_back_created amounts tol deps tenant p ref s).0)
  unfolding read_back_created
  read_back_created-Grows ref s =
      elim (Reply-cases (deps.connector.read_back_verify s.calls p.proposed_txn ref.external_id)) [
        | inl (message, e) ↦ rw (e, read_back_created) asked
        | inr (result, e) ↦ elim (ReadBack-cases result) [
          | inl (revision, m) ↦
              rw (e, m, read_back_created)
                (Grows-trans asked (settle-Grows ref.external_id ref.revision _))
          | inr (reason, revision, m) ↦
              rw (e, m, read_back_created)
                (Grows-trans asked (record_posting-Grows ref.external_id ref.revision _ _))
        ]
      ]
    where
      asked : Grows (ledger s) (ledger (log (read_back ref.external_id) s))
      asked = log-Grows (read_back ref.external_id) (ledger s) refl

  pub attach_pdf-Grows :
      (ref : PostedRef) (s : Books N)
      → Grows (ledger s) (ledger (attach_pdf amounts tol deps tenant p ref s).0)
  unfolding attach_pdf
  attach_pdf-Grows ref s = elim (Option-cases p.attachment_id) [
    | inl e ↦ rw (e, attach_pdf) (read_back_created-Grows ref s)
    | inr (id, e) ↦ elim (Reply-cases (deps.load_pdf id)) [
      | inl (message, l) ↦ rw (e, l, attach_pdf) (Grows-refl (ledger s))
      | inr (bytes, l) ↦ elim (Bool-cases bytes) [
        | inr absent ↦ rw (e, l, absent, attach_pdf) (read_back_created-Grows ref s)
        | inl present ↦ elim (Bool-cases (deps.connector.attach_document s.calls ref.external_id)) [
          | inl sent ↦
              rw (e, l, present, sent, attach_pdf)
                (Grows-trans asked (read_back_created-Grows ref _))
          | inr refused ↦
              rw (e, l, present, refused, attach_pdf)
                (Grows-trans asked (read_back_created-Grows ref _))
        ]
      ]
    ]
  ]
    where
      asked : Grows (ledger s) (ledger (log (attached ref.external_id) s))
      asked = log-Grows (attached ref.external_id) (ledger s) refl

  pub recover_posting-Grows :
      (external_id revision : String) (s : Books N)
      → Grows
          (ledger s)
          (ledger (recover_posting amounts tol deps tenant p external_id revision s).0)
  unfolding recover_posting
  recover_posting-Grows external_id revision s =
      elim (Bool-cases (
        is_reconciled amounts tol deps tenant p external_id (
          set_proposal_status amounts tol tenant p.id status
            (record_posting amounts tol deps tenant p external_id revision status s).0))) [
              | inl there ↦ rw there (record_posting-Grows external_id revision status s)
              | inr absent ↦ rw absent (record_posting-Grows external_id revision status s)
            ]
    where
      status : String
      status = posted_status (mode_of amounts tol deps)

  pub existing_local-Grows :
      (row : Posting) (s : Books N)
      → Grows (ledger s) (ledger (existing_local amounts tol deps tenant p row s).0)
  unfolding existing_local resolve_unknown
  existing_local-Grows row s = elim (Bool-cases (not (str_eq row.status provider_result_unknown))) [
    | inl settled ↦ rw settled (Grows-refl (ledger s))
    | inr unknown ↦ elim (Bool-cases (truthy row.external_id)) [
      | inr missing ↦ rw (unknown, missing) (Grows-refl (ledger s))
      | inl known ↦
          elim (Reply-cases (deps.connector.read_back_verify s.calls p.proposed_txn external)) [
            | inl (message, e) ↦ rw (unknown, known, e, resolve_unknown) asked
            | inr (result, e) ↦ elim (ReadBack-cases result) [
              | inr (reason, revision, m) ↦ rw (unknown, known, e, m, resolve_unknown) asked
              | inl (revision, m) ↦
                  rw (unknown, known, e, m, resolve_unknown)
                    (Grows-trans asked (recover_posting-Grows external revision _))
            ]
          ]
    ]
  ]
    where
      external : String
      external = text_or "" row.external_id

      asked : Grows (ledger s) (ledger (log (read_back external) s))
      asked = log-Grows (read_back external) (ledger s) refl

  -- The rest of a run from a point where no posting is stored for the key.
  pub after_create-stored :
      (ref : PostedRef) (s : Books N)
      → Grows (ledger s) (ledger (after_create amounts tol deps tenant p ref s).0)
        × (has_posting tenant
              (key_of amounts tol p)
              (ledger (after_create amounts tol deps tenant p ref s).0)
            ≡ true)
  unfolding after_create
  after_create-stored ref s =
      let (grows, stored) =
        upsert_posting-Grows
          (posting_row amounts tol deps tenant p (some ref.external_id) (some ref.revision)
            provider_result_unknown)
          s in
      let rest =
        attach_pdf-Grows ref
          (record_posting amounts tol deps tenant p ref.external_id ref.revision
            provider_result_unknown s).0 in
      (Grows-trans grows rest, rest.postings_stay tenant (key_of amounts tol p) stored)

  pub after_failure-stored :
      (message : String) (s : Books N)
      → Grows (ledger s) (ledger (after_failure amounts tol deps tenant p message s).0)
        × (has_posting tenant
              (key_of amounts tol p)
              (ledger (after_failure amounts tol deps tenant p message s).0)
            ≡ true)
  unfolding after_failure
  after_failure-stored message s =
      elim (Reply-cases (deps.connector.detect_existing s.calls p.proposed_txn key)) [
        | inl (error, e) ↦ rw (e, after_failure) (Grows-trans asked unresolved.0, unresolved.1)
        | inr (existing, e) ↦ elim (Option-cases existing) [
          | inl absent ↦
              rw (e, absent, after_failure) (Grows-trans asked unresolved.0, unresolved.1)
          | inr (ref, found) ↦
              let adopted =
                upsert_posting-Grows
                  (posting_row amounts tol deps tenant p (some ref.external_id) (some ref.revision)
                    "posted_sandbox")
                  (log (probed tenant key) s) in
              rw (e, found, after_failure) (Grows-trans asked adopted.0, adopted.1)
        ]
      ]
    where
      key : String
      key = key_of amounts tol p

      asked : Grows (ledger s) (ledger (log (probed tenant key) s))
      asked = log-Grows (probed tenant key) (ledger s) refl

      row : Posting
      row = posting_row amounts tol deps tenant p none none provider_result_unknown

      unresolved :
          Grows
            (ledger (log (probed tenant key) s))
            (ledger (insert_posting row (log (probed tenant key) s)))
          × (has_posting tenant key (ledger (insert_posting row (log (probed tenant key) s)))
              ≡ true)
      unresolved = insert_posting-Grows row (log (probed tenant key) s)
