-- ===== src/Posting/Post.antt =====
-- `postOnce`. Each function below is the rest of the run from one point on; it takes the books as they
-- are at that point. The database answers every query, so only the provider's calls can fail.
use ap_hub.Prelude.{
  ℕ, Bool, true, false, not, ◌&&◌, String, [], ◌∷◌, ◌++◌, Option, none, some, str_eq, ◌==◌, find,
  any, map, if◌then◌else◌,
}
use ap_hub.Mapping.Amount.{Amounts}
use ap_hub.Mapping.Tax.{truthy, text_or, or_else}
use ap_hub.Posting.Books.{
  Proposal, Posting, Books, AccountingMode, sandbox, production, PostedRef, BillReply, created,
  refused_duplicate, post_failed, verified_identity, probed, posted_bill, attached, read_back,
  anchored, Reconciliation, proposal_ref, posting_ref, external_ref, posting, auditproof, log,
  raise_exception, has_proof_ref, record_proof_ref, is_posting,
}
use ap_hub.Posting.Connector.{
  answers, throws, identity_match, identity_mismatch, MismatchReason, amount, docnumber, dimension,
  read_match, read_mismatch, PostDeps, PostResult, posted, held, duplicate, skipped, thrown,
}
use ap_hub.Posting.Gate.{Verdict, passes, holds, raises, entry_gate, tax_gate, dimension_gate}
use ap_hub.Posting.Record.{upsert_posting, insert_posting}

abbrev pub provider_result_unknown : String
provider_result_unknown = "provider_result_unknown"

abbrev pub posted_status : AccountingMode → String
posted_status production = "posted"
posted_status sandbox = "posted_sandbox"

abbrev pub audit_action : AccountingMode → String
audit_action production = "post.production"
audit_action sandbox = "post.sandbox"

abbrev pub is_enabled : Option Bool → Bool
is_enabled (some false) = false
is_enabled _ = true

module _ {N : Type 0} (amounts : Amounts N) (tol : N) where
  abbrev pub mode_of : PostDeps N → AccountingMode
  mode_of deps = or_else sandbox deps.accounting_mode

  abbrev pub key_of : Proposal N → String
  key_of p = text_or "" p.idempotency_key

  -- The row that is written for a proposal; its id is drawn when it is inserted.
  abbrev pub posting_row :
      PostDeps N → ℕ → Proposal N → Option String → Option String → String → Posting
  posting_row deps tenant p external_id revision status = record {
    id = 0;
    tenant_id = tenant;
    attachment_id = p.attachment_id;
    proposal_id = p.id;
    entity_type = text_or "Bill" p.proposed_txn.txn_type;
    external_id = external_id;
    revision = revision;
    realm = deps.connector.company_id;
    mode = mode_of deps;
    idempotency_key = key_of p;
    status = status;
  }

  abbrev pub record_posting :
      PostDeps N → ℕ → Proposal N → String → String → String → Books N → Books N × ℕ
  record_posting deps tenant p external_id revision status =
      upsert_posting (posting_row deps tenant p (some external_id) (some revision) status)

  -- UPDATE proposals SET status=$2 WHERE tenant_id=$1 AND id=$3
  abbrev pub set_proposal_status : ℕ → ℕ → String → Books N → Books N
  set_proposal_status tenant id status s = record s {
    proposals =
        map
          (λ (p : Proposal N).
            if (p.tenant_id == tenant) && (p.id == id) then record p { status = status } else p)
          s.proposals;
  }

  abbrev pub reconciliation_of : PostDeps N → ℕ → Proposal N → String → Reconciliation
  reconciliation_of deps tenant p external_id = record {
    tenant_id = tenant;
    left_proposal = p.id;
    right_provider = deps.connector.provider;
    right_external = external_id;
  }

  abbrev pub audit : PostDeps N → ℕ → ℕ → Books N → Books N
  audit deps tenant posting_id s = record s {
    audits =
        s.audits
        ++ record {
          tenant_id = tenant;
          action = audit_action (mode_of deps);
          posting_id = posting_id;
        }
          ∷ [];
  }

  abbrev pub hold : ℕ → Proposal N → String → Books N → Books N × PostResult
  hold tenant p reason s = (raise_exception tenant reason (proposal_ref p.id) s, held reason)

  -- AuditProof anchor: a failure only raises an exception.
  unfoldable pub anchor_posting : PostDeps N → ℕ → ℕ → Books N → Books N
  anchor_posting deps tenant posting_id s =
      if not (is_enabled deps.swarm_sync_enabled)
      then s
      else if has_proof_ref tenant posting posting_id auditproof s
      then s
      else if deps.anchor s.calls posting_id
      then record_proof_ref tenant posting posting_id auditproof (log (anchored posting_id) s)
      else raise_exception tenant "proof_scan_unavailable" (posting_ref posting_id)
          (log (anchored posting_id) s)

  unfoldable pub settle :
      PostDeps N → ℕ → Proposal N → String → String → Books N → Books N × PostResult
  settle deps tenant p external_id revision s =
      let status = posted_status (mode_of deps) in
      let (t, posting_id) = record_posting deps tenant p external_id revision status s in
      let u = set_proposal_status tenant p.id status t in
      let v = record u {
        reconciliations = u.reconciliations ++ reconciliation_of deps tenant p external_id ∷ [];
      } in
      (
        anchor_posting deps tenant posting_id (audit deps tenant posting_id v),
        posted (some posting_id) external_id,
      )

  abbrev pub mismatch_text : MismatchReason → String
  mismatch_text amount = "verify_mismatch"
  mismatch_text docnumber = "verify_mismatch"
  mismatch_text dimension = "dimension_mismatch"

  unfoldable pub read_back_created :
      PostDeps N → ℕ → Proposal N → PostedRef → Books N → Books N × PostResult
  read_back_created deps tenant p ref s =
      let t = log (read_back ref.external_id) s in
      elim (deps.connector.read_back_verify s.calls p.proposed_txn ref.external_id) [
        | throws message ↦ (t, thrown message)
        | answers (read_match revision) ↦ settle deps tenant p ref.external_id ref.revision t
        | answers (read_mismatch reason revision) ↦ (
          raise_exception tenant (mismatch_text reason) (external_ref ref.external_id)
              (record_posting deps tenant p ref.external_id ref.revision (mismatch_text reason)
                t).0,
          held (mismatch_text reason),
        )
      ]

  -- The attachment's upload is tried once; a failure is an exception, never a second create.
  unfoldable pub attach_pdf :
      PostDeps N → ℕ → Proposal N → PostedRef → Books N → Books N × PostResult
  attach_pdf deps tenant p ref s =
      let t = log (attached ref.external_id) s in
      let failed = raise_exception tenant "attachment_failed" (external_ref ref.external_id) t in
      elim p.attachment_id [
        | none ↦ read_back_created deps tenant p ref s
        | some id ↦ elim (deps.load_pdf id) [
          | throws message ↦ (s, thrown message)
          | answers false ↦ read_back_created deps tenant p ref s
          | answers true ↦
              read_back_created deps tenant p ref
                (if deps.connector.attach_document s.calls ref.external_id then t else failed)
        ]
      ]

  -- The provider's id is stored before anything else is asked of the provider.
  unfoldable pub after_create :
      PostDeps N → ℕ → Proposal N → PostedRef → Books N → Books N × PostResult
  after_create deps tenant p ref s =
      attach_pdf deps tenant p ref
        (record_posting deps tenant p ref.external_id ref.revision provider_result_unknown s).0

  -- The create failed, or its answer was lost: adopt what the probe finds, or store the ambiguity.
  unfoldable pub after_failure :
      PostDeps N → ℕ → Proposal N → String → Books N → Books N × PostResult
  after_failure deps tenant p message s =
      let t = log (probed tenant (key_of p)) s in
      let stored = insert_posting (posting_row deps tenant p none none provider_result_unknown) t in
      let unresolved : Books N × PostResult =
        (raise_exception tenant "qbo_api_error" (proposal_ref p.id) stored, thrown message) in
      elim (deps.connector.detect_existing s.calls p.proposed_txn (key_of p)) [
        | throws _ ↦ unresolved
        | answers none ↦ unresolved
        | answers (some ref) ↦ (
          (record_posting deps tenant p ref.external_id ref.revision "posted_sandbox" t).0,
          posted none ref.external_id,
        )
      ]

  unfoldable pub after_reply :
      PostDeps N → ℕ → Proposal N → BillReply → Books N → Books N × PostResult
  after_reply deps tenant p (created ref) s = after_create deps tenant p ref s
  after_reply deps tenant p refused_duplicate s =
      (raise_exception tenant "duplicate_in_qbo" (proposal_ref p.id) s, duplicate)
  after_reply deps tenant p (post_failed message) s = after_failure deps tenant p message s

  unfoldable pub create_bill : PostDeps N → ℕ → Proposal N → Books N → Books N × PostResult
  create_bill deps tenant p s =
      let reply = deps.connector.post_bill s.calls p.proposed_txn (key_of p) in
      after_reply deps tenant p reply (log (posted_bill tenant (key_of p) reply) s)

  -- A verdict ends the run or lets it go on.
  abbrev pub continue_if :
      Verdict → ℕ → Proposal N → Books N → Books N × PostResult → Books N × PostResult
  continue_if passes tenant p s rest = rest
  continue_if (holds reason) tenant p s rest = (s, held reason)
  continue_if (raises reason) tenant p s rest = hold tenant p reason s

  unfoldable pub gated_create : PostDeps N → ℕ → Proposal N → Books N → Books N × PostResult
  gated_create deps tenant p s = continue_if (tax_gate amounts deps tol tenant p s) tenant p s (
      continue_if (dimension_gate tenant p.id p.proposed_txn.dimensions s.dimension_mappings) tenant
        p s (create_bill deps tenant p s))

  -- Layer 2: the provider is asked for the document before it is created.
  unfoldable pub probe_provider : PostDeps N → ℕ → Proposal N → Books N → Books N × PostResult
  probe_provider deps tenant p s =
      let t = log (probed tenant (key_of p)) s in
      elim (deps.connector.detect_existing s.calls p.proposed_txn (key_of p)) [
        | throws _ ↦ hold tenant p "dedup_unavailable" t
        | answers none ↦ gated_create deps tenant p t
        | answers (some ref) ↦ (
          raise_exception tenant "duplicate_in_qbo" (proposal_ref p.id)
              (record_posting deps tenant p ref.external_id ref.revision "posted_sandbox" t).0,
          duplicate,
        )
      ]

  abbrev pub is_reconciled : PostDeps N → ℕ → Proposal N → String → Books N → Bool
  is_reconciled deps tenant p external_id s =
      any
        (λ (r : Reconciliation).
          (r.tenant_id == tenant)
          && (r.left_proposal == p.id)
          && str_eq r.right_provider deps.connector.provider
          && str_eq r.right_external external_id)
        s.reconciliations

  -- A read-back that matches settles a posting whose outcome was unknown.
  unfoldable pub recover_posting :
      PostDeps N → ℕ → Proposal N → String → String → Books N → Books N × PostResult
  recover_posting deps tenant p external_id revision s =
      let status = posted_status (mode_of deps) in
      let (t, posting_id) = record_posting deps tenant p external_id revision status s in
      let u = set_proposal_status tenant p.id status t in
      let v = record u {
        reconciliations = u.reconciliations ++ reconciliation_of deps tenant p external_id ∷ [];
      } in
      let w = if is_reconciled deps tenant p external_id u then u else v in
      (audit deps tenant posting_id w, posted (some posting_id) external_id)

  unfoldable pub resolve_unknown :
      PostDeps N → ℕ → Proposal N → String → Books N → Books N × PostResult
  resolve_unknown deps tenant p external_id s =
      let t = log (read_back external_id) s in
      elim (deps.connector.read_back_verify s.calls p.proposed_txn external_id) [
        | throws _ ↦ (t, held provider_result_unknown)
        | answers (read_mismatch _ _) ↦ (t, held provider_result_unknown)
        | answers (read_match revision) ↦ recover_posting deps tenant p external_id revision t
      ]

  unfoldable pub existing_local :
      PostDeps N → ℕ → Proposal N → Posting → Books N → Books N × PostResult
  existing_local deps tenant p row s =
      if not (str_eq row.status provider_result_unknown)
      then (raise_exception tenant "duplicate_in_qbo" (proposal_ref p.id) s, duplicate)
      else if truthy row.external_id
      then resolve_unknown deps tenant p (text_or "" row.external_id) s
      else (s, held provider_result_unknown)

  -- Layer 1: the local idempotency key.
  unfoldable pub local_dedup : PostDeps N → ℕ → Proposal N → Books N → Books N × PostResult
  local_dedup deps tenant p s = elim (find (is_posting tenant (key_of p)) s.postings) [
    | some row ↦ existing_local deps tenant p row s
    | none ↦ probe_provider deps tenant p s
  ]

  -- The wrong-company guard.
  unfoldable pub check_company : PostDeps N → ℕ → Proposal N → Books N → Books N × PostResult
  check_company deps tenant p s =
      let name = text_or "" deps.expected_company_name in
      let t = log (verified_identity name) s in
      if truthy deps.expected_company_name
      then elim (deps.connector.verify_company_identity s.calls name) [
        | throws message ↦ (t, thrown message)
        | answers identity_mismatch ↦ hold tenant p "company_mismatch" t
        | answers identity_match ↦ local_dedup deps tenant p t
      ]
      else local_dedup deps tenant p s

  abbrev pub find_proposal : ℕ → ℕ → Books N → Option (Proposal N)
  find_proposal tenant id s =
      find (λ (p : Proposal N). (p.tenant_id == tenant) && (p.id == id)) s.proposals

  unfoldable pub post_once : PostDeps N → ℕ → ℕ → Books N → Books N × PostResult
  post_once deps tenant proposal_id s = elim (find_proposal tenant proposal_id s) [
    | none ↦ (s, skipped "not_found")
    | some p ↦
        continue_if (entry_gate amounts deps tenant p s) tenant p s (check_company deps tenant p s)
  ]
