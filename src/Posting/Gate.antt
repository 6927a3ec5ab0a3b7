-- ===== src/Posting/Gate.antt =====
-- The conditions that `postOnce` checks before it creates anything. Each ends the run or lets it go
-- on; a hold may leave an exception behind.
use Prim.Native.String.{◌++◌ as str_append}
use ap_hub.Prelude.{
  ℕ, Bool, true, false, not, ◌&&◌, String, List, [], ◌∷◌, Option, none, some, str_eq, ◌==◌, find,
  any, select, option_is, if◌then◌else◌,
}
use ap_hub.Mapping.Amount.{Amounts}
use ap_hub.Mapping.Tax.{
  TaxHold, tax_unmapped, tax_unreconciled, TaxDecision, no_tax, tax_ok, tax_hold, truthy, text_or,
  or_else, evaluate_tax, TaxMappingRecord, TaxMappingGate, mapping_ok, tax_mapping_not_found,
  tax_mapping_inactive, tax_mapping_needs_revalidation, evaluate_tax_mapping_record,
}
use ap_hub.Mapping.Dimension.{
  CanonicalDimension, DimensionMappingRecord, DimensionMappingGate, dimension_pass, dimension_ok,
  dimension_mapping_not_found, dimension_mapping_not_mapped, dimension_mapping_not_reviewed,
  evaluate_dimension_mapping_record, includes,
}
use ap_hub.Posting.Books.{
  Proposal, Books, CompanyConnection, TaxMappingRow, DimensionMappingRow, extraction, proposal,
  verify_api, invoiceproof, has_proof_ref, open_proof_exception,
}
use ap_hub.Posting.Connector.{PostDeps, SwarmSyncMode, on, off_review}

pub data Verdict : Type 0 where
  passes : Verdict
  holds : String → Verdict
  -- An exception with the same reason is raised.
  raises : String → Verdict

abbrev pub blocking_flags : List String
blocking_flags =
    "duplicate" ∷ "total_mismatch" ∷ "bank_change_warning" ∷ "unknown_vendor" ∷ "unmapped_account"
    ∷ "unmapped_dimension" ∷ "fraud_flag" ∷ "proof_scan_unavailable" ∷ "vendor_review" ∷ []

abbrev pub is_off_review : SwarmSyncMode → Bool
is_off_review off_review = true
is_off_review on = false

abbrev pub tax_hold_text : TaxHold → String
tax_hold_text tax_unmapped = "tax_unmapped"
tax_hold_text tax_unreconciled = "tax_unreconciled"

abbrev pub tax_mapping_verdict : TaxMappingGate → Verdict
tax_mapping_verdict mapping_ok = passes
tax_mapping_verdict tax_mapping_not_found = raises "tax_mapping_not_found"
tax_mapping_verdict tax_mapping_inactive = raises "tax_mapping_inactive"
tax_mapping_verdict tax_mapping_needs_revalidation = raises "tax_mapping_needs_revalidation"

abbrev pub dimension_verdict : DimensionMappingGate → Verdict
dimension_verdict dimension_pass = passes
dimension_verdict dimension_ok = passes
dimension_verdict dimension_mapping_not_found = raises "dimension_mapping_not_found"
dimension_verdict dimension_mapping_not_mapped = raises "dimension_mapping_not_mapped"
dimension_verdict dimension_mapping_not_reviewed = raises "dimension_mapping_not_reviewed"

module _ {N : Type 0} (amounts : Amounts N) where
  abbrev pub find_company : ℕ → PostDeps N → Books N → Option CompanyConnection
  find_company tenant deps s =
      find
        (λ (c : CompanyConnection).
          (c.tenant_id == tenant)
          && str_eq c.provider deps.connector.provider
          && str_eq c.external_company deps.connector.company_id)
        s.connections

  abbrev pub requires_swarm_sync : ℕ → PostDeps N → Books N → Bool
  requires_swarm_sync tenant deps s =
      option_is (λ (c : CompanyConnection). option_is (str_eq "required") c.swarm_sync_policy)
        (find_company tenant deps s)

  abbrev pub total_of : Proposal N → N
  total_of p = or_else amounts.zero p.proposed_txn.total_amt

  abbrev pub is_blocked : Proposal N → Bool
  is_blocked p = any (includes blocking_flags) p.flags

  abbrev pub is_covered : ℕ → Proposal N → Books N → Bool
  is_covered tenant p s =
      has_proof_ref tenant proposal p.id invoiceproof s
      && option_is (λ e. has_proof_ref tenant extraction e verify_api s) p.extraction_id

  -- The gates that need nothing of the provider.
  unfoldable pub entry_gate : PostDeps N → ℕ → Proposal N → Books N → Verdict
  entry_gate deps tenant p s =
      if not (str_eq p.status "ready")
      then holds (str_append "status=" p.status)
      else if option_is is_off_review deps.swarm_sync_mode && requires_swarm_sync tenant deps s
      then raises "swarmsync_required_unavailable"
      else if amounts.lt p.confidence deps.auto_threshold
      then holds "below_auto_threshold"
      else if amounts.lt deps.amount_ceiling (total_of p)
      then holds "over_ceiling"
      else if is_blocked p
      then holds "blocking_flag"
      else if not (truthy p.idempotency_key)
      then holds "no_idempotency_key"
      else if not (is_covered tenant p s)
      then holds "missing_proof_coverage"
      else if option_is (λ e. open_proof_exception tenant e s) p.extraction_id
      then holds "open_proof_scan_unavailable"
      else passes

  -- The row of `tax_mappings` for a code: an active one if there is one, else the first.
  unfoldable pub tax_mapping_record : PostDeps N → ℕ → String → Books N → Option TaxMappingRecord
  tax_mapping_record deps tenant code s = elim (find_company tenant deps s) [
    | none ↦ none
    | some c ↦
        let matches =
          select
            (λ (r : TaxMappingRow).
              (r.tenant_id == tenant)
              && (r.connection_id == c.id)
              && str_eq r.provider deps.connector.provider
              && str_eq r.provider_tax_code code)
            s.tax_mappings in
        let as_record : TaxMappingRow → TaxMappingRecord =
          λ r. record { active = r.active; needs_revalidation = r.needs_revalidation } in
        elim (find (λ (r : TaxMappingRow). r.active) matches) [
          | some r ↦ some (as_record r)
          | none ↦ elim matches [ [] ↦ none | r ∷ _ ↦ some (as_record r) ]
        ]
  ]

  abbrev pub tax_verdict : PostDeps N → ℕ → TaxDecision N → Books N → Verdict
  tax_verdict deps tenant no_tax s = passes
  tax_verdict deps tenant (tax_hold reason) s = raises (tax_hold_text reason)
  tax_verdict deps tenant (tax_ok t r) s =
      tax_mapping_verdict
        (evaluate_tax_mapping_record (tax_mapping_record deps tenant (text_or "" t.code) s))

  unfoldable pub tax_gate : PostDeps N → N → ℕ → Proposal N → Books N → Verdict
  tax_gate deps tol tenant p s =
      tax_verdict deps tenant
        (evaluate_tax amounts tol p.proposed_txn.tax p.proposed_txn.lines (total_of p)) s

abbrev pub dimension_row : ℕ → ℕ → String → List DimensionMappingRow → Option DimensionMappingRecord
dimension_row tenant proposal_id kind rows =
    elim (find
      (λ (r : DimensionMappingRow).
        (r.tenant_id == tenant) && (r.proposal_id == proposal_id) && str_eq r.dimension_type kind)
      rows) [
        | none ↦ none
        | some r ↦
            some (record { resolution_state = r.resolution_state; review_status = r.review_status })
      ]

-- The first dimension that does not pass ends the loop.
unfoldable pub dimension_gate : ℕ → ℕ → List CanonicalDimension → List DimensionMappingRow → Verdict
dimension_gate tenant proposal_id [] rows = passes
dimension_gate tenant proposal_id (dim ∷ dims) rows =
    let rest = dimension_gate tenant proposal_id dims rows in
    elim (dimension_verdict
      (evaluate_dimension_mapping_record dim (dimension_row tenant proposal_id dim.kind rows))) [
        | passes ↦ rest
        | holds reason ↦ holds reason
        | raises reason ↦ raises reason
      ]
