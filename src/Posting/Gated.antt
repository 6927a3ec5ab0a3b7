-- ===== src/Posting/Gated.antt =====
-- The gates before a call of the provider's `postBill`.
use ap_hub.Prelude.{
  ◌≢◌, ℕ, ◌≡◌, refl, sym, ◌∙◌, true, false, ◌&&◌, String, List, none, some, str_eq_iff, find, arith,
  Option-cases, Bool-cases, inl, inr, ◌⊎◌, option_is,
}
use ap_hub.Mapping.Amount.{Amounts}
use ap_hub.Mapping.Tax.{TaxDecision, no_tax, tax_ok, tax_hold, truthy, text_or}
use ap_hub.Posting.Books.{
  Proposal, Books, ProviderCall, verified_identity, probed, is_posting, log, open_proof_exception,
}
use ap_hub.Posting.Connector.{answers, identity_match, identity_mismatch, PostDeps, PostResult}
use ap_hub.Posting.Gate.{
  Verdict, passes, holds, raises, entry_gate, tax_gate, tax_verdict, tax_mapping_record,
  dimension_gate, is_off_review, requires_swarm_sync, total_of, is_blocked, is_covered,
}
use ap_hub.Posting.Post.{
  key_of, continue_if, gated_create, probe_provider, local_dedup, check_company, find_proposal,
  post_once,
}
use ap_hub.Posting.Grows.{bill_count, ledger, Grows, log-Grows}
use ap_hub.Posting.Keeps.{Reply-cases, record_posting-Grows, existing_local-Grows}

-- What the gates promise of a proposal, in the books as they were when the run began.
pub record Cleared {N : Type 0} (amounts : Amounts N) (tol : N) (deps : PostDeps N) (tenant : ℕ)
    (p : Proposal N) (s : Books N) : Type 0 where
  pub ready : p.status ≡ "ready"
  pub policy_met :
      option_is is_off_review deps.swarm_sync_mode && requires_swarm_sync amounts tenant deps s
      ≡ false
  pub confident : amounts.lt p.confidence deps.auto_threshold ≡ false
  pub below_ceiling : amounts.lt deps.amount_ceiling (total_of amounts p) ≡ false
  pub unflagged : is_blocked amounts p ≡ false
  pub keyed : truthy p.idempotency_key ≡ true
  pub covered : is_covered amounts tenant p s ≡ true
  pub settled : option_is (λ e. open_proof_exception tenant e s) p.extraction_id ≡ false
  pub identified :
      truthy deps.expected_company_name ≡ true
      → deps.connector.verify_company_identity s.calls (text_or "" deps.expected_company_name)
        ≡ answers identity_match
  pub unposted : find (is_posting tenant (key_of amounts tol p)) s.postings ≡ none
  pub absent :
      (calls : List ProviderCall) × (deps.connector.detect_existing calls p.proposed_txn
          (key_of amounts tol p)
        ≡ answers none)
  pub taxed : tax_gate amounts deps tol tenant p s ≡ passes
  pub dimensioned :
      dimension_gate tenant p.id p.proposed_txn.dimensions s.dimension_mappings ≡ passes

module _ {N : Type 0} (amounts : Amounts N) (tol : N) (deps : PostDeps N) (tenant : ℕ)
    (p : Proposal N) where
  abbrev Same : Books N → Books N → Type 0
  Same s t = bill_count (ledger t) ≡ bill_count (ledger s)

  Entered : Books N → Type 0
  Entered s =
      (p.status ≡ "ready")
      × (option_is is_off_review deps.swarm_sync_mode && requires_swarm_sync amounts tenant deps s
          ≡ false)
      × (amounts.lt p.confidence deps.auto_threshold ≡ false)
      × (amounts.lt deps.amount_ceiling (total_of amounts p) ≡ false)
      × (is_blocked amounts p ≡ false)
      × (truthy p.idempotency_key ≡ true)
      × (is_covered amounts tenant p s ≡ true)
      × (option_is (λ e. open_proof_exception tenant e s) p.extraction_id ≡ false)

  entry_gate-Entered : (s : Books N) → entry_gate amounts deps tenant p s ≡ passes → Entered s
  unfolding entry_gate Entered
  entry_gate-Entered s e = ground (arith, str_eq_iff p.status "ready")

  -- A verdict lets the run go on, or ends it without a call.
  stops :
      (v : Verdict) (s : Books N)
      → (v ≡ passes)
        ⊎ ((rest : Books N × PostResult) → Same s (continue_if amounts tol v tenant p s rest).0)
  stops passes s = inl refl
  stops (holds reason) s = inr (λ rest. refl)
  stops (raises reason) s = inr (λ rest. refl)

  gated_create-cleared :
      (s : Books N)
      → Same s (gated_create amounts tol deps tenant p s).0
        ⊎ ((tax_gate amounts deps tol tenant p s ≡ passes)
            × (dimension_gate tenant p.id p.proposed_txn.dimensions s.dimension_mappings ≡ passes))
  unfolding gated_create
  gated_create-cleared s = elim (stops (tax_gate amounts deps tol tenant p s) s) [
    | inr ends ↦ inl (ends _)
    | inl taxed ↦
        elim (stops (dimension_gate tenant p.id p.proposed_txn.dimensions s.dimension_mappings) s) [
          | inr ends ↦ inl (rw taxed (ends _))
          | inl mapped_all ↦ inr (taxed, mapped_all)
        ]
  ]

  tax_verdict-log :
      (d : TaxDecision N) (call : ProviderCall) (s : Books N)
      → tax_verdict amounts deps tenant d (log call s) ≡ tax_verdict amounts deps tenant d s
  unfolding tax_mapping_record
  tax_verdict-log no_tax call s = refl
  tax_verdict-log (tax_hold reason) call s = refl
  tax_verdict-log (tax_ok t r) call s = refl

  tax_gate-log :
      (call : ProviderCall) (s : Books N)
      → tax_gate amounts deps tol tenant p (log call s) ≡ tax_gate amounts deps tol tenant p s
  unfolding tax_gate
  tax_gate-log call s = tax_verdict-log _ call s

  Dedup : Books N → Type 0
  Dedup s =
      (find (is_posting tenant (key_of amounts tol p)) s.postings ≡ none)
      × ((calls : List ProviderCall) × (deps.connector.detect_existing calls p.proposed_txn
              (key_of amounts tol p)
            ≡ answers none))
      × (tax_gate amounts deps tol tenant p s ≡ passes)
      × (dimension_gate tenant p.id p.proposed_txn.dimensions s.dimension_mappings ≡ passes)

  local_dedup-Dedup : (s : Books N) → Same s (local_dedup amounts tol deps tenant p s).0 ⊎ Dedup s
  unfolding local_dedup probe_provider Dedup
  local_dedup-Dedup s = elim (Option-cases (find (is_posting tenant key) s.postings)) [
    | inr (row, e) ↦
        rw (e, local_dedup) (inl (existing_local-Grows amounts tol deps tenant p row s).bills_same)
    | inl unposted ↦
        elim (Reply-cases (deps.connector.detect_existing s.calls p.proposed_txn key)) [
          | inl (error, e) ↦ inl (rw (unposted, e, local_dedup, probe_provider) asked.bills_same)
          | inr (some ref, e) ↦ inl (
              rw (unposted, e, local_dedup, probe_provider)
                ((record_posting-Grows amounts tol deps tenant p ref.external_id ref.revision
                    "posted_sandbox" t).bills_same
                  ∙ asked.bills_same))
          | inr (none, e) ↦ elim (gated_create-cleared t) [
            | inl same ↦
                inl (rw (unposted, e, local_dedup, probe_provider) (same ∙ asked.bills_same))
            | inr (taxed, mapped_all) ↦
                inr (unposted, (s.calls, e), sym (tax_gate-log _ s) ∙ taxed, mapped_all)
          ]
        ]
  ]
    where
      key : String
      key = key_of amounts tol p

      t : Books N
      t = log (probed tenant key) s

      asked : Grows (ledger s) (ledger t)
      asked = log-Grows (probed tenant key) (ledger s) refl

  Identified : Books N → Type 0
  Identified s =
      truthy deps.expected_company_name ≡ true
      → deps.connector.verify_company_identity s.calls (text_or "" deps.expected_company_name)
        ≡ answers identity_match

  check_company-Identified :
      (s : Books N)
      → Same s (check_company amounts tol deps tenant p s).0 ⊎ (Identified s × Dedup s)
  unfolding check_company Identified Dedup
  check_company-Identified s = elim (Bool-cases (truthy deps.expected_company_name)) [
    | inr unset ↦ elim (local_dedup-Dedup s) [
      | inl same ↦ inl (rw unset same)
      | inr d ↦ inr ((λ h. absurd (cc)), d)
    ]
    | inl set_name ↦ elim (Reply-cases (deps.connector.verify_company_identity s.calls name)) [
      | inl (message, e) ↦ inl (rw (set_name, e, check_company) asked.bills_same)
      | inr (identity_mismatch, e) ↦ inl (rw (set_name, e, check_company) asked.bills_same)
      | inr (identity_match, e) ↦ elim (local_dedup-Dedup t) [
        | inl same ↦ inl (rw (set_name, e, check_company) (same ∙ asked.bills_same))
        | inr (unposted, absent, taxed, mapped_all) ↦
            inr ((λ _. e), (unposted, absent, sym (tax_gate-log _ s) ∙ taxed, mapped_all))
      ]
    ]
  ]
    where
      name : String
      name = text_or "" deps.expected_company_name

      t : Books N
      t = log (verified_identity name) s

      asked : Grows (ledger s) (ledger t)
      asked = log-Grows (verified_identity name) (ledger s) refl

  all_clear :
      (s : Books N) → Entered s → Identified s → Dedup s → Cleared amounts tol deps tenant p s
  unfolding Entered Identified Dedup
  all_clear s (ready, policy, confident, ceiling, flags, keyed, covered, settled) known
        (unposted, absent, taxed, mapped_all) =
      record {
        ready = ready;
        policy_met = policy;
        confident = confident;
        below_ceiling = ceiling;
        unflagged = flags;
        keyed = keyed;
        covered = covered;
        settled = settled;
        identified = known;
        unposted = unposted;
        absent = absent;
        taxed = taxed;
        dimensioned = mapped_all;
      }

-- If a run makes a further call of `postBill`, then the proposal is stored and `Cleared` in the books
-- as they were when the run began: ready, within its company's verification policy, at or above the
-- threshold, not over the ceiling, with no blocking flag, with a key, covered by both proofs, with no
-- open scan failure, its company identified where one is expected, not posted under its key, absent
-- from the provider, and past the tax and the dimension gates.
pub post_once-Cleared :
    {N : Type 0} (amounts : Amounts N) (tol : N) (deps : PostDeps N) (tenant proposal_id : ℕ)
    (s : Books N)
    → bill_count (ledger (post_once amounts tol deps tenant proposal_id s).0)
      ≢ bill_count (ledger s)
    → (p : Proposal N) × (find_proposal amounts tol tenant proposal_id s ≡ some p)
      × Cleared amounts tol deps tenant p s
unfolding post_once
post_once-Cleared amounts tol deps tenant proposal_id s more =
    elim (Option-cases (find_proposal amounts tol tenant proposal_id s)) [
      | inl missing ↦ absurd (more (rw (missing, post_once) refl))
      | inr (p, e) ↦ elim (stops amounts tol deps tenant p (entry_gate amounts deps tenant p s) s) [
        | inr ends ↦ absurd (more (rw (e, post_once) (ends _)))
        | inl entered ↦ elim (check_company-Identified amounts tol deps tenant p s) [
          | inl same ↦ absurd (more (rw (e, entered, post_once) same))
          | inr (known, d) ↦ (
            p,
            e,
            all_clear amounts tol deps tenant p s
                (entry_gate-Entered amounts tol deps tenant p s entered) known d,
          )
        ]
      ]
    ]
