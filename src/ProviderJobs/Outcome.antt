-- ===== src/ProviderJobs/Outcome.antt =====
-- The methods that report on a leased job, adopt an uncertain one, or retry one by hand.
use ap_hub.Prelude.{
  ℕ, String, Bool, true, false, ◌&&◌, ◌||◌, not, [], ◌∷◌, Option, none, some, if◌then◌else◌, find,
  ◌==◌,
}
use Prim.Native.String.{◌++◌ as str_append}
use ap_hub.ProviderJobs.Key.{show, join, stable_provider_job_key}
use ap_hub.ProviderJobs.Row.{
  Job, Store, Fields, Operation, JobStatus, number, flag, text, object, end, read_back, post_bill,
  queued, leased, sent, succeeded, failed, held, is_leased, is_sent, is_held, is_failed,
  is_post_bill, is_query, field, put,
}
use ap_hub.ProviderJobs.Table.{
  Draft, update_where, update_returning, insert_job, has_id, has_token, in_connection, code_is,
}
use ap_hub.ProviderJobs.Lease.{is_uncertain, uncertain_outcome}

-- A call that returns, or one that throws UnsafeProviderJobRetryError.
pub data Outcome {ℓ} (A : Type ℓ) : Type ℓ where
  done : A → Outcome A
  unsafe_retry : String → Outcome A

-- WHERE … status='sent' AND lease_token=$3
abbrev pub sent_by : ℕ → ℕ → String → Job → Bool
sent_by tenant id token job = has_id tenant id job && (is_sent job.status && has_token token job)

abbrev pub leased_by : ℕ → ℕ → String → Job → Bool
leased_by tenant id token job =
    has_id tenant id job && (is_leased job.status && has_token token job)

unfoldable pub mark_sent : ℕ → ℕ → ℕ → String → Store → Store × Bool
mark_sent now tenant id token store = (
  record store {
    jobs =
        update_where (leased_by tenant id token)
          (λ job. record job { status = sent; updated_at = now }) store.jobs;
  },
  elim (find (leased_by tenant id token) store.jobs) [ none ↦ false | some _ ↦ true ],
)

-- The columns that end a lease: status, response, code and detail, and no lease.
abbrev pub close : ℕ → JobStatus → Option Fields → Option String → Option String → Job → Job
close now status response code detail job = record job {
  status = status;
  response_payload = response;
  error_code = code;
  error_detail = detail;
  lease_token = none;
  leased_at = none;
  lease_expires_at = none;
  updated_at = now;
}

unfoldable pub complete : ℕ → ℕ → ℕ → String → Fields → Store → Store × Option Job
complete now tenant id token response =
    update_returning (sent_by tenant id token) (close now succeeded (some response) none none)

unfoldable pub fail : ℕ → ℕ → ℕ → String → String → String → Bool → Store → Store × Option Job
fail now tenant id token code detail outcome_known =
    update_returning (sent_by tenant id token) λ job.
      close now (if outcome_known then failed else held) job.response_payload
        (some (if outcome_known then code else uncertain_outcome)) (some detail) job

-- COALESCE(new, old)
abbrev pub coalesce {ℓ} : {A : Type ℓ} → Option A → Option A → Option A
coalesce none old = old
coalesce (some new) old = some new

unfoldable pub hold :
    ℕ → ℕ → ℕ → String → String → String → Option Fields → Store → Store × Option Job
hold now tenant id token code detail response =
    update_returning (sent_by tenant id token)
      λ job. close now held (coalesce response job.response_payload) (some code) (some detail) job

-- proposal_id=$4
abbrev pub has_proposal : ℕ → Job → Bool
has_proposal proposal job = elim job.proposal_id [ none ↦ false | some found ↦ found == proposal ]

pub record ParentInput : Type 0 where
  pub tenant_id : ℕ
  pub connection_id : ℕ
  pub proposal_id : ℕ
  pub job_id : ℕ
  pub lease_token : String
  pub provider_response : Fields
  pub txn : Fields
  pub expected_company_id : String

abbrev pub parent_row : (Operation → Bool) → ParentInput → Job → Bool
parent_row is_operation input job =
    (in_connection input.tenant_id input.connection_id job && job.id == input.job_id)
    && (has_proposal input.proposal_id job && is_operation job.operation)

abbrev pub child_draft : (String → String) → ParentInput → Operation → Fields → String → Draft
child_draft sha256 input operation payload source_key = record {
  tenant_id = input.tenant_id;
  connection_id = input.connection_id;
  proposal_id = some input.proposal_id;
  operation = operation;
  request_payload = payload;
  idempotency_key =
      stable_provider_job_key sha256 input.tenant_id input.connection_id (some input.proposal_id)
        operation source_key;
}

-- The insert of the next job and the end of the parent, which commit together.
abbrev pub queue_child : ℕ → ParentInput → Draft → String → Store → Store × Job
queue_child now input draft detail store =
    let inserted = insert_job now draft store in
    (
      record (inserted.0) {
        jobs =
            update_where (sent_by input.tenant_id input.job_id input.lease_token)
              (close now succeeded (some input.provider_response) none (some detail))
              (inserted.0).jobs;
      },
      inserted.1,
    )

abbrev pub read_back_payload : ParentInput → String → String → Fields
read_back_payload input external_id revision = field "parentJobId" (number input.job_id) (
    field "resolution" (text "create_read_back") (
      field "externalId" (text external_id) (
        field "createRevision" (text revision) (
          field "txn" (object input.txn)
            (field "expectedCompanyId" (text input.expected_company_id) end)))))

unfoldable pub acknowledge_create_and_queue_read_back :
    (String → String) → ℕ → ParentInput → String → String → Store → Outcome (Store × Job)
acknowledge_create_and_queue_read_back sha256 now input external_id revision store =
    elim (find (parent_row is_post_bill input) store.jobs) [
      | none ↦ unsafe_retry "stale or conflicting BillAdd acknowledgement"
      | some row ↦
          if not (is_sent row.status) || not (has_token input.lease_token row)
          then unsafe_retry "stale or conflicting BillAdd acknowledgement"
          else done (
              queue_child now input
                (child_draft sha256 input read_back (read_back_payload input external_id revision)
                  (join ":" ("create-read-back" ∷ show row.id ∷ external_id ∷ [])))
                "awaiting authoritative read-back" store)
    ]

-- `existing`: the external id and the revision of a bill that the provider already has.
abbrev pub preflight_operation : Option (String × String) → Operation
preflight_operation none = post_bill
preflight_operation (some _) = read_back

abbrev pub preflight_source : Job → Option (String × String) → String
preflight_source probe none = join ":" ("preflight-create" ∷ show probe.id ∷ [])
preflight_source probe (some (external_id, _)) =
    join ":" ("preexisting" ∷ show probe.id ∷ external_id ∷ [])

abbrev pub preflight_payload : ParentInput → Option (String × String) → Fields
preflight_payload input none = field "parentJobId" (number input.job_id) (
    field "resolution" (text "preflight_create") (
      field "txn" (object input.txn)
        (field "expectedCompanyId" (text input.expected_company_id) end)))
preflight_payload input (some (external_id, revision)) = field "parentJobId" (number input.job_id) (
    field "resolution" (text "preexisting_adoption") (
      field "txn" (object input.txn) (
        field "expectedCompanyId" (text input.expected_company_id)
          (field "externalId" (text external_id) (field "createRevision" (text revision) end)))))

abbrev pub preflight_detail : Option (String × String) → String
preflight_detail none = "no duplicate found"
preflight_detail (some _) = "existing bill found; awaiting authoritative adoption"

unfoldable pub complete_preflight :
    (String → String) → ℕ → ParentInput → Option (String × String) → Store → Outcome (Store × Job)
complete_preflight sha256 now input existing store =
    elim (find (parent_row is_query input) store.jobs) [
      | none ↦ unsafe_retry "stale preflight lease"
      | some probe ↦
          if not (is_sent probe.status) || not (has_token input.lease_token probe)
          then unsafe_retry "stale preflight lease"
          else done (
              queue_child now input
                (child_draft sha256 input (preflight_operation existing)
                  (preflight_payload input existing) (preflight_source probe existing))
                (preflight_detail existing) store)
    ]

-- `{ ...providerResponse, adopted: true, externalId, revision }`
abbrev pub adopted_response : Fields → String → String → Fields
adopted_response response external_id revision =
    put "revision" (text revision)
      (put "externalId" (text external_id) (put "adopted" (flag true) response))

abbrev pub uncertain_with_id : ℕ → ℕ → Job → Bool
uncertain_with_id tenant id job = has_id tenant id job && is_uncertain job

unfoldable pub adopt_uncertain : ℕ → ℕ → ℕ → String → String → Fields → Store → Store × Option Job
adopt_uncertain now tenant id external_id revision response =
    update_returning (uncertain_with_id tenant id) (
      close now succeeded (some (adopted_response response external_id revision)) none
        (some "adopted after provider duplicate query"))

abbrev pub status_text : JobStatus → String
status_text queued = "queued"
status_text leased = "leased"
status_text sent = "sent"
status_text succeeded = "succeeded"
status_text failed = "failed"
status_text held = "held"

-- status IN ('failed','held') AND error_code IS DISTINCT FROM 'UNCERTAIN_OUTCOME'
abbrev pub is_retryable : Job → Bool
is_retryable job =
    (is_failed job.status || is_held job.status) && not (code_is uncertain_outcome job.error_code)

abbrev pub requeue : ℕ → Job → Job
requeue now job = close now queued job.response_payload none none job

unfoldable pub retry_refused : Option Job → Outcome (Option Job)
retry_refused none = done none
retry_refused (some row) =
    if is_sent row.status || code_is uncertain_outcome row.error_code
    then unsafe_retry "uncertain provider outcome requires query/adoption before retry"
    else unsafe_retry
        (str_append "job in " (str_append (status_text row.status) " state is not retryable"))

abbrev pub retryable_with_id : ℕ → ℕ → Job → Bool
retryable_with_id tenant id job = has_id tenant id job && is_retryable job

unfoldable pub retry : ℕ → ℕ → ℕ → Store → Store × Outcome (Option Job)
retry now tenant id store =
    let updated = update_returning (retryable_with_id tenant id) (requeue now) store in
    (
      updated.0,
      elim (updated.1) [
        | some row ↦ done (some row)
        | none ↦ retry_refused (find (has_id tenant id) store.jobs)
      ],
    )
