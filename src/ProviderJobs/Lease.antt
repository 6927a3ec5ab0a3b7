-- ===== src/ProviderJobs/Lease.antt =====
-- `enqueue` and `leaseNext`. `leaseNext` runs in one transaction under an advisory lock on the
-- connection, so it is one step; each UPDATE and INSERT of it is a function here, in its order.
use Prim.Native.String.{◌++◌ as str_append}
use ap_hub.Prelude.{
  ℕ, ◌+◌, String, Bool, ◌&&◌, ◌||◌, not, List, [], ◌∷◌, Option, none, some, str_eq, if◌then◌else◌,
  any, select, ◌==◌,
}
use ap_hub.ProviderJobs.Key.{show, join, stable_provider_job_key}
use ap_hub.ProviderJobs.Row.{
  Job, Store, Connection, Fields, Operation, number, text, end, read_back, queued, leased, held,
  is_queued, is_leased, is_sent, is_held, is_post_bill, member, with_field,
}
use ap_hub.ProviderJobs.Table.{
  Draft, update_where, update_returning, insert_job, find_connection, order_by_created,
  in_connection, code_is, is_expired, is_live,
}

pub record EnqueueInput : Type 0 where
  pub tenant_id : ℕ
  pub connection_id : ℕ
  pub proposal_id : Option ℕ
  pub operation : Operation
  pub request_payload : Fields
  pub source_key : String

abbrev pub enqueue_draft : (String → String) → EnqueueInput → Draft
enqueue_draft sha256 input = record {
  tenant_id = input.tenant_id;
  connection_id = input.connection_id;
  proposal_id = input.proposal_id;
  operation = input.operation;
  request_payload = input.request_payload;
  idempotency_key =
      stable_provider_job_key sha256 input.tenant_id input.connection_id input.proposal_id
        input.operation input.source_key;
}

unfoldable pub enqueue : (String → String) → ℕ → EnqueueInput → Store → Store × Job
enqueue sha256 now input store = insert_job now (enqueue_draft sha256 input) store

abbrev pub uncertain_outcome : String
uncertain_outcome = "UNCERTAIN_OUTCOME"

abbrev pub hold_expired_sent : ℕ → Job → Job
hold_expired_sent now job = record job {
  status = held;
  error_code = some uncertain_outcome;
  error_detail = some "lease expired after request was sent; provider query/adoption required";
  lease_token = none;
  leased_at = none;
  lease_expires_at = none;
  updated_at = now;
}

abbrev pub sent_expired : ℕ → ℕ → ℕ → Job → Bool
sent_expired now tenant connection job =
    in_connection tenant connection job && (is_sent job.status && is_expired now job)

-- A job whose provider outcome is unknown.
abbrev pub is_uncertain : Job → Bool
is_uncertain job = is_held job.status && code_is uncertain_outcome job.error_code

abbrev pub uncertain_create : ℕ → ℕ → Job → Bool
uncertain_create tenant connection job =
    in_connection tenant connection job && (is_post_bill job.operation && is_uncertain job)

-- The duplicate probe of a create whose outcome is unknown.
abbrev pub probe_draft : (String → String) → ℕ → ℕ → Job → Draft
probe_draft sha256 tenant connection parent = record {
  tenant_id = tenant;
  connection_id = connection;
  proposal_id = parent.proposal_id;
  operation = read_back;
  request_payload = with_field "parentJobId" (some (number parent.id)) (
      with_field "resolution" (some (text "uncertain_duplicate_probe")) (
        with_field "txn" (member "txn" parent.request_payload) (
          with_field "expectedCompanyId" (member "expectedCompanyId" parent.request_payload) end)));
  idempotency_key =
      stable_provider_job_key sha256 tenant connection parent.proposal_id read_back
        (join ":" ("uncertain" ∷ show parent.id ∷ parent.idempotency_key ∷ []));
}

unfoldable pub queue_probes : (String → String) → ℕ → ℕ → ℕ → List Job → Store → Store
queue_probes sha256 now tenant connection [] store = store
queue_probes sha256 now tenant connection (parent ∷ parents) store =
    queue_probes sha256 now tenant connection parents
      (insert_job now (probe_draft sha256 tenant connection parent) store).0

abbrev pub requeue_expired : ℕ → Job → Job
requeue_expired now job = record job {
  status = queued;
  lease_token = none;
  leased_at = none;
  lease_expires_at = none;
  error_code = some "LEASE_EXPIRED";
  error_detail = some "recovered before provider send";
  updated_at = now;
}

abbrev pub lease_expired : ℕ → ℕ → ℕ → Job → Bool
lease_expired now tenant connection job =
    in_connection tenant connection job && (is_leased job.status && is_expired now job)

-- The part of `leaseNext` that runs for every known connection: expired sent jobs are held, each
-- uncertain create gets its probe, and expired unsent leases go back to the queue.
unfoldable pub recover : (String → String) → ℕ → ℕ → ℕ → Store → Store
recover sha256 now tenant connection store =
    let swept = record store {
      jobs = update_where (sent_expired now tenant connection) (hold_expired_sent now) store.jobs;
    } in
    let parents = order_by_created (select (uncertain_create tenant connection) swept.jobs) in
    let probed = queue_probes sha256 now tenant connection parents swept in
    record probed {
      jobs = update_where (lease_expired now tenant connection) (requeue_expired now) probed.jobs;
    }

abbrev pub first_text : Option String → Option String → String
first_text (some a) _ = a
first_text none (some b) = b
first_text none none = ""

-- String(metadata.expectedCompanyId ?? external_company ?? '')
abbrev pub expected_company : Connection → String
expected_company conn = first_text conn.expected_company_id conn.external_company

-- conn.status !== 'active' || !expected || expected !== observedCompanyId
abbrev pub identity_fails : Connection → String → Bool
identity_fails conn observed =
    not (str_eq conn.status "active")
    || (str_eq (expected_company conn) "" || not (str_eq (expected_company conn) observed))

abbrev pub hold_mismatch : ℕ → String → String → Job → Job
hold_mismatch now expected observed job = record job {
  status = held;
  error_code = some "COMPANY_IDENTITY_MISMATCH";
  error_detail = some (
      str_append "expected " (
        str_append (if str_eq expected "" then "(unconfigured)" else expected)
          (str_append ", observed " observed)));
  updated_at = now;
}

abbrev pub queued_in : ℕ → ℕ → Job → Bool
queued_in tenant connection job = in_connection tenant connection job && is_queued job.status

-- status IN ('leased','sent') AND lease_expires_at > now()
abbrev pub active_in : ℕ → ℕ → ℕ → Job → Bool
active_in now tenant connection job =
    in_connection tenant connection job
    && ((is_leased job.status || is_sent job.status) && is_live now job)

abbrev pub take_lease : ℕ → ℕ → String → Job → Job
take_lease now lease_seconds token job = record job {
  status = leased;
  lease_token = some token;
  leased_at = some now;
  lease_expires_at = some (now + lease_seconds);
  attempts = job.attempts + 1;
  error_code = none;
  error_detail = none;
  updated_at = now;
}

-- WITH candidate AS (… ORDER BY created_at,id LIMIT 1) UPDATE … WHERE j.id=candidate.id
unfoldable pub lease_first : ℕ → ℕ → String → List Job → Store → Store × Option Job
lease_first now lease_seconds token [] store = (store, none)
lease_first now lease_seconds token (candidate ∷ _) store =
    update_returning (λ job. job.id == candidate.id) (take_lease now lease_seconds token) store

pub record LeaseInput : Type 0 where
  pub tenant_id : ℕ
  pub connection_id : ℕ
  pub observed_company_id : String

-- The queued jobs of a connection, oldest first.
abbrev pub waiting : ℕ → ℕ → Store → List Job
waiting tenant connection store = order_by_created (select (queued_in tenant connection) store.jobs)

unfoldable pub lease_connected :
    (String → String) → ℕ → ℕ → String → LeaseInput → Connection → Store → Store × Option Job
lease_connected sha256 now lease_seconds token input conn store =
    let tenant = input.tenant_id in
    let connection = input.connection_id in
    let observed = input.observed_company_id in
    let ready = recover sha256 now tenant connection store in
    let mismatched = record ready {
      jobs =
          update_where (queued_in tenant connection)
            (hold_mismatch now (expected_company conn) observed) ready.jobs;
    } in
    if identity_fails conn observed
    then (mismatched, none)
    else if any (active_in now tenant connection) ready.jobs
    then (ready, none)
    else lease_first now lease_seconds token (waiting tenant connection ready) ready

-- `token` is the fresh `randomUUID()`, `lease_seconds` the configured lease.
unfoldable pub lease_next :
    (String → String) → ℕ → ℕ → String → LeaseInput → Store → Store × Option Job
lease_next sha256 now lease_seconds token input store =
    elim (find_connection input.tenant_id input.connection_id store) [
      | none ↦ (store, none)
      | some conn ↦ lease_connected sha256 now lease_seconds token input conn store
    ]
