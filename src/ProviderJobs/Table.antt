-- ===== src/ProviderJobs/Table.antt =====
-- The SQL statements of the queue over the rows of `provider_jobs`: UPDATE, SELECT and INSERT … ON
-- CONFLICT (tenant_id, connection_id, idempotency_key, operation).
use ap_hub.Prelude.{
  ℕ, suc, String, Bool, ◌&&◌, ◌||◌, List, [], ◌∷◌, ◌++◌, Option, none, some, str_eq, if◌then◌else◌,
  find, option_is, ◌==◌, ltb, leb,
}
use ap_hub.ProviderJobs.Row.{Job, Store, Connection, Fields, Operation, queued, operation_eq}

-- UPDATE provider_jobs SET … WHERE …
unfoldable pub update_where : (Job → Bool) → (Job → Job) → List Job → List Job
update_where test change [] = []
update_where test change (job ∷ jobs) =
    (if test job then change job else job) ∷ update_where test change jobs

abbrev pub map_first : (Job → Job) → Option Job → Option Job
map_first change none = none
map_first change (some job) = some (change job)

-- The same with RETURNING *: the first updated row.
unfoldable pub update_returning : (Job → Bool) → (Job → Job) → Store → Store × Option Job
update_returning test change store = (
  record store { jobs = update_where test change store.jobs },
  map_first change (find test store.jobs),
)

-- WHERE tenant_id=$1 AND connection_id=$2
abbrev pub in_connection : ℕ → ℕ → Job → Bool
in_connection tenant connection job = job.tenant_id == tenant && job.connection_id == connection

-- WHERE tenant_id=$1 AND id=$2
abbrev pub has_id : ℕ → ℕ → Job → Bool
has_id tenant id job = job.tenant_id == tenant && job.id == id

abbrev pub code_is : String → Option String → Bool
code_is code = option_is (λ found. str_eq found code)

-- lease_token=$n
abbrev pub has_token : String → Job → Bool
has_token token job = code_is token job.lease_token

-- lease_expires_at <= now(), which is not true of NULL.
abbrev pub is_expired : ℕ → Job → Bool
is_expired now job = option_is (λ expiry. leb expiry now) job.lease_expires_at

-- lease_expires_at > now()
abbrev pub is_live : ℕ → Job → Bool
is_live now job = option_is (λ expiry. ltb now expiry) job.lease_expires_at

pub record Draft : Type 0 where
  pub tenant_id : ℕ
  pub connection_id : ℕ
  pub proposal_id : Option ℕ
  pub operation : Operation
  pub request_payload : Fields
  pub idempotency_key : String

-- The row that an insert adds: the columns that the statement leaves out take their defaults.
abbrev pub new_job : ℕ → ℕ → Draft → Job
new_job id now draft = record {
  id = id;
  tenant_id = draft.tenant_id;
  connection_id = draft.connection_id;
  proposal_id = draft.proposal_id;
  operation = draft.operation;
  request_payload = draft.request_payload;
  response_payload = none;
  status = queued;
  idempotency_key = draft.idempotency_key;
  lease_token = none;
  leased_at = none;
  lease_expires_at = none;
  attempts = 0;
  error_code = none;
  error_detail = none;
  created_at = now;
  updated_at = now;
}

abbrev pub conflicts : Draft → Job → Bool
conflicts draft job =
    in_connection draft.tenant_id draft.connection_id job
    && (str_eq job.idempotency_key draft.idempotency_key
        && operation_eq job.operation draft.operation)

-- INSERT … ON CONFLICT …: both DO NOTHING and DO UPDATE SET updated_at = its own value leave the row
-- that is there as it is. The sequence behind `id` is drawn from in either case.
unfoldable pub insert_job : ℕ → Draft → Store → Store × Job
insert_job now draft store = elim (find (conflicts draft) store.jobs) [
  | some existing ↦ (record store { next_id = suc store.next_id }, existing)
  | none ↦ (
    record store {
      jobs = store.jobs ++ new_job store.next_id now draft ∷ [];
      next_id = suc store.next_id;
    },
    new_job store.next_id now draft,
  )
]

unfoldable pub find_connection : ℕ → ℕ → Store → Option Connection
find_connection tenant connection store =
    find (λ conn. conn.tenant_id == tenant && conn.id == connection) store.connections

-- ORDER BY created_at,id
abbrev pub is_before : Job → Job → Bool
is_before a b = ltb a.created_at b.created_at || (a.created_at == b.created_at && leb a.id b.id)

unfoldable pub insert_ordered : Job → List Job → List Job
insert_ordered job [] = job ∷ []
insert_ordered job (first ∷ rest) =
    if is_before job first then job ∷ first ∷ rest else first ∷ insert_ordered job rest

unfoldable pub order_by_created : List Job → List Job
unfolding insert_ordered
order_by_created [] = []
order_by_created (job ∷ jobs) = insert_ordered job (order_by_created jobs)
