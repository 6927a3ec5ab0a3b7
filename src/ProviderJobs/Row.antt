-- ===== src/ProviderJobs/Row.antt =====
-- The rows of the queue: src/qbdesktop/durable-jobs.ts (JobRow) and the enums of
-- src/accounting/contracts.ts. Times are whole seconds, ids and attempts natural numbers.
use ap_hub.Prelude.{ℕ, String, Bool, true, false, List, Option, none, some, str_eq, if◌then◌else◌}

pub data Operation : Type 0 where
  verify_company query post_bill read_back attach : Operation

pub data JobStatus : Type 0 where
  queued leased sent succeeded failed held : JobStatus

-- A JSON value as the queue stores it: what the queue writes itself, and whatever the caller hands
-- over as `txn`.
mutual
  pub data Json : Type 0 where
    null : Json
    number : ℕ → Json
    flag : Bool → Json
    text : String → Json
    object : Fields → Json

  pub data Fields : Type 0 where
    end : Fields
    field : String → Json → Fields → Fields

pub record Job : Type 0 where
  pub id : ℕ
  pub tenant_id : ℕ
  pub connection_id : ℕ
  pub proposal_id : Option ℕ
  pub operation : Operation
  pub request_payload : Fields
  pub response_payload : Option Fields
  pub status : JobStatus
  pub idempotency_key : String
  pub lease_token : Option String
  pub leased_at : Option ℕ
  pub lease_expires_at : Option ℕ
  pub attempts : ℕ
  pub error_code : Option String
  pub error_detail : Option String
  pub created_at : ℕ
  pub updated_at : ℕ

-- The columns of `connections` that `leaseNext` reads; `expected_company_id` is
-- `metadata.expectedCompanyId`.
pub record Connection : Type 0 where
  pub tenant_id : ℕ
  pub id : ℕ
  pub external_company : Option String
  pub expected_company_id : Option String
  pub status : String

pub record Store : Type 0 where
  pub jobs : List Job
  pub next_id : ℕ
  pub connections : List Connection

abbrev pub is_queued : JobStatus → Bool
is_queued queued = true
is_queued _ = false

abbrev pub is_leased : JobStatus → Bool
is_leased leased = true
is_leased _ = false

abbrev pub is_sent : JobStatus → Bool
is_sent sent = true
is_sent _ = false

abbrev pub is_held : JobStatus → Bool
is_held held = true
is_held _ = false

abbrev pub is_failed : JobStatus → Bool
is_failed failed = true
is_failed _ = false

abbrev pub is_succeeded : JobStatus → Bool
is_succeeded succeeded = true
is_succeeded _ = false

abbrev pub is_post_bill : Operation → Bool
is_post_bill post_bill = true
is_post_bill _ = false

abbrev pub is_query : Operation → Bool
is_query query = true
is_query _ = false

abbrev pub operation_eq : Operation → Operation → Bool
operation_eq verify_company verify_company = true
operation_eq query query = true
operation_eq post_bill post_bill = true
operation_eq read_back read_back = true
operation_eq attach attach = true
operation_eq _ _ = false

-- `payload.name`, `undefined` where there is no such field.
pub member : String → Fields → Option Json
member name end = none
member name (field key value rest) = if str_eq key name then some value else member name rest

-- `{ ...fields, name: value }`: the value replaces one that is there, and else comes last.
pub put : String → Json → Fields → Fields
put name value end = field name value end
put name value (field key old rest) =
    if str_eq key name then field key value rest else field key old (put name value rest)

-- A field of an object literal: JSON leaves out one whose value is `undefined`.
abbrev pub with_field : String → Option Json → Fields → Fields
with_field name none rest = rest
with_field name (some value) rest = field name value rest
