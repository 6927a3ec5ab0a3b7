-- ===== src/ProviderJobs/Trace.antt =====
-- The calls of the queue against the changes that ProviderJobs.Lifecycle allows.
use mathlib.Core.Path.{subst₂}
use ap_hub.Prelude.{
  ℕ, ◌≡◌, refl, sym, Bool, true, false, String, List, [], ◌∷◌, Option, arith, All, find, any,
  count_if, Option-cases, Bool-cases, inl, inr, if◌then◌else◌,
}
use ap_hub.ProviderJobs.Row.{Job, Store, Connection, is_post_bill, is_query}
use ap_hub.ProviderJobs.Table.{Draft, update_where, update_returning, find_connection}
use ap_hub.ProviderJobs.Lease.{
  LeaseInput, enqueue, enqueue_draft, recover, active_in, identity_fails, lease_first,
  lease_connected, lease_next,
}
use ap_hub.ProviderJobs.Outcome.{
  ParentInput, mark_sent, complete, fail, hold, queue_child, acknowledge_create_and_queue_read_back,
  complete_preflight, adopt_uncertain, retry, parent_row, done, unsafe_retry,
}
use ap_hub.ProviderJobs.Step.{
  Call, enqueues, leases, marks_sent, completes, fails, holds, acknowledges, preflights, adopts,
  retries, committed, step, run,
}
use ap_hub.ProviderJobs.Lifecycle.{
  Moves, update, insert, lease, Changes, here, next, IsValid, Changes-IsValid, busy_in,
}
use ap_hub.ProviderJobs.Recovery.{
  Changes-trans, queue_child-Changes, recover-Changes, recover-settled, idle, Waits, waiting-Waits,
}

lease_first-Changes :
    (now lease_seconds tenant connection : ℕ) (token : String) (jobs : List Job) (s : Store)
    → count_if (busy_in tenant connection) s.jobs ≡ 0
    → All (Waits tenant connection s) jobs
    → Changes s (lease_first now lease_seconds token jobs s).0
unfolding lease_first update_returning
lease_first-Changes now lease_seconds tenant connection token [] s idle a = here
lease_first-Changes now lease_seconds tenant connection token (candidate ∷ rest) s idle a =
    next here (
      lease now lease_seconds token candidate (a.0).0 (ground (arith, (a.0).1))
        (subst₂ (λ t c. count_if (busy_in t c) s.jobs ≡ 0) (sym (own.0)) (sym (own.1)) idle))
  where
    own : (candidate.tenant_id ≡ tenant) × (candidate.connection_id ≡ connection)
    own = ground (arith, (a.0).1)

lease_connected-Changes :
    (sha256 : String → String) (now lease_seconds : ℕ) (token : String) (input : LeaseInput)
    (conn : Connection) (s : Store)
    → IsValid s
    → Changes s (lease_connected sha256 now lease_seconds token input conn s).0
unfolding lease_connected
lease_connected-Changes sha256 now lease_seconds token input conn s v =
    elim (Bool-cases (identity_fails conn input.observed_company_id)) [
      | inl wrong ↦ rw wrong (next ready (update _ _ (λ _. refl) (λ job t. ground arith)))
      | inr right ↦ rw right (elim (Bool-cases (any active recovered.jobs)) [
        | inl taken ↦ rw taken ready
        | inr quiet ↦ rw quiet (
            Changes-trans ready (
              lease_first-Changes now lease_seconds tenant connection token _ recovered
                (idle now tenant connection recovered (Changes-IsValid ready v)
                  (recover-settled sha256 now tenant connection s) quiet)
                (waiting-Waits tenant connection recovered (Changes-IsValid ready v))))
      ])
    ]
  where
    tenant : ℕ
    tenant = input.tenant_id

    connection : ℕ
    connection = input.connection_id

    active : Job → Bool
    active = active_in now tenant connection

    recovered : Store
    recovered = recover sha256 now tenant connection s

    ready : Changes s recovered
    ready = recover-Changes sha256 now tenant connection s

lease_next-Changes :
    (sha256 : String → String) (now lease_seconds : ℕ) (token : String) (input : LeaseInput)
    (s : Store)
    → IsValid s
    → Changes s (lease_next sha256 now lease_seconds token input s).0
unfolding lease_next
lease_next-Changes sha256 now lease_seconds token input s v =
    elim (Option-cases (find_connection input.tenant_id input.connection_id s)) [
      | inl missing ↦ rw (missing, lease_next) here
      | inr (conn, e) ↦
          rw (e, lease_next) (lease_connected-Changes sha256 now lease_seconds token input conn s v)
    ]

committed_child :
    (now : ℕ) (input : ParentInput) (draft : Draft) (detail text : String) (stale : Bool)
    (s : Store)
    → Changes s (
        committed s
          (if stale then unsafe_retry text else done (queue_child now input draft detail s)))
committed_child now input draft detail text true s = here
committed_child now input draft detail text false s = queue_child-Changes now input draft detail s

acknowledge-Changes :
    (sha256 : String → String) (now : ℕ) (input : ParentInput) (external_id revision : String)
    (s : Store)
    → Changes s (
        committed s
          (acknowledge_create_and_queue_read_back sha256 now input external_id revision s))
unfolding acknowledge_create_and_queue_read_back
acknowledge-Changes sha256 now input external_id revision s =
    elim (Option-cases (find (parent_row is_post_bill input) s.jobs)) [
      | inl missing ↦ rw (missing, acknowledge_create_and_queue_read_back) here
      | inr (row, e) ↦
          rw (e, acknowledge_create_and_queue_read_back) (committed_child now input _ _ _ _ s)
    ]

preflight-Changes :
    (sha256 : String → String) (now : ℕ) (input : ParentInput) (existing : Option (String × String))
    (s : Store)
    → Changes s (committed s (complete_preflight sha256 now input existing s))
unfolding complete_preflight
preflight-Changes sha256 now input existing s =
    elim (Option-cases (find (parent_row is_query input) s.jobs)) [
      | inl missing ↦ rw (missing, complete_preflight) here
      | inr (row, e) ↦ rw (e, complete_preflight) (committed_child now input _ _ _ _ s)
    ]

-- A single guarded UPDATE of a method.
one_update :
    (test : Job → Bool) (change : Job → Job) (s : Store)
    → ((job : Job) → (change job).id ≡ job.id)
    → ((job : Job) → test job ≡ true → Moves job (change job))
    → Changes s (record s { jobs = update_where test change s.jobs })
one_update test change s same moves = next here (update test change same moves)

module _ (sha256 : String → String) (lease_seconds : ℕ) where
  -- From a valid table, each call of a method changes the rows by a sequence of the changes that
  -- `Change` allows: moves of the lifecycle diagram `may_move` that keep a job's id, tenant,
  -- connection, operation and key; inserts; and a lease of a queued row of an idle connection.
  pub step-Changes :
      (s : Store) (call : ℕ × Call) → IsValid s → Changes s (step sha256 lease_seconds s call)
  unfolding step enqueue mark_sent complete fail hold adopt_uncertain retry update_returning
  step-Changes s (now, enqueues input) v = next here (insert now (enqueue_draft sha256 input))
  step-Changes s (now, leases token input) v =
      lease_next-Changes sha256 now lease_seconds token input s v
  step-Changes s (now, marks_sent tenant id token) v =
      one_update _ _ s (λ _. refl) (λ job t. ground arith)
  step-Changes s (now, completes tenant id token response) v =
      one_update _ _ s (λ _. refl) (λ job t. ground arith)
  step-Changes s (now, fails tenant id token code detail known) v =
      one_update _ _ s (λ _. refl) (λ job t. ground arith)
  step-Changes s (now, holds tenant id token code detail response) v =
      one_update _ _ s (λ _. refl) (λ job t. ground arith)
  step-Changes s (now, acknowledges input external_id revision) v =
      acknowledge-Changes sha256 now input external_id revision s
  step-Changes s (now, preflights input existing) v = preflight-Changes sha256 now input existing s
  step-Changes s (now, adopts tenant id external_id revision response) v =
      one_update _ _ s (λ _. refl) (λ job t. ground arith)
  step-Changes s (now, retries tenant id) v = one_update _ _ s (λ _. refl) (λ job t. ground arith)

  pub step-IsValid :
      (s : Store) (call : ℕ × Call) → IsValid s → IsValid (step sha256 lease_seconds s call)
  step-IsValid s call v = Changes-IsValid (step-Changes s call v) v

  -- Whatever the calls and their times, between two calls ids stay unique and below the sequence,
  -- every leased or sent job has a lease term, and no connection of a tenant has more than one
  -- leased or sent job.
  pub run-IsValid :
      (calls : List (ℕ × Call)) (s : Store) → IsValid s → IsValid (run sha256 lease_seconds s calls)
  unfolding run
  run-IsValid [] s v = v
  run-IsValid (call ∷ calls) s v =
      run-IsValid calls (step sha256 lease_seconds s call) (step-IsValid s call v)
