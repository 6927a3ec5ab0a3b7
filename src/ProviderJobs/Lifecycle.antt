-- ===== src/ProviderJobs/Lifecycle.antt =====
-- The life of a job: which moves between states the queue may make, and what a sequence of such
-- moves, inserts and leases does to the whole table.
use mathlib.Core.Path.{subst₂}
use ap_hub.Prelude.{
  ℕ, suc, ◌≤◌, ◌<◌, ◌≡◌, refl, ap, subst, Bool, true, false, not, ◌&&◌, ◌||◌, String, List, [], ◌∷◌,
  some, arith, All, All-append, find, count_if, count-append, is_some, Option-cases, Bool-cases,
  inl, inr, dec_lt,
}
use ap_hub.ProviderJobs.Row.{
  Job, JobStatus, Store, queued, leased, sent, succeeded, failed, held, is_queued, is_leased,
  is_sent,
}
use ap_hub.ProviderJobs.Table.{
  Draft, update_where, insert_job, new_job, conflicts, in_connection, code_is,
}
use ap_hub.ProviderJobs.Lease.{uncertain_outcome, take_lease}
use ap_hub.ProviderJobs.Rows.{
  ids, Rising, Rising-suc, Rising-snoc, Rising-find, ids-update_where, is_row, All-update_where,
}

-- The diagram without the lease itself. The flag says that the code is UNCERTAIN_OUTCOME.
abbrev pub may_move : JobStatus → Bool → JobStatus → Bool
may_move queued _ held = true
may_move leased _ sent = true
may_move leased _ queued = true
may_move sent _ succeeded = true
may_move sent _ failed = true
may_move sent _ held = true
may_move failed false queued = true
may_move held false queued = true
may_move held true succeeded = true
may_move _ _ _ = false

-- A leased or sent job knows when its lease ends.
abbrev pub is_busy : Job → Bool
is_busy job = is_leased job.status || is_sent job.status

abbrev pub has_term : Job → Bool
has_term job = not (is_busy job) || is_some job.lease_expires_at

abbrev pub Moves : Job → Job → Type 0
Moves a b =
    (b.id ≡ a.id)
    × (b.tenant_id ≡ a.tenant_id)
    × (b.connection_id ≡ a.connection_id)
    × (b.operation ≡ a.operation)
    × (b.idempotency_key ≡ a.idempotency_key)
    × (may_move a.status (code_is uncertain_outcome a.error_code) b.status ≡ true)
    × (has_term a ≡ true → has_term b ≡ true)

abbrev pub busy_in : ℕ → ℕ → Job → Bool
busy_in tenant connection job = in_connection tenant connection job && is_busy job

pub data Change (s : Store) : Store → Type 0 where
  update :
      (test : Job → Bool) (change : Job → Job)
      → ((job : Job) → (change job).id ≡ job.id)
      → ((job : Job) → test job ≡ true → Moves job (change job))
      → Change s (record s { jobs = update_where test change s.jobs })
  insert : (now : ℕ) (draft : Draft) → Change s ((insert_job now draft s).0)
  lease :
      (now lease_seconds : ℕ) (token : String) (candidate : Job)
      → find (is_row candidate.id) s.jobs ≡ some candidate
      → is_queued candidate.status ≡ true
      → count_if (busy_in candidate.tenant_id candidate.connection_id) s.jobs ≡ 0
      → Change s (record s {
        jobs = update_where (is_row candidate.id) (take_lease now lease_seconds token) s.jobs;
      })

pub data Changes (s : Store) : Store → Type 0 where
  here : Changes s s
  next : {t u : Store} → Changes s t → Change t u → Changes s u

pub record IsValid (s : Store) : Type 0 where
  pub rising : Rising 0 s.next_id (ids s.jobs)
  pub termed : All (λ job. has_term job ≡ true) s.jobs
  pub exclusive : (tenant connection : ℕ) → count_if (busy_in tenant connection) s.jobs ≤ 1

-- A count does not grow where each updated row that counts afterwards counted before.
count-update_where :
    (P test : Job → Bool) (Q : Job → Type 0) (change : Job → Job) (jobs : List Job)
    → ((job : Job) → Q job → test job ≡ true → P (change job) ≡ true → P job ≡ true)
    → All Q jobs
    → count_if P (update_where test change jobs) ≤ count_if P jobs
unfolding update_where
count-update_where P test Q change [] keep a = omega arith
count-update_where P test Q change (job ∷ jobs) keep a =
    ground (arith, keep job a.0, count-update_where P test Q change jobs keep a.1)

update_where_miss :
    (id lo hi : ℕ) (change : Job → Job) (jobs : List Job)
    → id < lo
    → Rising lo hi (ids jobs)
    → update_where (is_row id) change jobs ≡ jobs
unfolding update_where
update_where_miss id lo hi change [] h r = refl
update_where_miss id lo hi change (job ∷ jobs) h r =
    ground (arith, update_where_miss id (suc job.id) hi change jobs (omega arith) r.1)

-- An update of one row moves a count by one at most.
count-update_one :
    (P : Job → Bool) (id lo hi : ℕ) (change : Job → Job) (jobs : List Job)
    → Rising lo hi (ids jobs)
    → count_if P (update_where (is_row id) change jobs) ≤ suc (count_if P jobs)
unfolding update_where
count-update_one P id lo hi change [] r = omega arith
count-update_one P id lo hi change (job ∷ jobs) r = elim (dec_lt id (suc job.id)) [
  | yes le ↦ rw (update_where_miss id (suc job.id) hi change jobs le r.1) (ground arith)
  | no gt ↦ ground (arith, count-update_one P id (suc job.id) hi change jobs r.1)
]

insert-IsValid :
    (now : ℕ) (draft : Draft) {s : Store} → IsValid s → IsValid ((insert_job now draft s).0)
unfolding insert_job
insert-IsValid now draft {s} v = elim (Option-cases (find (conflicts draft) s.jobs)) [
  | inl fresh ↦
      rw (fresh, insert_job)
        (record {
          rising = Rising-snoc 0 s.next_id s.jobs (new_job s.next_id now draft) refl v.rising;
          termed =
              All-append (λ job. has_term job ≡ true) s.jobs (new_job s.next_id now draft ∷ [])
                v.termed (refl, tt);
          exclusive = λ tenant connection. ground (
            arith,
            v.exclusive tenant connection,
            count-append (busy_in tenant connection) s.jobs (new_job s.next_id now draft ∷ []),
          );
        })
  | inr (existing, e) ↦
      rw (e, insert_job)
        (record {
          rising = Rising-suc 0 s.next_id (ids s.jobs) v.rising;
          termed = v.termed;
          exclusive = v.exclusive;
        })
]

update-IsValid :
    (test : Job → Bool) (change : Job → Job) {s : Store}
    → ((job : Job) → (change job).id ≡ job.id)
    → ((job : Job) → test job ≡ true → Moves job (change job))
    → IsValid s
    → IsValid (record s { jobs = update_where test change s.jobs })
update-IsValid test change {s} same moves v = record {
  rising = rw (ids-update_where test change same s.jobs) v.rising;
  termed =
      All-update_where (λ job. has_term job ≡ true) (λ job. has_term job ≡ true) test change s.jobs
        (λ job h t. (moves job t).6 h) (λ job h _. h) v.termed;
  exclusive = λ tenant connection. omega (
    arith,
    v.exclusive tenant connection,
    count-update_where (busy_in tenant connection) test (λ job. has_term job ≡ true) change s.jobs
        (λ job _ t b. ground (arith, moves job t)) v.termed,
  );
}

module _ (now lease_seconds : ℕ) (token : String) (candidate : Job) (s : Store) where
  abbrev after_lease : List Job
  after_lease = update_where (is_row candidate.id) (take_lease now lease_seconds token) s.jobs

  lease-exclusive :
      find (is_row candidate.id) s.jobs ≡ some candidate
      → count_if (busy_in candidate.tenant_id candidate.connection_id) s.jobs ≡ 0
      → IsValid s
      → (tenant connection : ℕ) → count_if (busy_in tenant connection) after_lease ≤ 1
  lease-exclusive found idle v tenant connection =
      elim (Bool-cases (in_connection tenant connection candidate)) [
        | inl own ↦ omega (
          arith,
          count-update_one (busy_in tenant connection) candidate.id 0 s.next_id
              (take_lease now lease_seconds token) s.jobs v.rising,
          subst₂ (λ t c. count_if (busy_in t c) s.jobs ≡ 0) (own_tenant own).0 (own_tenant own).1
              idle,
        )
        | inr other ↦ omega (
          arith,
          v.exclusive tenant connection,
          count-update_where (busy_in tenant connection) (is_row candidate.id)
              (λ job. find (is_row job.id) s.jobs ≡ some job) (take_lease now lease_seconds token)
              s.jobs (not_ours other) (Rising-find 0 s.next_id s.jobs v.rising),
        )
      ]
    where
      own_tenant :
          in_connection tenant connection candidate ≡ true
          → (candidate.tenant_id ≡ tenant) × (candidate.connection_id ≡ connection)
      own_tenant own = ground arith

      not_ours :
          in_connection tenant connection candidate ≡ false
          → (job : Job) → find (is_row job.id) s.jobs ≡ some job
          → is_row candidate.id job ≡ true
          → busy_in tenant connection (take_lease now lease_seconds token job) ≡ true
          → busy_in tenant connection job ≡ true
      not_ours other job own_row same busy =
          let e : job.id ≡ candidate.id = ground arith in
          let own_row' : find (is_row candidate.id) s.jobs ≡ some job =
            subst (λ i. find (is_row i) s.jobs ≡ some job) e own_row in
          let same_job : job ≡ candidate = cc (own_row', found) in
          ground (arith, ap (λ (j : Job). in_connection tenant connection j) same_job)

  lease-IsValid :
      find (is_row candidate.id) s.jobs ≡ some candidate
      → count_if (busy_in candidate.tenant_id candidate.connection_id) s.jobs ≡ 0
      → IsValid s
      → IsValid (record s { jobs = after_lease })
  lease-IsValid found idle v = record {
    rising =
        rw
          (ids-update_where (is_row candidate.id) (take_lease now lease_seconds token) (λ _. refl)
            s.jobs)
          v.rising;
    termed =
        All-update_where (λ job. has_term job ≡ true) (λ job. has_term job ≡ true)
          (is_row candidate.id) (take_lease now lease_seconds token) s.jobs (λ _ _ _. refl)
          (λ job h _. h) v.termed;
    exclusive = lease-exclusive found idle v;
  }

pub Change-IsValid : {s t : Store} → Change s t → IsValid s → IsValid t
Change-IsValid (update test change same moves) v = update-IsValid test change same moves v
Change-IsValid (insert now draft) v = insert-IsValid now draft v
Change-IsValid {s} (lease now seconds token candidate found waits idle) v =
    lease-IsValid now seconds token candidate s found idle v

pub Changes-IsValid : {s t : Store} → Changes s t → IsValid s → IsValid t
Changes-IsValid here v = v
Changes-IsValid (next first last) v = Change-IsValid last (Changes-IsValid first v)
