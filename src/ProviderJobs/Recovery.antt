-- ===== src/ProviderJobs/Recovery.antt =====
-- The recovery at the start of `leaseNext` against the changes of ProviderJobs.Lifecycle.
use ap_hub.Prelude.{
  ℕ, ◌≡◌, refl, Bool, true, false, ◌&&◌, String, List, [], ◌∷◌, some, arith, All, All-append,
  All-zip, All-of-any, All-select, select_holds, find, any, select, count_if, count_if-zero,
  Option-cases, inl, inr,
}
use ap_hub.ProviderJobs.Row.{Job, Store}
use ap_hub.ProviderJobs.Table.{Draft, insert_job, new_job, conflicts, is_expired}
use ap_hub.ProviderJobs.Lease.{
  probe_draft, queue_probes, recover, sent_expired, queued_in, active_in, waiting,
}
use ap_hub.ProviderJobs.Outcome.{ParentInput, queue_child}
use ap_hub.ProviderJobs.Rows.{is_row, Rising-find, All-order_by_created, All-update_where}
use ap_hub.ProviderJobs.Lifecycle.{update, insert, Changes, here, next, IsValid, busy_in, has_term}

pub Changes-trans : {s t u : Store} → Changes s t → Changes t u → Changes s u
Changes-trans p here = p
Changes-trans p (next q c) = next (Changes-trans p q) c

pub queue_child-Changes :
    (now : ℕ) (input : ParentInput) (draft : Draft) (detail : String) (s : Store)
    → Changes s (queue_child now input draft detail s).0
queue_child-Changes now input draft detail s =
    next (next here (insert now draft)) (update _ _ (λ _. refl) (λ job t. ground arith))

pub queue_probes-Changes :
    (sha256 : String → String) (now tenant connection : ℕ) (parents : List Job) (s : Store)
    → Changes s (queue_probes sha256 now tenant connection parents s)
unfolding queue_probes
queue_probes-Changes sha256 now tenant connection [] s = here
queue_probes-Changes sha256 now tenant connection (parent ∷ parents) s =
    Changes-trans (next here (insert now _))
      (queue_probes-Changes sha256 now tenant connection parents _)

pub recover-Changes :
    (sha256 : String → String) (now tenant connection : ℕ) (s : Store)
    → Changes s (recover sha256 now tenant connection s)
unfolding recover
recover-Changes sha256 now tenant connection s =
    next
      (Changes-trans (next here (update _ _ (λ _. refl) (λ job t. ground arith)))
        (queue_probes-Changes sha256 now tenant connection _ _))
      (update _ _ (λ _. refl) (λ job t. ground arith))

-- What recovery leaves: no busy job of the connection whose lease has run out.
abbrev pub overdue_in : ℕ → ℕ → ℕ → Job → Bool
overdue_in now tenant connection job = busy_in tenant connection job && is_expired now job

-- What holds of the rows and of each new row holds of the rows after the probes are queued.
pub All-queue_probes :
    (P : Job → Type 0) (sha256 : String → String) (now tenant connection : ℕ)
    → ((id : ℕ) (draft : Draft) → P (new_job id now draft))
    → (parents : List Job) (s : Store) → All P s.jobs
    → All P (queue_probes sha256 now tenant connection parents s).jobs
unfolding queue_probes insert_job
All-queue_probes P sha256 now tenant connection fresh [] s a = a
All-queue_probes P sha256 now tenant connection fresh (parent ∷ parents) s a =
    All-queue_probes P sha256 now tenant connection fresh parents _
      (elim (Option-cases (find (conflicts (probe_draft sha256 tenant connection parent)) s.jobs)) [
        | inl missing ↦ rw (missing, insert_job) (All-append P s.jobs _ a (fresh s.next_id _, tt))
        | inr (existing, e) ↦ rw (e, insert_job) a
      ])

pub recover-settled :
    (sha256 : String → String) (now tenant connection : ℕ) (s : Store)
    → All
        (λ job. overdue_in now tenant connection job ≡ false)
        (recover sha256 now tenant connection s).jobs
unfolding recover
recover-settled sha256 now tenant connection s =
    All-update_where (λ job. sent_expired now tenant connection job ≡ false)
      (λ job. overdue_in now tenant connection job ≡ false) _ _ _ (λ job _ t. ground arith)
      (λ job a f. ground arith)
      (All-queue_probes (λ job. sent_expired now tenant connection job ≡ false) sha256 now tenant
        connection (λ id draft. ground arith) _ _
        (All-update_where (λ _. Unit {0}) (λ job. sent_expired now tenant connection job ≡ false) _
          _ s.jobs (λ job _ t. ground arith) (λ job _ f. f) (trivial s.jobs)))
  where
    trivial : (jobs : List Job) → All (λ _. Unit {0}) jobs
    trivial [] = tt
    trivial (job ∷ jobs) = (tt, trivial jobs)

-- With no overdue and no live lease in it, a connection has no busy job.
pub idle :
    (now tenant connection : ℕ) (s : Store)
    → IsValid s
    → All (λ job. overdue_in now tenant connection job ≡ false) s.jobs
    → any (active_in now tenant connection) s.jobs ≡ false
    → count_if (busy_in tenant connection) s.jobs ≡ 0
idle now tenant connection s v settled quiet = count_if-zero (busy_in tenant connection) s.jobs (
    All-zip (λ job. has_term job ≡ true) Free (λ job. busy_in tenant connection job ≡ false)
      (λ job term free. ground (arith, free.0, free.1)) s.jobs v.termed
      (All-zip (λ job. overdue_in now tenant connection job ≡ false)
        (λ job. active_in now tenant connection job ≡ false) Free (λ job a b. (a, b)) s.jobs settled
        (All-of-any (active_in now tenant connection) s.jobs quiet)))
  where
    Free : Job → Type 0
    Free job =
        (overdue_in now tenant connection job ≡ false)
        × (active_in now tenant connection job ≡ false)

-- What is known of each waiting job: it is a queued row of the connection.
abbrev pub Waits : ℕ → ℕ → Store → Job → Type 0
Waits tenant connection s job =
    (find (is_row job.id) s.jobs ≡ some job) × (queued_in tenant connection job ≡ true)

pub waiting-Waits :
    (tenant connection : ℕ) (s : Store)
    → IsValid s
    → All (Waits tenant connection s) (waiting tenant connection s)
waiting-Waits tenant connection s v =
    All-order_by_created (Waits tenant connection s) (select (queued_in tenant connection) s.jobs) (
      All-zip (λ job. find (is_row job.id) s.jobs ≡ some job)
        (λ job. queued_in tenant connection job ≡ true) (Waits tenant connection s)
        (λ job row waits. (row, waits)) (select (queued_in tenant connection) s.jobs)
        (All-select (λ job. find (is_row job.id) s.jobs ≡ some job) (queued_in tenant connection)
          s.jobs (Rising-find 0 s.next_id s.jobs v.rising))
        (select_holds (queued_in tenant connection) s.jobs))
