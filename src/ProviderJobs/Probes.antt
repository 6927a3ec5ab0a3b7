-- ===== src/ProviderJobs/Probes.antt =====
-- The duplicate probes that recovery queues.
use ap_hub.Prelude.{
  any-of-find, ℕ, ◌≡◌, refl, String, Bool, true, List, [], ◌∷◌, ◌++◌, arith, All, Bool-cases, inl,
  inr, Option-cases, any, find, select,
}
use ap_hub.ProviderJobs.Row.{Job, Store}
use ap_hub.ProviderJobs.Table.{
  Draft, update_where, insert_job, conflicts, insert_ordered, order_by_created, is_before,
}
use ap_hub.ProviderJobs.Lease.{
  probe_draft, queue_probes, recover, uncertain_create, sent_expired, lease_expired,
  hold_expired_sent, requeue_expired,
}
use ap_hub.ProviderJobs.Rows.{All-update_where, conflicts-new_job}
use ap_hub.ProviderJobs.Recovery.{All-queue_probes}

-- A job with the coordinates of the draft is in the table.
abbrev Present : Draft → List Job → Type 0
Present draft jobs = any (conflicts draft) jobs ≡ true

any-append : (p : Job → Bool) (xs ys : List Job) → any p xs ≡ true → any p (xs ++ ys) ≡ true
any-append p [] ys h = cc
any-append p (x ∷ xs) ys h = ground (arith, any-append p xs ys)

any-last : (p : Job → Bool) (xs : List Job) (x : Job) → p x ≡ true → any p (xs ++ x ∷ []) ≡ true
any-last p [] x h = ground arith
any-last p (y ∷ xs) x h = ground (arith, any-last p xs x h)

any-update_where :
    (p test : Job → Bool) (change : Job → Job) (jobs : List Job)
    → ((job : Job) → p (change job) ≡ p job)
    → any p jobs ≡ true
    → any p (update_where test change jobs) ≡ true
unfolding update_where
any-update_where p test change [] same h = cc
any-update_where p test change (job ∷ jobs) same h =
    ground (arith, same job, any-update_where p test change jobs same)

insert-Present :
    (now : ℕ) (draft other : Draft) (s : Store)
    → Present other s.jobs
    → Present other ((insert_job now draft s).0).jobs
unfolding insert_job
insert-Present now draft other s h = elim (Option-cases (find (conflicts draft) s.jobs)) [
  | inl fresh ↦ rw (fresh, insert_job) (any-append (conflicts other) s.jobs _ h)
  | inr (existing, e) ↦ rw (e, insert_job) h
]

inserted-Present :
    (now : ℕ) (draft : Draft) (s : Store) → Present draft ((insert_job now draft s).0).jobs
unfolding insert_job
inserted-Present now draft s = elim (Option-cases (find (conflicts draft) s.jobs)) [
  | inl fresh ↦
      rw (fresh, insert_job)
        (any-last (conflicts draft) s.jobs _ (conflicts-new_job s.next_id now draft))
  | inr (existing, e) ↦ rw (e, insert_job) (any-of-find (conflicts draft) s.jobs existing e)
]

All-of-insert_ordered :
    (P : Job → Type 0) (job : Job) (jobs : List Job)
    → All P (insert_ordered job jobs)
    → P job × All P jobs
unfolding insert_ordered
All-of-insert_ordered P job [] a = a
All-of-insert_ordered P job (first ∷ rest) a = elim (Bool-cases (is_before job first)) [
  | inl t ↦ let b : All P (job ∷ first ∷ rest) = rw t at a in b
  | inr f ↦
      let b : All P (first ∷ insert_ordered job rest) = rw f at a in
      let (own, others) = All-of-insert_ordered P job rest b.1 in (own, (b.0, others))
]

All-of-order_by_created :
    (P : Job → Type 0) (jobs : List Job) → All P (order_by_created jobs) → All P jobs
unfolding order_by_created
All-of-order_by_created P [] a = tt
All-of-order_by_created P (job ∷ jobs) a =
    let (own, others) = All-of-insert_ordered P job (order_by_created jobs) a in
    (own, All-of-order_by_created P jobs others)

All-of-select :
    (P : Job → Type 0) (test : Job → Bool) (jobs : List Job)
    → All P (select test jobs)
    → All (λ job. test job ≡ true → P job) jobs
All-of-select P test [] a = tt
All-of-select P test (job ∷ jobs) a = elim (Bool-cases (test job)) [
  | inl t ↦
      let b : All P (job ∷ select test jobs) = rw t at a in
      ((λ _. b.0), All-of-select P test jobs b.1)
  | inr f ↦ let b : All P (select test jobs) = rw f at a in ((λ t. cc), All-of-select P test jobs b)
]

module _ (sha256 : String → String) (now tenant connection : ℕ) where
  abbrev pub Probed : Store → Job → Type 0
  Probed s job = Present (probe_draft sha256 tenant connection job) s.jobs

  queue_probes-keeps :
      (parents : List Job) (s : Store) (draft : Draft)
      → Present draft s.jobs
      → Present draft (queue_probes sha256 now tenant connection parents s).jobs
  unfolding queue_probes
  queue_probes-keeps [] s draft h = h
  queue_probes-keeps (parent ∷ parents) s draft h =
      queue_probes-keeps parents _ draft (insert-Present now _ draft s h)

  queue_probes-Probed :
      (parents : List Job) (s : Store)
      → All (Probed (queue_probes sha256 now tenant connection parents s)) parents
  unfolding queue_probes
  queue_probes-Probed [] s = tt
  queue_probes-Probed (parent ∷ parents) s = (
    queue_probes-keeps parents _ (probe_draft sha256 tenant connection parent)
        (inserted-Present now (probe_draft sha256 tenant connection parent) s),
    queue_probes-Probed parents _,
  )

  -- After `recover`, every held create of the connection with the code UNCERTAIN_OUTCOME has a job
  -- with the coordinates of its duplicate probe: tenant, connection, read_back, and the probe's key.
  pub recover-Probed :
      (s : Store)
      → All
          (λ job.
            uncertain_create tenant connection job ≡ true
            → Probed (recover sha256 now tenant connection s) job)
          (recover sha256 now tenant connection s).jobs
  unfolding recover
  recover-Probed s =
      All-update_where (Waiting probed) (Waiting (recover sha256 now tenant connection s))
        (lease_expired now tenant connection) (requeue_expired now) probed.jobs
        (λ job _ _ u. absurd (ground arith))
        (λ job h _ u.
          any-update_where (conflicts (probe_draft sha256 tenant connection job)) _ _ probed.jobs
            (λ _. refl) (h u))
        (All-queue_probes (Waiting probed) sha256 now tenant connection
          (λ id draft u. absurd (ground arith)) parents swept
          (All-of-select (Probed probed) (uncertain_create tenant connection) swept.jobs
            (All-of-order_by_created (Probed probed) _ (queue_probes-Probed parents swept))))
    where
      swept : Store
      swept = record s {
        jobs = update_where (sent_expired now tenant connection) (hold_expired_sent now) s.jobs;
      }

      parents : List Job
      parents = order_by_created (select (uncertain_create tenant connection) swept.jobs)

      probed : Store
      probed = queue_probes sha256 now tenant connection parents swept

      Waiting : Store → Job → Type 0
      Waiting t job = uncertain_create tenant connection job ≡ true → Probed t job
