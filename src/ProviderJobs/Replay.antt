-- ===== src/ProviderJobs/Replay.antt =====
-- What becomes of a job whose provider outcome is unknown.
use ap_hub.Prelude.{
  ℕ, ◌≡◌, refl, sym, ap, ◌∙◌, subst, Bool, true, false, ◌||◌, String, List, [], ◌∷◌, some, arith,
  find, find-append, test-find, Option-cases, Bool-cases, inl, inr, if◌then◌else◌, ◌⊎◌, ==_iff,
}
use ap_hub.ProviderJobs.Row.{Job, Store, is_succeeded, succeeded}
use ap_hub.ProviderJobs.Table.{Draft, update_where, insert_job, conflicts}
use ap_hub.ProviderJobs.Lease.{is_uncertain, take_lease}
use ap_hub.ProviderJobs.Step.{Call, step, run}
use ap_hub.ProviderJobs.Rows.{is_row, find-update_where}
use ap_hub.ProviderJobs.Lifecycle.{
  Moves, Change, update, insert, lease, Changes, here, next, IsValid,
}
use ap_hub.ProviderJobs.Trace.{step-Changes, step-IsValid}

-- Held for an unknown outcome, or settled by a success.
abbrev pub is_settled : Job → Bool
is_settled job = is_uncertain job || is_succeeded job.status

-- The row with this id is there, and settled.
abbrev pub Settled : ℕ → Store → Type 0
Settled id s = (job : Job) × (find (is_row id) s.jobs ≡ some job) × (is_settled job ≡ true)

insert-Settled :
    (id now : ℕ) (draft : Draft) (s : Store)
    → Settled id s
    → Settled id ((insert_job now draft s).0)
unfolding insert_job
insert-Settled id now draft s (job, row, h) = elim (Option-cases (find (conflicts draft) s.jobs)) [
  | inl fresh ↦ rw (fresh, insert_job) (job, find-append (is_row id) s.jobs _ job row, h)
  | inr (existing, e) ↦ rw (e, insert_job) (job, row, h)
]

update-Settled :
    (id : ℕ) (test : Job → Bool) (change : Job → Job) (s : Store)
    → ((job : Job) → (change job).id ≡ job.id)
    → ((job : Job) → test job ≡ true → Moves job (change job))
    → Settled id s
    → Settled id (record s { jobs = update_where test change s.jobs })
update-Settled id test change s same moves (job, row, h) = (
  (if test job then change job else job),
  find-update_where id test change same s.jobs job row,
  ground (arith, moves job),
)

lease-Settled :
    (id now lease_seconds : ℕ) (token : String) (candidate : Job) (s : Store)
    → find (is_row candidate.id) s.jobs ≡ some candidate
    → is_settled candidate ≡ false
    → Settled id s
    → Settled id (record s {
      jobs = update_where (is_row candidate.id) (take_lease now lease_seconds token) s.jobs;
    })
lease-Settled id now lease_seconds token candidate s found waits (job, row, h) =
    elim (Bool-cases (is_row candidate.id job)) [
      | inl same ↦ absurd (clash same)
      | inr other ↦ (job, stays other, h)
    ]
  where
    take : Job → Job
    take = take_lease now lease_seconds token

    stays :
        is_row candidate.id job ≡ false
        → find (is_row id) (update_where (is_row candidate.id) take s.jobs) ≡ some job
    stays other =
        find-update_where id (is_row candidate.id) take (λ _. refl) s.jobs job row
        ∙ ap (λ (b : Bool). some (if b then take job else job)) other

    clash : is_row candidate.id job ≡ true → ⊥
    clash same =
        let own : job.id ≡ id = (==_iff job.id id).0 (test-find (is_row id) s.jobs job row) in
        let other : job.id ≡ candidate.id = (==_iff job.id candidate.id).0 same in
        let row' : find (is_row candidate.id) s.jobs ≡ some job =
          subst (λ i. find (is_row i) s.jobs ≡ some job) (sym own ∙ other) row in
        let equal : job ≡ candidate = cc (row', found) in cc (ap is_settled equal, h, waits)

pub Change-Settled : (id : ℕ) {s t : Store} → Change s t → Settled id s → Settled id t
Change-Settled id {s} (update test change same moves) h =
    update-Settled id test change s same moves h
Change-Settled id {s} (insert now draft) h = insert-Settled id now draft s h
Change-Settled id {s} (lease now seconds token candidate found waits idle) h =
    lease-Settled id now seconds token candidate s found (ground arith) h

pub Changes-Settled : (id : ℕ) {s t : Store} → Changes s t → Settled id s → Settled id t
Changes-Settled id here h = h
Changes-Settled id (next first last) h = Change-Settled id last (Changes-Settled id first h)

module _ (sha256 : String → String) (lease_seconds : ℕ) where
  run-Settled :
      (calls : List (ℕ × Call)) (id : ℕ) (s : Store)
      → IsValid s
      → Settled id s
      → Settled id (run sha256 lease_seconds s calls)
  unfolding run
  run-Settled [] id s v h = h
  run-Settled (call ∷ calls) id s v h =
      run-Settled calls id (step sha256 lease_seconds s call)
        (step-IsValid sha256 lease_seconds s call v)
        (Changes-Settled id (step-Changes sha256 lease_seconds s call v) h)

  -- In a valid table, a job that is held with the code UNCERTAIN_OUTCOME is, after any calls at any
  -- times, still there under its id, and either still held with that code or succeeded: it is never
  -- queued, leased, sent or failed again.
  pub uncertain_never_replayed :
      (calls : List (ℕ × Call)) (s : Store) (job : Job)
      → IsValid s
      → find (is_row job.id) s.jobs ≡ some job
      → is_uncertain job ≡ true
      → (after : Job) × (find (is_row job.id) (run sha256 lease_seconds s calls).jobs ≡ some after)
        × ((is_uncertain after ≡ true) ⊎ (after.status ≡ succeeded))
  uncertain_never_replayed calls s job v row h =
      let (after, found, settled) = run-Settled calls job.id s v (job, row, ground arith) in
      (after, found, ground arith)
