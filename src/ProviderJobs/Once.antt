-- ===== src/ProviderJobs/Once.antt =====
-- Repeated calls: a second `enqueue` for a source, and a second report for a lease.
use ap_hub.Prelude.{
  find-last, ℕ, suc, ◌≡◌, refl, String, Bool, false, List, [], ◌∷◌, ◌++◌, Option, none, some, arith,
  find, Option-cases, inl, inr,
}
use ap_hub.ProviderJobs.Row.{Job, Store, Fields}
use ap_hub.ProviderJobs.Table.{
  Draft, update_where, update_returning, insert_job, conflicts, new_job,
}
use ap_hub.ProviderJobs.Lease.{EnqueueInput, enqueue, enqueue_draft}
use ap_hub.ProviderJobs.Outcome.{complete, fail, hold, sent_by}
use ap_hub.ProviderJobs.Rows.{conflicts-new_job}

insert_fresh :
    (now : ℕ) (draft : Draft) (s : Store)
    → find (conflicts draft) s.jobs ≡ none
    → insert_job now draft s ≡ (
      record s { jobs = s.jobs ++ new_job s.next_id now draft ∷ []; next_id = suc s.next_id },
      new_job s.next_id now draft,
    )
unfolding insert_job
insert_fresh now draft s e = rw (e, insert_job)

insert_found :
    (now : ℕ) (draft : Draft) (s : Store) (existing : Job)
    → find (conflicts draft) s.jobs ≡ some existing
    → insert_job now draft s ≡ (record s { next_id = suc s.next_id }, existing)
unfolding insert_job
insert_found now draft s existing e = rw (e, insert_job)

insert_job_again :
    (now later : ℕ) (draft : Draft) (payload : Fields) (s : Store)
    → let t = (insert_job now draft s).0 in
      insert_job later (record draft { request_payload = payload }) t
      ≡ (record t { next_id = suc t.next_id }, (insert_job now draft s).1)
insert_job_again now later draft payload s = elim (Option-cases (find (conflicts draft) s.jobs)) [
  | inl fresh ↦ rw (insert_fresh now draft s fresh) (
      insert_found later (record draft { request_payload = payload }) _ _
        (find-last (conflicts draft) s.jobs (new_job s.next_id now draft) fresh
          (conflicts-new_job s.next_id now draft)))
  | inr (existing, e) ↦
      rw (insert_found now draft s existing e)
        (insert_found later (record draft { request_payload = payload }) _ _ e)
]

-- A second `enqueue` for the same tenant, connection, proposal, operation and source, at any time
-- and with any payload, returns the job of the first and adds no row; it only draws an id.
pub enqueue_twice :
    (sha256 : String → String) (now later : ℕ) (input : EnqueueInput) (payload : Fields) (s : Store)
    → let t = (enqueue sha256 now input s).0 in
      enqueue sha256 later (record input { request_payload = payload }) t
      ≡ (record t { next_id = suc t.next_id }, (enqueue sha256 now input s).1)
unfolding enqueue
enqueue_twice sha256 now later input payload s =
    insert_job_again now later (enqueue_draft sha256 input) payload s

-- The three reports on a sent job.
pub data Report : Type 0 where
  completes : Fields → Report
  fails : String → String → Bool → Report
  holds : String → String → Option Fields → Report

unfoldable pub report : ℕ → ℕ → ℕ → String → Report → Store → Store × Option Job
report now tenant id token (completes response) s = complete now tenant id token response s
report now tenant id token (fails code detail known) s =
    fail now tenant id token code detail known s
report now tenant id token (holds code detail response) s =
    hold now tenant id token code detail response s

update_where-none :
    (test : Job → Bool) (first second : Job → Job) (jobs : List Job)
    → ((job : Job) → test (first job) ≡ false)
    → (update_where test second (update_where test first jobs) ≡ update_where test first jobs)
      × (find test (update_where test first jobs) ≡ none)
unfolding update_where
update_where-none test first second [] never = (refl, refl)
update_where-none test first second (job ∷ jobs) never =
    let rest = update_where-none test first second jobs never in
    ground (arith, never job, rest.0, rest.1)

update_returning_twice :
    (test : Job → Bool) (first second : Job → Job) (s : Store)
    → ((job : Job) → test (first job) ≡ false)
    → update_returning test second ((update_returning test first s).0)
      ≡ ((update_returning test first s).0, none)
unfolding update_returning
update_returning_twice test first second s never =
    let (rows, missing) = update_where-none test first second s.jobs never in
    rw (rows, missing) refl

nothing_to_report :
    (later tenant id : ℕ) (token : String) (second : Report) (t : Store)
    → ((change : Job → Job) → update_returning (sent_by tenant id token) change t ≡ (t, none))
    → report later tenant id token second t ≡ (t, none)
unfolding report complete fail hold
nothing_to_report later tenant id token (completes response) t none_left = none_left _
nothing_to_report later tenant id token (fails code detail known) t none_left = none_left _
nothing_to_report later tenant id token (holds code detail response) t none_left = none_left _

-- A lease is reported on at most once: after `complete`, `fail` or `hold` for a job and a token,
-- each of the three with the same job and token changes nothing and returns null.
pub report_twice :
    (now later tenant id : ℕ) (token : String) (first second : Report) (s : Store)
    → let t = (report now tenant id token first s).0 in
      report later tenant id token second t ≡ (t, none)
unfolding report complete fail hold
report_twice now later tenant id token (completes response) second s =
    nothing_to_report later tenant id token second _
      λ change. update_returning_twice _ _ change s (λ job. ground arith)
report_twice now later tenant id token (fails code detail known) second s =
    nothing_to_report later tenant id token second _
      λ change. update_returning_twice _ _ change s (λ job. ground arith)
report_twice now later tenant id token (holds code detail response) second s =
    nothing_to_report later tenant id token second _
      λ change. update_returning_twice _ _ change s (λ job. ground arith)
