-- ===== src/ProviderJobs/Tests.antt =====
-- Runs of the queue on a small table, at which the theorems about it apply.
use ap_hub.Prelude.{
  ℕ, suc, ◌≢◌, ◌≡◌, refl, String, true, List, [], ◌∷◌, none, some, arith, find, All, ◌⊎◌,
}
use ap_hub.ProviderJobs.Row.{
  Job, Store, Connection, end, post_bill, held, queued, leased, sent, succeeded,
}
use ap_hub.ProviderJobs.Key.{stable_provider_job_key}
use ap_hub.ProviderJobs.Table.{
  update_where, update_returning, insert_job, find_connection, insert_ordered, order_by_created,
}
use ap_hub.ProviderJobs.Lease.{
  EnqueueInput, LeaseInput, queue_probes, recover, lease_first, lease_connected, lease_next,
  is_uncertain, enqueue, uncertain_create, uncertain_outcome, expected_company,
}
use ap_hub.ProviderJobs.Step.{Call, leases, marks_sent, retries, step, run}
use ap_hub.ProviderJobs.Probes.{recover-Probed, Probed}
use ap_hub.ProviderJobs.Once.{report, completes, fails, enqueue_twice, report_twice}
use ap_hub.ProviderJobs.Rows.{is_row}
use ap_hub.ProviderJobs.Lifecycle.{Changes, IsValid}
use ap_hub.ProviderJobs.Trace.{run-IsValid, step-Changes}
use ap_hub.ProviderJobs.Replay.{uncertain_never_replayed}
use ap_hub.ProviderJobs.Identity.{lease_next-identity, Leased}
use ap_hub.ProviderJobs.Order.{Taken, lease_next-oldest}

abbrev hash : String → String
hash text = text

abbrev books : Connection
books = record {
  tenant_id = 1;
  id = 5;
  external_company = some "ACME";
  expected_company_id = none;
  status = "active";
}

abbrev held_job : Job
held_job = record {
  id = 1;
  tenant_id = 1;
  connection_id = 5;
  proposal_id = some 8;
  operation = post_bill;
  request_payload = end;
  response_payload = none;
  status = held;
  idempotency_key = "k1";
  lease_token = none;
  leased_at = some 100;
  lease_expires_at = none;
  attempts = 1;
  error_code = some uncertain_outcome;
  error_detail = none;
  created_at = 90;
  updated_at = 100;
}

abbrev queued_job : Job
queued_job = record held_job {
  id = 2;
  proposal_id = some 9;
  status = queued;
  idempotency_key = "k2";
  error_code = none;
  created_at = 95;
}

abbrev two_jobs : Store
two_jobs = record { jobs = held_job ∷ queued_job ∷ []; next_id = 3; connections = books ∷ [] }

two_jobs-IsValid : IsValid two_jobs
two_jobs-IsValid = record {
  rising = ground arith;
  termed = (refl, (refl, tt));
  exclusive = λ tenant connection. ground arith;
}

abbrev for_acme : LeaseInput
for_acme = record { tenant_id = 1; connection_id = 5; observed_company_id = "ACME" }

abbrev calls : List (ℕ × Call)
calls =
    (200, leases "t1" for_acme)
    ∷ (201, marks_sent 1 2 "t1")
    ∷ (202, leases "t2" for_acme)
    ∷ (203, retries 1 1)
    ∷ []

abbrev taken : Job
taken = record queued_job {
  status = leased;
  lease_token = some "t1";
  leased_at = some 200;
  lease_expires_at = some 500;
  attempts = 2;
  updated_at = 200;
}

leases_queued : (lease_next hash 200 300 "t1" for_acme two_jobs).1 ≡ some taken
unfolding lease_next lease_connected lease_first find_connection recover queue_probes insert_job
    update_where update_returning insert_ordered order_by_created stable_provider_job_key
leases_queued = refl

run-IsValid_example : IsValid (run hash 300 two_jobs calls)
run-IsValid_example = run-IsValid hash 300 calls two_jobs two_jobs-IsValid

uncertain_never_replayed_example :
    (after : Job) × (find (is_row 1) (run hash 300 two_jobs calls).jobs ≡ some after)
    × ((is_uncertain after ≡ true) ⊎ (after.status ≡ succeeded))
uncertain_never_replayed_example =
    uncertain_never_replayed hash 300 calls two_jobs held_job two_jobs-IsValid refl refl

step-Changes_example : Changes two_jobs (step hash 300 two_jobs (200, leases "t1" for_acme))
step-Changes_example = step-Changes hash 300 two_jobs (200, leases "t1" for_acme) two_jobs-IsValid

lease_next-identity_example :
    (conn : Connection) × (find_connection 1 5 two_jobs ≡ some conn)
    × ((conn.status ≡ "active")
        × (expected_company conn ≡ "ACME")
        × (expected_company conn ≢ "")
        × Leased 200 300 "t1" taken)
    × ((taken.tenant_id ≡ 1)
        × (taken.connection_id ≡ 5)
        × Taken 200 300 1 5 "t1" (recover hash 200 1 5 two_jobs) taken)
lease_next-identity_example =
    lease_next-identity hash 200 300 "t1" for_acme two_jobs taken two_jobs-IsValid leases_queued

lease_next-oldest_example : Taken 200 300 1 5 "t1" (recover hash 200 1 5 two_jobs) taken
lease_next-oldest_example =
    lease_next-oldest hash 200 300 "t1" for_acme two_jobs taken two_jobs-IsValid leases_queued

recover-Probed_example :
    All
      (λ job.
        uncertain_create 1 5 job ≡ true → Probed hash 200 1 5 (recover hash 200 1 5 two_jobs) job)
      (recover hash 200 1 5 two_jobs).jobs
recover-Probed_example = recover-Probed hash 200 1 5 two_jobs

abbrev bill : EnqueueInput
bill = record {
  tenant_id = 1;
  connection_id = 5;
  proposal_id = some 9;
  operation = post_bill;
  request_payload = end;
  source_key = "bill-9";
}

enqueue_twice_example :
    let t = (enqueue hash 200 bill two_jobs).0 in
    enqueue hash 300 bill t
    ≡ (record t { next_id = suc t.next_id }, (enqueue hash 200 bill two_jobs).1)
enqueue_twice_example = enqueue_twice hash 200 300 bill end two_jobs

abbrev two_reports : Store
two_reports = record two_jobs { jobs = held_job ∷ record taken { status = sent } ∷ [] }

report_twice_example :
    let t = (report 210 1 2 "t1" (fails "3100" "no vendor" true) two_reports).0 in
    report 220 1 2 "t1" (completes end) t ≡ (t, none)
report_twice_example =
    report_twice 210 220 1 2 "t1" (fails "3100" "no vendor" true) (completes end) two_reports
