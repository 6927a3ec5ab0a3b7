-- ===== src/ProviderJobs/Step.antt =====
-- The queue as a whole: one call of any method at some time, and a history of calls.
use ap_hub.Prelude.{ℕ, String, Bool, Option, List, [], ◌∷◌}
use ap_hub.ProviderJobs.Row.{Store, Fields, Job}
use ap_hub.ProviderJobs.Lease.{EnqueueInput, LeaseInput, enqueue, lease_next}
use ap_hub.ProviderJobs.Outcome.{
  Outcome, done, unsafe_retry, ParentInput, mark_sent, complete, fail, hold,
  acknowledge_create_and_queue_read_back, complete_preflight, adopt_uncertain, retry,
}

pub data Call : Type 0 where
  enqueues : EnqueueInput → Call
  leases : String → LeaseInput → Call
  marks_sent : ℕ → ℕ → String → Call
  completes : ℕ → ℕ → String → Fields → Call
  fails : ℕ → ℕ → String → String → String → Bool → Call
  holds : ℕ → ℕ → String → String → String → Option Fields → Call
  acknowledges : ParentInput → String → String → Call
  preflights : ParentInput → Option (String × String) → Call
  adopts : ℕ → ℕ → String → String → Fields → Call
  retries : ℕ → ℕ → Call

-- A transaction that throws is rolled back.
abbrev pub committed : Store → Outcome (Store × Job) → Store
committed store (done (next, _)) = next
committed store (unsafe_retry _) = store

module _ (sha256 : String → String) (lease_seconds : ℕ) where
  unfoldable pub step : Store → ℕ × Call → Store
  step s (now, enqueues input) = (enqueue sha256 now input s).0
  step s (now, leases token input) = (lease_next sha256 now lease_seconds token input s).0
  step s (now, marks_sent tenant id token) = (mark_sent now tenant id token s).0
  step s (now, completes tenant id token response) = (complete now tenant id token response s).0
  step s (now, fails tenant id token code detail known) =
      (fail now tenant id token code detail known s).0
  step s (now, holds tenant id token code detail response) =
      (hold now tenant id token code detail response s).0
  step s (now, acknowledges input external_id revision) =
      committed s (acknowledge_create_and_queue_read_back sha256 now input external_id revision s)
  step s (now, preflights input existing) =
      committed s (complete_preflight sha256 now input existing s)
  step s (now, adopts tenant id external_id revision response) =
      (adopt_uncertain now tenant id external_id revision response s).0
  step s (now, retries tenant id) = (retry now tenant id s).0

  unfoldable pub run : Store → List (ℕ × Call) → Store
  run s [] = s
  run s (call ∷ calls) = run (step s call) calls
