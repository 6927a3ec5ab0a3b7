-- ===== src/ProviderJobs/Order.antt =====
-- The order in which the queue of a connection is served.
use ap_hub.Prelude.{
  ℕ, ◌≡◌, refl, subst, String, true, false, List, [], ◌∷◌, none, some, arith, All, select, Memᴰ,
  mem-select, find-mem, Bool-cases, Option-cases, inl, inr,
}
use ap_hub.ProviderJobs.Row.{Job, Store, Connection}
use ap_hub.ProviderJobs.Table.{
  is_before, insert_ordered, order_by_created, update_returning, find_connection,
}
use ap_hub.ProviderJobs.Lease.{
  LeaseInput, lease_next, lease_connected, lease_first, take_lease, recover, queued_in,
}
use ap_hub.ProviderJobs.Rows.{is_row}
use ap_hub.ProviderJobs.Lifecycle.{IsValid, Changes-IsValid}
use ap_hub.ProviderJobs.Recovery.{Waits, waiting-Waits, recover-Changes}

is_before_refl : (a : Job) → is_before a a ≡ true
is_before_refl a = ground arith

is_before_total : (a b : Job) → is_before a b ≡ false → is_before b a ≡ true
is_before_total a b h = ground arith

is_before_trans : (a b c : Job) → is_before a b ≡ true → is_before b c ≡ true → is_before a c ≡ true
is_before_trans a b c p q = ground arith

All-is_before :
    (a b : Job) (jobs : List Job)
    → is_before a b ≡ true
    → All (λ c. is_before b c ≡ true) jobs
    → All (λ c. is_before a c ≡ true) jobs
All-is_before a b [] p h = tt
All-is_before a b (c ∷ jobs) p h = (is_before_trans a b c p h.0, All-is_before a b jobs p h.1)

insert_ordered-ne-nil : (job : Job) (jobs : List Job) → insert_ordered job jobs ≡ [] → ⊥
unfolding insert_ordered
insert_ordered-ne-nil job [] e = cc
insert_ordered-ne-nil job (first ∷ rest) e = ground arith

order_by_created-nil : (jobs : List Job) → order_by_created jobs ≡ [] → jobs ≡ []
unfolding order_by_created
order_by_created-nil [] e = refl
order_by_created-nil (job ∷ jobs) e = absurd (insert_ordered-ne-nil job (order_by_created jobs) e)

insert_ordered-first :
    (job : Job) (ordered jobs : List Job) (first : Job) (rest : List Job)
    → insert_ordered job ordered ≡ first ∷ rest
    → ((y : Job) (ys : List Job) → ordered ≡ y ∷ ys → All (λ k. is_before y k ≡ true) jobs)
    → (ordered ≡ [] → jobs ≡ [])
    → All (λ k. is_before first k ≡ true) (job ∷ jobs)
unfolding insert_ordered
insert_ordered-first job [] jobs first rest e below empty =
    let same : job ≡ first = ground arith in rw (empty refl, ← same) (is_before_refl job, tt)
insert_ordered-first job (y ∷ ys) jobs first rest e below empty =
    elim (Bool-cases (is_before job y)) [
      | inl before ↦
          let same : job ≡ first = ground arith in
          subst least same (is_before_refl job, All-is_before job y jobs before (below y ys refl))
      | inr after ↦
          let same : y ≡ first = ground arith in
          subst least same (is_before_total job y after, below y ys refl)
    ]
  where
    least : Job → Type 0
    least k = All (λ c. is_before k c ≡ true) (job ∷ jobs)

-- The first of the ordered rows is before every row.
pub order_by_created-first :
    (jobs : List Job) (first : Job) (rest : List Job)
    → order_by_created jobs ≡ first ∷ rest
    → All (λ job. is_before first job ≡ true) jobs
unfolding order_by_created
order_by_created-first [] first rest e = tt
order_by_created-first (job ∷ jobs) first rest e =
    insert_ordered-first job (order_by_created jobs) jobs first rest e (order_by_created-first jobs)
      (order_by_created-nil jobs)

-- What a leased job was: a queued row of the connection, which was there after the recovery and is
-- no younger than any other, and to which the lease, and nothing else, was added.
pub record Taken (now lease_seconds tenant connection : ℕ) (token : String) (s : Store) (job : Job)
    : Type 0 where
  pub candidate : Job
  pub stored : Memᴰ candidate (select (queued_in tenant connection) s.jobs)
  pub waits : queued_in tenant connection candidate ≡ true
  pub same : job ≡ take_lease now lease_seconds token candidate
  pub oldest :
      All (λ other. is_before candidate other ≡ true) (select (queued_in tenant connection) s.jobs)

module _ (now lease_seconds tenant connection : ℕ) (token : String) where
  lease_first-Taken :
      (jobs : List Job) (s : Store) (job : Job)
      → order_by_created (select (queued_in tenant connection) s.jobs) ≡ jobs
      → All (Waits tenant connection s) jobs
      → (lease_first now lease_seconds token jobs s).1 ≡ some job
      → Taken now lease_seconds tenant connection token s job
  unfolding lease_first update_returning
  lease_first-Taken [] s job e waits leased = cc
  lease_first-Taken (candidate ∷ rest) s job e waits leased =
      let taken : some (take_lease now lease_seconds token candidate) ≡ some job =
        rw ((waits.0).0) at leased in
      record {
        candidate = candidate;
        stored =
            mem-select (queued_in tenant connection) s.jobs
              (find-mem (is_row candidate.id) s.jobs ((waits.0).0)) ((waits.0).1);
        waits = (waits.0).1;
        same = cc;
        oldest =
            order_by_created-first (select (queued_in tenant connection) s.jobs) candidate rest e;
      }

pub lease_connected-Taken :
    (sha256 : String → String) (now lease_seconds : ℕ) (token : String) (input : LeaseInput)
    (conn : Connection) (s : Store) (job : Job)
    → IsValid s
    → (lease_connected sha256 now lease_seconds token input conn s).1 ≡ some job
    → Taken now lease_seconds input.tenant_id input.connection_id token
        (recover sha256 now input.tenant_id input.connection_id s)
        job
lease_connected-Taken sha256 now lease_seconds token input conn s job v returned =
    let tenant = input.tenant_id in
    let connection = input.connection_id in
    let ready = recover sha256 now tenant connection s in
    lease_first-Taken now lease_seconds tenant connection token _ ready job refl
      (waiting-Waits tenant connection ready
        (Changes-IsValid (recover-Changes sha256 now tenant connection s) v))
      (unfold lease_connected in ground arith)

-- From a valid table: the job that `leaseNext` returns is a row of the connection that recovery left
-- queued, with the lease added, and of these rows it is the oldest, by creation time, then id.
pub lease_next-oldest :
    (sha256 : String → String) (now lease_seconds : ℕ) (token : String) (input : LeaseInput)
    (s : Store) (job : Job)
    → IsValid s
    → (lease_next sha256 now lease_seconds token input s).1 ≡ some job
    → Taken now lease_seconds input.tenant_id input.connection_id token
        (recover sha256 now input.tenant_id input.connection_id s)
        job
unfolding lease_next
lease_next-oldest sha256 now lease_seconds token input s job v e =
    elim (Option-cases (find_connection input.tenant_id input.connection_id s)) [
      | inl missing ↦ let nothing : none ≡ some job = rw (missing, lease_next) at e in cc
      | inr (conn, known) ↦
          lease_connected-Taken sha256 now lease_seconds token input conn s job v
            (rw (known, lease_next) at e)
    ]
