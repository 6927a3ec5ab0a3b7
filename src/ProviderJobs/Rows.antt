-- ===== src/ProviderJobs/Rows.antt =====
-- Lemmas on the statements: what an UPDATE, a SELECT and an ORDER BY leave true of the rows.
use ap_hub.Prelude.{
  ℕ, suc, ◌≤◌, ◌≡◌, refl, Bool, true, false, List, [], ◌∷◌, ◌++◌, some, map, arith, All, All-zip,
  find, ◌==◌, if◌then◌else◌, str_eq_iff, Bool-cases, inl, inr,
}
use ap_hub.ProviderJobs.Row.{Job}
use ap_hub.ProviderJobs.Table.{
  Draft, conflicts, new_job, update_where, insert_ordered, order_by_created, is_before,
}

abbrev pub ids : List Job → List ℕ
ids = map (λ job. job.id)

-- Ids rise along the rows and lie between two bounds.
abbrev pub Rising : ℕ → ℕ → List ℕ → Type 0
Rising lo hi [] = lo ≤ hi
Rising lo hi (i ∷ is) = (lo ≤ i) × Rising (suc i) hi is

pub Rising-suc : (lo hi : ℕ) (is : List ℕ) → Rising lo hi is → Rising lo (suc hi) is
Rising-suc lo hi [] r = omega arith
Rising-suc lo hi (i ∷ is) r = (r.0, Rising-suc (suc i) hi is r.1)

pub Rising-snoc :
    (lo hi : ℕ) (jobs : List Job) (job : Job)
    → job.id ≡ hi
    → Rising lo hi (ids jobs)
    → Rising lo (suc hi) (ids (jobs ++ job ∷ []))
Rising-snoc lo hi [] job e r = (omega arith, omega arith)
Rising-snoc lo hi (first ∷ jobs) job e r = (r.0, Rising-snoc (suc first.id) hi jobs job e r.1)

pub Rising-above :
    (lo hi : ℕ) (jobs : List Job) → Rising lo hi (ids jobs) → All (λ job. lo ≤ job.id) jobs
Rising-above lo hi [] r = tt
Rising-above lo hi (job ∷ jobs) r = (r.0, weaken jobs (Rising-above (suc job.id) hi jobs r.1))
  where
    weaken : (js : List Job) → All (λ j. suc job.id ≤ j.id) js → All (λ j. lo ≤ j.id) js
    weaken [] a = tt
    weaken (j ∷ js) a = (omega (arith, r.0, a.0), weaken js a.1)

pub ids-update_where :
    (test : Job → Bool) (change : Job → Job)
    → ((job : Job) → (change job).id ≡ job.id)
    → (jobs : List Job) → ids (update_where test change jobs) ≡ ids jobs
unfolding update_where
ids-update_where test change same [] = refl
ids-update_where test change same (job ∷ jobs) =
    ground (arith, same job, ids-update_where test change same jobs)

pub All-insert_ordered {κ} :
    (P : Job → Type κ) (job : Job) (jobs : List Job)
    → P job
    → All P jobs
    → All P (insert_ordered job jobs)
unfolding insert_ordered
All-insert_ordered P job [] h a = (h, tt)
All-insert_ordered P job (first ∷ rest) h a = elim (Bool-cases (is_before job first)) [
  | inl t ↦ rw t (h, a)
  | inr f ↦ rw f (a.0, All-insert_ordered P job rest h a.1)
]

pub All-order_by_created {κ} :
    (P : Job → Type κ) (jobs : List Job) → All P jobs → All P (order_by_created jobs)
unfolding order_by_created
All-order_by_created P [] a = tt
All-order_by_created P (job ∷ jobs) a =
    All-insert_ordered P job (order_by_created jobs) a.0 (All-order_by_created P jobs a.1)

-- Every row is the one that its id finds.
abbrev pub is_row : ℕ → Job → Bool
is_row id job = job.id == id

pub Rising-find :
    (lo hi : ℕ) (jobs : List Job)
    → Rising lo hi (ids jobs)
    → All (λ job. find (is_row job.id) jobs ≡ some job) jobs
Rising-find lo hi [] r = tt
Rising-find lo hi (job ∷ jobs) r = (
  ground arith,
  All-zip (λ j. suc job.id ≤ j.id) (λ j. find (is_row j.id) jobs ≡ some j)
      (λ j. find (is_row j.id) (job ∷ jobs) ≡ some j) (λ j above found. ground arith) jobs
      (Rising-above (suc job.id) hi jobs r.1) (Rising-find (suc job.id) hi jobs r.1),
)

pub find-update_where :
    (id : ℕ) (test : Job → Bool) (change : Job → Job)
    → ((job : Job) → (change job).id ≡ job.id)
    → (jobs : List Job) (job : Job) → find (is_row id) jobs ≡ some job
    → find (is_row id) (update_where test change jobs) ≡ some (if test job then change job else job)
unfolding update_where
find-update_where id test change same [] job e = cc
find-update_where id test change same (first ∷ jobs) job e =
    ground (arith, same first, find-update_where id test change same jobs job)

-- What holds of every row after an UPDATE, from what the updated and the other rows give.
pub All-update_where :
    (R P : Job → Type 0) (test : Job → Bool) (change : Job → Job) (jobs : List Job)
    → ((job : Job) → R job → test job ≡ true → P (change job))
    → ((job : Job) → R job → test job ≡ false → P job)
    → All R jobs
    → All P (update_where test change jobs)
unfolding update_where
All-update_where R P test change [] hit miss a = tt
All-update_where R P test change (job ∷ jobs) hit miss a = elim (Bool-cases (test job)) [
  | inl t ↦ rw t (hit job a.0 t, All-update_where R P test change jobs hit miss a.1)
  | inr f ↦ rw f (miss job a.0 f, All-update_where R P test change jobs hit miss a.1)
]

-- A new row has the coordinates of its draft.
pub conflicts-new_job : (id now : ℕ) (draft : Draft) → conflicts draft (new_job id now draft) ≡ true
conflicts-new_job id now draft =
    ground (arith, str_eq_iff draft.idempotency_key draft.idempotency_key)
