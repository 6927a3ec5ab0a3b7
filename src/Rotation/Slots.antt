-- ===== src/Rotation/Slots.antt =====
-- The retention policy stated on its own, and what the loop over the buckets makes of it: which
-- slot a backup competes for, and that the newest of each slot is in its bucket.
use ap_hub.Prelude.{
  ℕ, ◌-◌, ◌/◌, ◌≤◌, ◌≡◌, sym, ap, subst, ◌∙◌, ◌≢◌, ◌⊎◌, [], ◌∷◌, Option, none, some, arith,
  Option-cases, Bool-cases, inl, inr, ltb, ltb→lt, if◌then◌else◌, ℕ_discrete,
}
use native.Mathlib.Nat.{le_trans}
use ap_hub.Rotation.Select.{
  BackupRow, Bucket, Buckets, days_ago, is_pre_update, bucket_get, bucket_set, keep_newest, place,
}

pub data Tier : Type 0 where
  daily weekly monthly : Tier

-- 7 slots of a day, then 4 of a week, then 3 of 30 days, by the age in whole days.
abbrev pub age_slot : ℕ → Option (Tier × ℕ)
age_slot age =
    if ltb age 7
    then some (daily, age)
    else if ltb age 35
    then some (weekly, (age - 7) / 7)
    else if ltb age 125
    then some (monthly, (age - 35) / 30)
    else none

abbrev pub slot : ℕ → BackupRow → Option (Tier × ℕ)
slot now row = if is_pre_update row.kind then none else age_slot (days_ago now row.created_at)

abbrev pub bucket_of : Tier → Buckets → Bucket
bucket_of daily b = b.daily
bucket_of weekly b = b.weekly
bucket_of monthly b = b.monthly

abbrev pub set_bucket : Tier → Bucket → Buckets → Buckets
set_bucket daily bucket b = record b { daily = bucket }
set_bucket weekly bucket b = record b { weekly = bucket }
set_bucket monthly bucket b = record b { monthly = bucket }

abbrev pub offer : Option (Tier × ℕ) → BackupRow → Buckets → Buckets
offer none row b = b
offer (some (t, i)) row b = set_bucket t (keep_newest (bucket_of t b) i row) b

-- The ladder of the loop is the offer of the row to its slot.
pub place-offer :
    (now : ℕ) (row : BackupRow) (b : Buckets) → place now row b ≡ offer (slot now row) row b
unfolding place
place-offer now row b = ground arith

get-set_self :
    (i : ℕ) (row : BackupRow) (bucket : Bucket) → bucket_get i (bucket_set i row bucket) ≡ some row
unfolding bucket_get bucket_set
get-set_self i row [] = ground arith
get-set_self i row ((j, old) ∷ rest) = ground (arith, get-set_self i row rest)

get-set_ne :
    (i j : ℕ) (row : BackupRow) (bucket : Bucket)
    → i ≢ j
    → bucket_get j (bucket_set i row bucket) ≡ bucket_get j bucket
unfolding bucket_get bucket_set
get-set_ne i j row [] h = ground arith
get-set_ne i j row ((k, old) ∷ rest) h = ground (arith, get-set_ne i j row rest h)

-- A row in the bucket at the index, at least as new as the given time.
abbrev pub Covers : Bucket → ℕ → ℕ → Type 0
Covers bucket index created =
    (kept : BackupRow) × (bucket_get index bucket ≡ some kept) × (created ≤ kept.created_at)

pub keep_newest-own :
    (bucket : Bucket) (i : ℕ) (row : BackupRow) → Covers (keep_newest bucket i row) i row.created_at
unfolding keep_newest
keep_newest-own bucket i row = elim (Option-cases (bucket_get i bucket)) [
  | inl missing ↦ rw (missing, keep_newest) (row, get-set_self i row bucket, omega arith)
  | inr (old, e) ↦
      rw (e, keep_newest)
        (elim (Bool-cases (ltb old.created_at row.created_at)) [
          | inl newer ↦ rw newer (row, get-set_self i row bucket, omega arith)
          | inr older ↦ rw older (old, e, ground arith)
        ])
]

pub keep_newest-Covers :
    (bucket : Bucket) (i j created : ℕ) (row : BackupRow)
    → Covers bucket j created
    → Covers (keep_newest bucket i row) j created
unfolding keep_newest
keep_newest-Covers bucket i j created row (kept, found, le) =
    elim (Option-cases (bucket_get i bucket)) [
      | inl missing ↦ rw (missing, keep_newest) (set_Covers (λ old e. absurd (cc (e, missing))))
      | inr (old, e) ↦
          rw (e, keep_newest)
            (elim (Bool-cases (ltb old.created_at row.created_at)) [
              | inl newer ↦ rw newer (
                  set_Covers (λ other own.
                    let same : other ≡ old = cc (own, e) in
                    omega (
                      arith,
                      ltb→lt old.created_at row.created_at newer,
                      ap (λ (r : BackupRow). r.created_at) same,
                    )))
              | inr older ↦ rw older (kept, found, le)
            ])
    ]
  where
    set_Covers :
        ((other : BackupRow) → bucket_get i bucket ≡ some other → other.created_at ≤ row.created_at)
        → Covers (bucket_set i row bucket) j created
    set_Covers newer = elim (ℕ_discrete i j) [
      | yes same ↦ (
        row,
        subst (λ k. bucket_get k (bucket_set i row bucket) ≡ some row) same
            (get-set_self i row bucket),
        le_trans le (newer kept (subst (λ k. bucket_get k bucket ≡ some kept) (sym same) found)),
      )
      | no other ↦ (kept, get-set_ne i j row bucket other ∙ found, le)
    ]

pub keep_newest-get :
    (bucket : Bucket) (i j : ℕ) (row kept : BackupRow)
    → bucket_get j (keep_newest bucket i row) ≡ some kept
    → ((row ≡ kept) × (i ≡ j)) ⊎ (bucket_get j bucket ≡ some kept)
unfolding keep_newest
keep_newest-get bucket i j row kept e = elim (Option-cases (bucket_get i bucket)) [
  | inl missing ↦ of_set (rw (missing, keep_newest) at e)
  | inr (old, found) ↦ of_if old (rw (found, keep_newest) at e)
]
  where
    of_set :
        bucket_get j (bucket_set i row bucket) ≡ some kept
        → ((row ≡ kept) × (i ≡ j)) ⊎ (bucket_get j bucket ≡ some kept)
    of_set e' = elim (ℕ_discrete i j) [
      | yes same ↦
          let found : bucket_get i (bucket_set i row bucket) ≡ some kept =
            subst (λ k. bucket_get k (bucket_set i row bucket) ≡ some kept) (sym same) e' in
          inl (cc (found, get-set_self i row bucket), same)
      | no other ↦ inr (sym (get-set_ne i j row bucket other) ∙ e')
    ]

    of_if :
        (old : BackupRow)
        → bucket_get j
            (if ltb old.created_at row.created_at then bucket_set i row bucket else bucket)
          ≡ some kept
        → ((row ≡ kept) × (i ≡ j)) ⊎ (bucket_get j bucket ≡ some kept)
    of_if old e' = elim (Bool-cases (ltb old.created_at row.created_at)) [
      | inl newer ↦ of_set (rw newer at e')
      | inr older ↦ inr (rw older at e')
    ]
