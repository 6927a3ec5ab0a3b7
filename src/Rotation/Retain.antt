-- ===== src/Rotation/Retain.antt =====
-- Lemmas on the set of ids that `selectBackupsToPrune` keeps.
use ap_hub.Prelude.{
  ℕ, ◌≤◌, ◌≡◌, ◌⊎◌, refl, sym, subst, Bool, true, false, not, ◌||◌, List, [], ◌∷◌, ◌++◌, Option,
  none, some, arith, All, Memᴰ, select, Bool-cases, inl, inr, ltb, ◌==◌, if◌then◌else◌, ℕ_discrete,
  ap,
}
use ap_hub.Rotation.Select.{
  BackupRow, Bucket, Buckets, is_pre_update, bucket_get, place, place_all, no_buckets, newest_from,
  keep_ids, row_ids, bucket_ids, has, prune_verified,
}
use ap_hub.Rotation.Slots.{
  Tier, daily, weekly, monthly, slot, bucket_of, offer, place-offer, Covers, keep_newest-own,
  keep_newest-Covers, keep_newest-get,
}

offer-Covers :
    (o : Option (Tier × ℕ)) (row : BackupRow) (b : Buckets) (t : Tier) (i created : ℕ)
    → Covers (bucket_of t b) i created
    → Covers (bucket_of t (offer o row b)) i created
offer-Covers none row b t i created h = h
offer-Covers (some (daily, j)) row b daily i created h = keep_newest-Covers _ j i created row h
offer-Covers (some (daily, j)) row b weekly i created h = h
offer-Covers (some (daily, j)) row b monthly i created h = h
offer-Covers (some (weekly, j)) row b daily i created h = h
offer-Covers (some (weekly, j)) row b weekly i created h = keep_newest-Covers _ j i created row h
offer-Covers (some (weekly, j)) row b monthly i created h = h
offer-Covers (some (monthly, j)) row b daily i created h = h
offer-Covers (some (monthly, j)) row b weekly i created h = h
offer-Covers (some (monthly, j)) row b monthly i created h = keep_newest-Covers _ j i created row h

offer-own :
    (t : Tier) (i : ℕ) (row : BackupRow) (b : Buckets)
    → Covers (bucket_of t (offer (some (t, i)) row b)) i row.created_at
offer-own daily i row b = keep_newest-own _ i row
offer-own weekly i row b = keep_newest-own _ i row
offer-own monthly i row b = keep_newest-own _ i row

-- What a bucket holds after an offer is the row offered to that slot, or was there.
offer-get :
    (o : Option (Tier × ℕ)) (row : BackupRow) (b : Buckets) (t : Tier) (i : ℕ) (kept : BackupRow)
    → bucket_get i (bucket_of t (offer o row b)) ≡ some kept
    → ((row ≡ kept) × (o ≡ some (t, i))) ⊎ (bucket_get i (bucket_of t b) ≡ some kept)
offer-get none row b t i kept e = inr e
offer-get (some (daily, j)) row b daily i kept e =
    ground (arith, keep_newest-get b.daily j i row kept e)
offer-get (some (daily, j)) row b weekly i kept e = inr e
offer-get (some (daily, j)) row b monthly i kept e = inr e
offer-get (some (weekly, j)) row b daily i kept e = inr e
offer-get (some (weekly, j)) row b weekly i kept e =
    ground (arith, keep_newest-get b.weekly j i row kept e)
offer-get (some (weekly, j)) row b monthly i kept e = inr e
offer-get (some (monthly, j)) row b daily i kept e = inr e
offer-get (some (monthly, j)) row b weekly i kept e = inr e
offer-get (some (monthly, j)) row b monthly i kept e =
    ground (arith, keep_newest-get b.monthly j i row kept e)

module _ (now : ℕ) where
  place_all-Covers :
      (rows : List BackupRow) (b : Buckets) (t : Tier) (i created : ℕ)
      → Covers (bucket_of t b) i created
      → Covers (bucket_of t (place_all now rows b)) i created
  unfolding place_all
  place_all-Covers [] b t i created h = h
  place_all-Covers (row ∷ rows) b t i created h =
      place_all-Covers rows (place now row b) t i created
        (rw (place-offer now row b) (offer-Covers (slot now row) row b t i created h))

  -- The row that competes for a slot, or a newer one, is in the slot's bucket at the end.
  place_all-covered :
      (rows : List BackupRow) (b : Buckets) (t : Tier) (i : ℕ) {row : BackupRow}
      → Memᴰ row rows
      → slot now row ≡ some (t, i)
      → Covers (bucket_of t (place_all now rows b)) i row.created_at
  unfolding place_all
  place_all-covered [] b t i m e = elim m [ ]
  place_all-covered (first ∷ rows) b t i {row} (Memᴰ.head same) e =
      place_all-Covers rows (place now first b) t i row.created_at
        (rw (place-offer now first b, ← same, e) (offer-own t i row b))
  place_all-covered (first ∷ rows) b t i (Memᴰ.tail m) e =
      place_all-covered rows (place now first b) t i m e

  place_all-get :
      (rows : List BackupRow) (b : Buckets) (t : Tier) (i : ℕ) (kept : BackupRow)
      → bucket_get i (bucket_of t (place_all now rows b)) ≡ some kept
      → (Memᴰ kept rows × (slot now kept ≡ some (t, i)))
        ⊎ (bucket_get i (bucket_of t b) ≡ some kept)
  unfolding place_all
  place_all-get [] b t i kept e = inr e
  place_all-get (row ∷ rows) b t i kept e = elim (place_all-get rows (place now row b) t i kept e) [
    | inl (m, s) ↦ inl (Memᴰ.tail m, s)
    | inr old ↦ elim (offer-get (slot now row) row b t i kept (rw (place-offer now row b) at old)) [
      | inl (same, s) ↦ inl (Memᴰ.head (sym same), subst (λ r. slot now r ≡ some (t, i)) same s)
      | inr older ↦ inr older
    ]
  ]

has-append : (xs ys : List ℕ) (id : ℕ) → has (xs ++ ys) id ≡ has xs id || has ys id
has-append [] ys id = refl
has-append (x ∷ xs) ys id = ground (arith, has-append xs ys id)

has-bucket_get :
    (bucket : Bucket) (i : ℕ) (kept : BackupRow)
    → bucket_get i bucket ≡ some kept
    → has (bucket_ids bucket) kept.id ≡ true
unfolding bucket_get
has-bucket_get [] i kept e = cc
has-bucket_get ((j, row) ∷ rest) i kept e = ground (arith, has-bucket_get rest i kept)

has-select :
    (p : BackupRow → Bool) (rows : List BackupRow) {row : BackupRow}
    → Memᴰ row rows
    → p row ≡ true
    → has (row_ids (select p rows)) row.id ≡ true
has-select p [] m h = elim m [ ]
has-select p (first ∷ rows) {row} (Memᴰ.head same) h = rw (sym same) (rw h (ground arith))
has-select p (first ∷ rows) {row} (Memᴰ.tail m) h = ground (arith, has-select p rows m h)

-- A row whose id is kept is not among those to prune.
not-selected :
    (keep : List ℕ) (id : ℕ) (rows : List BackupRow)
    → has keep id ≡ true
    → has (row_ids (select (λ r. not (has keep r.id)) rows)) id ≡ false
not-selected keep id [] h = refl
not-selected keep id (row ∷ rows) h = elim (Bool-cases (has keep row.id)) [
  | inl t ↦ rw t (not-selected keep id rows h)
  | inr f ↦ rw f (elim (ℕ_discrete row.id id) [
    | yes same ↦ absurd (cc (ap (has keep) same, f, h))
    | no other ↦ ground (arith, not-selected keep id rows h)
  ])
]

newest_from-mem :
    (best : BackupRow) (rows : List BackupRow) → Memᴰ (newest_from best rows) (best ∷ rows)
unfolding newest_from
newest_from-mem best [] = Memᴰ.head refl
newest_from-mem best (row ∷ rows) = elim (Bool-cases (ltb best.created_at row.created_at)) [
  | inl t ↦ rw t (Memᴰ.tail (newest_from-mem row rows))
  | inr f ↦ rw f (skip (newest_from-mem best rows))
]
  where
    skip : {a : BackupRow} → Memᴰ a (best ∷ rows) → Memᴰ a (best ∷ row ∷ rows)
    skip (Memᴰ.head e) = Memᴰ.head e
    skip (Memᴰ.tail m) = Memᴰ.tail (Memᴰ.tail m)

newest_from-ge :
    (rows : List BackupRow) (best : BackupRow) (created : ℕ)
    → created ≤ best.created_at
    → created ≤ (newest_from best rows).created_at
unfolding newest_from
newest_from-ge [] best created h = h
newest_from-ge (row ∷ rows) best created h =
    newest_from-ge rows (if ltb best.created_at row.created_at then row else best) created
      (ground arith)

newest_from-newest :
    (rows : List BackupRow) (best : BackupRow)
    → All (λ row. row.created_at ≤ (newest_from best rows).created_at) rows
unfolding newest_from
newest_from-newest [] best = tt
newest_from-newest (row ∷ rows) best =
    let next : BackupRow = if ltb best.created_at row.created_at then row else best in
    (newest_from-ge rows next row.created_at (ground arith), newest_from-newest rows next)

has-keep_ids :
    (now : ℕ) (newest : BackupRow) (verified : List BackupRow) (id : ℕ)
    → let b = place_all now verified no_buckets in
      has (keep_ids now newest verified) id ≡ (
        (newest.id == id || has (row_ids (select (λ row. is_pre_update row.kind) verified)) id)
        || (has (bucket_ids b.daily) id
            || (has (bucket_ids b.weekly) id || has (bucket_ids b.monthly) id)))
unfolding keep_ids
has-keep_ids now newest verified id =
    let b = place_all now verified no_buckets in
    let pre = row_ids (select (λ row. is_pre_update row.kind) verified) in
    ground (
      arith,
      has-append (newest.id ∷ pre)
          (bucket_ids b.daily ++ (bucket_ids b.weekly ++ bucket_ids b.monthly)) id,
      has-append (bucket_ids b.daily) (bucket_ids b.weekly ++ bucket_ids b.monthly) id,
      has-append (bucket_ids b.weekly) (bucket_ids b.monthly) id,
    )

-- The id is not among those that the rows give to prune.
abbrev pub Spared : ℕ → List BackupRow → ℕ → Type 0
Spared now verified id = has (row_ids (prune_verified now verified)) id ≡ false

abbrev pub Newest : ℕ → List BackupRow → Type 0
Newest now verified =
    (newest : BackupRow) × Memᴰ newest verified
    × All (λ row. row.created_at ≤ newest.created_at) verified
    × Spared now verified newest.id

abbrev pub SlotKept : ℕ → List BackupRow → Tier → ℕ → ℕ → Type 0
SlotKept now verified t i created =
    (kept : BackupRow) × Memᴰ kept verified
    × (slot now kept ≡ some (t, i))
    × (created ≤ kept.created_at)
    × Spared now verified kept.id

module _ (now : ℕ) where
  pub verified-Spared :
      (verified : List BackupRow) {first : BackupRow} → Memᴰ first verified → Newest now verified
  unfolding prune_verified
  verified-Spared [] m = elim m [ ]
  verified-Spared (row ∷ rows) m = (
    newest_from row rows,
    newest_from-mem row rows,
    (newest_from-ge rows row row.created_at (omega arith), newest_from-newest rows row),
    not-selected _ _ (row ∷ rows) (
        ground
          (arith, has-keep_ids now (newest_from row rows) (row ∷ rows) (newest_from row rows).id)),
  )

  pub pre_update-Spared :
      (verified : List BackupRow) {row : BackupRow}
      → Memᴰ row verified
      → is_pre_update row.kind ≡ true
      → Spared now verified row.id
  unfolding prune_verified
  pre_update-Spared [] m h = elim m [ ]
  pre_update-Spared (first ∷ rows) {row} m h = not-selected _ _ (first ∷ rows) (
      ground (
        arith,
        has-keep_ids now (newest_from first rows) (first ∷ rows) row.id,
        has-select (λ r. is_pre_update r.kind) (first ∷ rows) m h,
      ))

  bucket-has :
      (t : Tier) (b : Buckets) (i : ℕ) (kept : BackupRow)
      → bucket_get i (bucket_of t b) ≡ some kept
      → (has (bucket_ids b.daily) kept.id
          || (has (bucket_ids b.weekly) kept.id || has (bucket_ids b.monthly) kept.id))
        ≡ true
  bucket-has daily b i kept e = ground (arith, has-bucket_get b.daily i kept e)
  bucket-has weekly b i kept e = ground (arith, has-bucket_get b.weekly i kept e)
  bucket-has monthly b i kept e = ground (arith, has-bucket_get b.monthly i kept e)

  no-bucket :
      (t : Tier) (i : ℕ) (kept : BackupRow) → bucket_get i (bucket_of t no_buckets) ≡ some kept → ⊥
  unfolding bucket_get
  no-bucket daily i kept e = cc
  no-bucket weekly i kept e = cc
  no-bucket monthly i kept e = cc

  pub slot-Spared :
      (verified : List BackupRow) (t : Tier) (i : ℕ) {row : BackupRow}
      → Memᴰ row verified
      → slot now row ≡ some (t, i)
      → SlotKept now verified t i row.created_at
  unfolding prune_verified
  slot-Spared [] t i m s = elim m [ ]
  slot-Spared (first ∷ rows) t i m s =
      let (kept, found, newer) = place_all-covered now (first ∷ rows) no_buckets t i m s in
      elim (place_all-get now (first ∷ rows) no_buckets t i kept found) [
        | inr empty ↦ absurd (no-bucket t i kept empty)
        | inl (own, same) ↦ (
          kept,
          own,
          same,
          newer,
          not-selected _ _ (first ∷ rows) (
              ground (
                arith,
                has-keep_ids now (newest_from first rows) (first ∷ rows) kept.id,
                bucket-has t (place_all now (first ∷ rows) no_buckets) i kept found,
              )),
        )
      ]
