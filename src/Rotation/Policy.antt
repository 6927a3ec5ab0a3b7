-- ===== src/Rotation/Policy.antt =====
-- The retention policy over the rows of the table `backups`.
use ap_hub.Prelude.{
  ℕ, ◌≤◌, ◌≡◌, true, false, List, some, All-get, Memᴰ, mem-select, mem-of-select, select,
  select_holds,
}
use ap_hub.Rotation.Select.{
  BackupRow, is_pre_update, is_verified, row_ids, has, select_backups_to_prune,
}
use ap_hub.Rotation.Slots.{Tier, slot}
use ap_hub.Rotation.Retain.{verified-Spared, pre_update-Spared, slot-Spared}

-- The selection leaves the id alone.
abbrev pub Survives : ℕ → List BackupRow → ℕ → Type 0
Survives now backups id = has (row_ids (select_backups_to_prune backups now)) id ≡ false

-- Where some backup is verified, the selection leaves a verified one that was created no earlier
-- than any verified backup.
pub newest-Survives :
    (now : ℕ) (backups : List BackupRow) (first : BackupRow)
    → Memᴰ first backups
    → is_verified first ≡ true
    → (newest : BackupRow) × Memᴰ newest backups
      × (is_verified newest ≡ true)
      × ((row : BackupRow)
          → Memᴰ row backups
          → is_verified row ≡ true
          → row.created_at ≤ newest.created_at)
      × Survives now backups newest.id
unfolding select_backups_to_prune
newest-Survives now backups first m v =
    let verified = select is_verified backups in
    let (newest, own, ge, spared) =
      verified-Spared now verified (mem-select is_verified backups m v) in
    (
      newest,
      mem-of-select is_verified backups own,
      All-get (λ row. is_verified row ≡ true) verified (select_holds is_verified backups) own,
      (λ row m' v'.
          All-get (λ r. r.created_at ≤ newest.created_at) verified ge
            (mem-select is_verified backups m' v')),
      spared,
    )

-- A verified pre_update backup is never selected, whatever its age.
pub pre_update-Survives :
    (now : ℕ) (backups : List BackupRow) (row : BackupRow)
    → Memᴰ row backups
    → is_verified row ≡ true
    → is_pre_update row.kind ≡ true
    → Survives now backups row.id
unfolding select_backups_to_prune
pre_update-Survives now backups row m v p =
    pre_update-Spared now (select is_verified backups) (mem-select is_verified backups m v) p

-- Each of the 7 daily, 4 weekly and 3 monthly slots that a verified backup other than pre_update
-- falls into keeps one: a verified backup of the same slot, no older, is left alone.
pub slot-Survives :
    (now : ℕ) (backups : List BackupRow) (row : BackupRow) (t : Tier) (i : ℕ)
    → Memᴰ row backups
    → is_verified row ≡ true
    → slot now row ≡ some (t, i)
    → (kept : BackupRow) × Memᴰ kept backups
      × (is_verified kept ≡ true)
      × (slot now kept ≡ some (t, i))
      × (row.created_at ≤ kept.created_at)
      × Survives now backups kept.id
unfolding select_backups_to_prune
slot-Survives now backups row t i m v s =
    let verified = select is_verified backups in
    let (kept, own, same, newer, spared) =
      slot-Spared now verified t i (mem-select is_verified backups m v) s in
    (
      kept,
      mem-of-select is_verified backups own,
      All-get (λ r. is_verified r ≡ true) verified (select_holds is_verified backups) own,
      same,
      newer,
      spared,
    )
