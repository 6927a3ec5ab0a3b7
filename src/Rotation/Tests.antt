-- ===== src/Rotation/Tests.antt =====
-- Runs of the rotation on three backups, at which the theorems about it apply.
use ap_hub.Prelude.{
  ℕ, ◌*◌, ◌≤◌, ◌≡◌, refl, true, List, [], ◌∷◌, none, some, Memᴰ, select, any, false, ◌==◌,
}
use ap_hub.Rotation.Select.{
  BackupRow, BackupKind, scheduled, pre_update, day_ms, is_verified, days_ago,
}
use ap_hub.Rotation.Slots.{slot, daily}
use ap_hub.Rotation.Policy.{Survives, slot-Survives}
use ap_hub.Rotation.Prune.{PruneDeps, unlinked, HasVerified, prune_backups, prune_keeps_verified}

abbrev backup : ℕ → BackupKind → ℕ → BackupRow
backup id kind days = record {
  id = id;
  kind = kind;
  path = "b.tar";
  size_bytes = 10;
  manifest_hash = "h";
  row_counts = [];
  verified_at = some 1;
  external_copy = none;
  created_at = days * day_ms;
}

abbrev fresh_row : BackupRow
fresh_row = backup 1 scheduled 400

abbrev old_row : BackupRow
old_row = backup 2 scheduled 10

abbrev update_row : BackupRow
update_row = backup 3 pre_update 5

abbrev three_rows : List BackupRow
three_rows = fresh_row ∷ old_row ∷ update_row ∷ []

-- The fifth row is in the slot of the first, and older.
abbrev many_rows : List BackupRow
many_rows = backup 5 scheduled 40 ∷ three_rows

abbrev today : ℕ
today = 402 * day_ms

fresh_slot : slot today fresh_row ≡ some (daily, 2)
unfolding days_ago
fresh_slot = refl

slot-Survives_example :
    (kept : BackupRow) × Memᴰ kept three_rows
    × (is_verified kept ≡ true)
    × (slot today kept ≡ some (daily, 2))
    × (fresh_row.created_at ≤ kept.created_at)
    × Survives today three_rows kept.id
slot-Survives_example =
    slot-Survives today three_rows fresh_row daily 2 (Memᴰ.head refl) refl fresh_slot

-- Nobody else touches the table but to add a backup, and every file can be removed.
abbrev added : BackupRow
added = backup 4 scheduled 401

abbrev busy : PruneDeps
busy = record {
  others = λ k rows. rows;
  meanwhile = λ k rows. added ∷ rows;
  now = λ k. today;
  unlink = λ path. unlinked;
}

prune_keeps_verified_example : HasVerified (prune_backups busy many_rows).rows
prune_keeps_verified_example =
    prune_keeps_verified busy many_rows
      (record { before = λ k rows h. h; while_unlinking = λ k rows row m v. Memᴰ.tail m }) refl

-- Between the SELECT and the DELETE another session takes away every row but the one that is about
-- to be deleted, and the table is left without a verified backup.
abbrev racing : PruneDeps
racing = record busy { meanwhile = λ k rows. select (λ row. row.id == 5) rows }

race_loses_last : any is_verified (prune_backups racing many_rows).rows ≡ false
unfolding prune_backups ap_hub.Rotation.Prune.prune_loop
    ap_hub.Rotation.Select.select_backups_to_prune ap_hub.Rotation.Select.prune_verified
    ap_hub.Rotation.Select.keep_ids ap_hub.Rotation.Select.newest_from
    ap_hub.Rotation.Select.place_all ap_hub.Rotation.Select.place days_ago
    ap_hub.Rotation.Select.keep_newest ap_hub.Rotation.Select.bucket_get
    ap_hub.Rotation.Select.bucket_set ap_hub.Rotation.Prune.is_still_safe
race_loses_last = refl
