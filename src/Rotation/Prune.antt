-- ===== src/Rotation/Prune.antt =====
-- `pruneBackups`: the deletion, which selects anew before each row that it deletes. The clock, the
-- file system and what other sessions do to the table between any two queries are its dependencies.
use ap_hub.Prelude.{
  ℕ, suc, ◌≡◌, refl, subst, ap, String, Bool, true, false, not, List, [], ◌∷◌, ◌++◌, Option, none,
  some, arith, any, any-of-mem, mem-of-any, select, mem-select, Memᴰ, Bool-cases, inl, inr, ◌==◌,
  if◌then◌else◌,
}
use ap_hub.Rotation.Select.{BackupRow, is_verified, row_ids, has, select_backups_to_prune}
use ap_hub.Rotation.Policy.{Survives, newest-Survives}

-- `unlink`: the file is gone, was not there (ENOENT), or the call fails otherwise.
pub data UnlinkResult : Type 0 where
  unlinked not_found : UnlinkResult
  failed : String → UnlinkResult

-- `others k` is what other sessions do before the k-th SELECT, `meanwhile k` what they do between it
-- and the DELETE, while the file is removed.
pub record PruneDeps : Type 0 where
  pub others : ℕ → List BackupRow → List BackupRow
  pub meanwhile : ℕ → List BackupRow → List BackupRow
  pub now : ℕ → ℕ
  pub unlink : String → UnlinkResult

-- The table that is left, the ids of `prunedIds` and `skipped`, and an error that was thrown.
pub record PruneResult : Type 0 where
  pub rows : List BackupRow
  pub pruned_ids : List ℕ
  pub skipped : List ℕ
  pub thrown : Option String

-- DELETE FROM backups WHERE id = $1
abbrev pub delete_id : ℕ → List BackupRow → List BackupRow
delete_id id = select (λ row. not (row.id == id))

unfoldable pub is_still_safe : ℕ → List BackupRow → ℕ → Bool
is_still_safe now rows id = any (λ row. row.id == id) (select_backups_to_prune rows now)

-- The loop over the candidates, with what it has collected; `k` counts the SELECTs.
unfoldable pub prune_loop : PruneDeps → ℕ → List BackupRow → PruneResult → PruneResult
prune_loop deps k [] state = state
prune_loop deps k (candidate ∷ candidates) state =
    let fresh = deps.others k state.rows in
    let skip =
      prune_loop deps (suc k) candidates
        (record state { rows = fresh; skipped = state.skipped ++ candidate.id ∷ [] }) in
    let current = deps.meanwhile k fresh in
    let delete = prune_loop deps (suc k) candidates (record state {
      rows = delete_id candidate.id current;
      pruned_ids = state.pruned_ids ++ candidate.id ∷ [];
    }) in
    if is_still_safe (deps.now k) fresh candidate.id
    then elim (deps.unlink candidate.path) [
      | unlinked ↦ delete
      | not_found ↦ delete
      | failed message ↦ record state { rows = current; thrown = some message }
    ]
    else skip

unfoldable pub prune_backups : PruneDeps → List BackupRow → PruneResult
prune_backups deps initial =
    prune_loop deps 1 (select_backups_to_prune initial (deps.now 0))
      (record { rows = initial; pruned_ids = []; skipped = []; thrown = none })

abbrev pub HasVerified : List BackupRow → Type 0
HasVerified rows = any is_verified rows ≡ true

has-row_ids :
    (rows : List BackupRow) (id : ℕ) → has (row_ids rows) id ≡ any (λ row. row.id == id) rows
has-row_ids [] id = refl
has-row_ids (row ∷ rows) id = ground (arith, has-row_ids rows id)

-- Every verified row of the first table is in the second.
abbrev pub KeepsVerified : List BackupRow → List BackupRow → Type 0
KeepsVerified rows rows' =
    (row : BackupRow) → Memᴰ row rows → is_verified row ≡ true → Memᴰ row rows'

-- Deleting a row that the selection named leaves a verified row, if there was one and no verified
-- row was taken away since.
delete-HasVerified :
    (now : ℕ) (rows rows' : List BackupRow) (id : ℕ)
    → is_still_safe now rows id ≡ true
    → KeepsVerified rows rows'
    → HasVerified rows
    → HasVerified (delete_id id rows')
unfolding is_still_safe
delete-HasVerified now rows rows' id safe kept h =
    let (first, m, v) = mem-of-any is_verified rows h in
    let (newest, own, verified, _, spared) = newest-Survives now rows first m v in
    let other : (newest.id == id) ≡ false = differs newest spared in
    any-of-mem is_verified (delete_id id rows')
      (mem-select (λ row. not (row.id == id)) rows' (kept newest own verified) (ap not other))
      verified
  where
    differs : (newest : BackupRow) → Survives now rows newest.id → (newest.id == id) ≡ false
    differs newest spared = elim (Bool-cases (newest.id == id)) [
      | inr f ↦ f
      | inl same ↦
          let e : newest.id ≡ id = ground arith in
          absurd (
            cc (
              has-row_ids (select_backups_to_prune rows now) id,
              safe,
              subst (λ i. has (row_ids (select_backups_to_prune rows now)) i ≡ false) e spared,
            ))
    ]

KeepsVerified-HasVerified :
    (rows rows' : List BackupRow) → KeepsVerified rows rows' → HasVerified rows → HasVerified rows'
KeepsVerified-HasVerified rows rows' kept h =
    let (row, m, v) = mem-of-any is_verified rows h in any-of-mem is_verified rows' (kept row m v) v

-- Before a SELECT the other sessions leave a verified row where there is one; between it and the
-- DELETE they take no verified row away.
pub record Careful (deps : PruneDeps) : Type 0 where
  pub before : (k : ℕ) (rows : List BackupRow) → HasVerified rows → HasVerified (deps.others k rows)
  pub while_unlinking : (k : ℕ) (rows : List BackupRow) → KeepsVerified rows (deps.meanwhile k rows)

prune_loop-HasVerified :
    (deps : PruneDeps) (k : ℕ) (candidates : List BackupRow) (state : PruneResult)
    → Careful deps
    → HasVerified state.rows
    → HasVerified (prune_loop deps k candidates state).rows
unfolding prune_loop
prune_loop-HasVerified deps k [] state careful h = h
prune_loop-HasVerified deps k (candidate ∷ candidates) state careful h =
    elim (Bool-cases (is_still_safe (deps.now k) fresh candidate.id)) [
      | inr unsafe ↦
          rw unsafe (prune_loop-HasVerified deps (suc k) candidates _ careful fresh-HasVerified)
      | inl safe ↦ rw safe (
          by_unlink _ (deps.unlink candidate.path) (
            prune_loop-HasVerified deps (suc k) candidates _ careful (
              delete-HasVerified (deps.now k) fresh current candidate.id safe
                (careful.while_unlinking k fresh) fresh-HasVerified)))
    ]
  where
    fresh : List BackupRow
    fresh = deps.others k state.rows

    current : List BackupRow
    current = deps.meanwhile k fresh

    fresh-HasVerified : HasVerified fresh
    fresh-HasVerified = careful.before k state.rows h

    by_unlink :
        (after : PruneResult) (u : UnlinkResult)
        → HasVerified after.rows
        → HasVerified
            (let r : PruneResult = elim u [
              | unlinked ↦ after
              | not_found ↦ after
              | failed message ↦ record state { rows = current; thrown = some message }
            ] in
              r).rows
    by_unlink after unlinked g = g
    by_unlink after not_found g = g
    by_unlink after (failed message) g =
        KeepsVerified-HasVerified fresh current (careful.while_unlinking k fresh) fresh-HasVerified

-- Whatever the clock says and whichever files cannot be removed, if the table has a verified row, the
-- other sessions leave one, where there is one, before each SELECT of the prune, and take away no
-- verified row between such a SELECT and the DELETE that follows it, then the table that the prune
-- leaves has a verified row.
pub prune_keeps_verified :
    (deps : PruneDeps) (initial : List BackupRow)
    → Careful deps
    → HasVerified initial
    → HasVerified (prune_backups deps initial).rows
unfolding prune_backups
prune_keeps_verified deps initial careful h =
    prune_loop-HasVerified deps 1 (select_backups_to_prune initial (deps.now 0)) _ careful h
