-- ===== src/Rotation/Select.antt =====
-- `selectBackupsToPrune`. Dates are milliseconds since the epoch; a JavaScript Map from a bucket's
-- index is an association list in insertion order, a Set of ids a list.
use ap_hub.Prelude.{
  ℕ, ◌+◌, ◌-◌, ◌*◌, ◌/◌, String, Bool, true, false, not, List, [], ◌∷◌, ◌++◌, map, Option, none,
  some, is_some, any, select, ltb, ◌==◌, if◌then◌else◌,
}

pub data BackupKind : Type 0 where
  scheduled pre_migration pre_update manual : BackupKind

pub record BackupRow : Type 0 where
  pub id : ℕ
  pub kind : BackupKind
  pub path : String
  pub size_bytes : ℕ
  pub manifest_hash : String
  pub row_counts : List (String × ℕ)
  pub verified_at : Option ℕ
  pub external_copy : Option String
  pub created_at : ℕ

abbrev pub day_ms : ℕ
day_ms = 24 * 60 * 60 * 1000

abbrev pub daily_keep : ℕ
daily_keep = 7

abbrev pub weekly_keep : ℕ
weekly_keep = 4

abbrev pub monthly_keep : ℕ
monthly_keep = 3

-- Math.max(0, Math.floor((now - created) / DAY_MS)): a row from the future has age 0.
unfoldable pub days_ago : ℕ → ℕ → ℕ
days_ago now created = (now - created) / day_ms

abbrev pub Bucket : Type 0
Bucket = List (ℕ × BackupRow)

unfoldable pub bucket_get : ℕ → Bucket → Option BackupRow
bucket_get index [] = none
bucket_get index ((i, row) ∷ rest) = if i == index then some row else bucket_get index rest

-- Map.set: an entry that is there keeps its place.
unfoldable pub bucket_set : ℕ → BackupRow → Bucket → Bucket
bucket_set index row [] = (index, row) ∷ []
bucket_set index row ((i, old) ∷ rest) =
    if i == index then (i, row) ∷ rest else (i, old) ∷ bucket_set index row rest

unfoldable pub keep_newest : Bucket → ℕ → BackupRow → Bucket
keep_newest bucket index row = elim (bucket_get index bucket) [
  | none ↦ bucket_set index row bucket
  | some existing ↦
      if ltb existing.created_at row.created_at then bucket_set index row bucket else bucket
]

abbrev pub is_pre_update : BackupKind → Bool
is_pre_update pre_update = true
is_pre_update _ = false

abbrev pub is_verified : BackupRow → Bool
is_verified row = is_some row.verified_at

-- verified.reduce((a, b) => (b.created_at > a.created_at ? b : a)) from its first element.
unfoldable pub newest_from : BackupRow → List BackupRow → BackupRow
newest_from best [] = best
newest_from best (row ∷ rest) =
    newest_from (if ltb best.created_at row.created_at then row else best) rest

pub record Buckets : Type 0 where
  pub daily : Bucket
  pub weekly : Bucket
  pub monthly : Bucket

-- The body of the loop over the verified rows.
unfoldable pub place : ℕ → BackupRow → Buckets → Buckets
place now row buckets =
    let age = days_ago now row.created_at in
    if is_pre_update row.kind
    then buckets
    else if ltb age daily_keep
    then record buckets { daily = keep_newest buckets.daily age row }
    else if ltb age (daily_keep + weekly_keep * 7)
    then record buckets { weekly = keep_newest buckets.weekly ((age - daily_keep) / 7) row }
    else if ltb age (daily_keep + weekly_keep * 7 + monthly_keep * 30)
    then record buckets {
      monthly = keep_newest buckets.monthly ((age - daily_keep - weekly_keep * 7) / 30) row;
    }
    else buckets

unfoldable pub place_all : ℕ → List BackupRow → Buckets → Buckets
place_all now [] buckets = buckets
place_all now (row ∷ rows) buckets = place_all now rows (place now row buckets)

abbrev pub no_buckets : Buckets
no_buckets = record { daily = []; weekly = []; monthly = [] }

abbrev pub row_ids : List BackupRow → List ℕ
row_ids = map (λ row. row.id)

abbrev pub bucket_ids : Bucket → List ℕ
bucket_ids = map (λ entry. (entry.1).id)

abbrev pub has : List ℕ → ℕ → Bool
has keep id = any (λ k. k == id) keep

unfoldable pub keep_ids : ℕ → BackupRow → List BackupRow → List ℕ
keep_ids now newest verified =
    let buckets = place_all now verified no_buckets in
    (newest.id ∷ row_ids (select (λ row. is_pre_update row.kind) verified))
    ++ (bucket_ids buckets.daily ++ (bucket_ids buckets.weekly ++ bucket_ids buckets.monthly))

unfoldable pub prune_verified : ℕ → List BackupRow → List BackupRow
prune_verified now [] = []
prune_verified now (row ∷ rows) =
    select (λ r. not (has (keep_ids now (newest_from row rows) (row ∷ rows)) r.id)) (row ∷ rows)

unfoldable pub select_backups_to_prune : List BackupRow → ℕ → List BackupRow
select_backups_to_prune backups now = prune_verified now (select is_verified backups)
