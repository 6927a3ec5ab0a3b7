-- ===== src/Posting/Record.antt =====
-- The writes to `postings_ap`, one row for each tenant and idempotency key.
use ap_hub.Prelude.{ℕ, suc, Bool, List, [], ◌∷◌, ◌++◌, none, some, find, map, if◌then◌else◌}
use ap_hub.Posting.Books.{Posting, Books, is_posting}

abbrev pub update_all : (Posting → Bool) → (Posting → Posting) → List Posting → List Posting
update_all test change = map (λ row. if test row then change row else row)

-- What the upserts replace.
abbrev pub replace : Posting → Posting → Posting
replace new old = record old {
  external_id = new.external_id;
  revision = new.revision;
  realm = new.realm;
  mode = new.mode;
  status = new.status;
}

module _ {N : Type 0} where
  -- ON CONFLICT (tenant_id, idempotency_key) DO UPDATE ... RETURNING id. The row's own `id` is drawn
  -- from the sequence, also where it is not used.
  unfoldable pub upsert_posting : Posting → Books N → Books N × ℕ
  upsert_posting new s = elim (find (is_posting new.tenant_id new.idempotency_key) s.postings) [
    | none ↦ (
      record s {
        postings = s.postings ++ record new { id = s.next_posting_id } ∷ [];
        next_posting_id = suc s.next_posting_id;
      },
      s.next_posting_id,
    )
    | some old ↦ (
      record s {
        postings =
            update_all (is_posting new.tenant_id new.idempotency_key) (replace new) s.postings;
        next_posting_id = suc s.next_posting_id;
      },
      old.id,
    )
  ]

  -- ON CONFLICT (tenant_id, idempotency_key) DO NOTHING
  unfoldable pub insert_posting : Posting → Books N → Books N
  insert_posting new s = elim (find (is_posting new.tenant_id new.idempotency_key) s.postings) [
    | none ↦ record s {
      postings = s.postings ++ record new { id = s.next_posting_id } ∷ [];
      next_posting_id = suc s.next_posting_id;
    }
    | some old ↦ record s { next_posting_id = suc s.next_posting_id }
  ]
