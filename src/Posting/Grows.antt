-- ===== src/Posting/Grows.antt =====
-- Counting the calls of `postBill`, and the invariant on calls and postings.
use mathlib.Core.Path.{subst₂}
use ap_hub.Prelude.{
  any-last, any-of-find, ◌+◌, ℕ, ◌≡◌, refl, ◌∙◌, ◌≤◌, Bool, true, false, ◌&&◌, String, List, [],
  ◌∷◌, ◌++◌, str_eq, str_eq_iff, ◌==◌, ==_iff, find, any, count_if, count-append, arith,
  Option-cases, Bool-cases, inl, inr, if◌then◌else◌,
}
use ap_hub.Posting.Books.{
  Posting, Books, BillReply, refused_duplicate, ProviderCall, verified_identity, probed,
  posted_bill, attached, read_back, anchored, is_posting,
}
use ap_hub.Posting.Record.{upsert_posting, insert_posting, update_all, replace}

-- A create that the provider did not refuse as a duplicate: it returned an id, or its outcome is
-- unknown.
abbrev pub may_exist : BillReply → Bool
may_exist refused_duplicate = false
may_exist _ = true

abbrev pub creates : ℕ → String → ProviderCall → Bool
creates tenant key (posted_bill t k reply) = (t == tenant) && str_eq k key && may_exist reply
creates tenant key _ = false

-- Any call of `postBill`.
abbrev pub is_bill : ProviderCall → Bool
is_bill (posted_bill t k reply) = true
is_bill _ = false

creates-is_bill :
    (tenant : ℕ) (key : String) (call : ProviderCall)
    → is_bill call ≡ false
    → creates tenant key call ≡ false
creates-is_bill tenant key (posted_bill t k reply) h = cc
creates-is_bill tenant key (verified_identity name) h = refl
creates-is_bill tenant key (probed t k) h = refl
creates-is_bill tenant key (attached id) h = refl
creates-is_bill tenant key (read_back id) h = refl
creates-is_bill tenant key (anchored id) h = refl

-- The part of the books that counts here: the calls, and the postings.
abbrev pub Ledger : Type 0
Ledger = List ProviderCall × List Posting

abbrev pub ledger : {N : Type 0} → Books N → Ledger
ledger s = (s.calls, s.postings)

abbrev pub create_count : ℕ → String → Ledger → ℕ
create_count tenant key l = count_if (creates tenant key) l.0

abbrev pub bill_count : Ledger → ℕ
bill_count l = count_if is_bill l.0

abbrev pub has_posting : ℕ → String → Ledger → Bool
has_posting tenant key l = any (is_posting tenant key) l.1

-- No further call of `postBill`, and no posting less.
pub record Grows (a b : Ledger) : Type 0 where
  pub bills_same : bill_count b ≡ bill_count a
  pub creates_same :
      (tenant : ℕ) (key : String) → create_count tenant key b ≡ create_count tenant key a
  pub postings_stay :
      (tenant : ℕ) (key : String)
      → has_posting tenant key a ≡ true
      → has_posting tenant key b ≡ true

pub Grows-refl : (a : Ledger) → Grows a a
Grows-refl a = record { bills_same = refl; creates_same = λ _ _. refl; postings_stay = λ _ _ h. h }

pub Grows-trans : {a b c : Ledger} → Grows a b → Grows b c → Grows a c
Grows-trans p q = record {
  bills_same = q.bills_same ∙ p.bills_same;
  creates_same = λ tenant key. q.creates_same tenant key ∙ p.creates_same tenant key;
  postings_stay = λ tenant key h. q.postings_stay tenant key (p.postings_stay tenant key h);
}

any-update_all :
    (tenant : ℕ) (key : String) (test : Posting → Bool) (new : Posting) (rows : List Posting)
    → any (is_posting tenant key) (update_all test (replace new) rows)
      ≡ any (is_posting tenant key) rows
any-update_all tenant key test new [] = refl
any-update_all tenant key test new (row ∷ rows) =
    ground (arith, any-update_all tenant key test new rows)

pub is_posting_refl : (row : Posting) → is_posting row.tenant_id row.idempotency_key row ≡ true
is_posting_refl row =
    let a : (row.tenant_id == row.tenant_id) ≡ true = ground arith in
    let b : str_eq row.idempotency_key row.idempotency_key ≡ true =
      (str_eq_iff row.idempotency_key row.idempotency_key).1 refl in
    ground (arith, a, b)

-- An append, and a change that keeps tenant and key.
append-Grows :
    (calls : List ProviderCall) (rows : List Posting) (row : Posting)
    → Grows (calls, rows) (calls, rows ++ row ∷ [])
append-Grows calls rows row = record {
  bills_same = refl;
  creates_same = λ _ _. refl;
  postings_stay = λ tenant key h. any-last (is_posting tenant key) rows row ∙ ground arith;
}

update-Grows :
    (calls : List ProviderCall) (rows : List Posting) (test : Posting → Bool) (new : Posting)
    → Grows (calls, rows) (calls, update_all test (replace new) rows)
update-Grows calls rows test new = record {
  bills_same = refl;
  creates_same = λ _ _. refl;
  postings_stay = λ tenant key h. any-update_all tenant key test new rows ∙ h;
}

module _ {N : Type 0} (new : Posting) (s : Books N) where
  abbrev own : Posting → Bool
  own = is_posting new.tenant_id new.idempotency_key

  abbrev fresh : Posting
  fresh = record new { id = s.next_posting_id }

  fresh_posting : any own (s.postings ++ fresh ∷ []) ≡ true
  fresh_posting = any-last own s.postings fresh ∙ ground (arith, is_posting_refl new)

  pub upsert_posting-Grows :
      Grows (ledger s) (ledger (upsert_posting new s).0)
      × (has_posting new.tenant_id new.idempotency_key (ledger (upsert_posting new s).0) ≡ true)
  unfolding upsert_posting
  upsert_posting-Grows = elim (Option-cases (find own s.postings)) [
    | inl e ↦ rw (e, upsert_posting) (append-Grows s.calls s.postings fresh, fresh_posting)
    | inr (old, e) ↦
        rw (e, upsert_posting)
          (
            update-Grows s.calls s.postings own new,
            any-update_all new.tenant_id new.idempotency_key own new s.postings
                ∙ any-of-find own s.postings old e,
          )
  ]

  pub insert_posting-Grows :
      Grows (ledger s) (ledger (insert_posting new s))
      × (has_posting new.tenant_id new.idempotency_key (ledger (insert_posting new s)) ≡ true)
  unfolding insert_posting
  insert_posting-Grows = elim (Option-cases (find own s.postings)) [
    | inl e ↦ rw (e, insert_posting) (append-Grows s.calls s.postings fresh, fresh_posting)
    | inr (old, e) ↦
        rw (e, insert_posting) (Grows-refl (ledger s), any-of-find own s.postings old e)
  ]

-- Another call than `postBill` adds no create.
pub log-Grows :
    (call : ProviderCall) (l : Ledger) → is_bill call ≡ false → Grows l (l.0 ++ call ∷ [], l.1)
log-Grows call l other = record {
  bills_same = count-append is_bill l.0 (call ∷ []) ∙ ground (arith, other);
  creates_same = λ tenant key.
      count-append (creates tenant key) l.0 (call ∷ [])
      ∙ ground (arith, creates-is_bill tenant key call other);
  postings_stay = λ _ _ h. h;
}

-- At most one create for each tenant and key, and none without a posting.
pub record Safe (l : Ledger) : Type 0 where
  pub bounded :
      (tenant : ℕ) (key : String)
      → create_count tenant key l ≤ (if has_posting tenant key l then 1 else 0)

pub Grows-Safe : {a b : Ledger} → Grows a b → Safe a → Safe b
Grows-Safe {a} {b} g v = record {
  bounded = λ tenant key.
      ground (arith, g.creates_same tenant key, g.postings_stay tenant key, v.bounded tenant key);
}

-- A create after which the posting is there.
create-bounded :
    (a : Ledger) {b : Ledger} (tenant : ℕ) (key : String) (reply : BillReply)
    → Safe a
    → has_posting tenant key a ≡ false
    → Grows (a.0 ++ posted_bill tenant key reply ∷ [], a.1) b
    → has_posting tenant key b ≡ true
    → (t : ℕ) (k : String) → create_count t k b ≤ (if has_posting t k b then 1 else 0)
create-bounded a {b} tenant key reply v none_yet g stored t k =
    elim (Bool-cases (creates t k call)) [
      | inr other ↦
          ground (arith, g.creates_same t k, g.postings_stay t k, added, v.bounded t k, other)
      | inl ours ↦
          let e : tenant ≡ t = (==_iff tenant t).0 (ground arith) in
          let f : key ≡ k = (str_eq_iff key k).0 (ground arith) in
          let n : has_posting t k a ≡ false =
            subst₂ (λ x y. has_posting x y a ≡ false) e f none_yet in
          let h : has_posting t k b ≡ true = subst₂ (λ x y. has_posting x y b ≡ true) e f stored in
          ground (arith, g.creates_same t k, added, v.bounded t k, n, h, ours)
    ]
  where
    call : ProviderCall
    call = posted_bill tenant key reply

    added :
        create_count t k (a.0 ++ call ∷ [], a.1)
        ≡ create_count t k a + count_if (creates t k) (call ∷ [])
    added = count-append (creates t k) a.0 (call ∷ [])

pub create-Safe :
    (a : Ledger) {b : Ledger} (tenant : ℕ) (key : String) (reply : BillReply)
    → Safe a
    → has_posting tenant key a ≡ false
    → Grows (a.0 ++ posted_bill tenant key reply ∷ [], a.1) b
    → has_posting tenant key b ≡ true
    → Safe b
create-Safe a tenant key reply v none_yet g stored = record {
  bounded = create-bounded a tenant key reply v none_yet g stored;
}

-- A create that was refused as a duplicate does not count.
pub refused-Safe :
    (tenant : ℕ) (key : String) (l : Ledger)
    → Safe l
    → Safe (l.0 ++ posted_bill tenant key refused_duplicate ∷ [], l.1)
refused-Safe tenant key l v = record {
  bounded = λ t k. ground (
    arith,
    count-append (creates t k) l.0 (posted_bill tenant key refused_duplicate ∷ []),
    v.bounded t k,
  );
}
