-- ===== src/Session/Drain.antt =====
-- The end of a session's queue, and a connection that is refused.
use ap_hub.Prelude.{
  ℕ, zero, suc, ◌+◌, ◌≤◌, ◌<◌, ◌≡◌, refl, sym, ap, ◌∙◌, subst, Bool, true, false, String, List, [],
  ◌∷◌, ◌++◌, none, some, length, get_elem?, any, arith, Option-cases, Bool-cases, inl, inr, dec_lt,
}
use ap_hub.Session.Work.{
  WorkItem, readonly, QbwcSession, new_session, enqueue, next_loop, next, is_pending, sent,
  new_item,
}
use ap_hub.Session.Registry.{Registry, adopt, create_session}
use ap_hub.Session.Guard.{create_refused}

get_elem?-none : (items : List WorkItem) (i : ℕ) → length items ≤ i → get_elem? items i ≡ none
get_elem?-none [] i h = ground arith
get_elem?-none (item ∷ items) zero h = absurd (omega arith)
get_elem?-none (item ∷ items) (suc i) h = get_elem?-none items i (omega arith)

get_elem?-some :
    (items : List WorkItem) (i : ℕ) (item : WorkItem)
    → get_elem? items i ≡ some item
    → i < length items
get_elem?-some [] i item e = absurd (ground arith)
get_elem?-some (first ∷ items) zero item e = omega arith
get_elem?-some (first ∷ items) (suc i) item e = let h = get_elem?-some items i item e in omega arith

get_elem?-inside : (items : List WorkItem) (i : ℕ) → i < length items → get_elem? items i ≡ none → ⊥
get_elem?-inside [] i h e = omega arith
get_elem?-inside (first ∷ items) zero h e = cc
get_elem?-inside (first ∷ items) (suc i) h e = get_elem?-inside items i (omega arith) e

next_loop_drained :
    (fuel : ℕ) (s : QbwcSession) (i : ℕ) (item : WorkItem)
    → length s.items < fuel + s.cursor
    → (next_loop fuel s).1 ≡ none
    → s.cursor ≤ i
    → get_elem? s.items i ≡ some item
    → is_pending item.status ≡ false
unfolding next_loop
next_loop_drained zero s i item enough e h found =
    let inside = get_elem?-some s.items i item found in absurd (omega arith)
next_loop_drained (suc fuel) s i item enough e h found =
    elim (Option-cases (get_elem? s.items s.cursor)) [
      | inl ended ↦ absurd (beyond ended)
      | inr (current, here) ↦ elim (Bool-cases (is_pending current.status)) [
        | inl waits ↦
            let handed : some (record current { status = sent }) ≡ none =
              rw (here, waits, next_loop) at e in
            absurd (cc)
        | inr settled ↦
            let later : (next_loop fuel (record s { cursor = suc s.cursor })).1 ≡ none =
              rw (here, settled, next_loop) at e in
            elim (dec_lt s.cursor i) [
              | yes after ↦
                  next_loop_drained fuel (record s { cursor = suc s.cursor }) i item (omega arith)
                    later (omega arith) found
              | no at_cursor ↦
                  let same_index : s.cursor ≡ i = omega arith in
                  let same : some current ≡ some item =
                    sym here ∙ ap (get_elem? s.items) same_index ∙ found in
                  let equal : current ≡ item = cc in
                  subst (λ (w : WorkItem). is_pending w.status ≡ false) equal settled
            ]
      ]
    ]
  where
    beyond : get_elem? s.items s.cursor ≡ none → ⊥
    beyond ended =
        let last = get_elem?-some s.items i item found in
        get_elem?-inside s.items s.cursor (omega arith) ended

-- When `next` hands out nothing, no item from the session's cursor on is pending: the queue is
-- drained.
pub next_drained :
    (s : QbwcSession) (i : ℕ) (item : WorkItem)
    → (next s).1 ≡ none
    → s.cursor ≤ i
    → get_elem? s.items i ≡ some item
    → is_pending item.status ≡ false
unfolding next
next_drained s i item e h found =
    next_loop_drained (suc (length s.items)) s i item (omega arith) e h found

module _ (is_write_request : String → Bool) where
  enqueue_refused :
      (label qbxml : String) (s : QbwcSession)
      → is_write_request qbxml ≡ true
      → s.mode ≡ readonly
      → enqueue is_write_request label qbxml s ≡ none
  unfolding enqueue
  enqueue_refused label qbxml s writes read_only = rw (writes, read_only, enqueue)

  enqueue_read :
      (label qbxml : String) (s : QbwcSession)
      → is_write_request qbxml ≡ false
      → enqueue is_write_request label qbxml s
        ≡ some (record s { items = s.items ++ new_item is_write_request s label qbxml ∷ [] })
  unfolding enqueue
  enqueue_read label qbxml s reads = rw (reads, enqueue)

  adopt_refused :
      (work : List (String × String)) (s : QbwcSession)
      → s.mode ≡ readonly
      → any (λ (w : String × String). is_write_request w.1) work ≡ true
      → adopt is_write_request work s ≡ none
  unfolding adopt
  adopt_refused [] s read_only h = absurd (cc)
  adopt_refused ((label, qbxml) ∷ work) s read_only h = elim (Bool-cases (is_write_request qbxml)) [
    | inl writes ↦ rw (enqueue_refused label qbxml s writes read_only, adopt)
    | inr reads ↦
        let later : any (λ (w : String × String). is_write_request w.1) work ≡ true =
          rw reads at h in
        rw (enqueue_read label qbxml s reads, adopt) (adopt_refused work _ read_only later)
  ]

  -- If one of the requests that wait for the next connection is a write, a read-only connection is
  -- refused, its session is not registered, and every waiting request is dropped, the reads too.
  pub create_session-drops :
      (ticket : String) (r : Registry)
      → any (λ (w : String × String). is_write_request w.1) r.waiting_work ≡ true
      → create_session is_write_request ticket readonly r ≡ (record r { waiting_work = [] }, none)
  create_session-drops ticket r h =
      create_refused is_write_request ticket readonly r
        (adopt_refused r.waiting_work (new_session ticket readonly) refl h)
