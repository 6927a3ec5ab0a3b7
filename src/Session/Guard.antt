-- ===== src/Session/Guard.antt =====
-- The write guard through every operation of the sessions and their registry.
use ap_hub.Prelude.{
  ℕ, zero, suc, ◌≡◌, refl, sym, subst, Bool, true, false, not, ◌&&◌, String, List, [], ◌∷◌, ◌++◌,
  Option, none, some, length, get_elem?, set, All, All-append, All-select, any, find, arith,
  Option-cases, Bool-cases, inl, inr,
}
use ap_hub.Session.Work.{
  WorkItem, QbDesktopMode, QbwcSession, may_write, new_session, new_item, enqueue, next_loop, next,
  is_pending, sent, with_response, record_response, is_done,
}
use ap_hub.Session.Registry.{
  enqueue_to, enqueues, Registry, Call, creates, ends, queues, asks_next, answers, has_ticket,
  update_session, put_session, adopt, create_session, enqueue_for_next_run, step, run,
}

module _ (is_write_request : String → Bool) where
  -- An item says of its request whether it is a write, and is no write in a read-only session.
  abbrev pub Fits : QbDesktopMode → WorkItem → Type 0
  Fits mode item =
      (item.is_write ≡ is_write_request item.qbxml)
      × (may_write mode ≡ false → item.is_write ≡ false)

  abbrev pub Guarded : QbwcSession → Type 0
  Guarded s = All (Fits s.mode) s.items

  enqueue-Guarded :
      (label qbxml : String) (s t : QbwcSession)
      → enqueue is_write_request label qbxml s ≡ some t
      → Guarded s
      → Guarded t
  unfolding enqueue
  enqueue-Guarded label qbxml s t e g =
      elim (Bool-cases (is_write_request qbxml && not (may_write s.mode))) [
        | inl refused ↦ let none_queued : none ≡ some t = rw (refused, enqueue) at e in absurd (cc)
        | inr allowed ↦
            let item = new_item is_write_request s label qbxml in
            let queued : QbwcSession = record s { items = s.items ++ item ∷ [] } in
            let same : some queued ≡ some t = rw (allowed, enqueue) at e in
            let own : queued ≡ t = cc in
            subst Guarded own (
              All-append (Fits s.mode) s.items (item ∷ []) g
                ((refl, λ read_only. ground (arith, allowed, read_only)), tt))
      ]

  All-set :
      (P : WorkItem → Type 0) (items : List WorkItem) (i : ℕ) (item : WorkItem)
      → All P items
      → P item
      → All P (set items i item)
  All-set P [] i item a p = tt
  All-set P (first ∷ items) zero item a p = (p, a.1)
  All-set P (first ∷ items) (suc i) item a p = (a.0, All-set P items i item a.1 p)

  All-elem :
      (P : WorkItem → Type 0) (items : List WorkItem) (i : ℕ) (item : WorkItem)
      → All P items
      → get_elem? items i ≡ some item
      → P item
  All-elem P [] i item a e = absurd (cc)
  All-elem P (first ∷ items) zero item a e = let same : first ≡ item = cc in subst P same a.0
  All-elem P (first ∷ items) (suc i) item a e = All-elem P items i item a.1 e

  next_loop-Guarded : (fuel : ℕ) (s : QbwcSession) → Guarded s → Guarded (next_loop fuel s).0
  unfolding next_loop
  next_loop-Guarded zero s g = g
  next_loop-Guarded (suc fuel) s g = elim (Option-cases (get_elem? s.items s.cursor)) [
    | inl e ↦ rw (e, next_loop) g
    | inr (item, e) ↦ elim (Bool-cases (is_pending item.status)) [
      | inl waits ↦
          rw (e, waits, next_loop)
            (All-set (Fits s.mode) s.items s.cursor (record item { status = sent }) g
              (All-elem (Fits s.mode) s.items s.cursor item g e))
      | inr settled ↦
          rw (e, settled, next_loop) (next_loop-Guarded fuel (record s { cursor = suc s.cursor }) g)
    ]
  ]

  record_response-Guarded :
      (response : String) (is_error : Bool) (s : QbwcSession)
      → Guarded s
      → Guarded (record_response response is_error s)
  unfolding record_response
  record_response-Guarded response is_error s g = elim (Option-cases (get_elem? s.items s.cursor)) [
    | inl e ↦ rw (e, record_response) g
    | inr (item, e) ↦
        rw (e, record_response)
          (All-set (Fits s.mode) s.items s.cursor (with_response response is_error item) g
            (ground (arith, All-elem (Fits s.mode) s.items s.cursor item g e)))
  ]

  next-Guarded : (s : QbwcSession) → Guarded s → Guarded (next s).0
  unfolding next
  next-Guarded s g = next_loop-Guarded (suc (length s.items)) s g

  All-update_session :
      (ticket : String) (change : QbwcSession → QbwcSession) (sessions : List QbwcSession)
      → ((s : QbwcSession) → Guarded s → Guarded (change s))
      → All Guarded sessions
      → All Guarded (update_session ticket change sessions)
  All-update_session ticket change [] keeps a = tt
  All-update_session ticket change (s ∷ sessions) keeps a = (
    elim (Bool-cases (has_ticket ticket s)) [
      | inl own ↦ rw own (keeps s a.0)
      | inr other ↦ rw other (a.0)
    ],
    All-update_session ticket change sessions keeps a.1,
  )

  adopt-Guarded :
      (work : List (String × String)) (s t : QbwcSession)
      → adopt is_write_request work s ≡ some t
      → Guarded s
      → Guarded t
  unfolding adopt
  adopt-Guarded [] s t e g = let same : s ≡ t = cc in subst Guarded same g
  adopt-Guarded ((label, qbxml) ∷ work) s t e g =
      elim (Option-cases (enqueue is_write_request label qbxml s)) [
        | inl refused ↦ let none_adopted : none ≡ some t = rw (refused, adopt) at e in absurd (cc)
        | inr (u, queued) ↦
            adopt-Guarded work u t (rw (queued, adopt) at e)
              (enqueue-Guarded label qbxml s u queued g)
      ]

  put_session-Guarded :
      (new : QbwcSession) (sessions : List QbwcSession)
      → Guarded new
      → All Guarded sessions
      → All Guarded (put_session new sessions)
  unfolding put_session
  put_session-Guarded new sessions g a = elim (Bool-cases (any (has_ticket new.ticket) sessions)) [
    | inl there ↦
        rw (there, put_session) (All-update_session new.ticket (λ _. new) sessions (λ _ _. g) a)
    | inr fresh ↦ rw (fresh, put_session) (All-append Guarded sessions (new ∷ []) a (g, tt))
  ]

  All-find :
      (test : QbwcSession → Bool) (sessions : List QbwcSession) (s : QbwcSession)
      → find test sessions ≡ some s
      → All Guarded sessions
      → Guarded s
  All-find test [] s e a = absurd (cc)
  All-find test (first ∷ sessions) s e a = elim (Bool-cases (test first)) [
    | inl hit ↦
        let found : some first ≡ some s = rw hit at e in
        let same : first ≡ s = cc in subst Guarded same a.0
    | inr miss ↦ All-find test sessions s (rw miss at e) a.1
  ]

  pub create_refused :
      (ticket : String) (mode : QbDesktopMode) (r : Registry)
      → adopt is_write_request r.waiting_work (new_session ticket mode) ≡ none
      → create_session is_write_request ticket mode r ≡ (record r { waiting_work = [] }, none)
  unfolding create_session
  create_refused ticket mode r e = rw (e, create_session)

  create_adopted :
      (ticket : String) (mode : QbDesktopMode) (r : Registry) (s : QbwcSession)
      → adopt is_write_request r.waiting_work (new_session ticket mode) ≡ some s
      → create_session is_write_request ticket mode r
        ≡ (record r { waiting_work = []; sessions = put_session s r.sessions }, some s)
  unfolding create_session
  create_adopted ticket mode r s e = rw (e, create_session)

  create_session-Guarded :
      (ticket : String) (mode : QbDesktopMode) (r : Registry)
      → All Guarded r.sessions
      → All Guarded ((create_session is_write_request ticket mode r).0).sessions
  create_session-Guarded ticket mode r a =
      elim (Option-cases (adopt is_write_request r.waiting_work (new_session ticket mode))) [
        | inl refused ↦
            subst (λ (x : Registry × Option QbwcSession). All Guarded (x.0).sessions)
              (sym (create_refused ticket mode r refused)) a
        | inr (s, adopted) ↦
            subst (λ (x : Registry × Option QbwcSession). All Guarded (x.0).sessions)
              (sym (create_adopted ticket mode r s adopted))
              (put_session-Guarded s r.sessions (adopt-Guarded r.waiting_work _ s adopted tt) a)
      ]

  queue_waits :
      (label qbxml : String) (r : Registry)
      → find (λ s. not (is_done s)) r.sessions ≡ none
      → enqueue_for_next_run is_write_request label qbxml r
        ≡ (record r { waiting_work = r.waiting_work ++ (label, qbxml) ∷ [] }, true)
  unfolding enqueue_for_next_run
  queue_waits label qbxml r e = rw (e, enqueue_for_next_run)

  queue_refused :
      (label qbxml : String) (r : Registry) (live : QbwcSession)
      → find (λ s. not (is_done s)) r.sessions ≡ some live
      → enqueue is_write_request label qbxml live ≡ none
      → enqueue_for_next_run is_write_request label qbxml r ≡ (r, false)
  unfolding enqueue_for_next_run
  queue_refused label qbxml r live e f = rw (e, f, enqueue_for_next_run)

  queue_live :
      (label qbxml : String) (r : Registry) (live t : QbwcSession)
      → find (λ s. not (is_done s)) r.sessions ≡ some live
      → enqueue is_write_request label qbxml live ≡ some t
      → enqueue_for_next_run is_write_request label qbxml r
        ≡ (record r { sessions = update_session live.ticket (λ _. t) r.sessions }, true)
  unfolding enqueue_for_next_run
  queue_live label qbxml r live t e f = rw (e, f, enqueue_for_next_run)

  enqueue_for_next_run-Guarded :
      (label qbxml : String) (r : Registry)
      → All Guarded r.sessions
      → All Guarded ((enqueue_for_next_run is_write_request label qbxml r).0).sessions
  enqueue_for_next_run-Guarded label qbxml r a =
      elim (Option-cases (find (λ s. not (is_done s)) r.sessions)) [
        | inl absent ↦
            subst (λ (x : Registry × Bool). All Guarded (x.0).sessions)
              (sym (queue_waits label qbxml r absent)) a
        | inr (live, found) ↦ elim (Option-cases (enqueue is_write_request label qbxml live)) [
          | inl refused ↦
              subst (λ (x : Registry × Bool). All Guarded (x.0).sessions)
                (sym (queue_refused label qbxml r live found refused)) a
          | inr (t, queued) ↦
              subst (λ (x : Registry × Bool). All Guarded (x.0).sessions)
                (sym (queue_live label qbxml r live t found queued))
                (All-update_session live.ticket (λ _. t) r.sessions
                  (λ _ _.
                    enqueue-Guarded label qbxml live t queued
                      (All-find (λ s. not (is_done s)) r.sessions live found a))
                  a)
        ]
      ]

  enqueue_to-Guarded :
      (label qbxml : String) (s : QbwcSession)
      → Guarded s
      → Guarded (enqueue_to is_write_request label qbxml s)
  unfolding enqueue_to
  enqueue_to-Guarded label qbxml s g =
      elim (Option-cases (enqueue is_write_request label qbxml s)) [
        | inl refused ↦ rw refused g
        | inr (t, queued) ↦ rw queued (enqueue-Guarded label qbxml s t queued g)
      ]

  step-Guarded :
      (r : Registry) (call : Call)
      → All Guarded r.sessions
      → All Guarded (step is_write_request r call).sessions
  unfolding step
  step-Guarded r (creates ticket mode) a = create_session-Guarded ticket mode r a
  step-Guarded r (ends ticket) a = All-select Guarded (λ s. not (has_ticket ticket s)) r.sessions a
  step-Guarded r (queues label qbxml) a = enqueue_for_next_run-Guarded label qbxml r a
  step-Guarded r (enqueues ticket label qbxml) a =
      All-update_session ticket (enqueue_to is_write_request label qbxml) r.sessions
        (enqueue_to-Guarded label qbxml) a
  step-Guarded r (asks_next ticket) a =
      All-update_session ticket (λ s. (next s).0) r.sessions next-Guarded a
  step-Guarded r (answers ticket response is_error) a =
      All-update_session ticket (record_response response is_error) r.sessions
        (record_response-Guarded response is_error) a

  -- Whatever is queued, connected, fetched and answered in whichever order: if every session's items
  -- say of their requests whether they are writes, and no read-only session holds a write, then this
  -- is so after the calls.
  pub run-Guarded :
      (calls : List Call) (r : Registry)
      → All Guarded r.sessions
      → All Guarded (run is_write_request r calls).sessions
  unfolding run
  run-Guarded [] r a = a
  run-Guarded (call ∷ calls) r a =
      run-Guarded calls (step is_write_request r call) (step-Guarded r call a)
