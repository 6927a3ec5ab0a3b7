-- ===== src/Gatekeeper/Twice.antt =====
-- The double-forward guard: a second run for the same key.
use ap_hub.Prelude.{
  find-last, find-map, ℕ, suc, ◌≡◌, refl, sym, ap, ◌∙◌, subst, Bool, true, false, not, ◌||◌, String,
  List, [], ◌∷◌, Option, none, some, any, arith, find, Option-cases, Bool-cases, inl, inr, str_eq,
  str_eq_iff, ◌==◌,
}
use ap_hub.Gatekeeper.Severity.{InvoiceFinding, classify_findings}
use ap_hub.Gatekeeper.State.{
  ForwardStatus, pending, scanning, held, released, forwarding, forwarded, failed, ForwardRow,
  Message, Attachment, Mailroom, upsert_forward_intent, is_forward, with_status, set_forward_status,
}
use ap_hub.Gatekeeper.Gatekeep.{
  is_pdf, GatekeepDeps, was_forwarded, was_held, locked_forward, hold, record_proofs, forward_clean,
  decide, inspect, is_none, resolved, intent, screen,
}
use ap_hub.Gatekeeper.Clean.{Attempt-cases}

is_forward_refl : (row : ForwardRow) → is_forward row.tenant_id row.sha256 row ≡ true
is_forward_refl row =
    let a : (row.tenant_id == row.tenant_id) ≡ true = ground arith in
    let b : str_eq row.sha256 row.sha256 ≡ true = (str_eq_iff row.sha256 row.sha256).1 refl in
    ground (arith, a, b)

-- The row of the key says that the message was forwarded.
abbrev Done : ℕ → String → ℕ → Mailroom → Type 0
Done tenant sha id s =
    (row : ForwardRow) × (find (is_forward tenant sha) s.forwards ≡ some row)
    × (row.status ≡ forwarded)
    × (row.id ≡ id)

module _ (deps : GatekeepDeps) (tenant : ℕ) where
  hold-outcome :
      (row : ForwardRow) (reason : String) (s : Mailroom) (id : ℕ)
      → (hold deps tenant row reason s).1 ≡ was_forwarded id
      → ⊥
  unfolding hold
  hold-outcome row reason s id e = cc

  locked_forward-forwards :
      (id : String) (s : Mailroom) → (locked_forward deps id s).0.forwards ≡ s.forwards
  unfolding locked_forward
  locked_forward-forwards id s = elim (Attempt-cases (deps.send_forward s.sends id)) [
    | inl e ↦ rw (e, locked_forward) refl
    | inr (sent, e) ↦ rw (e, locked_forward) refl
  ]

  record_proofs-forwards :
      (attachments : List Attachment) (s : Mailroom)
      → (record_proofs tenant attachments s).forwards ≡ s.forwards
  unfolding record_proofs
  record_proofs-forwards [] s = refl
  record_proofs-forwards (a ∷ attachments) s = record_proofs-forwards attachments _ ∙ ground arith

  with_status-keeps :
      (sha : String) (id : ℕ) (status : ForwardStatus) (reason send : Option String)
      (row : ForwardRow)
      → is_forward tenant sha (with_status id status reason send row) ≡ is_forward tenant sha row
  with_status-keeps sha id status reason send row = ground arith

  forward_clean-Done :
      (row : ForwardRow) (message : Message) (s : Mailroom) (sha : String) (id : ℕ)
      → find (is_forward tenant sha) s.forwards ≡ some row
      → (forward_clean deps tenant row message s).1 ≡ was_forwarded id
      → Done tenant sha id (forward_clean deps tenant row message s).0
  unfolding forward_clean
  forward_clean-Done row message s sha id found e =
      let prepared = set_forward_status row.id forwarding none none s in
      elim (Attempt-cases (locked_forward deps message.gmail_message_id prepared).1) [
        | inl error ↦
            let r : was_held row.id (some "forward_failed") ≡ was_forwarded id =
              rw (error, forward_clean) at e in
            absurd (cc)
        | inr (sent, ok) ↦
            let r : was_forwarded row.id ≡ was_forwarded id = rw (ok, forward_clean) at e in
            let first =
              find-map (is_forward tenant sha) (with_status row.id forwarding none none) s.forwards
                row (with_status-keeps sha row.id forwarding none none) found in
            let asked : find (is_forward tenant sha)
                  (locked_forward deps message.gmail_message_id prepared).0.forwards
                ≡ some (with_status row.id forwarding none none row) =
              ap (find (is_forward tenant sha))
                (locked_forward-forwards message.gmail_message_id prepared)
              ∙ first in
            let second =
              find-map (is_forward tenant sha)
                (with_status row.id forwarded none (some sent.send_id)) _ _
                (with_status-keeps sha row.id forwarded none (some sent.send_id)) asked in
            rw (ok, forward_clean) (_, second, ground arith, ground (arith, r))
      ]

  decide-Done :
      (row : ForwardRow) (message : Message) (findings : List InvoiceFinding) (s : Mailroom)
      (sha : String) (id : ℕ)
      → find (is_forward tenant sha) s.forwards ≡ some row
      → (decide deps tenant row message findings s).1 ≡ was_forwarded id
      → Done tenant sha id (decide deps tenant row message findings s).0
  unfolding decide
  decide-Done row message findings s sha id found e =
      let c = classify_findings findings in
      elim (Bool-cases (c.has_critical || c.has_high)) [
        | inl bad ↦ absurd (hold-outcome row _ s id (rw (bad, decide) at e))
        | inr good ↦
            rw (good, decide)
              (forward_clean-Done row message s sha id found (rw (good, decide) at e))
      ]

  inspect-Done :
      (row : ForwardRow) (message : Message) (attachments : List Attachment) (s : Mailroom)
      (sha : String) (id : ℕ)
      → find (is_forward tenant sha) s.forwards ≡ some row
      → (inspect deps tenant row message attachments s).1 ≡ was_forwarded id
      → Done tenant sha id (inspect deps tenant row message attachments s).0
  unfolding inspect
  inspect-Done row message attachments s sha id found e = elim (Bool-cases (is_none attachments)) [
    | inl empty ↦ absurd (hold-outcome row _ s id (rw (empty, inspect) at e))
    | inr some_there ↦
        elim (Bool-cases
          (any (λ (a : Attachment). not (is_pdf deps.to_lower a.mime)) attachments)) [
            | inl other ↦ absurd (hold-outcome row _ s id (rw (some_there, other, inspect) at e))
            | inr pdfs ↦ elim (Attempt-cases (deps.scan attachments)) [
              | inl error ↦
                  absurd (hold-outcome row _ s id (rw (some_there, pdfs, error, inspect) at e))
              | inr (findings, ok) ↦
                  rw (some_there, pdfs, ok, inspect)
                    (decide-Done row message findings _ sha id
                      (ap (find (is_forward tenant sha)) (record_proofs-forwards attachments s)
                        ∙ found)
                      (rw (some_there, pdfs, ok, inspect) at e))
            ]
          ]
  ]

  -- After the intent is stored, the row that it returns is the one of its key.
  upsert-found :
      (new : ForwardRow) (s : Mailroom)
      → let made = upsert_forward_intent new s in
        find (is_forward new.tenant_id new.sha256) made.0.forwards ≡ some (made.1).0
  unfolding upsert_forward_intent
  upsert-found new s = elim (Option-cases (find (is_forward new.tenant_id new.sha256) s.forwards)) [
    | inl e ↦
        rw (e, upsert_forward_intent)
          (find-last (is_forward new.tenant_id new.sha256) s.forwards
            (record new { id = s.next_forward_id }) e (is_forward_refl new))
    | inr (row, e) ↦ rw (e, upsert_forward_intent) e
  ]

  resolved-forwarded :
      (row : ForwardRow) (status : ForwardStatus) (id : ℕ)
      → row.status ≡ status
      → resolved row ≡ some (was_forwarded id)
      → (row.status ≡ forwarded) × (row.id ≡ id)
  resolved-forwarded row pending id e r =
      let q : none ≡ some (was_forwarded id) = rw e at r in absurd (cc)
  resolved-forwarded row scanning id e r =
      let q : none ≡ some (was_forwarded id) = rw e at r in absurd (cc)
  resolved-forwarded row held id e r =
      let q : some (was_held row.id none) ≡ some (was_forwarded id) = rw e at r in absurd (cc)
  resolved-forwarded row released id e r =
      let q : none ≡ some (was_forwarded id) = rw e at r in absurd (cc)
  resolved-forwarded row forwarding id e r =
      let q : none ≡ some (was_forwarded id) = rw e at r in absurd (cc)
  resolved-forwarded row forwarded id e r =
      let q : some (was_forwarded row.id) ≡ some (was_forwarded id) = rw e at r in (e, cc)
  resolved-forwarded row failed id e r =
      let q : none ≡ some (was_forwarded id) = rw e at r in absurd (cc)

  screen-Done :
      (message : Message) (attachments : List Attachment) (s : Mailroom) (id : ℕ)
      → (screen deps tenant message attachments s).1 ≡ was_forwarded id
      → Done tenant
          (deps.rep_sha attachments message.gmail_message_id)
          id
          (screen deps tenant message attachments s).0
  unfolding screen
  screen-Done message attachments s id e =
      let made = upsert_forward_intent (intent deps tenant message attachments) s in
      let found = upsert-found (intent deps tenant message attachments) s in
      let sha = deps.rep_sha attachments message.gmail_message_id in
      elim (Bool-cases (made.1).1) [
        | inl fresh ↦
            rw (fresh, screen)
              (inspect-Done (made.1).0 message attachments made.0 sha id found
                (rw (fresh, screen) at e))
        | inr old ↦ elim (Option-cases (resolved (made.1).0)) [
          | inl open_row ↦
              rw (old, open_row, screen)
                (inspect-Done (made.1).0 message attachments made.0 sha id found
                  (rw (old, open_row, screen) at e))
          | inr (outcome, r) ↦
              let same : outcome ≡ was_forwarded id = rw (old, r, screen) at e in
              let (status, own) =
                resolved-forwarded (made.1).0 (made.1).0.status id refl (r ∙ ap some same) in
              rw (old, r, screen) ((made.1).0, found, status, own)
        ]
      ]

  upsert_old :
      (new row : ForwardRow) (s : Mailroom)
      → find (is_forward new.tenant_id new.sha256) s.forwards ≡ some row
      → upsert_forward_intent new s
        ≡ (record s { next_forward_id = suc s.next_forward_id }, (row, false))
  unfolding upsert_forward_intent
  upsert_old new row s e = rw (e, upsert_forward_intent) refl

  screen_old :
      (message : Message) (attachments : List Attachment) (t : Mailroom) (row : ForwardRow)
      → find (is_forward tenant (deps.rep_sha attachments message.gmail_message_id)) t.forwards
        ≡ some row
      → row.status ≡ forwarded
      → screen deps tenant message attachments t
        ≡ (record t { next_forward_id = suc t.next_forward_id }, was_forwarded row.id)
  unfolding screen
  screen_old message attachments t row found status =
      let stored = upsert_old (intent deps tenant message attachments) row t found in
      rw (stored, status, screen)
        (ap (λ (m : Mailroom × (ForwardRow × Bool)). (m.0, was_forwarded row.id)) stored)

  -- Once the screening of a message ended with the forward `id`, the screening of a message with the
  -- same key, in the tables as the first left them, changes nothing but the sequence of ids, hands
  -- nothing to the mail client, and reports the same forward.
  pub forward_twice :
      (message later : Message) (attachments others : List Attachment) (s : Mailroom) (id : ℕ)
      → (screen deps tenant message attachments s).1 ≡ was_forwarded id
      → deps.rep_sha others later.gmail_message_id
        ≡ deps.rep_sha attachments message.gmail_message_id
      → let t = (screen deps tenant message attachments s).0 in
        screen deps tenant later others t
        ≡ (record t { next_forward_id = suc t.next_forward_id }, was_forwarded id)
  forward_twice message later attachments others s id e same =
      let t = (screen deps tenant message attachments s).0 in
      again t (screen-Done message attachments s id e)
    where
      again :
          (t : Mailroom)
          → Done tenant (deps.rep_sha attachments message.gmail_message_id) id t
          → screen deps tenant later others t
            ≡ (record t { next_forward_id = suc t.next_forward_id }, was_forwarded id)
      again t (row, found, status, own) =
          screen_old later others t row
            (subst (λ sha. find (is_forward tenant sha) t.forwards ≡ some row) (sym same) found)
            status
          ∙ ap (λ i. (record t { next_forward_id = suc t.next_forward_id }, was_forwarded i)) own
