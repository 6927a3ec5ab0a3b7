-- ===== src/Gatekeeper/Clean.antt =====
-- The messages that a run hands to the mail client.
use ap_hub.Prelude.{
  ℕ, ◌≡◌, refl, ap, ◌∙◌, false, not, String, List, [], ◌∷◌, ◌++◌, none, some, any, arith, find,
  Option-cases, Bool-cases, inl, inr, ◌⊎◌, if◌then◌else◌,
}
use ap_hub.Gatekeeper.Severity.{InvoiceFinding, is_critical, is_high, classify_findings}
use ap_hub.Gatekeeper.State.{
  ForwardRow, Message, Attachment, Mailroom, upsert_forward_intent, is_forward, set_forward_status,
  forwarding,
}
use ap_hub.Gatekeeper.Gatekeep.{
  is_pdf, Attempt, returns, throws, GatekeepDeps, locked_forward, send_alert, hold, record_proofs,
  forward_clean, decide, inspect, is_none, attachments_of, resolved, intent, screen, find_message,
  gatekeep_once,
}

pub Attempt-cases : {A : Type 0} (r : Attempt A) → (r ≡ throws) ⊎ ((a : A) × (r ≡ returns a))
Attempt-cases throws = inl refl
Attempt-cases (returns a) = inr (a, refl)

-- Every attachment was scanned, and no finding is critical or high.
abbrev pub IsClean : GatekeepDeps → List Attachment → Type 0
IsClean deps attachments =
    (is_none attachments ≡ false)
    × (any (λ (a : Attachment). not (is_pdf deps.to_lower a.mime)) attachments ≡ false)
    × ((findings : List InvoiceFinding) × (deps.scan attachments ≡ returns findings)
        × (any is_critical findings ≡ false)
        × (any is_high findings ≡ false))

module _ (deps : GatekeepDeps) (tenant : ℕ) where
  send_alert-sends :
      (id : ℕ) (reason : String) (s : Mailroom)
      → (send_alert deps tenant id reason s).sends ≡ s.sends
  unfolding send_alert
  send_alert-sends id reason s = ground arith

  hold-sends :
      (row : ForwardRow) (reason : String) (s : Mailroom)
      → (hold deps tenant row reason s).0.sends ≡ s.sends
  unfolding hold
  hold-sends row reason s = send_alert-sends row.id reason _

  record_proofs-sends :
      (attachments : List Attachment) (s : Mailroom)
      → (record_proofs tenant attachments s).sends ≡ s.sends
  unfolding record_proofs
  record_proofs-sends [] s = refl
  record_proofs-sends (a ∷ attachments) s = record_proofs-sends attachments _ ∙ ground arith

  locked_forward-sends :
      (id : String) (s : Mailroom) → (locked_forward deps id s).0.sends ≡ s.sends ++ id ∷ []
  unfolding locked_forward
  locked_forward-sends id s = elim (Attempt-cases (deps.send_forward s.sends id)) [
    | inl e ↦ rw (e, locked_forward) refl
    | inr (sent, e) ↦ rw (e, locked_forward) refl
  ]

  forward_clean-sends :
      (row : ForwardRow) (message : Message) (s : Mailroom)
      → (forward_clean deps tenant row message s).0.sends ≡ s.sends ++ message.gmail_message_id ∷ []
  unfolding forward_clean
  forward_clean-sends row message s =
      let prepared = set_forward_status row.id forwarding none none s in
      let asked = locked_forward-sends message.gmail_message_id prepared in
      elim (Attempt-cases (locked_forward deps message.gmail_message_id prepared).1) [
        | inl e ↦ rw (e, forward_clean) (send_alert-sends row.id "forward_failed" _ ∙ asked)
        | inr (sent, e) ↦ rw (e, forward_clean) asked
      ]

  -- A run from one point on either sends nothing, or sends this message and the scan was clean.
  Sends : Message → List Attachment → Mailroom → Mailroom → Type 0
  Sends message attachments s t =
      (t.sends ≡ s.sends)
      ⊎ ((t.sends ≡ s.sends ++ message.gmail_message_id ∷ []) × IsClean deps attachments)

  decide-sends :
      (row : ForwardRow) (message : Message) (findings : List InvoiceFinding) (s : Mailroom)
      → ((decide deps tenant row message findings s).0.sends ≡ s.sends)
        ⊎ (((decide deps tenant row message findings s).0.sends
              ≡ s.sends ++ message.gmail_message_id ∷ [])
            × (any is_critical findings ≡ false)
            × (any is_high findings ≡ false))
  unfolding decide classify_findings
  decide-sends row message findings s = elim (Bool-cases (any is_critical findings)) [
    | inl worst ↦ inl (rw worst (hold-sends row _ s))
    | inr fine ↦ elim (Bool-cases (any is_high findings)) [
      | inl bad ↦ inl (rw (fine, bad) (hold-sends row _ s))
      | inr good ↦ inr (rw (fine, good) (forward_clean-sends row message s, refl, refl))
    ]
  ]

  inspect-Sends :
      (row : ForwardRow) (message : Message) (attachments : List Attachment) (s : Mailroom)
      → Sends message attachments s (inspect deps tenant row message attachments s).0
  unfolding inspect Sends
  inspect-Sends row message attachments s = elim (Bool-cases (is_none attachments)) [
    | inl empty ↦ inl (rw empty (hold-sends row _ s))
    | inr some_there ↦
        elim (Bool-cases
          (any (λ (a : Attachment). not (is_pdf deps.to_lower a.mime)) attachments)) [
            | inl other ↦ inl (rw (some_there, other) (hold-sends row _ s))
            | inr pdfs ↦ elim (Attempt-cases (deps.scan attachments)) [
              | inl e ↦ inl (rw (some_there, pdfs, e, inspect) (hold-sends row _ s))
              | inr (findings, e) ↦
                  elim (decide-sends row message findings (record_proofs tenant attachments s)) [
                    | inl same ↦ inl (
                        rw (some_there, pdfs, e, inspect)
                          (same ∙ record_proofs-sends attachments s))
                    | inr (sent, fine, good) ↦ inr (
                      rw (some_there, pdfs, e, inspect)
                          (sent
                            ∙ ap (λ l. l ++ message.gmail_message_id ∷ [])
                                (record_proofs-sends attachments s)),
                      (some_there, pdfs, (findings, e, fine, good)),
                    )
                  ]
            ]
          ]
  ]

  upsert-sends : (new : ForwardRow) (s : Mailroom) → (upsert_forward_intent new s).0.sends ≡ s.sends
  unfolding upsert_forward_intent
  upsert-sends new s = elim (Option-cases (find (is_forward new.tenant_id new.sha256) s.forwards)) [
    | inl e ↦ rw (e, upsert_forward_intent) refl
    | inr (row, e) ↦ rw (e, upsert_forward_intent) refl
  ]

  screen-Sends :
      (message : Message) (attachments : List Attachment) (s : Mailroom)
      → Sends message attachments s (screen deps tenant message attachments s).0
  unfolding screen Sends
  screen-Sends message attachments s =
      let made = upsert_forward_intent (intent deps tenant message attachments) s in
      let same = upsert-sends (intent deps tenant message attachments) s in
      elim (Option-cases (if (made.1).1 then none else resolved (made.1).0)) [
        | inr (outcome, e) ↦ inl (rw (e, screen) same)
        | inl e ↦ elim (inspect-Sends (made.1).0 message attachments made.0) [
          | inl kept ↦ inl (rw (e, screen) (kept ∙ same))
          | inr (sent, clean) ↦
              inr (rw (e, screen) (sent ∙ ap (λ l. l ++ message.gmail_message_id ∷ []) same), clean)
        ]
      ]

  -- A run hands nothing to the mail client, or exactly one message, the one it is about, and then
  -- that message has attachments, all of them are PDFs, their scan returned findings, and no finding
  -- is critical or high, by its severity or by its pattern.
  pub gatekeep_once-IsClean :
      (message_id : ℕ) (s : Mailroom)
      → let t = (gatekeep_once deps tenant message_id s).0 in
        (t.sends ≡ s.sends)
        ⊎ ((message : Message) × (find_message tenant message_id s ≡ some message)
            × (t.sends ≡ s.sends ++ message.gmail_message_id ∷ [])
            × IsClean deps (attachments_of tenant message.id s))
  unfolding gatekeep_once Sends
  gatekeep_once-IsClean message_id s = elim (Option-cases (find_message tenant message_id s)) [
    | inl e ↦ inl (rw (e, gatekeep_once) refl)
    | inr (message, e) ↦ elim (screen-Sends message (attachments_of tenant message.id s) s) [
      | inl same ↦ inl (rw (e, gatekeep_once) same)
      | inr (sent, clean) ↦ inr (message, e, rw (e, gatekeep_once) sent, clean)
    ]
  ]
