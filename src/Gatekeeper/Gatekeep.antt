-- ===== src/Gatekeeper/Gatekeep.antt =====
-- `gatekeepOnce`, `sendAlert` and `createLockedForwarder`. Digests, the recognition of a PDF, the
-- store of attachments, the scan, the mail client and the alert are dependencies.
use ap_hub.Prelude.{
  ℕ, Bool, true, false, not, ◌&&◌, ◌||◌, String, List, [], ◌∷◌, ◌++◌, Option, none, some, str_eq,
  ◌==◌, any, find, select, if◌then◌else◌,
}
use ap_hub.Mapping.Tax.{text_or}
use ap_hub.Gatekeeper.Severity.{InvoiceFinding, classify_findings}
use ap_hub.Text.{Text, codes, includes}
use ap_hub.Gatekeeper.State.{
  scanning, held, forwarding, forwarded, failed, ForwardRow, Message, Attachment, AttachmentProof,
  Mailroom, upsert_forward_intent, set_forward_status, mark_alerted, raise_for, audit_for,
}

pub data Attempt (A : Type 0) : Type 0 where
  returns : A → Attempt A
  throws : Attempt A

pub record Sent : Type 0 where
  pub send_id : String
  pub to : String

pub record GatekeepDeps : Type 0 where
  -- sha256Hex of the sorted digests of the attachments, or of the message's id.
  pub rep_sha : List Attachment → String → String
  pub subject_tag : String → String
  pub to_lower : Text → Text
  -- Loads the bytes of every attachment and has them scanned.
  pub scan : List Attachment → Attempt (List InvoiceFinding)
  -- `gmail.sendForward`, after the messages that were handed to it before.
  pub send_forward : List String → String → Attempt Sent
  pub recipient : String
  pub alert : Mailroom → ℕ → String → Bool

-- `(mime ?? '').toLowerCase().includes('pdf')`; the lower case is the platform's.
unfoldable pub is_pdf : (Text → Text) → Option String → Bool
unfolding includes
is_pdf to_lower none = includes (codes "pdf") (to_lower [])
is_pdf to_lower (some mime) = includes (codes "pdf") (to_lower (codes mime))

pub data GatekeepOutcome : Type 0 where
  was_forwarded : ℕ → GatekeepOutcome
  -- The reason, none where a run before this one held it.
  was_held : ℕ → Option String → GatekeepOutcome
  noop : GatekeepOutcome

-- The forwarder that is bound to one recipient: a send to anyone else is an error.
unfoldable pub locked_forward : GatekeepDeps → String → Mailroom → Mailroom × Attempt Sent
locked_forward deps id s =
    let t = record s { sends = s.sends ++ id ∷ [] } in
    elim (deps.send_forward s.sends id) [
      | throws ↦ (t, throws)
      | returns sent ↦ (t, if str_eq sent.to deps.recipient then returns sent else throws)
    ]

-- An alert that fails leaves an exception behind.
unfoldable pub send_alert : GatekeepDeps → ℕ → ℕ → String → Mailroom → Mailroom
send_alert deps tenant id reason s =
    if deps.alert s id reason then mark_alerted id s else raise_for tenant "alert_failed" id s

unfoldable pub hold : GatekeepDeps → ℕ → ForwardRow → String → Mailroom → Mailroom × GatekeepOutcome
hold deps tenant row reason s = (
  send_alert deps tenant row.id reason (
      audit_for tenant "gatekeep.hold" row.id
        (raise_for tenant reason row.id (set_forward_status row.id held (some reason) none s))),
  was_held row.id (some reason),
)

-- ON CONFLICT DO NOTHING for each attachment.
unfoldable pub record_proofs : ℕ → List Attachment → Mailroom → Mailroom
record_proofs tenant [] s = s
record_proofs tenant (a ∷ attachments) s =
    let there =
      any (λ (r : AttachmentProof). (r.tenant_id == tenant) && (r.attachment_id == a.id))
        s.proofs in
    record_proofs tenant attachments (
      if there then s else record s {
        proofs = s.proofs ++ record { tenant_id = tenant; attachment_id = a.id } ∷ [];
      })

unfoldable pub forward_clean :
    GatekeepDeps → ℕ → ForwardRow → Message → Mailroom → Mailroom × GatekeepOutcome
forward_clean deps tenant row message s =
    let (t, result) =
      locked_forward deps message.gmail_message_id
        (set_forward_status row.id forwarding none none s) in
    elim result [
      | returns sent ↦ (
        audit_for tenant "gatekeep.forward" row.id
            (set_forward_status row.id forwarded none (some sent.send_id) t),
        was_forwarded row.id,
      )
      | throws ↦ (
        send_alert deps tenant row.id "forward_failed" (
            raise_for tenant "forward_failed" row.id
              (set_forward_status row.id failed (some "forward_failed") none t)),
        was_held row.id (some "forward_failed"),
      )
    ]

unfoldable pub decide :
    GatekeepDeps
    → ℕ
    → ForwardRow
    → Message
    → List InvoiceFinding
    → Mailroom
    → Mailroom × GatekeepOutcome
decide deps tenant row message findings s =
    let c = classify_findings findings in
    if c.has_critical || c.has_high
    then hold deps tenant row (text_or "fraud_flag" c.critical_reason) s
    else forward_clean deps tenant row message s

abbrev pub is_none : List Attachment → Bool
is_none [] = true
is_none (a ∷ attachments) = false

unfoldable pub inspect :
    GatekeepDeps
    → ℕ
    → ForwardRow
    → Message
    → List Attachment
    → Mailroom
    → Mailroom × GatekeepOutcome
inspect deps tenant row message attachments s =
    if is_none attachments
    then hold deps tenant row "no_attachment" s
    else if any (λ (a : Attachment). not (is_pdf deps.to_lower a.mime)) attachments
    then hold deps tenant row "unscannable_format" s
    else elim (deps.scan attachments) [
      | throws ↦ hold deps tenant row "proof_scan_unavailable" s
      | returns findings ↦
          decide deps tenant row message findings (record_proofs tenant attachments s)
    ]

abbrev pub first_id : List Attachment → Option ℕ
first_id [] = none
first_id (a ∷ attachments) = some a.id

abbrev pub attachments_of : ℕ → ℕ → Mailroom → List Attachment
attachments_of tenant message_id s =
    select (λ (a : Attachment). (a.tenant_id == tenant) && (a.message_id == message_id))
      s.attachments

-- What a run that already ended says of the forward.
abbrev pub resolved : ForwardRow → Option GatekeepOutcome
resolved row = elim row.status [
  | forwarded ↦ some (was_forwarded row.id)
  | held ↦ some (was_held row.id none)
  | _ ↦ none
]

abbrev pub intent : GatekeepDeps → ℕ → Message → List Attachment → ForwardRow
intent deps tenant message attachments =
    let sha = deps.rep_sha attachments message.gmail_message_id in
    record {
      id = 0;
      tenant_id = tenant;
      message_id = message.id;
      attachment_id = first_id attachments;
      sha256 = sha;
      status = scanning;
      hold_reason = none;
      gmail_send_id = none;
      subject_tag = deps.subject_tag sha;
      released_by = none;
      is_alerted = false;
    }

unfoldable pub screen :
    GatekeepDeps → ℕ → Message → List Attachment → Mailroom → Mailroom × GatekeepOutcome
screen deps tenant message attachments s =
    let (t, (row, is_created)) = upsert_forward_intent (intent deps tenant message attachments) s in
    elim (if is_created then none else resolved row) [
      | some outcome ↦ (t, outcome)
      | none ↦ inspect deps tenant row message attachments t
    ]

abbrev pub find_message : ℕ → ℕ → Mailroom → Option Message
find_message tenant id s =
    find (λ (m : Message). (m.tenant_id == tenant) && (m.id == id)) s.messages

unfoldable pub gatekeep_once : GatekeepDeps → ℕ → ℕ → Mailroom → Mailroom × GatekeepOutcome
gatekeep_once deps tenant message_id s = elim (find_message tenant message_id s) [
  | none ↦ (s, noop)
  | some message ↦ screen deps tenant message (attachments_of tenant message.id s) s
]
