-- ===== src/Gatekeeper/State.antt =====
-- The tables that `gatekeepOnce` reads and writes (src/gatekeeper/repo.ts), with the messages that
-- were handed to the mail client so far. Texts that only explain are left out.
use ap_hub.Prelude.{
  ℕ, suc, Bool, true, false, ◌&&◌, String, List, [], ◌∷◌, ◌++◌, map, Option, none, some, str_eq,
  ◌==◌, find, if◌then◌else◌,
}

pub data ForwardStatus : Type 0 where
  pending scanning held released forwarding forwarded failed : ForwardStatus

pub record ForwardRow : Type 0 where
  pub id : ℕ
  pub tenant_id : ℕ
  pub message_id : ℕ
  pub attachment_id : Option ℕ
  pub sha256 : String
  pub status : ForwardStatus
  pub hold_reason : Option String
  pub gmail_send_id : Option String
  pub subject_tag : String
  pub released_by : Option String
  pub is_alerted : Bool

pub record Message : Type 0 where
  pub id : ℕ
  pub tenant_id : ℕ
  pub gmail_message_id : String

pub record Attachment : Type 0 where
  pub id : ℕ
  pub tenant_id : ℕ
  pub message_id : ℕ
  pub sha256 : String
  pub mime : Option String
  pub filename : Option String

-- `forward:<id>` is the reference of every exception here.
pub record ForwardException : Type 0 where
  pub tenant_id : ℕ
  pub reason_code : String
  pub forward_id : ℕ

pub record ForwardAudit : Type 0 where
  pub tenant_id : ℕ
  pub action : String
  pub forward_id : ℕ

-- A proof of product `invoiceproof` for an attachment.
pub record AttachmentProof : Type 0 where
  pub tenant_id : ℕ
  pub attachment_id : ℕ

pub record Mailroom : Type 0 where
  pub messages : List Message
  -- In the order of their ids.
  pub attachments : List Attachment
  pub forwards : List ForwardRow
  pub next_forward_id : ℕ
  pub exceptions : List ForwardException
  pub audits : List ForwardAudit
  pub proofs : List AttachmentProof
  pub sends : List String

abbrev pub is_forward : ℕ → String → ForwardRow → Bool
is_forward tenant sha row = (row.tenant_id == tenant) && str_eq row.sha256 sha

-- INSERT ... ON CONFLICT (tenant_id, sha256) DO NOTHING, then the row that is there. The sequence
-- draws an id in either case. The flag is `created`.
unfoldable pub upsert_forward_intent : ForwardRow → Mailroom → Mailroom × (ForwardRow × Bool)
upsert_forward_intent new s =
    let fresh : ForwardRow = record new { id = s.next_forward_id } in
    let drawn : Mailroom = record s { next_forward_id = suc s.next_forward_id } in
    elim (find (is_forward new.tenant_id new.sha256) s.forwards) [
      | none ↦ (record drawn { forwards = s.forwards ++ fresh ∷ [] }, (fresh, true))
      | some row ↦ (drawn, (row, false))
    ]

abbrev pub coalesce_text : Option String → Option String → Option String
coalesce_text none old = old
coalesce_text (some new) old = some new

abbrev pub with_status : ℕ → ForwardStatus → Option String → Option String → ForwardRow → ForwardRow
with_status id status hold_reason send_id row =
    if row.id == id
    then record row {
      status = status;
      hold_reason = coalesce_text hold_reason row.hold_reason;
      gmail_send_id = coalesce_text send_id row.gmail_send_id;
    }
    else row

-- The fields of `extra` that the gatekeeper passes.
abbrev pub set_forward_status :
    ℕ → ForwardStatus → Option String → Option String → Mailroom → Mailroom
set_forward_status id status hold_reason send_id s = record s {
  forwards = map (with_status id status hold_reason send_id) s.forwards;
}

abbrev pub mark_alerted : ℕ → Mailroom → Mailroom
mark_alerted id s = record s {
  forwards =
      map (λ (row : ForwardRow). if row.id == id then record row { is_alerted = true } else row)
        s.forwards;
}

abbrev pub raise_for : ℕ → String → ℕ → Mailroom → Mailroom
raise_for tenant reason id s = record s {
  exceptions =
      s.exceptions ++ record { tenant_id = tenant; reason_code = reason; forward_id = id } ∷ [];
}

abbrev pub audit_for : ℕ → String → ℕ → Mailroom → Mailroom
audit_for tenant action id s = record s {
  audits = s.audits ++ record { tenant_id = tenant; action = action; forward_id = id } ∷ [];
}
