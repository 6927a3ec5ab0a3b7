-- ===== src/Gatekeeper/Tests.antt =====
-- A message with one PDF, whose scan is clean.
use ap_hub.Prelude.{suc, ◌≡◌, refl, true, [], ◌∷◌, ◌++◌, none, some, ◌⊎◌}
use ap_hub.Gatekeeper.Severity.{classify_findings, medium}
use ap_hub.Gatekeeper.State.{Message, Attachment, Mailroom, upsert_forward_intent}
use ap_hub.Gatekeeper.Gatekeep.{
  GatekeepDeps, returns, was_forwarded, locked_forward, record_proofs, forward_clean, decide,
  inspect, screen, attachments_of, find_message, gatekeep_once,
}
use ap_hub.Gatekeeper.Clean.{IsClean, gatekeep_once-IsClean}
use ap_hub.Gatekeeper.Twice.{forward_twice}

abbrev settings : GatekeepDeps
settings = record {
  rep_sha = λ attachments id. id;
  subject_tag = λ sha. sha;
  to_lower = λ text. text;
  scan = λ attachments.
      returns (record { severity = medium; pattern = "ROUND"; evidence = none } ∷ []);
  send_forward = λ sends id. returns (record { send_id = "s1"; to = "bills@qbo.example" });
  recipient = "bills@qbo.example";
  alert = λ s id reason. true;
}

abbrev invoice_mail : Message
invoice_mail = record { id = 3; tenant_id = 1; gmail_message_id = "g3" }

abbrev invoice_pdf : Attachment
invoice_pdf = record {
  id = 4;
  tenant_id = 1;
  message_id = 3;
  sha256 = "a4";
  mime = some "application/pdf";
  filename = none;
}

abbrev room : Mailroom
room = record {
  messages = invoice_mail ∷ [];
  attachments = invoice_pdf ∷ [];
  forwards = [];
  next_forward_id = 1;
  exceptions = [];
  audits = [];
  proofs = [];
  sends = [];
}

gatekeep_once-IsClean_example :
    let t = (gatekeep_once settings 1 3 room).0 in
    (t.sends ≡ [])
    ⊎ ((message : Message) × (find_message 1 3 room ≡ some message)
        × (t.sends ≡ [] ++ message.gmail_message_id ∷ [])
        × IsClean settings (attachments_of 1 message.id room))
gatekeep_once-IsClean_example = gatekeep_once-IsClean settings 1 3 room

forwards_once : (screen settings 1 invoice_mail (invoice_pdf ∷ []) room).1 ≡ was_forwarded 1
unfolding screen upsert_forward_intent inspect decide classify_findings forward_clean locked_forward
    record_proofs ap_hub.Gatekeeper.Gatekeep.is_pdf
forwards_once = refl

forward_twice_example :
    let t = (screen settings 1 invoice_mail (invoice_pdf ∷ []) room).0 in
    screen settings 1 invoice_mail (invoice_pdf ∷ []) t
    ≡ (record t { next_forward_id = suc t.next_forward_id }, was_forwarded 1)
forward_twice_example =
    forward_twice settings 1 invoice_mail invoice_mail (invoice_pdf ∷ []) (invoice_pdf ∷ []) room 1
      forwards_once refl
