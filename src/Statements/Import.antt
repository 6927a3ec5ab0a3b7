-- ===== src/Statements/Import.antt =====
-- `importBankStatement`, `insertLines` and `holdUnreadableStatement` of src/statements/ingest.ts, and
-- the routing of attachments. A transaction that throws leaves the store as it was: the result is then
-- the fault alone. Of the table's constraints the unique fingerprint and the type `date` are written
-- out: the keys are fresh, and `normalize` has seen to the order of the period.
use ap_hub.Prelude.{
  ℕ, suc, Bool, true, false, not, ◌&&◌, String, Option, none, some, List, [], ◌∷◌, ◌++◌, any, find,
  map, ◌==◌, if◌then◌else◌, ℤ, Result, ok, ◌>>=◌, guard, is_some, change_if,
}
use ap_hub.Text.{Text, text_eq}
use ap_hub.Statements.Money.{cents_to_decimal}
use ap_hub.Statements.Tables.{
  RawBankStatement, StatementSource, StatementValidation, DocumentKind, invoice, bank_statement,
  unknown, DocumentStatus, received, extracted, review, held, Document, StatementStatus, in_review,
  is_unbalanced, Statement, unmatched, StatementLine, Store, Platform,
}
use ap_hub.Statements.Normalize.{ImportFault, database_refused, NormalLine, Normalized, normalize}

pub data ImportResult : Type 0 where
  created : ℕ → ℕ → StatementStatus → StatementValidation → ImportResult
  duplicate : ℕ → ℕ → StatementStatus → ImportResult

abbrev pub kind_eq : DocumentKind → DocumentKind → Bool
kind_eq invoice invoice = true
kind_eq bank_statement bank_statement = true
kind_eq unknown unknown = true
kind_eq _ _ = false

-- The unique key of `accounting_documents`.
abbrev pub is_source : ℕ → Text → DocumentKind → Document → Bool
is_source tenant sha256 kind d =
    (d.tenant_id == tenant) && text_eq d.sha256 sha256 && kind_eq d.kind kind

abbrev pub is_document : ℕ → ℕ → Document → Bool
is_document tenant id d = (d.tenant_id == tenant) && (d.id == id)

abbrev pub is_statement_of : ℕ → ℕ → Statement → Bool
is_statement_of tenant document st = (st.tenant_id == tenant) && (st.document_id == document)

abbrev pub update_document : ℕ → ℕ → (Document → Document) → Store → Store
update_document tenant id change s = record s {
  documents = map (change_if (is_document tenant id) change) s.documents;
}

unfoldable pub optional_decimal : Option ℤ → Option Text
unfolding cents_to_decimal
optional_decimal none = none
optional_decimal (some cents) = some (cents_to_decimal cents)

abbrev pub same_fingerprint : ℕ → Text → StatementLine → Bool
same_fingerprint tenant fingerprint row =
    (row.tenant_id == tenant) && text_eq row.fingerprint fingerprint

unfoldable pub line_row : ℕ → ℕ → ℕ → NormalLine → StatementLine
unfolding cents_to_decimal optional_decimal
line_row id tenant statement line = record {
  id = id;
  tenant_id = tenant;
  statement_id = statement;
  line_no = line.line_no;
  posted_on = line.posted_on;
  description = line.description;
  amount = cents_to_decimal line.amount_cents;
  balance = optional_decimal line.balance_cents;
  fingerprint = line.fingerprint;
  match_status = unmatched;
  matched_provider_ref = none;
  review_reason = none;
}

unfoldable pub insert_lines : Platform → ℕ → ℕ → List NormalLine → Store → Result ImportFault Store
unfolding line_row text_eq
insert_lines p tenant statement [] s = ok s
insert_lines p tenant statement (line ∷ rest) s = do
  _ ← guard (is_some (p.to_date line.posted_on)) database_refused
  _ ← guard (not (any (same_fingerprint tenant line.fingerprint) s.lines)) database_refused
  insert_lines p tenant statement rest (record s {
    lines = s.lines ++ line_row s.next_line tenant statement line ∷ [];
    next_line = suc s.next_line;
  })

abbrev pub status_of : Bool → StatementStatus
status_of true = in_review
status_of false = is_unbalanced

abbrev pub document_status_of : Bool → DocumentStatus
document_status_of true = review
document_status_of false = held

abbrev pub hold_reason_of : Bool → Option String
hold_reason_of true = none
hold_reason_of false = some "STATEMENT_UNBALANCED"

abbrev pub judge_document : Bool → Document → Document
judge_document valid d = record d {
  status = document_status_of valid;
  hold_reason = hold_reason_of valid;
}

unfoldable pub statement_row : ℕ → StatementSource → ℕ → RawBankStatement → Normalized → Statement
unfolding cents_to_decimal
statement_row id source document raw n = record {
  id = id;
  tenant_id = source.tenant_id;
  document_id = document;
  institution_name = raw.institution_name;
  account_hint = raw.account_hint;
  currency = raw.currency;
  period_start = some raw.period_start;
  period_end = some raw.period_end;
  opening_balance = some (cents_to_decimal n.opening_cents);
  closing_balance = some (cents_to_decimal n.closing_cents);
  page_count = n.validation.page_count;
  status = status_of n.validation.valid;
  validation_detail = some n.validation;
  filed_at = none;
}

-- The statement, its lines, and the verdict on its document.
unfoldable pub write_statement :
    Platform
    → StatementSource
    → RawBankStatement
    → Normalized
    → ℕ
    → Store
    → Result ImportFault (ImportResult × Store)
unfolding statement_row insert_lines
write_statement p source raw n document s = do
  _ ←
      guard (is_some (p.to_date raw.period_start) && is_some (p.to_date raw.period_end))
        database_refused
  let id = s.next_statement
  s' ← insert_lines p source.tenant_id id n.lines (record s {
    statements = s.statements ++ statement_row id source document raw n ∷ [];
    next_statement = suc id;
  })
  ok (
    created document id (status_of n.validation.valid) n.validation,
    update_document source.tenant_id document (judge_document n.validation.valid) s',
  )

unfoldable pub source_row : ℕ → StatementSource → DocumentStatus → Option String → Document
source_row id source status hold_reason = record {
  id = id;
  tenant_id = source.tenant_id;
  message_id = source.message_id;
  attachment_id = some source.attachment_id;
  kind = bank_statement;
  sha256 = source.sha256;
  status = status;
  hold_reason = hold_reason;
  confidence = 10_000;
}

unfoldable pub add_document : Document → Store → Store
add_document d s = record s {
  documents = s.documents ++ d ∷ [];
  next_document = suc s.next_document;
}

abbrev pub mark_extracted : Document → Document
mark_extracted d = record d { status = extracted; hold_reason = none; confidence = 10_000 }

abbrev pub statement_of : ℕ → Store → Option Document → Option Statement
statement_of tenant s none = none
statement_of tenant s (some d) = find (is_statement_of tenant d.id) s.statements

unfoldable pub import_into :
    Platform
    → StatementSource
    → RawBankStatement
    → Normalized
    → Store
    → Option Document
    → Option Statement
    → Result ImportFault (ImportResult × Store)
unfolding write_statement source_row add_document
import_into p source raw n s none st =
    write_statement p source raw n s.next_document
      (add_document (source_row s.next_document source extracted none) s)
import_into p source raw n s (some d) none =
    write_statement p source raw n d.id (update_document source.tenant_id d.id mark_extracted s)
import_into p source raw n s (some d) (some st) = ok (duplicate d.id st.id st.status, s)

abbrev pub source_document : StatementSource → Store → Option Document
source_document source s =
    find (is_source source.tenant_id source.sha256 bank_statement) s.documents

unfoldable pub import_bank_statement :
    Platform
    → StatementSource
    → RawBankStatement
    → Store
    → Result ImportFault (ImportResult × Store)
unfolding normalize import_into text_eq
import_bank_statement p source raw s = do
  n ← normalize p raw source.sha256
  let existing = source_document source s
  import_into p source raw n s existing (statement_of source.tenant_id s existing)

abbrev pub hold_document : String → Document → Document
hold_document reason d = record d { status = held; hold_reason = some reason }

-- The sequence is drawn where the row conflicts too.
unfoldable pub hold_onto : StatementSource → String → Store → Option Document → ℕ × Store
unfolding source_row add_document
hold_onto source reason s none =
    (s.next_document, add_document (source_row s.next_document source held (some reason)) s)
hold_onto source reason s (some d) = (
  d.id,
  record (update_document source.tenant_id d.id (hold_document reason) s) {
    next_document = suc s.next_document;
  },
)

-- The upsert. Its result is the document's id, always with the status `held`.
unfoldable pub hold_unreadable_statement : StatementSource → String → Store → ℕ × Store
unfolding hold_onto text_eq
hold_unreadable_statement source reason s = hold_onto source reason s (source_document source s)

pub record AttachmentRoute : Type 0 where
  pub kind : DocumentKind
  pub confidence : ℕ
  pub status : DocumentStatus
  pub is_held_unclassified : Bool

-- The two regular expressions are the platform's; the hold reason names the attachment's type.
unfoldable pub classify_accounting_attachment :
    (Text → Bool) → (Text → Bool) → Text → Text → AttachmentRoute
classify_accounting_attachment names_statement names_invoice subject filename =
    let text = subject ++ 32 ∷ filename in
    if names_statement text
    then record {
      kind = bank_statement;
      confidence = 9900;
      status = received;
      is_held_unclassified = false;
    }
    else if names_invoice text
    then record {
      kind = invoice;
      confidence = 9900;
      status = received;
      is_held_unclassified = false;
    }
    else record { kind = unknown; confidence = 0; status = held; is_held_unclassified = true }
