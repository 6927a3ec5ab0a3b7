-- ===== src/Statements/Tables.antt =====
-- The tables that src/statements/ reads and writes (migrations/008_accounting_intake.sql), and the
-- raw statement of an extraction. Texts of messages are left out, and so are `created_at` and
-- `updated_at`; `filed_at` is a time of a clock.
use ap_hub.Prelude.{ℕ, Bool, String, List, Option, ℤ}
use ap_hub.Text.{Text}

pub record RawStatementLine : Type 0 where
  pub posted_on : Text
  pub description : Text
  pub amount : Text
  pub balance : Option Text

-- `pageCount` is a positive whole number by the schema.
pub record RawBankStatement : Type 0 where
  pub institution_name : Option Text
  pub account_hint : Option Text
  pub currency : Option Text
  pub period_start : Text
  pub period_end : Text
  pub opening_balance : Text
  pub closing_balance : Text
  pub lines : List RawStatementLine
  pub page_count : Option ℕ

pub record StatementSource : Type 0 where
  pub tenant_id : ℕ
  pub message_id : ℕ
  pub attachment_id : ℕ
  pub sha256 : Text

pub data ValidationCode : Type 0 where
  balanced statement_unbalanced : ValidationCode

-- `equation`, the same numbers as a text, is left out.
pub record StatementValidation : Type 0 where
  pub valid : Bool
  pub code : ValidationCode
  pub opening_cents : ℤ
  pub activity_cents : ℤ
  pub closing_cents : ℤ
  pub expected_closing_cents : ℤ
  pub missing_running_balances : ℕ
  pub page_count : ℕ

pub data DocumentKind : Type 0 where
  invoice bank_statement unknown : DocumentKind

pub data DocumentStatus : Type 0 where
  received extracted review ready filed posted held rejected : DocumentStatus

-- `accounting_documents`; the confidence is in ten-thousandths.
pub record Document : Type 0 where
  pub id : ℕ
  pub tenant_id : ℕ
  pub message_id : ℕ
  pub attachment_id : Option ℕ
  pub kind : DocumentKind
  pub sha256 : Text
  pub status : DocumentStatus
  pub hold_reason : Option String
  pub confidence : ℕ

pub data StatementStatus : Type 0 where
  is_extracted is_unbalanced in_review is_ready is_filed is_held : StatementStatus

-- `bank_statements`; `page_count` is `extracted_fields.pageCount`.
pub record Statement : Type 0 where
  pub id : ℕ
  pub tenant_id : ℕ
  pub document_id : ℕ
  pub institution_name : Option Text
  pub account_hint : Option Text
  pub currency : Option Text
  pub period_start : Option Text
  pub period_end : Option Text
  pub opening_balance : Option Text
  pub closing_balance : Option Text
  pub page_count : ℕ
  pub status : StatementStatus
  pub validation_detail : Option StatementValidation
  pub filed_at : Option ℕ

pub data MatchStatus : Type 0 where
  unmatched suggested matched excluded : MatchStatus

-- `matched_provider_ref`, with its evidence's `responseHash`.
pub record ProviderRef : Type 0 where
  pub provider : Text
  pub transaction_id : Text
  pub entity_type : Text
  pub realm : Text
  pub mode : Text
  pub response_hash : Text

-- `bank_statement_lines`
pub record StatementLine : Type 0 where
  pub id : ℕ
  pub tenant_id : ℕ
  pub statement_id : ℕ
  pub line_no : ℕ
  pub posted_on : Text
  pub description : Text
  pub amount : Text
  pub balance : Option Text
  pub fingerprint : Text
  pub match_status : MatchStatus
  pub matched_provider_ref : Option ProviderRef
  pub review_reason : Option Text

-- The columns of `postings_ap` that a match reads. `response` is its JSON text.
pub record PostedRow : Type 0 where
  pub id : ℕ
  pub tenant_id : ℕ
  pub external_id : Text
  pub entity_type : Text
  pub realm : Text
  pub mode : Text
  pub status : String
  pub response : Text
  pub posted_at : Option ℕ

pub data AuditAction : Type 0 where
  line_matched line_excluded fact_corrected statement_filed : AuditAction

-- `entity` is the line for the actions on a line, and the statement for the others.
pub record AuditRow : Type 0 where
  pub tenant_id : ℕ
  pub actor : String
  pub action : AuditAction
  pub entity : ℕ

pub record Store : Type 0 where
  pub documents : List Document
  pub next_document : ℕ
  pub statements : List Statement
  pub next_statement : ℕ
  pub lines : List StatementLine
  pub next_line : ℕ
  pub postings : List PostedRow
  pub audits : List AuditRow

-- What the code takes from the platform and from the database: the digest, `Date.parse` at
-- midnight UTC, `toLocaleLowerCase('en-US')`, the sum of two doubles that are whole numbers, what
-- PostgreSQL keeps of a text as a `date` and as a `numeric(18,2)`, and the order of its dates. It gives
-- back a date `yyyy-mm-dd` and a number with two decimals as they were written.
pub record Platform : Type 0 where
  pub digest : Text → Text
  pub date_parses : Text → Bool
  pub lower_case : Text → Text
  pub add : ℤ → ℤ → ℤ
  pub to_date : Text → Option Text
  pub to_numeric : Text → Option Text
  pub is_before : Text → Text → Bool
