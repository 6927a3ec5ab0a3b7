-- ===== src/Statements/Review.antt =====
-- src/statements/review.ts: an operator matches or excludes the lines of a statement, corrects its
-- facts, and files it. Each action is a transaction: where it throws, the store is left as it was.
use ap_hub.Prelude.{
  ℕ, max, Bool, true, false, not, ◌&&◌, ◌||◌, String, str_eq, Option, none, some, List, [], ◌∷◌,
  ◌++◌, any, find, map, select, leb, ltb, ◌==◌, if◌then◌else◌, ℤ, Result, ok, err, ◌>>=◌, guard,
  length, count_if, is_some, change_if, present,
}
use ap_hub.Access.Guard.{Actor, remap, has_permission, is_valid_id}
use ap_hub.Text.{Text, codes, text_eq, trim, is_empty}
use ap_hub.Statements.Money.{parse_money_to_cents}
use ap_hub.Statements.Tables.{
  StatementValidation, Statement, MatchStatus, matched, excluded, ProviderRef, StatementLine,
  PostedRow, AuditAction, line_matched, line_excluded, Store, Platform,
}
use ap_hub.Statements.Normalize.{verdict}
use ap_hub.Statements.Import.{update_document, judge_document, status_of}

pub data ReviewFault : Type 0 where
  forbidden invalid_id reason_required reason_too_long : ReviewFault
  provider_ref_required provider_id_required not_verified : ReviewFault
  statement_line_not_found statement_not_found field_not_correctable : ReviewFault
  period_invalid balances_required invalid_money : ReviewFault
  cannot_be_filed lines_unresolved database_refused : ReviewFault

-- A provider reference as it comes in: the fields of an object, each with its `String(…)`, and `none`
-- for null and undefined.
abbrev pub RefInput : Type 0
RefInput = List (String × Option Text)

unfoldable pub field : String → RefInput → Option Text
field name [] = none
field name ((key, value) ∷ rest) = if str_eq key name then value else field name rest

abbrev pub or_else {ℓ} : {A : Type ℓ} → Option A → A → A
or_else none y = y
or_else (some x) y = x

unfoldable pub require_reason : Text → Result ReviewFault Text
unfolding trim
require_reason reason = do
  let normalized = trim reason
  _ ← guard (not (is_empty normalized)) reason_required
  _ ← guard (leb (length normalized) 1000) reason_too_long
  ok normalized

-- `ORDER BY posted_at DESC, id DESC`, where a missing time stands first.
abbrev pub later_time : Option ℕ → Option ℕ → Bool
later_time none none = false
later_time none (some u) = true
later_time (some t) none = false
later_time (some t) (some u) = ltb u t

abbrev pub is_newer : PostedRow → PostedRow → Bool
is_newer a b =
    later_time a.posted_at b.posted_at
    || (not (later_time b.posted_at a.posted_at) && ltb b.id a.id)

abbrev pub better : PostedRow → Option PostedRow → PostedRow
better row none = row
better row (some best) = if is_newer best row then best else row

unfoldable pub newest : List PostedRow → Option PostedRow
newest [] = none
newest (row ∷ rest) = some (better row (newest rest))

abbrev pub is_authoritative : ℕ → Text → PostedRow → Bool
is_authoritative tenant external_id row =
    (row.tenant_id == tenant)
    && text_eq row.external_id external_id
    && (str_eq row.status "posted" || str_eq row.status "posted_sandbox")

unfoldable pub verified_ref : Platform → RefInput → PostedRow → ProviderRef
unfolding field
verified_ref p input row = record {
  provider = or_else (field "provider" input) (codes "accounting");
  transaction_id = row.external_id;
  entity_type = row.entity_type;
  realm = row.realm;
  mode = row.mode;
  response_hash = p.digest row.response;
}

-- The part of `updateLine` for a match: the reference that a verified posting confirms.
unfoldable pub authoritative_ref :
    Platform → ℕ → RefInput → Store → Result ReviewFault (Option ProviderRef)
unfolding field trim newest verified_ref text_eq
authoritative_ref p tenant input s = do
  _ ← guard (ltb 0 (length input)) provider_ref_required
  let external_id = trim (or_else (field "transactionId" input) (or_else (field "id" input) []))
  _ ← guard (not (is_empty external_id)) provider_id_required
  row ← present (newest (select (is_authoritative tenant external_id) s.postings)) not_verified
  ok (some (verified_ref p input row))

abbrev pub is_line : ℕ → ℕ → ℕ → StatementLine → Bool
is_line tenant statement id line =
    (line.tenant_id == tenant) && (line.statement_id == statement) && (line.id == id)

abbrev pub settle_line : MatchStatus → Option ProviderRef → Text → StatementLine → StatementLine
settle_line status ref reason line = record line {
  match_status = status;
  matched_provider_ref = ref;
  review_reason = some reason;
}

unfoldable pub update_line :
    ℕ → ℕ → ℕ → MatchStatus → Option ProviderRef → Text → Store → Result ReviewFault Store
update_line tenant statement id status ref reason s = do
  _ ← guard (any (is_line tenant statement id) s.lines) statement_line_not_found
  ok (record s {
    lines = map (change_if (is_line tenant statement id) (settle_line status ref reason)) s.lines;
  })

-- The label is `actor ?? email ?? user:<id>`; the text of the last is the caller's parameter.
abbrev pub write_audit : String → Actor → AuditAction → ℕ → Store → Store
write_audit label ctx action entity s = record s {
  audits =
      s.audits
      ++ record { tenant_id = ctx.tenant_id; actor = label; action = action; entity = entity } ∷ [];
}

unfoldable pub match_statement_line :
    Platform → String → Actor → ℕ → ℕ → RefInput → Text → Store → Result ReviewFault Store
unfolding has_permission require_reason authoritative_ref update_line
match_statement_line p label ctx statement line input reason s = do
  _ ← guard (has_permission ctx remap) forbidden
  _ ← guard (is_valid_id statement) invalid_id
  _ ← guard (is_valid_id line) invalid_id
  normalized ← require_reason reason
  ref ← authoritative_ref p ctx.tenant_id input s
  s' ← update_line ctx.tenant_id statement line matched ref normalized s
  ok (write_audit label ctx line_matched line s')

unfoldable pub exclude_statement_line :
    String → Actor → ℕ → ℕ → Text → Store → Result ReviewFault Store
unfolding has_permission require_reason update_line
exclude_statement_line label ctx statement line reason s = do
  _ ← guard (has_permission ctx remap) forbidden
  _ ← guard (is_valid_id statement) invalid_id
  _ ← guard (is_valid_id line) invalid_id
  normalized ← require_reason reason
  s' ← update_line ctx.tenant_id statement line excluded none normalized s
  ok (write_audit label ctx line_excluded line s')

abbrev pub is_statement : ℕ → ℕ → Statement → Bool
is_statement tenant id st = (st.tenant_id == tenant) && (st.id == id)

abbrev pub update_statement : ℕ → ℕ → (Statement → Statement) → Store → Store
update_statement tenant id change s = record s {
  statements = map (change_if (is_statement tenant id) change) s.statements;
}

abbrev pub is_line_of : ℕ → ℕ → StatementLine → Bool
is_line_of tenant statement line = (line.tenant_id == tenant) && (line.statement_id == statement)

-- Rows stand in the order of their `line_no`, in which they are inserted.
abbrev pub lines_of : ℕ → ℕ → Store → List StatementLine
lines_of tenant statement s = select (is_line_of tenant statement) s.lines

abbrev pub cents_of_text : Option ℤ → Result ReviewFault ℤ
cents_of_text none = err invalid_money
cents_of_text (some cents) = ok cents

unfoldable pub read_amounts : List StatementLine → Result ReviewFault (List ℤ)
unfolding parse_money_to_cents
read_amounts [] = ok []
read_amounts (line ∷ rest) = do
  first ← cents_of_text (parse_money_to_cents line.amount)
  others ← read_amounts rest
  ok (first ∷ others)

abbrev pub period_holds : Platform → Option Text → Option Text → Bool
period_holds p (some start) (some end) = not (p.is_before end start)
period_holds p _ _ = false

abbrev pub judge_statement : StatementValidation → Statement → Statement
judge_statement validation st = record st {
  status = status_of validation.valid;
  validation_detail = some validation;
}

abbrev pub lacks_balance : StatementLine → Bool
lacks_balance line = not (is_some line.balance)

unfoldable pub validate_rows :
    Platform → Statement → List StatementLine → Result ReviewFault StatementValidation
unfolding parse_money_to_cents read_amounts verdict
validate_rows p st lines = do
  _ ← guard (period_holds p st.period_start st.period_end) period_invalid
  opening_text ← present st.opening_balance balances_required
  closing_text ← present st.closing_balance balances_required
  opening ← cents_of_text (parse_money_to_cents opening_text)
  closing ← cents_of_text (parse_money_to_cents closing_text)
  changes ← read_amounts lines
  ok (verdict p opening closing changes (count_if lacks_balance lines) (max 1 st.page_count))

unfoldable pub revalidate_statement :
    Platform → ℕ → ℕ → Store → Result ReviewFault (StatementValidation × (ℕ × Store))
unfolding validate_rows
revalidate_statement p tenant id s = do
  st ← present (find (is_statement tenant id) s.statements) statement_not_found
  validation ← validate_rows p st (lines_of tenant id s)
  ok (
    validation,
    (
      st.document_id,
      update_document tenant st.document_id (judge_document validation.valid)
          (update_statement tenant id (judge_statement validation) s),
    ),
  )
