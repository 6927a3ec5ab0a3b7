-- ===== src/Statements/Filing.antt =====
-- `correctStatementFact` and `fileStatement` of src/statements/review.ts. A field name that every
-- object inherits passes the test of `CORRECTABLE_FIELDS` and ends in an SQL error; it is a field that
-- is not correctable here.
use ap_hub.Prelude.{
  ℕ, Bool, true, false, not, ◌&&◌, String, str_eq, Option, none, some, List, find, ltb, ◌==◌,
  if◌then◌else◌, Result, ok, ◌>>=◌, guard, length, count_if, present,
}
use ap_hub.Access.Guard.{Actor, remap, learn, has_permission, is_valid_id}
use ap_hub.Text.{Text}
use ap_hub.Statements.Tables.{
  StatementValidation, Statement, is_filed, filed, Document, MatchStatus, unmatched, suggested,
  matched, excluded, StatementLine, fact_corrected, statement_filed, Store, Platform,
}
use ap_hub.Statements.Import.{update_document}
use ap_hub.Statements.Review.{
  ReviewFault, forbidden, invalid_id, statement_not_found, field_not_correctable, cannot_be_filed,
  lines_unresolved, database_refused, require_reason, is_statement, update_statement, lines_of,
  revalidate_statement, write_audit,
}

-- The columns of `CORRECTABLE_FIELDS`.
pub data Column : Type 0 where
  institution_name account_hint currency : Column
  period_start period_end opening_balance closing_balance : Column

unfoldable pub correctable : String → Option Column
correctable field =
    if str_eq field "institutionName"
    then some institution_name
    else if str_eq field "accountHint"
    then some account_hint
    else if str_eq field "currency"
    then some currency
    else if str_eq field "periodStart"
    then some period_start
    else if str_eq field "periodEnd"
    then some period_end
    else if str_eq field "openingBalance"
    then some opening_balance
    else if str_eq field "closingBalance"
    then some closing_balance
    else none

-- What the column's type makes of the value, and its refusal.
abbrev pub cast : (Text → Option Text) → Option Text → Result ReviewFault (Option Text)
cast convert none = ok none
cast convert (some value) = do kept ← present (convert value) database_refused; ok (some kept)

abbrev pub column_value : Platform → Column → Option Text → Result ReviewFault (Option Text)
column_value p institution_name value = ok value
column_value p account_hint value = ok value
column_value p currency value = ok value
column_value p period_start value = cast p.to_date value
column_value p period_end value = cast p.to_date value
column_value p opening_balance value = cast p.to_numeric value
column_value p closing_balance value = cast p.to_numeric value

abbrev pub set_column : Column → Option Text → Statement → Statement
set_column institution_name value st = record st { institution_name = value }
set_column account_hint value st = record st { account_hint = value }
set_column currency value st = record st { currency = value }
set_column period_start value st = record st { period_start = value }
set_column period_end value st = record st { period_end = value }
set_column opening_balance value st = record st { opening_balance = value }
set_column closing_balance value st = record st { closing_balance = value }

-- CHECK (period_start IS NULL OR period_end IS NULL OR period_end >= period_start)
abbrev pub period_check : Platform → Option Text → Option Text → Bool
period_check p (some start) (some end) = not (p.is_before end start)
period_check p _ _ = true

unfoldable pub correct_statement_fact :
    Platform → String → Actor → ℕ → String → Option Text → Text → Store → Result ReviewFault Store
unfolding has_permission correctable require_reason revalidate_statement
correct_statement_fact p label ctx statement field value reason s = do
  _ ← guard (has_permission ctx learn) forbidden
  _ ← guard (is_valid_id statement) invalid_id
  column ← present (correctable field) field_not_correctable
  _ ← require_reason reason
  st ← present (find (is_statement ctx.tenant_id statement) s.statements) statement_not_found
  kept ← column_value p column value
  let changed = set_column column kept st
  _ ← guard (period_check p changed.period_start changed.period_end) database_refused
  (_, (_, s')) ←
      revalidate_statement p ctx.tenant_id statement
        (update_statement ctx.tenant_id statement (set_column column kept) s)
  ok (write_audit label ctx fact_corrected statement s')

abbrev pub is_resolved : MatchStatus → Bool
is_resolved unmatched = false
is_resolved suggested = false
is_resolved matched = true
is_resolved excluded = true

abbrev pub is_unresolved : StatementLine → Bool
is_unresolved line = not (is_resolved line.match_status)

abbrev pub mark_filed : ℕ → Statement → Statement
mark_filed now st = record st { status = is_filed; filed_at = some now }

abbrev pub file_document : Document → Document
file_document d = record d { status = filed }

abbrev pub all_resolved : List StatementLine → Bool
all_resolved lines = not (length lines == 0) && not (ltb 0 (count_if is_unresolved lines))

-- Behind the validation.
unfoldable pub file_validated :
    ℕ → String → Actor → ℕ → StatementValidation × (ℕ × Store) → Result ReviewFault Store
file_validated now label ctx statement (validation, (document, s)) = do
  _ ← guard validation.valid cannot_be_filed
  _ ← guard (all_resolved (lines_of ctx.tenant_id statement s)) lines_unresolved
  ok (
      write_audit label ctx statement_filed statement (
        update_document ctx.tenant_id document file_document
          (update_statement ctx.tenant_id statement (mark_filed now) s)))

unfoldable pub file_statement : Platform → ℕ → String → Actor → ℕ → Store → Result ReviewFault Store
unfolding has_permission revalidate_statement file_validated
file_statement p now label ctx statement s = do
  _ ← guard (has_permission ctx remap) forbidden
  _ ← guard (is_valid_id statement) invalid_id
  result ← revalidate_statement p ctx.tenant_id statement s
  file_validated now label ctx statement result
