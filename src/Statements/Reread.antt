-- ===== src/Statements/Reread.antt =====
-- A statement that was just imported, validated again from the texts in the table.
use ap_hub.Prelude.{
  ℕ, max, ◌<◌, ◌≡◌, refl, ◌∙◌, ap, subst, sym, true, false, List, [], ◌∷◌, ◌++◌, arith, Option,
  none, some, ok, >>=-ok, ok_injective, All, select, count_if, find, find-last,
}
use ap_hub.Statements.Money.RoundTrip.{parse-print}
use ap_hub.Statements.Tables.{
  StatementLine, Store, Statement, Platform, RawBankStatement, StatementSource, Document,
  StatementStatus, extracted, StatementValidation,
}
use ap_hub.Statements.Normalize.{Normalized, normalize, amounts, verdict, page_count_of}
use ap_hub.Statements.Import.{
  ImportResult, created, duplicate, add_document, source_row, mark_extracted, import_into,
  import_bank_statement, source_document, statement_of, statement_row, update_document,
}
use ap_hub.Statements.Review.{
  is_statement, is_line_of, lines_of, validate_rows, revalidate_statement,
}
use ap_hub.Statements.Filed.{revalidated}
use ap_hub.Statements.Imported.{rows_from, read_amounts-rows, count-rows, own_rows}
use ap_hub.Statements.Written.{lacks_cents, Normal, normalize-Normal, StoredRows, write-StoredRows}

-- Keys are handed out in order: what the next statement's id does not name yet.
pub record WellFormed (s : Store) : Type 0 where
  pub lines_known : All (λ (line : StatementLine). line.statement_id < s.next_statement) s.lines
  pub statements_known : All (λ (st : Statement). st.id < s.next_statement) s.statements

no_old_lines :
    (tenant id : ℕ) (old rows : List StatementLine)
    → All (λ (line : StatementLine). line.statement_id < id) old
    → select (is_line_of tenant id) (old ++ rows) ≡ select (is_line_of tenant id) rows
no_old_lines tenant id [] rows h = refl
no_old_lines tenant id (line ∷ old) rows (lt, h) = ground (arith, no_old_lines tenant id old rows h)

no_old_statement :
    (tenant id : ℕ) (old : List Statement)
    → All (λ (st : Statement). st.id < id) old
    → find (is_statement tenant id) old ≡ none
no_old_statement tenant id [] h = refl
no_old_statement tenant id (st ∷ old) (lt, h) = ground (arith, no_old_statement tenant id old h)

pages_again : (o : Option ℕ) → max 1 (page_count_of o) ≡ page_count_of o
pages_again none = refl
pages_again (some n) = omega arith

-- `revalidateStatement` returns this verdict, and the statement's document.
pub record Validates (p : Platform) (tenant id document : ℕ) (v : StatementValidation) (s : Store)
    : Type 0 where
  pub after : Store
  pub returned : revalidate_statement p tenant id s ≡ ok (v, (document, after))

abbrev Reads : Platform → ℕ → ImportResult × Store → Type 0
Reads p tenant (created document id status v, s) = Validates p tenant id document v s
Reads p tenant (duplicate document id status, s) = Unit

revalidate-found :
    (p : Platform) (tenant id : ℕ) (s : Store) (row : Statement) {v : StatementValidation}
    → find (is_statement tenant id) s.statements ≡ some row
    → validate_rows p row (lines_of tenant id s) ≡ ok v
    → Validates p tenant id row.document_id v s
unfolding revalidate_statement
revalidate-found p tenant id s row {v} found checked = record {
  after = revalidated tenant id row v s;
  returned = rw (found, checked);
}

judged_pages :
    (p : Platform) (raw : RawBankStatement) (n : Normalized)
    → Normal p raw n
    → n.validation.page_count ≡ page_count_of raw.page_count
unfolding verdict
judged_pages p raw n normal = ap (λ (v : StatementValidation). v.page_count) normal.judged

module _ (p : Platform) (source : StatementSource) (raw : RawBankStatement) (n : Normalized)
    (document : ℕ) where
  validate-new :
      (id next : ℕ)
      → Normal p raw n
      → p.is_before raw.period_end raw.period_start ≡ false
      → validate_rows p
          (statement_row id source document raw n)
          (rows_from next source.tenant_id id n.lines)
        ≡ ok n.validation
  unfolding validate_rows statement_row
  validate-new id next normal ordered =
      rw
        (
          ordered,
          parse-print n.opening_cents normal.opening_safe,
          parse-print n.closing_cents normal.closing_safe,
          read_amounts-rows next source.tenant_id id n.lines normal.lines_safe,
        )
        (ap ok (
          ap
            (λ count.
              verdict p n.opening_cents n.closing_cents (amounts n.lines) count
                (max 1 n.validation.page_count))
            (count-rows next source.tenant_id id n.lines)
          ∙ ap
              (λ pages.
                verdict p n.opening_cents n.closing_cents (amounts n.lines)
                  (count_if lacks_cents n.lines) pages)
              (ap (max 1) (judged_pages p raw n normal) ∙ pages_again raw.page_count)
          ∙ sym normal.judged))

  -- The tables behind the write: the new statement is found, with its lines alone.
  written-found :
      (s : Store) {result : ImportResult × Store}
      → WellFormed s
      → StoredRows source raw n document s result
      → find (is_statement source.tenant_id s.next_statement) result.1.statements
        ≡ some (statement_row s.next_statement source document raw n)
  unfolding statement_row
  written-found s formed w =
      let id = s.next_statement in
      let row = statement_row id source document raw n in
      let own : is_statement source.tenant_id id row ≡ true = ground arith in
      rw w.new_statement (
        find-last (is_statement source.tenant_id id) s.statements row
          (no_old_statement source.tenant_id id s.statements formed.statements_known) own)

  written-lines :
      (s : Store) {result : ImportResult × Store}
      → WellFormed s
      → StoredRows source raw n document s result
      → lines_of source.tenant_id s.next_statement result.1
        ≡ rows_from s.next_line source.tenant_id s.next_statement n.lines
  written-lines s formed w =
      let tenant = source.tenant_id in
      let id = s.next_statement in
      rw w.new_lines (
        no_old_lines tenant id s.lines (rows_from s.next_line tenant id n.lines) formed.lines_known
        ∙ own_rows s.next_line tenant id n.lines)

  -- A document that is written under its key is read back as it was judged.
  written-Reads :
      (s : Store) {result : ImportResult × Store}
      → WellFormed s
      → Normal p raw n
      → p.is_before raw.period_end raw.period_start ≡ false
      → StoredRows source raw n document s result
      → Reads p source.tenant_id result
  unfolding statement_row
  written-Reads s {result} formed normal ordered w =
      let id = s.next_statement in
      let tenant = source.tenant_id in
      let row = statement_row id source document raw n in
      let checked : validate_rows p row (lines_of tenant id result.1) ≡ ok n.validation =
        rw (written-lines s formed w) (validate-new id s.next_line normal ordered) in
      subst (λ r. Reads p tenant (r, result.1)) (sym w.outcome)
        (revalidate-found p tenant id result.1 row (written-found s formed w) checked)

import_into-Reads :
    (p : Platform) (source : StatementSource) (raw : RawBankStatement) (n : Normalized) (s : Store)
    (d : Option Document) (st : Option Statement) {result : ImportResult × Store}
    → WellFormed s
    → Normal p raw n
    → p.is_before raw.period_end raw.period_start ≡ false
    → import_into p source raw n s d st ≡ ok result
    → Reads p source.tenant_id result
unfolding import_into add_document
import_into-Reads p source raw n s none st formed normal ordered e =
    let s1 = add_document (source_row s.next_document source extracted none) s in
    let same : WellFormed s1 = record {
      lines_known = formed.lines_known;
      statements_known = formed.statements_known;
    } in
    written-Reads p source raw n s.next_document s1 same normal ordered
      (write-StoredRows p source raw n s.next_document s1 e)
import_into-Reads p source raw n s (some d) none formed normal ordered e =
    let s1 = update_document source.tenant_id d.id mark_extracted s in
    let same : WellFormed s1 = record {
      lines_known = formed.lines_known;
      statements_known = formed.statements_known;
    } in
    written-Reads p source raw n d.id s1 same normal ordered
      (write-StoredRows p source raw n d.id s1 e)
import_into-Reads p source raw n s (some d) (some st) formed normal ordered e =
    subst (Reads p source.tenant_id) (ok_injective e) tt

import-Reads :
    (p : Platform) (source : StatementSource) (raw : RawBankStatement) (s : Store)
    {result : ImportResult × Store}
    → WellFormed s
    → p.is_before raw.period_end raw.period_start ≡ false
    → import_bank_statement p source raw s ≡ ok result
    → Reads p source.tenant_id result
unfolding import_bank_statement
import-Reads p source raw s formed ordered e =
    let (n, e_normal, e1) = >>=-ok (normalize p raw source.sha256) _ e in
    let d = source_document source s in
    import_into-Reads p source raw n s d (statement_of source.tenant_id s d) formed
      (normalize-Normal p raw source.sha256 e_normal) ordered e1

-- A statement that `importBankStatement` created, in a store that hands out its keys in order, is found
-- again by `revalidateStatement` with its own lines alone, and the texts of the table give the same
-- verdict, number for number, as the extracted statement did, where the dates of its period are in order.
pub revalidate_import :
    (p : Platform) (source : StatementSource) (raw : RawBankStatement) (s s' : Store)
    (document id : ℕ) (status : StatementStatus) (v : StatementValidation)
    → WellFormed s
    → p.is_before raw.period_end raw.period_start ≡ false
    → import_bank_statement p source raw s ≡ ok (created document id status v, s')
    → Validates p source.tenant_id id document v s'
revalidate_import p source raw s s' document id status v = import-Reads p source raw s
