-- ===== src/Statements/Again.antt =====
-- A statement that is imported twice.
use ap_hub.Prelude.{
  ℕ, ◌≡◌, refl, subst, sym, Bool, true, arith, change_if, change_if-keeps, Option, none, some, ok,
  >>=-ok, ok_injective, find, find-last, find-map,
}
use ap_hub.Text.{text_eq_refl}
use ap_hub.Statements.Tables.{
  Store, Statement, Platform, RawBankStatement, StatementSource, Document, StatementStatus,
  StatementValidation, bank_statement, extracted,
}
use ap_hub.Statements.Normalize.{Normalized, normalize}
use ap_hub.Statements.Import.{
  ImportResult, created, duplicate, statement_row, status_of, judge_document, add_document,
  source_row, mark_extracted, import_into, import_bank_statement, source_document, statement_of,
  is_source, is_document, is_statement_of, update_document,
}
use ap_hub.Statements.Written.{StoredRows, write-StoredRows}

-- The source's document is found, and its statement, with the keys and the status of the result.
record Known (source : StatementSource) (document id : ℕ) (status : StatementStatus) (s : Store)
    : Type 0 where
  row : Document
  row_found : source_document source s ≡ some row
  row_id : row.id ≡ document
  statement : Statement
  statement_found : find (is_statement_of source.tenant_id document) s.statements ≡ some statement
  statement_id : statement.id ≡ id
  statement_status : statement.status ≡ status

abbrev KnownAfter : StatementSource → ImportResult × Store → Type 0
KnownAfter source (created document id status v, s) = Known source document id status s
KnownAfter source (duplicate document id status, s) = Unit

judged_id :
    (tenant document : ℕ) (valid : Bool) (d : Document)
    → (change_if (is_document tenant document) (judge_document valid) d).id ≡ d.id
judged_id tenant document valid d = ground arith

written-Known :
    (source : StatementSource) (raw : RawBankStatement) (n : Normalized) (d : Document) (s : Store)
    {result : ImportResult × Store}
    → source_document source s ≡ some d
    → find (is_statement_of source.tenant_id d.id) s.statements ≡ none
    → StoredRows source raw n d.id s result
    → KnownAfter source result
unfolding statement_row
written-Known source raw n d s {result} found fresh w =
    let tenant = source.tenant_id in
    let row = statement_row s.next_statement source d.id raw n in
    let judge = judge_document n.validation.valid in
    let test = is_source tenant source.sha256 bank_statement in
    let own : is_statement_of tenant d.id row ≡ true = ground arith in
    let known : Known source d.id s.next_statement (status_of n.validation.valid) result.1 =
      record {
        row = change_if (is_document tenant d.id) judge d;
        row_found = rw w.new_documents (
            find-map test (change_if (is_document tenant d.id) judge) s.documents d
              (change_if-keeps (is_document tenant d.id) test judge (λ y. refl)) found);
        row_id = judged_id tenant d.id n.validation.valid d;
        statement = row;
        statement_found =
            rw w.new_statement (find-last (is_statement_of tenant d.id) s.statements row fresh own);
        statement_id = refl;
        statement_status = refl;
      } in
    subst (λ r. KnownAfter source (r, result.1)) (sym w.outcome) known

added_document :
    (source : StatementSource) (s : Store)
    → source_document source s ≡ none
    → source_document source (add_document (source_row s.next_document source extracted none) s)
      ≡ some (source_row s.next_document source extracted none)
unfolding add_document source_row
added_document source s missing =
    let d = source_row s.next_document source extracted none in
    let same = text_eq_refl source.sha256 in
    let own : is_source source.tenant_id source.sha256 bank_statement d ≡ true = ground arith in
    find-last (is_source source.tenant_id source.sha256 bank_statement) s.documents d missing own

import_into-Known :
    (p : Platform) (source : StatementSource) (raw : RawBankStatement) (n : Normalized) (s : Store)
    (d : Option Document) (st : Option Statement) {result : ImportResult × Store}
    → source_document source s ≡ d
    → statement_of source.tenant_id s d ≡ st
    → find (is_statement_of source.tenant_id s.next_document) s.statements ≡ none
    → import_into p source raw n s d st ≡ ok result
    → KnownAfter source result
unfolding import_into add_document source_row
import_into-Known p source raw n s none st found known fresh e =
    let d = source_row s.next_document source extracted none in
    let s1 = add_document d s in
    written-Known source raw n d s1 (added_document source s found) fresh
      (write-StoredRows p source raw n d.id s1 e)
import_into-Known p source raw n s (some d) none {result} found known fresh e =
    let s1 = update_document source.tenant_id d.id mark_extracted s in
    let test = is_source source.tenant_id source.sha256 bank_statement in
    let change = change_if (is_document source.tenant_id d.id) mark_extracted in
    let moved : source_document source s1 ≡ some (change d) =
      find-map test change s.documents d
        (change_if-keeps (is_document source.tenant_id d.id) test mark_extracted (λ y. refl))
        found in
    let same : (change d).id ≡ d.id = ground arith in
    written-Known source raw n (change d) s1 moved
      (subst (λ id. find (is_statement_of source.tenant_id id) s.statements ≡ none) (sym same)
        known)
      (subst (λ id. StoredRows source raw n id s1 result) (sym same)
        (write-StoredRows p source raw n d.id s1 e))
import_into-Known p source raw n s (some d) (some st) found known fresh e =
    subst (KnownAfter source) (ok_injective e) tt

import-Known :
    (p : Platform) (source : StatementSource) (raw : RawBankStatement) (s : Store)
    {result : ImportResult × Store}
    → find (is_statement_of source.tenant_id s.next_document) s.statements ≡ none
    → import_bank_statement p source raw s ≡ ok result
    → KnownAfter source result
unfolding import_bank_statement
import-Known p source raw s fresh e =
    let (n, _, e1) = >>=-ok (normalize p raw source.sha256) _ e in
    let d = source_document source s in
    import_into-Known p source raw n s d (statement_of source.tenant_id s d) refl refl fresh e1

duplicate_of :
    (p : Platform) (source : StatementSource) (raw : RawBankStatement) (n : Normalized) (s : Store)
    (document id : ℕ) (status : StatementStatus)
    → normalize p raw source.sha256 ≡ ok n
    → Known source document id status s
    → import_bank_statement p source raw s ≡ ok (duplicate document id status, s)
unfolding import_bank_statement import_into
duplicate_of p source raw n s document id status e k =
    let there : statement_of source.tenant_id s (some k.row) ≡ some k.statement =
      subst (λ key. find (is_statement_of source.tenant_id key) s.statements ≡ some k.statement)
        (sym k.row_id) k.statement_found in
    rw (e, k.row_found, there) (cc (k.row_id, k.statement_id, k.statement_status))

-- When an import has created a statement, importing the same source again, with this or with any other
-- extraction that can be read, reports the duplicate with the same document, statement and status, and
-- changes nothing, where no statement stood under the next document's key.
pub import_again :
    (p : Platform) (source : StatementSource) (raw raw' : RawBankStatement) (n' : Normalized)
    (s s' : Store) (document id : ℕ) (status : StatementStatus) (v : StatementValidation)
    → find (is_statement_of source.tenant_id s.next_document) s.statements ≡ none
    → import_bank_statement p source raw s ≡ ok (created document id status v, s')
    → normalize p raw' source.sha256 ≡ ok n'
    → import_bank_statement p source raw' s' ≡ ok (duplicate document id status, s')
import_again p source raw raw' n' s s' document id status v fresh e read =
    duplicate_of p source raw' n' s' document id status read (import-Known p source raw s fresh e)
