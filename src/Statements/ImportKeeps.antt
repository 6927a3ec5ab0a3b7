-- ===== src/Statements/ImportKeeps.antt =====
-- The writes of src/statements/ingest.ts and the rows that they leave alone.
use ap_hub.Prelude.{
  ℕ, suc, ◌<◌, ◌≡◌, ◌≢◌, refl, subst, Bool, false, ◌&&◌, List, [], ◌∷◌, ◌++◌, arith, Option, none,
  some, All, All-append, select, ◌==◌, String, ok, >>=-ok, guard->>=, ok_injective, is_some,
}
use ap_hub.Statements.Tables.{
  StatementLine, Store, Statement, Document, PostedRow, Platform, RawBankStatement, StatementSource,
  extracted, held,
}
use ap_hub.Statements.Normalize.{database_refused, Normalized, normalize, NormalLine}
use ap_hub.Statements.Import.{
  ImportResult, update_document, add_document, source_row, mark_extracted, import_into,
  import_bank_statement, source_document, statement_of, statement_row, line_row, write_statement,
  insert_lines, hold_onto, hold_unreadable_statement, hold_document, judge_document,
}
use ap_hub.Statements.Imported.{rows_from, insert_lines-ok}
use ap_hub.Statements.Keeps.{IsBacked, Keeps, Keeps-refl, Keeps-trans, Keeps-update_document}

All-later_lines :
    (k : ℕ) (lines : List StatementLine)
    → All (λ (line : StatementLine). line.statement_id < k) lines
    → All (λ (line : StatementLine). line.statement_id < suc k) lines
All-later_lines k [] h = tt
All-later_lines k (line ∷ rest) (lt, h) = (omega arith, All-later_lines k rest h)

All-later_statements :
    (k : ℕ) (rows : List Statement)
    → All (λ (st : Statement). st.id < k) rows
    → All (λ (st : Statement). st.id < suc k) rows
All-later_statements k [] h = tt
All-later_statements k (st ∷ rest) (lt, h) = (omega arith, All-later_statements k rest h)

rows-known :
    (next tenant statement : ℕ) (lines : List NormalLine)
    → All
        (λ (line : StatementLine). line.statement_id < suc statement)
        (rows_from next tenant statement lines)
unfolding line_row
rows-known next tenant statement [] = tt
rows-known next tenant statement (line ∷ rest) =
    (omega arith, rows-known (suc next) tenant statement rest)

rows-IsBacked :
    (postings : List PostedRow) (next tenant statement : ℕ) (lines : List NormalLine)
    → All (IsBacked postings) (rows_from next tenant statement lines)
unfolding line_row
rows-IsBacked postings next tenant statement [] = tt
rows-IsBacked postings next tenant statement (line ∷ rest) =
    (refl, rows-IsBacked postings (suc next) tenant statement rest)

foreign_rows :
    (u next tenant statement : ℕ) (lines : List NormalLine) (old : List StatementLine)
    → u ≢ tenant
    → select
        (λ (line : StatementLine). line.tenant_id == u)
        (old ++ rows_from next tenant statement lines)
      ≡ select (λ (line : StatementLine). line.tenant_id == u) old
unfolding line_row
foreign_rows u next tenant statement [] [] h = refl
foreign_rows u next tenant statement (line ∷ rest) [] h =
    ground (arith, foreign_rows u (suc next) tenant statement rest [] h)
foreign_rows u next tenant statement lines (row ∷ old) h =
    ground (arith, foreign_rows u next tenant statement lines old h)

foreign_last {ℓ} :
    {A : Type ℓ} (p : A → Bool) (xs : List A) (x : A)
    → p x ≡ false
    → select p (xs ++ x ∷ []) ≡ select p xs
foreign_last p [] x h = rw h
foreign_last p (y ∷ xs) x h = ground (arith, foreign_last p xs x h)

Keeps-add_document : (d : Document) (s : Store) → Keeps d.tenant_id s (add_document d s)
unfolding add_document
Keeps-add_document d s = record {
  postings = refl;
  backing = λ b. b;
  forming = λ w. record { lines_known = w.lines_known; statements_known = w.statements_known };
  documents = λ u h. foreign_last _ s.documents d (ground arith);
  statements = λ u h. refl;
  lines = λ u h. refl;
}

-- The store of an import, before the verdict on the document.
abbrev inserted : StatementSource → RawBankStatement → Normalized → ℕ → ℕ → Store → Store
inserted source raw n document k s = record s {
  statements = s.statements ++ statement_row s.next_statement source document raw n ∷ [];
  next_statement = suc s.next_statement;
  lines = s.lines ++ rows_from s.next_line source.tenant_id s.next_statement n.lines;
  next_line = k;
}

Keeps-inserted :
    (source : StatementSource) (raw : RawBankStatement) (n : Normalized) (document k : ℕ)
    (s : Store)
    → Keeps source.tenant_id s (inserted source raw n document k s)
unfolding statement_row
Keeps-inserted source raw n document k s =
    let id = s.next_statement in
    let tenant = source.tenant_id in
    let row = statement_row id source document raw n in
    let rows = rows_from s.next_line tenant id n.lines in
    record {
      postings = refl;
      backing = λ b.
          All-append (IsBacked s.postings) s.lines rows b
            (rows-IsBacked s.postings s.next_line tenant id n.lines);
      forming = λ w. record {
        lines_known =
            All-append (λ (line : StatementLine). line.statement_id < suc id) s.lines rows
              (All-later_lines id s.lines w.lines_known) (rows-known s.next_line tenant id n.lines);
        statements_known =
            All-append (λ (st : Statement). st.id < suc id) s.statements (row ∷ [])
              (All-later_statements id s.statements w.statements_known) (omega arith, tt);
      };
      documents = λ u h. refl;
      statements = λ u h. foreign_last _ s.statements row (ground arith);
      lines = λ u h. foreign_rows u s.next_line tenant id n.lines s.lines h;
    }

write-Keeps :
    (p : Platform) (source : StatementSource) (raw : RawBankStatement) (n : Normalized)
    (document : ℕ) (s : Store) {result : ImportResult × Store}
    → write_statement p source raw n document s ≡ ok result
    → Keeps source.tenant_id s result.1
unfolding write_statement
write-Keeps p source raw n document s e =
    let id = s.next_statement in
    let s1 : Store = record s {
      statements = s.statements ++ statement_row id source document raw n ∷ [];
      next_statement = suc id;
    } in
    let (_, e1) =
      guard->>= (is_some (p.to_date raw.period_start) && is_some (p.to_date raw.period_end))
        database_refused _ e in
    let (s', e_lines, e2) = >>=-ok (insert_lines p source.tenant_id id n.lines s1) _ e1 in
    let (k, same) = insert_lines-ok p source.tenant_id id n.lines s1 e_lines in
    subst (λ (r : ImportResult × Store). Keeps source.tenant_id s r.1) (ok_injective e2)
      (Keeps-trans
        (subst (Keeps source.tenant_id s) same (Keeps-inserted source raw n document k s))
        (Keeps-update_document source.tenant_id document (judge_document n.validation.valid) s'
          (λ d. refl)))

import_into-Keeps :
    (p : Platform) (source : StatementSource) (raw : RawBankStatement) (n : Normalized) (s : Store)
    (d : Option Document) (st : Option Statement) {result : ImportResult × Store}
    → import_into p source raw n s d st ≡ ok result
    → Keeps source.tenant_id s result.1
unfolding import_into source_row
import_into-Keeps p source raw n s none st e =
    let d = source_row s.next_document source extracted none in
    Keeps-trans (Keeps-add_document d s)
      (write-Keeps p source raw n s.next_document (add_document d s) e)
import_into-Keeps p source raw n s (some d) none e =
    Keeps-trans (Keeps-update_document source.tenant_id d.id mark_extracted s (λ d. refl))
      (write-Keeps p source raw n d.id (update_document source.tenant_id d.id mark_extracted s) e)
import_into-Keeps p source raw n s (some d) (some st) e =
    subst (λ (r : ImportResult × Store). Keeps source.tenant_id s r.1) (ok_injective e)
      (Keeps-refl source.tenant_id s)

pub import-Keeps :
    (p : Platform) (source : StatementSource) (raw : RawBankStatement) (s : Store)
    {result : ImportResult × Store}
    → import_bank_statement p source raw s ≡ ok result
    → Keeps source.tenant_id s result.1
unfolding import_bank_statement
import-Keeps p source raw s e =
    let (n, _, e1) = >>=-ok (normalize p raw source.sha256) _ e in
    let d = source_document source s in
    import_into-Keeps p source raw n s d (statement_of source.tenant_id s d) e1

-- A key that is drawn and not used.
Keeps-draw :
    (tenant : ℕ) (s : Store) → Keeps tenant s (record s { next_document = suc s.next_document })
Keeps-draw tenant s = record {
  postings = refl;
  backing = λ b. b;
  forming = λ w. record { lines_known = w.lines_known; statements_known = w.statements_known };
  documents = λ u h. refl;
  statements = λ u h. refl;
  lines = λ u h. refl;
}

hold_onto-Keeps :
    (source : StatementSource) (reason : String) (s : Store) (d : Option Document)
    → Keeps source.tenant_id s (hold_onto source reason s d).1
unfolding hold_onto source_row
hold_onto-Keeps source reason s none =
    Keeps-add_document (source_row s.next_document source held (some reason)) s
hold_onto-Keeps source reason s (some d) =
    Keeps-trans (Keeps-update_document source.tenant_id d.id (hold_document reason) s (λ d. refl))
      (Keeps-draw source.tenant_id (update_document source.tenant_id d.id (hold_document reason) s))

pub hold-Keeps :
    (source : StatementSource) (reason : String) (s : Store)
    → Keeps source.tenant_id s (hold_unreadable_statement source reason s).1
unfolding hold_unreadable_statement
hold-Keeps source reason s = hold_onto-Keeps source reason s (source_document source s)
