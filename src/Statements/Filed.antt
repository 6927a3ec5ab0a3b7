-- ===== src/Statements/Filed.antt =====
-- What `fileStatement` has seen when it returns.
use ap_hub.Prelude.{
  ℕ, true, false, ◌≡◌, refl, arith, String, some, List, [], ◌∷◌, find, map, ltb, ok, >>=-ok,
  guard->>=, present, present-ok, length, count_if, All, ok_injective, sym, subst, ap, change_if,
  find-change_if, ◌<◌,
}
use ap_hub.Access.Guard.{Actor, remap, has_permission, is_valid_id}
use ap_hub.Statements.Tables.{
  StatementValidation, Statement, StatementLine, statement_filed, Store, Platform,
}
use ap_hub.Statements.Import.{update_document, judge_document}
use ap_hub.Statements.Review.{
  forbidden, invalid_id, statement_not_found, lines_unresolved, cannot_be_filed, is_statement,
  update_statement, lines_of, revalidate_statement, write_audit, validate_rows, judge_statement,
}
use ap_hub.Statements.Filing.{
  is_resolved, is_unresolved, all_resolved, file_document, mark_filed, file_statement,
  file_validated,
}

abbrev pub revalidated : ℕ → ℕ → Statement → StatementValidation → Store → Store
revalidated tenant id st validation s =
    update_document tenant st.document_id (judge_document validation.valid)
      (update_statement tenant id (judge_statement validation) s)

-- The statement as it was found, the validation that it passed, and what is returned.
pub record Revalidated (p : Platform) (tenant id : ℕ) (s : Store)
    (result : StatementValidation × (ℕ × Store)) : Type 0 where
  pub row : Statement
  pub validation : StatementValidation
  pub found : find (is_statement tenant id) s.statements ≡ some row
  pub checked : validate_rows p row (lines_of tenant id s) ≡ ok validation
  pub returned : (validation, (row.document_id, revalidated tenant id row validation s)) ≡ result

pub revalidate-Revalidated :
    (p : Platform) (tenant id : ℕ) (s : Store) {result : StatementValidation × (ℕ × Store)}
    → revalidate_statement p tenant id s ≡ ok result
    → Revalidated p tenant id s result
unfolding revalidate_statement
revalidate-Revalidated p tenant id s e =
    let (st, found, e1) =
      >>=-ok (present (find (is_statement tenant id) s.statements) statement_not_found) _ e in
    let (v, checked, e2) = >>=-ok (validate_rows p st (lines_of tenant id s)) _ e1 in
    record {
      row = st;
      validation = v;
      found = present-ok _ _ found;
      checked = checked;
      returned = ok_injective e2;
    }

-- The validation that balances, the lines that are settled, and the statement marked as filed.
pub record Filed (p : Platform) (now : ℕ) (ctx : Actor) (id : ℕ) (s s' : Store) : Type 0 where
  pub permitted : has_permission ctx remap ≡ true
  pub row : Statement
  pub found : find (is_statement ctx.tenant_id id) s.statements ≡ some row
  pub validation : StatementValidation
  pub checked : validate_rows p row (lines_of ctx.tenant_id id s) ≡ ok validation
  pub balances : validation.valid ≡ true
  pub nonempty : 0 < length (lines_of ctx.tenant_id id s)
  pub settled : All (λ line. is_resolved line.match_status ≡ true) (lines_of ctx.tenant_id id s)
  pub kept : s'.lines ≡ s.lines
  pub marked :
      find (is_statement ctx.tenant_id id) s'.statements
      ≡ some (mark_filed now (judge_statement validation row))

each_resolved :
    (lines : List StatementLine)
    → ltb 0 (count_if is_unresolved lines) ≡ false
    → All (λ line. is_resolved line.match_status ≡ true) lines
each_resolved [] h = tt
each_resolved (line ∷ rest) h = (ground arith, each_resolved rest (ground arith))

-- `revalidated` and the marks change no key.
marked-find :
    (now tenant id : ℕ) (v : StatementValidation) (rows : List Statement) {row : Statement}
    → find (is_statement tenant id) rows ≡ some row
    → find (is_statement tenant id) (
        map
          (change_if (is_statement tenant id) (mark_filed now))
          (map (change_if (is_statement tenant id) (judge_statement v)) rows))
      ≡ some (mark_filed now (judge_statement v row))
marked-find now tenant id v rows e =
    let test = is_statement tenant id in
    find-change_if test (mark_filed now) (map (change_if test (judge_statement v)) rows) (λ y. refl)
      (find-change_if test (judge_statement v) rows (λ y. refl) e)

abbrev filed_store : ℕ → String → Actor → ℕ → Statement → StatementValidation → Store → Store
filed_store now label ctx id row v s = write_audit label ctx statement_filed id (
    update_document ctx.tenant_id row.document_id file_document
      (update_statement ctx.tenant_id id (mark_filed now) (revalidated ctx.tenant_id id row v s)))

file_validated-Filed :
    (p : Platform) (now : ℕ) (label : String) (ctx : Actor) (id : ℕ) (s : Store) {s' : Store}
    (row : Statement) (v : StatementValidation)
    → has_permission ctx remap ≡ true
    → find (is_statement ctx.tenant_id id) s.statements ≡ some row
    → validate_rows p row (lines_of ctx.tenant_id id s) ≡ ok v
    → file_validated now label ctx id (v, (row.document_id, revalidated ctx.tenant_id id row v s))
      ≡ ok s'
    → Filed p now ctx id s s'
unfolding file_validated
file_validated-Filed p now label ctx id s row v allowed found checked e =
    let (balances, e1) = guard->>= v.valid cannot_be_filed _ e in
    let (resolved, e2) =
      guard->>= (all_resolved (lines_of ctx.tenant_id id s)) lines_unresolved
        (ok (filed_store now label ctx id row v s)) e1 in
    let same = ok_injective e2 in
    record {
      permitted = allowed;
      row = row;
      found = found;
      validation = v;
      checked = checked;
      balances = balances;
      nonempty = ground arith;
      settled = each_resolved _ (ground arith);
      kept = sym (ap (λ (t : Store). t.lines) same);
      marked =
          subst
            (λ (t : Store).
              find (is_statement ctx.tenant_id id) t.statements
              ≡ some (mark_filed now (judge_statement v row)))
            same (marked-find now ctx.tenant_id id v s.statements found);
    }

-- `fileStatement` returns for an actor who may remap, and for a statement that is found and whose
-- balances agree, with lines, each of them matched or excluded. It leaves the lines as they were, and
-- the statement is then filed, at the time of the call, with that validation.
pub file-Filed :
    (p : Platform) (now : ℕ) (label : String) (ctx : Actor) (id : ℕ) (s : Store) {s' : Store}
    → file_statement p now label ctx id s ≡ ok s'
    → Filed p now ctx id s s'
unfolding file_statement
file-Filed p now label ctx id s {s'} e =
    let (allowed, e1) = guard->>= (has_permission ctx remap) forbidden _ e in
    let (_, e2) = guard->>= (is_valid_id id) invalid_id _ e1 in
    let (result, validated, e3) = >>=-ok (revalidate_statement p ctx.tenant_id id s) _ e2 in
    let r = revalidate-Revalidated p ctx.tenant_id id s validated in
    file_validated-Filed p now label ctx id s r.row r.validation allowed r.found r.checked
      (subst (λ x. file_validated now label ctx id x ≡ ok s') (sym r.returned) e3)
