-- ===== src/Statements/Written.antt =====
-- What `normalize` and the writes of an import return.
use ap_hub.Prelude.{
  ℕ, suc, ◌≡◌, refl, ap, subst, sym, Bool, not, ◌&&◌, [], ◌∷◌, ◌++◌, ltb, ok, >>=-ok, guard->>=,
  ok_injective, is_some, All, count_if, map, change_if, length,
}
use ap_hub.Text.{Text, text_lt}
use ap_hub.Statements.Money.{parse_money_to_cents}
use ap_hub.Statements.Tables.{Store, Platform, RawBankStatement, StatementSource}
use ap_hub.Statements.Normalize.{
  database_refused, NormalLine, Normalized, normalize, money_of, is_iso_date, invalid_period,
  document_unreadable, duplicate_line, repeats, normal_lines, amounts, verdict, page_count_of,
}
use ap_hub.Statements.Import.{
  ImportResult, is_document, created, insert_lines, statement_row, write_statement, status_of,
  judge_document, update_document,
}
use ap_hub.Statements.Imported.{
  IsSafe, rows_from, insert_lines-ok, money-IsSafe, normal_lines-IsSafe,
}

abbrev pub lacks_cents : NormalLine → Bool
lacks_cents line = not (is_some line.balance_cents)

-- What `normalize` returns: safe amounts, and the verdict on them.
pub record Normal (p : Platform) (raw : RawBankStatement) (n : Normalized) : Type 0 where
  pub opening_safe : IsSafe n.opening_cents
  pub closing_safe : IsSafe n.closing_cents
  pub lines_safe : All IsSafe (amounts n.lines)
  pub judged :
      n.validation
      ≡ verdict p n.opening_cents n.closing_cents
          (amounts n.lines)
          (count_if lacks_cents n.lines)
          (page_count_of raw.page_count)

pub normalize-Normal :
    (p : Platform) (raw : RawBankStatement) (sha : Text) {n : Normalized}
    → normalize p raw sha ≡ ok n
    → Normal p raw n
unfolding normalize
normalize-Normal p raw sha e =
    let (_, e1) = guard->>= (is_iso_date p raw.period_start) invalid_period _ e in
    let (_, e2) = guard->>= (is_iso_date p raw.period_end) invalid_period _ e1 in
    let (_, e3) = guard->>= (not (text_lt raw.period_end raw.period_start)) invalid_period _ e2 in
    let (_, e4) = guard->>= (ltb 0 (length raw.lines)) document_unreadable _ e3 in
    let (lines, e_lines, e5) = >>=-ok (normal_lines p sha raw 0 raw.lines) _ e4 in
    let (_, e6) = guard->>= (not (repeats [] lines)) duplicate_line _ e5 in
    let (opening, e_opening, e7) =
      >>=-ok (money_of (parse_money_to_cents raw.opening_balance)) _ e6 in
    let (closing, e_closing, e8) =
      >>=-ok (money_of (parse_money_to_cents raw.closing_balance)) _ e7 in
    subst (Normal p raw) (ok_injective e8) record {
      opening_safe = money-IsSafe raw.opening_balance e_opening;
      closing_safe = money-IsSafe raw.closing_balance e_closing;
      lines_safe = normal_lines-IsSafe p sha raw 0 raw.lines e_lines;
      judged = refl;
    }

-- The rows that an import has added to the tables.
pub record StoredRows (source : StatementSource) (raw : RawBankStatement) (n : Normalized)
    (document : ℕ) (s : Store) (result : ImportResult × Store) : Type 0 where
  pub outcome :
      result.0 ≡ created document s.next_statement (status_of n.validation.valid) n.validation
  pub new_statement :
      result.1.statements
      ≡ s.statements ++ statement_row s.next_statement source document raw n ∷ []
  pub new_documents :
      result.1.documents
      ≡ map
          (change_if (is_document source.tenant_id document) (judge_document n.validation.valid))
          s.documents
  pub new_lines :
      result.1.lines ≡ s.lines ++ rows_from s.next_line source.tenant_id s.next_statement n.lines

pub write-StoredRows :
    (p : Platform) (source : StatementSource) (raw : RawBankStatement) (n : Normalized)
    (document : ℕ) (s : Store) {result : ImportResult × Store}
    → write_statement p source raw n document s ≡ ok result
    → StoredRows source raw n document s result
unfolding write_statement
write-StoredRows p source raw n document s e =
    let id = s.next_statement in
    let s1 : Store = record s {
      statements = s.statements ++ statement_row id source document raw n ∷ [];
      next_statement = suc id;
    } in
    let (_, e1) =
      guard->>= (is_some (p.to_date raw.period_start) && is_some (p.to_date raw.period_end))
        database_refused _ e in
    let (s', e_lines, e2) = >>=-ok (insert_lines p source.tenant_id id n.lines s1) _ e1 in
    let (k, same) = insert_lines-ok p source.tenant_id id n.lines s1 e_lines in
    subst (StoredRows source raw n document s) (ok_injective e2) record {
      outcome = refl;
      new_statement = sym (ap (λ (t : Store). t.statements) same);
      new_documents = sym (
          ap
            (λ (t : Store).
              (update_document source.tenant_id document (judge_document n.validation.valid)
                t).documents)
            same);
      new_lines = sym (ap (λ (t : Store). t.lines) same);
    }
