-- ===== src/Statements/ReviewKeeps.antt =====
-- The writes of src/statements/review.ts and the rows that they leave alone.
use ap_hub.Prelude.{
  ℕ, ◌≡◌, refl, subst, true, not, List, [], ◌∷◌, arith, find, ltb, length, String, Option, none,
  some, any, All-get, select, select_holds, ok, >>=-ok, guard->>=, ok_injective, present,
  present-ok, Memᴰ, any-of-mem, mem-of-select, Bool-cases, inl, inr,
}
use mathlib.Core.Option.{some-injective}
use ap_hub.Access.Guard.{Actor, remap, learn, has_permission, is_valid_id}
use ap_hub.Text.{Text, text_eq_refl, trim, is_empty}
use ap_hub.Statements.Tables.{
  Store, Statement, StatementValidation, MatchStatus, matched, excluded, ProviderRef, PostedRow,
  Platform, line_matched, line_excluded, fact_corrected, statement_filed, AuditAction,
}
use ap_hub.Statements.Import.{update_document, judge_document}
use ap_hub.Statements.Review.{
  forbidden, invalid_id, not_verified, provider_ref_required, provider_id_required,
  statement_line_not_found, statement_not_found, field_not_correctable, database_refused,
  cannot_be_filed, lines_unresolved, RefInput, field, or_else, require_reason, newest, better,
  is_newer, is_authoritative, verified_ref, authoritative_ref, is_line, update_line,
  match_statement_line, exclude_statement_line, write_audit, update_statement, is_statement,
  judge_statement, revalidate_statement, lines_of,
}
use ap_hub.Statements.Filing.{
  Column, institution_name, account_hint, currency, period_start, period_end, opening_balance,
  closing_balance, correctable, column_value, set_column, period_check, correct_statement_fact,
  file_statement, file_validated, mark_filed, file_document, all_resolved,
}
use ap_hub.Statements.Filed.{revalidate-Revalidated}
use ap_hub.Statements.Keeps.{
  is_posted, backed, Keeps, Keeps-trans, Keeps-update_document, Keeps-update_statement,
  Keeps-settle_line,
}

better-mem :
    (row : PostedRow) (o : Option PostedRow) (rest : List PostedRow)
    → ((best : PostedRow) → o ≡ some best → Memᴰ best rest)
    → Memᴰ (better row o) (row ∷ rest)
better-mem row none rest f = Memᴰ.head refl
better-mem row (some best) rest f = elim (Bool-cases (is_newer best row)) [
  | inl t ↦ rw t (Memᴰ.tail (f best refl))
  | inr n ↦ rw n (Memᴰ.head refl)
]

newest-mem : (rows : List PostedRow) {row : PostedRow} → newest rows ≡ some row → Memᴰ row rows
unfolding newest
newest-mem [] e = absurd (cc)
newest-mem (row ∷ rest) e =
    subst (λ r. Memᴰ r (row ∷ rest)) (some-injective _ _ e)
      (better-mem row (newest rest) rest (λ best. newest-mem rest))

authoritative_self :
    (tenant : ℕ) (external_id : Text) (row : PostedRow)
    → is_authoritative tenant external_id row ≡ true
    → is_posted tenant row.external_id row ≡ true
authoritative_self tenant external_id row h =
    let same = text_eq_refl row.external_id in ground arith

-- The reference of a match names a posted row of the tenant.
authoritative-backed :
    (p : Platform) (tenant : ℕ) (input : RefInput) (s : Store) {ref : Option ProviderRef}
    → authoritative_ref p tenant input s ≡ ok ref
    → backed s.postings tenant matched ref ≡ true
unfolding authoritative_ref verified_ref
authoritative-backed p tenant input s e =
    let external_id =
      trim (or_else (field "transactionId" input) (or_else (field "id" input) [])) in
    let (_, e1) = guard->>= (ltb 0 (length input)) provider_ref_required _ e in
    let (_, e2) = guard->>= (not (is_empty external_id)) provider_id_required _ e1 in
    let test = is_authoritative tenant external_id in
    let (row, found, e3) = >>=-ok (present (newest (select test s.postings)) not_verified) _ e2 in
    let mem = newest-mem (select test s.postings) (present-ok _ not_verified found) in
    let holds =
      All-get (λ r. test r ≡ true) (select test s.postings) (select_holds test s.postings) mem in
    subst (λ ref. backed s.postings tenant matched ref ≡ true) (ok_injective e3)
      (any-of-mem (is_posted tenant row.external_id) s.postings (mem-of-select test s.postings mem)
        (authoritative_self tenant external_id row holds))

Keeps-write_audit :
    (label : String) (ctx : Actor) (action : AuditAction) (entity : ℕ) (tenant : ℕ) (s t : Store)
    → Keeps tenant s t
    → Keeps tenant s (write_audit label ctx action entity t)
Keeps-write_audit label ctx action entity tenant s t k = record {
  postings = k.postings;
  backing = k.backing;
  forming = λ w.
      let w' = k.forming w in
      record { lines_known = w'.lines_known; statements_known = w'.statements_known };
  documents = k.documents;
  statements = k.statements;
  lines = k.lines;
}

update_line-Keeps :
    (tenant statement id : ℕ) (status : MatchStatus) (ref : Option ProviderRef) (reason : Text)
    (s : Store) {s' : Store}
    → backed s.postings tenant status ref ≡ true
    → update_line tenant statement id status ref reason s ≡ ok s'
    → Keeps tenant s s'
unfolding update_line
update_line-Keeps tenant statement id status ref reason s b e =
    let (_, e1) =
      guard->>= (any (is_line tenant statement id) s.lines) statement_line_not_found _ e in
    subst (Keeps tenant s) (ok_injective e1)
      (Keeps-settle_line tenant statement id status ref reason s b)

pub match-Keeps :
    (p : Platform) (label : String) (ctx : Actor) (statement line : ℕ) (input : RefInput)
    (reason : Text) (s : Store) {s' : Store}
    → match_statement_line p label ctx statement line input reason s ≡ ok s'
    → Keeps ctx.tenant_id s s'
unfolding match_statement_line
match-Keeps p label ctx statement line input reason s e =
    let (_, e1) = guard->>= (has_permission ctx remap) forbidden _ e in
    let (_, e2) = guard->>= (is_valid_id statement) invalid_id _ e1 in
    let (_, e3) = guard->>= (is_valid_id line) invalid_id _ e2 in
    let (normalized, _, e4) = >>=-ok (require_reason reason) _ e3 in
    let (ref, verified, e5) = >>=-ok (authoritative_ref p ctx.tenant_id input s) _ e4 in
    let (t, updated, e6) =
      >>=-ok (update_line ctx.tenant_id statement line matched ref normalized s) _ e5 in
    subst (Keeps ctx.tenant_id s) (ok_injective e6) (
      Keeps-write_audit label ctx line_matched line ctx.tenant_id s t (
        update_line-Keeps ctx.tenant_id statement line matched ref normalized s
          (authoritative-backed p ctx.tenant_id input s verified) updated))

pub exclude-Keeps :
    (label : String) (ctx : Actor) (statement line : ℕ) (reason : Text) (s : Store) {s' : Store}
    → exclude_statement_line label ctx statement line reason s ≡ ok s'
    → Keeps ctx.tenant_id s s'
unfolding exclude_statement_line
exclude-Keeps label ctx statement line reason s e =
    let (_, e1) = guard->>= (has_permission ctx remap) forbidden _ e in
    let (_, e2) = guard->>= (is_valid_id statement) invalid_id _ e1 in
    let (_, e3) = guard->>= (is_valid_id line) invalid_id _ e2 in
    let (normalized, _, e4) = >>=-ok (require_reason reason) _ e3 in
    let (t, updated, e5) =
      >>=-ok (update_line ctx.tenant_id statement line excluded none normalized s) _ e4 in
    subst (Keeps ctx.tenant_id s) (ok_injective e5) (
      Keeps-write_audit label ctx line_excluded line ctx.tenant_id s t
        (update_line-Keeps ctx.tenant_id statement line excluded none normalized s refl updated))

revalidated-Keeps :
    (p : Platform) (tenant id : ℕ) (s : Store) {result : StatementValidation × (ℕ × Store)}
    → revalidate_statement p tenant id s ≡ ok result
    → Keeps tenant s result.1.1
revalidated-Keeps p tenant id s e =
    let r = revalidate-Revalidated p tenant id s e in
    let judge = judge_statement r.validation in
    subst (λ (x : StatementValidation × (ℕ × Store)). Keeps tenant s x.1.1) r.returned
      (Keeps-trans (Keeps-update_statement tenant id judge s (λ st. refl) (λ st. refl)) (
        Keeps-update_document tenant r.row.document_id (judge_document r.validation.valid)
          (update_statement tenant id judge s) (λ d. refl)))

set_column-tenant :
    (column : Column) (value : Option Text) (st : Statement)
    → (set_column column value st).tenant_id ≡ st.tenant_id
set_column-tenant institution_name value st = refl
set_column-tenant account_hint value st = refl
set_column-tenant currency value st = refl
set_column-tenant period_start value st = refl
set_column-tenant period_end value st = refl
set_column-tenant opening_balance value st = refl
set_column-tenant closing_balance value st = refl

set_column-id :
    (column : Column) (value : Option Text) (st : Statement)
    → (set_column column value st).id ≡ st.id
set_column-id institution_name value st = refl
set_column-id account_hint value st = refl
set_column-id currency value st = refl
set_column-id period_start value st = refl
set_column-id period_end value st = refl
set_column-id opening_balance value st = refl
set_column-id closing_balance value st = refl

pub correct-Keeps :
    (p : Platform) (label : String) (ctx : Actor) (statement : ℕ) (name : String)
    (value : Option Text) (reason : Text) (s : Store) {s' : Store}
    → correct_statement_fact p label ctx statement name value reason s ≡ ok s'
    → Keeps ctx.tenant_id s s'
unfolding correct_statement_fact
correct-Keeps p label ctx statement name value reason s e =
    let tenant = ctx.tenant_id in
    let (_, e1) = guard->>= (has_permission ctx learn) forbidden _ e in
    let (_, e2) = guard->>= (is_valid_id statement) invalid_id _ e1 in
    let (column, _, e3) = >>=-ok (present (correctable name) field_not_correctable) _ e2 in
    let (_, _, e4) = >>=-ok (require_reason reason) _ e3 in
    let (st, _, e5) =
      >>=-ok (present (find (is_statement tenant statement) s.statements) statement_not_found) _
        e4 in
    let (kept, _, e6) = >>=-ok (column_value p column value) _ e5 in
    let changed = set_column column kept st in
    let (_, e7) =
      guard->>= (period_check p changed.period_start changed.period_end) database_refused _ e6 in
    let t = update_statement tenant statement (set_column column kept) s in
    let (result, validated, e8) = >>=-ok (revalidate_statement p tenant statement t) _ e7 in
    subst (Keeps tenant s) (ok_injective e8) (
      Keeps-write_audit label ctx fact_corrected statement tenant s result.1.1 (
        Keeps-trans
          (Keeps-update_statement tenant statement (set_column column kept) s
            (set_column-tenant column kept) (set_column-id column kept))
          (revalidated-Keeps p tenant statement t validated)))

filed-Keeps :
    (now : ℕ) (label : String) (ctx : Actor) (id : ℕ) (result : StatementValidation × (ℕ × Store))
    (s : Store) {s' : Store}
    → Keeps ctx.tenant_id s result.1.1
    → file_validated now label ctx id result ≡ ok s'
    → Keeps ctx.tenant_id s s'
unfolding file_validated
filed-Keeps now label ctx id (v, (document, t)) s k e =
    let tenant = ctx.tenant_id in
    let (_, e1) = guard->>= v.valid cannot_be_filed _ e in
    let (_, e2) = guard->>= (all_resolved (lines_of tenant id t)) lines_unresolved _ e1 in
    let marked = update_statement tenant id (mark_filed now) t in
    subst (Keeps tenant s) (ok_injective e2) (
      Keeps-write_audit label ctx statement_filed id tenant s
        (update_document tenant document file_document marked)
        (Keeps-trans k (
          Keeps-trans
            (Keeps-update_statement tenant id (mark_filed now) t (λ st. refl) (λ st. refl))
            (Keeps-update_document tenant document file_document marked (λ d. refl)))))

pub file-Keeps :
    (p : Platform) (now : ℕ) (label : String) (ctx : Actor) (id : ℕ) (s : Store) {s' : Store}
    → file_statement p now label ctx id s ≡ ok s'
    → Keeps ctx.tenant_id s s'
unfolding file_statement
file-Keeps p now label ctx id s e =
    let (_, e1) = guard->>= (has_permission ctx remap) forbidden _ e in
    let (_, e2) = guard->>= (is_valid_id id) invalid_id _ e1 in
    let (result, validated, e3) = >>=-ok (revalidate_statement p ctx.tenant_id id s) _ e2 in
    filed-Keeps now label ctx id result s (revalidated-Keeps p ctx.tenant_id id s validated) e3
