-- ===== src/Statements/Keeps.antt =====
-- What every write of src/statements/ leaves as it was: the rows of other tenants, the postings, and
-- the evidence behind the matched lines.
use ap_hub.Prelude.{
  ℕ, ◌<◌, ◌≡◌, ◌≢◌, refl, ◌∙◌, ap, subst, sym, Bool, true, false, ◌&&◌, ◌||◌, List, arith, map,
  Option, none, some, any, All, All-change_if, select, select-change_if, ◌==◌, change_if, str_eq,
}
use ap_hub.Text.{Text, text_eq}
use ap_hub.Statements.Tables.{
  StatementLine, Store, Statement, Document, MatchStatus, unmatched, suggested, matched, excluded,
  ProviderRef, PostedRow,
}
use ap_hub.Statements.Import.{is_document, update_document}
use ap_hub.Statements.Review.{is_statement, update_statement, is_line, settle_line}
use ap_hub.Statements.Reread.{WellFormed}

-- A row that was posted for the tenant, under the provider's id.
abbrev pub is_posted : ℕ → Text → PostedRow → Bool
is_posted tenant external_id row =
    (str_eq row.status "posted" || str_eq row.status "posted_sandbox")
    && (row.tenant_id == tenant)
    && text_eq row.external_id external_id

-- A match needs a posted row of its tenant, under the provider's id that it names.
abbrev pub backed : List PostedRow → ℕ → MatchStatus → Option ProviderRef → Bool
backed postings tenant unmatched ref = true
backed postings tenant suggested ref = true
backed postings tenant matched none = false
backed postings tenant matched (some ref) = any (is_posted tenant ref.transaction_id) postings
backed postings tenant excluded ref = true

abbrev pub IsBacked : List PostedRow → StatementLine → Type 0
IsBacked postings line =
    backed postings line.tenant_id line.match_status line.matched_provider_ref ≡ true

abbrev pub Backed : Store → Type 0
Backed s = All (IsBacked s.postings) s.lines

abbrev pub documents_of : ℕ → Store → List Document
documents_of u s = select (λ (d : Document). d.tenant_id == u) s.documents

abbrev pub statements_of : ℕ → Store → List Statement
statements_of u s = select (λ (st : Statement). st.tenant_id == u) s.statements

abbrev pub rows_of : ℕ → Store → List StatementLine
rows_of u s = select (λ (line : StatementLine). line.tenant_id == u) s.lines

pub record Keeps (tenant : ℕ) (s s' : Store) : Type 0 where
  pub postings : s'.postings ≡ s.postings
  pub backing : Backed s → Backed s'
  pub forming : WellFormed s → WellFormed s'
  pub documents : (u : ℕ) → u ≢ tenant → documents_of u s' ≡ documents_of u s
  pub statements : (u : ℕ) → u ≢ tenant → statements_of u s' ≡ statements_of u s
  pub lines : (u : ℕ) → u ≢ tenant → rows_of u s' ≡ rows_of u s

pub Keeps-refl : (tenant : ℕ) (s : Store) → Keeps tenant s s
Keeps-refl tenant s = record {
  postings = refl;
  backing = λ b. b;
  forming = λ w. w;
  documents = λ u h. refl;
  statements = λ u h. refl;
  lines = λ u h. refl;
}

pub Keeps-trans :
    {tenant : ℕ} {s t r : Store} → Keeps tenant s t → Keeps tenant t r → Keeps tenant s r
Keeps-trans a b = record {
  postings = b.postings ∙ a.postings;
  backing = λ h. b.backing (a.backing h);
  forming = λ h. b.forming (a.forming h);
  documents = λ u h. b.documents u h ∙ a.documents u h;
  statements = λ u h. b.statements u h ∙ a.statements u h;
  lines = λ u h. b.lines u h ∙ a.lines u h;
}

pub Keeps-update_document :
    (tenant id : ℕ) (change : Document → Document) (s : Store)
    → ((d : Document) → (change d).tenant_id ≡ d.tenant_id)
    → Keeps tenant s (update_document tenant id change s)
Keeps-update_document tenant id change s same = record {
  postings = refl;
  backing = λ b. b;
  forming = λ w. record { lines_known = w.lines_known; statements_known = w.statements_known };
  documents = λ u h.
      select-change_if (λ (d : Document). d.tenant_id == u) (is_document tenant id) change
        s.documents (λ d. ap (λ t. t == u) (same d)) (λ d e. ground arith);
  statements = λ u h. refl;
  lines = λ u h. refl;
}

pub Keeps-update_statement :
    (tenant id : ℕ) (change : Statement → Statement) (s : Store)
    → ((st : Statement) → (change st).tenant_id ≡ st.tenant_id)
    → ((st : Statement) → (change st).id ≡ st.id)
    → Keeps tenant s (update_statement tenant id change s)
Keeps-update_statement tenant id change s same same_id = record {
  postings = refl;
  backing = λ b. b;
  forming = λ w. record {
    lines_known = w.lines_known;
    statements_known =
        All-change_if (λ (st : Statement). st.id < s.next_statement) (is_statement tenant id) change
          s.statements (λ st lt t. subst (λ k. k < s.next_statement) (sym (same_id st)) lt)
          w.statements_known;
  };
  documents = λ u h. refl;
  statements = λ u h.
      select-change_if (λ (st : Statement). st.tenant_id == u) (is_statement tenant id) change
        s.statements (λ st. ap (λ t. t == u) (same st)) (λ st e. ground arith);
  lines = λ u h. refl;
}

-- The lines of one statement, settled with a backed reference.
pub Keeps-settle_line :
    (tenant statement id : ℕ) (status : MatchStatus) (ref : Option ProviderRef) (reason : Text)
    (s : Store)
    → backed s.postings tenant status ref ≡ true
    → Keeps tenant s (record s {
      lines = map (change_if (is_line tenant statement id) (settle_line status ref reason)) s.lines;
    })
Keeps-settle_line tenant statement id status ref reason s b = record {
  postings = refl;
  backing =
      All-change_if (IsBacked s.postings) (is_line tenant statement id)
        (settle_line status ref reason) s.lines (λ line old t. settled_backed line t);
  forming = λ w. record {
    lines_known =
        All-change_if (λ (line : StatementLine). line.statement_id < s.next_statement)
          (is_line tenant statement id) (settle_line status ref reason) s.lines (λ line lt t. lt)
          w.lines_known;
    statements_known = w.statements_known;
  };
  documents = λ u h. refl;
  statements = λ u h. refl;
  lines = λ u h.
      select-change_if (λ (line : StatementLine). line.tenant_id == u) (is_line tenant statement id)
        (settle_line status ref reason) s.lines (λ line. refl) (λ line e. ground arith);
}
  where
    settled_backed :
        (line : StatementLine)
        → is_line tenant statement id line ≡ true
        → backed s.postings line.tenant_id status ref ≡ true
    settled_backed line t =
        let same : tenant ≡ line.tenant_id = ground arith in
        subst (λ u. backed s.postings u status ref ≡ true) same b
