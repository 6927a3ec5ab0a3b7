-- ===== src/Statements/Steps.antt =====
-- The actions of src/statements/ as steps of the store, and their runs.
use ap_hub.Prelude.{ℕ, ◌≡◌, ◌≢◌, String, Option, ok}
use ap_hub.Access.Guard.{Actor}
use ap_hub.Text.{Text}
use ap_hub.Statements.Tables.{Store, Platform, RawBankStatement, StatementSource}
use ap_hub.Statements.Import.{ImportResult, import_bank_statement, hold_unreadable_statement}
use ap_hub.Statements.Review.{RefInput, match_statement_line, exclude_statement_line}
use ap_hub.Statements.Filing.{correct_statement_fact, file_statement}
use ap_hub.Statements.Reread.{WellFormed}
use ap_hub.Statements.Keeps.{Backed, Keeps, documents_of, statements_of, rows_of}
use ap_hub.Statements.ImportKeeps.{import-Keeps, hold-Keeps}
use ap_hub.Statements.ReviewKeeps.{match-Keeps, exclude-Keeps, correct-Keeps, file-Keeps}

-- An action that throws leaves the store as it was, and is no step. The tenant is that of the source
-- or of the actor.
pub data Action (p : Platform) (s : Store) : ℕ → Store → Type 0 where
  imported :
      (source : StatementSource) (raw : RawBankStatement) (result : ImportResult × Store)
      → import_bank_statement p source raw s ≡ ok result
      → Action p s source.tenant_id result.1
  held :
      (source : StatementSource) (reason : String)
      → Action p s source.tenant_id (hold_unreadable_statement source reason s).1
  matched :
      (label : String) (ctx : Actor) (statement line : ℕ) (input : RefInput) (reason : Text)
      (s' : Store)
      → match_statement_line p label ctx statement line input reason s ≡ ok s'
      → Action p s ctx.tenant_id s'
  excluded :
      (label : String) (ctx : Actor) (statement line : ℕ) (reason : Text) (s' : Store)
      → exclude_statement_line label ctx statement line reason s ≡ ok s'
      → Action p s ctx.tenant_id s'
  corrected :
      (label : String) (ctx : Actor) (statement : ℕ) (name : String) (value : Option Text)
      (reason : Text) (s' : Store)
      → correct_statement_fact p label ctx statement name value reason s ≡ ok s'
      → Action p s ctx.tenant_id s'
  filed :
      (now : ℕ) (label : String) (ctx : Actor) (statement : ℕ) (s' : Store)
      → file_statement p now label ctx statement s ≡ ok s'
      → Action p s ctx.tenant_id s'

pub Action-Keeps :
    (p : Platform) (s : Store) {tenant : ℕ} {s' : Store} → Action p s tenant s' → Keeps tenant s s'
Action-Keeps p s (Action.imported source raw result e) = import-Keeps p source raw s e
Action-Keeps p s (Action.held source reason) = hold-Keeps source reason s
Action-Keeps p s (Action.matched label ctx statement line input reason s' e) =
    match-Keeps p label ctx statement line input reason s e
Action-Keeps p s (Action.excluded label ctx statement line reason s' e) =
    exclude-Keeps label ctx statement line reason s e
Action-Keeps p s (Action.corrected label ctx statement name value reason s' e) =
    correct-Keeps p label ctx statement name value reason s e
Action-Keeps p s (Action.filed now label ctx statement s' e) =
    file-Keeps p now label ctx statement s e

pub data History (p : Platform) (s : Store) : Store → Type 0 where
  done : History p s s
  then : (tenant : ℕ) (t r : Store) → History p s t → Action p t tenant r → History p s r

-- An action of one tenant leaves the documents, the statements and the lines of every other tenant as
-- they were, row for row.
pub Action-isolated :
    (p : Platform) (s : Store) (tenant : ℕ) (s' : Store) (other : ℕ)
    → Action p s tenant s'
    → other ≢ tenant
    → (documents_of other s' ≡ documents_of other s)
      × (statements_of other s' ≡ statements_of other s)
      × (rows_of other s' ≡ rows_of other s)
Action-isolated p s tenant s' other step apart =
    let k = Action-Keeps p s step in
    (k.documents other apart, k.statements other apart, k.lines other apart)

-- However the actions follow each other, every matched line keeps a reference to a posted row of its
-- own tenant, and the keys stay in order, if both held at the start.
pub History-Backed :
    (p : Platform) (s s' : Store)
    → History p s s'
    → WellFormed s
    → Backed s
    → WellFormed s' × Backed s'
History-Backed p s s' History.done formed backed = (formed, backed)
History-Backed p s s' (History.then tenant t r run step) formed backed =
    let (formed', backed') = History-Backed p s t run formed backed in
    let k = Action-Keeps p t step in (k.forming formed', k.backing backed')
