-- ===== src/Statements/Tests.antt =====
-- A month of two lines: imported, read again, settled and filed.
use ap_hub.Prelude.{
  ◌≡◌, refl, ◌↔◌, true, false, [], ◌∷◌, arith, none, some, Result, ok, err, pos, negsuc, ◌+ℤ◌,
  String,
}
use ap_hub.Access.Guard.{Actor}
use ap_hub.Text.{codes, text_lt}
use ap_hub.Statements.Money.{max_safe, parse_money_to_cents, cents_to_decimal}
use ap_hub.Statements.Money.RoundTrip.{parse-print}
use ap_hub.Statements.Money.Bounds.{parse_written}
use ap_hub.Statements.Tables.{
  Store, Platform, RawBankStatement, RawStatementLine, StatementSource, StatementValidation,
  in_review, PostedRow, Statement, StatementLine, excluded,
}
use ap_hub.Statements.Normalize.{verdict, normalize, Normalized}
use ap_hub.Statements.Import.{ImportResult, created, duplicate, import_bank_statement}
use ap_hub.Statements.Review.{
  lines_unresolved, match_statement_line, exclude_statement_line, RefInput,
}
use ap_hub.Statements.Filing.{file_statement}
use ap_hub.Statements.Filed.{Filed, file-Filed}
use ap_hub.Statements.Balance.{sum, verdict_exact}
use ap_hub.Statements.Reread.{WellFormed, Validates, revalidate_import}
use ap_hub.Statements.Keeps.{Backed, documents_of, statements_of, rows_of}
use ap_hub.Statements.Steps.{Action, History, Action-isolated, History-Backed}
use ap_hub.Statements.Again.{import_again}

parses : parse_money_to_cents (codes " ($1,234.5) ") ≡ some (negsuc 123449)
unfolding parse_money_to_cents
parses = refl

refuses : parse_money_to_cents (codes "1.234") ≡ none
unfolding parse_money_to_cents
refuses = refl

parse-print_example : parse_money_to_cents (cents_to_decimal (negsuc 123449)) ≡ some (negsuc 123449)
parse-print_example = parse-print (negsuc 123449) (omega arith)

-- The largest amount, and one cent more.
parse_written_example :
    parse_money_to_cents (codes "-90071992547409.91") ≡ some (negsuc 9007199254740990)
unfolding ap_hub.Statements.Money.Bounds.place_value
parse_written_example =
    parse_written true b'9' (codes "0071992547409") b'9' b'1'
      (
        refl,
        (
          refl,
          (
            refl,
            (
              refl,
              (refl, (refl, (refl, (refl, (refl, (refl, (refl, (refl, (refl, (refl, tt)))))))))),
            ),
          ),
        ),
      )
      refl refl

refuses_larger : parse_money_to_cents (codes "90071992547409.92") ≡ none
unfolding parse_money_to_cents
refuses_larger = refl

-- Sums are exact, every date is one, and the digest keeps its text.
abbrev platform : Platform
platform = record {
  digest = λ text. text;
  date_parses = λ text. true;
  lower_case = λ text. text;
  add = λ a b. a +ℤ b;
  to_date = λ text. some text;
  to_numeric = λ text. some text;
  is_before = text_lt;
}

verdict_exact_example :
    ((verdict platform (pos 100) (pos 250) (pos 200 ∷ negsuc 49 ∷ []) 0 1).valid ≡ true)
    ↔ (pos 100 +ℤ sum (pos 200 ∷ negsuc 49 ∷ []) ≡ pos 250)
verdict_exact_example =
    verdict_exact platform (pos 100) (pos 250) (pos 200 ∷ negsuc 49 ∷ []) 0 1 (λ a b h. refl)
      (omega arith)

abbrev line : String → String → String → RawStatementLine
line day description amount = record {
  posted_on = codes day;
  description = codes description;
  amount = codes amount;
  balance = none;
}

abbrev raw : RawBankStatement
raw = record {
  institution_name = none;
  account_hint = none;
  currency = none;
  period_start = codes "2026-01-01";
  period_end = codes "2026-01-31";
  opening_balance = codes "1.00";
  closing_balance = codes "2.50";
  lines = line "2026-01-05" "Deposit" "$2.00" ∷ line "2026-01-09" "Fee" "(0.50)" ∷ [];
  page_count = none;
}

abbrev source : StatementSource
source = record { tenant_id = 1; message_id = 5; attachment_id = 6; sha256 = codes "abc" }

abbrev payment : PostedRow
payment = record {
  id = 1;
  tenant_id = 1;
  external_id = codes "77";
  entity_type = codes "Bill";
  realm = codes "9";
  mode = codes "sandbox";
  status = "posted_sandbox";
  response = codes "{}";
  posted_at = some 3;
}

abbrev empty_store : Store
empty_store = record {
  documents = [];
  next_document = 1;
  statements = [];
  next_statement = 1;
  lines = [];
  next_line = 1;
  postings = payment ∷ [];
  audits = [];
}

abbrev balance_verdict : StatementValidation
unfolding verdict ◌+ℤ◌
balance_verdict = verdict platform (pos 100) (pos 250) (pos 200 ∷ negsuc 49 ∷ []) 2 1

abbrev store_of {ℓ} : {E : Type ℓ} → Result E (ImportResult × Store) → Store
store_of (ok r) = r.1
store_of (err e) = empty_store

abbrev kept_of {ℓ} : {E : Type ℓ} → Result E Store → Store
kept_of (ok s) = s
kept_of (err e) = empty_store

abbrev imported_store : Store
unfolding import_bank_statement ◌+ℤ◌
imported_store = store_of (import_bank_statement platform source raw empty_store)

import_run :
    import_bank_statement platform source raw empty_store
    ≡ ok (created 1 1 in_review balance_verdict, imported_store)
unfolding import_bank_statement ◌+ℤ◌ imported_store balance_verdict
import_run = refl

ordered : text_lt (codes "2026-01-31") (codes "2026-01-01") ≡ false
unfolding text_lt
ordered = refl

revalidate_import_example : Validates platform 1 1 1 balance_verdict imported_store
revalidate_import_example =
    revalidate_import platform source raw empty_store imported_store 1 1 in_review balance_verdict
      record { lines_known = tt; statements_known = tt } ordered import_run

abbrev normal_of {ℓ} : {E : Type ℓ} → Normalized → Result E Normalized → Normalized
normal_of n (ok m) = m
normal_of n (err e) = n

abbrev nothing : Normalized
nothing = record {
  lines = [];
  opening_cents = pos 0;
  closing_cents = pos 0;
  validation = balance_verdict;
}

abbrev normalized : Normalized
unfolding normalize ◌+ℤ◌
normalized = normal_of nothing (normalize platform raw (codes "abc"))

reads : normalize platform raw (codes "abc") ≡ ok normalized
unfolding normalize ◌+ℤ◌ normalized
reads = refl

import_again_example :
    import_bank_statement platform source raw imported_store
    ≡ ok (duplicate 1 1 in_review, imported_store)
import_again_example =
    import_again platform source raw raw normalized empty_store imported_store 1 1 in_review
      balance_verdict refl import_run reads

abbrev owner : Actor
owner = record { user_id = 1; tenant_id = 1; role = "owner_controller"; email = none; actor = none }

abbrev reference : RefInput
reference = ("transactionId", some (codes " 77 ")) ∷ []

abbrev matched_store : Store
unfolding match_statement_line imported_store
matched_store =
    kept_of
      (match_statement_line platform "user:1" owner 1 1 reference (codes "deposit") imported_store)

match_run :
    match_statement_line platform "user:1" owner 1 1 reference (codes "deposit") imported_store
    ≡ ok matched_store
unfolding match_statement_line imported_store matched_store
match_run = refl

-- One line is still open.
not_yet : file_statement platform 9 "user:1" owner 1 matched_store ≡ err lines_unresolved
unfolding file_statement matched_store imported_store ◌+ℤ◌
not_yet = refl

abbrev settled_store : Store
unfolding exclude_statement_line matched_store
settled_store = kept_of (exclude_statement_line "user:1" owner 1 2 (codes "bank fee") matched_store)

exclude_run :
    exclude_statement_line "user:1" owner 1 2 (codes "bank fee") matched_store ≡ ok settled_store
unfolding exclude_statement_line matched_store settled_store imported_store
exclude_run = refl

abbrev ready_statement : Statement
ready_statement = record {
  id = 1;
  tenant_id = 1;
  document_id = 1;
  institution_name = none;
  account_hint = none;
  currency = none;
  period_start = some (codes "1");
  period_end = some (codes "2");
  opening_balance = some (codes "1.00");
  closing_balance = some (codes "0.50");
  page_count = 1;
  status = in_review;
  validation_detail = none;
  filed_at = none;
}

abbrev ready_line : StatementLine
ready_line = record {
  id = 1;
  tenant_id = 1;
  statement_id = 1;
  line_no = 1;
  posted_on = codes "1";
  description = codes "Fee";
  amount = codes "-0.50";
  balance = none;
  fingerprint = codes "f";
  match_status = excluded;
  matched_provider_ref = none;
  review_reason = some (codes "fee");
}

abbrev ready_store : Store
ready_store = record empty_store { statements = ready_statement ∷ []; lines = ready_line ∷ [] }

abbrev filed_store : Store
unfolding file_statement text_lt ◌+ℤ◌
filed_store = kept_of (file_statement platform 9 "user:1" owner 1 ready_store)

file_run : file_statement platform 9 "user:1" owner 1 ready_store ≡ ok filed_store
unfolding file_statement filed_store text_lt ◌+ℤ◌
file_run = refl

file-Filed_example : Filed platform 9 owner 1 ready_store filed_store
file-Filed_example = file-Filed platform 9 "user:1" owner 1 ready_store file_run

Action-isolated_example :
    (documents_of 2 filed_store ≡ documents_of 2 ready_store)
    × (statements_of 2 filed_store ≡ statements_of 2 ready_store)
    × (rows_of 2 filed_store ≡ rows_of 2 ready_store)
Action-isolated_example =
    Action-isolated platform ready_store 1 filed_store 2
      (Action.filed 9 "user:1" owner 1 filed_store file_run) (omega arith)

whole_run : History platform empty_store settled_store
whole_run =
    History.then 1 matched_store settled_store
      (History.then 1 imported_store matched_store
        (History.then 1 empty_store imported_store History.done (
          Action.imported source raw (created 1 1 in_review balance_verdict, imported_store)
            import_run))
        (Action.matched "user:1" owner 1 1 reference (codes "deposit") matched_store match_run))
      (Action.excluded "user:1" owner 1 2 (codes "bank fee") settled_store exclude_run)

History-Backed_example : WellFormed settled_store × Backed settled_store
History-Backed_example =
    History-Backed platform empty_store settled_store whole_run
      record { lines_known = tt; statements_known = tt } tt
