-- ===== src/Statements/Normalize.antt =====
-- `normalize` of src/statements/ingest.ts: an extracted statement, checked and put in cents, with the
-- fingerprints of its lines and the verdict on its balances.
use ap_hub.Prelude.{
  ℕ, suc, max, Bool, true, false, not, ◌&&◌, ◌||◌, Option, none, some, List, [], ◌∷◌, ◌++◌, any,
  ltb, ◌==◌, ℤ, pos, magnitude, ◌==ℤ◌, Result, ok, err, guard, ◌>>=◌, length, count_if, is_some,
}
use ap_hub.Text.{collapse_spaces, Text, is_digit, is_empty, trim, text_lt, text_eq}
use ap_hub.Statements.Money.{parse_money_to_cents, decimal, sign_text}
use ap_hub.Statements.Tables.{
  RawStatementLine, RawBankStatement, StatementValidation, ValidationCode, balanced,
  statement_unbalanced, Platform,
}

-- The codes of `StatementInputError`, and an error of the database.
pub data ImportFault : Type 0 where
  document_unreadable duplicate_line invalid_period invalid_line_date invalid_money : ImportFault
  database_refused : ImportFault

abbrev is_dash : ℕ → Bool
is_dash c = c == b'-'

-- `/^\d{4}-\d{2}-\d{2}$/`
abbrev iso_pattern : List (ℕ → Bool)
iso_pattern =
    is_digit ∷ is_digit ∷ is_digit ∷ is_digit ∷ is_dash ∷ is_digit ∷ is_digit ∷ is_dash ∷ is_digit
    ∷ is_digit ∷ []

unfoldable pub fits : List (ℕ → Bool) → Text → Bool
fits [] [] = true
fits [] (c ∷ s) = false
fits (p ∷ ps) [] = false
fits (p ∷ ps) (c ∷ s) = p c && fits ps s

unfoldable pub is_iso_date : Platform → Text → Bool
unfolding fits
is_iso_date p value = fits iso_pattern value && p.date_parses value

abbrev pub integer_text : ℤ → Text
integer_text n = sign_text n (decimal (magnitude n) [])

abbrev optional_text : Option ℤ → Text
optional_text none = []
optional_text (some n) = integer_text n

-- The separator is U+001F.
unfoldable pub fingerprint : Platform → Text → Text → Text → ℤ → Option ℤ → Text
unfolding trim collapse_spaces decimal
fingerprint p source_sha posted_on description amount balance = p.digest (
    source_sha
    ++ 31 ∷ posted_on
    ++ 31 ∷ p.lower_case (collapse_spaces (trim description))
    ++ 31 ∷ integer_text amount
    ++ 31 ∷ optional_text balance)

abbrev pub money_of : Option ℤ → Result ImportFault ℤ
money_of none = err invalid_money
money_of (some cents) = ok cents

unfoldable pub optional_money : Option Text → Result ImportFault (Option ℤ)
unfolding parse_money_to_cents
optional_money none = ok none
optional_money (some value) = do cents ← money_of (parse_money_to_cents value); ok (some cents)

pub record NormalLine : Type 0 where
  pub line_no : ℕ
  pub posted_on : Text
  pub description : Text
  pub amount_cents : ℤ
  pub balance_cents : Option ℤ
  pub fingerprint : Text

abbrev pub in_period : RawBankStatement → RawStatementLine → Bool
unfolding text_lt
in_period raw line =
    not (text_lt line.posted_on raw.period_start || text_lt raw.period_end line.posted_on)

unfoldable pub normal_line :
    Platform → Text → RawBankStatement → ℕ → RawStatementLine → Result ImportFault NormalLine
unfolding is_iso_date text_lt trim collapse_spaces parse_money_to_cents optional_money fingerprint
normal_line p source_sha raw index line = do
  _ ← guard (is_iso_date p line.posted_on) invalid_line_date
  _ ← guard (in_period raw line) invalid_line_date
  _ ← guard (not (is_empty (trim line.description))) document_unreadable
  amount ← money_of (parse_money_to_cents line.amount)
  balance ← optional_money line.balance
  let description = collapse_spaces (trim line.description)
  ok (record {
    line_no = suc index;
    posted_on = line.posted_on;
    description = description;
    amount_cents = amount;
    balance_cents = balance;
    fingerprint = fingerprint p source_sha line.posted_on description amount balance;
  })

unfoldable pub normal_lines :
    Platform
    → Text
    → RawBankStatement
    → ℕ
    → List RawStatementLine
    → Result ImportFault (List NormalLine)
unfolding normal_line
normal_lines p source_sha raw index [] = ok []
normal_lines p source_sha raw index (line ∷ rest) = do
  first ← normal_line p source_sha raw index line
  others ← normal_lines p source_sha raw (suc index) rest
  ok (first ∷ others)

-- The loop over the set `seen`.
unfoldable pub repeats : List Text → List NormalLine → Bool
unfolding text_eq
repeats seen [] = false
repeats seen (line ∷ rest) =
    any (text_eq line.fingerprint) seen || repeats (line.fingerprint ∷ seen) rest

abbrev pub activity_from : Platform → ℤ → List ℤ → ℤ
activity_from p total [] = total
activity_from p total (amount ∷ rest) = activity_from p (p.add total amount) rest

abbrev pub code_of : Bool → ValidationCode
code_of true = balanced
code_of false = statement_unbalanced

abbrev pub amounts : List NormalLine → List ℤ
amounts [] = []
amounts (line ∷ rest) = line.amount_cents ∷ amounts rest

abbrev pub page_count_of : Option ℕ → ℕ
page_count_of none = 1
page_count_of (some n) = max 1 n

unfoldable pub verdict : Platform → ℤ → ℤ → List ℤ → ℕ → ℕ → StatementValidation
verdict p opening closing changes missing pages =
    let activity = activity_from p (pos 0) changes in
    let expected = p.add opening activity in
    let valid = expected ==ℤ closing in
    record {
      valid = valid;
      code = code_of valid;
      opening_cents = opening;
      activity_cents = activity;
      closing_cents = closing;
      expected_closing_cents = expected;
      missing_running_balances = missing;
      page_count = pages;
    }

pub record Normalized : Type 0 where
  pub lines : List NormalLine
  pub opening_cents : ℤ
  pub closing_cents : ℤ
  pub validation : StatementValidation

unfoldable pub normalize : Platform → RawBankStatement → Text → Result ImportFault Normalized
unfolding is_iso_date text_lt normal_lines repeats parse_money_to_cents verdict
normalize p raw source_sha = do
  _ ← guard (is_iso_date p raw.period_start) invalid_period
  _ ← guard (is_iso_date p raw.period_end) invalid_period
  _ ← guard (not (text_lt raw.period_end raw.period_start)) invalid_period
  _ ← guard (ltb 0 (length raw.lines)) document_unreadable
  lines ← normal_lines p source_sha raw 0 raw.lines
  _ ← guard (not (repeats [] lines)) duplicate_line
  opening ← money_of (parse_money_to_cents raw.opening_balance)
  closing ← money_of (parse_money_to_cents raw.closing_balance)
  ok (record {
    lines = lines;
    opening_cents = opening;
    closing_cents = closing;
    validation =
        verdict p opening closing (amounts lines)
          (count_if (λ (line : NormalLine). not (is_some line.balance_cents)) lines)
          (page_count_of raw.page_count);
  })
