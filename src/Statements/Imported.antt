-- ===== src/Statements/Imported.antt =====
-- What `importBankStatement` leaves behind, and what `revalidateStatement` reads of it.
use ap_hub.Prelude.{
  ℕ, suc, ◌≤◌, ◌≡◌, refl, ◌∙◌, ap, subst, sym, not, List, [], ◌∷◌, ◌++◌, arith, ℤ, magnitude,
  Option, none, some, ok, >>=-ok, guard->>=, ok_injective, is_some, any, All, select, count_if,
}
use ap_hub.Text.{Text, trim, is_empty}
use ap_hub.Statements.Money.{max_safe, parse_money_to_cents}
use ap_hub.Statements.Money.RoundTrip.{parse-print}
use ap_hub.Statements.Money.Bounds.{parse_bound}
use ap_hub.Statements.Tables.{StatementLine, Store, Platform, RawBankStatement, RawStatementLine}
use ap_hub.Statements.Normalize.{
  database_refused, invalid_line_date, document_unreadable, is_iso_date, in_period, NormalLine,
  money_of, optional_money, normal_line, normal_lines, amounts,
}
use ap_hub.Statements.Import.{same_fingerprint, line_row, insert_lines, optional_decimal}
use ap_hub.Statements.Review.{is_line_of, read_amounts, lacks_balance}

abbrev pub rows_from : ℕ → ℕ → ℕ → List NormalLine → List StatementLine
rows_from next tenant statement [] = []
rows_from next tenant statement (line ∷ rest) =
    line_row next tenant statement line ∷ rows_from (suc next) tenant statement rest

-- A store whose lines grew, and nothing else.
abbrev pub with_lines : List StatementLine → ℕ → Store → Store
with_lines lines next s = record s { lines = lines; next_line = next }

append_assoc : (xs ys zs : List StatementLine) → (xs ++ ys) ++ zs ≡ xs ++ (ys ++ zs)
append_assoc [] ys zs = refl
append_assoc (x ∷ xs) ys zs = ap (λ r. x ∷ r) (append_assoc xs ys zs)

append-nil : (xs : List StatementLine) → xs ++ [] ≡ xs
append-nil [] = refl
append-nil (x ∷ xs) = ap (λ r. x ∷ r) (append-nil xs)

pub insert_lines-ok :
    (p : Platform) (tenant statement : ℕ) (lines : List NormalLine) (s : Store) {s' : Store}
    → insert_lines p tenant statement lines s ≡ ok s'
    → (k : ℕ) × (with_lines (s.lines ++ rows_from s.next_line tenant statement lines) k s ≡ s')
unfolding insert_lines
insert_lines-ok p tenant statement [] s e =
    (s.next_line, ap (λ rows. with_lines rows s.next_line s) (append-nil s.lines) ∙ ok_injective e)
insert_lines-ok p tenant statement (line ∷ rest) s {s'} e =
    let (_, e1) = guard->>= (is_some (p.to_date line.posted_on)) database_refused _ e in
    let (_, e2) =
      guard->>= (not (any (same_fingerprint tenant line.fingerprint) s.lines)) database_refused _
        e1 in
    let row = line_row s.next_line tenant statement line in
    let (k, same) =
      insert_lines-ok p tenant statement rest (with_lines (s.lines ++ row ∷ []) (suc s.next_line) s)
        e2 in
    (
      k,
      ap (λ rows. with_lines rows k s)
            (sym
              (append_assoc s.lines (row ∷ []) (rows_from (suc s.next_line) tenant statement rest)))
          ∙ same,
    )

abbrev pub IsSafe : ℤ → Type 0
IsSafe c = magnitude c ≤ max_safe

money_of-ok : (o : Option ℤ) {c : ℤ} → money_of o ≡ ok c → o ≡ some c
money_of-ok none e = cc
money_of-ok (some c) e = cc

pub money-IsSafe : (value : Text) {c : ℤ} → money_of (parse_money_to_cents value) ≡ ok c → IsSafe c
money-IsSafe value e = parse_bound value (money_of-ok _ e)

normal_line-IsSafe :
    (p : Platform) (sha : Text) (raw : RawBankStatement) (index : ℕ) (line : RawStatementLine)
    {n : NormalLine}
    → normal_line p sha raw index line ≡ ok n
    → IsSafe n.amount_cents
unfolding normal_line
normal_line-IsSafe p sha raw index line e =
    let (_, e1) = guard->>= (is_iso_date p line.posted_on) invalid_line_date _ e in
    let (_, e2) = guard->>= (in_period raw line) invalid_line_date _ e1 in
    let (_, e3) = guard->>= (not (is_empty (trim line.description))) document_unreadable _ e2 in
    let (amount, safe, e4) = >>=-ok (money_of (parse_money_to_cents line.amount)) _ e3 in
    let (balance, _, e5) = >>=-ok (optional_money line.balance) _ e4 in
    subst IsSafe (ap (λ (n : NormalLine). n.amount_cents) (ok_injective e5))
      (money-IsSafe line.amount safe)

pub normal_lines-IsSafe :
    (p : Platform) (sha : Text) (raw : RawBankStatement) (index : ℕ) (lines : List RawStatementLine)
    {ns : List NormalLine}
    → normal_lines p sha raw index lines ≡ ok ns
    → All IsSafe (amounts ns)
unfolding normal_lines
normal_lines-IsSafe p sha raw index [] e = subst (λ ns. All IsSafe (amounts ns)) (ok_injective e) tt
normal_lines-IsSafe p sha raw index (line ∷ rest) e =
    let (first, e_first, e1) = >>=-ok (normal_line p sha raw index line) _ e in
    let (others, e_others, e2) = >>=-ok (normal_lines p sha raw (suc index) rest) _ e1 in
    subst (λ ns. All IsSafe (amounts ns)) (ok_injective e2)
      (
        normal_line-IsSafe p sha raw index line e_first,
        normal_lines-IsSafe p sha raw (suc index) rest e_others,
      )

-- The texts of the table are read back as the cents that were written.
pub read_amounts-rows :
    (next tenant statement : ℕ) (lines : List NormalLine)
    → All IsSafe (amounts lines)
    → read_amounts (rows_from next tenant statement lines) ≡ ok (amounts lines)
unfolding read_amounts line_row
read_amounts-rows next tenant statement [] h = refl
read_amounts-rows next tenant statement (line ∷ rest) (safe, h) =
    rw (parse-print line.amount_cents safe, read_amounts-rows (suc next) tenant statement rest h)

lacks_decimal : (o : Option ℤ) → not (is_some (optional_decimal o)) ≡ not (is_some o)
unfolding optional_decimal
lacks_decimal none = refl
lacks_decimal (some c) = refl

lacks-row :
    (next tenant statement : ℕ) (line : NormalLine)
    → lacks_balance (line_row next tenant statement line) ≡ not (is_some line.balance_cents)
unfolding line_row
lacks-row next tenant statement line = lacks_decimal line.balance_cents

pub count-rows :
    (next tenant statement : ℕ) (lines : List NormalLine)
    → count_if lacks_balance (rows_from next tenant statement lines)
      ≡ count_if (λ (line : NormalLine). not (is_some line.balance_cents)) lines
count-rows next tenant statement [] = refl
count-rows next tenant statement (line ∷ rest) =
    ground
      (arith, lacks-row next tenant statement line, count-rows (suc next) tenant statement rest)

pub own_rows :
    (next tenant statement : ℕ) (lines : List NormalLine)
    → select (is_line_of tenant statement) (rows_from next tenant statement lines)
      ≡ rows_from next tenant statement lines
unfolding line_row
own_rows next tenant statement [] = refl
own_rows next tenant statement (line ∷ rest) =
    ground (arith, own_rows (suc next) tenant statement rest)
