-- ===== src/Mapping/Tests.antt =====
-- A tax of 7 on a bill of 100, in cents, and three dimension hints.
use ap_hub.Prelude.{
  ℕ, ◌+◌, ◌-◌, ltb, leb, ◌≡◌, ◌↔◌, refl, Bool, true, not, String, List, [], ◌∷◌, none, some, str_eq,
  all,
}
use ap_hub.Mapping.Amount.{Amounts}
use ap_hub.Mapping.Tax.{
  CanonicalTax, structured, exclusive, TaxReconciliation, tax_ok, evaluate_tax, evaluate_structured,
  normalize_tax, sum_from, subtotal_of, reconciles, inclusive, tax_hold, tax_unreconciled,
}
use ap_hub.Mapping.Taxed.{Writable, evaluate_tax_iff}
use ap_hub.Mapping.Dimension.{
  DimensionHint, DimensionCandidateRow, Context, resolve_dimensions, has_unhandled_dimension,
  supported_dimension_kinds,
}
use ap_hub.Mapping.Carry.{stored_passes, gate-resolve_dimensions}

-- Whole cents; the distance for a difference.
abbrev cents : Amounts ℕ
cents = record {
  num = λ n. n;
  zero = 0;
  add = λ a b. a + b;
  sub = λ a b. (a - b) + (b - a);
  abs = λ a. a;
  lt = ltb;
  le = leb;
  parse = λ text. none;
}

abbrev sales_tax : CanonicalTax ℕ
sales_tax = record {
  mode = exclusive;
  amount = 700;
  code = some "TX";
  code_name = none;
  lines = [];
  subtotal = none;
}

abbrev written : CanonicalTax ℕ
written = record sales_tax { subtotal = some 10000 }

abbrev reconciliation : TaxReconciliation ℕ
reconciliation = record {
  mode = exclusive;
  tax_amount = 700;
  line_sum = 10000;
  total = 10700;
  code = "TX";
  ok = true;
}

tax_reconciles :
    evaluate_tax cents 1 (structured sales_tax) (6000 ∷ 4000 ∷ []) 10700
    ≡ tax_ok written reconciliation
unfolding evaluate_tax normalize_tax evaluate_structured sum_from subtotal_of reconciles
tax_reconciles = refl

evaluate_tax_iff_example :
    (evaluate_tax cents 1 (structured sales_tax) (6000 ∷ 4000 ∷ []) 10700
      ≡ tax_ok written reconciliation)
    ↔ ((t : CanonicalTax ℕ) × (structured sales_tax ≡ structured t)
        × Writable cents 1 t (6000 ∷ 4000 ∷ []) 10700 written reconciliation)
evaluate_tax_iff_example =
    evaluate_tax_iff cents 1 (structured sales_tax) (6000 ∷ 4000 ∷ []) 10700 written reconciliation

-- An inclusive tax that adds up only as an exclusive one is held.
wrong_mode :
    evaluate_tax cents 1
      (structured (record sales_tax { mode = inclusive }))
      (6000 ∷ 4000 ∷ [])
      10700
    ≡ tax_hold tax_unreconciled
unfolding evaluate_tax normalize_tax evaluate_structured reconciles subtotal_of sum_from
wrong_mode = refl

abbrev hints : List DimensionHint
hints =
    record { kind = "class"; raw = some "West" }
    ∷ record { kind = "location"; raw = none }
    ∷ record { kind = "project"; raw = some "Roof" }
    ∷ []

abbrev candidates : List DimensionCandidateRow
candidates = record { kind = "class"; key = "West"; target_id = "c7"; target_name = "West" } ∷ []

abbrev same_text : String → String
same_text text = text

abbrev is_blank : String → Bool
is_blank text = str_eq text ""

abbrev context : Context
context = record { tenant_id = 1; connection_id = 5; provider = "qbo"; proposal_id = 7 }

gate-resolve_dimensions_example :
    let dims = resolve_dimensions same_text is_blank hints candidates supported_dimension_kinds in
    all (stored_passes same_text is_blank context) dims ≡ not (has_unhandled_dimension dims)
gate-resolve_dimensions_example =
    gate-resolve_dimensions same_text is_blank hints candidates supported_dimension_kinds context
