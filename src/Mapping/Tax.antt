-- ===== src/Mapping/Tax.antt =====
-- src/mapping/tax.ts: whether the tax of a proposed transaction may be written. The texts `detail`
-- and `evidence`, which only explain a hold, and `tax.evidence`, which is passed along, are left out.
use ap_hub.Prelude.{
  Bool, true, not, ◌&&◌, String, List, [], ◌∷◌, Option, none, some, str_eq, if◌then◌else◌,
  option_is,
}
use ap_hub.Mapping.Amount.{Amounts}

pub data TaxMode : Type 0 where
  exclusive inclusive : TaxMode

pub record CanonicalTaxLine (N : Type 0) : Type 0 where
  pub amount : N
  pub code : Option String

pub record CanonicalTax (N : Type 0) : Type 0 where
  pub mode : TaxMode
  pub amount : N
  pub code : Option String
  pub code_name : Option String
  pub lines : List (CanonicalTaxLine N)
  pub subtotal : Option N

-- `proposed_txn.tax` as it is stored.
pub data RawTax (N : Type 0) : Type 0 where
  missing : RawTax N
  number : N → RawTax N
  text : String → RawTax N
  structured : CanonicalTax N → RawTax N

-- `number | CanonicalTax`.
pub data NormalTax (N : Type 0) : Type 0 where
  bare : N → NormalTax N
  tax : CanonicalTax N → NormalTax N

pub record TaxReconciliation (N : Type 0) : Type 0 where
  pub mode : TaxMode
  pub tax_amount : N
  pub line_sum : N
  pub total : N
  pub code : String
  pub ok : Bool

pub data TaxHold : Type 0 where
  tax_unmapped tax_unreconciled : TaxHold

pub data TaxDecision (N : Type 0) : Type 0 where
  no_tax : TaxDecision N
  tax_ok : CanonicalTax N → TaxReconciliation N → TaxDecision N
  tax_hold : TaxHold → TaxDecision N

-- A code that JavaScript takes for true: there, and not empty.
abbrev pub truthy : Option String → Bool
truthy = option_is (λ code. not (str_eq code ""))

abbrev pub text_or : String → Option String → String
text_or default none = default
text_or default (some code) = code

abbrev pub or_else {ℓ} : {A : Type ℓ} → A → Option A → A
or_else default none = default
or_else default (some value) = value

module _ {N : Type 0} (amounts : Amounts N) where
  unfoldable pub normalize_tax : RawTax N → Option (NormalTax N)
  normalize_tax missing = none
  normalize_tax (number n) = some (bare n)
  normalize_tax (structured t) = some (tax t)
  normalize_tax (text t) = elim (amounts.parse t) [ none ↦ none | some n ↦ some (bare n) ]

  unfoldable pub sum_from : N → List N → N
  sum_from total [] = total
  sum_from total (line ∷ lines) = sum_from (amounts.add total (amounts.num line)) lines

  -- Math.abs(a - b) <= tol
  abbrev pub within : N → N → N → Bool
  within tol a b = amounts.le (amounts.abs (amounts.sub a b)) tol

  unfoldable pub reconciles : N → TaxMode → N → N → N → Bool
  reconciles tol inclusive subtotal tax_amount total =
      within tol subtotal total
      && amounts.lt amounts.zero tax_amount
      && amounts.lt tax_amount (amounts.add total tol)
  reconciles tol exclusive subtotal tax_amount total =
      within tol (amounts.add subtotal tax_amount) total

  -- The subtotal that is reconciled: the one that the tax states, else the sum of the lines.
  unfoldable pub subtotal_of : CanonicalTax N → N → N
  subtotal_of t line_sum = elim t.subtotal [ none ↦ line_sum | some s ↦ amounts.num s ]

  unfoldable pub evaluate_structured : N → CanonicalTax N → N → N → TaxDecision N
  evaluate_structured tol t line_sum total =
      let tax_amount = amounts.num t.amount in
      let subtotal = subtotal_of t line_sum in
      if amounts.lt (amounts.abs tax_amount) tol
      then no_tax
      else if not (truthy t.code)
      then tax_hold tax_unmapped
      else if not (reconciles tol t.mode subtotal tax_amount total)
      then tax_hold tax_unreconciled
      else tax_ok (record t { amount = tax_amount; subtotal = some subtotal })
          (record {
            mode = t.mode;
            tax_amount = tax_amount;
            line_sum = subtotal;
            total = total;
            code = text_or "" t.code;
            ok = true;
          })

  -- `evaluateTax` of the fields `tax`, `lines` and `TotalAmt`, with the tolerance.
  unfoldable pub evaluate_tax : N → RawTax N → List N → N → TaxDecision N
  evaluate_tax tol raw lines total_amt = elim (normalize_tax raw) [
    | none ↦ no_tax
    | some (bare n) ↦ if amounts.lt (amounts.abs n) tol then no_tax else tax_hold tax_unmapped
    | some (tax t) ↦ evaluate_structured tol t (sum_from amounts.zero lines) (amounts.num total_amt)
  ]

pub record TaxMappingRecord : Type 0 where
  pub active : Bool
  pub needs_revalidation : Bool

pub data TaxMappingGate : Type 0 where
  mapping_ok tax_mapping_not_found tax_mapping_inactive tax_mapping_needs_revalidation :
      TaxMappingGate

unfoldable pub evaluate_tax_mapping_record : Option TaxMappingRecord → TaxMappingGate
evaluate_tax_mapping_record none = tax_mapping_not_found
evaluate_tax_mapping_record (some mapping) =
    if not mapping.active
    then tax_mapping_inactive
    else if mapping.needs_revalidation
    then tax_mapping_needs_revalidation
    else mapping_ok
