-- ===== src/Gatekeeper/Severity.antt =====
-- src/swarmsync/severity.ts: what the findings of a scan mean for the gate. The text `evidence` is
-- left out.
use ap_hub.Prelude.{
  Bool, true, false, not, ◌&&◌, ◌||◌, String, List, [], ◌∷◌, map, Option, none, some, str_eq, any,
  if◌then◌else◌,
}

pub data Severity : Type 0 where
  critical high medium : Severity

pub record InvoiceFinding : Type 0 where
  pub severity : Severity
  pub pattern : String
  pub evidence : Option String

abbrev pub critical_patterns : List String
critical_patterns =
    "EXACT_DUPLICATE" ∷ "MODIFIED_DUPLICATE" ∷ "RECENT_DUPLICATE_IN_PAYMENT_HISTORY"
    ∷ "BANK_ACCOUNT_CHANGE_DETECTED" ∷ []

abbrev pub high_patterns : List String
high_patterns =
    "PO_AMOUNT_EXCEEDED" ∷ "MISSING_PO_REFERENCE" ∷ "vendor_address_mismatch"
    ∷ "LINE_ITEM_MATH_ERROR" ∷ []

pub record FindingClassification : Type 0 where
  pub has_critical : Bool
  pub has_high : Bool
  pub has_medium : Bool
  pub critical_reason : Option String
  pub patterns : List String

abbrev pub severity_is_critical : Severity → Bool
severity_is_critical critical = true
severity_is_critical _ = false

abbrev pub severity_is_high : Severity → Bool
severity_is_high high = true
severity_is_high _ = false

abbrev pub is_critical : InvoiceFinding → Bool
is_critical f = severity_is_critical f.severity || any (str_eq f.pattern) critical_patterns

abbrev pub is_high : InvoiceFinding → Bool
is_high f = severity_is_high f.severity || any (str_eq f.pattern) high_patterns

abbrev pub is_nonempty : List InvoiceFinding → Bool
is_nonempty [] = false
is_nonempty (f ∷ findings) = true

abbrev pub is_bank_change : InvoiceFinding → Bool
is_bank_change f = str_eq f.pattern "BANK_ACCOUNT_CHANGE_DETECTED"

unfoldable pub classify_findings : List InvoiceFinding → FindingClassification
classify_findings findings =
    let has_critical = any is_critical findings in
    let has_high = not has_critical && any is_high findings in
    record {
      has_critical = has_critical;
      has_high = has_high;
      has_medium = not has_critical && not has_high && is_nonempty findings;
      critical_reason =
          if has_critical
          then some (if any is_bank_change findings then "bank_change_warning" else "duplicate")
          else if has_high
          then some "fraud_flag"
          else none;
      patterns = map (λ (f : InvoiceFinding). f.pattern) findings;
    }
