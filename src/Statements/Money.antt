-- ===== src/Statements/Money.antt =====
-- `parseMoneyToCents` and `centsToDecimal`. Amounts are whole cents. A double that holds a whole
-- number up to 2^53 - 1 is exact, and the sum of a larger number is at least 2^53, so the exact
-- number passes `Number.isSafeInteger` when the double does. -0 is `===` 0 and is 0 here.
pub mod RoundTrip
pub mod Bounds
use ap_hub.Prelude.{
  ℕ, zero, suc, ◌+◌, ◌-◌, ◌*◌, ◌/◌, ◌%◌, ◌^◌, ◌≤◌, ◌≡◌, refl, Bool, true, false, not, ◌&&◌, ◌||◌,
  Option, none, some, List, [], ◌∷◌, ◌++◌, arith, leb, ltb, ◌==◌, if◌then◌else◌, select, ℤ, pos,
  negsuc, sub_ℕ, magnitude,
}
use ap_hub.Text.{Text, is_space, is_line_end, is_digit, trim}

-- `Number.MAX_SAFE_INTEGER`
abbrev pub max_safe : ℕ
max_safe = 2 ^ 53 - 1

-- `/^\(.*\)$/`, behind the first parenthesis: the text between.
unfoldable pub closed : Text → Option Text
closed [] = none
closed (c ∷ []) = if c == b')' then some [] else none
closed (c ∷ d ∷ s) = elim (closed (d ∷ s)) [
  | none ↦ none
  | some inner ↦ if is_line_end c then none else some (c ∷ inner)
]

unfoldable pub parenthesised : Text → Option Text
unfolding closed
parenthesised [] = none
parenthesised (c ∷ s) = if c == b'(' then closed s else none

-- What `/[$,\s]/g` leaves.
abbrev pub is_kept : ℕ → Bool
is_kept c = not ((c == b'$') || (c == b',') || is_space c)

-- Behind the point: one digit is tenths, two are hundredths, and nothing else is accepted.
abbrev pub fraction : ℕ → Text → Option ℕ
fraction whole [] = none
fraction whole (d ∷ []) = if is_digit d then some (whole * 100 + (d - 48) * 10) else none
fraction whole (d ∷ e ∷ []) =
    if is_digit d && is_digit e then some (whole * 100 + (d - 48) * 10 + (e - 48)) else none
fraction whole (d ∷ e ∷ f ∷ s) = none

-- `\d+(?:\.\d{1,2})?$` behind its first digit.
unfoldable pub digits_from : ℕ → Text → Option ℕ
digits_from whole [] = some (whole * 100)
digits_from whole (c ∷ s) =
    if is_digit c
    then digits_from (whole * 10 + (c - 48)) s
    else if c == b'.'
    then fraction whole s
    else none

unfoldable pub unsigned_cents : Text → Option ℕ
unfolding digits_from
unsigned_cents [] = none
unsigned_cents (c ∷ s) = if is_digit c then digits_from (c - 48) s else none

unfoldable pub starts_negative : Text → Bool
starts_negative [] = false
starts_negative (c ∷ s) = c == b'-'

unfoldable pub without_sign : Text → Text
without_sign [] = []
without_sign (c ∷ s) = if (c == b'+') || (c == b'-') then s else c ∷ s

abbrev pub signed : Bool → ℕ → ℤ
signed negative cents = if negative then sub_ℕ 0 cents else pos cents

abbrev pub safe : Bool → Option ℕ → Option ℤ
safe negative none = none
safe negative (some cents) = if leb cents max_safe then some (signed negative cents) else none

unfoldable pub cents_of : Bool → Text → Option ℤ
unfolding unsigned_cents starts_negative without_sign
cents_of in_parentheses unwrapped =
    let normalized = select is_kept unwrapped in
    safe (in_parentheses || starts_negative normalized) (unsigned_cents (without_sign normalized))

-- `none` is the exception INVALID_MONEY.
unfoldable pub parse_money_to_cents : Text → Option ℤ
unfolding trim parenthesised cents_of
parse_money_to_cents value =
    let trimmed = trim value in
    elim (parenthesised trimmed) [
      | none ↦ cents_of false trimmed
      | some inner ↦ cents_of true inner
    ]

-- `String(n)`: a number has at most as many digits as it has units, and one more.
digits_onto : ℕ → ℕ → Text → Text
digits_onto zero n out = out
digits_onto (suc fuel) n out =
    let rest = digits_onto fuel (n / 10) ((48 + n % 10) ∷ out) in
    if ltb n 10 then (48 + n) ∷ out else rest

unfoldable pub decimal : ℕ → Text → Text
unfolding digits_onto
decimal n out = digits_onto (suc n) n out

abbrev pub sign_text : ℤ → Text → Text
sign_text (pos n) out = out
sign_text (negsuc n) out = b'-' ∷ out

unfoldable pub cents_to_decimal : ℤ → Text
unfolding decimal
cents_to_decimal cents =
    let absolute = magnitude cents in
    sign_text cents
      (decimal (absolute / 100) (b'.' ∷ (48 + absolute % 100 / 10) ∷ (48 + absolute % 10) ∷ []))
