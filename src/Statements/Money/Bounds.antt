-- ===== src/Statements/Money/Bounds.antt =====
-- What `parseMoneyToCents` returns for an amount that is written with digits, in range or not.
use ap_hub.Prelude.{
  ℕ, zero, suc, ◌+◌, ◌-◌, ◌*◌, ◌^◌, ◌≡◌, ◌≤◌, refl, sym, ◌∙◌, ap, Bool, true, false, Option, none,
  some, [], ◌∷◌, ◌++◌, arith, All, All-append, ℤ, pos, sub_ℕ, length, leb, magnitude, Option-cases,
  inl, inr, select, ◌||◌, if◌then◌else◌,
}
use ap_hub.Text.{Text, is_digit, trim}
use ap_hub.Statements.Money.{
  max_safe, digits_from, unsigned_cents, starts_negative, without_sign, safe, cents_of,
  parse_money_to_cents, parenthesised, is_kept,
}
use ap_hub.Statements.Money.RoundTrip.{
  IsAmount, parse-plain, cents_of-plain, read_head, unsigned-digits,
}

safe-bound :
    (negative : Bool) (cents : Option ℕ) {c : ℤ}
    → safe negative cents ≡ some c
    → magnitude c ≤ max_safe
safe-bound negative none e = cc
safe-bound negative (some cents) e = ground arith

cents_of-bound :
    (in_parentheses : Bool) (s : Text) {c : ℤ}
    → cents_of in_parentheses s ≡ some c
    → magnitude c ≤ max_safe
unfolding cents_of
cents_of-bound in_parentheses s e =
    let normalized = select is_kept s in
    safe-bound (in_parentheses || starts_negative normalized)
      (unsigned_cents (without_sign normalized)) e

-- What is accepted is in the range of the exact doubles.
pub parse_bound :
    (value : Text) {c : ℤ} → parse_money_to_cents value ≡ some c → magnitude c ≤ max_safe
unfolding parse_money_to_cents
parse_bound value e = elim (Option-cases (parenthesised (trim value))) [
  | inl p ↦ cents_of-bound false (trim value) (rw (p, parse_money_to_cents) at e)
  | inr (inner, p) ↦ cents_of-bound true inner (rw (p, parse_money_to_cents) at e)
]

-- The number that digits write, each by its place.
unfoldable pub place_value : Text → ℕ
place_value [] = 0
place_value (c ∷ s) = (c - 48) * 10 ^ length s + place_value s

abbrev pub Digits : Text → Type 0
Digits = All (λ c. is_digit c ≡ true)

-- An amount of cents with its sign, where a double holds it exactly.
abbrev pub in_range : Bool → ℕ → Option ℤ
in_range negative cents =
    if leb cents (2 ^ 53 - 1) then some (if negative then sub_ℕ 0 cents else pos cents) else none

abbrev pub minus : Bool → Text → Text
minus true s = b'-' ∷ s
minus false s = s

move_place : (k a x : ℕ) → (k * 10 + a) * x ≡ k * (10 * x) + a * x
move_place k a zero = omega arith
move_place k a (suc x) = let h = move_place k a x in omega arith

ten_times : (n : ℕ) → 10 ^ suc n ≡ 10 * 10 ^ n
ten_times n = omega arith

same_total :
    (a b p d e : ℕ)
    → (a + b + p) * 100 + (d - 48) * 10 + (e - 48) ≡ (a + (b + p)) * 100 + (d - 48) * 10 + (e - 48)
same_total a b p d e = omega arith

digits_from-place_value :
    (k : ℕ) (w : Text) (d e : ℕ)
    → Digits w
    → is_digit d ≡ true
    → is_digit e ≡ true
    → digits_from k (w ++ b'.' ∷ d ∷ e ∷ [])
      ≡ some ((k * 10 ^ length w + place_value w) * 100 + (d - 48) * 10 + (e - 48))
unfolding digits_from place_value
digits_from-place_value k [] d e h p q = rw (p, q) (ap some (omega arith))
digits_from-place_value k (c ∷ w) d e (t, h) p q = rw t (
    digits_from-place_value (k * 10 + (c - 48)) w d e h p q
    ∙ ap (λ n. some ((n + place_value w) * 100 + (d - 48) * 10 + (e - 48)))
        (move_place k (c - 48) (10 ^ length w))
    ∙ ap some (same_total (k * (10 * 10 ^ length w)) ((c - 48) * 10 ^ length w) (place_value w) d e)
    ∙ ap
        (λ x.
          some
            ((k * x + ((c - 48) * 10 ^ length w + place_value w)) * 100 + (d - 48) * 10 + (e - 48)))
        (sym (ten_times (length w))))

digit-IsAmount : (w : Text) → Digits w → All IsAmount w
digit-IsAmount [] h = tt
digit-IsAmount (c ∷ w) (t, h) = (ground (arith, t), digit-IsAmount w h)

from_zero :
    (w : Text) (d e : ℕ)
    → Digits w
    → is_digit d ≡ true
    → is_digit e ≡ true
    → digits_from 0 (w ++ b'.' ∷ d ∷ e ∷ []) ≡ some (place_value w * 100 + (d - 48) * 10 + (e - 48))
from_zero w d e h p q = digits_from-place_value 0 w d e h p q ∙ ap some (omega arith)

read_written :
    (negative : Bool) (c : ℕ) (s : Text) (n : ℕ)
    → is_digit c ≡ true
    → digits_from 0 (c ∷ s) ≡ some n
    → All IsAmount (c ∷ s)
    → parse_money_to_cents (minus negative (c ∷ s)) ≡ in_range negative n
unfolding starts_negative without_sign
read_written false c s n t e h =
    parse-plain (c ∷ s) h ∙ cents_of-plain (c ∷ s) h ∙ read_head c s t ∙ ap (safe false) e
read_written true c s n t e h =
    parse-plain (b'-' ∷ c ∷ s) (refl, h)
    ∙ cents_of-plain (b'-' ∷ c ∷ s) (refl, h)
    ∙ ap (safe true) (unsigned-digits c s t ∙ e)

-- An amount that is written with one digit or more, a point and two digits, with a minus before it
-- or without, is read as the cents that its digits write by their places, with that sign, where that
-- number of cents is at most 2^53 - 1; where it is more, the amount is refused.
pub parse_written :
    (negative : Bool) (c : ℕ) (w : Text) (d e : ℕ)
    → Digits (c ∷ w)
    → is_digit d ≡ true
    → is_digit e ≡ true
    → parse_money_to_cents (minus negative (c ∷ w ++ b'.' ∷ d ∷ e ∷ []))
      ≡ in_range negative (place_value (c ∷ w) * 100 + (d - 48) * 10 + (e - 48))
parse_written negative c w d e h p q =
    read_written negative c (w ++ b'.' ∷ d ∷ e ∷ []) _ (h.0) (from_zero (c ∷ w) d e h p q) (
      All-append IsAmount (c ∷ w) (b'.' ∷ d ∷ e ∷ []) (digit-IsAmount (c ∷ w) h)
        (refl, (ground (arith, p), (ground (arith, q), tt))))
