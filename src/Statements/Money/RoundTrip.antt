-- ===== src/Statements/Money/RoundTrip.antt =====
-- `parseMoneyToCents` on the texts that `centsToDecimal` makes.
use ap_hub.Prelude.{
  ℕ, zero, suc, ◌+◌, ◌-◌, ◌*◌, ◌/◌, ◌%◌, ◌≤◌, ◌<◌, ◌≡◌, refl, Bool, true, false, ◌||◌, none, some,
  [], ◌∷◌, arith, leb, ltb, ◌==◌, select, All, ◌∙◌, sym, ap, Bool-cases, inl, inr, ℤ, pos, negsuc,
  magnitude,
}
use ap_hub.Text.{Text, NoSpace, is_digit, trim-NoSpace}
use ap_hub.Statements.Money.{
  max_safe, parenthesised, is_kept, digits_from, unsigned_cents, starts_negative, without_sign,
  cents_of, parse_money_to_cents, digits_onto, decimal, safe, signed, cents_to_decimal,
}

-- The characters of an amount.
abbrev pub IsAmount : ℕ → Type 0
IsAmount c = (is_digit c || (c == b'.') || (c == b'-')) ≡ true

digits_onto-IsAmount :
    (fuel n : ℕ) (out : Text) → All IsAmount out → All IsAmount (digits_onto fuel n out)
unfolding digits_onto
digits_onto-IsAmount zero n out h = h
digits_onto-IsAmount (suc fuel) n out h = elim (Bool-cases (ltb n 10)) [
  | inl t ↦ rw t (ground arith, h)
  | inr f ↦ rw f (digits_onto-IsAmount fuel (n / 10) ((48 + n % 10) ∷ out) (ground arith, h))
]

-- The point and the cents.
abbrev cents_text : ℕ → Text
cents_text absolute = b'.' ∷ (48 + absolute % 100 / 10) ∷ (48 + absolute % 10) ∷ []

decimal-IsAmount : (n : ℕ) → All IsAmount (decimal (n / 100) (cents_text n))
unfolding decimal
decimal-IsAmount n =
    digits_onto-IsAmount (suc (n / 100)) (n / 100) (cents_text n)
      (refl, (ground arith, (ground arith, tt)))

print-IsAmount : (c : ℤ) → All IsAmount (cents_to_decimal c)
unfolding cents_to_decimal
print-IsAmount (pos n) = decimal-IsAmount n
print-IsAmount (negsuc n) = (refl, decimal-IsAmount (suc n))

kept : (s : Text) → All IsAmount s → select is_kept s ≡ s
kept [] h = refl
kept (c ∷ s) (p, h) = let k : is_kept c ≡ true = ground arith in rw (k, kept s h)

amount-NoSpace : (s : Text) → All IsAmount s → NoSpace s
amount-NoSpace [] h = tt
amount-NoSpace (c ∷ s) (p, h) = (ground arith, amount-NoSpace s h)

not_parenthesised : (s : Text) → All IsAmount s → parenthesised s ≡ none
unfolding parenthesised
not_parenthesised [] h = refl
not_parenthesised (c ∷ s) (p, h) = let k : (c == b'(') ≡ false = ground arith in rw k

-- Reading the digits of `n` from 0 is reading on behind `n`.
digits_from-digits :
    (fuel n : ℕ) (out : Text)
    → n < fuel
    → digits_from 0 (digits_onto fuel n out) ≡ digits_from n out
unfolding digits_onto digits_from
digits_from-digits zero n out h = absurd (omega arith)
digits_from-digits (suc fuel) n out h =
    ground (arith, digits_from-digits fuel (n / 10) ((48 + n % 10) ∷ out))

-- The first character is a digit.
digits_head :
    (fuel n : ℕ) (out : Text)
    → n < fuel
    → (d : ℕ) × (s : Text) × (digits_onto fuel n out ≡ d ∷ s) × (is_digit d ≡ true)
unfolding digits_onto
digits_head zero n out h = absurd (omega arith)
digits_head (suc fuel) n out h = elim (Bool-cases (ltb n 10)) [
  | inl t ↦ rw t (48 + n, out, refl, ground arith)
  | inr f ↦ rw f (digits_head fuel (n / 10) ((48 + n % 10) ∷ out) (ground arith))
]

digits_from-cents : (n : ℕ) → digits_from (n / 100) (cents_text n) ≡ some n
unfolding digits_from
digits_from-cents n = ground arith

decimal_head :
    (n : ℕ)
    → (d : ℕ) × (s : Text) × (decimal (n / 100) (cents_text n) ≡ d ∷ s) × (is_digit d ≡ true)
unfolding decimal
decimal_head n = digits_head (suc (n / 100)) (n / 100) (cents_text n) (omega arith)

digits_from-decimal : (n : ℕ) → digits_from 0 (decimal (n / 100) (cents_text n)) ≡ some n
unfolding decimal
digits_from-decimal n =
    digits_from-digits (suc (n / 100)) (n / 100) (cents_text n) (omega arith) ∙ digits_from-cents n

pub unsigned-digits :
    (d : ℕ) (s : Text) → is_digit d ≡ true → unsigned_cents (d ∷ s) ≡ digits_from 0 (d ∷ s)
unfolding unsigned_cents digits_from
unsigned-digits d s h =
    let same : d - 48 ≡ 0 * 10 + (d - 48) = omega arith in rw h (ap (λ k. digits_from k s) same)

no_sign :
    (d : ℕ) (s : Text)
    → is_digit d ≡ true
    → (starts_negative (d ∷ s) ≡ false) × (without_sign (d ∷ s) ≡ d ∷ s)
unfolding starts_negative without_sign
no_sign d s h = (ground arith, ground arith)

pub cents_of-plain :
    (s : Text)
    → All IsAmount s
    → cents_of false s ≡ safe (starts_negative s) (unsigned_cents (without_sign s))
unfolding cents_of
cents_of-plain s h = rw (kept s h)

pub read_head :
    (d : ℕ) (s : Text)
    → is_digit d ≡ true
    → safe (starts_negative (d ∷ s)) (unsigned_cents (without_sign (d ∷ s)))
      ≡ safe false (digits_from 0 (d ∷ s))
read_head d s h = let (plain, same) = no_sign d s h in rw (plain, same, unsigned-digits d s h)

unsigned-decimal : (n : ℕ) → unsigned_cents (decimal (n / 100) (cents_text n)) ≡ some n
unsigned-decimal n =
    let (d, s, e, h) = decimal_head n in rw (e, unsigned-digits d s h, sym e, digits_from-decimal n)

safe_holds :
    (negative : Bool) (n : ℕ) → n ≤ max_safe → safe negative (some n) ≡ some (signed negative n)
safe_holds negative n h = let t : leb n max_safe ≡ true = ground arith in rw t

read_positive : (n : ℕ) → n ≤ max_safe → cents_of false (cents_to_decimal (pos n)) ≡ some (pos n)
unfolding cents_to_decimal
read_positive n h =
    let (d, s, e, t) = decimal_head n in
    cents_of-plain (decimal (n / 100) (cents_text n)) (decimal-IsAmount n)
    ∙ rw (e, read_head d s t, sym e, digits_from-decimal n) (safe_holds false n h)

signed_negative : (n : ℕ) → some (signed true (suc n)) ≡ some (negsuc n)
signed_negative n = ground arith

read_negative :
    (n : ℕ) → suc n ≤ max_safe → cents_of false (cents_to_decimal (negsuc n)) ≡ some (negsuc n)
unfolding cents_to_decimal starts_negative without_sign
read_negative n h =
    cents_of-plain (cents_to_decimal (negsuc n)) (print-IsAmount (negsuc n))
    ∙ rw (unsigned-decimal (suc n)) (safe_holds true (suc n) h ∙ signed_negative n)

read : (c : ℤ) → magnitude c ≤ max_safe → cents_of false (cents_to_decimal c) ≡ some c
read (pos n) h = read_positive n h
read (negsuc n) h = read_negative n h

pub parse-plain : (s : Text) → All IsAmount s → parse_money_to_cents s ≡ cents_of false s
unfolding parse_money_to_cents
parse-plain s h =
    let same = trim-NoSpace s (amount-NoSpace s h) in
    rw (same, not_parenthesised s h, parse_money_to_cents, same)

-- An amount that a double holds exactly, written as a decimal, is read back as it was.
pub parse-print :
    (c : ℤ) → magnitude c ≤ max_safe → parse_money_to_cents (cents_to_decimal c) ≡ some c
parse-print c h =
    let amount = print-IsAmount c in rw (parse-plain (cents_to_decimal c) amount) (read c h)
