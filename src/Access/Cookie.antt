-- ===== src/Access/Cookie.antt =====
-- The session cookie of src/auth/session.ts: its signed value, and reading it from a header. The
-- HMAC is a parameter. Buffers are compared by the characters that they encode.
use mathlib.Core.Option.{some-injective}
use ap_hub.Prelude.{
  ℕ, ◌≡◌, refl, ◌∙◌, ap, sym, subst, false, not, ◌&&◌, Option, none, some, List, [], ◌∷◌, ◌++◌, All,
  ◌==◌, arith, if◌then◌else◌, Bool-cases, inl, inr,
}
use ap_hub.Text.{split_on, Text, codes, text_eq, text_eq_sound, text_eq_refl, is_empty, trim}

unfoldable pub sign_session_value : (Text → Text) → Text → Text
sign_session_value sign token = token ++ b'.' ∷ sign token

abbrev put_before : ℕ → Text → Option (Text × Text) → Option (Text × Text)
put_before c s none = if c == b'.' then some ([], s) else none
put_before c s (some (before, behind)) = some (c ∷ before, behind)

-- The text before and behind the last full stop.
unfoldable pub split_last : Text → Option (Text × Text)
split_last [] = none
split_last (c ∷ s) = put_before c s (split_last s)

abbrev check_parts : (Text → Text) → Option (Text × Text) → Option Text
check_parts sign none = none
check_parts sign (some (token, signature)) =
    if not (is_empty token) && text_eq signature (sign token) then some token else none

-- `lastIndexOf('.')` must be positive: the token is not empty.
unfoldable pub verify_session_value : (Text → Text) → Text → Option Text
unfolding split_last text_eq
verify_session_value sign value = check_parts sign (split_last value)

-- The text before and behind the first of a character, the whole where there is none.
unfoldable pub split_first : ℕ → Text → Option (Text × Text)
split_first d [] = none
split_first d (c ∷ s) = elim (split_first d s) [
  | none ↦ if c == d then some ([], s) else none
  | some (before, behind) ↦ if c == d then some ([], s) else some (c ∷ before, behind)
]

abbrev pub cookie_name : Text
cookie_name = codes "aphub_session"

unfoldable pub read_parts : (Text → Text) → List Text → Option Text
unfolding split_first trim text_eq verify_session_value
read_parts sign [] = none
read_parts sign (part ∷ rest) =
    let others = read_parts sign rest in
    elim (split_first b'=' part) [
      | none ↦ others
      | some (name, value) ↦
          if text_eq (trim name) cookie_name then verify_session_value sign (trim value) else others
    ]

unfoldable pub read_session_cookie : (Text → Text) → Text → Option Text
unfolding split_on read_parts
read_session_cookie sign header =
    if is_empty header then none else read_parts sign (split_on b';' header)

-- A text without a full stop, such as one in base64url.
abbrev pub NoStop : Text → Type 0
NoStop = All (λ c. (c == b'.') ≡ false)

no_split : (s : Text) → NoStop s → split_last s ≡ none
unfolding split_last
no_split [] h = refl
no_split (c ∷ s) (p, h) = rw (no_split s h, p)

split-signed :
    (token signature : Text)
    → NoStop signature
    → split_last (token ++ b'.' ∷ signature) ≡ some (token, signature)
unfolding split_last
split-signed [] signature h = rw (no_split signature h)
split-signed (c ∷ token) signature h = rw (split-signed token signature h)

-- A token that is not empty comes back from its signed value, where signatures have no full stop.
pub verify-sign :
    (sign : Text → Text) (token : Text)
    → is_empty token ≡ false
    → NoStop (sign token)
    → verify_session_value sign (sign_session_value sign token) ≡ some token
unfolding verify_session_value sign_session_value
verify-sign sign token nonempty plain =
    rw (split-signed token (sign token) plain, nonempty, text_eq_refl (sign token))

abbrev Joins : Text → Option (Text × Text) → Type 0
Joins value none = Unit
Joins value (some (before, behind)) = before ++ b'.' ∷ behind ≡ value

put_before-Joins :
    (c : ℕ) (s : Text) (o : Option (Text × Text)) → Joins s o → Joins (c ∷ s) (put_before c s o)
put_before-Joins c s none h = elim (Bool-cases (c == b'.')) [
  | inl t ↦ let same : b'.' ≡ c = ground arith in rw t (ap (λ d. d ∷ s) same)
  | inr f ↦ rw f tt
]
put_before-Joins c s (some (before, behind)) h = ap (λ r. c ∷ r) h

split_last-Joins : (value : Text) → Joins value (split_last value)
unfolding split_last
split_last-Joins [] = tt
split_last-Joins (c ∷ s) = put_before-Joins c s (split_last s) (split_last-Joins s)

checked-signed :
    (sign : Text → Text) (value token : Text) (o : Option (Text × Text))
    → Joins value o
    → check_parts sign o ≡ some token
    → (value ≡ token ++ b'.' ∷ sign token) × (is_empty token ≡ false)
checked-signed sign value token none joins e = cc
checked-signed sign value token (some (before, behind)) joins e =
    elim (Bool-cases (not (is_empty before) && text_eq behind (sign before))) [
      | inl t ↦
          let same : before ≡ token = some-injective _ _ (rw t at e) in
          let signed = text_eq_sound behind (sign before) (ground (arith, t)) in
          let nonempty : is_empty before ≡ false = ground (arith, t) in
          subst (λ x. (value ≡ x ++ b'.' ∷ sign x) × (is_empty x ≡ false)) same
            (sym joins ∙ ap (λ x. before ++ b'.' ∷ x) signed, nonempty)
      | inr f ↦ let none_some : none ≡ some token = rw f at e in absurd (cc)
    ]

-- A value is accepted only as the signed value of the token that is returned, which is not empty: no
-- other text passes for it.
pub verify_only_signed :
    (sign : Text → Text) (value token : Text)
    → verify_session_value sign value ≡ some token
    → (value ≡ sign_session_value sign token) × (is_empty token ≡ false)
unfolding verify_session_value sign_session_value
verify_only_signed sign value token e =
    checked-signed sign value token (split_last value) (split_last-Joins value) e
