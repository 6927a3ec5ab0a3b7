-- ===== src/Vendor/Resolve.antt =====
-- `normalize`, `similarity`, `resolveVendor`, `routeTxnType` and `resolveAccount`. Scores are any type
-- with the operations that the code applies to its doubles, and `lower` is `toLowerCase`. A name that
-- is null and one that is empty are both false to the code, and are the empty text here.
use ap_hub.Prelude.{
  ℕ, max, Bool, not, ◌&&◌, ◌||◌, String, str_eq, Option, none, some, List, [], ◌∷◌, ◌++◌, map, any,
  find, select, length, ltb, leb, ◌==◌, if◌then◌else◌, count_if,
}
use ap_hub.Text.{
  includes, Text, codes, text_eq, is_empty, is_digit, trim, collapse_spaces, split_on,
}
use ap_hub.Vendor.Distance.{levenshtein}

pub record Scores (N : Type 0) : Type 0 where
  pub of_nat : ℕ → N
  pub sub : N → N → N
  pub div : N → N → N
  pub larger : N → N → N
  pub lt : N → N → Bool
  pub le : N → N → Bool

pub record VendorCandidate : Type 0 where
  pub source_key : Text
  pub target_id : Text
  pub target_name : Text

abbrev is_letter : ℕ → Bool
is_letter c = leb 97 c && leb c 122

-- `\w`
abbrev is_word : ℕ → Bool
is_word c = is_letter c || is_digit c || (leb 65 c && leb c 90) || (c == 95)

-- Runs of word characters, and the other characters one by one.
abbrev run_onto : ℕ → List Text → List Text
run_onto c [] = (c ∷ []) ∷ []
run_onto c ([] ∷ runs) = (c ∷ []) ∷ runs
run_onto c ((d ∷ run) ∷ runs) =
    if is_word c && is_word d then (c ∷ d ∷ run) ∷ runs else (c ∷ []) ∷ (d ∷ run) ∷ runs

unfoldable pub runs_of : Text → List Text
runs_of [] = []
runs_of (c ∷ s) = run_onto c (runs_of s)

abbrev pub company_words : List Text
company_words =
    codes "llc"
    ∷ codes "inc"
    ∷ codes "ltd"
    ∷ codes "corp"
    ∷ codes "co"
    ∷ codes "company"
    ∷ codes "the"
    ∷ []

unfoldable pub concat_kept : List Text → Text
unfolding text_eq
concat_kept [] = []
concat_kept (run ∷ runs) =
    let rest = concat_kept runs in if any (text_eq run) company_words then rest else run ++ rest

abbrev pub letter_or_space : ℕ → ℕ
letter_or_space c = if is_letter c || is_digit c || (c == 32) then c else 32

unfoldable pub normalize : (Text → Text) → Text → Text
unfolding trim collapse_spaces concat_kept runs_of
normalize lower s = trim (collapse_spaces (map letter_or_space (concat_kept (runs_of (lower s)))))

-- `[...new Set(texts)]`, up to its order.
unfoldable pub distinct : List Text → List Text
unfolding text_eq
distinct [] = []
distinct (t ∷ rest) =
    let others = distinct rest in if any (text_eq t) others then others else t ∷ others

module _ {N : Type 0} (scores : Scores N) (lower : Text → Text) where
  -- The part of `similarity` behind its first two tests.
  unfoldable pub closeness : Text → Text → N
  unfolding levenshtein distinct split_on text_eq
  closeness na nb =
      let longest = max (length na) (length nb) in
      let lev =
        scores.sub (scores.of_nat 1)
          (scores.div (scores.of_nat (levenshtein na nb)) (scores.of_nat longest)) in
      let ta = distinct (split_on 32 na) in
      let tb = distinct (split_on 32 nb) in
      let inter = count_if (λ t. any (text_eq t) tb) ta in
      let overlap =
        scores.div (scores.of_nat inter) (scores.of_nat (max (length ta) (length tb))) in
      scores.larger lev overlap

  unfoldable pub similarity : Text → Text → N
  unfolding normalize closeness text_eq
  similarity a b =
      let na = normalize lower a in
      let nb = normalize lower b in
      if is_empty na || is_empty nb
      then scores.of_nat 0
      else if text_eq na nb
      then scores.of_nat 1
      else closeness na nb

pub data VendorMatchType : Type 0 where
  normalized_name sender_domain : VendorMatchType

-- The reasons follow from the constructor, from `ambiguous` and from the conflicts.
pub data VendorResolution (N : Type 0) : Type 0 where
  exact :
      VendorCandidate
      → VendorMatchType
      → Option (List VendorCandidate)
      → ℕ
      → Bool
      → VendorResolution N
  fuzzy : VendorCandidate → N → Option (List VendorCandidate) → ℕ → VendorResolution N
  no_vendor_signal no_match : VendorResolution N

-- `new Map(…)` by the target's id: the place of the first, and the value of the last.
unfoldable pub put_target : VendorCandidate → List VendorCandidate → List VendorCandidate
unfolding text_eq
put_target c [] = c ∷ []
put_target c (d ∷ rest) =
    let others = put_target c rest in
    if text_eq d.target_id c.target_id then c ∷ rest else d ∷ others

unfoldable pub targets_onto : List VendorCandidate → List VendorCandidate → List VendorCandidate
unfolding put_target
targets_onto found [] = found
targets_onto found (c ∷ rest) = targets_onto (put_target c found) rest

abbrev pub add_exact :
    VendorCandidate
    → Option VendorMatchType
    → List (VendorCandidate × VendorMatchType)
    → List (VendorCandidate × VendorMatchType)
add_exact c none rest = rest
add_exact c (some via) rest = (c, via) ∷ rest

abbrev pub candidates_of : List (VendorCandidate × VendorMatchType) → List VendorCandidate
candidates_of [] = []
candidates_of ((c, via) ∷ rest) = c ∷ candidates_of rest

abbrev name_or_key : VendorCandidate → Text
name_or_key c = if is_empty c.target_name then c.source_key else c.target_name

abbrev when_any : List VendorCandidate → Option (List VendorCandidate)
when_any [] = none
when_any (c ∷ rest) = some (c ∷ rest)

abbrev apart_from : VendorCandidate → VendorCandidate → Bool
unfolding text_eq
apart_from best c = not (text_eq c.target_id best.target_id)

module _ {N : Type 0} where
  unfoldable pub exact_result :
      List (VendorCandidate × VendorMatchType) → VendorResolution N → VendorResolution N
  unfolding targets_onto
  exact_result [] otherwise = otherwise
  exact_result ((first, via) ∷ rest) otherwise =
      let targets = targets_onto [] (candidates_of ((first, via) ∷ rest)) in
      let ambiguous = ltb 1 (length targets) in
      exact first via (if ambiguous then some targets else none) (length targets) ambiguous

module _ (lower : Text → Text) where
  -- How a candidate is an exact match, if it is.
  unfoldable pub exact_via : Text → Text → VendorCandidate → Option VendorMatchType
  unfolding normalize text_eq
  exact_via key_name sender c =
      if not (is_empty key_name) && text_eq (normalize lower c.source_key) key_name
      then some normalized_name
      else if not (is_empty sender) && text_eq (lower c.source_key) (lower sender)
      then some sender_domain
      else none

  unfoldable pub exact_matches :
      Text → Text → List VendorCandidate → List (VendorCandidate × VendorMatchType)
  unfolding exact_via
  exact_matches key_name sender [] = []
  exact_matches key_name sender (c ∷ rest) =
      add_exact c (exact_via key_name sender c) (exact_matches key_name sender rest)

  unfoldable pub name_key : Text → Text
  unfolding normalize
  name_key vendor_name = if is_empty vendor_name then [] else normalize lower vendor_name

module _ {N : Type 0} (scores : Scores N) (lower : Text → Text) where
  -- A stable sort, the highest score first.
  unfoldable pub insert_scored :
      VendorCandidate × N → List (VendorCandidate × N) → List (VendorCandidate × N)
  insert_scored (c, score) [] = (c, score) ∷ []
  insert_scored (c, score) ((d, other) ∷ rest) =
      let behind = insert_scored (c, score) rest in
      if scores.lt score other then (d, other) ∷ behind else (c, score) ∷ (d, other) ∷ rest

  unfoldable pub scored : Text → List VendorCandidate → List (VendorCandidate × N)
  unfolding similarity insert_scored
  scored name [] = []
  scored name (c ∷ rest) =
      insert_scored (c, similarity scores lower name (name_or_key c)) (scored name rest)

  abbrev reaching : N → List (VendorCandidate × N) → List VendorCandidate
  reaching threshold [] = []
  reaching threshold ((c, score) ∷ rest) =
      let others = reaching threshold rest in
      if scores.le threshold score then c ∷ others else others

  unfoldable pub best_of : N → List (VendorCandidate × N) → VendorResolution N
  unfolding apart_from
  best_of threshold [] = no_match
  best_of threshold ((best, score) ∷ rest) =
      let reached = reaching threshold ((best, score) ∷ rest) in
      if scores.le threshold score
      then fuzzy best score (when_any (select (apart_from best) reached)) (length reached)
      else no_match

  unfoldable pub resolve_vendor : Text → Text → List VendorCandidate → N → VendorResolution N
  unfolding name_key exact_matches exact_result scored best_of
  resolve_vendor vendor_name sender candidates threshold =
      if is_empty vendor_name && is_empty sender
      then no_vendor_signal
      else exact_result (exact_matches lower (name_key lower vendor_name) sender candidates) (
          if is_empty vendor_name
          then no_match
          else best_of threshold (scored vendor_name candidates))

pub data TxnType : Type 0 where
  bill purchase sales_invoice sales_receipt : TxnType

unfoldable pub route_txn_type : String → String → Bool → TxnType
route_txn_type doc_type direction paid_now =
    let paid = paid_now || str_eq doc_type "receipt" in
    if str_eq direction "AR"
    then (if paid then sales_receipt else sales_invoice)
    else (if paid then purchase else bill)

pub record AccountCandidate : Type 0 where
  pub key : Text
  pub target_id : Text
  pub target_name : Text

unfoldable pub resolve_account :
    (Text → Text) → Text → List Text → List AccountCandidate → Option AccountCandidate
unfolding normalize includes
resolve_account lower hint descriptions candidates =
    let keys = map (normalize lower) (select (λ s. not (is_empty s)) (hint ∷ descriptions)) in
    find (λ (c : AccountCandidate). any (λ k. includes c.key k || includes k c.key) keys) candidates
