-- ===== src/Statements/Balance.antt =====
-- The balance of a statement in exact cents, and the doubles that the code adds up.
use ap_hub.Prelude.{
  ℕ, ◌+◌, ◌≤◌, ◌≡◌, ◌∙◌, ap, subst, sym, ◌↔◌, Bool, true, List, [], ◌∷◌, arith, ℤ, pos, magnitude,
  ◌+ℤ◌, +ℤ_assoc, +ℤ_zero, zero_+ℤ, magnitude_sum, ◌==ℤ◌, ==ℤ_sound, ==ℤ_refl,
}
use ap_hub.Statements.Money.{max_safe}
use ap_hub.Statements.Tables.{Platform}
use ap_hub.Statements.Normalize.{activity_from, verdict}

abbrev pub sum : List ℤ → ℤ
sum [] = pos 0
sum (a ∷ rest) = a +ℤ sum rest

-- The size of a column of amounts, signs aside.
abbrev pub size : List ℤ → ℕ
size [] = 0
size (a ∷ rest) = magnitude a + size rest

-- Two whole numbers whose sum is in the safe range are added exactly by IEEE doubles.
abbrev pub AddsExactly : Platform → Type 0
AddsExactly p = (a b : ℤ) → magnitude a + magnitude b ≤ max_safe → p.add a b ≡ a +ℤ b

activity-exact :
    (p : Platform) (total : ℤ) (changes : List ℤ)
    → AddsExactly p
    → magnitude total + size changes ≤ max_safe
    → activity_from p total changes ≡ total +ℤ sum changes
activity-exact p total [] exact fits = sym (+ℤ_zero total)
activity-exact p total (a ∷ rest) exact fits =
    let step : p.add total a ≡ total +ℤ a = exact total a (omega arith) in
    let bound = magnitude_sum total a in
    ap (λ t. activity_from p t rest) step
    ∙ activity-exact p (total +ℤ a) rest exact (omega arith)
    ∙ +ℤ_assoc total a (sum rest)

magnitude-sum : (changes : List ℤ) → magnitude (sum changes) ≤ size changes
magnitude-sum [] = omega arith
magnitude-sum (a ∷ rest) =
    let bound = magnitude_sum a (sum rest) in omega (arith, magnitude-sum rest)

pub expected-exact :
    (p : Platform) (opening closing : ℤ) (changes : List ℤ) (missing pages : ℕ)
    → AddsExactly p
    → magnitude opening + size changes ≤ max_safe
    → (verdict p opening closing changes missing pages).expected_closing_cents
      ≡ opening +ℤ sum changes
unfolding verdict
expected-exact p opening closing changes missing pages exact fits =
    let activity = activity-exact p (pos 0) changes exact (omega arith) ∙ zero_+ℤ (sum changes) in
    let bound = magnitude-sum changes in
    ap (λ t. p.add opening t) activity ∙ exact opening (sum changes) (omega arith)

abbrev is_valid : Platform → ℤ → ℤ → List ℤ → ℕ → ℕ → Bool
is_valid p opening closing changes missing pages =
    (verdict p opening closing changes missing pages).valid

pub valid-exact :
    (p : Platform) (opening closing : ℤ) (changes : List ℤ) (missing pages : ℕ)
    → AddsExactly p
    → magnitude opening + size changes ≤ max_safe
    → is_valid p opening closing changes missing pages ≡ (opening +ℤ sum changes ==ℤ closing)
unfolding verdict
valid-exact p opening closing changes missing pages exact fits =
    ap (λ t. t ==ℤ closing) (expected-exact p opening closing changes missing pages exact fits)

-- A statement is valid exactly when its opening balance and its amounts add up to its closing
-- balance, where all of these together stay in the range that a double holds exactly.
pub verdict_exact :
    (p : Platform) (opening closing : ℤ) (changes : List ℤ) (missing pages : ℕ)
    → AddsExactly p
    → magnitude opening + size changes ≤ max_safe
    → ((verdict p opening closing changes missing pages).valid ≡ true)
      ↔ (opening +ℤ sum changes ≡ closing)
verdict_exact p opening closing changes missing pages exact fits =
    let same = valid-exact p opening closing changes missing pages exact fits in
    (
      λ h. ==ℤ_sound _ _ (sym same ∙ h),
      λ h. same ∙ subst (λ t. (t ==ℤ closing) ≡ true) (sym h) (==ℤ_refl closing),
    )
