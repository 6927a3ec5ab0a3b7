-- ===== src/Prelude/Update.antt =====
-- `UPDATE … WHERE test`: the rows that pass a test are changed, the others stay.
use mathlib.Core.Path.{◌≡◌, refl, ap, ◌∙◌}
use mathlib.Core.Bool.{Bool, true, false}
use mathlib.Core.List.{List, [], ◌∷◌, map}
use mathlib.Core.Option.{none, some}
use mathlib.Core.Logic.{inl, inr}
use native.Mathlib.Omega.{arith}
use ap_hub.Prelude.Tests.{if◌then◌else◌, Bool-cases}
use ap_hub.Prelude.Lists.{find, find-map, test-find, select, All}

abbrev pub change_if {ℓ} : {A : Type ℓ} → (A → Bool) → (A → A) → A → A
change_if test change row = if test row then change row else row

module _ {ℓ} {A : Type ℓ} where
  pub change_if-keeps :
      (test p : A → Bool) (change : A → A)
      → ((y : A) → p (change y) ≡ p y)
      → (y : A) → p (change_if test change y) ≡ p y
  change_if-keeps test p change same y = ground (arith, same y)

  pub change_if-true :
      (test : A → Bool) (change : A → A) (y : A)
      → test y ≡ true
      → change_if test change y ≡ change y
  change_if-true test change y t = rw t

  -- The row that a search finds is the changed one.
  pub find-change_if :
      (test : A → Bool) (change : A → A) (xs : List A) {x : A}
      → ((y : A) → test (change y) ≡ test y)
      → find test xs ≡ some x
      → find test (map (change_if test change) xs) ≡ some (change x)
  find-change_if test change xs {x} same e =
      find-map test (change_if test change) xs x (change_if-keeps test test change same) e
      ∙ ap some (change_if-true test change x (test-find test xs x e))

  -- A predicate that the change keeps holds of all the rows still.
  pub All-change_if {κ} :
      (P : A → Type κ) (test : A → Bool) (change : A → A) (xs : List A)
      → ((y : A) → P y → test y ≡ true → P (change y))
      → All P xs
      → All P (map (change_if test change) xs)
  All-change_if P test change [] step a = tt
  All-change_if P test change (x ∷ xs) step a =
      let rest = All-change_if P test change xs step a.1 in
      elim (Bool-cases (test x)) [ inl t ↦ rw t (step x a.0 t, rest) | inr f ↦ rw f (a.0, rest) ]

  -- Rows that the change does not reach are selected as before.
  pub select-change_if :
      (p test : A → Bool) (change : A → A) (xs : List A)
      → ((y : A) → p (change y) ≡ p y)
      → ((y : A) → p y ≡ true → test y ≡ false)
      → select p (map (change_if test change) xs) ≡ select p xs
  select-change_if p test change [] same apart = refl
  select-change_if p test change (x ∷ xs) same apart =
      ground (arith, same x, apart x, select-change_if p test change xs same apart)

  pub find-map-none :
      (p : A → Bool) (change : A → A) (xs : List A)
      → ((y : A) → p (change y) ≡ p y)
      → find p xs ≡ none
      → find p (map change xs) ≡ none
  find-map-none p change [] same e = refl
  find-map-none p change (x ∷ xs) same e = ground (arith, same x, find-map-none p change xs same)
