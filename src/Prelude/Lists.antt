-- ===== src/Prelude/Lists.antt =====
-- Lists measured and searched by Boolean tests, under the library's names.
use Prim.Native.Nat.{ℕ, zero, suc, ◌+◌, ◌≤◌}
use mathlib.Core.Path.{◌≡◌, refl, sym, ap, subst}
use mathlib.Core.Bool.{Bool, true, false, ◌&&◌, ◌||◌}
use mathlib.Core.List.{map, List, [], ◌∷◌, ◌++◌, Memᴰ}
use mathlib.Core.Option.{Option, none, some}
use native.Mathlib.Omega.{arith}
use mathlib.Core.Logic.{inl, inr}
use ap_hub.Prelude.Tests.{if◌then◌else◌, Bool-cases}

module _ {ℓ} {A : Type ℓ} where
  abbrev pub length : List A → ℕ
  length [] = 0
  length (x ∷ xs) = suc (length xs)

  -- `xs.some(p)`, `xs.every(p)`, `xs.find(p)` and `xs.filter(p)`.
  abbrev pub any : (A → Bool) → List A → Bool
  any p [] = false
  any p (x ∷ xs) = p x || any p xs

  abbrev pub all : (A → Bool) → List A → Bool
  all p [] = true
  all p (x ∷ xs) = p x && all p xs

  abbrev pub find : (A → Bool) → List A → Option A
  find p [] = none
  find p (x ∷ xs) = if p x then some x else find p xs

  abbrev pub select : (A → Bool) → List A → List A
  select p [] = []
  select p (x ∷ xs) = if p x then x ∷ select p xs else select p xs

  abbrev pub count_if : (A → Bool) → List A → ℕ
  count_if p [] = 0
  count_if p (x ∷ xs) = if p x then suc (count_if p xs) else count_if p xs

  abbrev pub get_elem? : List A → ℕ → Option A
  get_elem? [] i = none
  get_elem? (x ∷ xs) zero = some x
  get_elem? (x ∷ xs) (suc i) = get_elem? xs i

  -- A write out of bounds changes nothing.
  abbrev pub set : List A → ℕ → A → List A
  set [] i v = []
  set (x ∷ xs) zero v = v ∷ xs
  set (x ∷ xs) (suc i) v = x ∷ set xs i v

  pub length-append : (xs ys : List A) → length (xs ++ ys) ≡ length xs + length ys
  length-append [] ys = omega arith
  length-append (x ∷ xs) ys = omega (arith, length-append xs ys)

  pub length-set : (xs : List A) (i : ℕ) (v : A) → length (set xs i v) ≡ length xs
  length-set [] i v = refl
  length-set (x ∷ xs) zero v = refl
  length-set (x ∷ xs) (suc i) v = ap suc (length-set xs i v)

  pub count_if-le-length : (p : A → Bool) (xs : List A) → count_if p xs ≤ length xs
  count_if-le-length p [] = omega arith
  count_if-le-length p (x ∷ xs) = ground (arith, count_if-le-length p xs)

  pub count-append :
      (p : A → Bool) (xs ys : List A) → count_if p (xs ++ ys) ≡ count_if p xs + count_if p ys
  count-append p [] ys = omega arith
  count-append p (x ∷ xs) ys = ground (arith, count-append p xs ys)

  pub test-find : (p : A → Bool) (xs : List A) (a : A) → find p xs ≡ some a → p a ≡ true
  test-find p [] a h = cc
  test-find p (x ∷ xs) a h = ground (arith, test-find p xs a)

  pub find-append :
      (p : A → Bool) (xs ys : List A) (a : A) → find p xs ≡ some a → find p (xs ++ ys) ≡ some a
  find-append p [] ys a h = cc
  find-append p (x ∷ xs) ys a h = ground (arith, find-append p xs ys a)

-- A predicate of every element, by recursion: it computes to tuples.
abbrev pub All {ℓ κ} : {A : Type ℓ} → (A → Type κ) → List A → Type κ
All P [] = Unit
All P (x ∷ xs) = P x × All P xs

pub All-append {ℓ κ} :
    {A : Type ℓ} (P : A → Type κ) (xs ys : List A) → All P xs → All P ys → All P (xs ++ ys)
All-append P [] ys hx hy = hy
All-append P (x ∷ xs) ys hx hy = (hx.0, All-append P xs ys hx.1 hy)

module _ {ℓ} {A : Type ℓ} where
  pub All-of-any : (p : A → Bool) (xs : List A) → any p xs ≡ false → All (λ x. p x ≡ false) xs
  All-of-any p [] h = tt
  All-of-any p (x ∷ xs) h = (ground arith, All-of-any p xs (ground arith))

  pub count_if-zero : (p : A → Bool) (xs : List A) → All (λ x. p x ≡ false) xs → count_if p xs ≡ 0
  count_if-zero p [] a = refl
  count_if-zero p (x ∷ xs) a = ground (arith, count_if-zero p xs a.1)

  pub All-zip {κ} :
      (P Q R : A → Type κ)
      → ((x : A) → P x → Q x → R x)
      → (xs : List A) → All P xs
      → All Q xs
      → All R xs
  All-zip P Q R f [] p q = tt
  All-zip P Q R f (x ∷ xs) p q = (f x p.0 q.0, All-zip P Q R f xs p.1 q.1)

  pub All-map {κ ξ} :
      (P : A → Type κ) (Q : A → Type ξ)
      → ((x : A) → P x → Q x)
      → (xs : List A) → All P xs
      → All Q xs
  All-map P Q f [] p = tt
  All-map P Q f (x ∷ xs) p = (f x p.0, All-map P Q f xs p.1)

  pub All-select {κ} :
      (P : A → Type κ) (test : A → Bool) (xs : List A) → All P xs → All P (select test xs)
  All-select P test [] a = tt
  All-select P test (x ∷ xs) a = elim (Bool-cases (test x)) [
    | inl t ↦ rw t (a.0, All-select P test xs a.1)
    | inr f ↦ rw f (All-select P test xs a.1)
  ]

  pub select_holds : (test : A → Bool) (xs : List A) → All (λ x. test x ≡ true) (select test xs)
  select_holds test [] = tt
  select_holds test (x ∷ xs) = elim (Bool-cases (test x)) [
    | inl t ↦ rw t (t, select_holds test xs)
    | inr f ↦ rw f (select_holds test xs)
  ]

module _ {ℓ} {A : Type ℓ} where
  pub All-get {κ} : (P : A → Type κ) (xs : List A) {a : A} → All P xs → Memᴰ a xs → P a
  All-get P [] h m = elim m [ ]
  All-get P (x ∷ xs) h (Memᴰ.head e) = subst P (sym e) h.0
  All-get P (x ∷ xs) h (Memᴰ.tail m) = All-get P xs h.1 m

  -- Every element is a member: a statement about all is one about each.
  pub All-of-mem {κ} : (P : A → Type κ) (xs : List A) → ((a : A) → Memᴰ a xs → P a) → All P xs
  All-of-mem P [] f = tt
  All-of-mem P (x ∷ xs) f = (f x (Memᴰ.head refl), All-of-mem P xs (λ a m. f a (Memᴰ.tail m)))

  pub mem-select :
      (p : A → Bool) (xs : List A) {a : A} → Memᴰ a xs → p a ≡ true → Memᴰ a (select p xs)
  mem-select p [] m h = m
  mem-select p (x ∷ xs) {a} (Memᴰ.head e) h =
      let t : p x ≡ true = subst (λ y. p y ≡ true) e h in rw t (Memᴰ.head e)
  mem-select p (x ∷ xs) (Memᴰ.tail m) h = elim (Bool-cases (p x)) [
    | inl t ↦ rw t (Memᴰ.tail (mem-select p xs m h))
    | inr f ↦ rw f (mem-select p xs m h)
  ]

  pub find-mem : (p : A → Bool) (xs : List A) {a : A} → find p xs ≡ some a → Memᴰ a xs
  find-mem p [] e = cc
  find-mem p (x ∷ xs) {a} e = elim (Bool-cases (p x)) [
    | inl t ↦ let found : some x ≡ some a = rw t at e in Memᴰ.head cc
    | inr f ↦ Memᴰ.tail (find-mem p xs (rw f at e))
  ]

  mem-cons_map :
      {a x : A} {ys xs : List A} → (Memᴰ a ys → Memᴰ a xs) → Memᴰ a (x ∷ ys) → Memᴰ a (x ∷ xs)
  mem-cons_map f (Memᴰ.head e) = Memᴰ.head e
  mem-cons_map f (Memᴰ.tail m) = Memᴰ.tail (f m)

  pub mem-of-select : (p : A → Bool) (xs : List A) {a : A} → Memᴰ a (select p xs) → Memᴰ a xs
  mem-of-select p [] m = m
  mem-of-select p (x ∷ xs) {a} m = elim (Bool-cases (p x)) [
    | inl t ↦ mem-cons_map (mem-of-select p xs) (rw t at m)
    | inr f ↦ Memᴰ.tail (mem-of-select p xs (rw f at m))
  ]

module _ {ℓ} {A : Type ℓ} where
  pub any-of-mem : (p : A → Bool) (xs : List A) {a : A} → Memᴰ a xs → p a ≡ true → any p xs ≡ true
  any-of-mem p [] m h = elim m [ ]
  any-of-mem p (x ∷ xs) {a} (Memᴰ.head e) h =
      let t : p x ≡ true = subst (λ y. p y ≡ true) e h in ground arith
  any-of-mem p (x ∷ xs) (Memᴰ.tail m) h = ground (arith, any-of-mem p xs m h)

  pub mem-of-any :
      (p : A → Bool) (xs : List A) → any p xs ≡ true → (a : A) × Memᴰ a xs × (p a ≡ true)
  mem-of-any p [] h = absurd (cc)
  mem-of-any p (x ∷ xs) h = elim (Bool-cases (p x)) [
    | inl t ↦ (x, Memᴰ.head refl, t)
    | inr f ↦ let (a, m, t) = mem-of-any p xs (ground arith) in (a, Memᴰ.tail m, t)
  ]

module _ {ℓ} {A : Type ℓ} where
  pub find-last :
      (p : A → Bool) (xs : List A) (x : A)
      → find p xs ≡ none
      → p x ≡ true
      → find p (xs ++ x ∷ []) ≡ some x
  find-last p [] x e h = ground arith
  find-last p (y ∷ xs) x e h = ground (arith, find-last p xs x)

  -- A change that keeps the tests of a search changes what it finds.
  pub find-map :
      (p : A → Bool) (change : A → A) (xs : List A) (x : A)
      → ((y : A) → p (change y) ≡ p y)
      → find p xs ≡ some x
      → find p (map change xs) ≡ some (change x)
  find-map p change [] x same e = cc
  find-map p change (y ∷ xs) x same e = ground (arith, same y, find-map p change xs x same)

  pub any-last : (p : A → Bool) (xs : List A) (x : A) → any p (xs ++ x ∷ []) ≡ (any p xs || p x)
  any-last p [] x = ground arith
  any-last p (y ∷ xs) x = ground (arith, any-last p xs x)

  pub any-of-find : (p : A → Bool) (xs : List A) (x : A) → find p xs ≡ some x → any p xs ≡ true
  any-of-find p [] x e = cc
  any-of-find p (y ∷ xs) x e = ground (arith, any-of-find p xs x)

  pub any-find-none : (p : A → Bool) (xs : List A) → find p xs ≡ none → any p xs ≡ false
  any-find-none p [] e = refl
  any-find-none p (y ∷ xs) e = ground (arith, any-find-none p xs)
