-- ===== src/Prelude/Throws.antt =====
-- A computation that returns or throws.
use mathlib.Core.Option.{Option, none, some}
use mathlib.Core.Bool.{Bool, true, false}
use mathlib.Core.Path.{◌≡◌, refl, ap, subst}

pub data Result {ℓ κ} (E : Type ℓ) (A : Type κ) : Type (ℓ ⊔ κ) where
  ok : A → Result E A
  err : E → Result E A

infixl 5 ◌>>=◌
abbrev pub ◌>>=◌ {ℓ κ ξ} :
    {E : Type ℓ} {A : Type κ} {B : Type ξ} → Result E A → (A → Result E B) → Result E B
ok a >>= f = f a
err e >>= f = err e

-- What returned went through its first step.
pub >>=-ok {ℓ κ ξ} :
    {E : Type ℓ} {A : Type κ} {B : Type ξ} (r : Result E A) (f : A → Result E B) {b : B}
    → (r >>= f) ≡ ok b
    → (a : A) × (r ≡ ok a) × (f a ≡ ok b)
>>=-ok (ok a) f h = (a, refl, h)
>>=-ok (err e) f h = cc

-- `if (!test) throw fault`
abbrev pub guard {ℓ} : {E : Type ℓ} → Bool → E → Result E (Unit {0})
guard true fault = ok tt
guard false fault = err fault

abbrev pub present {ℓ κ} : {E : Type ℓ} {A : Type κ} → Option A → E → Result E A
present none fault = err fault
present (some a) fault = ok a

pub guard-ok {ℓ} :
    {E : Type ℓ} (test : Bool) (fault : E) {u : Unit {0}} → guard test fault ≡ ok u → test ≡ true
guard-ok true fault h = refl
guard-ok false fault h = cc

module _ {ℓ κ} {E : Type ℓ} {A : Type κ} where
  abbrev or_value : A → Result E A → A
  or_value a (ok b) = b
  or_value a (err e) = a

  pub ok_injective : {a b : A} → ◌≡◌ {A = Result E A} (ok a) (ok b) → a ≡ b
  ok_injective {a} e = ap (or_value a) e

  abbrev fault_or : E → Result E A → E
  fault_or e (ok b) = e
  fault_or e (err d) = d

  pub err_injective : {d e : E} → ◌≡◌ {A = Result E A} (err d) (err e) → d ≡ e
  err_injective {d} h = ap (fault_or d) h

-- A guard that was passed.
pub guard->>= {ℓ κ} :
    {E : Type ℓ} {B : Type κ} (test : Bool) (fault : E) (rest : Result E B) {b : B}
    → (guard test fault >>= λ _. rest) ≡ ok b
    → (test ≡ true) × (rest ≡ ok b)
guard->>= true fault rest h = (refl, h)
guard->>= false fault rest h = cc

pub present-ok {ℓ κ} :
    {E : Type ℓ} {A : Type κ} (o : Option A) (fault : E) {a : A}
    → present o fault ≡ ok a
    → o ≡ some a
present-ok none fault e = cc
present-ok (some a) fault e = cc

-- What was thrown was thrown by the first step, or by the rest.
pub >>=-err {ℓ κ ξ ρ} :
    {E : Type ℓ} {A : Type κ} {B : Type ξ} (P : E → Type ρ) (r : Result E A) (f : A → Result E B)
    {e : E}
    → (r >>= f) ≡ err e
    → (r ≡ err e → P e)
    → ((a : A) → r ≡ ok a → f a ≡ err e → P e)
    → P e
>>=-err P (ok a) f h p q = q a refl h
>>=-err P (err e) f h p q = p cc

module _ {ℓ ξ} {E : Type ℓ} (P : E → Type ξ) where
  pub guard-err : (test : Bool) (fault : E) {e : E} → guard test fault ≡ err e → P fault → P e
  guard-err true fault h p = cc
  guard-err false fault h p = subst P (err_injective h) p

  pub present-err {κ} :
      {A : Type κ} (o : Option A) (fault : E) {e : E} → present o fault ≡ err e → P fault → P e
  present-err none fault h p = subst P (err_injective h) p
  present-err (some a) fault h p = cc

pub ok-err {ℓ κ ξ} :
    {E : Type ℓ} {A : Type κ} (P : E → Type ξ) {a : A} {e : E}
    → ◌≡◌ {A = Result E A} (ok a) (err e)
    → P e
ok-err P h = cc
