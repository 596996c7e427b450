-- ===== src/Base/Outcome.antt =====
-- `Result`: a value or an error, with the `?` operator as `do`.
use mathlib.Core.Path.{◌≡◌, refl}
use mathlib.Core.Logic.{◌⊎◌, inl, inr}
use mathlib.Core.Bool.{Bool, true, false}
use mathlib.Core.Option.{Option, none, some}

pub data Result {ℓ} (E A : Type ℓ) : Type ℓ where
  ok : A → Result E A
  err : E → Result E A

infixl 5 ◌>>=◌ ◌>>◌
abbrev pub ◌>>=◌ {ℓ} : {E A B : Type ℓ} → Result E A → (A → Result E B) → Result E B
ok a >>= f = f a
err e >>= f = err e

abbrev pub ◌>>◌ {ℓ} : {E A B : Type ℓ} → Result E A → Result E B → Result E B
m >> k = m >>= λ _. k

-- `if !b { return Err(e) }`.
abbrev pub ensure {ℓ} : {E : Type ℓ} → Bool → E → Result E Unit
ensure true e = ok tt
ensure false e = err e

-- `o.ok_or(e)`.
abbrev pub ok_or {ℓ} : {E A : Type ℓ} → Option A → E → Result E A
ok_or none e = err e
ok_or (some a) e = ok a

abbrev pub is_ok {ℓ} : {E A : Type ℓ} → Result E A → Bool
is_ok (ok _) = true
is_ok (err _) = false

pub ok_or-eq-ok {ℓ} : {E A : Type ℓ} (o : Option A) (e : E) {a : A} → ok_or o e ≡ ok a → o ≡ some a
ok_or-eq-ok none e h = cc
ok_or-eq-ok (some b) e h = cc

-- To split on a computed result and keep the equation.
pub Result-cases {ℓ} :
    {E A : Type ℓ} (r : Result E A) → ((e : E) × (r ≡ err e)) ⊎ ((a : A) × (r ≡ ok a))
Result-cases (ok a) = inr (a, refl)
Result-cases (err e) = inl (e, refl)

pub ok-injective : {E A : Type 0} (a b : A) → Path (Result E A) (ok a) (ok b) → a ≡ b
ok-injective a b h = cc

-- What holds of the value of a result, if it has one.
abbrev pub Gives : {E A : Type 0} → (A → Type 0) → Result E A → Type 0
Gives P (ok a) = P a
Gives P (err e) = Unit

pub Gives-bind :
    {E A B : Type 0} (P : B → Type 0) (r : Result E A) (f : A → Result E B)
    → ((a : A) → r ≡ ok a → Gives P (f a))
    → Gives P (r >>= f)
Gives-bind P (ok a) f h = h a refl
Gives-bind P (err e) f h = tt

pub Gives-of :
    {E A : Type 0} (P : A → Type 0) (r : Result E A) → ((a : A) → r ≡ ok a → P a) → Gives P r
Gives-of P (ok a) h = h a refl
Gives-of P (err e) h = tt

pub Gives-ok : {E A : Type 0} (P : A → Type 0) (r : Result E A) (a : A) → Gives P r → r ≡ ok a → P a
Gives-ok P (ok a') a h same = rw (← ok-injective a' a same) h
Gives-ok P (err e) a h same = cc

pub ensure-ok : {E : Type 0} (b : Bool) (e : E) (u : Unit) → ensure b e ≡ ok u → b ≡ true
ensure-ok true e u h = refl
ensure-ok false e u h = cc

-- A check, and a step whose value is dropped, ahead of the rest.
pub Gives-check :
    {E B : Type 0} (P : B → Type 0) (c : Bool) (e : E) (r : Result E B)
    → (c ≡ true → Gives P r)
    → Gives P (ensure c e >> r)
Gives-check P true e r h = h refl
Gives-check P false e r h = tt

pub Gives-then :
    {E A B : Type 0} (P : B → Type 0) (Q : A → Type 0) (r : Result E A) (f : A → Result E B)
    → Gives Q r
    → ((a : A) → Q a → Gives P (f a))
    → Gives P (r >>= f)
Gives-then P Q (ok a) f q h = h a q
Gives-then P Q (err e) f q h = tt

pub Gives-ensure : {E Q : Type 0} (c : Bool) (e : E) → (c ≡ true → Q) → Gives (λ _. Q) (ensure c e)
Gives-ensure true e h = h refl
Gives-ensure false e h = tt

pub Gives-map :
    {E A : Type 0} (P Q : A → Type 0) (r : Result E A)
    → ((a : A) → P a → Q a)
    → Gives P r
    → Gives Q r
Gives-map P Q (ok a) f h = f a h
Gives-map P Q (err e) f h = tt
