-- ===== src/Base/Exec.antt =====
-- Methods on `&mut self` that may fail. What was written before an error stays written, so the
-- state comes back beside the error too.
use mathlib.Core.Path.{◌≡◌, refl}
use mathlib.Core.List.{List, [], ◌∷◌}
use tracedb.Base.Outcome.{Result, ok, err}

abbrev pub Exec {ℓ} : Type ℓ → Type ℓ → Type ℓ → Type ℓ
Exec S E A = S → Result E A × S

module _ {ℓ} {S E A : Type ℓ} where
  abbrev pub pure : A → Exec S E A
  pure a s = (ok a, s)

  abbrev pub raise : E → Exec S E A
  raise e s = (err e, s)

  abbrev pub lift : Result E A → Exec S E A
  lift r s = (r, s)

  abbrev pub gets : (S → A) → Exec S E A
  gets f s = (ok (f s), s)

module _ {ℓ} {S E : Type ℓ} where
  abbrev pub modify : (S → S) → Exec S E Unit
  modify f s = (ok tt, f s)

module _ {ℓ} {S E A B : Type ℓ} where
  abbrev pub continue : Result E A → (A → Exec S E B) → Exec S E B
  continue (ok a) f s = f a s
  continue (err e) f s = (err e, s)

  infixl 5 ◌>>=◌ ◌>>◌
  abbrev pub ◌>>=◌ : Exec S E A → (A → Exec S E B) → Exec S E B
  ◌>>=◌ m f s = continue (m s).0 f (m s).1

  abbrev pub ◌>>◌ : Exec S E A → Exec S E B → Exec S E B
  m >> n = m >>= λ _. n

-- `for item in items { step(item)? }`.
module _ {ℓ} {S E A : Type ℓ} where
  abbrev pub for_each : (A → Exec S E Unit) → List A → Exec S E Unit
  for_each step [] = pure tt
  for_each step (item ∷ items) = step item >>= λ _. for_each step items

-- A property of the state that is left: it holds where the step fails, and after what follows.
pub lift-keeps {ℓ κ} :
    {S E A B : Type ℓ} (P : S → Type κ) (r : Result E A) (f : A → Exec S E B) (s : S)
    → P s
    → ((a : A) → r ≡ ok a → P (f a s).1)
    → P (continue r f s).1
lift-keeps P (ok a) f s before after = after a refl
lift-keeps P (err e) f s before after = before
