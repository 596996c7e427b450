-- ===== src/Base/Lists.antt =====
-- Lists measured by native numbers, and the iterator chains of the source.
use Prim.Native.Nat.{ℕ, zero, suc, ◌+◌, ◌≤◌}
use mathlib.Core.Path.{◌≡◌, refl, ap}
use mathlib.Core.Bool.{Bool, true, false, ◌&&◌, ◌||◌}
use mathlib.Core.Option.{Option, none, some}
use mathlib.Core.Logic.{inl, inr}
use mathlib.Core.List.{List, [], ◌∷◌, ◌++◌}
use native.Mathlib.Omega.{arith}
use tracedb.Base.Tests.{if◌then◌else◌, Option-cases, Bool-cases}

module _ {ℓ} {A : Type ℓ} where
  abbrev pub length : List A → ℕ
  length [] = 0
  length (x ∷ xs) = suc (length xs)

  abbrev pub take : ℕ → List A → List A
  take zero xs = []
  take (suc n) [] = []
  take (suc n) (x ∷ xs) = x ∷ take n xs

  abbrev pub drop : ℕ → List A → List A
  drop zero xs = xs
  drop (suc n) [] = []
  drop (suc n) (x ∷ xs) = drop n xs

  -- `xs.is_empty()`.
  abbrev pub is_empty : List A → Bool
  is_empty [] = true
  is_empty (_ ∷ _) = false

  -- `iter().any(p)`, `iter().all(p)`, `iter().filter(p)`, `iter().find(p)`.
  abbrev pub any : (A → Bool) → List A → Bool
  any p [] = false
  any p (x ∷ xs) = p x || any p xs

  abbrev pub all : (A → Bool) → List A → Bool
  all p [] = true
  all p (x ∷ xs) = p x && all p xs

  abbrev pub keep : (A → Bool) → List A → List A
  keep p [] = []
  keep p (x ∷ xs) = let rest = keep p xs in if p x then x ∷ rest else rest

  abbrev pub find : (A → Bool) → List A → Option A
  find p [] = none
  find p (x ∷ xs) = if p x then some x else find p xs

  -- `iter().rev().find(p)`: the last element that passes.
  abbrev pub find_last : (A → Bool) → List A → Option A
  find_last p [] = none
  find_last p (x ∷ xs) = elim (find_last p xs) [
    | some y ↦ some y
    | none ↦ if p x then some x else none
  ]

  -- `if let Some(x) = iter_mut().rev().find(p) { f(x) }`.
  abbrev pub modify_last : (A → Bool) → (A → A) → List A → List A
  modify_last p f [] = []
  modify_last p f (x ∷ xs) =
      let rest = modify_last p f xs in
      if any p xs then x ∷ rest else if p x then f x ∷ xs else x ∷ xs

  pub length-append : (xs ys : List A) → length (xs ++ ys) ≡ length xs + length ys
  length-append [] ys = omega arith
  length-append (x ∷ xs) ys = omega (arith, length-append xs ys)

  pub length-take-le : (n : ℕ) (xs : List A) → length (take n xs) ≤ n
  length-take-le zero xs = omega arith
  length-take-le (suc n) [] = omega arith
  length-take-le (suc n) (x ∷ xs) = omega (arith, length-take-le n xs)

  pub take-append : (n : ℕ) (xs ys : List A) → length xs ≡ n → take n (xs ++ ys) ≡ xs
  take-append zero [] ys h = refl
  take-append zero (x ∷ xs) ys h = absurd (omega (arith, h))
  take-append (suc n) [] ys h = absurd (omega (arith, h))
  take-append (suc n) (x ∷ xs) ys h = ap (λ zs. x ∷ zs) (take-append n xs ys (omega (arith, h)))

  pub drop-append : (n : ℕ) (xs ys : List A) → length xs ≡ n → drop n (xs ++ ys) ≡ ys
  drop-append zero [] ys h = refl
  drop-append zero (x ∷ xs) ys h = absurd (omega (arith, h))
  drop-append (suc n) [] ys h = absurd (omega (arith, h))
  drop-append (suc n) (x ∷ xs) ys h = drop-append n xs ys (omega (arith, h))

  pub drop-append_right :
      (n m : ℕ) (xs ys : List A) → n ≡ length xs + m → drop n (xs ++ ys) ≡ drop m ys
  drop-append_right n m [] ys h = ap (λ k. drop k ys) {x = n} {y = m} (omega (arith, h))
  drop-append_right zero m (x ∷ xs) ys h = absurd (omega (arith, h))
  drop-append_right (suc n) m (x ∷ xs) ys h = drop-append_right n m xs ys (omega (arith, h))

  -- A part that does not reach into the second list, and one that takes the first.
  pub take-append_left : (n : ℕ) (xs ys : List A) → n ≤ length xs → take n (xs ++ ys) ≡ take n xs
  take-append_left zero xs ys h = refl
  take-append_left (suc n) [] ys h = absurd (omega (arith, h))
  take-append_left (suc n) (x ∷ xs) ys h =
      ap (λ zs. x ∷ zs) (take-append_left n xs ys (omega (arith, h)))

  pub take-append_right :
      (n m : ℕ) (xs ys : List A) → n ≡ length xs + m → take n (xs ++ ys) ≡ xs ++ take m ys
  take-append_right n m [] ys h = ap (λ k. take k ys) {x = n} {y = m} (omega (arith, h))
  take-append_right zero m (x ∷ xs) ys h = absurd (omega (arith, h))
  take-append_right (suc n) m (x ∷ xs) ys h =
      ap (λ zs. x ∷ zs) (take-append_right n m xs ys (omega (arith, h)))

  pub take_all : (n : ℕ) (xs : List A) → length xs ≤ n → take n xs ≡ xs
  take_all zero [] h = refl
  take_all zero (x ∷ xs) h = absurd (omega (arith, h))
  take_all (suc n) [] h = refl
  take_all (suc n) (x ∷ xs) h = ap (λ zs. x ∷ zs) (take_all n xs (omega (arith, h)))

  pub length-take : (n : ℕ) (xs : List A) → n ≤ length xs → length (take n xs) ≡ n
  length-take zero xs h = refl
  length-take (suc n) [] h = absurd (omega (arith, h))
  length-take (suc n) (x ∷ xs) h = ap suc (length-take n xs (omega (arith, h)))

  pub find_last-append_one :
      (p : A → Bool) (xs : List A) (y : A)
      → find_last p (xs ++ y ∷ []) ≡ (if p y then some y else find_last p xs)
  find_last-append_one p [] y = refl
  find_last-append_one p (x ∷ xs) y = ground (arith, find_last-append_one p xs y)

  pub find_last-none_of_any :
      (p : A → Bool) (xs : List A) → any p xs ≡ false → find_last p xs ≡ none
  find_last-none_of_any p [] h = refl
  find_last-none_of_any p (x ∷ xs) h = ground (arith, find_last-none_of_any p xs)

  pub any-none_of_find_last :
      (p : A → Bool) (xs : List A) → find_last p xs ≡ none → any p xs ≡ false
  any-none_of_find_last p [] h = refl
  any-none_of_find_last p (x ∷ xs) h = ground (arith, any-none_of_find_last p xs)

  pub find_last_sound : (p : A → Bool) (xs : List A) {y : A} → find_last p xs ≡ some y → p y ≡ true
  find_last_sound p [] h = cc
  find_last_sound p (x ∷ xs) {y} h = ground (arith, find_last_sound p xs {y = y})

-- A predicate of every element.
abbrev pub All {ℓ κ} : {A : Type ℓ} → (A → Type κ) → List A → Type κ
All P [] = Unit
All P (x ∷ xs) = P x × All P xs

module _ {ℓ} {A : Type ℓ} where
  pub modify_last-none :
      (p : A → Bool) (f : A → A) (xs : List A) → any p xs ≡ false → modify_last p f xs ≡ xs
  modify_last-none p f [] h = refl
  modify_last-none p f (x ∷ xs) h = ground arith

  -- An element that fails the test is passed over.
  pub modify_last-cons_skip :
      (p : A → Bool) (f : A → A) (x : A) (xs : List A)
      → p x ≡ false
      → modify_last p f (x ∷ xs) ≡ x ∷ modify_last p f xs
  modify_last-cons_skip p f x xs h = ground (arith, modify_last-none p f xs)

module _ {ℓ κ} {A : Type ℓ} (P : A → Type κ) where
  pub All-find_last :
      (p : A → Bool) (xs : List A) (y : A) → All P xs → find_last p xs ≡ some y → P y
  All-find_last p [] y h found = cc
  All-find_last p (x ∷ xs) y h found = elim (Option-cases (find_last p xs)) [
    | inl nothing ↦ let same : x ≡ y = ground arith in rw (← same) h.0
    | inr (z, there) ↦
        let here : find_last p xs ≡ some y = ground arith in All-find_last p xs y h.1 here
  ]

  pub All-append_one : (xs : List A) (y : A) → All P xs → P y → All P (xs ++ y ∷ [])
  All-append_one [] y h py = (py, tt)
  All-append_one (x ∷ xs) y h py = (h.0, All-append_one xs y h.1 py)

  pub All-modify_last :
      (p : A → Bool) (f : A → A) (xs : List A)
      → ((x : A) → P x → P (f x))
      → All P xs
      → All P (modify_last p f xs)
  All-modify_last p f [] keeps h = tt
  All-modify_last p f (x ∷ xs) keeps h = elim (Bool-cases (any p xs)) [
    | inl later ↦ rw later (h.0, All-modify_last p f xs keeps h.1)
    | inr last ↦ elim (Bool-cases (p x)) [
      | inl here ↦ rw (last, here) (keeps x h.0, h.1)
      | inr nowhere ↦ rw (last, nowhere) h
    ]
  ]
