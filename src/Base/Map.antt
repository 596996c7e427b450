-- ===== src/Base/Map.antt =====
-- `BTreeMap<String, V>` as an association list in the order of its keys.
use Prim.Native.Nat.{Ordering}
use mathlib.Core.Path.{◌≡◌, refl}
use mathlib.Core.Bool.{Bool, true}
use mathlib.Core.Option.{Option, none, some}
use mathlib.Core.List.{List, [], ◌∷◌}
use native.Mathlib.Omega.{arith}
use tracedb.Base.Tests.{if◌then◌else◌, is_some}
use tracedb.Base.Str.{
  Text, text_eq, text_eq_iff, text_eq_refl, text_cmp, text_cmp_eq_iff, text_lt, text_lt_trans,
  text_lt_irrefl, text_gt_lt,
}

abbrev pub Map {ℓ} : Type ℓ → Type ℓ
Map V = List (Text × V)

-- A `BTreeSet` of texts.
abbrev pub TextSet : Type 0
TextSet = Map Unit

module _ {ℓ} {V : Type ℓ} where
  abbrev pub empty : Map V
  empty = []

  unfoldable pub get : Text → Map V → Option V
  get k [] = none
  get k ((j, v) ∷ m) = if text_eq k j then some v else get k m

  unfoldable pub insert : Text → V → Map V → Map V
  insert k v [] = (k, v) ∷ []
  insert k v ((j, w) ∷ m) =
      let rest = insert k v m in
      elim (text_cmp k j) [
        | Ordering.lt ↦ (k, v) ∷ (j, w) ∷ m
        | Ordering.eq ↦ (k, v) ∷ m
        | Ordering.gt ↦ (j, w) ∷ rest
      ]

  unfoldable pub remove : Text → Map V → Map V
  remove k [] = []
  remove k ((j, w) ∷ m) = let rest = remove k m in if text_eq k j then rest else (j, w) ∷ rest

  abbrev pub contains_key : Text → Map V → Bool
  contains_key k m = is_some (get k m)

  -- `values()`, in the order of the keys.
  abbrev pub values : Map V → List V
  values [] = []
  values ((_, v) ∷ m) = v ∷ values m

  -- `extend`: the entries of the second map win.
  unfoldable pub extend : Map V → Map V → Map V
  extend m [] = m
  extend m ((k, v) ∷ n) = extend (insert k v m) n

  pub get-insert :
      (j k : Text) (v : V) (m : Map V)
      → get j (insert k v m) ≡ (if text_eq j k then some v else get j m)
  unfolding get insert
  get-insert j k v [] = refl
  get-insert j k v ((i, w) ∷ m) =
      ground (arith, text_cmp_eq_iff k i, text_eq_iff j k, text_eq_iff j i, get-insert j k v m)

  pub get-insert_self : (k : Text) (v : V) (m : Map V) → get k (insert k v m) ≡ some v
  get-insert_self k v m = simp (get-insert, text_eq_refl)

  pub get-remove :
      (j k : Text) (m : Map V) → get j (remove k m) ≡ (if text_eq j k then none else get j m)
  unfolding get remove
  get-remove j k [] = ground arith
  get-remove j k ((i, w) ∷ m) =
      ground (arith, text_eq_iff k i, text_eq_iff j k, text_eq_iff j i, get-remove j k m)

  -- The second of two writes at one key is the only one left.
  pub insert-insert : (k : Text) (v w : V) (m : Map V) → insert k v (insert k w m) ≡ insert k v m
  unfolding insert
  insert-insert k v w [] = ground (arith, text_cmp_eq_iff k k)
  insert-insert k v w ((i, u) ∷ m) =
      ground (arith, text_cmp_eq_iff k i, text_cmp_eq_iff k k, insert-insert k v w m)

module _ {ℓ} {V : Type ℓ} where
  -- Every key of the map is above `k`; the keys of a map rise.
  abbrev pub Above : Text → Map V → Type 0
  Above k [] = Unit
  Above k ((j, _) ∷ m) = (text_lt k j ≡ true) × Above k m

  abbrev pub IsSorted : Map V → Type 0
  IsSorted [] = Unit
  IsSorted ((k, _) ∷ m) = Above k m × IsSorted m

  Above-trans : (i k : Text) (m : Map V) → text_lt i k ≡ true → Above k m → Above i m
  Above-trans i k [] lt h = tt
  Above-trans i k ((j, v) ∷ m) lt h = (text_lt_trans i k j lt h.0, Above-trans i k m lt h.1)

  Above-insert :
      (i k : Text) (v : V) (m : Map V) → text_lt i k ≡ true → Above i m → Above i (insert k v m)
  unfolding insert
  Above-insert i k v [] lt h = (lt, tt)
  Above-insert i k v ((j, w) ∷ m) lt h =
      elim (text_cmp k j)
        as (λ o. Above i (elim o [
          | Ordering.lt ↦ (k, v) ∷ (j, w) ∷ m
          | Ordering.eq ↦ (k, v) ∷ m
          | Ordering.gt ↦ (j, w) ∷ insert k v m
        ])) [
          | Ordering.lt ↦ (lt, h)
          | Ordering.eq ↦ (lt, h.1)
          | Ordering.gt ↦ (h.0, Above-insert i k v m lt h.1)
        ]

  pub get-Above : (k : Text) (m : Map V) → Above k m → get k m ≡ none
  unfolding get
  get-Above k [] h = refl
  get-Above k ((j, v) ∷ m) h = ground (arith, get-Above k m, text_eq_iff k j, text_lt_irrefl k)

  insert-cases :
      (k j : Text) (v w : V) (m rest : Map V)
      → IsSorted ((j, w) ∷ m)
      → (text_lt j k ≡ true → Above j rest)
      → IsSorted rest
      → (o : Ordering) → text_cmp k j ≡ o
      → let written : Map V = elim o [
        | Ordering.lt ↦ (k, v) ∷ (j, w) ∷ m
        | Ordering.eq ↦ (k, v) ∷ m
        | Ordering.gt ↦ (j, w) ∷ rest
      ] in
        IsSorted written
  insert-cases k j v w m rest h above sorted Ordering.lt p =
      let lt : text_lt k j ≡ true = rw (p, text_lt) in ((lt, Above-trans k j m lt h.0), h)
  insert-cases k j v w m rest h above sorted Ordering.eq p = rw ((text_cmp_eq_iff k j).0 p) h
  insert-cases k j v w m rest h above sorted Ordering.gt p = (above (text_gt_lt k j p), sorted)

  pub insert-IsSorted : (k : Text) (v : V) (m : Map V) → IsSorted m → IsSorted (insert k v m)
  unfolding insert
  insert-IsSorted k v [] h = (tt, tt)
  insert-IsSorted k v ((j, w) ∷ m) h =
      insert-cases k j v w m (insert k v m) h (λ lt. Above-insert j k v m lt h.0)
        (insert-IsSorted k v m h.1) (text_cmp k j) refl

  -- In a map whose keys rise, what `extend` brings wins.
  pub get-extend :
      (j : Text) (m n : Map V)
      → IsSorted n
      → get j (extend m n) ≡ (elim (get j n) [ some v ↦ some v | none ↦ get j m ])
  unfolding extend get
  get-extend j m [] h = refl
  get-extend j m ((k, v) ∷ n) h = ground (
    arith,
    get-extend j (insert k v m) n h.1,
    get-insert j k v m,
    text_eq_iff j k,
    get-Above k n h.0,
  )

  -- A key below all others is written in front; one that is absent is not removed.
  insert-Above : (k : Text) (v : V) (m : Map V) → Above k m → insert k v m ≡ (k, v) ∷ m
  unfolding insert
  insert-Above k v [] h = refl
  insert-Above k v ((j, w) ∷ m) h = ground (arith, h.0)

  remove-Above : (k : Text) (m : Map V) → Above k m → remove k m ≡ m
  unfolding remove
  remove-Above k [] h = refl
  remove-Above k ((j, w) ∷ m) h =
      ground (arith, remove-Above k m h.1, text_eq_iff k j, text_lt_irrefl k)

  -- Removing a key before a write at it changes nothing.
  pub insert-remove :
      (k : Text) (v : V) (m : Map V) → IsSorted m → insert k v (remove k m) ≡ insert k v m
  unfolding insert remove
  insert-remove k v [] h = refl
  insert-remove k v ((j, w) ∷ m) h = ground (
    arith,
    insert-remove k v m h.1,
    remove-Above j m h.0,
    insert-Above j v m h.0,
    text_eq_iff k j,
    text_cmp_eq_iff k j,
    remove-Above k m,
    Above-trans k j m,
  )

  -- Writing what a key holds changes nothing.
  pub insert-get : (k : Text) (v : V) (m : Map V) → IsSorted m → get k m ≡ some v → insert k v m ≡ m
  unfolding insert get
  insert-get k v [] h g = cc
  insert-get k v ((j, w) ∷ m) h g = ground (
    arith,
    insert-get k v m h.1,
    text_eq_iff k j,
    text_cmp_eq_iff k j,
    get-Above k m,
    Above-trans k j m,
  )
