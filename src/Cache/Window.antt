-- ===== src/Cache/Window.antt =====
-- crates/tracedb-cache/src/lib.rs: which objects are in the cache.
use tracedb.Base.{
  ℕ, zero, suc, ◌+◌, ◌≤◌, ◌<◌, ◌≡◌, ◌∙◌, refl, sym, ap, arith, ltb, Text, text_eq_iff, Bool, true,
  false, not, List, [], ◌∷◌, ◌++◌, length, length-take-le, take, keep, any, if◌then◌else◌,
  Bool-cases, inl, inr,
}
use mathlib.Core.List.{append_assoc, append-nil}
use tracedb.Cache.Lru.{
  ObjectRef, SegmentCache, at_least_one, new_cache, stands_at, pop_back, shrink, insert_object,
  insert_objects,
}

take-pop_back : (n : ℕ) (l : List ObjectRef) → n < length l → take n (pop_back l) ≡ take n l
take-pop_back n [] h = absurd (omega (arith, h))
take-pop_back zero (x ∷ l) h = refl
take-pop_back (suc n) (x ∷ []) h = absurd (omega (arith, h))
take-pop_back (suc n) (x ∷ y ∷ l) h = ap (λ t. x ∷ t) (take-pop_back n (y ∷ l) (omega (arith, h)))

length-pop_back : (x : ObjectRef) (l : List ObjectRef) → length (pop_back (x ∷ l)) ≡ length l
length-pop_back x [] = refl
length-pop_back x (y ∷ l) = ap suc (length-pop_back y l)

take-all : (n : ℕ) (l : List ObjectRef) → length l ≤ n → take n l ≡ l
take-all zero [] h = refl
take-all zero (x ∷ l) h = absurd (omega (arith, h))
take-all (suc n) [] h = refl
take-all (suc n) (x ∷ l) h = ap (λ t. x ∷ t) (take-all n l (omega (arith, h)))

nothing : (n : ℕ) → [] ≡ take {A = ObjectRef} n []
nothing zero = refl
nothing (suc n) = refl

if-same : (b : Bool) {x y z : List ObjectRef} → x ≡ z → y ≡ z → (if b then x else y) ≡ z
if-same true p q = p
if-same false p q = q

-- A round for each entry is enough.
shrink-take : (fuel n : ℕ) (l : List ObjectRef) → length l ≤ fuel + n → shrink fuel n l ≡ take n l
unfolding shrink
shrink-take zero n l h = sym (take-all n l (omega (arith, h)))
shrink-take (suc fuel) n [] h = if-same (ltb n 0) (shrink-take fuel n [] (omega arith)) (nothing n)
shrink-take (suc fuel) n (x ∷ l) h =
    let rest = shrink-take fuel n (pop_back (x ∷ l)) (omega (arith, h, length-pop_back x l)) in
    elim (Bool-cases (ltb n (length (x ∷ l)))) [
      | inl more ↦ rw (more, rest) (take-pop_back n (x ∷ l) (ground (arith, more)))
      | inr enough ↦ rw enough (sym (take-all n (x ∷ l) (ground (arith, enough))))
    ]

abbrev away_from : Text → ObjectRef → Bool
away_from path entry = not (stands_at path entry)

-- No two stand at one path.
abbrev Distinct : List ObjectRef → Type 0
Distinct [] = Unit
Distinct (x ∷ l) = (any (stands_at x.path) l ≡ false) × Distinct l

keep-absent :
    (path : Text) (l : List ObjectRef)
    → any (stands_at path) l ≡ false
    → keep (away_from path) l ≡ l
keep-absent path [] h = refl
keep-absent path (x ∷ l) h = ground (arith, keep-absent path l)

any-take :
    (path : Text) (n : ℕ) (l : List ObjectRef)
    → any (stands_at path) l ≡ false
    → any (stands_at path) (take n l) ≡ false
any-take path zero l h = refl
any-take path (suc n) [] h = h
any-take path (suc n) (x ∷ l) h = ground (arith, any-take path n l)

take-take : (n : ℕ) (l : List ObjectRef) → take n (take n l) ≡ take n l
take-take n l = take-all n (take n l) (length-take-le n l)

any-keep :
    (path other : Text) (l : List ObjectRef)
    → any (stands_at path) l ≡ false
    → any (stands_at path) (keep (away_from other) l) ≡ false
any-keep path other [] h = h
any-keep path other (x ∷ l) h = ground (arith, any-keep path other l)

any-away :
    (path : Text) (l : List ObjectRef) → any (stands_at path) (keep (away_from path) l) ≡ false
any-away path [] = refl
any-away path (x ∷ l) = ground (arith, any-away path l)

keep-Distinct : (path : Text) (l : List ObjectRef) → Distinct l → Distinct (keep (away_from path) l)
keep-Distinct path [] h = tt
keep-Distinct path (x ∷ l) h = elim (Bool-cases (stands_at path x)) [
  | inl here ↦ rw here (keep-Distinct path l h.1)
  | inr other ↦ rw other (any-keep x.path path l h.0, keep-Distinct path l h.1)
]

-- Taking an entry away from the window or from the list makes no difference to what is ahead of the
-- last of the window.
take-keep :
    (path : Text) (n : ℕ) (l : List ObjectRef)
    → Distinct l
    → take n (keep (away_from path) (take (suc n) l)) ≡ take n (keep (away_from path) l)
take-keep path zero l h = refl
take-keep path (suc n) [] h = refl
take-keep path (suc n) (x ∷ l) h = elim (Bool-cases (stands_at path x)) [
  | inl here ↦
      let same : x.path ≡ path = (text_eq_iff x.path path).0 here in
      let absent : any (stands_at path) l ≡ false = rw same at h.0 in
      rw here (
        rw
          (
            keep-absent path (take (suc n) l) (any-take path (suc n) l absent),
            keep-absent path l absent,
          )
          (take-take (suc n) l))
  | inr other ↦ rw other (ap (λ t. x ∷ t) (take-keep path n l h.1))
]

-- What the cache holds: the front of the list of all that was inserted, the newest ahead.
IsWindow : ℕ → List ObjectRef → SegmentCache → Type 0
IsWindow n all cache = (cache.capacity ≡ suc n) × (cache.entries ≡ take (suc n) all)

insert_object-IsWindow :
    (n : ℕ) (object : ObjectRef) (all : List ObjectRef) (cache : SegmentCache)
    → Distinct all
    → IsWindow n all cache
    → IsWindow n (object ∷ keep (away_from object.path) all) (insert_object object cache)
unfolding insert_object IsWindow
insert_object-IsWindow n object all cache distinct (size, held) = (
  size,
  rw (size, held)
      (shrink-take _ (suc n) _ (omega arith)
        ∙ ap (λ t. object ∷ t) (take-keep object.path n all distinct)),
)

-- The objects that are not replaced by a later one, the newest ahead.
abbrev pub latest : List ObjectRef → List ObjectRef
latest [] = []
latest (object ∷ later) =
    let rest = latest later in
    if any (stands_at object.path) later then rest else rest ++ object ∷ []

abbrev not_among : List ObjectRef → ObjectRef → Bool
not_among later x = not (any (stands_at x.path) later)

keep-not_among :
    (object : ObjectRef) (later all : List ObjectRef)
    → keep (not_among later) (keep (away_from object.path) all)
      ≡ keep (not_among (object ∷ later)) all
keep-not_among object later [] = refl
keep-not_among object later (x ∷ all) = ground (
  arith,
  keep-not_among object later all,
  text_eq_iff object.path x.path,
  text_eq_iff x.path object.path,
)

latest-then :
    (object : ObjectRef) (later all : List ObjectRef)
    → latest later ++ keep (not_among later) (object ∷ keep (away_from object.path) all)
      ≡ latest (object ∷ later) ++ keep (not_among (object ∷ later)) all
latest-then object later all = elim (Bool-cases (any (stands_at object.path) later)) [
  | inl again ↦ rw again (ap (λ t. latest later ++ t) (keep-not_among object later all))
  | inr last ↦
      rw (last, append_assoc (latest later) (object ∷ []) (keep (not_among (object ∷ later)) all))
        (ap (λ t. latest later ++ object ∷ t) (keep-not_among object later all))
]

keep-all : (all : List ObjectRef) → keep (not_among []) all ≡ all
keep-all [] = refl
keep-all (x ∷ all) = ap (λ t. x ∷ t) (keep-all all)

insert_objects-IsWindow :
    (n : ℕ) (objects all : List ObjectRef) (cache : SegmentCache)
    → Distinct all
    → IsWindow n all cache
    → IsWindow n (latest objects ++ keep (not_among objects) all) (insert_objects objects cache)
insert_objects-IsWindow n [] all cache distinct window = rw (keep-all all) window
insert_objects-IsWindow n (object ∷ later) all cache distinct window =
    rw (latest-then object later all) at (
      insert_objects-IsWindow n later (object ∷ keep (away_from object.path) all)
        (insert_object object cache)
        (any-away object.path all, keep-Distinct object.path all distinct)
        (insert_object-IsWindow n object all cache distinct window))

new_cache-IsWindow :
    (n : ℕ) (cache : SegmentCache)
    → cache.capacity ≡ suc n
    → cache.entries ≡ []
    → (objects : List ObjectRef)
    → (insert_objects objects cache).entries ≡ take (suc n) (latest objects)
unfolding IsWindow
new_cache-IsWindow n cache size empty objects =
    let (_, held) = insert_objects-IsWindow n objects [] cache tt (size, empty) in
    rw (append-nil (latest objects)) at held

-- After objects were inserted into a new cache it holds those of them that no later one of the same
-- path replaced, the newest ahead, up to the capacity, which is one at least.
pub insert_objects-latest :
    (capacity : ℕ) (objects : List ObjectRef)
    → (insert_objects objects (new_cache capacity)).entries
      ≡ take (at_least_one capacity) (latest objects)
unfolding new_cache
insert_objects-latest zero objects = new_cache-IsWindow 0 (new_cache 0) refl refl objects
insert_objects-latest (suc n) objects = new_cache-IsWindow n (new_cache (suc n)) refl refl objects
