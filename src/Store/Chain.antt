-- ===== src/Store/Chain.antt =====
-- The versions of a record are a chain of intervals: each ends where the next begins or before it,
-- and only the last can be open.
use tracedb.Base.{
  ◌≤◌, ◌<◌, false, none, some, List, [], ◌∷◌, ◌++◌, ◌≡◌, refl, arith, find_last,
  modify_last-cons_skip, ap, any, keep, length, Option-cases, inl, inr,
}
use tracedb.Core.Types.{Epoch}
use tracedb.Store.Record.{StoredRecord, is_open, is_live, close, close_current}
use tracedb.Store.Read.{covers}
use tracedb.Store.Apply.{close_live}

module _ {V : Type 0} where
  -- `IsChain lo hi versions`: the intervals follow one another from `lo`, and none passes `hi`.
  abbrev pub IsChain : Epoch → Epoch → List (StoredRecord V) → Type 0
  IsChain lo hi [] = lo ≤ hi
  IsChain lo hi (r ∷ rs) = (lo ≤ r.header.begin_epoch) × elim r.header.end_epoch [
    | none ↦ (r.header.begin_epoch ≤ hi) × (rs ≡ [])
    | some end ↦ (r.header.begin_epoch ≤ end) × IsChain end hi rs
  ]

  IsChain-le : (lo hi : Epoch) (rs : List (StoredRecord V)) → IsChain lo hi rs → lo ≤ hi
  IsChain-le lo hi [] h = h
  IsChain-le lo hi (r ∷ rs) h = elim (Option-cases r.header.end_epoch) [
    | inl o ↦ ground arith
    | inr (end, o) ↦ ground (arith, IsChain-le end hi rs)
  ]

  pub IsChain-mono :
      (lo hi hi' : Epoch) (rs : List (StoredRecord V))
      → hi ≤ hi'
      → IsChain lo hi rs
      → IsChain lo hi' rs
  IsChain-mono lo hi hi' [] le h = omega arith
  IsChain-mono lo hi hi' (r ∷ rs) le h = elim (Option-cases r.header.end_epoch) [
    | inl o ↦ ground arith
    | inr (end, o) ↦ ground (arith, IsChain-mono end hi hi' rs)
  ]

  -- At most one version holds an epoch.
  none_below :
      (lo hi e : Epoch) (rs : List (StoredRecord V))
      → e < lo
      → IsChain lo hi rs
      → keep (covers e) rs ≡ []
  none_below lo hi e [] le h = refl
  none_below lo hi e (r ∷ rs) le h = elim (Option-cases r.header.end_epoch) [
    | inl o ↦ ground arith
    | inr (end, o) ↦ ground (arith, none_below end hi e rs)
  ]

  pub one_covers :
      (lo hi e : Epoch) (rs : List (StoredRecord V))
      → IsChain lo hi rs
      → length (keep (covers e) rs) ≤ 1
  one_covers lo hi e [] h = omega arith
  one_covers lo hi e (r ∷ rs) h = elim (Option-cases r.header.end_epoch) [
    | inl o ↦ ground arith
    | inr (end, o) ↦ ground (arith, none_below end hi e rs, one_covers end hi e rs)
  ]

  close_current-cons_closed :
      (e end : Epoch) (r : StoredRecord V) (rs : List (StoredRecord V))
      → r.header.end_epoch ≡ some end
      → close_current e (r ∷ rs) ≡ r ∷ close_current e rs
  unfolding close_current
  close_current-cons_closed e end r rs o =
      modify_last-cons_skip is_open (close e) r rs (ground arith)

  -- A chain with no open version.
  abbrev pub IsClosedChain : Epoch → Epoch → List (StoredRecord V) → Type 0
  IsClosedChain lo hi [] = lo ≤ hi
  IsClosedChain lo hi (r ∷ rs) = (lo ≤ r.header.begin_epoch) × elim r.header.end_epoch [
    | none ↦ ⊥
    | some end ↦ (r.header.begin_epoch ≤ end) × IsClosedChain end hi rs
  ]

  pub IsClosedChain-IsChain :
      (lo hi : Epoch) (rs : List (StoredRecord V)) → IsClosedChain lo hi rs → IsChain lo hi rs
  IsClosedChain-IsChain lo hi [] h = h
  IsClosedChain-IsChain lo hi (r ∷ rs) h = elim (Option-cases r.header.end_epoch) [
    | inl o ↦ ground arith
    | inr (end, o) ↦ ground (arith, IsClosedChain-IsChain end hi rs)
  ]

  IsClosedChain-le : (lo hi : Epoch) (rs : List (StoredRecord V)) → IsClosedChain lo hi rs → lo ≤ hi
  IsClosedChain-le lo hi rs h = IsChain-le lo hi rs (IsClosedChain-IsChain lo hi rs h)

  close_current-one :
      (lo hi e : Epoch) (r : StoredRecord V)
      → hi ≤ e
      → r.header.end_epoch ≡ none
      → IsChain lo hi (r ∷ [])
      → IsClosedChain lo e (close_current e (r ∷ []))
  unfolding close_current
  close_current-one lo hi e r le o h = ground arith

  pub close_current-IsClosedChain :
      (lo hi e : Epoch) (rs : List (StoredRecord V))
      → hi ≤ e
      → IsChain lo hi rs
      → IsClosedChain lo e (close_current e rs)
  close_current-IsClosedChain lo hi e [] le h = unfold close_current in omega arith
  close_current-IsClosedChain lo hi e (r ∷ []) le h = elim (Option-cases r.header.end_epoch) [
    | inl o ↦ close_current-one lo hi e r le o h
    | inr (end, o) ↦
        rw (close_current-cons_closed e end r [] o) (unfold close_current in ground arith)
  ]
  close_current-IsClosedChain lo hi e (r ∷ q ∷ rs) le h = elim (Option-cases r.header.end_epoch) [
    | inl o ↦ absurd (ground arith)
    | inr (end, o) ↦
        rw (close_current-cons_closed e end r (q ∷ rs) o)
          (ground (arith, close_current-IsClosedChain end hi e (q ∷ rs)))
  ]

  pub append-IsChain :
      (lo e : Epoch) (rs : List (StoredRecord V)) (new : StoredRecord V)
      → new.header.begin_epoch ≡ e
      → new.header.end_epoch ≡ none
      → IsClosedChain lo e rs
      → IsChain lo e (rs ++ new ∷ [])
  append-IsChain lo e [] new b o h = ground arith
  append-IsChain lo e (r ∷ rs) new b o h = elim (Option-cases r.header.end_epoch) [
    | inl p ↦ absurd (ground arith)
    | inr (end, p) ↦ ground (arith, append-IsChain end e rs new b o)
  ]

  -- After the end of a closed chain nothing is held.
  pub closed_covers :
      (lo e e' : Epoch) (rs : List (StoredRecord V))
      → e ≤ e'
      → IsClosedChain lo e rs
      → any (covers e') rs ≡ false
  closed_covers lo e e' [] le h = refl
  closed_covers lo e e' (r ∷ rs) le h = elim (Option-cases r.header.end_epoch) [
    | inl p ↦ absurd (ground arith)
    | inr (end, p) ↦ ground (arith, closed_covers end e e' rs le, IsClosedChain-le end e rs)
  ]

  -- Where a live version is found, it is the only open one.
  pub close_live-eq :
      (lo hi e : Epoch) (rs : List (StoredRecord V)) {previous : StoredRecord V}
      → IsChain lo hi rs
      → find_last is_live rs ≡ some previous
      → close_live e rs ≡ close_current e rs
  unfolding close_live close_current
  close_live-eq lo hi e [] h l = cc
  close_live-eq lo hi e (r ∷ []) h l = ground arith
  close_live-eq lo hi e (r ∷ q ∷ rs) {previous} h l = elim (Option-cases r.header.end_epoch) [
    | inl o ↦ absurd (ground arith)
    | inr (end, o) ↦
        rw
          (
            modify_last-cons_skip is_live (close e) r (q ∷ rs) (ground arith),
            modify_last-cons_skip is_open (close e) r (q ∷ rs) (ground arith),
          )
          (ap (λ (vs : List (StoredRecord V)). r ∷ vs)
            (close_live-eq end hi e (q ∷ rs) {previous = previous} (ground arith) (ground arith)))
  ]
