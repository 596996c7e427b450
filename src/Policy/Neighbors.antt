-- ===== src/Policy/Neighbors.antt =====
-- Theorems on `visible_neighbors` of crates/tracedb-graph/src/lib.rs.
use tracedb.Base.{
  Text, text_eq, text_eq_iff, text_cmp_eq_iff, text_lt, text_gt_lt, text_lt_trans, Bool, true,
  false, ◌&&◌, ◌||◌, List, [], ◌∷◌, keep, map, any, unwrap_or, ◌≡◌, refl, arith, Bool-cases, inl,
  inr, text_lt_irrefl,
}
use tracedb.Base.Map
use tracedb.Policy.Oracle.{ActorContext}
use tracedb.Policy.Graph.{
  Edge, GraphStore, insert_text, sort_texts, dedup, allows, visible_neighbors,
}

any-insert_text :
    (p : Text → Bool) (t : Text) (us : List Text) → any p (insert_text t us) ≡ (p t || any p us)
unfolding insert_text
any-insert_text p t [] = refl
any-insert_text p t (u ∷ us) = ground (arith, any-insert_text p t us)

any-sort_texts : (p : Text → Bool) (ts : List Text) → any p (sort_texts ts) ≡ any p ts
unfolding sort_texts
any-sort_texts p [] = refl
any-sort_texts p (t ∷ ts) = ground (arith, any-insert_text p t (sort_texts ts), any-sort_texts p ts)

any-dedup : (p : Text → Bool) (ts : List Text) → any p (dedup ts) ≡ any p ts
unfolding dedup
any-dedup p [] = refl
any-dedup p (t ∷ []) = refl
any-dedup p (t ∷ u ∷ us) = ground (arith, any-dedup p (u ∷ us), text_eq_iff t u)

any-ends :
    (p : Text → Bool) (actor : ActorContext) (es : List Edge)
    → any p (map (λ e. e.to) (keep (allows actor) es)) ≡ any (λ e. allows actor e && p e.to) es
any-ends p actor [] = refl
any-ends p actor (e ∷ es) = ground (arith, any-ends p actor es)

-- Each text is below the next, or not above it.
abbrev pub Rising : List Text → Type 0
Rising [] = Unit
Rising (t ∷ []) = Unit
Rising (t ∷ u ∷ us) = (text_lt t u ≡ true) × Rising (u ∷ us)

abbrev NotFalling : List Text → Type 0
NotFalling [] = Unit
NotFalling (t ∷ []) = Unit
NotFalling (t ∷ u ∷ us) = (text_lt u t ≡ false) × NotFalling (u ∷ us)

-- A text is a neighbour that the actor is given exactly when it is the end of an edge from the node
-- whose policy the oracle allows to the actor.
pub visible_neighbors-any :
    (g : GraphStore) (from : Text) (actor : ActorContext) (t : Text)
    → any (text_eq t) (visible_neighbors g from actor)
      ≡ any (λ e. allows actor e && text_eq t e.to) (unwrap_or (Map.get from g.edges) [])
unfolding visible_neighbors
visible_neighbors-any g from actor t = rw (any-dedup, any-sort_texts, any-ends) refl

lt-asym : (s t : Text) → text_lt s t ≡ true → text_lt t s ≡ false
lt-asym s t h = elim (Bool-cases (text_lt t s)) [
  | inl back ↦ absurd (ground (arith, text_lt_trans s t s h back, text_lt_irrefl s))
  | inr fine ↦ fine
]

insert_text-NotFalling : (t : Text) (us : List Text) → NotFalling us → NotFalling (insert_text t us)
unfolding insert_text
insert_text-NotFalling t [] h = tt
insert_text-NotFalling t (u ∷ []) h =
    ground (arith, lt-asym u t, text_gt_lt u t, lt-asym t u, text_cmp_eq_iff u t, text_lt_irrefl t)
insert_text-NotFalling t (u ∷ v ∷ us) h = ground (
  arith,
  lt-asym u t,
  text_gt_lt u t,
  lt-asym t u,
  text_cmp_eq_iff u t,
  text_lt_irrefl t,
  insert_text-NotFalling t (v ∷ us) h.1,
)

sort_texts-NotFalling : (ts : List Text) → NotFalling (sort_texts ts)
unfolding sort_texts
sort_texts-NotFalling [] = tt
sort_texts-NotFalling (t ∷ ts) = insert_text-NotFalling t (sort_texts ts) (sort_texts-NotFalling ts)

dedup-head : (u : Text) (us : List Text) → (rest : List Text) × (dedup (u ∷ us) ≡ u ∷ rest)
unfolding dedup
dedup-head u [] = ([], refl)
dedup-head u (v ∷ us) = elim (Bool-cases (text_eq u v)) [
  | inl same ↦ let (rest, p) = dedup-head v us in (rest, ground (arith, text_eq_iff u v))
  | inr other ↦ (dedup (v ∷ us), ground arith)
]

below : (t u : Text) → text_lt u t ≡ false → text_eq t u ≡ false → text_lt t u ≡ true
below t u h other = ground (arith, text_gt_lt t u, text_cmp_eq_iff t u, text_eq_iff t u)

dedup-Rising : (ts : List Text) → NotFalling ts → Rising (dedup ts)
unfolding dedup
dedup-Rising [] h = tt
dedup-Rising (t ∷ []) h = tt
dedup-Rising (t ∷ u ∷ us) h = elim (Bool-cases (text_eq t u)) [
  | inl same ↦ rw (same, dedup) (dedup-Rising (u ∷ us) h.1)
  | inr other ↦
      let (rest, p) = dedup-head u us in
      rw (other, dedup) (rw p (below t u h.0 other, rw p at (dedup-Rising (u ∷ us) h.1)))
]

-- The neighbours that an actor is given rise strictly in the order of texts, so no node is given
-- twice.
pub visible_neighbors-Rising :
    (g : GraphStore) (from : Text) (actor : ActorContext) → Rising (visible_neighbors g from actor)
unfolding visible_neighbors
visible_neighbors-Rising g from actor = dedup-Rising _ (sort_texts-NotFalling _)
