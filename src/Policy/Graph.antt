-- ===== src/Policy/Graph.antt =====
-- crates/tracedb-graph/src/lib.rs: edges and the neighbours that an actor may see. A weight is its bits.
use tracedb.Base.{
  ℕ, Text, text_eq, text_cmp, Ordering, Bool, List, [], ◌∷◌, ◌++◌, keep, map, if◌then◌else◌,
  unwrap_or,
}
use tracedb.Base.Map
use tracedb.Base.Map.{Map}
use tracedb.Policy.Oracle.{Policy, ActorContext, visible}

pub record Edge : Type 0 where
  pub edge_id : Text
  pub from : Text
  pub to : Text
  pub edge_type : Text
  pub weight : ℕ
  pub policy : Policy

pub record GraphStore : Type 0 where
  pub edges : Map (List Edge)

unfoldable pub add_edge : Edge → GraphStore → GraphStore
add_edge edge g = record {
  edges = Map.insert edge.from (unwrap_or (Map.get edge.from g.edges) [] ++ edge ∷ []) g.edges;
}

-- `sort` on texts: equal texts are the same, so any sort gives this list.
unfoldable pub insert_text : Text → List Text → List Text
insert_text t [] = t ∷ []
insert_text t (u ∷ us) =
    let rest = insert_text t us in
    elim (text_cmp u t) [
      | Ordering.lt ↦ u ∷ rest
      | Ordering.eq ↦ t ∷ u ∷ us
      | Ordering.gt ↦ t ∷ u ∷ us
    ]

unfoldable pub sort_texts : List Text → List Text
sort_texts [] = []
sort_texts (t ∷ ts) = insert_text t (sort_texts ts)

-- `dedup`: of equal neighbours the first stays.
unfoldable pub dedup : List Text → List Text
dedup [] = []
dedup (t ∷ []) = t ∷ []
dedup (t ∷ u ∷ us) = let rest = dedup (u ∷ us) in if text_eq t u then rest else t ∷ rest

abbrev pub allows : ActorContext → Edge → Bool
allows actor edge = (visible edge.edge_id 1 edge.policy actor).allowed

unfoldable pub visible_neighbors : GraphStore → Text → ActorContext → List Text
visible_neighbors g from actor =
    dedup (sort_texts (map (λ e. e.to) (keep (allows actor) (unwrap_or (Map.get from g.edges) []))))
