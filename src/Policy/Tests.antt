-- ===== src/Policy/Tests.antt =====
-- A graph of three edges, of which an actor may see two.
use tracedb.Base.{Text, codes, text_eq, true, false, ◌&&◌, any, [], ◌∷◌, ◌≡◌, ◌↔◌, unwrap_or}
use tracedb.Base.Map
use tracedb.Policy.Oracle.{
  Policy, VisibilityMode, ActorContext, Admits, tenant_policy, tenant_user, visible,
  visible-allowed_iff,
}
use tracedb.Policy.Graph.{Edge, GraphStore, add_edge, allows, visible_neighbors}
use tracedb.Policy.Neighbors.{Rising, visible_neighbors-any, visible_neighbors-Rising}

abbrev alice : ActorContext
alice = tenant_user (codes "acme") (codes "alice")

abbrev shared : Policy
shared = record (tenant_policy (codes "acme")) {
  visibility = VisibilityMode.acl;
  acl_entries = record { user_id = codes "alice"; allow = true } ∷ [];
}

abbrev edge_to : Text → Policy → Edge
edge_to t policy = record {
  edge_id = t;
  from = codes "n";
  to = t;
  edge_type = codes "cites";
  weight = 0;
  policy = policy;
}

abbrev graph : GraphStore
graph = add_edge (edge_to (codes "y") shared) (
    add_edge (edge_to (codes "x") shared) (
      add_edge (edge_to (codes "z") (tenant_policy (codes "other")))
        (record { edges = Map.empty })))

visible-allowed_iff_example : ((visible (codes "r") 1 shared alice).allowed ≡ true) ↔ (
    (codes "acme" ≡ codes "acme")
    × (false ≡ false)
    × Admits VisibilityMode.acl shared.acl_entries alice)
visible-allowed_iff_example = visible-allowed_iff (codes "r") 1 shared alice

visible_neighbors-any_example :
    any (text_eq (codes "x")) (visible_neighbors graph (codes "n") alice)
    ≡ any
        (λ e. allows alice e && text_eq (codes "x") e.to)
        (unwrap_or (Map.get (codes "n") graph.edges) [])
visible_neighbors-any_example = visible_neighbors-any graph (codes "n") alice (codes "x")

visible_neighbors-Rising_example : Rising (visible_neighbors graph (codes "n") alice)
visible_neighbors-Rising_example = visible_neighbors-Rising graph (codes "n") alice
