-- ===== src/Planner/Tests.antt =====
-- Runs of the planner on a query with terms and a vector.
use tracedb.Base.{codes, true, some, none, not, is_some, is_empty, [], ◌∷◌, ◌≡◌}
use tracedb.Planner.Plan.{TraceQuery, plan_trace_query}
use tracedb.Planner.Paths.{opens, skips, plan_trace_query-paths}

abbrev hybrid : TraceQuery
hybrid = record {
  text_terms = codes "cat" ∷ [];
  vector_dimensions = some 2;
  graph_seeds = [];
  temporal_as_of = none;
}

plan_trace_query-paths_example :
    (opens (plan_trace_query hybrid 100) (codes "PolicyPath") ≡ true)
    × (opens (plan_trace_query hybrid 100) (codes "LexicalPath") ≡ not (is_empty hybrid.text_terms))
    × (opens (plan_trace_query hybrid 100) (codes "VectorPath") ≡ is_some hybrid.vector_dimensions)
    × (opens (plan_trace_query hybrid 100) (codes "GraphPath") ≡ not (is_empty hybrid.graph_seeds))
    × (opens (plan_trace_query hybrid 100) (codes "TemporalPath") ≡ is_some hybrid.temporal_as_of)
    × (skips (plan_trace_query hybrid 100) (codes "GraphPath") ≡ is_empty hybrid.graph_seeds)
    × (skips (plan_trace_query hybrid 100) (codes "TemporalPath")
        ≡ not (is_some hybrid.temporal_as_of))
    × (skips (plan_trace_query hybrid 100) (codes "ModulePath") ≡ true)
plan_trace_query-paths_example = plan_trace_query-paths hybrid 100
