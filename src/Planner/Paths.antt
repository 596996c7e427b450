-- ===== src/Planner/Paths.antt =====
-- crates/tracedb-planner/src/lib.rs: which paths a plan opens, and when.
use tracedb.Base.{ℕ, Text, codes, text_eq, Bool, true, not, ◌≡◌, arith, any, is_some, is_empty}
use tracedb.Planner.Plan.{TraceQuery, PhysicalPlan, plan_trace_query, opened_by, skipped_without}

-- The plan opens the path.
abbrev pub opens : PhysicalPlan → Text → Bool
opens plan path = any (λ given. text_eq given path) plan.opened_paths

-- The plan skips the path.
abbrev pub skips : PhysicalPlan → Text → Bool
skips plan path = any (λ given. text_eq given.access_path_id path) plan.skipped_paths

module _ (query : TraceQuery) (n : ℕ) where
  -- A plan always opens the path of the policy, and opens those of terms, vectors, graphs and times
  -- exactly where the query asks for them; of graphs and times it skips those that it does not open,
  -- and always that of modules.
  pub plan_trace_query-paths :
      (opens (plan_trace_query query n) (codes "PolicyPath") ≡ true)
      × (opens (plan_trace_query query n) (codes "LexicalPath") ≡ not (is_empty query.text_terms))
      × (opens (plan_trace_query query n) (codes "VectorPath") ≡ is_some query.vector_dimensions)
      × (opens (plan_trace_query query n) (codes "GraphPath") ≡ not (is_empty query.graph_seeds))
      × (opens (plan_trace_query query n) (codes "TemporalPath") ≡ is_some query.temporal_as_of)
      × (skips (plan_trace_query query n) (codes "GraphPath") ≡ is_empty query.graph_seeds)
      × (skips (plan_trace_query query n) (codes "TemporalPath")
          ≡ not (is_some query.temporal_as_of))
      × (skips (plan_trace_query query n) (codes "ModulePath") ≡ true)
  unfolding plan_trace_query opened_by skipped_without text_eq
  plan_trace_query-paths = ground arith
