-- ===== src/Planner/Plan.antt =====
-- crates/tracedb-planner/src/lib.rs: `plan_trace_query`. The fields of a query that the plan does not
-- read are left out.
use tracedb.Base.{
  ℕ, Text, codes, text_eq, Bool, not, ◌&&◌, Option, some, List, [], ◌∷◌, ◌++◌, if◌then◌else◌, leb,
  is_some, is_empty, any, keep, map,
}

pub data PlannerStrategy : Type 0 where
  relational_first text_first vector_first graph_first temporal_first : PlannerStrategy
  policy_partition_first feature_state_first hybrid_recall exact_hot_plus_ann_warm : PlannerStrategy

pub record TraceQuery : Type 0 where
  pub text_terms : List Text
  pub vector_dimensions : Option ℕ
  pub graph_seeds : List Text
  pub temporal_as_of : Option ℕ

pub record SkippedAccessPath : Type 0 where
  pub access_path_id : Text
  pub reason : Text

pub record PhysicalPlan : Type 0 where
  pub strategy : PlannerStrategy
  pub opened_paths : List Text
  pub skipped_paths : List SkippedAccessPath
  pub exact_fallback : Bool
  pub confidence_target : Option ℕ

unfoldable pub strategy_of : TraceQuery → Bool → PlannerStrategy
strategy_of query exact_fallback =
    if exact_fallback
    then PlannerStrategy.policy_partition_first
    else if is_some query.vector_dimensions && not (is_empty query.text_terms)
    then PlannerStrategy.hybrid_recall
    else if is_some query.vector_dimensions
    then PlannerStrategy.vector_first
    else if not (is_empty query.text_terms)
    then PlannerStrategy.text_first
    else PlannerStrategy.relational_first

-- `if wanted { opened_paths.push(path) }`.
abbrev pub push_if : Bool → Text → List Text → List Text
push_if wanted path paths = if wanted then paths ++ path ∷ [] else paths

unfoldable pub opened_by : TraceQuery → List Text
opened_by query = push_if (is_some query.temporal_as_of) (codes "TemporalPath") (
    push_if (not (is_empty query.graph_seeds)) (codes "GraphPath") (
      push_if (is_some query.vector_dimensions) (codes "VectorPath") (
        push_if (not (is_empty query.text_terms)) (codes "LexicalPath")
          (codes "PolicyPath" ∷ codes "RelationalPath" ∷ codes "HotOverlayPath" ∷ []))))

abbrev pub skipped : Text → SkippedAccessPath
skipped path = record {
  access_path_id = path;
  reason = codes "query did not request this evidence stream";
}

unfoldable pub skipped_without : List Text → List SkippedAccessPath
skipped_without opened = map skipped (
    keep (λ path. not (any (λ given. text_eq given path) opened))
      (codes "GraphPath" ∷ codes "TemporalPath" ∷ codes "ModulePath" ∷ []))

unfoldable pub plan_trace_query : TraceQuery → ℕ → PhysicalPlan
plan_trace_query query visible_records =
    let exact_fallback = is_some query.vector_dimensions && leb visible_records 32 in
    record {
      strategy = strategy_of query exact_fallback;
      opened_paths = opened_by query;
      skipped_paths = skipped_without (opened_by query);
      exact_fallback = exact_fallback;
      confidence_target = some 95;
    }
