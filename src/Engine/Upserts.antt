-- ===== src/Engine/Upserts.antt =====
-- crates/tracedb-query/src/lib.rs: `upsert_schema` over the schemas of a log.
use mathlib.Core.List.{append_assoc, append-nil}
use tracedb.Base.{
  Text, text_eq, text_eq_iff, text_eq_refl, false, none, List, [], ◌∷◌, ◌++◌, ◌≡◌, sym, ◌∙◌, refl,
  arith,
}
use tracedb.Core.Types.{TableSchema}
use tracedb.Store.Replay.{find_table}
use tracedb.Engine.State.{upsert_schema}
use tracedb.Engine.Open.{upsert_all}
use tracedb.Engine.Durable.{HasDistinctNames}
use tracedb.Engine.Recovery.{upsert_schema_new}

different :
    (name : Text) (before : List TableSchema) (schema : TableSchema) (after : List TableSchema)
    → find_table name (before ++ schema ∷ after) ≡ none
    → text_eq schema.name name ≡ false
unfolding find_table
different name [] schema after h = ground arith
different name (s ∷ before) schema after h = ground (arith, different name before schema after)

-- A name that comes in the middle is none of those before.
find_table-before :
    (before : List TableSchema) (schema : TableSchema) (after : List TableSchema)
    → HasDistinctNames (before ++ schema ∷ after)
    → find_table schema.name before ≡ none
unfolding find_table
find_table-before [] schema after h = refl
find_table-before (s ∷ before) schema after h = ground (
  arith,
  find_table-before before schema after h.1,
  different s.name before schema after h.0,
  text_eq_iff s.name schema.name,
  text_eq_iff schema.name s.name,
)

upsert_schema_there :
    (before : List TableSchema) (schema : TableSchema) (after : List TableSchema)
    → find_table schema.name before ≡ none
    → upsert_schema schema (before ++ schema ∷ after) ≡ before ++ schema ∷ after
unfolding upsert_schema find_table
upsert_schema_there [] schema after h = ground (arith, text_eq_refl schema.name)
upsert_schema_there (s ∷ before) schema after h =
    ground (arith, upsert_schema_there before schema after)

-- Schemas that are there already change nothing.
upsert_all_again :
    (before again : List TableSchema)
    → HasDistinctNames (before ++ again)
    → upsert_all again (before ++ again) ≡ before ++ again
unfolding upsert_all
upsert_all_again before [] h = refl
upsert_all_again before (schema ∷ again) h =
    rw (upsert_schema_there before schema again (find_table-before before schema again h)) (
      rw (← append_assoc before (schema ∷ []) again) (
        upsert_all_again (before ++ schema ∷ []) again
          (rw (append_assoc before (schema ∷ []) again) h)))

-- Schemas of other tables are added behind.
upsert_all_new :
    (before new : List TableSchema)
    → HasDistinctNames (before ++ new)
    → upsert_all new before ≡ before ++ new
unfolding upsert_all
upsert_all_new before [] h = sym (append-nil before)
upsert_all_new before (schema ∷ new) h =
    rw (upsert_schema_new schema before (find_table-before before schema new h)) (
      rw (← append_assoc before (schema ∷ []) new)
        (upsert_all_new (before ++ schema ∷ []) new (rw (append_assoc before (schema ∷ []) new) h)))

upsert_all-append :
    (xs ys schemas : List TableSchema)
    → upsert_all (xs ++ ys) schemas ≡ upsert_all ys (upsert_all xs schemas)
unfolding upsert_all
upsert_all-append [] ys schemas = refl
upsert_all-append (x ∷ xs) ys schemas = upsert_all-append xs ys (upsert_schema x schemas)

not_before :
    (name : Text) (before after : List TableSchema)
    → find_table name (before ++ after) ≡ none
    → find_table name before ≡ none
unfolding find_table
not_before name [] after h = refl
not_before name (s ∷ before) after h = ground (arith, not_before name before after)

HasDistinctNames-prefix :
    (before after : List TableSchema) → HasDistinctNames (before ++ after) → HasDistinctNames before
unfolding find_table
HasDistinctNames-prefix [] after h = tt
HasDistinctNames-prefix (s ∷ before) after h =
    (not_before s.name before after h.0, HasDistinctNames-prefix before after h.1)

-- All schemas of the log, from a manifest that is some of them behind.
pub upsert_all_behind :
    (known later : List TableSchema)
    → HasDistinctNames (known ++ later)
    → upsert_all (known ++ later) known ≡ known ++ later
upsert_all_behind known later h =
    upsert_all-append known later known
    ∙ rw (upsert_all_again [] known (HasDistinctNames-prefix known later h))
        (upsert_all_new known later h)
