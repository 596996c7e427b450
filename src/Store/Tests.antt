-- ===== src/Store/Tests.antt =====
-- Runs of the store on a small table.
use tracedb.Base.{
  text_cmp, ℕ, ◌≤◌, Text, codes, text_eq, Bool, true, false, ◌&&◌, Option, none, some, List, [],
  ◌∷◌, ◌++◌, map, leb, if◌then◌else◌, ◌≡◌, refl, arith, Result, ok, err, keep, length,
}
use tracedb.Base.Map
use tracedb.Base.Map.{Map}
use tracedb.Store.Record.{
  StoredRecord, RecordStore, RecordStoreDelta, default_store, default_delta, apply_delta,
  record_key, versions_at,
}
use tracedb.Store.Sample.{Value, values, docs, note, removal}
use tracedb.Store.Build.{merge_fields, replacement_fields, build_replacement_record}
use tracedb.Store.Validate.{
  validate_deletion_identity, validate_record_identity, validate_vector_dimensions,
}
use tracedb.Store.Read.{covers}
use tracedb.Store.Apply.{tombstone_version, apply_mutation, apply_replacement, apply_delete}
use tracedb.Store.AnyWrite.{PlanAgrees, plan-agrees, after-isolated}
use tracedb.Store.Isolation.{view_at}
use tracedb.Store.Invariant.{
  IsVersioned, mutation, deletion, after, after-IsVersioned, run, run-one_covers,
  default-IsVersioned,
}
use tracedb.Store.ReadBack.{
  mutated, replaced, same_key, apply_mutation-reads, apply_replacement-reads, apply_delete-reads,
}
use tracedb.Store.Keys.{record_key-injective, record_key-collides}

-- A store with the note from epoch 1 on.
abbrev stored : RecordStore Value
stored = (apply_mutation docs note 1 default_store).1

stored-IsVersioned : IsVersioned 1 stored
stored-IsVersioned =
    after-IsVersioned (mutation docs note) 0 1 default_store (omega arith) default-IsVersioned

after-IsVersioned_example : IsVersioned 2 (after (deletion docs removal) 2 stored)
after-IsVersioned_example =
    after-IsVersioned (deletion docs removal) 1 2 stored (omega arith) stored-IsVersioned

run-one_covers_example :
    length (
      keep (covers 2) (
        versions_at (record_key (codes "docs") (codes "acme") (codes "a")) (
          run
            ((1, mutation docs note) ∷ (2, deletion docs removal) ∷ [])
            (default_store {V = Value}))))
    ≤ 1
run-one_covers_example =
    run-one_covers ((1, mutation docs note) ∷ (2, deletion docs removal) ∷ [])
      (record_key (codes "docs") (codes "acme") (codes "a")) 2 (omega arith, (omega arith, tt))

note_stored : (apply_mutation docs note 1 default_store).0 ≡ ok (mutated docs note 1 default_store)
unfolding apply_mutation validate_record_identity validate_vector_dimensions Map.get text_eq values
    merge_fields Map.extend Map.insert versions_at text_cmp
note_stored = refl

apply_mutation-reads_example : view_at stored (codes "docs") (codes "acme") (codes "a") 3 ≡ (
    if same_key (codes "docs") (codes "acme") (codes "a") (codes "docs") (codes "acme") (codes "a")
      && leb 1 3
    then some (mutated docs note 1 default_store)
    else view_at default_store (codes "docs") (codes "acme") (codes "a") 3)
apply_mutation-reads_example =
    apply_mutation-reads docs note 1 3 default_store (codes "docs") (codes "acme") (codes "a")
      note_stored

note-replaced : (apply_replacement docs note 2 stored).0 ≡ ok (replaced docs note 2)
unfolding apply_replacement build_replacement_record validate_record_identity Map.get text_eq
    validate_vector_dimensions values replacement_fields Map.insert text_cmp
note-replaced = refl

apply_replacement-reads_example :
    view_at (apply_replacement docs note 2 stored).1 (codes "docs") (codes "acme") (codes "a") 3 ≡ (
      if same_key
          (codes "docs")
          (codes "acme")
          (codes "a")
          (codes "docs")
          (codes "acme")
          (codes "a")
        && leb 2 3
      then some (replaced docs note 2)
      else view_at stored (codes "docs") (codes "acme") (codes "a") 3)
apply_replacement-reads_example =
    apply_replacement-reads docs note 2 3 stored (codes "docs") (codes "acme") (codes "a")
      note-replaced

note_deleted :
    (apply_delete docs removal 2 stored).0
    ≡ ok (tombstone_version removal 2 (mutated docs note 1 default_store))
unfolding apply_delete apply_mutation validate_deletion_identity text_eq tracedb.Base.trim Map.get
    validate_record_identity validate_vector_dimensions values merge_fields Map.extend Map.insert
    versions_at text_cmp tracedb.Store.Record.put_versions record_key
    tracedb.Store.Record.close_current
note_deleted = refl

apply_delete-reads_example :
    view_at (apply_delete docs removal 2 stored).1 (codes "docs") (codes "acme") (codes "a") 3 ≡ (
      if same_key
          (codes "docs")
          (codes "acme")
          (codes "a")
          (codes "docs")
          (codes "acme")
          (codes "a")
        && leb 2 3
      then none
      else view_at stored (codes "docs") (codes "acme") (codes "a") 3)
apply_delete-reads_example =
    apply_delete-reads docs removal 1 2 3 stored (codes "docs") (codes "acme") (codes "a")
      (omega arith) stored-IsVersioned note_deleted

record_key-injective_example :
    (codes "docs" ≡ codes "docs") × (codes "acme" ≡ codes "acme") × (codes "a" ≡ codes "a")
record_key-injective_example =
    record_key-injective (codes "docs") (codes "acme") (codes "a") (codes "docs") (codes "acme")
      (codes "a") refl refl refl refl refl

record_key-collides_example :
    record_key (codes "docs") (codes "a" ++ (0 ∷ codes "b")) (codes "c")
    ≡ record_key (codes "docs") (codes "a") (codes "b" ++ (0 ∷ codes "c"))
record_key-collides_example = record_key-collides (codes "docs") (codes "a") (codes "b") (codes "c")

plan-agrees_example : PlanAgrees stored default_delta 2 (mutation docs note)
plan-agrees_example = plan-agrees (mutation docs note) stored default_delta 2 tt

after-isolated_example :
    view_at (after (deletion docs removal) 2 stored) (codes "docs") (codes "acme") (codes "a") 1
    ≡ view_at stored (codes "docs") (codes "acme") (codes "a") 1
after-isolated_example =
    after-isolated (deletion docs removal) 2 1 stored (codes "docs") (codes "acme") (codes "a") refl
      (omega arith)
