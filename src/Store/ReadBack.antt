-- ===== src/Store/ReadBack.antt =====
-- The writes of crates/tracedb-store/src/lib.rs and the reads after them.
use mathlib.Core.Option
use tracedb.Base.{
  ◌≤◌, Text, text_eq, Bool, false, ◌&&◌, none, some, List, [], ◌∷◌, ◌++◌, ◌≡◌, refl, arith,
  find_last, find_last-append_one, find_last-none_of_any, any, leb, Bool-cases, inl, inr, is_none,
  ok, if◌then◌else◌, Option-cases,
}
use tracedb.Core.Types.{Epoch, TableSchema, RecordInput, RecordDeletion, External}
use tracedb.Store.Record.{
  StoredRecord, RecordStore, record_key, is_live, close_current, versions_at, put_versions,
}
use tracedb.Store.Build.{
  build_replacement_record, new_version, merge_fields, replacement_fields, build_features,
}
use tracedb.Store.Read.{covers, is_visible, visible_record_at}
use tracedb.Store.Apply.{
  install_replacement, close_live, apply_mutation, apply_replacement, apply_delete,
  tombstone_version,
}
use tracedb.Store.Versions.{
  get_record-eq, versions_at-put_versions, put_versions_twice, forget_end, appended_view,
}
use tracedb.Store.Isolation.{view_at}
use tracedb.Store.Invariant.{IsVersioned}
use tracedb.Store.Chain.{close_live-eq, closed_covers, close_current-IsClosedChain}

module _ {V : Type 0} ⦃x : External V⦄ where
  -- The version that a mutation stores.
  abbrev pub mutated : TableSchema → RecordInput V → Epoch → RecordStore V → StoredRecord V
  mutated schema m e s =
      let previous = find_last is_live (versions_at (record_key m.table m.tenant_id m.id) s) in
      let fields = merge_fields schema m previous in
      new_version m e fields (build_features schema m fields previous e)

  -- The version that a replacement stores.
  abbrev pub replaced : TableSchema → RecordInput V → Epoch → StoredRecord V
  replaced schema m e =
      new_version m e (replacement_fields schema m)
        (build_features schema m (replacement_fields schema m) none e)

  pub apply_mutation-eq_ok :
      (schema : TableSchema) (m : RecordInput V) (e : Epoch) (s : RecordStore V)
      {r : StoredRecord V}
      → (apply_mutation schema m e s).0 ≡ ok r
      → let k = record_key m.table m.tenant_id m.id in
        (r ≡ mutated schema m e s)
        × ((apply_mutation schema m e s).1
            ≡ put_versions k (close_current e (versions_at k s) ++ r ∷ []) s)
  unfolding apply_mutation
  apply_mutation-eq_ok schema m e s {r} h = ground (
    arith,
    put_versions_twice (record_key m.table m.tenant_id m.id)
        (close_current e (versions_at (record_key m.table m.tenant_id m.id) s) ++ r ∷ [])
        (close_current e (versions_at (record_key m.table m.tenant_id m.id) s)) s,
  )

  pub apply_replacement-eq_ok :
      (schema : TableSchema) (m : RecordInput V) (e : Epoch) (s : RecordStore V)
      {r : StoredRecord V}
      → (apply_replacement schema m e s).0 ≡ ok r
      → let k = record_key m.table m.tenant_id m.id in
        (r ≡ replaced schema m e)
        × ((apply_replacement schema m e s).1
            ≡ put_versions k (close_current e (versions_at k s) ++ r ∷ []) s)
  unfolding apply_replacement install_replacement build_replacement_record
  apply_replacement-eq_ok schema m e s {r} h = ground arith

module _ {V : Type 0} where
  pub apply_delete-eq_ok :
      (schema : TableSchema) (d : RecordDeletion) (e : Epoch) (s : RecordStore V)
      {r : StoredRecord V}
      → (apply_delete schema d e s).0 ≡ ok r
      → let k = record_key d.table d.tenant_id d.id in
        (previous : StoredRecord V) × (find_last is_live (versions_at k s) ≡ some previous)
        × (r ≡ tombstone_version d e previous)
        × ((apply_delete schema d e s).1
            ≡ put_versions k (close_live e (versions_at k s) ++ r ∷ []) s)
  unfolding apply_delete versions_at
  apply_delete-eq_ok schema d e s {r} h =
      elim (Option-cases
        (find_last is_live (versions_at (record_key d.table d.tenant_id d.id) s))) [
          | inl absent ↦ absurd (ground arith)
          | inr (previous, live) ↦ (previous, live, ground arith, ground arith)
        ]

  visible_covers :
      (e : Epoch) (rs : List (StoredRecord V))
      → any (covers e) rs ≡ false
      → any (is_visible e) rs ≡ false
  visible_covers e [] h = refl
  visible_covers e (r ∷ rs) h = ground (arith, visible_covers e rs)

  -- Reads after a write that appends a live version.
  appended_reads :
      (e e' : Epoch) (s : RecordStore V) (k j : Text) (r : StoredRecord V)
      → r.header.begin_epoch ≡ e
      → r.header.end_epoch ≡ none
      → r.header.tombstone ≡ none
      → Option.map forget_end (
          visible_record_at
            (versions_at j (put_versions k (close_current e (versions_at k s) ++ r ∷ []) s))
            e')
        ≡ (if text_eq j k && leb e e'
            then some (forget_end r)
            else Option.map forget_end (visible_record_at (versions_at j s) e'))
  unfolding visible_record_at
  appended_reads e e' s k j r b o t = elim (Bool-cases (leb e e')) [
    | inl later ↦
        rw versions_at-put_versions (
          ground
            (arith, find_last-append_one (is_visible e') (close_current e (versions_at k s)) r))
    | inr before ↦ ground (arith, appended_view e e' (ground arith) s k j r b)
  ]

  -- Reads after a write that appends a tombstone.
  tombstone_reads :
      (hi e e' : Epoch) (s : RecordStore V) (k j : Text) (r : StoredRecord V)
      → hi ≤ e
      → IsVersioned hi s
      → r.header.begin_epoch ≡ e
      → is_none r.header.tombstone ≡ false
      → Option.map forget_end (
          visible_record_at
            (versions_at j (put_versions k (close_current e (versions_at k s) ++ r ∷ []) s))
            e')
        ≡ (if text_eq j k && leb e e'
            then none
            else Option.map forget_end (visible_record_at (versions_at j s) e'))
  unfolding visible_record_at
  tombstone_reads hi e e' s k j r le h b t = elim (Bool-cases (leb e e')) [
    | inl later ↦ rw versions_at-put_versions (
        ground (
          arith,
          find_last-append_one (is_visible e') (close_current e (versions_at k s)) r,
          find_last-none_of_any (is_visible e') (close_current e (versions_at k s)),
          visible_covers e' (close_current e (versions_at k s)),
          closed_covers 0 e e' (close_current e (versions_at k s)) (ground arith)
              (close_current-IsClosedChain 0 hi e (versions_at k s) le (h.at_key k)),
        ))
    | inr before ↦ ground (arith, appended_view e e' (ground arith) s k j r b)
  ]

-- A read of record (t, n, i) and a write to the key of another are told apart by their keys.
abbrev pub same_key : Text → Text → Text → Text → Text → Text → Bool
same_key t n i t' n' i' = text_eq (record_key t n i) (record_key t' n' i')

module _ {V : Type 0} ⦃x : External V⦄ where
  -- After a mutation at epoch `e` that succeeds with the record `r`, a read of its key from `e` on
  -- returns `r`, but for the end of the version, and every other read, of another key or at an epoch
  -- before, returns what it returned, but for the end of the version.
  pub apply_mutation-reads :
      (schema : TableSchema) (m : RecordInput V) (e e' : Epoch) (s : RecordStore V) (t n i : Text)
      {r : StoredRecord V}
      → (apply_mutation schema m e s).0 ≡ ok r
      → view_at (apply_mutation schema m e s).1 t n i e' ≡ (
          if same_key t n i m.table m.tenant_id m.id && leb e e'
          then some r
          else view_at s t n i e')
  apply_mutation-reads schema m e e' s t n i h =
      let (is, left) = apply_mutation-eq_ok schema m e s h in
      rw left (
        simp get_record-eq (
          rw is (
            appended_reads e e' s (record_key m.table m.tenant_id m.id) (record_key t n i)
              (mutated schema m e s) refl refl refl)))

  -- After a replacement at epoch `e` that succeeds with the record `r`, a read of its key from `e` on
  -- returns `r`, but for the end of the version, and every other read, of another key or at an epoch
  -- before, returns what it returned, but for the end of the version.
  pub apply_replacement-reads :
      (schema : TableSchema) (m : RecordInput V) (e e' : Epoch) (s : RecordStore V) (t n i : Text)
      {r : StoredRecord V}
      → (apply_replacement schema m e s).0 ≡ ok r
      → view_at (apply_replacement schema m e s).1 t n i e' ≡ (
          if same_key t n i m.table m.tenant_id m.id && leb e e'
          then some r
          else view_at s t n i e')
  apply_replacement-reads schema m e e' s t n i h =
      let (is, left) = apply_replacement-eq_ok schema m e s h in
      rw left (
        simp get_record-eq (
          rw is (
            appended_reads e e' s (record_key m.table m.tenant_id m.id) (record_key t n i)
              (replaced schema m e) refl refl refl)))

module _ {V : Type 0} where
  -- In a store whose versions are chains up to `hi`, after a deletion at an epoch `e` from `hi` on
  -- that succeeds, a read of its key from `e` on returns nothing, and every other read returns what
  -- it returned, but for the end of the version.
  pub apply_delete-reads :
      (schema : TableSchema) (d : RecordDeletion) (hi e e' : Epoch) (s : RecordStore V)
      (t n i : Text) {r : StoredRecord V}
      → hi ≤ e
      → IsVersioned hi s
      → (apply_delete schema d e s).0 ≡ ok r
      → view_at (apply_delete schema d e s).1 t n i e'
        ≡ (if same_key t n i d.table d.tenant_id d.id && leb e e' then none else view_at s t n i e')
  apply_delete-reads schema d hi e e' s t n i le v h =
      let k = record_key d.table d.tenant_id d.id in
      let (previous, live, is, left) = apply_delete-eq_ok schema d e s h in
      rw left (
        simp get_record-eq (
          rw (is, close_live-eq 0 hi e (versions_at k s) (v.at_key k) live)
            (tombstone_reads hi e e' s k (record_key t n i) (tombstone_version d e previous) le v
              refl refl)))
