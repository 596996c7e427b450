-- ===== src/Store/Writes.antt =====
-- What each write leaves, on every branch.
use tracedb.Base.{
  Text, false, not, none, some, [], ◌∷◌, ◌++◌, ◌≡◌, refl, arith, find_last, is_none, is_empty, ok,
  ensure, ok_or, ok_or-eq-ok, ap,
}
use tracedb.Base.Map
use tracedb.Base.Exec.{lift-keeps}
use tracedb.Core.Types.{Epoch, TableSchema, RecordInput, RecordDeletion, External}
use tracedb.Store.Record.{
  StoredRecord, RecordStore, record_key, is_live, close_current, versions_at, put_versions,
}
use tracedb.Store.Validate.{
  validate_record_identity, validate_vector_dimensions, validate_deletion_identity,
}
use tracedb.Store.Build.{build_replacement_record, new_version, replacement_fields, build_features}
use tracedb.Store.Apply.{
  install_replacement, close_live, apply_mutation, apply_replacement, apply_delete,
  tombstone_version,
}
use tracedb.Store.Versions.{put_versions_twice}

-- The key that a record's header makes.
abbrev pub key_of : {V : Type 0} → StoredRecord V → Text
key_of r = record_key r.header.table_id r.header.tenant_id r.header.record_id

-- What a write at `e` may leave at its key: the versions as they were, the open one ended, or the
-- open one ended and a new open version behind it. A deletion ends the live version and adds a
-- tombstone.
pub data Writes {V : Type 0} (e : Epoch) (k : Text) (s s' : RecordStore V) : Type 0 where
  kept : s' ≡ s → Writes e k s s'
  closed : s' ≡ put_versions k (close_current e (versions_at k s)) s → Writes e k s s'
  appended :
      (new : StoredRecord V)
      → new.header.begin_epoch ≡ e
      → new.header.end_epoch ≡ none
      → key_of new ≡ k
      → s' ≡ put_versions k (close_current e (versions_at k s) ++ new ∷ []) s
      → Writes e k s s'
  tombstoned :
      (previous new : StoredRecord V)
      → find_last is_live (versions_at k s) ≡ some previous
      → new.header.begin_epoch ≡ e
      → new.header.end_epoch ≡ none
      → is_none new.header.tombstone ≡ false
      → key_of new ≡ k
      → s' ≡ put_versions k (close_live e (versions_at k s) ++ new ∷ []) s
      → Writes e k s s'

module _ {V : Type 0} ⦃x : External V⦄ where
  -- What a replacement that passes the checks stores, and where.
  pub build_replacement_record-eq_ok :
      (schema : TableSchema) (m : RecordInput V) (e : Epoch) {b : Text × StoredRecord V}
      → build_replacement_record schema m e ≡ ok b
      → (b.0 ≡ record_key m.table m.tenant_id m.id)
        × (b.1
            ≡ new_version m e
                (replacement_fields schema m)
                (build_features schema m (replacement_fields schema m) none e))
  unfolding build_replacement_record
  build_replacement_record-eq_ok schema m e h = ground arith

  pub apply_mutation-Writes :
      (schema : TableSchema) (m : RecordInput V) (e : Epoch) (s : RecordStore V)
      → Writes e (record_key m.table m.tenant_id m.id) s (apply_mutation schema m e s).1
  unfolding apply_mutation
  apply_mutation-Writes schema m e s =
      let k = record_key m.table m.tenant_id m.id in
      lift-keeps (Writes e k s) (validate_record_identity schema m none) _ s (kept refl) λ _ _.
        lift-keeps (Writes e k s) (validate_vector_dimensions schema m) _ s (kept refl) λ _ _.
          lift-keeps (Writes e k s) (ensure (not (is_empty m.tenant_id)) _) _ s (kept refl) λ _ _.
            lift-keeps (Writes e k s) (validate_record_identity schema m (some _)) _ _ (closed refl)
              λ _ _. appended _ refl refl refl (put_versions_twice k _ _ s)

  pub apply_replacement-Writes :
      (schema : TableSchema) (m : RecordInput V) (e : Epoch) (s : RecordStore V)
      → Writes e (record_key m.table m.tenant_id m.id) s (apply_replacement schema m e s).1
  unfolding apply_replacement install_replacement
  apply_replacement-Writes schema m e s =
      let k = record_key m.table m.tenant_id m.id in
      lift-keeps (Writes e k s) (build_replacement_record schema m e) _ s (kept refl) λ b built.
        let (at, is) = build_replacement_record-eq_ok schema m e built in
        appended b.1 (ap (λ (r : StoredRecord V). r.header.begin_epoch) is)
          (ap (λ (r : StoredRecord V). r.header.end_epoch) is) (rw is) (rw at)

module _ {V : Type 0} where
  pub apply_delete-Writes :
      (schema : TableSchema) (d : RecordDeletion) (e : Epoch) (s : RecordStore V)
      → Writes e (record_key d.table d.tenant_id d.id) s (apply_delete schema d e s).1
  unfolding apply_delete versions_at
  apply_delete-Writes schema d e s =
      let k = record_key d.table d.tenant_id d.id in
      lift-keeps (Writes e k s) (validate_deletion_identity schema d) _ s (kept refl) λ _ _.
        lift-keeps (Writes e k s) (ok_or (Map.get k s.versions) _) _ s (kept refl) λ vs found.
          lift-keeps (Writes e k s) (ok_or (find_last is_live vs) _) _ s (kept refl)
            λ previous live.
              let at : versions_at k s ≡ vs = rw (ok_or-eq-ok (Map.get k s.versions) _ found) in
              tombstoned previous (tombstone_version d e previous)
                (rw at (ok_or-eq-ok (find_last is_live vs) _ live)) refl refl refl refl (rw at)
