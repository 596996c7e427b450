-- ===== src/Store/Isolation.antt =====
-- The writes of crates/tracedb-store/src/lib.rs and reads at earlier epochs.
use mathlib.Core.Option
use tracedb.Base.{◌<◌, Text, Option, ◌≡◌}
use tracedb.Core.Types.{Epoch, TableSchema, RecordInput, RecordDeletion, External}
use tracedb.Store.Record.{StoredRecord, RecordStore, record_key}
use tracedb.Store.Read.{get_record}
use tracedb.Store.Apply.{apply_mutation, apply_replacement, apply_delete}
use tracedb.Store.Versions.{forget_end, get_record-eq, closed_view, appended_view, tombstoned_view}
use tracedb.Store.Writes.{
  Writes, kept, closed, appended, tombstoned, apply_mutation-Writes, apply_replacement-Writes,
  apply_delete-Writes,
}

-- What a read gives, but for the end of the version: a later write sets it.
abbrev pub view_at :
    {V : Type 0} → RecordStore V → Text → Text → Text → Epoch → Option (StoredRecord V)
view_at s t n i e = Option.map forget_end (get_record s t n i e)

module _ {V : Type 0} (e e' : Epoch) (before : e' < e) (s s' : RecordStore V) (k t n i : Text) where
  Writes-view : Writes e k s s' → view_at s' t n i e' ≡ view_at s t n i e'
  Writes-view (kept p) = rw p
  Writes-view (closed p) =
      rw p (simp get_record-eq (closed_view e e' before s k (record_key t n i)))
  Writes-view (appended new b o key p) =
      rw p (simp get_record-eq (appended_view e e' before s k (record_key t n i) new b))
  Writes-view (tombstoned previous new l b o d key p) =
      rw p (simp get_record-eq (tombstoned_view e e' before s k (record_key t n i) new b))

module _ {V : Type 0} ⦃x : External V⦄ where
  -- A mutation at epoch `e`, whether it succeeds or fails, leaves what a read of any record at an
  -- earlier epoch returns, but for the end of the version that is returned.
  pub apply_mutation-isolated :
      (schema : TableSchema) (m : RecordInput V) (e e' : Epoch) (s : RecordStore V) (t n i : Text)
      → e' < e
      → view_at (apply_mutation schema m e s).1 t n i e' ≡ view_at s t n i e'
  apply_mutation-isolated schema m e e' s t n i h =
      Writes-view e e' h s _ (record_key m.table m.tenant_id m.id) t n i
        (apply_mutation-Writes schema m e s)

  -- A replacement at epoch `e`, whether it succeeds or fails, leaves what a read of any record at an
  -- earlier epoch returns, but for the end of the version that is returned.
  pub apply_replacement-isolated :
      (schema : TableSchema) (m : RecordInput V) (e e' : Epoch) (s : RecordStore V) (t n i : Text)
      → e' < e
      → view_at (apply_replacement schema m e s).1 t n i e' ≡ view_at s t n i e'
  apply_replacement-isolated schema m e e' s t n i h =
      Writes-view e e' h s _ (record_key m.table m.tenant_id m.id) t n i
        (apply_replacement-Writes schema m e s)

module _ {V : Type 0} where
  -- A deletion at epoch `e`, whether it succeeds or fails, leaves what a read of any record at an
  -- earlier epoch returns, but for the end of the version that is returned.
  pub apply_delete-isolated :
      (schema : TableSchema) (d : RecordDeletion) (e e' : Epoch) (s : RecordStore V) (t n i : Text)
      → e' < e
      → view_at (apply_delete schema d e s).1 t n i e' ≡ view_at s t n i e'
  apply_delete-isolated schema d e e' s t n i h =
      Writes-view e e' h s _ (record_key d.table d.tenant_id d.id) t n i
        (apply_delete-Writes schema d e s)
