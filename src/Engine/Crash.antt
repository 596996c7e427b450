-- ===== src/Engine/Crash.antt =====
-- crates/tracedb-query/src/lib.rs on crates/tracedb-log/src/lib.rs: opening a database again from the
-- bytes that a crash leaves.
use tracedb.Base.{ℕ, Option, List, ◌≡◌, map, Result, ok, err}
use tracedb.Core.Error.{TraceDbError}
use tracedb.Core.Types.{External}
use tracedb.Log.Commit.{Codec, EncryptionContext}
use tracedb.Log.Scan.{WalScan, scan_file}
use tracedb.Log.File.{Wal, open_with_encryption}
use tracedb.Log.Recovery.{forget_hash}
use tracedb.Store.PlanApply.{SameVersions}
use tracedb.Engine.State.{TraceDb, TraceDbManifest, Host}
use tracedb.Engine.Open.{open_database}
use tracedb.Engine.OnFile.{wal_of}

module _ {V : Type 0} where
  -- `Restores`, with a log of the same commits, each but for the hash of the one before.
  abbrev pub Recovers : TraceDb V → Result TraceDbError (TraceDb V) → Type 0
  Recovers db (ok opened) =
      SameVersions opened.store db.store
      × (opened.manifest.schemas ≡ db.manifest.schemas)
      × (opened.manifest.latest_epoch ≡ db.manifest.latest_epoch)
      × (opened.idempotency_receipts ≡ db.idempotency_receipts)
      × (opened.job_catalog ≡ db.job_catalog)
      × (map forget_hash opened.log ≡ map forget_hash db.log)
  Recovers db (err _) = ⊥

module _ {V : Type 0} ⦃x : External V⦄ (codec : Codec V)
    (encryption : Option EncryptionContext) where
  -- The log opens on the bytes and holds what the file of the database held; the database opens on
  -- the commits of its scan.
  abbrev pub OpensAs : Host V → TraceDbManifest → TraceDb V → List ℕ → Type 0
  OpensAs host manifest db file =
      (w : Wal) × (open_with_encryption codec encryption file ≡ ok w)
      × (w.file ≡ (wal_of codec encryption db.log).file)
      × (scan : WalScan V) × (scan_file codec encryption w.file ≡ ok scan)
      × Recovers db (open_database host manifest (map (λ e. e.commit) scan.entries))
