-- ===== src/Engine/OnFile.antt =====
-- crates/tracedb-query/src/lib.rs on crates/tracedb-log/src/lib.rs: a `TraceDb` whose commits go to
-- the file of its `Wal`, and what its calls append.
use tracedb.Base.{
  ◌+◌, ◌<◌, ◌^◌, Bool-cases, Result, ◌⊎◌, true, Option, List, [], ◌∷◌, ◌++◌, if◌then◌else◌, all,
  &&_iff, is_ok, ◌≡◌, inl, inr, refl, arith, ok, err,
}
use tracedb.Core.Error.{TraceDbError}
use tracedb.Log.Commit.{Lsn, CommitRecord, Codec, EncryptionContext}
use tracedb.Log.File.{Wal, append_commit}
use tracedb.Log.Built.{is_committed}
use tracedb.Log.Recovery.{empty_wal, append_all}
use tracedb.Engine.State.{TraceDb, Host}
use tracedb.Engine.Append.{IsWhole}
use tracedb.Engine.Appends.{Appends, IsNext-is_committed}

module _ {V : Type 0} (codec : Codec V) (encryption : Option EncryptionContext) where
  -- The log that commits leave.
  abbrev pub wal_of : List (CommitRecord V) → Wal
  wal_of log = (append_all codec encryption log empty_wal).1

  abbrev outcome :
      CommitRecord V
      → List (CommitRecord V)
      → Result TraceDbError Lsn
      → Result TraceDbError Unit × List (CommitRecord V)
  outcome commit log (ok _) = (ok tt, log ++ commit ∷ [])
  outcome commit log (err e) = (err e, log)

  -- `self.wal.append_commit(&commit)?` on the log that the commits so far have left, with an operating
  -- system that writes all that it is given: an append that fails has written nothing.
  abbrev pub on_file : Host V → Host V
  on_file host = record host {
    append_commit =
        λ commit log. outcome commit log (append_commit codec encryption commit (wal_of log)).0;
  }

  -- Every commit of the log was acknowledged, and has the marker and a parent epoch below its own.
  pub record IsStored (log : List (CommitRecord V)) : Type 0 where
    pub acknowledged : (append_all codec encryption log empty_wal).0 ≡ log
    pub committed : all is_committed log ≡ true

  outcome-cases :
      (c : CommitRecord V) (log : List (CommitRecord V)) (r : Result TraceDbError Lsn)
      → (outcome c log r ≡ (ok tt, log ++ c ∷ []))
        ⊎ ((e : TraceDbError) × (outcome c log r ≡ (err e, log)))
  outcome-cases c log (ok _) = inl refl
  outcome-cases c log (err e) = inr (e, refl)

  pub on_file-IsWhole : (host : Host V) → IsWhole (on_file host)
  on_file-IsWhole host c log = outcome-cases c log (append_commit codec encryption c (wal_of log)).0

  append_all-append :
      (log : List (CommitRecord V)) (c : CommitRecord V) (w : Wal)
      → (append_all codec encryption (log ++ c ∷ []) w).0
        ≡ (append_all codec encryption log w).0
          ++ (if is_ok (append_commit codec encryption c (append_all codec encryption log w).1).0
              then c ∷ []
              else [])
  append_all-append [] c w = refl
  append_all-append (a ∷ log) c w =
      let later = append_all-append log c (append_commit codec encryption a w).1 in
      elim (Bool-cases (is_ok (append_commit codec encryption a w).0)) [
        | inl stored ↦ rw (stored, later) refl
        | inr failed ↦ rw (failed, later) refl
      ]

  all-append :
      (log : List (CommitRecord V)) (c : CommitRecord V)
      → all is_committed log ≡ true
      → is_committed c ≡ true
      → all is_committed (log ++ c ∷ []) ≡ true
  all-append [] c log_is here = rw here refl
  all-append (a ∷ log) c log_is here =
      let (first, rest) = (&&_iff (is_committed a) (all is_committed log)).0 log_is in
      (&&_iff (is_committed a) _).1 (first, all-append log c rest here)

  on_file-stored :
      (host : Host V) (log : List (CommitRecord V)) (c : CommitRecord V)
      → (on_file host).append_commit c log ≡ (ok tt, log ++ c ∷ [])
      → is_ok (append_commit codec encryption c (wal_of log)).0 ≡ true
  on_file-stored host log c h = ground arith

  pub Appends-IsStored :
      (host : Host V) (db after : TraceDb V)
      → IsStored db.log
      → db.manifest.latest_epoch + 1 < 2 ^ 64
      → Appends (on_file host) db after
      → IsStored after.log
  Appends-IsStored host db after h room (inl (same, _)) = rw same h
  Appends-IsStored host db after h room (inr (c, next, stored, grown, _)) = rw grown (record {
    acknowledged =
        rw
          (
            append_all-append db.log c empty_wal,
            h.acknowledged,
            on_file-stored host db.log c stored,
          )
          refl;
    committed = all-append db.log c h.committed (IsNext-is_committed db c next room);
  })
