-- ===== src/Engine/Append.antt =====
-- crates/tracedb-query/src/lib.rs: the step that appends a commit to the log.
use tracedb.Base.{List, [], ◌∷◌, ◌++◌, ◌≡◌, ◌⊎◌, inl, inr, ok, err}
use tracedb.Base.Exec.{Exec, ◌>>=◌}
use tracedb.Core.Error.{TraceDbError}
use tracedb.Log.Commit.{CommitRecord}
use tracedb.Engine.State.{TraceDb, Host, append_to_log}

-- The operating system writes all that it is given, and JSON gives back the commit: an append is
-- acknowledged and the log then scans to the commit as well, or it fails before it writes, as in the
-- encoding of the commit, and leaves the log.
abbrev pub IsWhole : {V : Type 0} → Host V → Type 0
IsWhole {V} host =
    (c : CommitRecord V) (log : List (CommitRecord V))
    → (host.append_commit c log ≡ (ok tt, log ++ c ∷ []))
      ⊎ ((e : TraceDbError) × (host.append_commit c log ≡ (err e, log)))

-- A property of the state that is left by an append and by what follows.
pub append-keeps {κ} :
    {V B : Type 0} (P : TraceDb V → Type κ) (host : Host V) (whole : IsWhole host)
    (c : CommitRecord V) (f : Unit → Exec (TraceDb V) TraceDbError B) (db : TraceDb V)
    → P db
    → (host.append_commit c db.log ≡ (ok tt, db.log ++ c ∷ [])
        → P (f tt (record db { log = db.log ++ c ∷ [] })).1)
    → P ((append_to_log host c >>= f) db).1
unfolding append_to_log
append-keeps P host whole c f db before after = elim (whole c db.log) [
  | inl taken ↦ rw taken (after taken)
  | inr (e, refused) ↦ rw refused before
]
