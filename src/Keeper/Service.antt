-- ===== src/Keeper/Service.antt =====
-- crates/tracedb-keeper/src/lib.rs: `BranchWalService`, its commits and its durable file.
use tracedb.Base.{
  ℕ, ◌+◌, ◌%◌, ◌^◌, Text, codes, Bool, Option, none, some, List, [], ◌∷◌, ◌++◌, is_empty, unwrap_or,
  Result, ok, err, if◌then◌else◌,
}
use tracedb.Base.Exec.{Exec, pure, lift, ◌>>=◌, ◌>>◌}
use tracedb.Base.Map
use tracedb.Base.Map.{Map}

pub record CommitRequest : Type 0 where
  pub branch_id : Text
  pub idempotency_key : Text
  pub payload : Text

pub record CommitAck : Type 0 where
  pub branch_id : Text
  pub epoch : ℕ
  pub idempotency_key : Text

pub record DurableCommit : Type 0 where
  pub branch_id : Text
  pub epoch : ℕ
  pub idempotency_key : Text
  pub payload : Text

pub record BranchWalService : Type 0 where
  pub next_epoch : Map ℕ
  pub idempotent : Map CommitAck
  pub commit_log : List DurableCommit
  pub durable_path : Option Text

abbrev pub default_service : BranchWalService
default_service = record {
  next_epoch = Map.empty;
  idempotent = Map.empty;
  commit_log = [];
  durable_path = none;
}

-- What the service takes from the standard library and serde_json, over a state `W` of the file
-- system: the trait `DurableWriteOps`, two operations on paths, and the encoding of the service.
pub record Host (W : Type 0) : Type 0 where
  pub exists : Text → W → Bool
  pub read : Text → Exec W Text (List ℕ)
  pub create_dir_all : Text → Exec W Text Unit
  pub write_file : Text → List ℕ → Exec W Text Unit
  pub sync_file : Text → Exec W Text Unit
  pub rename : Text → Text → Exec W Text Unit
  pub sync_dir : Text → Exec W Text Unit
  pub parent : Text → Option Text
  pub with_extension : Text → Text → Text
  pub from_slice : List ℕ → Result Text BranchWalService
  pub to_vec_pretty : BranchWalService → Result Text (List ℕ)

-- `format!("{branch_id}\u{1f}{idempotency_key}")`.
unfoldable pub idempotency_key : Text → Text → Text
idempotency_key branch_id key = branch_id ++ (0x1f ∷ key)

module _ {W : Type 0} (host : Host W) where
  abbrev pub non_empty_parent : Text → Option Text
  non_empty_parent path = elim (host.parent path) [
    | none ↦ none
    | some parent ↦ if is_empty parent then none else some parent
  ]

  -- An operation on the parent, where there is one.
  abbrev on_parent : (Text → Exec W Text Unit) → Option Text → Exec W Text Unit
  on_parent op none = pure tt
  on_parent op (some parent) = op parent

  unfoldable pub persist_body_with_ops : Text → List ℕ → Exec W Text Unit
  persist_body_with_ops path body = do
    on_parent host.create_dir_all (non_empty_parent path)
    host.write_file (host.with_extension path (codes "json.tmp")) body
    host.sync_file (host.with_extension path (codes "json.tmp"))
    host.rename (host.with_extension path (codes "json.tmp")) path
    on_parent host.sync_dir (non_empty_parent path)

  unfoldable pub persist : BranchWalService → Exec W Text Unit
  unfolding persist_body_with_ops
  persist s = elim s.durable_path [
    | none ↦ pure tt
    | some path ↦ lift (host.to_vec_pretty s) >>= persist_body_with_ops path
  ]

  unfoldable pub open_service : Text → Exec W Text BranchWalService
  open_service path w =
      if host.exists path w
      then (do
        body ← host.read path
        service ← lift (host.from_slice body)
        pure (record service { durable_path = some path }))
          w
      else (ok (record default_service { durable_path = some path }), w)

-- The epoch that the branch is given next; the counter is a `u64`.
abbrev pub epoch_of : BranchWalService → Text → ℕ
epoch_of s branch_id = unwrap_or (Map.get branch_id s.next_epoch) 1

abbrev pub ack_of : BranchWalService → CommitRequest → CommitAck
ack_of s request = record {
  branch_id = request.branch_id;
  epoch = epoch_of s request.branch_id;
  idempotency_key = request.idempotency_key;
}

-- The service after a new commit, before it is written to disk.
unfoldable pub recorded : CommitRequest → BranchWalService → BranchWalService
unfolding idempotency_key
recorded request s = record s {
  next_epoch =
      Map.insert request.branch_id ((epoch_of s request.branch_id + 1) % 2 ^ 64) s.next_epoch;
  idempotent =
      Map.insert (idempotency_key request.branch_id request.idempotency_key) (ack_of s request)
        s.idempotent;
  commit_log =
      s.commit_log
      ++ record {
        branch_id = request.branch_id;
        epoch = epoch_of s request.branch_id;
        idempotency_key = request.idempotency_key;
        payload = request.payload;
      }
        ∷ [];
}

-- `persist()?; Ok(ack)`.
abbrev acknowledged : Result Text Unit → CommitAck → Result Text CommitAck
acknowledged (ok _) ack = ok ack
acknowledged (err e) ack = err e

module _ {W : Type 0} (host : Host W) where
  unfoldable pub commit : CommitRequest → Exec (BranchWalService × W) Text CommitAck
  unfolding recorded persist idempotency_key
  commit request (s, w) =
      elim (Map.get (idempotency_key request.branch_id request.idempotency_key) s.idempotent) [
        | some existing ↦ (ok existing, (s, w))
        | none ↦
            let s' = recorded request s in
            let r = persist host s' w in (acknowledged r.0 (ack_of s request), (s', r.1))
      ]

  -- The service after a list of calls, failed ones included.
  abbrev pub commit_all : List CommitRequest → BranchWalService × W → BranchWalService × W
  commit_all [] s = s
  commit_all (request ∷ requests) s = commit_all requests (commit request s).1
