-- ===== src/Engine/Tests.antt =====
-- Runs of the engine on the sample of the store.
use tracedb.Base.{
  ℕ, ◌+◌, ◌≤◌, ◌%◌, ◌^◌, ◌++◌, inl, length, Text, codes, false, true, Bool, Option, none, some,
  List, [], ◌∷◌, ◌≡◌, refl, arith, ok, err, Result, is_ok,
}
use tracedb.Core.Error.{manifest_corruption}
use tracedb.Core.Types.{TableSchema, RecordInput}
use tracedb.Store.Sample.{Value, values, text}
use tracedb.Engine.State.{TraceDb, TraceDbManifest, Host}
use tracedb.Log.Commit.{CommitRecord}
use tracedb.Engine.Append.{IsWhole}
use tracedb.Engine.Writes.{put_batch}
use tracedb.Engine.Calls.{
  Call, inserting, putting, deleting, setting_status, applying, created, call_all, call_all-latest,
}

-- Files that always take what is written.
abbrev host : Host Value
host = record {
  append_commit = λ commit log. (ok tt, log ++ commit ∷ []);
  read_checkpoint_file = λ epoch. err (manifest_corruption []);
  write_manifest = λ manifest. ok tt;
  write_job_catalog_file = λ catalog. ok tt;
  epoch_response = λ epoch. epoch ∷ [];
  batch_response = λ epoch n. epoch ∷ n ∷ [];
  deleted_response = λ epoch. epoch ∷ [];
}

host-IsWhole : IsWhole host
host-IsWhole c log = inl refl

-- A table with a vector column of one dimension.
abbrev tiny : TableSchema
tiny = record {
  name = codes "t";
  primary_id_column = codes "i";
  tenant_id_column = codes "u";
  scalar_columns = codes "b" ∷ [];
  text_indexed_columns = [];
  vector_columns =
      record { name = codes "v"; dimensions = 1; source_columns = codes "b" ∷ [] } ∷ [];
}

abbrev row : Text → RecordInput Value
row tenant_id = record {
  table = codes "t";
  id = codes "a";
  tenant_id = tenant_id;
  fields = (codes "b", text (codes "x")) ∷ [];
}

abbrev calls : List (Call Value)
calls = applying tiny none ∷ inserting (row (codes "u")) none ∷ putting (row (codes "u")) none ∷ []

abbrev start : TraceDb Value
start = created (codes "db")

call_all-latest_example :
    (appended : List (CommitRecord Value)) × ((call_all host calls start).log
      ≡ start.log ++ appended)
    × (length appended ≤ length calls)
    × ((call_all host calls start).manifest.latest_epoch
        ≡ (start.manifest.latest_epoch + length appended) % 2 ^ 64)
unfolding created
call_all-latest_example = call_all-latest host host-IsWhole calls start (omega arith)
