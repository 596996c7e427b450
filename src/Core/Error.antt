-- ===== src/Core/Error.antt =====
-- crates/tracedb-core/src/lib.rs: `TraceDbError`. The payloads of `Io` and `Json`, which other
-- libraries make, are left out.
use tracedb.Base.{ℕ, Text}

pub data TraceDbError : Type 0 where
  io : TraceDbError
  json : TraceDbError
  unknown_table : Text → TraceDbError
  invalid_schema : Text → TraceDbError
  invalid_record : Text → TraceDbError
  invalid_vector_dimensions : Text → ℕ → ℕ → TraceDbError
  wal_corruption : Text → TraceDbError
  manifest_corruption : Text → TraceDbError
  crypto : Text → TraceDbError
  artifact_corruption : Text → TraceDbError
  module_rejected : Text → Text → TraceDbError
  not_found : Text → TraceDbError
  invalid_command : Text → TraceDbError
