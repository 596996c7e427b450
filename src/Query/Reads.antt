-- ===== src/Query/Reads.antt =====
-- crates/tracedb-query/src/lib.rs: the reads of records by key and page by page.
use tracedb.Base.{
  ℕ, ◌+◌, ◌-◌, ◌^◌, min, Text, codes, text_eq, decimal, Option, none, some, List, ◌++◌, map, take,
  drop, length, ltb, ◌==◌, if◌then◌else◌, Result, ok, ensure, ◌>>=◌, ◌>>◌,
}
use mathlib.Core.Option
use tracedb.Base.Map.{Map}
use tracedb.Core.Error.{TraceDbError, invalid_command}
use tracedb.Core.Types.{Epoch, VersionId}
use tracedb.Policy.Oracle.{ActorContext}
use tracedb.Store.Record.{StoredRecord}
use tracedb.Store.Replay.{known_table}
use tracedb.Store.Read.{get_record, visible_records_at, sort_by_id}
use tracedb.Engine.State.{TraceDb}
use tracedb.Query.Cursor.{
  CursorHost, RecordScanRequest, parse_legacy_cursor_offset, cursor_scope_for_scan,
  resolve_cursor_state, encode_next_cursor,
}

pub record RecordGetRequest : Type 0 where
  pub table : Text
  pub tenant_id : Text
  pub id : Text

pub record RecordOutput (V : Type 0) : Type 0 where
  pub table : Text
  pub id : Text
  pub tenant_id : Text
  pub version_id : VersionId
  pub fields : Map V

pub record RecordScanOutput (V : Type 0) : Type 0 where
  pub records : List (RecordOutput V)
  pub returned_count : ℕ
  pub next_cursor : Option Text

unfoldable pub validate_actor_tenant : ActorContext → Text → Result TraceDbError Unit
validate_actor_tenant actor tenant_id = ensure (text_eq actor.tenant_id tenant_id) (
    invalid_command
      (codes "actor tenant " ++ (actor.tenant_id ++ (codes " cannot query tenant " ++ tenant_id))))

-- `request.limit.max(1)`.
abbrev pub page_limit : ℕ → ℕ
page_limit limit = if limit == 0 then 1 else limit

module _ {V : Type 0} where
  abbrev pub record_output : StoredRecord V → RecordOutput V
  record_output r = record {
    table = r.header.table_id;
    id = r.header.record_id;
    tenant_id = r.header.tenant_id;
    version_id = r.header.version_id;
    fields = r.fields;
  }

  unfoldable pub get : TraceDb V → RecordGetRequest → Result TraceDbError (Option (RecordOutput V))
  get db request = do
    known_table request.table db.manifest.schemas
    ok (
        Option.map record_output
          (get_record db.store request.table request.tenant_id request.id db.manifest.latest_epoch))

  unfoldable pub get_as :
      TraceDb V → ActorContext → RecordGetRequest → Result TraceDbError (Option (RecordOutput V))
  unfolding get
  get_as db actor request = do validate_actor_tenant actor request.tenant_id; get db request

  -- The records of a table and a tenant at an epoch, in the order of their ids.
  unfoldable pub rows : TraceDb V → Text → Text → Epoch → List (RecordOutput V)
  rows db table tenant_id epoch =
      map record_output (sort_by_id (visible_records_at db.store table tenant_id epoch))

  -- `skip(offset).take(limit.saturating_add(1))`.
  abbrev pub page_at : ℕ → ℕ → List (RecordOutput V) → List (RecordOutput V)
  page_at offset limit records = take (min (limit + 1) (2 ^ 64 - 1)) (drop offset records)

  unfoldable pub scan : TraceDb V → RecordScanRequest → Result TraceDbError (RecordScanOutput V)
  unfolding rows
  scan db request = do
    known_table request.table db.manifest.schemas
    let limit = page_limit request.limit
    cursor_offset ← parse_legacy_cursor_offset request.cursor
    let page =
        page_at cursor_offset limit
          (rows db request.table request.tenant_id db.manifest.latest_epoch)
    let records = take limit page
    ok (record {
      next_cursor =
          if ltb limit (length page) then some (decimal (cursor_offset + length records)) else none;
      returned_count = length records;
      records = records;
    })

  -- `now` is `now_unix_secs()`.
  unfoldable pub scan_as :
      CursorHost
      → TraceDb V
      → ActorContext
      → RecordScanRequest
      → ℕ
      → Result TraceDbError (RecordScanOutput V)
  scan_as host db actor request now = do
    validate_actor_tenant actor request.tenant_id
    known_table request.table db.manifest.schemas
    let limit = page_limit request.limit
    let scope = cursor_scope_for_scan host actor request limit
    cursor ← resolve_cursor_state host scope request.cursor db.manifest.latest_epoch now
    let page =
        page_at cursor.offset limit (rows db request.table request.tenant_id cursor.snapshot_epoch)
    let records = take limit page
    next_cursor ←
        if ltb limit (length page)
        then (do
          token ←
              encode_next_cursor host scope (cursor.offset + length records) cursor.snapshot_epoch
                now
          ok (some token))
        else ok none
    ok (record { next_cursor = next_cursor; returned_count = length records; records = records })
