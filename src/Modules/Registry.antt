-- ===== src/Modules/Registry.antt =====
-- crates/tracedb-modules/src/lib.rs: modules, what a module says of itself, and the registry. A
-- module is the record of what its methods return.
use tracedb.Base.{
  Text, codes, text_eq, Bool, not, ◌&&◌, List, [], ◌∷◌, ◌++◌, if◌then◌else◌, any, map, is_empty,
  ensure, Result,
}
use tracedb.Base.Exec.{Exec, lift, modify, ◌>>◌}
use tracedb.Core.Error.{TraceDbError, module_rejected}

pub record TypeDescriptor : Type 0 where
  pub type_id : Text

pub record OperatorDescriptor : Type 0 where
  pub operator_id : Text

pub record AccessPathDescriptor : Type 0 where
  pub access_path_id : Text
  pub policy_aware : Bool

pub record SegmentCodecDescriptor : Type 0 where
  pub codec_id : Text

pub record WalDecoderDescriptor : Type 0 where
  pub decoder_id : Text

pub record ExplainHookDescriptor : Type 0 where
  pub hook_id : Text

pub record TraceDbModule : Type 0 where
  pub module_id : Text
  pub version : Text
  pub types : List TypeDescriptor
  pub operators : List OperatorDescriptor
  pub access_paths : List AccessPathDescriptor
  pub segment_codecs : List SegmentCodecDescriptor
  pub wal_decoders : List WalDecoderDescriptor
  pub explain_hooks : List ExplainHookDescriptor
  pub has_hidden_durable_state : Bool

pub record RegisteredModule : Type 0 where
  pub module_id : Text
  pub version : Text
  pub types : List TypeDescriptor
  pub operators : List OperatorDescriptor
  pub access_paths : List AccessPathDescriptor
  pub segment_codecs : List SegmentCodecDescriptor
  pub wal_decoders : List WalDecoderDescriptor
  pub explain_hooks : List ExplainHookDescriptor

pub record ModuleRegistry : Type 0 where
  pub modules : List RegisteredModule

abbrev pub default_registry : ModuleRegistry
default_registry = record { modules = [] }

abbrev pub registered : TraceDbModule → RegisteredModule
registered m = record {
  module_id = m.module_id;
  version = m.version;
  types = m.types;
  operators = m.operators;
  access_paths = m.access_paths;
  segment_codecs = m.segment_codecs;
  wal_decoders = m.wal_decoders;
  explain_hooks = m.explain_hooks;
}

-- A module of an id that is there already is let through and not added.
unfoldable pub push_module : TraceDbModule → ModuleRegistry → ModuleRegistry
push_module m r =
    if any (λ given. text_eq given.module_id m.module_id) r.modules
    then r
    else record { modules = r.modules ++ registered m ∷ [] }

-- The three rejections of `register`.
abbrev pub check_hidden_state : TraceDbModule → Result TraceDbError Unit
check_hidden_state m =
    ensure (not m.has_hidden_durable_state)
      (module_rejected m.module_id (codes "hidden durable state is not allowed"))

abbrev pub check_explain_hooks : TraceDbModule → Result TraceDbError Unit
check_explain_hooks m =
    ensure (not (not (is_empty m.access_paths) && is_empty m.explain_hooks))
      (module_rejected m.module_id (codes "ranked/queryable modules must provide explain hooks"))

abbrev pub check_wal_decoders : TraceDbModule → Result TraceDbError Unit
check_wal_decoders m =
    ensure (not (not (is_empty m.segment_codecs) && is_empty m.wal_decoders))
      (module_rejected m.module_id (codes "durable storage modules must provide WAL decoders"))

unfoldable pub register : TraceDbModule → Exec ModuleRegistry TraceDbError Unit
register m = do
  lift (check_hidden_state m)
  lift (check_explain_hooks m)
  lift (check_wal_decoders m)
  modify (push_module m)

unfoldable pub module_ids : ModuleRegistry → List Text
module_ids r = map (λ m. m.module_id) r.modules

-- Registrations one after the other; one that is rejected leaves the registry.
unfoldable pub register_all : List TraceDbModule → ModuleRegistry → ModuleRegistry
register_all [] r = r
register_all (m ∷ modules) r = register_all modules (register m r).1
