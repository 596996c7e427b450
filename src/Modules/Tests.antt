-- ===== src/Modules/Tests.antt =====
-- Runs of the registry on a module that is queried.
use tracedb.Base.{codes, true, false, [], ◌∷◌, ◌≡◌, refl, ok}
use tracedb.Modules.Registry.{TraceDbModule, default_registry, register, register_all}
use tracedb.Modules.Invariant.{IsWellFormed, register_all-IsWellFormed, register-again}

abbrev text_module : TraceDbModule
text_module = record {
  module_id = codes "tracedb-text";
  version = codes "1";
  types = [];
  operators = [];
  access_paths = record { access_path_id = codes "LexicalPath"; policy_aware = true } ∷ [];
  segment_codecs = [];
  wal_decoders = [];
  explain_hooks = record { hook_id = codes "lexical" } ∷ [];
  has_hidden_durable_state = false;
}

abbrev hidden_module : TraceDbModule
hidden_module = record text_module { module_id = codes "hidden"; has_hidden_durable_state = true }

register_all-IsWellFormed_example :
    IsWellFormed (register_all (text_module ∷ hidden_module ∷ text_module ∷ []) default_registry)
register_all-IsWellFormed_example =
    register_all-IsWellFormed (text_module ∷ hidden_module ∷ text_module ∷ [])

register-again_example :
    register text_module (register text_module default_registry).1
    ≡ (ok tt, (register text_module default_registry).1)
unfolding register
register-again_example = register-again text_module default_registry refl
