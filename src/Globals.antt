-- ===== src/Globals.antt =====
-- The beginning and the end of mod_parrot's work in a server: `modparrot_init_globals` and
-- `register_hooks` (src/mod_parrot.c), and the cleanup of a configuration, `modparrot_cleanup`
-- (src/modparrot_config.c).
pub mod Restart
pub mod Tables
use mod_parrot.Base.{ℕ, suc, false, Option, none, some, List, [], ◌∷◌, ◌++◌}
use mod_parrot.Base.Int.{ℤ, pos}
use mod_parrot.CStr.{lit}
use mod_parrot.Run.{M, pure, fault, get, modify, ◌>>=◌, ◌>>◌}
use mod_parrot.Context.{AprPool, Server, Mpm}
use mod_parrot.Context.Ops.{mp_ctx_pool_destroy_all}
use mod_parrot.Module.{
  ModuleId, Module, hook_open_logs, hook_post_config, hook_child_init, hook_pre_connection,
  hook_process_connection, hook_post_read_request, hook_map_to_storage, hook_trans,
  hook_header_parser, hook_access, hook_authen, hook_authz, hook_response, hook_type, hook_fixup,
  hook_log,
}
use mod_parrot.World.{
  World, OwnHandler, open_logs_handler, post_config_handler, child_init_handler,
  pre_connection_handler, process_connection_handler, request_phase_handler, HookOrder, hook_first,
  hook_really_first, OwnHook, with_store,
}
use mod_parrot.Startup.{change_config}

-- `root_interp` and the static index of `register_meta_hooks` stay as they are.
abbrev pub modparrot_init_globals : AprPool → World → World
modparrot_init_globals p w = record w {
  pconf = p;
  is_started = false;
  debug_level = pos 0;
  max_threads = 0;
  hard_thread_limit = 0;
  base_server = none;
  module_hash = [];
  module_array = [];
  store = record w.store { ctx_pool_hash = [] };
  handler_modules = λ h. none;
}

abbrev own : ℕ → OwnHandler → HookOrder → OwnHook
own hook handler order = record { hook = hook; handler = handler; order = order }

abbrev request_phase : ℕ → OwnHook
request_phase hook = own hook request_phase_handler hook_really_first

-- The calls of `ap_hook_*` in `register_hooks`.
abbrev pub own_hook_table : List OwnHook
own_hook_table =
    own hook_open_logs open_logs_handler hook_first
    ∷ own hook_post_config post_config_handler hook_first
    ∷ own hook_child_init child_init_handler hook_first
    ∷ own hook_pre_connection pre_connection_handler hook_first
    ∷ own hook_process_connection process_connection_handler hook_first
    ∷ request_phase hook_map_to_storage
    ∷ request_phase hook_trans
    ∷ request_phase hook_post_read_request
    ∷ request_phase hook_header_parser
    ∷ request_phase hook_access
    ∷ request_phase hook_authen
    ∷ request_phase hook_authz
    ∷ request_phase hook_response
    ∷ request_phase hook_type
    ∷ request_phase hook_fixup
    ∷ request_phase hook_log
    ∷ []

abbrev pub register_hooks : AprPool → World → World
register_hooks p w =
    let v = modparrot_init_globals p w in
    record v {
      defines = v.defines ++ lit "MODPARROT" ∷ [];
      own_hooks = v.own_hooks ++ own_hook_table;
    }

-- The loop over `module_array` takes each `module` for a `struct modparrot_module_config`, and stores
-- `NULL` into it where that has `cfg`. What stands there in a `module` is Apache's business, so the
-- store is a parameter.
unfoldable pub reset_modules :
    (ModuleId → M World (Unit {0})) → ModuleId → List Module → M World (Unit {0})
reset_modules store_null i [] = pure tt
reset_modules store_null i (m ∷ ms) = store_null i >> reset_modules store_null (suc i) ms

unfoldable pub modparrot_cleanup :
    (ModuleId → M World (Unit {0})) → Mpm → Server → M World (Unit {0})
unfolding mp_ctx_pool_destroy_all with_store reset_modules
modparrot_cleanup store_null mpm s = do
  with_store (mp_ctx_pool_destroy_all mpm)
  change_config s (λ cfg. record cfg { ctx_pool = none })
  modify (λ w. record w { is_started = false })
  w ← get
  reset_modules store_null 0 w.module_array
