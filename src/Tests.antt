-- ===== src/Tests.antt =====
-- Concrete inputs, and the theorems at work on them. The data of several tests is here.
mod Pools
mod Natives
mod Vms
mod Additions
mod Sections
mod Options
mod Bodies
mod Hooks
mod Loads
mod Contexts
mod Phases
use mod_parrot.Base.{ℕ, Bool, true, false, Option, none, some, List, [], ◌∷◌, ◌==◌, if◌then◌else◌}
use mod_parrot.Base.Int.{pos, minus_one}
use mod_parrot.CStr.{lit}
use mod_parrot.Run.{pure}
use mod_parrot.Context.{CtxId, Ctx, zeroed_ctx, Mpm, ready, Store, empty_store}
use mod_parrot.Config.{SrvConfig, create_modparrot_srv_config}
use mod_parrot.Module.{ModuleInfo, Module, hook_response, hook_log}
use mod_parrot.World.{World, parrot_module, other_module, Parrot}

abbrev pub threaded_mpm : Mpm
threaded_mpm = record { threaded = true; creates_mutex = true }

abbrev pub single_mpm : Mpm
single_mpm = record { threaded = false; creates_mutex = false }

-- A context of pool 0 with an interpreter, in use or not.
abbrev pub some_ctx : Bool → ℕ → Ctx
some_ctx locked i = record zeroed_ctx {
  ctx_pool = some 0;
  interp = some i;
  locked = locked;
  module_index = minus_one;
}

-- Contexts 0 and 2 in use, context 1, the first of the pool, free, all of pool 0; pool 1 holds
-- context 3, in use.
abbrev pub four_ctxs : CtxId → Option Ctx
four_ctxs c =
    if c == 0
    then some (some_ctx true 10)
    else (if c == 1
        then some (some_ctx false 11)
        else (if c == 2
            then some (some_ctx true 12)
            else (if c == 3
                then some (record zeroed_ctx { ctx_pool = some 1; locked = true })
                else none)))

abbrev pub two_pools : Store
two_pools = record empty_store {
  ctxs = four_ctxs;
  next_ctx = 4;
  pools = λ p. if p == 0 then some (1 ∷ 0 ∷ 2 ∷ []) else (if p == 1 then some (3 ∷ []) else none);
  next_pool = 2;
  mutex = ready;
  ctx_pool_hash = (lit "a", 0) ∷ (lit "b", 1) ∷ [];
}

-- A Parrot that starts interpreter 7 and whose handlers return 0.
abbrev pub quiet_parrot : Parrot
quiet_parrot = record {
  new_interp = λ parent. pure (some 7);
  load_bytecode = λ i path. pure tt;
  set_trace = λ i flags. pure tt;
  set_module_path = λ i path. pure tt;
  call_sub = λ i namespace sub. pure tt;
  call_sub_string = λ i namespace sub arg. pure tt;
  find_meta_handler = λ i namespace sub. pure none;
  context_object = λ i. pure 1;
  call_meta_handler = λ i sub ctx_pmc. pure (pos 0);
  wrap_cmd_parms = λ i. pure 2;
  call_create = λ i sub parms. pure 3;
  call_merge = λ i sub base new. pure 4;
  call_command = λ i func parms cfg args. pure (pos 0);
  call_cleanup = λ i callback hll_data. pure (pos 0);
}

-- A module that asks for one hook.
abbrev pub module_for : ℕ → Module
module_for hook = record {
  name = lit "mod_perl6";
  info = record {
    ctx_pool_name = none;
    ctx_pool = none;
    server_create_sub = none;
    server_merge_sub = none;
    dir_create_sub = none;
    dir_merge_sub = none;
    namespace = lit "Perl6";
    hooks = λ h. h == hook;
  };
  cmds = [];
  creates_server_config = false;
  merges_server_config = false;
  creates_dir_config = false;
  merges_dir_config = false;
}

abbrev pub fresh_config : SrvConfig
fresh_config = (create_modparrot_srv_config none 0 false).0

-- Three modules, two of which ask for the response hook.
abbrev pub small_world : World
small_world = record {
  store = two_pools;
  srv_config = λ s. record fresh_config { ctx_pool = some 0 };
  is_virtual = λ s. false;
  mod_srv_config = λ s m. none;
  mod_dir_config = λ d m. none;
  pconf = 0;
  module_hash = [];
  module_array = module_for hook_response ∷ module_for hook_log ∷ module_for hook_response ∷ [];
  handler_modules = λ h. none;
  root_interp = none;
  base_server = some 0;
  is_started = true;
  debug_level = pos 0;
  hard_thread_limit = 1;
  max_threads = 1;
  meta_index = 0;
  ap_hooks = [];
  own_hooks = [];
  defines = [];
  top_modules = parrot_module ∷ other_module 0 ∷ [];
  loaded = [];
  module_cleanups = λ p. [];
  hll_cleanups = λ p. [];
}
