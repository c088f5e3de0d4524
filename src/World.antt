-- ===== src/World.antt =====
-- The state that the module's functions share: `mp_globals`, the configurations that Apache keeps
-- for mod_parrot, the contexts, and what has been registered with Apache. And the parts of Parrot
-- that run HLL code, as parameters.
use mod_parrot.Base.{ℕ, Bool, Option, List, ◌==◌, if◌then◌else◌}
use mod_parrot.Base.Int.{ℤ}
use mod_parrot.CStr.{CStr}
use mod_parrot.Hash.{Hash}
use mod_parrot.Run.{ok, fault, exits, M}
use mod_parrot.Context.{AprPool, Interp, Server, Store}
use mod_parrot.Config.{SrvConfig}
use mod_parrot.Module.{Pmc, ModuleId, Module, ModConfig}

-- A module of Apache: `parrot_module`, one that was added, or another.
pub data TopModule : Type 0 where
  parrot_module : TopModule
  added_module : ModuleId → TopModule
  other_module : ℕ → TopModule

-- `struct modparrot_cleanup_info`.
pub record CleanupInfo : Type 0 where
  pub modp : ModuleId
  pub callback : Pmc
  pub hll_data : Pmc
  pub pool : AprPool
  pub s : Option Server

-- The handlers that mod_parrot registers for itself, and the orders `APR_HOOK_FIRST` and
-- `APR_HOOK_REALLY_FIRST`.
pub data OwnHandler : Type 0 where
  open_logs_handler post_config_handler child_init_handler pre_connection_handler : OwnHandler
  process_connection_handler request_phase_handler : OwnHandler

pub data HookOrder : Type 0 where
  hook_first hook_really_first : HookOrder

pub record OwnHook : Type 0 where
  pub hook : ℕ
  pub handler : OwnHandler
  pub order : HookOrder

pub record World : Type 0 where
  pub store : Store
  pub srv_config : Server → SrvConfig
  pub is_virtual : Server → Bool
  pub mod_srv_config : Server → ModuleId → Option ModConfig
  pub mod_dir_config : ℕ → ModuleId → Option ModConfig
  pub pconf : AprPool
  pub module_hash : Hash ModuleId
  pub module_array : List Module
  pub handler_modules : ℕ → Option (List ModuleId)
  pub root_interp : Option Interp
  pub base_server : Option Server
  pub is_started : Bool
  pub debug_level : ℤ
  pub hard_thread_limit : ℕ
  pub max_threads : ℕ
  -- The `static int module_index` of `register_meta_hooks`.
  pub meta_index : ℕ
  -- The meta handlers registered with Apache, by hook, the newest last.
  pub ap_hooks : List ℕ
  -- The handlers of mod_parrot itself, by hook, and Apache's list of defines.
  pub own_hooks : List OwnHook
  pub defines : List CStr
  -- Apache's list of modules, `ap_top_module`, and the modules added to it by `ap_add_loaded_module`.
  pub top_modules : List TopModule
  pub loaded : List ModuleId
  -- The cleanups that Apache runs when a pool ends.
  pub module_cleanups : AprPool → List ModuleId
  pub hll_cleanups : AprPool → List CleanupInfo

-- A function of src/context.c, run on the whole state.
unfoldable pub with_store : {A : Type 0} → M Store A → M World A
with_store m w = elim (m w.store) [
  | ok a s ↦ ok a (record w { store = s })
  | fault ↦ fault
  | exits ↦ exits
]

abbrev pub set_srv_config : Server → SrvConfig → World → World
set_srv_config s cfg w = record w { srv_config = λ t. if s == t then cfg else w.srv_config t }

-- The calls into Parrot. HLL code that runs in them may call mod_parrot back, so each may change
-- the whole state.
pub record Parrot : Type 0 where
  pub new_interp : Option Interp → M World (Option Interp)
  pub load_bytecode : Interp → CStr → M World (Unit {0})
  pub set_trace : Interp → ℤ → M World (Unit {0})
  pub set_module_path : Interp → CStr → M World (Unit {0})
  pub call_sub : Interp → CStr → CStr → M World (Unit {0})
  pub call_sub_string : Interp → CStr → CStr → CStr → M World (Unit {0})
  pub find_meta_handler : Interp → CStr → CStr → M World (Option Pmc)
  pub context_object : Interp → M World Pmc
  pub call_meta_handler : Interp → Option Pmc → Pmc → M World ℤ
  pub wrap_cmd_parms : Interp → M World Pmc
  -- A sub that makes a configuration, and one that merges two.
  pub call_create : Interp → Pmc → Pmc → M World Pmc
  pub call_merge : Interp → Pmc → Option Pmc → Option Pmc → M World Pmc
  -- The sub of a directive, with the configuration of the section and the arguments.
  pub call_command : Interp → Pmc → Pmc → Option Pmc → List (Option CStr) → M World ℤ
  pub call_cleanup : Interp → Pmc → Pmc → M World ℤ
