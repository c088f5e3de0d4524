-- ===== src/Tests/Natives.antt =====
-- The NCI functions at work, in a handler of the response hook.
use mod_parrot.Base.{
  zero, suc, List, ◌≡◌, refl, true, false, none, some, [], ◌∷◌, ◌==◌, if◌then◌else◌,
}
use mod_parrot.Base.Int.{pos}
use mod_parrot.CStr.{lit, str_eq}
use mod_parrot.Hash.{hash_get}
use mod_parrot.Run.{ok, M}
use mod_parrot.Context.{Ctx, Server, destroyed, dir_config}
use mod_parrot.Module.{ModuleId, Module, pmcnull, hook_response}
use mod_parrot.Module.Configs.{modparrot_create_module_config}
use mod_parrot.Startup.{select_ctx_pool}
use mod_parrot.Handlers.{RequestRec}
use mod_parrot.Handlers.Meta.{with_request}
use mod_parrot.Nci.Fields.{mpnci_request_rec, mpnci_server_rec}
use mod_parrot.Nci.{mpnci_get_module_config, mpnci_set_config_ctx_pool}
use mod_parrot.Nci.Config.{get_config-in_request, set-select_ctx_pool}
use mod_parrot.Globals.{modparrot_cleanup}
use mod_parrot.Globals.Restart.{nulled_from, cleanup-resets}
use mod_parrot.World.{World}
use mod_parrot.Tests.{some_ctx, threaded_mpm, quiet_parrot, module_for, small_world}
use mod_parrot.Tests.Additions.{serving_ctx, adding_store}

-- The second handler of the response hook is that of module 2.
abbrev handling_ctx : Ctx
handling_ctx = record serving_ctx { module_index = pos 0 }

abbrev handling_world : World
handling_world = record small_world {
  store = record adding_store {
    ctxs = λ c. if c == 0 then some handling_ctx else adding_store.ctxs c;
  };
  handler_modules = λ h. if h == hook_response then some (0 ∷ 2 ∷ []) else none;
  module_hash = (lit "m", 2) ∷ [];
  mod_dir_config = λ d m.
      if d == 3 then some (record modparrot_create_module_config { cfg = some 40 }) else none;
}

abbrev section_request : RequestRec
section_request = record {
  r = 50;
  server = 4;
  pool = 9;
  connection_pool = 8;
  per_dir_config = some 3;
  header_only = false;
  main = none;
  next = none;
  prev = none;
  notes = 20;
  headers_in = 21;
  headers_out = 22;
  err_headers_out = 23;
}

get_config-in_request_example :
    let v = with_request 0 handling_ctx section_request 1 handling_world in
    (mpnci_request_rec 10 v ≡ ok (some 50) v)
    × (mpnci_server_rec 10 v ≡ ok (some 4) v)
    × (mpnci_get_module_config (λ r. section_request) 10 (lit "m") true v ≡ ok (some 40) v)
    × (mpnci_get_module_config (λ r. section_request) 10 (lit "m") false v ≡ ok (some pmcnull) v)
unfolding hash_get str_eq
get_config-in_request_example =
    get_config-in_request 10 0 handling_ctx handling_world refl (λ r. section_request)
      section_request 1 3 (lit "m") 2 refl refl refl

set-select_ctx_pool_example :
    (v : World) × (mpnci_set_config_ctx_pool 10 (dir_config 3 2) (lit "a") handling_world ≡ ok tt v)
    × (select_ctx_pool threaded_mpm quiet_parrot 2 4 (some 3) v ≡ ok (some 0) v)
unfolding hash_get str_eq
set-select_ctx_pool_example =
    set-select_ctx_pool 10 0 handling_ctx handling_world refl threaded_mpm quiet_parrot 3 2
      (module_for hook_response) 4 9 (lit "a") 0
      (record modparrot_create_module_config { cfg = some 40 }) refl refl refl refl refl

-- Here `NULL` takes the place of a module's name.
abbrev unnamed : Module → Module
unnamed m = record m { name = lit "" }

abbrev unnamed_at : ModuleId → List Module → List Module
unnamed_at i [] = []
unnamed_at zero (m ∷ ms) = unnamed m ∷ ms
unnamed_at (suc i) (m ∷ ms) = m ∷ unnamed_at i ms

abbrev nulled : ModuleId → World → World
nulled i w = record w { module_array = unnamed_at i w.module_array }

abbrev store_null : ModuleId → M World (Unit {0})
store_null i w = ok tt (nulled i w)

-- One pool, of one context.
abbrev one_pool_world : World
one_pool_world = record handling_world {
  store = record handling_world.store {
    ctx_pool_hash = (lit "default", 1) ∷ [];
    pools = λ p. if p == 1 then some (3 ∷ []) else none;
    ctxs = λ c. if c == 3 then some (some_ctx true 12) else none;
  };
}

cleanup-resets_example :
    (u v : World) × (modparrot_cleanup store_null threaded_mpm 4 one_pool_world ≡ ok tt v)
    × (v ≡ nulled_from store_null nulled 0 3 u)
    × (v.store.ended ≡ 12 ∷ [])
    × (v.store.pools 1 ≡ some [])
    × (v.store.mutex ≡ destroyed)
    × ((t : Server)
        → v.srv_config t ≡ (
            if 4 == t
            then record (one_pool_world.srv_config 4) { ctx_pool = none }
            else one_pool_world.srv_config t))
    × (v.is_started ≡ false)
cleanup-resets_example =
    cleanup-resets store_null nulled (λ i w. (refl, refl, refl, refl)) threaded_mpm 4 one_pool_world
      (lit "default") 1 (3 ∷ []) refl refl ((some_ctx true 12, refl), tt) (refl, tt) (λ t. refl)
