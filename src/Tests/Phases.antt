-- ===== src/Tests/Phases.antt =====
-- Handlers and directives at work.
use mod_parrot.Base.{
  ℕ, ◌≡◌, refl, Bool, true, false, ◌&&◌, none, some, List, [], ◌∷◌, ◌==◌, if◌then◌else◌,
}
use mod_parrot.Base.Int.{pos}
use mod_parrot.CStr.{CStr, lit}
use mod_parrot.Run.{ok, fault, ◌>>◌}
use mod_parrot.Context.{CtxId, Ctx, zeroed_ctx, Server}
use mod_parrot.Context.Capacity.{has}
use mod_parrot.Config.{create_modparrot_srv_config, is_set, option_bit}
use mod_parrot.Config.Options.{set_options}
use mod_parrot.Module.{Module, hook_response}
use mod_parrot.World.{World}
use mod_parrot.Handlers.{
  RequestRec, switch_ctx, status_ok, modparrot_request_phase_handler, request_metahandler,
  modparrot_call_meta_handler,
}
use mod_parrot.Handlers.Switch.{carried, switch_ctx_moves}
use mod_parrot.Handlers.Meta.{with_request, metahandler_same_pool, metahandler_exhausted}
use mod_parrot.Handlers.SetUp.{prepared_ctx, prepared, phase-metahandler}
use mod_parrot.Commands.Options.{run_options, run_options-set_options}
use mod_parrot.OpenLogs.{open_hosts, modparrot_open_logs_handler}
use mod_parrot.OpenLogs.Hosts.{is_enabled, open_hosts-shared, open_logs_unset}
use mod_parrot.Tests.{
  threaded_mpm, some_ctx, four_ctxs, two_pools, quiet_parrot, module_for, fresh_config, small_world,
}

abbrev other_ctx : Ctx
other_ctx = record zeroed_ctx { ctx_pool = some 1; locked = true }

-- Context 3 moves from pool 1 to pool 0.
switch_ctx_moves_example :
    (v : World) × (switch_ctx threaded_mpm quiet_parrot 3 (some 0) 4 (some 9) small_world
      ≡ ok (some 1) v)
    × ((d : CtxId)
        → v.store.ctxs d ≡ (
            if d == 1
            then some (carried (some_ctx false 11) other_ctx)
            else (if d == 3 then some (record other_ctx { locked = false }) else four_ctxs d)))
    × (v.store.userdata 9 ≡ some 1)
switch_ctx_moves_example =
    switch_ctx_moves threaded_mpm quiet_parrot 4 9 0 small_world (1 ∷ 0 ∷ 2 ∷ []) refl refl refl
      (some_ctx false 11, refl, refl) refl 3 other_ctx refl refl 1 (some_ctx false 11) 11 refl refl
      refl refl

-- Connection pool 8 has context 0; the response hook is for modules 0 and 2, whose pool is 0.
abbrev pool_module : ℕ → Module
pool_module cp =
    let m = module_for hook_response in record m { info = record m.info { ctx_pool = some cp } }

abbrev serving : ℕ → World
serving cp = record small_world {
  store = record two_pools { userdata = λ q. if q == 8 then some 0 else none };
  module_array = pool_module cp ∷ pool_module cp ∷ pool_module cp ∷ [];
  handler_modules = λ h. if h == hook_response then some (0 ∷ 2 ∷ []) else none;
}

abbrev one_request : RequestRec
one_request = record {
  r = 50;
  server = 4;
  pool = 9;
  connection_pool = 8;
  per_dir_config = none;
  header_only = false;
  main = none;
  next = none;
  prev = none;
  notes = 20;
  headers_in = 21;
  headers_out = 22;
  err_headers_out = 23;
}

metahandler_same_pool_example :
    request_metahandler threaded_mpm quiet_parrot
      (lit "response_handler")
      hook_response
      one_request
      (serving 0)
    ≡ ok (pos 0) (with_request 0 (some_ctx true 10) one_request 0 (serving 0))
unfolding is_set create_modparrot_srv_config modparrot_call_meta_handler
metahandler_same_pool_example =
    metahandler_same_pool threaded_mpm quiet_parrot (lit "response_handler") hook_response
      one_request (serving 0) 0 (some_ctx true 10) refl refl (0 ∷ 2 ∷ []) 0 0 (pool_module 0) refl
      refl refl refl refl 0 refl refl refl

metahandler_exhausted_example :
    request_metahandler threaded_mpm quiet_parrot
      (lit "response_handler")
      hook_response
      one_request
      (serving 1)
    ≡ fault
unfolding is_set create_modparrot_srv_config
metahandler_exhausted_example =
    metahandler_exhausted threaded_mpm quiet_parrot (lit "response_handler") hook_response
      one_request (serving 1) 0 (some_ctx true 10) refl refl (0 ∷ 2 ∷ []) 0 0 (pool_module 1) refl
      refl refl refl refl 1 refl refl (3 ∷ []) refl refl refl (other_ctx, refl) refl refl refl

phase-metahandler_example :
    (modparrot_request_phase_handler threaded_mpm quiet_parrot one_request
        >> request_metahandler threaded_mpm quiet_parrot
            (lit "response_handler")
            hook_response
            one_request)
      (serving 0)
    ≡ ok (pos 0) (
        with_request 0
          (prepared_ctx (some_ctx true 10) 4 9)
          one_request
          0
          (prepared 0 (some_ctx true 10) 4 9 (serving 0)))
unfolding is_set create_modparrot_srv_config modparrot_call_meta_handler
phase-metahandler_example =
    phase-metahandler threaded_mpm quiet_parrot (lit "response_handler") hook_response one_request
      (serving 0) 0 (some_ctx true 10) 0 (2 ∷ []) (pool_module 0) 0 refl refl refl refl refl refl
      refl refl

abbrev two_options : List (CStr × Bool)
two_options = (lit "Parent", true) ∷ (lit "TraceInit", false) ∷ []

run_options-set_options_example :
    (v : World) × (run_options
        (record { server = 4; pool = 0; temp_pool = 1 })
        (lit "+Parent" ∷ lit "-TraceInit" ∷ [])
        small_world
      ≡ ok none v)
    × ((t : Server)
        → v.srv_config t ≡ (
            if 4 == t
            then set_options (small_world.srv_config 4) two_options
            else small_world.srv_config t))
unfolding option_bit
run_options-set_options_example =
    run_options-set_options (record { server = 4; pool = 0; temp_pool = 1 }) two_options small_world
      (refl, (refl, tt))

open_hosts-shared_example :
    (v : World) × (open_hosts threaded_mpm quiet_parrot 0 1 2 none (3 ∷ 4 ∷ []) small_world
      ≡ ok status_ok v)
    × ((t : Server)
        → v.srv_config t ≡ (
            if has t (3 ∷ 4 ∷ []) && is_enabled (small_world.srv_config t)
            then record (small_world.srv_config t) {
              ctx_pool = (small_world.srv_config 2).ctx_pool;
            }
            else small_world.srv_config t))
unfolding is_set create_modparrot_srv_config
open_hosts-shared_example =
    open_hosts-shared threaded_mpm quiet_parrot 0 1 2 none (3 ∷ 4 ∷ []) small_world
      (refl, (refl, tt))

-- The main server 2 is disabled, and host 3 is enabled with `+Parent`.
abbrev parent_world : World
parent_world = record small_world {
  srv_config = λ s. record fresh_config { option_flags = if s == 3 then 3 else 0 };
}

open_logs_unset_example :
    modparrot_open_logs_handler threaded_mpm quiet_parrot 0 1 2 (3 ∷ []) parent_world ≡ fault
unfolding is_set
open_logs_unset_example =
    open_logs_unset threaded_mpm quiet_parrot 0 1 2 3 [] parent_world refl refl refl
