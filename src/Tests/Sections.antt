-- ===== src/Tests/Sections.antt =====
-- Configurations of added modules at work: nested sections, and directives.
use mod_parrot.Base.{
  ℕ, ◌≡◌, ◌≢◌, refl, true, false, Option, none, some, [], ◌∷◌, ◌==◌, if◌then◌else◌,
}
use mod_parrot.Base.Int.{pos}
use mod_parrot.CStr.{CStr, lit, str_eq}
use mod_parrot.Hash.{hash_get}
use mod_parrot.Run.{ok}
use mod_parrot.Context.{Ctx, dir_config, server_config}
use mod_parrot.Module.{Module, ModConfig, flag, cmd_flag, hook_response}
use mod_parrot.Module.Configs.{modparrot_create_module_config}
use mod_parrot.Module.Configs.Cascade.{merge_sections, merge_sections-innermost}
use mod_parrot.Module.Directives.{CmdParms, modparrot_module_cmd_take123}
use mod_parrot.Module.Directives.Call.{cleared, prepared, cmd_take123-calls}
use mod_parrot.Module.Directives.Faults.{cmd_take123-no_config}
use mod_parrot.Startup.{modparrot_startup}
use mod_parrot.Startup.Reserve.{reserved_for}
use mod_parrot.Startup.Named.{startup_known}
use mod_parrot.World.{World}
use mod_parrot.Tests.{threaded_mpm, some_ctx, two_pools, quiet_parrot, module_for, small_world}

-- A module with subs for the directory, whose pool is "a".
abbrev merging_module : Module
merging_module =
    let m = module_for hook_response in
    record m {
      info = record m.info {
        ctx_pool_name = some (lit "a");
        dir_create_sub = some 30;
        dir_merge_sub = some 31;
      };
    }

abbrev named_config : Option CStr → ModConfig
named_config pool_name = record modparrot_create_module_config {
  name = some (lit "m");
  ctx_pool_name = pool_name;
}

-- APR pool 8 is bound to context 0, and is the parent of pool 9.
abbrev section_world : World
section_world = record small_world {
  store = record two_pools { userdata = λ q. if q == 8 then some 0 else none };
  module_array = merging_module ∷ [];
  module_hash = (lit "m", 0) ∷ [];
  mod_srv_config = λ s m. some modparrot_create_module_config;
  mod_dir_config = λ d m. some modparrot_create_module_config;
}

abbrev parent_pool : ℕ → Option ℕ
parent_pool p = if p == 9 then some 8 else none

merge_sections-innermost_example :
    (merged : ModConfig) × (merge_sections quiet_parrot parent_pool 9
        (named_config (some (lit "outer")))
        (named_config (some (lit "inner")) ∷ named_config none ∷ [])
        section_world
      ≡ ok merged section_world)
    × (merged.name ≡ some (lit "m"))
    × (merged.ctx_pool_name ≡ some (lit "inner"))
    × (merged.ctx_pool ≡ none)
    × (merged.cfg ≡ some 4)
unfolding hash_get str_eq
merge_sections-innermost_example =
    merge_sections-innermost quiet_parrot parent_pool 9 section_world 0 refl (lit "m") 0
      merging_module refl refl 31 refl 0 (some_ctx true 10) 10 refl refl refl (λ a b. 4)
      (λ a b. refl) (named_config (some (lit "outer")))
      (named_config (some (lit "inner")) ∷ named_config none ∷ []) refl

abbrev a_directive : CmdParms
a_directive = record {
  server = 4;
  pool = 6;
  temp_pool = 7;
  cmd = record {
    name = lit "PerlHello";
    args_how = flag;
    call = some cmd_flag;
    req_override = pos 0;
    errmsg = lit "hello";
    func = 5;
    cmd_data = 6;
  };
  modp = 0;
}

abbrev started_world : World
started_world = record (reserved_for 1 (some_ctx false 11) 4 7 section_world) { is_started = true }

a_start :
    modparrot_startup threaded_mpm quiet_parrot 7 4 none (some (lit "a")) section_world
    ≡ ok (some 1) started_world
unfolding hash_get str_eq
a_start =
    startup_known threaded_mpm quiet_parrot 7 4 none (some (lit "a")) section_world 0
      (1 ∷ 0 ∷ 2 ∷ []) 1 (some_ctx false 11) 11 refl refl refl refl refl
      (some_ctx false 11, refl, refl) refl refl refl refl

-- The context that was started, with the `pconf` of the directive.
abbrev started_ctx : Ctx
started_ctx = record (some_ctx false 11) { locked = true; s = some 4; pconf = some 6 }

abbrev calling_world : World
calling_world =
    prepared 1 started_ctx a_directive 3 merging_module (λ sub. 3) modparrot_create_module_config
      modparrot_create_module_config started_world

cmd_take123-calls_example :
    modparrot_module_cmd_take123 threaded_mpm quiet_parrot a_directive
      (some (dir_config 3 0))
      (some (lit "x"))
      none
      none
      section_world
    ≡ ok none (
        cleared 1
          (record started_ctx {
            raw_srv_config = some (server_config 4 0);
            raw_dir_config = some (dir_config 3 0);
          })
          calling_world)
cmd_take123-calls_example =
    cmd_take123-calls threaded_mpm quiet_parrot 1 11 2 (λ sub. 3) (λ w. refl) (λ sub w. refl)
      a_directive 3 merging_module modparrot_create_module_config modparrot_create_module_config
      (some (lit "x")) none none section_world started_world calling_world merging_module (lit "a")
      (record (some_ctx false 11) { locked = true; s = some 4 })
      (record started_ctx {
        raw_srv_config = some (server_config 4 0);
        raw_dir_config = some (dir_config 3 0);
      })
      (pos 0) refl refl a_start refl refl refl refl refl refl refl

cmd_take123-no_config_example :
    modparrot_module_cmd_take123 threaded_mpm quiet_parrot a_directive none none none none
      section_world
    ≢ ok none section_world
cmd_take123-no_config_example =
    cmd_take123-no_config threaded_mpm quiet_parrot a_directive none none none section_world
      section_world none
