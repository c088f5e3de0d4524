-- ===== src/Tests/Additions.antt =====
-- Modules that are added, at work: two modules of Perl 6, of which the second asks for all hooks.
use mod_parrot.Base.{◌≡◌, refl, true, false, none, some, List, [], ◌∷◌, ◌==◌, arith, if◌then◌else◌}
use mod_parrot.Base.Int.{pos}
use mod_parrot.CStr.{lit, str_eq}
use mod_parrot.Hash.{hash_get}
use mod_parrot.Run.{ok}
use mod_parrot.Context.{Ctx, Store}
use mod_parrot.Context.Ops.{load, get_interp_ctx}
use mod_parrot.Module.{flag, hook_response, hook_log, hook_all}
use mod_parrot.Module.Add.{
  CmdPmc, entered, filled_module, modparrot_add_module, init_cmds, populate_hooks, find_subs,
  new_module, enter_module,
}
use mod_parrot.Module.Add.Keeps.{LookupKeeps}
use mod_parrot.Module.Add.Registry.{IsRegistry, add_module-IsRegistry}
use mod_parrot.Module.Add.Additions.{Addition, add_each}
use mod_parrot.Module.Add.Sequence.{add_each-asking}
use mod_parrot.Module.Hooks.Dispatch.{handlers, register_each}
use mod_parrot.World.{World, with_store}
use mod_parrot.Tests.{some_ctx, two_pools, quiet_parrot, small_world}

-- Interpreter 10 has context 0, which has server 4 and pool 9 for configurations.
abbrev pub serving_ctx : Ctx
serving_ctx = record (some_ctx true 10) { s = some 4; pconf = some 9 }

abbrev pub adding_store : Store
adding_store = record two_pools {
  ctxs = λ c. if c == 0 then some serving_ctx else two_pools.ctxs c;
  interp_ctx = λ i. if i == 10 then some 0 else none;
}

abbrev fresh_world : World
fresh_world = record small_world { store = adding_store; module_array = [] }

abbrev a_command : CmdPmc
a_command = record {
  name = lit "PerlHello";
  args_how = flag;
  req_override = pos 0;
  errmsg = lit "hello";
  func = 5;
  cmd_data = 6;
}

abbrev two_additions : List Addition
two_additions =
    record {
      p = 9;
      name = lit "one";
      namespace = lit "Perl6";
      cmd_array = some (a_command ∷ []);
      hook_array = pos hook_log ∷ pos hook_response ∷ [];
    }
    ∷ record {
      p = 9;
      name = lit "two";
      namespace = lit "Perl6";
      cmd_array = none;
      hook_array = pos hook_all ∷ [];
    }
    ∷ []

add_each-asking_example :
    (v : World) × (u : World) × (add_each quiet_parrot 10 two_additions fresh_world ≡ ok tt v)
    × (register_each v.module_array v ≡ ok tt u)
    × (handlers u hook_response ≡ 0 ∷ 1 ∷ [])
unfolding str_eq
add_each-asking_example =
    add_each-asking quiet_parrot 10 (λ namespace sub. none) (λ namespace sub w. refl) 0 serving_ctx
      4 refl two_additions fresh_world 0 hook_response refl refl refl refl refl refl (λ g. refl)
      refl refl (omega arith)

quiet_lookup : LookupKeeps quiet_parrot
quiet_lookup i namespace sub w v a e = ground arith

-- The world after module "one" was added.
abbrev added_one : World
added_one =
    entered 9
      (filled_module (lit "one") (lit "Perl6") [] (λ h. false)
        (record { server_create = none; server_merge = none; dir_create = none; dir_merge = none })
        (some 0))
      fresh_world

fresh-IsRegistry : IsRegistry fresh_world
unfolding hash_get
fresh-IsRegistry = record { found = λ name modp e. cc; listed = λ modp m e. cc }

added_one-run :
    modparrot_add_module quiet_parrot 10 (some 9) (lit "one") (lit "Perl6") none [] fresh_world
    ≡ ok 0 added_one
unfolding modparrot_add_module new_module enter_module init_cmds populate_hooks find_subs with_store
    load get_interp_ctx hash_get
added_one-run = refl

add_module-IsRegistry_example : IsRegistry added_one
add_module-IsRegistry_example =
    add_module-IsRegistry quiet_parrot 10 (some 9) (lit "one") (lit "Perl6") none [] quiet_lookup
      fresh_world added_one 0 fresh-IsRegistry added_one-run
