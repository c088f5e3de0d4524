-- ===== src/Module/Add.antt =====
-- Adding a module to Apache (src/module.c, `modparrot_add_module`). The PMCs that describe the
-- directives and the hooks come as what `Parrot_PMC_get_*` reads out of them.
pub mod Registry
pub mod Asking
pub mod Keeps
pub mod Additions
pub mod Sequence
use mod_parrot.Base.{
  ℕ, Bool, true, false, Option, none, some, List, [], ◌∷◌, ◌++◌, ◌==◌, length, ltb, is_some,
  if◌then◌else◌,
}
use mod_parrot.Base.Int.{ℤ, pos, negsuc}
use mod_parrot.CStr.{CStr, lit}
use mod_parrot.Hash.{hash_get, hash_set}
use mod_parrot.Run.{ok, exits, M, pure, deref, get, ◌>>=◌, ◌>>◌}
use mod_parrot.Context.{CtxId, Server, AprPool, Interp, CtxPool, update}
use mod_parrot.Context.Ops.{load, get_interp_ctx}
use mod_parrot.Module.{
  Pmc, pmcnull, ModuleId, ModuleInfo, ArgsHow, take1, take2, take12, take3, take23, take123,
  iterate, iterate2, flag, no_args, raw_args, other_how, CmdFunc, cmd_take1, cmd_take2, cmd_take123,
  cmd_no_args, cmd_flag, Command, Module, hook_last, hook_all,
}
use mod_parrot.World.{
  World, TopModule, parrot_module, added_module, other_module, with_store, Parrot,
}

-- A directive, as the HLL code describes it.
pub record CmdPmc : Type 0 where
  pub name : CStr
  pub args_how : ArgsHow
  pub req_override : ℤ
  pub errmsg : CStr
  pub func : Pmc
  pub cmd_data : Pmc

-- The macros `MP_INIT_CMD_*`, and the names for the functions that several of them share.
abbrev pub cmd_func : ArgsHow → Option CmdFunc
cmd_func take1 = some cmd_take1
cmd_func take2 = some cmd_take2
cmd_func take12 = some cmd_take2
cmd_func take3 = some cmd_take123
cmd_func take23 = some cmd_take123
cmd_func take123 = some cmd_take123
cmd_func iterate = some cmd_take1
cmd_func iterate2 = some cmd_take2
cmd_func flag = some cmd_flag
cmd_func no_args = some cmd_no_args
cmd_func raw_args = some cmd_take1
cmd_func other_how = none

-- One round of the loop over the directives.
abbrev pub command_rec : CmdPmc → Command
command_rec cmd = record {
  name = cmd.name;
  args_how = cmd.args_how;
  call = cmd_func cmd.args_how;
  req_override = cmd.req_override;
  errmsg = cmd.errmsg;
  func = cmd.func;
  cmd_data = cmd.cmd_data;
}

-- The loop, which ends the process at a directive without a sub.
unfoldable pub init_cmds : List CmdPmc → M World (List Command)
init_cmds [] = pure []
init_cmds (cmd ∷ rest) =
    if cmd.func == pmcnull
    then (λ w. exits)
    else (do cmds ← init_cmds rest; pure (command_rec cmd ∷ cmds))

-- The loop over the hooks, which ends the process at one that is out of range.
unfoldable pub set_hooks_from : List ℤ → (ℕ → Bool) → M World (ℕ → Bool)
set_hooks_from [] hooks = pure hooks
set_hooks_from (negsuc n ∷ rest) hooks = λ w. exits
set_hooks_from (pos h ∷ rest) hooks =
    if ltb h hook_last then set_hooks_from rest (update hooks h true) else (λ w. exits)

abbrev pub is_hook_all : ℤ → Bool
is_hook_all (pos h) = h == hook_all
is_hook_all (negsuc n) = false

-- `MP_HOOK_ALL` is looked for in the first place only.
unfoldable pub populate_hooks : List ℤ → M World (ℕ → Bool)
unfolding set_hooks_from
populate_hooks [] = pure (λ h. false)
populate_hooks (first ∷ rest) =
    if is_hook_all first
    then pure (λ h. ltb h hook_last)
    else set_hooks_from (first ∷ rest) (λ h. false)

-- The cleanup of a module: `ap_remove_loaded_module` is a parameter.
abbrev pub modparrot_remove_module : (ModuleId → M World (Unit {0})) → ModuleId → M World ℤ
modparrot_remove_module ap_remove_loaded_module modp = do ap_remove_loaded_module modp; pure (pos 0)

-- `modparrot_insert_module`.
unfoldable pub modparrot_insert_module : ModuleId → List TopModule → List TopModule
modparrot_insert_module modp [] = []
modparrot_insert_module modp (parrot_module ∷ next) = parrot_module ∷ added_module modp ∷ next
modparrot_insert_module modp (added_module m ∷ next) =
    added_module m ∷ modparrot_insert_module modp next
modparrot_insert_module modp (other_module m ∷ next) =
    other_module m ∷ modparrot_insert_module modp next

-- A finished module enters the array, the table by name and Apache's lists; a cleanup of the pool
-- takes it out of Apache's again.
abbrev pub entered : AprPool → Module → World → World
entered p m w =
    let modp = length w.module_array in
    record w {
      module_array = w.module_array ++ m ∷ [];
      module_hash = hash_set m.name modp w.module_hash;
      top_modules = modparrot_insert_module modp w.top_modules;
      loaded = modp ∷ w.loaded;
      module_cleanups = update w.module_cleanups p (modp ∷ w.module_cleanups p);
    }

unfoldable pub enter_module : AprPool → Module → M World ModuleId
enter_module p m w = ok (length w.module_array) (entered p m w)

-- The subs that the four lookups find.
pub record MetaSubs : Type 0 where
  pub server_create : Option Pmc
  pub server_merge : Option Pmc
  pub dir_create : Option Pmc
  pub dir_merge : Option Pmc

-- The module that is entered, from what has been read and found.
abbrev pub filled_module :
    CStr → CStr → List Command → (ℕ → Bool) → MetaSubs → Option CtxPool → Module
filled_module name namespace cmds hooks subs ctx_pool = record {
  name = name;
  info = record {
    ctx_pool_name = none;
    ctx_pool = ctx_pool;
    server_create_sub = subs.server_create;
    server_merge_sub = subs.server_merge;
    dir_create_sub = subs.dir_create;
    dir_merge_sub = subs.dir_merge;
    namespace = namespace;
    hooks = hooks;
  };
  cmds = cmds;
  creates_server_config = is_some subs.server_create;
  merges_server_config = is_some subs.server_merge;
  creates_dir_config = is_some subs.dir_create;
  merges_dir_config = is_some subs.dir_merge;
}

abbrev pub commands_of : Option (List CmdPmc) → List CmdPmc
commands_of none = []
commands_of (some cmds) = cmds

module _ (parrot : Parrot) where
  unfoldable pub find_subs : Interp → CStr → M World MetaSubs
  find_subs interp namespace = do
    server_create ← parrot.find_meta_handler interp namespace (lit "server_create")
    server_merge ← parrot.find_meta_handler interp namespace (lit "server_merge")
    dir_create ← parrot.find_meta_handler interp namespace (lit "dir_create")
    dir_merge ← parrot.find_meta_handler interp namespace (lit "dir_merge")
    pure (record {
      server_create = server_create;
      server_merge = server_merge;
      dir_create = dir_create;
      dir_merge = dir_merge;
    })

  -- The module for a name that is new. The directives are optional.
  unfoldable pub new_module :
      Interp → CStr → CStr → Option (List CmdPmc) → List ℤ → CtxId → Option Server → M World Module
  unfolding init_cmds populate_hooks find_subs load with_store
  new_module interp name namespace cmd_array hook_array c server = do
    s ← deref server
    cmds ← init_cmds (commands_of cmd_array)
    hooks ← populate_hooks hook_array
    subs ← find_subs interp namespace
    x ← with_store (load c)
    pure (filled_module name namespace cmds hooks subs x.ctx_pool)

  unfoldable pub modparrot_add_module :
      Interp → Option AprPool → CStr → CStr → Option (List CmdPmc) → List ℤ → M World ModuleId
  unfolding new_module enter_module load with_store
  modparrot_add_module interp p name namespace cmd_array hook_array = do
    ctxp ← with_store (get_interp_ctx interp)
    c ← deref ctxp
    x ← with_store (load c)
    w ← get
    elim (hash_get name w.module_hash) [
      | some modp ↦ pure modp
      | none ↦ (do
        q ← deref p
        m ← new_module interp name namespace cmd_array hook_array c x.s
        enter_module q m)
    ]
