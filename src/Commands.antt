-- ===== src/Commands.antt =====
-- The directives of mod_parrot (src/modparrot_config.c, `modparrot_cmd_*`). The result is the error
-- message that Apache prints, or `NULL`.
pub mod Options
use mod_parrot.Base.{
  ℕ, Bool, true, false, Option, none, some, List, [], ◌∷◌, ◌++◌, ◌==◌, if◌then◌else◌,
}
use mod_parrot.CStr.{CStr, lit, atoi}
use mod_parrot.Run.{M, pure, deref, get, modify, ◌>>=◌, ◌>>◌}
use mod_parrot.Context.{AprPool, Server, Mpm}
use mod_parrot.Context.Ops.{load, assign}
use mod_parrot.Config.{SrvConfig, modparrot_set_option}
use mod_parrot.World.{World, with_store, set_srv_config, Parrot}
use mod_parrot.Startup.{config_of, change_config, modparrot_startup}
use mod_parrot.Files.{modparrot_load_file}

-- What the commands read of `cmd_parms`.
pub record CmdParms : Type 0 where
  pub server : Server
  pub pool : AprPool
  pub temp_pool : AprPool

unfoldable pub modparrot_cmd_debug : CmdParms → CStr → M World (Option CStr)
unfolding atoi
modparrot_cmd_debug cmd f = do
  w ← get
  if w.is_virtual cmd.server
      then pure none
      else (modify (λ w. record w { debug_level = atoi f }) >> pure none)

unfoldable pub modparrot_cmd_trace : CmdParms → CStr → M World (Option CStr)
unfolding atoi
modparrot_cmd_trace cmd f = do
  change_config cmd.server (λ cfg. record cfg { trace_flags = atoi f })
  pure none

unfoldable pub modparrot_cmd_load : CmdParms → CStr → M World (Option CStr)
modparrot_cmd_load cmd path = do
  change_config cmd.server (λ cfg. record cfg { preload = cfg.preload ++ path ∷ [] })
  pure none

unfoldable pub modparrot_cmd_init : CmdParms → CStr → M World (Option CStr)
modparrot_cmd_init cmd path = do
  change_config cmd.server (λ cfg. record cfg { init_path = some path })
  pure none

unfoldable pub modparrot_cmd_include_path : CmdParms → CStr → M World (Option CStr)
modparrot_cmd_include_path cmd path = do
  change_config cmd.server (λ cfg. record cfg { include_path = some path })
  pure none

unfoldable pub modparrot_cmd_lib_path : CmdParms → CStr → M World (Option CStr)
modparrot_cmd_lib_path cmd path = do
  change_config cmd.server (λ cfg. record cfg { lib_path = some path })
  pure none

unfoldable pub modparrot_cmd_dynext_path : CmdParms → CStr → M World (Option CStr)
modparrot_cmd_dynext_path cmd path = do
  change_config cmd.server (λ cfg. record cfg { dynext_path = some path })
  pure none

abbrev pub unknown_option : CStr → CStr
unknown_option p = lit "unknown option '" ++ p ++ lit "'"

abbrev pub missing_modifier : CStr → CStr
missing_modifier option = lit "missing +/- modifier for option '" ++ option ++ lit "'"

-- The call of `modparrot_set_option`, and the message if it fails.
unfoldable pub set_option_or_message : CmdParms → CStr → Bool → M World (Option CStr)
unfolding modparrot_set_option
set_option_or_message cmd p enable = do
  cfg ← config_of cmd.server
  let (changed, known) = modparrot_set_option cfg p enable
  modify (set_srv_config cmd.server changed)
  pure (if known then none else some (unknown_option p))

unfoldable pub modparrot_cmd_options : CmdParms → CStr → M World (Option CStr)
unfolding set_option_or_message
modparrot_cmd_options cmd [] = pure (some (missing_modifier []))
modparrot_cmd_options cmd (sign ∷ p) =
    if sign == b'+'
    then set_option_or_message cmd p true
    else (if sign == b'-'
        then set_option_or_message cmd p false
        else pure (some (missing_modifier (sign ∷ p))))

module _ (mpm : Mpm) (parrot : Parrot) where
  -- The context that the start returns is not tested for `NULL`.
  unfoldable pub modparrot_cmd_load_immediate :
      CmdParms → CStr → Option CStr → M World (Option CStr)
  unfolding modparrot_startup load assign with_store modparrot_load_file
  modparrot_cmd_load_immediate cmd path pool_name = do
    ctxp ← modparrot_startup mpm parrot cmd.temp_pool cmd.server none pool_name
    c ← deref ctxp
    with_store (assign c (λ x. record x { pconf = some cmd.pool }))
    x ← with_store (load c)
    i ← deref x.interp
    modparrot_load_file parrot i path
    change_config cmd.server (λ cfg. record cfg { preload = cfg.preload ++ path ∷ [] })
    pure none
