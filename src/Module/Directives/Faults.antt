-- ===== src/Module/Directives/Faults.antt =====
-- A directive of an added module for which Apache has no directory configuration (src/module.c).
use mod_parrot.Base.{◌≢◌, Option, none, some, arith, List, ◌∷◌, []}
use mod_parrot.CStr.{CStr}
use mod_parrot.Run.{ok, deref}
use mod_parrot.Run.Returns.{Never, Returns-bind, Never-bind}
use mod_parrot.Context.{CtxId, Mpm}
use mod_parrot.Context.Ops.{assign}
use mod_parrot.Module.{Pmc}
use mod_parrot.World.{World, with_store, Parrot}
use mod_parrot.Startup.{modparrot_startup}
use mod_parrot.Module.Directives.{
  CmdParms, interp_of, srv_config_ptr, create_config, run_directive, call_directive,
  module_pool_name, modparrot_module_cmd_take123,
}

module _ (mpm : Mpm) (parrot : Parrot) (cmd : CmdParms) where
  call_directive-Never :
      (c : CtxId) (parms : Pmc) (args : List (Option CStr))
      → Never (call_directive mpm parrot c cmd none parms args)
  unfolding call_directive
  call_directive-Never c parms args w v a e = ground arith

  run_directive-Never :
      (c : CtxId) (args : List (Option CStr)) → Never (run_directive mpm parrot c cmd none args)
  unfolding run_directive
  run_directive-Never c args = Returns-bind (interp_of c) _ (λ i.
      Returns-bind (parrot.wrap_cmd_parms i) _ (λ parms.
        Returns-bind (srv_config_ptr mpm parrot cmd.server cmd.modp) _ (λ srvcfg.
          Returns-bind (with_store (assign c (λ x. record x { raw_srv_config = srvcfg }))) _ (λ a.
            Returns-bind
              (create_config mpm parrot c cmd.modp (λ info. info.server_create_sub) parms srvcfg) _
              (λ b.
                Returns-bind (with_store (assign c (λ x. record x { raw_dir_config = none }))) _
                  (λ d.
                    Returns-bind
                      (create_config mpm parrot c cmd.modp (λ info. info.dir_create_sub) parms none)
                      _
                      (λ e.
                        Never-bind (call_directive mpm parrot c cmd none parms args)
                          (λ r. with_store (
                            assign c
                              (λ x. record x { raw_srv_config = none; raw_dir_config = none })))
                          (call_directive-Never c parms args))))))))

  cmd_take123-Never :
      (arg1 arg2 arg3 : Option CStr)
      → Never (modparrot_module_cmd_take123 mpm parrot cmd none arg1 arg2 arg3)
  unfolding modparrot_module_cmd_take123
  cmd_take123-Never arg1 arg2 arg3 = Returns-bind (module_pool_name cmd.modp) _ (λ name.
      Returns-bind (modparrot_startup mpm parrot cmd.temp_pool cmd.server none name) _ (λ ctxp.
        Returns-bind (deref ctxp) _ (λ c.
          Returns-bind (with_store (assign c (λ x. record x { pconf = some cmd.pool }))) _ (λ a.
            Never-bind (run_directive mpm parrot c cmd none (arg1 ∷ arg2 ∷ arg3 ∷ [])) _
              (run_directive-Never c (arg1 ∷ arg2 ∷ arg3 ∷ []))))))

  -- No run of a directive of an added module for which Apache passes no directory configuration
  -- returns, whatever the HLL code does: each ends in what C leaves undefined or in a call of `exit`.
  pub cmd_take123-no_config :
      (arg1 arg2 arg3 : Option CStr) (w v : World) (message : Option CStr)
      → modparrot_module_cmd_take123 mpm parrot cmd none arg1 arg2 arg3 w ≢ ok message v
  cmd_take123-no_config arg1 arg2 arg3 w v message = cmd_take123-Never arg1 arg2 arg3 w v message
