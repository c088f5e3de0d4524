-- ===== src/OpenLogs.antt =====
-- The two `open_logs` handlers (src/mod_parrot.c). The first starts the interpreters of the main
-- server and of its virtual hosts, `hosts`, which are the servers that follow it by `next`. The
-- second calls HLL code for each of them. A module's configuration belongs to one server here, where
-- a host that Apache does not merge shares it with the main server.
pub mod Hosts
use mod_parrot.Base.{
  ℕ, Bool, true, false, not, ◌&&◌, Option, none, some, List, [], ◌∷◌, ◌==◌, is_some, if◌then◌else◌,
}
use mod_parrot.Base.Int.{ℤ, pos, minus_one, to_index}
use mod_parrot.CStr.{CStr, lit}
use mod_parrot.Run.{M, pure, deref, get, modify, ◌>>=◌, ◌>>◌}
use mod_parrot.Context.{CtxId, CtxPool, AprPool, Interp, Server, Ctx, Mpm}
use mod_parrot.Context.Ops.{load, assign}
use mod_parrot.Config.{opt_enable, opt_parent, opt_trace_init, is_set}
use mod_parrot.Module.{ModuleId, ModConfig, hook_open_logs}
use mod_parrot.World.{World, with_store, Parrot}
use mod_parrot.Startup.{config_of, change_config, init_ctx, modparrot_startup, select_ctx_pool}
use mod_parrot.Files.{modparrot_load_files}
use mod_parrot.Handlers.{
  status_ok, internal_server_error, set_ctx, modparrot_call_meta_handler, switch_ctx, next_in_line,
}

-- `status == OK`.
abbrev pub is_ok : ℤ → Bool
is_ok status = elim (to_index status) [ none ↦ false | some n ↦ n == 0 ]

-- `cfg->ctx_pool = cp` for a module's configuration of a server.
abbrev pub cache_pool : Server → ModuleId → ModConfig → Option CtxPool → World → World
cache_pool s modp cfg cp w = record w {
  mod_srv_config = λ t m.
      if (s == t) && (modp == m) then some (record cfg { ctx_pool = cp }) else w.mod_srv_config t m;
}

module _ (mpm : Mpm) (parrot : Parrot) where
  -- The `ParrotLoad` files of a server, and its trace flags if the start was not traced.
  unfoldable pub load_preload : CtxId → Server → M World (Unit {0})
  unfolding load with_store modparrot_load_files is_set
  load_preload c s = do
    x ← with_store (load c)
    i ← deref x.interp
    cfg ← config_of s
    modparrot_load_files parrot i cfg.preload
    changed ← config_of s
    if is_set changed.option_flags opt_trace_init
        then pure tt
        else parrot.set_trace i changed.trace_flags

  -- The main server's context and interpreter, if mod_parrot is enabled there: `none` when it
  -- cannot be started, and `some none` when the variables stay without a value.
  unfoldable pub open_main :
      AprPool → AprPool → Server → M World (Option (Option (CtxId × Option Interp)))
  unfolding is_set modparrot_startup load assign with_store load_preload
  open_main pconf ptemp s = do
    mpcfg ← config_of s
    if not (is_set mpcfg.option_flags opt_enable) then pure (some none) else (do
      ctxp ← modparrot_startup mpm parrot ptemp s none none
      elim ctxp [
        | none ↦ pure none
        | some c ↦ (do
          set_ctx c (λ x. record x { pconf = some pconf })
          x ← with_store (load c)
          set_ctx c (λ x. record x { module_index = minus_one })
          set_ctx c (λ x. record x { pool = some pconf })
          load_preload c s
          pure (some (some (c, x.interp))))
      ])

  -- A host with `+Parent`. The pool that is set is that of the main server's context.
  unfoldable pub open_host :
      AprPool → AprPool → CtxId × Option Interp → Server → M World (Option CtxId)
  unfolding modparrot_startup assign with_store load_preload
  open_host pconf ptemp (c, parent_interp) vs = do
    vsctxp ← modparrot_startup mpm parrot ptemp vs parent_interp none
    elim vsctxp [
      | none ↦ pure none
      | some d ↦ (do
        set_ctx d (λ x. record x { pconf = some pconf })
        set_ctx d (λ x. record x { module_index = minus_one })
        set_ctx c (λ x. record x { pool = some pconf })
        load_preload d vs
        pure (some d))
    ]

  -- A host on which mod_parrot is enabled: whether to go on.
  unfoldable pub open_enabled_host :
      AprPool → AprPool → Server → Option (CtxId × Option Interp) → Server → M World Bool
  unfolding is_set open_host
  open_enabled_host pconf ptemp s main vs = do
    vscfg ← config_of vs
    if is_set vscfg.option_flags opt_parent
        then (do
          started ← deref main
          vsctxp ← open_host pconf ptemp started vs
          pure (is_some vsctxp))
        else (do
          mpcfg ← config_of s
          change_config vs (λ cfg. record cfg { ctx_pool = mpcfg.ctx_pool })
          pure true)

  unfoldable pub open_hosts :
      AprPool → AprPool → Server → Option (CtxId × Option Interp) → List Server → M World ℤ
  unfolding is_set open_enabled_host
  open_hosts pconf ptemp s main [] = pure status_ok
  open_hosts pconf ptemp s main (vs ∷ hosts) =
      let rest : M World ℤ = open_hosts pconf ptemp s main hosts in
      (do
        vscfg ← config_of vs
        if not (is_set vscfg.option_flags opt_enable) then rest else (do
          opened ← open_enabled_host pconf ptemp s main vs
          if opened then rest else pure internal_server_error))

  unfoldable pub modparrot_open_logs_handler : AprPool → AprPool → Server → List Server → M World ℤ
  unfolding open_main open_hosts
  modparrot_open_logs_handler pconf ptemp s hosts = do
    main ← open_main pconf ptemp s
    elim main [ none ↦ pure internal_server_error | some m ↦ open_hosts pconf ptemp s m hosts ]

  -- The pool that a host's module configuration names is started, and remembered there. The result
  -- is the context to go on with, or `none` when the pool cannot be started.
  unfoldable pub host_pool : AprPool → ModuleId → CtxId → Server → M World (Option CtxId)
  unfolding modparrot_startup load with_store
  host_pool pconf modp c vs = do
    w ← get
    cfg ← deref (w.mod_srv_config vs modp)
    elim cfg.ctx_pool_name [
      | none ↦ pure (some c)
      | some name ↦ (do
        ctxp ← modparrot_startup mpm parrot pconf vs none (some name)
        elim ctxp [
          | none ↦ pure none
          | some d ↦ (do
            x ← with_store (load d)
            v ← get
            now ← deref (v.mod_srv_config vs modp)
            modify (cache_pool vs modp now x.ctx_pool)
            pure (some d))
        ])
    ]

  -- The HLL handler of one host: its status, and the context to go on with.
  unfoldable pub call_for_host : AprPool → ModuleId → CtxId → Server → M World (CtxId × ℤ)
  unfolding select_ctx_pool switch_ctx assign with_store load_preload modparrot_call_meta_handler
  call_for_host ptemp modp c vs = do
    ctx_pool ← select_ctx_pool mpm parrot modp vs none
    cloned ← switch_ctx mpm parrot c ctx_pool vs (some ptemp)
    d ← deref cloned
    set_ctx d (λ x. record x { s = some vs })
    load_preload d vs
    status ← modparrot_call_meta_handler mpm parrot d modp (lit "open_logs_handler")
    pure (d, status)

  unfoldable pub meta_open_hosts : AprPool → AprPool → ModuleId → CtxId → List Server → M World ℤ
  unfolding is_set host_pool call_for_host
  meta_open_hosts pconf ptemp modp c [] = pure status_ok
  meta_open_hosts pconf ptemp modp c (vs ∷ hosts) =
      let rest : CtxId → M World ℤ = λ d. meta_open_hosts pconf ptemp modp d hosts in
      (do
        vscfg ← config_of vs
        if not (is_set vscfg.option_flags opt_enable) then rest c else (do
          ctxp ← host_pool pconf modp c vs
          elim ctxp [
            | none ↦ pure internal_server_error
            | some d ↦ (do
              (e, status) ← call_for_host ptemp modp d vs
              if is_ok status then rest e else pure status)
          ]))

  unfoldable pub modparrot_meta_open_logs_handler :
      AprPool → AprPool → AprPool → Server → List Server → M World ℤ
  unfolding init_ctx next_in_line is_set assign with_store modparrot_call_meta_handler
      meta_open_hosts
  modparrot_meta_open_logs_handler pconf plog ptemp s hosts = do
    ctxp ← init_ctx mpm parrot s (some ptemp) none
    elim ctxp [
      | none ↦ pure internal_server_error
      | some c ↦ (do
        (modp, cloned) ← next_in_line mpm parrot hook_open_logs c s none (some ptemp)
        mpcfg ← config_of s
        if not (is_set mpcfg.option_flags opt_enable) then pure status_ok else (do
          d ← deref cloned
          set_ctx d (λ x. record x {
            pconf = some pconf;
            plog = some plog;
            ptemp = some ptemp;
            s = some s;
          })
          status ← modparrot_call_meta_handler mpm parrot d modp (lit "open_logs_handler")
          if is_ok status then meta_open_hosts pconf ptemp modp d hosts else pure status))
    ]
