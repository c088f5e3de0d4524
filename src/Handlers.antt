-- ===== src/Handlers.antt =====
-- The handlers that mod_parrot registers with Apache (src/mod_parrot.c): the ones of mod_parrot
-- itself, which set a context up, and the meta handlers, which run HLL code for the added modules.
pub mod Switch
pub mod Meta
pub mod SetUp
pub mod Cleanup
use mod_parrot.Base.{ℕ, Bool, not, Option, none, some, get_elem?, if◌then◌else◌}
use mod_parrot.Base.Int.{ℤ, pos, minus_one}
use mod_parrot.CStr.{CStr, lit}
use mod_parrot.Run.{M, pure, deref, get, modify, ◌>>=◌, ◌>>◌}
use mod_parrot.Context.{CtxId, CtxPool, AprPool, Server, Ctx, Mpm}
use mod_parrot.Context.Ops.{load, assign, release_ctx}
use mod_parrot.Config.{opt_enable, is_set}
use mod_parrot.Module.{
  ModuleId, hook_post_config, hook_child_init, hook_pre_connection, hook_process_connection,
}
use mod_parrot.Module.Hooks.{next_handler_module}
use mod_parrot.World.{World, with_store, Parrot}
use mod_parrot.Startup.{ptr_eq, config_of, init_ctx, clone_ctx_state, select_ctx_pool}

-- `OK`, `DECLINED`, `HTTP_INTERNAL_SERVER_ERROR`.
abbrev pub status_ok : ℤ
status_ok = pos 0

abbrev pub declined : ℤ
declined = minus_one

abbrev pub internal_server_error : ℤ
internal_server_error = pos 500

-- What the handlers and the NCI functions read of a `request_rec` and of a `conn_rec`.
pub record RequestRec : Type 0 where
  pub r : ℕ
  pub server : Server
  pub pool : AprPool
  pub connection_pool : AprPool
  pub per_dir_config : Option ℕ
  pub header_only : Bool
  pub main : Option ℕ
  pub next : Option ℕ
  pub prev : Option ℕ
  pub notes : ℕ
  pub headers_in : ℕ
  pub headers_out : ℕ
  pub err_headers_out : ℕ

pub record ConnRec : Type 0 where
  pub c : ℕ
  pub base_server : Server
  pub pool : AprPool

abbrev pub set_ctx : CtxId → (Ctx → Ctx) → M World (Unit {0})
set_ctx c f = with_store (assign c f)

module _ (mpm : Mpm) (parrot : Parrot) where
  -- `modparrot_call_meta_handler`. The result 0, on which its callers log an error, never comes.
  unfoldable pub modparrot_call_meta_handler : CtxId → ModuleId → CStr → M World ℤ
  unfolding load with_store
  modparrot_call_meta_handler c modp hook = do
    x ← with_store (load c)
    w ← get
    m ← deref (get_elem? w.module_array modp)
    i ← deref x.interp
    ctx_pmc ← parrot.context_object i
    sub ← parrot.find_meta_handler i m.info.namespace hook
    parrot.call_meta_handler i sub ctx_pmc

  -- The steps that all meta handlers share: the context moves to the pool of the module, and the
  -- one that it leaves is released. The result may be `NULL`.
  unfoldable pub switch_ctx :
      CtxId → Option CtxPool → Server → Option AprPool → M World (Option CtxId)
  unfolding clone_ctx_state release_ctx with_store
  switch_ctx c ctx_pool s p = do
    cloned ← clone_ctx_state mpm parrot c ctx_pool s p
    if ptr_eq cloned (some c)
        then pure (some c)
        else (with_store (release_ctx (some c)) >> pure cloned)

  -- The module in line and the context in its pool.
  unfoldable pub next_in_line :
      ℕ → CtxId → Server → Option ℕ → Option AprPool → M World (ModuleId × Option CtxId)
  unfolding next_handler_module select_ctx_pool switch_ctx
  next_in_line henum c s per_dir_config p = do
    next ← next_handler_module henum c
    modp ← deref next
    ctx_pool ← select_ctx_pool mpm parrot modp s per_dir_config
    d ← switch_ctx c ctx_pool s p
    pure (modp, d)

  -- A handler of mod_parrot that only sets the context up.
  unfoldable pub set_up : Server → AprPool → AprPool → M World ℤ
  unfolding init_ctx assign with_store
  set_up s bound most_specific = do
    ctxp ← init_ctx mpm parrot s (some bound) none
    elim ctxp [
      | none ↦ pure internal_server_error
      | some c ↦ (do
        set_ctx c (λ x. record x { module_index = minus_one })
        set_ctx c (λ x. record x { pool = some most_specific })
        pure declined)
    ]

  abbrev pub modparrot_request_phase_handler : RequestRec → M World ℤ
  modparrot_request_phase_handler r = set_up r.server r.connection_pool r.pool

  abbrev pub modparrot_pre_connection_handler : ConnRec → M World ℤ
  modparrot_pre_connection_handler c = set_up c.base_server c.pool c.pool

  abbrev pub modparrot_process_connection_handler : ConnRec → M World ℤ
  modparrot_process_connection_handler c = set_up c.base_server c.pool c.pool

  abbrev pub modparrot_post_config_handler : AprPool → AprPool → Server → M World ℤ
  modparrot_post_config_handler pconf ptemp s = set_up s ptemp pconf

  -- `MP_REQUEST_METAHANDLER`. The cleanup that one of its instances registers does nothing.
  unfoldable pub request_metahandler : CStr → ℕ → RequestRec → M World ℤ
  unfolding init_ctx is_set next_in_line modparrot_call_meta_handler assign with_store
  request_metahandler hname henum r = do
    ctxp ← init_ctx mpm parrot r.server (some r.connection_pool) none
    elim ctxp [
      | none ↦ pure internal_server_error
      | some c ↦ (do
        mpcfg ← config_of r.server
        if not (is_set mpcfg.option_flags opt_enable) then pure declined else (do
          (modp, cloned) ← next_in_line henum c r.server r.per_dir_config (some r.pool)
          d ← deref cloned
          set_ctx d (λ x. record x { r = some r.r })
          if r.header_only then pure status_ok else modparrot_call_meta_handler d modp hname))
    ]

  -- The meta handlers of the two connection phases; the second sets no `csd`.
  unfoldable pub connection_metahandler : CStr → ℕ → ConnRec → (Ctx → Ctx) → M World ℤ
  unfolding init_ctx is_set next_in_line modparrot_call_meta_handler assign with_store
  connection_metahandler hname henum conn fields = do
    ctxp ← init_ctx mpm parrot conn.base_server (some conn.pool) none
    elim ctxp [
      | none ↦ pure internal_server_error
      | some c ↦ (do
        mpcfg ← config_of conn.base_server
        if not (is_set mpcfg.option_flags opt_enable) then pure declined else (do
          (modp, cloned) ← next_in_line henum c conn.base_server none (some conn.pool)
          d ← deref cloned
          set_ctx d fields
          modparrot_call_meta_handler d modp hname))
    ]

  abbrev pub modparrot_meta_pre_connection_handler : ConnRec → Option ℕ → M World ℤ
  modparrot_meta_pre_connection_handler conn csd =
      connection_metahandler (lit "pre_connection_handler") hook_pre_connection conn
        (λ x. record x { c = some conn.c; csd = csd })

  abbrev pub modparrot_meta_process_connection_handler : ConnRec → M World ℤ
  modparrot_meta_process_connection_handler conn =
      connection_metahandler (lit "process_connection_handler") hook_process_connection conn
        (λ x. record x { c = some conn.c })

  -- `modparrot_child_init_handler`, with what Apache's MPM answers about its limits.
  unfoldable pub modparrot_child_init_handler : ℕ → ℕ → AprPool → Server → M World (Unit {0})
  unfolding init_ctx assign release_ctx with_store
  modparrot_child_init_handler hard_limit max_threads p s = do
    ctxp ← init_ctx mpm parrot s none none
    elim ctxp [
      | none ↦ pure tt
      | some c ↦ (do
        set_ctx c (λ x. record x { module_index = minus_one })
        modify (λ w. record w {
          hard_thread_limit = if mpm.threaded then hard_limit else 1;
          max_threads = if mpm.threaded then max_threads else 1;
        })
        set_ctx c (λ x. record x { pool = some p })
        with_store (release_ctx (some c)))
    ]

  unfoldable pub modparrot_meta_child_init_handler : AprPool → Server → M World (Unit {0})
  unfolding init_ctx is_set next_in_line modparrot_call_meta_handler assign release_ctx with_store
  modparrot_meta_child_init_handler p s = do
    ctxp ← init_ctx mpm parrot s none none
    elim ctxp [
      | none ↦ pure tt
      | some c ↦ (do
        mpcfg ← config_of s
        if not (is_set mpcfg.option_flags opt_enable) then pure tt else (do
          (modp, cloned) ← next_in_line hook_child_init c s none (some p)
          d ← deref cloned
          set_ctx d (λ x. record x { pchild = some p; s = some s })
          modparrot_call_meta_handler d modp (lit "child_init_handler")
          with_store (release_ctx (some d))))
    ]

  unfoldable pub modparrot_meta_post_config_handler :
      AprPool → AprPool → AprPool → Server → M World ℤ
  unfolding init_ctx is_set next_in_line modparrot_call_meta_handler assign with_store
  modparrot_meta_post_config_handler pconf plog ptemp s = do
    ctxp ← init_ctx mpm parrot s (some ptemp) none
    elim ctxp [
      | none ↦ pure internal_server_error
      | some c ↦ (do
        mpcfg ← config_of s
        if not (is_set mpcfg.option_flags opt_enable) then pure declined else (do
          (modp, cloned) ← next_in_line hook_post_config c s none (some ptemp)
          d ← deref cloned
          set_ctx d (λ x. record x {
            pconf = some pconf;
            plog = some plog;
            ptemp = some ptemp;
            s = some s;
          })
          modparrot_call_meta_handler d modp (lit "post_config_handler")))
    ]
