-- ===== src/Startup.antt =====
-- Contexts and interpreters at work (src/mod_parrot.c): an interpreter is started, a context is
-- found for a handler, a pool is selected, a context's state moves to another pool.
pub mod Bound
pub mod Named
pub mod Reserve
use mod_parrot.Base.{
  ℕ, Bool, true, false, Option, none, some, ◌==◌, get_elem?, or_else, if◌then◌else◌,
}
use mod_parrot.Base.Int.{pos, is_minus_one}
use mod_parrot.CStr.{CStr, lit}
use mod_parrot.Run.{M, pure, deref, get, modify, ◌>>=◌, ◌>>◌}
use mod_parrot.Context.{CtxId, CtxPool, AprPool, Interp, Server, Ctx, ctx_any, Mpm}
use mod_parrot.Context.Ops.{
  load, assign, mp_ctx_pool_init, reserve_ctx, release_ctx, set_interp_ctx,
  modparrot_get_current_ctx, modparrot_set_current_ctx, modparrot_set_named_ctx_pool,
  modparrot_get_named_ctx_pool,
}
use mod_parrot.Config.{SrvConfig, opt_trace_init, is_set}
use mod_parrot.Module.{ModuleId, Module, ModConfig}
use mod_parrot.World.{World, with_store, set_srv_config, Parrot}

-- Pointers are equal if they are both `NULL` or point to the same thing.
abbrev pub ptr_eq : Option ℕ → Option ℕ → Bool
ptr_eq none none = true
ptr_eq none (some b) = false
ptr_eq (some a) none = false
ptr_eq (some a) (some b) = a == b

abbrev pub config_of : Server → M World SrvConfig
config_of s = do w ← get; pure (w.srv_config s)

abbrev pub change_config : Server → (SrvConfig → SrvConfig) → M World (Unit {0})
change_config s f = modify (λ w. set_srv_config s (f (w.srv_config s)) w)

-- `if (x) f(x)`.
abbrev pub when_some : {A : Type 0} → Option A → (A → M World (Unit {0})) → M World (Unit {0})
when_some none f = pure tt
when_some (some a) f = f a

unfoldable pub default_init : CStr
default_init = lit "mod_parrot.pbc"

-- The name of the pool that a directory section asks for.
abbrev pub section_name : Option ℕ → ModuleId → World → Option CStr
section_name none modp w = none
section_name (some dir) modp w = elim (w.mod_dir_config dir modp) [
  | none ↦ none
  | some cfg ↦ cfg.ctx_pool_name
]

abbrev pub server_pool : Server → ModuleId → World → Option CtxPool
server_pool s modp w = elim (w.mod_srv_config s modp) [ none ↦ none | some cfg ↦ cfg.ctx_pool ]

module _ (mpm : Mpm) (parrot : Parrot) where
  -- `modparrot_init`.
  unfoldable pub modparrot_init : CtxId → Server → M World (Option Interp)
  unfolding default_init
  modparrot_init ctx s = do
    change_config s
        (λ cfg. if is_minus_one cfg.trace_flags then record cfg { trace_flags = pos 0 } else cfg)
    w ← get
    interp ← parrot.new_interp w.root_interp
    modify (λ w. record w { root_interp = or_else w.root_interp interp })
    i ← deref interp
    cfg ← config_of s
    parrot.set_trace i (if is_set cfg.option_flags opt_trace_init then cfg.trace_flags else pos 0)
    cfg ← config_of s
    when_some cfg.so_path (parrot.set_module_path i)
    cfg ← config_of s
    parrot.load_bytecode i (elim cfg.init_path [ none ↦ default_init | some path ↦ path ])
    cfg ← config_of s
    when_some cfg.include_path
        (parrot.call_sub_string i (lit "ModParrot") (lit "modparrot_set_lib_path"))
    cfg ← config_of s
    when_some cfg.lib_path
        (parrot.call_sub_string i (lit "ModParrot") (lit "modparrot_set_lib_path"))
    cfg ← config_of s
    when_some cfg.dynext_path
        (parrot.call_sub_string i (lit "ModParrot") (lit "modparrot_set_dynext_path"))
    parrot.call_sub i (lit "ModParrot") (lit "modparrot_init")
    with_store (set_interp_ctx i ctx)
    pure (some i)

  -- The interpreter of a context that was reserved: whether it has one now.
  unfoldable pub start_interp : CtxId → Server → M World Bool
  unfolding modparrot_init load assign with_store
  start_interp c s = do
    x ← with_store (load c)
    elim x.interp [
      | some i ↦ pure true
      | none ↦ (do
        interp ← modparrot_init c s
        elim interp [
          | none ↦ pure false
          | some i ↦ (with_store (assign c (λ x. record x { interp = some i })) >> pure true)
        ])
    ]

  -- A context that was reserved, or `NULL`: with its interpreter started, and bound to `p`.
  unfoldable pub start_and_bind : Server → Option AprPool → Option CtxId → M World (Option CtxId)
  unfolding start_interp modparrot_set_current_ctx with_store
  start_and_bind s p none = pure none
  start_and_bind s p (some c) = do
    started ← start_interp c s
    if started
        then (when_some p (λ q. with_store (modparrot_set_current_ctx q c)) >> pure (some c))
        else pure none

  -- The branch of `init_ctx` that reserves a context.
  unfoldable pub reserve_for : Server → Option AprPool → Option CtxPool → M World (Option CtxId)
  unfolding start_and_bind reserve_ctx with_store
  reserve_for s p ctx_pool = do
    cfg ← config_of s
    ctxp ← with_store (reserve_ctx mpm (or_else ctx_pool cfg.ctx_pool) ctx_any)
    start_and_bind s p ctxp

  -- The context bound to `p`, unless it belongs to another pool than the one asked for.
  unfoldable pub current_in : Option AprPool → Option CtxPool → M World (Option CtxId)
  unfolding modparrot_get_current_ctx load with_store
  current_in none ctx_pool = pure none
  current_in (some q) ctx_pool = do
    ctxp ← with_store (modparrot_get_current_ctx (some q))
    elim ctxp [
      | none ↦ pure none
      | some c ↦ elim ctx_pool [
        | none ↦ pure (some c)
        | some cp ↦ (do
          x ← with_store (load c)
          if ptr_eq x.ctx_pool (some cp) then pure (some c) else pure none)
      ]
    ]

  unfoldable pub current_or_reserve :
      Server → Option AprPool → Option CtxPool → Option CtxId → M World (Option CtxId)
  unfolding reserve_for
  current_or_reserve s p ctx_pool (some c) = pure (some c)
  current_or_reserve s p ctx_pool none = reserve_for s p ctx_pool

  unfoldable pub init_ctx : Server → Option AprPool → Option CtxPool → M World (Option CtxId)
  unfolding current_in current_or_reserve assign with_store
  init_ctx s p ctx_pool = do
    current ← current_in p ctx_pool
    ctxp ← current_or_reserve s p ctx_pool current
    when_some ctxp (λ c. with_store (assign c (λ x. record x { s = some s })))
    pure ctxp

  -- `clone_ctx_state`.
  unfoldable pub clone_ctx_state :
      CtxId → Option CtxPool → Server → Option AprPool → M World (Option CtxId)
  unfolding init_ctx load assign with_store
  clone_ctx_state cur new_ctx_pool s p = do
    x ← with_store (load cur)
    if ptr_eq x.ctx_pool new_ctx_pool then pure (some cur) else (do
      ctxp ← init_ctx s p new_ctx_pool
      elim ctxp [
        | none ↦ pure none
        | some c ↦ (do
          y ← with_store (load cur)
          with_store (
              assign c (λ z. record z {
                r = y.r;
                s = y.s;
                pconf = y.pconf;
                plog = y.plog;
                ptemp = y.ptemp;
                pchild = y.pchild;
                c = y.c;
                csd = y.csd;
                module_index = y.module_index;
              }))
          pure (some c))
      ])

  -- The part of `modparrot_startup` that makes a pool of one context and names it.
  unfoldable pub create_pool : Server → Option Interp → CStr → M World (Option CtxPool)
  unfolding mp_ctx_pool_init modparrot_set_named_ctx_pool with_store
  create_pool s parent_interp name = do
    ctx_pool ← with_store (mp_ctx_pool_init mpm parent_interp 1)
    elim ctx_pool [
      | none ↦ pure none
      | some cp ↦ (do
        with_store (modparrot_set_named_ctx_pool name cp)
        change_config s (λ cfg. record cfg { ctx_pool = or_else cfg.ctx_pool (some cp) })
        pure (some cp))
    ]

  unfoldable pub find_pool : CStr → M World (Option CtxPool)
  unfolding modparrot_get_named_ctx_pool with_store
  find_pool name = do
    w ← get
    if w.is_started then with_store (modparrot_get_named_ctx_pool name) else pure none

  unfoldable pub modparrot_startup :
      AprPool → Server → Option Interp → Option CStr → M World (Option CtxId)
  unfolding create_pool find_pool init_ctx
  modparrot_startup p s parent_interp pool_name = do
    modify (λ w. if w.is_started then w else record w { base_server = some s })
    let name = elim pool_name as (λ _. CStr) [ none ↦ lit "default" | some n ↦ n ]
    found ← find_pool name
    ctx_pool ← elim found [ some cp ↦ pure (some cp) | none ↦ create_pool s parent_interp name ]
    elim ctx_pool [
      | none ↦ pure none
      | some cp ↦ (do
        ctxp ← init_ctx s (some p) (some cp)
        when_some ctxp (λ _. modify (λ w. record w { is_started = true }))
        pure ctxp)
    ]

  -- The pool of a directory section, always looked up by its name. When the name is not known the
  -- pool is started, but the result is still that of the lookup.
  unfoldable pub section_pool : Server → CStr → M World (Option CtxPool)
  unfolding modparrot_get_named_ctx_pool modparrot_startup release_ctx with_store
  section_pool s name = do
    cp ← with_store (modparrot_get_named_ctx_pool name)
    elim cp [
      | some p ↦ pure (some p)
      | none ↦ (do
        w ← get
        ctxp ← modparrot_startup w.pconf s none (some name)
        with_store (release_ctx ctxp)
        pure none)
    ]

  unfoldable pub select_ctx_pool : ModuleId → Server → Option ℕ → M World (Option CtxPool)
  unfolding section_pool
  select_ctx_pool modp s per_dir_config = do
    w ← get
    m ← deref (get_elem? w.module_array modp)
    elim (section_name per_dir_config modp w) [
      | some name ↦ section_pool s name
      | none ↦ pure (or_else (server_pool s modp w) m.info.ctx_pool)
    ]
