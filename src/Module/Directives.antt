-- ===== src/Module/Directives.antt =====
-- The directives of added modules (src/module.c, `modparrot_module_cmd_*`): a context is started, the
-- configurations of the server and of the section are made if they are not there, and the HLL sub
-- of the directive is called.
pub mod Creation
pub mod Call
pub mod Faults
use mod_parrot.Base.{
  ℕ, zero, suc, Option, none, some, List, [], ◌∷◌, ◌==◌, get_elem?, if◌then◌else◌,
}
use mod_parrot.Base.Int.{ℤ}
use mod_parrot.CStr.{CStr}
use mod_parrot.Run.{M, pure, deref, get, modify, ◌>>=◌, ◌>>◌}
use mod_parrot.Context.{
  CtxId, AprPool, Interp, Server, Ctx, ConfigPtr, server_config, dir_config, Mpm,
}
use mod_parrot.Context.Ops.{load, assign, modparrot_get_ctx_pool_name}
use mod_parrot.Module.{Pmc, ModuleId, ModuleInfo, Module, ModConfig, Command}
use mod_parrot.World.{World, with_store, Parrot}
use mod_parrot.Startup.{modparrot_startup}

-- What the directives read of a `cmd_parms`, with the `modp` of the command's data.
pub record CmdParms : Type 0 where
  pub server : Server
  pub pool : AprPool
  pub temp_pool : AprPool
  pub cmd : Command
  pub modp : ModuleId

-- The configuration behind a pointer, and a change of it.
abbrev pub config_at : ConfigPtr → World → Option ModConfig
config_at (server_config s modp) w = w.mod_srv_config s modp
config_at (dir_config d modp) w = w.mod_dir_config d modp

abbrev pub set_in : (ℕ → ℕ → Option ModConfig) → ℕ → ℕ → ModConfig → ℕ → ℕ → Option ModConfig
set_in f a b cfg x y = if a == x then (if b == y then some cfg else f x y) else f x y

abbrev pub set_config : ConfigPtr → ModConfig → World → World
set_config (server_config s modp) cfg w = record w {
  mod_srv_config = set_in w.mod_srv_config s modp cfg;
}
set_config (dir_config d modp) cfg w = record w {
  mod_dir_config = set_in w.mod_dir_config d modp cfg;
}

unfoldable pub assign_config : ConfigPtr → (ModConfig → ModConfig) → M World (Unit {0})
assign_config ptr f = do w ← get; cfg ← deref (config_at ptr w); modify (set_config ptr (f cfg))

abbrev set_elem : {A : Type 0} → List A → ℕ → A → List A
set_elem [] i y = []
set_elem (x ∷ xs) zero y = y ∷ xs
set_elem (x ∷ xs) (suc i) y = x ∷ set_elem xs i y

-- The name of the module's pool, which is remembered.
unfoldable pub module_pool_name : ModuleId → M World (Option CStr)
unfolding modparrot_get_ctx_pool_name with_store
module_pool_name modp = do
  w ← get
  m ← deref (get_elem? w.module_array modp)
  elim m.info.ctx_pool_name [
    | some name ↦ pure (some name)
    | none ↦ (do
      cp ← deref m.info.ctx_pool
      name ← with_store (modparrot_get_ctx_pool_name cp)
      modify (λ v. record v {
        module_array =
            set_elem v.module_array modp
              (record m { info = record m.info { ctx_pool_name = name } });
      })
      pure name)
  ]

unfoldable pub interp_of : CtxId → M World Interp
unfolding load with_store
interp_of c = do x ← with_store (load c); deref x.interp

module _ (mpm : Mpm) (parrot : Parrot) where
  -- `if (sub) cfg->cfg = Parrot_call_sub(...)`.
  unfoldable pub call_create_sub : CtxId → Option Pmc → Pmc → ConfigPtr → M World (Unit {0})
  unfolding assign_config interp_of
  call_create_sub c none parms ptr = pure tt
  call_create_sub c (some sub) parms ptr = do
    i ← interp_of c
    cfg ← parrot.call_create i sub parms
    assign_config ptr (λ k. record k { cfg = some cfg })

  -- A configuration without a PMC gets its name, and the PMC that the module's sub makes.
  unfoldable pub fill_config :
      CtxId
      → ModuleId
      → (ModuleInfo → Option Pmc)
      → Pmc
      → ConfigPtr
      → Option Pmc
      → M World (Unit {0})
  unfolding assign_config call_create_sub
  fill_config c modp create parms ptr (some cfg) = pure tt
  fill_config c modp create parms ptr none = do
    w ← get
    m ← deref (get_elem? w.module_array modp)
    assign_config ptr (λ k. record k { name = some m.name })
    call_create_sub c (create m.info) parms ptr

  -- The configuration of a server or a section, if there is one.
  unfoldable pub create_config :
      CtxId → ModuleId → (ModuleInfo → Option Pmc) → Pmc → Option ConfigPtr → M World (Unit {0})
  unfolding fill_config
  create_config c modp create parms none = pure tt
  create_config c modp create parms (some ptr) = do
    w ← get
    k ← deref (config_at ptr w)
    fill_config c modp create parms ptr k.cfg

  -- `ap_get_module_config`: a pointer, or `NULL`.
  unfoldable pub srv_config_ptr : Server → ModuleId → M World (Option ConfigPtr)
  srv_config_ptr s modp = do
    w ← get
    elim (w.mod_srv_config s modp) [
      | none ↦ pure none
      | some k ↦ pure (some (server_config s modp))
    ]

  -- The call of the sub, which gets the configuration of the directory.
  unfoldable pub call_directive :
      CtxId → CmdParms → Option ConfigPtr → Pmc → List (Option CStr) → M World ℤ
  unfolding interp_of
  call_directive c cmd mconfig parms args = do
    dircfg ← deref mconfig
    w ← get
    k ← deref (config_at dircfg w)
    i ← interp_of c
    parrot.call_command i cmd.cmd.func parms k.cfg args

  -- From the object for the `cmd_parms` on: the two configurations, the call of the sub and the
  -- end.
  unfoldable pub run_directive :
      CtxId → CmdParms → Option ConfigPtr → List (Option CStr) → M World (Unit {0})
  unfolding interp_of srv_config_ptr create_config call_directive assign with_store
  run_directive c cmd mconfig args = do
    i ← interp_of c
    parms ← parrot.wrap_cmd_parms i
    srvcfg ← srv_config_ptr cmd.server cmd.modp
    with_store (assign c (λ x. record x { raw_srv_config = srvcfg }))
    create_config c cmd.modp (λ info. info.server_create_sub) parms srvcfg
    with_store (assign c (λ x. record x { raw_dir_config = mconfig }))
    create_config c cmd.modp (λ info. info.dir_create_sub) parms mconfig
    call_directive c cmd mconfig parms args
    with_store (assign c (λ x. record x { raw_srv_config = none; raw_dir_config = none }))

  -- `modparrot_module_cmd_take123`. `mconfig` may be `NULL`; so may the arguments be, of which
  -- `make_cmd_args_array` makes a Parrot array. The result is `NULL`, no message.
  unfoldable pub modparrot_module_cmd_take123 :
      CmdParms → Option ConfigPtr → Option CStr → Option CStr → Option CStr → M World (Option CStr)
  unfolding module_pool_name modparrot_startup run_directive assign with_store
  modparrot_module_cmd_take123 cmd mconfig arg1 arg2 arg3 = do
    name ← module_pool_name cmd.modp
    ctxp ← modparrot_startup mpm parrot cmd.temp_pool cmd.server none name
    c ← deref ctxp
    with_store (assign c (λ x. record x { pconf = some cmd.pool }))
    run_directive c cmd mconfig (arg1 ∷ arg2 ∷ arg3 ∷ [])
    pure none

  abbrev pub modparrot_module_cmd_take1 :
      CmdParms → Option ConfigPtr → Option CStr → M World (Option CStr)
  modparrot_module_cmd_take1 cmd mconfig arg =
      modparrot_module_cmd_take123 cmd mconfig arg none none

  abbrev pub modparrot_module_cmd_take2 :
      CmdParms → Option ConfigPtr → Option CStr → Option CStr → M World (Option CStr)
  modparrot_module_cmd_take2 cmd mconfig arg1 arg2 =
      modparrot_module_cmd_take123 cmd mconfig arg1 arg2 none

  abbrev pub modparrot_module_cmd_no_args : CmdParms → Option ConfigPtr → M World (Option CStr)
  modparrot_module_cmd_no_args cmd mconfig = modparrot_module_cmd_take123 cmd mconfig none none none

  -- The text of the flag is made and not used.
  abbrev pub modparrot_module_cmd_flag : CmdParms → Option ConfigPtr → ℕ → M World (Option CStr)
  modparrot_module_cmd_flag cmd mconfig flag =
      modparrot_module_cmd_take123 cmd mconfig none none none
