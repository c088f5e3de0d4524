-- ===== src/Nci/Config.antt =====
-- What HLL code learns in a handler (src/nci.c), and the context pool that it gives a configuration.
use mod_parrot.Base.{get_elem?, refl, ℕ, ◌≡◌, ap, ◌∙◌, true, false, Option, none, some, arith}
use mod_parrot.CStr.{CStr}
use mod_parrot.Hash.{hash_get}
use mod_parrot.Run.{ok}
use mod_parrot.Context.{CtxId, CtxPool, AprPool, Interp, Server, Ctx, dir_config, Mpm}
use mod_parrot.Context.Ops.{load, get_interp_ctx, modparrot_get_named_ctx_pool}
use mod_parrot.Module.{ModuleId, Module, ModConfig}
use mod_parrot.World.{World, with_store, Parrot}
use mod_parrot.Startup.{section_name, section_pool, select_ctx_pool}
use mod_parrot.Handlers.{RequestRec}
use mod_parrot.Handlers.Meta.{with_request}
use mod_parrot.Module.Directives.{set_config, assign_config}
use mod_parrot.Module.Directives.Creation.{config-set}
use mod_parrot.Nci.Fields.{ctx_field, mpnci_request_rec, mpnci_server_rec}
use mod_parrot.Nci.{
  ctx_of_interp, cfg_or_pmcnull, mpnci_get_module_config, mpnci_set_config_ctx_pool,
}

module _ (i : Interp) (c : CtxId) (x : Ctx) (w : World)
    (bound : w.store.interp_ctx i ≡ some c) where
  -- In the state in which a meta handler calls the HLL handler of a request, in an interpreter of its
  -- context: the HLL code gets that request, its server, and of any module that was added the PMC for
  -- the request's directory section and the PMC for its server, as Apache has merged them; the PMC for
  -- the section is `PMCNULL` if there is no configuration.
  pub get_config-in_request :
      (request : ℕ → RequestRec) (r : RequestRec) (k d : ℕ) (name : CStr) (modp : ModuleId)
      → request r.r ≡ r
      → r.per_dir_config ≡ some d
      → hash_get name w.module_hash ≡ some modp
      → let v = with_request c x r k w in
        (mpnci_request_rec i v ≡ ok (some r.r) v)
        × (mpnci_server_rec i v ≡ ok (some r.server) v)
        × (mpnci_get_module_config request i name true v
            ≡ ok (cfg_or_pmcnull (w.mod_dir_config d modp)) v)
        × (mpnci_get_module_config request i name false v
            ≡ ok (cfg_or_pmcnull (w.mod_srv_config r.server modp)) v)
  unfolding mpnci_get_module_config ctx_field load get_interp_ctx with_store
  get_config-in_request request r k d name modp knows section known =
      let vector = ap (λ (q : RequestRec). q.per_dir_config) knows ∙ section in
      (ground arith, ground arith, ground arith, ground arith)

  set-section_name :
      (d : ℕ) (modp : ModuleId) (p : AprPool) (name : CStr) (cfg : ModConfig)
      → w.store.ctxs c ≡ some x
      → x.pconf ≡ some p
      → w.mod_dir_config d modp ≡ some cfg
      → let v = set_config (dir_config d modp) (record cfg { ctx_pool_name = some name }) w in
        (mpnci_set_config_ctx_pool i (dir_config d modp) name w ≡ ok tt v)
        × (section_name (some d) modp v ≡ some name)
  unfolding mpnci_set_config_ctx_pool ctx_of_interp assign_config load get_interp_ctx with_store
  set-section_name d modp p name cfg at pool there = (
    ground arith,
    ap (λ (o : Option ModConfig). elim o [ none ↦ none | some k ↦ k.ctx_pool_name ])
        (config-set (dir_config d modp) (record cfg { ctx_pool_name = some name }) w),
  )

  -- After HLL code, in an interpreter whose context is allocated and has a `pconf`, gave the
  -- configuration of a section for an added module a context pool by a name that is known, the pool
  -- of that name is selected for the module in the section, whatever its server and the module itself
  -- have.
  pub set-select_ctx_pool :
      (mpm : Mpm) (parrot : Parrot) (d : ℕ) (modp : ModuleId) (m : Module) (s : Server)
      (p : AprPool) (name : CStr) (cp : CtxPool) (cfg : ModConfig)
      → w.store.ctxs c ≡ some x
      → x.pconf ≡ some p
      → w.mod_dir_config d modp ≡ some cfg
      → get_elem? w.module_array modp ≡ some m
      → hash_get name w.store.ctx_pool_hash ≡ some cp
      → (v : World) × (mpnci_set_config_ctx_pool i (dir_config d modp) name w ≡ ok tt v)
        × (select_ctx_pool mpm parrot modp s (some d) v ≡ ok (some cp) v)
  unfolding select_ctx_pool section_pool modparrot_get_named_ctx_pool with_store
  set-select_ctx_pool mpm parrot d modp m s p name cp cfg at pool there found known =
      let (run, named) = set-section_name d modp p name cfg at pool there in
      (
        set_config (dir_config d modp) (record cfg { ctx_pool_name = some name }) w,
        run,
        rw (found, named, known) refl,
      )
