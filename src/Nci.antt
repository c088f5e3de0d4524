-- ===== src/Nci.antt =====
-- The functions that HLL code calls through Parrot's native call interface (src/nci.c).
pub mod Fields
pub mod Config
pub mod Cleanup
use mod_parrot.Base.{
  ℕ, Bool, true, false, Option, none, some, List, [], ◌∷◌, get_elem?, length, ltb, or_else,
  if◌then◌else◌,
}
use mod_parrot.Base.Int.{ℤ, pos, negsuc, to_index}
use mod_parrot.CStr.{CStr}
use mod_parrot.Hash.{hash_get}
use mod_parrot.Run.{M, pure, deref, get, modify, fault, ◌>>=◌, ◌>>◌}
use mod_parrot.Context.{CtxId, AprPool, Interp, Server, Ctx, ConfigPtr, update}
use mod_parrot.Context.Ops.{load, get_interp_ctx, modparrot_get_ctx_pool_name}
use mod_parrot.Module.{Pmc, pmcnull, ModuleId, Command, ModConfig}
use mod_parrot.Module.Add.{CmdPmc, modparrot_add_module}
use mod_parrot.Module.Directives.{CmdParms, assign_config}
use mod_parrot.World.{World, CleanupInfo, with_store, Parrot}
use mod_parrot.Handlers.{RequestRec, internal_server_error}
use mod_parrot.Request.{Brigade, Reply, modparrot_request_read}

-- The context of the interpreter, a fault if there is none.
unfoldable pub ctx_of_interp : Interp → M World Ctx
unfolding load with_store
ctx_of_interp interp = do
  ctxp ← with_store (get_interp_ctx interp)
  c ← deref ctxp
  with_store (load c)

unfoldable pub mpnci_ctx_pool_name : Interp → M World (Option CStr)
unfolding ctx_of_interp modparrot_get_ctx_pool_name with_store
mpnci_ctx_pool_name interp = do
  x ← ctx_of_interp interp
  cp ← deref x.ctx_pool
  with_store (modparrot_get_ctx_pool_name cp)

-- `ap_get_basic_auth_pw` is a parameter. The second component is what the array of the results holds
-- afterwards, if it was set.
unfoldable pub mpnci_request_rec_get_basic_auth_pw :
    (ℕ → M World (ℤ × Option CStr)) → Interp → ℕ → M World (ℤ × Option (ℤ × CStr))
unfolding load with_store
mpnci_request_rec_get_basic_auth_pw ap_get_basic_auth_pw interp r = do
  ctxp ← with_store (get_interp_ctx interp)
  elim ctxp [
    | none ↦ pure (internal_server_error, none)
    | some c ↦ (do
      (status, pw) ← ap_get_basic_auth_pw r
      x ← with_store (load c)
      i ← deref x.interp
      pure (status, some (status, elim pw as (λ _. CStr) [ none ↦ [] | some s ↦ s ])))
  ]

-- `plen < size`.
abbrev pub is_shorter : List ℕ → ℤ → Bool
is_shorter buf (pos size) = ltb (length buf) size
is_shorter buf (negsuc n) = false

-- `ap_rwrite` is a parameter, with the buffer and the number of bytes. A buffer that is shorter than
-- `size` makes the number `len`, which was never set.
unfoldable pub mpnci_rwrite : (List ℕ → ℤ → ℕ → M World ℤ) → Interp → List ℕ → ℤ → ℕ → M World ℤ
unfolding load with_store
mpnci_rwrite ap_rwrite interp buf size r = do
  ctxp ← with_store (get_interp_ctx interp)
  elim ctxp [
    | none ↦ pure (pos 0)
    | some c ↦ (do
      x ← with_store (load c)
      i ← deref x.interp
      if is_shorter buf size then (λ w. fault) else ap_rwrite buf size r)
  ]

-- What the PMC gets, whose length is returned; `none` when the fuel of the loop is used up.
unfoldable pub mpnci_request_read :
    (ℕ → M World Reply)
    → (ℕ → Brigade → List ℕ)
    → M World (Unit {0})
    → Bool
    → Bool
    → ℕ
    → Interp
    → ℕ
    → M World (Option (List ℕ))
unfolding load with_store
mpnci_request_read get_brigade flatten close_connection sentinel_eos creates fuel interp len = do
  ctxp ← with_store (get_interp_ctx interp)
  elim ctxp [
    | none ↦ pure (some [])
    | some c ↦ (do
      x ← with_store (load c)
      modparrot_request_read get_brigade flatten close_connection sentinel_eos creates fuel len)
  ]

unfoldable pub mpnci_add_apache_module :
    Parrot → Interp → CStr → CStr → Option (List CmdPmc) → List ℤ → M World (Option ModuleId)
unfolding load with_store
mpnci_add_apache_module parrot interp name namespace cmd_array hook_array = do
  ctxp ← with_store (get_interp_ctx interp)
  elim ctxp [
    | none ↦ pure none
    | some c ↦ (do
      x ← with_store (load c)
      modp ← modparrot_add_module parrot interp x.pconf name namespace cmd_array hook_array
      pure (some modp))
  ]

-- `cfg ? cfg->cfg : PMCNULL`.
abbrev pub cfg_or_pmcnull : Option ModConfig → Option Pmc
cfg_or_pmcnull none = some pmcnull
cfg_or_pmcnull (some k) = k.cfg

-- The `per_dir_config` of a request is a parameter.
unfoldable pub mpnci_get_module_config :
    (ℕ → RequestRec) → Interp → CStr → Bool → M World (Option Pmc)
unfolding load with_store
mpnci_get_module_config request interp name is_directory = do
  ctxp ← with_store (get_interp_ctx interp)
  elim ctxp [
    | none ↦ pure none
    | some c ↦ (do
      x ← with_store (load c)
      s ← deref x.s
      w ← get
      elim (hash_get name w.module_hash) [
        | none ↦ pure none
        | some modp ↦
            if is_directory
            then (do
              r ← deref x.r
              d ← deref (request r).per_dir_config
              pure (cfg_or_pmcnull (w.mod_dir_config d modp)))
            else pure (cfg_or_pmcnull (w.mod_srv_config s modp))
      ])
  ]

abbrev pub add_cleanup : CleanupInfo → World → World
add_cleanup ci w = record w {
  hll_cleanups = update w.hll_cleanups ci.pool (ci ∷ w.hll_cleanups ci.pool);
}

-- The module is that at the context's `module_index` in the array of all modules.
unfoldable pub mpnci_register_pool_cleanup : Interp → AprPool → Pmc → Pmc → M World (Unit {0})
unfolding load with_store
mpnci_register_pool_cleanup interp p sub data_pmc = do
  ctxp ← with_store (get_interp_ctx interp)
  elim ctxp [
    | none ↦ pure tt
    | some c ↦ (do
      x ← with_store (load c)
      s ← deref x.s
      modp ← deref (to_index x.module_index)
      w ← get
      m ← deref (get_elem? w.module_array modp)
      modify (
          add_cleanup
            (record { modp = modp; callback = sub; hll_data = data_pmc; pool = p; s = x.s })))
  ]

unfoldable pub mpnci_set_config_ctx_pool : Interp → ConfigPtr → CStr → M World (Unit {0})
unfolding ctx_of_interp assign_config
mpnci_set_config_ctx_pool interp ptr pool_name = do
  x ← ctx_of_interp interp
  pconf ← deref x.pconf
  assign_config ptr (λ k. record k { ctx_pool_name = some pool_name })
