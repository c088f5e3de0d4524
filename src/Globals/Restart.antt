-- ===== src/Globals/Restart.antt =====
-- What a restart of the server does to mod_parrot's state (src/mod_parrot.c,
-- `modparrot_init_globals`; src/modparrot_config.c, `modparrot_cleanup`).
use mod_parrot.Base.{
  ℕ, zero, suc, ◌≤◌, ◌≡◌, refl, ap, ◌∙◌, true, false, some, List, [], ◌∷◌, ◌++◌, ◌==◌, length,
  get_elem?, arith, none, if◌then◌else◌,
}
use mod_parrot.CStr.{CStr}
use mod_parrot.Run.{ok, fault, M}
use mod_parrot.Context.{AprPool, CtxId, CtxPool, Server, Mpm, Store, ready, destroyed}
use mod_parrot.Context.Capacity.{Distinct}
use mod_parrot.Context.Reserve.{Allocated}
use mod_parrot.Context.Destroy.{interps, mp_ctx_pool_destroy-Ended}
use mod_parrot.Context.Ops.{destroy_pools, mp_ctx_pool_destroy, mp_ctx_pool_destroy_all}
use mod_parrot.Config.{SrvConfig}
use mod_parrot.Module.{ModuleId, Module}
use mod_parrot.Module.Hooks.{register_meta_hooks}
use mod_parrot.World.{World}
use mod_parrot.Globals.{modparrot_init_globals, reset_modules, modparrot_cleanup}

get_elem?-outside : {A : Type 0} (xs : List A) (i : ℕ) → length xs ≤ i → get_elem? xs i ≡ none
get_elem?-outside [] i out = refl
get_elem?-outside (x ∷ xs) zero out = absurd (ground arith)
get_elem?-outside (x ∷ xs) (suc i) out = get_elem?-outside xs i (omega arith)

-- Where mod_parrot stays in memory over a restart: when the globals have been initialised again, a
-- base server is known, and no more modules have been added than were registered before, the
-- registration of a module's hooks reads outside the array of modules.
pub init_globals-register :
    (p : AprPool) (w : World) (s : Server) (ms : List Module)
    → length ms ≤ w.meta_index
    → register_meta_hooks
        (record (modparrot_init_globals p w) { base_server = some s; module_array = ms })
      ≡ fault
unfolding register_meta_hooks
init_globals-register p w s ms few =
    let outside = get_elem?-outside ms w.meta_index few in ground arith

module _ (store_null : ModuleId → M World (Unit {0})) (nulled : ModuleId → World → World) where
  -- What the store of `NULL` into a module does: it returns, and its effect is on the modules alone.
  abbrev pub Stores : Type 0
  Stores =
      (i : ModuleId) (w : World)
      → (store_null i w ≡ ok tt (nulled i w))
        × ((nulled i w).store ≡ w.store)
        × ((nulled i w).srv_config ≡ w.srv_config)
        × ((nulled i w).is_started ≡ w.is_started)

  -- The store into `n` modules in order, from the `i`-th on.
  abbrev pub nulled_from : ModuleId → ℕ → World → World
  nulled_from i zero w = w
  nulled_from i (suc n) w = nulled_from (suc i) n (nulled i w)

  module _ (stores : Stores) where
    reset_modules-nulled :
        (ms : List Module) (i : ModuleId) (w : World)
        → (reset_modules store_null i ms w ≡ ok tt (nulled_from i (length ms) w))
          × ((nulled_from i (length ms) w).store ≡ w.store)
          × ((nulled_from i (length ms) w).srv_config ≡ w.srv_config)
          × ((nulled_from i (length ms) w).is_started ≡ w.is_started)
    unfolding reset_modules
    reset_modules-nulled [] i w = (refl, refl, refl, refl)
    reset_modules-nulled (m ∷ ms) i w =
        let (one, s, c, b) = stores i w in
        let (run, s', c', b') = reset_modules-nulled ms (suc i) (nulled i w) in
        (rw one run, s' ∙ s, c' ∙ c, b' ∙ b)

    destroy_all_one :
        (mpm : Mpm) (w v : Store) (name : CStr) (p : CtxPool)
        → w.ctx_pool_hash ≡ (name, p) ∷ []
        → mp_ctx_pool_destroy mpm (some p) w ≡ ok tt v
        → mp_ctx_pool_destroy_all mpm w ≡ ok tt v
    unfolding mp_ctx_pool_destroy_all destroy_pools
    destroy_all_one mpm w v name p table run = simp (table, run)

    -- The store of a server at its cleanup, and after the resets.
    abbrev reset : Server → Store → World → World
    reset s u w = record w {
      store = u;
      srv_config =
          λ t. if s == t then record (w.srv_config s) { ctx_pool = none } else w.srv_config t;
      is_started = false;
    }

    cleanup-run :
        (mpm : Mpm) (s : Server) (w : World) (u : Store)
        → mp_ctx_pool_destroy_all mpm w.store ≡ ok tt u
        → modparrot_cleanup store_null mpm s w
          ≡ ok tt (nulled_from 0 (length w.module_array) (reset s u w))
    unfolding modparrot_cleanup
    cleanup-run mpm s w u run =
        let (loop, store, configs, started) = reset_modules-nulled w.module_array 0 (reset s u w) in
        ground (arith, run, loop)

    -- Where the store of `NULL` into a module touches only the modules, and there is one named
    -- pool, of distinct allocated contexts, with the mutex ready if the build is threaded: the cleanup
    -- of a server ends the interpreters of that pool and empties it, takes the pool out of the
    -- server's configuration and leaves the other configurations alone, marks mod_parrot as not
    -- started, stores `NULL` into every added module and returns. In the threaded build the mutex is
    -- destroyed.
    pub cleanup-resets :
        (mpm : Mpm) (s : Server) (w : World) (name : CStr) (p : CtxPool) (elts : List CtxId)
        → w.store.ctx_pool_hash ≡ (name, p) ∷ []
        → w.store.pools p ≡ some elts
        → Allocated w.store.ctxs elts
        → Distinct elts
        → (mpm.threaded ≡ true → w.store.mutex ≡ ready)
        → (u v : World) × (modparrot_cleanup store_null mpm s w ≡ ok tt v)
          × (v ≡ nulled_from 0 (length w.module_array) u)
          × (v.store.ended ≡ interps w.store.ctxs elts ++ w.store.ended)
          × (v.store.pools p ≡ some [])
          × (v.store.mutex ≡ (if mpm.threaded then destroyed else w.store.mutex))
          × ((t : Server)
              → v.srv_config t
                ≡ (if s == t then record (w.srv_config s) { ctx_pool = none } else w.srv_config t))
          × (v.is_started ≡ false)
    cleanup-resets mpm s w name p elts table pool allocated distinct lock =
        let (u, run, ended, ctxs, empty, mutex) =
          mp_ctx_pool_destroy-Ended mpm p elts w.store pool allocated distinct lock in
        let all = destroy_all_one mpm w.store u name p table run in
        let before = reset s u w in
        let v = nulled_from 0 (length w.module_array) before in
        let (loop, store, configs, started) = reset_modules-nulled w.module_array 0 before in
        (
          before,
          v,
          cleanup-run mpm s w u all,
          refl,
          ap (λ (x : Store). x.ended) store ∙ ended,
          ap (λ (x : Store). x.pools p) store ∙ empty,
          ap (λ (x : Store). x.mutex) store ∙ mutex,
          λ t. ap (λ (f : Server → SrvConfig). f t) configs,
          started,
        )
