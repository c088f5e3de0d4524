-- ===== src/Context/Names.antt =====
-- Named context pools.
use mod_parrot.Base.{refl, ◌≡◌, some, List, [], ◌∷◌, arith, if◌then◌else◌}
use mod_parrot.CStr.{CStr, str_eq}
use mod_parrot.Hash.{hash_get, hash_set}
use mod_parrot.Hash.Laws.{get-set}
use mod_parrot.Run.{ok, fault}
use mod_parrot.Context.{CtxId, CtxPool, Ctx, Store, update}
use mod_parrot.Context.Ops.{
  modparrot_set_named_ctx_pool, modparrot_get_named_ctx_pool, modparrot_get_ctx_pool_name,
}

-- The store in which the pool `cp`, whose first context is `c`, has a name.
abbrev named : CStr → CtxPool → CtxId → Ctx → Store → Store
named name cp c x w = record w {
  ctx_pool_hash = hash_set name cp w.ctx_pool_hash;
  ctxs = update w.ctxs c (some (record x { ctx_pool_name = some name }));
}

module _ (name : CStr) (cp : CtxPool) (w : Store) where
  set_named-named :
      (c : CtxId) (cs : List CtxId) (x : Ctx)
      → w.pools cp ≡ some (c ∷ cs)
      → w.ctxs c ≡ some x
      → modparrot_set_named_ctx_pool name cp w ≡ ok tt (named name cp c x w)
  unfolding modparrot_set_named_ctx_pool
  set_named-named c cs x pool e = ground arith

  -- Naming a pool that has an allocated first context: from then on the name finds the pool, every
  -- other name finds what it found before, and the pool tells its name.
  pub get-set_named :
      (c : CtxId) (cs : List CtxId) (x : Ctx)
      → w.pools cp ≡ some (c ∷ cs)
      → w.ctxs c ≡ some x
      → (v : Store) × (modparrot_set_named_ctx_pool name cp w ≡ ok tt v)
        × ((other : CStr)
            → modparrot_get_named_ctx_pool other v
              ≡ ok (if str_eq name other then some cp else hash_get other w.ctx_pool_hash) v)
        × (modparrot_get_ctx_pool_name cp v ≡ ok (some name) v)
  unfolding modparrot_get_named_ctx_pool modparrot_get_ctx_pool_name
  get-set_named c cs x pool e = (
    named name cp c x w,
    set_named-named c cs x pool e,
    λ other. rw (get-set name other cp w.ctx_pool_hash),
    ground arith,
  )

  -- A pool that has no context, and had none, can neither be given a name nor tell one: the source
  -- reads element 0.
  pub named_empty :
      w.pools cp ≡ some []
      → w.stale cp ≡ []
      → (modparrot_set_named_ctx_pool name cp w ≡ fault)
        × (modparrot_get_ctx_pool_name cp w ≡ fault)
  unfolding modparrot_set_named_ctx_pool modparrot_get_ctx_pool_name
  named_empty pool never = (rw (pool, never) refl, rw (pool, never) refl)
