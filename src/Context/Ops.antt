-- ===== src/Context/Ops.antt =====
-- The functions of src/context.c. APR pools stand for their data and cleanups only: how long
-- memory lives, and the registry that keeps Parrot's PMCs from its collector, are not modelled.
use mathlib.Core.List.{reverse}
use mod_parrot.Base.{
  ℕ, zero, suc, true, false, Option, none, some, List, [], ◌∷◌, ◌++◌, get_elem?, length, take,
  if◌then◌else◌,
}
use mod_parrot.Base.Int.{ℤ, is_minus_one, to_index}
use mod_parrot.CStr.{CStr}
use mod_parrot.Hash.{Hash, hash_get, hash_set}
use mod_parrot.Run.{ok, fault, M, pure, deref, get, modify, ◌>>=◌, ◌>>◌}
use mod_parrot.Context.Slots.{storage}
use mod_parrot.Context.{
  CtxId, CtxPool, AprPool, Interp, Ctx, zeroed_ctx, ready, destroyed, Mpm, Store, update,
}

-- `*c`.
unfoldable pub load : CtxId → M Store Ctx
load c w = deref (w.ctxs c) w

abbrev pub write : CtxId → Ctx → Store → Store
write c x w = record w { ctxs = update w.ctxs c (some x) }

-- An assignment to fields of `*c`.
unfoldable pub assign : CtxId → (Ctx → Ctx) → M Store (Unit {0})
unfolding load
assign c f = do x ← load c; modify (write c (f x))

-- `ctx_pool->elts`.
unfoldable pub elts_of : CtxPool → M Store (List CtxId)
elts_of cp w = deref (w.pools cp) w

unfoldable pub lock_mutex : M Store (Unit {0})
lock_mutex w = elim w.mutex [ ready ↦ ok tt w | _ ↦ fault ]

unfoldable pub array_make : M Store CtxPool
array_make w = ok w.next_pool (record w {
  pools = update w.pools w.next_pool (some []);
  stale = update w.stale w.next_pool [];
  next_pool = suc w.next_pool;
})

-- One round of the loop of `mp_ctx_pool_init`: a zeroed context, pushed onto the array.
unfoldable pub push_ctx : CtxPool → Option Interp → M Store (Unit {0})
unfolding elts_of
push_ctx cp parent_interp = do
  elts ← elts_of cp
  modify λ w. record w {
    ctxs =
        update w.ctxs w.next_ctx
          (some (record zeroed_ctx { ctx_pool = some cp; parent_interp = parent_interp }));
    next_ctx = suc w.next_ctx;
    pools = update w.pools cp (some (elts ++ w.next_ctx ∷ []));
  }

unfoldable pub push_ctxs : ℕ → CtxPool → Option Interp → M Store (Unit {0})
push_ctxs zero cp parent_interp = pure tt
push_ctxs (suc n) cp parent_interp = push_ctx cp parent_interp >> push_ctxs n cp parent_interp

unfoldable pub create_mutex : Mpm → CtxPool → M Store (Option CtxPool)
create_mutex mpm cp =
    if mpm.creates_mutex
    then (modify (λ w. record w { mutex = ready }) >> pure (some cp))
    else pure none

unfoldable pub mp_ctx_pool_init : Mpm → Option Interp → ℕ → M Store (Option CtxPool)
unfolding array_make push_ctxs create_mutex push_ctx
mp_ctx_pool_init mpm parent_interp num = do
  cp ← array_make
  push_ctxs num cp parent_interp
  if mpm.threaded then create_mutex mpm cp else pure (some cp)

-- The storage of an array, pointer by pointer.
unfoldable pub slots_of : CtxPool → M Store (List (Option CtxId))
unfolding elts_of
slots_of cp = do elts ← elts_of cp; w ← get; pure (storage (elts ++ w.stale cp))

-- The scan of `reserve_ctx` for `MP_CTX_ANY`.
unfoldable pub reserve_any : List (Option CtxId) → M Store (Option CtxId)
unfolding load assign
reserve_any [] = pure none
reserve_any (slot ∷ rest) = do
  c ← deref slot
  x ← load c
  if x.locked
      then reserve_any rest
      else (assign c (λ x. record x { locked = true }) >> pure (some c))

unfoldable pub reserve_at : Option CtxId → M Store (Option CtxId)
unfolding load assign
reserve_at none = pure none
reserve_at (some c) = do
  x ← load c
  if x.locked then pure none else (assign c (λ x. record x { locked = true }) >> pure (some c))

-- `elts[index]`, a fault outside the storage.
unfoldable pub elt_at : List (Option CtxId) → ℤ → M Store (Option CtxId)
elt_at slots index = elim (to_index index) [
  | none ↦ (λ w. fault)
  | some i ↦ deref (get_elem? slots i)
]

-- `*elts[0]`, where the element is dereferenced.
unfoldable pub first_of : List (Option CtxId) → M Store CtxId
first_of slots = do slot ← deref (get_elem? slots 0); deref slot

unfoldable pub reserve_threaded : ℕ → List (Option CtxId) → ℤ → M Store (Option CtxId)
unfolding lock_mutex reserve_any reserve_at elt_at
reserve_threaded nelts slots index = do
  lock_mutex
  if is_minus_one index then reserve_any (take nelts slots) else (elt_at slots index >>= reserve_at)

-- Without threads the first context is handed out, locked or not.
unfoldable pub reserve_single : List (Option CtxId) → M Store (Option CtxId)
unfolding assign first_of
reserve_single slots = do
  c ← first_of slots
  assign c (λ x. record x { locked = true })
  pure (some c)

unfoldable pub reserve_ctx : Mpm → Option CtxPool → ℤ → M Store (Option CtxId)
unfolding elts_of slots_of reserve_threaded reserve_single
reserve_ctx mpm none index = pure none
reserve_ctx mpm (some cp) index = do
  elts ← elts_of cp
  slots ← slots_of cp
  if mpm.threaded then reserve_threaded (length elts) slots index else reserve_single slots

unfoldable pub release_ctx : Option CtxId → M Store (Unit {0})
unfolding assign
release_ctx ctxp = do c ← deref ctxp; assign c (λ x. record x { locked = false })

-- One round of the loop of `mp_ctx_pool_destroy`: the interpreter runs its exit handlers.
unfoldable pub destroy_ctx : CtxId → M Store (Unit {0})
unfolding load assign
destroy_ctx c = do
  x ← load c
  elim x.interp [
    | none ↦ pure tt
    | some i ↦
        modify (λ w. record w { ended = i ∷ w.ended }) >> assign c (λ x. record x { interp = none })
  ]

unfoldable pub destroy_ctxs : List CtxId → M Store (Unit {0})
destroy_ctxs [] = pure tt
destroy_ctxs (c ∷ cs) = destroy_ctx c >> destroy_ctxs cs

-- `apr_array_pop` takes the contexts from the end, until the array is empty.
unfoldable pub pop_ctxs : CtxPool → M Store (Unit {0})
unfolding elts_of destroy_ctxs destroy_ctx
pop_ctxs cp = do
  elts ← elts_of cp
  destroy_ctxs (reverse elts)
  modify λ w. record w {
    pools = update w.pools cp (some []);
    stale = update w.stale cp (elts ++ w.stale cp);
  }

unfoldable pub mp_ctx_pool_destroy : Mpm → Option CtxPool → M Store (Unit {0})
unfolding lock_mutex pop_ctxs
mp_ctx_pool_destroy mpm none = pure tt
mp_ctx_pool_destroy mpm (some cp) =
    if mpm.threaded
    then (do lock_mutex; pop_ctxs cp; modify (λ w. record w { mutex = destroyed }))
    else pop_ctxs cp

unfoldable pub destroy_pools : Mpm → Hash CtxPool → M Store (Unit {0})
destroy_pools mpm [] = pure tt
destroy_pools mpm ((name, cp) ∷ rest) = mp_ctx_pool_destroy mpm (some cp) >> destroy_pools mpm rest

-- In the order of the table, where `apr_hash_first` and `apr_hash_next` promise none.
unfoldable pub mp_ctx_pool_destroy_all : Mpm → M Store (Unit {0})
mp_ctx_pool_destroy_all mpm = do w ← get; destroy_pools mpm w.ctx_pool_hash

unfoldable pub set_interp_ctx : Interp → CtxId → M Store (Unit {0})
unfolding assign
set_interp_ctx interp ctx = do
  modify (λ w. record w { interp_ctx = update w.interp_ctx interp (some ctx) })
  assign ctx (λ x. record x { interp = some interp })

unfoldable pub get_interp_ctx : Interp → M Store (Option CtxId)
get_interp_ctx interp w = ok (w.interp_ctx interp) w

-- The `assert(p)` is a fault here.
unfoldable pub modparrot_get_current_ctx : Option AprPool → M Store (Option CtxId)
modparrot_get_current_ctx p w = elim p [ none ↦ fault | some q ↦ ok (w.userdata q) w ]

-- The cleanup of a bound context. The PMC that it unregisters is in no model state.
unfoldable pub modparrot_ctx_cleanup : CtxId → M Store (Unit {0})
unfolding load release_ctx
modparrot_ctx_cleanup c = load c >> release_ctx (some c)

-- `apr_pool_userdata_set` with a cleanup: the newest binding holds, and every cleanup stays.
unfoldable pub modparrot_set_current_ctx : AprPool → CtxId → M Store (Unit {0})
modparrot_set_current_ctx p c = modify λ w. record w {
  userdata = update w.userdata p (some c);
  cleanups = update w.cleanups p (c ∷ w.cleanups p);
}

unfoldable pub modparrot_set_named_ctx_pool : CStr → CtxPool → M Store (Unit {0})
unfolding slots_of first_of assign
modparrot_set_named_ctx_pool name cp = do
  modify (λ w. record w { ctx_pool_hash = hash_set name cp w.ctx_pool_hash })
  slots ← slots_of cp
  c ← first_of slots
  assign c (λ x. record x { ctx_pool_name = some name })

unfoldable pub modparrot_get_named_ctx_pool : CStr → M Store (Option CtxPool)
modparrot_get_named_ctx_pool name w = ok (hash_get name w.ctx_pool_hash) w

unfoldable pub modparrot_get_ctx_pool_name : CtxPool → M Store (Option CStr)
unfolding slots_of first_of load
modparrot_get_ctx_pool_name cp = do
  slots ← slots_of cp
  c ← first_of slots
  x ← load c
  pure x.ctx_pool_name
