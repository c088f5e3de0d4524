-- ===== src/Context/Init.antt =====
-- `mp_ctx_pool_init`: what a new pool holds, and how many reservations it serves.
use mathlib.Core.List.{append-nil}
use mod_parrot.Base.{
  ℕ, zero, suc, ◌+◌, ◌*◌, get_elem?, ◌<◌, ◌≡◌, refl, ap, sym, ◌∙◌, Bool, true, false, not, ◌&&◌,
  Option, none, some, List, [], ◌∷◌, ◌==◌, arith, if◌then◌else◌, ==_iff, ==_refl, Bool-cases, inl,
  inr,
}
use mod_parrot.Run.{ok, fault, result}
use mod_parrot.Context.{CtxId, CtxPool, Interp, Ctx, ctx_any, ready, Mpm, Store, update}
use mod_parrot.Context.Ops.{reserve_ctx, slots_of, push_ctxs, mp_ctx_pool_init}
use mod_parrot.Context.Slots.{storage, get_elem?-storage}
use mod_parrot.Context.Reserve.{
  Readable, set_locked, first_free, reserve_ctx-first, reserve_ctx_strides,
}
use mod_parrot.Context.Push.{range, is_between, new_ctx, Pushed, push_ctxs-Pushed}

-- What `mp_ctx_pool_init` makes of the store `w`, when it returns the pool `cp`.
pub record IsCreated (parent_interp : Option Interp) (num : ℕ) (cp : CtxPool) (w v : Store)
    : Type 0 where
  pub number : cp ≡ w.next_pool
  pub pools :
      (q : CtxPool) → v.pools q ≡ (if cp == q then some (range w.next_ctx num) else w.pools q)
  pub contexts :
      (c : CtxId)
      → v.ctxs c
        ≡ (if is_between w.next_ctx num c then some (new_ctx cp parent_interp) else w.ctxs c)
  pub stale : (q : CtxPool) → v.stale q ≡ (if cp == q then [] else w.stale q)
  pub hash : v.ctx_pool_hash ≡ w.ctx_pool_hash
  pub userdata : v.userdata ≡ w.userdata
  pub interp_ctx : v.interp_ctx ≡ w.interp_ctx

abbrev made : Store → Store
made w = record w {
  pools = update w.pools w.next_pool (some []);
  stale = update w.stale w.next_pool [];
  next_pool = suc w.next_pool;
}

created_pools :
    (parent_interp : Option Interp) (num : ℕ) (w v : Store) (q : CtxPool)
    → Pushed num w.next_pool parent_interp [] (made w) v
    → v.pools q ≡ (if w.next_pool == q then some (range w.next_ctx num) else w.pools q)
created_pools parent_interp num w v q p = elim (Bool-cases (w.next_pool == q)) [
  | inl same ↦
      let e : w.next_pool ≡ q = (==_iff w.next_pool q).0 same in rw (same, sym e) p.elements
  | inr other ↦ p.other_pools q other ∙ rw (other, update)
]

-- The mutex is the last thing that is set.
abbrev finish : Bool → Store → Store
finish true v = record v { mutex = ready }
finish false v = v

IsCreated-finish :
    (threaded : Bool) (parent_interp : Option Interp) (num : ℕ) (w v : Store)
    → Pushed num w.next_pool parent_interp [] (made w) v
    → IsCreated parent_interp num w.next_pool w (finish threaded v)
IsCreated-finish true parent_interp num w v p = record {
  number = refl;
  pools = λ q. created_pools parent_interp num w v q p;
  contexts = p.contexts;
  stale = λ q. ap (λ (s : Store). s.stale q) p.rest;
  hash = ap (λ (s : Store). s.ctx_pool_hash) p.rest;
  userdata = ap (λ (s : Store). s.userdata) p.rest;
  interp_ctx = ap (λ (s : Store). s.interp_ctx) p.rest;
}
IsCreated-finish false parent_interp num w v p = record {
  number = refl;
  pools = λ q. created_pools parent_interp num w v q p;
  contexts = p.contexts;
  stale = λ q. ap (λ (s : Store). s.stale q) p.rest;
  hash = ap (λ (s : Store). s.ctx_pool_hash) p.rest;
  userdata = ap (λ (s : Store). s.userdata) p.rest;
  interp_ctx = ap (λ (s : Store). s.interp_ctx) p.rest;
}

made_pool : (w : Store) → (made w).pools w.next_pool ≡ some []
made_pool w = ground arith

finish_mutex :
    (threaded : Bool) (v : Store)
    → (finish threaded v).mutex ≡ (if threaded then ready else v.mutex)
finish_mutex true v = refl
finish_mutex false v = refl

slots_of-created :
    (cp : CtxPool) (parent_interp : Option Interp) (num : ℕ) (w v : Store)
    → IsCreated parent_interp num cp w v
    → slots_of cp v ≡ ok (storage (range w.next_ctx num)) v
unfolding slots_of
slots_of-created cp parent_interp num w v p =
    let elts : v.pools cp ≡ some (range w.next_ctx num) = p.pools cp ∙ rw ==_refl refl in
    let none_popped : v.stale cp ≡ [] = p.stale cp ∙ rw ==_refl refl in
    rw (elts, none_popped, append-nil) refl

get_elem?-range : (start n i : ℕ) → i < n → get_elem? (range start n) i ≡ some (start + i)
get_elem?-range start zero i h = absurd (omega arith)
get_elem?-range start (suc n) zero h = ground arith
get_elem?-range start (suc n) (suc i) h =
    get_elem?-range (suc start) n i (omega arith) ∙ ap some (omega arith)

module _ (mpm : Mpm) (parent_interp : Option Interp) (num : ℕ) (w : Store) where
  mp_ctx_pool_init-ok :
      (v : Store)
      → (mpm.threaded && not mpm.creates_mutex) ≡ false
      → push_ctxs num w.next_pool parent_interp (made w) ≡ ok tt v
      → mp_ctx_pool_init mpm parent_interp num w ≡ ok (some w.next_pool) (finish mpm.threaded v)
  unfolding mp_ctx_pool_init
  mp_ctx_pool_init-ok v works e = rw e (ground arith)

  -- Unless the threaded build cannot create its mutex, `mp_ctx_pool_init` returns a new pool onto
  -- which `num` new contexts are pushed, zeroed but for their pool and parent interpreter, and
  -- changes no other pool or context, no name and no binding. In the threaded build the mutex is then
  -- ready, in the other it is left alone. The `i`-th context is not the `i`-th pointer of the
  -- pool's storage, but number 18 times `i`, and the next pointer behind it is `NULL`.
  pub mp_ctx_pool_init-IsCreated :
      (mpm.threaded && not mpm.creates_mutex) ≡ false
      → (cp : CtxPool) × (v : Store) × (mp_ctx_pool_init mpm parent_interp num w ≡ ok (some cp) v)
        × IsCreated parent_interp num cp w v
        × (v.mutex ≡ (if mpm.threaded then ready else w.mutex))
        × (ss : List (Option CtxId)) × (slots_of cp v ≡ ok ss v)
        × ((i : ℕ)
            → i < num
            → (get_elem? ss (i * 18) ≡ some (some (w.next_ctx + i)))
              × (get_elem? ss (i * 18 + 1) ≡ some none))
  mp_ctx_pool_init-IsCreated works =
      let (v, e, p) = push_ctxs-Pushed num w.next_pool parent_interp [] (made w) (made_pool w) in
      let created = IsCreated-finish mpm.threaded parent_interp num w v p in
      (
        w.next_pool,
        finish mpm.threaded v,
        mp_ctx_pool_init-ok v works e,
        created,
        finish_mutex mpm.threaded v
            ∙ ap (λ (u : Store). if mpm.threaded then ready else u.mutex) p.rest,
        storage (range w.next_ctx num),
        slots_of-created w.next_pool parent_interp num w (finish mpm.threaded v) created,
        λ i inside.
            get_elem?-storage (range w.next_ctx num) i (w.next_ctx + i)
              (get_elem?-range w.next_ctx num i inside),
      )

  mp_ctx_pool_init-fails :
      (v : Store)
      → mpm.threaded ≡ true
      → mpm.creates_mutex ≡ false
      → push_ctxs num w.next_pool parent_interp (made w) ≡ ok tt v
      → result (mp_ctx_pool_init mpm parent_interp num w) ≡ some none
  unfolding mp_ctx_pool_init
  mp_ctx_pool_init-fails v threads fails e = rw e (ground arith)

-- The first reservation from a pool of contexts in a row.
module _ (mpm : Mpm) (threads : mpm.threaded ≡ true) (cp : CtxPool) (w : Store) (c k : ℕ)
    (lock : w.mutex ≡ ready) (pool : w.pools cp ≡ some (range c (suc k))) (x : Ctx)
    (at : w.ctxs c ≡ some x) where
  range-Readable : (n : ℕ) → x.locked ≡ false → Readable w.ctxs (range c (suc n))
  range-Readable zero free = (x, at)
  range-Readable (suc n) free = (x, at, free)

  reserve_new :
      x.locked ≡ false → reserve_ctx mpm (some cp) ctx_any w ≡ ok (some c) (set_locked true c w)
  reserve_new free =
      let run =
        reserve_ctx-first mpm threads cp w lock (range c (suc k)) pool (range-Readable k free) in
      let first : first_free w.ctxs (range c (suc k)) ≡ some c = ground arith in run ∙ rw first refl

reserve_used :
    (mpm : Mpm) (threads : mpm.threaded ≡ true) (cp : CtxPool) (w : Store) (c k : ℕ)
    → w.mutex ≡ ready
    → w.pools cp ≡ some (range c (suc k))
    → (x : Ctx) → w.ctxs c ≡ some x
    → x.locked ≡ true
    → reserve_ctx mpm (some cp) ctx_any w ≡ (if k == 0 then ok none w else fault)
reserve_used mpm threads cp w c zero lock pool x at held =
    let first = reserve_ctx-first mpm threads cp w lock (c ∷ []) pool (x, at) in
    ground (arith, first)
reserve_used mpm threads cp w c (suc k) lock pool x at held =
    let faults =
      reserve_ctx_strides mpm cp w c (suc c) (range (suc (suc c)) k) x threads lock pool at held in
    ground (arith, faults)

-- In the threaded build, if its mutex can be created: a pool that `mp_ctx_pool_init` makes with at
-- least one context serves the first reservation with its first new context. Every later one, as long
-- as nothing is released, returns `NULL` if the pool has no more contexts, and if it has more it
-- dereferences `NULL`.
pub mp_ctx_pool_init-served :
    (mpm : Mpm) (parent_interp : Option Interp) (k : ℕ) (w : Store)
    → mpm.threaded ≡ true
    → mpm.creates_mutex ≡ true
    → (cp : CtxPool) × (v u : Store) × (mp_ctx_pool_init mpm parent_interp (suc k) w
        ≡ ok (some cp) v)
      × (reserve_ctx mpm (some cp) ctx_any v ≡ ok (some w.next_ctx) u)
      × (reserve_ctx mpm (some cp) ctx_any u ≡ (if k == 0 then ok none u else fault))
mp_ctx_pool_init-served mpm parent_interp k w threads works =
    let (cp, v, e, p, lock, ss, slots, reads) =
      mp_ctx_pool_init-IsCreated mpm parent_interp (suc k) w (ground arith) in
    let x = new_ctx cp parent_interp in
    let pool : v.pools cp ≡ some (range w.next_ctx (suc k)) = p.pools cp ∙ rw ==_refl refl in
    let at : v.ctxs w.next_ctx ≡ some x = p.contexts w.next_ctx ∙ ground arith in
    let mutex : v.mutex ≡ ready = lock ∙ rw threads refl in
    let u = set_locked true w.next_ctx v in
    let used : u.ctxs w.next_ctx ≡ some (record x { locked = true }) = ground arith in
    let same : u.pools ≡ v.pools = ground arith in
    let same_mutex : u.mutex ≡ v.mutex = ground arith in
    (
      cp,
      v,
      u,
      e,
      reserve_new mpm threads cp v w.next_ctx k mutex pool x at refl,
      reserve_used mpm threads cp u w.next_ctx k (same_mutex ∙ mutex)
          (ap (λ (f : CtxPool → Option (List CtxId)). f cp) same ∙ pool)
          (record x { locked = true }) used refl,
    )
