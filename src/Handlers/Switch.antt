-- ===== src/Handlers/Switch.antt =====
-- A meta handler moves its context to the pool of its module (src/mod_parrot.c: `clone_ctx_state`
-- and the release that follows it in every meta handler).
use mod_parrot.Base.{◌≡◌, true, false, none, some, List, ◌==◌, arith, if◌then◌else◌}
use mod_parrot.Run.{ok}
use mod_parrot.Context.{CtxId, CtxPool, AprPool, Interp, Server, Ctx, ready, Mpm, update}
use mod_parrot.Context.Reserve.{Readable, first_free}
use mod_parrot.World.{World, Parrot}
use mod_parrot.Startup.{ptr_eq, clone_ctx_state}
use mod_parrot.Startup.Reserve.{IsUnbound, reserved_for, init_ctx_reserves, init_ctx_exhausted}
use mod_parrot.Handlers.{switch_ctx}

-- The context `x`, now in use, with what `clone_ctx_state` copies from `y`.
abbrev pub carried : Ctx → Ctx → Ctx
carried x y = record x {
  locked = true;
  r = y.r;
  s = y.s;
  pconf = y.pconf;
  plog = y.plog;
  ptemp = y.ptemp;
  pchild = y.pchild;
  c = y.c;
  csd = y.csd;
  module_index = y.module_index;
}

-- The world after the move, update by update.
abbrev switched : CtxId → Ctx → CtxId → Ctx → Server → AprPool → World → World
switched c x cur y s q w =
    let u = reserved_for c x s q w in
    record u {
      store = record u.store {
        ctxs =
            update (update u.store.ctxs c (some (carried x y))) cur
              (some (record y { locked = false }));
      };
    }

switched-ctxs :
    (c : CtxId) (x : Ctx) (cur : CtxId) (y : Ctx) (s : Server) (q : AprPool) (w : World) (d : CtxId)
    → (c == cur) ≡ false
    → (switched c x cur y s q w).store.ctxs d ≡ (
        if d == c
        then some (carried x y)
        else (if d == cur then some (record y { locked = false }) else w.store.ctxs d))
switched-ctxs c x cur y s q w d apart = ground arith

module _ (mpm : Mpm) (parrot : Parrot) (s : Server) (q : AprPool) (cp : CtxPool) (w : World)
    (elts : List CtxId) (threads : mpm.threaded ≡ true) (lock : w.store.mutex ≡ ready)
    (pool : w.store.pools cp ≡ some elts) (readable : Readable w.store.ctxs elts)
    (unbound : IsUnbound w q) (cur : CtxId) (y : Ctx) (here : w.store.ctxs cur ≡ some y)
    (other_pool : ptr_eq y.ctx_pool (some cp) ≡ false) where
  -- In the threaded build, with the mutex ready: the context of another pool moves to a pool of one
  -- allocated context, or whose first context is allocated and free, where the first free context
  -- has an interpreter, for an APR pool to which nothing is bound.
  -- Then that context is in use and bound to the APR pool, it carries the request, connection,
  -- server, configuration pools and module index of the old one and is otherwise as before, the old
  -- one is free and otherwise as before, and no other context has changed.
  pub switch_ctx_moves :
      (c : CtxId) (x : Ctx) (i : Interp)
      → first_free w.store.ctxs elts ≡ some c
      → w.store.ctxs c ≡ some x
      → x.interp ≡ some i
      → (c == cur) ≡ false
      → (v : World) × (switch_ctx mpm parrot cur (some cp) s (some q) w ≡ ok (some c) v)
        × ((d : CtxId)
            → v.store.ctxs d ≡ (
                if d == c
                then some (carried x y)
                else (if d == cur then some (record y { locked = false }) else w.store.ctxs d)))
        × (v.store.userdata q ≡ some c)
  unfolding switch_ctx clone_ctx_state
  switch_ctx_moves c x i free at runs apart =
      let run =
        init_ctx_reserves mpm parrot s q cp w elts threads lock pool readable unbound c x i free at
          runs in
      (
        switched c x cur y s q w,
        ground arith,
        λ d. switched-ctxs c x cur y s q w d apart,
        ground arith,
      )

  -- In the threaded build, with the mutex ready and a pool of no context, or of one, in use: a
  -- context of another pool cannot move there for an APR pool to which nothing is bound. The
  -- result is `NULL`, and the old context is released all the same.
  pub switch_ctx_exhausted :
      first_free w.store.ctxs elts ≡ none
      → switch_ctx mpm parrot cur (some cp) s (some q) w
        ≡ ok none (record w {
          store = record w.store {
            ctxs = update w.store.ctxs cur (some (record y { locked = false }));
          };
        })
  unfolding switch_ctx clone_ctx_state
  switch_ctx_exhausted full =
      let run =
        init_ctx_exhausted mpm parrot s q cp w elts threads lock pool readable unbound full in
      ground arith
