-- ===== src/Startup/Reserve.antt =====
-- `init_ctx` where no context is bound: what it reserves, and what happens when a pool is exhausted.
use mod_parrot.Base.{◌≡◌, ◌∙◌, true, none, some, List, ◌∷◌, arith}
use mod_parrot.Run.{ok}
use mod_parrot.Context.{CtxId, CtxPool, AprPool, Interp, Server, Ctx, ctx_any, ready, Mpm, update}
use mod_parrot.Context.Ops.{reserve_ctx}
use mod_parrot.Context.Reserve.{Readable, first_free, set_locked, reserve_ctx-first}
use mod_parrot.World.{World, Parrot}
use mod_parrot.Startup.{
  current_in, start_interp, start_and_bind, reserve_for, current_or_reserve, init_ctx,
}

-- No context is bound to the APR pool.
abbrev pub IsUnbound : World → AprPool → Type 0
IsUnbound w q = w.store.userdata q ≡ none

-- The world in which a context `x` with an interpreter was reserved for a server, and bound.
abbrev pub reserved_for : CtxId → Ctx → Server → AprPool → World → World
reserved_for c x s q w = record w {
  store = record w.store {
    ctxs =
        update (update w.store.ctxs c (some (record x { locked = true }))) c
          (some (record x { locked = true; s = some s }));
    userdata = update w.store.userdata q (some c);
    cleanups = update w.store.cleanups q (c ∷ w.store.cleanups q);
  };
}

module _ (mpm : Mpm) (parrot : Parrot) (s : Server) (q : AprPool) (cp : CtxPool) (w : World)
    (elts : List CtxId) (threads : mpm.threaded ≡ true) (lock : w.store.mutex ≡ ready)
    (pool : w.store.pools cp ≡ some elts) (readable : Readable w.store.ctxs elts)
    (unbound : IsUnbound w q) where
  -- In the threaded build, with the mutex ready and a pool of one allocated context, or whose first
  -- context is allocated and free: where its first free context has an interpreter, `init_ctx` for an
  -- APR pool to which nothing is bound returns that context: marked as in use, bound to the APR
  -- pool, with the server set, and nothing else changed.
  pub init_ctx_reserves :
      (c : CtxId) (x : Ctx) (i : Interp)
      → first_free w.store.ctxs elts ≡ some c
      → w.store.ctxs c ≡ some x
      → x.interp ≡ some i
      → init_ctx mpm parrot s (some q) (some cp) w ≡ ok (some c) (reserved_for c x s q w)
  unfolding init_ctx current_in current_or_reserve reserve_for start_and_bind start_interp
  init_ctx_reserves c x i free at runs =
      let first = reserve_ctx-first mpm threads cp w.store lock elts pool readable in
      let run : reserve_ctx mpm (some cp) ctx_any w.store
          ≡ ok (some c) (record w.store {
            ctxs = update w.store.ctxs c (some (record x { locked = true }));
          }) =
        first ∙ rw (free, set_locked, at) in
      ground arith

  -- In the threaded build, with the mutex ready and a pool of no context, or of one, which is
  -- allocated and in use, `init_ctx` for an APR pool to which nothing is bound returns `NULL` and
  -- changes nothing.
  pub init_ctx_exhausted :
      first_free w.store.ctxs elts ≡ none → init_ctx mpm parrot s (some q) (some cp) w ≡ ok none w
  unfolding init_ctx current_in current_or_reserve reserve_for start_and_bind
  init_ctx_exhausted full =
      let first = reserve_ctx-first mpm threads cp w.store lock elts pool readable in
      let run : reserve_ctx mpm (some cp) ctx_any w.store ≡ ok none w.store = first ∙ rw full in
      ground arith
