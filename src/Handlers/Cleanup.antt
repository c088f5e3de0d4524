-- ===== src/Handlers/Cleanup.antt =====
-- The cleanups that HLL code registers (src/mod_parrot.c, `modparrot_meta_cleanup_handler`).
use mod_parrot.Base.{◌≡◌, refl, none, some, arith}
use mod_parrot.Base.Int.{ℤ}
use mod_parrot.Run.{M, pure, deref, ◌>>=◌}
use mod_parrot.Context.{CtxId, Interp, Server, Ctx, Mpm}
use mod_parrot.Context.Ops.{load}
use mod_parrot.World.{World, CleanupInfo, with_store, Parrot}
use mod_parrot.Startup.{init_ctx}
use mod_parrot.Startup.Bound.{set_server, init_ctx_bound}
use mod_parrot.Handlers.{internal_server_error}

-- The data of the cleanup that is unregistered at the end is its own `ci`, no PMC; PMCs that are
-- registered are in no model state.
unfoldable pub modparrot_meta_cleanup_handler : Mpm → Parrot → CleanupInfo → M World ℤ
unfolding init_ctx load with_store
modparrot_meta_cleanup_handler mpm parrot ci = do
  s ← deref ci.s
  ctxp ← init_ctx mpm parrot s (some ci.pool) none
  elim ctxp [
    | none ↦ pure internal_server_error
    | some c ↦ (do
      x ← with_store (load c)
      i ← deref x.interp
      parrot.call_cleanup i ci.callback ci.hll_data)
  ]

-- A cleanup of a server, for an APR pool to which an allocated context with an interpreter is bound,
-- calls its sub with its data in that interpreter, where the context has the cleanup's server, and
-- returns what the sub returns.
pub cleanup_handler_bound :
    (mpm : Mpm) (parrot : Parrot) (ci : CleanupInfo) (w : World) (c : CtxId) (x : Ctx) (s : Server)
    (i : Interp)
    → w.store.userdata ci.pool ≡ some c
    → w.store.ctxs c ≡ some x
    → x.interp ≡ some i
    → ci.s ≡ some s
    → modparrot_meta_cleanup_handler mpm parrot ci w
      ≡ parrot.call_cleanup i ci.callback ci.hll_data (set_server c x s w)
unfolding modparrot_meta_cleanup_handler load with_store
cleanup_handler_bound mpm parrot ci w c x s i bound at runs server =
    let run = init_ctx_bound mpm parrot s ci.pool none w c x bound at refl in ground arith
