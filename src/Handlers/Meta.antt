-- ===== src/Handlers/Meta.antt =====
-- The meta handlers of the request phases (src/mod_parrot.c, `MP_REQUEST_METAHANDLER`).
use mod_parrot.Base.{
  ap, ℕ, ◌≡◌, refl, sym, ◌∙◌, Bool, true, false, Option, none, some, List, [], ◌∷◌, ◌==◌, ==_iff,
  or_else, get_elem?, arith, if◌then◌else◌, Bool-cases, Option-cases, inl, inr,
}
use mod_parrot.Base.Int.{pos, suc_ℤ}
use mod_parrot.CStr.{CStr}
use mod_parrot.Run.{ok, fault}
use mod_parrot.Context.{CtxId, CtxPool, Server, Ctx, ready, Mpm, update}
use mod_parrot.Context.Reserve.{Readable, first_free, locked_at}
use mod_parrot.Config.{opt_enable, is_set}
use mod_parrot.Module.{ModuleId, Module}
use mod_parrot.Module.Hooks.{next_handler_module}
use mod_parrot.World.{World, Parrot}
use mod_parrot.Startup.{ptr_eq, clone_ctx_state, select_ctx_pool, section_name, server_pool}
use mod_parrot.Startup.Bound.{set_server, init_ctx_bound}
use mod_parrot.Handlers.Switch.{switch_ctx_exhausted}
use mod_parrot.Handlers.{
  RequestRec, switch_ctx, next_in_line, request_metahandler, modparrot_call_meta_handler, declined,
  status_ok,
}

-- The world in which the handler's context `x` is at the `k`-th module of the hook.
abbrev in_line : CtxId → Ctx → Server → ℕ → World → World
in_line c x s k w =
    let u = set_server c x s w in
    record u {
      store = record u.store {
        ctxs = update u.store.ctxs c (some (record x { s = some s; module_index = pos k }));
      };
    }

-- The world in which that context has its request.
abbrev pub with_request : CtxId → Ctx → RequestRec → ℕ → World → World
with_request c x r k w =
    let u = in_line c x r.server k w in
    record u {
      store = record u.store {
        ctxs =
            update u.store.ctxs c
              (some (record x { s = some r.server; module_index = pos k; r = some r.r }));
      };
    }

allocated_at :
    (g : CtxId → Option Ctx) (d : CtxId) (b : Bool)
    → locked_at g d ≡ some b
    → (x : Ctx) × (g d ≡ some x)
allocated_at g d b e = elim (Option-cases (g d)) [ inl gone ↦ ground arith | inr found ↦ found ]

-- What the locks of two heaps that agree on them say of a pool.
first_free-same :
    (h g : CtxId → Option Ctx) (cs : List CtxId)
    → ((d : CtxId) → locked_at g d ≡ locked_at h d)
    → first_free g cs ≡ first_free h cs
first_free-same h g [] same = refl
first_free-same h g (d ∷ cs) same =
    let rest = first_free-same h g cs same in let one = same d in ground (arith, one, rest)

Readable-same :
    (h g : CtxId → Option Ctx) (cs : List CtxId)
    → ((d : CtxId) → locked_at g d ≡ locked_at h d)
    → Readable h cs
    → Readable g cs
Readable-same h g [] same r = tt
Readable-same h g (d ∷ []) same (x, e) = allocated_at g d x.locked (same d ∙ rw (e, locked_at) refl)
Readable-same h g (d ∷ b ∷ cs) same (x, e, free) =
    let lock : locked_at g d ≡ some false = same d ∙ rw (e, locked_at) (ap some free) in
    let (y, at) = allocated_at g d false lock in (y, at, ground arith)

module _ (mpm : Mpm) (parrot : Parrot) (hname : CStr) (henum : ℕ) (r : RequestRec) (w : World)
    (c : CtxId) (x : Ctx) (bound : w.store.userdata r.connection_pool ≡ some c)
    (here : w.store.ctxs c ≡ some x) where
  -- Of a server on which mod_parrot is not enabled, a meta handler declines the request for which a
  -- context is bound, and changes nothing but the context's server.
  pub metahandler_disabled :
      is_set (w.srv_config r.server).option_flags opt_enable ≡ false
      → request_metahandler mpm parrot hname henum r w ≡ ok declined (set_server c x r.server w)
  unfolding request_metahandler
  metahandler_disabled off =
      let run = init_ctx_bound mpm parrot r.server r.connection_pool none w c x bound here refl in
      ground arith

  module _ (es : List ModuleId) (k : ℕ) (idx : ModuleId) (m : Module)
      (on : is_set (w.srv_config r.server).option_flags opt_enable ≡ true)
      (hook : w.handler_modules henum ≡ some es) (index : suc_ℤ x.module_index ≡ pos k)
      (at : get_elem? es k ≡ some idx) (found : get_elem? w.module_array idx ≡ some m)
      (cp : CtxPool) (no_section : section_name r.per_dir_config idx w ≡ none)
      (selected : or_else (server_pool r.server idx w) m.info.ctx_pool ≡ some cp) where
    stepped :
        next_handler_module henum c (set_server c x r.server w)
        ≡ ok (some idx) (in_line c x r.server k w)
    unfolding next_handler_module
    stepped = ground arith

    locked_at-in_line :
        (d : CtxId) → locked_at (in_line c x r.server k w).store.ctxs d ≡ locked_at w.store.ctxs d
    locked_at-in_line d = elim (Bool-cases (c == d)) [
      | inl same ↦ let e : c ≡ d = (==_iff c d).0 same in rw (same, locked_at, sym e, here) refl
      | inr other ↦ rw (other, locked_at) refl
    ]

    selects :
        select_ctx_pool mpm parrot idx r.server r.per_dir_config (in_line c x r.server k w)
        ≡ ok (some cp) (in_line c x r.server k w)
    unfolding select_ctx_pool
    selects = ground arith

    -- On an enabled server, for a request whose connection has a context bound, which stands before
    -- the `k`-th of the hook's modules: if no directory section names a pool and the pool selected
    -- is the context's own, the meta handler runs for that module, in that context, which has the
    -- request; it returns what the HLL handler returns, or `OK` if only the header is wanted.
    pub metahandler_same_pool :
        ptr_eq x.ctx_pool (some cp) ≡ true
        → let v = with_request c x r k w in
          request_metahandler mpm parrot hname henum r w ≡ (
            if r.header_only
            then ok status_ok v
            else modparrot_call_meta_handler mpm parrot c idx hname v)
    unfolding request_metahandler next_in_line switch_ctx clone_ctx_state
    metahandler_same_pool same =
        let run = init_ctx_bound mpm parrot r.server r.connection_pool none w c x bound here refl in
        let step = stepped in let select = selects in ground arith

    -- In the threaded build, with the mutex ready, on an enabled server, for a request whose
    -- connection has a context bound, which stands before the `k`-th of the hook's modules: if no
    -- directory section names a pool, the pool selected is another one than the context's, it
    -- has no context, or one, which is allocated and in use, and nothing is bound to the request's own
    -- APR pool, then the meta handler dereferences `NULL`.
    pub metahandler_exhausted :
        (elts : List CtxId)
        → mpm.threaded ≡ true
        → w.store.mutex ≡ ready
        → w.store.pools cp ≡ some elts
        → Readable w.store.ctxs elts
        → first_free w.store.ctxs elts ≡ none
        → w.store.userdata r.pool ≡ none
        → ptr_eq x.ctx_pool (some cp) ≡ false
        → request_metahandler mpm parrot hname henum r w ≡ fault
    unfolding request_metahandler next_in_line
    metahandler_exhausted elts threads lock pool readable full unbound other =
        let u = in_line c x r.server k w in
        let run = init_ctx_bound mpm parrot r.server r.connection_pool none w c x bound here refl in
        let step = stepped in
        let select = selects in
        let kept = locked_at-in_line in
        let switch =
          switch_ctx_exhausted mpm parrot r.server r.pool cp u elts threads lock pool
            (Readable-same w.store.ctxs u.store.ctxs elts kept readable) unbound c
            (record x { s = some r.server; module_index = pos k }) (ground arith) other
            (first_free-same w.store.ctxs u.store.ctxs elts kept ∙ full) in
        ground arith
