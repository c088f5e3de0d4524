-- ===== src/Startup/Bound.antt =====
-- The context bound to an APR pool: `init_ctx` finds it again, and binds what it reserves.
use mod_parrot.Base.{
  if◌then◌else◌, Bool-cases, ◌≡◌, refl, ap, ◌∙◌, Bool, true, Option, none, some, or_else, arith,
  Option-cases, inl, inr,
}
use mod_parrot.Run.{M, ◌>>=◌, ok, pure, and_then-ok, ◌>>◌}
use mod_parrot.Context.{CtxId, CtxPool, AprPool, Server, Ctx, ctx_any, Mpm, update}
use mod_parrot.Context.Ops.{assign, reserve_ctx}
use mod_parrot.World.{World, with_store, Parrot}
use mod_parrot.Startup.{
  ptr_eq, when_some, current_in, start_and_bind, reserve_for, current_or_reserve, start_interp,
  init_ctx,
}

-- `ctxp->s = s`.
abbrev pub set_server : CtxId → Ctx → Server → World → World
set_server c x s w = record w {
  store = record w.store { ctxs = update w.store.ctxs c (some (record x { s = some s })) };
}

-- Whether a context suits a request for a pool.
abbrev pub suits : Ctx → Option CtxPool → Bool
suits x none = true
suits x (some cp) = ptr_eq x.ctx_pool (some cp)

module _ (mpm : Mpm) (parrot : Parrot) (s : Server) (q : AprPool) where
  -- An allocated context that is bound to the APR pool and belongs to the pool asked for (any, if none is) is
  -- returned as it is, with the server set and nothing else changed: it is not looked at whether
  -- it is marked as in use, and it is not marked.
  pub init_ctx_bound :
      (ctx_pool : Option CtxPool) (w : World) (c : CtxId) (x : Ctx)
      → w.store.userdata q ≡ some c
      → w.store.ctxs c ≡ some x
      → suits x ctx_pool ≡ true
      → init_ctx mpm parrot s (some q) ctx_pool w ≡ ok (some c) (set_server c x s w)
  unfolding init_ctx current_in
  init_ctx_bound none w c x bound at fits = ground arith
  init_ctx_bound (some cp) w c x bound at fits = ground arith

  current_in_bound :
      (ctx_pool : Option CtxPool) (w v : World) (c : CtxId)
      → current_in mpm parrot (some q) ctx_pool w ≡ ok (some c) v
      → (w.store.userdata q ≡ some c) × (v ≡ w)
  unfolding current_in
  current_in_bound ctx_pool w v c e = ground arith

  start_and_bind_bound :
      (o : Option CtxId) (w v : World) (c : CtxId)
      → start_and_bind mpm parrot s (some q) o w ≡ ok (some c) v
      → v.store.userdata q ≡ some c
  unfolding start_and_bind
  start_and_bind_bound none w v c e = cc
  start_and_bind_bound (some d) w v c e =
      let (b, u, run, rest) = and_then-ok (start_interp mpm parrot d s w) _ e in ground arith

  -- What `reserve_for` returns is bound.
  reserve_for_bound :
      (ctx_pool : Option CtxPool) (w v : World) (c : CtxId)
      → reserve_for mpm parrot s (some q) ctx_pool w ≡ ok (some c) v
      → v.store.userdata q ≡ some c
  unfolding reserve_for
  reserve_for_bound ctx_pool w v c e =
      let (o, u, got, rest) =
        and_then-ok
          (with_store (reserve_ctx mpm (or_else ctx_pool (w.srv_config s).ctx_pool) ctx_any) w) _
          e in
      start_and_bind_bound o u v c rest

  -- The server is set last, on an allocated context.
  assigned :
      (d : Option CtxId) (a v : World) (c : CtxId)
      → (when_some d (λ c. with_store (assign c (λ x. record x { s = some s }))) >> pure d) a
        ≡ ok (some c) v
      → (v.store.userdata ≡ a.store.userdata) × (d ≡ some c) × (x : Ctx) × (v.store.ctxs c ≡ some x)
  unfolding assign with_store
  assigned none a v c e = cc
  assigned (some d) a v c e = elim (Option-cases (a.store.ctxs d)) [
    | inl gone ↦ ground arith
    | inr (x, at) ↦ (ground arith, ground arith, record x { s = some s }, ground arith)
  ]

  current_or_reserve_bound :
      (ctx_pool : Option CtxPool) (o : Option CtxId) (w u a : World) (c : CtxId)
      → current_in mpm parrot (some q) ctx_pool w ≡ ok o u
      → current_or_reserve mpm parrot s (some q) ctx_pool o u ≡ ok (some c) a
      → a.store.userdata q ≡ some c
  unfolding current_or_reserve
  current_or_reserve_bound ctx_pool none w u a c found run = reserve_for_bound ctx_pool u a c run
  current_or_reserve_bound ctx_pool (some d) w u a c found run =
      let (bound, same) = current_in_bound ctx_pool w u d found in ground arith

-- The end of `init_ctx`, whose context is found or reserved by `m`.
abbrev pub for_server : Server → M World (Option CtxId) → M World (Option CtxId)
for_server t m = do
  ctxp ← m
  when_some ctxp (λ c. with_store (assign c (λ x. record x { s = some t })))
  pure ctxp

module _ (mpm : Mpm) (parrot : Parrot) (q : AprPool) (t : Server) (v : World) (c : CtxId) (x : Ctx)
    (bound : v.store.userdata q ≡ some c) (at : v.store.ctxs c ≡ some x) where
  -- What `init_ctx` does where a context is bound, whatever pool is asked for.
  init_ctx_bound_cases :
      (ctx_pool : Option CtxPool)
      → init_ctx mpm parrot t (some q) ctx_pool v ≡ (
          if suits x ctx_pool
          then ok (some c) (set_server c x t v)
          else for_server t (reserve_for mpm parrot t (some q) ctx_pool) v)
  unfolding init_ctx current_in current_or_reserve
  init_ctx_bound_cases none = init_ctx_bound mpm parrot t q none v c x bound at refl
  init_ctx_bound_cases (some cp) = elim (Bool-cases (ptr_eq x.ctx_pool (some cp))) [
    | inl fits ↦ rw fits (init_ctx_bound mpm parrot t q (some cp) v c x bound at fits)
    | inr other ↦ ground arith
  ]

-- The context that `init_ctx` has found or reserved for an APR pool is allocated and stays bound to
-- that APR pool. The next `init_ctx` for the APR pool, for whatever server, returns it and changes
-- nothing but its server, if it asks for no context pool or for the one of that context; if it asks
-- for another, the context is passed over, and one is reserved as if none were bound. This holds
-- whatever Parrot does when an interpreter is started.
pub init_ctx_again :
    (mpm : Mpm) (parrot : Parrot) (s : Server) (q : AprPool) (ctx_pool : Option CtxPool)
    (w v : World) (c : CtxId) (t : Server) (next_pool : Option CtxPool)
    → init_ctx mpm parrot s (some q) ctx_pool w ≡ ok (some c) v
    → (x : Ctx) × (v.store.ctxs c ≡ some x)
      × (v.store.userdata q ≡ some c)
      × (init_ctx mpm parrot t (some q) next_pool v ≡ (
          if suits x next_pool
          then ok (some c) (set_server c x t v)
          else for_server t (reserve_for mpm parrot t (some q) next_pool) v))
unfolding init_ctx
init_ctx_again mpm parrot s q ctx_pool w v c t next_pool e =
    let (o, u, found, rest) = and_then-ok (current_in mpm parrot (some q) ctx_pool w) _ e in
    let (d, a, run, end) =
      and_then-ok (current_or_reserve mpm parrot s (some q) ctx_pool o u) _ rest in
    let (same, got, x, at) = assigned mpm parrot s q d a v c end in
    let bound =
      current_or_reserve_bound mpm parrot s q ctx_pool o w u a c found
        (run ∙ ap (λ o'. ok o' a) got) in
    let kept = ap (λ (f : AprPool → Option CtxId). f q) same ∙ bound in
    (x, at, kept, init_ctx_bound_cases mpm parrot q t v c x kept at next_pool)
