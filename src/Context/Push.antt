-- ===== src/Context/Push.antt =====
-- The loop of `mp_ctx_pool_init` (src/context.c), which pushes new contexts onto the array of a pool.
use mathlib.Core.List.{append-nil, append_assoc}
use mod_parrot.Base.{
  ℕ, zero, suc, ◌+◌, ◌≡◌, refl, ap, ◌∙◌, Bool, false, ◌&&◌, Option, some, List, [], ◌∷◌, ◌++◌, ◌==◌,
  ltb, leb, arith, if◌then◌else◌,
}
use mod_parrot.Run.{ok}
use mod_parrot.Context.{CtxId, CtxPool, Interp, Ctx, zeroed_ctx, Store, update}
use mod_parrot.Context.Ops.{push_ctx, push_ctxs}

-- `n` numbers from `start` on.
abbrev pub range : ℕ → ℕ → List ℕ
range start zero = []
range start (suc n) = start ∷ range (suc start) n

abbrev pub is_between : ℕ → ℕ → ℕ → Bool
is_between start n c = leb start c && ltb c (start + n)

abbrev pub new_ctx : CtxPool → Option Interp → Ctx
new_ctx cp parent_interp = record zeroed_ctx { ctx_pool = some cp; parent_interp = parent_interp }

-- `v` is `w` after `n` new contexts were pushed onto the pool `cp` that held `elts`.
pub record Pushed (n : ℕ) (cp : CtxPool) (parent_interp : Option Interp) (elts : List CtxId)
    (w v : Store) : Type 0 where
  pub elements : v.pools cp ≡ some (elts ++ range w.next_ctx n)
  pub other_pools : (q : CtxPool) → (cp == q) ≡ false → v.pools q ≡ w.pools q
  pub contexts :
      (c : CtxId)
      → v.ctxs c ≡ (if is_between w.next_ctx n c then some (new_ctx cp parent_interp) else w.ctxs c)
  pub next_ctx : v.next_ctx ≡ w.next_ctx + n
  pub rest : v ≡ record w { ctxs = v.ctxs; next_ctx = v.next_ctx; pools = v.pools }

-- The store after one round.
abbrev pushed : CtxPool → Option Interp → List CtxId → Store → Store
pushed cp parent_interp elts w = record w {
  ctxs = update w.ctxs w.next_ctx (some (new_ctx cp parent_interp));
  next_ctx = suc w.next_ctx;
  pools = update w.pools cp (some (elts ++ w.next_ctx ∷ []));
}

push_ctx-pushed :
    (cp : CtxPool) (parent_interp : Option Interp) (elts : List CtxId) (w : Store)
    → w.pools cp ≡ some elts
    → push_ctx cp parent_interp w ≡ ok tt (pushed cp parent_interp elts w)
unfolding push_ctx
push_ctx-pushed cp parent_interp elts w pool = rw pool

pub push_ctxs-Pushed :
    (n : ℕ) (cp : CtxPool) (parent_interp : Option Interp) (elts : List CtxId) (w : Store)
    → w.pools cp ≡ some elts
    → (v : Store) × (push_ctxs n cp parent_interp w ≡ ok tt v) × Pushed n cp parent_interp elts w v
unfolding push_ctxs
push_ctxs-Pushed zero cp parent_interp elts w pool = (
  w,
  refl,
  record {
    elements = rw append-nil pool;
    other_pools = λ q out. refl;
    contexts = λ c. ground arith;
    next_ctx = omega arith;
    rest = refl;
  },
)
push_ctxs-Pushed (suc n) cp parent_interp elts w pool =
    let u = pushed cp parent_interp elts w in
    let (v, e, p) =
      push_ctxs-Pushed n cp parent_interp (elts ++ w.next_ctx ∷ []) u (ground arith) in
    (
      v,
      rw (push_ctx-pushed cp parent_interp elts w pool) e,
      record {
        elements = p.elements ∙ ap some (append_assoc elts (w.next_ctx ∷ []) (range u.next_ctx n));
        other_pools = λ q out. p.other_pools q out ∙ rw (out, update);
        contexts = λ c. ground (arith, p.contexts c);
        next_ctx = omega (arith, p.next_ctx);
        rest = p.rest;
      },
    )
