-- ===== src/Context/Destroy.antt =====
-- `mp_ctx_pool_destroy` and `mp_ctx_pool_destroy_all`.
use mathlib.Core.List.{reverse, reverse-cons}
use mod_parrot.Base.{
  ◌≡◌, refl, ap, sym, ◌∙◌, Bool, true, false, Option, none, some, List, [], ◌∷◌, ◌++◌, ◌==◌, arith,
  if◌then◌else◌, ==_iff, ==_refl, Bool-cases, Option-cases, inl, inr,
}
use mod_parrot.CStr.{CStr}
use mod_parrot.Hash.{Hash}
use mod_parrot.Run.{Run, ok, fault, exits, M, pure, and_then}
use mod_parrot.Context.{CtxId, CtxPool, Interp, Ctx, ready, destroyed, Mpm, Store, update}
use mod_parrot.Context.Ops.{
  destroy_ctx, destroy_ctxs, mp_ctx_pool_destroy, destroy_pools, mp_ctx_pool_destroy_all,
}
use mod_parrot.Context.Reserve.{Allocated}
use mod_parrot.Context.Capacity.{has, Distinct}

abbrev pub interp_at : (CtxId → Option Ctx) → CtxId → Option Interp
interp_at h c = elim (h c) [ none ↦ none | some x ↦ x.interp ]

abbrev pub add_interp : Option Interp → List Interp → List Interp
add_interp none is = is
add_interp (some i) is = i ∷ is

-- The interpreters of the contexts, in the pool's order.
abbrev pub interps : (CtxId → Option Ctx) → List CtxId → List Interp
interps h [] = []
interps h (c ∷ cs) = add_interp (interp_at h c) (interps h cs)

abbrev pub without_interp : Option Ctx → Option Ctx
without_interp none = none
without_interp (some x) = some (record x { interp = none })

-- `v` is `w` after the contexts `cs` lost their interpreters.
pub record Ended (cs : List CtxId) (w v : Store) : Type 0 where
  pub ended : v.ended ≡ interps w.ctxs cs ++ w.ended
  pub ctxs : (c : CtxId) → v.ctxs c ≡ (if has c cs then without_interp (w.ctxs c) else w.ctxs c)
  pub rest : v ≡ record w { ctxs = v.ctxs; ended = v.ended }

and_then-pure : (r : Run Store (Unit {0})) → and_then r (λ _. pure {S = Store} tt) ≡ r
and_then-pure (ok a w) = refl
and_then-pure fault = refl
and_then-pure exits = refl

and_then-and_then :
    (f g k : M Store (Unit {0})) (r : Run Store (Unit {0}))
    → ((s : Store) → f s ≡ and_then (g s) (λ _. k))
    → and_then r (λ _. f) ≡ and_then (and_then r (λ _. g)) (λ _. k)
and_then-and_then f g k (ok a w) e = e w
and_then-and_then f g k fault e = refl
and_then-and_then f g k exits e = refl

destroy_ctxs-append :
    (cs : List CtxId) (c : CtxId) (w : Store)
    → destroy_ctxs (cs ++ c ∷ []) w ≡ and_then (destroy_ctxs cs w) (λ _. destroy_ctx c)
unfolding destroy_ctxs
destroy_ctxs-append [] c w = and_then-pure (destroy_ctx c w)
destroy_ctxs-append (d ∷ cs) c w =
    and_then-and_then (destroy_ctxs (cs ++ c ∷ [])) (destroy_ctxs cs) (destroy_ctx c)
      (destroy_ctx d w) (destroy_ctxs-append cs c)

abbrev end_ctx : CtxId → Ctx → Store → Store
end_ctx c x w = elim x.interp [
  | none ↦ w
  | some i ↦ record w {
    ctxs = update w.ctxs c (some (record x { interp = none }));
    ended = i ∷ w.ended;
  }
]

destroy_ctx-end :
    (c : CtxId) (x : Ctx) (w : Store) → w.ctxs c ≡ some x → destroy_ctx c w ≡ ok tt (end_ctx c x w)
unfolding destroy_ctx
destroy_ctx-end c x w e = ground arith

without-bare : (x : Ctx) → x.interp ≡ none → without_interp (some x) ≡ some x
without-bare x bare = ap (λ i. some (record x { interp = i })) (sym bare)

-- One more context in front, destroyed after the others.
Ended-cons :
    (c : CtxId) (x : Ctx) (cs : List CtxId) (w v : Store)
    → has c cs ≡ false
    → w.ctxs c ≡ some x
    → v.ctxs c ≡ some x
    → Ended cs w v
    → Ended (c ∷ cs) w (end_ctx c x v)
Ended-cons c x cs w v out e e' p = elim (Option-cases x.interp) [
  | inl bare ↦
      rw (bare, end_ctx)
        (record {
          ended = ground (arith, p.ended);
          ctxs = λ d. elim (Bool-cases (d == c)) [
            | inl same ↦
                let at_c : d ≡ c = (==_iff d c).0 same in
                rw (at_c, ==_refl) (e' ∙ sym (without-bare x bare) ∙ ap without_interp (sym e))
            | inr other ↦ p.ctxs d ∙ rw other
          ];
          rest = p.rest;
        })
  | inr (i, has_one) ↦
      rw (has_one, end_ctx)
        (record {
          ended = ground (arith, p.ended);
          ctxs = λ d. elim (Bool-cases (d == c)) [
            | inl same ↦ let at_c : d ≡ c = (==_iff d c).0 same in rw (at_c, ==_refl, e)
            | inr other ↦
                let away : (c == d) ≡ false = ground arith in rw away (p.ctxs d ∙ rw other)
          ];
          rest =
              ap
                (λ (s : Store). record s {
                  ctxs = update v.ctxs c (some (record x { interp = none }));
                  ended = i ∷ v.ended;
                })
                p.rest;
        })
]

destroy_ctxs-Ended :
    (cs : List CtxId) (w : Store)
    → Allocated w.ctxs cs
    → Distinct cs
    → (v : Store) × (destroy_ctxs (reverse cs) w ≡ ok tt v) × Ended cs w v
unfolding destroy_ctxs
destroy_ctxs-Ended [] w a d = (w, refl, record { ended = refl; ctxs = λ c. refl; rest = refl })
destroy_ctxs-Ended (c ∷ cs) w ((x, e), a) (out, d) =
    let (v, run, p) = destroy_ctxs-Ended cs w a d in
    let found : v.ctxs c ≡ some x = p.ctxs c ∙ rw out e in
    (
      end_ctx c x v,
      rw (reverse-cons c cs, destroy_ctxs-append (reverse cs) c w, run)
          (destroy_ctx-end c x v found),
      Ended-cons c x cs w v out e found p,
    )

abbrev emptied : CtxPool → List CtxId → Store → Store
emptied cp elts v = record v {
  pools = update v.pools cp (some []);
  stale = update v.stale cp (elts ++ v.stale cp);
}

abbrev finish : Bool → Store → Store
finish true v = record v { mutex = destroyed }
finish false v = v

finish-emptied :
    (b : Bool) (cp : CtxPool) (elts : List CtxId) (v : Store)
    → ((finish b (emptied cp elts v)).ended ≡ v.ended)
      × ((finish b (emptied cp elts v)).ctxs ≡ v.ctxs)
      × ((finish b (emptied cp elts v)).pools cp ≡ some [])
      × ((finish b (emptied cp elts v)).mutex ≡ (if b then destroyed else v.mutex))
finish-emptied true cp elts v = (refl, refl, ground arith, refl)
finish-emptied false cp elts v = (refl, refl, ground arith, refl)

module _ (mpm : Mpm) (cp : CtxPool) (elts : List CtxId) (w : Store) (pool : w.pools cp ≡ some elts)
    (allocated : Allocated w.ctxs elts) (distinct : Distinct elts) where
  destroy-finish :
      (v : Store)
      → (mpm.threaded ≡ true → w.mutex ≡ ready)
      → destroy_ctxs (reverse elts) w ≡ ok tt v
      → mp_ctx_pool_destroy mpm (some cp) w ≡ ok tt (finish mpm.threaded (emptied cp elts v))
  unfolding mp_ctx_pool_destroy
  destroy-finish v lock run = elim (Bool-cases mpm.threaded) [
    | inl threads ↦ let held = lock threads in ground arith
    | inr single ↦ ground arith
  ]

  -- Destroying a pool of distinct allocated contexts ends the interpreter of every context of the pool that
  -- has one, once and no other, clears the interpreters of the pool's contexts, changes no other
  -- context and leaves the pool empty. The threaded build needs the mutex to be ready, and destroys
  -- it; the other build leaves it alone.
  pub mp_ctx_pool_destroy-Ended :
      (mpm.threaded ≡ true → w.mutex ≡ ready)
      → (v : Store) × (mp_ctx_pool_destroy mpm (some cp) w ≡ ok tt v)
        × (v.ended ≡ interps w.ctxs elts ++ w.ended)
        × ((c : CtxId) → v.ctxs c ≡ (if has c elts then without_interp (w.ctxs c) else w.ctxs c))
        × (v.pools cp ≡ some [])
        × (v.mutex ≡ (if mpm.threaded then destroyed else w.mutex))
  mp_ctx_pool_destroy-Ended lock =
      let (v, run, p) = destroy_ctxs-Ended elts w allocated distinct in
      let (ended, ctxs, empty, mutex) = finish-emptied mpm.threaded cp elts v in
      (
        finish mpm.threaded (emptied cp elts v),
        destroy-finish v lock run,
        ended ∙ p.ended,
        λ c. ap (λ (h : CtxId → Option Ctx). h c) ctxs ∙ p.ctxs c,
        empty,
        mutex ∙ ap (λ (u : Store). if mpm.threaded then destroyed else u.mutex) p.rest,
      )

destroy-destroyed :
    (mpm : Mpm) (q : CtxPool) (v : Store)
    → mpm.threaded ≡ true
    → v.mutex ≡ destroyed
    → mp_ctx_pool_destroy mpm (some q) v ≡ fault
unfolding mp_ctx_pool_destroy
destroy-destroyed mpm q v threads mutex = ground arith

-- The mutex is the same for all pools: in the threaded build, with the mutex ready and at least two
-- names in the table, of which the first is that of a pool of distinct allocated contexts,
-- destroying all pools locks the mutex that the destruction of the first pool has destroyed.
pub destroy_all_two_pools :
    (mpm : Mpm) (w : Store) (n m : CStr) (p q : CtxPool) (rest : Hash CtxPool) (elts : List CtxId)
    → mpm.threaded ≡ true
    → w.mutex ≡ ready
    → w.ctx_pool_hash ≡ (n, p) ∷ (m, q) ∷ rest
    → w.pools p ≡ some elts
    → Allocated w.ctxs elts
    → Distinct elts
    → mp_ctx_pool_destroy_all mpm w ≡ fault
unfolding mp_ctx_pool_destroy_all destroy_pools
destroy_all_two_pools mpm w n m p q rest elts threads lock table pool a d =
    let (v, run, ended, ctxs, empty, mutex) =
      mp_ctx_pool_destroy-Ended mpm p elts w pool a d (λ _. lock) in
    simp (table, run, destroy-destroyed mpm q v threads (mutex ∙ rw threads))
