-- ===== src/Context/Capacity.antt =====
-- How many contexts a pool has to give: repeated calls of `reserve_ctx` with no release between.
use mod_parrot.Base.{
  if◌then◌else◌, ℕ, zero, suc, ◌≡◌, refl, ◌∙◌, Bool, true, false, ◌||◌, Option, none, some, List,
  [], ◌∷◌, ◌==◌, arith, Bool-cases, inl, inr,
}
use mod_parrot.Run.{ok, M, pure, result, result-cons, ◌>>=◌}
use mod_parrot.Context.{CtxId, CtxPool, Ctx, ctx_any, ready, Mpm, Store}
use mod_parrot.Context.Ops.{reserve_ctx}
use mod_parrot.Context.Reserve.{set_locked, reserve_ctx-first, reserve_ctx_single}

abbrev pub has : CtxId → List CtxId → Bool
has c [] = false
has c (d ∷ ds) = (c == d) || has c ds

-- No context stands twice in the list.
abbrev pub Distinct : List CtxId → Type 0
Distinct [] = Unit {0}
Distinct (c ∷ cs) = (has c cs ≡ false) × Distinct cs

-- A client that reserves again and again and gives nothing back.
unfoldable pub reserve_times : Mpm → CtxPool → ℕ → M Store (List (Option CtxId))
reserve_times mpm cp zero = pure []
reserve_times mpm cp (suc n) = do
  c ← reserve_ctx mpm (some cp) ctx_any
  cs ← reserve_times mpm cp n
  pure (c ∷ cs)

-- What `n` reservations return when these contexts are free: each once, then `NULL`.
abbrev pub served : ℕ → List CtxId → List (Option CtxId)
served zero cs = []
served (suc n) [] = none ∷ served n []
served (suc n) (c ∷ cs) = some c ∷ served n cs

module _ (mpm : Mpm) (threads : mpm.threaded ≡ true) (cp : CtxPool) (c : CtxId) where
  -- In the threaded build, over a pool of one allocated context with the mutex ready: any number of
  -- reservations with no release between hand out that context once, if it was free, and then `NULL`
  -- for ever.
  pub reserve_times-served :
      (n : ℕ) (w : Store) (x : Ctx)
      → w.mutex ≡ ready
      → w.pools cp ≡ some (c ∷ [])
      → w.ctxs c ≡ some x
      → result (reserve_times mpm cp n w) ≡ some (served n (if x.locked then [] else c ∷ []))
  unfolding reserve_times
  reserve_times-served zero w x lock pool e = refl
  reserve_times-served (suc n) w x lock pool e =
      let first = reserve_ctx-first mpm threads cp w lock (c ∷ []) pool (x, e) in
      elim (Bool-cases x.locked) [
        | inl held ↦
            let run : reserve_ctx mpm (some cp) ctx_any w ≡ ok none w = ground (arith, first) in
            let rest = reserve_times-served n w x lock pool e in
            rw (run, held) (result-cons (reserve_times mpm cp n w) none (rest ∙ rw held refl))
        | inr free ↦
            let v = set_locked true c w in
            let run : reserve_ctx mpm (some cp) ctx_any w ≡ ok (some c) v = ground (arith, first) in
            let there : v.ctxs c ≡ some (record x { locked = true }) = ground arith in
            let rest =
              reserve_times-served n v (record x { locked = true }) (ground arith) (ground arith)
                there in
            rw (run, free) (result-cons (reserve_times mpm cp n v) (some c) rest)
      ]

-- The first context of a pool, over and over.
abbrev pub repeated : {A : Type 0} → ℕ → A → List A
repeated zero a = []
repeated (suc n) a = a ∷ repeated n a

-- Without threads, over a pool whose first context is allocated: any number of reservations with no
-- release between all return that context, and `NULL` never comes.
pub reserve_times_single :
    (mpm : Mpm) (cp : CtxPool) (c : CtxId) (cs : List CtxId) (n : ℕ) (w : Store) (x : Ctx)
    → mpm.threaded ≡ false
    → w.pools cp ≡ some (c ∷ cs)
    → w.ctxs c ≡ some x
    → result (reserve_times mpm cp n w) ≡ some (repeated n (some c))
unfolding reserve_times
reserve_times_single mpm cp c cs zero w x single pool e = refl
reserve_times_single mpm cp c cs (suc n) w x single pool e =
    let v = set_locked true c w in
    let same : v.pools cp ≡ some (c ∷ cs) = ground arith in
    let there : v.ctxs c ≡ some (record x { locked = true }) = ground arith in
    rw (reserve_ctx_single mpm cp ctx_any w c cs x single pool e) (
      result-cons (reserve_times mpm cp n v) (some c)
        (reserve_times_single mpm cp c cs n v (record x { locked = true }) single same there))
