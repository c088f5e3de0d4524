-- ===== src/Context/Progress.antt =====
-- No context is lost: whatever the threads have reserved and released, the context of a pool of one
-- can be reserved if nobody holds it (src/context.c, `reserve_ctx`, `release_ctx`).
use mod_parrot.Base.{
  ℕ, ◌≢◌, ◌≡◌, refl, sym, ap, ◌∙◌, Bool, true, false, some, List, [], ◌∷◌, ◌++◌, ◌==◌,
  if◌then◌else◌, none, arith, Bool-cases, inl, inr, Option-cases,
}
use mathlib.Core.Path.{subst₂}
use mod_parrot.Run.{ok}
use mod_parrot.Context.{CtxId, CtxPool, Ctx, ctx_any, ready, Mpm, Store}
use mod_parrot.Context.Ops.{reserve_ctx}
use mod_parrot.Context.Reserve.{locked_at, set_locked, reserve_ctx-first}
use mod_parrot.Context.Capacity.{has}
use mod_parrot.Context.Threads.{
  IsExclusive, System, Step, reserves, refused, releases, Steps, here, next, held_ctxs,
  reserve_ctx-Taken, reserve_ctx-none, release_ctx-set_locked, has-remove, not-has_free,
  Steps-IsExclusive,
}

-- Every context that is marked as in use is held by somebody.
abbrev pub IsOwned : Store → List (ℕ × CtxId) → Type 0
IsOwned w hs = (d : CtxId) → locked_at w.ctxs d ≡ some true → has d (held_ctxs hs) ≡ true

-- What a change of a lock leaves.
set_locked-pools : (b : Bool) (c : CtxId) (w : Store) → (set_locked b c w).pools ≡ w.pools
set_locked-pools b c w = ground arith

set_locked-mutex : (b : Bool) (c : CtxId) (w : Store) → (set_locked b c w).mutex ≡ w.mutex
set_locked-mutex b c w = ground arith

set_locked-allocated :
    (b : Bool) (c d : CtxId) (w : Store) (x : Ctx)
    → w.ctxs d ≡ some x
    → (y : Ctx) × ((set_locked b c w).ctxs d ≡ some y)
set_locked-allocated b c d w x at = elim (Option-cases ((set_locked b c w).ctxs d)) [
  | inl gone ↦ absurd (ground arith)
  | inr kept ↦ kept
]

IsOwned-reserve :
    (thread : ℕ) (c : CtxId) (w : Store) (hs : List (ℕ × CtxId))
    → IsOwned w hs
    → IsOwned (set_locked true c w) ((thread, c) ∷ hs)
IsOwned-reserve thread c w hs owned d l = elim (Bool-cases (d == c)) [
  | inl same ↦ rw same refl
  | inr other ↦ let old : locked_at w.ctxs d ≡ some true = ground arith in rw other (owned d old)
]

IsOwned-release :
    (thread : ℕ) (c : CtxId) (w : Store) (before after : List (ℕ × CtxId))
    → IsOwned w (before ++ (thread, c) ∷ after)
    → IsOwned (set_locked false c w) (before ++ after)
IsOwned-release thread c w before after owned d l =
    let split = has-remove thread c after d before in
    elim (Bool-cases (d == c)) [
      | inl same ↦ absurd (ground arith)
      | inr other ↦
          let old : locked_at w.ctxs d ≡ some true = ground arith in
          let was = owned d old in ground arith
    ]

module _ (cp : CtxPool) (one : CtxId) where
  -- The mutex is ready, the pool and its one context are there, and no context is lost.
  record IsLive (w : Store) (hs : List (ℕ × CtxId)) : Type 0 where
    mutex : w.mutex ≡ ready
    pool : w.pools cp ≡ some (one ∷ [])
    allocated : (x : Ctx) × (w.ctxs one ≡ some x)
    owned : IsOwned w hs

  set_locked-IsLive :
      (b : Bool) (c : CtxId) (w : Store) (hs gs : List (ℕ × CtxId))
      → IsLive w hs
      → IsOwned (set_locked b c w) gs
      → IsLive (set_locked b c w) gs
  set_locked-IsLive b c w hs gs live owned = record {
    mutex = set_locked-mutex b c w ∙ live.mutex;
    pool = ap (λ f. f cp) (set_locked-pools b c w) ∙ live.pool;
    allocated = set_locked-allocated b c one w live.allocated.0 live.allocated.1;
    owned = owned;
  }

  moved-IsLive :
      (w v : Store) (hs gs : List (ℕ × CtxId)) → v ≡ w → gs ≡ hs → IsLive w hs → IsLive v gs
  moved-IsLive w v hs gs e h x = subst₂ IsLive (sym e) (sym h) x

  module _ (mpm : Mpm) (threads : mpm.threaded ≡ true) where
    Step-IsLive : (s t : System) → Step mpm s t → IsLive s.store s.held → IsLive t.store t.held
    Step-IsLive s t (reserves thread q c e h) live =
        let (free, same) = reserve_ctx-Taken mpm threads q s.store t.store c e in
        moved-IsLive (set_locked true c s.store) t.store ((thread, c) ∷ s.held) t.held same h (
          set_locked-IsLive true c s.store s.held ((thread, c) ∷ s.held) live
            (IsOwned-reserve thread c s.store s.held live.owned))
    Step-IsLive s t (refused q e h) live =
        moved-IsLive s.store t.store s.held t.held
          (reserve_ctx-none mpm threads q s.store t.store e) h live
    Step-IsLive s t (releases thread c before after held e h) live =
        let was =
          moved-IsLive s.store s.store s.held (before ++ ((thread, c) ∷ after)) refl (sym held)
            live in
        moved-IsLive (set_locked false c s.store) t.store (before ++ after) t.held
          (release_ctx-set_locked s.store t.store c e) h
          (set_locked-IsLive false c s.store (before ++ ((thread, c) ∷ after)) (before ++ after) was
            (IsOwned-release thread c s.store before after was.owned))

    Steps-IsLive : (s t : System) → Steps mpm s t → IsLive s.store s.held → IsLive t.store t.held
    Steps-IsLive s t here x = x
    Steps-IsLive s u (next {t} r st) x = Step-IsLive t u st (Steps-IsLive s t r x)

    -- What a reservation finds, where no context is lost.
    found :
        (w : Store) (hs : List (ℕ × CtxId))
        → IsLive w hs
        → IsExclusive w hs
        → reserve_ctx mpm (some cp) ctx_any w
          ≡ (if has one (held_ctxs hs) then ok none w else ok (some one) (set_locked true one w))
    found w hs live (distinct, locked) =
        let (x, at) = live.allocated in
        let first = reserve_ctx-first mpm threads cp w live.mutex (one ∷ []) live.pool (x, at) in
        elim (Bool-cases x.locked) [
          | inl used ↦
              let taken = live.owned one (rw (at, locked_at) (ap some used)) in
              rw taken (ground (arith, first))
          | inr free ↦
              let unheld =
                not-has_free w one (held_ctxs hs) locked (rw (at, locked_at) (ap some free)) in
              rw unheld (ground (arith, first))
        ]

    -- In the threaded build, from a state with the mutex ready, a pool of one allocated context, no
    -- context in use and nothing held: however the calls of any threads interleave, a reservation
    -- from the pool then returns its context, marked as in use, if nobody holds it, and otherwise it
    -- returns `NULL` and changes nothing.
    pub Steps-serves :
        (s t : System)
        → s.store.mutex ≡ ready
        → s.store.pools cp ≡ some (one ∷ [])
        → (x : Ctx) × (s.store.ctxs one ≡ some x)
        → ((d : CtxId) → locked_at s.store.ctxs d ≢ some true)
        → s.held ≡ []
        → Steps mpm s t
        → reserve_ctx mpm (some cp) ctx_any t.store ≡ (
            if has one (held_ctxs t.held)
            then ok none t.store
            else ok (some one) (set_locked true one t.store))
    Steps-serves s t lock pool allocated all_free none_held steps =
        let start : IsLive s.store s.held = record {
          mutex = lock;
          pool = pool;
          allocated = allocated;
          owned = λ d l. absurd (all_free d l);
        } in
        found t.store t.held (Steps-IsLive s t steps start)
          (Steps-IsExclusive mpm threads s t none_held steps)
