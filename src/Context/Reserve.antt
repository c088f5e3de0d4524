-- ===== src/Context/Reserve.antt =====
-- `reserve_ctx` and `release_ctx`: which context is handed out, and what they leave alone.
use mod_parrot.Base.{
  ◌==◌, Bool-cases, inl, inr, ℕ, ◌≡◌, refl, ap, ◌∙◌, fun_ext, Bool, true, false, Option, none, some,
  List, [], ◌∷◌, ◌++◌, get_elem?, length, take, arith, if◌then◌else◌,
}
use mod_parrot.Run.{ok, fault}
use mod_parrot.Base.Int.{ℤ, pos}
use mod_parrot.Context.{CtxId, CtxPool, Ctx, ctx_any, ready, Mpm, Store, update}
use mod_parrot.Context.Slots.{storage}
use mod_parrot.Context.Ops.{reserve_any, reserve_ctx, release_ctx}

-- Every context of the list is allocated.
abbrev pub Allocated : (CtxId → Option Ctx) → List CtxId → Type 0
Allocated h [] = Unit {0}
Allocated h (c ∷ cs) = ((x : Ctx) × (h c ≡ some x)) × Allocated h cs

abbrev pub locked_at : (CtxId → Option Ctx) → CtxId → Option Bool
locked_at h c = elim (h c) [ none ↦ none | some x ↦ some x.locked ]

-- The first context of the list that is not in use: an independent description.
abbrev pub first_free : (CtxId → Option Ctx) → List CtxId → Option CtxId
first_free h [] = none
first_free h (c ∷ cs) = elim (locked_at h c) [ some true ↦ first_free h cs | _ ↦ some c ]

abbrev pub set_locked : Bool → CtxId → Store → Store
set_locked b c w = elim (w.ctxs c) [
  | none ↦ w
  | some x ↦ record w { ctxs = update w.ctxs c (some (record x { locked = b })) }
]

abbrev pub after_reserve : Option CtxId → Store → Store
after_reserve none w = w
after_reserve (some c) w = set_locked true c w

-- A scan of the pool meets no slot that is `NULL`: the pool has one allocated context, or none, or
-- the first of its contexts is allocated and free.
abbrev pub Readable : (CtxId → Option Ctx) → List CtxId → Type 0
Readable h [] = Unit {0}
Readable h (c ∷ []) = (x : Ctx) × (h c ≡ some x)
Readable h (c ∷ d ∷ cs) = (x : Ctx) × (h c ≡ some x) × (x.locked ≡ false)

reserve_any-first :
    (w : Store) (cs ds : List CtxId)
    → Readable w.ctxs cs
    → reserve_any (take (length cs) (storage (cs ++ ds))) w
      ≡ ok (first_free w.ctxs cs) (after_reserve (first_free w.ctxs cs) w)
unfolding reserve_any
reserve_any-first w [] ds r = refl
reserve_any-first w (c ∷ []) ds (x, e) = ground arith
reserve_any-first w (c ∷ d ∷ cs) ds (x, e, free) = ground arith

module _ (mpm : Mpm) (threads : mpm.threaded ≡ true) (cp : CtxPool) (w : Store)
    (lock : w.mutex ≡ ready) (elts : List CtxId) (pool : w.pools cp ≡ some elts) where
  -- In the threaded build, over a readable pool with the mutex ready, `reserve_ctx` with
  -- `MP_CTX_ANY` returns the first context of the pool that is not in use, marked as in use and
  -- nothing else changed; if there is none it returns `NULL` and changes nothing.
  pub reserve_ctx-first :
      Readable w.ctxs elts
      → reserve_ctx mpm (some cp) ctx_any w
        ≡ ok (first_free w.ctxs elts) (after_reserve (first_free w.ctxs elts) w)
  unfolding reserve_ctx
  reserve_ctx-first r = let run = reserve_any-first w elts (w.stale cp) r in ground arith

  -- In the threaded build `reserve_ctx` with the index of a slot that is not `NULL` returns that
  -- context and marks it, if it is not in use, and otherwise returns `NULL` and changes nothing.
  pub reserve_ctx_at :
      (i : ℕ) (c : CtxId) (x : Ctx)
      → get_elem? (storage (elts ++ w.stale cp)) i ≡ some (some c)
      → w.ctxs c ≡ some x
      → reserve_ctx mpm (some cp) (pos i) w
        ≡ (if x.locked then ok none w else ok (some c) (set_locked true c w))
  unfolding reserve_ctx
  reserve_ctx_at i c x at e = ground arith

  -- In the threaded build an index outside the storage is read all the same: a fault.
  pub reserve_ctx_outside :
      (i : ℕ)
      → get_elem? (storage (elts ++ w.stale cp)) i ≡ none
      → reserve_ctx mpm (some cp) (pos i) w ≡ fault
  unfolding reserve_ctx
  reserve_ctx_outside i at = ground arith

reserve_any-strides :
    (w : Store) (c d : CtxId) (cs ds : List CtxId) (x : Ctx)
    → w.ctxs c ≡ some x
    → x.locked ≡ true
    → reserve_any (take (length (c ∷ d ∷ cs)) (storage ((c ∷ d ∷ cs) ++ ds))) w ≡ fault
unfolding reserve_any
reserve_any-strides w c d cs ds x e held = rw (e, held) refl

-- The second pointer of the storage is `NULL`, since the contexts lie further apart.
pub reserve_ctx_strides :
    (mpm : Mpm) (cp : CtxPool) (w : Store) (c d : CtxId) (cs : List CtxId) (x : Ctx)
    → mpm.threaded ≡ true
    → w.mutex ≡ ready
    → w.pools cp ≡ some (c ∷ d ∷ cs)
    → w.ctxs c ≡ some x
    → x.locked ≡ true
    → reserve_ctx mpm (some cp) ctx_any w ≡ fault
unfolding reserve_ctx
reserve_ctx_strides mpm cp w c d cs x threads lock pool e held =
    let run = reserve_any-strides w c d cs (w.stale cp) x e held in ground arith

-- In the threaded build, with the mutex ready, over any pool whose first context is allocated: if that
-- context is free, `reserve_ctx` with `MP_CTX_ANY` returns it, marked as in use, and changes nothing
-- else; if it is in use, the result is `NULL` and nothing changes where the pool has no other
-- context, and where it has, whether they are free or not, `NULL` is dereferenced.
pub reserve_ctx_any :
    (mpm : Mpm) (cp : CtxPool) (w : Store) (c : CtxId) (cs : List CtxId) (x : Ctx)
    → mpm.threaded ≡ true
    → w.mutex ≡ ready
    → w.pools cp ≡ some (c ∷ cs)
    → w.ctxs c ≡ some x
    → reserve_ctx mpm (some cp) ctx_any w ≡ (
        if x.locked
        then (if length cs == 0 then ok none w else fault)
        else ok (some c) (set_locked true c w))
reserve_ctx_any mpm cp w c [] x threads lock pool e =
    let first = reserve_ctx-first mpm threads cp w lock (c ∷ []) pool (x, e) in
    ground (arith, first)
reserve_ctx_any mpm cp w c (d ∷ cs) x threads lock pool e = elim (Bool-cases x.locked) [
  | inl held ↦
      let faults = reserve_ctx_strides mpm cp w c d cs x threads lock pool e held in
      ground (arith, faults)
  | inr free ↦
      let first = reserve_ctx-first mpm threads cp w lock (c ∷ d ∷ cs) pool (x, e, free) in
      ground (arith, first)
]

-- Without threads `reserve_ctx` returns the first context of the pool whatever the index, and also
-- when that context is in use.
pub reserve_ctx_single :
    (mpm : Mpm) (cp : CtxPool) (index : ℤ) (w : Store) (c : CtxId) (cs : List CtxId) (x : Ctx)
    → mpm.threaded ≡ false
    → w.pools cp ≡ some (c ∷ cs)
    → w.ctxs c ≡ some x
    → reserve_ctx mpm (some cp) index w ≡ ok (some c) (set_locked true c w)
unfolding reserve_ctx
reserve_ctx_single mpm cp index w c cs x single pool e = ground arith

abbrev relocked : (CtxId → Option Ctx) → CtxId → Ctx → CtxId → Option Ctx
relocked h c x =
    update (update h c (some (record x { locked = true }))) c (some (record x { locked = false }))

relocked-same :
    (h : CtxId → Option Ctx) (c : CtxId) (x : Ctx)
    → h c ≡ some x
    → x.locked ≡ false
    → relocked h c x ≡ h
relocked-same h c x e free = fun_ext λ q. ground arith

release-set_locked :
    (w : Store) (c : CtxId) (x : Ctx)
    → w.ctxs c ≡ some x
    → release_ctx (some c) (set_locked true c w) ≡ ok tt (record w { ctxs = relocked w.ctxs c x })
unfolding release_ctx
release-set_locked w c x e = ground arith

-- Releasing a context that was free and has just been reserved gives back the store as it was.
pub release-undo :
    (w : Store) (c : CtxId) (x : Ctx)
    → w.ctxs c ≡ some x
    → x.locked ≡ false
    → release_ctx (some c) (set_locked true c w) ≡ ok tt w
release-undo w c x e free =
    release-set_locked w c x e
    ∙ ap (λ h. ok tt (record w { ctxs = h })) (relocked-same w.ctxs c x e free)

first_free_unlocked :
    (h : CtxId → Option Ctx) (cs : List CtxId) (c : CtxId)
    → Readable h cs
    → first_free h cs ≡ some c
    → (x : Ctx) × (h c ≡ some x) × (x.locked ≡ false)
first_free_unlocked h [] c r e = cc
first_free_unlocked h (d ∷ []) c (x, found) e = (x, ground arith, ground arith)
first_free_unlocked h (d ∷ b ∷ cs) c (x, found, free) e = (x, ground arith, free)

-- In the threaded build, over a readable pool with the mutex ready: a reservation with
-- `MP_CTX_ANY` that returned a context, followed by its release, gives back the store as it was.
pub release-reserve_ctx :
    (mpm : Mpm) (cp : CtxPool) (w v : Store) (elts : List CtxId) (c : CtxId)
    → mpm.threaded ≡ true
    → w.mutex ≡ ready
    → w.pools cp ≡ some elts
    → Readable w.ctxs elts
    → reserve_ctx mpm (some cp) ctx_any w ≡ ok (some c) v
    → release_ctx (some c) v ≡ ok tt w
release-reserve_ctx mpm cp w v elts c threads lock pool a e =
    let first = reserve_ctx-first mpm threads cp w lock elts pool a in
    let got : first_free w.ctxs elts ≡ some c = ground (arith, first) in
    let (x, found, free) = first_free_unlocked w.ctxs elts c a got in
    let same : v ≡ set_locked true c w = ground (arith, first) in
    rw same (release-undo w c x found free)
