-- ===== src/Context/Threads.antt =====
-- Threads that reserve and release contexts. Each call is one step: the scan of `reserve_ctx` runs
-- under the mutex, and `release_ctx` is one store. A thread releases only what it holds.
use mod_parrot.Base.{
  ℕ, ◌≡◌, refl, sym, ◌∙◌, true, false, ◌||◌, Option, none, some, length, take, List, [], ◌∷◌, ◌++◌,
  ◌==◌, ==_iff, arith, Bool-cases, inl, inr, Option-cases,
}
use mathlib.Core.Path.{subst₂}
use mod_parrot.Run.{ok}
use mod_parrot.Context.{CtxId, CtxPool, ctx_any, Mpm, Store}
use mod_parrot.Context.Slots.{storage}
use mod_parrot.Context.Ops.{reserve_any, reserve_ctx, release_ctx}
use mod_parrot.Context.Reserve.{locked_at, set_locked}
use mod_parrot.Context.Capacity.{has, Distinct}

-- A reservation that succeeds takes a context that was free, and changes nothing but its lock.
abbrev pub Taken : CtxId → Store → Store → Type 0
Taken c w v = (locked_at w.ctxs c ≡ some false) × (v ≡ set_locked true c w)

reserve_any-Taken :
    (slots : List (Option CtxId)) (c : CtxId) (w v : Store)
    → reserve_any slots w ≡ ok (some c) v
    → Taken c w v
unfolding reserve_any
reserve_any-Taken [] c w v e = cc
reserve_any-Taken (none ∷ rest) c w v e = cc
reserve_any-Taken (some d ∷ rest) c w v e = elim (Option-cases (w.ctxs d)) [
  | inl gone ↦ ground arith
  | inr (x, found) ↦ elim (Bool-cases x.locked) [
    | inl held ↦ reserve_any-Taken rest c w v (ground arith)
    | inr free ↦ ground arith
  ]
]

reserve_any-none :
    (slots : List (Option CtxId)) (w v : Store) → reserve_any slots w ≡ ok none v → v ≡ w
unfolding reserve_any
reserve_any-none [] w v e = ground arith
reserve_any-none (none ∷ rest) w v e = cc
reserve_any-none (some d ∷ rest) w v e = ground (arith, reserve_any-none rest w v)

module _ (mpm : Mpm) (threads : mpm.threaded ≡ true) (cp : CtxPool) (w v : Store) where
  pub reserve_ctx-Taken :
      (c : CtxId) → reserve_ctx mpm (some cp) ctx_any w ≡ ok (some c) v → Taken c w v
  unfolding reserve_ctx
  reserve_ctx-Taken c e = elim (Option-cases (w.pools cp)) [
    | inl gone ↦ ground arith
    | inr (elts, found) ↦
        ground (arith, reserve_any-Taken (take (length elts) (storage (elts ++ w.stale cp))) c w v)
  ]

  pub reserve_ctx-none : reserve_ctx mpm (some cp) ctx_any w ≡ ok none v → v ≡ w
  unfolding reserve_ctx
  reserve_ctx-none e = elim (Option-cases (w.pools cp)) [
    | inl gone ↦ ground arith
    | inr (elts, found) ↦
        ground (arith, reserve_any-none (take (length elts) (storage (elts ++ w.stale cp))) w v)
  ]

-- The store, and who holds which context.
pub record System : Type 0 where
  pub store : Store
  pub held : List (ℕ × CtxId)

pub data Step (mpm : Mpm) (s t : System) : Type 0 where
  reserves :
      (thread : ℕ) (cp : CtxPool) (c : CtxId)
      → reserve_ctx mpm (some cp) ctx_any s.store ≡ ok (some c) t.store
      → t.held ≡ (thread, c) ∷ s.held
      → Step mpm s t
  refused :
      (cp : CtxPool)
      → reserve_ctx mpm (some cp) ctx_any s.store ≡ ok none t.store
      → t.held ≡ s.held
      → Step mpm s t
  releases :
      (thread : ℕ) (c : CtxId) (before after : List (ℕ × CtxId))
      → s.held ≡ before ++ ((thread, c) ∷ after)
      → release_ctx (some c) s.store ≡ ok tt t.store
      → t.held ≡ before ++ after
      → Step mpm s t

pub data Steps (mpm : Mpm) (s : System) : System → Type 0 where
  here : Steps mpm s s
  next : {t u : System} → Steps mpm s t → Step mpm t u → Steps mpm s u

abbrev pub held_ctxs : List (ℕ × CtxId) → List CtxId
held_ctxs [] = []
held_ctxs ((thread, c) ∷ hs) = c ∷ held_ctxs hs

abbrev pub AllLocked : Store → List CtxId → Type 0
AllLocked w [] = Unit {0}
AllLocked w (c ∷ cs) = (locked_at w.ctxs c ≡ some true) × AllLocked w cs

-- A free context is held by nobody.
pub not-has_free :
    (w : Store) (c : CtxId) (cs : List CtxId)
    → AllLocked w cs
    → locked_at w.ctxs c ≡ some false
    → has c cs ≡ false
not-has_free w c [] l free = refl
not-has_free w c (d ∷ cs) (ld, l) free = elim (Bool-cases (c == d)) [
  | inl same ↦
      let e : c ≡ d = (==_iff c d).0 same in
      let clash : locked_at w.ctxs c ≡ some true = rw e ld in cc
  | inr other ↦ rw (other, has) (not-has_free w c cs l free)
]

locked_at-lock :
    (w : Store) (c d : CtxId)
    → locked_at w.ctxs d ≡ some true
    → locked_at (set_locked true c w).ctxs d ≡ some true
locked_at-lock w c d h = ground arith

AllLocked-lock :
    (w : Store) (c : CtxId) (cs : List CtxId) → AllLocked w cs → AllLocked (set_locked true c w) cs
AllLocked-lock w c [] l = tt
AllLocked-lock w c (d ∷ cs) (ld, l) = (locked_at-lock w c d ld, AllLocked-lock w c cs l)

locked_at-lock_self :
    (w : Store) (c : CtxId)
    → locked_at w.ctxs c ≡ some false
    → locked_at (set_locked true c w).ctxs c ≡ some true
locked_at-lock_self w c h = ground arith

pub release_ctx-set_locked :
    (w v : Store) (c : CtxId) → release_ctx (some c) w ≡ ok tt v → v ≡ set_locked false c w
unfolding release_ctx
release_ctx-set_locked w v c e = ground arith

locked_at-unlock :
    (w : Store) (c d : CtxId)
    → (c == d) ≡ false
    → locked_at w.ctxs d ≡ some true
    → locked_at (set_locked false c w).ctxs d ≡ some true
locked_at-unlock w c d other h = ground arith

AllLocked-unlock :
    (w : Store) (c : CtxId) (cs : List CtxId)
    → has c cs ≡ false
    → AllLocked w cs
    → AllLocked (set_locked false c w) cs
AllLocked-unlock w c [] out l = tt
AllLocked-unlock w c (d ∷ cs) out (ld, l) =
    let other : (c == d) ≡ false = ground arith in
    let rest : has c cs ≡ false = ground arith in
    (locked_at-unlock w c d other ld, AllLocked-unlock w c cs rest l)

-- What one holder less leaves of the list.
module _ (thread : ℕ) (c : CtxId) (after : List (ℕ × CtxId)) where
  pub has-remove :
      (d : CtxId) (before : List (ℕ × CtxId))
      → has d (held_ctxs (before ++ ((thread, c) ∷ after)))
        ≡ ((d == c) || has d (held_ctxs (before ++ after)))
  has-remove d [] = refl
  has-remove d ((t, b) ∷ before) = ground (arith, has-remove d before)

  Distinct-remove :
      (before : List (ℕ × CtxId))
      → Distinct (held_ctxs (before ++ ((thread, c) ∷ after)))
      → Distinct (held_ctxs (before ++ after)) × (has c (held_ctxs (before ++ after)) ≡ false)
  Distinct-remove [] (out, d) = (d, out)
  Distinct-remove ((t, b) ∷ before) (out, d) =
      let (d', out') = Distinct-remove before d in
      let split : ((b == c) || has b (held_ctxs (before ++ after))) ≡ false =
        sym (has-remove b before) ∙ out in
      ((ground arith, d'), ground arith)

  AllLocked-remove :
      (w : Store) (before : List (ℕ × CtxId))
      → AllLocked w (held_ctxs (before ++ ((thread, c) ∷ after)))
      → AllLocked w (held_ctxs (before ++ after))
  AllLocked-remove w [] (lc, l) = l
  AllLocked-remove w ((t, b) ∷ before) (lb, l) = (lb, AllLocked-remove w before l)

-- No two holders of one context, and every context that is held is marked as in use.
abbrev pub IsExclusive : Store → List (ℕ × CtxId) → Type 0
IsExclusive w hs = Distinct (held_ctxs hs) × AllLocked w (held_ctxs hs)

moved :
    (w v : Store) (hs gs : List (ℕ × CtxId)) → v ≡ w → gs ≡ hs → IsExclusive w hs → IsExclusive v gs
moved w v hs gs e h x = subst₂ IsExclusive (sym e) (sym h) x

module _ (mpm : Mpm) (threads : mpm.threaded ≡ true) where
  Step-IsExclusive :
      (s t : System) → Step mpm s t → IsExclusive s.store s.held → IsExclusive t.store t.held
  Step-IsExclusive s t (reserves thread cp c e h) (d, l) =
      let (free, same) = reserve_ctx-Taken mpm threads cp s.store t.store c e in
      moved (set_locked true c s.store) t.store ((thread, c) ∷ s.held) t.held same h (
        (not-has_free s.store c (held_ctxs s.held) l free, d),
        (locked_at-lock_self s.store c free, AllLocked-lock s.store c (held_ctxs s.held) l),
      )
  Step-IsExclusive s t (refused cp e h) (d, l) =
      moved s.store t.store s.held t.held (reserve_ctx-none mpm threads cp s.store t.store e) h
        (d, l)
  Step-IsExclusive s t (releases thread c before after held e h) (d, l) =
      let (was, was_locked) =
        moved s.store s.store s.held (before ++ ((thread, c) ∷ after)) refl (sym held) (d, l) in
      let (d', out) = Distinct-remove thread c after before was in
      moved (set_locked false c s.store) t.store (before ++ after) t.held
        (release_ctx-set_locked s.store t.store c e) h
        (
          d',
          AllLocked-unlock s.store c (held_ctxs (before ++ after)) out
              (AllLocked-remove thread c after s.store before was_locked),
        )

  Steps-IsExclusive_from :
      (s t : System) → Steps mpm s t → IsExclusive s.store s.held → IsExclusive t.store t.held
  Steps-IsExclusive_from s t here x = x
  Steps-IsExclusive_from s u (next {t} r st) x =
      Step-IsExclusive t u st (Steps-IsExclusive_from s t r x)

  -- In the threaded build, however the threads' calls interleave from a state where nothing is
  -- held: no two threads hold the same context, no thread holds a context twice, and every held
  -- context is marked as in use.
  pub Steps-IsExclusive : (s t : System) → s.held ≡ [] → Steps mpm s t → IsExclusive t.store t.held
  Steps-IsExclusive s t none_held r =
      Steps-IsExclusive_from s t r (moved s.store s.store [] s.held refl none_held (tt, tt))
