-- ===== src/Tests/Pools.antt =====
-- Context pools at work.
use mod_parrot.Base.{
  List, ◌+◌, ◌*◌, ◌<◌, get_elem?, ℕ, zero, suc, Option, ◌≡◌, ◌≢◌, ◌==◌, arith, refl, true, false,
  none, some, [], ◌∷◌, if◌then◌else◌,
}
use mod_parrot.CStr.{CStr, lit, str_eq}
use mod_parrot.Hash.{hash_get}
use mod_parrot.Run.{ok, fault, result}
use mod_parrot.Context.{
  CtxId, CtxPool, Ctx, zeroed_ctx, ctx_any, ready, destroyed, Store, empty_store,
}
use mod_parrot.Context.Ops.{
  slots_of, mp_ctx_pool_init, mp_ctx_pool_destroy, mp_ctx_pool_destroy_all, reserve_ctx,
  modparrot_set_named_ctx_pool, modparrot_get_named_ctx_pool, modparrot_get_ctx_pool_name,
}
use mod_parrot.Context.Reserve.{Allocated, reserve_ctx_any, locked_at, set_locked}
use mod_parrot.Context.Capacity.{reserve_times, has, reserve_times-served, reserve_times_single}
use mod_parrot.Context.Init.{IsCreated, mp_ctx_pool_init-IsCreated, mp_ctx_pool_init-served}
use mod_parrot.Context.Threads.{System, reserves, here, next, IsExclusive, Steps-IsExclusive}
use mod_parrot.Context.Progress.{Steps-serves}
use mod_parrot.Context.Names.{get-set_named}
use mod_parrot.Context.Destroy.{without_interp, mp_ctx_pool_destroy-Ended, destroy_all_two_pools}
use mod_parrot.Tests.{threaded_mpm, single_mpm, some_ctx, four_ctxs, two_pools}

Allocated-three : Allocated four_ctxs (1 ∷ 0 ∷ 2 ∷ [])
Allocated-three =
    ((some_ctx false 11, refl), ((some_ctx true 10, refl), ((some_ctx true 12, refl), tt)))

abbrev free_ctxs : CtxId → Option Ctx
free_ctxs zero = some (some_ctx false 10)
free_ctxs (suc c) = none

-- Pool 0 holds context 0, which is free.
abbrev free_store : Store
free_store = record two_pools {
  ctxs = free_ctxs;
  pools = λ p. if p == 0 then some (0 ∷ []) else none;
}

reserve_times-served_example :
    result (reserve_times threaded_mpm 0 3 free_store) ≡ some (some 0 ∷ none ∷ none ∷ [])
reserve_times-served_example =
    reserve_times-served threaded_mpm refl 0 0 3 free_store (some_ctx false 10) refl refl refl

reserve_times_single_example :
    result (reserve_times single_mpm 0 2 two_pools) ≡ some (some 1 ∷ some 1 ∷ [])
reserve_times_single_example =
    reserve_times_single single_mpm 0 1 (0 ∷ 2 ∷ []) 2 two_pools (some_ctx false 11) refl refl refl

mp_ctx_pool_init-IsCreated_example :
    (cp : CtxPool) × (v : Store) × (mp_ctx_pool_init threaded_mpm none 2 two_pools ≡ ok (some cp) v)
    × IsCreated none 2 cp two_pools v
    × (v.mutex ≡ ready)
    × (ss : List (Option CtxId)) × (slots_of cp v ≡ ok ss v)
    × ((i : ℕ)
        → i < 2
        → (get_elem? ss (i * 18) ≡ some (some (4 + i))) × (get_elem? ss (i * 18 + 1) ≡ some none))
mp_ctx_pool_init-IsCreated_example = mp_ctx_pool_init-IsCreated threaded_mpm none 2 two_pools refl

-- A pool of two contexts.
mp_ctx_pool_init-served_example :
    (cp : CtxPool) × (v u : Store) × (mp_ctx_pool_init threaded_mpm none 2 empty_store
      ≡ ok (some cp) v)
    × (reserve_ctx threaded_mpm (some cp) ctx_any v ≡ ok (some 0) u)
    × (reserve_ctx threaded_mpm (some cp) ctx_any u ≡ fault)
mp_ctx_pool_init-served_example = mp_ctx_pool_init-served threaded_mpm none 1 empty_store refl refl

-- Context 1 is taken, and the next one cannot be found.
reserve_ctx_any_example :
    reserve_ctx threaded_mpm (some 0) ctx_any (set_locked true 1 two_pools) ≡ fault
reserve_ctx_any_example =
    reserve_ctx_any threaded_mpm 0 (set_locked true 1 two_pools) 1 (0 ∷ 2 ∷ []) (some_ctx true 11)
      refl refl refl refl

-- The one free context of pool 0 is reserved.
reserve_two_pools :
    reserve_ctx threaded_mpm (some 0) ctx_any two_pools ≡ ok (some 1) (set_locked true 1 two_pools)
unfolding reserve_ctx
reserve_two_pools = refl

abbrev idle_system : System
idle_system = record { store = two_pools; held = [] }

-- Thread 5 holds context 1.
abbrev busy_system : System
busy_system = record { store = set_locked true 1 two_pools; held = (5, 1) ∷ [] }

Steps-IsExclusive_example : IsExclusive (set_locked true 1 two_pools) ((5, 1) ∷ [])
Steps-IsExclusive_example =
    Steps-IsExclusive threaded_mpm refl idle_system busy_system refl
      (next here (reserves 5 0 1 reserve_two_pools refl))

abbrev free_system : System
free_system = record { store = free_store; held = [] }

abbrev half_system : System
half_system = record { store = set_locked true 0 free_store; held = (5, 0) ∷ [] }

nothing_locked : (d : CtxId) → locked_at free_store.ctxs d ≢ some true
nothing_locked zero e = ground arith
nothing_locked (suc d) e = cc

reserve_free_store :
    reserve_ctx threaded_mpm (some 0) ctx_any free_store
    ≡ ok (some 0) (set_locked true 0 free_store)
unfolding reserve_ctx
reserve_free_store = refl

Steps-serves_example :
    reserve_ctx threaded_mpm (some 0) ctx_any (set_locked true 0 free_store)
    ≡ ok none (set_locked true 0 free_store)
Steps-serves_example =
    Steps-serves 0 0 threaded_mpm refl free_system half_system refl refl (some_ctx false 10, refl)
      nothing_locked refl (next here (reserves 5 0 0 reserve_free_store refl))

get-set_named_example :
    (v : Store) × (modparrot_set_named_ctx_pool (lit "c") 1 two_pools ≡ ok tt v)
    × ((other : CStr)
        → modparrot_get_named_ctx_pool other v
          ≡ ok
              (if str_eq (lit "c") other then some 1 else hash_get other two_pools.ctx_pool_hash)
              v)
    × (modparrot_get_ctx_pool_name 1 v ≡ ok (some (lit "c")) v)
get-set_named_example =
    get-set_named (lit "c") 1 two_pools 3 []
      (record zeroed_ctx { ctx_pool = some 1; locked = true }) refl refl

mp_ctx_pool_destroy-Ended_example :
    (v : Store) × (mp_ctx_pool_destroy threaded_mpm (some 0) two_pools ≡ ok tt v)
    × (v.ended ≡ 11 ∷ 10 ∷ 12 ∷ [])
    × ((c : CtxId)
        → v.ctxs c ≡ (if has c (1 ∷ 0 ∷ 2 ∷ []) then without_interp (four_ctxs c) else four_ctxs c))
    × (v.pools 0 ≡ some [])
    × (v.mutex ≡ destroyed)
mp_ctx_pool_destroy-Ended_example =
    mp_ctx_pool_destroy-Ended threaded_mpm 0 (1 ∷ 0 ∷ 2 ∷ []) two_pools refl Allocated-three
      (refl, (refl, (refl, tt))) (λ threads. refl)

destroy_all_two_pools_example : mp_ctx_pool_destroy_all threaded_mpm two_pools ≡ fault
destroy_all_two_pools_example =
    destroy_all_two_pools threaded_mpm two_pools (lit "a") (lit "b") 0 1 [] (1 ∷ 0 ∷ 2 ∷ []) refl
      refl refl refl Allocated-three (refl, (refl, (refl, tt)))
