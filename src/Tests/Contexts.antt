-- ===== src/Tests/Contexts.antt =====
-- `init_ctx` at work.
use mod_parrot.Base.{◌≡◌, refl, true, false, none, some, [], ◌∷◌, ◌==◌, if◌then◌else◌}
use mod_parrot.CStr.{lit, str_eq}
use mod_parrot.Hash.{hash_get}
use mod_parrot.Run.{ok}
use mod_parrot.Context.{Ctx}
use mod_parrot.Context.Reserve.{Readable}
use mod_parrot.World.{World}
use mod_parrot.Startup.{init_ctx, reserve_for, modparrot_startup}
use mod_parrot.Startup.Bound.{set_server, suits, for_server, init_ctx_again}
use mod_parrot.Startup.Named.{startup_known}
use mod_parrot.Startup.Reserve.{reserved_for, init_ctx_reserves}
use mod_parrot.Tests.{threaded_mpm, some_ctx, four_ctxs, two_pools, quiet_parrot, small_world}

-- APR pool 8 is bound to context 0, which is in use.
abbrev bound_world : World
bound_world = record small_world {
  store = record two_pools { userdata = λ q. if q == 8 then some 0 else none };
}

-- The context is found.
init_bound :
    init_ctx threaded_mpm quiet_parrot 4 (some 8) (some 0) bound_world
    ≡ ok (some 0) (set_server 0 (some_ctx true 10) 4 bound_world)
unfolding init_ctx
init_bound = refl

-- The next call asks for the same pool.
init_ctx_again_example :
    (x : Ctx) × ((set_server 0 (some_ctx true 10) 4 bound_world).store.ctxs 0 ≡ some x)
    × ((set_server 0 (some_ctx true 10) 4 bound_world).store.userdata 8 ≡ some 0)
    × (init_ctx threaded_mpm quiet_parrot 5
          (some 8)
          (some 0)
          (set_server 0 (some_ctx true 10) 4 bound_world)
        ≡ (if suits x (some 0)
            then ok (some 0) (set_server 0 x 5 (set_server 0 (some_ctx true 10) 4 bound_world))
            else for_server 5
                (reserve_for threaded_mpm quiet_parrot 5 (some 8) (some 0))
                (set_server 0 (some_ctx true 10) 4 bound_world)))
init_ctx_again_example =
    init_ctx_again threaded_mpm quiet_parrot 4 8 (some 0) bound_world
      (set_server 0 (some_ctx true 10) 4 bound_world) 0 5 (some 0) init_bound

-- The first context of pool 0 is allocated and free.
Readable-three : Readable four_ctxs (1 ∷ 0 ∷ 2 ∷ [])
Readable-three = (some_ctx false 11, refl, refl)

init_ctx_reserves_example :
    init_ctx threaded_mpm quiet_parrot 4 (some 9) (some 0) bound_world
    ≡ ok (some 1) (reserved_for 1 (some_ctx false 11) 4 9 bound_world)
init_ctx_reserves_example =
    init_ctx_reserves threaded_mpm quiet_parrot 4 9 0 bound_world (1 ∷ 0 ∷ 2 ∷ []) refl refl refl
      Readable-three refl 1 (some_ctx false 11) 11 refl refl refl

-- A start for pool "a", with a parent interpreter that is of no effect.
startup_known_example :
    modparrot_startup threaded_mpm quiet_parrot 9 4 (some 77) (some (lit "a")) bound_world
    ≡ ok
        (some 1)
        (record (reserved_for 1 (some_ctx false 11) 4 9 bound_world) { is_started = true })
unfolding hash_get str_eq
startup_known_example =
    startup_known threaded_mpm quiet_parrot 9 4 (some 77) (some (lit "a")) bound_world 0
      (1 ∷ 0 ∷ 2 ∷ []) 1 (some_ctx false 11) 11 refl refl refl refl refl Readable-three refl refl
      refl refl
