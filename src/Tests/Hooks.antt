-- ===== src/Tests/Hooks.antt =====
-- Hooks at work: three modules, of which the first and the last ask for the response hook.
use mod_parrot.Base.{◌≡◌, refl, false, none, some, [], ◌∷◌, ◌==◌, if◌then◌else◌}
use mod_parrot.Run.{fault, result}
use mod_parrot.Module.{hook_response}
use mod_parrot.Module.Hooks.Next.{next_times, next_times-hooking}
use mod_parrot.World.{World}
use mod_parrot.Tests.{some_ctx, small_world}

abbrev registered_world : World
registered_world = record small_world {
  handler_modules = λ h. if h == hook_response then some (0 ∷ 2 ∷ []) else none;
}

next_times-hooking_example :
    (result (next_times hook_response 1 2 registered_world) ≡ some (0 ∷ 2 ∷ []))
    × (next_times hook_response 1 3 registered_world ≡ fault)
next_times-hooking_example =
    next_times-hooking hook_response 1 registered_world (some_ctx false 11) (0 ∷ 2 ∷ []) refl refl
      refl refl
