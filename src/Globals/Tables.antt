-- ===== src/Globals/Tables.antt =====
-- The two tables of hooks (src/mod_parrot.c, `register_hooks`; src/module.c, `register_meta_hooks`).
use mod_parrot.Base.{ℕ, suc, ◌<◌, ◌≡◌, refl, List, [], ◌∷◌, ◌==◌, ==_iff, if◌then◌else◌}
use mod_parrot.Base.Bits.{passes, passes_sound}
use mod_parrot.Module.{hook_last}
use mod_parrot.Module.Hooks.{has_ap_hook}
use mod_parrot.World.{OwnHook}
use mod_parrot.Globals.{own_hook_table}

-- How many handlers a table has for a hook.
abbrev pub count_for : ℕ → List OwnHook → ℕ
count_for h [] = 0
count_for h (o ∷ os) = if o.hook == h then suc (count_for h os) else count_for h os

-- For every hook for which `register_meta_hooks` registers a meta handler, `register_hooks` registers
-- exactly one handler of mod_parrot itself, and for no other hook any.
pub own_hook_table-has_ap_hook :
    (h : ℕ) → h < hook_last → count_for h own_hook_table ≡ (if has_ap_hook h then 1 else 0)
unfolding passes
own_hook_table-has_ap_hook h inside =
    (==_iff (count_for h own_hook_table) (if has_ap_hook h then 1 else 0)).0 (
      passes_sound (λ h. count_for h own_hook_table == (if has_ap_hook h then 1 else 0)) hook_last h
        refl inside)
