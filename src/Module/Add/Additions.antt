-- ===== src/Module/Add/Additions.antt =====
-- Additions of modules, one after the other (src/module.c, `modparrot_add_module`).
use mod_parrot.Base.{ℕ, suc, Bool, true, not, ◌&&◌, Option, some, List, [], ◌∷◌, if◌then◌else◌}
use mod_parrot.Base.Int.{ℤ}
use mod_parrot.CStr.{CStr, str_eq}
use mod_parrot.Run.{M, pure, ◌>>◌}
use mod_parrot.Context.{AprPool, Interp}
use mod_parrot.Module.{ModuleId}
use mod_parrot.World.{World, Parrot}
use mod_parrot.Module.Add.Asking.{all_have_subs, is_accepted, asks_for}
use mod_parrot.Module.Add.{CmdPmc, commands_of, modparrot_add_module}

-- The arguments of one call of `modparrot_add_module`.
pub record Addition : Type 0 where
  pub p : AprPool
  pub name : CStr
  pub namespace : CStr
  pub cmd_array : Option (List CmdPmc)
  pub hook_array : List ℤ

-- Every directive has a sub, and the hooks are accepted.
abbrev pub is_well_formed : Addition → Bool
is_well_formed a = all_have_subs (commands_of a.cmd_array) && is_accepted a.hook_array

abbrev pub all_well_formed : List Addition → Bool
all_well_formed [] = true
all_well_formed (a ∷ rest) = is_well_formed a && all_well_formed rest

abbrev pub lacks : CStr → List Addition → Bool
lacks name [] = true
lacks name (a ∷ rest) = not (str_eq name a.name) && lacks name rest

abbrev pub distinct_names : List Addition → Bool
distinct_names [] = true
distinct_names (a ∷ rest) = lacks a.name rest && distinct_names rest

-- The additions that ask for a hook, numbered from `idx` on.
abbrev pub asking : ModuleId → List Addition → ℕ → List ModuleId
asking idx [] h = []
asking idx (a ∷ rest) h =
    if asks_for a.hook_array h then idx ∷ asking (suc idx) rest h else asking (suc idx) rest h

-- HLL code that runs in one interpreter adds modules, one after the other.
unfoldable pub add_each : Parrot → Interp → List Addition → M World (Unit {0})
add_each parrot interp [] = pure tt
add_each parrot interp (a ∷ rest) =
    modparrot_add_module parrot interp (some a.p) a.name a.namespace a.cmd_array a.hook_array
    >> add_each parrot interp rest
