-- ===== src/Files.antt =====
-- The files that `ParrotLoad` names (src/mod_parrot.c).
pub mod Extensions
use mod_parrot.Base.{Bool, false, ◌||◌, none, some, List, [], ◌∷◌, if◌then◌else◌}
use mod_parrot.CStr.{CStr, lit, str_eq, strrchr}
use mod_parrot.Run.{M, pure, ◌>>◌}
use mod_parrot.Context.{Interp}
use mod_parrot.World.{World, Parrot}

unfoldable pub is_parrot_ext : CStr → Bool
unfolding str_eq
is_parrot_ext ext = str_eq ext (lit ".pbc") || (str_eq ext (lit ".pir") || str_eq ext (lit ".pasm"))

unfoldable pub is_parrot_file : CStr → Bool
unfolding strrchr is_parrot_ext
is_parrot_file file = elim (strrchr file b'.') [ none ↦ false | some ext ↦ is_parrot_ext ext ]

module _ (parrot : Parrot) where
  -- A file with another extension is only logged.
  unfoldable pub modparrot_load_file : Interp → CStr → M World (Unit {0})
  unfolding is_parrot_file
  modparrot_load_file interp file =
      if is_parrot_file file then parrot.load_bytecode interp file else pure tt

  unfoldable pub modparrot_load_files : Interp → List CStr → M World (Unit {0})
  unfolding modparrot_load_file
  modparrot_load_files interp [] = pure tt
  modparrot_load_files interp (path ∷ files) =
      modparrot_load_file interp path >> modparrot_load_files interp files
