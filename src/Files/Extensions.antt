-- ===== src/Files/Extensions.antt =====
-- Which files count as Parrot files, and which of a list are loaded.
use mod_parrot.Base.{◌≡◌, refl, ap, fun_ext, List, [], ◌∷◌, if◌then◌else◌, Bool-cases, inl, inr}
use mod_parrot.CStr.{CStr}
use mod_parrot.Run.{M, pure, and_then, ◌>>◌}
use mod_parrot.Context.{Interp}
use mod_parrot.World.{World, Parrot}
use mod_parrot.Files.{is_parrot_file, modparrot_load_file, modparrot_load_files}

abbrev pub parrot_files : List CStr → List CStr
parrot_files [] = []
parrot_files (file ∷ files) =
    if is_parrot_file file then file ∷ parrot_files files else parrot_files files

-- Loads a list of files one after the other, whatever their names.
abbrev pub load_all : Parrot → Interp → List CStr → M World (Unit {0})
load_all parrot i [] = pure tt
load_all parrot i (file ∷ files) = parrot.load_bytecode i file >> load_all parrot i files

-- Of a list of files the Parrot files are loaded, in order, and the others are passed over.
pub load_files-parrot_files :
    (parrot : Parrot) (i : Interp) (files : List CStr) (w : World)
    → modparrot_load_files parrot i files w ≡ load_all parrot i (parrot_files files) w
unfolding modparrot_load_files modparrot_load_file
load_files-parrot_files parrot i [] w = refl
load_files-parrot_files parrot i (file ∷ files) w = elim (Bool-cases (is_parrot_file file)) [
  | inl loads ↦ rw loads (
      ap (λ (rest : M World (Unit {0})). and_then (parrot.load_bytecode i file w) (λ _. rest))
        (fun_ext λ v. load_files-parrot_files parrot i files v))
  | inr passes ↦ rw passes (load_files-parrot_files parrot i files w)
]
