-- ===== src/Module/Add/Asking.antt =====
-- What a description of a module asks for, and what the loops of `modparrot_add_module`
-- (src/module.c) make of it.
use mod_parrot.Base.{
  ℕ, ◌≡◌, refl, fun_ext, Bool, true, false, not, ◌&&◌, ◌||◌, List, [], ◌∷◌, ◌==◌, ltb, map, arith,
  if◌then◌else◌, Bool-cases, inl, inr,
}
use mod_parrot.Base.Int.{ℤ, pos, negsuc}
use mod_parrot.Run.{ok, exits}
use mod_parrot.Context.{update}
use mod_parrot.Module.{pmcnull, hook_last}
use mod_parrot.World.{World}
use mod_parrot.Module.Add.{
  CmdPmc, command_rec, init_cmds, set_hooks_from, is_hook_all, populate_hooks,
}

-- Every directive has a sub.
abbrev pub all_have_subs : List CmdPmc → Bool
all_have_subs [] = true
all_have_subs (cmd ∷ rest) = not (cmd.func == pmcnull) && all_have_subs rest

abbrev pub all_in_range : List ℤ → Bool
all_in_range [] = true
all_in_range (negsuc n ∷ rest) = false
all_in_range (pos h ∷ rest) = ltb h hook_last && all_in_range rest

abbrev pub mentions : List ℤ → ℕ → Bool
mentions [] h = false
mentions (negsuc n ∷ rest) h = mentions rest h
mentions (pos g ∷ rest) h = (g == h) || mentions rest h

-- Whether a list of hooks is accepted, and whether it asks for a hook.
abbrev pub is_accepted : List ℤ → Bool
is_accepted [] = true
is_accepted (first ∷ rest) = is_hook_all first || all_in_range (first ∷ rest)

abbrev pub asks_for : List ℤ → ℕ → Bool
asks_for [] h = false
asks_for (first ∷ rest) h = if is_hook_all first then ltb h hook_last else mentions (first ∷ rest) h

pub init_cmds-run :
    (cmds : List CmdPmc) (w : World)
    → init_cmds cmds w ≡ (if all_have_subs cmds then ok (map command_rec cmds) w else exits)
unfolding init_cmds
init_cmds-run [] w = refl
init_cmds-run (cmd ∷ rest) w = elim (Bool-cases (cmd.func == pmcnull)) [
  | inl gone ↦ rw gone refl
  | inr there ↦ elim (Bool-cases (all_have_subs rest)) [
    | inl all ↦ rw (there, init_cmds-run rest w, all) refl
    | inr some_lack ↦ rw (there, init_cmds-run rest w, some_lack) refl
  ]
]

marked : List ℤ → (ℕ → Bool) → ℕ → Bool
marked hs hooks h = mentions hs h || hooks h

marked-update :
    (g : ℕ) (rest : List ℤ) (hooks : ℕ → Bool)
    → marked rest (update hooks g true) ≡ marked (pos g ∷ rest) hooks
unfolding marked
marked-update g rest hooks = fun_ext (λ h. ground arith)

set_hooks_from-run :
    (hs : List ℤ) (hooks : ℕ → Bool) (w : World)
    → set_hooks_from hs hooks w ≡ (if all_in_range hs then ok (marked hs hooks) w else exits)
unfolding set_hooks_from marked
set_hooks_from-run [] hooks w = refl
set_hooks_from-run (negsuc n ∷ rest) hooks w = refl
set_hooks_from-run (pos g ∷ rest) hooks w =
    let rec = set_hooks_from-run rest (update hooks g true) w in
    let same = marked-update g rest hooks in
    elim (Bool-cases (ltb g hook_last)) [
      | inl inside ↦ rw (inside, rec, same) refl
      | inr outside ↦ rw outside refl
    ]

pub populate_hooks-run :
    (hs : List ℤ) (w : World)
    → populate_hooks hs w ≡ (if is_accepted hs then ok (asks_for hs) w else exits)
unfolding populate_hooks marked
populate_hooks-run [] w = refl
populate_hooks-run (first ∷ rest) w =
    let each = set_hooks_from-run (first ∷ rest) (λ h. false) w in
    elim (Bool-cases (is_hook_all first)) [
      | inl all ↦
          let same : asks_for (first ∷ rest) ≡ (λ h. ltb h hook_last) =
            fun_ext (λ h. rw all refl) in
          rw (all, same) refl
      | inr one ↦
          let same : asks_for (first ∷ rest) ≡ marked (first ∷ rest) (λ h. false) =
            fun_ext (λ h. rw one (ground arith)) in
          rw (one, same) each
    ]
