-- ===== src/Commands/Options.antt =====
-- A line of `ParrotOptions`: Apache calls the command once for each argument, and stops at the first
-- error message.
use mod_parrot.Base.{
  ◌≡◌, refl, Bool, true, false, Option, none, some, List, [], ◌∷◌, ◌==◌, is_some, arith,
  if◌then◌else◌,
}
use mod_parrot.CStr.{CStr}
use mod_parrot.Run.{ok, M, pure, ◌>>=◌}
use mod_parrot.Context.{Server}
use mod_parrot.Config.{option_bit, modparrot_set_option}
use mod_parrot.Config.Options.{set_options}
use mod_parrot.World.{World, set_srv_config}
use mod_parrot.Commands.{CmdParms, modparrot_cmd_options}

unfoldable pub run_options : CmdParms → List CStr → M World (Option CStr)
run_options cmd [] = pure none
run_options cmd (arg ∷ args) = do
  message ← modparrot_cmd_options cmd arg
  elim message [ some m ↦ pure (some m) | none ↦ run_options cmd args ]

-- `+Name` and `-Name`, the sign of an argument and its name.
abbrev pub argument : CStr × Bool → CStr
argument (name, true) = b'+' ∷ name
argument (name, false) = b'-' ∷ name

abbrev pub arguments : List (CStr × Bool) → List CStr
arguments [] = []
arguments (o ∷ os) = argument o ∷ arguments os

-- Every name is that of an option.
abbrev pub AreKnown : List (CStr × Bool) → Type 0
AreKnown [] = Unit {0}
AreKnown (o ∷ os) = (is_some (option_bit o.0) ≡ true) × AreKnown os

cmd_options-known :
    (cmd : CmdParms) (name : CStr) (enable : Bool) (w : World)
    → is_some (option_bit name) ≡ true
    → modparrot_cmd_options cmd (argument (name, enable)) w
      ≡ ok none (
          set_srv_config cmd.server
            (modparrot_set_option (w.srv_config cmd.server) name enable).0
            w)
unfolding modparrot_cmd_options modparrot_set_option
cmd_options-known cmd name true w known = ground arith
cmd_options-known cmd name false w known = ground arith

-- A line of signed option names, all known: no message comes, the server's configuration is what the
-- sequence of options makes of it, and no other server's has changed.
pub run_options-set_options :
    (cmd : CmdParms) (os : List (CStr × Bool)) (w : World)
    → AreKnown os
    → (v : World) × (run_options cmd (arguments os) w ≡ ok none v)
      × ((t : Server)
          → v.srv_config t ≡ (
              if cmd.server == t then set_options (w.srv_config cmd.server) os else w.srv_config t))
unfolding run_options set_options
run_options-set_options cmd [] w known = (w, refl, λ t. ground arith)
run_options-set_options cmd ((name, enable) ∷ os) w (one, known) =
    let cfg = (modparrot_set_option (w.srv_config cmd.server) name enable).0 in
    let u = set_srv_config cmd.server cfg w in
    let (v, run, after) = run_options-set_options cmd os u known in
    (v, rw (cmd_options-known cmd name enable w one) run, λ t. ground (arith, after t))
