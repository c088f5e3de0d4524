-- ===== src/Tests/Vms.antt =====
-- Parrot's functions at work: backtraces.
use mod_parrot.Base.{ℕ, ◌≡◌, refl, true, some, [], ◌∷◌}
use mod_parrot.CStr.{CStr, lit}
use mod_parrot.Util.Backtrace.{Frame, modparrot_backtrace, backtrace-texts, backtrace-repeats}

abbrev frame : CStr → ℕ → Frame
frame text pc = record { infostr = some text; current_pc = pc; current_sub = 1 }

abbrev repeat_line : ℕ → CStr
repeat_line n = lit "... call repeated "

backtrace-texts_example :
    modparrot_backtrace repeat_line true
      (frame (lit "a") 1)
      (frame (lit "b") 2 ∷ frame (lit "c") 3 ∷ [])
    ≡ some (lit "abc")
backtrace-texts_example =
    backtrace-texts repeat_line (frame (lit "a") 1) (frame (lit "b") 2 ∷ frame (lit "c") 3 ∷ [])
      (lit "a") refl refl

backtrace-repeats_example :
    (n : ℕ) × (modparrot_backtrace repeat_line true
        (frame (lit "a") 1)
        (frame (lit "b") 2 ∷ frame (lit "c") 3 ∷ frame (lit "c") 3 ∷ [])
      ≡ some (lit "... call repeated "))
backtrace-repeats_example =
    backtrace-repeats repeat_line true (frame (lit "a") 1) (frame (lit "b") 2 ∷ [])
      (frame (lit "c") 3) (frame (lit "c") 3) refl refl
