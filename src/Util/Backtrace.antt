-- ===== src/Util/Backtrace.antt =====
-- The text of a backtrace (src/parrot_util.c, `modparrot_backtrace`). A chain of continuations is the
-- list of the contexts that they lead to; a `STRING` that is `NULL` is `none`.
use mathlib.Core.List.{append_assoc, append-nil}
use mod_parrot.Base.{
  ℕ, zero, suc, ◌≡◌, refl, sym, ap, ◌∙◌, Bool, true, false, not, ◌&&◌, Option, none, some, List, [],
  ◌∷◌, ◌++◌, ◌==◌, arith, if◌then◌else◌, is_some, Option-cases, Bool-cases, inl, inr,
}
use mod_parrot.CStr.{CStr}

-- What is read of a `Parrot_Context`: the text of `Parrot_Context_infostr`, and what two contexts of
-- a recursion have in common.
pub record Frame : Type 0 where
  pub infostr : Option CStr
  pub current_pc : ℕ
  pub current_sub : ℕ

-- `Parrot_str_concat`.
abbrev pub str_concat : Option CStr → CStr → CStr
str_concat none str = str
str_concat (some buf) str = buf ++ str

abbrev pub is_same_call : Option Frame → Frame → Bool
is_same_call none f = false
is_same_call (some old) f = (old.current_pc == f.current_pc) && (old.current_sub == f.current_sub)

-- `repeated n` is the text of "... call repeated %d times\n".
module _ (repeated : ℕ → CStr) where
  -- After the loop.
  abbrev pub end_trace : ℕ → Option CStr → Option CStr
  end_trace zero buf = buf
  end_trace (suc n) buf = some (repeated (suc n))

  -- The buffer after one round, for a context that repeats no call: the line about the repetitions
  -- replaces what is in the buffer.
  abbrev pub print_frame : ℕ → Option CStr → CStr → Option CStr
  print_frame zero buf str = some (str_concat buf str)
  print_frame (suc n) buf str =
      some (str_concat (some (str_concat (some (repeated (suc n))) str)) str)

  unfoldable pub trace_loop : List Frame → Option Frame → ℕ → Option CStr → Option CStr
  trace_loop [] old rec_level buf = end_trace rec_level buf
  trace_loop (f ∷ chain) old rec_level buf = elim f.infostr [
    | none ↦ end_trace rec_level buf
    | some str ↦
        if is_same_call old f
        then trace_loop chain (some f) (suc rec_level) buf
        else trace_loop chain (some f) 0 (print_frame rec_level buf str)
  ]

  -- The context of the call, with a flag whether there is a current sub, and the chain from it.
  unfoldable pub modparrot_backtrace : Bool → Frame → List Frame → Option CStr
  unfolding trace_loop
  modparrot_backtrace in_sub ctx chain =
      trace_loop chain none 0 (if in_sub then ctx.infostr else none)

  -- No call of the chain repeats the one before it.
  abbrev pub no_repeats : Option Frame → List Frame → Bool
  no_repeats old [] = true
  no_repeats old (f ∷ chain) = not (is_same_call old f) && no_repeats (some f) chain

  -- The texts up to the first context without one.
  abbrev pub texts : List Frame → CStr
  texts [] = []
  texts (f ∷ chain) = elim f.infostr [ none ↦ [] | some str ↦ str ++ texts chain ]

  trace_loop-plain :
      (chain : List Frame) (old : Option Frame) (buf : CStr)
      → no_repeats old chain ≡ true
      → trace_loop chain old 0 (some buf) ≡ some (buf ++ texts chain)
  unfolding trace_loop
  trace_loop-plain [] old buf plain = ap some (sym (append-nil buf))
  trace_loop-plain (f ∷ chain) old buf plain = elim (Option-cases f.infostr) [
    | inl gone ↦ rw (gone, append-nil) refl
    | inr (str, text) ↦
        let new : is_same_call old f ≡ false = ground arith in
        let rest = trace_loop-plain chain (some f) (buf ++ str) (ground arith) in
        rw (text, new) (rest ∙ ap some (append_assoc buf str (texts chain)))
  ]

  -- When no call of the chain repeats the one before it and the context has a text, the backtrace of a
  -- sub is the text of the context and those of the chain in order, up to the first that has none.
  pub backtrace-texts :
      (ctx : Frame) (chain : List Frame) (str : CStr)
      → ctx.infostr ≡ some str
      → no_repeats none chain ≡ true
      → modparrot_backtrace true ctx chain ≡ some (str ++ texts chain)
  unfolding modparrot_backtrace
  backtrace-texts ctx chain str text plain = rw text (trace_loop-plain chain none str plain)

  abbrev pub all_have_texts : List Frame → Bool
  all_have_texts [] = true
  all_have_texts (f ∷ chain) = is_some f.infostr && all_have_texts chain

  trace_loop-text :
      (f : Frame) (chain : List Frame) (old : Option Frame) (rec_level : ℕ) (buf : Option CStr)
      (str : CStr)
      → f.infostr ≡ some str
      → trace_loop (f ∷ chain) old rec_level buf ≡ (
          if is_same_call old f
          then trace_loop chain (some f) (suc rec_level) buf
          else trace_loop chain (some f) 0 (print_frame rec_level buf str))
  unfolding trace_loop
  trace_loop-text f chain old rec_level buf str text = simp text

  trace_loop-repeats :
      (before : List Frame) (f g : Frame) (old : Option Frame) (rec_level : ℕ) (buf : Option CStr)
      → all_have_texts (before ++ f ∷ g ∷ []) ≡ true
      → is_same_call (some f) g ≡ true
      → (n : ℕ) × (trace_loop (before ++ f ∷ g ∷ []) old rec_level buf ≡ some (repeated (suc n)))
  unfolding trace_loop
  trace_loop-repeats [] f g old rec_level buf all same = elim (Option-cases f.infostr) [
    | inl gone ↦ absurd (ground arith)
    | inr (str, text) ↦ elim (Option-cases g.infostr) [
      | inl gone ↦ absurd (ground arith)
      | inr (next, text_g) ↦ elim (Bool-cases (is_same_call old f)) [
        | inl again ↦ (suc rec_level, rw (text, again, text_g, same) refl)
        | inr new ↦ (0, rw (text, new, text_g, same) refl)
      ]
    ]
  ]
  trace_loop-repeats (h ∷ before) f g old rec_level buf all same = elim (Option-cases h.infostr) [
    | inl gone ↦ absurd (ground arith)
    | inr (str, text) ↦
        let step = trace_loop-text h (before ++ f ∷ g ∷ []) old rec_level buf str text in
        elim (Bool-cases (is_same_call old h)) [
          | inl again ↦
              let (n, e) =
                trace_loop-repeats before f g (some h) (suc rec_level) buf (ground arith) same in
              (n, step ∙ rw again e)
          | inr new ↦
              let (n, e) =
                trace_loop-repeats before f g (some h) 0 (print_frame rec_level buf str)
                  (ground arith) same in
              (n, step ∙ rw new e)
        ]
  ]

  -- When the last two calls of a chain whose contexts all have a text are the same, the whole backtrace
  -- is one line about repetitions: the texts of the chain and that of the context itself are lost.
  pub backtrace-repeats :
      (in_sub : Bool) (ctx : Frame) (before : List Frame) (f g : Frame)
      → all_have_texts (before ++ f ∷ g ∷ []) ≡ true
      → is_same_call (some f) g ≡ true
      → (n : ℕ) × (modparrot_backtrace in_sub ctx (before ++ f ∷ g ∷ []) ≡ some (repeated (suc n)))
  unfolding modparrot_backtrace
  backtrace-repeats in_sub ctx before f g all same =
      trace_loop-repeats before f g none 0 (if in_sub then ctx.infostr else none) all same
