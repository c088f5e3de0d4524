-- ===== src/Module/Hooks/Next.antt =====
-- `NEXT_HANDLER_MODULE` walks through the modules of a hook.
use mod_parrot.Base.{
  ℕ, zero, suc, ◌≡◌, refl, ap, sym, ◌∙◌, none, some, List, [], ◌∷◌, ◌++◌, get_elem?,
  get_elem?-middle, length, length-append, arith, Bool-cases, inl, inr,
}
use mod_parrot.Base.Int.{ℤ, pos, minus_one, suc_ℤ}
use mathlib.Core.Path.{subst₂}
use mathlib.Core.List.{append-nil, append_assoc}
use mod_parrot.Run.{ok, fault, M, pure, deref, result, result-cons, ◌>>=◌}
use mod_parrot.Context.{CtxId, Ctx, update}
use mod_parrot.Module.{ModuleId, Module}
use mod_parrot.World.{World}
use mod_parrot.Module.Hooks.{next_handler_module}
use mod_parrot.Module.Hooks.Dispatch.{hooking}

-- `module_index` after `k` calls: -1 before the first.
abbrev index_after : ℕ → ℤ
index_after zero = minus_one
index_after (suc k) = pos k

suc-index_after : (k : ℕ) → suc_ℤ (index_after k) ≡ pos k
suc-index_after zero = refl
suc-index_after (suc k) = refl

abbrev stepped : CtxId → Ctx → World → World
stepped c x w = record w {
  store = record w.store {
    ctxs = update w.store.ctxs c (some (record x { module_index = suc_ℤ x.module_index }));
  };
}

module _ (henum : ℕ) (c : CtxId) (es : List ModuleId) (w : World) (x : Ctx)
    (array : w.handler_modules henum ≡ some es) (at : w.store.ctxs c ≡ some x) (k : ℕ)
    (index : x.module_index ≡ index_after k) where
  next_handler_module-stepped :
      (i : ModuleId) (m : Module)
      → get_elem? es k ≡ some i
      → get_elem? w.module_array i ≡ some m
      → next_handler_module henum c w ≡ ok (some i) (stepped c x w)
  unfolding next_handler_module
  next_handler_module-stepped i m here there =
      let step : suc_ℤ x.module_index ≡ pos k = ap suc_ℤ index ∙ suc-index_after k in ground arith

  next_handler_module-outside : get_elem? es k ≡ none → next_handler_module henum c w ≡ fault
  unfolding next_handler_module
  next_handler_module-outside outside =
      let step : suc_ℤ x.module_index ≡ pos k = ap suc_ℤ index ∙ suc-index_after k in ground arith

-- A client that asks `n` times, as the meta handlers of one hook do one after the other.
unfoldable pub next_times : ℕ → CtxId → ℕ → M World (List ModuleId)
next_times henum c zero = pure []
next_times henum c (suc n) = do
  o ← next_handler_module henum c
  i ← deref o
  is ← next_times henum c n
  pure (i ∷ is)

-- Every number of the list is that of a module.
abbrev pub AreModules : List Module → List ModuleId → Type 0
AreModules ms [] = Unit {0}
AreModules ms (i ∷ is) = ((m : Module) × (get_elem? ms i ≡ some m)) × AreModules ms is

get_elem?-end : (xs : List ModuleId) → get_elem? xs (length xs) ≡ none
get_elem?-end [] = refl
get_elem?-end (x ∷ xs) = get_elem?-end xs

module _ (henum : ℕ) (c : CtxId) where
  next_times-from :
      (before rest : List ModuleId) (w : World) (x : Ctx)
      → w.handler_modules henum ≡ some (before ++ rest)
      → w.store.ctxs c ≡ some x
      → x.module_index ≡ index_after (length before)
      → AreModules w.module_array rest
      → (result (next_times henum c (length rest) w) ≡ some rest)
        × (next_times henum c (suc (length rest)) w ≡ fault)
  unfolding next_times
  next_times-from before [] w x array at index a =
      let outside : get_elem? (before ++ []) (length before) ≡ none =
        rw append-nil (get_elem?-end before) in
      (
        refl,
        rw
            (next_handler_module-outside henum c (before ++ []) w x array at (length before) index
              outside)
            refl,
      )
  next_times-from before (i ∷ is) w x array at index ((m, found), a) =
      let here = get_elem?-middle before i is in
      let step =
        next_handler_module-stepped henum c (before ++ (i ∷ is)) w x array at (length before) index
          i m here found in
      let count : suc (length before) ≡ length (before ++ i ∷ []) =
        omega (arith, length-append before (i ∷ [])) in
      let v = stepped c x w in
      let x' = record x { module_index = suc_ℤ x.module_index } in
      let (all, past) =
        next_times-from (before ++ i ∷ []) is v x'
          (array ∙ ap some (sym (append_assoc before (i ∷ []) is))) (ground arith)
          (ap suc_ℤ index ∙ suc-index_after (length before) ∙ ap index_after count) a in
      (rw step (result-cons (next_times henum c (length is) v) i all), rw step (rw past refl))

AreModules-hooking :
    (before ms : List Module) (h : ℕ) → AreModules (before ++ ms) (hooking (length before) ms h)
AreModules-hooking before [] h = tt
AreModules-hooking before (m ∷ ms) h =
    let count : length (before ++ m ∷ []) ≡ suc (length before) =
      omega (arith, length-append before (m ∷ [])) in
    let rest =
      subst₂ AreModules (append_assoc before (m ∷ []) ms) (ap (λ n. hooking n ms h) count)
        (AreModules-hooking (before ++ m ∷ []) ms h) in
    elim (Bool-cases (m.info.hooks h)) [
      | inl asks ↦ rw asks ((m, get_elem?-middle before m ms), rest)
      | inr quiet ↦ rw quiet rest
    ]

-- From a reset `module_index` of an allocated context, where a hook's array holds the modules that
-- ask for the hook: the calls of its meta handlers run for these modules, each once, in the order
-- they were added; a call too many reads outside the array.
pub next_times-hooking :
    (henum : ℕ) (c : CtxId) (w : World) (x : Ctx) (es : List ModuleId)
    → w.handler_modules henum ≡ some es
    → es ≡ hooking 0 w.module_array henum
    → w.store.ctxs c ≡ some x
    → x.module_index ≡ minus_one
    → (result (next_times henum c (length es) w) ≡ some (hooking 0 w.module_array henum))
      × (next_times henum c (suc (length es)) w ≡ fault)
next_times-hooking henum c w x es array all at index =
    let (run, past) =
      next_times-from henum c [] es w x array at index
        (rw all (AreModules-hooking [] w.module_array henum)) in
    (run ∙ ap some all, past)
