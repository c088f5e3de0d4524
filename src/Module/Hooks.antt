-- ===== src/Module/Hooks.antt =====
-- `register_meta_hooks` of src/module.c, which Apache calls once for each added module, and
-- `NEXT_HANDLER_MODULE` of src/mod_parrot.c, by which a meta handler finds the module it runs for.
pub mod Dispatch
pub mod Next
use mod_parrot.Base.{
  ℕ, zero, suc, ◌+◌, Bool, true, false, not, ◌||◌, Option, none, some, List, [], ◌∷◌, ◌++◌, ◌==◌,
  get_elem?, if◌then◌else◌,
}
use mod_parrot.Base.Int.{suc_ℤ, to_index}
use mod_parrot.Run.{Run, ok, M, pure, deref, get, modify, ◌>>=◌, ◌>>◌}
use mod_parrot.Context.{CtxId, update}
use mod_parrot.Context.Ops.{load, assign}
use mod_parrot.Module.{ModuleId, ModuleInfo, hook_input_filter, hook_output_filter, hook_last}
use mod_parrot.World.{World, with_store}

-- The elements of an array that may not be there.
abbrev pub elts_or_none : Option (List ModuleId) → List ModuleId
elts_or_none none = []
elts_or_none (some es) = es

-- The hooks that the `switch` registers with Apache: all but the two filters.
abbrev pub has_ap_hook : ℕ → Bool
has_ap_hook i = not ((i == hook_input_filter) || (i == hook_output_filter))

-- The body of the loop for a hook that the module asks for.
abbrev pub register_hook : ModuleId → ℕ → World → World
register_hook idx i w = record w {
  handler_modules =
      update w.handler_modules i (some (elts_or_none (w.handler_modules i) ++ idx ∷ []));
  ap_hooks = if has_ap_hook i then w.ap_hooks ++ i ∷ [] else w.ap_hooks;
}

-- The loop over the hooks from `i` on, `n` of them.
unfoldable pub register_hooks_from : ModuleInfo → ModuleId → ℕ → ℕ → World → World
register_hooks_from minfo idx zero i w = w
register_hooks_from minfo idx (suc n) i w =
    register_hooks_from minfo idx n (suc i) (if minfo.hooks i then register_hook idx i w else w)

unfoldable pub register_meta_hooks : M World (Unit {0})
register_meta_hooks = do
  w ← get
  s ← deref w.base_server
  modp ← deref (get_elem? w.module_array w.meta_index)
  modify (register_hooks_from modp.info w.meta_index hook_last 0)
  modify (λ v. record v { meta_index = suc v.meta_index })

-- `elts[++(ctxp->module_index)]`, a fault outside the array, and the module at that place.
unfoldable pub next_module_of : List ModuleId → CtxId → M World ModuleId
unfolding load assign with_store
next_module_of es c = do
  with_store (assign c (λ x. record x { module_index = suc_ℤ x.module_index }))
  x ← with_store (load c)
  i ← deref (to_index x.module_index)
  idx ← deref (get_elem? es i)
  w ← get
  m ← deref (get_elem? w.module_array idx)
  pure idx

-- `NEXT_HANDLER_MODULE(henum)`.
unfoldable pub next_handler_module : ℕ → CtxId → M World (Option ModuleId)
unfolding next_module_of
next_handler_module henum c = do
  w ← get
  elim (w.handler_modules henum) [
    | none ↦ pure none
    | some es ↦ (next_module_of es c >>= λ idx. pure (some idx))
  ]
