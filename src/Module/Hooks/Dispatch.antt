-- ===== src/Module/Hooks/Dispatch.antt =====
-- The meta handlers of a hook run for the modules that asked for it, in the order they were added.
use mathlib.Core.List.{append-nil, append_assoc}
use mod_parrot.Base.{
  ℕ, zero, suc, ◌+◌, ◌<◌, ◌≡◌, refl, ap, sym, ◌∙◌, Bool, true, false, ◌&&◌, none, some, List, [],
  ◌∷◌, ◌++◌, ◌==◌, get_elem?, get_elem?-middle, length, length-append, ltb, leb, ==_iff, arith,
  if◌then◌else◌, Bool-cases, inl, inr,
}
use mathlib.Core.Bool.{and-true, and-false}
use mod_parrot.Run.{ok, M, pure, ◌>>◌}
use mod_parrot.Context.{Server, update}
use mod_parrot.Module.{ModuleId, ModuleInfo, Module, hook_last}
use mod_parrot.World.{World}
use mod_parrot.Module.Hooks.{elts_or_none, register_hook, register_hooks_from, register_meta_hooks}

abbrev pub handlers : World → ℕ → List ModuleId
handlers w h = elts_or_none (w.handler_modules h)

-- What the loop adds to the handlers of a hook.
abbrev added : Bool → ModuleId → List ModuleId
added true idx = idx ∷ []
added false idx = []

register_hook-handlers :
    (idx : ModuleId) (i h : ℕ) (w : World)
    → handlers (register_hook idx i w) h ≡ handlers w h ++ added (i == h) idx
register_hook-handlers idx i h w = elim (Bool-cases (i == h)) [
  | inl same ↦ ground arith
  | inr other ↦ rw (other, update, append-nil)
]

abbrev is_between : ℕ → ℕ → ℕ → Bool
is_between i n h = leb i h && ltb h (i + n)

-- `v` is `w` with other handlers and other registrations.
abbrev SameRest : World → World → Type 0
SameRest w v = v ≡ record w { handler_modules = v.handler_modules; ap_hooks = v.ap_hooks }

abbrev maybe_register : ModuleInfo → ModuleId → ℕ → World → World
maybe_register minfo idx i w = if minfo.hooks i then register_hook idx i w else w

maybe_register-handlers :
    (minfo : ModuleInfo) (idx : ModuleId) (i h : ℕ) (w : World)
    → handlers (maybe_register minfo idx i w) h
      ≡ handlers w h ++ added ((i == h) && minfo.hooks i) idx
maybe_register-handlers minfo idx i h w = elim (Bool-cases (minfo.hooks i)) [
  | inl asks ↦ rw (asks, and-true) (register_hook-handlers idx i h w)
  | inr quiet ↦ rw (quiet, and-false, append-nil)
]

maybe_register-SameRest :
    (minfo : ModuleInfo) (idx : ModuleId) (i : ℕ) (w : World)
    → SameRest w (maybe_register minfo idx i w)
maybe_register-SameRest minfo idx i w = elim (Bool-cases (minfo.hooks i)) [
  | inl asks ↦ rw asks
  | inr quiet ↦ rw quiet
]

added-step :
    (minfo : ModuleInfo) (idx : ModuleId) (n i h : ℕ)
    → added ((i == h) && minfo.hooks i) idx ++ added (is_between (suc i) n h && minfo.hooks h) idx
      ≡ added (is_between i (suc n) h && minfo.hooks h) idx
added-step minfo idx n i h = elim (Bool-cases (i == h)) [
  | inl same ↦ let e : i ≡ h = (==_iff i h).0 same in ground arith
  | inr other ↦
      let step : is_between i (suc n) h ≡ is_between (suc i) n h = ground arith in rw (other, step)
]

-- A hook before the loop's range is left alone, one in it gets the module if it asks for it.
module _ (minfo : ModuleInfo) (idx : ModuleId) where
  hooks_from-handlers :
      (n i h : ℕ) (w : World)
      → handlers (register_hooks_from minfo idx n i w) h
        ≡ handlers w h ++ added (is_between i n h && minfo.hooks h) idx
  unfolding register_hooks_from
  hooks_from-handlers zero i h w =
      let out : is_between i 0 h ≡ false = ground arith in rw (out, append-nil)
  hooks_from-handlers (suc n) i h w =
      hooks_from-handlers n (suc i) h (maybe_register minfo idx i w)
      ∙ ap (λ es. es ++ added (is_between (suc i) n h && minfo.hooks h) idx)
          (maybe_register-handlers minfo idx i h w)
      ∙ append_assoc (handlers w h) (added ((i == h) && minfo.hooks i) idx)
          (added (is_between (suc i) n h && minfo.hooks h) idx)
      ∙ ap (λ es. handlers w h ++ es) (added-step minfo idx n i h)

  hooks_from-SameRest : (n i : ℕ) (w : World) → SameRest w (register_hooks_from minfo idx n i w)
  unfolding register_hooks_from
  hooks_from-SameRest zero i w = refl
  hooks_from-SameRest (suc n) i w =
      let u = maybe_register minfo idx i w in
      let v = register_hooks_from minfo idx n (suc i) u in
      hooks_from-SameRest n (suc i) u
      ∙ ap (λ (x : World). record x { handler_modules = v.handler_modules; ap_hooks = v.ap_hooks })
          (maybe_register-SameRest minfo idx i w)

-- The modules of a list that ask for a hook, numbered from `idx` on.
abbrev pub hooking : ModuleId → List Module → ℕ → List ModuleId
hooking idx [] h = []
hooking idx (m ∷ ms) h = added (m.info.hooks h) idx ++ hooking (suc idx) ms h

-- Apache calls `register_meta_hooks` once for each module of the list.
unfoldable pub register_each : List Module → M World (Unit {0})
register_each [] = pure tt
register_each (m ∷ ms) = register_meta_hooks >> register_each ms

abbrev registered_one : ModuleInfo → World → World
registered_one minfo w =
    let v = register_hooks_from minfo w.meta_index hook_last 0 w in
    record v { meta_index = suc v.meta_index }

register_meta_hooks-one :
    (s : Server) (m : Module) (w : World)
    → w.base_server ≡ some s
    → get_elem? w.module_array w.meta_index ≡ some m
    → register_meta_hooks w ≡ ok tt (registered_one m.info w)
unfolding register_meta_hooks
register_meta_hooks-one s m w base at = simp (base, at)

-- What the registration of one module leaves.
record Registered (m : Module) (w v : World) : Type 0 where
  array : v.module_array ≡ w.module_array
  base : v.base_server ≡ w.base_server
  index : v.meta_index ≡ suc w.meta_index
  hooks :
      (h : ℕ) → h < hook_last → handlers v h ≡ handlers w h ++ added (m.info.hooks h) w.meta_index

registered_one-Registered : (m : Module) (w : World) → Registered m w (registered_one m.info w)
registered_one-Registered m w =
    let v = register_hooks_from m.info w.meta_index hook_last 0 w in
    let same = hooks_from-SameRest m.info w.meta_index hook_last 0 w in
    record {
      array = ap (λ (x : World). x.module_array) same;
      base = ap (λ (x : World). x.base_server) same;
      index = ap (λ (x : World). suc x.meta_index) same;
      hooks = λ h inside.
          let between : is_between 0 hook_last h ≡ true = ground arith in
          hooks_from-handlers m.info w.meta_index hook_last 0 h w
          ∙ ap (λ b. handlers w h ++ added (b && m.info.hooks h) w.meta_index) between;
    }

register_each-from :
    (before ms : List Module) (s : Server) (w : World)
    → w.base_server ≡ some s
    → w.module_array ≡ before ++ ms
    → w.meta_index ≡ length before
    → (v : World) × (register_each ms w ≡ ok tt v)
      × (v.module_array ≡ before ++ ms)
      × ((h : ℕ) → h < hook_last → handlers v h ≡ handlers w h ++ hooking (length before) ms h)
unfolding register_each
register_each-from before [] s w base array index = (w, refl, array, λ h i. sym (append-nil _))
register_each-from before (m ∷ ms) s w base array index =
    let u = registered_one m.info w in
    let r = registered_one-Registered m w in
    let at : get_elem? w.module_array w.meta_index ≡ some m =
      rw (array, index) (get_elem?-middle before m ms) in
    let split = append_assoc before (m ∷ []) ms in
    let count : u.meta_index ≡ length (before ++ m ∷ []) =
      omega (arith, r.index, index, length-append before (m ∷ [])) in
    let (v, run, kept, all) =
      register_each-from (before ++ m ∷ []) ms s u (r.base ∙ base) (r.array ∙ array ∙ sym split)
        count in
    let next : length (before ++ m ∷ []) ≡ suc (length before) =
      omega (arith, length-append before (m ∷ [])) in
    (
      v,
      rw (register_meta_hooks-one s m w base at) run,
      kept ∙ split,
      λ h i.
          all h i
          ∙ rw (r.hooks h i, next, index)
              (append_assoc (handlers w h) (added (m.info.hooks h) (length before))
                (hooking (suc (length before)) ms h)),
    )

-- Registering every added module, once each and in order, on the base server from a fresh start,
-- leaves for each hook exactly the modules that ask for it, in the order they were added, and touches
-- no module.
pub register_each-hooking :
    (s : Server) (w : World) (h : ℕ)
    → w.base_server ≡ some s
    → w.meta_index ≡ 0
    → ((h : ℕ) → w.handler_modules h ≡ none)
    → h < hook_last
    → (v : World) × (register_each w.module_array w ≡ ok tt v)
      × (v.module_array ≡ w.module_array)
      × (handlers v h ≡ hooking 0 w.module_array h)
register_each-hooking s w h base index fresh i =
    let (v, run, array, all) = register_each-from [] w.module_array s w base refl index in
    (v, run, array, all h i ∙ ap (λ o. elts_or_none o ++ hooking 0 w.module_array h) (fresh h))
