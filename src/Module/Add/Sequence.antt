-- ===== src/Module/Add/Sequence.antt =====
-- From the modules that HLL code adds (src/module.c, `modparrot_add_module`) to the meta handlers that
-- run for them (`register_meta_hooks`).
use mod_parrot.Base.{
  ℕ, suc, ◌≡◌, refl, sym, ap, ◌∙◌, ◌<◌, true, Option, none, some, List, [], ◌∷◌, ◌++◌, map, length,
  arith, Bool-cases, inl, inr,
}
use mathlib.Core.List.{append_assoc, append-nil}
use mod_parrot.CStr.{CStr, lit}
use mod_parrot.Hash.{Hash, hash_get, hash_set}
use mod_parrot.Hash.Laws.{get-set}
use mod_parrot.Run.{ok}
use mod_parrot.Context.{Interp, CtxId, Ctx, Server}
use mod_parrot.Context.Ops.{load, get_interp_ctx}
use mod_parrot.Module.{Pmc, ModuleId, Module, hook_last}
use mod_parrot.World.{World, with_store, Parrot}
use mod_parrot.Module.Hooks.Dispatch.{handlers, hooking, register_each, register_each-hooking}
use mod_parrot.Module.Add.Asking.{
  all_have_subs, is_accepted, asks_for, init_cmds-run, populate_hooks-run,
}
use mod_parrot.Module.Add.{
  command_rec, commands_of, init_cmds, populate_hooks, find_subs, MetaSubs, filled_module,
  new_module, entered, enter_module, modparrot_add_module,
}
use mod_parrot.Module.Add.Additions.{
  Addition, is_well_formed, all_well_formed, lacks, distinct_names, asking, add_each,
}

-- None of the names is in a table.
Unknown : Hash ModuleId → List Addition → Type 0
Unknown t [] = Unit {0}
Unknown t (a ∷ rest) = (hash_get a.name t ≡ none) × Unknown t rest

Unknown-empty : (additions : List Addition) → Unknown [] additions
unfolding Unknown hash_get
Unknown-empty [] = tt
Unknown-empty (a ∷ rest) = (refl, Unknown-empty rest)

Unknown-set :
    (name : CStr) (modp : ModuleId) (t : Hash ModuleId) (additions : List Addition)
    → lacks name additions ≡ true
    → Unknown t additions
    → Unknown (hash_set name modp t) additions
unfolding Unknown
Unknown-set name modp t [] fresh u = tt
Unknown-set name modp t (a ∷ rest) fresh (one, u) =
    let law = get-set name a.name modp t in
    (ground (arith, law), Unknown-set name modp t rest (ground arith) u)

module _ (parrot : Parrot) (interp : Interp) (found : CStr → CStr → Option Pmc)
    (lookup : (namespace sub : CStr) (w : World)
      → parrot.find_meta_handler interp namespace sub w ≡ ok (found namespace sub) w)
    (c : CtxId) (x : Ctx) (s : Server) (of_server : x.s ≡ some s) where
  subs_of : CStr → MetaSubs
  subs_of namespace = record {
    server_create = found namespace (lit "server_create");
    server_merge = found namespace (lit "server_merge");
    dir_create = found namespace (lit "dir_create");
    dir_merge = found namespace (lit "dir_merge");
  }

  module_of : Addition → Module
  module_of a =
      filled_module a.name a.namespace (map command_rec (commands_of a.cmd_array))
        (asks_for a.hook_array) (subs_of a.namespace) x.ctx_pool

  find_subs-run :
      (namespace : CStr) (w : World)
      → find_subs parrot interp namespace w ≡ ok (subs_of namespace) w
  unfolding find_subs subs_of
  find_subs-run namespace w =
      rw
        (
          lookup namespace (lit "server_create") w,
          lookup namespace (lit "server_merge") w,
          lookup namespace (lit "dir_create") w,
          lookup namespace (lit "dir_merge") w,
        )
        refl

  module _ (w : World) (bound : w.store.interp_ctx interp ≡ some c)
      (at : w.store.ctxs c ≡ some x) where
    new_module-run :
        (a : Addition)
        → is_well_formed a ≡ true
        → new_module parrot interp a.name a.namespace a.cmd_array a.hook_array c x.s w
          ≡ ok (module_of a) w
    unfolding new_module with_store load module_of
    new_module-run a good =
        let subs : all_have_subs (commands_of a.cmd_array) ≡ true = ground arith in
        let hooks : is_accepted a.hook_array ≡ true = ground arith in
        let cmds : init_cmds (commands_of a.cmd_array) w
            ≡ ok (map command_rec (commands_of a.cmd_array)) w =
          init_cmds-run (commands_of a.cmd_array) w ∙ rw subs refl in
        let asked : populate_hooks a.hook_array w ≡ ok (asks_for a.hook_array) w =
          populate_hooks-run a.hook_array w ∙ rw hooks refl in
        let metas = find_subs-run a.namespace w in ground arith

    add_module-run :
        (a : Addition)
        → is_well_formed a ≡ true
        → hash_get a.name w.module_hash ≡ none
        → modparrot_add_module parrot interp
            (some a.p)
            a.name
            a.namespace
            a.cmd_array
            a.hook_array
            w
          ≡ ok (length w.module_array) (entered a.p (module_of a) w)
    unfolding modparrot_add_module enter_module with_store load get_interp_ctx
    add_module-run a good new = let run = new_module-run a good in ground arith

  entered_all : List Addition → World → World
  entered_all [] w = w
  entered_all (a ∷ rest) w = entered_all rest (entered a.p (module_of a) w)

  add_each-run :
      (additions : List Addition) (w : World)
      → w.store.interp_ctx interp ≡ some c
      → w.store.ctxs c ≡ some x
      → all_well_formed additions ≡ true
      → distinct_names additions ≡ true
      → Unknown w.module_hash additions
      → add_each parrot interp additions w ≡ ok tt (entered_all additions w)
  unfolding add_each entered_all Unknown module_of
  add_each-run [] w bound at good distinct new = refl
  add_each-run (a ∷ rest) w bound at good distinct (one, new) =
      rw (add_module-run w bound at a (ground arith) one) (
        add_each-run rest (entered a.p (module_of a) w) bound at (ground arith) (ground arith)
          (Unknown-set a.name (length w.module_array) w.module_hash rest (ground arith) new))

  -- What the entries leave of the state.
  entered_all-array :
      (additions : List Addition) (w : World)
      → (entered_all additions w).module_array ≡ w.module_array ++ map module_of additions
  unfolding entered_all
  entered_all-array [] w = sym (append-nil w.module_array)
  entered_all-array (a ∷ rest) w =
      entered_all-array rest (entered a.p (module_of a) w)
      ∙ append_assoc w.module_array (module_of a ∷ []) (map module_of rest)

  entered_all-rest :
      (additions : List Addition) (w : World)
      → let v = entered_all additions w in
        (v.base_server ≡ w.base_server)
        × (v.meta_index ≡ w.meta_index)
        × (v.handler_modules ≡ w.handler_modules)
  unfolding entered_all
  entered_all-rest [] w = (refl, refl, refl)
  entered_all-rest (a ∷ rest) w = entered_all-rest rest (entered a.p (module_of a) w)

  hooking-asking :
      (idx : ModuleId) (additions : List Addition) (h : ℕ)
      → hooking idx (map module_of additions) h ≡ asking idx additions h
  unfolding module_of
  hooking-asking idx [] h = refl
  hooking-asking idx (a ∷ rest) h = elim (Bool-cases (asks_for a.hook_array h)) [
    | inl asks ↦ rw (asks) (ap (λ es. idx ∷ es) (hooking-asking (suc idx) rest h))
    | inr quiet ↦ rw quiet (hooking-asking (suc idx) rest h)
  ]

  -- HLL code in an interpreter, whose context is allocated and has a server, adds modules of distinct
  -- names to a fresh start, with a sub for every directive and with hooks in range; the lookup of a sub
  -- is a function of its name that changes nothing. Then every addition returns, and so does the
  -- registration of every module with a base server known; and the handlers of a hook are the additions
  -- that ask for it, by `MP_HOOK_ALL` in the first place or by the hook itself, in their order.
  pub add_each-asking :
      (additions : List Addition) (w : World) (t : Server) (h : ℕ)
      → w.store.interp_ctx interp ≡ some c
      → w.store.ctxs c ≡ some x
      → w.module_array ≡ []
      → w.module_hash ≡ []
      → w.base_server ≡ some t
      → w.meta_index ≡ 0
      → ((g : ℕ) → w.handler_modules g ≡ none)
      → all_well_formed additions ≡ true
      → distinct_names additions ≡ true
      → h < hook_last
      → (v : World) × (u : World) × (add_each parrot interp additions w ≡ ok tt v)
        × (register_each v.module_array v ≡ ok tt u)
        × (handlers u h ≡ asking 0 additions h)
  add_each-asking additions w t h bound at empty no_names base index fresh good distinct inside =
      let v = entered_all additions w in
      let (base_v, index_v, hooks_v) = entered_all-rest additions w in
      let new : Unknown w.module_hash additions = rw no_names (Unknown-empty additions) in
      let array : v.module_array ≡ map module_of additions =
        entered_all-array additions w ∙ rw empty refl in
      let (u, run, same, all) =
        register_each-hooking t v h (base_v ∙ base) (index_v ∙ index)
          (λ g. ap (λ f. f g) hooks_v ∙ fresh g) inside in
      (
        v,
        u,
        add_each-run additions w bound at good distinct new,
        run,
        all ∙ ap (λ ms. hooking 0 ms h) array ∙ hooking-asking 0 additions h,
      )
