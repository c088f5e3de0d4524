-- ===== src/Module/Add/Registry.antt =====
-- The table of modules by name and the array of modules in sequence (src/module.c) agree.
use mod_parrot.Base.{
  ◌≡◌, refl, sym, ◌∙◌, ap, Option, none, some, List, [], ◌∷◌, ◌++◌, length, get_elem?,
  get_elem?-append_end, get_elem?-snoc, get_elem?-snoc_cases, arith, Bool-cases, Option-cases, ◌⊎◌,
  inl, inr,
}
use mod_parrot.Base.Int.{ℤ}
use mod_parrot.CStr.{CStr, lit, str_eq}
use mod_parrot.CStr.Laws.{str_eq_iff}
use mod_parrot.Hash.{hash_get}
use mod_parrot.Hash.Laws.{get-set, get-set_self}
use mod_parrot.Run.{deref, ok, and_then, and_then-ok}
use mod_parrot.Context.{Server, AprPool, Interp, CtxId, Ctx}
use mod_parrot.Context.Ops.{load, get_interp_ctx}
use mod_parrot.Module.{ModuleId, Module}
use mod_parrot.World.{World, with_store, Parrot}
use mod_parrot.Module.Add.Keeps.{
  SameModules, Keeps, LookupKeeps, Keeps-pure, Keeps-deref, Keeps-load, Keeps-bind, Keeps-init_cmds,
  Keeps-populate_hooks,
}
use mod_parrot.Run.Returns.{Returns, Returns-pure, Returns-bind}
use mod_parrot.Module.Add.{
  CmdPmc, init_cmds, populate_hooks, entered, commands_of, enter_module, modparrot_add_module,
  new_module, find_subs, filled_module,
}

-- Every name leads to a module of that name, and every module is found under its name.
pub record IsRegistry (w : World) : Type 0 where
  pub found :
      (name : CStr) (modp : ModuleId)
      → hash_get name w.module_hash ≡ some modp
      → (m : Module) × (get_elem? w.module_array modp ≡ some m) × (m.name ≡ name)
  pub listed :
      (modp : ModuleId) (m : Module)
      → get_elem? w.module_array modp ≡ some m
      → hash_get m.name w.module_hash ≡ some modp

-- A module of a new name enters both.
entered-found :
    (p : AprPool) (m : Module) (w : World)
    → IsRegistry w
    → (name : CStr) (modp : ModuleId) → hash_get name (entered p m w).module_hash ≡ some modp
    → (n : Module) × (get_elem? (entered p m w).module_array modp ≡ some n) × (n.name ≡ name)
entered-found p m w reg name modp e =
    let law = get-set m.name name (length w.module_array) w.module_hash in
    elim (Bool-cases (str_eq m.name name)) [
      | inl same ↦
          let here : length w.module_array ≡ modp = ground (arith, law) in
          (
            m,
            ap (get_elem? (w.module_array ++ m ∷ [])) (sym here)
                ∙ get_elem?-append_end w.module_array m,
            (str_eq_iff m.name name).0 same,
          )
      | inr other ↦
          let (n, at, named) = reg.found name modp (ground (arith, law)) in
          (n, get_elem?-snoc w.module_array m modp at, named)
    ]

entered-listed :
    (p : AprPool) (m : Module) (w : World)
    → IsRegistry w
    → hash_get m.name w.module_hash ≡ none
    → (modp : ModuleId) (n : Module) → get_elem? (entered p m w).module_array modp ≡ some n
    → hash_get n.name (entered p m w).module_hash ≡ some modp
entered-listed p m w reg new modp n e = elim (get_elem?-snoc_cases w.module_array m modp e) [
  | inl before ↦
      let law = get-set m.name n.name (length w.module_array) w.module_hash in
      let old = reg.listed modp n before in
      elim (Bool-cases (str_eq m.name n.name)) [
        | inl same ↦
            let named = (str_eq_iff m.name n.name).0 same in
            absurd (ground (arith, sym new ∙ ap (λ k. hash_get k w.module_hash) named ∙ old))
        | inr other ↦ law ∙ rw (other) old
      ]
  | inr (end, same) ↦
      ap (λ (k : Module). hash_get k.name (entered p m w).module_hash) (sym same)
      ∙ get-set_self m.name (length w.module_array) w.module_hash
      ∙ ap some (sym end)
]

entered-IsRegistry :
    (p : AprPool) (m : Module) (w : World)
    → IsRegistry w
    → hash_get m.name w.module_hash ≡ none
    → IsRegistry (entered p m w)
entered-IsRegistry p m w reg new = record {
  found = entered-found p m w reg;
  listed = entered-listed p m w reg new;
}

module _ (parrot : Parrot) (interp : Interp) (name namespace : CStr)
    (cmd_array : Option (List CmdPmc)) (hook_array : List ℤ) (c : CtxId) (s : Option Server) where
  Keeps-new_module :
      LookupKeeps parrot → Keeps (new_module parrot interp name namespace cmd_array hook_array c s)
  unfolding new_module find_subs
  Keeps-new_module lookup =
      let find = λ (sub : CStr). lookup interp namespace sub in
      Keeps-bind _ _ (Keeps-deref s) (λ server.
        Keeps-bind _ _ (Keeps-init_cmds (commands_of cmd_array)) (λ cmds.
          Keeps-bind _ _ (Keeps-populate_hooks hook_array) (λ hooks.
            Keeps-bind _ _
              (Keeps-bind _ _ (find (lit "server_create")) (λ a.
                Keeps-bind _ _ (find (lit "server_merge")) (λ b.
                  Keeps-bind _ _ (find (lit "dir_create"))
                    (λ d. Keeps-bind _ _ (find (lit "dir_merge")) (λ f. Keeps-pure _)))))
              (λ subs. Keeps-bind _ _ (Keeps-load c) (λ x. Keeps-pure _)))))

  new_module-name :
      Returns
        (λ (m : Module). m.name ≡ name)
        (new_module parrot interp name namespace cmd_array hook_array c s)
  unfolding new_module
  new_module-name = Returns-bind (deref s) _ (λ server.
      Returns-bind (init_cmds (commands_of cmd_array)) _ (λ cmds.
        Returns-bind (populate_hooks hook_array) _ (λ hooks.
          Returns-bind (find_subs parrot interp namespace) _ (λ subs.
            Returns-bind (with_store (load c)) _ (λ x.
              Returns-pure _ (filled_module name namespace cmds hooks subs x.ctx_pool) refl)))))

module _ (parrot : Parrot) (interp : Interp) (p : Option AprPool) (name namespace : CStr)
    (cmd_array : Option (List CmdPmc)) (hook_array : List ℤ) where
  -- What a run that returned has done: nothing, or the entry of a module of a new name in the state
  -- `u` that the lookups left.
  add_module-entered :
      (w v : World) (modp : ModuleId)
      → modparrot_add_module parrot interp p name namespace cmd_array hook_array w ≡ ok modp v
      → ((hash_get name w.module_hash ≡ some modp) × (v ≡ w))
        ⊎ ((hash_get name w.module_hash ≡ none)
            × (q : AprPool) × (m : Module) × (u : World) × (m.name ≡ name)
            × (LookupKeeps parrot → SameModules w u)
            × (modp ≡ length u.module_array)
            × (v ≡ entered q m u))
  unfolding modparrot_add_module enter_module with_store load get_interp_ctx
  add_module-entered w v modp e = elim (Option-cases (w.store.interp_ctx interp)) [
    | inl gone ↦ absurd (ground arith)
    | inr (c, bound) ↦ elim (Option-cases (w.store.ctxs c)) [
      | inl freed ↦ absurd (ground arith)
      | inr (x, at) ↦ elim (Option-cases (hash_get name w.module_hash)) [
        | inr (old, known) ↦ inl (ground arith)
        | inl new ↦ elim (Option-cases p) [
          | inl nowhere ↦ absurd (ground arith)
          | inr (q, pool) ↦
              let make = new_module parrot interp name namespace cmd_array hook_array c x.s in
              let run : and_then (make w) (enter_module q) ≡ ok modp v = ground arith in
              let (m, u, made, enter) = and_then-ok (make w) (enter_module q) run in
              inr (
                new,
                q,
                m,
                u,
                new_module-name parrot interp name namespace cmd_array hook_array c x.s w u m made,
                λ lookup.
                    Keeps-new_module parrot interp name namespace cmd_array hook_array c x.s lookup
                      w u m made,
                ground arith,
                ground arith,
              )
        ]
      ]
    ]
  ]

  -- A module is found under the name it was added by.
  added-found :
      (w v : World) (modp : ModuleId)
      → modparrot_add_module parrot interp p name namespace cmd_array hook_array w ≡ ok modp v
      → hash_get name v.module_hash ≡ some modp
  added-found w v modp e = elim (add_module-entered w v modp e) [
    | inl (known, same) ↦ ap (λ (x : World). hash_get name x.module_hash) same ∙ known
    | inr (new, q, m, u, named, keeps, place, same) ↦
        ap (λ (x : World). hash_get name x.module_hash) same
        ∙ ap (λ k. hash_get k (entered q m u).module_hash) (sym named)
        ∙ get-set_self m.name (length u.module_array) u.module_hash
        ∙ ap some (sym place)
  ]

  -- Once `modparrot_add_module` has returned a module, adding one of the same name again, from an
  -- interpreter whose context is allocated and with whatever else, returns the same module and changes
  -- nothing.
  pub add_module-again :
      (w v : World) (modp : ModuleId) (i : Interp) (q : Option AprPool) (other : CStr)
      (cmds : Option (List CmdPmc)) (hooks : List ℤ) (c : CtxId) (x : Ctx)
      → modparrot_add_module parrot interp p name namespace cmd_array hook_array w ≡ ok modp v
      → v.store.interp_ctx i ≡ some c
      → v.store.ctxs c ≡ some x
      → modparrot_add_module parrot i q name other cmds hooks v ≡ ok modp v
  unfolding modparrot_add_module with_store load get_interp_ctx
  add_module-again w v modp i q other cmds hooks c x e bound at =
      let known = added-found w v modp e in ground arith

  -- If the names and the array of modules agree and the lookups of subs leave both alone, they agree
  -- after `modparrot_add_module` returned.
  pub add_module-IsRegistry :
      LookupKeeps parrot
      → (w v : World) (modp : ModuleId) → IsRegistry w
      → modparrot_add_module parrot interp p name namespace cmd_array hook_array w ≡ ok modp v
      → IsRegistry v
  add_module-IsRegistry lookup w v modp reg e = elim (add_module-entered w v modp e) [
    | inl (known, same) ↦ rw same reg
    | inr (new, q, m, u, named, keeps, place, same) ↦
        let (array, hash) = keeps lookup in
        let reg_u : IsRegistry u = record {
          found = rw (array, hash) reg.found;
          listed = rw (array, hash) reg.listed;
        } in
        rw same (
          entered-IsRegistry q m u reg_u
            (ap (λ t. hash_get m.name t) hash ∙ ap (λ k. hash_get k w.module_hash) named ∙ new))
  ]
