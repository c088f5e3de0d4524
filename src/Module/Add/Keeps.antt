-- ===== src/Module/Add/Keeps.antt =====
-- The steps of `modparrot_add_module` (src/module.c) that leave the registered modules alone.
use mod_parrot.Base.{
  true, false, map, Bool, ◌≡◌, sym, ◌∙◌, Option, none, some, List, arith, if◌then◌else◌,
}
use mod_parrot.Base.Int.{ℤ}
use mod_parrot.CStr.{CStr}
use mod_parrot.Run.{exits, M, pure, deref, ◌>>=◌, ok, and_then-ok}
use mod_parrot.Context.{Interp, CtxId}
use mod_parrot.Context.Ops.{load}
use mod_parrot.World.{World, with_store, Parrot}
use mod_parrot.Module.Add.Asking.{
  init_cmds-run, populate_hooks-run, all_have_subs, is_accepted, asks_for,
}
use mod_parrot.Module.Add.{CmdPmc, command_rec, init_cmds, populate_hooks}

-- The same modules, under the same names.
abbrev pub SameModules : World → World → Type 0
SameModules w v = (v.module_array ≡ w.module_array) × (v.module_hash ≡ w.module_hash)

module _ {A : Type 0} where
  abbrev pub Keeps : M World A → Type 0
  Keeps m = (w v : World) (a : A) → m w ≡ ok a v → SameModules w v

  pub Keeps-pure : (b : A) → Keeps (pure b)
  Keeps-pure b w v a e = ground arith

  pub Keeps-deref : (o : Option A) → Keeps (deref o)
  Keeps-deref none w v a e = cc
  Keeps-deref (some b) w v a e = ground arith

  Keeps-if : (b : Bool) (r : A) → Keeps (λ w. if b then ok r w else exits)
  Keeps-if true r w v a e = ground arith
  Keeps-if false r w v a e = cc

pub Keeps-load : (c : CtxId) → Keeps (with_store (load c))
unfolding with_store load
Keeps-load c w v x e = ground arith

module _ {A B : Type 0} (m : M World A) (k : A → M World B) where
  pub Keeps-bind : Keeps m → ((a : A) → Keeps (k a)) → Keeps (m >>= k)
  Keeps-bind first rest w v b e =
      let (a, u, run, next) = and_then-ok (m w) k e in
      let (array, hash) = first w u a run in
      let (array', hash') = rest a u v b next in (array' ∙ array, hash' ∙ hash)

pub Keeps-init_cmds : (cmds : List CmdPmc) → Keeps (init_cmds cmds)
Keeps-init_cmds cmds w v cs e =
    Keeps-if (all_have_subs cmds) (map command_rec cmds) w v cs (sym (init_cmds-run cmds w) ∙ e)

pub Keeps-populate_hooks : (hs : List ℤ) → Keeps (populate_hooks hs)
Keeps-populate_hooks hs w v g e =
    Keeps-if (is_accepted hs) (asks_for hs) w v g (sym (populate_hooks-run hs w) ∙ e)

-- The lookup of a sub may run HLL code, which may not change what has been registered.
abbrev pub LookupKeeps : Parrot → Type 0
LookupKeeps parrot =
    (i : Interp) (namespace sub : CStr) → Keeps (parrot.find_meta_handler i namespace sub)
