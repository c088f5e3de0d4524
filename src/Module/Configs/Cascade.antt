-- ===== src/Module/Configs/Cascade.antt =====
-- The configurations of nested directory sections (src/module.c, `modparrot_module_dir_merge`): the
-- innermost section that asks for a context pool gets it.
use mod_parrot.Base.{
  ◌≡◌, refl, ap, ◌∙◌, Option, none, some, List, [], ◌∷◌, get_elem?, or_else, arith,
}
use mod_parrot.CStr.{CStr}
use mod_parrot.Hash.{hash_get}
use mod_parrot.Run.{ok, fault, M, pure, ◌>>=◌}
use mod_parrot.Context.{AprPool, Interp, CtxId, Ctx, Server}
use mod_parrot.Context.Ops.{load, modparrot_get_current_ctx}
use mod_parrot.Module.{Pmc, ModuleId, Module, ModConfig}
use mod_parrot.World.{World, with_store, Parrot}
use mod_parrot.Module.Configs.{
  modparrot_module_dir_create, info_of, merged_config, ctx_of_pool_or_parent, call_merge_sub,
  modparrot_module_dir_merge,
}

-- Apache merges the sections from the outermost to the innermost.
unfoldable pub merge_sections :
    Parrot → (AprPool → Option AprPool) → AprPool → ModConfig → List ModConfig → M World ModConfig
merge_sections parrot parent p outer [] = pure outer
merge_sections parrot parent p outer (section ∷ inner) =
    modparrot_module_dir_merge parrot parent p outer section >>= λ merged.
    merge_sections parrot parent p merged inner

-- The choice of the innermost section that makes one.
abbrev pub innermost : {A : Type 0} → (ModConfig → Option A) → ModConfig → List ModConfig → Option A
innermost choice outer [] = choice outer
innermost choice outer (section ∷ inner) = or_else (innermost choice section inner) (choice outer)

-- The PMC that the subs make of the sections.
abbrev pub folded : (Option Pmc → Option Pmc → Pmc) → Option Pmc → List ModConfig → Option Pmc
folded merge cfg [] = cfg
folded merge cfg (section ∷ inner) = folded merge (some (merge cfg section.cfg)) inner

or_else_assoc : {A : Type 0} (a b c : Option A) → or_else a (or_else b c) ≡ or_else (or_else a b) c
or_else_assoc none b c = refl
or_else_assoc (some x) b c = refl

-- Merging a section first, or choosing by both.
innermost-merged :
    {A : Type 0} (choice : ModConfig → Option A) (outer section merged : ModConfig)
    (inner : List ModConfig)
    → choice merged ≡ or_else (choice section) (choice outer)
    → innermost choice merged inner ≡ innermost choice outer (section ∷ inner)
innermost-merged choice outer section merged [] e = e
innermost-merged choice outer section merged (next ∷ inner) e =
    ap (or_else (innermost choice next inner)) e
    ∙ or_else_assoc (innermost choice next inner) (choice section) (choice outer)

-- A configuration that no directive has named is dereferenced by its missing name.
pub merge-create :
    (parrot : Parrot) (parent : AprPool → Option AprPool) (p : AprPool) (new : ModConfig)
    (w : World)
    → modparrot_module_dir_merge parrot parent p modparrot_module_dir_create new w ≡ fault
unfolding modparrot_module_dir_merge info_of
merge-create parrot parent p new w = ground arith

module _ (parrot : Parrot) (parent : AprPool → Option AprPool) (p : AprPool) (w : World)
    (t : Server) (base : w.base_server ≡ some t) (name : CStr) (modp : ModuleId) (m : Module)
    (known : hash_get name w.module_hash ≡ some modp) (at : get_elem? w.module_array modp ≡ some m)
    (sub : Pmc) (merges : m.info.dir_merge_sub ≡ some sub) (c : CtxId) (x : Ctx) (i : Interp)
    (bound : or_else
        (w.store.userdata p)
        (elim (parent p) [ none ↦ none | some q ↦ w.store.userdata q ])
      ≡ some c)
    (here : w.store.ctxs c ≡ some x) (runs : x.interp ≡ some i)
    (merge : Option Pmc → Option Pmc → Pmc)
    (pure_sub : (a b : Option Pmc) → parrot.call_merge i sub a b w ≡ ok (merge a b) w) where
  ctx_of_pool : ctx_of_pool_or_parent parent p w ≡ ok (some c) w
  unfolding ctx_of_pool_or_parent with_store modparrot_get_current_ctx
  ctx_of_pool = ground arith

  dir_merge-run :
      (outer section : ModConfig)
      → outer.name ≡ some name
      → modparrot_module_dir_merge parrot parent p outer section w
        ≡ ok (merged_config outer section (merge outer.cfg section.cfg)) w
  unfolding modparrot_module_dir_merge info_of call_merge_sub with_store load
  dir_merge-run outer section named =
      let ctx = ctx_of_pool in let run = pure_sub outer.cfg section.cfg in ground arith

  -- Where a base server is known, the outermost configuration has the name of a module that was added
  -- and has a merge sub, a context with an interpreter is bound to the APR pool or else to its parent,
  -- and the sub changes nothing: merging the sections one after the other returns; the name stays, the
  -- context pool and its name are those of the innermost section that has one, and the PMC is what the
  -- sub makes of the sections.
  pub merge_sections-innermost :
      (outer : ModConfig) (sections : List ModConfig)
      → outer.name ≡ some name
      → (merged : ModConfig) × (merge_sections parrot parent p outer sections w ≡ ok merged w)
        × (merged.name ≡ some name)
        × (merged.ctx_pool_name ≡ innermost (λ (cfg : ModConfig). cfg.ctx_pool_name) outer sections)
        × (merged.ctx_pool ≡ innermost (λ (cfg : ModConfig). cfg.ctx_pool) outer sections)
        × (merged.cfg ≡ folded merge outer.cfg sections)
  unfolding merge_sections
  merge_sections-innermost outer [] named = (outer, refl, named, refl, refl, refl)
  merge_sections-innermost outer (section ∷ inner) named =
      let one = merged_config outer section (merge outer.cfg section.cfg) in
      let (merged, run, name_m, pool_name, pool, cfg) = merge_sections-innermost one inner named in
      (
        merged,
        rw (dir_merge-run outer section named) run,
        name_m,
        pool_name
            ∙ innermost-merged (λ (k : ModConfig). k.ctx_pool_name) outer section one inner refl,
        pool ∙ innermost-merged (λ (k : ModConfig). k.ctx_pool) outer section one inner refl,
        cfg,
      )
