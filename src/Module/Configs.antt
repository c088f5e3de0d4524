-- ===== src/Module/Configs.antt =====
-- The configurations that Apache keeps for an added module, for a server and for a directory section
-- (src/module.c): they are made empty, and an inner section's is merged into the outer one's.
pub mod Cascade
use mod_parrot.Base.{Option, none, some, or_else}
use mod_parrot.CStr.{CStr}
use mod_parrot.Hash.{hash_get}
use mod_parrot.Run.{M, pure, deref, get, ◌>>=◌}
use mod_parrot.Context.{AprPool, Interp, CtxId}
use mod_parrot.Context.Ops.{load, modparrot_get_current_ctx}
use mod_parrot.Module.{Pmc, ModuleId, ModuleInfo, ModConfig}
use mod_parrot.Base.{get_elem?}
use mod_parrot.World.{World, with_store, Parrot}

-- `modparrot_create_module_config`, which both creations of a configuration call.
abbrev pub modparrot_create_module_config : ModConfig
modparrot_create_module_config = record {
  name = none;
  minfo = none;
  ctx_pool_name = none;
  ctx_pool = none;
  cfg = none;
}

abbrev pub modparrot_module_srv_create : ModConfig
modparrot_module_srv_create = modparrot_create_module_config

abbrev pub modparrot_module_dir_create : ModConfig
modparrot_module_dir_create = modparrot_create_module_config

-- The module of a configuration, by the name in it. `NULL` is no key of the table.
unfoldable pub info_of : ModConfig → M World ModuleInfo
info_of base = do
  w ← get
  s ← deref w.base_server
  name ← deref base.name
  modp ← deref (hash_get name w.module_hash)
  m ← deref (get_elem? w.module_array modp)
  pure m.info

-- The merged configuration, whose PMC is what the HLL sub makes of the two.
abbrev pub merged_config : ModConfig → ModConfig → Pmc → ModConfig
merged_config base new cfg = record {
  name = base.name;
  minfo = base.minfo;
  ctx_pool_name = or_else new.ctx_pool_name base.ctx_pool_name;
  ctx_pool = or_else new.ctx_pool base.ctx_pool;
  cfg = some cfg;
}

-- The context bound to a pool, or else to its parent.
unfoldable pub ctx_of_pool_or_parent : (AprPool → Option AprPool) → AprPool → M World (Option CtxId)
unfolding modparrot_get_current_ctx with_store
ctx_of_pool_or_parent parent p = do
  ctxp ← with_store (modparrot_get_current_ctx (some p))
  elim ctxp [ some c ↦ pure (some c) | none ↦ with_store (modparrot_get_current_ctx (parent p)) ]

-- `apr_pool_parent_get` is a parameter.
module _ (parrot : Parrot) (parent : AprPool → Option AprPool) where
  -- What the two merges share, from the sub and the context on.
  unfoldable pub call_merge_sub : Pmc → Option CtxId → ModConfig → ModConfig → M World ModConfig
  unfolding load with_store
  call_merge_sub sub ctxp base new = do
    c ← deref ctxp
    x ← with_store (load c)
    i ← deref x.interp
    cfg ← parrot.call_merge i sub base.cfg new.cfg
    pure (merged_config base new cfg)

  unfoldable pub modparrot_module_srv_merge : AprPool → ModConfig → ModConfig → M World ModConfig
  unfolding info_of call_merge_sub modparrot_get_current_ctx with_store
  modparrot_module_srv_merge p base new = do
    minfo ← info_of base
    sub ← deref minfo.server_merge_sub
    ctxp ← with_store (modparrot_get_current_ctx (some p))
    call_merge_sub sub ctxp base new

  unfoldable pub modparrot_module_dir_merge : AprPool → ModConfig → ModConfig → M World ModConfig
  unfolding info_of call_merge_sub ctx_of_pool_or_parent with_store
  modparrot_module_dir_merge p base new = do
    minfo ← info_of base
    sub ← deref minfo.dir_merge_sub
    ctxp ← ctx_of_pool_or_parent parent p
    call_merge_sub sub ctxp base new
