-- ===== src/Startup/Named.antt =====
-- Named pools at work: `modparrot_startup` and `select_ctx_pool`.
use mod_parrot.Base.{ℕ, ◌≡◌, refl, sym, ◌∙◌, true, Option, none, some, List, get_elem?, arith}
use mod_parrot.CStr.{CStr, lit}
use mod_parrot.Hash.{hash_get}
use mod_parrot.Run.{ok, M, pure, and_then, and_then-ok, ◌>>◌}
use mod_parrot.Context.{CtxId, CtxPool, AprPool, Interp, Server, Ctx, ready, Mpm}
use mod_parrot.Context.Ops.{release_ctx}
use mod_parrot.Context.Reserve.{Readable, first_free}
use mod_parrot.Module.{ModuleId, Module}
use mod_parrot.World.{World, with_store, Parrot}
use mod_parrot.Startup.{find_pool, modparrot_startup, section_pool, section_name, select_ctx_pool}
use mod_parrot.Startup.Reserve.{IsUnbound, reserved_for, init_ctx_reserves}

-- The name that a start is for: "default" unless one is given.
abbrev pub name_or_default : Option CStr → CStr
name_or_default none = lit "default"
name_or_default (some name) = name

ok_result : {A : Type 0} (a b : A) (v w : World) → ok a v ≡ ok b w → b ≡ a
ok_result a b v w e = cc

module _ (mpm : Mpm) (parrot : Parrot) where
  -- In the threaded build, with the mutex ready and mod_parrot started: a start for a name that is
  -- known, whose pool has one allocated context, or a first one that is allocated and free, where the
  -- first free context has an interpreter and nothing is bound to the APR pool, reserves that context
  -- for the server and binds it. No pool is made, and the parent interpreter is of no effect.
  pub startup_known :
      (p : AprPool) (s : Server) (parent_interp : Option Interp) (pool_name : Option CStr)
      (w : World) (cp : CtxPool) (elts : List CtxId) (c : CtxId) (x : Ctx) (i : Interp)
      → mpm.threaded ≡ true
      → w.store.mutex ≡ ready
      → w.is_started ≡ true
      → hash_get (name_or_default pool_name) w.store.ctx_pool_hash ≡ some cp
      → w.store.pools cp ≡ some elts
      → Readable w.store.ctxs elts
      → IsUnbound w p
      → first_free w.store.ctxs elts ≡ some c
      → w.store.ctxs c ≡ some x
      → x.interp ≡ some i
      → modparrot_startup mpm parrot p s parent_interp pool_name w
        ≡ ok (some c) (record (reserved_for c x s p w) { is_started = true })
  unfolding modparrot_startup find_pool
  startup_known p s parent_interp none w cp elts c x i threads lock started name pool readable
        unbound free at runs =
      let run =
        init_ctx_reserves mpm parrot s p cp w elts threads lock pool readable unbound c x i free at
          runs in
      ground arith
  startup_known p s parent_interp (some n) w cp elts c x i threads lock started name pool readable
        unbound free at runs =
      let run =
        init_ctx_reserves mpm parrot s p cp w elts threads lock pool readable unbound c x i free at
          runs in
      ground arith

  select_ctx_pool-section :
      (modp : ModuleId) (s : Server) (dir : Option ℕ) (w : World) (m : Module) (name : CStr)
      → get_elem? w.module_array modp ≡ some m
      → section_name dir modp w ≡ some name
      → select_ctx_pool mpm parrot modp s dir w ≡ section_pool mpm parrot s name w
  unfolding select_ctx_pool
  select_ctx_pool-section modp s dir w m name found asks = rw (found, asks) refl

  start_section : Server → CStr → M World (Option CtxPool)
  start_section s name w =
      and_then (modparrot_startup mpm parrot w.pconf s none (some name) w)
        (λ ctxp. with_store (release_ctx ctxp) >> pure none)

  section_pool-unknown :
      (s : Server) (name : CStr) (w : World)
      → hash_get name w.store.ctx_pool_hash ≡ none
      → section_pool mpm parrot s name w ≡ start_section s name w
  unfolding section_pool start_section
  section_pool-unknown s name w unknown = rw unknown refl

  start_section-none :
      (s : Server) (name : CStr) (w v : World) (o : Option CtxPool)
      → start_section s name w ≡ ok o v
      → o ≡ none
  unfolding start_section
  start_section-none s name w v o e =
      let (ctxp, u, started, rest) =
        and_then-ok (modparrot_startup mpm parrot w.pconf s none (some name) w) _ e in
      let (unit, a, released, end) = and_then-ok (with_store (release_ctx ctxp) u) _ rest in
      ok_result none o a v end

  -- A directory section that asks, for a module that was added, for a pool by a name that is not
  -- known gets `NULL`, whenever the selection returns.
  pub select_section_unknown :
      (modp : ModuleId) (s : Server) (dir : Option ℕ) (w v : World) (m : Module) (name : CStr)
      (o : Option CtxPool)
      → get_elem? w.module_array modp ≡ some m
      → section_name dir modp w ≡ some name
      → hash_get name w.store.ctx_pool_hash ≡ none
      → select_ctx_pool mpm parrot modp s dir w ≡ ok o v
      → o ≡ none
  select_section_unknown modp s dir w v m name o found asks unknown e =
      start_section-none s name w v o (
        sym (section_pool-unknown s name w unknown)
        ∙ sym (select_ctx_pool-section modp s dir w m name found asks)
        ∙ e)
