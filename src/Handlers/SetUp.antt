-- ===== src/Handlers/SetUp.antt =====
-- The handlers of mod_parrot itself run before the meta handlers of a phase (src/mod_parrot.c).
use mod_parrot.Base.{
  ℕ, ◌≡◌, refl, ◌∙◌, true, Option, none, some, List, ◌∷◌, or_else, get_elem?, arith, if◌then◌else◌,
}
use mod_parrot.Base.Int.{minus_one}
use mod_parrot.CStr.{CStr}
use mod_parrot.Run.{ok, ◌>>◌}
use mod_parrot.Context.{CtxId, CtxPool, AprPool, Server, Ctx, Mpm, update}
use mod_parrot.Config.{opt_enable, is_set}
use mod_parrot.Module.{ModuleId, Module}
use mod_parrot.World.{World, Parrot}
use mod_parrot.Startup.{ptr_eq, section_name, server_pool}
use mod_parrot.Startup.Bound.{set_server, init_ctx_bound}
use mod_parrot.Handlers.{
  RequestRec, set_up, modparrot_request_phase_handler, request_metahandler,
  modparrot_call_meta_handler, declined, status_ok,
}
use mod_parrot.Handlers.Meta.{with_request, metahandler_same_pool}

-- The context `x` as the handlers of mod_parrot leave it.
abbrev pub prepared_ctx : Ctx → Server → AprPool → Ctx
prepared_ctx x s p = record x { s = some s; module_index = minus_one; pool = some p }

abbrev pub prepared : CtxId → Ctx → Server → AprPool → World → World
prepared c x s p w =
    let u = set_server c x s w in
    record u {
      store = record u.store {
        ctxs =
            update
              (update u.store.ctxs c (some (record x { s = some s; module_index = minus_one }))) c
              (some (prepared_ctx x s p));
      };
    }

section_name-prepared :
    (dir : Option ℕ) (idx : ModuleId) (c : CtxId) (x : Ctx) (s : Server) (p : AprPool) (w : World)
    → section_name dir idx (prepared c x s p w) ≡ section_name dir idx w
section_name-prepared none idx c x s p w = refl
section_name-prepared (some d) idx c x s p w = refl

set_up_bound :
    (mpm : Mpm) (parrot : Parrot) (s : Server) (q p : AprPool) (w : World) (c : CtxId) (x : Ctx)
    → w.store.userdata q ≡ some c
    → w.store.ctxs c ≡ some x
    → set_up mpm parrot s q p w ≡ ok declined (prepared c x s p w)
unfolding set_up
set_up_bound mpm parrot s q p w c x bound here =
    let run = init_ctx_bound mpm parrot s q none w c x bound here refl in ground arith

module _ (mpm : Mpm) (parrot : Parrot) (hname : CStr) (henum : ℕ) (r : RequestRec) (w : World)
    (c : CtxId) (x : Ctx) where
  -- For a request whose connection has a context bound, on an enabled server: after mod_parrot's own
  -- handler the next meta handler of a hook runs for the first of the hook's modules, wherever the
  -- context stood before, if no directory section names a pool and the pool selected for that
  -- module is the context's own. The context has the request, its server and its pool.
  pub phase-metahandler :
      (idx : ModuleId) (rest : List ModuleId) (m : Module) (cp : CtxPool)
      → w.store.userdata r.connection_pool ≡ some c
      → w.store.ctxs c ≡ some x
      → is_set (w.srv_config r.server).option_flags opt_enable ≡ true
      → w.handler_modules henum ≡ some (idx ∷ rest)
      → get_elem? w.module_array idx ≡ some m
      → section_name r.per_dir_config idx w ≡ none
      → or_else (server_pool r.server idx w) m.info.ctx_pool ≡ some cp
      → ptr_eq x.ctx_pool (some cp) ≡ true
      → let v =
          with_request c (prepared_ctx x r.server r.pool) r 0 (prepared c x r.server r.pool w) in
        (modparrot_request_phase_handler mpm parrot r
            >> request_metahandler mpm parrot hname henum r)
          w
        ≡ (if r.header_only
            then ok status_ok v
            else modparrot_call_meta_handler mpm parrot c idx hname v)
  phase-metahandler idx rest m cp bound here on hook found no_section selected same =
      rw (set_up_bound mpm parrot r.server r.connection_pool r.pool w c x bound here) (
        metahandler_same_pool mpm parrot hname henum r (prepared c x r.server r.pool w) c
          (prepared_ctx x r.server r.pool) bound (ground arith) (idx ∷ rest) 0 idx m on hook refl
          refl found cp
          (section_name-prepared r.per_dir_config idx c x r.server r.pool w ∙ no_section) selected
          same)
