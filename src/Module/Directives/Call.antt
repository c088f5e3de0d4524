-- ===== src/Module/Directives/Call.antt =====
-- The call of the sub of a directive (src/module.c, `modparrot_module_cmd_take123`).
use mod_parrot.Base.{
  ℕ, ◌≡◌, refl, ap, fun_ext, Option, none, some, List, [], ◌∷◌, ◌==◌, ==_refl, get_elem?, arith,
  Bool-cases, inl, inr,
}
use mod_parrot.Base.Int.{ℤ}
use mod_parrot.CStr.{CStr}
use mod_parrot.Run.{ok}
use mod_parrot.Context.{CtxId, Interp, Ctx, Store, server_config, dir_config, Mpm}
use mod_parrot.Context.Ops.{load, assign, write}
use mod_parrot.Module.{Pmc, Module, ModConfig}
use mod_parrot.World.{World, with_store, Parrot}
use mod_parrot.Startup.{modparrot_startup}
use mod_parrot.Module.Directives.{
  CmdParms, set_in, config_at, set_config, srv_config_ptr, call_directive, run_directive,
  module_pool_name, modparrot_module_cmd_take123,
}
use mod_parrot.Module.Directives.Creation.{completed, made_by, create_config-run, interp_of-run}

write_twice : (c : CtxId) (x y : Ctx) (st : Store) → write c y (write c x st) ≡ write c y st
write_twice c x y st =
    ap (λ f. record st { ctxs = f })
      (fun_ext
        (λ d. elim (Bool-cases (c == d)) [ inl same ↦ rw same refl | inr other ↦ rw other refl ]))

assign-run :
    (c : CtxId) (f : Ctx → Ctx) (w : World) (x : Ctx)
    → w.store.ctxs c ≡ some x
    → with_store (assign c f) w ≡ ok tt (record w { store = write c (f x) w.store })
unfolding with_store assign load
assign-run c f w x at = ground arith

-- The state after the call, without the two pointers.
abbrev pub cleared : CtxId → Ctx → World → World
cleared c y v = record v {
  store = write c (record y { raw_srv_config = none; raw_dir_config = none }) v.store;
}

-- The state in which the sub of a directive is called: the context has the `pconf` of the directive
-- and pointers to the two configurations, which have their PMCs.
abbrev pub prepared :
    CtxId → Ctx → CmdParms → ℕ → Module → (Pmc → Pmc) → ModConfig → ModConfig → World → World
prepared c x cmd d m make ks kd w = record w {
  store =
      write c
        (record x {
          raw_srv_config = some (server_config cmd.server cmd.modp);
          raw_dir_config = some (dir_config d cmd.modp);
        })
        w.store;
  mod_srv_config =
      set_in w.mod_srv_config cmd.server cmd.modp
        (completed m.name (made_by make m.info.server_create_sub) ks);
  mod_dir_config =
      set_in w.mod_dir_config d cmd.modp (completed m.name (made_by make m.info.dir_create_sub) kd);
}

module _ (mpm : Mpm) (parrot : Parrot) (c : CtxId) (i : Interp) (parms : Pmc) (make : Pmc → Pmc)
    (wraps : (w : World) → parrot.wrap_cmd_parms i w ≡ ok parms w)
    (makes : (sub : Pmc) (w : World) → parrot.call_create i sub parms w ≡ ok (make sub) w)
    (cmd : CmdParms) (d : ℕ) (m : Module) (ks kd : ModConfig) where
  run_directive-run :
      (args : List (Option CStr)) (w : World) (x : Ctx)
      → w.store.ctxs c ≡ some x
      → x.interp ≡ some i
      → get_elem? w.module_array cmd.modp ≡ some m
      → w.mod_srv_config cmd.server cmd.modp ≡ some ks
      → w.mod_dir_config d cmd.modp ≡ some kd
      → (r : ℤ) (v : World) (y : Ctx)
      → parrot.call_command i cmd.cmd.func parms
          (completed m.name (made_by make m.info.dir_create_sub) kd).cfg
          args
          (prepared c x cmd d m make ks kd w)
        ≡ ok r v
      → v.store.ctxs c ≡ some y
      → run_directive mpm parrot c cmd (some (dir_config d cmd.modp)) args w ≡ ok tt (cleared c y v)
  unfolding run_directive srv_config_ptr call_directive
  run_directive-run args w x at runs found srv dir r v y call stays =
      let ptr = server_config cmd.server cmd.modp in
      let x1 = record x { raw_srv_config = some ptr } in
      let w1 = record w { store = write c x1 w.store } in
      let here : w1.store.ctxs c ≡ some x1 = rw (==_refl c) refl in
      let w2 = set_config ptr (completed m.name (made_by make m.info.server_create_sub) ks) w1 in
      let x2 = record x1 { raw_dir_config = some (dir_config d cmd.modp) } in
      let w3 = record w2 { store = write c x2 w2.store } in
      let here3 : w3.store.ctxs c ≡ some x2 = rw (==_refl c) refl in
      let w4 = prepared c x cmd d m make ks kd w in
      let w4_same : set_config (dir_config d cmd.modp)
            (completed m.name (made_by make m.info.dir_create_sub) kd) w3
          ≡ w4 =
        ap (λ st. record w4 { store = st }) (write_twice c x1 x2 w.store) in
      let here4 : w4.store.ctxs c ≡ some x2 = rw (==_refl c) refl in
      let a1 = interp_of-run c w x i at runs in
      let a2 = assign-run c (λ x. record x { raw_srv_config = some ptr }) w x at in
      let a3 =
        create_config-run mpm parrot c i parms make makes cmd.modp (λ info. info.server_create_sub)
          ptr w1 x1 m ks here runs found srv in
      let a4 =
        assign-run c (λ x. record x { raw_dir_config = some (dir_config d cmd.modp) }) w2 x1 here in
      let a5 =
        create_config-run mpm parrot c i parms make makes cmd.modp (λ info. info.dir_create_sub)
          (dir_config d cmd.modp) w3 x2 m kd here3 runs found dir in
      let a6 = interp_of-run c w4 x2 i here4 runs in
      let a7 =
        assign-run c (λ x. record x { raw_srv_config = none; raw_dir_config = none }) v y stays in
      let cfg4 : config_at (dir_config d cmd.modp) w4
          ≡ some (completed m.name (made_by make m.info.dir_create_sub) kd) =
        rw (==_refl d, ==_refl cmd.modp) refl in
      let a8 : call_directive mpm parrot c cmd (some (dir_config d cmd.modp)) parms args w4
          ≡ ok r v =
        rw (cfg4, a6) call in
      rw (a1, wraps w, srv, a2, a3, a4, a5, w4_same, a8) a7

  -- A directive of an added module whose pool has a name that the module remembers, where the start
  -- for it returns a context with an interpreter, and Apache has both configurations: the sub of the
  -- directive is called with the directory's PMC and three arguments, where both configurations have a
  -- name and a PMC from the module's subs, unless they had a PMC before, and the context points to
  -- both. If the call returns and the context is still there, no message comes and the pointers are
  -- gone. The object for the `cmd_parms` and the PMCs are made without a change of the state.
  pub cmd_take123-calls :
      (arg1 arg2 arg3 : Option CStr) (w u v : World) (m0 : Module) (name : CStr) (x y : Ctx) (r : ℤ)
      → get_elem? w.module_array cmd.modp ≡ some m0
      → m0.info.ctx_pool_name ≡ some name
      → modparrot_startup mpm parrot cmd.temp_pool cmd.server none (some name) w ≡ ok (some c) u
      → u.store.ctxs c ≡ some x
      → x.interp ≡ some i
      → get_elem? u.module_array cmd.modp ≡ some m
      → u.mod_srv_config cmd.server cmd.modp ≡ some ks
      → u.mod_dir_config d cmd.modp ≡ some kd
      → parrot.call_command i cmd.cmd.func parms
          (completed m.name (made_by make m.info.dir_create_sub) kd).cfg
          (arg1 ∷ arg2 ∷ arg3 ∷ [])
          (prepared c (record x { pconf = some cmd.pool }) cmd d m make ks kd u)
        ≡ ok r v
      → v.store.ctxs c ≡ some y
      → modparrot_module_cmd_take123 mpm parrot cmd (some (dir_config d cmd.modp)) arg1 arg2 arg3 w
        ≡ ok none (cleared c y v)
  unfolding modparrot_module_cmd_take123 module_pool_name
  cmd_take123-calls arg1 arg2 arg3 w u v m0 name x y r at0 named started at runs found srv dir call
        stays =
      let x1 = record x { pconf = some cmd.pool } in
      let u1 = record u { store = write c x1 u.store } in
      let here : u1.store.ctxs c ≡ some x1 = rw (==_refl c) refl in
      let set = assign-run c (λ x. record x { pconf = some cmd.pool }) u x at in
      let same : prepared c x1 cmd d m make ks kd u1 ≡ prepared c x1 cmd d m make ks kd u =
        ap (λ st. record (prepared c x1 cmd d m make ks kd u) { store = st })
          (write_twice c x1
            (record x1 {
              raw_srv_config = some (server_config cmd.server cmd.modp);
              raw_dir_config = some (dir_config d cmd.modp);
            })
            u.store) in
      let run =
        run_directive-run (arg1 ∷ arg2 ∷ arg3 ∷ []) u1 x1 here runs found srv dir r v y
          (rw same call) stays in
      rw (at0, named, started, set, run) refl
