-- ===== src/Module/Directives/Creation.antt =====
-- What the sub of a directive of an added module finds (src/module.c): the configurations of the
-- server and of the section, made by the module's subs where they were not there.
use mod_parrot.Base.{
  ℕ, ◌≡◌, refl, sym, ap, ◌∙◌, fun_ext, Option, none, some, ◌==◌, ==_iff, ==_refl, get_elem?, arith,
  Bool-cases, Option-cases, inl, inr,
}
use mod_parrot.CStr.{CStr}
use mod_parrot.Run.{ok}
use mod_parrot.Context.{CtxId, Interp, Ctx, ConfigPtr, server_config, dir_config, Mpm}
use mod_parrot.Context.Ops.{load}
use mod_parrot.Module.{Pmc, ModuleId, ModuleInfo, Module, ModConfig}
use mod_parrot.World.{World, with_store, Parrot}
use mod_parrot.Module.Directives.{
  config_at, set_in, set_config, assign_config, interp_of, call_create_sub, fill_config,
  create_config,
}

-- A configuration with its name and the PMC that a sub made, unless it has a PMC already.
abbrev completed_from : CStr → Option Pmc → ModConfig → Option Pmc → ModConfig
completed_from name made k (some cfg) = k
completed_from name made k none = record k { name = some name; cfg = made }

abbrev pub completed : CStr → Option Pmc → ModConfig → ModConfig
completed name made k = completed_from name made k k.cfg

-- What a sub makes of the object for the `cmd_parms`.
abbrev pub made_by : (Pmc → Pmc) → Option Pmc → Option Pmc
made_by make none = none
made_by make (some sub) = some (make sub)

set_in-same :
    (f : ℕ → ℕ → Option ModConfig) (a b : ℕ) (k : ModConfig) → f a b ≡ some k → set_in f a b k ≡ f
set_in-same f a b k e = fun_ext (λ x. fun_ext (λ y. elim (Bool-cases (a == x)) [
  | inr out ↦ rw out refl
  | inl row ↦ elim (Bool-cases (b == y)) [
    | inr out ↦ rw (row, out) refl
    | inl col ↦
        let ax : a ≡ x = (==_iff a x).0 row in
        let byy : b ≡ y = (==_iff b y).0 col in
        rw (row, col) (sym e ∙ ap (λ z. f z b) ax ∙ ap (f x) byy)
  ]
]))

set_in-twice :
    (f : ℕ → ℕ → Option ModConfig) (a b : ℕ) (k l : ModConfig)
    → set_in (set_in f a b k) a b l ≡ set_in f a b l
set_in-twice f a b k l = fun_ext (λ x. fun_ext (λ y. ground arith))

set_config-same :
    (ptr : ConfigPtr) (k : ModConfig) (w : World)
    → config_at ptr w ≡ some k
    → set_config ptr k w ≡ w
set_config-same (server_config s modp) k w e =
    ap (λ f. record w { mod_srv_config = f }) (set_in-same w.mod_srv_config s modp k e)
set_config-same (dir_config d modp) k w e =
    ap (λ f. record w { mod_dir_config = f }) (set_in-same w.mod_dir_config d modp k e)

set_config-twice :
    (ptr : ConfigPtr) (k l : ModConfig) (w : World)
    → set_config ptr l (set_config ptr k w) ≡ set_config ptr l w
set_config-twice (server_config s modp) k l w =
    ap (λ f. record w { mod_srv_config = f }) (set_in-twice w.mod_srv_config s modp k l)
set_config-twice (dir_config d modp) k l w =
    ap (λ f. record w { mod_dir_config = f }) (set_in-twice w.mod_dir_config d modp k l)

pub config-set :
    (ptr : ConfigPtr) (k : ModConfig) (w : World) → config_at ptr (set_config ptr k w) ≡ some k
config-set (server_config s modp) k w = rw (==_refl s, ==_refl modp) refl
config-set (dir_config d modp) k w = rw (==_refl d, ==_refl modp) refl

-- A configuration is set in the state alone.
set_config-store :
    (ptr : ConfigPtr) (k : ModConfig) (w : World) → (set_config ptr k w).store ≡ w.store
set_config-store (server_config s modp) k w = refl
set_config-store (dir_config d modp) k w = refl

assign_config-run :
    (ptr : ConfigPtr) (f : ModConfig → ModConfig) (w : World) (k : ModConfig)
    → config_at ptr w ≡ some k
    → assign_config ptr f w ≡ ok tt (set_config ptr (f k) w)
unfolding assign_config
assign_config-run ptr f w k there = rw there refl

pub interp_of-run :
    (c : CtxId) (w : World) (x : Ctx) (i : Interp)
    → w.store.ctxs c ≡ some x
    → x.interp ≡ some i
    → interp_of c w ≡ ok i w
unfolding interp_of with_store load
interp_of-run c w x i at runs = ground arith

no_cfg : (k : ModConfig) → k.cfg ≡ none → record k { cfg = none } ≡ k
no_cfg k e = ap (λ o. record k { cfg = o }) (sym e)

module _ (mpm : Mpm) (parrot : Parrot) (c : CtxId) (i : Interp) (parms : Pmc) (make : Pmc → Pmc)
    (makes : (sub : Pmc) (w : World) → parrot.call_create i sub parms w ≡ ok (make sub) w) where
  call_create_sub-run :
      (create : Option Pmc) (ptr : ConfigPtr) (w : World) (x : Ctx) (k : ModConfig)
      → w.store.ctxs c ≡ some x
      → x.interp ≡ some i
      → config_at ptr w ≡ some k
      → k.cfg ≡ none
      → call_create_sub mpm parrot c create parms ptr w
        ≡ ok tt (set_config ptr (record k { cfg = made_by make create }) w)
  unfolding call_create_sub
  call_create_sub-run none ptr w x k at runs there bare =
      ap (ok tt)
        (sym (set_config-same ptr k w there) ∙ ap (λ l. set_config ptr l w) (sym (no_cfg k bare)))
  call_create_sub-run (some sub) ptr w x k at runs there bare =
      rw (interp_of-run c w x i at runs, makes sub w)
        (assign_config-run ptr (λ l. record l { cfg = some (make sub) }) w k there)

  module _ (modp : ModuleId) (create : ModuleInfo → Option Pmc) (ptr : ConfigPtr) (w : World)
      (x : Ctx) (m : Module) (k : ModConfig) (at : w.store.ctxs c ≡ some x)
      (runs : x.interp ≡ some i) (found : get_elem? w.module_array modp ≡ some m)
      (there : config_at ptr w ≡ some k) where
    filled : ModConfig
    filled = record k { name = some m.name; cfg = made_by make (create m.info) }

    fill_config-run :
        k.cfg ≡ none
        → fill_config mpm parrot c modp create parms ptr none w ≡ ok tt (set_config ptr filled w)
    unfolding fill_config filled
    fill_config-run bare =
        let n = λ (l : ModConfig). record l { name = some m.name } in
        let u = set_config ptr (n k) w in
        let call =
          call_create_sub-run (create m.info) ptr u x (n k)
            (ap (λ st. st.ctxs c) (set_config-store ptr (n k) w) ∙ at) runs (config-set ptr (n k) w)
            bare in
        rw (found, assign_config-run ptr n w k there) call
        ∙ ap (ok tt) (set_config-twice ptr (n k) filled w)

    create_config-fills :
        create_config mpm parrot c modp create parms (some ptr) w
        ≡ fill_config mpm parrot c modp create parms ptr k.cfg w
    unfolding create_config
    create_config-fills = rw there refl

    pub create_config-run :
        create_config mpm parrot c modp create parms (some ptr) w
        ≡ ok tt (set_config ptr (completed m.name (made_by make (create m.info)) k) w)
    unfolding fill_config filled
    create_config-run =
        let complete = completed_from m.name (made_by make (create m.info)) k in
        let fill = fill_config mpm parrot c modp create parms ptr in
        create_config-fills ∙ elim (Option-cases k.cfg) [
          | inr (cfg, full) ↦
              ap (λ o. fill o w) full
              ∙ ap (ok tt) (sym (set_config-same ptr k w there))
              ∙ ap (λ o. ok tt (set_config ptr (complete o) w)) (sym full)
          | inl bare ↦
              ap (λ o. fill o w) bare
              ∙ fill_config-run bare
              ∙ ap (λ o. ok tt (set_config ptr (complete o) w)) (sym bare)
        ]
