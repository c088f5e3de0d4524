-- ===== src/OpenLogs/Hosts.antt =====
-- Virtual hosts without `+Parent` use the context pool of the main server.
use mod_parrot.Base.{
  ◌≡◌, refl, sym, ◌∙◌, Bool, true, false, ◌&&◌, Option, List, [], ◌∷◌, ◌==◌, ==_iff, ==_refl, arith,
  if◌then◌else◌, Bool-cases, inl, inr,
}
use mathlib.Core.Bool.{and-false}
use mod_parrot.Run.{ok, fault}
use mod_parrot.Context.{CtxId, Interp, AprPool, CtxPool, Server, Mpm}
use mod_parrot.Context.Capacity.{has}
use mod_parrot.Config.{SrvConfig, opt_enable, opt_parent, is_set}
use mod_parrot.World.{World, set_srv_config, Parrot}
use mod_parrot.Handlers.{status_ok}
use mod_parrot.OpenLogs.{open_main, open_enabled_host, open_hosts, modparrot_open_logs_handler}

abbrev pub is_enabled : SrvConfig → Bool
is_enabled cfg = is_set cfg.option_flags opt_enable

-- No host of the list has `+Parent`.
abbrev pub NoneOwn : (Server → SrvConfig) → List Server → Type 0
NoneOwn f [] = Unit {0}
NoneOwn f (vs ∷ hosts) = (is_set (f vs).option_flags opt_parent ≡ false) × NoneOwn f hosts

-- The configurations after a host was given the pool of the main server.
abbrev shared : Server → Server → World → World
shared s vs w =
    set_srv_config vs (record (w.srv_config vs) { ctx_pool = (w.srv_config s).ctx_pool }) w

NoneOwn-shared :
    (s vs : Server) (w : World) (hosts : List Server)
    → NoneOwn w.srv_config hosts
    → NoneOwn (shared s vs w).srv_config hosts
NoneOwn-shared s vs w [] own = tt
NoneOwn-shared s vs w (h ∷ hosts) (one, own) = (
  elim (Bool-cases (vs == h)) [
    | inl same ↦ let e : vs ≡ h = (==_iff vs h).0 same in rw (same, e) one
    | inr other ↦ rw other one
  ],
  NoneOwn-shared s vs w hosts own,
)

abbrev with_pool : Option CtxPool → SrvConfig → SrvConfig
with_pool cp cfg = record cfg { ctx_pool = cp }

shared-twice :
    (again : Bool) (cp : Option CtxPool) (cfg : SrvConfig)
    → (if again && true then with_pool cp (with_pool cp cfg) else with_pool cp cfg)
      ≡ with_pool cp cfg
shared-twice true cp cfg = refl
shared-twice false cp cfg = refl

shared-main :
    (s vs : Server) (w : World)
    → ((shared s vs w).srv_config s).ctx_pool ≡ (w.srv_config s).ctx_pool
shared-main s vs w = elim (Bool-cases (vs == s)) [
  | inl same ↦ rw same refl
  | inr other ↦ rw other refl
]

shared-step :
    (s vs : Server) (w : World) (hosts : List Server) (t : Server)
    → is_enabled (w.srv_config vs) ≡ true
    → (let u = shared s vs w in
        (if has t hosts && is_enabled (u.srv_config t)
          then with_pool (u.srv_config s).ctx_pool (u.srv_config t)
          else u.srv_config t))
      ≡ (if has t (vs ∷ hosts) && is_enabled (w.srv_config t)
          then with_pool (w.srv_config s).ctx_pool (w.srv_config t)
          else w.srv_config t)
shared-step s vs w hosts t on = rw (shared-main s vs w) (elim (Bool-cases (vs == t)) [
  | inl same ↦
      let e : vs ≡ t = (==_iff vs t).0 same in
      rw (same, sym e, ==_refl, on)
        (shared-twice (has vs hosts) (w.srv_config s).ctx_pool (w.srv_config vs))
  | inr other ↦ let away : (t == vs) ≡ false = ground arith in rw (other, away) refl
])

module _ (mpm : Mpm) (parrot : Parrot) (pconf ptemp : AprPool) (s : Server) where
  -- Of hosts without `+Parent`, in any number and order and with repetitions, each on which
  -- mod_parrot is enabled gets the context pool of the main server, whatever became of the main
  -- server's start; nothing else of any configuration changes, and the result is `OK`.
  pub open_hosts-shared :
      (main : Option (CtxId × Option Interp)) (hosts : List Server) (w : World)
      → NoneOwn w.srv_config hosts
      → (v : World) × (open_hosts mpm parrot pconf ptemp s main hosts w ≡ ok status_ok v)
        × ((t : Server)
            → v.srv_config t ≡ (
                if has t hosts && is_enabled (w.srv_config t)
                then record (w.srv_config t) { ctx_pool = (w.srv_config s).ctx_pool }
                else w.srv_config t))
  unfolding open_hosts open_enabled_host
  open_hosts-shared main [] w own = (w, refl, λ t. refl)
  open_hosts-shared main (vs ∷ hosts) w (one, own) =
      elim (Bool-cases (is_enabled (w.srv_config vs))) [
        | inl on ↦
            let u = shared s vs w in
            let (v, run, after) =
              open_hosts-shared main hosts u (NoneOwn-shared s vs w hosts own) in
            (v, rw (on, one) run, λ t. after t ∙ shared-step s vs w hosts t on)
        | inr off ↦
            let (v, run, after) = open_hosts-shared main hosts w own in
            (
              v,
              rw off run,
              λ t. elim (Bool-cases (t == vs)) [
                | inl same ↦
                    let e : t ≡ vs = (==_iff t vs).0 same in
                    after t ∙ rw (e, ==_refl, off, and-false) refl
                | inr other ↦ after t ∙ rw other refl
              ],
            )
      ]

  -- When mod_parrot is disabled in the main server, enabled on the first host and that host has
  -- `+Parent`, the handler uses variables that were never set.
  pub open_logs_unset :
      (vs : Server) (hosts : List Server) (w : World)
      → is_enabled (w.srv_config s) ≡ false
      → is_enabled (w.srv_config vs) ≡ true
      → is_set (w.srv_config vs).option_flags opt_parent ≡ true
      → modparrot_open_logs_handler mpm parrot pconf ptemp s (vs ∷ hosts) w ≡ fault
  unfolding modparrot_open_logs_handler open_main open_hosts open_enabled_host
  open_logs_unset vs hosts w off on own = ground arith
