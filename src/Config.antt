-- ===== src/Config.antt =====
-- The per-server configuration of src/modparrot_config.c: its creation, its options and the merge
-- of a virtual host's configuration with the main server's.
pub mod Options
pub mod Merge
use Prim.Native.Nat.{bit_and, bit_or, bit_xor}
use mod_parrot.Base.{
  ℕ, Bool, true, false, not, ◌&&◌, ◌||◌, Option, none, some, List, [], ◌∷◌, ◌++◌, ◌==◌, or_else,
  if◌then◌else◌,
}
use mod_parrot.Base.Int.{ℤ, minus_one, is_minus_one}
use mod_parrot.CStr.{CStr, lit, strncase_eq}
use mod_parrot.Context.{AprPool, CtxPool}

-- `struct modparrot_srv_config`.
pub record SrvConfig : Type 0 where
  pub pool : Option AprPool
  pub ctx_pool : Option CtxPool
  pub start_interp : ℕ
  pub minspare_interp : ℕ
  pub maxspare_interp : ℕ
  pub max_interp : ℕ
  pub init_path : Option CStr
  pub trace_flags : ℤ
  pub enable_option_flags : ℕ
  pub disable_option_flags : ℕ
  pub option_flags : ℕ
  pub include_path : Option CStr
  pub dynext_path : Option CStr
  pub lib_path : Option CStr
  pub so_path : Option CStr
  pub preload : List CStr

-- `MP_OPT_ENABLE`, `MP_OPT_PARENT`, `MP_OPT_TRACE_INIT`.
abbrev pub opt_enable : ℕ
opt_enable = 1

abbrev pub opt_parent : ℕ
opt_parent = 2

abbrev pub opt_trace_init : ℕ
opt_trace_init = 4

-- `a & ~b` on a 32-bit `int`.
unfoldable pub and_not : ℕ → ℕ → ℕ
and_not a b = bit_and a (bit_xor b 0xffff_ffff)

-- `flags & option` as a test.
unfoldable pub is_set : ℕ → ℕ → Bool
is_set flags option = not (bit_and flags option == 0)

-- `create_modparrot_srv_config`, with the module's directory as the FreeBSD branch finds it
-- (`none` on other systems). The flag says whether the cleanup of the server is registered.
unfoldable pub create_modparrot_srv_config : Option CStr → AprPool → Bool → SrvConfig × Bool
create_modparrot_srv_config origin p is_virtual =
    let cfg : SrvConfig = record {
      pool = some p;
      ctx_pool = none;
      start_interp = 0;
      minspare_interp = 0;
      maxspare_interp = 0;
      max_interp = 0;
      init_path = none;
      trace_flags = minus_one;
      enable_option_flags = 0;
      disable_option_flags = 0;
      option_flags = opt_enable;
      include_path = none;
      dynext_path = none;
      lib_path = none;
      so_path = elim origin [ none ↦ none | some dir ↦ some (dir ++ lit "/mod_parrot.so") ];
      preload = [];
    } in
    (cfg, not is_virtual || (is_virtual && not (bit_or cfg.option_flags opt_parent == 0)))

-- `modparrot_recalc_options`.
unfoldable pub modparrot_recalc_options : SrvConfig → SrvConfig
unfolding and_not
modparrot_recalc_options cfg = record cfg {
  option_flags = and_not (bit_or cfg.option_flags cfg.enable_option_flags) cfg.disable_option_flags;
}

-- The bit that an option's name stands for: only a prefix of the name is compared.
unfoldable pub option_bit : CStr → Option ℕ
unfolding strncase_eq
option_bit option =
    if strncase_eq option (lit "Parent") 6
    then some opt_parent
    else (if strncase_eq option (lit "Enable") 6
        then some opt_enable
        else (if strncase_eq option (lit "TraceInit") 9 then some opt_trace_init else none))

abbrev set_flag : SrvConfig → Bool → ℕ → SrvConfig
set_flag cfg true bit = record cfg { enable_option_flags = bit_or cfg.enable_option_flags bit }
set_flag cfg false bit = record cfg { disable_option_flags = bit_or cfg.disable_option_flags bit }

-- `modparrot_set_option`: the configuration and the result, `false` for an unknown option.
unfoldable pub modparrot_set_option : SrvConfig → CStr → Bool → SrvConfig × Bool
unfolding option_bit modparrot_recalc_options
modparrot_set_option cfg option enable = elim (option_bit option) [
  | none ↦ (cfg, false)
  | some bit ↦ (modparrot_recalc_options (set_flag cfg enable bit), true)
]

-- `merge_modparrot_srv_config`: the two configurations, which it changes too, and the merged one.
unfoldable pub merge_modparrot_srv_config :
    SrvConfig → SrvConfig → SrvConfig × SrvConfig × SrvConfig
merge_modparrot_srv_config base new =
    let basecfg = modparrot_recalc_options base in
    let newcfg = modparrot_recalc_options new in
    let own = is_set newcfg.option_flags opt_parent in
    let merged : SrvConfig = record {
      pool = none;
      ctx_pool = none;
      start_interp = 0;
      minspare_interp = 0;
      maxspare_interp = 0;
      max_interp = 0;
      init_path = or_else newcfg.init_path basecfg.init_path;
      trace_flags =
          if own
          then newcfg.trace_flags
          else (if is_minus_one newcfg.trace_flags
              then basecfg.trace_flags
              else newcfg.trace_flags);
      enable_option_flags = 0;
      disable_option_flags = 0;
      option_flags =
          if own
          then newcfg.option_flags
          else and_not (bit_or basecfg.option_flags newcfg.enable_option_flags)
              newcfg.disable_option_flags;
      include_path =
          if own then newcfg.include_path else or_else newcfg.include_path basecfg.include_path;
      dynext_path =
          if own then newcfg.dynext_path else or_else newcfg.dynext_path basecfg.dynext_path;
      lib_path = if own then newcfg.lib_path else or_else newcfg.lib_path basecfg.lib_path;
      so_path = none;
      preload = if own then newcfg.preload else basecfg.preload ++ newcfg.preload;
    } in
    (basecfg, newcfg, merged)
