-- ===== src/Tests/Options.antt =====
-- Server configurations at work.
use mod_parrot.Base.{◌≡◌, refl, Bool, true, false, none, List, [], ◌∷◌, arith}
use mod_parrot.CStr.{CStr, lit}
use mod_parrot.Config.{
  SrvConfig, opt_enable, opt_trace_init, and_not, is_set, create_modparrot_srv_config,
  modparrot_recalc_options, option_bit,
}
use mod_parrot.Config.Options.{IsSettled, set_options, asks, set_options-flags, create-IsSettled}
use mod_parrot.Config.Merge.{merged_config, merge_parent, merge-flags}
use mod_parrot.Tests.{fresh_config}

fresh-IsSettled : IsSettled fresh_config
fresh-IsSettled = create-IsSettled none 0 false

-- `+TraceInit -Enable +Enable`, and an option that there is not.
abbrev some_options : List (CStr × Bool)
some_options =
    (lit "traceinit", true)
    ∷ (lit "Enable", false)
    ∷ (lit "Enable", true)
    ∷ (lit "Bogus", true)
    ∷ []

set_options-flags_example :
    is_set (set_options fresh_config some_options).option_flags opt_enable ≡ false
unfolding is_set create_modparrot_srv_config asks option_bit and_not
set_options-flags_example =
    set_options-flags fresh_config some_options opt_enable fresh-IsSettled refl

-- A host with `+Parent`, and a main server with `+TraceInit`.
abbrev parent_config : SrvConfig
parent_config = record fresh_config { enable_option_flags = 2; option_flags = 3 }

abbrev trace_config : SrvConfig
trace_config = record fresh_config { enable_option_flags = 4; option_flags = 5 }

merge_parent_example :
    merged_config trace_config parent_config ≡ merged_config fresh_config parent_config
unfolding is_set modparrot_recalc_options create_modparrot_srv_config
merge_parent_example = merge_parent trace_config fresh_config parent_config refl refl

trace-IsSettled : IsSettled trace_config
unfolding create_modparrot_srv_config and_not
trace-IsSettled = record { enabled = omega arith; disabled = omega arith; flags = refl }

-- A host that disables `TraceInit`.
abbrev quiet_config : SrvConfig
quiet_config = record fresh_config { disable_option_flags = 4 }

quiet-IsSettled : IsSettled quiet_config
unfolding create_modparrot_srv_config and_not
quiet-IsSettled = record { enabled = omega arith; disabled = omega arith; flags = refl }

merge-flags_example :
    is_set (merged_config trace_config quiet_config).option_flags opt_trace_init ≡ false
unfolding is_set create_modparrot_srv_config
merge-flags_example =
    merge-flags trace_config quiet_config opt_trace_init trace-IsSettled quiet-IsSettled refl refl
