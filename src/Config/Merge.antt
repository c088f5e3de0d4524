-- ===== src/Config/Merge.antt =====
-- `merge_modparrot_srv_config`: what a virtual host inherits.
use Prim.Native.Nat.{bit_or}
use mathlib.Core.List.{append-nil}
use mod_parrot.Base.{
  ℕ, ◌<◌, ◌≡◌, refl, ap, sym, ◌∙◌, Bool, true, false, not, ◌&&◌, ◌||◌, Option, ◌==◌, ==_iff, ltb,
  ltb→lt, arith,
}
use mod_parrot.Base.Bits.{passes_two, passes_two_sound, passes_three, passes_three_sound}
use mod_parrot.CStr.{CStr}
use mod_parrot.Context.{AprPool}
use mod_parrot.Config.{
  SrvConfig, opt_enable, opt_parent, and_not, is_set, create_modparrot_srv_config,
  modparrot_recalc_options, merge_modparrot_srv_config,
}
use mod_parrot.Config.Options.{IsSettled, is_option, same_way, create-IsSettled}

settled_test : ℕ → ℕ → Bool
unfolding and_not
settled_test e d =
    and_not (bit_or (and_not (bit_or opt_enable e) d) e) d == and_not (bit_or opt_enable e) d

settled_table : passes_two settled_test 8 ≡ true
unfolding passes_two settled_test
settled_table = refl

-- Flags that are settled stay as they are when they are computed again.
recalc-settled : (cfg : SrvConfig) → IsSettled cfg → modparrot_recalc_options cfg ≡ cfg
unfolding modparrot_recalc_options settled_test
recalc-settled cfg s =
    let same = (==_iff _ _).0 (
      passes_two_sound settled_test 8 cfg.enable_option_flags cfg.disable_option_flags settled_table
        s.enabled s.disabled) in
    ap (λ f. record cfg { option_flags = f })
      (ap (λ f. and_not (bit_or f cfg.enable_option_flags) cfg.disable_option_flags) s.flags
        ∙ same
        ∙ sym s.flags)

-- The merged configuration.
abbrev pub merged_config : SrvConfig → SrvConfig → SrvConfig
merged_config base new = (merge_modparrot_srv_config base new).2

module _ (base new : SrvConfig) (b : IsSettled base) (n : IsSettled new) where
  -- The merge leaves two configurations as they are whose flags are settled.
  pub merge_keeps :
      ((merge_modparrot_srv_config base new).0 ≡ base)
      × ((merge_modparrot_srv_config base new).1 ≡ new)
  unfolding merge_modparrot_srv_config
  merge_keeps = (recalc-settled base b, recalc-settled new n)

-- A host with `+Parent` takes nothing from the main server but its `ParrotInit` path: two main
-- servers that agree on that path give the same merged configuration.
pub merge_parent :
    (base other new : SrvConfig)
    → is_set (modparrot_recalc_options new).option_flags opt_parent ≡ true
    → base.init_path ≡ other.init_path
    → merged_config base new ≡ merged_config other new
unfolding merge_modparrot_srv_config modparrot_recalc_options
merge_parent base other new parent same = ground arith

fresh_test : ℕ → ℕ → Bool
unfolding and_not
fresh_test e d =
    and_not (bit_or (and_not (bit_or opt_enable e) d) 0) 0 == and_not (bit_or opt_enable e) d

fresh_table : passes_two fresh_test 8 ≡ true
unfolding passes_two fresh_test
fresh_table = refl

fresh_flags :
    (base : SrvConfig) → IsSettled base → and_not (bit_or base.option_flags 0) 0 ≡ base.option_flags
unfolding fresh_test
fresh_flags base b = rw b.flags (
    (==_iff _ _).0 (
      passes_two_sound fresh_test 8 base.enable_option_flags base.disable_option_flags fresh_table
        b.enabled b.disabled))

-- A host that sets nothing takes the option flags, the paths, the trace flags and the preload list
-- of a main server whose flags are settled.
pub merge_fresh :
    (base : SrvConfig) (origin : Option CStr) (p : AprPool) (is_virtual : Bool)
    → IsSettled base
    → let m = merged_config base (create_modparrot_srv_config origin p is_virtual).0 in
      (m.option_flags ≡ base.option_flags)
      × (m.init_path ≡ base.init_path)
      × (m.trace_flags ≡ base.trace_flags)
      × (m.include_path ≡ base.include_path)
      × (m.lib_path ≡ base.lib_path)
      × (m.dynext_path ≡ base.dynext_path)
      × (m.preload ≡ base.preload)
unfolding merge_modparrot_srv_config create_modparrot_srv_config is_set
merge_fresh base origin p is_virtual b =
    let new = (create_modparrot_srv_config origin p is_virtual).0 in
    rw
      (recalc-settled base b, recalc-settled new (create-IsSettled origin p is_virtual), append-nil)
      (fresh_flags base b, refl, refl, refl, refl, refl, refl)

small_test : ℕ → ℕ → Bool
unfolding and_not
small_test e d = ltb (and_not (bit_or opt_enable e) d) 8

small_table : passes_two small_test 8 ≡ true
unfolding passes_two small_test
small_table = refl

flags_small : (cfg : SrvConfig) → IsSettled cfg → cfg.option_flags < 8
unfolding small_test
flags_small cfg s = rw s.flags (
    ltb→lt _ _ (
      passes_two_sound small_test 8 cfg.enable_option_flags cfg.disable_option_flags small_table
        s.enabled s.disabled))

-- A bit of the merged flags, from the bits of the main server's flags and of the host's masks.
merged_bit : ℕ → ℕ → ℕ → ℕ → Bool
unfolding is_set and_not
merged_bit x e d o =
    same_way (is_set (and_not (bit_or x e) d) o) ((is_set x o || is_set e o) && not (is_set d o))

merged_test : ℕ → ℕ → ℕ → Bool
unfolding merged_bit
merged_test x e d = merged_bit x e d 1 && (merged_bit x e d 2 && merged_bit x e d 4)

merged_table : passes_three merged_test 8 ≡ true
unfolding passes_three merged_test
merged_table = refl

each_option :
    (p : ℕ → Bool) (o : ℕ) → (p 1 && (p 2 && p 4)) ≡ true → is_option o ≡ true → p o ≡ true
each_option p o h one = ground arith

merged_bit_of_test :
    (x e d o : ℕ) → merged_test x e d ≡ true → is_option o ≡ true → merged_bit x e d o ≡ true
unfolding merged_test
merged_bit_of_test x e d o h one = each_option (merged_bit x e d) o h one

eq_of_same_way : (a b : Bool) → same_way a b ≡ true → a ≡ b
eq_of_same_way a b h = ground arith

-- Of a host without `+Parent`, where both configurations are settled, an option is on exactly if the
-- main server has it on or the host enables it, and the host does not disable it.
pub merge-flags :
    (base new : SrvConfig) (o : ℕ)
    → IsSettled base
    → IsSettled new
    → is_set new.option_flags opt_parent ≡ false
    → is_option o ≡ true
    → is_set (merged_config base new).option_flags o ≡ (
        (is_set base.option_flags o || is_set new.enable_option_flags o)
        && not (is_set new.disable_option_flags o))
unfolding merge_modparrot_srv_config merged_bit
merge-flags base new o b n own one =
    rw (recalc-settled base b, recalc-settled new n, own)
      (eq_of_same_way _ _ (
        merged_bit_of_test base.option_flags new.enable_option_flags new.disable_option_flags o
          (passes_three_sound merged_test 8 base.option_flags new.enable_option_flags
            new.disable_option_flags merged_table (flags_small base b) n.enabled n.disabled)
          one))
