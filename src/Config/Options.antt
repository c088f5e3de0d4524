-- ===== src/Config/Options.antt =====
-- `ParrotOptions`: what any sequence of options makes of the option flags.
use Prim.Native.Nat.{bit_or}
use mod_parrot.Base.{
  ℕ, ◌<◌, ◌≡◌, refl, ap, ◌∙◌, Bool, true, false, not, ◌&&◌, ◌||◌, Option, none, some, List, [], ◌∷◌,
  ◌==◌, ==_iff, ltb, arith, if◌then◌else◌, Option-cases, inl, inr,
}
use mod_parrot.Base.Bits.{passes_two, passes_two_sound, passes_three, passes_three_sound}
use mathlib.Core.Path.{ap₂}
use mod_parrot.CStr.{CStr}
use mod_parrot.Context.{AprPool}
use mod_parrot.Config.{
  SrvConfig, opt_enable, opt_parent, opt_trace_init, and_not, is_set, create_modparrot_srv_config,
  modparrot_recalc_options, option_bit, set_flag, modparrot_set_option,
}

-- Only the three options' bits are in use, and the flags are those that the default and the
-- enabled options give, less every disabled one.
pub record IsSettled (cfg : SrvConfig) : Type 0 where
  pub enabled : cfg.enable_option_flags < 8
  pub disabled : cfg.disable_option_flags < 8
  pub flags :
      cfg.option_flags
      ≡ and_not (bit_or opt_enable cfg.enable_option_flags) cfg.disable_option_flags

option_bit-small : (option : CStr) (bit : ℕ) → option_bit option ≡ some bit → bit < 8
unfolding option_bit
option_bit-small option bit e = ground arith

or_small_table : passes_two (λ a b. ltb (bit_or a b) 8) 8 ≡ true
unfolding passes_two
or_small_table = refl

or_small : (a b : ℕ) → a < 8 → b < 8 → bit_or a b < 8
or_small a b ha hb = ground (arith, passes_two_sound _ 8 a b or_small_table ha hb)

-- The new flags come to the same when they are computed from the old flags.
enable_test : ℕ → ℕ → ℕ → Bool
unfolding and_not
enable_test e d bit =
    and_not (bit_or (and_not (bit_or 1 e) d) (bit_or e bit)) d
    == and_not (bit_or 1 (bit_or e bit)) d

enable_table : passes_three enable_test 8 ≡ true
unfolding passes_three enable_test
enable_table = refl

disable_test : ℕ → ℕ → ℕ → Bool
unfolding and_not
disable_test e d bit =
    and_not (bit_or (and_not (bit_or 1 e) d) e) (bit_or d bit)
    == and_not (bit_or 1 e) (bit_or d bit)

disable_table : passes_three disable_test 8 ≡ true
unfolding passes_three disable_test
disable_table = refl

recalc-IsSettled :
    (cfg : SrvConfig) (enable : Bool) (bit : ℕ)
    → bit < 8
    → IsSettled cfg
    → IsSettled (modparrot_recalc_options (set_flag cfg enable bit))
unfolding modparrot_recalc_options enable_test disable_test
recalc-IsSettled cfg true bit small s = record {
  enabled = or_small cfg.enable_option_flags bit s.enabled small;
  disabled = s.disabled;
  flags = rw s.flags (
      (==_iff _ _).0 (
        passes_three_sound enable_test 8 cfg.enable_option_flags cfg.disable_option_flags bit
          enable_table s.enabled s.disabled small));
}
recalc-IsSettled cfg false bit small s = record {
  enabled = s.enabled;
  disabled = or_small cfg.disable_option_flags bit s.disabled small;
  flags = rw s.flags (
      (==_iff _ _).0 (
        passes_three_sound disable_test 8 cfg.enable_option_flags cfg.disable_option_flags bit
          disable_table s.enabled s.disabled small));
}

set_option-IsSettled :
    (cfg : SrvConfig) (option : CStr) (enable : Bool)
    → IsSettled cfg
    → IsSettled (modparrot_set_option cfg option enable).0
unfolding modparrot_set_option
set_option-IsSettled cfg option enable s = elim (Option-cases (option_bit option)) [
  | inl unknown ↦ rw (unknown, modparrot_set_option) s
  | inr (bit, e) ↦
      rw (e, modparrot_set_option)
        (recalc-IsSettled cfg enable bit (option_bit-small option bit e) s)
]

-- A sequence of options, each to be enabled or disabled.
unfoldable pub set_options : SrvConfig → List (CStr × Bool) → SrvConfig
set_options cfg [] = cfg
set_options cfg ((option, enable) ∷ os) = set_options (modparrot_set_option cfg option enable).0 os

abbrev names_bit : Option ℕ → ℕ → Bool
names_bit none bit = false
names_bit (some b) bit = b == bit

abbrev pub same_way : Bool → Bool → Bool
same_way true b = b
same_way false b = not b

-- Whether some option of the sequence enables (or disables) the bit.
unfoldable pub asks : Bool → ℕ → List (CStr × Bool) → Bool
asks way bit [] = false
asks way bit ((option, enable) ∷ os) =
    (same_way way enable && names_bit (option_bit option) bit) || asks way bit os

set_options-IsSettled :
    (cfg : SrvConfig) (os : List (CStr × Bool)) → IsSettled cfg → IsSettled (set_options cfg os)
unfolding set_options
set_options-IsSettled cfg [] s = s
set_options-IsSettled cfg ((option, enable) ∷ os) s =
    set_options-IsSettled (modparrot_set_option cfg option enable).0 os
      (set_option-IsSettled cfg option enable s)

abbrev pub is_option : ℕ → Bool
is_option o = (o == opt_enable) || ((o == opt_parent) || (o == opt_trace_init))

option_bit-is_option :
    (option : CStr) (bit : ℕ) → option_bit option ≡ some bit → is_option bit ≡ true
unfolding option_bit
option_bit-is_option option bit e = ground arith

abbrev holds_if : Bool → Bool → Bool → Bool
holds_if false a b = true
holds_if true a b = same_way a b

eq_of_holds_if : (c a b : Bool) → holds_if c a b ≡ true → c ≡ true → a ≡ b
eq_of_holds_if c a b h e = ground arith

or_test : ℕ → ℕ → ℕ → Bool
unfolding is_set
or_test e b o =
    holds_if (is_option b && is_option o) (is_set (bit_or e b) o) (is_set e o || (b == o))

or_table : passes_three or_test 8 ≡ true
unfolding passes_three or_test
or_table = refl

is_option-small : (o : ℕ) → is_option o ≡ true → o < 8
is_option-small o h = ground arith

is_set-or :
    (e b o : ℕ)
    → e < 8
    → is_option b ≡ true
    → is_option o ≡ true
    → is_set (bit_or e b) o ≡ (is_set e o || (b == o))
unfolding or_test
is_set-or e b o small one other =
    eq_of_holds_if (is_option b && is_option o) _ _
      (passes_three_sound or_test 8 e b o or_table small (is_option-small b one)
        (is_option-small o other))
      (ground arith)

flags_test : ℕ → ℕ → ℕ → Bool
unfolding is_set and_not
flags_test e d o =
    holds_if (is_option o) (is_set (and_not (bit_or opt_enable e) d) o)
      (((o == opt_enable) || is_set e o) && not (is_set d o))

flags_table : passes_three flags_test 8 ≡ true
unfolding passes_three flags_test
flags_table = refl

is_set-flags :
    (cfg : SrvConfig) (o : ℕ)
    → IsSettled cfg
    → is_option o ≡ true
    → is_set cfg.option_flags o ≡ (
        ((o == opt_enable) || is_set cfg.enable_option_flags o)
        && not (is_set cfg.disable_option_flags o))
unfolding flags_test
is_set-flags cfg o s one = rw s.flags (
    eq_of_holds_if (is_option o) _ _
      (passes_three_sound flags_test 8 cfg.enable_option_flags cfg.disable_option_flags o
        flags_table s.enabled s.disabled (is_option-small o one))
      one)

-- Which of the two masks a way is about.
abbrev mask : Bool → SrvConfig → ℕ
mask true cfg = cfg.enable_option_flags
mask false cfg = cfg.disable_option_flags

mask-small : (way : Bool) (cfg : SrvConfig) → IsSettled cfg → mask way cfg < 8
mask-small true cfg s = s.enabled
mask-small false cfg s = s.disabled

mask-set_flag :
    (way enable : Bool) (cfg : SrvConfig) (bit : ℕ)
    → mask way (modparrot_recalc_options (set_flag cfg enable bit))
      ≡ (if same_way way enable then bit_or (mask way cfg) bit else mask way cfg)
unfolding modparrot_recalc_options
mask-set_flag true true cfg bit = refl
mask-set_flag true false cfg bit = refl
mask-set_flag false true cfg bit = refl
mask-set_flag false false cfg bit = refl

mask-set_option :
    (way enable : Bool) (cfg : SrvConfig) (option : CStr) (o : ℕ)
    → IsSettled cfg
    → is_option o ≡ true
    → is_set (mask way (modparrot_set_option cfg option enable).0) o
      ≡ (is_set (mask way cfg) o || (same_way way enable && names_bit (option_bit option) o))
unfolding modparrot_set_option
mask-set_option way enable cfg option o s one = elim (Option-cases (option_bit option)) [
  | inl unknown ↦ ground arith
  | inr (bit, e) ↦
      let small = mask-small way cfg s in
      let known = option_bit-is_option option bit e in
      let step = is_set-or (mask way cfg) bit o small known one in
      ground (arith, mask-set_flag way enable cfg bit)
]

or_and_assoc : (a b c : Bool) → ((a || b) || c) ≡ (a || (b || c))
or_and_assoc a b c = ground arith

mask-set_options :
    (way : Bool) (cfg : SrvConfig) (os : List (CStr × Bool)) (o : ℕ)
    → IsSettled cfg
    → is_option o ≡ true
    → is_set (mask way (set_options cfg os)) o ≡ (is_set (mask way cfg) o || asks way o os)
unfolding set_options asks
mask-set_options way cfg [] o s one = ground arith
mask-set_options way cfg ((option, enable) ∷ os) o s one =
    let next = (modparrot_set_option cfg option enable).0 in
    mask-set_options way next os o (set_option-IsSettled cfg option enable s) one
    ∙ ap (λ b. b || asks way o os) (mask-set_option way enable cfg option o s one)
    ∙ or_and_assoc (is_set (mask way cfg) o) _ (asks way o os)

-- After any sequence of `ParrotOptions` on a configuration whose flags are settled, in any order and
-- with unknown names among them, an option is on exactly if it was enabled before, is the default
-- `Enable` or is enabled by some directive of the sequence, and neither was disabled before nor is
-- disabled by any of them. So a later `+Option` does not undo an earlier `-Option`.
pub set_options-flags :
    (cfg : SrvConfig) (os : List (CStr × Bool)) (o : ℕ)
    → IsSettled cfg
    → is_option o ≡ true
    → is_set (set_options cfg os).option_flags o ≡ (
        ((o == opt_enable) || (is_set cfg.enable_option_flags o || asks true o os))
        && not (is_set cfg.disable_option_flags o || asks false o os))
set_options-flags cfg os o s one =
    let end = set_options cfg os in
    is_set-flags end o (set_options-IsSettled cfg os s) one
    ∙ ap₂ (λ a b. ((o == opt_enable) || a) && not b) (mask-set_options true cfg os o s one)
        (mask-set_options false cfg os o s one)

pub create-IsSettled :
    (origin : Option CStr) (p : AprPool) (is_virtual : Bool)
    → IsSettled (create_modparrot_srv_config origin p is_virtual).0
unfolding create_modparrot_srv_config and_not
create-IsSettled origin p is_virtual = record {
  enabled = omega arith;
  disabled = omega arith;
  flags = refl;
}

-- The cleanup of a server is registered for every server, virtual or not: the test of the source
-- joins the option bits by `|` where it means `&`.
pub create_registers_cleanup :
    (origin : Option CStr) (p : AprPool) (is_virtual : Bool)
    → (create_modparrot_srv_config origin p is_virtual).1 ≡ true
unfolding create_modparrot_srv_config
create_registers_cleanup origin p true = refl
create_registers_cleanup origin p false = refl
