-- ===== src/Util.antt =====
-- Finding and calling Parrot's subs (src/parrot_util.c). Parrot's own functions are the fields of `Vm`;
-- its PMCs are handed on, and which of them are registered with its collector is in no model state.
pub mod Backtrace
use mod_parrot.Base.{ℕ, Bool, Option, none, some, List, [], ◌∷◌, if◌then◌else◌}
use mod_parrot.Base.Int.{ℤ, pos}
use mod_parrot.CStr.{CStr, lit, str_eq}
use mod_parrot.Run.{M, pure, fault, deref, ◌>>=◌, ◌>>◌}
use mod_parrot.Context.{Interp}
use mod_parrot.Module.{Pmc}
use mod_parrot.World.{World, Parrot}

-- An argument of a call, by the letters `P` and `S` of the signature.
pub data Arg : Type 0 where
  pmc_arg : Option Pmc → Arg
  string_arg : CStr → Arg

pub record Vm : Type 0 where
  pub parrot_new : Option Interp → M World (Option Interp)
  pub load_bytecode : Interp → CStr → M World (Unit {0})
  -- `Parrot_find_global_s`, `_cur`, `_k` (by the parts of a namespace) and `_n` (in a namespace).
  pub find_global_s : Interp → CStr → CStr → M World (Option Pmc)
  pub find_global_cur : Interp → CStr → M World (Option Pmc)
  pub find_global_k : Interp → List CStr → CStr → M World (Option Pmc)
  pub find_global_n : Interp → Option Pmc → CStr → M World (Option Pmc)
  pub get_hll_id : Interp → CStr → M World ℤ
  pub get_hll_namespace : Interp → ℤ → M World (Option Pmc)
  pub get_namespace_keyed : Interp → Option Pmc → List CStr → M World (Option Pmc)
  -- `Parrot_call_sub` for its effect, and for a PMC, and `Parrot_call_sub_ret_int`.
  pub call_sub : Interp → Option Pmc → List Arg → M World (Unit {0})
  pub call_sub_ret_pmc : Interp → Option Pmc → List Arg → M World Pmc
  pub call_sub_ret_int : Interp → Option Pmc → List Arg → M World ℤ
  -- The class of a name, and an object of it: made from a pointer under a key, or from nothing.
  pub get_class : Interp → List CStr → M World (Option Pmc)
  pub instantiate : Interp → Option Pmc → Option (CStr × ℕ) → M World Pmc
  pub set_trace : Interp → ℤ → M World (Unit {0})
  -- The global `__module_path`, and an array of strings and `PMCNULL`s.
  pub store_module_path : Interp → CStr → M World (Unit {0})
  pub string_array : Interp → List (Option CStr) → M World Pmc

-- A node of Parrot's `exit_handler_list`.
pub record HandlerNode : Type 0 where
  pub function : ℕ
  pub arg : ℕ

abbrev pub hll_namespace_of : CStr → List CStr
hll_namespace_of hll = lit "ModParrot" ∷ lit "HLL" ∷ hll ∷ []

module _ (vm : Vm) where
  -- Without a namespace `sub` was never set.
  unfoldable pub get_sub_pmc_s : Interp → Option CStr → CStr → M World (Option Pmc)
  get_sub_pmc_s interp (some namespace) name = vm.find_global_s interp namespace name
  get_sub_pmc_s interp none name = vm.find_global_cur interp name >> (λ w. fault)

  unfoldable pub get_sub_pmc_k : Interp → CStr → CStr → M World (Option Pmc)
  get_sub_pmc_k interp hll name = vm.find_global_k interp (hll_namespace_of hll) name

  unfoldable pub get_sub_pmc : Interp → Option CStr → CStr → M World (Option Pmc)
  unfolding get_sub_pmc_s get_sub_pmc_k
  get_sub_pmc interp namespace name = do
    found ← get_sub_pmc_s interp namespace name
    elim found [
      | some sub ↦ pure (some sub)
      | none ↦ (do hll ← deref namespace; get_sub_pmc_k interp hll name)
    ]

  abbrev pub modparrot_init_interpreter : Option Interp → M World (Option Interp)
  modparrot_init_interpreter parent = vm.parrot_new parent

  abbrev pub modparrot_load_bytecode : Interp → CStr → M World ℤ
  modparrot_load_bytecode interp path = vm.load_bytecode interp path >> pure (pos 1)

  -- `modparrot_call_sub`: 0 if there is no sub.
  unfoldable pub modparrot_call_sub : Interp → Option CStr → CStr → M World ℤ
  unfolding get_sub_pmc
  modparrot_call_sub interp namespace name = do
    sub ← get_sub_pmc interp namespace name
    elim sub [ none ↦ pure (pos 0) | some f ↦ (vm.call_sub interp (some f) [] >> pure (pos 1)) ]

  -- What the four functions share that call a sub for an integer: 1 with `*ret`, or 0.
  unfoldable pub call_for_int : Interp → Option CStr → CStr → List Arg → M World (ℤ × Option ℤ)
  unfolding get_sub_pmc
  call_for_int interp namespace name args = do
    sub ← get_sub_pmc interp namespace name
    elim sub [
      | none ↦ pure (pos 0, none)
      | some f ↦ (do ret ← vm.call_sub_ret_int interp (some f) args; pure (pos 1, some ret))
    ]

  abbrev pub modparrot_call_sub_iv : Interp → Option CStr → CStr → M World (ℤ × Option ℤ)
  modparrot_call_sub_iv interp namespace name = call_for_int interp namespace name []

  abbrev pub modparrot_call_sub_is : Interp → Option CStr → CStr → CStr → M World (ℤ × Option ℤ)
  modparrot_call_sub_is interp namespace name arg =
      call_for_int interp namespace name (string_arg arg ∷ [])

  abbrev pub modparrot_call_sub_ip :
      Interp → Option CStr → CStr → Option Pmc → M World (ℤ × Option ℤ)
  modparrot_call_sub_ip interp namespace name p =
      call_for_int interp namespace name (pmc_arg p ∷ [])

  abbrev pub modparrot_call_sub_ips :
      Interp → Option CStr → CStr → Option Pmc → CStr → M World (ℤ × Option ℤ)
  modparrot_call_sub_ips interp namespace name p arg =
      call_for_int interp namespace name (pmc_arg p ∷ string_arg arg ∷ [])

  -- `modparrot_get_meta_handler`.
  unfoldable pub modparrot_get_meta_handler : Interp → CStr → CStr → M World (Option Pmc)
  modparrot_get_meta_handler interp hll name =
      if str_eq hll (lit "PIR") then vm.find_global_k interp (hll_namespace_of hll) name else (do
        hllid ← vm.get_hll_id interp hll
        hllns ← vm.get_hll_namespace interp hllid
        namespace ← vm.get_namespace_keyed interp hllns (hll_namespace_of hll)
        vm.find_global_n interp namespace name)

  abbrev pub modparrot_call_meta_handler_sub : Interp → Option Pmc → Pmc → M World ℤ
  modparrot_call_meta_handler_sub interp sub ctx_pmc =
      vm.call_sub_ret_int interp sub (pmc_arg (some ctx_pmc) ∷ [])

  -- `modparrot_interp_cleanup`, the loop over the exit handlers, and `modparrot_destroy_interpreter`.
  -- How a handler runs is a parameter.
  unfoldable pub modparrot_interp_cleanup :
      (Interp → ℤ → HandlerNode → M World (Unit {0}))
      → Interp
      → ℤ
      → List HandlerNode
      → M World (Unit {0})
  modparrot_interp_cleanup run interp status [] = pure tt
  modparrot_interp_cleanup run interp status (node ∷ next) =
      run interp status node >> modparrot_interp_cleanup run interp status next

  abbrev pub modparrot_destroy_interpreter :
      (Interp → ℤ → HandlerNode → M World (Unit {0}))
      → Interp
      → List HandlerNode
      → M World (Unit {0})
  modparrot_destroy_interpreter run interp nodes = modparrot_interp_cleanup run interp (pos 0) nodes

  -- `modparrot_wrap_apache_type`, with the parts of the name of the class. Without a key or a pointer
  -- the PMC that is unregistered at the end was never set.
  unfoldable pub modparrot_wrap_apache_type :
      Interp → List CStr → Option CStr → Option ℕ → M World Pmc
  modparrot_wrap_apache_type interp classname (some key) (some val) = do
    class_pmc ← vm.get_class interp classname
    vm.instantiate interp class_pmc (some (key, val))
  modparrot_wrap_apache_type interp classname none val = do
    class_pmc ← vm.get_class interp classname
    vm.instantiate interp class_pmc none
    λ w. fault
  modparrot_wrap_apache_type interp classname (some key) none = do
    class_pmc ← vm.get_class interp classname
    vm.instantiate interp class_pmc none
    λ w. fault

  abbrev pub modparrot_wrap_cmd_parms : Interp → Option ℕ → M World Pmc
  modparrot_wrap_cmd_parms interp cmd =
      modparrot_wrap_apache_type interp (lit "ModParrot" ∷ lit "Apache" ∷ lit "CmdParms" ∷ [])
        (some (lit "cmd_parms")) cmd

-- The rest of src/ runs on these functions. `cmd_parms` is the address of the one `cmd_parms` that a
-- directive wraps.
abbrev pub parrot_of : Vm → ℕ → Parrot
parrot_of vm cmd_parms = record {
  new_interp = modparrot_init_interpreter vm;
  load_bytecode = vm.load_bytecode;
  set_trace = vm.set_trace;
  set_module_path = vm.store_module_path;
  call_sub = λ i namespace name. modparrot_call_sub vm i (some namespace) name >> pure tt;
  call_sub_string =
      λ i namespace name arg. modparrot_call_sub_is vm i (some namespace) name arg >> pure tt;
  find_meta_handler = modparrot_get_meta_handler vm;
  context_object = λ i. (do
    class_pmc ← vm.get_class i (lit "ModParrot" ∷ lit "Context" ∷ [])
    vm.instantiate i class_pmc none);
  call_meta_handler = modparrot_call_meta_handler_sub vm;
  wrap_cmd_parms = λ i. modparrot_wrap_cmd_parms vm i (some cmd_parms);
  call_create = λ i sub parms. vm.call_sub_ret_pmc i (some sub) (pmc_arg (some parms) ∷ []);
  call_merge = λ i sub base new. vm.call_sub_ret_pmc i (some sub) (pmc_arg base ∷ pmc_arg new ∷ []);
  call_command = λ i func parms cfg args. (do
    arg_array ← vm.string_array i args
    vm.call_sub_ret_int i (some func)
        (pmc_arg (some parms) ∷ pmc_arg cfg ∷ pmc_arg (some arg_array) ∷ []));
  call_cleanup =
      λ i callback hll_data. vm.call_sub_ret_int i (some callback) (pmc_arg (some hll_data) ∷ []);
}
