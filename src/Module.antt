-- ===== src/Module.antt =====
-- The Apache modules that HLL code adds (src/module.c), and their configurations.
pub mod Hooks
pub mod Add
pub mod Directives
pub mod Configs
use mod_parrot.Base.{ℕ, Bool, Option, List}
use mod_parrot.Base.Int.{ℤ}
use mod_parrot.CStr.{CStr}
use mod_parrot.Context.{CtxPool}

-- A Parrot PMC is handed on and never looked into.
abbrev pub Pmc : Type 0
Pmc = ℕ

-- A module is known by its place in `mp_globals.module_array`.
abbrev pub ModuleId : Type 0
ModuleId = ℕ

-- `enum modparrot_hooks`.
abbrev pub hook_open_logs : ℕ
hook_open_logs = 0

abbrev pub hook_post_config : ℕ
hook_post_config = 1

abbrev pub hook_child_init : ℕ
hook_child_init = 2

abbrev pub hook_pre_connection : ℕ
hook_pre_connection = 3

abbrev pub hook_process_connection : ℕ
hook_process_connection = 4

abbrev pub hook_post_read_request : ℕ
hook_post_read_request = 5

abbrev pub hook_map_to_storage : ℕ
hook_map_to_storage = 6

abbrev pub hook_trans : ℕ
hook_trans = 7

abbrev pub hook_input_filter : ℕ
hook_input_filter = 8

abbrev pub hook_header_parser : ℕ
hook_header_parser = 9

abbrev pub hook_access : ℕ
hook_access = 10

abbrev pub hook_authen : ℕ
hook_authen = 11

abbrev pub hook_authz : ℕ
hook_authz = 12

abbrev pub hook_response : ℕ
hook_response = 13

abbrev pub hook_output_filter : ℕ
hook_output_filter = 14

abbrev pub hook_type : ℕ
hook_type = 15

abbrev pub hook_fixup : ℕ
hook_fixup = 16

abbrev pub hook_log : ℕ
hook_log = 17

abbrev pub hook_last : ℕ
hook_last = 18

abbrev pub hook_all : ℕ
hook_all = 19

-- `struct modparrot_module_info`. The array `hooks` has `hook_last` places.
pub record ModuleInfo : Type 0 where
  pub ctx_pool_name : Option CStr
  pub ctx_pool : Option CtxPool
  pub server_create_sub : Option Pmc
  pub server_merge_sub : Option Pmc
  pub dir_create_sub : Option Pmc
  pub dir_merge_sub : Option Pmc
  pub namespace : CStr
  pub hooks : ℕ → Bool

-- `PMCNULL`, which is not `NULL`.
abbrev pub pmcnull : Pmc
pmcnull = 0

-- `enum cmd_how` of Apache, as far as directives of added modules use it.
pub data ArgsHow : Type 0 where
  take1 take2 take12 take3 take23 take123 iterate iterate2 flag no_args raw_args : ArgsHow
  other_how : ArgsHow

-- The function that a directive of an added module calls, `NULL` for an unknown `args_how`.
pub data CmdFunc : Type 0 where
  cmd_take1 cmd_take2 cmd_take123 cmd_no_args cmd_flag : CmdFunc

-- `command_rec`, with the `struct modparrot_module_cmd_data` behind `cmd_data`, whose `modp` is the
-- module that has the command.
pub record Command : Type 0 where
  pub name : CStr
  pub args_how : ArgsHow
  pub call : Option CmdFunc
  pub req_override : ℤ
  pub errmsg : CStr
  pub func : Pmc
  pub cmd_data : Pmc

-- What mod_parrot sets in an Apache `module`: its name, the information behind
-- `dynamic_load_handle`, its commands, and which of the four configuration callbacks are there.
pub record Module : Type 0 where
  pub name : CStr
  pub info : ModuleInfo
  pub cmds : List Command
  pub creates_server_config : Bool
  pub merges_server_config : Bool
  pub creates_dir_config : Bool
  pub merges_dir_config : Bool

-- `struct modparrot_module_config`.
pub record ModConfig : Type 0 where
  pub name : Option CStr
  pub minfo : Option ModuleId
  pub ctx_pool_name : Option CStr
  pub ctx_pool : Option CtxPool
  pub cfg : Option Pmc
