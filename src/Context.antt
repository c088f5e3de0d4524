-- ===== src/Context.antt =====
-- The context pools of src/context.c: the contexts, the pools that hold them, the pools' names, the
-- contexts bound to APR pools and to interpreters.
pub mod Slots
pub mod Ops
pub mod Reserve
pub mod Capacity
pub mod Push
pub mod Init
pub mod Threads
pub mod Progress
pub mod Names
pub mod Destroy
use mod_parrot.Base.{ℕ, Bool, false, Option, none, some, List, [], ◌==◌, if◌then◌else◌}
use mod_parrot.Base.Int.{ℤ, pos, minus_one}
use mod_parrot.CStr.{CStr}
use mod_parrot.Hash.{Hash}

-- Pointers that are compared and handed on, never looked into, are numbers.
abbrev pub CtxId : Type 0
CtxId = ℕ

abbrev pub CtxPool : Type 0
CtxPool = ℕ

abbrev pub AprPool : Type 0
AprPool = ℕ

abbrev pub Interp : Type 0
Interp = ℕ

abbrev pub Server : Type 0
Server = ℕ

-- A pointer to a `struct modparrot_module_config`: that of a server or of a directory section, for a
-- module.
pub data ConfigPtr : Type 0 where
  server_config dir_config : ℕ → ℕ → ConfigPtr

-- `struct modparrot_context`. `NULL` is `none`; `locked` is 0 or 1 in the source.
pub record Ctx : Type 0 where
  pub ctx_pool : Option CtxPool
  pub ctx_pool_name : Option CStr
  pub interp : Option Interp
  pub parent_interp : Option Interp
  pub count : ℕ
  pub locked : Bool
  pub r : Option ℕ
  pub pool : Option AprPool
  pub pconf : Option AprPool
  pub plog : Option AprPool
  pub ptemp : Option AprPool
  pub pchild : Option AprPool
  pub s : Option Server
  pub c : Option ℕ
  pub csd : Option ℕ
  pub raw_srv_config : Option ConfigPtr
  pub raw_dir_config : Option ConfigPtr
  pub module_index : ℤ

-- What `apr_pcalloc` returns.
abbrev pub zeroed_ctx : Ctx
zeroed_ctx = record {
  ctx_pool = none;
  ctx_pool_name = none;
  interp = none;
  parent_interp = none;
  count = 0;
  locked = false;
  r = none;
  pool = none;
  pconf = none;
  plog = none;
  ptemp = none;
  pchild = none;
  s = none;
  c = none;
  csd = none;
  raw_srv_config = none;
  raw_dir_config = none;
  module_index = pos 0;
}

-- `MP_CTX_ANY`.
abbrev pub ctx_any : ℤ
ctx_any = minus_one

-- The one `ctx_pool_mutex`: before its creation, after it, and after its destruction.
pub data Mutex : Type 0 where
  absent ready destroyed : Mutex

-- `MPM_IS_THREADED`, and whether `apr_thread_mutex_create` succeeds.
pub record Mpm : Type 0 where
  pub threaded : Bool
  pub creates_mutex : Bool

-- What the functions of src/context.c read and write. `pools` are the elements of an array, and
-- `stale` those that were popped off its end, which stay in its storage. Memory is never given back,
-- so the numbers from `next_ctx` and `next_pool` on are unused.
pub record Store : Type 0 where
  pub ctxs : CtxId → Option Ctx
  pub next_ctx : ℕ
  pub pools : CtxPool → Option (List CtxId)
  pub stale : CtxPool → List CtxId
  pub next_pool : ℕ
  pub mutex : Mutex
  pub ctx_pool_hash : Hash CtxPool
  pub userdata : AprPool → Option CtxId
  pub cleanups : AprPool → List CtxId
  pub interp_ctx : Interp → Option CtxId
  pub ended : List Interp

-- One value of a map that is a function.
abbrev pub update : {A : Type 0} → (ℕ → A) → ℕ → A → ℕ → A
update f p v q = if p == q then v else f q

abbrev pub empty_store : Store
empty_store = record {
  ctxs = λ c. none;
  next_ctx = 0;
  pools = λ p. none;
  stale = λ p. [];
  next_pool = 0;
  mutex = absent;
  ctx_pool_hash = [];
  userdata = λ p. none;
  cleanups = λ p. [];
  interp_ctx = λ i. none;
  ended = [];
}
