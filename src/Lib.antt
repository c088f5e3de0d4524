-- ===== src/Lib.antt =====
-- mod_parrot embeds the Parrot virtual machine in the Apache web server. This library models the C
-- part of the module: how it keeps interpreters in pools of contexts, how it is configured, how it
-- lets HLL code add Apache modules, and how its handlers find the context and the module they run
-- for.
--
-- Parts and files:
-- - Base, Run: shared names, lists and integers over the native numbers, and the state monad with
--   `fault` (what C leaves undefined: NULL, out of bounds, a mutex that is not there) and `exits`.
-- - CStr, Hash: C strings and the tables of APR that are keyed by them.
-- - Context (src/context.c, include/mod_parrot.h): contexts, their pools, names and bindings.
--   Context.Ops has one function for each function of the file, by the same name; its loops are
--   recursion on lists and on the size of a new pool. Pointers are numbers and NULL is `none`.
--   Context.Slots has the storage of a pool: its array is made for elements of the size of a context
--   (18 pointers on a machine of 64 bits) and read as an array of pointers, so the pools are lists of
--   what was pushed, and `reserve_ctx` reads the slots that `storage` makes of them.
-- - Config (src/modparrot_config.c, include/modparrot_config.h): the configuration of a server, its
--   options and the merge. `int` masks are native numbers, `~` is taken on 32 bits.
-- - Module (src/module.c): the modules that HLL code adds. Module.Add has `modparrot_add_module`,
--   Module.Configs the configurations of a module and their merges, Module.Directives the directives,
--   Module.Hooks `register_meta_hooks` and the macro `NEXT_HANDLER_MODULE` of src/mod_parrot.c.
-- - World: the state all parts share (`mp_globals`, the configurations, the contexts, what was
--   registered with Apache), and Parrot as a record of calls, each of which may change that whole
--   state, because the code it runs may call back.
-- - Startup (src/mod_parrot.c): interpreters are started, contexts found, bound and moved between
--   pools: `modparrot_init`, `select_ctx_pool`, `init_ctx`, `clone_ctx_state`, `modparrot_startup`.
-- - Files, Handlers, OpenLogs (src/mod_parrot.c): the files to load, and the handlers that Apache
--   calls. The virtual hosts are a list. The meta handlers of all request phases are one macro,
--   `MP_REQUEST_METAHANDLER`, and one function here, `request_metahandler`.
-- - Commands (src/modparrot_config.c): the directives `modparrot_cmd_*`.
-- - Globals (src/mod_parrot.c, src/modparrot_config.c): `modparrot_init_globals`, `register_hooks` and
--   `modparrot_cleanup`, whose store of NULL into a module of Apache is a parameter.
-- - Nci (src/nci.c): the functions that HLL code calls, by the same names.
-- - Util (src/parrot_util.c): subs are found and called, over a record `Vm` of Parrot's own functions;
--   `parrot_of` makes the calls that the other parts use out of them. Util.Backtrace has the text of
--   a backtrace.
-- - Request (src/modparrot_io.c): a request's body is read, over Apache's filters,
--   `apr_brigade_flatten`, and what the sentinel of an empty brigade passes for, as parameters.
-- - Tests: concrete inputs.
--
-- How they interact: a handler asks `init_ctx` for the context that is bound to Apache's pool. If
-- there is none, `init_ctx` reserves one from a context pool, starts its interpreter if need be, and
-- binds it. A meta handler then asks `NEXT_HANDLER_MODULE` for the module it runs for and moves to
-- a context of that module's pool. HLL code adds modules through `mpnci_add_apache_module`; Apache then
-- calls `register_meta_hooks` for each, and the directives of a module start a context as well.
-- Threads meet only in `reserve_ctx`, which scans under a mutex, and in `release_ctx`, which is a
-- single store; Context.Threads takes each call as one step.
--
-- All loops run over finite lists, but for the loop of `modparrot_request_read`, which has fuel: where
-- the filters deliver, one round reads at least one byte unless it is the last, so `len` rounds are
-- enough; where they fail, the loop may never end. Sizes there wrap around at 64 bits.
--
-- Not modelled: how long memory lives; logging and tracing; Parrot and Apache themselves; the
-- registry that keeps PMCs alive; the functions of src/nci.c that hand on a constant or a message; the
-- PMCs that describe a module, of which the model has what is read out of them; and the build.
pub mod Base
pub mod CStr
pub mod Commands
pub mod Config
pub mod Context
pub mod Files
pub mod Globals
pub mod Handlers
pub mod Hash
pub mod Module
pub mod Nci
pub mod OpenLogs
pub mod Request
pub mod Run
pub mod Startup
pub mod Tests
pub mod Util
pub mod World
