-- ===== src/Nci/Fields.antt =====
-- The NCI functions that hand on one field (src/nci.c).
use mod_parrot.Base.{ℕ, Option, none, some}
use mod_parrot.Run.{M, pure, ◌>>=◌}
use mod_parrot.Context.{AprPool, Interp, Server, Ctx, ConfigPtr}
use mod_parrot.Context.Ops.{load, get_interp_ctx}
use mod_parrot.Module.{Command}
use mod_parrot.Module.Directives.{CmdParms}
use mod_parrot.World.{World, with_store}
use mod_parrot.Handlers.{RequestRec}

-- A field of the context of the interpreter, `NULL` if there is no context.
unfoldable pub ctx_field : {A : Type 0} → (Ctx → Option A) → Interp → M World (Option A)
unfolding load with_store
ctx_field field interp = do
  ctxp ← with_store (get_interp_ctx interp)
  elim ctxp [ none ↦ pure none | some c ↦ (do x ← with_store (load c); pure (field x)) ]

abbrev pub mpnci_request_rec : Interp → M World (Option ℕ)
mpnci_request_rec = ctx_field (λ x. x.r)

abbrev pub mpnci_conf_pool : Interp → M World (Option AprPool)
mpnci_conf_pool = ctx_field (λ x. x.pconf)

abbrev pub mpnci_temp_pool : Interp → M World (Option AprPool)
mpnci_temp_pool = ctx_field (λ x. x.ptemp)

abbrev pub mpnci_log_pool : Interp → M World (Option AprPool)
mpnci_log_pool = ctx_field (λ x. x.plog)

abbrev pub mpnci_child_pool : Interp → M World (Option AprPool)
mpnci_child_pool = ctx_field (λ x. x.pchild)

abbrev pub mpnci_server_rec : Interp → M World (Option Server)
mpnci_server_rec = ctx_field (λ x. x.s)

abbrev pub mpnci_conn_rec : Interp → M World (Option ℕ)
mpnci_conn_rec = ctx_field (λ x. x.c)

abbrev pub mpnci_csd : Interp → M World (Option ℕ)
mpnci_csd = ctx_field (λ x. x.csd)

abbrev pub mpnci_raw_srv_config : Interp → M World (Option ConfigPtr)
mpnci_raw_srv_config = ctx_field (λ x. x.raw_srv_config)

abbrev pub mpnci_raw_dir_config : Interp → M World (Option ConfigPtr)
mpnci_raw_dir_config = ctx_field (λ x. x.raw_dir_config)

-- The fields of a `request_rec` and of a `cmd_parms` that is given.
abbrev pub mpnci_request_rec_per_dir_config : RequestRec → Option ℕ
mpnci_request_rec_per_dir_config r = r.per_dir_config

abbrev pub mpnci_request_rec_server : RequestRec → Server
mpnci_request_rec_server r = r.server

abbrev pub mpnci_request_rec_main : RequestRec → Option ℕ
mpnci_request_rec_main r = r.main

abbrev pub mpnci_request_rec_next : RequestRec → Option ℕ
mpnci_request_rec_next r = r.next

abbrev pub mpnci_request_rec_prev : RequestRec → Option ℕ
mpnci_request_rec_prev r = r.prev

abbrev pub mpnci_request_rec_notes : RequestRec → ℕ
mpnci_request_rec_notes r = r.notes

abbrev pub mpnci_request_rec_headers_in : RequestRec → ℕ
mpnci_request_rec_headers_in r = r.headers_in

abbrev pub mpnci_request_rec_headers_out : RequestRec → ℕ
mpnci_request_rec_headers_out r = r.headers_out

abbrev pub mpnci_request_rec_err_headers_out : RequestRec → ℕ
mpnci_request_rec_err_headers_out r = r.err_headers_out

abbrev pub mpnci_request_rec_pool : RequestRec → AprPool
mpnci_request_rec_pool r = r.pool

abbrev pub mpnci_cmd_parms_server : CmdParms → Server
mpnci_cmd_parms_server cmd = cmd.server

abbrev pub mpnci_cmd_parms_pool : CmdParms → AprPool
mpnci_cmd_parms_pool cmd = cmd.pool

abbrev pub mpnci_cmd_parms_temp_pool : CmdParms → AprPool
mpnci_cmd_parms_temp_pool cmd = cmd.temp_pool

abbrev pub mpnci_cmd_parms_cmd : CmdParms → Command
mpnci_cmd_parms_cmd cmd = cmd.cmd
