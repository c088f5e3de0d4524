-- ===== src/Nci/Cleanup.antt =====
-- Which module a pool cleanup is registered for (src/nci.c, `mpnci_register_pool_cleanup`), and how a
-- cleanup runs (src/mod_parrot.c, `modparrot_meta_cleanup_handler`).
use mod_parrot.Module.{Module}
use mod_parrot.World.{World}
