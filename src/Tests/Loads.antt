-- ===== src/Tests/Loads.antt =====
-- Files to load.
use mod_parrot.Base.{◌≡◌, refl, true, false}
use mod_parrot.CStr.{CStr, lit}
use mod_parrot.Files.{is_parrot_file}

hello-is_parrot_file : is_parrot_file (lit "hello.pir") ≡ true
unfolding is_parrot_file
hello-is_parrot_file = refl

-- The dot of a directory starts no extension.
readme-is_parrot_file : is_parrot_file (lit "v1.pir/README") ≡ false
unfolding is_parrot_file
readme-is_parrot_file = refl
