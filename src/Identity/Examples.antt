-- ===== src/Identity/Examples.antt =====
-- Identities of src/model/process.rs, and instances of the theorems about their ids.
use wyd.Common.{[], ◌∷◌, arith}
use wyd.Run.{Bytes}
use wyd.Identity.{ProcessIdentity}
use wyd.Identity.Ids.{Fits}

abbrev shell : ProcessIdentity
shell = record { boot_id = 7; pid = 100; start_time = 5000 }

abbrev reused : ProcessIdentity
reused = record { boot_id = 7; pid = 100; start_time = 6000 }

abbrev agent : Bytes
agent = 111 ∷ 109 ∷ 112 ∷ []

shell-Fits : Fits shell
shell-Fits = (omega arith, omega arith, omega arith)

reused-Fits : Fits reused
reused-Fits = (omega arith, omega arith, omega arith)
