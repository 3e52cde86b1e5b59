-- ===== src/Store/Examples.antt =====
-- Runs of src/store.rs as its supervisor writes them, and instances of the theorems.
use wyd.Common.{List, ℕ, ◌+◌, ◌≡◌, refl, [], ◌∷◌, arith, find?}
use wyd.Run.{Bytes, RunSpec, new, fingerprint}
use wyd.Store.{Store, Row, new_row, created, run_insert, recent}
use wyd.Store.Calls.{Call, inserts, leads, prunes, calls}
use wyd.Store.Insert.{Repeats, run_insert-Repeats}

abbrev empty : Store
empty = record { runs = []; events = []; next_id = 1 }

abbrev spec : RunSpec
unfolding new
spec = new (114 ∷ []) ((97 ∷ []) ∷ []) (47 ∷ 119 ∷ [])

-- A hash that adds the bytes up.
abbrev digest : Bytes → ℕ
digest [] = 0
digest (b ∷ bs) = b + digest bs

abbrev row : Row
row = new_row 1 (fingerprint digest spec) spec "me" 1000

abbrev one_run : Store
one_run = record { runs = row ∷ []; events = []; next_id = 2 }

inserted : run_insert digest empty spec "me" 1000 ≡ (one_run, created 1)
unfolding run_insert recent find?
inserted = refl

-- Another request comes between, the run gets a leader, and older runs are pruned.
abbrev between : List Call
between =
    inserts (record spec { request_id = 115 ∷ [] }) "me" 1500
    ∷ leads 1 (record { boot_id = 7; pid = 10; start_time = 1000 }) 1001
    ∷ prunes 900
    ∷ []

run_insert-Repeats_example :
    let u = calls digest between one_run in
    ((run_insert digest u spec "other" 2000).0 ≡ u)
    × Repeats digest spec spec 1 (run_insert digest u spec "other" 2000).1
run_insert-Repeats_example =
    run_insert-Repeats digest empty one_run spec spec "me" "other" 1000 2000 1 between tt inserted
      (omega arith, (tt, (omega arith, tt))) refl (omega arith)
