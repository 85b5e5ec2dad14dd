-- ===== src/Examples/MemTable.antt =====
-- storage-node/src/lsm/memtable.rs at concrete inputs.
use mathlib.Core.List.{Perm}
use mathlib.Core.List.Perm
use wow_db.Prelude.{refl, false, List, [], ◌∷◌, arith}
use wow_db.Lsm.MemTable.{SortKey, Entry, SkipMap, new_set}
use wow_db.Lsm.MemTable.Rotation.{Call, inserts, freezes, pops, written, run, rows, rows-run}

-- The newest entry first: the theorems do not use the order.
abbrev skip_list : SkipMap
skip_list = record {
  Map = List Entry;
  new_map = [];
  insert_map = λ k r m. (k, r) ∷ m;
  iter = λ m. m;
  iter-new_map = refl;
  iter-insert_map = λ k r m fresh. Perm.refl ((k, r) ∷ m);
  All-insert_map = λ P k r m h all. (h, all);
}

abbrev key : SortKey
key = record { values = record { column = "c"; encoded = 1 ∷ [] } ∷ [] }

-- Two threads insert, one freezes, a flush takes the table.
abbrev calls : List Call
calls = inserts key [] 1 ∷ inserts key [] 2 ∷ freezes false ∷ inserts key [] 3 ∷ pops ∷ []

rows-run_example :
    Perm (rows skip_list (run skip_list calls (new_set skip_list 100, []))) (written 0 calls)
rows-run_example = rows-run skip_list 100 calls (omega arith)
