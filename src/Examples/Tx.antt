-- ===== src/Examples/Tx.antt =====
-- The two tables of transactions at concrete inputs.
use wow_db.Prelude.{◌≡◌, refl, false, some, [], ◌∷◌, lookup, Distinct, nat_eq, string_eq, ok}
use wow_db.Tx.Sn
use wow_db.Tx.Qn
use wow_db.Tx.Sn.Moves
use wow_db.Tx.Sn.States
use wow_db.Tx.Sn.States.{step-Moves, run-IsCommitted}
use wow_db.Tx.Qn.Protocol
use wow_db.Tx.Qn.Protocol.{prepare_commit-ok_iff, mark_committed-rollback}

-- A storage node's transaction 5, in the given state.
abbrev entry : Sn.SnTxState → Sn.SnTransaction
entry state = record {
  tx_id = 5;
  state = state;
  tablet_ids = "t" ∷ [];
  prepare_lsn = some 1;
  started_at = 0;
}

abbrev table : Sn.SnTxState → Sn.SnTransactionManager
table state = record { transactions = (5, entry state) ∷ []; timeout = 30 }

table-Distinct : (state : Sn.SnTxState) → Distinct (table state).transactions
unfolding lookup
table-Distinct state = (refl, tt)

step-Moves_example :
    Moves.Moves
      (table Sn.prepared).timeout
      5
      (Moves.commits 5)
      (lookup 5 (table Sn.prepared).transactions)
      (lookup 5 (States.step (Moves.commits 5) (table Sn.prepared)).transactions)
step-Moves_example = step-Moves (Moves.commits 5) (table Sn.prepared) 5 (table-Distinct Sn.prepared)

is_committed : States.IsCommitted 5 (table Sn.committed)
unfolding lookup
is_committed = (entry Sn.committed, refl, refl)

run-IsCommitted_example :
    States.IsCommitted 5
      (States.run (Moves.rolls_back 5 ∷ Moves.registers 9 5 ∷ []) (table Sn.committed))
run-IsCommitted_example =
    run-IsCommitted (Moves.rolls_back 5 ∷ Moves.registers 9 5 ∷ []) (table Sn.committed) 5
      (table-Distinct Sn.committed) (refl, (refl, tt)) is_committed

commits : (Sn.commit 5 (table Sn.prepared)).1 ≡ ok ("t" ∷ [])
unfolding Sn.commit lookup
commits = refl

rolls_back : (Sn.rollback 5 (table Sn.prepared)).1 ≡ ok ("t" ∷ [])
unfolding Sn.rollback lookup
rolls_back = refl

-- A coordinator's transaction whose only participant has not acknowledged.
abbrev begun : Qn.Transaction
begun = record {
  tx_id = "a";
  state = Qn.active;
  participants = record { node_id = "n"; endpoint = "e"; prepared = false } ∷ [];
  started_at = 0;
  cube_name = "c";
}

abbrev begun_table : Qn.TransactionManager
begun_table = record { transactions = ("a", begun) ∷ []; timeout = 30 }

-- The table after `begin` and `register_participant`.
abbrev registered_table : Qn.TransactionManager
registered_table =
    Protocol.step (Protocol.registers "a" "n" "e")
      (Protocol.step (Protocol.begins 0 "a" "c") (Qn.with_timeout 30))

found : lookup "a" begun_table.transactions ≡ some begun
unfolding lookup
found = refl
