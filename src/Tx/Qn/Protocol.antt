-- ===== src/Tx/Qn/Protocol.antt =====
-- query-node/src/transaction.rs: what the coordinator promises, and what it does not check.
use wow_db.Prelude.{
  ℕ, String, string_eq, ◌≡◌, ◌↔◌, ◌⊎◌, inl, inr, true, false, some, List, arith, lookup,
  lookup-insert_self, Option-cases, ok, AllValues,
}
use wow_db.Tx.Qn.{
  active, prepared, committed, rolled_back, TxParticipant, Transaction, TransactionManager,
  is_timed_out, put, begin, register_participant, all_prepared, receive_prepare_ack,
  prepare_commit_tx, prepare_commit, mark_committed, rollback, get_state, cleanup_timed_out,
}

-- A transaction that is marked prepared has the acknowledgement of every participant.
abbrev pub IsSound : Transaction → Type 0
IsSound tx = tx.state ≡ prepared → all_prepared tx.participants ≡ true

-- Every entry of the table is sound.
abbrev pub IsValid : TransactionManager → Type 0
IsValid m = AllValues IsSound m.transactions

-- The calls that change the table.
pub data Call : Type 0 where
  begins : ℕ → String → String → Call
  registers : String → String → String → Call
  acks : String → String → Call
  prepares_commit : ℕ → String → Call
  marks_committed : String → Call
  rolls_back : String → Call
  cleans_up : ℕ → Call

unfoldable pub step : Call → TransactionManager → TransactionManager
step (begins now new_id cube_name) m = (begin now new_id cube_name m).0
step (registers tx_id node_id endpoint) m = (register_participant tx_id node_id endpoint m).0
step (acks tx_id node_id) m = (receive_prepare_ack tx_id node_id m).0
step (prepares_commit now tx_id) m = (prepare_commit now tx_id m).0
step (marks_committed tx_id) m = (mark_committed tx_id m).0
step (rolls_back tx_id) m = (rollback tx_id m).0
step (cleans_up now) m = (cleanup_timed_out now m).0

-- `prepare_commit` hands out the participants exactly for a transaction that is active or prepared and
-- not late. That every participant has acknowledged is not among the conditions.
pub prepare_commit-ok_iff :
    (now : ℕ) (tx_id : String) (m : TransactionManager) (ps : List TxParticipant)
    → ((prepare_commit now tx_id m).1 ≡ ok ps) ↔ (
        (tx : Transaction) × (lookup tx_id m.transactions ≡ some tx)
        × ((tx.state ≡ active) ⊎ (tx.state ≡ prepared))
        × (is_timed_out now m.timeout tx ≡ false)
        × (tx.participants ≡ ps))
unfolding prepare_commit prepare_commit_tx
prepare_commit-ok_iff now tx_id m ps = (found, λ (tx, f, s, l, p). ground (arith, f, s, l, p))
  where
    found :
        (prepare_commit now tx_id m).1 ≡ ok ps
        → (tx : Transaction) × (lookup tx_id m.transactions ≡ some tx)
          × ((tx.state ≡ active) ⊎ (tx.state ≡ prepared))
          × (is_timed_out now m.timeout tx ≡ false)
          × (tx.participants ≡ ps)
    found h = elim (Option-cases (lookup tx_id m.transactions)) [
      | inl n ↦ absurd (ground (arith, n, h))
      | inr (tx, f) ↦ (tx, f, ground (arith, f, h), ground (arith, f, h), ground (arith, f, h))
    ]

-- The final states are not final: of a known transaction `mark_committed` makes a committed one after a
-- rollback, and `rollback` makes a rolled-back one after a commit.
pub mark_committed-rollback :
    (tx_id : String) (m : TransactionManager) (tx : Transaction)
    → lookup tx_id m.transactions ≡ some tx
    → (get_state tx_id (mark_committed tx_id (rollback tx_id m).0).0 ≡ some committed)
      × (get_state tx_id (rollback tx_id (mark_committed tx_id m).0).0 ≡ some rolled_back)
unfolding mark_committed rollback put get_state
mark_committed-rollback tx_id m tx f =
    (grind (arith, f, lookup-insert_self), grind (arith, f, lookup-insert_self))
