-- ===== src/Tx/Sn.antt =====
-- storage-node/src/transaction.rs: the participant's table of transactions. The clock is an argument of
-- each call; a call returns the table and its result.
pub mod Moves
pub mod States
pub mod Cleanup
use wow_db.Prelude.{
  ℕ, ◌+◌, ◌-◌, String, string_eq, nat_eq, ◌==◌, ◌≡◌, Bool, true, false, not, ◌&&◌, Option, none,
  some, List, [], ◌∷◌, ◌++◌, any, ltb, if◌then◌else◌, lookup, insert, map_values, retain_values,
  count_values, Result, ok, err,
}

pub data SnTxState : Type 0 where
  active prepared committed rolled_back : SnTxState

pub record SnTransaction : Type 0 where
  pub tx_id : ℕ
  pub state : SnTxState
  pub tablet_ids : List String
  pub prepare_lsn : Option ℕ
  pub started_at : ℕ

pub record SnTransactionManager : Type 0 where
  pub transactions : List (ℕ × SnTransaction)
  pub timeout : ℕ

pub data TxError : Type 0 where
  not_found wrong_state timed_out : TxError

unfoldable pub with_timeout : ℕ → SnTransactionManager
with_timeout timeout = record { transactions = []; timeout = timeout }

unfoldable pub new_transaction : ℕ → ℕ → SnTransaction
new_transaction now tx_id = record {
  tx_id = tx_id;
  state = active;
  tablet_ids = [];
  prepare_lsn = none;
  started_at = now;
}

-- `started_at.elapsed() > timeout`
unfoldable pub is_late : ℕ → ℕ → SnTransaction → Bool
is_late now timeout tx = ltb timeout (now - tx.started_at)

-- The states that are not final.
unfoldable pub is_open : SnTransaction → Bool
is_open tx = elim tx.state [ active ↦ true | prepared ↦ true | _ ↦ false ]

unfoldable pub put : SnTransaction → ℕ → SnTransactionManager → SnTransactionManager
put tx tx_id m = record m { transactions = insert tx_id tx m.transactions }

unfoldable pub register : ℕ → ℕ → SnTransactionManager → SnTransactionManager
unfolding put new_transaction
register now tx_id m = elim (lookup tx_id m.transactions) [
  | none ↦ put (new_transaction now tx_id) tx_id m
  | some tx ↦ m
]

unfoldable pub add_tablet :
    ℕ → String → SnTransactionManager → SnTransactionManager × Result TxError (Unit {0})
unfolding put
add_tablet tx_id tablet_id m = elim (lookup tx_id m.transactions) [
  | none ↦ (m, err not_found)
  | some tx ↦
      if any (λ t. t == tablet_id) tx.tablet_ids
      then (m, ok tt)
      else (put (record tx { tablet_ids = tx.tablet_ids ++ tablet_id ∷ [] }) tx_id m, ok tt)
]

unfoldable pub prepare_tx :
    ℕ
    → ℕ
    → ℕ
    → SnTransaction
    → SnTxState
    → SnTransactionManager
    → SnTransactionManager × Result TxError (Unit {0})
unfolding put is_late
prepare_tx now tx_id lsn tx active m =
    if is_late now m.timeout tx
    then (put (record tx { state = rolled_back }) tx_id m, err timed_out)
    else (put (record tx { state = prepared; prepare_lsn = some lsn }) tx_id m, ok tt)
prepare_tx now tx_id lsn tx _ m = (m, err wrong_state)

unfoldable pub prepare :
    ℕ → ℕ → ℕ → SnTransactionManager → SnTransactionManager × Result TxError (Unit {0})
unfolding prepare_tx
prepare now tx_id lsn m = elim (lookup tx_id m.transactions) [
  | none ↦ (m, err not_found)
  | some tx ↦ prepare_tx now tx_id lsn tx tx.state m
]

unfoldable pub commit_tx :
    ℕ
    → SnTransaction
    → SnTxState
    → SnTransactionManager
    → SnTransactionManager × Result TxError (List String)
unfolding put
commit_tx tx_id tx prepared m = (put (record tx { state = committed }) tx_id m, ok tx.tablet_ids)
commit_tx tx_id tx committed m = (m, ok tx.tablet_ids)
commit_tx tx_id tx _ m = (m, err wrong_state)

unfoldable pub commit :
    ℕ → SnTransactionManager → SnTransactionManager × Result TxError (List String)
unfolding commit_tx
commit tx_id m = elim (lookup tx_id m.transactions) [
  | none ↦ (m, err not_found)
  | some tx ↦ commit_tx tx_id tx tx.state m
]

unfoldable pub rollback_tx :
    ℕ
    → SnTransaction
    → SnTxState
    → SnTransactionManager
    → SnTransactionManager × Result TxError (List String)
unfolding put
rollback_tx tx_id tx committed m = (m, err wrong_state)
rollback_tx tx_id tx _ m = (put (record tx { state = rolled_back }) tx_id m, ok tx.tablet_ids)

unfoldable pub rollback :
    ℕ → SnTransactionManager → SnTransactionManager × Result TxError (List String)
unfolding rollback_tx
rollback tx_id m = elim (lookup tx_id m.transactions) [
  | none ↦ (m, err not_found)
  | some tx ↦ rollback_tx tx_id tx tx.state m
]

unfoldable pub expire : ℕ → ℕ → SnTransaction → SnTransaction
unfolding is_late is_open
expire now timeout tx =
    if is_open tx && is_late now timeout tx then record tx { state = rolled_back } else tx

unfoldable pub aborted_ids : ℕ → ℕ → List (ℕ × SnTransaction) → List ℕ
unfolding is_late is_open
aborted_ids now timeout [] = []
aborted_ids now timeout ((k, tx) ∷ txns) =
    let rest = aborted_ids now timeout txns in
    if is_open tx && is_late now timeout tx then tx.tx_id ∷ rest else rest

unfoldable pub cleanup_timed_out : ℕ → SnTransactionManager → SnTransactionManager × List ℕ
unfolding expire is_open aborted_ids
cleanup_timed_out now m = (
  record m {
    transactions = retain_values is_open (map_values (expire now m.timeout) m.transactions);
  },
  aborted_ids now m.timeout m.transactions,
)

unfoldable pub get_state : ℕ → SnTransactionManager → Option SnTxState
get_state tx_id m = elim (lookup tx_id m.transactions) [ none ↦ none | some tx ↦ some tx.state ]

unfoldable pub active_count : SnTransactionManager → ℕ
unfolding is_open
active_count m = count_values is_open m.transactions
