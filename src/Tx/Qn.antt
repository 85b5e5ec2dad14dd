-- ===== src/Tx/Qn.antt =====
-- query-node/src/transaction.rs: the coordinator's table of transactions. The clock and the new ids
-- (`Uuid::new_v4().to_string()`) are arguments; a call returns the table and its result.
pub mod Protocol
use wow_db.Prelude.{
  ℕ, ◌+◌, ◌-◌, String, string_eq, ◌==◌, Bool, true, false, ◌&&◌, Option, none, some, List, [], ◌∷◌,
  ◌++◌, all, ltb, if◌then◌else◌, lookup, insert, map_values, retain_values, count_values, Result,
  ok, err,
}

pub data TxState : Type 0 where
  active prepared committed rolled_back aborted : TxState

pub record TxParticipant : Type 0 where
  pub node_id : String
  pub endpoint : String
  pub prepared : Bool

pub record Transaction : Type 0 where
  pub tx_id : String
  pub state : TxState
  pub participants : List TxParticipant
  pub started_at : ℕ
  pub cube_name : String

pub record TransactionManager : Type 0 where
  pub transactions : List (String × Transaction)
  pub timeout : ℕ

pub data TxError : Type 0 where
  not_found not_active wrong_state timed_out : TxError

unfoldable pub with_timeout : ℕ → TransactionManager
with_timeout timeout = record { transactions = []; timeout = timeout }

unfoldable pub is_timed_out : ℕ → ℕ → Transaction → Bool
is_timed_out now timeout tx = ltb timeout (now - tx.started_at)

unfoldable pub is_open : Transaction → Bool
is_open tx = elim tx.state [ active ↦ true | prepared ↦ true | _ ↦ false ]

unfoldable pub put : Transaction → String → TransactionManager → TransactionManager
put tx tx_id m = record m { transactions = insert tx_id tx m.transactions }

unfoldable pub begin : ℕ → String → String → TransactionManager → TransactionManager × String
unfolding put
begin now new_id cube_name m = (
  put
      (record {
        tx_id = new_id;
        state = active;
        participants = [];
        started_at = now;
        cube_name = cube_name;
      })
      new_id m,
  new_id,
)

unfoldable pub register_tx :
    String
    → String
    → String
    → Transaction
    → TxState
    → TransactionManager
    → TransactionManager × Result TxError (Unit {0})
unfolding put
register_tx tx_id node_id endpoint tx active m = (
  put
      (record tx {
        participants =
            tx.participants
            ++ record { node_id = node_id; endpoint = endpoint; prepared = false } ∷ [];
      })
      tx_id m,
  ok tt,
)
register_tx tx_id node_id endpoint tx _ m = (m, err not_active)

unfoldable pub register_participant :
    String → String → String → TransactionManager → TransactionManager × Result TxError (Unit {0})
unfolding register_tx
register_participant tx_id node_id endpoint m = elim (lookup tx_id m.transactions) [
  | none ↦ (m, err not_found)
  | some tx ↦ register_tx tx_id node_id endpoint tx tx.state m
]

-- The first participant of that node.
unfoldable pub mark_prepared : String → List TxParticipant → List TxParticipant
mark_prepared node_id [] = []
mark_prepared node_id (p ∷ ps) =
    if p.node_id == node_id then record p { prepared = true } ∷ ps else p ∷ mark_prepared node_id ps

unfoldable pub all_prepared : List TxParticipant → Bool
unfolding all
all_prepared ps = all (λ p. p.prepared) ps

unfoldable pub after_ack : Transaction → TxState → Bool → Transaction
after_ack tx active true = record tx { state = prepared }
after_ack tx _ _ = tx

unfoldable pub ack_tx :
    String → String → Transaction → TransactionManager → TransactionManager × Result TxError Bool
unfolding put mark_prepared all_prepared after_ack
ack_tx tx_id node_id tx m =
    let marked : Transaction = record tx { participants = mark_prepared node_id tx.participants } in
    let done = all_prepared marked.participants in
    (put (after_ack marked marked.state done) tx_id m, ok done)

unfoldable pub receive_prepare_ack :
    String → String → TransactionManager → TransactionManager × Result TxError Bool
unfolding ack_tx
receive_prepare_ack tx_id node_id m = elim (lookup tx_id m.transactions) [
  | none ↦ (m, err not_found)
  | some tx ↦ ack_tx tx_id node_id tx m
]

unfoldable pub prepare_commit_tx :
    ℕ
    → String
    → Transaction
    → TransactionManager
    → TransactionManager × Result TxError (List TxParticipant)
unfolding put is_timed_out is_open
prepare_commit_tx now tx_id tx m =
    if is_open tx
    then (if is_timed_out now m.timeout tx
        then (put (record tx { state = aborted }) tx_id m, err timed_out)
        else (m, ok tx.participants))
    else (m, err wrong_state)

unfoldable pub prepare_commit :
    ℕ → String → TransactionManager → TransactionManager × Result TxError (List TxParticipant)
unfolding prepare_commit_tx
prepare_commit now tx_id m = elim (lookup tx_id m.transactions) [
  | none ↦ (m, err not_found)
  | some tx ↦ prepare_commit_tx now tx_id tx m
]

unfoldable pub mark_committed :
    String → TransactionManager → TransactionManager × Result TxError (Unit {0})
unfolding put
mark_committed tx_id m = elim (lookup tx_id m.transactions) [
  | none ↦ (m, err not_found)
  | some tx ↦ (put (record tx { state = committed }) tx_id m, ok tt)
]

unfoldable pub rollback :
    String → TransactionManager → TransactionManager × Result TxError (List TxParticipant)
unfolding put
rollback tx_id m = elim (lookup tx_id m.transactions) [
  | none ↦ (m, err not_found)
  | some tx ↦ (put (record tx { state = rolled_back }) tx_id m, ok tx.participants)
]

unfoldable pub get_state : String → TransactionManager → Option TxState
get_state tx_id m = elim (lookup tx_id m.transactions) [ none ↦ none | some tx ↦ some tx.state ]

unfoldable pub expire : ℕ → ℕ → Transaction → Transaction
unfolding is_open is_timed_out
expire now timeout tx =
    if is_open tx && is_timed_out now timeout tx then record tx { state = aborted } else tx

unfoldable pub aborted_count : ℕ → ℕ → List (String × Transaction) → ℕ
unfolding is_open is_timed_out
aborted_count now timeout [] = 0
aborted_count now timeout ((k, tx) ∷ txns) =
    let rest = aborted_count now timeout txns in
    if is_open tx && is_timed_out now timeout tx then rest + 1 else rest

unfoldable pub cleanup_timed_out : ℕ → TransactionManager → TransactionManager × ℕ
unfolding expire is_open aborted_count
cleanup_timed_out now m = (
  record m {
    transactions = retain_values is_open (map_values (expire now m.timeout) m.transactions);
  },
  aborted_count now m.timeout m.transactions,
)

unfoldable pub active_count : TransactionManager → ℕ
unfolding is_open
active_count m = count_values is_open m.transactions
