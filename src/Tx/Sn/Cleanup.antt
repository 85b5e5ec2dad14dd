-- ===== src/Tx/Sn/Cleanup.antt =====
-- storage-node/src/transaction.rs: the results of the calls, and what a cleanup leaves.
use wow_db.Prelude.{
  ℕ, ◌+◌, length, count_values, String, nat_eq, ◌≡◌, refl, ◌↔◌, ◌⊎◌, inl, inr, true, false, some,
  List, [], ◌∷◌, arith, lookup, lookup-insert_self, map_values, retain_values, All, Option-cases,
  Bool-cases, ok, err,
}
use wow_db.Tx.Sn.{
  prepared, committed, SnTransaction, SnTransactionManager, wrong_state, is_late, is_open, put,
  commit_tx, commit, rollback_tx, rollback, expire, cleanup_timed_out, aborted_ids, active_count,
}

-- `commit` succeeds exactly on a transaction that is prepared or committed already.
pub commit-ok_iff :
    (tx_id : ℕ) (m : SnTransactionManager) (tablets : List String)
    → ((commit tx_id m).1 ≡ ok tablets) ↔ (
        (tx : SnTransaction) × (lookup tx_id m.transactions ≡ some tx)
        × ((tx.state ≡ prepared) ⊎ (tx.state ≡ committed))
        × (tx.tablet_ids ≡ tablets))
unfolding commit commit_tx
commit-ok_iff tx_id m tablets = (found, λ (tx, f, s, t). ground (arith, f, s, t))
  where
    found :
        (commit tx_id m).1 ≡ ok tablets
        → (tx : SnTransaction) × (lookup tx_id m.transactions ≡ some tx)
          × ((tx.state ≡ prepared) ⊎ (tx.state ≡ committed))
          × (tx.tablet_ids ≡ tablets)
    found h = elim (Option-cases (lookup tx_id m.transactions)) [
      | inl n ↦ absurd (ground (arith, n, h))
      | inr (tx, f) ↦ (tx, f, ground (arith, f, h), ground (arith, f, h))
    ]

-- A commit that succeeds, given again, has the same result and changes nothing.
pub commit-commit :
    (tx_id : ℕ) (m : SnTransactionManager) (tablets : List String)
    → (commit tx_id m).1 ≡ ok tablets
    → commit tx_id (commit tx_id m).0 ≡ ((commit tx_id m).0, ok tablets)
unfolding commit commit_tx put
commit-commit tx_id m tablets h = grind (arith, lookup-insert_self)

-- After a commit that succeeds a rollback is refused, and the refusal changes nothing.
pub commit-rollback :
    (tx_id : ℕ) (m : SnTransactionManager) (tablets : List String)
    → (commit tx_id m).1 ≡ ok tablets
    → rollback tx_id (commit tx_id m).0 ≡ ((commit tx_id m).0, err wrong_state)
unfolding commit commit_tx rollback rollback_tx put
commit-rollback tx_id m tablets h = grind (arith, lookup-insert_self)

-- After a rollback that succeeds a commit is refused, and the refusal changes nothing.
pub rollback-commit :
    (tx_id : ℕ) (m : SnTransactionManager) (tablets : List String)
    → (rollback tx_id m).1 ≡ ok tablets
    → commit tx_id (rollback tx_id m).0 ≡ ((rollback tx_id m).0, err wrong_state)
unfolding commit commit_tx rollback rollback_tx put
rollback-commit tx_id m tablets h = grind (arith, lookup-insert_self)

expire-kept :
    (now timeout : ℕ) (tx : SnTransaction)
    → is_open (expire now timeout tx) ≡ true
    → is_late now timeout (expire now timeout tx) ≡ false
unfolding expire is_open is_late
expire-kept now timeout tx h = ground arith

open_only :
    (now timeout : ℕ) (txns : List (ℕ × SnTransaction))
    → All
        (λ p. (is_open p.1 ≡ true) × (is_late now timeout p.1 ≡ false))
        (retain_values is_open (map_values (expire now timeout) txns))
unfolding retain_values map_values
open_only now timeout [] = tt
open_only now timeout ((k, tx) ∷ txns) = elim (Bool-cases (is_open (expire now timeout tx))) [
  | inl e ↦ rw e ((e, expire-kept now timeout tx e), open_only now timeout txns)
  | inr e ↦ rw e (open_only now timeout txns)
]

counted :
    (now timeout : ℕ) (txns : List (ℕ × SnTransaction))
    → count_values is_open (retain_values is_open (map_values (expire now timeout) txns))
        + length (aborted_ids now timeout txns)
      ≡ count_values is_open txns
unfolding retain_values map_values count_values aborted_ids expire
counted now timeout [] = refl
counted now timeout ((k, tx) ∷ txns) = let ih = counted now timeout txns in ground (arith, ih)

-- A cleanup leaves open transactions only, none of which is late.
pub cleanup_timed_out-open :
    (now : ℕ) (m : SnTransactionManager)
    → All
        (λ p. (is_open p.1 ≡ true) × (is_late now m.timeout p.1 ≡ false))
        (cleanup_timed_out now m).0.transactions
unfolding cleanup_timed_out
cleanup_timed_out-open now m = open_only now m.timeout m.transactions

-- Every open transaction is kept by a cleanup or reported as aborted, and none twice.
pub active_count-cleanup_timed_out :
    (now : ℕ) (m : SnTransactionManager)
    → active_count (cleanup_timed_out now m).0 + length (cleanup_timed_out now m).1 ≡ active_count m
unfolding cleanup_timed_out active_count
active_count-cleanup_timed_out now m = counted now m.timeout m.transactions
