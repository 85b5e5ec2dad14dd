-- ===== src/Tx/Sn/States.antt =====
-- storage-node/src/transaction.rs: how the state of a transaction can change.
use wow_db.Prelude.{
  ℕ, string_eq, ◌∙◌, ap, nat_eq, ◌≡◌, refl, ◌⊎◌, inl, inr, true, false, Option, none, some, List,
  [], ◌∷◌, arith, lookup, Distinct, insert-Distinct, map_values-Distinct, retain_values-Distinct,
  All, subst, map_values,
}
use wow_db.Tx.Sn.{
  SnTxState, committed, SnTransaction, SnTransactionManager, is_open, put, register, add_tablet,
  prepare_tx, prepare, commit_tx, commit, rollback_tx, rollback, expire, cleanup_timed_out,
}
use wow_db.Tx.Sn.Moves.{
  Call, registers, adds_tablet, prepares, commits, rolls_back, cleans_up, Move, stay, to_prepared,
  expired, to_committed, active_back, prepared_back, is_of, Removes, Keeps, Moves, is_cleanup,
  register-Moves, add_tablet-Moves, prepare-Moves, commit-Moves, rollback-Moves,
  cleanup_timed_out-Moves,
}

unfoldable pub step : Call → SnTransactionManager → SnTransactionManager
step (registers now tx_id) m = register now tx_id m
step (adds_tablet tx_id tablet_id) m = (add_tablet tx_id tablet_id m).0
step (prepares now tx_id lsn) m = (prepare now tx_id lsn m).0
step (commits tx_id) m = (commit tx_id m).0
step (rolls_back tx_id) m = (rollback tx_id m).0
step (cleans_up now) m = (cleanup_timed_out now m).0

-- Whatever the call, the entry of every transaction changes as the call allows. An entry comes active,
-- by its `register`. It goes by a cleanup only, which takes out exactly the entries that are final or
-- too late and leaves the others as they were. Another call changes the entry of its own transaction
-- alone: `prepare` turns an active one to prepared or rolled back, `commit` a prepared one to
-- committed, `rollback` an active or prepared one to rolled back. (A transaction has one entry.)
pub step-Moves :
    (c : Call) (m : SnTransactionManager) (k : ℕ)
    → Distinct m.transactions
    → Moves m.timeout k c (lookup k m.transactions) (lookup k (step c m).transactions)
unfolding step
step-Moves (registers now tx_id) m k d = register-Moves m k now tx_id
step-Moves (adds_tablet tx_id t) m k d = add_tablet-Moves m k tx_id t
step-Moves (prepares now tx_id lsn) m k d = prepare-Moves m k now tx_id lsn
step-Moves (commits tx_id) m k d = commit-Moves m k tx_id
step-Moves (rolls_back tx_id) m k d = rollback-Moves m k tx_id
step-Moves (cleans_up now) m k d = cleanup_timed_out-Moves m k now d

put-Distinct :
    (tx : SnTransaction) (tx_id : ℕ) (m : SnTransactionManager)
    → Distinct m.transactions
    → Distinct (put tx tx_id m).transactions
unfolding put
put-Distinct tx tx_id m d = insert-Distinct tx_id tx m.transactions d

-- Every call keeps one entry for each transaction.
step-Distinct :
    (c : Call) (m : SnTransactionManager)
    → Distinct m.transactions
    → Distinct (step c m).transactions
unfolding step
step-Distinct (registers now tx_id) m d = unfold register in grind (arith, put-Distinct)
step-Distinct (adds_tablet tx_id t) m d = unfold add_tablet in grind (arith, put-Distinct)
step-Distinct (prepares now tx_id lsn) m d =
    unfold prepare prepare_tx in grind (arith, put-Distinct)
step-Distinct (commits tx_id) m d = unfold commit commit_tx in grind (arith, put-Distinct)
step-Distinct (rolls_back tx_id) m d = unfold rollback rollback_tx in grind (arith, put-Distinct)
step-Distinct (cleans_up now) m d =
    unfold cleanup_timed_out in
    retain_values-Distinct is_open (map_values (expire now m.timeout) m.transactions)
      (map_values-Distinct (expire now m.timeout) m.transactions d)

-- A run of calls.
unfoldable pub run : List Call → SnTransactionManager → SnTransactionManager
unfolding step
run [] m = m
run (c ∷ cs) m = run cs (step c m)

-- The entry is there and committed.
abbrev pub IsCommitted : ℕ → SnTransactionManager → Type 0
IsCommitted k m =
    (tx : SnTransaction) × (lookup k m.transactions ≡ some tx) × (tx.state ≡ committed)

committed-Move : (c : Call) (r s : SnTxState) → Move c r s → r ≡ committed → s ≡ committed
committed-Move c r s (stay d x) e = e
committed-Move c r s to_prepared e = absurd (cc (e))
committed-Move c r s expired e = absurd (cc (e))
committed-Move c r s to_committed e = refl
committed-Move c r s active_back e = absurd (cc (e))
committed-Move c r s prepared_back e = absurd (cc (e))

-- Where the call is no cleanup, a committed entry stays, and committed.
Moves-committed :
    (timeout k : ℕ) (c : Call) (tx : SnTransaction) (o : Option SnTransaction)
    → is_cleanup c ≡ false
    → tx.state ≡ committed
    → Moves timeout k c (some tx) o
    → (tx' : SnTransaction) × (o ≡ some tx') × (tx'.state ≡ committed)
Moves-committed timeout k c tx (some tx') h e mv = (
  tx',
  refl,
  elim (kept c h mv) [
    | inl same ↦ ap (λ (t : SnTransaction). t.state) same ∙ e
    | inr (of, move) ↦ committed-Move c tx.state tx'.state move e
  ],
)
  where
    kept :
        (d : Call)
        → is_cleanup d ≡ false
        → Keeps timeout k d tx tx'
        → (tx' ≡ tx) ⊎ ((is_of k d ≡ true) × Move d tx.state tx'.state)
    kept (registers now tx_id) h r = r
    kept (adds_tablet tx_id x) h r = r
    kept (prepares now tx_id lsn) h r = r
    kept (commits tx_id) h r = r
    kept (rolls_back tx_id) h r = r
    kept (cleans_up now) h r = absurd (cc (h))
Moves-committed timeout k c tx none h e mv = absurd (removed c h mv)
  where
    removed : (d : Call) → is_cleanup d ≡ false → Removes timeout d tx → ⊥
    removed (registers now tx_id) h r = r
    removed (adds_tablet tx_id x) h r = r
    removed (prepares now tx_id lsn) h r = r
    removed (commits tx_id) h r = r
    removed (rolls_back tx_id) h r = r
    removed (cleans_up now) h r = absurd (cc (h))

step-IsCommitted :
    (c : Call) (m : SnTransactionManager) (k : ℕ)
    → Distinct m.transactions
    → is_cleanup c ≡ false
    → IsCommitted k m
    → IsCommitted k (step c m)
step-IsCommitted c m k d h (tx, f, e) =
    Moves-committed m.timeout k c tx (lookup k (step c m).transactions) h e
      (subst (λ o. Moves m.timeout k c o (lookup k (step c m).transactions)) f (step-Moves c m k d))

-- A committed transaction stays committed through any calls, until a cleanup forgets it.
pub run-IsCommitted :
    (cs : List Call) (m : SnTransactionManager) (k : ℕ)
    → Distinct m.transactions
    → All (λ c. is_cleanup c ≡ false) cs
    → IsCommitted k m
    → IsCommitted k (run cs m)
unfolding run
run-IsCommitted [] m k d h i = i
run-IsCommitted (c ∷ cs) m k d h i =
    run-IsCommitted cs (step c m) k (step-Distinct c m d) h.1 (step-IsCommitted c m k d h.0 i)
