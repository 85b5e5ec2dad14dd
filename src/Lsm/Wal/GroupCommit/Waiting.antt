-- ===== src/Lsm/Wal/GroupCommit/Waiting.antt =====
-- storage-node/src/lsm/wal.rs, the group commit: which writers can still be notified.
use wow_db.Prelude.{All-middle, ℕ, ◌≡◌, ◌≢◌, sym, subst, List, [], ◌∷◌, ◌++◌, All, All-append, Elem}
use wow_db.Lsm.Wal.{Crc32}
use wow_db.Lsm.Wal.GroupCommit.{
  PendingWrite, Holder, flusher, sync, World, append_step, take_step, flush_step, fail_step,
  notify_step, appends, takes, flushes, fails, notifies, Steps, here, then_step,
}

-- Nobody with this number is pending, held, still to be notified or notified.
pub record IsAbsent (n : ℕ) (w : World) : Type 0 where
  pub pending : All (λ pw. pw.notify ≢ n) w.buf.pending
  pub taken : All (λ p. All (λ pw. pw.notify ≢ n) p.1) w.taken
  pub written : All (λ batch. All (λ pw. pw.notify ≢ n) batch) w.written
  pub notified : All (λ pw. pw.notify ≢ n) w.notified

All-join {ℓ κ} :
    {A : Type ℓ} (P : A → Type κ) (xs : List A) (y : A) (ys : List A)
    → P y
    → All P (xs ++ ys)
    → All P (xs ++ y ∷ ys)
All-join P [] y ys p a = (p, a)
All-join P (x ∷ xs) y ys p a = (a.0, All-join P xs y ys p a.1)

module _ (crc : Crc32) (max_seg : ℕ) where
  -- No append has the number.
  abbrev pub Avoids : ℕ → {w w' : World} → Steps crc max_seg w w' → Type 0
  Avoids n here = Unit
  Avoids n (then_step ss (appends pw v e)) = Avoids n ss × (pw.notify ≢ n)
  Avoids n (then_step ss (takes h e)) = Avoids n ss
  Avoids n (then_step ss (flushes h before after batch held e)) = Avoids n ss
  Avoids n (then_step ss (fails h before after batch k held e)) = Avoids n ss
  Avoids n (then_step ss (notifies before after pw rest left e)) = Avoids n ss

  append_step-IsAbsent :
      (n : ℕ) (pw : PendingWrite) (w : World)
      → pw.notify ≢ n
      → IsAbsent n w
      → IsAbsent n (append_step pw w)
  unfolding append_step
  append_step-IsAbsent n pw w other a = record {
    pending = All-append (λ pw. pw.notify ≢ n) w.buf.pending (pw ∷ []) a.pending (other, tt);
    taken = a.taken;
    written = a.written;
    notified = a.notified;
  }

  take_step-IsAbsent : (n : ℕ) (h : Holder) (w : World) → IsAbsent n w → IsAbsent n (take_step h w)
  unfolding take_step
  take_step-IsAbsent n h w a = record {
    pending = tt;
    taken =
        All-append (λ (p : Holder × List PendingWrite). All (λ pw. pw.notify ≢ n) p.1) w.taken
          ((h, w.buf.pending) ∷ []) a.taken (a.pending, tt);
    written = a.written;
    notified = a.notified;
  }

  -- A batch that is held, taken out.
  module _ (n : ℕ) (h : Holder) (before after : List (Holder × List PendingWrite))
      (batch : List PendingWrite) (w : World) (held : w.taken ≡ before ++ (h, batch) ∷ after)
      (a : IsAbsent n w) where
    absent_batch :
        All (λ pw. pw.notify ≢ n) batch
        × All (λ (p : Holder × List PendingWrite). All (λ pw. pw.notify ≢ n) p.1) (before ++ after)
    absent_batch =
        All-middle (λ (p : Holder × List PendingWrite). All (λ pw. pw.notify ≢ n) p.1) before
          (h, batch) after
          (subst (All (λ (p : Holder × List PendingWrite). All (λ pw. pw.notify ≢ n) p.1)) held
            a.taken)

    absent_written : All (λ b. All (λ pw. pw.notify ≢ n) b) (w.written ++ batch ∷ [])
    absent_written =
        All-append (λ (b : List PendingWrite). All (λ pw. pw.notify ≢ n) b) w.written (batch ∷ [])
          a.written (absent_batch.0, tt)

    flush_step-IsAbsent : IsAbsent n (flush_step crc max_seg batch (before ++ after) w)
    unfolding flush_step
    flush_step-IsAbsent = record {
      pending = a.pending;
      taken = absent_batch.1;
      written = absent_written;
      notified = a.notified;
    }

    fail_step-IsAbsent : (k : ℕ) → IsAbsent n (fail_step crc max_seg h k batch (before ++ after) w)
    unfolding fail_step
    fail_step-IsAbsent k = by_holder h
      where
        by_holder :
            (h' : Holder) → IsAbsent n (fail_step crc max_seg h' k batch (before ++ after) w)
        by_holder flusher = record {
          pending = a.pending;
          taken = absent_batch.1;
          written = absent_written;
          notified = a.notified;
        }
        by_holder sync = record {
          pending = a.pending;
          taken = absent_batch.1;
          written = a.written;
          notified = a.notified;
        }

  notify_step-IsAbsent :
      (n : ℕ) (before after : List (List PendingWrite)) (pw : PendingWrite)
      (rest : List PendingWrite) (w : World)
      → w.written ≡ before ++ (pw ∷ rest) ∷ after
      → IsAbsent n w
      → IsAbsent n (notify_step crc max_seg pw (before ++ rest ∷ after) w)
  unfolding notify_step
  notify_step-IsAbsent n before after pw rest w left a =
      let Free : List PendingWrite → Type 0 = λ b. All (λ (x : PendingWrite). x.notify ≢ n) b in
      let (batch, others) =
        All-middle Free before (pw ∷ rest) after (subst (All Free) left a.written) in
      record {
        pending = a.pending;
        taken = a.taken;
        written = All-join Free before rest after batch.1 others;
        notified = All-append (λ pw. pw.notify ≢ n) w.notified (pw ∷ []) a.notified (batch.0, tt);
      }

  steps-IsAbsent :
      (n : ℕ) (w w' : World) (ss : Steps crc max_seg w w')
      → Avoids n ss
      → IsAbsent n w
      → IsAbsent n w'
  steps-IsAbsent n w w' here av a = a
  steps-IsAbsent n w w' (then_step {v} ss (appends pw fits e)) av a =
      subst (IsAbsent n) (sym e) (append_step-IsAbsent n pw v av.1 (steps-IsAbsent n w v ss av.0 a))
  steps-IsAbsent n w w' (then_step {v} ss (takes h e)) av a =
      subst (IsAbsent n) (sym e) (take_step-IsAbsent n h v (steps-IsAbsent n w v ss av a))
  steps-IsAbsent n w w' (then_step {v} ss (flushes h before after batch held e)) av a =
      subst (IsAbsent n) (sym e)
        (flush_step-IsAbsent n h before after batch v held (steps-IsAbsent n w v ss av a))
  steps-IsAbsent n w w' (then_step {v} ss (fails h before after batch k held e)) av a =
      subst (IsAbsent n) (sym e)
        (fail_step-IsAbsent n h before after batch v held (steps-IsAbsent n w v ss av a) k)
  steps-IsAbsent n w w' (then_step {v} ss (notifies before after pw rest left e)) av a =
      subst (IsAbsent n) (sym e)
        (notify_step-IsAbsent n before after pw rest v left (steps-IsAbsent n w v ss av a))

  -- After a `sync` whose write fails, the writers of its batch wait for ever: whatever steps follow,
  -- none of them is notified. (A writer's number is its own: no other write has it.)
  pub fail_step-waits :
      (k : ℕ) (batch : List PendingWrite) (others : List (Holder × List PendingWrite))
      (w w' : World) (pw : PendingWrite)
      (ss : Steps crc max_seg (fail_step crc max_seg sync k batch others w) w')
      → Elem pw batch
      → IsAbsent pw.notify (record w { taken = others })
      → Avoids pw.notify ss
      → All (λ q. q.notify ≢ pw.notify) w'.notified
  unfolding fail_step
  fail_step-waits k batch others w w' pw ss m a av =
      (steps-IsAbsent pw.notify (fail_step crc max_seg sync k batch others w) w' ss av (record {
        pending = a.pending;
        taken = a.taken;
        written = a.written;
        notified = a.notified;
      })).notified
