-- ===== src/Lsm/Wal/GroupCommit.antt =====
-- storage-node/src/lsm/wal.rs: the buffer of the group commit, the task that flushes it, and `sync`.
-- A `Notify` is a number. A thread that has taken the buffer holds the batch until it has written it:
-- every batch that is held is in `taken`. The write is one step, under the lock of the segment; the batch is then in
-- `written`, and each of its writers is notified by a step of its own. A write that fails ends a flush after `k` records.
pub mod Batches
pub mod Notifying
pub mod Acknowledged
pub mod Waiting
use wow_db.Prelude.{
  ℕ, ◌+◌, ◌≡◌, Bool, true, false, Option, none, some, List, [], ◌∷◌, ◌++◌, map, length, take, leb,
  ltb,
}
use wow_db.Lsm.Wal.{Crc32, WalEntry, Dir, Segment, record_header_size, record_len, flush_batch}
use wow_db.Lsm.Wal.Records.{IsEntry}

pub record PendingWrite : Type 0 where
  pub entry : WalEntry
  pub notify : ℕ

pub record GroupCommitBuffer : Type 0 where
  pub pending : List PendingWrite
  pub total_bytes : ℕ
  pub max_bytes : ℕ

unfoldable pub new_buffer : ℕ → GroupCommitBuffer
new_buffer max_bytes = record { pending = []; total_bytes = 0; max_bytes = max_bytes }

unfoldable pub push : PendingWrite → GroupCommitBuffer → GroupCommitBuffer
unfolding record_len
push pw buf = record buf {
  total_bytes = buf.total_bytes + record_len pw.entry;
  pending = buf.pending ++ pw ∷ [];
}

unfoldable pub should_flush : GroupCommitBuffer → Bool
should_flush buf = leb buf.max_bytes buf.total_bytes

unfoldable pub take_all : GroupCommitBuffer → GroupCommitBuffer × List PendingWrite
take_all buf = (record buf { total_bytes = 0; pending = [] }, buf.pending)

-- Who holds a batch.
pub data Holder : Type 0 where
  flusher sync : Holder

-- `written`: for each thread past its write, the writers that it has still to notify. `notified`: the writers whose
-- `append` returned `Ok`, in the order of the notifications.
pub record World : Type 0 where
  pub buf : GroupCommitBuffer
  pub taken : List (Holder × List PendingWrite)
  pub disk : Dir × Segment
  pub written : List (List PendingWrite)
  pub notified : List PendingWrite

abbrev pub entries : List PendingWrite → List WalEntry
entries = map (λ (pw : PendingWrite). pw.entry)

-- The first half of `append`: the writer waits from here on.
unfoldable pub append_step : PendingWrite → World → World
unfolding push
append_step pw w = record w { buf = push pw w.buf }

-- `take_all` of the flusher's turn or of `flush_group_buf`.
unfoldable pub take_step : Holder → World → World
unfolding take_all
take_step h w =
    let (buf, batch) = take_all w.buf in record w { buf = buf; taken = w.taken ++ (h, batch) ∷ [] }

module _ (crc : Crc32) (max_seg : ℕ) where
  -- A flush that succeeds: the write alone.
  unfoldable pub flush_step : List PendingWrite → List (Holder × List PendingWrite) → World → World
  flush_step batch others w = record w {
    taken = others;
    disk = flush_batch crc max_seg w.disk (entries batch);
    written = w.written ++ batch ∷ [];
  }

  -- A flush that fails after `k` records. The flusher notifies all the same; `sync` returns the error.
  unfoldable pub fail_step :
      Holder → ℕ → List PendingWrite → List (Holder × List PendingWrite) → World → World
  fail_step flusher k batch others w = record w {
    taken = others;
    disk = flush_batch crc max_seg w.disk (entries (take k batch));
    written = w.written ++ batch ∷ [];
  }
  fail_step sync k batch others w = record w {
    taken = others;
    disk = flush_batch crc max_seg w.disk (entries (take k batch));
  }

  -- `notify_one` for one writer; `others` is what is left to be notified.
  unfoldable pub notify_step : PendingWrite → List (List PendingWrite) → World → World
  notify_step pw others w = record w { written = others; notified = w.notified ++ pw ∷ [] }

  -- One step of any thread. A batch that is held is `taken` at some place.
  pub data Step (w : World) : World → Type 0 where
    appends :
        {w' : World} (pw : PendingWrite) → IsEntry pw.entry → w' ≡ append_step pw w → Step w w'
    takes : {w' : World} (h : Holder) → w' ≡ take_step h w → Step w w'
    flushes :
        {w' : World} (h : Holder) (before after : List (Holder × List PendingWrite))
        (batch : List PendingWrite)
        → w.taken ≡ before ++ (h, batch) ∷ after
        → w' ≡ flush_step batch (before ++ after) w
        → Step w w'
    fails :
        {w' : World} (h : Holder) (before after : List (Holder × List PendingWrite))
        (batch : List PendingWrite) (k : ℕ)
        → w.taken ≡ before ++ (h, batch) ∷ after
        → w' ≡ fail_step h k batch (before ++ after) w
        → Step w w'
    notifies :
        {w' : World} (before after : List (List PendingWrite)) (pw : PendingWrite)
        (rest : List PendingWrite)
        → w.written ≡ before ++ (pw ∷ rest) ∷ after
        → w' ≡ notify_step pw (before ++ rest ∷ after) w
        → Step w w'

  -- Whether the step is a flush that fails.
  abbrev pub is_failure : {w w' : World} → Step w w' → Bool
  is_failure (appends pw v e) = false
  is_failure (takes h e) = false
  is_failure (flushes h before after batch held e) = false
  is_failure (fails h before after batch k held e) = true
  is_failure (notifies before after pw rest left e) = false

  -- Any number of steps.
  pub data Steps (w : World) : World → Type 0 where
    here : Steps w w
    then_step : {v w' : World} → Steps w v → Step v w' → Steps w w'
