-- ===== src/Lsm/Wal/GroupCommit/Acknowledged.antt =====
-- storage-node/src/lsm/wal.rs, the group commit: what an acknowledged write means.
use mathlib.Core.List.{Perm}
use mathlib.Core.List.Perm
use wow_db.Prelude.{
  ℕ, ◌+◌, ◌<◌, ◌≡◌, refl, ap, sym, ◌∙◌, subst, List, [], ◌∷◌, ◌++◌, append-nil, arith, length,
  length-append, take,
}
use wow_db.Prelude.Sorting.{length-perm}
use wow_db.Lsm.Wal.{Crc32, WalEntry, Dir, Segment, replay, flush_batch}
use wow_db.Lsm.Wal.Segments.{IsWal, flush_batch-replay}
use wow_db.Lsm.Wal.GroupCommit.{
  PendingWrite, new_buffer, Holder, flusher, World, entries, fail_step, Steps,
}
use wow_db.Lsm.Wal.GroupCommit.Batches.{
  Fit, batches, batches-append, outstanding, outstanding-append, Fit-batches, Fit-left, Fit-right,
  Fit-entries, Fit-take, length-entries, length-take-lt,
}
use wow_db.Lsm.Wal.GroupCommit.Notifying.{OnlyNotifies, notify_written}

-- The log, opened: nobody waits.
abbrev pub new_world : ℕ → Dir × Segment → World
new_world max_bytes disk = record {
  buf = new_buffer max_bytes;
  taken = [];
  disk = disk;
  written = [];
  notified = [];
}

module _ (crc : Crc32) (max_seg : ℕ) where
  -- The log is whole and has `base` and then the entries of the writers that were notified or are next
  -- to be; what is pending or held fits its fields.
  pub record IsLogged (base : List WalEntry) (w : World) : Type 0 where
    pub disk : IsWal crc w.disk
    pub pending : Fit w.buf.pending
    pub taken : Fit (batches w.taken)
    pub logged : List PendingWrite
    pub replayed : replay crc w.disk.0 ≡ base ++ entries logged
    pub acknowledged : Perm logged (w.notified ++ outstanding w.written)

  held-Fit :
      (h : Holder) (before after taken : List (Holder × List PendingWrite))
      (batch : List PendingWrite)
      → taken ≡ before ++ (h, batch) ∷ after
      → Fit (batches taken)
      → Fit batch × Fit (batches (before ++ after))
  held-Fit h before after taken batch held f =
      let split = batches-append before ((h, batch) ∷ after) in
      let f' : Fit (batches before ++ (batch ++ batches after)) =
        subst Fit (ap batches held ∙ split) f in
      let right = Fit-right (batches before) (batch ++ batches after) f' in
      (
        Fit-left batch (batches after) right,
        Fit-batches before after (Fit-left (batches before) (batch ++ batches after) f')
            (Fit-right batch (batches after) right),
      )

  -- What a flush of `written` does to the log.
  flush-logged :
      (base : List WalEntry) (written : List PendingWrite) (w : World) (i : IsLogged base w)
      → Fit written
      → IsWal crc (flush_batch crc max_seg w.disk (entries written))
        × (replay crc (flush_batch crc max_seg w.disk (entries written)).0
            ≡ (base ++ entries i.logged) ++ entries written)
  flush-logged base written w i f =
      let (whole, said) =
        flush_batch-replay crc max_seg w.disk (entries written) i.disk (Fit-entries written f) in
      (whole, said ∙ ap (λ l. l ++ entries written) i.replayed)

  pub new_world-IsLogged :
      (max_bytes : ℕ) (disk : Dir × Segment)
      → IsWal crc disk
      → IsLogged (replay crc disk.0) (new_world max_bytes disk)
  unfolding new_buffer
  new_world-IsLogged max_bytes disk i = record {
    disk = i;
    pending = tt;
    taken = tt;
    logged = [];
    replayed = sym (append-nil (replay crc disk.0));
    acknowledged = Perm.refl [];
  }

  -- Where the flusher's write fails before the end of its batch, its writers are told `Ok` all the
  -- same: notifications alone lead to a log with fewer entries than there are acknowledged writers.
  pub fail_step-replay :
      (base : List WalEntry) (k : ℕ) (before after : List (Holder × List PendingWrite))
      (batch : List PendingWrite) (w : World)
      → IsLogged base w
      → w.taken ≡ before ++ (flusher, batch) ∷ after
      → k < length batch
      → (w' : World) × (ss : Steps crc max_seg
          (fail_step crc max_seg flusher k batch (before ++ after) w)
          w')
        × OnlyNotifies crc max_seg ss
        × (length (replay crc w'.disk.0) < length base + length w'.notified)
  unfolding fail_step
  fail_step-replay base k before after batch w i held short =
      let failed = fail_step crc max_seg flusher k batch (before ++ after) w in
      let (fits, _) = held-Fit flusher before after w.taken batch held i.taken in
      let (_, said) = flush-logged base (take k batch) w i (Fit-take k batch fits) in
      let done = notify_written crc max_seg failed.written [] failed refl refl in
      let n : length (replay crc failed.disk.0)
          ≡ length ((base ++ entries i.logged) ++ entries (take k batch)) =
        ap length said in
      let kept : length (replay crc done.end.disk.0) ≡ length (replay crc failed.disk.0) =
        ap (λ d. length (replay crc d.0)) done.disk in
      let told : length done.end.notified
          ≡ length (w.notified ++ outstanding (w.written ++ batch ∷ [])) =
        ap length done.notified in
      let more = ap length (outstanding-append w.written (batch ∷ [])) in
      (
        done.end,
        done.steps,
        done.only,
        omega (
          arith,
          n,
          kept,
          told,
          more,
          length-append w.notified (outstanding (w.written ++ batch ∷ [])),
          length-append (outstanding w.written) (batch ++ []),
          length-append batch [],
          length-perm i.acknowledged,
          length-append w.notified (outstanding w.written),
          length-append (base ++ entries i.logged) (entries (take k batch)),
          length-append base (entries i.logged),
          length-entries i.logged,
          length-entries (take k batch),
          length-take-lt k batch short,
        ),
      )
