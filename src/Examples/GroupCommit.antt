-- ===== src/Examples/GroupCommit.antt =====
-- storage-node/src/lsm/wal.rs, the group commit, at concrete inputs.
use mathlib.Core.List.{List}
use wow_db.Prelude.{◌+◌, ◌<◌, ◌≡◌, ◌≢◌, refl, arith, [], ◌∷◌, ◌++◌, length, All, here, nat_eq}
use wow_db.Lsm.Wal.{Dir, Segment, replay, open_wal}
use wow_db.Lsm.Wal.Segments.{open_wal-IsWal}
use wow_db.Lsm.Wal.GroupCommit.{
  new_buffer, PendingWrite, flusher, sync, World, append_step, take_step, flush_step, fail_step,
  notify_step, Step, Steps,
}
use wow_db.Lsm.Wal.GroupCommit.Notifying.{OnlyNotifies}
use wow_db.Lsm.Wal.GroupCommit.Acknowledged.{
  new_world, IsLogged, new_world-IsLogged, fail_step-replay,
}
use wow_db.Lsm.Wal.GroupCommit.Waiting.{fail_step-waits}
use wow_db.Examples.Wal.{
  length_crc, first_entry, second_entry, first_entry-IsEntry, second_entry-IsEntry,
}

abbrev first_write : PendingWrite
first_write = record { entry = first_entry; notify = 1 }

abbrev second_write : PendingWrite
second_write = record { entry = second_entry; notify = 2 }

abbrev opened : Dir × Segment
opened = open_wal length_crc []

abbrev start : World
start = new_world 100 opened

abbrev waiting : World
waiting = append_step first_write start

abbrev held : World
held = take_step flusher waiting

abbrev written : World
written = flush_step length_crc 20 (first_write ∷ []) [] held

held_batch : held.taken ≡ [] ++ (flusher, first_write ∷ []) ∷ []
unfolding take_step append_step new_buffer
held_batch = refl

-- The writer is notified after the write.
abbrev told : World
told = notify_step length_crc 20 first_write ([] ∷ []) written

left_batch : written.written ≡ [] ++ (first_write ∷ []) ∷ []
unfolding flush_step take_step append_step
left_batch = refl

abbrev four_steps : Steps length_crc 20 start told
four_steps =
    Steps.then_step
      (Steps.then_step
        (Steps.then_step
          (Steps.then_step Steps.here (Step.appends first_write first_entry-IsEntry refl))
          (Step.takes flusher refl))
        (Step.flushes flusher [] [] (first_write ∷ []) held_batch refl))
      (Step.notifies [] [] first_write [] left_batch refl)

-- A log that nobody has written to, with one batch of the flusher.
abbrev one_held : World
one_held = record start { taken = (flusher, first_write ∷ []) ∷ [] }

one_held-IsLogged : IsLogged length_crc 20 (replay length_crc opened.0) one_held
one_held-IsLogged =
    let i = new_world-IsLogged length_crc 20 100 opened (open_wal-IsWal length_crc) in
    record {
      disk = i.disk;
      pending = i.pending;
      taken = (first_entry-IsEntry, tt);
      logged = i.logged;
      replayed = i.replayed;
      acknowledged = i.acknowledged;
    }

fail_step-replay_example :
    (w' : World) × (ss : Steps length_crc 20
      (fail_step length_crc 20 flusher 0 (first_write ∷ []) [] one_held)
      w')
    × OnlyNotifies length_crc 20 ss
    × (length (replay length_crc w'.disk.0)
        < length (replay length_crc opened.0) + length w'.notified)
fail_step-replay_example =
    fail_step-replay length_crc 20 (replay length_crc opened.0) 0 [] [] (first_write ∷ []) one_held
      one_held-IsLogged refl (omega arith)

abbrev failed : World
failed = fail_step length_crc 20 sync 0 (first_write ∷ []) [] start

abbrev one_append : Steps length_crc 20 failed (append_step second_write failed)
one_append = Steps.then_step Steps.here (Step.appends second_write second_entry-IsEntry refl)

two_is_not_one : second_write.notify ≢ first_write.notify
two_is_not_one h = absurd (omega (arith, h))

fail_step-waits_example :
    All (λ q. q.notify ≢ first_write.notify) (append_step second_write failed).notified
unfolding new_buffer
fail_step-waits_example =
    fail_step-waits length_crc 20 0 (first_write ∷ []) [] start (append_step second_write failed)
      first_write one_append here (record { pending = tt; taken = tt; written = tt; notified = tt })
      (tt, two_is_not_one)
