-- ===== src/Lsm/Wal/GroupCommit/Notifying.antt =====
-- storage-node/src/lsm/wal.rs, the group commit: the notifications that are left can all be made.

use wow_db.Prelude.{
  ℕ, ◌≡◌, refl, ap, sym, ◌∙◌, false, List, [], ◌∷◌, ◌++◌, append_assoc, append-nil,
}
use wow_db.Lsm.Wal.{Crc32}
use wow_db.Lsm.Wal.GroupCommit.{
  PendingWrite, World, notify_step, notifies, appends, takes, flushes, fails, is_failure, Steps,
  here, then_step,
}
use wow_db.Lsm.Wal.GroupCommit.Batches.{outstanding, outstanding-append}

module _ (crc : Crc32) (max_seg : ℕ) where
  -- No step is a flush that fails.
  abbrev pub AllSucceed : {w w' : World} → Steps crc max_seg w w' → Type 0
  AllSucceed here = Unit
  AllSucceed (then_step steps s) = AllSucceed steps × (is_failure crc max_seg s ≡ false)

  -- Steps one after the other.
  join : {u v w : World} → Steps crc max_seg u v → Steps crc max_seg v w → Steps crc max_seg u w
  join ss here = ss
  join ss (then_step ts t) = then_step (join ss ts) t

  -- Every step is a notification.
  abbrev pub OnlyNotifies : {w w' : World} → Steps crc max_seg w w' → Type 0
  OnlyNotifies here = Unit
  OnlyNotifies (then_step ss (notifies before after pw rest left e)) = OnlyNotifies ss
  OnlyNotifies (then_step ss _) = ⊥

  join-OnlyNotifies :
      {u v w : World} (ss : Steps crc max_seg u v) (ts : Steps crc max_seg v w)
      → OnlyNotifies ss
      → OnlyNotifies ts
      → OnlyNotifies (join ss ts)
  unfolding join
  join-OnlyNotifies ss here a b = a
  join-OnlyNotifies ss (then_step ts (notifies before after pw rest left e)) a b =
      join-OnlyNotifies ss ts a b
  join-OnlyNotifies ss (then_step ts (appends pw v e)) a b = absurd b
  join-OnlyNotifies ss (then_step ts (takes h e)) a b = absurd b
  join-OnlyNotifies ss (then_step ts (flushes h before after batch held e)) a b = absurd b
  join-OnlyNotifies ss (then_step ts (fails h before after batch k held e)) a b = absurd b

  -- What is left of the notifications, done by their threads: only `written` and `notified` change.
  pub record Notified (w : World) : Type 0 where
    pub end : World
    pub steps : Steps crc max_seg w end
    pub only : OnlyNotifies steps
    pub disk : end.disk ≡ w.disk
    pub notified : end.notified ≡ w.notified ++ outstanding w.written

  notify_first :
      (w : World) (before after : List (List PendingWrite)) (pw : PendingWrite)
      (rest : List PendingWrite)
      → w.written ≡ before ++ (pw ∷ rest) ∷ after
      → outstanding before ≡ []
      → Notified (notify_step crc max_seg pw (before ++ rest ∷ after) w)
      → Notified w
  unfolding notify_step
  notify_first w before after pw rest left z n =
      let first : Steps crc max_seg w (notify_step crc max_seg pw (before ++ rest ∷ after) w) =
        then_step here (notifies before after pw rest left refl) in
      let behind : (batch : List PendingWrite)
          → outstanding (before ++ batch ∷ after) ≡ batch ++ outstanding after =
        λ batch.
          outstanding-append before (batch ∷ after)
          ∙ ap (λ l. l ++ (batch ++ outstanding after)) z in
      record {
        end = n.end;
        steps = join first n.steps;
        only = join-OnlyNotifies first n.steps tt n.only;
        disk = n.disk;
        notified =
            n.notified
            ∙ ap (λ l. (w.notified ++ pw ∷ []) ++ l) (behind rest)
            ∙ append_assoc w.notified (pw ∷ []) (rest ++ outstanding after)
            ∙ ap (λ l. w.notified ++ l) (sym (behind (pw ∷ rest)))
            ∙ ap (λ l. w.notified ++ outstanding l) (sym left);
      }

  notify_batch :
      (after : List (List PendingWrite))
      → ((before : List (List PendingWrite)) (w : World)
          → w.written ≡ before ++ after
          → outstanding before ≡ []
          → Notified w)
      → (batch : List PendingWrite) (before : List (List PendingWrite)) (w : World)
      → w.written ≡ before ++ batch ∷ after
      → outstanding before ≡ []
      → Notified w
  notify_batch after next [] before w e z =
      next (before ++ [] ∷ []) w (e ∙ sym (append_assoc before ([] ∷ []) after))
        (outstanding-append before ([] ∷ []) ∙ ap (λ l. l ++ []) z)
  notify_batch after next (pw ∷ rest) before w e z = notify_first w before after pw rest e z (
      notify_batch after next rest before (notify_step crc max_seg pw (before ++ rest ∷ after) w)
        (unfold notify_step in refl) z)

  pub notify_written :
      (written before : List (List PendingWrite)) (w : World)
      → w.written ≡ before ++ written
      → outstanding before ≡ []
      → Notified w
  notify_written [] before w e z = record {
    end = w;
    steps = here;
    only = tt;
    disk = refl;
    notified =
        sym (append-nil w.notified)
        ∙ ap (λ l. w.notified ++ l) (sym (ap outstanding (e ∙ append-nil before) ∙ z));
  }
  notify_written (batch ∷ after) before w e z =
      notify_batch after (λ b v e' z'. notify_written after b v e' z') batch before w e z
