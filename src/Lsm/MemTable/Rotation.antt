-- ===== src/Lsm/MemTable/Rotation.antt =====
-- storage-node/src/lsm/memtable.rs, `MemTableSet`: the rows through insertions, freezes and flushes.
use mathlib.Core.List.{Perm, perm_middle}
use mathlib.Core.List.Perm
use wow_db.Prelude.{
  ℕ, String, ◌+◌, ◌%◌, ◌^◌, ◌≤◌, ◌<◌, ◌≡◌, refl, ap, ◌∙◌, sym, subst, inl, inr, Bool, true, false,
  Option, none, some, List, [], ◌∷◌, ◌++◌, append_assoc, append-nil, arith, All, length, Bool-cases,
}
use wow_db.Lsm.MemTable.{
  SortKey, MemKey, Entry, SkipMap, ImmutableMemTable, new_table, is_full, put_row, insert, freeze,
  MemTableSet, new_set, insert_active, try_freeze, insert_set, pop_immutable,
}

-- The steps of the threads: the two halves of an insertion, and the flush that takes a frozen table.
pub data Call : Type 0 where
  inserts : SortKey → List (String × List ℕ) → ℕ → Call
  freezes : Bool → Call
  pops : Call

-- The entries that the insertions make, the counter being `seq` at first.
unfoldable pub written : ℕ → List Call → List Entry
written seq [] = []
written seq (inserts k columns tx_id ∷ cs) =
    (
      record { sort_key = k; seq = seq },
      record { columns = columns; tx_id = tx_id; deleted = false },
    )
    ∷ written (seq + 1) cs
written seq (freezes locked ∷ cs) = written seq cs
written seq (pops ∷ cs) = written seq cs

unfoldable pub entries_of : List ImmutableMemTable → List Entry
entries_of [] = []
entries_of (t ∷ ts) = t.entries ++ entries_of ts

entries_of-append :
    (ts us : List ImmutableMemTable) → entries_of (ts ++ us) ≡ entries_of ts ++ entries_of us
unfolding entries_of
entries_of-append [] us = refl
entries_of-append (t ∷ ts) us =
    ap (λ r. t.entries ++ r) (entries_of-append ts us)
    ∙ sym (append_assoc t.entries (entries_of ts) (entries_of us))

Perm-of_eq {ℓ} : {A : Type ℓ} {xs ys : List A} → xs ≡ ys → Perm xs ys
Perm-of_eq {A} {xs} {ys} e = subst (Perm xs) e (Perm.refl xs)

add_between {ℓ} :
    {A : Type ℓ} (x : A) (xs ys zs : List A)
    → Perm zs (x ∷ ys)
    → Perm (xs ++ zs) ((xs ++ ys) ++ x ∷ [])
add_between x xs ys zs p = Perm.trans (Perm.append (Perm.refl xs) p) (
    Perm.trans (perm_middle xs ys) (
      Perm.symm (
        subst (λ l. Perm ((xs ++ ys) ++ x ∷ []) (x ∷ l)) (append-nil (xs ++ ys))
          (perm_middle (xs ++ ys) []))))

module _ (skip : SkipMap) where
  open skip use {iter, iter-new_map, iter-insert_map, All-insert_map}

  -- What has been flushed, with the set.
  abbrev pub World : Type 0
  World = MemTableSet skip × List ImmutableMemTable

  unfoldable pub flush :
      MemTableSet skip × Option ImmutableMemTable → List ImmutableMemTable → World
  flush (s, none) flushed = (s, flushed)
  flush (s, some t) flushed = (s, flushed ++ t ∷ [])

  unfoldable pub step : Call → World → World
  unfolding flush
  step (inserts k columns tx_id) (s, flushed) = ((insert_active skip k columns tx_id s).0, flushed)
  step (freezes locked) (s, flushed) = (try_freeze skip locked s, flushed)
  step pops (s, flushed) = flush (pop_immutable skip s) flushed

  unfoldable pub run : List Call → World → World
  unfolding step
  run [] w = w
  run (c ∷ cs) w = run cs (step c w)

  -- Every row, flushed, frozen or active.
  abbrev pub rows : World → List Entry
  rows w = entries_of (w.1 ++ w.0.immutable) ++ iter w.0.active.rows

  -- The counter is beyond every sequence number of the active table.
  abbrev pub IsFresh : World → Type 0
  IsFresh w = All (λ p. p.0.seq < w.0.seq_gen) (iter w.0.active.rows)

  -- The entries that one call makes.
  abbrev made : Call → World → List Entry
  made c w = written w.0.seq_gen (c ∷ [])

  All-weaken {ℓ κ μ} :
      {A : Type ℓ} (P : A → Type κ) (Q : A → Type μ) (xs : List A)
      → ((x : A) → P x → Q x)
      → All P xs
      → All Q xs
  All-weaken P Q [] f a = tt
  All-weaken P Q (x ∷ xs) f a = (f x a.0, All-weaken P Q xs f a.1)

  -- The next number of the counter.
  abbrev next : Call → ℕ → ℕ
  next (inserts k columns tx_id) seq = seq + 1
  next (freezes locked) seq = seq
  next pops seq = seq

  step-seq_gen :
      (c : Call) (w : World) → w.0.seq_gen + 1 < 2 ^ 64 → (step c w).0.seq_gen ≡ next c w.0.seq_gen
  unfolding step insert_active insert put_row try_freeze pop_immutable flush
  step-seq_gen (inserts k columns tx_id) w h = ground (arith, h)
  step-seq_gen (freezes locked) w h = ground arith
  step-seq_gen pops w h = ground arith

  insert-IsFresh :
      (k : SortKey) (columns : List (String × List ℕ)) (tx_id : ℕ) (w : World)
      → w.0.seq_gen + 1 < 2 ^ 64
      → IsFresh w
      → IsFresh (step (inserts k columns tx_id) w)
  unfolding step insert_active insert put_row
  insert-IsFresh k columns tx_id w h f =
      let more : w.0.seq_gen < (w.0.seq_gen + 1) % 2 ^ 64 = omega (arith, h) in
      All-insert_map (λ p. p.0.seq < (w.0.seq_gen + 1) % 2 ^ 64) _ _ w.0.active.rows more
        (All-weaken _ _ (iter w.0.active.rows) (λ p l. omega (arith, l, more)) f)

  freeze-IsFresh : (locked : Bool) (w : World) → IsFresh w → IsFresh (step (freezes locked) w)
  unfolding step try_freeze new_table
  freeze-IsFresh true w f = f
  freeze-IsFresh false w f = elim (Bool-cases (is_full skip w.0.active)) [
    | inl e ↦ rw (e, step, try_freeze) (rw iter-new_map tt)
    | inr e ↦ rw (e, step, try_freeze) f
  ]

  pop-IsFresh : (w : World) → IsFresh w → IsFresh (step pops w)
  unfolding step pop_immutable flush
  pop-IsFresh w f = by_list w.0.immutable f
    where
      by_list :
          (l : List ImmutableMemTable)
          → IsFresh w
          → IsFresh (flush (pop_immutable skip (record (w.0) { immutable = l })) w.1)
      by_list [] f = f
      by_list (t ∷ ts) f = f

  step-IsFresh : (c : Call) (w : World) → w.0.seq_gen + 1 < 2 ^ 64 → IsFresh w → IsFresh (step c w)
  step-IsFresh (inserts k columns tx_id) w h f = insert-IsFresh k columns tx_id w h f
  step-IsFresh (freezes locked) w h f = freeze-IsFresh locked w f
  step-IsFresh pops w h f = pop-IsFresh w f

  insert-rows :
      (k : SortKey) (columns : List (String × List ℕ)) (tx_id : ℕ) (w : World)
      → IsFresh w
      → Perm (rows (step (inserts k columns tx_id) w)) (rows w ++ made (inserts k columns tx_id) w)
  unfolding step insert_active insert put_row written
  insert-rows k columns tx_id w f =
      add_between _ (entries_of (w.1 ++ w.0.immutable)) (iter w.0.active.rows) _ (
        iter-insert_map _ _ w.0.active.rows (
          All-weaken _ _ (iter w.0.active.rows)
            (λ p l same. absurd (omega (arith, l, ap (λ (q : MemKey). q.seq) same))) f))

  freeze-rows : (locked : Bool) (w : World) → rows (step (freezes locked) w) ≡ rows w
  unfolding step try_freeze new_table freeze entries_of
  freeze-rows true w = refl
  freeze-rows false w = elim (Bool-cases (is_full skip w.0.active)) [
    | inl e ↦
        rw (e, step, try_freeze)
          (rw iter-new_map (
            append-nil (entries_of (w.1 ++ (w.0.immutable ++ freeze skip w.0.active ∷ [])))
            ∙ ap entries_of (sym (append_assoc w.1 w.0.immutable (freeze skip w.0.active ∷ [])))
            ∙ entries_of-append (w.1 ++ w.0.immutable) (freeze skip w.0.active ∷ [])
            ∙ ap (λ r. entries_of (w.1 ++ w.0.immutable) ++ r) (append-nil (iter w.0.active.rows))))
    | inr e ↦ rw (e, step, try_freeze) refl
  ]

  pop-rows : (w : World) → rows (step pops w) ≡ rows w
  unfolding step pop_immutable flush
  pop-rows w = by_list w.0.immutable
    where
      by_list :
          (l : List ImmutableMemTable)
          → rows (flush (pop_immutable skip (record (w.0) { immutable = l })) w.1)
            ≡ rows (record (w.0) { immutable = l }, w.1)
      by_list [] = refl
      by_list (t ∷ ts) =
          ap (λ r. entries_of r ++ iter w.0.active.rows) (append_assoc w.1 (t ∷ []) ts)

  step-rows : (c : Call) (w : World) → IsFresh w → Perm (rows (step c w)) (rows w ++ made c w)
  unfolding written
  step-rows (inserts k columns tx_id) w f = insert-rows k columns tx_id w f
  step-rows (freezes locked) w f = Perm-of_eq (freeze-rows locked w ∙ sym (append-nil (rows w)))
  step-rows pops w f = Perm-of_eq (pop-rows w ∙ sym (append-nil (rows w)))

  written-cons :
      (seq : ℕ) (c : Call) (cs : List Call)
      → written seq (c ∷ []) ++ written (next c seq) cs ≡ written seq (c ∷ cs)
  unfolding written
  written-cons seq (inserts k columns tx_id) cs = refl
  written-cons seq (freezes locked) cs = refl
  written-cons seq pops cs = refl

  next-le : (c : Call) (seq : ℕ) → next c seq ≤ seq + 1
  next-le (inserts k columns tx_id) seq = omega arith
  next-le (freezes locked) seq = omega arith
  next-le pops seq = omega arith

  run-rows :
      (cs : List Call) (w : World)
      → IsFresh w
      → w.0.seq_gen + length cs < 2 ^ 64
      → Perm (rows (run cs w)) (rows w ++ written w.0.seq_gen cs)
  unfolding run written
  run-rows [] w f h = Perm-of_eq (sym (append-nil (rows w)))
  run-rows (c ∷ cs) w f h =
      let moved = step-seq_gen c w (omega (arith, h)) in
      let ih =
        run-rows cs (step c w) (step-IsFresh c w (omega (arith, h)) f)
          (omega (arith, h, moved, next-le c w.0.seq_gen)) in
      Perm.trans ih (
        Perm.trans (Perm.append (step-rows c w f) (Perm.refl (written (step c w).0.seq_gen cs))) (
          Perm-of_eq (
            append_assoc (rows w) (made c w) (written (step c w).0.seq_gen cs)
            ∙ ap (λ n. rows w ++ (made c w ++ written n cs)) moved
            ∙ ap (λ l. rows w ++ l) (written-cons w.0.seq_gen c cs))))

  -- Whatever the order of the threads' steps, fewer than 2 ^ 64 of them: the rows that have been flushed,
  -- those that are frozen and those in the active table are together the rows that were inserted, each
  -- once, each with its own sequence number.
  pub rows-run :
      (threshold : ℕ) (cs : List Call)
      → length cs < 2 ^ 64
      → Perm (rows (run cs (new_set skip threshold, []))) (written 0 cs)
  unfolding new_set new_table
  rows-run threshold cs h =
      let none_yet : rows (new_set skip threshold, []) ≡ [] = unfold entries_of in iter-new_map in
      subst (λ l. Perm (rows (run cs (new_set skip threshold, []))) (l ++ written 0 cs)) none_yet
        (run-rows cs (new_set skip threshold, []) (rw iter-new_map tt) (omega (arith, h)))

  -- After an insertion that is not kept from freezing, the active table is not full, where the
  -- threshold of the set is positive.
  insert_set_not_full :
      (k : SortKey) (columns : List (String × List ℕ)) (tx_id : ℕ) (s : MemTableSet skip)
      → 0 < s.threshold
      → is_full skip (insert_set skip false k columns tx_id s).active ≡ false
  unfolding insert_set insert_active insert put_row try_freeze is_full new_table
  insert_set_not_full k columns tx_id s h = ground (arith, h)
