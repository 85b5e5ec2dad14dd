-- ===== src/Lsm/Wal/Segments.antt =====
-- storage-node/src/lsm/wal.rs, `flush_batch`, `replay` and `truncate_before`: the segments of a directory.
use wow_db.Prelude.{
  ℕ, ◌+◌, ◌≤◌, ◌<◌, ◌≡◌, refl, ap, sym, ◌∙◌, subst, ◌⊎◌, inl, inr, true, false, ◌&&◌, none, some,
  List, [], ◌∷◌, ◌++◌, map, map-append, append_assoc, append-nil, arith, All, All-append, Elem,
  here, there, Elem-cons, length, length-append, ltb, leb, nat_beq, nat_eq, lookup, insert, remove,
  lookup-remove, if◌then◌else◌, Bool-cases,
}
use wow_db.Prelude.Sorting.{sort_by, sort_by-last, All-sort_by}
use wow_db.Lsm.Wal.{
  Crc32, WalEntry, Dir, Segment, record_len, encode, file_of, all_seqs, replay_seqs, replay_segment,
  replay, open_segment, write, write_entry, flush_batch, open_wal, remove_below, truncate_before,
}
use wow_db.Lsm.Wal.Records.{
  IsEntry, encode_all, replay_segment-encode_all, length-encode, replay_segment-nil,
}

-- Every segment has a number below `k`.
abbrev pub Below : ℕ → Dir → Type 0
Below k = All (λ p. p.0 < k)

insert-last :
    (k : ℕ) (v w : List ℕ) (older : Dir)
    → Below k older
    → insert k v (older ++ (k, w) ∷ []) ≡ older ++ (k, v) ∷ []
unfolding insert
insert-last k v w [] h = ground arith
insert-last k v w ((j, u) ∷ older) h =
    let ih = insert-last k v w older h.1 in ground (arith, h.0, ih)

insert-new :
    (k : ℕ) (v : List ℕ) (older : Dir) → Below k older → insert k v older ≡ older ++ (k, v) ∷ []
unfolding insert
insert-new k v [] h = refl
insert-new k v ((j, u) ∷ older) h = let ih = insert-new k v older h.1 in ground (arith, h.0, ih)

lookup-last :
    (k : ℕ) (w : List ℕ) (older : Dir) → Below k older → lookup k (older ++ (k, w) ∷ []) ≡ some w
unfolding lookup
lookup-last k w [] h = ground arith
lookup-last k w ((j, u) ∷ older) h = let ih = lookup-last k w older h.1 in ground (arith, h.0, ih)

lookup-beyond : (k : ℕ) (older : Dir) → Below k older → lookup k older ≡ none
unfolding lookup
lookup-beyond k [] h = refl
lookup-beyond k ((j, u) ∷ older) h = let ih = lookup-beyond k older h.1 in ground (arith, h.0, ih)

lookup-older :
    (k j : ℕ) (w : List ℕ) (older : Dir) → j < k → lookup j (older ++ (k, w) ∷ []) ≡ lookup j older
unfolding lookup
lookup-older k j w [] h = ground arith
lookup-older k j w ((i, u) ∷ older) h = let ih = lookup-older k j w older h in ground (arith, ih)

Below-keys : (k : ℕ) (older : Dir) → Below k older → All (λ s. s < k) (map (λ p. p.0) older)
Below-keys k [] h = tt
Below-keys k ((j, u) ∷ older) h = (h.0, Below-keys k older h.1)

Below-le : (k : ℕ) (seqs : List ℕ) → All (λ s. s < k) seqs → All (λ s. leb s k ≡ true) seqs
Below-le k [] h = tt
Below-le k (s ∷ seqs) h = (ground (arith, h.0), Below-le k seqs h.1)

Below-mono : (j k : ℕ) (older : Dir) → j ≤ k → Below j older → Below k older
Below-mono j k [] h b = tt
Below-mono j k (p ∷ older) h b = (omega (arith, b.0), Below-mono j k older h b.1)

module _ (crc : Crc32) where
  replay_seqs-older :
      (k : ℕ) (w : List ℕ) (older : Dir) (seqs : List ℕ)
      → All (λ s. s < k) seqs
      → replay_seqs crc (older ++ (k, w) ∷ []) seqs ≡ replay_seqs crc older seqs
  unfolding replay_seqs
  replay_seqs-older k w older [] h = refl
  replay_seqs-older k w older (s ∷ seqs) h =
      let rest = replay_seqs-older k w older seqs h.1 in
      let same = lookup-older k s w older h.0 in rw (same, rest) refl

  replay_seqs-append :
      (dir : Dir) (xs : List ℕ) (k : ℕ) (w : List ℕ)
      → lookup k dir ≡ some w
      → replay_seqs crc dir (xs ++ k ∷ []) ≡ replay_seqs crc dir xs ++ replay_segment crc w
  unfolding replay_seqs
  replay_seqs-append dir [] k w h = rw (h, file_of) (append-nil _)
  replay_seqs-append dir (s ∷ xs) k w h =
      ap (λ r. replay_segment crc (file_of crc (lookup s dir)) ++ r)
        (replay_seqs-append dir xs k w h)
      ∙ sym (append_assoc _ (replay_seqs crc dir xs) (replay_segment crc w))

  -- The newest segment is read last.
  replay-last :
      (k : ℕ) (w : List ℕ) (older : Dir)
      → Below k older
      → replay crc (older ++ (k, w) ∷ []) ≡ replay crc older ++ replay_segment crc w
  unfolding replay all_seqs
  replay-last k w older h =
      let keys : List ℕ = map (λ p. p.0) older in
      let below = Below-keys k older h in
      ap (λ l. replay_seqs crc (older ++ (k, w) ∷ []) (sort_by leb l))
        (map-append _ older ((k, w) ∷ []))
      ∙ ap (replay_seqs crc (older ++ (k, w) ∷ []))
          (sort_by-last leb keys k (Below-le k keys below))
      ∙ replay_seqs-append (older ++ (k, w) ∷ []) (sort_by leb keys) k w (lookup-last k w older h)
      ∙ ap (λ r. r ++ replay_segment crc w)
          (replay_seqs-older k w older (sort_by leb keys) (All-sort_by leb (λ s. s < k) keys below))

  -- The open segment is the newest, its size is that of its file, and its file holds whole records.
  pub record IsWal (w : Dir × Segment) : Type 0 where
    pub older : Dir
    pub entries : List WalEntry
    pub dir : w.0 ≡ older ++ (w.1.seq, encode_all crc entries) ∷ []
    pub below : Below w.1.seq older
    pub size : w.1.size ≡ length (encode_all crc entries)
    pub valid : All IsEntry entries

  replay-IsWal :
      (w : Dir × Segment) (v : IsWal w) → replay crc w.0 ≡ replay crc v.older ++ v.entries
  replay-IsWal w v =
      ap (replay crc) v.dir
      ∙ replay-last w.1.seq (encode_all crc v.entries) v.older v.below
      ∙ ap (λ r. replay crc v.older ++ r)
          (ap (replay_segment crc) (sym (append-nil (encode_all crc v.entries)))
            ∙ replay_segment-encode_all crc v.entries [] v.valid
            ∙ ap (λ r. v.entries ++ r) (replay_segment-nil crc)
            ∙ append-nil v.entries)

  encode_all-append :
      (es : List WalEntry) (e : WalEntry)
      → encode_all crc es ++ encode crc e ≡ encode_all crc (es ++ e ∷ [])
  unfolding encode_all
  encode_all-append [] e = sym (append-nil (encode crc e))
  encode_all-append (x ∷ es) e =
      append_assoc (encode crc x) (encode_all crc es) (encode crc e)
      ∙ ap (λ r. encode crc x ++ r) (encode_all-append es e)

  write-IsWal :
      (w : Dir × Segment) (e : WalEntry) (v : IsWal w)
      → IsEntry e
      → (v' : IsWal (write crc w.0 w.1 e)) × (v'.older ≡ v.older)
        × (v'.entries ≡ v.entries ++ e ∷ [])
  unfolding write file_of
  write-IsWal w e v fits = (
    record {
      older = v.older;
      entries = v.entries ++ e ∷ [];
      dir =
          ap (λ d. insert w.1.seq (file_of crc (lookup w.1.seq d) ++ encode crc e) d) v.dir
          ∙ ap
              (λ o.
                insert w.1.seq (file_of crc o ++ encode crc e)
                  (v.older ++ (w.1.seq, encode_all crc v.entries) ∷ []))
              (lookup-last w.1.seq (encode_all crc v.entries) v.older v.below)
          ∙ insert-last w.1.seq (encode_all crc v.entries ++ encode crc e) _ v.older v.below
          ∙ ap (λ b. v.older ++ (w.1.seq, b) ∷ []) (encode_all-append v.entries e);
      below = v.below;
      size = omega (
        arith,
        v.size,
        length-encode crc e,
        length-append (encode_all crc v.entries) (encode crc e),
        ap length (encode_all-append v.entries e),
      );
      valid = All-append IsEntry v.entries (e ∷ []) v.valid (fits, tt);
    },
    refl,
    refl,
  )

  rotate-IsWal :
      (w : Dir × Segment) (v : IsWal w)
      → (v' : IsWal (open_segment crc w.0 (w.1.seq + 1))) × (v'.older ≡ w.0) × (v'.entries ≡ [])
  unfolding open_segment file_of encode_all
  rotate-IsWal w v =
      let all_below : Below (w.1.seq + 1) w.0 = subst (Below (w.1.seq + 1)) (sym v.dir) (
        All-append (λ p. p.0 < w.1.seq + 1) v.older ((w.1.seq, encode_all crc v.entries) ∷ [])
          (Below-mono w.1.seq (w.1.seq + 1) v.older (omega arith) v.below) (omega arith, tt)) in
      let fresh : lookup (w.1.seq + 1) w.0 ≡ none = lookup-beyond (w.1.seq + 1) w.0 all_below in
      (
        record {
          older = w.0;
          entries = [];
          dir =
              ap (λ o. insert (w.1.seq + 1) (file_of crc o) w.0) fresh
              ∙ insert-new (w.1.seq + 1) [] w.0 all_below;
          below = all_below;
          size = ap (λ o. length (file_of crc o)) fresh;
          valid = tt;
        },
        refl,
        refl,
      )

  write_entry-replay :
      (max_seg : ℕ) (w : Dir × Segment) (e : WalEntry)
      → IsWal w
      → IsEntry e
      → IsWal (write_entry crc max_seg w e)
        × (replay crc (write_entry crc max_seg w e).0 ≡ replay crc w.0 ++ e ∷ [])
  unfolding write_entry
  write_entry-replay max_seg w e v fits =
      elim (Bool-cases (ltb max_seg (w.1.size + record_len e))) [
        | inl full ↦
            let (vr, vr_older, vr_entries) = rotate-IsWal w v in
            let next : Dir × Segment = open_segment crc w.0 (w.1.seq + 1) in
            let (v', older, entries) = write-IsWal next e vr fits in
            rw full (
              v',
              replay-IsWal (write crc next.0 next.1 e) v'
                  ∙ ap (λ d. replay crc d ++ v'.entries) (older ∙ vr_older)
                  ∙ ap (λ es. replay crc w.0 ++ es) (entries ∙ ap (λ es. es ++ e ∷ []) vr_entries),
            )
        | inr room ↦
            let (v', older, entries) = write-IsWal w e v fits in
            rw room (
              v',
              replay-IsWal (write crc w.0 w.1 e) v'
                  ∙ ap (λ d. replay crc d ++ v'.entries) older
                  ∙ ap (λ es. replay crc v.older ++ es) entries
                  ∙ sym (append_assoc (replay crc v.older) v.entries (e ∷ []))
                  ∙ ap (λ r. r ++ e ∷ []) (sym (replay-IsWal w v)),
            )
      ]

  -- Flushing a batch to a log whose newest segment is open and whole: the log stays such, and replay
  -- gives the entries from before and then the batch, in order, across every rotation of segments.
  pub flush_batch-replay :
      (max_seg : ℕ) (w : Dir × Segment) (batch : List WalEntry)
      → IsWal w
      → All IsEntry batch
      → IsWal (flush_batch crc max_seg w batch)
        × (replay crc (flush_batch crc max_seg w batch).0 ≡ replay crc w.0 ++ batch)
  unfolding flush_batch
  flush_batch-replay max_seg w [] v fits = (v, sym (append-nil (replay crc w.0)))
  flush_batch-replay max_seg w (e ∷ batch) v fits =
      let (v', one) = write_entry-replay max_seg w e v fits.0 in
      let (v'', more) = flush_batch-replay max_seg (write_entry crc max_seg w e) batch v' fits.1 in
      (v'', more ∙ ap (λ r. r ++ batch) one ∙ append_assoc (replay crc w.0) (e ∷ []) batch)

  -- A new directory opens as an empty log.
  pub open_wal-IsWal : IsWal (open_wal crc [])
  unfolding open_wal file_of
  open_wal-IsWal = record {
    older = [];
    entries = [];
    dir = (unfold lookup insert encode_all in refl);
    below = tt;
    size = (unfold lookup encode_all in refl);
    valid = tt;
  }

  remove_below-lookup :
      (u c : ℕ) (seqs : List ℕ) (dir : Dir) (j : ℕ)
      → ((ltb j u && ltb j c) ≡ false → lookup j (remove_below crc u c seqs dir) ≡ lookup j dir)
        × ((ltb j u && ltb j c) ≡ true
            → (lookup j dir ≡ none) ⊎ Elem j seqs
            → lookup j (remove_below crc u c seqs dir) ≡ none)
  unfolding remove_below
  remove_below-lookup u c [] dir j = ((λ _. refl), λ _ o. elim o [ inl e ↦ e | inr m ↦ elim m [ ] ])
  remove_below-lookup u c (s ∷ seqs) dir j =
      let next : Dir = if ltb s u && ltb s c then remove s dir else dir in
      let (kept, gone) = remove_below-lookup u c seqs next j in
      (
        (λ h. kept h ∙ ground (arith, h, lookup-remove s j dir)),
        λ h o. gone h (elim o [
          | inl e ↦ inl (ground (arith, e, lookup-remove s j dir))
          | inr m ↦ elim (Elem-cons m) [
            | inl e ↦ inl (ground (arith, e, h, lookup-remove s j dir))
            | inr m' ↦ inr m'
          ]
        ]),
      )

  lookup-keys : (j : ℕ) (dir : Dir) → (lookup j dir ≡ none) ⊎ Elem j (all_seqs crc dir)
  unfolding lookup all_seqs
  lookup-keys j [] = inl refl
  lookup-keys j ((i, v) ∷ dir) = elim (Bool-cases (nat_beq i j)) [
    | inl e ↦ inr (subst (λ k. Elem k (i ∷ all_seqs crc dir)) (ground (arith, e)) here)
    | inr e ↦ elim (lookup-keys j dir) [ inl n ↦ inl (rw e n) | inr m ↦ inr (there m) ]
  ]

  -- Truncation deletes exactly the segments below the bound that are older than the open one.
  pub truncate_before-lookup :
      (up_to_seq : ℕ) (w : Dir × Segment) (j : ℕ)
      → lookup j (truncate_before crc up_to_seq w).0
        ≡ (if ltb j up_to_seq && ltb j w.1.seq then none else lookup j w.0)
  unfolding truncate_before
  truncate_before-lookup up_to_seq w j =
      let (kept, gone) = remove_below-lookup up_to_seq w.1.seq (all_seqs crc w.0) w.0 j in
      elim (Bool-cases (ltb j up_to_seq && ltb j w.1.seq)) [
        | inl e ↦ rw e (gone e (lookup-keys j w.0))
        | inr e ↦ rw e (kept e)
      ]
