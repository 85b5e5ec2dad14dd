-- ===== src/Lsm/Wal.antt =====
-- storage-node/src/lsm/wal.rs: the records of a segment and the segments of a directory.
-- The CRC of crc32fast is the parameter `Crc32`. The directory is a map from the number of a segment to
-- its bytes: a name `wal-{:010}.log` and its number are taken as one. Reads and writes succeed; what
-- a crash leaves of a segment is an argument of the theorems.
pub mod Records
pub mod Segments
pub mod GroupCommit
use wow_db.Prelude.{
  ℕ, zero, suc, ◌+◌, ◌*◌, ◌%◌, ◌^◌, ◌<◌, max, ◌≡◌, Bool, true, false, ◌&&◌, Option, none, some,
  List, [], ◌∷◌, ◌++◌, map, length, take, drop, ltb, leb, nat_beq, if◌then◌else◌, lookup, insert,
  remove, nat_eq,
}
use wow_db.Prelude.Bytes.{to_le_bytes, from_le_bytes}
use wow_db.Prelude.Sorting.{sort_by}

-- The state of the hasher is what it has been fed.
pub record Crc32 : Type 0 where
  pub hash : List ℕ → ℕ
  pub hash-lt : (bytes : List ℕ) → hash bytes < 2 ^ 32

abbrev pub record_header_size : ℕ
record_header_size = 16

abbrev pub default_max_segment_bytes : ℕ
default_max_segment_bytes = 64 * 1024 * 1024

abbrev pub default_max_batch_bytes : ℕ
default_max_batch_bytes = 4 * 1024 * 1024

pub record WalEntry : Type 0 where
  pub tx_id : ℕ
  pub payload : List ℕ

unfoldable pub record_len : WalEntry → ℕ
record_len e = record_header_size + length e.payload

abbrev pub Dir : Type 0
Dir = List (ℕ × List ℕ)

-- `BufWriter` and the file as one: `flush` comes at the end of every batch.
pub record Segment : Type 0 where
  pub size : ℕ
  pub seq : ℕ

module _ (crc : Crc32) where
  unfoldable pub checksum : ℕ → List ℕ → ℕ
  checksum tx_id payload = crc.hash (to_le_bytes 8 tx_id ++ payload)

  -- What `flush_batch` writes for one entry.
  unfoldable pub encode : WalEntry → List ℕ
  unfolding checksum
  encode e =
      to_le_bytes 4 (checksum e.tx_id e.payload)
      ++ (to_le_bytes 8 e.tx_id ++ (to_le_bytes 4 (length e.payload % 2 ^ 32) ++ e.payload))

  -- The loop of `replay_segment`, on fuel: a torn or corrupt record ends it.
  unfoldable pub replay_loop : ℕ → List ℕ → List WalEntry
  unfolding checksum
  replay_loop zero bytes = []
  replay_loop (suc fuel) bytes =
      let stored_crc = from_le_bytes (take 4 bytes) in
      let tx_id = from_le_bytes (take 8 (drop 4 bytes)) in
      let len = from_le_bytes (take 4 (drop 12 bytes)) in
      let body = drop 16 bytes in
      let payload = take len body in
      let rest = replay_loop fuel (drop len body) in
      if ltb (length bytes) record_header_size
      then []
      else if ltb (length body) len
      then []
      else if nat_beq (checksum tx_id payload) stored_crc
      then record { tx_id = tx_id; payload = payload } ∷ rest
      else []

  -- Each record has at least the bytes of its header.
  unfoldable pub replay_segment : List ℕ → List WalEntry
  unfolding replay_loop
  replay_segment bytes = replay_loop (suc (length bytes)) bytes

  unfoldable pub file_of : Option (List ℕ) → List ℕ
  file_of none = []
  file_of (some bytes) = bytes

  unfoldable pub all_seqs : Dir → List ℕ
  all_seqs dir = map (λ p. p.0) dir

  unfoldable pub replay_seqs : Dir → List ℕ → List WalEntry
  unfolding file_of
  replay_seqs dir [] = []
  replay_seqs dir (seq ∷ seqs) = replay_segment (file_of (lookup seq dir)) ++ replay_seqs dir seqs

  unfoldable pub replay : Dir → List WalEntry
  unfolding replay_seqs all_seqs
  replay dir = replay_seqs dir (sort_by leb (all_seqs dir))

  unfoldable pub latest_seq : List ℕ → ℕ
  latest_seq [] = 0
  latest_seq (seq ∷ seqs) = max seq (latest_seq seqs)

  -- The file is created where there is none; its length is the size.
  unfoldable pub open_segment : Dir → ℕ → Dir × Segment
  unfolding file_of
  open_segment dir seq =
      let bytes = file_of (lookup seq dir) in
      (insert seq bytes dir, record { size = length bytes; seq = seq })

  unfoldable pub write : Dir → Segment → WalEntry → Dir × Segment
  unfolding file_of
  write dir seg e = (
    insert seg.seq (file_of (lookup seg.seq dir) ++ encode e) dir,
    record seg { size = seg.size + record_len e },
  )

  -- A record that would pass the limit goes to a new segment.
  unfoldable pub write_entry : ℕ → Dir × Segment → WalEntry → Dir × Segment
  unfolding write open_segment
  write_entry max_seg (dir, seg) e =
      let (dir', seg') = open_segment dir (seg.seq + 1) in
      if ltb max_seg (seg.size + record_len e) then write dir' seg' e else write dir seg e

  unfoldable pub flush_batch : ℕ → Dir × Segment → List WalEntry → Dir × Segment
  unfolding write_entry
  flush_batch max_seg w [] = w
  flush_batch max_seg w (e ∷ es) = flush_batch max_seg (write_entry max_seg w e) es

  -- `open`, less the buffer and the spawned flusher.
  unfoldable pub open_wal : Dir → Dir × Segment
  unfolding open_segment latest_seq all_seqs
  open_wal dir = open_segment dir (latest_seq (all_seqs dir))

  -- Segments below both bounds are deleted.
  unfoldable pub remove_below : ℕ → ℕ → List ℕ → Dir → Dir
  remove_below up_to_seq current_seq [] dir = dir
  remove_below up_to_seq current_seq (seq ∷ seqs) dir =
      remove_below up_to_seq current_seq seqs
        (if ltb seq up_to_seq && ltb seq current_seq then remove seq dir else dir)

  unfoldable pub truncate_before : ℕ → Dir × Segment → Dir × Segment
  unfolding remove_below all_seqs
  truncate_before up_to_seq (dir, seg) = (remove_below up_to_seq seg.seq (all_seqs dir) dir, seg)
