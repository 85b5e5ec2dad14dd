-- ===== src/Examples/Wal.antt =====
-- storage-node/src/lsm/wal.rs at concrete inputs.
use wow_db.Prelude.{◌%◌, ◌^◌, ◌≡◌, ◌≢◌, List, [], ◌∷◌, ◌++◌, length, take, nat_eq, arith}
use wow_db.Prelude.Bytes.{to_le_bytes}
use wow_db.Lsm.Wal.{
  Crc32, WalEntry, Dir, Segment, checksum, replay_segment, replay, open_wal, flush_batch,
}
use wow_db.Lsm.Wal.Records.{
  IsEntry, encode_all, raw, whole_within, replay_segment-take, replay_segment-corrupt,
}
use wow_db.Lsm.Wal.Segments.{IsWal, open_wal-IsWal, flush_batch-replay}

abbrev pub length_crc : Crc32
length_crc = record { hash = λ bytes. length bytes % 2 ^ 32; hash-lt = λ bytes. omega arith }

abbrev pub first_entry : WalEntry
first_entry = record { tx_id = 7; payload = 1 ∷ 2 ∷ [] }

abbrev pub second_entry : WalEntry
second_entry = record { tx_id = 8; payload = 3 ∷ [] }

abbrev two_entries : List WalEntry
two_entries = first_entry ∷ second_entry ∷ []

pub first_entry-IsEntry : IsEntry first_entry
first_entry-IsEntry = record { tx_id = omega arith; payload = omega arith }

pub second_entry-IsEntry : IsEntry second_entry
second_entry-IsEntry = record { tx_id = omega arith; payload = omega arith }

abbrev new_wal : Dir × Segment
new_wal = open_wal length_crc []

-- A limit of 20 bytes puts the second record in a segment of its own.
flush_batch-replay_example :
    IsWal length_crc (flush_batch length_crc 20 new_wal two_entries)
    × (replay length_crc (flush_batch length_crc 20 new_wal two_entries).0
        ≡ replay length_crc new_wal.0 ++ two_entries)
flush_batch-replay_example =
    flush_batch-replay length_crc 20 new_wal two_entries (open_wal-IsWal length_crc)
      (first_entry-IsEntry, (second_entry-IsEntry, tt))

replay_segment-take_example :
    replay_segment length_crc (take 20 (encode_all length_crc two_entries))
    ≡ whole_within length_crc 20 two_entries
replay_segment-take_example =
    replay_segment-take length_crc 20 two_entries (first_entry-IsEntry, (second_entry-IsEntry, tt))

nine_is_not_eleven : checksum length_crc 8 (3 ∷ []) ≢ 11
unfolding checksum to_le_bytes
nine_is_not_eleven h = absurd (omega (arith, h))

replay_segment-corrupt_example :
    replay_segment length_crc (
      encode_all length_crc (first_entry ∷ [])
      ++ raw length_crc 11 second_entry (encode_all length_crc two_entries))
    ≡ first_entry ∷ []
replay_segment-corrupt_example =
    replay_segment-corrupt length_crc (first_entry ∷ []) 11 second_entry
      (encode_all length_crc two_entries) (first_entry-IsEntry, tt) second_entry-IsEntry
      (omega arith) nine_is_not_eleven
