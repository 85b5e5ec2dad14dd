-- ===== src/Lsm/Wal/Records.antt =====
-- storage-node/src/lsm/wal.rs, `flush_batch` and `replay_segment`: the records of one segment.
use wow_db.Prelude.{
  ℕ, zero, suc, ◌+◌, ◌-◌, ◌%◌, ◌^◌, ◌≤◌, ◌<◌, ◌≡◌, ◌≢◌, refl, ap, sym, ◌∙◌, subst, inl, inr, false,
  List, [], ◌∷◌, ◌++◌, append_assoc, append-nil, arith, All, length, take, drop, length-append,
  take-append, take-beyond, take-drop-take, take-nil, length-take-le, drop-append, length-drop, ltb,
  leb, nat_beq, nat_beq_iff, if◌then◌else◌, Bool-cases,
}
use native.Mathlib.Nat.{mod-eq_of_lt}
use wow_db.Prelude.Bytes.{to_le_bytes, from_le_bytes, length-to_le_bytes, from_le_bytes-to_le_bytes}
use wow_db.Lsm.Wal.{Crc32, WalEntry, record_len, checksum, encode, replay_loop, replay_segment}

-- The fields fit their widths.
pub record IsEntry (e : WalEntry) : Type 0 where
  pub tx_id : e.tx_id < 2 ^ 64
  pub payload : length e.payload < 2 ^ 32

take-append_of {ℓ} : {A : Type ℓ} (n : ℕ) (xs ys : List A) → length xs ≡ n → take n (xs ++ ys) ≡ xs
take-append_of n xs ys h = subst (λ k. take k (xs ++ ys) ≡ xs) h (take-append xs ys)

drop-append_of {ℓ} : {A : Type ℓ} (n : ℕ) (xs ys : List A) → length xs ≡ n → drop n (xs ++ ys) ≡ ys
drop-append_of n xs ys h = subst (λ k. drop k (xs ++ ys) ≡ ys) h (drop-append xs ys)

module _ (crc : Crc32) where
  unfoldable pub encode_all : List WalEntry → List ℕ
  encode_all [] = []
  encode_all (e ∷ es) = encode crc e ++ encode_all es

  -- A record with a given checksum field, and what follows it.
  abbrev pub raw : ℕ → WalEntry → List ℕ → List ℕ
  raw sum e rest =
      to_le_bytes 4 sum
      ++ (to_le_bytes 8 e.tx_id
          ++ (to_le_bytes 4 (length e.payload % 2 ^ 32) ++ (e.payload ++ rest)))

  encode-append :
      (e : WalEntry) (rest : List ℕ)
      → encode crc e ++ rest ≡ raw (checksum crc e.tx_id e.payload) e rest
  unfolding encode
  encode-append e rest = simp append_assoc

  length-raw :
      (sum : ℕ) (e : WalEntry) (rest : List ℕ)
      → length (raw sum e rest) ≡ 16 + length e.payload + length rest
  length-raw sum e rest =
      let a : List ℕ = to_le_bytes 4 sum in
      let b : List ℕ = to_le_bytes 8 e.tx_id in
      let c : List ℕ = to_le_bytes 4 (length e.payload % 2 ^ 32) in
      omega (
        arith,
        length-append a (b ++ (c ++ (e.payload ++ rest))),
        length-append b (c ++ (e.payload ++ rest)),
        length-append c (e.payload ++ rest),
        length-append e.payload rest,
        length-to_le_bytes 4 sum,
        length-to_le_bytes 8 e.tx_id,
        length-to_le_bytes 4 (length e.payload % 2 ^ 32),
      )

  -- What the header of a record reads as.
  record Reads (sum : ℕ) (e : WalEntry) (rest bytes : List ℕ) : Type 0 where
    stored_crc : from_le_bytes (take 4 bytes) ≡ sum
    tx_id : from_le_bytes (take 8 (drop 4 bytes)) ≡ e.tx_id
    len : from_le_bytes (take 4 (drop 12 bytes)) ≡ length e.payload
    body : drop 16 bytes ≡ e.payload ++ rest

  raw-Reads :
      (sum : ℕ) (e : WalEntry) (rest : List ℕ)
      → sum < 2 ^ 32
      → IsEntry e
      → Reads sum e rest (raw sum e rest)
  raw-Reads sum e rest fits v =
      let a : List ℕ = to_le_bytes 4 sum in
      let b : List ℕ = to_le_bytes 8 e.tx_id in
      let c : List ℕ = to_le_bytes 4 (length e.payload % 2 ^ 32) in
      let la : length a ≡ 4 = length-to_le_bytes 4 sum in
      let lb : length b ≡ 8 = length-to_le_bytes 8 e.tx_id in
      let lc : length c ≡ 4 = length-to_le_bytes 4 (length e.payload % 2 ^ 32) in
      let tail : List ℕ = e.payload ++ rest in
      let whole : length e.payload % 2 ^ 32 ≡ length e.payload = mod-eq_of_lt v.payload in
      record {
        stored_crc =
            ap from_le_bytes (take-append_of 4 a (b ++ (c ++ tail)) la)
            ∙ from_le_bytes-to_le_bytes 4 sum fits;
        tx_id =
            ap (λ l. from_le_bytes (take 8 l)) (drop-append_of 4 a (b ++ (c ++ tail)) la)
            ∙ ap from_le_bytes (take-append_of 8 b (c ++ tail) lb)
            ∙ from_le_bytes-to_le_bytes 8 e.tx_id v.tx_id;
        len =
            ap (λ l. from_le_bytes (take 4 (drop 12 l))) (sym (append_assoc a b (c ++ tail)))
            ∙ ap (λ l. from_le_bytes (take 4 l))
                (drop-append_of 12 (a ++ b) (c ++ tail) (omega (arith, length-append a b)))
            ∙ ap from_le_bytes (take-append_of 4 c tail lc)
            ∙ from_le_bytes-to_le_bytes 4 (length e.payload % 2 ^ 32) (omega arith)
            ∙ whole;
        body =
            ap (drop 16) (sym (append_assoc a b (c ++ tail)) ∙ sym (append_assoc (a ++ b) c tail))
            ∙ drop-append_of 16 ((a ++ b) ++ c) tail
                (omega (arith, length-append a b, length-append (a ++ b) c));
      }

  replay_loop-Reads :
      (fuel sum : ℕ) (e : WalEntry) (rest bytes : List ℕ)
      → Reads sum e rest bytes
      → length bytes ≡ 16 + length e.payload + length rest
      → replay_loop crc (suc fuel) bytes ≡ (
          if nat_beq (checksum crc e.tx_id e.payload) sum
          then e ∷ replay_loop crc fuel rest
          else [])
  unfolding replay_loop
  replay_loop-Reads fuel sum e rest bytes r l =
      let b : drop 16 bytes ≡ e.payload ++ rest = r.body in
      let t : take (length e.payload) (e.payload ++ rest) ≡ e.payload =
        take-append e.payload rest in
      let d : drop (length e.payload) (e.payload ++ rest) ≡ rest = drop-append e.payload rest in
      ground (arith, r.stored_crc, r.tx_id, r.len, b, t, d, l, length-append e.payload rest)

  replay_loop-raw :
      (fuel sum : ℕ) (e : WalEntry) (rest : List ℕ)
      → sum < 2 ^ 32
      → IsEntry e
      → replay_loop crc (suc fuel) (raw sum e rest) ≡ (
          if nat_beq (checksum crc e.tx_id e.payload) sum
          then e ∷ replay_loop crc fuel rest
          else [])
  replay_loop-raw fuel sum e rest fits v =
      replay_loop-Reads fuel sum e rest (raw sum e rest) (raw-Reads sum e rest fits v)
        (length-raw sum e rest)

  replay_loop-fuel :
      (f g : ℕ) (bytes : List ℕ)
      → length bytes < f
      → length bytes < g
      → replay_loop crc f bytes ≡ replay_loop crc g bytes
  unfolding replay_loop
  replay_loop-fuel zero g bytes h k = absurd (omega arith)
  replay_loop-fuel (suc f) zero bytes h k = absurd (omega arith)
  replay_loop-fuel (suc f) (suc g) bytes h k =
      let len : ℕ = from_le_bytes (take 4 (drop 12 bytes)) in
      ground (
        arith,
        replay_loop-fuel f g (drop len (drop 16 bytes)),
        length-drop 16 bytes,
        length-drop len (drop 16 bytes),
      )

  replay_segment-encode :
      (e : WalEntry) (rest : List ℕ)
      → IsEntry e
      → replay_segment crc (encode crc e ++ rest) ≡ e ∷ replay_segment crc rest
  unfolding replay_segment
  replay_segment-encode e rest v =
      let sum : ℕ = checksum crc e.tx_id e.payload in
      let bytes : List ℕ = raw sum e rest in
      let step : replay_loop crc (suc (length bytes)) bytes
          ≡ e ∷ replay_loop crc (length bytes) rest =
        replay_loop-raw (length bytes) sum e rest (unfold checksum in crc.hash-lt _) v
        ∙ rw ((nat_beq_iff sum sum).1 refl) refl in
      ap (λ b. replay_loop crc (suc (length b)) b) (encode-append e rest)
      ∙ step
      ∙ ap (λ r. e ∷ r)
          (replay_loop-fuel (length bytes) (suc (length rest)) rest
            (omega (arith, length-raw sum e rest)) (omega arith))

  pub replay_segment-nil : replay_segment crc [] ≡ []
  unfolding replay_segment replay_loop
  replay_segment-nil = refl

  -- What is written is read back, and what follows it is read next.
  pub replay_segment-encode_all :
      (es : List WalEntry) (rest : List ℕ)
      → All IsEntry es
      → replay_segment crc (encode_all es ++ rest) ≡ es ++ replay_segment crc rest
  unfolding encode_all
  replay_segment-encode_all [] rest v = refl
  replay_segment-encode_all (e ∷ es) rest v =
      ap (replay_segment crc) (append_assoc (encode crc e) (encode_all es) rest)
      ∙ replay_segment-encode e (encode_all es ++ rest) v.0
      ∙ ap (λ r. e ∷ r) (replay_segment-encode_all es rest v.1)

  -- A record whose stored checksum is not that of its contents ends the replay of its segment: the
  -- entries before it are read, and nothing behind it is, whatever has been appended there.
  pub replay_segment-corrupt :
      (es : List WalEntry) (sum : ℕ) (e : WalEntry) (rest : List ℕ)
      → All IsEntry es
      → IsEntry e
      → sum < 2 ^ 32
      → checksum crc e.tx_id e.payload ≢ sum
      → replay_segment crc (encode_all es ++ raw sum e rest) ≡ es
  unfolding replay_segment
  replay_segment-corrupt es sum e rest vs v fits bad =
      replay_segment-encode_all es (raw sum e rest) vs
      ∙ ap (λ r. es ++ r) (replay_loop-raw (length (raw sum e rest)) sum e rest fits v ∙ mismatch)
      ∙ append-nil es
    where
      mismatch :
          (if nat_beq (checksum crc e.tx_id e.payload) sum
            then e ∷ replay_loop crc (length (raw sum e rest)) rest
            else [])
          ≡ []
      mismatch = ground (arith, bad)

  ltb-false : (a b : ℕ) → ltb a b ≡ false → b ≤ a
  ltb-false a b h = ground arith

  -- The entries whose records lie whole within the first `k` bytes.
  unfoldable pub whole_within : ℕ → List WalEntry → List WalEntry
  whole_within k [] = []
  whole_within k (e ∷ es) =
      let rest = whole_within (k - record_len e) es in if leb (record_len e) k then e ∷ rest else []

  pub length-encode : (e : WalEntry) → length (encode crc e) ≡ record_len e
  unfolding record_len
  length-encode e =
      ap length (sym (append-nil (encode crc e)) ∙ encode-append e [])
      ∙ length-raw (checksum crc e.tx_id e.payload) e []
      ∙ omega arith

  replay_loop-short_body :
      (fuel : ℕ) (bytes : List ℕ)
      → length (drop 16 bytes) < from_le_bytes (take 4 (drop 12 bytes))
      → replay_loop crc (suc fuel) bytes ≡ []
  unfolding replay_loop
  replay_loop-short_body fuel bytes h = ground arith

  replay_loop-short_header :
      (fuel : ℕ) (bytes : List ℕ) → length bytes < 16 → replay_loop crc (suc fuel) bytes ≡ []
  unfolding replay_loop
  replay_loop-short_header fuel bytes h = ground arith

  replay_segment-torn :
      (k : ℕ) (e : WalEntry) (rest : List ℕ)
      → IsEntry e
      → k < record_len e
      → replay_segment crc (take k (encode crc e ++ rest)) ≡ []
  unfolding replay_segment record_len
  replay_segment-torn k e rest v short =
      let bytes : List ℕ = encode crc e ++ rest in
      let cut : List ℕ = take k bytes in
      let lc : length cut ≤ k = length-take-le k bytes in
      let lb : length (drop 16 cut) ≡ length cut - 16 = length-drop 16 cut in
      elim (Bool-cases (ltb k 16)) [
        | inl e' ↦ replay_loop-short_header (length cut) cut (ground (arith, lc, e'))
        | inr e' ↦
            let same : take 4 (drop 12 cut) ≡ take 4 (drop 12 bytes) =
              take-drop-take 4 12 k bytes (ground (arith, e')) in
            let len : from_le_bytes (take 4 (drop 12 cut)) ≡ length e.payload =
              ap from_le_bytes same
              ∙ ap (λ l. from_le_bytes (take 4 (drop 12 l))) (encode-append e rest)
              ∙ (raw-Reads (checksum crc e.tx_id e.payload) e rest
                  (unfold checksum in crc.hash-lt _) v).len in
            replay_loop-short_body (length cut) cut
              (omega (arith, lc, lb, len, short, ltb-false k 16 e'))
      ]

  -- After a crash that leaves the first `k` bytes of a segment, whatever `k`, replay gives exactly the
  -- entries whose records lie whole within them, in order.
  pub replay_segment-take :
      (k : ℕ) (es : List WalEntry)
      → All IsEntry es
      → replay_segment crc (take k (encode_all es)) ≡ whole_within k es
  unfolding encode_all whole_within
  replay_segment-take k [] v = ap (replay_segment crc) (take-nil k) ∙ replay_segment-nil
  replay_segment-take k (e ∷ es) v = elim (Bool-cases (leb (record_len e) k)) [
    | inl fits ↦ rw fits (
        ap (replay_segment crc)
          (take-beyond k (encode crc e) (encode_all es) (ground (arith, fits, length-encode e)))
        ∙ replay_segment-encode e (take (k - length (encode crc e)) (encode_all es)) v.0
        ∙ ap (λ n. e ∷ replay_segment crc (take (k - n) (encode_all es))) (length-encode e)
        ∙ ap (λ r. e ∷ r) (replay_segment-take (k - record_len e) es v.1))
    | inr torn ↦ rw torn (replay_segment-torn k e (encode_all es) v.0 (ground (arith, torn)))
  ]
