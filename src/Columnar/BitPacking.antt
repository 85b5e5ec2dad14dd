-- ===== src/Columnar/BitPacking.antt =====
-- storage-node/src/columnar/encoding.rs: the bit-packed encoding. The accumulator is a u64 that shifts drop
-- digits from; a shift count is taken modulo 64, as in a release build.
pub mod Numbers
pub mod Decoding
pub mod RoundTrip
use Prim.Native.Nat.{bit_and, bit_or}
use wow_db.Prelude.{
  ℕ, zero, suc, ◌+◌, ◌-◌, ◌*◌, ◌/◌, ◌%◌, ◌^◌, max, Bool, true, false, List, [], ◌∷◌, ◌++◌, length,
  take, drop, ltb, leb, nat_beq, if◌then◌else◌,
}
use wow_db.Prelude.Bytes.{to_le_bytes, from_le_bytes}

-- `u32::BITS - leading_zeros`: the digits of a number, of at most `n`.
unfoldable pub bit_length : ℕ → ℕ → ℕ
bit_length zero x = 0
bit_length (suc n) x = let rest = bit_length n (x / 2) in if nat_beq x 0 then 0 else 1 + rest

unfoldable pub max_of : List ℕ → ℕ
max_of [] = 0
max_of (v ∷ vs) = max v (max_of vs)

unfoldable pub width_of : List ℕ → ℕ
width_of values = let m = max_of values in if nat_beq m 0 then 1 else bit_length 32 m

abbrev pub shl_u64 : ℕ → ℕ → ℕ
shl_u64 x k = (x * 2 ^ (k % 64)) % 2 ^ 64

-- The accumulator and how many of its digits are used.
pub record Packer : Type 0 where
  pub bits : ℕ
  pub used : ℕ

-- `while bits_used >= 8`, on fuel: the bytes that are put, and what stays.
unfoldable pub put_bytes : ℕ → Packer → List ℕ × Packer
put_bytes zero p = ([], p)
put_bytes (suc fuel) p =
    let rest = put_bytes fuel (record { bits = p.bits / 256; used = p.used - 8 }) in
    if leb 8 p.used then ((p.bits % 256) ∷ rest.0, rest.1) else ([], p)

-- Each turn takes eight digits, so the number of digits is fuel enough.
unfoldable pub put_all : Packer → List ℕ × Packer
put_all p = put_bytes p.used p

unfoldable pub add_value : ℕ → ℕ → Packer → Packer
add_value width v p = record {
  bits = bit_or p.bits (shl_u64 v p.used);
  used = (p.used + width) % 256;
}

-- The loop over the values, and the byte after it.
unfoldable pub pack_values : ℕ → List ℕ → Packer → List ℕ
pack_values width [] p = if ltb 0 p.used then (p.bits % 256) ∷ [] else []
pack_values width (v ∷ vs) p =
    let (out, p') = put_all (add_value width v p) in out ++ pack_values width vs p'

unfoldable pub bitpack_encode : List ℕ → List ℕ
bitpack_encode [] = []
bitpack_encode (v ∷ vs) =
    (width_of (v ∷ vs) % 256) ∷ to_le_bytes 4 (length (v ∷ vs) % 2 ^ 32)
    ++ pack_values (width_of (v ∷ vs) % 256) (v ∷ vs) (record { bits = 0; used = 0 })

-- The accumulator of the decoder, and the bytes that are left.
pub record Reader : Type 0 where
  pub bits : ℕ
  pub avail : ℕ
  pub payload : List ℕ

-- `while bits_avail < bit_width && byte_pos < payload.len()`
unfoldable pub refill : ℕ → ℕ → ℕ → List ℕ → Reader
refill width bits avail [] = record { bits = bits; avail = avail; payload = [] }
refill width bits avail (b ∷ bs) =
    let more = refill width (bit_or bits (shl_u64 b avail)) ((avail + 8) % 256) bs in
    if ltb avail width then more else record { bits = bits; avail = avail; payload = b ∷ bs }

unfoldable pub mask_of : ℕ → ℕ
mask_of width = if nat_beq width 32 then 2 ^ 32 - 1 else 2 ^ (width % 64) - 1

-- The loop of `0..n`.
unfoldable pub unpack_values : ℕ → ℕ → Reader → List ℕ
unfolding refill mask_of
unpack_values width zero r = []
unpack_values width (suc n) r =
    let r' = refill width r.bits r.avail r.payload in
    (bit_and r'.bits (mask_of width) % 2 ^ 32)
    ∷ unpack_values width n (record {
      bits = r'.bits / 2 ^ (width % 64);
      avail = r'.avail - width;
      payload = r'.payload;
    })

-- Fewer than five bytes are no values.
unfoldable pub bitpack_decode : List ℕ → List ℕ
unfolding unpack_values
bitpack_decode [] = []
bitpack_decode (w ∷ bytes) =
    if ltb (length (w ∷ bytes)) 5
    then []
    else unpack_values w (from_le_bytes (take 4 bytes))
        (record { bits = 0; avail = 0; payload = drop 4 bytes })
