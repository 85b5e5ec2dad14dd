-- ===== src/Columnar/BitPacking/RoundTrip.antt =====
-- The bytes of a packed column are the number whose digits are the values.
use wow_db.Prelude.{
  ℕ, zero, suc, ◌+◌, ◌-◌, ◌*◌, ◌/◌, ◌%◌, ◌^◌, ◌≤◌, ◌<◌, ◌≡◌, refl, ap, sym, ◌∙◌, List, [], ◌∷◌,
  ◌++◌, arith, inl, inr, All, All-append, length-append, take-append, drop-append, take, drop,
  length, nat_beq, ltb, leb, false, Bool-cases,
}
use wow_db.Prelude.Bytes.{to_le_bytes, from_le_bytes, from_le_bytes-to_le_bytes, length-to_le_bytes}
use native.Mathlib.Nat.{pow-suc}
use wow_db.Columnar.BitPacking.{
  unpack_values, bit_length, max_of, width_of, Packer, put_bytes, put_all, add_value, pack_values,
  bitpack_encode, bitpack_decode,
}
use wow_db.Columnar.BitPacking.Numbers.{unpacked, packed, unpacked-packed, pow-add, pow-le}
use wow_db.Columnar.BitPacking.Decoding.{or-field, field-lt, unpack_values-unpacked}

-- What the inner loop leaves: fewer than eight digits, above the bytes that it put.
record IsPut (p : Packer) (out : List ℕ) (p' : Packer) : Type 0 where
  low : p'.bits < 2 ^ p'.used
  few : p'.used < 8
  bytes : All (λ b. b < 256) out
  number :
      (s : List ℕ) (x : ℕ)
      → from_le_bytes s ≡ p'.bits + x * 2 ^ p'.used
      → from_le_bytes (out ++ s) ≡ p.bits + x * 2 ^ p.used

put_bytes-IsPut :
    (fuel : ℕ) (p : Packer)
    → p.bits < 2 ^ p.used
    → p.used ≤ fuel
    → IsPut p ((put_bytes fuel p).0) ((put_bytes fuel p).1)
unfolding put_bytes from_le_bytes
put_bytes-IsPut zero p l h = record {
  low = l;
  few = omega (arith, h);
  bytes = tt;
  number = λ s x e. e;
}
put_bytes-IsPut (suc fuel) p l h = elim (Bool-cases (leb 8 p.used)) [
  | inl e ↦
      let s : p.used ≡ (p.used - 8) + 8 = ground arith in
      let q : 2 ^ p.used ≡ 2 ^ (p.used - 8) * 256 = ap (λ t. 2 ^ t) s ∙ pow-add (p.used - 8) 8 in
      let next : Packer = record { bits = p.bits / 256; used = p.used - 8 } in
      let r = put_bytes-IsPut fuel next (omega (arith, l, q)) (omega (arith, h)) in
      rw e (record {
        low = r.low;
        few = r.few;
        bytes = (omega arith, r.bytes);
        number = λ t x k.
            joined x (2 ^ (p.used - 8)) (from_le_bytes ((put_bytes fuel next).0 ++ t)) q
              (r.number t x k);
      })
  | inr e ↦ rw e (record { low = l; few = ground arith; bytes = tt; number = λ s x k. k })
]
  where
    joined :
        (x m f : ℕ)
        → 2 ^ p.used ≡ m * 256
        → f ≡ p.bits / 256 + x * m
        → p.bits % 256 + 256 * f ≡ p.bits + x * 2 ^ p.used
    joined x m f e k = rw (e, k) (grind arith)

add_value-IsPacker :
    (width v : ℕ) (p : Packer)
    → width ≤ 32
    → v < 2 ^ width
    → p.bits < 2 ^ p.used
    → p.used < 8
    → add_value width v p ≡ record { bits = p.bits + v * 2 ^ p.used; used = p.used + width }
unfolding add_value
add_value-IsPacker width v p h w l f =
    let e = or-field p.bits p.used v l (omega (arith, f)) (omega (arith, w, pow-le width 32 h)) in
    let k : (p.used + width) % 256 ≡ p.used + width = omega (arith, h, f) in rw (e, k) refl

record IsPacked (width : ℕ) (vs : List ℕ) (p : Packer) (out : List ℕ) : Type 0 where
  number : from_le_bytes out ≡ p.bits + packed width vs * 2 ^ p.used
  bytes : All (λ b. b < 256) out

pack_values-IsPacked :
    (width : ℕ) (vs : List ℕ) (p : Packer)
    → width ≤ 32
    → All (λ v. v < 2 ^ width) vs
    → p.bits < 2 ^ p.used
    → p.used < 8
    → IsPacked width vs p (pack_values width vs p)
unfolding pack_values packed from_le_bytes put_all
pack_values-IsPacked width [] p h a l f = elim (Bool-cases (ltb 0 p.used)) [
  | inl e ↦ rw e (record {
    number = omega (arith, l, f, pow-le p.used 8 (omega (arith, f)));
    bytes = (omega arith, tt);
  })
  | inr e ↦
      let z : p.used ≡ 0 = ground arith in
      let q : 2 ^ p.used ≡ 1 = ap (λ t. 2 ^ t) z in
      rw e (record { number = omega (arith, l, q); bytes = tt })
]
pack_values-IsPacked width (v ∷ vs) p h a l f =
    let e = add_value-IsPacker width v p h a.0 l f in
    let next : Packer = record { bits = p.bits + v * 2 ^ p.used; used = p.used + width } in
    let r = put_bytes-IsPut next.used next (field-lt p.bits v p.used width l a.0) (omega arith) in
    let rest = pack_values-IsPacked width vs ((put_all next).1) h a.1 r.low r.few in
    rw e (record {
      number =
          r.number (pack_values width vs ((put_all next).1)) (packed width vs) rest.number
          ∙ joined (2 ^ p.used) (2 ^ width) (packed width vs) (pow-add p.used width);
      bytes =
          All-append (λ b. b < 256) ((put_all next).0) (pack_values width vs ((put_all next).1))
            r.bytes rest.bytes;
    })
  where
    joined :
        (m n x : ℕ)
        → 2 ^ (p.used + width) ≡ m * n
        → (p.bits + v * m) + x * 2 ^ (p.used + width) ≡ p.bits + (v + x * n) * m
    joined m n x e = rw e (grind arith)

bit_length-bounds : (n x : ℕ) → x < 2 ^ n → (x < 2 ^ bit_length n x) × (bit_length n x ≤ n)
unfolding bit_length
bit_length-bounds zero x h = (h, omega arith)
bit_length-bounds (suc n) x h = elim (Bool-cases (nat_beq x 0)) [
  | inl e ↦ let z : x ≡ 0 = ground arith in rw e (omega (arith, z), omega arith)
  | inr e ↦
      let r = bit_length-bounds n (x / 2) (omega (arith, h, pow-suc 2 n)) in
      let q : 2 ^ (1 + bit_length n (x / 2)) ≡ 2 * 2 ^ bit_length n (x / 2) =
        pow-add 1 (bit_length n (x / 2)) in
      rw e (omega (arith, r.0, q), omega (arith, r.1))
]

max_of-lt : (m : ℕ) (vs : List ℕ) → 0 < m → All (λ v. v < m) vs → max_of vs < m
unfolding max_of
max_of-lt m [] p h = p
max_of-lt m (v ∷ vs) p h = omega (arith, h.0, max_of-lt m vs p h.1)

under_max_of : (m : ℕ) (vs : List ℕ) → max_of vs < m → All (λ v. v < m) vs
unfolding max_of
under_max_of m [] h = tt
under_max_of m (v ∷ vs) h = (omega (arith, h), under_max_of m vs (omega (arith, h)))

width_of-bounds :
    (vs : List ℕ)
    → All (λ v. v < 2 ^ 32) vs
    → All (λ v. v < 2 ^ width_of vs) vs × (width_of vs ≤ 32)
unfolding width_of
width_of-bounds vs h = elim (Bool-cases (nat_beq (max_of vs) 0)) [
  | inl e ↦
      let z : max_of vs ≡ 0 = ground arith in
      rw e (under_max_of (2 ^ 1) vs (omega (arith, z)), omega arith)
  | inr e ↦
      let b = bit_length-bounds 32 (max_of vs) (max_of-lt (2 ^ 32) vs (omega arith) h) in
      rw e (under_max_of (2 ^ bit_length 32 (max_of vs)) vs b.0, b.1)
]

unpack-pack :
    (width : ℕ) (vs : List ℕ)
    → width ≤ 32
    → All (λ v. v < 2 ^ width) vs
    → unpack_values width (length vs) (record {
      bits = 0;
      avail = 0;
      payload = pack_values width vs (record { bits = 0; used = 0 });
    })
      ≡ vs
unpack-pack width vs h a =
    let p =
      pack_values-IsPacked width vs (record { bits = 0; used = 0 }) h a (omega arith)
        (omega arith) in
    let r = pack_values width vs (record { bits = 0; used = 0 }) in
    unpack_values-unpacked width (length vs) (record { bits = 0; avail = 0; payload = r }) h
      (record { low = omega arith; few = omega arith; bytes = p.bytes })
    ∙ ap (unpacked width (length vs)) (omega (arith, p.number))
    ∙ unpacked-packed width vs a

-- The head of a column: four bytes of the count, after the width.
decode_head :
    (width : ℕ) (count out : List ℕ)
    → length count ≡ 4
    → bitpack_decode (width ∷ count ++ out)
      ≡ unpack_values width (from_le_bytes count) (record { bits = 0; avail = 0; payload = out })
unfolding bitpack_decode
decode_head width count out h =
    let t : take 4 (count ++ out) ≡ count =
      ap (λ k. take k (count ++ out)) (sym h) ∙ take-append count out in
    let d : drop 4 (count ++ out) ≡ out =
      ap (λ k. drop k (count ++ out)) (sym h) ∙ drop-append count out in
    let l : ltb (suc (length (count ++ out))) 5 ≡ false =
      ground (arith, h, length-append count out) in
    rw (l, t, d) refl

-- What `bitpack_encode` writes, `bitpack_decode` reads back: any number of 32-bit values that a 32-bit
-- count holds.
pub bitpack_decode-bitpack_encode :
    (values : List ℕ)
    → All (λ v. v < 2 ^ 32) values
    → length values < 2 ^ 32
    → bitpack_decode (bitpack_encode values) ≡ values
unfolding bitpack_encode bitpack_decode
bitpack_decode-bitpack_encode [] h l = refl
bitpack_decode-bitpack_encode (v ∷ vs) h l =
    let b = width_of-bounds (v ∷ vs) h in
    let w : width_of (v ∷ vs) % 256 ≡ width_of (v ∷ vs) = omega (arith, b.1) in
    let n : length (v ∷ vs) % 2 ^ 32 ≡ length (v ∷ vs) = omega (arith, l) in
    let start : Packer = record { bits = 0; used = 0 } in
    let out = pack_values (width_of (v ∷ vs)) (v ∷ vs) start in
    rw (w, n)
      (decode_head (width_of (v ∷ vs)) (to_le_bytes 4 (length (v ∷ vs))) out
          (length-to_le_bytes 4 (length (v ∷ vs)))
        ∙ ap
            (λ t.
              unpack_values (width_of (v ∷ vs)) t (record { bits = 0; avail = 0; payload = out }))
            (from_le_bytes-to_le_bytes 4 (length (v ∷ vs)) l)
        ∙ unpack-pack (width_of (v ∷ vs)) (v ∷ vs) b.1 b.0)
