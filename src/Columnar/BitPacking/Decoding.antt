-- ===== src/Columnar/BitPacking/Decoding.antt =====
-- The accumulator of the decoder holds the low digits of the number that the payload is.
use wow_db.Prelude.{
  ℕ, zero, suc, ◌+◌, ◌-◌, ◌*◌, ◌/◌, ◌%◌, ◌^◌, ◌≤◌, ◌<◌, ◌≡◌, refl, ap, sym, ◌∙◌, List, [], ◌∷◌,
  arith, All, ◌⊎◌, inl, inr, nat_beq, ltb, Bool-cases,
}
use wow_db.Prelude.Bits.{pow_pos, bit_and-mask, bit_or-field}
use wow_db.Prelude.Bytes.{from_le_bytes}
use Prim.Native.Nat.{bit_and, bit_or}
use mathlib.Core.Path.{ap₂}
use native.Mathlib.Nat.{add-mul-mod_self_right, add-mul-div_right}
use wow_db.Columnar.BitPacking.{Reader, refill, mask_of, unpack_values, shl_u64}
use wow_db.Columnar.BitPacking.Numbers.{unpacked, pow-add, pow-le}

abbrev pub total : Reader → ℕ
total r = r.bits + from_le_bytes r.payload * 2 ^ r.avail

pub record IsReader (r : Reader) : Type 0 where
  pub low : r.bits < 2 ^ r.avail
  pub few : r.avail < 40
  pub bytes : All (λ b. b < 256) r.payload

pub shl_u64-fits : (x k : ℕ) → x < 2 ^ 32 → k < 32 → shl_u64 x k ≡ x * 2 ^ k
shl_u64-fits x k h l =
    let e : k % 64 ≡ k = omega (arith, l) in
    let f : x * 2 ^ k < 2 ^ 64 = below x (2 ^ k) h (pow-le k 32 (omega (arith, l))) in
    ap (λ t. (x * 2 ^ t) % 2 ^ 64) e ∙ omega (arith, f)
  where
    below : (x q : ℕ) → x < 2 ^ 32 → q ≤ 2 ^ 32 → x * q < 2 ^ 64
    below x q h l = grind arith

-- A field on top of the accumulator.
pub or-field :
    (bits avail x : ℕ)
    → bits < 2 ^ avail
    → avail < 32
    → x < 2 ^ 32
    → bit_or bits (shl_u64 x avail) ≡ bits + x * 2 ^ avail
or-field bits avail x low l h =
    ap (bit_or bits) (shl_u64-fits x avail h l) ∙ bit_or-field avail bits x low

pub field-lt :
    (bits x avail k : ℕ) → bits < 2 ^ avail → x < 2 ^ k → bits + x * 2 ^ avail < 2 ^ (avail + k)
field-lt bits x avail k low h = let e = pow-add avail k in above (2 ^ avail) (2 ^ k) e low h
  where
    above : (m n : ℕ) → 2 ^ (avail + k) ≡ m * n → bits < m → x < n → bits + x * m < 2 ^ (avail + k)
    above m n e low h = grind arith

record IsRefilled (width : ℕ) (t : ℕ) (r : Reader) : Type 0 where
  reader : IsReader r
  same : total r ≡ t
  enough : (width ≤ r.avail) ⊎ (r.payload ≡ [])

refill-IsRefilled :
    (width bits avail : ℕ) (payload : List ℕ)
    → width ≤ 32
    → IsReader (record { bits = bits; avail = avail; payload = payload })
    → IsRefilled width (bits + from_le_bytes payload * 2 ^ avail) (refill width bits avail payload)
unfolding refill from_le_bytes
refill-IsRefilled width bits avail [] h r = record { reader = r; same = refl; enough = inr refl }
refill-IsRefilled width bits avail (b ∷ bs) h r = elim (Bool-cases (ltb avail width)) [
  | inl e ↦
      let l : avail < 32 = ground (arith, h) in
      let o : bit_or bits (shl_u64 b avail) ≡ bits + b * 2 ^ avail =
        or-field bits avail b r.low l (omega (arith, r.bytes.0)) in
      let k : (avail + 8) % 256 ≡ avail + 8 = omega (arith, l) in
      let next : IsReader
          (record { bits = bits + b * 2 ^ avail; avail = avail + 8; payload = bs }) =
        record {
          low = field-lt bits b avail 8 r.low r.bytes.0;
          few = omega (arith, l);
          bytes = r.bytes.1;
        } in
      let rest = refill-IsRefilled width (bits + b * 2 ^ avail) (avail + 8) bs h next in
      let s : (bits + b * 2 ^ avail) + from_le_bytes bs * 2 ^ (avail + 8)
          ≡ bits + from_le_bytes (b ∷ bs) * 2 ^ avail =
        joined (2 ^ avail) (from_le_bytes bs) (pow-add avail 8) in
      rw (e, o, k, sym s) rest
  | inr e ↦ rw e (record { reader = r; same = refl; enough = inl (ground arith) })
]
  where
    joined :
        (m f : ℕ)
        → 2 ^ (avail + 8) ≡ m * 256
        → (bits + b * m) + f * 2 ^ (avail + 8) ≡ bits + (b + 256 * f) * m
    joined m f e = rw e (grind arith)

-- A number over `2 ^ k`, its part above place `n` moved down to place `k`.
moved_down : (x q k n : ℕ) → k ≤ n → x + q * 2 ^ n ≡ x + q * 2 ^ (n - k) * 2 ^ k
moved_down x q k n h =
    let s : n ≡ (n - k) + k = omega (arith, h) in
    let e : 2 ^ n ≡ 2 ^ (n - k) * 2 ^ k = ap (λ t. 2 ^ t) s ∙ pow-add (n - k) k in
    rw e (grind arith)

total-empty : (r : Reader) → r.payload ≡ [] → total r ≡ r.bits
unfolding from_le_bytes
total-empty r e = simp e (omega arith)

-- The mask and the shift on a refilled accumulator: the lowest digit to base `2 ^ width`, and what is above.
low_digit : (width t : ℕ) (r : Reader) → IsRefilled width t r → r.bits % 2 ^ width ≡ t % 2 ^ width
low_digit width t r f = elim f.enough [
  | inl l ↦
      sym (
        add-mul-mod_self_right r.bits (from_le_bytes r.payload * 2 ^ (r.avail - width)) (2 ^ width))
      ∙ ap (λ x. x % 2 ^ width)
          (sym (moved_down r.bits (from_le_bytes r.payload) width r.avail l) ∙ f.same)
  | inr e ↦ ap (λ x. x % 2 ^ width) (sym (total-empty r e) ∙ f.same)
]

abbrev pub shifted : ℕ → Reader → Reader
shifted width r = record { bits = r.bits / 2 ^ width; avail = r.avail - width; payload = r.payload }

total-shifted :
    (width t : ℕ) (r : Reader) → IsRefilled width t r → total (shifted width r) ≡ t / 2 ^ width
total-shifted width t r f = elim f.enough [
  | inl l ↦
      sym
        (add-mul-div_right r.bits (from_le_bytes r.payload * 2 ^ (r.avail - width)) (pow_pos width))
      ∙ ap (λ x. x / 2 ^ width)
          (sym (moved_down r.bits (from_le_bytes r.payload) width r.avail l) ∙ f.same)
  | inr e ↦
      total-empty (shifted width r) e ∙ ap (λ x. x / 2 ^ width) (sym (total-empty r e) ∙ f.same)
]

shifted-IsReader : (width : ℕ) (r : Reader) → IsReader r → IsReader (shifted width r)
shifted-IsReader width r f = record {
  low = elim (leb_cases width r.avail) [
    | inl l ↦
        let s : r.avail ≡ (r.avail - width) + width = omega (arith, l) in
        let e : 2 ^ r.avail ≡ 2 ^ (r.avail - width) * 2 ^ width =
          ap (λ t. 2 ^ t) s ∙ pow-add (r.avail - width) width in
        quotient (2 ^ (r.avail - width)) (2 ^ width) r.bits (pow_pos width) (rw (sym e) f.low)
    | inr l ↦
        quotient (2 ^ (r.avail - width)) (2 ^ width) r.bits (pow_pos width)
          (grind (arith, f.low, pow-le r.avail width (omega (arith, l)), pow_pos (r.avail - width)))
  ];
  few = omega (arith, f.few);
  bytes = f.bytes;
}
  where
    leb_cases : (a b : ℕ) → (a ≤ b) ⊎ (b < a)
    leb_cases a b = ground arith

    quotient : (a m x : ℕ) → 0 < m → x < a * m → x / m < a
    quotient a m x h l = grind arith

mask_of_lem : (width : ℕ) → width ≤ 32 → mask_of width ≡ 2 ^ width - 1
unfolding mask_of
mask_of_lem width h = elim (Bool-cases (nat_beq width 32)) [
  | inl e ↦ let q : width ≡ 32 = ground arith in rw e (ap (λ t. 2 ^ t - 1) (sym q))
  | inr e ↦ let q : width % 64 ≡ width = omega (arith, h) in rw (e, q) refl
]

-- The loop reads the digits of the number.
pub unpack_values-unpacked :
    (width n : ℕ) (r : Reader)
    → width ≤ 32
    → IsReader r
    → unpack_values width n r ≡ unpacked width n (total r)
unfolding unpack_values unpacked
unpack_values-unpacked width zero r h i = refl
unpack_values-unpacked width (suc n) r h i =
    let r' = refill width r.bits r.avail r.payload in
    let f = refill-IsRefilled width r.bits r.avail r.payload h i in
    let k : width % 64 ≡ width = omega (arith, h) in
    let m : mask_of width ≡ 2 ^ width - 1 = mask_of_lem width h in
    let d : bit_and r'.bits (mask_of width) % 2 ^ 32 ≡ total r % 2 ^ width =
      ap (λ t. bit_and r'.bits t % 2 ^ 32) m
      ∙ ap (λ t. t % 2 ^ 32) (bit_and-mask width r'.bits)
      ∙ fits (r'.bits) (2 ^ width) (pow_pos width) (pow-le width 32 h)
      ∙ low_digit width (total r) r' f in
    let e : unpack_values width n (shifted width r') ≡ unpacked width n (total r / 2 ^ width) =
      unpack_values-unpacked width n (shifted width r') h (shifted-IsReader width r' f.reader)
      ∙ ap (unpacked width n) (total-shifted width (total r) r' f) in
    ap₂ (λ x xs. x ∷ xs) d (ap (λ t. unpack_values width n (turned r' t)) k ∙ e)
  where
    fits : (x m : ℕ) → 0 < m → m ≤ 2 ^ 32 → x % m % 2 ^ 32 ≡ x % m
    fits x m p h = grind arith

    turned : Reader → ℕ → Reader
    turned r w = record { bits = r.bits / 2 ^ w; avail = r.avail - width; payload = r.payload }
