-- ===== src/Lsm/Bloom/Bits.antt =====
-- The bitmap: a digit that is set is read back, and setting a digit clears no other.
use Prim.Native.Nat.{bit_and, bit_or}
use native.Mathlib.Nat.{div-div-eq-div-mul, mod-lt, pow-suc}
use wow_db.Prelude.{
  Bool, ℕ, zero, suc, ◌*◌, ◌/◌, ◌%◌, ◌^◌, ◌≤◌, ◌<◌, ◌≡◌, refl, ap, sym, ◌∙◌, arith, true, false,
  Bool-cases, inl, inr, List, [], ◌∷◌, some, length, get_elem?, nat_beq,
}
use wow_db.Prelude.Bits.{bit, bit-bit_or, bit-pow, bit-lt, bit_and-mask}
use wow_db.Lsm.Bloom.{BitVec, or_at, set, get}

-- A bitmap of whole bytes.
pub record IsBitmap (v : BitVec) : Type 0 where
  pub whole : v.num_bits ≡ 8 * length v.bits
  pub some_bits : 0 < v.num_bits

div-pow-bit : (j b : ℕ) → b / 2 ^ j % 2 ≡ bit b j
unfolding bit
div-pow-bit zero b = omega arith
div-pow-bit (suc j) b =
    let e : b / 2 ^ suc j ≡ b / 2 / 2 ^ j =
      ap (λ t. b / t) (pow_two j) ∙ sym (div-div-eq-div-mul b 2 (2 ^ j)) in
    ap (λ t. t % 2) e ∙ div-pow-bit j (b / 2)
  where
    pow_two : (j : ℕ) → 2 ^ suc j ≡ 2 * 2 ^ j
    pow_two j = omega (arith, pow-suc 2 j)

-- `(b >> j) & 1 == 1`
tested : (b j : ℕ) → nat_beq (bit_and (b / 2 ^ j) 1) 1 ≡ nat_beq (bit b j) 1
tested b j = ap (λ t. nat_beq t 1) (bit_and-mask 1 (b / 2 ^ j) ∙ div-pow-bit j b)

set_digit : (b j i : ℕ) → bit b i ≤ bit (bit_or b (2 ^ j)) i
set_digit b j i = omega (arith, bit-bit_or b (2 ^ j) i)

own_digit : (b j : ℕ) → bit (bit_or b (2 ^ j)) j ≡ 1
own_digit b j = ground (arith, bit-bit_or b (2 ^ j) j, bit-pow j j, bit-lt b j)

record IsOr (i m : ℕ) (bs cs : List ℕ) : Type 0 where
  same : length cs ≡ length bs
  at_i : (b : ℕ) → get_elem? bs i ≡ some b → get_elem? cs i ≡ some (bit_or b m)
  other : (j : ℕ) → nat_beq i j ≡ false → get_elem? cs j ≡ get_elem? bs j

or_at-IsOr :
    (i m : ℕ) (bs : List ℕ)
    → i < length bs
    → (cs : List ℕ) × (or_at i m bs ≡ some cs) × IsOr i m bs cs
unfolding or_at
or_at-IsOr i m [] h = absurd (omega (arith, h))
or_at-IsOr zero m (b ∷ bs) h = (
  bit_or b m ∷ bs,
  refl,
  record {
    same = refl;
    at_i = λ c e. ap some (ap (λ t. bit_or t m) (some-injective e));
    other = λ j e. elsewhere j e;
  },
)
  where
    some-injective : {x y : ℕ} → some x ≡ some y → x ≡ y
    some-injective e = cc e

    elsewhere : (j : ℕ) → nat_beq 0 j ≡ false → get_elem? (bit_or b m ∷ bs) j ≡ get_elem? (b ∷ bs) j
    elsewhere zero e = absurd (cc e)
    elsewhere (suc j) e = refl
or_at-IsOr (suc i) m (b ∷ bs) h =
    let r = or_at-IsOr i m bs (omega (arith, h)) in
    (
      b ∷ r.0,
      rw (r.1) refl,
      record { same = ap suc r.2.same; at_i = r.2.at_i; other = elsewhere (r.0) r.2.other },
    )
  where
    elsewhere :
        (cs : List ℕ)
        → ((j : ℕ) → nat_beq i j ≡ false → get_elem? cs j ≡ get_elem? bs j)
        → (j : ℕ) → nat_beq (suc i) j ≡ false
        → get_elem? (b ∷ cs) j ≡ get_elem? (b ∷ bs) j
    elsewhere cs h zero e = refl
    elsewhere cs h (suc j) e = h j (ground (arith, e))

byte_there : (i : ℕ) (bs : List ℕ) → i < length bs → (b : ℕ) × (get_elem? bs i ≡ some b)
byte_there i [] h = absurd (omega (arith, h))
byte_there zero (b ∷ bs) h = (b, refl)
byte_there (suc i) (b ∷ bs) h = byte_there i bs (omega (arith, h))

place-lt : (i : ℕ) (v : BitVec) → IsBitmap v → i % v.num_bits / 8 < length v.bits
place-lt i v w = omega (arith, mod-lt i w.some_bits, w.whole)

-- Reading a digit, as the digit of its byte.
pub get-byte :
    (i b : ℕ) (v : BitVec)
    → IsBitmap v
    → get_elem? v.bits (i % v.num_bits / 8) ≡ some b
    → get i v ≡ some (nat_beq (bit b (i % v.num_bits % 8)) 1)
unfolding get
get-byte i b v w e =
    let z : nat_beq v.num_bits 0 ≡ false = ground (arith, w.some_bits) in
    rw (get, z, e) (ap some (tested b (i % v.num_bits % 8)))

-- What `set` makes of a bitmap.
pub record IsSetOf (i : ℕ) (v v' : BitVec) : Type 0 where
  pub bitmap : IsBitmap v'
  pub size : v'.num_bits ≡ v.num_bits
  pub own : get i v' ≡ some true
  pub kept : (j : ℕ) → get j v ≡ some true → get j v' ≡ some true

pub set-IsSetOf :
    (i : ℕ) (v : BitVec) → IsBitmap v → (v' : BitVec) × (set i v ≡ some v') × IsSetOf i v v'
unfolding set
set-IsSetOf i v w =
    let n = v.num_bits in
    let p = i % n / 8 in
    let k = i % n % 8 in
    let r = or_at-IsOr p (2 ^ k) v.bits (place-lt i v w) in
    let v' : BitVec = record { bits = r.0; num_bits = n } in
    let z : nat_beq n 0 ≡ false = ground (arith, w.some_bits) in
    let w' : IsBitmap v' = record {
      whole = omega (arith, w.whole, r.2.same);
      some_bits = w.some_bits;
    } in
    let b = byte_there p v.bits (place-lt i v w) in
    (
      v',
      rw (set, z, r.1) refl,
      record {
        bitmap = w';
        size = refl;
        own =
            get-byte i (bit_or (b.0) (2 ^ k)) v' w' (r.2.at_i (b.0) (b.1))
            ∙ ap (λ t. some (nat_beq t 1)) (own_digit (b.0) k);
        kept = λ j g.
            let c = byte_there (j % n / 8) v.bits (place-lt j v w) in
            let e : nat_beq (bit (c.0) (j % n % 8)) 1 ≡ true = cc (get-byte j (c.0) v w (c.1), g) in
            elim (Bool-cases (nat_beq p (j % n / 8))) [
              | inr f ↦ get-byte j (c.0) v' w' (r.2.other (j % n / 8) f ∙ c.1) ∙ ap some e
              | inl f ↦
                  let q : p ≡ j % n / 8 = ground (arith, f) in
                  let x : get_elem? (r.0) (j % n / 8) ≡ some (bit_or (c.0) (2 ^ k)) =
                    ap (get_elem? (r.0)) (sym q) ∙ r.2.at_i (c.0) (ap (get_elem? v.bits) q ∙ c.1) in
                  get-byte j (bit_or (c.0) (2 ^ k)) v' w' x
                  ∙ ap some (
                      ground (
                        arith,
                        e,
                        set_digit (c.0) k (j % n % 8),
                        bit-lt (bit_or (c.0) (2 ^ k)) (j % n % 8),
                      ))
            ];
      },
    )

-- Reading a digit of a bitmap of whole bytes returns.
pub get-total : (i : ℕ) (v : BitVec) → IsBitmap v → (b : Bool) × (get i v ≡ some b)
get-total i v w =
    let b = byte_there (i % v.num_bits / 8) v.bits (place-lt i v w) in
    (nat_beq (bit (b.0) (i % v.num_bits % 8)) 1, get-byte i (b.0) v w (b.1))
