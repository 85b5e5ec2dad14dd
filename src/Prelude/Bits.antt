-- ===== src/Prelude/Bits.antt =====
-- `|` and `&` of words: what they do to each binary digit, and to disjoint fields.
use Prim.Native.Nat.{
  ℕ, zero, suc, ◌+◌, ◌-◌, ◌*◌, ◌/◌, ◌%◌, ◌^◌, ◌≤◌, ◌<◌, max, min, digits, bit_and, bit_or,
  bit_and-bitwise, bit_or-bitwise,
}
use native.Mathlib.Nat.{pow-suc, one-le-pow}
use mathlib.Core.Path.{◌≡◌, refl, ap, ◌∙◌}
use native.Mathlib.Omega.{arith}
use wow_db.Prelude.Tests.{nat_beq, if◌then◌else◌}

-- The digit at place `i`, the lowest first.
unfoldable pub bit : ℕ → ℕ → ℕ
bit n zero = n % 2
bit n (suc i) = bit (n / 2) i

module _ (end : ℕ → ℕ) (op : ℕ → ℕ → ℕ) where
  -- Fuel that is not less than the number changes nothing.
  fuel_free : (k x y : ℕ) (m : ℕ) → x ≤ m → x ≤ k → digits end op k x y ≡ digits end op m x y
  fuel_free zero zero y zero p q = refl
  fuel_free zero zero y (suc m) p q = refl
  fuel_free zero (suc x) y m p q = absurd (omega arith)
  fuel_free (suc k) zero y zero p q = refl
  fuel_free (suc k) zero y (suc m) p q = refl
  fuel_free (suc k) (suc x) y zero p q = absurd (omega arith)
  fuel_free (suc k) (suc x) y (suc m) p q =
      ap (λ t. t * 2 + op (suc x % 2) (y % 2))
        (fuel_free k (suc x / 2) (y / 2) m (omega arith) (omega arith))

  lowest :
      (x y : ℕ)
      → digits end op (suc x) (suc x) y
        ≡ digits end op (suc x / 2) (suc x / 2) (y / 2) * 2 + op (suc x % 2) (y % 2)
  lowest x y =
      ap (λ t. t * 2 + op (suc x % 2) (y % 2))
        (fuel_free x (suc x / 2) (y / 2) (suc x / 2) (omega arith) (omega arith))

-- One digit at a time.
or_lowest : (x y : ℕ) → bit_or x y ≡ bit_or (x / 2) (y / 2) * 2 + max (x % 2) (y % 2)
or_lowest zero y = simp bit_or-bitwise (omega arith)
or_lowest (suc x) y = simp bit_or-bitwise (lowest (λ t. t) max x y)

and_lowest : (x y : ℕ) → bit_and x y ≡ bit_and (x / 2) (y / 2) * 2 + min (x % 2) (y % 2)
and_lowest zero y = simp bit_and-bitwise (omega arith)
and_lowest (suc x) y = simp bit_and-bitwise (lowest (λ t. 0) min x y)

or-zero_fuel : (k x : ℕ) → x ≤ k → bit_or x 0 ≡ x
or-zero_fuel k zero h = refl
or-zero_fuel zero (suc x) h = absurd (omega arith)
or-zero_fuel (suc k) (suc x) h =
    omega (arith, or_lowest (suc x) 0, or-zero_fuel k (suc x / 2) (omega arith))

and-zero_fuel : (k x : ℕ) → x ≤ k → bit_and x 0 ≡ 0
and-zero_fuel k zero h = refl
and-zero_fuel zero (suc x) h = absurd (omega arith)
and-zero_fuel (suc k) (suc x) h =
    omega (arith, and_lowest (suc x) 0, and-zero_fuel k (suc x / 2) (omega arith))

and-zero : (x : ℕ) → bit_and x 0 ≡ 0
and-zero x = and-zero_fuel x x (omega arith)

zero-or : (y : ℕ) → bit_or 0 y ≡ y
zero-or y = bit_or-bitwise 0 y

pub bit-bit_or : (x y i : ℕ) → bit (bit_or x y) i ≡ max (bit x i) (bit y i)
unfolding bit
bit-bit_or x y zero = omega (arith, or_lowest x y)
bit-bit_or x y (suc i) =
    ap (λ t. bit t i) (omega (arith, or_lowest x y)) ∙ bit-bit_or (x / 2) (y / 2) i

pub bit-zero : (i : ℕ) → bit 0 i ≡ 0
unfolding bit
bit-zero zero = refl
bit-zero (suc i) = bit-zero i

pub bit-pow : (i j : ℕ) → bit (2 ^ i) j ≡ (if nat_beq i j then 1 else 0)
unfolding bit
bit-pow zero zero = refl
bit-pow zero (suc j) = ground (arith, bit-zero j)
bit-pow (suc i) zero = ground (arith, pow-suc 2 i)
bit-pow (suc i) (suc j) =
    ap (λ t. bit t j) (omega (arith, pow-suc 2 i)) ∙ bit-pow i j ∙ ground arith

pub bit-lt : (x i : ℕ) → bit x i < 2
unfolding bit
bit-lt x zero = omega arith
bit-lt x (suc i) = bit-lt (x / 2) i

times_pow-suc : (q k : ℕ) → q * 2 ^ suc k ≡ q * 2 ^ k * 2
times_pow-suc q k = omega (arith, ap (λ (t : ℕ). q * t) (pow-suc 2 k))

pub pow_pos : (k : ℕ) → 0 < 2 ^ k
pow_pos zero = omega arith
pow_pos (suc k) = omega (arith, pow-suc 2 k, pow_pos k)

-- The mask of one digit.
pub bit_and-pow : (x i : ℕ) → bit_and x (2 ^ i) ≡ bit x i * 2 ^ i
unfolding bit
bit_and-pow x zero = omega (arith, and_lowest x 1, and-zero (x / 2))
bit_and-pow x (suc i) =
    let half : 2 ^ suc i / 2 ≡ 2 ^ i = omega (arith, pow-suc 2 i) in
    let even : 2 ^ suc i % 2 ≡ 0 = omega (arith, pow-suc 2 i) in
    let ih : bit_and (x / 2) (2 ^ suc i / 2) ≡ bit (x / 2) i * 2 ^ i =
      ap (λ t. bit_and (x / 2) t) half ∙ bit_and-pow (x / 2) i in
    let twice = times_pow-suc (bit (x / 2) i) i in
    omega (arith, and_lowest x (2 ^ suc i), ih, even, twice)

-- A word that fits `k` digits, under a field that starts at place `k`.
pub bit_or-field : (k low q : ℕ) → low < 2 ^ k → bit_or low (q * 2 ^ k) ≡ low + q * 2 ^ k
bit_or-field zero low q h =
    let e : low ≡ 0 = omega arith in
    ap (λ t. bit_or t (q * 1)) e ∙ omega (arith, e, or_lowest 0 (q * 1), zero-or (q * 1))
bit_or-field (suc k) low q h =
    let twice = times_pow-suc q k in
    let half : q * 2 ^ suc k / 2 ≡ q * 2 ^ k = omega (arith, twice) in
    let ih : bit_or (low / 2) (q * 2 ^ suc k / 2) ≡ low / 2 + q * 2 ^ k =
      ap (λ t. bit_or (low / 2) t) half ∙ bit_or-field k (low / 2) q (omega (arith, pow-suc 2 k)) in
    omega (arith, or_lowest low (q * 2 ^ suc k), ih, twice)

and-fields : (k q r : ℕ) → r < 2 ^ k → bit_and (q * 2 ^ k + r) (2 ^ k - 1) ≡ r
and-fields zero q r h = let e : r ≡ 0 = omega arith in rw (and-zero) (omega (arith, e))
and-fields (suc k) q r h = ground (
  arith,
  and_lowest (q * 2 ^ suc k + r) (2 ^ suc k - 1),
  times_pow-suc q k,
  pow-suc 2 k,
  and-fields k q (r / 2) (omega (arith, pow-suc 2 k)),
)

-- The mask of the lowest `k` digits.
pub bit_and-mask : (k x : ℕ) → bit_and x (2 ^ k - 1) ≡ x % 2 ^ k
bit_and-mask k x = ground (arith, one-le-pow k 2, and-fields k (x / 2 ^ k) (x % 2 ^ k))
