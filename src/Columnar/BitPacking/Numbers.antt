-- ===== src/Columnar/BitPacking/Numbers.antt =====
-- The number that a packed column is: powers of two, and the digits of a number to a base.
use wow_db.Prelude.{
  ℕ, zero, suc, ◌+◌, ◌-◌, ◌*◌, ◌/◌, ◌%◌, ◌^◌, ◌≤◌, ◌<◌, ◌≡◌, refl, ap, sym, ◌∙◌, List, [], ◌∷◌,
  arith, All, length,
}
use wow_db.Prelude.Bits.{pow_pos}
use native.Mathlib.Nat.{pow-suc}

-- The values as digits, of `width` binary digits each.
unfoldable pub packed : ℕ → List ℕ → ℕ
packed width [] = 0
packed width (v ∷ vs) = v + packed width vs * 2 ^ width

-- The lowest `n` digits.
unfoldable pub unpacked : ℕ → ℕ → ℕ → List ℕ
unpacked width zero t = []
unpacked width (suc n) t = (t % 2 ^ width) ∷ unpacked width n (t / 2 ^ width)

pub pow-add : (j k : ℕ) → 2 ^ (j + k) ≡ 2 ^ j * 2 ^ k
pow-add zero k = let e : 0 + k ≡ k = omega arith in ap (λ t. 2 ^ t) e ∙ omega arith
pow-add (suc j) k =
    let e : suc j + k ≡ suc (j + k) = omega arith in
    let l : 2 ^ suc j * 2 ^ k ≡ 2 ^ j * 2 * 2 ^ k = ap (λ (t : ℕ). t * 2 ^ k) (pow-suc 2 j) in
    ap (λ t. 2 ^ t) e
    ∙ pow-suc 2 (j + k)
    ∙ ap (λ (t : ℕ). t * 2) (pow-add j k)
    ∙ regroup (2 ^ j) (2 ^ k)
    ∙ sym l
  where
    regroup : (a b : ℕ) → a * b * 2 ≡ a * 2 * b
    regroup a b = grind arith

pub pow-le : (j k : ℕ) → j ≤ k → 2 ^ j ≤ 2 ^ k
pow-le j k h =
    let s : k ≡ j + (k - j) = omega (arith, h) in
    let e : 2 ^ k ≡ 2 ^ j * 2 ^ (k - j) = ap (λ t. 2 ^ t) s ∙ pow-add j (k - j) in
    grind (arith, e, pow_pos (k - j))

-- The remainder and the quotient of a number in two parts.
pub mod-two_parts : (m v q : ℕ) → v < m → (v + q * m) % m ≡ v
mod-two_parts m v q h = grind arith

pub div-two_parts : (m v q : ℕ) → v < m → (v + q * m) / m ≡ q
div-two_parts m v q h = grind arith

pub unpacked-packed :
    (width : ℕ) (vs : List ℕ)
    → All (λ v. v < 2 ^ width) vs
    → unpacked width (length vs) (packed width vs) ≡ vs
unfolding packed unpacked
unpacked-packed width [] h = refl
unpacked-packed width (v ∷ vs) h =
    let low = mod-two_parts (2 ^ width) v (packed width vs) h.0 in
    let high = div-two_parts (2 ^ width) v (packed width vs) h.0 in
    cc (low, ap (unpacked width (length vs)) high, unpacked-packed width vs h.1)
