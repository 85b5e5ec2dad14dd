-- ===== src/Prelude/Bytes.antt =====
-- Byte strings as lists of numbers: little-endian words and the lexicographic order of `Vec<u8>`.
use wow_db.Prelude.Tests.{ltb, nat_beq, Key, if◌then◌else◌}
use wow_db.Prelude.Lists.{length}
use Prim.Native.Nat.{ℕ, zero, suc, ◌+◌, ◌*◌, ◌/◌, ◌%◌, ◌^◌, ◌<◌}
use native.Mathlib.Nat.{pow-suc}
use mathlib.Core.Path.{◌≡◌, refl, ap}
use mathlib.Core.Logic.{◌↔◌, ◌⊎◌, inl, inr}
use mathlib.Core.Bool.{Bool, true, false}
use mathlib.Core.List.{List, [], ◌∷◌}
use native.Mathlib.Omega.{arith}

-- `to_le_bytes` of a word of `w` bytes.
unfoldable pub to_le_bytes : ℕ → ℕ → List ℕ
to_le_bytes zero x = []
to_le_bytes (suc w) x = (x % 256) ∷ to_le_bytes w (x / 256)

-- `from_le_bytes`.
unfoldable pub from_le_bytes : List ℕ → ℕ
from_le_bytes [] = 0
from_le_bytes (b ∷ bs) = b + 256 * from_le_bytes bs

pub length-to_le_bytes : (w x : ℕ) → length (to_le_bytes w x) ≡ w
unfolding to_le_bytes
length-to_le_bytes zero x = refl
length-to_le_bytes (suc w) x = ap suc (length-to_le_bytes w (x / 256))

pub from_le_bytes-to_le_bytes : (w x : ℕ) → x < 256 ^ w → from_le_bytes (to_le_bytes w x) ≡ x
unfolding to_le_bytes from_le_bytes
from_le_bytes-to_le_bytes zero x h = omega arith
from_le_bytes-to_le_bytes (suc w) x h =
    omega
      (arith, pow-suc 256 w, from_le_bytes-to_le_bytes w (x / 256) (omega (arith, pow-suc 256 w)))

-- `a <= b` on `Vec<u8>`.
unfoldable pub bytes_leb : List ℕ → List ℕ → Bool
bytes_leb [] bs = true
bytes_leb (a ∷ as') [] = false
bytes_leb (a ∷ as') (b ∷ bs) =
    let rest = bytes_leb as' bs in if ltb a b then true else if ltb b a then false else rest

pub bytes_leb_refl : (a : List ℕ) → bytes_leb a a ≡ true
unfolding bytes_leb
bytes_leb_refl [] = refl
bytes_leb_refl (x ∷ xs) = ground (arith, bytes_leb_refl xs)

pub bytes_leb_trans :
    (a b c : List ℕ) → bytes_leb a b ≡ true → bytes_leb b c ≡ true → bytes_leb a c ≡ true
unfolding bytes_leb
bytes_leb_trans [] b c h k = refl
bytes_leb_trans (x ∷ xs) [] c h k = ground arith
bytes_leb_trans (x ∷ xs) (y ∷ ys) [] h k = ground arith
bytes_leb_trans (x ∷ xs) (y ∷ ys) (z ∷ zs) h k = ground (arith, bytes_leb_trans xs ys zs)

pub bytes_leb_total : (a b : List ℕ) → (bytes_leb a b ≡ true) ⊎ (bytes_leb b a ≡ true)
unfolding bytes_leb
bytes_leb_total [] b = inl refl
bytes_leb_total (x ∷ xs) [] = inr refl
bytes_leb_total (x ∷ xs) (y ∷ ys) = ground (arith, bytes_leb_total xs ys)

-- `from_be_bytes`.
unfoldable pub from_be_bytes : ℕ → List ℕ → ℕ
from_be_bytes acc [] = acc
from_be_bytes acc (b ∷ bs) = from_be_bytes (acc * 256 + b) bs

unfoldable pub bytes_eqb : List ℕ → List ℕ → Bool
bytes_eqb [] [] = true
bytes_eqb [] (b ∷ bs) = false
bytes_eqb (a ∷ as') [] = false
bytes_eqb (a ∷ as') (b ∷ bs) = let rest = bytes_eqb as' bs in if nat_beq a b then rest else false

pub bytes_eqb_iff : (as' bs : List ℕ) → (bytes_eqb as' bs ≡ true) ↔ (as' ≡ bs)
unfolding bytes_eqb
bytes_eqb_iff [] [] = ((λ h. refl), λ h. refl)
bytes_eqb_iff [] (b ∷ bs) = ((λ h. absurd (cc (h))), λ h. absurd (cc (h)))
bytes_eqb_iff (a ∷ as') [] = ((λ h. absurd (cc (h))), λ h. absurd (cc (h)))
bytes_eqb_iff (a ∷ as') (b ∷ bs) = ground (arith, bytes_eqb_iff as' bs)

-- Byte strings as the keys of a map.
instance abbrev pub bytes_key : Key (List ℕ)
bytes_key = record { eqb = bytes_eqb; eqb_iff = bytes_eqb_iff }
