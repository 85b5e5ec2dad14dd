-- ===== src/Analytics/Funnel/Closed.antt =====
-- Who reaches a step has reached the step before: the digits of `achieved` have no gap. No index of the
-- executor is out of range.
use Prim.Native.Nat.{bit_and, bit_or}
use wow_db.Prelude.{
  ℕ, zero, suc, ◌*◌, ◌%◌, ◌^◌, ◌≤◌, ◌<◌, ◌≡◌, refl, ap, sym, ◌∙◌, arith, string_eq, true, List, [],
  ◌∷◌, Option, some, length, get_elem?, if◌then◌else◌, Bool-cases, nat_beq, not, inl, inr,
}
use wow_db.Prelude.Bits.{bit, bit-bit_or, bit-pow, bit-lt, bit_and-pow, bit-zero, pow_pos}
use wow_db.Prelude.Bytes.{bytes_key}
use wow_db.Analytics.Funnel.{
  UserFunnelState, digit, is_achieved, set_time, achieve, is_within, unwrap_time, try_step,
}

abbrev pub IsClosed : ℕ → Type 0
IsClosed achieved = (i : ℕ) → bit achieved (suc i) ≤ bit achieved i

-- The call returns a value, with this property.
abbrev pub Returns : {A : Type 0} → (A → Type 0) → Option A → Type 0
Returns {A} P result = (a : A) × (result ≡ some a) × P a

pub is_achieved-bit :
    (achieved i : ℕ) → i < 64 → is_achieved achieved i ≡ nat_beq (bit achieved i) 1
is_achieved-bit achieved i h =
    let k : i % 64 ≡ i = omega (arith, h) in
    let e : bit_and achieved (digit i) ≡ bit achieved i * 2 ^ i =
      ap (λ t. bit_and achieved (2 ^ t)) k ∙ bit_and-pow achieved i in
    ap (λ t. not (nat_beq t 0)) e ∙ tested (bit achieved i) (2 ^ i) (bit-lt achieved i) (pow_pos i)
  where
    tested : (b m : ℕ) → b < 2 → 0 < m → not (nat_beq (b * m) 0) ≡ nat_beq b 1
    tested zero m h p = ground arith
    tested (suc zero) m h p = ground (arith, p)
    tested (suc (suc b)) m h p = absurd (omega (arith, h))

pub bit_or-IsClosed : (a b : ℕ) → IsClosed a → IsClosed b → IsClosed (bit_or a b)
bit_or-IsClosed a b h k i = omega (arith, bit-bit_or a b (suc i), bit-bit_or a b i, h i, k i)

-- The digit of a step whose step before is reached.
digit-IsClosed :
    (a i : ℕ)
    → i < 64
    → IsClosed a
    → ((j : ℕ) → i ≡ suc j → bit a j ≡ 1)
    → IsClosed (bit_or a (digit i))
digit-IsClosed a i h c before j =
    let k : i % 64 ≡ i = omega (arith, h) in
    let hi : bit (digit i) (suc j) ≡ (if nat_beq i (suc j) then 1 else 0) =
      ap (λ t. bit (2 ^ t) (suc j)) k ∙ bit-pow i (suc j) in
    elim (Bool-cases (nat_beq i (suc j))) [
      | inl e ↦
          let q : i ≡ suc j = ground arith in
          ground (
            arith,
            bit-bit_or a (digit i) (suc j),
            bit-bit_or a (digit i) j,
            hi,
            before j q,
            bit-lt a (suc j),
          )
      | inr e ↦ ground (arith, bit-bit_or a (digit i) (suc j), bit-bit_or a (digit i) j, hi, c j)
    ]

-- A state of a user of a funnel with `n` steps.
pub record IsState (n : ℕ) (state : UserFunnelState) : Type 0 where
  pub closed : IsClosed state.achieved
  pub times : length state.last_times ≡ n

pub set_time-Returns :
    (i : ℕ) (t : Option ℕ) (times : List (Option ℕ))
    → i < length times
    → Returns (λ ts. length ts ≡ length times) (set_time i t times)
unfolding set_time
set_time-Returns i t [] h = absurd (omega (arith, h))
set_time-Returns zero t (x ∷ xs) h = (t ∷ xs, refl, refl)
set_time-Returns (suc i) t (x ∷ xs) h =
    let r = set_time-Returns i t xs (omega (arith, h)) in (x ∷ r.0, rw (r.1) refl, ap suc (r.2))

pub get_elem-Returns :
    (i : ℕ) (times : List (Option ℕ)) → i < length times → Returns (λ _. Unit) (get_elem? times i)
get_elem-Returns i [] h = absurd (omega (arith, h))
get_elem-Returns zero (x ∷ xs) h = (x, refl, tt)
get_elem-Returns (suc i) (x ∷ xs) h = get_elem-Returns i xs (omega (arith, h))

achieve-Returns :
    (n i t : ℕ) (state : UserFunnelState)
    → i < n
    → n ≤ 64
    → IsState n state
    → ((j : ℕ) → i ≡ suc j → bit state.achieved j ≡ 1)
    → Returns (IsState n) (achieve i t state)
unfolding achieve
achieve-Returns n i t state h l s before =
    let r = set_time-Returns i (some t) state.last_times (omega (arith, h, s.times)) in
    (
      record { achieved = bit_or state.achieved (digit i); last_times = r.0 },
      rw (achieve, r.1) refl,
      record {
        closed = digit-IsClosed state.achieved i (omega (arith, h, l)) s.closed before;
        times = r.2 ∙ s.times;
      },
    )

pub try_step-Returns :
    (n window t i : ℕ) (state : UserFunnelState)
    → i < n
    → n ≤ 64
    → IsState n state
    → Returns (IsState n) (try_step window t i state)
unfolding try_step
try_step-Returns n window t zero state h l s =
    achieve-Returns n zero t state h l s (λ j e. absurd (omega (arith, e)))
try_step-Returns n window t (suc i) state h l s = elim (Bool-cases (is_achieved state.achieved i)) [
  | inr e ↦ rw e (state, refl, s)
  | inl e ↦
      let g = get_elem-Returns i state.last_times (omega (arith, h, s.times)) in
      let b : nat_beq (bit state.achieved i) 1 ≡ true =
        sym (is_achieved-bit state.achieved i (omega (arith, h, l))) ∙ e in
      elim (Bool-cases (is_within window t (unwrap_time (g.0)))) [
        | inr w ↦ rw (e, g.1, w) (state, refl, s)
        | inl w ↦
            rw (e, g.1, w)
              (achieve-Returns n (suc i) t state h l s (λ j q.
                let k : i ≡ j = omega (arith, q) in
                ap (bit state.achieved) (sym k) ∙ ground (arith, b)))
      ]
]

pub zero-IsClosed : IsClosed 0
zero-IsClosed i = omega (arith, bit-zero i, bit-zero (suc i))
