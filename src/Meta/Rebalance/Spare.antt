-- ===== src/Meta/Rebalance/Spare.antt =====
-- The shards that a node has over the target, from the last one on, and what the receivers lack: the cursor
-- arithmetic of the planner pairs the two lists.
use wow_db.Prelude.{
  ℕ, zero, suc, ◌-◌, ◌<◌, ◌≡◌, refl, ap, sym, ◌∙◌, arith, String, List, [], ◌∷◌, ◌++◌, some, length,
  take, drop, replicate, get_elem?, map, length-append, ◌⊎◌, inl, inr,
}
use wow_db.Meta.Rebalance.{MigrationPlan, SnShards}

-- `shards`, the last one first.
unfoldable pub backwards : List ℕ → List ℕ
backwards [] = []
backwards (x ∷ xs) = backwards xs ++ x ∷ []

abbrev pub tag : String → ℕ → String × ℕ
tag sn shard = (sn, shard)

-- What a node has over the target, each shard with the node.
unfoldable pub spare : ℕ → String × List ℕ → List (String × ℕ)
spare target donor = map (tag (donor.0)) (take (length (donor.1) - target) (backwards (donor.1)))

unfoldable pub pool : ℕ → SnShards → List (String × ℕ)
pool target [] = []
pool target (e ∷ es) = spare target e ++ pool target es

-- Each node, as often as it lacks a shard.
unfoldable pub demand : ℕ → SnShards → List String
demand target [] = []
demand target ((sn, shards) ∷ es) = replicate (target - length shards) sn ++ demand target es

unfoldable pub move_to : String → String × ℕ → MigrationPlan
move_to receiver (sn, shard) = record { shard_id = shard; from_sn = sn; to_sn = receiver }

-- The first to the first, for as long as there are both.
unfoldable pub paired : List (String × ℕ) → List String → List MigrationPlan
paired [] rs = []
paired (x ∷ xs) [] = []
paired (x ∷ xs) (r ∷ rs) = move_to r x ∷ paired xs rs

pub length-backwards : (xs : List ℕ) → length (backwards xs) ≡ length xs
unfolding backwards
length-backwards [] = refl
length-backwards (x ∷ xs) =
    omega (arith, length-append (backwards xs) (x ∷ []), length-backwards xs)

pub paired-nil : (xs : List (String × ℕ)) → paired xs [] ≡ []
unfolding paired
paired-nil [] = refl
paired-nil (x ∷ xs) = refl

-- One receiver takes a part of the pool, the later ones what is left.
pub paired-replicate :
    (n : ℕ) (r : String) (xs : List (String × ℕ)) (rs : List String)
    → paired xs (replicate n r ++ rs) ≡ map (move_to r) (take n xs) ++ paired (drop n xs) rs
unfolding paired
paired-replicate zero r xs rs = refl
paired-replicate (suc n) r [] rs = refl
paired-replicate (suc n) r (x ∷ xs) rs = ap (λ t. move_to r x ∷ t) (paired-replicate n r xs rs)

get-last : (xs : List ℕ) (x : ℕ) → get_elem? (xs ++ x ∷ []) (length xs) ≡ some x
get-last [] x = refl
get-last (y ∷ xs) x = get-last xs x

get-front : (xs ys : List ℕ) (j : ℕ) → j < length xs → get_elem? (xs ++ ys) j ≡ get_elem? xs j
get-front [] ys j h = absurd (omega (arith, h))
get-front (x ∷ xs) ys zero h = refl
get-front (x ∷ xs) ys (suc j) h = get-front xs ys j (omega (arith, h))

-- The index from the end.
pub get-backwards :
    (xs : List ℕ) (j : ℕ)
    → j < length xs
    → get_elem? xs (length xs - 1 - j) ≡ get_elem? (backwards xs) j
unfolding backwards
get-backwards [] j h = absurd (omega (arith, h))
get-backwards (x ∷ xs) j h = elim (lt_cases j (length xs) h) [
  | inl l ↦
      let e : length (x ∷ xs) - 1 - j ≡ suc (length xs - 1 - j) = omega (arith, l) in
      ap (get_elem? (x ∷ xs)) e
      ∙ get-backwards xs j l
      ∙ sym (get-front (backwards xs) (x ∷ []) j (omega (arith, l, length-backwards xs)))
  | inr l ↦
      let e : length (x ∷ xs) - 1 - j ≡ 0 = omega (arith, l) in
      let k : j ≡ length (backwards xs) = omega (arith, l, length-backwards xs) in
      ap (get_elem? (x ∷ xs)) e
      ∙ sym (ap (get_elem? (backwards xs ++ x ∷ [])) k ∙ get-last (backwards xs) x)
]
  where
    lt_cases : (j n : ℕ) → j < suc n → (j < n) ⊎ (j ≡ n)
    lt_cases j n h = ground (arith, h)

-- An index in range: what stands there, and the list from there on.
pub get-drop :
    (xs : List ℕ) (j n : ℕ)
    → j < length xs
    → (x : ℕ) × (get_elem? xs j ≡ some x)
      × (take (suc n) (drop j xs) ≡ x ∷ take n (drop (suc j) xs))
get-drop [] j n h = absurd (omega (arith, h))
get-drop (x ∷ xs) zero n h = (x, refl, refl)
get-drop (x ∷ xs) (suc j) n h = get-drop xs j n (omega (arith, h))
