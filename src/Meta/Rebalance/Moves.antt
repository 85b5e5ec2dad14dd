-- ===== src/Meta/Rebalance/Moves.antt =====
-- The loop of one receiver takes from the pool, in order, what the receiver lacks; it has fuel enough.
use wow_db.Prelude.{
  ℕ, zero, suc, ◌+◌, ◌-◌, ◌≤◌, ◌<◌, min, ◌≡◌, refl, ap, sym, ◌∙◌, arith, String, List, [], ◌∷◌,
  ◌++◌, Option, some, length, take, drop, take-nil, get_elem?, map, map-append, inl, inr,
  Bool-cases, ltb, nat_beq,
}
use wow_db.Meta.Rebalance.{MigrationPlan, SnShards, Cursor, moves, give}
use wow_db.Meta.Rebalance.Spare.{
  backwards, tag, spare, pool, move_to, length-backwards, get-backwards, get-drop,
}

-- The pool from a cursor on.
unfoldable pub pool_at : ℕ → SnShards → ℕ → List (String × ℕ)
pool_at target [] shard_cursor = []
pool_at target (donor ∷ rest) shard_cursor =
    drop shard_cursor (spare target donor) ++ pool target rest

pub pool_at-start : (target : ℕ) (es : SnShards) → pool_at target es 0 ≡ pool target es
unfolding pool_at pool
pool_at-start target [] = refl
pool_at-start target (e ∷ es) = refl

module _ {ℓ} {A : Type ℓ} where
  pub take-split :
      (n m : ℕ) (xs ys : List A)
      → n ≤ m
      → n ≤ length xs
      → take m (xs ++ ys) ≡ take n xs ++ take (m - n) (drop n xs ++ ys)
  take-split zero m xs ys h l = let e : m ≡ m - 0 = omega arith in ap (λ t. take t (xs ++ ys)) e
  take-split (suc n) zero xs ys h l = absurd (omega (arith, h))
  take-split (suc n) (suc m) [] ys h l = absurd (omega (arith, l))
  take-split (suc n) (suc m) (x ∷ xs) ys h l =
      let e : suc m - suc n ≡ m - n = omega arith in
      rw e (ap (λ t. x ∷ t) (take-split n m xs ys (omega (arith, h)) (omega (arith, l))))

  pub drop-split :
      (n m : ℕ) (xs ys : List A)
      → n ≤ m
      → n ≤ length xs
      → drop m (xs ++ ys) ≡ drop (m - n) (drop n xs ++ ys)
  drop-split zero m xs ys h l = let e : m ≡ m - 0 = omega arith in ap (λ t. drop t (xs ++ ys)) e
  drop-split (suc n) zero xs ys h l = absurd (omega (arith, h))
  drop-split (suc n) (suc m) [] ys h l = absurd (omega (arith, l))
  drop-split (suc n) (suc m) (x ∷ xs) ys h l =
      let e : suc m - suc n ≡ m - n = omega arith in
      rw e (drop-split n m xs ys (omega (arith, h)) (omega (arith, l)))

  drop-nil : (n : ℕ) → drop {A = A} n [] ≡ []
  drop-nil zero = refl
  drop-nil (suc n) = refl

  drop-add : (c n : ℕ) (xs : List A) → drop n (drop c xs) ≡ drop (c + n) xs
  drop-add zero n xs = let e : n ≡ 0 + n = omega arith in ap (λ t. drop t xs) e
  drop-add (suc c) n [] =
      let e : suc (c + n) ≡ suc c + n = omega arith in drop-nil n ∙ ap (λ t. drop {A = A} t []) e
  drop-add (suc c) n (x ∷ xs) =
      let e : suc (c + n) ≡ suc c + n = omega arith in drop-add c n xs ∙ ap (λ t. drop t (x ∷ xs)) e

  drop-all : (c : ℕ) (xs : List A) → length xs ≤ c → drop c xs ≡ []
  drop-all zero [] h = refl
  drop-all (suc c) [] h = refl
  drop-all zero (x ∷ xs) h = absurd (omega (arith, h))
  drop-all (suc c) (x ∷ xs) h = drop-all c xs (omega (arith, h))

  length-drop : (c : ℕ) (xs : List A) → length (drop c xs) ≡ length xs - c
  length-drop zero xs = omega arith
  length-drop (suc c) [] = omega arith
  length-drop (suc c) (x ∷ xs) = omega (arith, length-drop c xs)

-- A part of what is spare.
part_of_spare :
    (target c n : ℕ) (donor : String × List ℕ)
    → c + n ≤ length (donor.1) - target
    → map (tag (donor.0)) (take n (drop c (backwards (donor.1))))
      ≡ take n (drop c (spare target donor))
unfolding spare
part_of_spare target c n donor h = part (length (donor.1) - target) c n (backwards (donor.1)) h
  where
    part :
        (m c n : ℕ) (xs : List ℕ)
        → c + n ≤ m
        → map (tag (donor.0)) (take n (drop c xs))
          ≡ take n (drop c (map (tag (donor.0)) (take m xs)))
    part m zero zero xs h = refl
    part zero zero (suc n) xs h = absurd (omega (arith, h))
    part (suc m) zero (suc n) [] h = refl
    part (suc m) zero (suc n) (x ∷ xs) h =
        ap (λ t. tag (donor.0) x ∷ t) (part m zero n xs (omega (arith, h)))
    part zero (suc c) n xs h = absurd (omega (arith, h))
    part (suc m) (suc c) zero [] h = refl
    part (suc m) (suc c) (suc n) [] h = refl
    part (suc m) (suc c) n (x ∷ xs) h = part m c n xs (omega (arith, h))

pub length-spare :
    (target : ℕ) (donor : String × List ℕ) → length (spare target donor) ≡ length (donor.1) - target
unfolding spare
length-spare target donor =
    longest (length (donor.1) - target) (backwards (donor.1))
      (omega (arith, length-backwards (donor.1)))
  where
    longest : (m : ℕ) (xs : List ℕ) → m ≤ length xs → length (map (tag (donor.0)) (take m xs)) ≡ m
    longest zero xs h = refl
    longest (suc m) [] h = absurd (omega (arith, h))
    longest (suc m) (x ∷ xs) h = ap suc (longest m xs (omega (arith, h)))

-- No index of the loop is out of range.
moves-backwards :
    (donor : String × List ℕ) (receiver : String) (c k n : ℕ)
    → (c + k) + n ≤ length (donor.1)
    → moves donor receiver c k n
      ≡ some (
          map
            (move_to receiver)
            (map (tag (donor.0)) (take n (drop (c + k) (backwards (donor.1))))))
unfolding moves move_to
moves-backwards donor receiver c k zero h = refl
moves-backwards donor receiver c k (suc n) h =
    let xs = donor.1 in
    let i : length xs - 1 - c - k ≡ length xs - 1 - (c + k) = omega arith in
    let r = get-drop (backwards xs) (c + k) n (omega (arith, h, length-backwards xs)) in
    let g : get_elem? xs (length xs - 1 - c - k) ≡ some (r.0) =
      ap (get_elem? xs) i ∙ get-backwards xs (c + k) (omega (arith, h)) ∙ r.1 in
    let s : c + suc k ≡ suc (c + k) = omega arith in
    let ih : moves donor receiver c (suc k) n
        ≡ some (
            map (move_to receiver)
              (map (tag (donor.0)) (take n (drop (suc (c + k)) (backwards xs))))) =
      moves-backwards donor receiver c (suc k) n (omega (arith, h))
      ∙ ap
          (λ t.
            some (map (move_to receiver) (map (tag (donor.0)) (take n (drop t (backwards xs))))))
          s in
    rw (moves, g, ih, r.2) refl

-- What one receiver is given.
pub record IsGiven (target : ℕ) (receiver : String) (needed : ℕ) (all : List (String × ℕ))
    (result : Option (List MigrationPlan × Cursor)) : Type 0 where
  pub plans : List MigrationPlan
  pub next : Cursor
  pub ended : result ≡ some (plans, next)
  pub moved : plans ≡ map (move_to receiver) (take needed all)
  pub left : pool_at target next.rest next.shard_cursor ≡ drop needed all

no_more :
    (target given needed c : ℕ) (receiver : String) (rest : SnShards)
    → needed ≤ given
    → IsGiven target receiver
        (needed - given)
        (pool_at target rest c)
        (some ([], record { rest = rest; shard_cursor = c }))
no_more target given needed c receiver rest h =
    let e : needed - given ≡ 0 = omega (arith, h) in
    record {
      plans = [];
      next = record { rest = rest; shard_cursor = c };
      ended = refl;
      moved = ap (λ n. map (move_to receiver) (take n (pool_at target rest c))) (sym e);
      left = ap (λ n. drop n (pool_at target rest c)) (sym e);
    }

-- With fuel for every donor that is left and every shard that is lacking, the loop of one receiver ends: it
-- moved the first of the pool to the receiver, as many as are lacking, and the cursor stands behind them.
pub give-IsGiven :
    (target needed fuel given c : ℕ) (receiver : String) (rest : SnShards)
    → length rest + (needed - given) < fuel
    → IsGiven target receiver
        (needed - given)
        (pool_at target rest c)
        (give target receiver needed fuel rest c given)
unfolding give pool_at
give-IsGiven target needed zero given c receiver rest h = absurd (omega (arith, h))
give-IsGiven target needed (suc fuel) given c receiver [] h = record {
  plans = [];
  next = record { rest = []; shard_cursor = c };
  ended = refl;
  moved = ap (map (move_to receiver)) (sym (take-nil (needed - given)));
  left = sym (drop-nil (needed - given));
}
give-IsGiven target needed (suc fuel) given c receiver (donor ∷ rest) h =
    elim (Bool-cases (ltb given needed)) [
      | inr e ↦ rw e (no_more target given needed c receiver (donor ∷ rest) (ground arith))
      | inl e ↦ elim (Bool-cases (nat_beq (length (donor.1) - target - c) 0)) [
        | inl z ↦
            let d : drop c (spare target donor) ≡ [] =
              drop-all c (spare target donor) (ground (arith, length-spare target donor)) in
            let r = give-IsGiven target needed fuel given 0 receiver rest (omega (arith, h)) in
            rw (e, z, d, sym (pool_at-start target rest)) r
        | inr z ↦
            let m = needed - given in
            let n = min (length (donor.1) - target - c) m in
            let l : c + n ≤ length (donor.1) - target = ground arith in
            let sp = spare target donor in
            let s : n ≤ length (drop c sp) =
              ground (arith, length-drop c sp, length-spare target donor) in
            let ms : moves donor receiver c 0 n
                ≡ some (map (move_to receiver) (take n (drop c sp))) =
              moves-backwards donor receiver c 0 n (ground (arith, l))
              ∙ ap
                  (λ k. some (
                    map (move_to receiver)
                      (map (tag (donor.0)) (take n (drop k (backwards (donor.1)))))))
                  c_0
              ∙ ap (λ t. some (map (move_to receiver) t)) (part_of_spare target c n donor l) in
            let r =
              give-IsGiven target needed fuel (given + n) (c + n) receiver (donor ∷ rest)
                (ground (arith, h)) in
            rw (e, z, ms, r.ended)
              (record {
                plans = map (move_to receiver) (take n (drop c sp)) ++ r.plans;
                next = r.next;
                ended = refl;
                moved =
                    ap (λ t. map (move_to receiver) (take n (drop c sp)) ++ t)
                      (r.moved ∙ ap (map (move_to receiver)) (same take n sp))
                    ∙ sym (
                        map-append (move_to receiver) (take n (drop c sp))
                          (take (m - n) (drop n (drop c sp) ++ pool target rest)))
                    ∙ ap (map (move_to receiver))
                        (sym (take-split n m (drop c sp) (pool target rest) (ground arith) s));
                left =
                    r.left
                    ∙ same drop n sp
                    ∙ sym (drop-split n m (drop c sp) (pool target rest) (ground arith) s);
              })
      ]
    ]
  where
    c_0 : c + 0 ≡ c
    c_0 = omega arith

    same :
        (f : ℕ → List (String × ℕ) → List (String × ℕ)) (n : ℕ) (sp : List (String × ℕ))
        → f (needed - (given + n)) (drop (c + n) sp ++ pool target rest)
          ≡ f (needed - given - n) (drop n (drop c sp) ++ pool target rest)
    same f n sp =
        let k : needed - (given + n) ≡ needed - given - n = omega arith in
        rw (k, drop-add c n sp) refl
