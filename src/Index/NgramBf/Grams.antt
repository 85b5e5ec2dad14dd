-- ===== src/Index/NgramBf/Grams.antt =====
-- storage-node/src/index/ngrambf.rs: the n-grams of a needle are those of every text around it.
use wow_db.Prelude.{
  ℕ, zero, suc, ◌+◌, ◌-◌, ◌^◌, ◌<◌, ◌≤◌, min, ◌≡◌, refl, ap, sym, subst, ◌∙◌, arith, true,
  Bool-cases, inl, inr, List, [], ◌∷◌, ◌++◌, All, length, length-append, take, drop, take-append,
  take-drop-take, Elem, here, there,
}
use wow_db.Index.NgramBf.{less_one, gram, grams, ngrams, is_prefix, is_infix}

prefix-append :
    (needle s : List ℕ) → is_prefix needle s ≡ true → (post : List ℕ) × (s ≡ needle ++ post)
unfolding is_prefix
prefix-append [] s h = (s, refl)
prefix-append (a ∷ as') [] h = absurd (cc h)
prefix-append (a ∷ as') (b ∷ bs) h =
    let r = prefix-append as' bs (ground (arith, h)) in
    let e : b ≡ a = ground (arith, h) in (r.0, ap (λ t. t ∷ bs) e ∙ ap (λ l. a ∷ l) r.1)

pub infix-append :
    (needle s : List ℕ)
    → is_infix needle s ≡ true
    → (pre : List ℕ) × (post : List ℕ) × (s ≡ pre ++ (needle ++ post))
unfolding is_infix
infix-append needle [] h = let r = prefix-append needle [] h in ([], r.0, r.1)
infix-append needle (b ∷ bs) h = elim (Bool-cases (is_prefix needle (b ∷ bs))) [
  | inl e ↦ let r = prefix-append needle (b ∷ bs) e in ([], r.0, r.1)
  | inr e ↦
      let r = infix-append needle bs (ground (arith, h, e)) in (b ∷ r.0, r.1, ap (λ l. b ∷ l) r.2)
]

Elem-grams :
    (n i count j : ℕ) (s : List ℕ) → j < count → Elem (gram n (i + j) s) (grams n i count s)
unfolding grams
Elem-grams n i zero j s l = absurd (omega (arith, l))
Elem-grams n i (suc count) zero s l =
    let e : i ≡ i + 0 = omega arith in
    subst (λ k. Elem (gram n k s) (gram n i s ∷ grams n (i + 1) count s)) e here
Elem-grams n i (suc count) (suc j) s l =
    let e : i + 1 + j ≡ i + suc j = omega arith in
    there (
      subst (λ k. Elem (gram n k s) (grams n (i + 1) count s)) e
        (Elem-grams n (i + 1) count j s (omega (arith, l))))

drop-beyond : (xs ys : List ℕ) (i : ℕ) → drop (length xs + i) (xs ++ ys) ≡ drop i ys
drop-beyond [] ys i = let e : 0 + i ≡ i = omega arith in ap (λ k. drop k ys) e
drop-beyond (x ∷ xs) ys i =
    let e : suc (length xs) + i ≡ suc (length xs + i) = omega arith in
    ap (λ k. drop k (x ∷ xs ++ ys)) e ∙ drop-beyond xs ys i

-- An n-gram of the needle is one of the text around it.
gram-append :
    (n i : ℕ) (pre needle post : List ℕ)
    → i + n ≤ length needle
    → gram n i needle ≡ gram n (length pre + i) (pre ++ (needle ++ post))
gram-append n i pre needle post h =
    let lengths : length (pre ++ (needle ++ post)) ≡ length pre + (length needle + length post) =
      length-append pre (needle ++ post) ∙ ap (λ k. length pre + k) (length-append needle post) in
    let short : min n (length needle - i) ≡ n = omega (arith, h) in
    let long : min n (length (pre ++ (needle ++ post)) - (length pre + i)) ≡ n =
      omega (arith, h, lengths) in
    ap (λ k. take k (drop i needle)) short
    ∙ ap (λ l. take n (drop i l)) (sym (take-append needle post))
    ∙ take-drop-take n i (length needle) (needle ++ post) h
    ∙ ap (take n) (sym (drop-beyond pre (needle ++ post) i))
    ∙ ap (λ k. take k (drop (length pre + i) (pre ++ (needle ++ post)))) (sym long)

pub grams-Elem :
    (n i count : ℕ) (pre needle post : List ℕ)
    → zero < n
    → n < 2 ^ 64
    → (i + count) + (n - 1) ≤ length needle
    → All (λ (x : List ℕ). Elem x (ngrams (pre ++ (needle ++ post)) n)) (grams n i count needle)
unfolding grams ngrams
grams-Elem n i zero pre needle post z w h = tt
grams-Elem n i (suc count) pre needle post z w h =
    let s = pre ++ (needle ++ post) in
    let lengths : length s ≡ length pre + (length needle + length post) =
      length-append pre (needle ++ post) ∙ ap (λ k. length pre + k) (length-append needle post) in
    let inside : length pre + i < length s - less_one n = omega (arith, h, lengths, z, w) in
    let found = Elem-grams n 0 (length s - less_one n) (length pre + i) s inside in
    let e : 0 + (length pre + i) ≡ length pre + i = omega arith in
    let same = gram-append n i pre needle post (omega (arith, h, z)) in
    (
      subst (λ x. Elem x (ngrams s n)) (ap (λ k. gram n k s) e ∙ sym same) found,
      grams-Elem n (i + 1) count pre needle post z w (omega (arith, h)),
    )
