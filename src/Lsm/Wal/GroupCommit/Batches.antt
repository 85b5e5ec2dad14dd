-- ===== src/Lsm/Wal/GroupCommit/Batches.antt =====
-- storage-node/src/lsm/wal.rs, the group commit: batches that are held, and batches whose writers are to be notified.
use mathlib.Core.List.{Perm, perm_middle}
use mathlib.Core.List.Perm
use wow_db.Prelude.{
  ℕ, zero, suc, ◌<◌, ◌≡◌, refl, ap, sym, ◌∙◌, subst, List, [], ◌∷◌, ◌++◌, append_assoc, append-nil,
  arith, All, All-append, length, take,
}
use wow_db.Lsm.Wal.Records.{IsEntry}
use wow_db.Lsm.Wal.GroupCommit.{PendingWrite, Holder, entries}

abbrev pub Fit : List PendingWrite → Type 0
Fit = All (λ pw. IsEntry pw.entry)

-- The batches that are held.
abbrev pub batches : List (Holder × List PendingWrite) → List PendingWrite
batches [] = []
batches ((h, batch) ∷ taken) = batch ++ batches taken

pub batches-append :
    (xs ys : List (Holder × List PendingWrite)) → batches (xs ++ ys) ≡ batches xs ++ batches ys
batches-append [] ys = refl
batches-append ((h, batch) ∷ xs) ys =
    ap (λ l. batch ++ l) (batches-append xs ys) ∙ sym (append_assoc batch (batches xs) (batches ys))

-- The writers that are still to be notified.
abbrev pub outstanding : List (List PendingWrite) → List PendingWrite
outstanding [] = []
outstanding (batch ∷ written) = batch ++ outstanding written

pub outstanding-append :
    (xs ys : List (List PendingWrite)) → outstanding (xs ++ ys) ≡ outstanding xs ++ outstanding ys
outstanding-append [] ys = refl
outstanding-append (batch ∷ xs) ys =
    ap (λ l. batch ++ l) (outstanding-append xs ys)
    ∙ sym (append_assoc batch (outstanding xs) (outstanding ys))

-- A batch more.
pub outstanding-flush :
    (said logged batch : List PendingWrite) (written : List (List PendingWrite))
    → Perm logged (said ++ outstanding written)
    → Perm (logged ++ batch) (said ++ outstanding (written ++ batch ∷ []))
outstanding-flush said logged batch written p =
    let same : (said ++ outstanding written) ++ batch
        ≡ said ++ outstanding (written ++ batch ∷ []) =
      append_assoc said (outstanding written) batch
      ∙ ap (λ l. said ++ l)
          (ap (λ l. outstanding written ++ l) (sym (append-nil batch))
            ∙ sym (outstanding-append written (batch ∷ []))) in
    subst (Perm (logged ++ batch)) same (Perm.append p (Perm.refl batch))

-- A writer of a batch, notified.
pub outstanding-notify :
    (said logged rest : List PendingWrite) (before after : List (List PendingWrite))
    (pw : PendingWrite)
    → Perm logged (said ++ outstanding (before ++ (pw ∷ rest) ∷ after))
    → Perm logged ((said ++ pw ∷ []) ++ outstanding (before ++ rest ∷ after))
outstanding-notify said logged rest before after pw p =
    let tail : List PendingWrite = rest ++ outstanding after in
    let split : said ++ outstanding (before ++ (pw ∷ rest) ∷ after)
        ≡ said ++ (outstanding before ++ pw ∷ tail) =
      ap (λ l. said ++ l) (outstanding-append before ((pw ∷ rest) ∷ after)) in
    let join : said ++ (pw ∷ outstanding before ++ tail)
        ≡ (said ++ pw ∷ []) ++ outstanding (before ++ rest ∷ after) =
      sym (append_assoc said (pw ∷ []) (outstanding before ++ tail))
      ∙ ap (λ l. (said ++ pw ∷ []) ++ l) (sym (outstanding-append before (rest ∷ after))) in
    subst (Perm logged) join (
      Perm.trans (subst (Perm logged) split p)
        (Perm.append (Perm.refl said) (perm_middle (outstanding before) tail)))

pub Fit-batches :
    (xs ys : List (Holder × List PendingWrite))
    → Fit (batches xs)
    → Fit (batches ys)
    → Fit (batches (xs ++ ys))
Fit-batches xs ys a b =
    subst Fit (sym (batches-append xs ys))
      (All-append (λ pw. IsEntry pw.entry) (batches xs) (batches ys) a b)

pub Fit-left : (xs ys : List PendingWrite) → Fit (xs ++ ys) → Fit xs
Fit-left [] ys f = tt
Fit-left (x ∷ xs) ys f = (f.0, Fit-left xs ys f.1)

pub Fit-right : (xs ys : List PendingWrite) → Fit (xs ++ ys) → Fit ys
Fit-right [] ys f = f
Fit-right (x ∷ xs) ys f = Fit-right xs ys f.1

pub Fit-entries : (xs : List PendingWrite) → Fit xs → All IsEntry (entries xs)
Fit-entries [] f = tt
Fit-entries (x ∷ xs) f = (f.0, Fit-entries xs f.1)

pub Fit-take : (k : ℕ) (xs : List PendingWrite) → Fit xs → Fit (take k xs)
Fit-take zero xs f = tt
Fit-take (suc k) [] f = tt
Fit-take (suc k) (x ∷ xs) f = (f.0, Fit-take k xs f.1)

pub length-entries : (xs : List PendingWrite) → length (entries xs) ≡ length xs
length-entries [] = refl
length-entries (x ∷ xs) = ap suc (length-entries xs)

pub length-take-lt :
    (k : ℕ) (xs : List PendingWrite) → k < length xs → length (take k xs) < length xs
length-take-lt k [] h = absurd (omega arith)
length-take-lt zero (x ∷ xs) h = h
length-take-lt (suc k) (x ∷ xs) h = omega (arith, length-take-lt k xs (omega arith))
