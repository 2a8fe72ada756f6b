-- ===== src/Ppu/Oam/Lists.antt =====
-- About lists of cells: what removing an item and appending one does to them.
use realboy.Prelude.{
  ℕ, zero, suc, ◌+◌, ◌-◌, ◌≤◌, ◌<◌, ◌≡◌, refl, ap, arith, inl, inr, Bool, Bool-cases, true, ◌==◌,
  if◌then◌else◌, to_int, List, [], ◌∷◌, ◌++◌, nth, length, count,
}
use realboy.Machine.Hash.{IsCell, Cells, total, tally}

-- A list without the first `p`.
unfoldable pub remove : ℕ → List ℕ → List ℕ
remove p [] = []
remove p (x ∷ xs) = if x == p then xs else x ∷ remove p xs

pub nth-beyond : (xs : List ℕ) (i : ℕ) → length xs ≤ i → nth xs i ≡ 0
nth-beyond [] i h = refl
nth-beyond (x ∷ xs) zero h = absurd (omega arith)
nth-beyond (x ∷ xs) (suc i) h = nth-beyond xs i (omega arith)

pub nth-append :
    (xs : List ℕ) (p i : ℕ) → nth (xs ++ (p ∷ [])) i ≡ (if i == length xs then p else nth xs i)
nth-append [] p zero = refl
nth-append [] p (suc i) = ground arith
nth-append (x ∷ xs) p zero = ground arith
nth-append (x ∷ xs) p (suc i) = ground (arith, nth-append xs p i)

pub length-remove :
    (p : ℕ) (xs : List ℕ) → count p xs ≤ 1 → length (remove p xs) + count p xs ≡ length xs
unfolding remove
length-remove p [] h = refl
length-remove p (x ∷ xs) h = ground (arith, length-remove p xs)

pub count-remove : (q p : ℕ) (xs : List ℕ) → count q (remove p xs) ≡ count q xs - to_int (q == p)
unfolding remove
count-remove q p [] = ground arith
count-remove q p (x ∷ xs) = ground (arith, count-remove q p xs)

pub count-append :
    (q : ℕ) (xs : List ℕ) (p : ℕ) → count q (xs ++ (p ∷ [])) ≡ count q xs + to_int (q == p)
count-append q [] p = omega arith
count-append q (x ∷ xs) p = omega (arith, count-append q xs p)

pub Cells-remove : (p : ℕ) (xs : List ℕ) → Cells xs → Cells (remove p xs)
unfolding remove
Cells-remove p [] h = tt
Cells-remove p (x ∷ xs) h = ground (arith, Cells-remove p xs h.1)

pub Cells-append : (xs : List ℕ) (p : ℕ) → Cells xs → IsCell p → Cells (xs ++ (p ∷ []))
Cells-append [] p h k = (k, tt)
Cells-append (x ∷ xs) p h k = (h.0, Cells-append xs p h.1 k)

-- Rows with another list in one of them, and marks with another object marked.
abbrev pub put : (ℕ → List ℕ) → ℕ → List ℕ → ℕ → List ℕ
put rows k xs r = if k == r then xs else rows r

abbrev pub mark : (ℕ → Bool) → ℕ → ℕ → Bool
mark hashed j i = if j == i then true else hashed i

total-put_beyond :
    (n k : ℕ) (rows : ℕ → List ℕ) (xs : List ℕ) → n ≤ k → total n (put rows k xs) ≡ total n rows
total-put_beyond zero k rows xs h = refl
total-put_beyond (suc n) k rows xs h = ground (arith, total-put_beyond n k rows xs)

pub total-put :
    (n k : ℕ) (rows : ℕ → List ℕ) (xs : List ℕ)
    → k < n
    → total n (put rows k xs) + length (rows k) ≡ total n rows + length xs
total-put zero k rows xs h = absurd (omega arith)
total-put (suc n) k rows xs h = ground (arith, total-put n k rows xs, total-put_beyond n k rows xs)

pub length-le-total : (n k : ℕ) (rows : ℕ → List ℕ) → k < n → length (rows k) ≤ total n rows
length-le-total zero k rows h = absurd (omega arith)
length-le-total (suc n) k rows h = elim (Bool-cases (k == n)) [
  | inl last ↦ let e : k ≡ n = ground arith in omega (arith, ap (λ (i : ℕ). length (rows i)) e)
  | inr before ↦ let below : k < n = ground arith in omega (arith, length-le-total n k rows below)
]

tally-mark_beyond : (n j : ℕ) (hashed : ℕ → Bool) → n ≤ j → tally n (mark hashed j) ≡ tally n hashed
tally-mark_beyond zero j hashed h = refl
tally-mark_beyond (suc n) j hashed h = ground (arith, tally-mark_beyond n j hashed)

pub tally-mark :
    (n j : ℕ) (hashed : ℕ → Bool)
    → j < n
    → tally n (mark hashed j) + to_int (hashed j) ≡ tally n hashed + 1
tally-mark zero j hashed h = absurd (omega arith)
tally-mark (suc n) j hashed h = elim (Bool-cases (j == n)) [
  | inl last ↦
      let e : j ≡ n = ground arith in
      ground (arith, ap (λ (i : ℕ). to_int (hashed i)) e, tally-mark_beyond n j hashed)
  | inr before ↦ let below : j < n = ground arith in ground (arith, tally-mark n j hashed below)
]

pub tally-le : (n : ℕ) (hashed : ℕ → Bool) → tally n hashed ≤ n
tally-le zero hashed = omega arith
tally-le (suc n) hashed = ground (arith, tally-le n hashed)
