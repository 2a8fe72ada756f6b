-- ===== src/Ppu/Oam/Walks.antt =====
-- About the three loops of oam_rehash() of emu/ppu.c, on cells that hold a list.
use realboy.Prelude.{
  ℕ, zero, suc, ◌+◌, ◌≤◌, ◌<◌, ◌≡◌, ◌≢◌, refl, ap, ◌∙◌, arith, inl, inr, ◌⊎◌, Bool, Bool-cases,
  true, false, ◌||◌, ◌==◌, if◌then◌else◌, if-cases, update, List, [], ◌∷◌, ◌++◌, nth, length,
}
use realboy.Machine.Hash.{Cells, Held}
use realboy.Ppu.Oam.{unlink, free_cell}
use realboy.Ppu.Oam.Lists.{remove, nth-append}

-- A place outside `n` cells from `at` on.
abbrev pub Outside : ℕ → ℕ → ℕ → Type 0
Outside at n i = (i < at) ⊎ (at + n ≤ i)

pub Held-tail :
    (h : ℕ → ℕ) (at n x : ℕ) (xs : List ℕ) → Held h at (suc n) (x ∷ xs) → Held h (at + 1) n xs
Held-tail h at n x xs held i lt = ap h place ∙ held (suc i) (omega arith)
  where
    place : at + 1 + i ≡ at + suc i
    place = omega arith

pub Held-head : (h : ℕ → ℕ) (at n : ℕ) (xs : List ℕ) → 0 < n → Held h at n xs → h at ≡ nth xs 0
Held-head h at n xs pos held = ap h place ∙ held 0 pos
  where
    place : at ≡ at + 0
    place = omega arith

Held-cons :
    (h : ℕ → ℕ) (at n : ℕ) (xs : List ℕ) (f : ℕ → ℕ)
    → h at ≡ f 0
    → ((i : ℕ) → i < n → h (at + 1 + i) ≡ f (suc i))
    → (i : ℕ) → i < suc n
    → h (at + i) ≡ f i
Held-cons h at n xs f first rest zero lt = ap h place ∙ first
  where
    place : at + 0 ≡ at
    place = omega arith
Held-cons h at n xs f first rest (suc i) lt = ap h place ∙ rest i (omega arith)
  where
    place : at + suc i ≡ at + 1 + i
    place = omega arith

abbrev shifted : (ℕ → ℕ) → ℕ → ℕ → ℕ
shifted h at = update h at (h (at + 1))

-- One round of the walk, at a cell that is not NULL.
module _ (fuel : ℕ) (h : ℕ → ℕ) (at p : ℕ) where
  unlink-end : (found : Bool) → h at ≡ 0 → unlink (suc fuel) h at p found ≡ h
  unfolding unlink
  unlink-end found e =
      if-cases (λ (g : ℕ → ℕ). g ≡ h) (h at == 0) _ _ (λ _. refl) (λ f. absurd (ground arith))

  unlink-hit :
      (found : Bool)
      → h at ≢ 0
      → h at == p || found ≡ true
      → unlink (suc fuel) h at p found ≡ unlink fuel (shifted h at) (at + 1) p true
  unfolding unlink
  unlink-hit found n e =
      if-cases (λ (g : ℕ → ℕ). g ≡ unlink fuel (shifted h at) (at + 1) p true) (h at == 0) _ _
        (λ t. absurd (n (ground arith)))
        (λ f. ap (λ (b : Bool). unlink fuel (if b then shifted h at else h) (at + 1) p b) e)

  unlink-miss :
      h at ≢ 0
      → (h at == p) ≡ false
      → unlink (suc fuel) h at p false ≡ unlink fuel h (at + 1) p false
  unfolding unlink
  unlink-miss n e =
      if-cases (λ (g : ℕ → ℕ). g ≡ unlink fuel h (at + 1) p false) (h at == 0) _ _
        (λ t. absurd (n (ground arith)))
        (λ f.
          ap
            (λ (b : Bool).
              unlink fuel (if b || false then shifted h at else h) (at + 1) p (b || false))
            e)

or-true : (b : Bool) → b || true ≡ true
or-true true = refl
or-true false = refl

shifted-tail :
    (h : ℕ → ℕ) (at n x : ℕ) (xs : List ℕ)
    → Held h at (suc n) (x ∷ xs)
    → Held (shifted h at) (at + 1) n xs
shifted-tail h at n x xs held i lt = ground (arith, Held-tail h at n x xs held i lt)

shifted-head :
    (h : ℕ → ℕ) (at n x : ℕ) (xs : List ℕ)
    → 0 < n
    → Held h at (suc n) (x ∷ xs)
    → shifted h at at ≡ nth xs 0
shifted-head h at n x xs pos held =
    ground (arith, Held-head h (at + 1) n xs pos (Held-tail h at n x xs held))

abbrev Same : (ℕ → ℕ) → (ℕ → ℕ) → ℕ → ℕ → Type 0
Same g h at n = (i : ℕ) → Outside at n i → g i ≡ h i

Same-plain : (g h : ℕ → ℕ) (at n : ℕ) → Same g h (at + 1) n → Same g h at (suc n)
Same-plain g h at n same i (inl before) = same i (inl (omega arith))
Same-plain g h at n same i (inr behind) = same i (inr (omega arith))

Same-shifted : (g h : ℕ → ℕ) (at n : ℕ) → Same g (shifted h at) (at + 1) n → Same g h at (suc n)
Same-shifted g h at n same i out = Same-plain g (shifted h at) at n same i out ∙ apart out
  where
    apart : Outside at (suc n) i → shifted h at i ≡ h i
    apart (inl before) = ground arith
    apart (inr behind) = ground arith

-- From the object on, each cell takes its neighbour's value.
shift :
    (xs : List ℕ) (fuel : ℕ) (h : ℕ → ℕ) (at n p : ℕ)
    → Cells xs
    → Held h at n xs
    → length xs < n
    → length xs < fuel
    → ((i : ℕ) → i < n → unlink fuel h at p true (at + i) ≡ nth xs (suc i))
      × Same (unlink fuel h at p true) h at (length xs)
shift xs zero h at n p cells held less enough = absurd (omega arith)
shift xs (suc fuel) h at zero p cells held less enough = absurd (omega arith)
shift [] (suc fuel) h at (suc n) p cells held less enough =
    let empty = Held-head h at (suc n) [] (omega arith) held in
    rw (unlink-end fuel h at p true empty) (held, λ i out. refl)
shift (x ∷ xs) (suc fuel) h at (suc n) p cells held less enough =
    let first = Held-head h at (suc n) (x ∷ xs) (omega arith) held in
    let round =
      unlink-hit fuel h at p true (ground (arith, first, cells.0)) (or-true (h at == p)) in
    let rest =
      shift xs fuel (shifted h at) (at + 1) n p cells.1 (shifted-tail h at n x xs held)
        (omega arith) (omega arith) in
    rw round (
      Held-cons (unlink fuel (shifted h at) (at + 1) p true) at n xs (λ i. nth xs i)
          (rest.1 at (inl (omega arith)) ∙ shifted-head h at n x xs (omega arith) held) rest.0,
      Same-shifted _ h at (length xs) rest.1,
    )

-- The first two loops take the first `p` out of a list, and touch no cell outside it.
pub unlink_lem :
    (xs : List ℕ) (fuel : ℕ) (h : ℕ → ℕ) (at n p : ℕ)
    → Cells xs
    → Held h at n xs
    → length xs < n
    → length xs < fuel
    → Held (unlink fuel h at p false) at n (remove p xs)
      × Same (unlink fuel h at p false) h at (length xs)
unfolding remove
unlink_lem xs zero h at n p cells held less enough = absurd (omega arith)
unlink_lem xs (suc fuel) h at zero p cells held less enough = absurd (omega arith)
unlink_lem [] (suc fuel) h at (suc n) p cells held less enough =
    let empty = Held-head h at (suc n) [] (omega arith) held in
    rw (unlink-end fuel h at p false empty) (held, λ i out. refl)
unlink_lem (x ∷ xs) (suc fuel) h at (suc n) p cells held less enough =
    let first = Held-head h at (suc n) (x ∷ xs) (omega arith) held in
    let full : h at ≢ 0 = ground (arith, first, cells.0) in
    elim (Bool-cases (x == p)) [
      | inl hit ↦
          let rest =
            shift xs fuel (shifted h at) (at + 1) n p cells.1 (shifted-tail h at n x xs held)
              (omega arith) (omega arith) in
          rw (unlink-hit fuel h at p false full (ground (arith, first, hit)), hit)
            (
              Held-cons (unlink fuel (shifted h at) (at + 1) p true) at n xs (λ i. nth xs i)
                  (rest.1 at (inl (omega arith)) ∙ shifted-head h at n x xs (omega arith) held)
                  rest.0,
              Same-shifted _ h at (length xs) rest.1,
            )
      | inr miss ↦
          let rest =
            unlink_lem xs fuel h (at + 1) n p cells.1 (Held-tail h at n x xs held) (omega arith)
              (omega arith) in
          rw (unlink-miss fuel h at p full (ground (arith, first, miss)), miss)
            (
              Held-cons (unlink fuel h (at + 1) p false) at n xs (λ i. nth (x ∷ remove p xs) i)
                  (rest.1 at (inl (omega arith)) ∙ first) rest.0,
              Same-plain _ h at (length xs) rest.1,
            )
    ]

-- The last loop ends at the first NULL.
pub free_cell_lem :
    (xs : List ℕ) (fuel : ℕ) (h : ℕ → ℕ) (at n : ℕ)
    → Cells xs
    → Held h at n xs
    → length xs < n
    → length xs < fuel
    → free_cell fuel h at ≡ at + length xs
unfolding free_cell
free_cell_lem xs zero h at n cells held less enough = absurd (omega arith)
free_cell_lem xs (suc fuel) h at zero cells held less enough = absurd (omega arith)
free_cell_lem [] (suc fuel) h at (suc n) cells held less enough =
    ground (arith, Held-head h at (suc n) [] (omega arith) held)
free_cell_lem (x ∷ xs) (suc fuel) h at (suc n) cells held less enough = ground (
  arith,
  Held-head h at (suc n) (x ∷ xs) (omega arith) held,
  cells.0,
  free_cell_lem xs fuel h (at + 1) n cells.1 (Held-tail h at n x xs held) (omega arith)
      (omega arith),
)

-- An item in the first NULL is appended.
pub Held-append :
    (h : ℕ → ℕ) (at n : ℕ) (xs : List ℕ) (p : ℕ)
    → Held h at n xs
    → Held (update h (at + length xs) p) at n (xs ++ (p ∷ []))
Held-append h at n xs p held i lt = ground (arith, held i lt, nth-append xs p i)
