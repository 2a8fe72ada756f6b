-- ===== src/ItemList/Laws.antt =====
-- What the functions of src/list.c do to the items that the list holds.
use realboy.Prelude.{
  ℕ, zero, suc, ◌+◌, ◌-◌, ◌≤◌, ◌<◌, ◌≡◌, ◌≢◌, refl, ap, ◌∙◌, arith, true, false, ◌&&◌, ltb, leb,
  ◌==◌, if◌then◌else◌, if-cases, Bool-cases, ltb_sound, inl, inr, List, [], ◌∷◌, Option, some, none,
}
use mathlib.Core.Option.{map}
use realboy.ItemList.{ItemList, list_del, find_from, list_remove}

-- `n` items from `d` on.
pub listed : ℕ → (ℕ → ℕ) → ℕ → List ℕ
listed zero f d = []
listed (suc n) f d = f d ∷ listed n f (d + 1)

-- The abstract list.
abbrev pub contents : ItemList → List ℕ
contents l = listed l.length l.items 0

-- The items are in the array, which has room for some.
pub record ListValid (l : ItemList) : Type 0 where
  pub fits : l.length ≤ l.capacity
  pub room : 0 < l.capacity

-- A result that is there, with these items, and again valid.
abbrev pub Holds : List ℕ → Option ItemList → Type 0
Holds xs none = ⊥
Holds xs (some l) = (contents l ≡ xs) × ListValid l

-- A list without the element at a position.
pub delete_at : ℕ → List ℕ → List ℕ
delete_at k [] = []
delete_at zero (x ∷ xs) = xs
delete_at (suc k) (x ∷ xs) = x ∷ delete_at k xs

-- The items behind memmove(), where `last` is the length behind it.
abbrev moved : ℕ → ℕ → (ℕ → ℕ) → ℕ → ℕ
moved index last f i = if leb index i && ltb i last then f (i + 1) else f i

listed-moved_shift :
    (n index last : ℕ) (f : ℕ → ℕ) (d : ℕ)
    → index ≤ d
    → d + n ≡ last
    → listed n (moved index last f) d ≡ listed n f (d + 1)
unfolding listed
listed-moved_shift zero index last f d low e = refl
listed-moved_shift (suc n) index last f d low e = rw (here) (
    ap (λ (xs : List ℕ). f (d + 1) ∷ xs)
      (listed-moved_shift n index last f (d + 1) (omega arith) (omega arith)))
  where
    here : moved index last f d ≡ f (d + 1)
    here = ground arith

listed-moved :
    (k n index last : ℕ) (f : ℕ → ℕ) (d : ℕ)
    → d + k ≡ index
    → k ≤ n
    → d + n ≡ last
    → listed n (moved index last f) d ≡ delete_at k (listed (suc n) f d)
unfolding listed delete_at
listed-moved zero n index last f d e small l = listed-moved_shift n index last f d (omega arith) l
listed-moved (suc k) zero index last f d e small l = absurd (omega arith)
listed-moved (suc k) (suc n) index last f d e small l = rw (before) (
    ap (λ (xs : List ℕ). f d ∷ xs)
      (listed-moved k n index last f (d + 1) (omega arith) (omega arith) (omega arith)))
  where
    before : moved index last f d ≡ f d
    before = ground arith

deleted :
    (l : ItemList) (index : ℕ)
    → index < l.length
    → listed (l.length - 1) (moved index (l.length - 1) l.items) 0 ≡ delete_at index (contents l)
deleted l index inside =
    listed-moved index (l.length - 1) index (l.length - 1) l.items 0 (omega arith) (omega arith)
      (omega arith)
    ∙ ap (λ (n : ℕ). delete_at index (listed n l.items 0)) whole
  where
    whole : suc (l.length - 1) ≡ l.length
    whole = omega arith

contents-list_del :
    (l : ItemList) (index : ℕ)
    → index < l.length
    → map contents (list_del l index) ≡ some (delete_at index (contents l))
unfolding list_del
contents-list_del l index inside =
    if-cases (λ (r : Option ItemList). map contents r ≡ some (delete_at index (contents l)))
      (ltb index l.length) _ _ (λ _. ap some (deleted l index inside))
      (λ outside. absurd (ground arith))

find_from-first :
    (n : ℕ) (f : ℕ → ℕ) (d item i : ℕ)
    → f i ≡ item
    → d ≤ i
    → i < d + n
    → ((j : ℕ) → d ≤ j → j < i → f j ≢ item)
    → find_from n f d item ≡ (i + 1, item)
unfolding find_from
find_from-first zero f d item i hit low high none_before = absurd (omega arith)
find_from-first (suc n) f d item i hit low high none_before =
    if-cases (λ (r : ℕ × ℕ). r ≡ (i + 1, item)) (f d == item) _ _
      (λ t. let at : d ≡ i = reached t in rw (at, hit) refl)
      (λ u.
        find_from-first n f (d + 1) item i hit (passed u) (omega arith)
          (λ j p q. none_before j (omega arith) q))
  where
    reached : (f d == item) ≡ true → d ≡ i
    reached t = elim (Bool-cases (ltb d i)) [
      | inl before ↦ absurd (none_before d (omega arith) (ltb_sound d i before) (ground arith))
      | inr behind ↦ ground arith
    ]

    passed : (f d == item) ≡ false → d + 1 ≤ i
    passed u = elim (Bool-cases (ltb d i)) [
      | inl before ↦ ground arith
      | inr behind ↦
          absurd
            (let at : d ≡ i = ground arith in let same : f d ≡ item = ap f at ∙ hit in ground arith)
    ]

module _ (l : ItemList) (item i : ℕ) (nonzero : item ≢ 0) (hit : l.items i ≡ item)
    (inside : i < l.length) (first : (j : ℕ) → j < i → l.items j ≢ item) where
  removed : list_remove l item ≡ list_del l (i + 1)
  unfolding list_remove
  removed =
      rw
        (find_from-first l.length l.items 0 item i hit (omega arith) (omega arith)
          (λ j p q. first j q))
        (if-cases (λ (r : Option ItemList). r ≡ list_del l (i + 1)) (item == 0) _ _
          (λ t. absurd (nonzero (ground arith))) (λ _. refl))

  contents-list_remove :
      i + 1 < l.length → map contents (list_remove l item) ≡ some (delete_at (i + 1) (contents l))
  contents-list_remove more = rw removed (contents-list_del l (i + 1) more)

  list_remove-last : i + 1 ≡ l.length → list_remove l item ≡ none
  unfolding list_del
  list_remove-last last = rw removed (
      if-cases (λ (r : Option ItemList). r ≡ none) (ltb (i + 1) l.length) _ _
        (λ t. absurd (ground arith)) (λ _. refl))

  -- For an item that is not 0 and is in the list, list_remove() deletes the item behind its first
  -- place, and keeps the item itself; where that place is the last of the list, it calls memmove()
  -- with a negative number of items, which is undefined.
  pub list_remove_lem :
      map contents (list_remove l item)
      ≡ (if ltb (i + 1) l.length then some (delete_at (i + 1) (contents l)) else none)
  list_remove_lem =
      if-cases (λ (r : Option (List ℕ)). map contents (list_remove l item) ≡ r)
        (ltb (i + 1) l.length) _ _ (λ more. contents-list_remove (ground arith))
        (λ last. ap (map contents) (list_remove-last (ground arith)))
