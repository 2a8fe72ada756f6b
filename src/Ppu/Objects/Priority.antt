-- ===== src/Ppu/Objects/Priority.antt =====
-- About get_pixel_priority_from_objs() of emu/ppu.c: the object that a pixel belongs to.
use realboy.Prelude.{
  ℕ, zero, suc, ◌+◌, ◌*◌, ◌%◌, ◌≤◌, ◌<◌, ◌≡◌, ◌≢◌, refl, ap, ◌∙◌, arith, inl, inr, ◌⊎◌, Bool,
  Bool-cases, true, false, not, ◌&&◌, ◌||◌, leb, ◌==◌, if◌then◌else◌, if-cases, List, [], ◌∷◌,
}
use realboy.Machine.{Ppu}
use realboy.Ppu.Objects.{
  obj_indx, first_of, prioritize, prioritize_all, get_pixel_priority_from_objs,
}
use realboy.Ppu.Objects.Found.{All, Among}

-- The walk over the 40 objects ends at the one that comes first.
first_of_lem :
    (n oam a b : ℕ)
    → oam % 4 ≡ 0
    → a % 4 ≡ 0
    → b % 4 ≡ 0
    → oam ≤ a
    → oam ≤ b
    → a < oam + n * 4
    → first_of n oam a b ≡ (if leb a b then a else b)
unfolding first_of
first_of_lem zero oam a b e f g p q h = absurd (omega arith)
first_of_lem (suc n) oam a b e f g p q h = ground (arith, first_of_lem n (oam + 4) a b)

-- An object of `ppu.oam`.
abbrev pub IsObj : ℕ → Type 0
IsObj o = (o < 160) × (o % 4 ≡ 0)

module _ (s : Ppu) (x : ℕ) where
  -- The order in which objects are in front: by their column, and by their place in `ppu.oam`.
  abbrev pub Before : ℕ → ℕ → Type 0
  Before o p = (s.oam (o + 1) < s.oam (p + 1)) ⊎ ((s.oam (o + 1) ≡ s.oam (p + 1)) × (o ≤ p))

  -- The best so far against an object: it has a pixel there and is in front, or the object has none.
  abbrev pub Beats : ℕ × ℕ → ℕ → Type 0
  Beats best o = (obj_indx s x o ≡ 0) ⊎ ((best.0 ≢ 0) × Before best.1 o)

  Before-trans : (o p q : ℕ) → Before o p → Before p q → Before o q
  Before-trans o p q h k = ground arith

  Beats-step :
      (pixel curr indx o : ℕ)
      → indx ≢ 0
      → (pixel ≢ 0 → Before o curr)
      → (p : ℕ) → Beats (pixel, curr) p
      → Beats (indx, o) p
  Beats-step pixel curr indx o n b p (inl none_there) = inl none_there
  Beats-step pixel curr indx o n b p (inr (there, front)) =
      inr (n, Before-trans o curr p (b there) front)

  -- Objects in one column are all opaque at the pixel, or all transparent.
  module _ (opaque_at : ℕ → Bool) where
    abbrev pub Agrees : ℕ → Type 0
    Agrees o = IsObj o × (not (obj_indx s x o == 0) ≡ opaque_at (s.oam (o + 1)))

    -- What holds of the best so far, behind the round for `o`.
    abbrev Round : ℕ × ℕ → ℕ → ℕ × ℕ → Type 0
    Round best o next =
        ((next.0 ≡ obj_indx s x next.1) × Agrees next.1)
        × (Beats next o × ((p : ℕ) → Beats best p → Beats next p))

    module _ (pixel curr o : ℕ) (e : pixel ≡ obj_indx s x curr) (a : Agrees curr)
        (b : Agrees o) where
      stays : Beats (pixel, curr) o → Round (pixel, curr) o (pixel, curr)
      stays h = ((e, a), (h, λ p k. k))

      moves :
          obj_indx s x o ≢ 0
          → (pixel ≢ 0 → Before o curr)
          → Round (pixel, curr) o (obj_indx s x o, o)
      moves n h = ((refl, b), (inr (n, inr (refl, omega arith)), Beats-step pixel curr _ o n h))

      tied : pixel ≢ 0 → s.oam (o + 1) ≡ s.oam (curr + 1) → obj_indx s x o ≢ 0
      tied n t = ground (arith, ap opaque_at t)

      round : Round (pixel, curr) o (prioritize s x (pixel, curr) o)
      unfolding prioritize
      round =
          let indx = obj_indx s x o in
          let obj_x = s.oam (o + 1) in
          let curr_x = s.oam (curr + 1) in
          let first =
            first_of_lem 40 0 o curr refl b.0.1 a.0.1 (omega arith) (omega arith)
              (omega (arith, b.0.0)) in
          if-cases (Round (pixel, curr) o) (pixel == 0 || leb obj_x curr_x) _ _
            (λ near.
              if-cases (Round (pixel, curr) o) (not (pixel == 0) && obj_x == curr_x) _ _
                (λ tie.
                  if-cases (Round (pixel, curr) o) (first_of 40 0 o curr == o) _ _
                    (λ t. moves (tied (ground arith) (ground arith)) (λ _. ground (arith, first)))
                    (λ f. stays (ground (arith, first))))
                (λ clear.
                  if-cases (Round (pixel, curr) o) (indx == 0) _ _ (λ t. stays (inl (ground arith)))
                    (λ f. moves (ground arith) (λ n. ground arith))))
            (λ far. stays (ground arith))

    Beats-All :
        (best next : ℕ × ℕ) (os : List ℕ)
        → ((p : ℕ) → Beats best p → Beats next p)
        → All (Beats best) os
        → All (Beats next) os
    Beats-All best next [] k h = tt
    Beats-All best next (o ∷ os) k h = (k o h.0, Beats-All best next os k h.1)

    rounds :
        (pixel curr : ℕ) (os : List ℕ)
        → pixel ≡ obj_indx s x curr
        → Agrees curr
        → All Agrees os
        → let last = prioritize_all s x (pixel, curr) os in
          ((last.0 ≡ obj_indx s x last.1) × Agrees last.1)
          × (All (Beats last) os × ((p : ℕ) → Beats (pixel, curr) p → Beats last p))
    unfolding prioritize_all
    rounds pixel curr [] e a h = ((e, a), (tt, λ p k. k))
    rounds pixel curr (o ∷ os) e a h =
        let next = prioritize s x (pixel, curr) o in
        let r = round pixel curr o e a h.0 in
        let rest = rounds next.0 next.1 os r.0.0 r.0.1 h.1 in
        (rest.0, ((rest.1.1 o r.1.0, rest.1.0), λ p k. rest.1.1 p (r.1.1 p k)))

prioritize-either :
    (s : Ppu) (x : ℕ) (best : ℕ × ℕ) (o : ℕ)
    → ((prioritize s x best o).1 ≡ best.1) ⊎ ((prioritize s x best o).1 ≡ o)
unfolding prioritize
prioritize-either s x (pixel, curr) o = ground arith

prioritize_all-Among :
    (s : Ppu) (x pixel curr : ℕ) (os : List ℕ)
    → Among (prioritize_all s x (pixel, curr) os).1 (curr ∷ os)
unfolding prioritize_all
prioritize_all-Among s x pixel curr [] = inl refl
prioritize_all-Among s x pixel curr (o ∷ os) =
    let next = prioritize s x (pixel, curr) o in
    elim (prioritize_all-Among s x next.0 next.1 os) [
      | inl at ↦ elim (prioritize-either s x (pixel, curr) o) [
        | inl old ↦ inl (at ∙ old)
        | inr new ↦ inr (inl (at ∙ new))
      ]
      | inr later ↦ inr (inr later)
    ]

-- For objects of which those in one column are all opaque at the pixel or all transparent,
-- get_pixel_priority_from_objs() returns one of them with its pixel, and where any is opaque, the
-- winner is opaque and no opaque one is in front of it, by the column and then by the place in
-- `ppu.oam`.
pub get_pixel_priority_from_objs_lem :
    (s : Ppu) (x : ℕ) (opaque_at : ℕ → Bool) (obj : ℕ) (objs : List ℕ)
    → All (Agrees s x opaque_at) (obj ∷ objs)
    → let winner = get_pixel_priority_from_objs s x obj objs in
      Among winner.1 (obj ∷ objs)
      × (winner.0 ≡ obj_indx s x winner.1)
      × All (Beats s x winner) (obj ∷ objs)
unfolding get_pixel_priority_from_objs
get_pixel_priority_from_objs_lem s x opaque_at obj objs h =
    let r = rounds s x opaque_at (obj_indx s x obj) obj objs refl h.0 h.1 in
    (
      prioritize_all-Among s x (obj_indx s x obj) obj objs,
      r.0.0,
      (r.1.1 obj (start (Bool-cases (obj_indx s x obj == 0))), r.1.0),
    )
  where
    start :
        ((obj_indx s x obj == 0) ≡ true) ⊎ ((obj_indx s x obj == 0) ≡ false)
        → Beats s x (obj_indx s x obj, obj) obj
    start (inl t) = inl (ground arith)
    start (inr f) = inr (ground arith, inr (refl, omega arith))

-- An object that is transparent at the pixel hides one in the same column that is opaque, if it is
-- in front by its place in `ppu.oam` and behind in the list: the pixel is 0.
pub get_pixel_priority_from_objs-hidden :
    (s : Ppu) (x obj first : ℕ)
    → IsObj obj
    → IsObj first
    → first < obj
    → s.oam (first + 1) ≡ s.oam (obj + 1)
    → obj_indx s x obj ≢ 0
    → obj_indx s x first ≡ 0
    → get_pixel_priority_from_objs s x obj (first ∷ []) ≡ (0, first)
unfolding get_pixel_priority_from_objs prioritize_all prioritize
get_pixel_priority_from_objs-hidden s x obj first a b l same opaque clear = ground (
  arith,
  first_of_lem 40 0 first obj refl b.1 a.1 (omega arith) (omega arith) (omega (arith, b.0)),
)
