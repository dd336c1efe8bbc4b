-- ===== src/Portrait/Mask/Reach.antt =====
-- The pixels that a flood fill may mark: those that 4-connected steps over set pixels reach.
use mathlib.Core.Path.{subst}
use live_photo_llm.Prelude.{
  ℕ, zero, suc, true, none, some, List, [], ◌∷◌, ltb, ◌&&◌, ◌<◌, ◌≡◌, ◌∙◌, refl, sym, arith, ◌⊎◌,
  inl, inr, Bool-cases,
}
use live_photo_llm.Portrait.Mask.{ℤ, pos, Pixel, Array, neighbours, before, inside}

-- Two pixels that share an edge.
abbrev pub Adjacent : Pixel → Pixel → Type 0
Adjacent p q =
    ((p.row ≡ q.row) × ((p.column ≡ suc q.column) ⊎ (q.column ≡ suc p.column)))
    ⊎ ((p.column ≡ q.column) × ((p.row ≡ suc q.row) ⊎ (q.row ≡ suc p.row)))

module _ (mask : Array) where
  -- A pixel of the array where the mask is set.
  pub record IsOpen (p : Pixel) : Type 0 where
    pub in_height : p.row < mask.height
    pub in_width : p.column < mask.width
    pub is_set : mask.at p.row p.column ≡ true

  -- The pixels that steps between adjacent set pixels reach from a pixel.
  pub data Connected (seed : Pixel) : Pixel → Type 0 where
    here : Connected seed seed
    next : (p q : Pixel) → Connected seed p → Adjacent p q → IsOpen q → Connected seed q

  -- What holds of the pixel at each of some coordinates that is inside and set.
  abbrev pub Each : (Pixel → Type 0) → List (ℤ × ℤ) → Type 0
  Each P [] = Unit
  Each P ((y, x) ∷ rest) = ((p : Pixel) → inside mask y x ≡ some p → P p) × Each P rest

  set_there :
      (y x : ℕ) → inside mask (pos y) (pos x) ≡ none ⊎ (IsOpen (record { row = y; column = x }))
  set_there y x = elim (Bool-cases (ltb y mask.height && ltb x mask.width && mask.at y x)) [
    | inl e ↦ inr (record {
      in_height = ground (arith, e);
      in_width = ground (arith, e);
      is_set = ground (arith, e);
    })
    | inr e ↦ inl (rw e refl)
  ]

  pub inside-set :
      (y x : ℕ)
      → IsOpen (record { row = y; column = x })
      → inside mask (pos y) (pos x) ≡ some (record { row = y; column = x })
  inside-set y x h = ground (arith, h.in_height, h.in_width, h.is_set)

  pub open_at :
      (P : Pixel → Type 0) (y x : ℕ) (q : Pixel)
      → inside mask (pos y) (pos x) ≡ some q
      → (IsOpen (record { row = y; column = x }) → P (record { row = y; column = x }))
      → P q
  open_at P y x q h f = elim (set_there y x) [
    | inl e ↦ absurd (cc (e, h))
    | inr o ↦ subst P (ground (arith, inside-set y x o, h)) (f o)
  ]

  module _ (P : Pixel → Type 0) where
    abbrev Step : ℕ → ℕ → Type 0
    Step y x = (q : Pixel) → Adjacent (record { row = y; column = x }) q → IsOpen q → P q

    above : (y x : ℕ) → Step y x → (q : Pixel) → inside mask (before y) (pos x) ≡ some q → P q
    above zero x f q h = absurd (cc h)
    above (suc y) x f q h = open_at P y x q h (f _ (inr (refl, inl refl)))

    left_of : (y x : ℕ) → Step y x → (q : Pixel) → inside mask (pos y) (before x) ≡ some q → P q
    left_of y zero f q h = absurd (cc h)
    left_of y (suc x) f q h = open_at P y x q h (f _ (inl (refl, inl refl)))

    pub Each-neighbours : (p : Pixel) → Step p.row p.column → Each P (neighbours p)
    Each-neighbours p f = (
      above p.row p.column f,
      (
        (λ q h. open_at P (suc p.row) p.column q h (f _ (inr (refl, inr refl)))),
        (
          left_of p.row p.column f,
          ((λ q h. open_at P p.row (suc p.column) q h (f _ (inl (refl, inr refl)))), tt),
        ),
      ),
    )

    pub Adjacent-Each : (p q : Pixel) → Each P (neighbours p) → Adjacent p q → IsOpen q → P q
    Adjacent-Each p q (up, (down, (left, (right, _)))) a o = go a
      where
        found : inside mask (pos q.row) (pos q.column) ≡ some q
        found = inside-set q.row q.column o

        go : Adjacent p q → P q
        go (inl (e, inl k)) = left q ((λ i. inside mask (pos (e i)) (before (k i))) ∙ found)
        go (inl (e, inr k)) = right q ((λ i. inside mask (pos (e i)) (pos (sym k i))) ∙ found)
        go (inr (e, inl k)) = up q ((λ i. inside mask (before (k i)) (pos (e i))) ∙ found)
        go (inr (e, inr k)) = down q ((λ i. inside mask (pos (sym k i)) (pos (e i))) ∙ found)
