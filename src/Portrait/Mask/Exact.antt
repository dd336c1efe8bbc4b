-- ===== src/Portrait/Mask/Exact.antt =====
-- The flood fill marks exactly the connected component.
use mathlib.Core.Path.{subst}
use live_photo_llm.Prelude.{
  ℕ, zero, suc, true, false, List, [], ◌∷◌, ◌≡◌, ◌∙◌, ◌↔◌, refl, sym, ap, ◌⊎◌, inl, inr,
}
use live_photo_llm.Portrait.Mask.{
  ℤ, pos, Pixel, Grid, Array, Fill, neighbours, visit, fill, seeded, fuel_for,
  connected_component_mask,
}
use live_photo_llm.Portrait.Mask.Reach.{
  Adjacent, IsOpen, Connected, here, next, Each, Each-neighbours, Adjacent-Each, inside-set,
}
use live_photo_llm.Portrait.Mask.Component.{
  Marked, Stacked, IsSound, visit-IsSound, visit-IsLater, visit-marks, with_pixel-cases,
  with_pixel_self,
}
use live_photo_llm.Portrait.Mask.Measure.{fill_stops, measure-seeded}

module _ (mask : Array) where
  Each-map :
      (P Q : Pixel → Type 0)
      → ((p : Pixel) → P p → Q p)
      → (qs : List (ℤ × ℤ)) → Each mask P qs
      → Each mask Q qs
  Each-map P Q f [] e = tt
  Each-map P Q f ((y, x) ∷ qs) (e, rest) = ((λ p h. f p (e p h)), Each-map P Q f qs rest)

  -- A marked pixel waits, or its neighbours are marked.
  abbrev IsClosed : Fill → Type 0
  IsClosed f =
      (p : Pixel)
      → Marked f.component p
      → Stacked p f.stack ⊎ Each mask (Marked f.component) (neighbours p)

  visited-IsClosed :
      (c : Grid) (p : Pixel) (rest : List Pixel)
      → IsClosed (record { component = c; stack = p ∷ rest })
      → IsClosed (visit mask (neighbours p) (record { component = c; stack = rest }))
  visited-IsClosed c p rest closed q m =
      let popped : Fill = record { component = c; stack = rest } in
      let g = visit mask (neighbours p) popped in
      let later = visit-IsLater mask (neighbours p) popped in
      elim (later.adds q m) [
        | inl old ↦ elim (closed q old) [
          | inl (inl same) ↦ inr (
              subst (λ r. Each mask (Marked g.component) (neighbours r)) (sym same)
                (visit-marks mask (neighbours p) popped))
          | inl (inr waits) ↦ inl (later.waits q waits)
          | inr each ↦
              inr (Each-map (Marked c) (Marked g.component) later.marks (neighbours q) each)
        ]
        | inr waits ↦ inl waits
      ]

  fill-IsClosed :
      (fuel : ℕ) (c : Grid) (stack : List Pixel)
      → IsClosed (record { component = c; stack = stack })
      → IsClosed (fill mask fuel (record { component = c; stack = stack }))
  unfolding fill
  fill-IsClosed zero c stack h = h
  fill-IsClosed (suc fuel) c [] h = h
  fill-IsClosed (suc fuel) c (p ∷ rest) h =
      let g = visit mask (neighbours p) (record { component = c; stack = rest }) in
      fill-IsClosed fuel g.component g.stack (visited-IsClosed c p rest h)

  fill-marks :
      (fuel : ℕ) (c : Grid) (stack : List Pixel) (p : Pixel)
      → Marked c p
      → Marked (fill mask fuel (record { component = c; stack = stack })).component p
  unfolding fill
  fill-marks zero c stack p h = h
  fill-marks (suc fuel) c [] p h = h
  fill-marks (suc fuel) c (q ∷ rest) p h =
      let popped : Fill = record { component = c; stack = rest } in
      let g = visit mask (neighbours q) popped in
      fill-marks fuel g.component g.stack p ((visit-IsLater mask (neighbours q) popped).marks p h)

  module _ (P : Pixel → Type 0)
      (step : (p q : Pixel) → P p → Adjacent p q → IsOpen mask q → P q) where
    fill-IsSound :
        (fuel : ℕ) (c : Grid) (stack : List Pixel)
        → IsSound mask P (record { component = c; stack = stack })
        → IsSound mask P (fill mask fuel (record { component = c; stack = stack }))
    unfolding fill
    fill-IsSound zero c stack h = h
    fill-IsSound (suc fuel) c [] h = h
    fill-IsSound (suc fuel) c (p ∷ rest) h =
        let popped : Fill = record { component = c; stack = rest } in
        let g = visit mask (neighbours p) popped in
        let around = Each-neighbours mask P p (λ q a o. step p q (h.stacked p (inl refl)) a o) in
        fill-IsSound fuel g.component g.stack (
          visit-IsSound mask P (neighbours p) popped around
            (record { marked = h.marked; stacked = λ q w. h.stacked q (inr w) }))

  module _ (seed : Pixel) (o : IsOpen mask seed) where
    abbrev filled : Fill
    filled = fill mask (fuel_for mask) (seeded mask seed)

    seeded-IsClosed : IsClosed (seeded mask seed)
    seeded-IsClosed p m = elim (with_pixel-cases seed p (λ y x. false) m) [
      | inl same ↦ inl (inl same)
      | inr never ↦ absurd (cc never)
    ]

    seeded-IsSound : IsSound mask (Connected mask seed) (seeded mask seed)
    seeded-IsSound = record {
      marked = λ p m. elim (with_pixel-cases seed p (λ y x. false) m) [
        | inl same ↦ subst (Connected mask seed) (sym same) here
        | inr never ↦ absurd (cc never)
      ];
      stacked = λ p w. elim w [
        | inl same ↦ subst (Connected mask seed) (sym same) here
        | inr never ↦ absurd never
      ];
    }

    reached : (p : Pixel) → Connected mask seed p → Marked filled.component p
    reached _ here =
        fill-marks (fuel_for mask) (seeded mask seed).component (seeded mask seed).stack seed
          (with_pixel_self seed (λ y x. false))
    reached _ (next p q c a s) =
        let start = seeded mask seed in
        let stops = fill_stops mask (fuel_for mask) start (measure-seeded mask seed o) in
        let closed =
          fill-IsClosed (fuel_for mask) start.component start.stack seeded-IsClosed p
            (reached p c) in
        elim closed [
          | inl waits ↦ absurd (subst (Stacked p) stops waits)
          | inr each ↦ Adjacent-Each mask (Marked filled.component) p q each a s
        ]

    found : connected_component_mask mask (pos seed.row) (pos seed.column) ≡ filled.component
    unfolding connected_component_mask
    found = rw (inside-set mask seed.row seed.column o) refl

    -- From a seed inside the array where the mask is set, the flood fill marks exactly the pixels
    -- that steps between adjacent set pixels reach from the seed.
    pub connected_component_mask_iff :
        (p : Pixel)
        → (connected_component_mask mask (pos seed.row) (pos seed.column) p.row p.column ≡ true)
          ↔ Connected mask seed p
    unfolding connected_component_mask
    connected_component_mask_iff p =
        let sound =
          fill-IsSound (Connected mask seed) next (fuel_for mask) (seeded mask seed).component
            (seeded mask seed).stack seeded-IsSound in
        (
          (λ h. sound.marked p (sym (ap (λ (c : Grid). c p.row p.column) found) ∙ h)),
          λ c. ap (λ (c : Grid). c p.row p.column) found ∙ reached p c,
        )
