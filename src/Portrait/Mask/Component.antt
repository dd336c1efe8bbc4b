-- ===== src/Portrait/Mask/Component.antt =====
-- What a flood fill has marked, and what is still on its stack.
use mathlib.Core.Path.{subst}
use live_photo_llm.Prelude.{
  true, Option, none, some, List, [], ◌∷◌, ◌==◌, ◌&&◌, ◌≡◌, refl, sym, arith, ◌⊎◌, inl, inr,
  Bool-cases,
}
use live_photo_llm.Portrait.Mask.{ℤ, Pixel, Grid, Array, Fill, with_pixel, inside, touch, visit}
use live_photo_llm.Portrait.Mask.Reach.{Each}

abbrev pub Marked : Grid → Pixel → Type 0
Marked c p = c p.row p.column ≡ true

abbrev pub Stacked : Pixel → List Pixel → Type 0
Stacked p [] = ⊥
Stacked p (q ∷ rest) = (p ≡ q) ⊎ Stacked p rest

pub with_pixel-cases : (p q : Pixel) (c : Grid) → Marked (with_pixel p c) q → (q ≡ p) ⊎ Marked c q
with_pixel-cases p q c h = elim (Bool-cases (p.row == q.row && p.column == q.column)) [
  | inl e ↦ inl (ground (arith, e))
  | inr e ↦ inr (ground (arith, e, h))
]

pub with_pixel_self : (p : Pixel) (c : Grid) → Marked (with_pixel p c) p
with_pixel_self p c = ground arith

pub with_pixel-keeps : (p q : Pixel) (c : Grid) → Marked c q → Marked (with_pixel p c) q
with_pixel-keeps p q c h = ground (arith, h)

module _ (mask : Array) where
  -- Nothing but pixels that have the property is marked or waits.
  pub record IsSound (P : Pixel → Type 0) (f : Fill) : Type 0 where
    pub marked : (p : Pixel) → Marked f.component p → P p
    pub stacked : (p : Pixel) → Stacked p f.stack → P p

  module _ (P : Pixel → Type 0) where
    touch-IsSound :
        (o : Option Pixel) (f : Fill)
        → ((p : Pixel) → o ≡ some p → P p)
        → IsSound P f
        → IsSound P (touch mask o f)
    touch-IsSound none f new h = h
    touch-IsSound (some p) f new h = elim (Bool-cases (f.component p.row p.column)) [
      | inl e ↦ rw e h
      | inr e ↦ rw e (record {
        marked = λ q m. elim (with_pixel-cases p q f.component m) [
          | inl same ↦ subst P (sym same) (new p refl)
          | inr old ↦ h.marked q old
        ];
        stacked = λ q w. elim w [
          | inl same ↦ subst P (sym same) (new p refl)
          | inr old ↦ h.stacked q old
        ];
      })
    ]

    pub visit-IsSound :
        (qs : List (ℤ × ℤ)) (f : Fill) → Each mask P qs → IsSound P f → IsSound P (visit mask qs f)
    unfolding visit
    visit-IsSound [] f new h = h
    visit-IsSound ((y, x) ∷ qs) f (new, rest) h =
        visit-IsSound qs (touch mask (inside mask y x) f) rest
          (touch-IsSound (inside mask y x) f new h)

  -- A visit takes no mark back, and drops nothing from the stack.
  pub record IsLater (f g : Fill) : Type 0 where
    pub marks : (p : Pixel) → Marked f.component p → Marked g.component p
    pub waits : (p : Pixel) → Stacked p f.stack → Stacked p g.stack
    pub adds : (p : Pixel) → Marked g.component p → Marked f.component p ⊎ Stacked p g.stack

  IsLater-refl : (f : Fill) → IsLater f f
  IsLater-refl f = record { marks = λ p m. m; waits = λ p w. w; adds = λ p m. inl m }

  IsLater-trans : (f g h : Fill) → IsLater f g → IsLater g h → IsLater f h
  IsLater-trans f g h a b = record {
    marks = λ p m. b.marks p (a.marks p m);
    waits = λ p w. b.waits p (a.waits p w);
    adds = λ p m. elim (b.adds p m) [
      | inl m' ↦ elim (a.adds p m') [ inl old ↦ inl old | inr w ↦ inr (b.waits p w) ]
      | inr w ↦ inr w
    ];
  }

  touch-IsLater : (o : Option Pixel) (f : Fill) → IsLater f (touch mask o f)
  touch-IsLater none f = IsLater-refl f
  touch-IsLater (some p) f = elim (Bool-cases (f.component p.row p.column)) [
    | inl e ↦ rw e (IsLater-refl f)
    | inr e ↦ rw e (record {
      marks = λ q m. with_pixel-keeps p q f.component m;
      waits = λ q w. inr w;
      adds = λ q m. elim (with_pixel-cases p q f.component m) [
        | inl same ↦ inr (inl same)
        | inr old ↦ inl old
      ];
    })
  ]

  pub visit-IsLater : (qs : List (ℤ × ℤ)) (f : Fill) → IsLater f (visit mask qs f)
  unfolding visit
  visit-IsLater [] f = IsLater-refl f
  visit-IsLater ((y, x) ∷ qs) f =
      let g = touch mask (inside mask y x) f in
      IsLater-trans f g (visit mask qs g) (touch-IsLater (inside mask y x) f) (visit-IsLater qs g)

  touch-marks :
      (o : Option Pixel) (f : Fill) (p : Pixel) → o ≡ some p → Marked (touch mask o f).component p
  touch-marks none f p e = absurd (cc e)
  touch-marks (some q) f p e = elim (Bool-cases (f.component q.row q.column)) [
    | inl m ↦ rw m (subst (Marked f.component) (ground (arith, e)) m)
    | inr m ↦ rw m (
        subst (Marked (with_pixel q f.component)) (ground (arith, e))
          (with_pixel_self q f.component))
  ]

  -- After a visit, what it visited is marked.
  pub visit-marks :
      (qs : List (ℤ × ℤ)) (f : Fill) → Each mask (Marked (visit mask qs f).component) qs
  unfolding visit
  visit-marks [] f = tt
  visit-marks ((y, x) ∷ qs) f =
      let g = touch mask (inside mask y x) f in
      (
        (λ p e. (visit-IsLater qs g).marks p (touch-marks (inside mask y x) f p e)),
        visit-marks qs g,
      )
