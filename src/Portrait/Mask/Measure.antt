-- ===== src/Portrait/Mask/Measure.antt =====
-- How many pixels a flood fill still has to push.
use mathlib.Core.Path.{subst}
use live_photo_llm.Prelude.{
  ℕ, zero, suc, ◌+◌, ◌*◌, ◌≤◌, ◌<◌, Option, none, some, false, not, List, [], ◌∷◌, if◌then◌else◌,
  ◌==◌, ◌&&◌, ◌≡◌, ◌∙◌, refl, sym, arith, inl, inr, Bool-cases, length,
}
use live_photo_llm.Portrait.Mask.{
  ℤ, pos, negsuc, Pixel, Grid, Array, Fill, neighbours, with_pixel, inside, touch, visit, fill,
  seeded, fuel_for,
}
use live_photo_llm.Portrait.Mask.Reach.{IsOpen, open_at}

abbrev pub sum : ℕ → (ℕ → ℕ) → ℕ
sum zero a = 0
sum (suc n) a = a n + sum n a

sum-equal : (n : ℕ) (a b : ℕ → ℕ) → ((i : ℕ) → i < n → a i ≡ b i) → sum n a ≡ sum n b
sum-equal zero a b h = refl
sum-equal (suc n) a b h =
    let last = h n (ground arith) in
    let rest = sum-equal n a b (λ i l. h i (ground (arith, l))) in ground (arith, last, rest)

-- A sum with one summand less by one.
pub sum-less :
    (n y : ℕ) (a b : ℕ → ℕ)
    → y < n
    → suc (b y) ≡ a y
    → ((i : ℕ) → (i == y) ≡ false → b i ≡ a i)
    → suc (sum n b) ≡ sum n a
sum-less zero y a b l e h = absurd (ground (arith, l))
sum-less (suc n) y a b l e h = elim (Bool-cases (n == y)) [
  | inl same ↦
      let here : n ≡ y = ground (arith, same) in
      let last : suc (b n) ≡ a n = subst (λ i. suc (b i) ≡ a i) (sym here) e in
      let rest = sum-equal n b a (λ i k. h i (ground (arith, k, same))) in
      ground (arith, last, rest)
  | inr other ↦
      let last = h n other in
      let rest = sum-less n y a b (ground (arith, l, other)) e h in ground (arith, last, rest)
]

pub sum_bound : (n k : ℕ) (a : ℕ → ℕ) → ((i : ℕ) → a i ≤ k) → sum n a ≤ n * k
sum_bound zero k a h = ground arith
sum_bound (suc n) k a h =
    let last = h n in let rest = sum_bound n k a h in ground (arith, last, rest)

sum_ones : (n : ℕ) (a : ℕ → ℕ) → ((i : ℕ) → a i ≤ 1) → sum n a ≤ n
sum_ones zero a h = ground arith
sum_ones (suc n) a h = let last = h n in let rest = sum_ones n a h in ground (arith, last, rest)

module _ (mask : Array) where
  -- 1 for a set pixel that is not marked, and 0 for each other
  abbrev pub unmarked : Grid → ℕ → ℕ → ℕ
  unmarked c y x = if mask.at y x && not (c y x) then 1 else 0

  abbrev pub count_unmarked : Grid → ℕ
  count_unmarked c = sum mask.height (λ y. sum mask.width (unmarked c y))

  -- The pixels that wait, and those that are still to be pushed.
  abbrev pub measure : Fill → ℕ
  measure f = length f.stack + count_unmarked f.component

  unmarked_row :
      (p : Pixel) (c : Grid)
      → IsOpen mask p
      → c p.row p.column ≡ false
      → suc (sum mask.width (unmarked (with_pixel p c) p.row)) ≡ sum mask.width (unmarked c p.row)
  unmarked_row p c o fresh =
      sum-less mask.width p.column (unmarked c p.row) (unmarked (with_pixel p c) p.row) o.in_width
        (ground (arith, o.is_set, fresh)) (λ i other. ground (arith, other))

  -- A mark takes one from the pixels to be pushed.
  count_unmarked-with_pixel :
      (p : Pixel) (c : Grid)
      → IsOpen mask p
      → c p.row p.column ≡ false
      → suc (count_unmarked (with_pixel p c)) ≡ count_unmarked c
  count_unmarked-with_pixel p c o fresh =
      sum-less mask.height p.row (λ y. sum mask.width (unmarked c y))
        (λ y. sum mask.width (unmarked (with_pixel p c) y)) o.in_height (unmarked_row p c o fresh)
        (λ i other.
          sum-equal mask.width (unmarked (with_pixel p c) i) (unmarked c i)
            (λ x k. ground (arith, other)))

  inside-IsOpen : (y x : ℤ) (p : Pixel) → inside mask y x ≡ some p → IsOpen mask p
  inside-IsOpen (pos y) (pos x) p h = open_at mask (IsOpen mask) y x p h (λ o. o)
  inside-IsOpen (pos y) (negsuc x) p h = absurd (cc h)
  inside-IsOpen (negsuc y) x p h = absurd (cc h)

  measure-touch :
      (o : Option Pixel) (f : Fill)
      → ((p : Pixel) → o ≡ some p → IsOpen mask p)
      → measure (touch mask o f) ≡ measure f
  measure-touch none f h = refl
  measure-touch (some p) f h = elim (Bool-cases (f.component p.row p.column)) [
    | inl e ↦ rw e refl
    | inr e ↦
        let less = count_unmarked-with_pixel p f.component (h p refl) e in
        rw e (ground (arith, less))
  ]

  pub measure-visit : (qs : List (ℤ × ℤ)) (f : Fill) → measure (visit mask qs f) ≡ measure f
  unfolding visit
  measure-visit [] f = refl
  measure-visit ((y, x) ∷ qs) f =
      measure-visit qs (touch mask (inside mask y x) f)
      ∙ measure-touch (inside mask y x) f (inside-IsOpen y x)

  fill_from :
      (fuel : ℕ) (c : Grid) (stack : List Pixel)
      → length stack + count_unmarked c ≤ fuel
      → (fill mask fuel (record { component = c; stack = stack })).stack ≡ []
  unfolding fill
  fill_from zero c [] h = refl
  fill_from zero c (p ∷ rest) h = absurd (ground (arith, h))
  fill_from (suc fuel) c [] h = refl
  fill_from (suc fuel) c (p ∷ rest) h =
      let popped : Fill = record { component = c; stack = rest } in
      let g = visit mask (neighbours p) popped in
      let same = measure-visit (neighbours p) popped in
      fill_from fuel g.component g.stack (ground (arith, same, h))

  -- With as much fuel as the measure the fill ends with an empty stack.
  pub fill_stops : (fuel : ℕ) (f : Fill) → measure f ≤ fuel → (fill mask fuel f).stack ≡ []
  fill_stops fuel f h = fill_from fuel f.component f.stack h

  pub measure-seeded : (p : Pixel) → IsOpen mask p → measure (seeded mask p) ≤ fuel_for mask
  measure-seeded p o =
      let less = count_unmarked-with_pixel p (λ y x. false) o refl in
      let all =
        sum_bound mask.height mask.width (λ y. sum mask.width (unmarked (λ y x. false) y))
          (λ i. sum_ones mask.width (unmarked (λ y x. false) i) (λ x. ground arith)) in
      ground (arith, less, all)
