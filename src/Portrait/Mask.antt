-- ===== src/Portrait/Mask.antt =====
-- connected_component_mask of backend/app/portrait/matte.py: the flood fill of a Boolean array. An
-- array is its height, its width and a function of the row and the column.
pub mod Measure
pub mod Reach
pub mod Component
pub mod Exact
use live_photo_llm.Prelude.{
  ℕ, zero, suc, ◌*◌, Bool, true, false, Option, none, some, List, [], ◌∷◌, if◌then◌else◌, ltb, ◌==◌,
  ◌&&◌,
}

-- A coordinate that may have left the array.
pub data ℤ : Type 0 where
  pos negsuc : ℕ → ℤ

-- `n - 1` and `n + 1` of a coordinate inside
abbrev pub before : ℕ → ℤ
before zero = negsuc 0
before (suc n) = pos n

abbrev pub after : ℕ → ℤ
after n = pos (suc n)

pub record Pixel : Type 0 where
  pub row : ℕ
  pub column : ℕ

abbrev pub Grid : Type 0
Grid = ℕ → ℕ → Bool

pub record Array : Type 0 where
  pub height : ℕ
  pub width : ℕ
  pub at : Grid

-- `((y - 1, x), (y + 1, x), (y, x - 1), (y, x + 1))`
abbrev pub neighbours : Pixel → List (ℤ × ℤ)
neighbours p =
    (before p.row, pos p.column)
    ∷ (after p.row, pos p.column)
    ∷ (pos p.row, before p.column)
    ∷ (pos p.row, after p.column)
    ∷ []

abbrev pub pixel_eq : Pixel → Pixel → Bool
pixel_eq p q = p.row == q.row && p.column == q.column

-- `component[y, x] = True`
abbrev pub with_pixel : Pixel → Grid → Grid
with_pixel p c y x = if p.row == y && p.column == x then true else c y x

-- `component` and `stack`, whose last entry comes first.
pub record Fill : Type 0 where
  pub component : Grid
  pub stack : List Pixel

module _ (mask : Array) where
  -- The pixel at two coordinates, where they are inside and the mask is set.
  abbrev pub inside : ℤ → ℤ → Option Pixel
  inside (pos y) (pos x) =
      if ltb y mask.height && ltb x mask.width && mask.at y x
      then some (record { row = y; column = x })
      else none
  inside _ _ = none

  abbrev pub touch : Option Pixel → Fill → Fill
  touch none f = f
  touch (some p) f =
      if f.component p.row p.column
      then f
      else record { component = with_pixel p f.component; stack = p ∷ f.stack }

  -- The loop over the neighbours.
  unfoldable pub visit : List (ℤ × ℤ) → Fill → Fill
  visit [] f = f
  visit ((y, x) ∷ rest) f = visit rest (touch (inside y x) f)

  -- The loop over the stack, on fuel.
  unfoldable pub fill : ℕ → Fill → Fill
  unfolding visit
  fill zero f = f
  fill (suc fuel) f = elim f.stack [
    | [] ↦ f
    | p ∷ rest ↦ fill fuel (visit (neighbours p) (record { component = f.component; stack = rest }))
  ]

  abbrev nothing : Grid
  nothing y x = false

  abbrev pub seeded : Pixel → Fill
  seeded p = record { component = with_pixel p nothing; stack = p ∷ [] }

  -- Each pixel of the array is pushed once.
  abbrev pub fuel_for : ℕ
  fuel_for = mask.height * mask.width

  abbrev from_seed : Option Pixel → Grid
  from_seed none = nothing
  from_seed (some p) = (fill fuel_for (seeded p)).component

  unfoldable pub connected_component_mask : ℤ → ℤ → Grid
  unfolding fill
  connected_component_mask sy sx = from_seed (inside sy sx)
