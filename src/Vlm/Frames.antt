-- ===== src/Vlm/Frames.antt =====
-- The frames that an experiment sends: backend/app/experiments/vlm/frame_selection.py. A quarter of
-- a number of frames is rounded as Python rounds it, half to even.
pub mod Triad
use live_photo_llm.Prelude.{
  ℕ, zero, suc, ◌+◌, ◌-◌, ◌*◌, ◌/◌, ◌%◌, String, Bool, true, false, Option, none, some, List, [],
  ◌∷◌, if◌then◌else◌, ltb, leb, ◌==◌, ◌||◌, length, str_eq,
}

pub data FrameStrategy : Type 0 where
  single_quality temporal_triad : FrameStrategy

abbrev pub strategy_value : FrameStrategy → String
strategy_value single_quality = "single-quality-v1"
strategy_value temporal_triad = "temporal-triad-v1"

-- `expected_frame_count`
unfoldable pub expected_frame_count : FrameStrategy → ℕ
expected_frame_count single_quality = 1
expected_frame_count temporal_triad = 3

-- `is_supported_strategy`
unfoldable pub is_supported_strategy : String → Bool
is_supported_strategy s =
    str_eq s (strategy_value single_quality) || str_eq s (strategy_value temporal_triad)

-- `round(j / 4)`
unfoldable pub round_quarters : ℕ → ℕ
round_quarters j =
    if ltb (j % 4) 2
    then j / 4
    else if ltb 2 (j % 4)
    then j / 4 + 1
    else if (j / 4) % 2 == 0
    then j / 4
    else j / 4 + 1

-- `index in used`
abbrev pub is_used : ℕ → List ℕ → Bool
is_used i [] = false
is_used i (j ∷ rest) = i == j || is_used i rest

abbrev least : ℕ → ℕ → ℕ
least a b = if leb a b then a else b

-- `while index in used: index = min(n - 1, index + 1)`, on fuel
unfoldable pub next_free : ℕ → ℕ → List ℕ → ℕ → ℕ
next_free zero last used index = index
next_free (suc fuel) last used index =
    let next = next_free fuel last used (least last (index + 1)) in
    if is_used index used then next else index

-- `sorted(used)`, kept in order while it grows
abbrev pub add_sorted : ℕ → List ℕ → List ℕ
add_sorted i [] = i ∷ []
add_sorted i (j ∷ rest) = if leb i j then i ∷ j ∷ rest else j ∷ add_sorted i rest

-- A turn of the loop over the targets, given in quarters: three turns of the inner loop suffice.
unfoldable pub take_target : ℕ → ℕ → List ℕ → List ℕ
unfolding round_quarters next_free
take_target last quarters used =
    add_sorted (next_free 3 last used (round_quarters (quarters * last))) used

-- The indices that the triad picks of `n` frames, `last` being `n - 1`.
unfoldable pub triad_indices : ℕ → List ℕ
unfolding take_target
triad_indices last = take_target last 3 (take_target last 2 (take_target last 1 []))

module _ {ℓ} {A : Type ℓ} where
  -- `items[i]`; `none` stands for IndexError.
  abbrev pub get_elem? : List A → ℕ → Option A
  get_elem? [] i = none
  get_elem? (x ∷ xs) zero = some x
  get_elem? (x ∷ xs) (suc i) = get_elem? xs i

  abbrev cons_option : Option A → Option (List A) → Option (List A)
  cons_option (some x) (some xs) = some (x ∷ xs)
  cons_option _ _ = none

  -- `[items[index] for index in …]`
  abbrev pub pick : List A → List ℕ → Option (List A)
  pick xs [] = some []
  pick xs (i ∷ rest) = cons_option (get_elem? xs i) (pick xs rest)

  unfoldable pub select_single_frame : List A → Option (List A)
  select_single_frame [] = some []
  select_single_frame (x ∷ xs) = pick (x ∷ xs) (length (x ∷ xs) / 2 ∷ [])

  unfoldable pub select_temporal_triad : List A → Option (List A)
  unfolding triad_indices
  select_temporal_triad xs =
      if ltb (length xs) 3 then some xs else pick xs (triad_indices (length xs - 1))
