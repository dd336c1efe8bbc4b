-- ===== src/Tests/Mask.antt =====
-- A run of the flood fill.
use live_photo_llm.Prelude.{true, ◌≡◌, ◌↔◌, refl, arith, ◌==◌, not, ◌&&◌}
use live_photo_llm.Portrait.Mask.{Array, Pixel, pos, connected_component_mask}
use live_photo_llm.Portrait.Mask.Reach.{Connected, IsOpen}
use live_photo_llm.Portrait.Mask.Exact.{connected_component_mask_iff}

-- The column in the middle is not set, but for its last row.
abbrev mask : Array
mask = record { height = 3; width = 3; at = λ y x. not (x == 1 && not (y == 2)) }

abbrev corner : Pixel
corner = record { row = 0; column = 0 }

abbrev other_corner : Pixel
other_corner = record { row = 0; column = 2 }

corner-IsOpen : IsOpen mask corner
corner-IsOpen = record { in_height = ground arith; in_width = ground arith; is_set = refl }

connected_component_mask_iff_example :
    (connected_component_mask mask (pos 0) (pos 0) 0 2 ≡ true) ↔ Connected mask corner other_corner
connected_component_mask_iff_example =
    connected_component_mask_iff mask corner corner-IsOpen other_corner
