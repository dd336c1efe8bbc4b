-- ===== src/Vlm/Frames/Triad.antt =====
-- Which frames a selection picks.
use mathlib.Core.Path.{subst}
use live_photo_llm.Prelude.{
  ℕ, zero, suc, ◌+◌, ◌-◌, ◌*◌, ◌<◌, ◌≤◌, false, Option, some, List, [], ◌∷◌, ◌≡◌, ◌∙◌, refl, sym,
  ap, arith, ltb, length,
}
use live_photo_llm.Vlm.Frames.{
  round_quarters, triad_indices, take_target, next_free, add_sorted, is_used, pick, get_elem?,
  select_temporal_triad,
}

pub round_quarters_near : (j : ℕ) → (4 * round_quarters j ≤ j + 2) × (j ≤ 4 * round_quarters j + 2)
unfolding round_quarters
round_quarters_near j = (ground arith, ground arith)

-- Three indices in order, each within a quarter and a half of the frames' range of its target.
pub record IsTriad (last : ℕ) (indices : List ℕ) : Type 0 where
  pub first : ℕ
  pub second : ℕ
  pub third : ℕ
  pub are : indices ≡ first ∷ second ∷ third ∷ []
  pub ascends : (first < second) × (second < third) × (third ≤ last)
  pub first_near : (4 * first ≤ last + 2) × (last ≤ 4 * first + 2)
  pub second_near : (4 * second ≤ 2 * last + 2) × (2 * last ≤ 4 * second + 2)
  pub third_near : (4 * third ≤ 3 * last + 3) × (3 * last ≤ 4 * third + 2)

next_free-unused :
    (last : ℕ) (used : List ℕ) (i : ℕ) → is_used i used ≡ false → next_free 3 last used i ≡ i
unfolding next_free
next_free-unused last used i h = rw h refl

take_first :
    (last quarters a : ℕ)
    → round_quarters (quarters * last) ≡ a
    → take_target last quarters [] ≡ a ∷ []
unfolding take_target
take_first last quarters a e =
    ap (λ i. add_sorted (next_free 3 last [] i) []) e
    ∙ ap (λ i. add_sorted i []) (next_free-unused last [] a refl)

take_second :
    (last quarters a b : ℕ)
    → round_quarters (quarters * last) ≡ b
    → a < b
    → take_target last quarters (a ∷ []) ≡ a ∷ b ∷ []
unfolding take_target
take_second last quarters a b e h =
    ap (λ i. add_sorted (next_free 3 last (a ∷ []) i) (a ∷ [])) e
    ∙ (ap (λ i. add_sorted i (a ∷ [])) (next_free-unused last (a ∷ []) b (ground (arith, h)))
        ∙ ground (arith, h))

take_third :
    (last quarters a b c : ℕ)
    → round_quarters (quarters * last) ≡ c
    → a < b
    → b < c
    → take_target last quarters (a ∷ b ∷ []) ≡ a ∷ b ∷ c ∷ []
unfolding take_target
take_third last quarters a b c e h k =
    ap (λ i. add_sorted (next_free 3 last (a ∷ b ∷ []) i) (a ∷ b ∷ [])) e
    ∙ (ap (λ i. add_sorted i (a ∷ b ∷ []))
          (next_free-unused last (a ∷ b ∷ []) c (ground (arith, h, k)))
        ∙ ground (arith, h, k))

triad_far :
    (last a b c : ℕ)
    → round_quarters (1 * last) ≡ a
    → round_quarters (2 * last) ≡ b
    → round_quarters (3 * last) ≡ c
    → a < b
    → b < c
    → triad_indices last ≡ a ∷ b ∷ c ∷ []
unfolding triad_indices
triad_far last a b c ea eb ec ab bc =
    ap (λ u. take_target last 3 (take_target last 2 u)) (take_first last 1 a ea)
    ∙ (ap (take_target last 3) (take_second last 2 a b eb ab) ∙ take_third last 3 a b c ec ab bc)

far-IsTriad : (last : ℕ) → 5 ≤ last → IsTriad last (triad_indices last)
far-IsTriad last h =
    let (a_low, a_high) = round_quarters_near (1 * last) in
    let (b_low, b_high) = round_quarters_near (2 * last) in
    let (c_low, c_high) = round_quarters_near (3 * last) in
    let a = round_quarters (1 * last) in
    let b = round_quarters (2 * last) in
    let c = round_quarters (3 * last) in
    let ab : a < b = ground (arith, h, a_low, b_high) in
    let bc : b < c = ground (arith, h, b_low, c_high) in
    record {
      first = a;
      second = b;
      third = c;
      are = triad_far last a b c refl refl refl ab bc;
      ascends = (ab, bc, ground (arith, h, c_low));
      first_near = (ground (arith, a_low), ground (arith, a_high));
      second_near = (b_low, b_high);
      third_near = (ground (arith, c_low), c_high);
    }

near-IsTriad :
    (last a b c : ℕ)
    → triad_indices last ≡ a ∷ b ∷ c ∷ []
    → (a < b) × (b < c) × (c ≤ last)
    → (4 * a ≤ last + 2) × (last ≤ 4 * a + 2)
    → (4 * b ≤ 2 * last + 2) × (2 * last ≤ 4 * b + 2)
    → (4 * c ≤ 3 * last + 3) × (3 * last ≤ 4 * c + 2)
    → IsTriad last (triad_indices last)
near-IsTriad last a b c e ascends x y z = record {
  first = a;
  second = b;
  third = c;
  are = e;
  ascends = ascends;
  first_near = x;
  second_near = y;
  third_near = z;
}

triad_indices_2 : triad_indices 2 ≡ 0 ∷ 1 ∷ 2 ∷ []
unfolding triad_indices take_target next_free round_quarters
triad_indices_2 = refl

triad_indices_3 : triad_indices 3 ≡ 1 ∷ 2 ∷ 3 ∷ []
unfolding triad_indices take_target next_free round_quarters
triad_indices_3 = refl

triad_indices_4 : triad_indices 4 ≡ 1 ∷ 2 ∷ 3 ∷ []
unfolding triad_indices take_target next_free round_quarters
triad_indices_4 = refl

pub triad_indices-IsTriad : (last : ℕ) → 2 ≤ last → IsTriad last (triad_indices last)
triad_indices-IsTriad zero h = absurd (ground (arith, h))
triad_indices-IsTriad (suc zero) h = absurd (ground (arith, h))
triad_indices-IsTriad (suc (suc zero)) h =
    near-IsTriad 2 0 1 2 triad_indices_2 (ground arith, ground arith, ground arith)
      (ground arith, ground arith) (ground arith, ground arith) (ground arith, ground arith)
triad_indices-IsTriad (suc (suc (suc zero))) h =
    near-IsTriad 3 1 2 3 triad_indices_3 (ground arith, ground arith, ground arith)
      (ground arith, ground arith) (ground arith, ground arith) (ground arith, ground arith)
triad_indices-IsTriad (suc (suc (suc (suc zero)))) h =
    near-IsTriad 4 1 2 3 triad_indices_4 (ground arith, ground arith, ground arith)
      (ground arith, ground arith) (ground arith, ground arith) (ground arith, ground arith)
triad_indices-IsTriad (suc (suc (suc (suc (suc n))))) h =
    far-IsTriad (suc (suc (suc (suc (suc n))))) (ground arith)

at_least : (n : ℕ) → 3 ≤ n → 2 ≤ n - 1
at_least n h = ground arith

enough : (n : ℕ) → 3 ≤ n → ltb n 3 ≡ false
enough n h = ground arith

below : (n c : ℕ) → 3 ≤ n → c ≤ n - 1 → c < n
below n c h k = ground arith

below_next : (b c n : ℕ) → b < c → c < n → b < n
below_next b c n h k = ground arith

module _ {ℓ} {A : Type ℓ} where
  pub get_elem?-inside : (xs : List A) (i : ℕ) → i < length xs → (x : A) × (get_elem? xs i ≡ some x)
  get_elem?-inside [] i h = absurd (ground (arith, h))
  get_elem?-inside (x ∷ xs) zero h = (x, refl)
  get_elem?-inside (x ∷ xs) (suc i) h = get_elem?-inside xs i (ground (arith, h))

  -- The three frames at three indices.
  pub record AreAt (xs : List A) (i j k : ℕ) (chosen : Option (List A)) : Type ℓ where
    pub x : A
    pub y : A
    pub z : A
    pub are : chosen ≡ some (x ∷ y ∷ z ∷ [])
    pub at_first : get_elem? xs i ≡ some x
    pub at_second : get_elem? xs j ≡ some y
    pub at_third : get_elem? xs k ≡ some z

  pick-AreAt :
      (xs : List A) (i j k : ℕ)
      → i < length xs
      → j < length xs
      → k < length xs
      → AreAt xs i j k (pick xs (i ∷ j ∷ k ∷ []))
  pick-AreAt xs i j k hi hj hk =
      let (x, ex) = get_elem?-inside xs i hi in
      let (y, ey) = get_elem?-inside xs j hj in
      let (z, ez) = get_elem?-inside xs k hk in
      record {
        x = x;
        y = y;
        z = z;
        are = rw (ex, ey, ez) refl;
        at_first = ex;
        at_second = ey;
        at_third = ez;
      }

  -- Of three frames or more, the selection picks three at strictly ascending indices inside the
  -- list; of the last index, the first is within half a frame of a quarter, the second within half
  -- a frame of the half, and the third at most half a frame below and three quarters above three
  -- quarters.
  pub select_temporal_triad-AreAt :
      (xs : List A)
      → 3 ≤ length xs
      → (t : IsTriad (length xs - 1) (triad_indices (length xs - 1))) × AreAt xs t.first t.second
          t.third
          (select_temporal_triad xs)
  unfolding select_temporal_triad
  select_temporal_triad-AreAt xs h =
      let t = triad_indices-IsTriad (length xs - 1) (at_least (length xs) h) in
      let (ab, bc, cl) = t.ascends in
      let c_inside = below (length xs) t.third h cl in
      let b_inside = below_next t.second t.third (length xs) bc c_inside in
      (
        t,
        subst (AreAt xs t.first t.second t.third)
            (ap (pick xs) (sym t.are) ∙ rw (enough (length xs) h) refl)
            (pick-AreAt xs t.first t.second t.third
              (below_next t.first t.second (length xs) ab b_inside) b_inside c_inside),
      )
