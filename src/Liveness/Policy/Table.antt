-- ===== src/Liveness/Policy/Table.antt =====
-- The policy beside the table in the docstring of backend/app/experiments/vlm/liveness.py.
use live_photo_llm.Prelude.{
  String, true, false, List, [], ◌∷◌, ◌≡◌, refl, sym, ◌⊎◌, inl, inr, Bool-cases, if◌then◌else◌, not,
  ◌&&◌, ◌||◌, arith,
}
use mathlib.Core.Path.{subst}
use live_photo_llm.Python.{Json, text, eq_text, text_in}
use live_photo_llm.Transactions.Decisions.{DecisionOutcome, pass, retry, fail}
use live_photo_llm.Liveness.Policy.{
  is_person_state_consistent, is_portrait_eligible_vlm_result, map_classification_to_outcome,
  attacks, pair_in, coherent_person_states,
}
use live_photo_llm.Liveness.Policy.Eligibility.{eq_text_iff}

-- The outcomes of the table, which has no column for the coherence of the two answers.
abbrev pub tabled_outcome : Json → Json → Json → DecisionOutcome
tabled_outcome classification count state =
    if text_in classification attacks
    then fail
    else if not (eq_text classification "LIVE")
    then retry
    else if eq_text count "ZERO"
    then retry
    else if eq_text state "NONE" || eq_text state "BACKGROUND"
    then pass
    else retry

-- A pair of texts that the list has.
abbrev IsOneOf : Json → Json → List (String × String) → Type 0
IsOneOf a b [] = ⊥
IsOneOf a b ((x, y) ∷ rest) = ((a ≡ text x) × (b ≡ text y)) ⊎ IsOneOf a b rest

pair_in-IsOneOf :
    (a b : Json) (pairs : List (String × String)) → pair_in a b pairs ≡ true → IsOneOf a b pairs
pair_in-IsOneOf a b [] h = absurd (cc h)
pair_in-IsOneOf a b ((x, y) ∷ rest) h = elim (Bool-cases (eq_text a x && eq_text b y)) [
  | inl e ↦ inl ((eq_text_iff a x).0 (ground (arith, e)), (eq_text_iff b y).0 (ground (arith, e)))
  | inr e ↦ inr (pair_in-IsOneOf a b rest (ground (arith, e, h)))
]

abbrev pub Agrees : Json → Json → Json → Type 0
Agrees classification count state =
    map_classification_to_outcome classification count state
    ≡ tabled_outcome classification count state

Agrees-at :
    (classification count state : Json) (x y : String)
    → Agrees classification (text x) (text y)
    → (count ≡ text x) × (state ≡ text y)
    → Agrees classification count state
Agrees-at classification count state x y h (a, b) =
    subst (λ c. Agrees classification c state) (sym a)
      (subst (λ c. Agrees classification (text x) c) (sym b) h)

consistent-IsOneOf :
    (count state : Json)
    → is_person_state_consistent count state ≡ true
    → IsOneOf count state coherent_person_states
unfolding is_person_state_consistent
consistent-IsOneOf count state h =
    pair_in-IsOneOf count state coherent_person_states (ground (arith, h))

-- The six coherent pairs.
coherent_rows :
    (c : Json)
    → Agrees c (text "ZERO") (text "NONE")
      × Agrees c (text "ONE") (text "NONE")
      × Agrees c (text "MULTIPLE") (text "BACKGROUND")
      × Agrees c (text "MULTIPLE") (text "INTERFERING")
      × Agrees c (text "MULTIPLE") (text "UNCERTAIN")
      × Agrees c (text "UNCERTAIN") (text "UNCERTAIN")
unfolding map_classification_to_outcome is_portrait_eligible_vlm_result is_person_state_consistent
coherent_rows c = elim (Bool-cases (text_in c attacks)) [
  | inl a ↦ (rw a refl, rw a refl, rw a refl, rw a refl, rw a refl, rw a refl)
  | inr n ↦ elim (Bool-cases (eq_text c "LIVE")) [
    | inl e ↦ (
      rw n (rw e refl),
      rw n (rw e refl),
      rw n (rw e refl),
      rw n (rw e refl),
      rw n (rw e refl),
      rw n (rw e refl),
    )
    | inr e ↦ (
      rw n (rw e refl),
      rw n (rw e refl),
      rw n (rw e refl),
      rw n (rw e refl),
      rw n (rw e refl),
      rw n (rw e refl),
    )
  ]
]

Agrees-on :
    (c count state : Json) → IsOneOf count state coherent_person_states → Agrees c count state
Agrees-on c count state h =
    let (r1, r2, r3, r4, r5, r6) = coherent_rows c in
    elim h [
      | inl e ↦ Agrees-at c count state _ _ r1 e
      | inr h ↦ elim h [
        | inl e ↦ Agrees-at c count state _ _ r2 e
        | inr h ↦ elim h [
          | inl e ↦ Agrees-at c count state _ _ r3 e
          | inr h ↦ elim h [
            | inl e ↦ Agrees-at c count state _ _ r4 e
            | inr h ↦ elim h [
              | inl e ↦ Agrees-at c count state _ _ r5 e
              | inr h ↦ elim h [ inl e ↦ Agrees-at c count state _ _ r6 e | inr h ↦ absurd h ]
            ]
          ]
        ]
      ]
    ]

-- The policy fails closed where the table passes.
abbrev pub IsStricter : Json → Json → Json → Type 0
IsStricter classification count state =
    (is_person_state_consistent count state ≡ false)
    × (map_classification_to_outcome classification count state ≡ retry)
    × (tabled_outcome classification count state ≡ pass)

not_eligible :
    (c count state : Json)
    → is_person_state_consistent count state ≡ false
    → is_portrait_eligible_vlm_result c count state ≡ false
unfolding is_portrait_eligible_vlm_result
not_eligible c count state h = ground (arith, h)

differs :
    (c count state : Json)
    → is_person_state_consistent count state ≡ false
    → Agrees c count state ⊎ IsStricter c count state
unfolding map_classification_to_outcome
differs c count state h =
    let closed = not_eligible c count state h in
    elim (Bool-cases (text_in c attacks)) [
      | inl a ↦ inl (rw a refl)
      | inr n ↦ elim (Bool-cases (eq_text c "LIVE")) [
        | inr e ↦ inl (rw n (rw closed (rw e refl)))
        | inl e ↦ elim (Bool-cases (eq_text count "ZERO")) [
          | inl z ↦ inl (rw n (rw closed (rw e (rw z refl))))
          | inr z ↦ elim (Bool-cases (eq_text state "NONE" || eq_text state "BACKGROUND")) [
            | inl y ↦ inr (h, rw n (rw closed refl), rw n (rw e (rw z (rw y refl))))
            | inr y ↦ inl (rw n (rw closed (rw e (rw z (rw y refl)))))
          ]
        ]
      ]
    ]

-- The outcome of any answer of the model is the one of the table in the docstring of liveness.py,
-- except where subject count and person state do not go together: there it is RETRY where the
-- table says PASS.
pub map_classification_to_outcome-tabled_outcome :
    (classification count state : Json)
    → Agrees classification count state ⊎ IsStricter classification count state
map_classification_to_outcome-tabled_outcome classification count state =
    elim (Bool-cases (is_person_state_consistent count state)) [
      | inl e ↦ inl (Agrees-on classification count state (consistent-IsOneOf count state e))
      | inr e ↦ differs classification count state e
    ]
