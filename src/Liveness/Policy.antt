-- ===== src/Liveness/Policy.antt =====
-- From the answer of the model to a decision: the person-state rules of
-- backend/app/experiments/vlm/liveness.py.
pub mod Eligibility
pub mod Table
use live_photo_llm.Prelude.{
  String, Bool, true, false, List, [], ◌∷◌, if◌then◌else◌, ◌&&◌, ◌||◌, not,
}
use live_photo_llm.Python.{Json, null, text, Items, nil, cons, eq_text, text_in}
use live_photo_llm.Transactions.Decisions.{DecisionOutcome, pass, retry, fail}

-- COHERENT_PERSON_STATES
abbrev pub coherent_person_states : List (String × String)
coherent_person_states =
    ("ZERO", "NONE")
    ∷ ("ONE", "NONE")
    ∷ ("MULTIPLE", "BACKGROUND")
    ∷ ("MULTIPLE", "INTERFERING")
    ∷ ("MULTIPLE", "UNCERTAIN")
    ∷ ("UNCERTAIN", "UNCERTAIN")
    ∷ []

-- PORTRAIT_ELIGIBLE_PERSON_STATES
abbrev pub portrait_eligible_person_states : List (String × String)
portrait_eligible_person_states = ("ONE", "NONE") ∷ ("MULTIPLE", "BACKGROUND") ∷ []

-- `(a, b) in pairs`
abbrev pub pair_in : Json → Json → List (String × String) → Bool
pair_in a b [] = false
pair_in a b ((x, y) ∷ rest) = (eq_text a x && eq_text b y) || pair_in a b rest

abbrev is_none : Json → Bool
is_none null = true
is_none _ = false

unfoldable pub is_person_state_consistent : Json → Json → Bool
is_person_state_consistent subject_count secondary_person_state =
    if is_none subject_count || is_none secondary_person_state
    then false
    else pair_in subject_count secondary_person_state coherent_person_states

unfoldable pub is_portrait_eligible_vlm_result : Json → Json → Json → Bool
unfolding is_person_state_consistent
is_portrait_eligible_vlm_result classification subject_count secondary_person_state =
    if not (eq_text classification "LIVE")
    then false
    else if not (is_person_state_consistent subject_count secondary_person_state)
    then false
    else pair_in subject_count secondary_person_state portrait_eligible_person_states

abbrev pub attacks : List String
attacks = "SCREEN_REPLAY" ∷ "PRINT_ATTACK" ∷ []

unfoldable pub map_classification_to_outcome : Json → Json → Json → DecisionOutcome
map_classification_to_outcome classification subject_count secondary_person_state =
    if text_in classification attacks
    then fail
    else if is_portrait_eligible_vlm_result classification subject_count secondary_person_state
    then pass
    else retry

unfoldable pub interference_reasons : Json → Json → Items
interference_reasons subject_count secondary_person_state =
    if eq_text subject_count "ZERO"
    then cons (text "NO_FACE") nil
    else if eq_text secondary_person_state "INTERFERING"
    then cons (text "MULTIPLE_FACES") nil
    else nil
