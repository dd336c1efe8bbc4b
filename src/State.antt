-- ===== src/State.antt =====
-- The state that the whole backend shares: the files of every transaction
-- (backend/app/transactions/store.py, artifacts.py), the integration index
-- (backend/app/integrations/store.py) and the callbacks that were posted. An operation of the
-- backend is an action over it, which returns or raises.
pub mod Inversion
use Prim.Native.String.{◌++◌}
use live_photo_llm.Prelude.{
  ℕ, String, Bool, true, false, Option, none, some, List, str_eq, if◌then◌else◌, ◌==◌, ◌&&◌, ◌≡◌,
  refl, ◌⊎◌, inl, inr,
}
use live_photo_llm.Python.{Fields, Bytes}

-- The transaction-relative paths that the backend uses.
pub data FilePath : Type 0 where
  transaction_json attempts_json capture_json selected_original vlm_result : FilePath
  portrait_processed portrait_processing portrait_authorization decision_json : FilePath
  callback_state active_session active_launches : FilePath
  evaluation_claim portrait_claim evaluation portrait_candidate : String → FilePath

abbrev pub relative_path : FilePath → String
relative_path transaction_json = "transaction.json"
relative_path attempts_json = "attempts.json"
relative_path capture_json = "capture/capture.json"
relative_path selected_original = "capture/selected-original.jpg"
relative_path vlm_result = "vlm/result.json"
relative_path portrait_processed = "portrait/processed.jpg"
relative_path portrait_processing = "portrait/processing.json"
relative_path portrait_authorization = "portrait/authorization.json"
relative_path decision_json = "decisions/decision.json"
relative_path callback_state = "callback/decision-callback.json"
relative_path active_session = "browser/active-session.json"
relative_path active_launches = "launch/active-launches.json"
relative_path (evaluation_claim i) = "liveness/claim-" ++ i ++ ".json"
relative_path (portrait_claim i) = "liveness/portrait-claim-" ++ i ++ ".json"
relative_path (evaluation i) = "liveness/" ++ i ++ ".json"
relative_path (portrait_candidate i) = "portrait/candidates/" ++ i ++ ".jpg"

-- The kind of a path, and the liveness identity in its name.
abbrev pub kind : FilePath → ℕ
kind transaction_json = 0
kind attempts_json = 1
kind capture_json = 2
kind selected_original = 3
kind vlm_result = 4
kind portrait_processed = 5
kind portrait_processing = 6
kind portrait_authorization = 7
kind decision_json = 8
kind callback_state = 9
kind active_session = 10
kind active_launches = 11
kind (evaluation_claim i) = 12
kind (portrait_claim i) = 13
kind (evaluation i) = 14
kind (portrait_candidate i) = 15

abbrev pub identity_of : FilePath → String
identity_of (evaluation_claim i) = i
identity_of (portrait_claim i) = i
identity_of (evaluation i) = i
identity_of (portrait_candidate i) = i
identity_of _ = ""

abbrev pub path_eq : FilePath → FilePath → Bool
path_eq p q = kind p == kind q && str_eq (identity_of p) (identity_of q)

-- A file: a JSON object that the backend dumped, or other bytes.
pub data Content : Type 0 where
  document : Fields → Content
  blob : Bytes → Content

-- The folders of IntegrationIndexStore.
pub data IndexKind : Type 0 where
  launch_tokens browser_sessions external : IndexKind

abbrev pub index_kind_eq : IndexKind → IndexKind → Bool
index_kind_eq launch_tokens launch_tokens = true
index_kind_eq browser_sessions browser_sessions = true
index_kind_eq external external = true
index_kind_eq _ _ = false

-- A callback request that left the process: its URL, idempotency key and payload.
pub record Post : Type 0 where
  pub url : String
  pub idempotency_key : String
  pub payload : Fields

pub record World : Type 0 where
  pub folders : String → Bool
  pub files : String → FilePath → Option Content
  pub index : IndexKind → String → Option Content
  pub posts : List Post

pub data ApiCode : Type 0 where
  transaction_terminal disallowed_reason upload_already_recorded capture_not_ready : ApiCode
  liveness_unavailable liveness_in_progress stale_evaluation not_ready portrait_not_ready : ApiCode
  portrait_in_progress stale_portrait portrait_integrity_failed transaction_completed : ApiCode
  integration_not_configured callback_failed invalid_redirect : ApiCode
  session_invalid session_terminal csrf_invalid : ApiCode
  request_policy_violation transaction_exists_code not_found : ApiCode
  unauthorized forbidden : ApiCode

-- The exceptions; `vlm` and `portrait` carry the error's code.
pub data Error : Type 0 where
  path_error transaction_exists artifact_not_found storage_error value_error : Error
  attempt_validation upload_rejected index_error callback_transport callback_terminal : Error
  api : ApiCode → Error
  vlm portrait : String → Error

pub data Result {ℓ} (A : Type ℓ) : Type ℓ where
  ok : A → Result A
  err : Error → Result A

-- An action returns or raises, and what it wrote before it raised stays written.
abbrev pub Exec : Type 0 → Type 0
Exec A = World → Result A × World

module _ {A : Type 0} where
  abbrev pub pure : A → Exec A
  pure a s = (ok a, s)

  abbrev pub raise : Error → Exec A
  raise e s = (err e, s)

  abbrev pub lift : Result A → Exec A
  lift r s = (r, s)

  -- A read of the state.
  abbrev pub gets : (World → A) → Exec A
  gets f s = (ok (f s), s)

  -- A read of the state that may raise.
  abbrev pub asks : (World → Result A) → Exec A
  asks f s = (f s, s)

  -- `try: … except E: …`, where the handler is given the exception.
  abbrev pub catch : Exec A → (Error → Exec A) → Exec A
  catch m h s = let (r, s') = m s in elim r [ ok a ↦ (ok a, s') | err e ↦ h e s' ]

infixl 5 ◌>>=◌ ◌>>◌
abbrev pub ◌>>=◌ : {A B : Type 0} → Exec A → (A → Exec B) → Exec B
◌>>=◌ m f s = let (r, s') = m s in elim r [ ok a ↦ f a s' | err e ↦ (err e, s') ]

abbrev pub ◌>>◌ : {A B : Type 0} → Exec A → Exec B → Exec B
m >> k = m >>= λ _. k

abbrev pub modify : (World → World) → Exec (Unit {0})
modify f s = (ok tt, f s)

abbrev pub skip : Exec (Unit {0})
skip s = (ok tt, s)

abbrev pub raise_if : Bool → Error → Exec (Unit {0})
raise_if b e s = (if b then err e else ok tt, s)

abbrev pub when : Bool → Exec (Unit {0}) → Exec (Unit {0})
when b m s = if b then m s else (ok tt, s)

abbrev pub or_raise : {A : Type 0} → Option A → Error → Result A
or_raise none e = err e
or_raise (some a) e = ok a

pub Result-cases :
    {A : Type 0} (r : Result A) → ((a : A) × (r ≡ ok a)) ⊎ ((e : Error) × (r ≡ err e))
Result-cases (ok a) = inl (a, refl)
Result-cases (err e) = inr (e, refl)
