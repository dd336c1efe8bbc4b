-- ===== src/Integrations/Attempts.antt =====
-- Capture attempts: backend/app/integrations/attempts.py.
pub mod Counting
pub mod Registration
pub mod Repeats
use live_photo_llm.Prelude.{
  ℕ, zero, suc, ◌+◌, String, Bool, true, false, Option, none, some, List, [], ◌∷◌, str_eq,
  if◌then◌else◌, leb, ltb, ◌==◌, ◌&&◌, ◌||◌, not, contains,
}
use live_photo_llm.Python.{
  Json, int, text, arr, Items, nil, cons, Fields, end, field, get, get_or, set, list_or_empty,
  contains_text, snoc, Env, int_of,
}
use live_photo_llm.State.{
  attempts_json, World, Exec, Result, ok, err, value_error, attempt_validation, upload_rejected,
  pure, gets, lift, raise_if, when, or_raise, ◌>>=◌, ◌>>◌,
}
use live_photo_llm.Settings.{Settings}
use live_photo_llm.Transactions.Status.{TransactionStatus, attempt_limit_exceeded}
use live_photo_llm.Transactions.Ids.{TxId}
use live_photo_llm.Transactions.Store.{
  artifact_exists, read_json, write_json, update_transaction_status, lock_transaction,
}

-- BROWSER_REASON_ALLOWLIST
abbrev pub browser_reason_allowlist : List String
browser_reason_allowlist =
    "NO_FACE" ∷ "MULTIPLE_FACES" ∷ "FACE_TOO_SMALL" ∷ "FACE_TOO_LARGE" ∷ "FACE_OFF_CENTER"
    ∷ "BLURRED" ∷ "UNDEREXPOSED" ∷ "OVEREXPOSED" ∷ "LOW_CONTRAST" ∷ "RESOLUTION_TOO_LOW"
    ∷ "EYES_CLOSED" ∷ "EYE_STATE_UNKNOWN" ∷ "LOW_LIGHT" ∷ []

-- FORBIDDEN_BROWSER_VALUES
abbrev pub forbidden_browser_values : List String
forbidden_browser_values =
    "PASS" ∷ "LIVE" ∷ "APPROVED" ∷ "VERIFIED" ∷ "SCREEN_REPLAY" ∷ "PRINT_ATTACK" ∷ []

-- ALLOWED_BROWSER_RESULTS
abbrev pub allowed_browser_results : List String
allowed_browser_results = "QUALITY_RETRY" ∷ "QUALITY_ELIGIBLE" ∷ []

pub record AttemptResult : Type 0 where
  pub attempt_count : ℕ
  pub max_attempts : ℕ
  pub warning : Bool
  pub terminal : Bool
  pub status : Option TransactionStatus

-- `validate_reason` raises where this is true.
unfoldable pub is_disallowed_reason : Option String → Bool
is_disallowed_reason none = false
is_disallowed_reason (some r) =
    contains r forbidden_browser_values || not (contains r browser_reason_allowlist)

-- `validate_result` raises where this is true.
unfoldable pub is_disallowed_result : Option String → Bool
is_disallowed_result none = false
is_disallowed_result (some r) = not (contains r allowed_browser_results)

module _ (env : Env) where
  abbrev pub attempt_id_hash : String → String
  attempt_id_hash attempt_id = env.sha256_hex (env.encode attempt_id)

  unfoldable pub blank_attempts : ℕ → ℕ → Fields
  blank_attempts max_attempts now = field "attempt_count" (int 0) (
      field "warning_stages" (arr (cons (int 5) (cons (int 7) nil))) (
        field "limit" (int max_attempts) (
          field "consumed_attempt_ids" (arr nil) (
            field "uploaded_attempt_ids" (arr nil) (
              field "reason_codes" (arr nil)
                (field "updated_at" (text (env.isoformat now)) end))))))

  abbrev or_blank : Fields → Result Fields → Fields
  or_blank blank (ok f) = f
  or_blank blank (err _) = blank

  -- A missing or unreadable file counts as a blank one.
  unfoldable pub read_attempts : World → TxId → ℕ → ℕ → Fields
  unfolding blank_attempts
  read_attempts s t max_attempts now =
      if artifact_exists s t attempts_json
      then or_blank (blank_attempts max_attempts now) (read_json env s t attempts_json)
      else blank_attempts max_attempts now

  abbrev add_code : String → Items → Items
  add_code r codes = if contains_text r codes then codes else snoc (text r) codes

  -- `if reason_code: …`
  unfoldable pub add_reason : Option String → Fields → Fields
  add_reason none f = f
  add_reason (some r) f =
      if str_eq r ""
      then f
      else set "reason_codes" (arr (add_code r (list_or_empty (get "reason_codes" f)))) f

  -- The body of `if id_hash not in consumed`, given the count before.
  unfoldable pub consume : String → Option String → ℕ → ℕ → Fields → Fields
  unfolding add_reason
  consume id_hash reason count now f = set "updated_at" (text (env.isoformat now)) (
      add_reason reason (
        set "attempt_count" (int (count + 1)) (
          set "consumed_attempt_ids"
            (arr (snoc (text id_hash) (list_or_empty (get "consumed_attempt_ids" f)))) f)))

  unfoldable pub mark_upload : Bool → String → Fields → Fields
  mark_upload mark id_hash f =
      let uploaded = list_or_empty (get "uploaded_attempt_ids" f) in
      if mark && not (contains_text id_hash uploaded)
      then set "uploaded_attempt_ids" (arr (snoc (text id_hash) uploaded)) f
      else f

  -- `int(attempts.get("attempt_count", 0))`
  unfoldable pub attempt_count : Fields → Result ℕ
  attempt_count f = or_raise (int_of env (get_or "attempt_count" (int 0) f)) value_error

  -- The stages and the limit come from the settings.
  unfoldable pub stamp_limits : Settings → ℕ → Fields → Fields
  stamp_limits settings limit f = set "limit" (int limit) (
      set "warning_stages"
        (arr (
          cons (int settings.capture_attempt_warning_at)
            (cons (int settings.capture_attempt_warning_again_at) nil)))
        f)

  abbrev consume_new : Bool → String → Option String → ℕ → Fields → Result Fields
  consume_new old id_hash reason now f =
      if old
      then ok f
      else (elim (attempt_count f) [ ok n ↦ ok (consume id_hash reason n now f) | err e ↦ err e ])

  -- The attempts after this one is registered; raises on a second upload of the attempt.
  unfoldable pub registered :
      Settings → ℕ → String → Option String → Bool → ℕ → Fields → Result Fields
  unfolding attempt_count consume mark_upload stamp_limits
  registered settings limit id_hash reason mark now f =
      let old = contains_text id_hash (list_or_empty (get "consumed_attempt_ids" f)) in
      if mark && contains_text id_hash (list_or_empty (get "uploaded_attempt_ids" f))
      then err upload_rejected
      else (elim (consume_new old id_hash reason now f) [
        | ok g ↦ ok (stamp_limits settings limit (mark_upload mark id_hash g))
        | err e ↦ err e
      ])

  abbrev pub effective_limit : Settings → Option ℕ → ℕ
  effective_limit settings none = settings.capture_attempt_limit
  effective_limit settings (some zero) = settings.capture_attempt_limit
  effective_limit settings (some (suc n)) = suc n

  abbrev pub result_of : Settings → ℕ → ℕ → AttemptResult
  result_of settings limit count = record {
    attempt_count = count;
    max_attempts = limit;
    warning =
        count == settings.capture_attempt_warning_at
        || count == settings.capture_attempt_warning_again_at;
    terminal = leb limit count;
    status = if leb limit count then some attempt_limit_exceeded else none;
  }

  unfoldable pub register_attempt_locked :
      Settings
      → TxId
      → String
      → Option String
      → Option String
      → Option ℕ
      → Bool
      → ℕ
      → Exec AttemptResult
  unfolding registered attempt_count
  register_attempt_locked settings t attempt_id result reason max_attempts mark now = do
    raise_if (is_disallowed_result result) attempt_validation
    raise_if (is_disallowed_reason reason) attempt_validation
    let limit = effective_limit settings max_attempts
    attempts ← gets (λ s. read_attempts s t limit now)
    attempts' ←
        lift (registered settings limit (attempt_id_hash attempt_id) reason mark now attempts)
    count ← lift (attempt_count attempts')
    when (leb limit count) (update_transaction_status env t attempt_limit_exceeded now)
    write_json t attempts_json attempts'
    pure (result_of settings limit count)

  unfoldable pub register_attempt :
      Settings
      → TxId
      → String
      → Option String
      → Option String
      → Option ℕ
      → Bool
      → ℕ
      → Exec AttemptResult
  unfolding register_attempt_locked
  register_attempt settings t attempt_id result reason max_attempts mark now = do
    lock_transaction t
    register_attempt_locked settings t attempt_id result reason max_attempts mark now
