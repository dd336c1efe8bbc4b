-- ===== src/Liveness/Claims.antt =====
-- Single-flight claims with a bounded lifetime: backend/app/experiments/vlm/liveness.py.
use live_photo_llm.Prelude.{
  ℕ, ◌+◌, ◌-◌, ◌*◌, String, Bool, true, Option, none, some, if◌then◌else◌, ltb, not,
}
use live_photo_llm.Python.{text, Fields, end, field, get_or, Env, str_of}
use live_photo_llm.State.{FilePath, evaluation_claim, portrait_claim, World, Exec, Result, ok, err}
use live_photo_llm.Settings.{Settings}
use live_photo_llm.Transactions.Ids.{TxId}
use live_photo_llm.Transactions.Store.{artifact_exists, read_json, write_json, remove_artifact}

-- EVALUATION_CLAIM_PREFIX and PORTRAIT_CLAIM_PREFIX
pub data ClaimKind : Type 0 where
  evaluating portraying : ClaimKind

-- `claim_path_for`
abbrev pub claim_path : ClaimKind → String → FilePath
claim_path evaluating identity = evaluation_claim identity
claim_path portraying identity = portrait_claim identity

-- The lifetime of a claim in microseconds: worst-case provider latency and ten seconds.
unfoldable pub claim_timeout : Settings → ℕ
claim_timeout settings =
    (settings.vlm_timeout_seconds * (settings.vlm_max_retries + 2) + 10) * 1000000

-- `clear_claim`
unfoldable pub clear_claim : TxId → ClaimKind → String → Exec Unit
unfolding remove_artifact
clear_claim t kind identity = remove_artifact t (claim_path kind identity)

-- `is_claimed`
unfoldable pub is_claimed : World → TxId → ClaimKind → String → Bool
is_claimed s t kind identity = artifact_exists s t (claim_path kind identity)

module _ (env : Env) where
  abbrev pub claim_fields : String → ℕ → Fields
  claim_fields identity now =
      field "identity" (text identity)
        (field "status" (text "IN_PROGRESS") (field "started_at" (text (env.isoformat now)) end))

  -- `set_claim`
  unfoldable pub set_claim : TxId → ClaimKind → String → ℕ → Exec Unit
  unfolding write_json
  set_claim t kind identity now =
      write_json t (claim_path kind identity) (claim_fields identity now)

  abbrev older_than : Settings → ℕ → Option ℕ → Bool
  older_than settings now none = true
  older_than settings now (some started) = ltb (claim_timeout settings) (now - started)

  -- `claim_is_stale`: an unreadable start counts as stale.
  unfoldable pub claim_is_stale : Settings → ℕ → Fields → Bool
  claim_is_stale settings now claim =
      older_than settings now (env.fromisoformat (str_of env (get_or "started_at" (text "") claim)))

  abbrev claim_of : Result Fields → Option Fields
  claim_of (ok f) = some f
  claim_of (err _) = none

  -- `read_claim`
  unfoldable pub read_claim : World → TxId → ClaimKind → String → Option Fields
  read_claim s t kind identity =
      if artifact_exists s t (claim_path kind identity)
      then claim_of (read_json env s t (claim_path kind identity))
      else none

  abbrev missing_or_stale : Settings → ℕ → Option Fields → Bool
  missing_or_stale settings now none = true
  missing_or_stale settings now (some claim) = claim_is_stale settings now claim

  -- `claim_ready`
  unfoldable pub claim_ready : Settings → ℕ → World → TxId → ClaimKind → String → Bool
  unfolding read_claim claim_is_stale is_claimed
  claim_ready settings now s t kind identity =
      if not (is_claimed s t kind identity)
      then true
      else missing_or_stale settings now (read_claim s t kind identity)
