-- ===== src/Vlm/Retry.antt =====
-- run_with_retries of backend/app/providers/vision/base.py. The operation is a function of the
-- number of the attempt; the waits between two attempts are left out.
pub mod Attempts
use live_photo_llm.Prelude.{ℕ, zero, suc, Bool, if◌then◌else◌, leb, not, ◌||◌}
use live_photo_llm.Vlm.Errors.{VlmErrorCode, provider_unavailable, is_retryable_error}

pub data Answer (A : Type 0) : Type 0 where
  given : A → Answer A
  refused : VlmErrorCode → Answer A

-- How a run ends, and the number of attempts that were made.
pub record Run (A : Type 0) : Type 0 where
  pub answer : Answer A
  pub attempts : ℕ

module _ {A : Type 0} (operation : ℕ → Answer A) (max_retries : ℕ) where
  abbrev ending : Answer A → ℕ → Run A
  ending answer attempts = record { answer = answer; attempts = attempts }

  -- The body of the loop, given the rest of the loop.
  abbrev pub after : ℕ → Run A → Answer A → Run A
  after attempt rest (given a) = ending (given a) (suc attempt)
  after attempt rest (refused code) =
      if leb max_retries attempt || not (is_retryable_error code)
      then ending (refused code) (suc attempt)
      else rest

  -- The attempts from one on, where so many are left.
  unfoldable pub retry_loop : ℕ → ℕ → Run A
  retry_loop zero attempt = ending (refused provider_unavailable) attempt
  retry_loop (suc left) attempt =
      let rest = retry_loop left (suc attempt) in after attempt rest (operation attempt)

  unfoldable pub run_with_retries : Run A
  unfolding retry_loop
  run_with_retries = retry_loop (suc max_retries) 0
