-- ===== src/Integrations/Attempts/Repeats.antt =====
-- What a second registration of an attempt finds.
use live_photo_llm.Prelude.{ℕ, String, Bool, true, false, Option, some, ◌≡◌, ◌∙◌, refl, ap}
use live_photo_llm.Python.{Fields, Env, contains_text}
use live_photo_llm.State.{attempts_json, document, World, ok, err, upload_rejected}
use live_photo_llm.Settings.{Settings}
use live_photo_llm.Transactions.Ids.{TxId}
use live_photo_llm.Transactions.Store.{read, read_json, artifact_exists}
use live_photo_llm.Integrations.Attempts.{
  AttemptResult, attempt_count, attempt_id_hash, effective_limit, is_disallowed_reason,
  is_disallowed_result, read_attempts, register_attempt_locked, registered,
}
use live_photo_llm.Integrations.Attempts.Counting.{
  consumed_ids, registered_consumed, registered_uploaded,
}
use live_photo_llm.Integrations.Attempts.Registration.{register_inverts, register_counts}

module _ (env : Env) (t : TxId) (attempt_id : String) where
  -- What a later call reads of the attempts.
  later_read :
      (s : World) (f : Fields) (limit now : ℕ)
      → read s t attempts_json ≡ some (document f)
      → read_attempts env s t limit now ≡ f
  unfolding read_attempts artifact_exists read_json
  later_read s f limit now e = rw e refl

  -- Where an attempt was registered and is registered again next, with whatever other arguments,
  -- and both calls return, the second answers the count of the first.
  pub register_again :
      (settings : Settings) (result reason result' reason' : Option String)
      (max_attempts max_attempts' : Option ℕ) (mark mark' : Bool) (now now' : ℕ) (s s' s'' : World)
      (a b : AttemptResult)
      → register_attempt_locked env settings t attempt_id result reason max_attempts mark now s
        ≡ (ok a, s')
      → register_attempt_locked env settings t attempt_id result' reason' max_attempts' mark' now'
          s'
        ≡ (ok b, s'')
      → b.attempt_count ≡ a.attempt_count
  register_again settings result reason result' reason' max_attempts max_attempts' mark mark' now
        now' s s' s'' a b h k =
      let i =
        register_inverts env settings t attempt_id result reason max_attempts mark now s s' a h in
      let l = effective_limit env settings max_attempts in
      let l' = effective_limit env settings max_attempts' in
      let same = later_read s' i.attempts l' now' i.stored in
      let id_hash = attempt_id_hash env attempt_id in
      let old =
        registered_consumed env settings l id_hash reason mark now (read_attempts env s t l now)
          i.attempts i.done in
      let (count, _) =
        register_counts env settings t attempt_id result' reason' max_attempts' mark' now' s' s'' b
          a.attempt_count k (ap (attempt_count env) same ∙ i.counted) in
      count ∙ rw (ap (λ f. contains_text id_hash (consumed_ids f)) same ∙ old) refl

  -- Where an attempt has uploaded a capture, a second upload of it next, with an allowed result
  -- and reason, is rejected and changes nothing.
  pub upload_once :
      (settings : Settings) (result reason result' reason' : Option String)
      (max_attempts max_attempts' : Option ℕ) (now now' : ℕ) (s s' : World) (a : AttemptResult)
      → register_attempt_locked env settings t attempt_id result reason max_attempts true now s
        ≡ (ok a, s')
      → is_disallowed_result result' ≡ false
      → is_disallowed_reason reason' ≡ false
      → register_attempt_locked env settings t attempt_id result' reason' max_attempts' true now' s'
        ≡ (err upload_rejected, s')
  unfolding register_attempt_locked registered
  upload_once settings result reason result' reason' max_attempts max_attempts' now now' s s' a h
        ok1 ok2 =
      let i =
        register_inverts env settings t attempt_id result reason max_attempts true now s s' a h in
      let l = effective_limit env settings max_attempts in
      let l' = effective_limit env settings max_attempts' in
      let same = later_read s' i.attempts l' now' i.stored in
      let id_hash = attempt_id_hash env attempt_id in
      let old =
        registered_uploaded env settings l id_hash reason true now (read_attempts env s t l now)
          i.attempts i.done refl in
      rw (ok1, ok2) (rw same (rw old refl))
