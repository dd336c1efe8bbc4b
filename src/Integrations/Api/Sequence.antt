-- ===== src/Integrations/Api/Sequence.antt =====
-- What a consumer meets after a launch.
use live_photo_llm.Prelude.{ℕ, String, Bool, true, false, some, ◌≡◌, ◌∙◌, refl, ap}
use live_photo_llm.Python.{Json, Fields, Env, get, get_or, has_key, text, int, arr, nil}
use live_photo_llm.State.{
  World, Exec, Result, ok, err, api, not_found, transaction_exists_code, attempts_json,
  transaction_exists, lift, asks, or_raise, pure, ◌>>=◌,
}
use live_photo_llm.State.Inversion.{bind-err, bind-from, catch-err}
use live_photo_llm.Settings.{Settings}
use live_photo_llm.Transactions.Ids.{TxId}
use live_photo_llm.Transactions.Store.{artifact_exists, transaction_exists_at}
use live_photo_llm.Integrations.Consumers.{ConsumerProfile, Registry}
use live_photo_llm.Integrations.Auth.{Pyjwt}
use live_photo_llm.Integrations.Session.Grants.{validate-name}
use live_photo_llm.Integrations.Launch.{
  LaunchSessionRequest, LaunchResult, Drawn, create_launch, transaction_metadata,
}
use live_photo_llm.Integrations.Launch.Launched.{IsClaimed, create_launch-IsLaunched}
use live_photo_llm.Integrations.Launch.Unique.{create_launch_unique}
use live_photo_llm.Integrations.StatusQuery.{
  resolve_status, status_read, status_fields, no_attempts, status_at, read_status_attempts,
  map_status,
}
use live_photo_llm.Integrations.Api.{
  Headers, launch_payload, launch_session, transaction_status, existing,
}
use live_photo_llm.Integrations.Api.Scoped.{
  authenticated, launch_of, launching, allows, status_for, launch_session-IsLaunched,
}

module _ (env : Env) {Key : Type 0} (pyjwt : Pyjwt Key) (json_eq : Json → Json → Bool)
    (strip rstrip_slash : String → String) (settings : Settings) (registry : Registry)
    (headers : Headers) where
  abbrev who : String → Result ConsumerProfile
  who = authenticated env pyjwt json_eq strip rstrip_slash settings registry headers

  abbrev launch : LaunchSessionRequest → Drawn → ℕ → Exec Fields
  launch = launch_of env pyjwt json_eq strip rstrip_slash settings registry headers

  abbrev may : ConsumerProfile → LaunchSessionRequest → Bool
  may = allows env pyjwt json_eq strip rstrip_slash settings registry headers

  refused_again :
      (body : LaunchSessionRequest) (drawn : Drawn) (now : ℕ) (profile : ConsumerProfile)
      (s : World)
      → who body.source ≡ ok profile
      → may profile body ≡ true
      → create_launch env settings rstrip_slash profile body drawn now s
        ≡ (err transaction_exists, s)
      → launch body drawn now s ≡ (err (api transaction_exists_code), s)
  unfolding launch_session
  refused_again body drawn now profile s known allowed h =
      let create = create_launch env settings rstrip_slash profile body drawn now in
      let attempt =
        launching env pyjwt json_eq strip rstrip_slash settings registry headers body drawn now in
      let reply : LaunchResult → Exec Fields = λ r. pure (launch_payload r) in
      let refusal : attempt profile s ≡ (err (api transaction_exists_code), s) =
        rw allowed (catch-err create existing s h) in
      bind-from (lift (who body.source)) (λ p. attempt p >>= reply) s (λ i. (known i, s))
      ∙ bind-err (attempt profile) reply s refusal

  -- After a launch request that returned, a launch request right after it for the same source and
  -- external id, with options that the consumer's policy allows, is answered with
  -- TRANSACTION_EXISTS and changes nothing.
  pub launch_session_repeated :
      (body body' : LaunchSessionRequest) (drawn drawn' : Drawn) (now now' : ℕ) (payload : Fields)
      (s s' : World)
      → launch body drawn now s ≡ (ok payload, s')
      → body'.source ≡ body.source
      → body'.transaction_id ≡ body.transaction_id
      → ((p : ConsumerProfile) → who body.source ≡ ok p → may p body' ≡ true)
      → launch body' drawn' now' s' ≡ (err (api transaction_exists_code), s')
  launch_session_repeated body body' drawn drawn' now now' payload s s' h same_source same_id
        allowed =
      let l =
        launch_session-IsLaunched env pyjwt json_eq strip rstrip_slash settings registry headers
          body drawn now payload s s' h in
      refused_again body' drawn' now' l.profile s' (ap who same_source ∙ l.is_authenticated)
        (allowed l.profile l.is_authenticated)
        (create_launch_unique env settings rstrip_slash l.profile l.profile body body' drawn drawn'
          now now' l.result s s' l.created refl same_id)

  module _ (profile : ConsumerProfile) (body : LaunchSessionRequest) (drawn : Drawn) (now : ℕ) where
    -- The reply right after the launch.
    abbrev pub IsStatusReply : Fields → Type 0
    IsStatusReply payload =
        (get "transaction_id" payload ≡ text body.transaction_id)
        × (get "source" payload ≡ text body.source)
        × (get "status" payload ≡ text "RETRY_REQUIRED")
        × (get "attempt_count" payload ≡ int 0)
        × (get "max_attempts" payload ≡ int profile.max_attempts)
        × (get "created_at" payload ≡ text (env.isoformat now))

    status_launched :
        (t : TxId) (s : World)
        → IsClaimed env settings rstrip_slash profile body drawn now t s
        → artifact_exists s t attempts_json ≡ false
        → (payload : Fields) × (status_at env profile body.transaction_id s t ≡ ok (some payload))
          × IsStatusReply payload
    unfolding read_status_attempts map_status get has_key get_or transaction_metadata
    status_launched t s h none_yet =
        let metadata = transaction_metadata env settings rstrip_slash profile body now t.name in
        (
          status_fields env profile body.transaction_id metadata no_attempts (arr nil),
          ap (status_read env profile body.transaction_id (read_status_attempts env s t)) h.metadata
              ∙ rw none_yet refl,
          (refl, refl, refl, refl, refl, refl),
        )

    resolved_launched :
        (t : TxId) (s : World)
        → IsClaimed env settings rstrip_slash profile body drawn now t s
        → resolve_status env s profile body.transaction_id
          ≡ status_at env profile body.transaction_id s t
    unfolding resolve_status has_key get
    resolved_launched t s h = rw (h.entry, validate-name t) refl

  -- After a launch request that returned, from a state in which no transaction without a folder
  -- has attempts, the status request of the same source for the external id returns, changes
  -- nothing, and states the id, the source, RETRY_REQUIRED, no attempts, the consumer's limit and
  -- the time of the launch.
  pub status_after_launch :
      (body : LaunchSessionRequest) (drawn : Drawn) (now : ℕ) (payload : Fields) (s s' : World)
      → launch body drawn now s ≡ (ok payload, s')
      → ((t : TxId) → transaction_exists_at s t ≡ false → artifact_exists s t attempts_json ≡ false)
      → (profile : ConsumerProfile) × (who body.source ≡ ok profile)
        × (reply : Fields) × (transaction_status env pyjwt json_eq strip rstrip_slash settings
              registry headers body.transaction_id body.source s'
            ≡ (ok reply, s'))
        × IsStatusReply profile body drawn now reply
  unfolding transaction_status
  status_after_launch body drawn now payload s s' h tidy =
      let l =
        launch_session-IsLaunched env pyjwt json_eq strip rstrip_slash settings registry headers
          body drawn now payload s s' h in
      let (t, left, new) =
        create_launch-IsLaunched env settings rstrip_slash l.profile body drawn now l.result s s'
          l.created in
      let none_yet = new.attempts ∙ tidy t new.was_absent in
      let (reply, resolved, says) =
        status_launched l.profile body drawn now t s' left.is_claimed none_yet in
      let query =
        status_for env pyjwt json_eq strip rstrip_slash settings registry headers
          body.transaction_id in
      let found = resolved_launched l.profile body drawn now t s' left.is_claimed ∙ resolved in
      (
        l.profile,
        l.is_authenticated,
        reply,
        bind-from (lift (who body.source)) query s' (λ i. (l.is_authenticated i, s'))
            ∙ bind-from (asks (λ w. resolve_status env w l.profile body.transaction_id))
                (λ status. lift (or_raise status (api not_found))) s' (λ i. (found i, s')),
        says,
      )
