-- ===== src/Integrations/Api/Scoped.antt =====
-- What a consumer reaches by its endpoints.
use live_photo_llm.Prelude.{
  ℕ, String, Bool, true, Option, none, some, ◌≡◌, ◌∙◌, refl, sym, ap, arith, inl, inr, Bool-cases,
}
use live_photo_llm.Python.{Json, Fields, Env}
use live_photo_llm.State.{
  World, Exec, Result, ok, err, api, external, not_found, transaction_exists, lift, asks, catch,
  or_raise, pure, ◌>>=◌,
}
use live_photo_llm.State.Inversion.{bind-ok, catch-err, catch-ok}
use live_photo_llm.Settings.{Settings}
use live_photo_llm.Integrations.Index.{index_get, external_key_hash}
use live_photo_llm.Integrations.Consumers.{ConsumerProfile, Registry}
use live_photo_llm.Integrations.Auth.{Pyjwt}
use live_photo_llm.Integrations.Launch.{LaunchSessionRequest, LaunchResult, Drawn, create_launch}
use live_photo_llm.Integrations.StatusQuery.{resolve_status, status_known}
use live_photo_llm.Integrations.Api.{
  Headers, launch_payload, authenticated_consumer, policy_allows, launch_for, launch_session,
  transaction_status, existing,
}

module _ (env : Env) where
  -- The entry of an external id in the scope of a consumer.
  abbrev pub own_entry : World → ConsumerProfile → String → Result (Option Fields)
  own_entry s profile external_id =
      index_get env s external (external_key_hash env profile.consumer_id external_id)

  resolve_status-own :
      (s : World) (profile : ConsumerProfile) (external_id : String) (payload : Fields)
      → resolve_status env s profile external_id ≡ ok (some payload)
      → (mapping : Fields) × (own_entry s profile external_id ≡ ok (some mapping))
  unfolding resolve_status
  resolve_status-own s profile external_id payload h =
      known (own_entry s profile external_id) refl h
    where
      known :
          (r : Result (Option Fields))
          → own_entry s profile external_id ≡ r
          → status_known env profile external_id s r ≡ ok (some payload)
          → (mapping : Fields) × (own_entry s profile external_id ≡ ok (some mapping))
      known (ok (some mapping)) e k = (mapping, e)
      known (ok none) e k = absurd (cc k)
      known (err x) e k = absurd (cc k)

  module _ {Key : Type 0} (pyjwt : Pyjwt Key) (json_eq : Json → Json → Bool)
      (strip rstrip_slash : String → String) (settings : Settings) (registry : Registry)
      (headers : Headers) where
    abbrev pub authenticated : String → Result ConsumerProfile
    authenticated =
        authenticated_consumer env pyjwt json_eq strip rstrip_slash settings registry headers

    abbrev pub status_for : String → ConsumerProfile → Exec Fields
    status_for external_id profile =
        asks (λ s. resolve_status env s profile external_id) >>= λ status.
        lift (or_raise status (api not_found))

    -- A status is given only to an authenticated consumer in whose own scope the index has the
    -- external id, and giving it changes nothing.
    pub transaction_status-IsOwn :
        (external_id source : String) (payload : Fields) (s s' : World)
        → transaction_status env pyjwt json_eq strip rstrip_slash settings registry headers
            external_id source s
          ≡ (ok payload, s')
        → (s' ≡ s)
          × (profile : ConsumerProfile) × (mapping : Fields) × (authenticated source ≡ ok profile)
          × (own_entry s profile external_id ≡ ok (some mapping))
    unfolding transaction_status
    transaction_status-IsOwn external_id source payload s s' h =
        let (profile, s1, h1, k1) =
          bind-ok (lift (authenticated source)) (status_for external_id) s h in
        let (status, s2, h2, k2) =
          bind-ok (asks (λ s. resolve_status env s profile external_id))
            (λ status. lift (or_raise status (api not_found))) s1 k1 in
        let kept : s' ≡ s = ground (arith, h1, h2, k2) in
        let found : resolve_status env s profile external_id ≡ ok (some payload) =
          ground (arith, h1, h2, k2) in
        let (mapping, entry) = resolve_status-own s profile external_id payload found in
        (kept, profile, mapping, ap (λ (p : Result ConsumerProfile × World). p.0) h1, entry)

    abbrev pub launch_of : LaunchSessionRequest → Drawn → ℕ → Exec Fields
    launch_of = launch_session env pyjwt json_eq strip rstrip_slash settings registry headers

    abbrev pub launching : LaunchSessionRequest → Drawn → ℕ → ConsumerProfile → Exec LaunchResult
    launching = launch_for env pyjwt json_eq strip rstrip_slash settings registry headers

    abbrev pub allows : ConsumerProfile → LaunchSessionRequest → Bool
    allows = policy_allows env pyjwt json_eq strip rstrip_slash settings registry headers

    -- A launch that was let through, and what came of it.
    pub record IsLaunched (body : LaunchSessionRequest) (drawn : Drawn) (now : ℕ) (payload : Fields)
        (s s' : World) : Type 0 where
      pub profile : ConsumerProfile
      pub result : LaunchResult
      pub is_authenticated : authenticated body.source ≡ ok profile
      pub is_allowed : allows profile body ≡ true
      pub created :
          create_launch env settings rstrip_slash profile body drawn now s ≡ (ok result, s')
      pub replied : payload ≡ launch_payload result

    created_of :
        (body : LaunchSessionRequest) (drawn : Drawn) (now : ℕ) (profile : ConsumerProfile)
        (r : LaunchResult) (s s' : World)
        → catch (create_launch env settings rstrip_slash profile body drawn now) existing s
          ≡ (ok r, s')
        → create_launch env settings rstrip_slash profile body drawn now s ≡ (ok r, s')
    created_of body drawn now profile r s s' h = go (create s) refl
      where
        create : Exec LaunchResult
        create = create_launch env settings rstrip_slash profile body drawn now

        go : (p : Result LaunchResult × World) → create s ≡ p → create s ≡ (ok r, s')
        go (ok a, w) e = e ∙ (sym (catch-ok create existing s e) ∙ h)
        go (err transaction_exists, w) e = absurd (cc (sym (catch-err create existing s e) ∙ h))
        go (err _, w) e = absurd (cc (sym (catch-err create existing s e) ∙ h))

    launching-ok :
        (body : LaunchSessionRequest) (drawn : Drawn) (now : ℕ) (profile : ConsumerProfile)
        (r : LaunchResult) (s s' : World)
        → launching body drawn now profile s ≡ (ok r, s')
        → (allows profile body ≡ true)
          × (create_launch env settings rstrip_slash profile body drawn now s ≡ (ok r, s'))
    launching-ok body drawn now profile r s s' h = elim (Bool-cases (allows profile body)) [
      | inl e ↦ (e, created_of body drawn now profile r s s' (ground (arith, h, e)))
      | inr e ↦ absurd (ground (arith, h, e))
    ]

    pub launch_session-IsLaunched :
        (body : LaunchSessionRequest) (drawn : Drawn) (now : ℕ) (payload : Fields) (s s' : World)
        → launch_of body drawn now s ≡ (ok payload, s')
        → IsLaunched body drawn now payload s s'
    unfolding launch_session
    launch_session-IsLaunched body drawn now payload s s' h =
        let (profile, s1, h1, k1) =
          bind-ok (lift (authenticated body.source))
            (λ profile. launching body drawn now profile >>= λ result. pure (launch_payload result))
            s h in
        let (r, s2, h2, k2) =
          bind-ok (launching body drawn now profile) (λ result. pure (launch_payload result)) s1
            k1 in
        let (allowed, created) = launching-ok body drawn now profile r s1 s2 h2 in
        let same : s1 ≡ s = sym (ap (λ (p : Result ConsumerProfile × World). p.1) h1) in
        let at_end : s2 ≡ s' = ap (λ (p : Result Fields × World). p.1) k2 in
        record {
          profile = profile;
          result = r;
          is_authenticated = ap (λ (p : Result ConsumerProfile × World). p.0) h1;
          is_allowed = allowed;
          created =
              ap (create_launch env settings rstrip_slash profile body drawn now) (sym same)
              ∙ (created ∙ (λ i. (ok r, at_end i)));
          replied = ground (arith, k2);
        }
