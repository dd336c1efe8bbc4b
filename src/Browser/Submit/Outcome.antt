-- ===== src/Browser/Submit/Outcome.antt =====
-- The outcome of a submit that returns: delivered now, or replayed from the record.
use mathlib.Core.Path.{subst}
use live_photo_llm.Prelude.{
  ℕ, Bool, refl, sym, String, true, Option, some, ◌≡◌, ◌∙◌, arith, if◌then◌else◌, ◌⊎◌, inl, inr,
  Bool-cases,
}
use live_photo_llm.Python.{Env, Fields, Json, get, eq_text, Bytes}
use live_photo_llm.State.{
  World, Exec, ok, pure, gets, lift, asks, or_raise, api, integration_not_configured, ◌>>=◌,
  Result-cases, portrait_processed,
}
use live_photo_llm.State.Inversion.{bind-ok}
use live_photo_llm.Browser.Submit.Authorization.{IsReady}
use live_photo_llm.Settings.{Settings}
use live_photo_llm.Transactions.Ids.{TxId}
use live_photo_llm.Transactions.Store.{read, read_artifact, read_transaction_json, make_folder}
use live_photo_llm.Transactions.Decisions.{DecisionRecord, read_decision}
use live_photo_llm.Liveness.Binding.Frame.{read_decision_frame}
use live_photo_llm.Integrations.Consumers.{ConsumerProfile, Registry, get_profile}
use live_photo_llm.Integrations.Callback.{
  Network, ParsedUrl, build_callback_event_id, build_callback_payload,
}
use live_photo_llm.Integrations.Session.{Request, authorize}
use live_photo_llm.Integrations.Session.Access.{IsSession, authorize-ok}
use live_photo_llm.Browser.Submit.Authorization.{checked, submit_for}
use live_photo_llm.Browser.Submit.Once.{IsPosted, deliver-IsPosted}
use live_photo_llm.Browser.Submit.{
  Delivery, metadata_text, read_portrait_with_integrity, read_callback_state, deliver,
  submit_delivery, browser_submit,
}

read_decision-make_folder :
    (env : Env) (t : TxId) (s : World)
    → read_decision env (make_folder t s) t ≡ read_decision env s t
unfolding read
read_decision-make_folder env t s = read_decision_frame env s t (make_folder t s) refl

module _ (env : Env) (settings : Settings) (registry : Registry)
    (urlparse : String → Option ParsedUrl) (network : Network) (t : TxId)
    (decision : DecisionRecord) (now : ℕ) where
  -- What is delivered for a portrait and the metadata of a transaction.
  abbrev pub delivery : Bytes → Fields → ConsumerProfile → Delivery
  delivery jpeg metadata profile =
      let consumer_id =
        metadata_text env settings registry urlparse network "consumer_id" metadata in
      let external_id =
        metadata_text env settings registry urlparse network "external_transaction_id" metadata in
      let event_id = build_callback_event_id env consumer_id external_id in
      record {
        profile = profile;
        event_id = event_id;
        payload =
            build_callback_payload env event_id external_id decision.decision_id jpeg
              (env.isoformat now);
      }

  abbrev consumer_of : Fields → Option ConsumerProfile
  consumer_of metadata =
      get_profile registry
        (metadata_text env settings registry urlparse network "consumer_id" metadata)

  abbrev pub callback_record : World → Fields
  callback_record s = read_callback_state env settings registry urlparse network s t

  -- The consumer named in the transaction's metadata was posted the transaction's portrait and
  -- decision.
  pub record IsSubmitted (s s' : World) (v : Json) : Type 0 where
    pub jpeg : Bytes
    pub metadata : Fields
    pub profile : ConsumerProfile
    pub portrait_read : read_artifact env s t portrait_processed ≡ ok jpeg
    pub metadata_read : read_transaction_json env s t ≡ ok metadata
    pub is_registered : consumer_of metadata ≡ some profile
    pub is_posted :
        IsPosted env settings registry urlparse network t now
          (delivery jpeg metadata profile)
          s
          s'
          v

  -- The consumer has been given the result before, or was given it by this call.
  abbrev pub IsAnswered : World → World → Json → Type 0
  IsAnswered s s' v =
      ((s' ≡ s)
        × (eq_text (get "state" (callback_record s)) "ACKNOWLEDGED" ≡ true)
        × (v ≡ get "redirect_url" (callback_record s)))
      ⊎ IsSubmitted s s' v

  abbrev answer_with : Delivery → Fields → Exec Json
  answer_with d state =
      if eq_text (get "state" state) "ACKNOWLEDGED"
      then pure (get "redirect_url" state)
      else deliver env settings registry urlparse network t d now

  abbrev for_profile : Bytes → Fields → ConsumerProfile → Exec Json
  for_profile jpeg metadata profile =
      gets (λ s. read_callback_state env settings registry urlparse network s t)
      >>= answer_with (delivery jpeg metadata profile)

  abbrev with_metadata : Bytes → Fields → Exec Json
  with_metadata jpeg metadata =
      lift (or_raise (consumer_of metadata) (api integration_not_configured))
      >>= for_profile jpeg metadata

  abbrev with_portrait : Bytes → Exec Json
  with_portrait jpeg = asks (λ s. read_transaction_json env s t) >>= with_metadata jpeg

  portrait_keeps :
      (s s' : World) (b : Bytes)
      → read_portrait_with_integrity env settings registry urlparse network t s ≡ (ok b, s')
      → (s' ≡ s) × (read_artifact env s t portrait_processed ≡ ok b)
  unfolding read_portrait_with_integrity read_artifact
  portrait_keeps s s' b h = elim (Result-cases (read_artifact env s t portrait_processed)) [
    | inl (c, e) ↦ (ground (arith, e, h), ground (arith, e, h))
    | inr (x, e) ↦ absurd (ground (arith, e, h))
  ]

  for_profile-ok :
      (jpeg : Bytes) (metadata : Fields) (profile : ConsumerProfile) (s s' : World) (v : Json)
      → read_artifact env s t portrait_processed ≡ ok jpeg
      → read_transaction_json env s t ≡ ok metadata
      → consumer_of metadata ≡ some profile
      → for_profile jpeg metadata profile s ≡ (ok v, s')
      → IsAnswered s s' v
  for_profile-ok jpeg metadata profile s s' v portrait meta known h =
      let d = delivery jpeg metadata profile in
      let answered : Bool → Type 0 = λ b.
        (if b
            then pure (get "redirect_url" (callback_record s))
            else deliver env settings registry urlparse network t d now)
          s
        ≡ (ok v, s') in
      elim (Bool-cases (eq_text (get "state" (callback_record s)) "ACKNOWLEDGED")) [
        | inl old ↦ inl (cc (subst answered old h), old, cc (subst answered old h))
        | inr new ↦ inr (record {
          jpeg = jpeg;
          metadata = metadata;
          profile = profile;
          portrait_read = portrait;
          metadata_read = meta;
          is_registered = known;
          is_posted =
              deliver-IsPosted env settings registry urlparse network t now d s s' v
                (subst answered new h);
        })
      ]

  known_consumer :
      (o : Option ConsumerProfile) (s s' : World) (p : ConsumerProfile)
      → lift (or_raise o (api integration_not_configured)) s ≡ (ok p, s')
      → (o ≡ some p) × (s' ≡ s)
  known_consumer o s s' p h = ground arith

  read_keeps :
      (s s' : World) (m : Fields)
      → asks (λ w. read_transaction_json env w t) s ≡ (ok m, s')
      → (s' ≡ s) × (read_transaction_json env s t ≡ ok m)
  read_keeps s s' m h = (cc h, cc h)

  pub submit_delivery-ok :
      (s s' : World) (v : Json)
      → submit_delivery env settings registry urlparse network t decision now s ≡ (ok v, s')
      → IsAnswered s s' v
  unfolding submit_delivery
  submit_delivery-ok s s' v h =
      let (jpeg, s1, h1, k1) =
        bind-ok (read_portrait_with_integrity env settings registry urlparse network t)
          with_portrait s h in
      let (m, s2, h2, k2) =
        bind-ok (asks (λ w. read_transaction_json env w t)) (with_metadata jpeg) s1 k1 in
      let (p, s3, h3, k3) =
        bind-ok (lift (or_raise (consumer_of m) (api integration_not_configured)))
          (for_profile jpeg m) s2 k2 in
      let (known, same3) = known_consumer (consumer_of m) s2 s3 p h3 in
      let (same1, portrait) = portrait_keeps s s1 jpeg h1 in
      let (same2, meta) = read_keeps s1 s2 m h2 in
      let same = same3 ∙ (same2 ∙ same1) in
      for_profile-ok jpeg m p s s' v portrait
        (subst (λ w. read_transaction_json env w t ≡ ok m) same1 meta) known
        (subst (λ w. for_profile jpeg m p w ≡ (ok v, s')) same k3)

module _ (env : Env) (settings : Settings) (registry : Registry)
    (urlparse : String → Option ParsedUrl) (network : Network) where
  -- A submit that returns was made in an active session, for a transaction that is not terminal,
  -- has a stored decision, a current canonical PASS and the portrait it authorized. Either the
  -- delivery was acknowledged before: then nothing is written but the transaction's folder, and
  -- the answer is the recorded redirect. Or the consumer that the transaction's metadata name,
  -- which is registered, was posted the event of the transaction with that decision and the stored
  -- portrait, once and at most callback_max_retries times more, each time as the same request and
  -- as the only new posts; the last post was answered with a status from 200 to 299 and a JSON
  -- body; the transaction is COMPLETED, the callback state is ACKNOWLEDGED, and the redirect
  -- recorded and answered is the body's, which the consumer's profile allows.
  pub submit-IsAnswered :
      (req : Request) (s s' : World) (v : Json)
      → browser_submit env settings registry urlparse network req s ≡ (ok v, s')
      → (t : TxId) × (r : Fields) × (d : DecisionRecord) × IsSession env req s t r
        × (read_decision env s t ≡ some d)
        × IsReady env settings registry urlparse network s t
        × IsAnswered env settings registry urlparse network t d req.now (make_folder t s) s' v
  unfolding browser_submit
  submit-IsAnswered req s s' v h =
      let (t, s1, h1, h2) =
        bind-ok (authorize env req) (submit_for env settings registry urlparse network req) s h in
      let (same, r, session) = authorize-ok env req s s1 t h1 in
      let (d, ready, found, done) =
        checked env settings registry urlparse network req t s1 s' v h2 in
      let answered =
        submit_delivery-ok env settings registry urlparse network t d req.now (make_folder t s1) s'
          v done in
      (
        t,
        r,
        d,
        session,
        subst (λ w. read_decision env w t ≡ some d) same
            (sym (read_decision-make_folder env t s1) ∙ found),
        subst (λ w. IsReady env settings registry urlparse network w t) same ready,
        subst
            (λ w.
              IsAnswered env settings registry urlparse network t d req.now (make_folder t w) s' v)
            same answered,
      )
