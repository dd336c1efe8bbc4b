-- ===== src/Browser/Submit/Once.antt =====
-- What a submit that returns has done, and why a second one delivers nothing.
use mathlib.Core.Path.{subst}
use live_photo_llm.Prelude.{
  ℕ, suc, ◌+◌, ◌≤◌, ◌<◌, ap, refl, ◌∙◌, String, Bool, true, false, Option, none, some, ◌≡◌, arith,
  if◌then◌else◌, inl, inr, Bool-cases,
}
use live_photo_llm.Python.{Env, Json, text, as_fields}
use live_photo_llm.State.{
  Post, World, Exec, Result, ok, err, Error, api, callback_transport, callback_terminal,
  invalid_redirect,
}
use live_photo_llm.Settings.{Settings}
use live_photo_llm.Transactions.Ids.{TxId}
use live_photo_llm.Transactions.Store.{put, set_status, update_transaction_status}
use live_photo_llm.Integrations.Index.{index_delete}
use live_photo_llm.Integrations.Callback.Retries.{post_times, send_callback_acknowledged}
use live_photo_llm.Integrations.Consumers.{ConsumerProfile, Registry}
use live_photo_llm.Integrations.Callback.{
  Network, ParsedUrl, CallbackDelivery, send_callback, response, redirect_of,
}
use live_photo_llm.Browser.Submit.Completion.{IsDelivered, record_success-ok}
use live_photo_llm.Browser.Submit.{
  Delivery, is_bad_redirect, redirect_text, record_success, record_failure, conclude, deliver,
  revoke_after_completion,
}

module _ (env : Env) (settings : Settings) (registry : Registry)
    (urlparse : String → Option ParsedUrl) (network : Network) (t : TxId) (now : ℕ) where
  failure_raises :
      (event_id : String) (b : Bool) (x : Error) (s s' : World) (v : Json)
      → record_failure env settings registry urlparse network t event_id b now x s ≡ (ok v, s')
      → ⊥
  unfolding record_failure update_transaction_status
  failure_raises event_id b x s s' v h = ground arith

  success_posts :
      (event_id url : String) (s s' : World) (v : Json)
      → record_success env settings registry urlparse network t event_id url now s ≡ (ok v, s')
      → s'.posts ≡ s.posts
  unfolding record_success update_transaction_status revoke_after_completion index_delete put
      set_status
  success_posts event_id url s s' v h = ground arith

  -- A delivery that is concluded well was recorded with the redirect it was answered with, and the
  -- redirect was allowed.
  abbrev pub IsConcluded : ConsumerProfile → String → Option String → World → Json → Type 0
  IsConcluded profile event_id o s' v =
      (url : String) × (o ≡ some url)
      × IsDelivered env settings registry urlparse network t now event_id url s'
      × (v ≡ text url)
      × (is_bad_redirect env settings registry urlparse network profile (some url) ≡ false)

  abbrev redirected : ConsumerProfile → String → Option String → Bool → Exec Json
  redirected profile event_id o bad =
      if bad
      then record_failure env settings registry urlparse network t event_id false now
          (api invalid_redirect)
      else record_success env settings registry urlparse network t event_id (redirect_text o) now

  redirected-ok :
      (profile : ConsumerProfile) (event_id : String) (o : Option String) (s s' : World) (v : Json)
      → redirected profile event_id o
          (is_bad_redirect env settings registry urlparse network profile o)
          s
        ≡ (ok v, s')
      → IsConcluded profile event_id o s' v × (s'.posts ≡ s.posts)
  redirected-ok profile event_id none s s' v h =
      absurd (failure_raises event_id false (api invalid_redirect) s s' v h)
  redirected-ok profile event_id (some url) s s' v h =
      elim (Bool-cases
        (is_bad_redirect env settings registry urlparse network profile (some url))) [
          | inl bad ↦ absurd (
              failure_raises event_id false (api invalid_redirect) s s' v
                (subst (λ b. redirected profile event_id (some url) b s ≡ (ok v, s')) bad h))
          | inr good ↦
              let (done, same) =
                record_success-ok env settings registry urlparse network t now event_id url s s' v
                  (subst (λ b. redirected profile event_id (some url) b s ≡ (ok v, s')) good h) in
              (
                (url, refl, done, same, good),
                success_posts event_id url s s' v
                    (subst (λ b. redirected profile event_id (some url) b s ≡ (ok v, s')) good h),
              )
        ]

  -- What a conclusion that returned follows.
  abbrev IsAcknowledged :
      ConsumerProfile → String → Result CallbackDelivery → World → World → Json → Type 0
  IsAcknowledged profile event_id r s s' v =
      (c : CallbackDelivery) × (r ≡ ok c)
      × (IsConcluded profile event_id c.redirect_url s' v × (s'.posts ≡ s.posts))

  conclude-ok :
      (profile : ConsumerProfile) (event_id : String) (r : Result CallbackDelivery) (s s' : World)
      (v : Json)
      → conclude env settings registry urlparse network t profile event_id now r s ≡ (ok v, s')
      → IsAcknowledged profile event_id r s s' v
  unfolding conclude
  conclude-ok profile event_id (err callback_transport) s s' v h =
      absurd (failure_raises event_id true _ s s' v h)
  conclude-ok profile event_id (err callback_terminal) s s' v h =
      absurd (failure_raises event_id false _ s s' v h)
  conclude-ok profile event_id (err _) s s' v h = absurd (cc h)
  conclude-ok profile event_id (ok d) s s' v h =
      (d, refl, redirected-ok profile event_id d.redirect_url s s' v h)

  abbrev sent : Delivery → World → Result CallbackDelivery × World
  sent d s =
      send_callback env network settings.callback_max_retries d.profile d.event_id d.payload s

  -- The request of a delivery.
  abbrev pub post_of : Delivery → Post
  post_of d = record {
    url = d.profile.callback.url;
    idempotency_key = d.event_id;
    payload = d.payload;
  }

  -- The delivery was posted, at most so many times more than once and as the same request each
  -- time; the last post was answered with a status from 200 to 299 and a JSON body; the redirect
  -- of that body is allowed for the consumer, and it is what is recorded and answered.
  pub record IsPosted (d : Delivery) (s s' : World) (v : Json) : Type 0 where
    pub retries : ℕ
    pub within : retries ≤ settings.callback_max_retries
    pub status : ℕ
    pub body : Json
    pub is_answer : network (1 + retries) ≡ response status (some body)
    pub at_least : 200 ≤ status
    pub below : status < 300
    pub posted : s'.posts ≡ (post_times (suc retries) (post_of d) s).posts
    pub concluded : IsConcluded d.profile d.event_id (redirect_of (as_fields body)) s' v

  pub deliver-IsPosted :
      (d : Delivery) (s s' : World) (v : Json)
      → deliver env settings registry urlparse network t d now s ≡ (ok v, s')
      → IsPosted d s s' v
  unfolding deliver
  deliver-IsPosted d s s' v h =
      let (c, e, both) = conclude-ok d.profile d.event_id (sent d s).0 (sent d s).1 s' v h in
      let (retries, body, within, at, low, high, redirect, posted) =
        send_callback_acknowledged env network settings.callback_max_retries d.profile d.event_id
          d.payload s (sent d s).1 c (λ i. (e i, (sent d s).1)) in
      record {
        retries = retries;
        within = within;
        status = c.status_code;
        body = body;
        is_answer = at;
        at_least = low;
        below = high;
        posted = both.1 ∙ ap (λ (w : World). w.posts) posted;
        concluded = subst (λ o. IsConcluded d.profile d.event_id o s' v) redirect both.0;
      }
