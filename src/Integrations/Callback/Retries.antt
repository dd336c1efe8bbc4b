-- ===== src/Integrations/Callback/Retries.antt =====
-- How often a callback is posted, and which answers end the retries.
use mathlib.Core.Path.{subst}
use live_photo_llm.Prelude.{
  ℕ, zero, suc, ◌+◌, String, false, none, some, ◌≡◌, ◌∙◌, refl, sym, ap, arith, Bool-cases, ◌⊎◌,
  inl, inr, ◌≤◌, ◌<◌,
}
use live_photo_llm.Python.{Env, Fields, Json, as_fields}
use live_photo_llm.State.{Post, World, Result, ok, err, callback_transport}
use live_photo_llm.Integrations.Consumers.{ConsumerProfile}
use live_photo_llm.Integrations.Callback.{
  Network, HttpOutcome, network_error, response, CallbackDelivery, Round, again, stop, round_of,
  send_loop, send_callback, lacks_bearer, add_post, redirect_of,
}

Round-cases : (r : Round) → (r ≡ again) ⊎ ((x : Result CallbackDelivery) × (r ≡ stop x))
Round-cases again = inl refl
Round-cases (stop x) = inr (x, refl)

-- What the caller is given after the last round.
abbrev pub answer : Round → Result CallbackDelivery
answer again = err callback_transport
answer (stop r) = r

-- The same request, posted so many times.
unfoldable pub post_times : ℕ → Post → World → World
post_times zero p s = s
post_times (suc n) p s = post_times n p (add_post p s)

-- The rounds of a call: all but the last are transient failures, and the last is one only where
-- no retry is left.
pub record IsSent (network : Network) (p : Post) (left attempt : ℕ) (s : World)
    (out : Result CallbackDelivery × World) : Type 0 where
  pub retries : ℕ
  pub within : retries ≤ left
  pub earlier : (j : ℕ) → j < retries → round_of (network (attempt + j)) ≡ again
  pub last : round_of (network (attempt + retries)) ≡ again → retries ≡ left
  pub answered : out.0 ≡ answer (round_of (network (attempt + retries)))
  pub posted : out.1 ≡ post_times (suc retries) p s

module _ (network : Network) (p : Post) where
  IsSent-at_once :
      (left attempt : ℕ) (s : World) (out : Result CallbackDelivery × World)
      → (round_of (network attempt) ≡ again → 0 ≡ left)
      → out ≡ (answer (round_of (network attempt)), add_post p s)
      → IsSent network p left attempt s out
  unfolding post_times
  IsSent-at_once left attempt s out last e = record {
    retries = 0;
    within = omega arith;
    earlier = λ j h. absurd (omega arith);
    last = λ h. last (subst (λ n. round_of (network n) ≡ again) (omega arith) h);
    answered =
        ap (λ (o : Result CallbackDelivery × World). o.0) e
        ∙ ap (λ n. answer (round_of (network n))) (omega arith);
    posted = ap (λ (o : Result CallbackDelivery × World). o.1) e;
  }

  earlier_later :
      (attempt retries : ℕ)
      → round_of (network attempt) ≡ again
      → ((j : ℕ) → j < retries → round_of (network (suc attempt + j)) ≡ again)
      → (j : ℕ) → j < suc retries
      → round_of (network (attempt + j)) ≡ again
  earlier_later attempt retries e h zero l =
      subst (λ n. round_of (network n) ≡ again) (omega arith) e
  earlier_later attempt retries e h (suc j) l =
      subst (λ n. round_of (network n) ≡ again) (omega arith) (h j (omega arith))

  IsSent-later :
      (left attempt : ℕ) (s : World) (out : Result CallbackDelivery × World)
      → round_of (network attempt) ≡ again
      → IsSent network p left (suc attempt) (add_post p s) out
      → IsSent network p (suc left) attempt s out
  unfolding post_times
  IsSent-later left attempt s out e h =
      let moved : suc attempt + h.retries ≡ attempt + suc h.retries = omega arith in
      record {
        retries = suc h.retries;
        within = omega (arith, h.within);
        earlier = earlier_later attempt h.retries e h.earlier;
        last = λ k. ap suc (h.last (subst (λ n. round_of (network n) ≡ again) (sym moved) k));
        answered = h.answered ∙ ap (λ n. answer (round_of (network n))) moved;
        posted = h.posted;
      }

  send_loop-again :
      (left attempt : ℕ) (s : World)
      → round_of (network attempt) ≡ again
      → send_loop network p (suc left) attempt s
        ≡ send_loop network p left (suc attempt) (add_post p s)
  unfolding send_loop
  send_loop-again left attempt s e = rw (e, send_loop) refl

  send_loop-stop :
      (left attempt : ℕ) (s : World) (x : Result CallbackDelivery)
      → round_of (network attempt) ≡ stop x
      → send_loop network p (suc left) attempt s ≡ (x, add_post p s)
  unfolding send_loop
  send_loop-stop left attempt s x e = rw (e, send_loop) refl

  send_loop-IsSent :
      (left attempt : ℕ) (s : World)
      → IsSent network p left attempt s (send_loop network p left attempt s)
  unfolding send_loop
  send_loop-IsSent zero attempt s =
      IsSent-at_once zero attempt s _ (λ _. refl)
        (elim (Round-cases (round_of (network attempt))) [
          | inl e ↦ rw e refl
          | inr (x, e) ↦ rw e refl
        ])
  send_loop-IsSent (suc left) attempt s = elim (Round-cases (round_of (network attempt))) [
    | inl e ↦
        subst (IsSent network p (suc left) attempt s) (sym (send_loop-again left attempt s e))
          (IsSent-later left attempt s _ e (send_loop-IsSent left (suc attempt) (add_post p s)))
    | inr (x, e) ↦
        IsSent-at_once (suc left) attempt s (send_loop network p (suc left) attempt s)
          (λ h. absurd (cc (h, e)))
          (send_loop-stop left attempt s x e ∙ ap (λ r. (answer r, add_post p s)) (sym e))
  ]

-- Where the consumer's secret is configured or not needed, a callback is posted once and once more
-- after each transient failure, at most max_retries times more; all posts are the same request
-- with the same idempotency key; the answer is that of the last post, which is transient only
-- where no retry was left.
pub send_callback_retries :
    (env : Env) (network : Network) (max_retries : ℕ) (profile : ConsumerProfile)
    (event_id : String) (payload : Fields) (s : World)
    → lacks_bearer env profile ≡ false
    → IsSent network
        (record { url = profile.callback.url; idempotency_key = event_id; payload = payload })
        max_retries
        1
        s
        (send_callback env network max_retries profile event_id payload s)
unfolding send_callback
send_callback_retries env network max_retries profile event_id payload s e =
    rw e (send_loop-IsSent network _ max_retries 1 s)

accepted_round :
    (o : HttpOutcome) (d : CallbackDelivery)
    → answer (round_of o) ≡ ok d
    → (b : Json) × (o ≡ response d.status_code (some b))
      × (200 ≤ d.status_code)
      × (d.status_code < 300)
      × (d.redirect_url ≡ redirect_of (as_fields b))
unfolding round_of
accepted_round network_error d h = absurd (cc h)
accepted_round (response status none) d h = absurd (ground arith)
accepted_round (response status (some b)) d h =
    (b, ground arith, ground arith, ground arith, ground arith)

-- A delivery that is reported was answered with a JSON body and the reported status, which is from
-- 200 to 299, by the last of at most max_retries + 1 equal posts, and its redirect is the one in
-- that body.
pub send_callback_acknowledged :
    (env : Env) (network : Network) (max_retries : ℕ) (profile : ConsumerProfile)
    (event_id : String) (payload : Fields) (s s' : World) (d : CallbackDelivery)
    → send_callback env network max_retries profile event_id payload s ≡ (ok d, s')
    → (n : ℕ) × (b : Json) × (n ≤ max_retries)
      × (network (1 + n) ≡ response d.status_code (some b))
      × (200 ≤ d.status_code)
      × (d.status_code < 300)
      × (d.redirect_url ≡ redirect_of (as_fields b))
      × (s'
          ≡ post_times
              (suc n)
              (record { url = profile.callback.url; idempotency_key = event_id; payload = payload })
              s)
unfolding send_callback
send_callback_acknowledged env network max_retries profile event_id payload s s' d h =
    elim (Bool-cases (lacks_bearer env profile)) [
      | inl lacking ↦ absurd (ground arith)
      | inr e ↦
          let i = send_callback_retries env network max_retries profile event_id payload s e in
          let (b, at, low, high, url) =
            accepted_round _ d
              (sym i.answered ∙ ap (λ (o : Result CallbackDelivery × World). o.0) h) in
          (
            i.retries,
            b,
            i.within,
            at,
            low,
            high,
            url,
            sym (ap (λ (o : Result CallbackDelivery × World). o.1) h) ∙ i.posted,
          )
    ]
