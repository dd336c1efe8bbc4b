-- ===== src/Browser/Submit/Authorization.antt =====
-- What has to hold before anything is delivered to a consumer.
use mathlib.Core.Path.{subst}
use live_photo_llm.Prelude.{
  String, true, false, Option, some, ◌≡◌, ◌∙◌, refl, sym, ap, arith, ◌⊎◌, inl, inr,
}
use live_photo_llm.Python.{Env, Fields, Json, get}
use live_photo_llm.State.{World, Exec, Result, ok, Result-cases, ◌>>=◌, ◌>>◌}
use live_photo_llm.State.Inversion.{bind-ok, bind-from}
use live_photo_llm.Settings.{Settings}
use live_photo_llm.Transactions.Ids.{TxId}
use live_photo_llm.Transactions.Store.{read}
use live_photo_llm.Transactions.Store.{lock_transaction, make_folder, read_transaction_json}
use live_photo_llm.Transactions.Decisions.{DecisionRecord, read_decision}
use live_photo_llm.Integrations.Consumers.{Registry}
use live_photo_llm.Integrations.Callback.{Network, ParsedUrl}
use live_photo_llm.Integrations.Session.{Request, authorize}
use live_photo_llm.Integrations.Session.Access.{IsSession, authorize-ok, posts-authorize}
use live_photo_llm.Liveness.Binding.{has_current_canonical_pass, portrait_authorization_current}
use live_photo_llm.Liveness.Binding.Frame.{
  has_current_canonical_pass-make_folder, portrait_authorization_current-make_folder,
}
use live_photo_llm.Browser.Common.{status_blocks}
use live_photo_llm.Browser.Submit.{submit_checks, submit_delivery, browser_submit}

module _ (env : Env) (settings : Settings) (registry : Registry)
    (urlparse : String → Option ParsedUrl) (network : Network) where
  -- The checks change nothing, and pass only for a current PASS with its own portrait, in a
  -- transaction that is not terminal.
  pub record IsReady (s : World) (t : TxId) : Type 0 where
    pub metadata : Fields
    pub is_read : read_transaction_json env s t ≡ ok metadata
    pub not_terminal : status_blocks (get "status" metadata) ≡ false
    pub has_pass : has_current_canonical_pass env s t ≡ true
    pub has_portrait : portrait_authorization_current env s t ≡ true

  submit_checks-ok :
      (t : TxId) (s s' : World) (d : DecisionRecord)
      → submit_checks env settings registry urlparse network t s ≡ (ok d, s')
      → (s' ≡ s) × IsReady s t × (read_decision env s t ≡ some d)
  unfolding submit_checks
  submit_checks-ok t s s' d h = elim (Result-cases (read_transaction_json env s t)) [
    | inl (m, e) ↦ (
      ground arith,
      record {
        metadata = m;
        is_read = e;
        not_terminal = ground arith;
        has_pass = ground arith;
        has_portrait = ground arith;
      },
      ground arith,
    )
    | inr (x, e) ↦ absurd (ground arith)
  ]

  pub submit_checks-keeps :
      (t : TxId) (s : World) → (submit_checks env settings registry urlparse network t s).1 ≡ s
  unfolding submit_checks
  submit_checks-keeps t s = ground arith

  read_transaction_json-make_folder :
      (t : TxId) (s : World)
      → read_transaction_json env (make_folder t s) t ≡ read_transaction_json env s t
  unfolding read_transaction_json read
  read_transaction_json-make_folder t s = refl

  IsReady-make_folder : (t : TxId) (s : World) → IsReady (make_folder t s) t → IsReady s t
  IsReady-make_folder t s h = record {
    metadata = h.metadata;
    is_read = sym (read_transaction_json-make_folder t s) ∙ h.is_read;
    not_terminal = h.not_terminal;
    has_pass = sym (has_current_canonical_pass-make_folder env s t t) ∙ h.has_pass;
    has_portrait = sym (portrait_authorization_current-make_folder env s t t) ∙ h.has_portrait;
  }

  abbrev pub submit_for : Request → TxId → Exec Json
  submit_for req t = do
    lock_transaction t
    decision ← submit_checks env settings registry urlparse network t
    submit_delivery env settings registry urlparse network t decision req.now

  pub checked :
      (req : Request) (t : TxId) (s s' : World) (v : Json)
      → submit_for req t s ≡ (ok v, s')
      → (d : DecisionRecord) × IsReady s t
        × (read_decision env (make_folder t s) t ≡ some d)
        × (submit_delivery env settings registry urlparse network t d req.now (make_folder t s)
            ≡ (ok v, s'))
  unfolding lock_transaction
  checked req t s s' v h =
      let (d, s2, h1, h2) =
        bind-ok (submit_checks env settings registry urlparse network t)
          (λ d. submit_delivery env settings registry urlparse network t d req.now)
          (make_folder t s) h in
      let (same, ready, found) = submit_checks-ok t (make_folder t s) s2 d h1 in
      (
        d,
        IsReady-make_folder t s ready,
        found,
        subst
            (λ w. submit_delivery env settings registry urlparse network t d req.now w ≡ (ok v, s'))
            same h2,
      )

  delivered_or_kept :
      (req : Request) (t : TxId) (s : World)
      → ((submit_for req t s).1.posts ≡ s.posts) ⊎ IsReady s t
  unfolding lock_transaction
  delivered_or_kept req t s =
      elim (Result-cases
        (submit_checks env settings registry urlparse network t (make_folder t s)).0) [
          | inl (d, e) ↦ inr (
              IsReady-make_folder t s
                (submit_checks-ok t (make_folder t s)
                  (submit_checks env settings registry urlparse network t (make_folder t s)).1 d
                  (ground (arith, e))).1)
          | inr (x, e) ↦ inl (ground (arith, e, submit_checks-keeps t (make_folder t s)))
        ]

  -- Whatever a submit ends in, no callback leaves the process unless the request has an active
  -- session bound to its CSRF token and the session's transaction is not terminal, has a current
  -- canonical PASS and the portrait it authorized.
  pub submit_posts_guarded :
      (req : Request) (s : World)
      → ((browser_submit env settings registry urlparse network req s).1.posts ≡ s.posts)
        ⊎ ((t : TxId) × (r : Fields) × IsSession env req s t r × IsReady s t)
  unfolding browser_submit
  submit_posts_guarded req s = elim (Result-cases (authorize env req s).0) [
    | inr (x, e) ↦ inl (ground (arith, e, posts-authorize env req s))
    | inl (t, e) ↦
        let (same, r, session) =
          authorize-ok env req s (authorize env req s).1 t (ground (arith, e)) in
        elim (delivered_or_kept req t s) [
          | inl kept ↦ inl (
              ap (λ (p : Result Json × World). p.1.posts)
                (bind-from (authorize env req) (submit_for req) s (λ i. (e i, same i)))
              ∙ kept)
          | inr ready ↦ inr (t, r, session, ready)
        ]
  ]
