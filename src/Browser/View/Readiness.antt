-- ===== src/Browser/View/Readiness.antt =====
-- When the view of a session says that a submission is ready.
use mathlib.Core.Path.{subst}
use live_photo_llm.Prelude.{
  ℕ, Bool, true, false, Option, none, some, ◌≡◌, ◌∙◌, refl, sym, ap, arith, str_eq, ◌&&◌,
  Bool-cases, inl, inr,
}
use live_photo_llm.Python.{Json, bool, Fields, Env, get, eq_text}
use live_photo_llm.State.{World, Result, ok, gets, lift, ◌>>=◌}
use live_photo_llm.State.Inversion.{bind-ok}
use live_photo_llm.Settings.{Settings}
use live_photo_llm.Transactions.Ids.{TxId}
use live_photo_llm.Integrations.Consumers.{Registry}
use live_photo_llm.Integrations.Session.{resolve_browser_session, session_transaction}
use live_photo_llm.Liveness.Binding.{has_current_canonical_pass, portrait_authorization_current}
use live_photo_llm.Browser.View.{
  ViewRequest, AttemptSummary, read_attempt_summary, submission_ready, active_fields, active_view,
  record_view, browser_session,
}

module _ (env : Env) (settings : Settings) (registry : Registry) where
  summary_keeps :
      (t : TxId) (limit now : ℕ) (summary : AttemptSummary) (s s' : World)
      → read_attempt_summary env t limit now s ≡ (ok summary, s')
      → s' ≡ s
  unfolding read_attempt_summary
  summary_keeps t limit now summary s s' h = ground arith

  -- The session's own transaction has a current PASS and a portrait authorized for it.
  pub record IsReady (r : Fields) (s : World) : Type 0 where
    pub transaction : TxId
    pub names : session_transaction env r ≡ ok transaction
    pub has_pass : has_current_canonical_pass env s transaction ≡ true
    pub has_portrait : portrait_authorization_current env s transaction ≡ true

  abbrev truth : Json → Bool
  truth (bool b) = b
  truth _ = false

  both : (a b : Bool) → (a && b) ≡ true → (a ≡ true) × (b ≡ true)
  both true true h = (refl, refl)
  both true false h = absurd (cc h)
  both false b h = absurd (cc h)

  shown_ready :
      (t : TxId) (summary : AttemptSummary) (view : Fields) (s : World)
      → active_fields env settings registry s t summary ≡ view
      → get "submission_ready" view ≡ bool true
      → (has_current_canonical_pass env s t ≡ true)
        × (portrait_authorization_current env s t ≡ true)
  unfolding get submission_ready
  shown_ready t summary view s e h =
      both (has_current_canonical_pass env s t) (portrait_authorization_current env s t)
        (ap (λ f. truth (get "submission_ready" f)) e ∙ ap truth h)

  active_view-IsReady :
      (now : ℕ) (r view : Fields) (s s' : World)
      → active_view env settings registry now r s ≡ (ok view, s')
      → get "submission_ready" view ≡ bool true
      → (s' ≡ s) × IsReady r s
  unfolding get submission_ready
  active_view-IsReady now r view s s' h ready =
      let limit = settings.capture_attempt_limit in
      let (t, s1, h1, k1) =
        bind-ok (lift (session_transaction env r))
          (λ t. read_attempt_summary env t limit now >>= λ summary.
            gets (λ s. active_fields env settings registry s t summary))
          s h in
      let (summary, s2, h2, k2) =
        bind-ok (read_attempt_summary env t limit now)
          (λ summary. gets (λ s. active_fields env settings registry s t summary)) s1 k1 in
      let kept1 : s1 ≡ s = sym (ap (λ (p : Result TxId × World). p.1) h1) in
      let kept2 : s2 ≡ s1 = summary_keeps t limit now summary s1 s2 h2 in
      let kept3 : s' ≡ s2 = sym (ap (λ (p : Result Fields × World). p.1) k2) in
      let kept : s2 ≡ s = kept2 ∙ kept1 in
      let (pass, portrait) = shown_ready t summary view s2 (ground (arith, k2)) ready in
      (
        kept3 ∙ kept,
        record {
          transaction = t;
          names = ap (λ (p : Result TxId × World). p.0) h1;
          has_pass = subst (λ w. has_current_canonical_pass env w t ≡ true) kept pass;
          has_portrait = subst (λ w. portrait_authorization_current env w t ≡ true) kept portrait;
        },
      )

  record_view-IsReady :
      (now : ℕ) (o : Option Fields) (view : Fields) (s s' : World)
      → record_view env settings registry now o s ≡ (ok view, s')
      → get "submission_ready" view ≡ bool true
      → (s' ≡ s)
        × (r : Fields) × (o ≡ some r)
        × (eq_text (get "mode" r) "TERMINAL" ≡ false)
        × IsReady r s
  unfolding get
  record_view-IsReady now none view s s' h ready = absurd (ground (arith, h, ready))
  record_view-IsReady now (some r) view s s' h ready =
      elim (Bool-cases (eq_text (get "mode" r) "TERMINAL")) [
        | inl e ↦ absurd (ground (arith, e, h, ready))
        | inr e ↦
            let (kept, is_ready) =
              active_view-IsReady now r view s s' (ground (arith, e, h)) ready in
            (kept, r, refl, e, is_ready)
      ]

  resolved :
      (req : ViewRequest) (view : Fields) (s s' : World)
      → browser_session env settings registry req s ≡ (ok view, s')
      → get "submission_ready" view ≡ bool true
      → (resolve_browser_session env req.session_cookie req.now
            >>= record_view env settings registry req.now)
          s
        ≡ (ok view, s')
  unfolding browser_session get
  resolved req view s s' h ready = elim (Bool-cases (str_eq req.outcome_cookie "INVALID")) [
    | inl e ↦ absurd (ground (arith, e, h, ready))
    | inr e ↦ elim (Bool-cases (str_eq req.outcome_cookie "EXPIRED")) [
      | inl e' ↦ absurd (ground (arith, e, e', h, ready))
      | inr e' ↦ ground (arith, e, e', h)
    ]
  ]

  -- The view of a session says that a submission is ready only for a session that is in force and
  -- not TERMINAL, whose transaction has a current canonical PASS and the portrait authorized for
  -- it.
  pub browser_session-IsReady :
      (req : ViewRequest) (view : Fields) (s s' : World)
      → browser_session env settings registry req s ≡ (ok view, s')
      → get "submission_ready" view ≡ bool true
      → (r : Fields) × (resolve_browser_session env req.session_cookie req.now s
          ≡ (ok (some r), s'))
        × (eq_text (get "mode" r) "TERMINAL" ≡ false)
        × IsReady r s'
  unfolding browser_session get
  browser_session-IsReady req view s s' h ready =
      let (o, s1, h1, k1) =
        bind-ok (resolve_browser_session env req.session_cookie req.now)
          (record_view env settings registry req.now) s (resolved req view s s' h ready) in
      let (kept, r, found, not_terminal, is_ready) =
        record_view-IsReady req.now o view s1 s' k1 ready in
      (
        r,
        h1 ∙ (λ i. (ok (found i), sym kept i)),
        not_terminal,
        subst (IsReady r) (sym kept) is_ready,
      )
