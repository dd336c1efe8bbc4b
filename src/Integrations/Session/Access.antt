-- ===== src/Integrations/Session/Access.antt =====
-- What a request needs to be let through, and what the check changes.
use live_photo_llm.Prelude.{true, false, Option, some, ◌≡◌, ◌∙◌, refl, arith, str_eq}
use live_photo_llm.Python.{Env, Fields, text, get, get_or, eq_text}
use live_photo_llm.State.{World, ok, browser_sessions, lift, ◌>>◌}
use live_photo_llm.State.Inversion.{bind-ok, bind-from}
use live_photo_llm.Transactions.Ids.{TxId}
use live_photo_llm.Integrations.Index.{index_get, index_delete}
use live_photo_llm.Integrations.Session.{if_session_active, is_true}
use live_photo_llm.Integrations.Session.{
  Request, authorize, require_active_session, require_csrf, resolve_browser_session,
  session_transaction, is_expired, token_hash, verify_csrf,
}

module _ (env : Env) (req : Request) where
  -- A session that is found and let through was not touched.
  pub resolve-keeps :
      (s s' : World) (r : Fields)
      → resolve_browser_session env req.session_cookie req.now s ≡ (ok (some r), s')
      → (s' ≡ s)
        × (index_get env s browser_sessions (token_hash env req.session_cookie) ≡ ok (some r))
        × (is_expired env req.now (get_or "expires_at" (text "") r) ≡ false)
        × (str_eq req.session_cookie "" ≡ false)
        × (is_true env (get "revoked" r) ≡ false)
  unfolding resolve_browser_session
  resolve-keeps s s' r h = ground arith

  active-ok :
      (o : Option Fields) (s s' : World) (r : Fields)
      → if_session_active env o s ≡ (ok r, s')
      → (o ≡ some r) × (s' ≡ s) × (eq_text (get "mode" r) "ACTIVE" ≡ true)
  active-ok o s s' r h = ground arith

  csrf-ok :
      (r : Fields) (s s' : World) (t : TxId)
      → (require_csrf env req r >> lift (session_transaction env r)) s ≡ (ok t, s')
      → (s' ≡ s) × (verify_csrf env r req.csrf_header ≡ true) × (session_transaction env r ≡ ok t)
  unfolding require_csrf
  csrf-ok r s s' t h = ground arith

  -- The record of the session that lets a request act on a transaction.
  pub record IsSession (s : World) (t : TxId) (r : Fields) : Type 0 where
    pub has_cookie : str_eq req.session_cookie "" ≡ false
    pub found : index_get env s browser_sessions (token_hash env req.session_cookie) ≡ ok (some r)
    pub not_revoked : is_true env (get "revoked" r) ≡ false
    pub is_fresh : is_expired env req.now (get_or "expires_at" (text "") r) ≡ false
    pub is_active : eq_text (get "mode" r) "ACTIVE" ≡ true
    pub csrf_matches : verify_csrf env r req.csrf_header ≡ true
    pub names : session_transaction env r ≡ ok t

  -- A mutation is let through only by a session that is in the index, has not expired, is ACTIVE and
  -- is bound to the CSRF token presented; it acts on the session's own transaction, and the check
  -- changes nothing.
  pub authorize-ok :
      (s s' : World) (t : TxId)
      → authorize env req s ≡ (ok t, s')
      → (s' ≡ s) × (r : Fields) × IsSession s t r
  unfolding authorize require_active_session
  authorize-ok s s' t h =
      let (r, s1, h1, h2) =
        bind-ok (require_active_session env req)
          (λ r. require_csrf env req r >> lift (session_transaction env r)) s h in
      let (o, s2, h3, h4) =
        bind-ok (resolve_browser_session env req.session_cookie req.now) (if_session_active env) s
          h1 in
      let (same_record, kept1, mode) = active-ok o s2 s1 r h4 in
      let (kept2, csrf, tx) = csrf-ok r s1 s' t h2 in
      let (kept, entry, fresh, cookie, unrevoked) = resolve-keeps s s2 r (cc (h3, same_record)) in
      (
        kept2 ∙ (kept1 ∙ kept),
        r,
        record {
          has_cookie = cookie;
          found = entry;
          not_revoked = unrevoked;
          is_fresh = fresh;
          is_active = mode;
          csrf_matches = csrf;
          names = tx;
        },
      )

  -- A session that is in the index, not revoked and not expired is found, and nothing changes.
  pub resolve-found :
      (s : World) (r : Fields)
      → str_eq req.session_cookie "" ≡ false
      → index_get env s browser_sessions (token_hash env req.session_cookie) ≡ ok (some r)
      → is_true env (get "revoked" r) ≡ false
      → is_expired env req.now (get_or "expires_at" (text "") r) ≡ false
      → resolve_browser_session env req.session_cookie req.now s ≡ (ok (some r), s)
  unfolding resolve_browser_session
  resolve-found s r cookie found unrevoked fresh = ground arith

  checked_token :
      (s : World) (t : TxId) (r : Fields)
      → IsSession s t r
      → (require_csrf env req r >> lift (session_transaction env r)) s ≡ (ok t, s)
  unfolding require_csrf
  checked_token s t r h = rw (h.csrf_matches, h.names) refl

  -- Such a session is let through, and nothing changes.
  pub authorize-session :
      (s : World) (t : TxId) (r : Fields) → IsSession s t r → authorize env req s ≡ (ok t, s)
  unfolding authorize require_active_session
  authorize-session s t r h =
      bind-from (require_active_session env req)
        (λ r. require_csrf env req r >> lift (session_transaction env r)) s
        (bind-from (resolve_browser_session env req.session_cookie req.now) (if_session_active env)
            s (resolve-found s r h.has_cookie h.found h.not_revoked h.is_fresh)
          ∙ rw h.is_active refl)
      ∙ checked_token s t r h

  posts-resolve :
      (s : World) → (resolve_browser_session env req.session_cookie req.now s).1.posts ≡ s.posts
  unfolding resolve_browser_session index_delete
  posts-resolve s = ground arith

  -- No callback is posted by the check.
  pub posts-authorize : (s : World) → (authorize env req s).1.posts ≡ s.posts
  unfolding authorize
  posts-authorize s = ground (arith, posts-resolve s)
