-- ===== src/Integrations/Session/Grants.antt =====
-- What the session of a redemption lets its holder do.
use mathlib.Core.Bool.{Bool-set}
use live_photo_llm.Prelude.{
  ℕ, ◌+◌, ◌*◌, String, Bool, true, false, some, ◌≡◌, refl, ap, arith, str_eq, eq_refl, leb, ◌<◌,
}
use live_photo_llm.Python.{Env, Json, null, text, get, get_or, has_key}
use live_photo_llm.State.{
  World, Result, ok, err, api, path_error, session_terminal, browser_sessions,
}
use live_photo_llm.State.{lift, ◌>>◌}
use live_photo_llm.Integrations.Session.{require_csrf, if_session_active}
use live_photo_llm.State.Inversion.{bind-err, bind-from}
use live_photo_llm.Settings.{Settings}
use live_photo_llm.Transactions.Ids.{TxId, is_valid_transaction_id}
use live_photo_llm.Transactions.Store.{validate_transaction_id, put, lock_transaction, write_json}
use live_photo_llm.Integrations.Index.{index_get, index_put, index_read}
use live_photo_llm.Integrations.Session.{
  Request, FreshTokens, RedemptionMode, active, terminal, create_session, session_fields,
  token_hash, authorize, require_active_session, resolve_browser_session, session_transaction,
  verify_csrf, is_expired, invalidate_previous_active,
}
use live_photo_llm.Integrations.Session.Access.{authorize-session, resolve-found}

-- An id that was validated is validated again.
pub validate-name : (t : TxId) → validate_transaction_id t.name ≡ ok t
unfolding validate_transaction_id
validate-name t = go (is_valid_transaction_id t.name) refl
  where
    go :
        (b : Bool) (e : is_valid_transaction_id t.name ≡ b)
        → (elim b as (λ b. is_valid_transaction_id t.name ≡ b → Result TxId) [
          | true ↦ λ e. ok (record { name = t.name; is_valid = e })
          | false ↦ λ e. err path_error
        ])
            e
          ≡ ok t
    go true e = ap ok (λ i. record { name = t.name; is_valid = Bool-set _ _ e t.is_valid i })
    go false e = absurd (cc (e, t.is_valid))

module _ (env : Env) (settings : Settings) (t : TxId) (fresh : FreshTokens) (now : ℕ) where
  abbrev expiry : ℕ
  expiry = now + settings.browser_session_ttl_seconds * 1000000

  -- The entry of a new session.
  entry-create_session :
      (mode : RedemptionMode) (terminal_state : Json) (s : World)
      → index_get env
          (create_session env settings t mode terminal_state fresh now s).1
          browser_sessions
          (token_hash env fresh.session)
        ≡ ok (some (session_fields env settings t mode terminal_state fresh now))
  unfolding create_session lock_transaction write_json put index_get index_read index_put
      invalidate_previous_active
  entry-create_session active terminal_state s = rw eq_refl refl
  entry-create_session _ terminal_state s = rw eq_refl refl

  -- What CPython promises of the timestamp that the session was given.
  abbrev pub IsReadBack : Type 0
  IsReadBack = env.fromisoformat (env.isoformat expiry) ≡ some expiry

  not_before_expiry : (later : ℕ) → later < expiry → leb expiry later ≡ false
  not_before_expiry later h = ground arith

  fresh_entry :
      (mode : RedemptionMode) (terminal_state : Json) (later : ℕ)
      → IsReadBack
      → later < expiry
      → is_expired env later (
          get_or "expires_at"
            (text "")
            (session_fields env settings t mode terminal_state fresh now))
        ≡ false
  unfolding is_expired get_or get has_key
  fresh_entry mode terminal_state later back h = rw back (not_before_expiry later h)

  -- Until it expires, a session created by a redemption lets the holder of its two tokens act on
  -- the transaction that was launched, and the check changes nothing. The session token and the
  -- CSRF token's digest are taken not to be empty, and the expiry's timestamp to read back as the
  -- instant it was written for.
  pub session_grants :
      (later : ℕ) (s : World)
      → IsReadBack
      → later < expiry
      → str_eq fresh.session "" ≡ false
      → str_eq (token_hash env fresh.csrf) "" ≡ false
      → let s' = (create_session env settings t active null fresh now s).1 in
        authorize env
          (record { session_cookie = fresh.session; csrf_header = fresh.csrf; now = later })
          s'
        ≡ (ok t, s')
  unfolding verify_csrf session_transaction get get_or has_key
  session_grants later s back h given csrf =
      let req : Request = record {
        session_cookie = fresh.session;
        csrf_header = fresh.csrf;
        now = later;
      } in
      let s' = (create_session env settings t active null fresh now s).1 in
      authorize-session env req s' t (session_fields env settings t active null fresh now) (record {
        has_cookie = given;
        found = entry-create_session active null s;
        not_revoked = refl;
        is_fresh = fresh_entry active null later back h;
        is_active = refl;
        csrf_matches = rw csrf (eq_refl (token_hash env fresh.csrf));
        names = validate-name t;
      })

  resolve_new :
      (mode : RedemptionMode) (terminal_state : Json) (later : ℕ) (s : World)
      → IsReadBack
      → later < expiry
      → str_eq fresh.session "" ≡ false
      → let s' = (create_session env settings t mode terminal_state fresh now s).1 in
        resolve_browser_session env fresh.session later s'
        ≡ (ok (some (session_fields env settings t mode terminal_state fresh now)), s')
  unfolding get
  resolve_new mode terminal_state later s back h given =
      resolve-found env (record { session_cookie = fresh.session; csrf_header = ""; now = later })
        (create_session env settings t mode terminal_state fresh now s).1
        (session_fields env settings t mode terminal_state fresh now) given
        (entry-create_session mode terminal_state s) refl
        (fresh_entry mode terminal_state later back h)

  -- Until it expires, a TERMINAL session refuses each mutation with SESSION_TERMINAL, whatever
  -- CSRF token is presented, and the check changes nothing. The session token is taken not to be
  -- empty, and the expiry's timestamp to read back as the instant it was written for.
  pub terminal_session_refused :
      (terminal_state : Json) (csrf_header : String) (later : ℕ) (s : World)
      → IsReadBack
      → later < expiry
      → str_eq fresh.session "" ≡ false
      → let s' = (create_session env settings t terminal terminal_state fresh now s).1 in
        authorize env
          (record { session_cookie = fresh.session; csrf_header = csrf_header; now = later })
          s'
        ≡ (err (api session_terminal), s')
  unfolding authorize require_active_session get
  terminal_session_refused terminal_state csrf_header later s back h given =
      let req : Request = record {
        session_cookie = fresh.session;
        csrf_header = csrf_header;
        now = later;
      } in
      let s' = (create_session env settings t terminal terminal_state fresh now s).1 in
      bind-err (require_active_session env req)
        (λ r. require_csrf env req r >> lift (session_transaction env r)) s'
        (bind-from (resolve_browser_session env fresh.session later) (if_session_active env) s'
          (resolve_new terminal terminal_state later s back h given))
