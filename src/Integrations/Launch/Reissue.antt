-- ===== src/Integrations/Launch/Reissue.antt =====
-- A reissue ends the launches before it.
use mathlib.Core.Path.{subst}
use live_photo_llm.Prelude.{
  ℕ, String, Bool, true, false, Option, none, some, ◌≡◌, ◌∙◌, refl, sym, ap, arith, not, str_eq,
  ◌||◌, inl, inr, Bool-cases,
}
use live_photo_llm.Python.{
  Env, Fields, Json, null, bool, int, float, text, arr, obj, Items, nil, cons, get, as_text,
  eq_text, field, end,
}
use live_photo_llm.State.{
  World, Exec, Result, ok, launch_tokens, external, path_error, artifact_not_found, active_launches,
  asks, lift, raise_if, or_raise, ◌>>=◌, ◌>>◌,
}
use live_photo_llm.State.Inversion.{bind-ok, bind-from}
use live_photo_llm.Settings.{Settings}
use live_photo_llm.Transactions.Ids.{TxId}
use live_photo_llm.Transactions.Store.{
  put, write_json, lock_transaction, make_folder, read, read_json, artifact_exists,
}
use live_photo_llm.Integrations.Consumers.{ConsumerProfile}
use live_photo_llm.Integrations.Index.{
  index_get, index_put, index_delete, index_read, external_key_hash,
}
use live_photo_llm.Integrations.Launch.{
  LaunchResult, Drawn, is_valid_external_id, issue, store_launch_token, delete_token,
  revoke_entries, read_active_launches, revoke_active_launch_tokens, reissue_launch, mapped_id,
}

-- Whether an entry of the list names the token with this digest.
abbrev pub lists_token : String → Items → Bool
lists_token h nil = false
lists_token h (cons (obj f) rest) = eq_text (get "token_hash" f) h || lists_token h rest
lists_token h (cons _ rest) = lists_token h rest

module _ (env : Env) (settings : Settings) (rstrip_slash : String → String) (h : String) where
  -- The token with this digest opens nothing.
  abbrev pub IsRevoked : World → Type 0
  IsRevoked s = index_get env s launch_tokens h ≡ ok none

  deleted-IsRevoked :
      (k : String) (s : World) → IsRevoked s → IsRevoked (index_delete launch_tokens k s)
  unfolding index_get index_read index_delete
  deleted-IsRevoked k s r = elim (Bool-cases (str_eq k h)) [ inl e ↦ rw e refl | inr e ↦ rw e r ]

  token-IsRevoked :
      (v : Json) (s : World)
      → IsRevoked s
      → IsRevoked (delete_token env settings rstrip_slash (as_text v) s).1
  token-IsRevoked (text k) s r = deleted-IsRevoked k s r
  token-IsRevoked _ s r = r

  named-IsRevoked :
      (v : Json) (s : World)
      → eq_text v h ≡ true
      → IsRevoked (delete_token env settings rstrip_slash (as_text v) s).1
  unfolding index_get index_read index_delete
  named-IsRevoked (text k) s e = rw e refl
  named-IsRevoked null s e = absurd (cc e)
  named-IsRevoked (bool _) s e = absurd (cc e)
  named-IsRevoked (int _) s e = absurd (cc e)
  named-IsRevoked (float _) s e = absurd (cc e)
  named-IsRevoked (arr _) s e = absurd (cc e)
  named-IsRevoked (obj _) s e = absurd (cc e)

  delete_rest :
      (v : Json) (rest : Items) (s s' : World)
      → (delete_token env settings rstrip_slash (as_text v)
            >> revoke_entries env settings rstrip_slash rest)
          s
        ≡ (ok tt, s')
      → revoke_entries env settings rstrip_slash rest
          (delete_token env settings rstrip_slash (as_text v) s).1
        ≡ (ok tt, s')
  delete_rest (text k) rest s s' e = e
  delete_rest _ rest s s' e = e

  revoke_keeps :
      (xs : Items) (s s' : World)
      → revoke_entries env settings rstrip_slash xs s ≡ (ok tt, s')
      → IsRevoked s
      → IsRevoked s'
  unfolding revoke_entries
  revoke_keeps nil s s' e r = subst IsRevoked (ap (λ (p : Result Unit × World). p.1) e) r
  revoke_keeps (cons (obj f) rest) s s' e r =
      revoke_keeps rest (delete_token env settings rstrip_slash (as_text (get "token_hash" f)) s).1
        s' (delete_rest (get "token_hash" f) rest s s' e) (token-IsRevoked (get "token_hash" f) s r)
  revoke_keeps (cons _ rest) s s' e r = absurd (cc e)

  IsRevoked-listed :
      (xs : Items) (s s' : World)
      → revoke_entries env settings rstrip_slash xs s ≡ (ok tt, s')
      → lists_token h xs ≡ true
      → IsRevoked s'
  unfolding revoke_entries
  IsRevoked-listed nil s s' e l = absurd (cc l)
  IsRevoked-listed (cons (obj f) rest) s s' e l =
      let w = (delete_token env settings rstrip_slash (as_text (get "token_hash" f)) s).1 in
      let after = delete_rest (get "token_hash" f) rest s s' e in
      elim (Bool-cases (eq_text (get "token_hash" f) h)) [
        | inl named ↦ revoke_keeps rest w s' after (named-IsRevoked (get "token_hash" f) s named)
        | inr other ↦
            IsRevoked-listed rest w s' after (subst (λ b. (b || lists_token h rest) ≡ true) other l)
      ]
  IsRevoked-listed (cons _ rest) s s' e l = absurd (cc e)

  issue-IsRevoked :
      (t : TxId) (external_id : String) (drawn : Drawn) (now : ℕ) (s : World)
      → str_eq (env.sha256_hex (env.encode drawn.raw_token)) h ≡ false
      → IsRevoked s
      → IsRevoked (issue env settings rstrip_slash t external_id drawn now s).1
  unfolding store_launch_token write_json put index_put index_get index_read
  issue-IsRevoked t external_id drawn now s e r = ground (arith, e, r)

  module _ (profile : ConsumerProfile) (external_id : String) (drawn : Drawn) (now : ℕ) where
    abbrev launch_for : TxId → Exec LaunchResult
    launch_for t = do
      lock_transaction t
      revoke_active_launch_tokens env settings rstrip_slash t
      issue env settings rstrip_slash t external_id drawn now

    abbrev with_mapping : Fields → Exec LaunchResult
    with_mapping f = lift (mapped_id env settings rstrip_slash f) >>= launch_for

    abbrev key_hash : String
    key_hash = external_key_hash env profile.consumer_id external_id

    abbrev with_found : Option Fields → Exec LaunchResult
    with_found o = lift (or_raise o artifact_not_found) >>= with_mapping

    abbrev looked_up : Exec LaunchResult
    looked_up = asks (λ w. index_get env w external key_hash) >>= with_found

    reads_same :
        (t : TxId) (s : World)
        → read_active_launches env settings rstrip_slash (make_folder t s) t
          ≡ read_active_launches env settings rstrip_slash s t
    unfolding read_active_launches artifact_exists read_json read
    reads_same t s = refl

    tokens-IsRevoked :
        (t : TxId) (s s' : World)
        → lists_token h (read_active_launches env settings rstrip_slash s t) ≡ true
        → revoke_active_launch_tokens env settings rstrip_slash t s ≡ (ok tt, s')
        → IsRevoked s'
    unfolding revoke_active_launch_tokens write_json put index_get index_read
    tokens-IsRevoked t s s' l e =
        let xs = read_active_launches env settings rstrip_slash s t in
        let (_, s1, h1, k1) =
          bind-ok (revoke_entries env settings rstrip_slash xs)
            (λ _. write_json t active_launches (field "active" (arr nil) end)) s e in
        subst IsRevoked (ap (λ (p : Result Unit × World). p.1) k1) (IsRevoked-listed xs s s1 h1 l)

    launch_for-IsRevoked :
        (t : TxId) (r : LaunchResult) (s s' : World)
        → lists_token h (read_active_launches env settings rstrip_slash s t) ≡ true
        → str_eq (env.sha256_hex (env.encode drawn.raw_token)) h ≡ false
        → launch_for t s ≡ (ok r, s')
        → IsRevoked s'
    unfolding lock_transaction
    launch_for-IsRevoked t r s s' l other e =
        let (_, s1, h1, k1) =
          bind-ok (revoke_active_launch_tokens env settings rstrip_slash t)
            (λ _. issue env settings rstrip_slash t external_id drawn now) (make_folder t s) e in
        let gone =
          tokens-IsRevoked t (make_folder t s) s1 (ap (lists_token h) (reads_same t s) ∙ l) h1 in
        subst IsRevoked (ap (λ (p : Result LaunchResult × World). p.1) k1)
          (issue-IsRevoked t external_id drawn now s1 other gone)

    -- Where the index maps the external id of the consumer to a transaction, whose list of active
    -- launches names a token by its digest, a reissue that returns leaves that token out of the
    -- index, unless the new token has the same digest.
    pub reissue_launch-IsRevoked :
        (t : TxId) (f : Fields) (r : LaunchResult) (s s' : World)
        → index_get env s external key_hash ≡ ok (some f)
        → mapped_id env settings rstrip_slash f ≡ ok t
        → lists_token h (read_active_launches env settings rstrip_slash s t) ≡ true
        → str_eq (env.sha256_hex (env.encode drawn.raw_token)) h ≡ false
        → reissue_launch env settings rstrip_slash profile external_id drawn now s ≡ (ok r, s')
        → index_get env s' launch_tokens h ≡ ok none
    unfolding reissue_launch
    reissue_launch-IsRevoked t f r s s' entry known l other e =
        let (_, s1, h1, k1) =
          bind-ok (raise_if (not (is_valid_external_id external_id)) path_error) (λ _. looked_up) s
            e in
        let same : s1 ≡ s = sym (ap (λ (p : Result Unit × World). p.1) h1) in
        let k : looked_up s ≡ (ok r, s') = ap looked_up (sym same) ∙ k1 in
        let found =
          bind-from (asks (λ w. index_get env w external key_hash)) with_found s
            (λ i. (entry i, s)) in
        let named =
          bind-from (lift (mapped_id env settings rstrip_slash f)) launch_for s
            (λ i. (known i, s)) in
        launch_for-IsRevoked t r s s' l other (sym named ∙ (sym found ∙ k))
