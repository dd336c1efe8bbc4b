-- ===== src/Integrations/Launch/Launched.antt =====
-- What a launch leaves in the store and in the index.
use mathlib.Core.Path.{subst}
use live_photo_llm.Prelude.{
  ◌+◌, ℕ, String, Bool, true, false, Bool-cases, inl, inr, str_eq, some, ◌≡◌, ◌∙◌, refl, sym, ap,
  arith, not, is_some, eq_refl,
}
use live_photo_llm.Python.{Env, Fields}
use live_photo_llm.State.{
  World, Result, ok, err, external, launch_tokens, transaction_exists, path_error, asks, raise_if,
  attempts_json, ◌>>=◌,
}
use live_photo_llm.State.Inversion.{bind-ok}
use live_photo_llm.Settings.{Settings}
use live_photo_llm.Transactions.Ids.{TxId, is_valid_transaction_id}
use live_photo_llm.Transactions.Store.{
  put, write_json, read, read_json, read_transaction_json, validate_transaction_id, artifact_exists,
  transaction_exists_at,
}
use live_photo_llm.Transactions.Generated.{generate_internal_transaction_id}
use live_photo_llm.Transactions.Generated.Fresh.{
  IsCreated, create_transaction_with_generated_id-IsCreated,
}
use live_photo_llm.Integrations.Consumers.{ConsumerProfile}
use live_photo_llm.Integrations.Index.{index_get, index_put, index_read, external_key_hash}
use live_photo_llm.Integrations.Session.{token_hash}
use live_photo_llm.Integrations.Launch.{
  LaunchSessionRequest, LaunchResult, Drawn, is_valid_external_id, claim_external, create_launch,
  issue, store_launch_token, mapping_fields, transaction_metadata, token_fields,
}
use live_photo_llm.Integrations.Launch.Unique.{
  issue_keeps, created, mapped, claim_if, launch_rest, key_hash, mapped_entry,
}

abbrev name_or : String → Result TxId → String
name_or c (ok t) = t.name
name_or c (err _) = c

-- The id of a text that was validated is that text.
pub name-validate_transaction_id :
    (c : String) (t : TxId) → validate_transaction_id c ≡ ok t → t.name ≡ c
unfolding validate_transaction_id
name-validate_transaction_id c t h = ap (name_or c) (sym h) ∙ go (is_valid_transaction_id c) refl
  where
    go :
        (b : Bool) (e : is_valid_transaction_id c ≡ b)
        → name_or c (
            (elim b as (λ b. is_valid_transaction_id c ≡ b → Result TxId) [
              | true ↦ λ e. ok (record { name = c; is_valid = e })
              | false ↦ λ e. err path_error
            ])
              e)
          ≡ c
    go true e = refl
    go false e = refl

module _ (env : Env) (settings : Settings) (rstrip_slash : String → String)
    (profile : ConsumerProfile) (req : LaunchSessionRequest) (drawn : Drawn) (now : ℕ) where
  -- The transaction is there with the metadata of the launch, and the external id leads to it.
  pub record IsClaimed (t : TxId) (s : World) : Type 0 where
    pub metadata :
        read_transaction_json env s t
        ≡ ok (transaction_metadata env settings rstrip_slash profile req now t.name)
    pub entry :
        index_get env s external (external_key_hash env profile.consumer_id req.transaction_id)
        ≡ ok (some (mapping_fields env settings rstrip_slash profile req t now))

  -- The transaction was not there, and no attempt was added to it.
  pub record IsNew (t : TxId) (s s' : World) : Type 0 where
    pub was_absent : transaction_exists_at s t ≡ false
    pub attempts : artifact_exists s' t attempts_json ≡ artifact_exists s t attempts_json

  abbrev launched : String → Fields
  launched = transaction_metadata env settings rstrip_slash profile req now

  abbrev candidate : ℕ → String
  candidate i = generate_internal_transaction_id drawn.timestamp (drawn.suffix i)

  created_metadata :
      (t : TxId) (s s' : World)
      → IsCreated candidate
          (transaction_metadata env settings rstrip_slash profile req now)
          0
          5
          s
          s'
          t
      → read_transaction_json env s' t
        ≡ ok (transaction_metadata env settings rstrip_slash profile req now t.name)
  unfolding read_transaction_json read_json read put
  created_metadata t s s' h =
      subst (λ w. read_transaction_json env w t ≡ ok (launched t.name)) (sym h.written)
        (rw eq_refl (
          ap (λ c. ok (launched c))
            (sym (name-validate_transaction_id (candidate (0 + h.collisions)) t h.named))))

  mapped_same :
      (t u : TxId) (s s' : World)
      → mapped env settings rstrip_slash profile req drawn now t s ≡ (ok u, s')
      → t ≡ u
  mapped_same t u s s' h = ground arith

  mapped_metadata :
      (t u : TxId) (s s' : World)
      → mapped env settings rstrip_slash profile req drawn now t s ≡ (ok u, s')
      → read_transaction_json env s' t ≡ read_transaction_json env s t
  unfolding read_transaction_json read_json read index_put
  mapped_metadata t u s s' h =
      ap (λ (p : Result TxId × World). read_transaction_json env p.1 t) (sym h)

  mapped_attempts :
      (t u : TxId) (s s' : World)
      → mapped env settings rstrip_slash profile req drawn now t s ≡ (ok u, s')
      → artifact_exists s' t attempts_json ≡ artifact_exists s t attempts_json
  unfolding artifact_exists read index_put
  mapped_attempts t u s s' h =
      ap (λ (p : Result TxId × World). artifact_exists p.1 t attempts_json) (sym h)

  created_attempts :
      (t : TxId) (s s' : World)
      → IsCreated candidate launched 0 5 s s' t
      → artifact_exists s' t attempts_json ≡ artifact_exists s t attempts_json
  unfolding artifact_exists read put
  created_attempts t s s' h =
      subst (λ w. artifact_exists w t attempts_json ≡ artifact_exists s t attempts_json)
        (sym h.written) (ground arith)

  pub claim_external-IsClaimed :
      (t : TxId) (s s' : World)
      → claim_external env settings rstrip_slash profile req drawn now s ≡ (ok t, s')
      → IsClaimed t s' × IsNew t s s'
  unfolding claim_external
  claim_external-IsClaimed t s s' h =
      let claim_if' = claim_if env settings rstrip_slash profile req drawn now in
      let created' = created env settings rstrip_slash profile req drawn now in
      let mapped' = mapped env settings rstrip_slash profile req drawn now in
      let (known, s1, h1, k1) =
        bind-ok
          (asks (λ w.
            index_get env w external (key_hash env settings rstrip_slash profile req drawn now)))
          claim_if' s h in
      let (_, s2, h2, k2) =
        bind-ok (raise_if (is_some known) transaction_exists) (λ _. created' >>= mapped') s1 k1 in
      let (u, s3, h3, k3) = bind-ok created' mapped' s2 k2 in
      let same : u ≡ t = mapped_same u t s3 s' k3 in
      let fresh = create_transaction_with_generated_id-IsCreated candidate launched s2 s3 u h3 in
      let unchanged : s2 ≡ s = ground (arith, h1, h2) in
      subst (λ v. IsClaimed v s' × IsNew v s s') same
        (
          record {
            metadata = mapped_metadata u t s3 s' k3 ∙ created_metadata u s2 s3 fresh;
            entry = mapped_entry env settings rstrip_slash profile req drawn now u t s3 s' k3;
          },
          subst (λ w. IsNew u w s') unchanged
              (record {
                was_absent = fresh.was_absent;
                attempts = mapped_attempts u t s3 s' k3 ∙ created_attempts u s2 s3 fresh;
              }),
        )

  issue_metadata :
      (t u : TxId) (s : World)
      → read_transaction_json env
          (issue env settings rstrip_slash t req.transaction_id drawn now s).1
          u
        ≡ read_transaction_json env s u
  unfolding store_launch_token write_json put read read_json read_transaction_json index_put
  issue_metadata t u s = ground arith

  issue_attempts :
      (t u : TxId) (s : World)
      → artifact_exists
          (issue env settings rstrip_slash t req.transaction_id drawn now s).1
          u
          attempts_json
        ≡ artifact_exists s u attempts_json
  unfolding store_launch_token write_json put read artifact_exists index_put
  issue_attempts t u s = ground arith

  issue_token :
      (t : TxId) (r : LaunchResult) (s s' : World)
      → issue env settings rstrip_slash t req.transaction_id drawn now s ≡ (ok r, s')
      → index_get env s' launch_tokens (token_hash env drawn.raw_token)
        ≡ ok (some (token_fields env settings rstrip_slash t now))
  unfolding store_launch_token write_json put index_put index_get index_read
  issue_token t r s s' h = elim (Bool-cases (str_eq settings.public_livephoto_base_url "")) [
    | inl e ↦ absurd (ground (arith, h, e))
    | inr e ↦
        ap
          (λ (p : Result LaunchResult × World).
            index_get env p.1 launch_tokens (token_hash env drawn.raw_token))
          (sym h)
        ∙ rw (e, eq_refl) refl
  ]

  -- What a launch that returned leaves: the claim, and the token that was issued.
  pub record IsLaunched (t : TxId) (s : World) : Type 0 where
    pub is_claimed : IsClaimed t s
    pub token :
        index_get env s launch_tokens (token_hash env drawn.raw_token)
        ≡ ok (some (token_fields env settings rstrip_slash t now))
    pub is_valid : is_valid_external_id req.transaction_id ≡ true

  issued-IsLaunched :
      (t : TxId) (r : LaunchResult) (s s' : World)
      → is_valid_external_id req.transaction_id ≡ true
      → IsClaimed t s
      → issue env settings rstrip_slash t req.transaction_id drawn now s ≡ (ok r, s')
      → IsLaunched t s'
  issued-IsLaunched t r s s' valid claimed h =
      let at_end : (issue env settings rstrip_slash t req.transaction_id drawn now s).1 ≡ s' =
        ap (λ (p : Result LaunchResult × World). p.1) h in
      let hash = key_hash env settings rstrip_slash profile req drawn now in
      record {
        is_claimed = record {
          metadata =
              ap (λ w. read_transaction_json env w t) (sym at_end)
              ∙ (issue_metadata t t s ∙ claimed.metadata);
          entry =
              ap (λ w. index_get env w external hash) (sym at_end)
              ∙ (issue_keeps env settings rstrip_slash t req.transaction_id drawn now s hash
                  ∙ claimed.entry);
        };
        token = issue_token t r s s' h;
        is_valid = valid;
      }

  pub create_launch-IsLaunched :
      (r : LaunchResult) (s s' : World)
      → create_launch env settings rstrip_slash profile req drawn now s ≡ (ok r, s')
      → (t : TxId) × IsLaunched t s' × IsNew t s s'
  unfolding create_launch
  create_launch-IsLaunched r s s' h =
      let (_, s1, h1, k1) =
        bind-ok (raise_if (not (is_valid_external_id req.transaction_id)) path_error)
          (λ _. launch_rest env settings rstrip_slash profile req drawn now) s h in
      let (t, s2, h2, k2) =
        bind-ok (claim_external env settings rstrip_slash profile req drawn now)
          (λ t. issue env settings rstrip_slash t req.transaction_id drawn now) s1 k1 in
      let (claimed, new) = claim_external-IsClaimed t s1 s2 h2 in
      let unchanged : s1 ≡ s = sym (ap (λ (p : Result Unit × World). p.1) h1) in
      (
        t,
        issued-IsLaunched t r s2 s' (ground (arith, h1)) claimed k2,
        subst (λ w. IsNew t w s') unchanged
            (record {
              was_absent = new.was_absent;
              attempts =
                  ap (λ (p : Result LaunchResult × World). artifact_exists p.1 t attempts_json)
                    (sym k2)
                  ∙ (issue_attempts t t s2 ∙ new.attempts);
            }),
      )
