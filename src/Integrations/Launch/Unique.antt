-- ===== src/Integrations/Launch/Unique.antt =====
-- One transaction for each external id of a consumer.
use mathlib.Core.Path.{subst}
use live_photo_llm.Prelude.{
  ℕ, String, true, Option, some, ◌≡◌, ◌∙◌, refl, sym, ap, arith, not, is_some, eq_refl,
}
use live_photo_llm.Python.{Env, Fields}
use live_photo_llm.State.{
  World, Exec, Result, ok, err, external, transaction_exists, path_error, asks, raise_if, modify,
  pure, ◌>>=◌, ◌>>◌,
}
use live_photo_llm.State.Inversion.{bind-ok, bind-err, bind-from}
use live_photo_llm.Settings.{Settings}
use live_photo_llm.Transactions.Ids.{TxId}
use live_photo_llm.Transactions.Store.{put, write_json}
use live_photo_llm.Transactions.Generated.{
  generate_internal_transaction_id, create_transaction_with_generated_id,
}
use live_photo_llm.Integrations.Consumers.{ConsumerProfile}
use live_photo_llm.Integrations.Index.{index_get, index_put, index_read, external_key_hash}
use live_photo_llm.Integrations.Launch.{
  LaunchSessionRequest, LaunchResult, Drawn, is_valid_external_id, claim_external, create_launch,
  issue, store_launch_token, mapping_fields, transaction_metadata,
}

module _ (env : Env) (settings : Settings) (rstrip_slash : String → String) where
  pub issue_keeps :
      (t : TxId) (external_id : String) (drawn : Drawn) (now : ℕ) (s : World) (h : String)
      → index_get env (issue env settings rstrip_slash t external_id drawn now s).1 external h
        ≡ index_get env s external h
  unfolding store_launch_token write_json put index_put index_get index_read
  issue_keeps t external_id drawn now s h = ground arith

  module _ (profile : ConsumerProfile) (req : LaunchSessionRequest) (drawn : Drawn) (now : ℕ) where
    abbrev pub key_hash : String
    key_hash = external_key_hash env profile.consumer_id req.transaction_id

    abbrev pub created : Exec TxId
    created =
        create_transaction_with_generated_id
          (λ i. generate_internal_transaction_id drawn.timestamp (drawn.suffix i))
          (transaction_metadata env settings rstrip_slash profile req now)

    abbrev pub mapped : TxId → Exec TxId
    mapped t =
        modify
          (index_put external key_hash (mapping_fields env settings rstrip_slash profile req t now))
        >> pure t

    abbrev pub claim_if : Option Fields → Exec TxId
    claim_if known = raise_if (is_some known) transaction_exists >> (created >>= mapped)

    pub mapped_entry :
        (t u : TxId) (s s' : World)
        → mapped t s ≡ (ok u, s')
        → index_get env s' external key_hash
          ≡ ok (some (mapping_fields env settings rstrip_slash profile req t now))
    unfolding index_get index_read index_put
    mapped_entry t u s s' h =
        subst
          (λ w.
            index_get env w external key_hash
            ≡ ok (some (mapping_fields env settings rstrip_slash profile req t now)))
          (ap (λ (p : Result TxId × World). p.1) h) (rw (eq_refl key_hash) refl)

    claimed_entry :
        (t : TxId) (s s' : World)
        → claim_external env settings rstrip_slash profile req drawn now s ≡ (ok t, s')
        → (f : Fields) × (index_get env s' external key_hash ≡ ok (some f))
    unfolding claim_external
    claimed_entry t s s' h =
        let (known, s1, h1, k1) =
          bind-ok (asks (λ w. index_get env w external key_hash)) claim_if s h in
        let (_, s2, h2, k2) =
          bind-ok (raise_if (is_some known) transaction_exists) (λ _. created >>= mapped) s1 k1 in
        let (u, s3, h3, k3) = bind-ok created mapped s2 k2 in
        (mapping_fields env settings rstrip_slash profile req u now, mapped_entry u t s3 s' k3)

    abbrev pub launch_rest : Exec LaunchResult
    launch_rest = claim_external env settings rstrip_slash profile req drawn now >>= λ t.
        issue env settings rstrip_slash t req.transaction_id drawn now

    launched_entry :
        (r : LaunchResult) (s s' : World)
        → create_launch env settings rstrip_slash profile req drawn now s ≡ (ok r, s')
        → (is_valid_external_id req.transaction_id ≡ true)
          × (f : Fields) × (index_get env s' external key_hash ≡ ok (some f))
    unfolding create_launch
    launched_entry r s s' h =
        let (_, s1, h1, k1) =
          bind-ok (raise_if (not (is_valid_external_id req.transaction_id)) path_error)
            (λ _. launch_rest) s h in
        let (t, s2, h2, k2) =
          bind-ok (claim_external env settings rstrip_slash profile req drawn now)
            (λ t. issue env settings rstrip_slash t req.transaction_id drawn now) s1 k1 in
        let (f, entry) = claimed_entry t s1 s2 h2 in
        (
          ground (arith, h1),
          f,
          ap (λ (p : Result LaunchResult × World). index_get env p.1 external key_hash) (sym k2)
              ∙ (issue_keeps t req.transaction_id drawn now s2 key_hash ∙ entry),
        )

    claim_refused :
        (f : Fields) (s : World)
        → index_get env s external key_hash ≡ ok (some f)
        → claim_external env settings rstrip_slash profile req drawn now s
          ≡ (err transaction_exists, s)
    unfolding claim_external
    claim_refused f s entry =
        bind-from (asks (λ w. index_get env w external key_hash)) claim_if s (λ i. (entry i, s))

    pub known_refused :
        (f : Fields) (s : World)
        → is_valid_external_id req.transaction_id ≡ true
        → index_get env s external key_hash ≡ ok (some f)
        → create_launch env settings rstrip_slash profile req drawn now s
          ≡ (err transaction_exists, s)
    unfolding create_launch
    known_refused f s valid entry = rw valid (
        bind-err (claim_external env settings rstrip_slash profile req drawn now)
          (λ t. issue env settings rstrip_slash t req.transaction_id drawn now) s
          (claim_refused f s entry))

  -- After a launch that returned, a launch right after it for the same consumer id and external
  -- transaction id, whatever else it is given, raises TransactionExistsError and changes nothing.
  pub create_launch_unique :
      (profile profile' : ConsumerProfile) (req req' : LaunchSessionRequest) (drawn drawn' : Drawn)
      (now now' : ℕ) (r : LaunchResult) (s s' : World)
      → create_launch env settings rstrip_slash profile req drawn now s ≡ (ok r, s')
      → profile'.consumer_id ≡ profile.consumer_id
      → req'.transaction_id ≡ req.transaction_id
      → create_launch env settings rstrip_slash profile' req' drawn' now' s'
        ≡ (err transaction_exists, s')
  create_launch_unique profile profile' req req' drawn drawn' now now' r s s' h same_consumer
        same_id =
      let (valid, f, entry) = launched_entry profile req drawn now r s s' h in
      known_refused profile' req' drawn' now' f s' (ap is_valid_external_id same_id ∙ valid) (
        ap (λ k. index_get env s' external k)
          (λ i. external_key_hash env (same_consumer i) (same_id i))
        ∙ entry)
