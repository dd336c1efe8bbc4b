-- ===== src/Browser/Liveness/SingleFlight.antt =====
-- At most one evaluation of a capture is under way: the claims of POST /browser/liveness.
use mathlib.Core.Path.{subst}
use live_photo_llm.Prelude.{
  ℕ, ◌-◌, ◌≤◌, String, false, Option, none, some, ◌≡◌, ◌∙◌, refl, ap, inl, inr, arith, eq_refl,
  if◌then◌else◌, Bool-cases, ltb,
}
use live_photo_llm.Python.{Env, Fields, get, get_or, has_key}
use live_photo_llm.State.{
  evaluation, evaluation_claim, FilePath, document, World, ok, err, api, liveness_in_progress,
}
use live_photo_llm.Settings.{Settings}
use live_photo_llm.Transactions.Ids.{TxId}
use live_photo_llm.Transactions.Store.{
  read, put, remove, make_folder, lock_transaction, artifact_exists, read_json, write_json,
  remove_artifact,
}
use live_photo_llm.Transactions.Store.Laws.{file_laws}
use live_photo_llm.Liveness.Claims.{
  evaluating, is_claimed, claim_ready, claim_fields, claim_is_stale, claim_timeout, clear_claim,
  set_claim, read_claim,
}
use live_photo_llm.Liveness.Evaluation.{read_evaluation, is_current_evaluation}
use live_photo_llm.Browser.Liveness.{reuse, claimed, claim_or_reuse, establish, liveness_claim}

module _ (env : Env) (settings : Settings) (t : TxId) (identity : String) where
  -- The claim of this evaluation.
  abbrev pub Holds : ℕ → World → Type 0
  Holds now s =
      read s t (evaluation_claim identity) ≡ some (document (claim_fields env identity now))

  establish-Holds :
      (now : ℕ) (s s' : World)
      → establish env settings t identity now s ≡ (ok claimed, s')
      → Holds now s' × (read s' t (evaluation identity) ≡ read s t (evaluation identity))
  unfolding clear_claim remove_artifact set_claim write_json
  establish-Holds now s s' h = elim (Bool-cases (is_claimed s t evaluating identity)) [
    | inl busy ↦ elim (Bool-cases (claim_ready env settings now s t evaluating identity)) [
      | inl ready ↦
          let same : s'
              ≡ put (remove s t (evaluation_claim identity)) t (evaluation_claim identity)
                  (document (claim_fields env identity now)) =
            ground arith in
          (
            ap (λ w. read w t (evaluation_claim identity)) same ∙ simp (file_laws, eq_refl),
            ap (λ w. read w t (evaluation identity)) same ∙ simp file_laws,
          )
      | inr held ↦ absurd (ground arith)
    ]
    | inr idle ↦
        let same : s'
            ≡ put s t (evaluation_claim identity) (document (claim_fields env identity now)) =
          ground arith in
        (
          ap (λ w. read w t (evaluation_claim identity)) same ∙ simp (file_laws, eq_refl),
          ap (λ w. read w t (evaluation identity)) same ∙ simp file_laws,
        )
  ]

  -- A claim that is not older than the timeout holds the next request off.
  establish-held :
      (now later : ℕ) (s : World)
      → Holds now s
      → env.fromisoformat (env.isoformat now) ≡ some now
      → later - now ≤ claim_timeout settings
      → establish env settings t identity later s ≡ (err (api liveness_in_progress), s)
  unfolding is_claimed claim_ready read_claim claim_is_stale artifact_exists read_json get_or get
      has_key
  establish-held now later s h back young =
      let fresh : ltb (claim_timeout settings) (later - now) ≡ false = ground arith in
      rw h (rw back (rw fresh refl))

  -- A request that is to evaluate found no answer that a later one could reuse.
  claimed_from :
      (o : Option Fields) (now : ℕ) (s s' : World)
      → claim_or_reuse env settings t identity now o s ≡ (ok claimed, s')
      → (establish env settings t identity now s ≡ (ok claimed, s'))
        × ((later : ℕ) (w : World)
            → claim_or_reuse env settings t identity later o w
              ≡ establish env settings t identity later w)
  claimed_from none now s s' h = (h, λ later w. refl)
  claimed_from (some payload) now s s' h = elim (Bool-cases (is_current_evaluation env payload)) [
    | inl current ↦ absurd (ground (arith, current, h))
    | inr old ↦ (
      subst
          (λ b.
            (if b then reuse env settings payload else establish env settings t identity now) s
            ≡ (ok claimed, s'))
          old h,
      λ later w. rw old refl,
    )
  ]

  read_evaluation_frame :
      (s s' : World)
      → read s' t (evaluation identity) ≡ read s t (evaluation identity)
      → read_evaluation env s' t identity ≡ read_evaluation env s t identity
  unfolding read_evaluation artifact_exists read_json
  read_evaluation_frame s s' e = rw e refl

  read-make_folder : (s : World) (p : FilePath) → read (make_folder t s) t p ≡ read s t p
  unfolding read
  read-make_folder s p = refl

  -- Once a request has claimed the evaluation of a capture, a request for the same capture that
  -- finds the state so raises LIVENESS_IN_PROGRESS and writes nothing but the folder, as long as
  -- no more than the claim's lifetime has passed. The timestamp of the claim is taken to read back
  -- as the instant it was written for.
  pub liveness_claim_single_flight :
      (now later : ℕ) (s s' : World)
      → liveness_claim env settings t identity now s ≡ (ok claimed, s')
      → env.fromisoformat (env.isoformat now) ≡ some now
      → later - now ≤ claim_timeout settings
      → liveness_claim env settings t identity later s'
        ≡ (err (api liveness_in_progress), make_folder t s')
  unfolding liveness_claim lock_transaction
  liveness_claim_single_flight now later s s' h back young =
      let w = make_folder t s in
      let w' = make_folder t s' in
      let (done, same) = claimed_from (read_evaluation env w t identity) now w s' h in
      let (held, kept) = establish-Holds now w s' done in
      let found = read_evaluation_frame w w' (read-make_folder s' (evaluation identity) ∙ kept) in
      rw found (
        same later w'
        ∙ establish-held now later w' (read-make_folder s' (evaluation_claim identity) ∙ held) back
            young)
