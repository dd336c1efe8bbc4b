-- ===== src/Integrations/Attempts/Registration.antt =====
-- What a registered attempt leaves in the transaction, and what a second one finds.
use mathlib.Core.Path.{subst}
use live_photo_llm.Prelude.{
  ℕ, ◌+◌, String, Bool, true, Option, some, ◌≡◌, ◌∙◌, refl, sym, ap, inl, inr, arith, if◌then◌else◌,
  leb, Bool-cases,
}
use live_photo_llm.Python.{Fields, Env, contains_text}
use live_photo_llm.State.{
  attempts_json, transaction_json, document, World, Result-cases, ok, err, Error,
}
use live_photo_llm.Settings.{Settings}
use live_photo_llm.Transactions.Status.{attempt_limit_exceeded}
use live_photo_llm.Transactions.Ids.{TxId}
use live_photo_llm.Transactions.Store.{
  read, put, write_json, update_transaction_status, read_transaction_json, set_status,
}
use live_photo_llm.Transactions.Store.Laws.{file_laws}
use live_photo_llm.Transactions.Store.Statuses.{
  status_at, status_at_frame, status_at-terminal, after-ok,
}
use live_photo_llm.Integrations.Attempts.{
  AttemptResult, attempt_count, attempt_id_hash, effective_limit, read_attempts,
  register_attempt_locked, registered, result_of,
}
use live_photo_llm.Integrations.Attempts.Counting.{consumed_ids, registered_known, registered_new}

module _ (env : Env) (settings : Settings) (t : TxId) (attempt_id : String)
    (result reason : Option String) (max_attempts : Option ℕ) (mark : Bool) (now : ℕ) where
  abbrev limit : ℕ
  limit = effective_limit env settings max_attempts

  -- The attempts that the call reads.
  abbrev before : World → Fields
  before s = read_attempts env s t limit now

  -- The state in which the attempts are written.
  abbrev noted : ℕ → World → World
  noted n s =
      if leb limit n then (update_transaction_status env t attempt_limit_exceeded now s).1 else s

  -- What a call that returned comes from.
  pub record IsRegistered (s s' : World) (a : AttemptResult) : Type 0 where
    pub attempts : Fields
    pub done :
        registered env settings limit (attempt_id_hash env attempt_id) reason mark now (before s)
        ≡ ok attempts
    pub counted : attempt_count env attempts ≡ ok a.attempt_count
    pub answered : a ≡ result_of env settings limit a.attempt_count
    pub placed : s' ≡ put (noted a.attempt_count s) t attempts_json (document attempts)
    pub stored : read s' t attempts_json ≡ some (document attempts)

  written :
      (s s' : World) (a : AttemptResult) (f : Fields) (n : ℕ)
      → registered env settings limit (attempt_id_hash env attempt_id) reason mark now (before s)
        ≡ ok f
      → attempt_count env f ≡ ok n
      → register_attempt_locked env settings t attempt_id result reason max_attempts mark now s
        ≡ (ok a, s')
      → (s' ≡ put (noted n s) t attempts_json (document f)) × (a ≡ result_of env settings limit n)
  unfolding register_attempt_locked write_json
  written s s' a f n e ec h = ground (arith, e, ec, h)

  pub register_inverts :
      (s s' : World) (a : AttemptResult)
      → register_attempt_locked env settings t attempt_id result reason max_attempts mark now s
        ≡ (ok a, s')
      → IsRegistered s s' a
  unfolding register_attempt_locked write_json
  register_inverts s s' a h =
      elim (Result-cases (
        registered env settings limit (attempt_id_hash env attempt_id) reason mark now
          (before s))) [
            | inr (x, e) ↦ absurd (ground arith)
            | inl (f, e) ↦ elim (Result-cases (attempt_count env f)) [
              | inr (x, ec) ↦ absurd (ground arith)
              | inl (n, ec) ↦
                  let (same, out) = written s s' a f n e ec h in
                  record {
                    attempts = f;
                    done = e;
                    counted = ec ∙ ap (λ (x : AttemptResult). ok x.attempt_count) (sym out);
                    answered =
                        subst (λ x. x ≡ result_of env settings limit x.attempt_count) (sym out)
                          refl;
                    placed =
                        subst
                          (λ (x : AttemptResult).
                            s' ≡ put (noted x.attempt_count s) t attempts_json (document f))
                          (sym out) same;
                    stored = ap (λ w. read w t attempts_json) same ∙ simp file_laws;
                  }
            ]
          ]

  -- Where the file's count is a number, a registration that returns answers that count for a known
  -- attempt and one more for a new attempt, and it is terminal exactly where the count has reached
  -- the effective limit.
  pub register_counts :
      (s s' : World) (a : AttemptResult) (n : ℕ)
      → register_attempt_locked env settings t attempt_id result reason max_attempts mark now s
        ≡ (ok a, s')
      → attempt_count env (before s) ≡ ok n
      → (a.attempt_count ≡ (
          if contains_text (attempt_id_hash env attempt_id) (consumed_ids (before s))
          then n
          else n + 1))
        × (a.terminal ≡ leb limit a.attempt_count)
  register_counts s s' a n h e =
      let i = register_inverts s s' a h in
      let id_hash = attempt_id_hash env attempt_id in
      let ends : a.terminal ≡ leb limit a.attempt_count =
        ap (λ (x : AttemptResult). x.terminal) i.answered in
      elim (Bool-cases (contains_text id_hash (consumed_ids (before s)))) [
        | inl old ↦
            let (same, _) =
              registered_known env settings limit id_hash reason mark now (before s) i.attempts
                i.done old in
            (rw old (cc (same, i.counted, e)), ends)
        | inr new ↦
            let (next, _) =
              registered_new env settings limit id_hash reason mark now (before s) i.attempts i.done
                n new e in
            (rw new (cc (next, i.counted)), ends)
      ]

  unreadable :
      (s s' : World) (a : AttemptResult) (f : Fields) (x : Error)
      → registered env settings limit (attempt_id_hash env attempt_id) reason mark now (before s)
        ≡ ok f
      → attempt_count env f ≡ ok a.attempt_count
      → leb limit a.attempt_count ≡ true
      → read_transaction_json env s t ≡ err x
      → ¬ (
          register_attempt_locked env settings t attempt_id result reason max_attempts mark now s
          ≡ (ok a, s'))
  unfolding register_attempt_locked update_transaction_status
  unreadable s s' a f x e ec l ex h = ground (arith, e, ec, l, ex, h)

  -- A registration that returns and is terminal leaves the transaction in the status
  -- ATTEMPT_LIMIT_EXCEEDED.
  pub register_limit :
      (s s' : World) (a : AttemptResult)
      → register_attempt_locked env settings t attempt_id result reason max_attempts mark now s
        ≡ (ok a, s')
      → a.terminal ≡ true
      → status_at env s' t ≡ attempt_limit_exceeded
  register_limit s s' a h e =
      let i = register_inverts s s' a h in
      let reached : leb limit a.attempt_count ≡ true =
        sym (ap (λ (x : AttemptResult). x.terminal) i.answered) ∙ e in
      elim (Result-cases (read_transaction_json env s t)) [
        | inl (m, em) ↦
            let at : noted a.attempt_count s ≡ set_status env t attempt_limit_exceeded now m s =
              rw reached (after-ok env t attempt_limit_exceeded now s m em) in
            status_at_frame env (noted a.attempt_count s) s' t
              (ap (λ w. read w t transaction_json) i.placed ∙ simp file_laws)
            ∙ (ap (λ w. status_at env w t) at
                ∙ status_at-terminal env t attempt_limit_exceeded now m s em refl)
        | inr (x, ex) ↦ absurd (unreadable s s' a i.attempts x i.done i.counted reached ex h)
      ]
