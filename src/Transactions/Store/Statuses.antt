-- ===== src/Transactions/Store/Statuses.antt =====
-- How update_transaction_status moves the status, and what it leaves alone.
use live_photo_llm.Prelude.{
  ℕ, String, Bool, true, false, some, ◌≡◌, ◌∙◌, refl, inl, inr, arith, ◌&&◌, if◌then◌else◌,
  Bool-cases, str_eq, ap, sym,
}
use live_photo_llm.Python.{Fields, get_or, Env, dict_laws}
use live_photo_llm.State.{
  FilePath, transaction_json, path_eq, document, World, Result, ok, err, Error, Result-cases,
}
use live_photo_llm.Transactions.Status.{TransactionStatus, value, is_terminal, from_value-value}
use live_photo_llm.Transactions.Ids.{TxId}
use live_photo_llm.Transactions.Store.{read_json}
use live_photo_llm.Transactions.Store.{
  read, put, read_transaction_json, current_status, stamp_status, is_kept, set_status,
  update_transaction_status,
}
use live_photo_llm.Transactions.Store.Laws.{read-put, read-put_other}

and_false : (b : Bool) → (b && false) ≡ false
and_false true = refl
and_false false = refl

module _ (env : Env) where
  abbrev pub status_or : TransactionStatus → Result Fields → TransactionStatus
  status_or d (ok m) = current_status env m
  status_or d (err _) = d

  -- The status that transaction.json holds; TECHNICAL_ERROR where it cannot be read.
  unfoldable pub status_at : World → TxId → TransactionStatus
  status_at s t = status_or TransactionStatus.technical_error (read_transaction_json env s t)

  read_status :
      (s : World) (t : TxId) (m : Fields)
      → read_transaction_json env s t ≡ ok m
      → status_at s t ≡ current_status env m
  unfolding status_at read_transaction_json
  read_status s t m e = ap (status_or TransactionStatus.technical_error) e

  pub current_status-stamp :
      (st : TransactionStatus) (now : String) (m : Fields)
      → current_status env (stamp_status env (value st) now m) ≡ st
  unfolding current_status get_or
  current_status-stamp st now m = simp (dict_laws, from_value-value)

  kept_terminal :
      (st : TransactionStatus) (m : Fields) → is_terminal st ≡ true → is_kept env st m ≡ false
  kept_terminal st m e = rw from_value-value (rw e (and_false (is_terminal (current_status env m))))

  still_terminal :
      (st : TransactionStatus) (m : Fields)
      → is_terminal (current_status env m) ≡ true
      → is_terminal (if is_kept env st m then current_status env m else st) ≡ true
  still_terminal st m h = ground (arith, h, from_value-value st)

  module _ (t : TxId) (st : TransactionStatus) (now : ℕ) (m : Fields) (s : World) where
    -- A file of the transaction other than transaction.json is as before.
    pub read-set_status :
        (p : FilePath)
        → path_eq transaction_json p ≡ false
        → read (set_status env t st now m s) t p ≡ read s t p
    unfolding set_status
    read-set_status p ne = elim (Bool-cases (is_kept env st m)) [
      | inl kept ↦ rw kept
      | inr moved ↦ rw moved (rw read-put (rw ne))
    ]

    pub read-set_status_other :
        (u : TxId) (p : FilePath)
        → str_eq t.name u.name ≡ false
        → read (set_status env t st now m s) u p ≡ read s u p
    unfolding set_status
    read-set_status_other u p ne = elim (Bool-cases (is_kept env st m)) [
      | inl kept ↦ rw kept
      | inr moved ↦ rw moved (read-put_other s t _ _ u p ne)
    ]

    pub posts-set_status : (set_status env t st now m s).posts ≡ s.posts
    unfolding set_status put
    posts-set_status = ground arith

    pub index-set_status : (set_status env t st now m s).index ≡ s.index
    unfolding set_status put
    index-set_status = ground arith

    -- The status after the call, where the metadata could be read.
    pub status_at-set_status :
        read_transaction_json env s t ≡ ok m
        → status_at (set_status env t st now m s) t
          ≡ (if is_kept env st m then current_status env m else st)
    unfolding status_at set_status
    status_at-set_status e = elim (Bool-cases (is_kept env st m)) [
      | inl kept ↦ rw kept (rw e)
      | inr moved ↦ rw moved (unfold read_transaction_json in simp (read-put, current_status-stamp))
    ]

    -- A terminal status is written whatever stood there.
    pub read-set_status_terminal :
        is_terminal st ≡ true
        → read (set_status env t st now m s) t transaction_json
          ≡ some (document (stamp_status env (value st) (env.isoformat now) m))
    unfolding set_status
    read-set_status_terminal e = rw (kept_terminal st m e) (simp read-put)

  pub status_at_frame :
      (s s' : World) (t : TxId)
      → read s' t transaction_json ≡ read s t transaction_json
      → status_at s' t ≡ status_at s t
  unfolding status_at read_transaction_json read_json
  status_at_frame s s' t e = rw e refl

  -- A terminal status is there once it is set.
  pub status_at-terminal :
      (t : TxId) (st : TransactionStatus) (now : ℕ) (m : Fields) (s : World)
      → read_transaction_json env s t ≡ ok m
      → is_terminal st ≡ true
      → status_at (set_status env t st now m s) t ≡ st
  status_at-terminal t st now m s e h =
      status_at-set_status t st now m s e ∙ rw (kept_terminal st m h) refl

  -- The state after the call.
  abbrev pub after : TxId → TransactionStatus → ℕ → World → World
  after t st now s = (update_transaction_status env t st now s).1

  pub after-ok :
      (t : TxId) (st : TransactionStatus) (now : ℕ) (s : World) (m : Fields)
      → read_transaction_json env s t ≡ ok m
      → after t st now s ≡ set_status env t st now m s
  unfolding update_transaction_status
  after-ok t st now s m e = ground (arith, e)

  after-err :
      (t : TxId) (st : TransactionStatus) (now : ℕ) (s : World) (x : Error)
      → read_transaction_json env s t ≡ err x
      → after t st now s ≡ s
  unfolding update_transaction_status
  after-err t st now s x e = ground (arith, e)

  -- A transaction whose status is terminal has a terminal status after any update of its status.
  pub update_transaction_status_sticky :
      (t : TxId) (st : TransactionStatus) (now : ℕ) (s : World)
      → is_terminal (status_at s t) ≡ true
      → is_terminal (status_at (update_transaction_status env t st now s).1 t) ≡ true
  update_transaction_status_sticky t st now s h =
      elim (Result-cases (read_transaction_json env s t)) [
        | inl (m, e) ↦
            ap (λ w. is_terminal (status_at w t)) (after-ok t st now s m e)
            ∙ (ap is_terminal (status_at-set_status t st now m s e)
                ∙ still_terminal st m (sym (ap is_terminal (read_status s t m e)) ∙ h))
        | inr (x, e) ↦ ap (λ w. is_terminal (status_at w t)) (after-err t st now s x e) ∙ h
      ]
