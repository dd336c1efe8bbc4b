-- ===== src/Transactions/Generated/Fresh.antt =====
-- A generated id never takes over a transaction that is there.
use live_photo_llm.Prelude.{
  Bool, ℕ, zero, suc, ◌+◌, ◌<◌, true, String, false, ◌≡◌, ◌∙◌, refl, sym, ap, arith, inl, inr,
}
use mathlib.Core.Path.{subst}
use live_photo_llm.Python.{Fields}
use live_photo_llm.State.{
  World, Error, Result, Result-cases, ok, err, path_error, transaction_exists, transaction_json,
  document,
}
use live_photo_llm.State.{catch}
use live_photo_llm.State.Inversion.{catch-ok, catch-err}
use live_photo_llm.Transactions.Ids.{TxId, is_valid_transaction_id}
use live_photo_llm.Transactions.Store.{
  put, make_folder, create_transaction, transaction_exists_at, validate_transaction_id, write_json,
}
use live_photo_llm.Transactions.Generated.{
  default_max_attempts, create_generated, create_transaction_with_generated_id, or_next,
}

-- The candidate is the id of a transaction that is there.
abbrev IsTaken : World → String → Type 0
IsTaken s candidate =
    (u : TxId) × (validate_transaction_id candidate ≡ ok u) × (transaction_exists_at s u ≡ true)

-- A transaction under one of the generated candidates, from the one with this number on: those
-- before it are taken, it was not there, and its metadata are what was written.
pub record IsCreated (generate : ℕ → String) (metadata : String → Fields) (first tries : ℕ)
    (s s' : World) (t : TxId) : Type 0 where
  pub collisions : ℕ
  pub within : collisions < tries
  pub taken : (j : ℕ) → j < collisions → IsTaken s (generate (first + j))
  pub named : validate_transaction_id (generate (first + collisions)) ≡ ok t
  pub was_absent : transaction_exists_at s t ≡ false
  pub written :
      s'
      ≡ put
          (make_folder t s)
          t
          transaction_json
          (document (metadata (generate (first + collisions))))

-- A creation under a name that returned.
record IsNamed (name : String) (fields : Fields) (s s' : World) (t : TxId) : Type 0 where
  named : validate_transaction_id name ≡ ok t
  was_absent : transaction_exists_at s t ≡ false
  written : s' ≡ put (make_folder t s) t transaction_json (document fields)

create_transaction-ok :
    (name : String) (fields : Fields) (s s' : World) (t : TxId)
    → create_transaction name fields s ≡ (ok t, s')
    → IsNamed name fields s s' t
unfolding create_transaction write_json
create_transaction-ok name fields s s' t h = elim (Result-cases (validate_transaction_id name)) [
  | inl (u, e) ↦
      let same : u ≡ t = ground arith in
      record { named = ground arith; was_absent = ground arith; written = ground arith }
  | inr (x, e) ↦ absurd (ground arith)
]

validate-not_taken :
    (name : String) (x : Error) → validate_transaction_id name ≡ err x → x ≡ transaction_exists → ⊥
unfolding validate_transaction_id
validate-not_taken name x h k = go (is_valid_transaction_id name) refl h
  where
    go :
        (b : Bool) (e : is_valid_transaction_id name ≡ b)
        → (elim b as (λ b. is_valid_transaction_id name ≡ b → Result TxId) [
          | true ↦ λ e. ok (record { name = name; is_valid = e })
          | false ↦ λ e. err path_error
        ])
            e
          ≡ err x
        → ⊥
    go true e h = cc h
    go false e h = cc (h, k)

create_transaction-IsTaken :
    (name : String) (fields : Fields) (s : World)
    → (create_transaction name fields s).0 ≡ err transaction_exists
    → IsTaken s name
unfolding create_transaction write_json
create_transaction-IsTaken name fields s h = elim (Result-cases (validate_transaction_id name)) [
  | inl (u, e) ↦ (u, e, ground (arith, e, h))
  | inr (x, e) ↦ absurd (validate-not_taken name x e (ground (arith, e, h)))
]

create_transaction-err :
    (name : String) (metadata : Fields) (s : World)
    → (create_transaction name metadata s).0 ≡ err transaction_exists
    → (create_transaction name metadata s).1 ≡ s
unfolding create_transaction write_json
create_transaction-err name metadata s h = ground arith

module _ (generate : ℕ → String) (metadata : String → Fields) where
  abbrev attempt : ℕ → World → Result TxId × World
  attempt i = create_transaction (generate i) (metadata (generate i))

  unfolded :
      (left i : ℕ) (s : World)
      → create_generated generate metadata (suc left) i s
        ≡ catch (attempt i) (or_next (create_generated generate metadata left (suc i))) s
  unfolding create_generated
  unfolded left i s = refl

  at_once :
      (left i : ℕ) (s s' : World) (t : TxId)
      → IsNamed (generate i) (metadata (generate i)) s s' t
      → IsCreated generate metadata i (suc left) s s' t
  at_once left i s s' t h =
      let same : i ≡ i + 0 = omega arith in
      record {
        collisions = 0;
        within = omega arith;
        taken = λ j l. absurd (omega arith);
        named = ap (λ n. validate_transaction_id (generate n)) (sym same) ∙ h.named;
        was_absent = h.was_absent;
        written =
            h.written
            ∙ ap (λ n. put (make_folder t s) t transaction_json (document (metadata (generate n))))
                same;
      }

  IsTaken-from :
      (i n : ℕ) (s : World)
      → IsTaken s (generate i)
      → ((j : ℕ) → j < n → IsTaken s (generate (suc i + j)))
      → (j : ℕ) → j < suc n
      → IsTaken s (generate (i + j))
  IsTaken-from i n s own rest zero l = subst (λ k. IsTaken s (generate k)) (omega arith) own
  IsTaken-from i n s own rest (suc j) l =
      subst (λ k. IsTaken s (generate k)) (omega arith) (rest j (omega arith))

  later :
      (left i : ℕ) (s s' : World) (t : TxId)
      → IsTaken s (generate i)
      → IsCreated generate metadata (suc i) left s s' t
      → IsCreated generate metadata i (suc left) s s' t
  later left i s s' t own h =
      let moved : suc i + h.collisions ≡ i + suc h.collisions = omega arith in
      record {
        collisions = suc h.collisions;
        within = omega (arith, h.within);
        taken = IsTaken-from i h.collisions s own h.taken;
        named = ap (λ n. validate_transaction_id (generate n)) (sym moved) ∙ h.named;
        was_absent = h.was_absent;
        written =
            h.written
            ∙ ap (λ n. put (make_folder t s) t transaction_json (document (metadata (generate n))))
                moved;
      }

  -- What a try that ended so leads to, where the tries after it are as they should be.
  attempt-IsCreated :
      (left i : ℕ) (s s' : World) (t : TxId)
      → ((w : World)
          → create_generated generate metadata left (suc i) w ≡ (ok t, s')
          → IsCreated generate metadata (suc i) left w s' t)
      → create_generated generate metadata (suc left) i s ≡ (ok t, s')
      → (r : Result TxId) (w : World) → attempt i s ≡ (r, w)
      → IsCreated generate metadata i (suc left) s s' t
  attempt-IsCreated left i s s' t rest h (ok u) w e =
      let next = create_generated generate metadata left (suc i) in
      at_once left i s s' t (
        create_transaction-ok (generate i) (metadata (generate i)) s s' t
          (e ∙ (sym (catch-ok (attempt i) (or_next next) s e) ∙ (sym (unfolded left i s) ∙ h))))
  attempt-IsCreated left i s s' t rest h (err transaction_exists) w e =
      let next = create_generated generate metadata left (suc i) in
      let same : w ≡ s =
        sym (ap (λ (p : Result TxId × World). p.1) e)
        ∙ create_transaction-err (generate i) (metadata (generate i)) s
            (ap (λ (p : Result TxId × World). p.0) e) in
      later left i s s' t
        (create_transaction-IsTaken (generate i) (metadata (generate i)) s
          (ap (λ (p : Result TxId × World). p.0) e))
        (rest s (
          ap next (sym same)
          ∙ (sym (catch-err (attempt i) (or_next next) s e) ∙ (sym (unfolded left i s) ∙ h))))
  attempt-IsCreated left i s s' t rest h (err _) w e =
      let next = create_generated generate metadata left (suc i) in
      absurd (cc (sym (catch-err (attempt i) (or_next next) s e) ∙ (sym (unfolded left i s) ∙ h)))

  create_generated-IsCreated :
      (left i : ℕ) (s s' : World) (t : TxId)
      → create_generated generate metadata left i s ≡ (ok t, s')
      → IsCreated generate metadata i left s s' t
  unfolding create_generated
  create_generated-IsCreated zero i s s' t h = absurd (cc h)
  create_generated-IsCreated (suc left) i s s' t h =
      attempt-IsCreated left i s s' t (λ w. create_generated-IsCreated left (suc i) w s' t) h
        (attempt i s).0 (attempt i s).1 refl

  -- A transaction that is created under a generated id has the id of one of the five candidates:
  -- all candidates before it are ids of transactions that were there, it was not there, and the
  -- state changes by its folder and by the metadata for that candidate only.
  pub create_transaction_with_generated_id-IsCreated :
      (s s' : World) (t : TxId)
      → create_transaction_with_generated_id generate metadata s ≡ (ok t, s')
      → IsCreated generate metadata 0 5 s s' t
  unfolding create_transaction_with_generated_id
  create_transaction_with_generated_id-IsCreated s s' t h =
      create_generated-IsCreated default_max_attempts 0 s s' t h
