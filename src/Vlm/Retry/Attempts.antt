-- ===== src/Vlm/Retry/Attempts.antt =====
-- How many attempts a run makes, and which of them it answers with.
use mathlib.Core.Path.{subst}
use live_photo_llm.Prelude.{
  ℕ, zero, suc, ◌+◌, ◌≤◌, ◌<◌, true, ◌≡◌, ◌∙◌, refl, sym, ap, arith, leb, not, ◌||◌, ◌⊎◌, inl, inr,
  Bool-cases, ◌==◌,
}
use live_photo_llm.Vlm.Errors.{is_retryable_error}
use live_photo_llm.Vlm.Retry.{Answer, given, refused, Run, after, retry_loop, run_with_retries}

-- A failure after which another attempt may be made.
abbrev pub IsTransient : {A : Type 0} → Answer A → Type 0
IsTransient (given a) = ⊥
IsTransient (refused code) = is_retryable_error code ≡ true

module _ {A : Type 0} (operation : ℕ → Answer A) (max_retries : ℕ) where
  -- The run ends with the answer of its last attempt, and each attempt before it failed transiently.
  pub record IsLast (first : ℕ) (r : Run A) : Type 0 where
    pub last : ℕ
    pub count : r.attempts ≡ suc last
    pub in_bound : last ≤ max_retries
    pub from_first : first ≤ last
    pub answers : r.answer ≡ operation last
    pub transient : (i : ℕ) → first ≤ i → i < last → IsTransient (operation i)
    pub stopped : IsTransient (operation last) → last ≡ max_retries

  ended :
      (attempt : ℕ) (answer : Answer A)
      → operation attempt ≡ answer
      → attempt ≤ max_retries
      → (IsTransient answer → attempt ≡ max_retries)
      → IsLast attempt (record { answer = answer; attempts = suc attempt })
  ended attempt answer e h stop = record {
    last = attempt;
    count = refl;
    in_bound = h;
    from_first = ground arith;
    answers = sym e;
    transient = λ i l k. absurd (ground (arith, l, k));
    stopped = λ failed. stop (subst IsTransient e failed);
  }

  further :
      (attempt : ℕ) (r : Run A)
      → IsTransient (operation attempt)
      → IsLast (suc attempt) r
      → IsLast attempt r
  further attempt r failed h = record {
    last = h.last;
    count = h.count;
    in_bound = h.in_bound;
    from_first = ground (arith, h.from_first);
    answers = h.answers;
    stopped = h.stopped;
    transient = λ i l k. elim (split i attempt l) [
      | inl same ↦ subst (λ j. IsTransient (operation j)) (sym same) failed
      | inr later ↦ h.transient i later k
    ];
  }
    where
      split : (i n : ℕ) → n ≤ i → (i ≡ n) ⊎ (suc n ≤ i)
      split i n l = elim (Bool-cases (i == n)) [
        | inl e ↦ inl (ground (arith, e))
        | inr e ↦ inr (ground (arith, e, l))
      ]

  after-IsLast :
      (attempt : ℕ) (rest : Run A) (answer : Answer A)
      → operation attempt ≡ answer
      → attempt ≤ max_retries
      → (attempt < max_retries → IsLast (suc attempt) rest)
      → IsLast attempt (after operation max_retries attempt rest answer)
  after-IsLast attempt rest (given a) e h next = ended attempt (given a) e h (λ never. absurd never)
  after-IsLast attempt rest (refused code) e h next =
      elim (Bool-cases (leb max_retries attempt || not (is_retryable_error code))) [
        | inl stop ↦
            rw stop
              (ended attempt (refused code) e h (λ retryable. ground (arith, stop, retryable, h)))
        | inr on ↦
            let retryable : is_retryable_error code ≡ true = ground (arith, on) in
            rw on (
              further attempt rest (subst IsTransient (sym e) retryable)
                (next (ground (arith, on))))
      ]

  loop-IsLast :
      (left attempt : ℕ)
      → left + attempt ≡ suc max_retries
      → attempt ≤ max_retries
      → IsLast attempt (retry_loop operation max_retries left attempt)
  unfolding retry_loop
  loop-IsLast zero attempt e h = absurd (ground (arith, e, h))
  loop-IsLast (suc left) attempt e h =
      after-IsLast attempt (retry_loop operation max_retries left (suc attempt)) (operation attempt)
        refl h (λ l. loop-IsLast left (suc attempt) (ground (arith, e)) (ground (arith, l)))

  -- A run makes one attempt and once more after each transient failure, at most max_retries times
  -- more; its answer is that of the last attempt, which failed transiently only where no retry was
  -- left.
  pub run_with_retries-IsLast : IsLast 0 (run_with_retries operation max_retries)
  unfolding run_with_retries
  run_with_retries-IsLast = loop-IsLast (suc max_retries) 0 (ground arith) (ground arith)

  at_success :
      (n : ℕ) (a : A) (last : ℕ)
      → n ≤ max_retries
      → operation n ≡ given a
      → ((i : ℕ) → i < n → IsTransient (operation i))
      → last ≤ max_retries
      → ((i : ℕ) → 0 ≤ i → i < last → IsTransient (operation i))
      → (IsTransient (operation last) → last ≡ max_retries)
      → last ≡ n
  at_success n a last h found before bound transient stopped = elim (Bool-cases (leb last n)) [
    | inl low ↦ elim (Bool-cases (leb n last)) [
      | inl high ↦ ground (arith, low, high)
      | inr below ↦
          let at_end = stopped (before last (ground (arith, below))) in
          absurd (ground (arith, below, at_end, h))
    ]
    | inr above ↦
        absurd (subst IsTransient found (transient n (ground arith) (ground (arith, above))))
  ]

  -- Where an attempt within max_retries is answered and each before it fails transiently, the run
  -- ends with that answer, after that attempt.
  pub run_with_retries_recovers :
      (n : ℕ) (a : A)
      → n ≤ max_retries
      → operation n ≡ given a
      → ((i : ℕ) → i < n → IsTransient (operation i))
      → run_with_retries operation max_retries ≡ record { answer = given a; attempts = suc n }
  run_with_retries_recovers n a h found before =
      let r = run_with_retries operation max_retries in
      let l = run_with_retries-IsLast in
      let same : l.last ≡ n =
        at_success n a l.last h found before l.in_bound l.transient l.stopped in
      let answer : r.answer ≡ given a = l.answers ∙ (ap operation same ∙ found) in
      let attempts : r.attempts ≡ suc n = l.count ∙ ap suc same in
      λ i. record { answer = answer i; attempts = attempts i }
