-- ===== src/Integrations/Attempts/Counting.antt =====
-- What registering an attempt does to the fields of attempts.json.
use live_photo_llm.Prelude.{
  ℕ, ◌+◌, String, Bool, true, false, Option, none, some, ◌≡◌, ◌∙◌, refl, inl, inr, arith, str_eq,
  ◌&&◌, not, eq_refl, Bool-cases,
}
use live_photo_llm.Python.{
  Json, int, text, Items, Fields, get, get_or, set, list_or_empty, contains_text, snoc, Env,
  dict_laws, contains_text-snoc,
}
use live_photo_llm.Prelude.{ap}
use live_photo_llm.State.{Result-cases, ok}
use live_photo_llm.Settings.{Settings}
use live_photo_llm.Integrations.Attempts.{
  attempt_count, add_reason, consume, mark_upload, stamp_limits, registered,
}

-- The ids that count as attempts, and those that uploaded a capture.
abbrev pub consumed_ids : Fields → Items
consumed_ids f = list_or_empty (get "consumed_attempt_ids" f)

abbrev pub uploaded_ids : Fields → Items
uploaded_ids f = list_or_empty (get "uploaded_attempt_ids" f)

module _ (env : Env) where
  consumed-add_reason :
      (r : Option String) (f : Fields) → consumed_ids (add_reason env r f) ≡ consumed_ids f
  unfolding add_reason
  consumed-add_reason none f = refl
  consumed-add_reason (some r) f = elim (Bool-cases (str_eq r "")) [
    | inl e ↦ rw e
    | inr e ↦ rw e (simp dict_laws)
  ]

  uploaded-add_reason :
      (r : Option String) (f : Fields) → uploaded_ids (add_reason env r f) ≡ uploaded_ids f
  unfolding add_reason
  uploaded-add_reason none f = refl
  uploaded-add_reason (some r) f = elim (Bool-cases (str_eq r "")) [
    | inl e ↦ rw e
    | inr e ↦ rw e (simp dict_laws)
  ]

  count-set :
      (k : String) (v : Json) (f : Fields)
      → str_eq k "attempt_count" ≡ false
      → attempt_count env (set k v f) ≡ attempt_count env f
  unfolding attempt_count get_or
  count-set k v f e = simp (dict_laws, e)

  count-set_self : (n : ℕ) (f : Fields) → attempt_count env (set "attempt_count" (int n) f) ≡ ok n
  unfolding attempt_count get_or
  count-set_self n f = simp dict_laws

  count-add_reason :
      (r : Option String) (f : Fields)
      → attempt_count env (add_reason env r f) ≡ attempt_count env f
  unfolding add_reason
  count-add_reason none f = refl
  count-add_reason (some r) f = elim (Bool-cases (str_eq r "")) [
    | inl e ↦ rw e
    | inr e ↦ rw e (count-set "reason_codes" _ f refl)
  ]

  module _ (h : String) (r : Option String) (n now : ℕ) (f : Fields) where
    count-consume : attempt_count env (consume env h r n now f) ≡ ok (n + 1)
    unfolding consume
    count-consume =
        count-set "updated_at" _ _ refl ∙ (count-add_reason r _ ∙ count-set_self (n + 1) _)

    consumed-consume : consumed_ids (consume env h r n now f) ≡ snoc (text h) (consumed_ids f)
    unfolding consume
    consumed-consume = simp (dict_laws, consumed-add_reason)

    uploaded-consume : uploaded_ids (consume env h r n now f) ≡ uploaded_ids f
    unfolding consume
    uploaded-consume = simp (dict_laws, uploaded-add_reason)

  module _ (m : Bool) (h : String) (f : Fields) where
    count-mark_upload : attempt_count env (mark_upload env m h f) ≡ attempt_count env f
    unfolding mark_upload
    count-mark_upload = elim (Bool-cases (m && not (contains_text h (uploaded_ids f)))) [
      | inl e ↦ rw e (count-set "uploaded_attempt_ids" _ f refl)
      | inr e ↦ rw e
    ]

    consumed-mark_upload : consumed_ids (mark_upload env m h f) ≡ consumed_ids f
    unfolding mark_upload
    consumed-mark_upload = elim (Bool-cases (m && not (contains_text h (uploaded_ids f)))) [
      | inl e ↦ rw e (simp dict_laws)
      | inr e ↦ rw e
    ]

    -- A marked attempt is among the uploaded ones afterwards.
    marked-mark_upload : m ≡ true → contains_text h (uploaded_ids (mark_upload env m h f)) ≡ true
    unfolding mark_upload
    marked-mark_upload e = elim (Bool-cases (contains_text h (uploaded_ids f))) [
      | inl old ↦ rw (e, old) old
      | inr new ↦ rw (e, new) (simp (dict_laws, contains_text-snoc, eq_refl))
    ]

  module _ (settings : Settings) (limit : ℕ) (f : Fields) where
    count-stamp_limits : attempt_count env (stamp_limits env settings limit f) ≡ attempt_count env f
    unfolding stamp_limits
    count-stamp_limits = count-set "limit" _ _ refl ∙ count-set "warning_stages" _ f refl

    consumed-stamp_limits : consumed_ids (stamp_limits env settings limit f) ≡ consumed_ids f
    unfolding stamp_limits
    consumed-stamp_limits = simp dict_laws

    uploaded-stamp_limits : uploaded_ids (stamp_limits env settings limit f) ≡ uploaded_ids f
    unfolding stamp_limits
    uploaded-stamp_limits = simp dict_laws

  -- Registering a known attempt keeps the count; registering a new one adds it and counts it.
  module _ (settings : Settings) (limit : ℕ) (h : String) (r : Option String) (mark : Bool)
      (now : ℕ) (f g : Fields) (done : registered env settings limit h r mark now f ≡ ok g) where
    pub registered_known :
        contains_text h (consumed_ids f) ≡ true
        → (attempt_count env g ≡ attempt_count env f) × (consumed_ids g ≡ consumed_ids f)
    unfolding registered
    registered_known old = ground (
      arith,
      count-stamp_limits settings limit (mark_upload env mark h f),
      consumed-stamp_limits settings limit (mark_upload env mark h f),
      count-mark_upload mark h f,
      consumed-mark_upload mark h f,
    )

    pub registered_new :
        (n : ℕ)
        → contains_text h (consumed_ids f) ≡ false
        → attempt_count env f ≡ ok n
        → (attempt_count env g ≡ ok (n + 1)) × (consumed_ids g ≡ snoc (text h) (consumed_ids f))
    unfolding registered
    registered_new n new e =
        let k = consume env h r n now f in
        ground (
          arith,
          count-stamp_limits settings limit (mark_upload env mark h k),
          consumed-stamp_limits settings limit (mark_upload env mark h k),
          count-mark_upload mark h k,
          consumed-mark_upload mark h k,
          count-consume h r n now f,
          consumed-consume h r n now f,
        )

    pub registered_consumed : contains_text h (consumed_ids g) ≡ true
    unfolding registered
    registered_consumed = elim (Bool-cases (contains_text h (consumed_ids f))) [
      | inl old ↦ ap (contains_text h) (registered_known old).1 ∙ old
      | inr new ↦ elim (Result-cases (attempt_count env f)) [
        | inl (n, e) ↦
            ap (contains_text h) (registered_new n new e).1
            ∙ (contains_text-snoc h h (consumed_ids f) ∙ rw (eq_refl h) refl)
        | inr (x, e) ↦ absurd (ground (arith, e, new))
      ]
    ]

    pub registered_uploaded : mark ≡ true → contains_text h (uploaded_ids g) ≡ true
    unfolding registered
    registered_uploaded on = elim (Bool-cases (contains_text h (consumed_ids f))) [
      | inl old ↦ ground (
        arith,
        marked-mark_upload mark h f on,
        uploaded-stamp_limits settings limit (mark_upload env mark h f),
      )
      | inr new ↦ elim (Result-cases (attempt_count env f)) [
        | inl (n, e) ↦
            let k = consume env h r n now f in
            ground (
              arith,
              marked-mark_upload mark h k on,
              uploaded-stamp_limits settings limit (mark_upload env mark h k),
            )
        | inr (x, e) ↦ absurd (ground (arith, e, new))
      ]
    ]
