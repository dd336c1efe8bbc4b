-- ===== src/Vlm/Service/Limits.antt =====
-- What reaches a provider.
use live_photo_llm.Prelude.{
  ℕ, ◌≤◌, String, Bool, true, false, none, some, List, [], ◌∷◌, ◌≡◌, refl, arith, ◌⊎◌, inl, inr,
  Bool-cases, Option-cases, if◌then◌else◌, ltb, length,
}
use live_photo_llm.Settings.{Settings, vlm_experiment_available}
use live_photo_llm.Vlm.Errors.{VlmErrorCode, too_many_images, request_too_large}
use live_photo_llm.Vlm.Retry.{Answer, given, refused}
use live_photo_llm.Vlm.Frames.{expected_frame_count}
use live_photo_llm.Vlm.Service.{
  ImageInput, ExperimentEvaluateRequest, Capabilities, Provider, least, total_bytes, any_larger,
  check_capabilities, has_expected_count, evaluate,
}

-- Each image is within two limits.
abbrev pub EachWithin : ℕ → ℕ → List ImageInput → Type 0
EachWithin a b [] = Unit
EachWithin a b (image ∷ rest) =
    ((length image.content ≤ a) × (length image.content ≤ b)) × EachWithin a b rest

least-both : (a b n : ℕ) → ltb (least a b) n ≡ false → (n ≤ a) × (n ≤ b)
least-both a b n h = (ground (arith, h), ground (arith, h))

no_larger :
    (limit : ℕ) (image : ImageInput) (rest : List ImageInput)
    → any_larger limit (image ∷ rest) ≡ false
    → (ltb limit (length image.content) ≡ false) × (any_larger limit rest ≡ false)
no_larger limit image rest h = (ground (arith, h), ground (arith, h))

any_larger-EachWithin :
    (a b : ℕ) (images : List ImageInput)
    → any_larger (least a b) images ≡ false
    → EachWithin a b images
any_larger-EachWithin a b [] h = tt
any_larger-EachWithin a b (image ∷ rest) h =
    let (small, others) = no_larger (least a b) image rest h in
    (least-both a b (length image.content) small, any_larger-EachWithin a b rest others)

passed :
    (a b c : Bool) (x y z : VlmErrorCode)
    → (if a then some x else if b then some y else if c then some z else none) ≡ none
    → (a ≡ false) × (b ≡ false) × (c ≡ false)
passed false false false x y z h = (refl, refl, refl)
passed false false true x y z h = absurd (cc h)
passed false true c x y z h = absurd (cc h)
passed true b c x y z h = absurd (cc h)

module _ (settings : Settings) where
  -- A request within the limits of the settings and of a provider.
  pub record IsWithin (caps : Capabilities) (request : ExperimentEvaluateRequest) : Type 0 where
    pub images_by_provider : length request.frames ≤ caps.max_images_per_request
    pub images_by_settings : length request.frames ≤ settings.vlm_max_frames
    pub each : EachWithin caps.max_image_bytes settings.vlm_max_single_image_bytes request.frames
    pub total_by_provider : total_bytes request.frames ≤ caps.max_total_request_bytes
    pub total_by_settings : total_bytes request.frames ≤ settings.vlm_max_total_image_bytes

  check_capabilities-IsWithin :
      (caps : Capabilities) (request : ExperimentEvaluateRequest)
      → check_capabilities settings caps request ≡ none
      → IsWithin caps request
  unfolding check_capabilities
  check_capabilities-IsWithin caps request h =
      let max_images = least caps.max_images_per_request settings.vlm_max_frames in
      let max_image = least caps.max_image_bytes settings.vlm_max_single_image_bytes in
      let max_total = least caps.max_total_request_bytes settings.vlm_max_total_image_bytes in
      let (count, images, total) =
        passed (ltb max_images (length request.frames)) (any_larger max_image request.frames)
          (ltb max_total (total_bytes request.frames)) too_many_images request_too_large
          request_too_large h in
      let (by_provider, by_settings) =
        least-both caps.max_images_per_request settings.vlm_max_frames (length request.frames)
          count in
      let (total_provider, total_settings) =
        least-both caps.max_total_request_bytes settings.vlm_max_total_image_bytes
          (total_bytes request.frames) total in
      record {
        images_by_provider = by_provider;
        images_by_settings = by_settings;
        each =
            any_larger-EachWithin caps.max_image_bytes settings.vlm_max_single_image_bytes
              request.frames images;
        total_by_provider = total_provider;
        total_by_settings = total_settings;
      }

  -- The provider was asked for this request, which had passed all checks.
  pub record IsAsked (factory : String → Answer Provider) (request : ExperimentEvaluateRequest)
      : Type 0 where
    pub is_available : vlm_experiment_available settings ≡ true
    pub has_count : length request.frames ≡ expected_frame_count request.strategy
    pub provider : Provider
    pub made : factory request.provider ≡ given provider
    pub is_within : IsWithin provider.capabilities request

  -- An evaluation asks the provider for nothing, or once for the request as it came; in that case
  -- the experiment is available, the number of images is the strategy's, and their number, each
  -- size and the total size are within the limits of the provider and of the settings.
  pub evaluate-IsAsked :
      (factory : String → Answer Provider) (request : ExperimentEvaluateRequest) (latency_ms : ℕ)
      → ((evaluate settings factory request latency_ms).sent ≡ [])
        ⊎ (((evaluate settings factory request latency_ms).sent ≡ request ∷ [])
            × IsAsked factory request)
  unfolding evaluate has_expected_count
  evaluate-IsAsked factory request latency_ms =
      elim (Bool-cases (vlm_experiment_available settings)) [
        | inr off ↦ inl (rw off refl)
        | inl on ↦ elim (Bool-cases (has_expected_count settings request)) [
          | inr wrong ↦ inl (rw (on, wrong) refl)
          | inl right ↦ asked_for on right (factory request.provider) refl
        ]
      ]
    where
      Sent : Type 0
      Sent =
          ((evaluate settings factory request latency_ms).sent ≡ [])
          ⊎ (((evaluate settings factory request latency_ms).sent ≡ request ∷ [])
              × IsAsked factory request)

      asked_for :
          vlm_experiment_available settings ≡ true
          → has_expected_count settings request ≡ true
          → (made : Answer Provider) → factory request.provider ≡ made
          → Sent
      asked_for on right (refused code) e = inl (rw (on, right, e) refl)
      asked_for on right (given p) e =
          elim (Option-cases (check_capabilities settings p.capabilities request)) [
            | inl fits ↦ inr (
              rw (on, right, e, fits) refl,
              record {
                is_available = on;
                has_count = ground (arith, right);
                provider = p;
                made = e;
                is_within = check_capabilities-IsWithin p.capabilities request fits;
              },
            )
            | inr (code, stops) ↦ inl (rw (on, right, e, stops) refl)
          ]
