-- ===== src/Integrations/Auth/Authorized.antt =====
-- Whom an authentication lets through.
use mathlib.Core.Path.{subst}
use live_photo_llm.Prelude.{
  String, Bool, true, false, Option, some, [], ◌∷◌, ◌≡◌, ◌⊎◌, inl, inr, arith, str_eq, ◌||◌,
  starts_with, Bool-cases, Option-cases, eq_iff, refl, ap, ◌∙◌, sym,
}
use live_photo_llm.Python.{Json, Fields, get, as_text, Env}
use live_photo_llm.State.{ok, Result-cases}
use live_photo_llm.Settings.{Settings, s2s_jwks_is_local_path}
use live_photo_llm.Settings.Gates.{BaseUrl, is_deployed, load_settings, load_settings-IsHardened}
use live_photo_llm.Integrations.Consumers.{
  ConsumerProfile, Registry, active_consumer, find_by_client_id, get_profile, matches_client_id,
}
use live_photo_llm.Integrations.Auth.{Pyjwt, decode_jwt, bearer_token, authenticate_s2s}

-- A registry's entry for a client id is one that lists it.
matching :
    (q : ConsumerProfile) (rest : Registry) (client_id : String)
    → matches_client_id q client_id ≡ true
    → find_by_client_id (q ∷ rest) client_id ≡ some q
unfolding find_by_client_id
matching q rest client_id e = rw e refl

pub find_by_client_id-matches :
    (registry : Registry) (client_id : String) (p : ConsumerProfile)
    → find_by_client_id registry client_id ≡ some p
    → matches_client_id p client_id ≡ true
unfolding find_by_client_id
find_by_client_id-matches [] client_id p h = absurd (cc h)
find_by_client_id-matches (q ∷ rest) client_id p h =
    let e = Bool-cases (matches_client_id q client_id) in
    elim e [
      | inl e ↦
          let same : some q ≡ some p = sym (matching q rest client_id e) ∙ h in
          subst (λ r. matches_client_id r client_id ≡ true) (ground (arith, same)) e
      | inr e ↦ find_by_client_id-matches rest client_id p (ground (arith, e, h))
    ]

pub active_consumer-active :
    (registry : Registry) (id : String) (p : ConsumerProfile)
    → active_consumer registry id ≡ some p
    → (get_profile registry id ≡ some p) × (p.active ≡ true)
unfolding active_consumer
active_consumer-active registry id p h = ground arith

pub get_profile-named :
    (registry : Registry) (id : String) (p : ConsumerProfile)
    → get_profile registry id ≡ some p
    → p.consumer_id ≡ id
unfolding get_profile
get_profile-named [] id p h = absurd (cc h)
get_profile-named (q ∷ rest) id p h = elim (Bool-cases (str_eq q.consumer_id id)) [
  | inl e ↦ ground (arith, e, h, eq_iff q.consumer_id id)
  | inr e ↦ get_profile-named rest id p (ground (arith, e, h))
]

module _ (env : Env) {Key : Type 0} (pyjwt : Pyjwt Key) (json_eq : Json → Json → Bool)
    (strip : String → String) (settings : Settings) (registry : Registry)
    (authorization_header dev_auth_header requested_source : String) where
  -- The caller holds the development token, and named itself.
  pub record IsLocalCaller (p : ConsumerProfile) : Type 0 where
    pub mode : str_eq settings.s2s_auth_mode "local_dev" ≡ true
    pub has_token : str_eq settings.s2s_local_dev_token "" ≡ false
    pub presents : dev_auth_header ≡ settings.s2s_local_dev_token
    pub named : get_profile registry requested_source ≡ some p

  -- The caller holds a token that was verified, whose identity claim is one of the consumer's.
  pub record IsTokenCaller (p : ConsumerProfile) : Type 0 where
    pub mode : str_eq settings.s2s_auth_mode "jwt" ≡ true
    pub claims : Fields
    pub client_id : String
    pub has_bearer : starts_with "bearer " (env.lower authorization_header) ≡ true
    pub verified :
        decode_jwt env pyjwt json_eq settings
          (bearer_token env pyjwt json_eq strip authorization_header)
        ≡ ok claims
    pub identity : as_text (get settings.s2s_jwt_client_id_claim claims) ≡ some client_id
    pub is_given : str_eq client_id "" ≡ false
    pub matches : matches_client_id p client_id ≡ true
    pub scoped : (str_eq requested_source "" || str_eq requested_source p.consumer_id) ≡ true

  pub authenticate_s2s-IsTokenCaller :
      (p : ConsumerProfile)
      → str_eq settings.s2s_auth_mode "local_dev" ≡ false
      → authenticate_s2s env pyjwt json_eq strip settings registry authorization_header
          dev_auth_header requested_source
        ≡ ok p
      → (p.active ≡ true) × IsTokenCaller p
  unfolding authenticate_s2s
  authenticate_s2s-IsTokenCaller p e h =
      elim (Result-cases (
        decode_jwt env pyjwt json_eq settings
          (bearer_token env pyjwt json_eq strip authorization_header))) [
            | inl (claims, verified) ↦
                elim (Option-cases (as_text (get settings.s2s_jwt_client_id_claim claims))) [
                  | inl unnamed ↦ absurd (ground (arith, e, h, verified, unnamed))
                  | inr (client_id, identity) ↦
                      elim (Option-cases (find_by_client_id registry client_id)) [
                        | inl unknown ↦ absurd (ground (arith, e, h, verified, identity, unknown))
                        | inr (q, found) ↦
                            let same : q ≡ p = ground (arith, e, h, verified, identity, found) in
                            (
                              ground (arith, e, h, verified, identity, found),
                              record {
                                mode = ground (arith, e, h);
                                claims = claims;
                                client_id = client_id;
                                has_bearer = ground (arith, e, h);
                                verified = verified;
                                identity = identity;
                                is_given = ground (arith, e, h, verified, identity);
                                matches =
                                    find_by_client_id-matches registry client_id p
                                      (found ∙ ap some same);
                                scoped = ground (arith, e, h, verified, identity, found, same);
                              },
                            )
                      ]
                ]
            | inr (x, failed) ↦ absurd (ground (arith, e, h, failed))
          ]

  pub authenticate_s2s-IsLocalCaller :
      (p : ConsumerProfile)
      → str_eq settings.s2s_auth_mode "local_dev" ≡ true
      → authenticate_s2s env pyjwt json_eq strip settings registry authorization_header
          dev_auth_header requested_source
        ≡ ok p
      → (p.active ≡ true) × IsLocalCaller p
  unfolding authenticate_s2s
  authenticate_s2s-IsLocalCaller p e h =
      elim (Option-cases (active_consumer registry requested_source)) [
        | inl unknown ↦ absurd (ground (arith, e, h, unknown))
        | inr (q, found) ↦
            let same : q ≡ p = ground (arith, e, h, found) in
            let (known, active) =
              active_consumer-active registry requested_source p (found ∙ ap some same) in
            (
              active,
              record {
                mode = e;
                has_token = ground (arith, e, h);
                presents =
                    ground (arith, e, h, eq_iff dev_auth_header settings.s2s_local_dev_token);
                named = known;
              },
            )
      ]

  -- A caller that is authenticated is an active consumer, and either presented the configured
  -- development token in the mode local_dev, under a source that is its id in the registry, or in
  -- the mode jwt a verified token whose identity claim is one of its client ids, with no other
  -- consumer's source.
  pub authenticate_s2s-IsAuthorized :
      (p : ConsumerProfile)
      → authenticate_s2s env pyjwt json_eq strip settings registry authorization_header
          dev_auth_header requested_source
        ≡ ok p
      → (p.active ≡ true) × (IsLocalCaller p ⊎ IsTokenCaller p)
  authenticate_s2s-IsAuthorized p h =
      elim (Bool-cases (str_eq settings.s2s_auth_mode "local_dev")) [
        | inl e ↦
            let (active, caller) = authenticate_s2s-IsLocalCaller p e h in (active, inl caller)
        | inr e ↦
            let (active, caller) = authenticate_s2s-IsTokenCaller p e h in (active, inr caller)
      ]

  -- Where the settings load in UAT or production, a call is authenticated only by a bearer token
  -- that was verified against a JWKS that is no local file, whose identity claim is one of the
  -- returned consumer's; the consumer is active, and the source is absent or the consumer's id.
  pub deployed_needs_token :
      (urlparse : String → Option BaseUrl) (p : ConsumerProfile)
      → load_settings urlparse settings ≡ ok settings
      → is_deployed settings ≡ true
      → authenticate_s2s env pyjwt json_eq strip settings registry authorization_header
          dev_auth_header requested_source
        ≡ ok p
      → (s2s_jwks_is_local_path settings ≡ false) × (p.active ≡ true) × IsTokenCaller p
  deployed_needs_token urlparse p loaded deployed h =
      let hardened = load_settings-IsHardened urlparse settings loaded deployed in
      let (active, caller) = authenticate_s2s-IsTokenCaller p hardened.not_local_dev h in
      (hardened.not_local_jwks, active, caller)
