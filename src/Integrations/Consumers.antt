-- ===== src/Integrations/Consumers.antt =====
-- Consumer profiles and their registry: backend/app/integrations/consumers.py.
use live_photo_llm.Prelude.{
  ℕ, String, Bool, true, false, Option, none, some, List, [], ◌∷◌, str_eq, if◌then◌else◌, ◌&&◌,
  ◌||◌, not, contains,
}

-- CallbackConfig.auth_type
pub data AuthType : Type 0 where
  no_auth bearer_env : AuthType

pub record CallbackConfig : Type 0 where
  pub url : String
  pub auth_type : AuthType
  pub secret_env : String

pub record RequestPolicy : Type 0 where
  pub ocr_required : List Bool
  pub camera_configs : List String
  pub white_background : List Bool
  pub output_formats : List String

pub record ConsumerProfile : Type 0 where
  pub consumer_id : String
  pub active : Bool
  pub jwt_client_ids : List String
  pub callback : CallbackConfig
  pub allowed_redirect_origins : List String
  pub request_policy : RequestPolicy
  pub max_attempts : ℕ

abbrev bool_eq : Bool → Bool → Bool
bool_eq true b = b
bool_eq false b = not b

abbrev pub contains_bool : Bool → List Bool → Bool
contains_bool b [] = false
contains_bool b (x ∷ xs) = bool_eq b x || contains_bool b xs

unfoldable pub matches_client_id : ConsumerProfile → String → Bool
matches_client_id p client_id = contains client_id p.jwt_client_ids

unfoldable pub request_policy_allows : ConsumerProfile → Bool → String → Bool → String → Bool
request_policy_allows p ocr camera white format =
    contains_bool ocr p.request_policy.ocr_required
    && contains camera p.request_policy.camera_configs
    && contains_bool white p.request_policy.white_background
    && contains format p.request_policy.output_formats

unfoldable pub allows_redirect_origin : ConsumerProfile → String → Bool
allows_redirect_origin p origin = contains origin p.allowed_redirect_origins

-- The dict of ConsumerRegistry, in insertion order.
abbrev pub Registry : Type 0
Registry = List ConsumerProfile

abbrev insert_profile : ConsumerProfile → Registry → Registry
insert_profile p [] = p ∷ []
insert_profile p (q ∷ rest) =
    if str_eq q.consumer_id p.consumer_id then p ∷ rest else q ∷ insert_profile p rest

abbrev insert_all : List ConsumerProfile → Registry → Registry
insert_all [] r = r
insert_all (p ∷ ps) r = insert_all ps (insert_profile p r)

-- `ConsumerRegistry(profiles)`
unfoldable pub make_registry : List ConsumerProfile → Registry
make_registry profiles = insert_all profiles []

-- `registry.get`
unfoldable pub get_profile : Registry → String → Option ConsumerProfile
get_profile [] id = none
get_profile (p ∷ rest) id = if str_eq p.consumer_id id then some p else get_profile rest id

abbrev if_active : Option ConsumerProfile → Option ConsumerProfile
if_active none = none
if_active (some p) = if not p.active then none else some p

unfoldable pub active_consumer : Registry → String → Option ConsumerProfile
unfolding get_profile
active_consumer r id = if_active (get_profile r id)

unfoldable pub find_by_client_id : Registry → String → Option ConsumerProfile
find_by_client_id [] client_id = none
find_by_client_id (p ∷ rest) client_id =
    if matches_client_id p client_id then some p else find_by_client_id rest client_id
