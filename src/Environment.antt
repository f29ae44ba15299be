-- ===== src/Environment.antt =====
-- src/config/env.validation.ts: the check of the environment at the start.
pub mod Credentials
pub mod Contract
-- A variable by its name; `none` where it is not set.
use rooeel_backend_api.Prelude.{
  ℕ, ◌==◌, ◌&&◌, ◌||◌, not, Bool, true, false, String, Option, none, some, List, [], ◌∷◌, map, keep,
  any, first, if◌then◌else◌, is_some, truthy, or_else, or_maybe, is_id, Action, Result, ok, err,
  ◌>>=◌, ◌>>◌, pure, throw, throw_if, or_throw, gets, not_found, unauthorized, forbidden, Exception,
  ◌≡◌, refl, sym, arith, inl, inr, ◌⊎◌, ◌↔◌, In, Bool-cases, Option-cases, keep_sound, In-keep,
  In-map, map_sound,
}
use rooeel_backend_api.Text.{Text, codes}
use rooeel_backend_api.Prelude.{◌≢◌}
use mathlib.Core.Path.{subst}
use rooeel_backend_api.Text.{
  includes_iff, text_eq, text_eq_iff, trim, trim_start, trim_end, is_empty, includes, to_lower_case,
}
use rooeel_backend_api.Storage.{or_text}

abbrev pub Env : Type 0
Env = Text → Option Text

-- What the check comes to, in place of the text of an error.
pub data Verdict : Type 0 where
  valid bad_node_env : Verdict
  missing : Text → Verdict

-- `!value || !value.trim()`
unfoldable pub is_blank : Option Text → Bool
is_blank none = true
is_blank (some value) = is_empty value || is_empty (trim value)

-- `requireVar`, one after the other.
unfoldable pub require_vars : Env → List Text → Verdict
unfolding is_blank
require_vars env [] = valid
require_vars env (key ∷ keys) = if is_blank (env key) then missing key else require_vars env keys

unfoldable pub known_modes : List Text
known_modes = codes "development" ∷ codes "test" ∷ codes "production" ∷ []

-- `env.NODE_ENV || 'development'`
abbrev pub node_env : Env → Text
node_env env = or_text (env (codes "NODE_ENV")) (codes "development")

abbrev pub use_minio : Env → Bool
use_minio env =
    text_eq (to_lower_case (or_text (env (codes "USE_MINIO")) (codes "true"))) (codes "true")

abbrev pub storage_vars : Bool → List Text
storage_vars true =
    codes "MINIO_ROOT_USER" ∷ codes "MINIO_ROOT_PASSWORD" ∷ codes "MINIO_BUCKET" ∷ []
storage_vars false =
    codes "AWS_REGION"
    ∷ codes "AWS_ACCESS_KEY_ID"
    ∷ codes "AWS_SECRET_ACCESS_KEY"
    ∷ codes "MINIO_BUCKET"
    ∷ []

abbrev pub required_vars : Bool → List Text
required_vars minio =
    codes "DATABASE_URL"
    ∷ codes "JWT_SECRET"
    ∷ codes "JWT_ACCESS_EXPIRY"
    ∷ codes "JWT_REFRESH_EXPIRY"
    ∷ codes "FRONTEND_URL"
    ∷ storage_vars minio

unfoldable pub validate_env : Env → Verdict
unfolding known_modes require_vars
validate_env env =
    if includes known_modes (node_env env)
    then require_vars env (required_vars (use_minio env))
    else bad_node_env

-- A variable that is set to more than blanks.
abbrev pub IsGiven : Env → Text → Type 0
IsGiven env key = (value : Text) × (env key ≡ some value) × (trim value ≢ [])

-- The same, by the lists of the check.
pub record PassesLists (env : Env) : Type 0 where
  pub known_mode : In (node_env env) known_modes
  pub given : (key : Text) → In key (required_vars (use_minio env)) → IsGiven env key

is_empty_iff : (t : Text) → (is_empty t ≡ false) ↔ (t ≢ [])
is_empty_iff [] = (λ h. ground arith, λ h. absurd (h refl))
is_empty_iff (c ∷ t) = (λ h e. ground arith, λ h. refl)

set_iff : (value : Text) → (is_blank (some value) ≡ false) ↔ (trim value ≢ [])
unfolding is_blank trim trim_start trim_end
set_iff [] = (λ h. ground arith, λ h. absurd (h refl))
set_iff (c ∷ t) = is_empty_iff (trim (c ∷ t))

blank_iff : (env : Env) (key : Text) → (is_blank (env key) ≡ false) ↔ IsGiven env key
unfolding is_blank
blank_iff env key = elim (Option-cases (env key)) [
  | inl unset ↦ (λ h. ground (arith, unset), λ (value, set, full). ground (arith, unset, set))
  | inr (value, set) ↦ (
    λ h. (value, set, (set_iff value).0 (rw set at h)),
    λ (other, set', full). rw set' ((set_iff other).1 full),
  )
]

require_vars_given :
    (env : Env) (keys : List Text)
    → require_vars env keys ≡ valid
    → (key : Text) → In key keys
    → IsGiven env key
unfolding require_vars
require_vars_given env [] h key m = absurd m
require_vars_given env (k ∷ keys) h key m = elim (Bool-cases (is_blank (env k))) [
  | inl blank ↦ ground (arith, h, blank)
  | inr full ↦ elim m [
    | inl same ↦ subst (IsGiven env) same ((blank_iff env k).0 full)
    | inr later ↦ require_vars_given env keys (rw (full, require_vars) at h) key later
  ]
]

given_require_vars :
    (env : Env) (keys : List Text)
    → ((key : Text) → In key keys → IsGiven env key)
    → require_vars env keys ≡ valid
unfolding require_vars
given_require_vars env [] h = refl
given_require_vars env (k ∷ keys) h =
    rw ((blank_iff env k).1 (h k (inl refl))) (given_require_vars env keys (λ key m. h key (inr m)))

-- The check passes exactly by its lists.
pub validate_env-PassesLists : (env : Env) → (validate_env env ≡ valid) ↔ PassesLists env
unfolding validate_env
validate_env-PassesLists env = elim (Bool-cases (includes known_modes (node_env env))) [
  | inl known ↦ (
    λ h. record {
      known_mode = (includes_iff known_modes (node_env env)).0 known;
      given =
          require_vars_given env (required_vars (use_minio env)) (rw (known, validate_env) at h);
    },
    λ c. rw known (given_require_vars env (required_vars (use_minio env)) c.given),
  )
  | inr unknown ↦ (
    λ h. ground (arith, unknown),
    λ c. ground (arith, unknown, (includes_iff known_modes (node_env env)).1 c.known_mode),
  )
]
