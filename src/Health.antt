-- ===== src/Health.antt =====
-- src/app.service.ts: the greeting, and the checks of liveness and readiness, which the routes of
-- src/app.controller.ts answer with; and the query of src/app.resolver.ts.
pub mod Readiness
use rooeel_backend_api.Prelude.{
  ℕ, String, Bool, true, false, ◌&&◌, not, Option, none, some, if◌then◌else◌,
}
use rooeel_backend_api.Text.{Text, codes, text_eq, is_empty}
use rooeel_backend_api.Environment.{Env}

abbrev pub get_hello : String
get_hello = "Hello World!"

abbrev pub health_check : String
health_check = "GraphQL API is active and running!"

pub record Liveness : Type 0 where
  pub status : String
  pub service : String
  pub timestamp : ℕ

abbrev pub get_liveness : ℕ → Liveness
get_liveness now = record { status = "ok"; service = "rooeel-backend-api"; timestamp = now }

pub record Checks : Type 0 where
  pub database : Bool
  pub cache : Bool
  pub storage : Bool

pub data Status : Type 0 where
  well degraded : Status

pub record Report : Type 0 where
  pub status : Status
  pub checks : Checks
  pub timestamp : ℕ

-- What the two services that are tried come to: whether the query answers, and what the cache gives
-- back for the key that was set; `none` where setting or getting throws.
pub record Probe : Type 0 where
  pub query_answers : Bool
  pub cached : Option (Option Text)

-- `value === 'ok'`
abbrev pub cache_works : Option (Option Text) → Bool
cache_works none = false
cache_works (some none) = false
cache_works (some (some value)) = text_eq value (codes "ok")

-- A variable counts where it is set and not empty.
abbrev pub is_set : Option Text → Bool
is_set none = false
is_set (some value) = not (is_empty value)

-- `USE_MINIO === 'true'`
abbrev pub says_minio : Option Text → Bool
says_minio none = false
says_minio (some value) = text_eq value (codes "true")

unfoldable pub storage_ready : Env → Bool
storage_ready env =
    if says_minio (env (codes "USE_MINIO"))
    then is_set (env (codes "MINIO_ROOT_USER"))
      && is_set (env (codes "MINIO_ROOT_PASSWORD"))
      && is_set (env (codes "MINIO_BUCKET"))
    else is_set (env (codes "AWS_ACCESS_KEY_ID"))
      && is_set (env (codes "AWS_SECRET_ACCESS_KEY"))
      && is_set (env (codes "AWS_REGION"))
      && is_set (env (codes "MINIO_BUCKET"))

unfoldable pub get_readiness : Env → Probe → ℕ → Report
unfolding storage_ready
get_readiness env probe now =
    let checks : Checks = record {
      database = probe.query_answers;
      cache = cache_works probe.cached;
      storage = storage_ready env;
    } in
    record {
      status = if checks.database && checks.cache && checks.storage then well else degraded;
      checks = checks;
      timestamp = now;
    }
