-- ===== src/Tests/Running.antt =====
-- The theorem on the readiness of the program, applied.
use rooeel_backend_api.Prelude.{some, true, if◌then◌else◌, ◌≡◌, ◌↔◌, refl}
use rooeel_backend_api.Text.{
  codes, trim, trim_start, trim_end, is_space, cons_trimmed, text_eq, to_lower_case, lower,
  includes,
}
use rooeel_backend_api.Environment.{Env, validate_env}
use rooeel_backend_api.Health.{Probe, well, get_readiness}
use rooeel_backend_api.Health.Readiness.{get_readiness_iff}

-- Every variable is "true", and the mode is "test".
abbrev all_set : Env
all_set key = if text_eq key (codes "NODE_ENV") then some (codes "test") else some (codes "true")

abbrev probe : Probe
probe = record { query_answers = true; cached = some (some (codes "ok")) }

get_readiness_iff_example :
    ((get_readiness all_set probe 7).status ≡ well)
    ↔ ((probe.query_answers ≡ true) × (probe.cached ≡ some (some (codes "ok"))))
unfolding validate_env includes text_eq trim trim_end trim_start is_space cons_trimmed to_lower_case
    lower
get_readiness_iff_example = get_readiness_iff all_set refl refl probe 7
