-- ===== src/Health/Readiness.antt =====
-- The readiness of a program that has started: the environment was accepted.
use mathlib.Core.Option.{some-injective}
use rooeel_backend_api.Prelude.{
  Option, none, ap, ◌∙◌, ◌∙◌, ℕ, true, false, some, [], ◌∷◌, ◌≡◌, ◌↔◌, refl, sym, inl, inr, In,
  Bool-cases, arith,
}
use rooeel_backend_api.Text.{text_eq_iff, Text, codes, trim, trim_start, trim_end}
use rooeel_backend_api.Environment.{
  Env, IsGiven, validate_env, valid, validate_env-PassesLists, use_minio, storage_vars,
}
use rooeel_backend_api.Health.{
  Probe, well, is_set, says_minio, storage_ready, cache_works, get_readiness,
}

set-given : (env : Env) (key : Text) → IsGiven env key → is_set (env key) ≡ true
unfolding trim trim_start trim_end
set-given env key ([], set, full) = absurd (full refl)
set-given env key (c ∷ v, set, full) = rw set refl

cache_works_iff :
    (c : Option (Option Text)) → (cache_works c ≡ true) ↔ (c ≡ some (some (codes "ok")))
cache_works_iff none = (λ h. ground arith, λ h. ground arith)
cache_works_iff (some none) = (λ h. ground arith, λ h. ground arith)
cache_works_iff (some (some value)) = (
  λ h. ap (λ v. some (some v)) ((text_eq_iff value (codes "ok")).0 h),
  λ h.
      (text_eq_iff value (codes "ok")).1 (some-injective value (codes "ok") (some-injective _ _ h)),
)

module _ (env : Env) (accepted : validate_env env ≡ valid)
    (agree : use_minio env ≡ says_minio (env (codes "USE_MINIO"))) where
  storage_ready_lem : storage_ready env ≡ true
  unfolding storage_ready
  storage_ready_lem = elim (Bool-cases (use_minio env)) [
    | inl minio ↦
        let need : (key : Text) → In key (storage_vars true) → is_set (env key) ≡ true = λ key m.
          set-given env key (
            ((validate_env-PassesLists env).0 accepted).given key
              (rw minio (inr (inr (inr (inr (inr m))))))) in
        rw (sym agree ∙ minio)
          (rw (need _ (inl refl)) (rw (need _ (inr (inl refl))) (need _ (inr (inr (inl refl))))))
    | inr aws ↦
        let need : (key : Text) → In key (storage_vars false) → is_set (env key) ≡ true = λ key m.
          set-given env key (
            ((validate_env-PassesLists env).0 accepted).given key
              (rw aws (inr (inr (inr (inr (inr m))))))) in
        rw (sym agree ∙ aws) (
          rw (need _ (inr (inl refl))) (
            rw (need _ (inr (inr (inl refl))))
              (rw (need _ (inl refl)) (need _ (inr (inr (inr (inl refl))))))))
  ]

  -- If the environment is accepted and the two readings of `USE_MINIO` agree, then the service is
  -- reported as ready exactly if the query answers and the cache gives back what was set.
  pub get_readiness_iff :
      (probe : Probe) (now : ℕ)
      → ((get_readiness env probe now).status ≡ well)
        ↔ ((probe.query_answers ≡ true) × (probe.cached ≡ some (some (codes "ok"))))
  unfolding get_readiness
  get_readiness_iff probe now = ground (arith, storage_ready_lem, cache_works_iff probe.cached)
