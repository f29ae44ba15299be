-- ===== src/Environment/Contract.antt =====
-- What an accepted environment holds, variable by variable.
use rooeel_backend_api.Prelude.{
  Bool, true, false, none, some, [], ◌∷◌, ◌≡◌, ◌⊎◌, ◌↔◌, refl, sym, ap, ◌∙◌, arith, inl, inr, In,
  Bool-cases, Option-cases,
}
use rooeel_backend_api.Text.{Text, codes, to_lower_case, text_eq, text_eq_iff, lower}
use mathlib.Core.Path.{subst}
use rooeel_backend_api.Environment.{
  Env, IsGiven, validate_env, valid, validate_env-PassesLists, use_minio, node_env, known_modes,
  required_vars, storage_vars,
}

-- A variable that is not set, or to the empty text.
abbrev pub IsUnset : Env → Text → Type 0
IsUnset env key = (env key ≡ none) ⊎ (env key ≡ some [])

-- The modes, of which `development` is that of an environment that sets none.
pub data HasMode (env : Env) : Type 0 where
  unset_mode : IsUnset env (codes "NODE_ENV") → HasMode env
  development : env (codes "NODE_ENV") ≡ some (codes "development") → HasMode env
  test : env (codes "NODE_ENV") ≡ some (codes "test") → HasMode env
  production : env (codes "NODE_ENV") ≡ some (codes "production") → HasMode env

-- `USE_MINIO` is not set, or empty, or `true` in any case.
abbrev pub WantsMinio : Env → Type 0
WantsMinio env =
    IsUnset env (codes "USE_MINIO")
    ⊎ ((value : Text) × (env (codes "USE_MINIO") ≡ some value)
        × (to_lower_case value ≡ codes "true"))

-- What the chosen storage needs.
pub data HasStorage (env : Env) : Type 0 where
  minio :
      WantsMinio env
      → IsGiven env (codes "MINIO_ROOT_USER")
      → IsGiven env (codes "MINIO_ROOT_PASSWORD")
      → IsGiven env (codes "MINIO_BUCKET")
      → HasStorage env
  aws :
      (WantsMinio env → ⊥)
      → IsGiven env (codes "AWS_REGION")
      → IsGiven env (codes "AWS_ACCESS_KEY_ID")
      → IsGiven env (codes "AWS_SECRET_ACCESS_KEY")
      → IsGiven env (codes "MINIO_BUCKET")
      → HasStorage env

-- What the rest of the program may rely on.
pub record IsComplete (env : Env) : Type 0 where
  pub mode : HasMode env
  pub database : IsGiven env (codes "DATABASE_URL")
  pub jwt_secret : IsGiven env (codes "JWT_SECRET")
  pub access_expiry : IsGiven env (codes "JWT_ACCESS_EXPIRY")
  pub refresh_expiry : IsGiven env (codes "JWT_REFRESH_EXPIRY")
  pub frontend : IsGiven env (codes "FRONTEND_URL")
  pub storage : HasStorage env

module _ (env : Env) where
  wants_minio : use_minio env ≡ true → WantsMinio env
  wants_minio h = elim (Option-cases (env (codes "USE_MINIO"))) [
    | inl unset ↦ inl (inl unset)
    | inr ([], set) ↦ inl (inr set)
    | inr (c ∷ v, set) ↦
        inr (c ∷ v, set, (text_eq_iff (to_lower_case (c ∷ v)) (codes "true")).0 (rw set at h))
  ]

  wanted_minio : WantsMinio env → use_minio env ≡ true
  unfolding text_eq to_lower_case lower
  wanted_minio (inl (inl unset)) = rw unset refl
  wanted_minio (inl (inr empty)) = rw empty refl
  wanted_minio (inr ([], set, same)) = rw set refl
  wanted_minio (inr (c ∷ v, set, same)) =
      rw set ((text_eq_iff (to_lower_case (c ∷ v)) (codes "true")).1 same)

  mode_known : HasMode env → In (node_env env) known_modes
  unfolding known_modes
  mode_known (unset_mode (inl unset)) = rw unset (inl refl)
  mode_known (unset_mode (inr empty)) = rw empty (inl refl)
  mode_known (development set) = rw set (inl refl)
  mode_known (test set) = rw set (inr (inl refl))
  mode_known (production set) = rw set (inr (inr (inl refl)))

  named : (value : Text) → env (codes "NODE_ENV") ≡ some value → In value known_modes → HasMode env
  unfolding known_modes
  named value set (inl e) = development (set ∙ ap some (sym e))
  named value set (inr (inl e)) = test (set ∙ ap some (sym e))
  named value set (inr (inr (inl e))) = production (set ∙ ap some (sym e))
  named value set (inr (inr (inr m))) = absurd m

  known_mode : In (node_env env) known_modes → HasMode env
  unfolding known_modes
  known_mode m = elim (Option-cases (env (codes "NODE_ENV"))) [
    | inl unset ↦ unset_mode (inl unset)
    | inr ([], set) ↦ unset_mode (inr set)
    | inr (c ∷ v, set) ↦ named (c ∷ v) set (rw set at m)
  ]

  -- The part of the list that depends on the storage.
  chosen :
      (b : Bool)
      → use_minio env ≡ b
      → ((key : Text) → In key (required_vars (use_minio env)) → IsGiven env key)
      → (key : Text) → In key (storage_vars b)
      → IsGiven env key
  chosen b e given key m = given key (rw e (inr (inr (inr (inr (inr m))))))

  has_storage :
      ((key : Text) → In key (required_vars (use_minio env)) → IsGiven env key) → HasStorage env
  has_storage given = elim (Bool-cases (use_minio env)) [
    | inl e ↦
        let need = chosen true e given in
        minio (wants_minio e) (need _ (inl refl)) (need _ (inr (inl refl)))
          (need _ (inr (inr (inl refl))))
    | inr e ↦
        let need = chosen false e given in
        aws (λ wants. ground (arith, e, wanted_minio wants)) (need _ (inl refl))
          (need _ (inr (inl refl))) (need _ (inr (inr (inl refl))))
          (need _ (inr (inr (inr (inl refl)))))
  ]

  minio_given :
      IsGiven env (codes "MINIO_ROOT_USER")
      → IsGiven env (codes "MINIO_ROOT_PASSWORD")
      → IsGiven env (codes "MINIO_BUCKET")
      → (key : Text) → In key (storage_vars true)
      → IsGiven env key
  minio_given user secret bucket key (inl e) = subst (IsGiven env) e user
  minio_given user secret bucket key (inr (inl e)) = subst (IsGiven env) e secret
  minio_given user secret bucket key (inr (inr (inl e))) = subst (IsGiven env) e bucket
  minio_given user secret bucket key (inr (inr (inr m))) = absurd m

  aws_given :
      IsGiven env (codes "AWS_REGION")
      → IsGiven env (codes "AWS_ACCESS_KEY_ID")
      → IsGiven env (codes "AWS_SECRET_ACCESS_KEY")
      → IsGiven env (codes "MINIO_BUCKET")
      → (key : Text) → In key (storage_vars false)
      → IsGiven env key
  aws_given region user secret bucket key (inl e) = subst (IsGiven env) e region
  aws_given region user secret bucket key (inr (inl e)) = subst (IsGiven env) e user
  aws_given region user secret bucket key (inr (inr (inl e))) = subst (IsGiven env) e secret
  aws_given region user secret bucket key (inr (inr (inr (inl e)))) = subst (IsGiven env) e bucket
  aws_given region user secret bucket key (inr (inr (inr (inr m)))) = absurd m

  unwanted_minio : (WantsMinio env → ⊥) → use_minio env ≡ false
  unwanted_minio unwanted = elim (Bool-cases (use_minio env)) [
    | inl e ↦ absurd (unwanted (wants_minio e))
    | inr e ↦ e
  ]

  storage_given :
      HasStorage env → (key : Text) → In key (storage_vars (use_minio env)) → IsGiven env key
  storage_given (minio wants user secret bucket) key m =
      minio_given user secret bucket key (rw (wanted_minio wants) at m)
  storage_given (aws unwanted region user secret bucket) key m =
      aws_given region user secret bucket key (rw (unwanted_minio unwanted) at m)

  -- Each name of the list is one of the variables.
  required_given :
      IsComplete env → (key : Text) → In key (required_vars (use_minio env)) → IsGiven env key
  required_given c key (inl e) = subst (IsGiven env) e c.database
  required_given c key (inr (inl e)) = subst (IsGiven env) e c.jwt_secret
  required_given c key (inr (inr (inl e))) = subst (IsGiven env) e c.access_expiry
  required_given c key (inr (inr (inr (inl e)))) = subst (IsGiven env) e c.refresh_expiry
  required_given c key (inr (inr (inr (inr (inl e))))) = subst (IsGiven env) e c.frontend
  required_given c key (inr (inr (inr (inr (inr m))))) = storage_given c.storage key m

  complete :
      ((key : Text) → In key (required_vars (use_minio env)) → IsGiven env key)
      → HasMode env
      → IsComplete env
  complete given mode = record {
    mode = mode;
    database = given _ (inl refl);
    jwt_secret = given _ (inr (inl refl));
    access_expiry = given _ (inr (inr (inl refl)));
    refresh_expiry = given _ (inr (inr (inr (inl refl))));
    frontend = given _ (inr (inr (inr (inr (inl refl)))));
    storage = has_storage given;
  }

-- The environment is accepted exactly if `NODE_ENV` is `development`, `test`, `production`, empty or
-- not set; `DATABASE_URL`, `JWT_SECRET`, `JWT_ACCESS_EXPIRY`, `JWT_REFRESH_EXPIRY` and `FRONTEND_URL`
-- are set to more than blanks; and so are `MINIO_ROOT_USER`, `MINIO_ROOT_PASSWORD` and `MINIO_BUCKET`
-- if `USE_MINIO` is not set, empty or `true` in any case, and else `AWS_REGION`,
-- `AWS_ACCESS_KEY_ID`, `AWS_SECRET_ACCESS_KEY` and `MINIO_BUCKET`.
pub validate_env_iff : (env : Env) → (validate_env env ≡ valid) ↔ IsComplete env
validate_env_iff env =
    let lists = validate_env-PassesLists env in
    (
      λ h. let passed = lists.0 h in complete env passed.given (known_mode env passed.known_mode),
      λ c. lists.1 (record { known_mode = mode_known env c.mode; given = required_given env c }),
    )
