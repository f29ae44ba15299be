-- ===== src/Environment/Credentials.antt =====
-- The check of the environment with the constructor of src/storage/storage.service.ts.
-- What the storage service reads.
use rooeel_backend_api.Prelude.{
  true, some, [], ◌∷◌, ◌≡◌, refl, sym, ap, ◌∙◌, ◌≢◌, ◌⊎◌, false, inl, inr, In, Bool-cases,
}
use rooeel_backend_api.Text.{Text, codes}
use rooeel_backend_api.Text.{to_lower_case, text_eq, text_eq_iff, lower, trim, trim_start, trim_end}
use rooeel_backend_api.Storage.{StorageEnv, client_config, is_minio, or_text}
use rooeel_backend_api.Environment.{
  Env, IsGiven, validate_env, valid, validate_env-PassesLists, use_minio, storage_vars,
}

abbrev pub storage_env : Env → StorageEnv
storage_env env = record {
  use_minio = env (codes "USE_MINIO");
  bucket = env (codes "MINIO_BUCKET");
  region = env (codes "AWS_REGION");
  minio_endpoint = env (codes "MINIO_ENDPOINT");
  minio_public_endpoint = env (codes "MINIO_PUBLIC_ENDPOINT");
  minio_user = env (codes "MINIO_ROOT_USER");
  minio_password = env (codes "MINIO_ROOT_PASSWORD");
  aws_key = env (codes "AWS_ACCESS_KEY_ID");
  aws_secret = env (codes "AWS_SECRET_ACCESS_KEY");
}

or_text_given :
    (env : Env) (key fallback : Text)
    → IsGiven env key
    → some (or_text (env key) fallback) ≡ env key
unfolding trim trim_start trim_end
or_text_given env key fallback ([], set, full) = absurd (full refl)
or_text_given env key fallback (c ∷ v, set, full) = rw set refl

-- The credentials of the client are two variables that are set to more than blanks.
pub record HasCredentials (env : Env) : Type 0 where
  pub user_key : Text
  pub secret_key : Text
  pub user_given : IsGiven env user_key
  pub secret_given : IsGiven env secret_key
  pub access : (client_config (storage_env env)).access_key ≡ env user_key
  pub secret : (client_config (storage_env env)).secret ≡ env secret_key

-- `USE_MINIO` is the word `true`, or it is set, not empty and no spelling of `true`.
abbrev pub IsPlainChoice : Env → Type 0
IsPlainChoice env =
    (env (codes "USE_MINIO") ≡ some (codes "true"))
    ⊎ ((value : Text) × (env (codes "USE_MINIO") ≡ some value)
        × (value ≢ [])
        × (to_lower_case value ≢ codes "true"))

apart : (s t : Text) → s ≢ t → text_eq s t ≡ false
apart s t other = elim (Bool-cases (text_eq s t)) [
  | inl same ↦ absurd (other ((text_eq_iff s t).0 same))
  | inr differs ↦ differs
]

lower_true : to_lower_case (codes "true") ≡ codes "true"
unfolding to_lower_case lower
lower_true = refl

true_alike :
    text_eq (to_lower_case (codes "true")) (codes "true") ≡ text_eq (codes "true") (codes "true")
true_alike = rw lower_true refl

-- Then the check of the environment and the service read it alike.
readings_agree : (env : Env) → IsPlainChoice env → use_minio env ≡ is_minio (storage_env env)
readings_agree env (inl word) = rw word true_alike
readings_agree env (inr ([], set, full, other)) = absurd (full refl)
readings_agree env (inr (c ∷ v, set, full, other)) = rw set (
    apart (to_lower_case (c ∷ v)) (codes "true") other
    ∙ sym (apart (c ∷ v) (codes "true") (λ e. other (ap to_lower_case e ∙ lower_true))))

-- If the environment is accepted, and `USE_MINIO` is the word `true`, or is set, not empty and no
-- spelling of `true`, then the client of the bucket has credentials that the environment gives, and
-- not the fallback in the code or none.
pub accepted-HasCredentials :
    (env : Env) → validate_env env ≡ valid → IsPlainChoice env → HasCredentials env
unfolding client_config
accepted-HasCredentials env accepted choice =
    let agree = readings_agree env choice in
    let given = ((validate_env-PassesLists env).0 accepted).given in
    elim (Bool-cases (use_minio env)) [
      | inl minio ↦
          let need : (key : Text) → In key (storage_vars true) → IsGiven env key =
            λ key m. given key (rw minio (inr (inr (inr (inr (inr m)))))) in
          let user = need (codes "MINIO_ROOT_USER") (inl refl) in
          let secret = need (codes "MINIO_ROOT_PASSWORD") (inr (inl refl)) in
          let chosen : is_minio (storage_env env) ≡ true = cc in
          record {
            user_key = codes "MINIO_ROOT_USER";
            secret_key = codes "MINIO_ROOT_PASSWORD";
            user_given = user;
            secret_given = secret;
            access = rw (chosen, client_config) (or_text_given env _ (codes "minioadmin") user);
            secret = rw (chosen, client_config) (or_text_given env _ (codes "minioadmin") secret);
          }
      | inr aws ↦
          let need : (key : Text) → In key (storage_vars false) → IsGiven env key =
            λ key m. given key (rw aws (inr (inr (inr (inr (inr m)))))) in
          let chosen : is_minio (storage_env env) ≡ false = cc in
          record {
            user_key = codes "AWS_ACCESS_KEY_ID";
            secret_key = codes "AWS_SECRET_ACCESS_KEY";
            user_given = need (codes "AWS_ACCESS_KEY_ID") (inr (inl refl));
            secret_given = need (codes "AWS_SECRET_ACCESS_KEY") (inr (inr (inl refl)));
            access = rw (chosen, client_config) refl;
            secret = rw (chosen, client_config) refl;
          }
    ]
