-- ===== src/Storage.antt =====
-- src/storage/storage.service.ts: the files of work orders, in a bucket of an object store.
use rooeel_backend_api.Prelude.{
  ℕ, ◌==◌, Bool, true, false, Option, none, some, List, [], ◌∷◌, ◌++◌, not, keep, Action, ok, err,
  service_failure, if◌then◌else◌, or_else,
}
use rooeel_backend_api.Text.{Text, codes, text_eq, is_empty}

-- What the client of the object store does at one call: its time, whether a command goes through,
-- the address that it signs for a time, a number of seconds until it expires, a key and the name
-- under which the file is shown, and the content that it reads. Another call has a record of its own.
pub record ObjectStore : Type 0 where
  pub now : ℕ
  pub takes : Text → Bool
  pub drops : Text → Bool
  pub signs : ℕ → ℕ → Text → Text → Option Text
  pub reads : Text → Option Text

-- The variables that the service reads.
pub record StorageEnv : Type 0 where
  pub use_minio : Option Text
  pub bucket : Option Text
  pub region : Option Text
  pub minio_endpoint : Option Text
  pub minio_public_endpoint : Option Text
  pub minio_user : Option Text
  pub minio_password : Option Text
  pub aws_key : Option Text
  pub aws_secret : Option Text

pub record ClientConfig : Type 0 where
  pub region : Text
  pub endpoint : Option Text
  pub force_path_style : Bool
  pub access_key : Option Text
  pub secret : Option Text

-- `value || fallback`
abbrev pub or_text : Option Text → Text → Text
or_text none fallback = fallback
or_text (some s) fallback = if is_empty s then fallback else s

unfoldable pub starts_with : Text → Text → Bool
starts_with [] s = true
starts_with (p ∷ ps) [] = false
starts_with (p ∷ ps) (c ∷ s) = if c == p then starts_with ps s else false

unfoldable pub with_scheme : Text → Text
unfolding starts_with
with_scheme endpoint =
    if starts_with (codes "http") endpoint then endpoint else codes "http://" ++ endpoint

abbrev pub is_minio : StorageEnv → Bool
is_minio env = text_eq (or_else env.use_minio []) (codes "true")

abbrev pub bucket_name : StorageEnv → Text
bucket_name env = or_text env.bucket (codes "rooeel")

-- The configuration of the client that reads and writes.
unfoldable pub client_config : StorageEnv → ClientConfig
unfolding with_scheme
client_config env =
    if is_minio env
    then record {
      region = or_text env.region (codes "us-east-1");
      endpoint = some (with_scheme (or_text env.minio_endpoint (codes "localhost:9000")));
      force_path_style = true;
      access_key = some (or_text env.minio_user (codes "minioadmin"));
      secret = some (or_text env.minio_password (codes "minioadmin"));
    }
    else record {
      region = or_text env.region (codes "us-east-1");
      endpoint = none;
      force_path_style = false;
      access_key = env.aws_key;
      secret = env.aws_secret;
    }

-- The same for the client that signs addresses, which the browser has to reach.
unfoldable pub presign_config : StorageEnv → ClientConfig
unfolding client_config with_scheme
presign_config env =
    if is_minio env
    then record (client_config env) {
      endpoint = some (with_scheme (or_text env.minio_public_endpoint (codes "localhost:9000")));
    }
    else client_config env

-- `s.split(separator).pop()`: what stands after the last separator, or all.
unfoldable pub last_part_from : ℕ → Text → Text → Text
last_part_from c seen [] = seen
last_part_from c seen (d ∷ s) = last_part_from c (if d == c then [] else seen ++ (d ∷ [])) s

abbrev pub last_part : ℕ → Text → Text
last_part c s = last_part_from c [] s

-- The name under which a signed address shows a file.
unfoldable pub shown_name : Text → Text → Text
unfolding last_part_from
shown_name file_key file_name =
    or_text (some file_name) (or_text (some (last_part b'/' file_key)) (codes "document.pdf"))

-- `uploadFile` names a file by what `uuidv4` draws.
unfoldable pub key_of_file : Text → Text → Text → Text
unfolding last_part_from
key_of_file folder uuid original_name =
    folder ++ (b'/' ∷ (uuid ++ (b'.' ∷ last_part b'.' original_name)))

-- The address expires in 15 minutes.
unfoldable pub get_presigned_url : {S : Type 0} → ObjectStore → Text → Text → Action S Text
unfolding shown_name
get_presigned_url s3 file_key file_name w =
    elim (s3.signs s3.now 900 file_key (shown_name file_key file_name)) [
      | none ↦ (err service_failure, w)
      | some url ↦ (ok url, w)
    ]

unfoldable pub get_file_stream : {S : Type 0} → ObjectStore → Text → Action S Text
get_file_stream s3 file_key w = elim (s3.reads file_key) [
  | none ↦ (err service_failure, w)
  | some body ↦ (ok body, w)
]

-- The keys of the files that the bucket holds.
abbrev pub Files : Type 0
Files = List Text

unfoldable pub upload_file : ObjectStore → Text → Text → Text → Action Files Text
unfolding key_of_file
upload_file s3 folder uuid original_name files =
    let key = key_of_file folder uuid original_name in
    if s3.takes key then (ok key, key ∷ files) else (err service_failure, files)

unfoldable pub delete_file : ObjectStore → Text → Action Files (Unit {0})
delete_file s3 key files =
    if s3.drops key
    then (ok tt, keep (λ k. not (text_eq k key)) files)
    else (err service_failure, files)

-- `getFileUrl`
unfoldable pub get_file_url : StorageEnv → Text → Option Text
get_file_url env file_key =
    if is_empty file_key
    then none
    else if is_minio env
    then some (codes "http://localhost:9000/" ++ (bucket_name env ++ (b'/' ∷ file_key)))
    else some (
        codes "https://"
        ++ (bucket_name env
            ++ (codes ".s3."
                ++ (or_text env.region (codes "us-east-1")
                    ++ (codes ".amazonaws.com/" ++ file_key)))))
