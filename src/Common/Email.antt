-- ===== src/Common/Email.antt =====
-- `EmailService.sendPasswordResetEmail` of src/common/services/email.service.ts. The subject and
-- the HTML are functions of the fields of the mail, and are left out.
use rooeel_backend_api.Prelude.{String, Bool, if◌then◌else◌, ◌∷◌, Action, ok, err, service_failure}
use rooeel_backend_api.Prisma.{Engine}
use rooeel_backend_api.World.{Mail, Accounts}
use rooeel_backend_api.Services.{Services}

-- A provider error, thrown or returned, is thrown on.
unfoldable pub send_password_reset_email :
    (db : Engine) → Services → String → String → String → Bool → Action (Accounts db) (Unit {0})
send_password_reset_email db ext to_email first_name secret is_link w =
    let mail : Mail = record {
      to_email = to_email;
      first_name = first_name;
      secret = secret;
      is_link = is_link;
    } in
    if ext.delivers mail
    then (ok tt, record w { outbox = mail ∷ w.outbox })
    else (err service_failure, w)
