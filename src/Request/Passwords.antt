-- ===== src/Request/Passwords.antt =====
-- A password that a request or a mail hands out in src/request/services/request.service.ts, and the
-- login of src/auth/services/auth.service.ts.
use mathlib.Core.Path.{subst}
use rooeel_backend_api.Prelude.{◌∙◌, false, ap, ℕ, String, ◌≡◌, refl, some, arith, ok, str_eq, ◌∷◌}
use rooeel_backend_api.Prisma.{Engine}
use rooeel_backend_api.Prisma.Unique.{find_unique_at}
use rooeel_backend_api.Schema.{User, UserRequest, user}
use rooeel_backend_api.World.{Accounts, Mail}
use rooeel_backend_api.Services.{Services}
use rooeel_backend_api.User.Emails.{HasUniqueEmails, email_of}
use rooeel_backend_api.Auth.Session.{validate_user}
use rooeel_backend_api.Auth.Reset.OneTime.{checked}
use rooeel_backend_api.Request.{GeneratedPassword, set_password, generate_password, forgot_password}
use rooeel_backend_api.Request.Approval.{generate_password-EditsUser, generate_password-Settles}
use rooeel_backend_api.Request.Emails.{
  generate_password-HasUniqueEmails, forgot_password-HasUniqueEmails,
}

module _ (db : Engine) (ext : Services) where
  answered-password :
      (id admin_id : ℕ) (plain : String) (salt : ℕ) (w w' : Accounts db) (g : GeneratedPassword)
      (q : UserRequest)
      → generate_password db ext id admin_id plain salt w ≡ (ok g, w')
      → db.row w.requests id ≡ some q
      → (g.generated_password ≡ plain) × (g.user_id ≡ q.user_id)
  unfolding generate_password
  answered-password id admin_id plain salt w w' g q done found = (ground arith, ground arith)

  -- Where no two users share an address: if `generatePassword` answers, then its answer names a
  -- stored user, and the address of that user logs in with the password of the answer, as that
  -- user.
  pub validate_user-generate_password :
      (id admin_id : ℕ) (plain : String) (salt : ℕ) (w w' : Accounts db) (g : GeneratedPassword)
      → HasUniqueEmails db w
      → generate_password db ext id admin_id plain salt w ≡ (ok g, w')
      → (u : User) × (db.row w.users g.user_id ≡ some u)
        × (validate_user db ext u.email g.generated_password w'
            ≡ (ok (some (record { id = g.user_id; email = u.email; role = user })), w'))
  validate_user-generate_password id admin_id plain salt w w' g h done =
      let s = generate_password-Settles db ext id admin_id w plain salt done in
      let q = s.request in
      let (same, owner) = answered-password id admin_id plain salt w w' g q done s.found in
      let e = generate_password-EditsUser db ext id admin_id w plain salt q done s.found in
      let h' : HasUniqueEmails db w' =
        subst (HasUniqueEmails db) (ap (λ x. x.1) done)
          (generate_password-HasUniqueEmails db ext w h id admin_id plain salt) in
      let u' = set_password (ext.hash salt plain) e.before in
      let found =
        find_unique_at db email_of w'.users q.user_id u' e.before.email h'
          (ground (arith, e.after q.user_id)) refl in
      rw (same, owner)
        (
          e.before,
          e.found,
          checked db ext e.before.email plain q.user_id u' w' found (ext.compare-hash salt plain),
        )

  -- The mail that goes out with a temporary password.
  abbrev mail_of : User → String → Mail
  mail_of u temporary = record {
    to_email = u.email;
    first_name = u.first_name;
    secret = temporary;
    is_link = false;
  }

  forgotten_state :
      (address temporary : String) (salt i : ℕ) (u : User) (w w' : Accounts db)
      → db.find w.users (λ k v. str_eq v.email address) ≡ some (i, u)
      → db.row w.users i ≡ some u
      → forgot_password db ext address temporary salt w ≡ (ok tt, w')
      → w' ≡ record w {
        users = db.put w.users i (set_password (ext.hash salt temporary) u);
        outbox = mail_of u temporary ∷ w.outbox;
      }
  unfolding forgot_password
  forgotten_state address temporary salt i u w w' found at done = ground arith

  -- Where no two users share an address: if `forgotPassword` of the requests answers for the address
  -- of a stored user, then one mail has gone out, to that address, and the address logs in as that
  -- user with the password in the mail.
  pub validate_user-forgot_password :
      (address temporary : String) (salt i : ℕ) (u : User) (w w' : Accounts db)
      → HasUniqueEmails db w
      → db.row w.users i ≡ some u
      → u.email ≡ address
      → forgot_password db ext address temporary salt w ≡ (ok tt, w')
      → (mail : Mail) × (w'.outbox ≡ mail ∷ w.outbox)
        × (mail.to_email ≡ address)
        × (validate_user db ext address mail.secret w'
            ≡ (ok (some (record { id = i; email = address; role = user })), w'))
  validate_user-forgot_password address temporary salt i u w w' h at named done =
      let state =
        forgotten_state address temporary salt i u w w'
          (find_unique_at db email_of w.users i u address h at named) at done in
      let h' : HasUniqueEmails db w' =
        subst (HasUniqueEmails db) (ap (λ x. x.1) done)
          (forgot_password-HasUniqueEmails db ext w h address temporary salt) in
      let u' = set_password (ext.hash salt temporary) u in
      let at' : db.row w'.users i ≡ some u' = ground (arith, state, db.row-put w.users i u' i) in
      let found = find_unique_at db email_of w'.users i u' address h' at' named in
      (
        mail_of u temporary,
        ap (λ x. x.outbox) state,
        named,
        checked db ext address temporary i u' w' found (ext.compare-hash salt temporary)
            ∙ ap (λ e. (ok (some (record { id = i; email = e; role = user })), w')) named,
      )
