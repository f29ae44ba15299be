-- ===== src/Auth/Reset/OneTime.antt =====
-- Resetting a password by a link: what it has met and done, and the login after it.
use rooeel_backend_api.Prelude.{
  ◌==◌, ℕ, String, ◌≡◌, refl, none, some, true, false, arith, Option-cases, inl, inr, ok, err,
  str_eq, eq_iff, if◌then◌else◌, ltb, ◌≤◌,
}
use rooeel_backend_api.Auth.Session.{Subject, validate_user}
use rooeel_backend_api.User.{find_by_email}
use rooeel_backend_api.Prisma.Unique.{breaks_unique}
use rooeel_backend_api.Schema.{user}
use rooeel_backend_api.Prisma.{Engine}
use rooeel_backend_api.Prisma.Unique.{IsUnique, find_unique_at}
use rooeel_backend_api.Schema.{User, PasswordResetToken}
use rooeel_backend_api.World.{Accounts}
use rooeel_backend_api.Services.{Services}
use rooeel_backend_api.User.{store_password}
use rooeel_backend_api.User.Emails.{HasUniqueEmails, email_of}
use rooeel_backend_api.Auth.Reset.{Refusals, by_token, use_token, reset_password_with}

abbrev pub token_of : PasswordResetToken → String
token_of t = t.token

-- No two stored tokens are the same.
abbrev pub HasUniqueTokens : (db : Engine) → Accounts db → Type 0
HasUniqueTokens db w = IsUnique db token_of w.reset_tokens

-- What a successful reset has met and done.
pub record IsSpent (db : Engine) (ext : Services) (now : ℕ) (token new_password : String) (salt : ℕ)
    (w w' : Accounts db) : Type 0 where
  pub id : ℕ
  pub stored : PasswordResetToken
  pub owner : ℕ
  pub user : User
  pub listed : db.row w.reset_tokens id ≡ some stored
  pub named : stored.token ≡ token
  pub unused : stored.used_at ≡ none
  pub in_time : ltb stored.expires_at now ≡ false
  pub of_owner : db.row w.users owner ≡ some user
  pub by_email : user.email ≡ stored.email
  pub tokens :
      (j : ℕ)
      → db.row w'.reset_tokens j
        ≡ (if id == j then some (use_token now stored) else db.row w.reset_tokens j)
  pub users :
      (j : ℕ)
      → db.row w'.users j ≡ (
          if owner == j
          then some (store_password (ext.hash salt new_password) user)
          else db.row w.users j)

module _ (db : Engine) (ext : Services) (refusals : Refusals) (now : ℕ)
    (token new_password : String) (salt : ℕ) (w : Accounts db) where
  -- If resetting a password by a link answers, then the link was stored, unused and in time, and
  -- its address that of a stored user; afterwards the link is marked as used, the hash of the new
  -- password is that user's password, and the other links and users are as they were.
  reset_password_with-IsSpent :
      {w' : Accounts db}
      → reset_password_with db ext refusals now token new_password salt w ≡ (ok tt, w')
      → IsSpent db ext now token new_password salt w w'
  unfolding reset_password_with
  reset_password_with-IsSpent {w'} h =
      elim (Option-cases (db.find w.reset_tokens (by_token token))) [
        | inl unknown ↦ ground arith
        | inr ((i, t), found) ↦
            elim (Option-cases (db.find w.users (λ j u. str_eq u.email t.email))) [
              | inl nobody ↦ ground arith
              | inr ((k, u), found') ↦
                  let (there, same) = db.find-sound w.reset_tokens (by_token token) i t found in
                  let (there', same') =
                    db.find-sound w.users (λ j u. str_eq u.email t.email) k u found' in
                  record {
                    id = i;
                    stored = t;
                    owner = k;
                    user = u;
                    listed = there;
                    named = (eq_iff t.token token).0 same;
                    unused = ground arith;
                    in_time = ground arith;
                    of_owner = there';
                    by_email = (eq_iff u.email t.email).0 same';
                    tokens = λ j. ground (arith, db.row-put w.reset_tokens i (use_token now t) j);
                    users = λ j. ground (
                      arith,
                      db.row-put w.users k (store_password (ext.hash salt new_password) u) j,
                    );
                  }
            ]
      ]

module _ (db : Engine) (ext : Services) where
  IsSpent-HasUniqueTokens :
      (now : ℕ) (token new_password : String) (salt : ℕ) (w w' : Accounts db)
      → HasUniqueTokens db w
      → IsSpent db ext now token new_password salt w w'
      → HasUniqueTokens db w'
  IsSpent-HasUniqueTokens now token new_password salt w w' h r i j a b hi hj e =
      ground (
        arith,
        r.tokens i,
        r.tokens j,
        r.listed,
        h i j a b,
        h r.id j r.stored b,
        h i r.id a r.stored,
      )

  refused_if_used :
      (refusals : Refusals) (now : ℕ) (token other : String) (salt i : ℕ) (t : PasswordResetToken)
      (at : ℕ) (w : Accounts db)
      → db.find w.reset_tokens (by_token token) ≡ some (i, t)
      → t.used_at ≡ some at
      → reset_password_with db ext refusals now token other salt w ≡ (err refusals.used, w)
  unfolding reset_password_with
  refused_if_used refusals now token other salt i t at w found used = ground arith

  -- Where no two stored links have the same token: once a link has reset a password, either
  -- service refuses it at any time as used, and changes nothing.
  pub reset_password_once :
      (refusals refusals' : Refusals) (now now' : ℕ) (token new_password other : String)
      (salt salt' : ℕ) (w w' : Accounts db)
      → HasUniqueTokens db w
      → reset_password_with db ext refusals now token new_password salt w ≡ (ok tt, w')
      → reset_password_with db ext refusals' now' token other salt' w' ≡ (err refusals'.used, w')
  reset_password_once refusals refusals' now now' token new_password other salt salt' w w' h done =
      let r = reset_password_with-IsSpent db ext refusals now token new_password salt w done in
      let found =
        find_unique_at db token_of w'.reset_tokens r.id (use_token now r.stored) token
          (IsSpent-HasUniqueTokens now token new_password salt w w' h r)
          (ground (arith, r.tokens r.id)) r.named in
      refused_if_used refusals' now' token other salt' r.id (use_token now r.stored) now w' found
        refl

  IsSpent-HasUniqueEmails :
      (now : ℕ) (token new_password : String) (salt : ℕ) (w w' : Accounts db)
      → HasUniqueEmails db w
      → IsSpent db ext now token new_password salt w w'
      → HasUniqueEmails db w'
  IsSpent-HasUniqueEmails now token new_password salt w w' h r i j a b hi hj e = ground (
    arith,
    r.users i,
    r.users j,
    r.of_owner,
    h i j a b,
    h r.owner j r.user b,
    h i r.owner a r.user,
  )

  pub checked :
      (address pass : String) (i : ℕ) (u : User) (w : Accounts db)
      → db.find w.users (λ j v. str_eq v.email address) ≡ some (i, u)
      → ext.compare pass u.password ≡ true
      → validate_user db ext address pass w
        ≡ (ok (some (record { id = i; email = u.email; role = user })), w)
  unfolding validate_user find_by_email
  checked address pass i u w found fits = ground arith

  -- Where no two users share an address: after a link has reset a password, the address of the
  -- stored link logs in with the new password.
  pub validate_user-reset_password :
      (refusals : Refusals) (now : ℕ) (token new_password : String) (salt : ℕ) (w w' : Accounts db)
      → HasUniqueEmails db w
      → reset_password_with db ext refusals now token new_password salt w ≡ (ok tt, w')
      → (id : ℕ) × (stored : PasswordResetToken) × (who : Subject) × (db.row w.reset_tokens id
          ≡ some stored)
        × (stored.token ≡ token)
        × (who.email ≡ stored.email)
        × (validate_user db ext stored.email new_password w' ≡ (ok (some who), w'))
  validate_user-reset_password refusals now token new_password salt w w' h done =
      let r = reset_password_with-IsSpent db ext refusals now token new_password salt w done in
      let found =
        find_unique_at db email_of w'.users r.owner
          (store_password (ext.hash salt new_password) r.user) r.stored.email
          (IsSpent-HasUniqueEmails now token new_password salt w w' h r)
          (ground (arith, r.users r.owner)) r.by_email in
      (
        r.id,
        r.stored,
        record { id = r.owner; email = r.user.email; role = user },
        r.listed,
        r.named,
        r.by_email,
        checked r.stored.email new_password r.owner
            (store_password (ext.hash salt new_password) r.user) w' found
            (ext.compare-hash salt new_password),
      )

  -- Where no two stored links have the same token and no two users the same address: a stored link
  -- that is unused and in time, and whose address is that of a stored user, resets the password.
  pub reset_password_works :
      (refusals : Refusals) (now : ℕ) (token new_password : String) (salt : ℕ) (w : Accounts db)
      (i k : ℕ) (t : PasswordResetToken) (u : User)
      → HasUniqueTokens db w
      → HasUniqueEmails db w
      → db.row w.reset_tokens i ≡ some t
      → t.token ≡ token
      → t.used_at ≡ none
      → now ≤ t.expires_at
      → db.row w.users k ≡ some u
      → u.email ≡ t.email
      → (reset_password_with db ext refusals now token new_password salt w).0 ≡ ok tt
  unfolding reset_password_with
  reset_password_works refusals now token new_password salt w i k t u ht hu at named unused in_time
        of_user same =
      let found : db.find w.reset_tokens (by_token token) ≡ some (i, t) =
        find_unique_at db token_of w.reset_tokens i t token ht at named in
      let found' : db.find w.users (λ j v. str_eq v.email t.email) ≡ some (k, u) =
        find_unique_at db email_of w.users k u t.email hu of_user same in
      ground (
        arith,
        breaks_unique db email_of w.users k u (store_password (ext.hash salt new_password) u) hu,
        breaks_unique db token_of w.reset_tokens i t (use_token now t) ht,
      )
