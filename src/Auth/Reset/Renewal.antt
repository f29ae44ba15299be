-- ===== src/Auth/Reset/Renewal.antt =====
-- A second link for an address, and the first: `forgotPassword` of src/auth/services/auth.service.ts
-- and `requestReset` of src/common/services/password-reset.service.ts.
use rooeel_backend_api.Prelude.{
  ap, ◌⊎◌, Bool-cases, ◌+◌, Bool, ℕ, String, ◌≡◌, ◌≢◌, none, some, true, arith, Option-cases, inl,
  inr, ok, err, str_eq, eq_iff, ltb, is_some, not, ◌&&◌, ◌∙◌,
}
use rooeel_backend_api.Prisma.{Engine}
use rooeel_backend_api.Prisma.Unique.{IsUnique, remove_where-IsUnique}
use rooeel_backend_api.Schema.{User, PasswordResetToken}
use rooeel_backend_api.World.{Accounts}
use rooeel_backend_api.Services.{Services}
use rooeel_backend_api.Auth.Reset.{
  Bool, Refusals, by_token, of_email, by_email, forgot_password, request_reset, reset_password_with,
  one_hour,
}
use rooeel_backend_api.Auth.Reset.OneTime.{HasUniqueTokens, token_of}

-- The rows that are left when those of a clause are gone and a new one is written.
module _ (db : Engine) (t : db.Rows PasswordResetToken) (gone : ℕ → PasswordResetToken → Bool)
    (i : ℕ) (old : PasswordResetToken) (unique : IsUnique db token_of t)
    (at : db.row t i ≡ some old) (goes : gone i old ≡ true) where
  -- No row that is left has the token of one that is gone.
  gone-token :
      (j : ℕ) (q : PasswordResetToken)
      → db.row (db.remove_where t gone) j ≡ some q
      → q.token ≢ old.token
  gone-token j q there same = ground (arith, db.row-remove_where t gone j, unique j i q old)

module _ (db : Engine) (ext : Services) where
  refused_unknown :
      (refusals : Refusals) (now : ℕ) (token other : String) (salt : ℕ) (w : Accounts db)
      → db.find w.reset_tokens (by_token token) ≡ none
      → reset_password_with db ext refusals now token other salt w ≡ (err refusals.unknown, w)
  unfolding reset_password_with
  refused_unknown refusals now token other salt w missing = ground arith

  -- The table after a new link was stored beside links with other tokens than `token`.
  missing_beside :
      (left : db.Rows PasswordResetToken) (n : ℕ) (new : PasswordResetToken) (token : String)
      → ((j : ℕ) (q : PasswordResetToken) → db.row left j ≡ some q → q.token ≢ token)
      → new.token ≢ token
      → db.find (db.put left n new) (by_token token) ≡ none
  missing_beside left n new token none_left apart =
      elim (Option-cases (db.find (db.put left n new) (by_token token))) [
        | inl missing ↦ missing
        | inr ((j, q), found) ↦
            let (there, same) = db.find-sound (db.put left n new) (by_token token) j q found in
            ground (arith, db.row-put left n new j, none_left j q, eq_iff q.token token)
      ]

  module _ (frontend : String) (now : ℕ) (token address : String) (w w' : Accounts db) where
    -- The link that a request for an address stores.
    abbrev new_link : PasswordResetToken
    new_link = record {
      email = address;
      token = token;
      expires_at = now + one_hour;
      used_at = none;
    }

    abbrev expired : ℕ → PasswordResetToken → Bool
    expired i t = str_eq t.email address && ltb t.expires_at now

    abbrev unused : ℕ → PasswordResetToken → Bool
    unused i t = str_eq t.email address && not (is_some t.used_at)

    module _ (k : ℕ) (u : User) (known : db.find w.users (by_email db address) ≡ some (k, u)) where
      forgotten_links :
          forgot_password db ext frontend now token address w ≡ (ok tt, w')
          → w'.reset_tokens ≡ (
              let left = db.remove_where w.reset_tokens (of_email address) in
              db.put left (db.next left) new_link)
      unfolding forgot_password
      forgotten_links done = ground arith

      requested_links :
          request_reset db ext frontend now token address w ≡ (ok tt, w')
          → w'.reset_tokens ≡ (
              let left = db.remove_where (db.remove_where w.reset_tokens expired) unused in
              db.put left (db.next left) new_link)
      unfolding request_reset
      requested_links done = ground arith

    module _ (i : ℕ) (old : PasswordResetToken) (unique : HasUniqueTokens db w)
        (at : db.row w.reset_tokens i ≡ some old) (of_address : old.email ≡ address)
        (fresh : old.used_at ≡ none) (apart : token ≢ old.token) where
      forgotten_missing :
          w'.reset_tokens ≡ (
            let left = db.remove_where w.reset_tokens (of_email address) in
            db.put left (db.next left) new_link)
          → db.find w'.reset_tokens (by_token old.token) ≡ none
      forgotten_missing e =
          let left = db.remove_where w.reset_tokens (of_email address) in
          ap (λ t. db.find t (by_token old.token)) e
          ∙ missing_beside left (db.next left) new_link old.token
              (gone-token db w.reset_tokens (of_email address) i old unique at
                ((eq_iff old.email address).1 of_address))
              apart

      -- The two deletions of `requestReset` leave no row with the token.
      twice_gone :
          (j : ℕ) (q : PasswordResetToken)
          → db.row (db.remove_where (db.remove_where w.reset_tokens expired) unused) j ≡ some q
          → q.token ≢ old.token
      twice_gone j q there same =
          let first = db.remove_where w.reset_tokens expired in
          elim (Bool-cases (expired i old)) [
            | inl over ↦
                gone-token db w.reset_tokens expired i old unique at over j q
                  (ground (arith, db.row-remove_where first unused j)) same
            | inr in_time ↦
                gone-token db first unused i old
                  (remove_where-IsUnique db token_of w.reset_tokens expired unique)
                  (ground (arith, db.row-remove_where w.reset_tokens expired i))
                  (ground (arith, (eq_iff old.email address).1 of_address)) j q there same
          ]

      requested_missing :
          w'.reset_tokens ≡ (
            let left = db.remove_where (db.remove_where w.reset_tokens expired) unused in
            db.put left (db.next left) new_link)
          → db.find w'.reset_tokens (by_token old.token) ≡ none
      requested_missing e =
          let left = db.remove_where (db.remove_where w.reset_tokens expired) unused in
          ap (λ t. db.find t (by_token old.token)) e
          ∙ missing_beside left (db.next left) new_link old.token twice_gone apart

      -- Where no two stored links have the same token: once either service has answered a request
      -- for a new link for the address of a stored user, an older link of that address that was
      -- unused, and whose token is not the new one, is refused by either service as unknown, at any
      -- time, and nothing changes.
      pub older_link_refused :
          (k : ℕ) (u : User)
          → db.row w.users k ≡ some u
          → u.email ≡ address
          → (forgot_password db ext frontend now token address w ≡ (ok tt, w'))
            ⊎ (request_reset db ext frontend now token address w ≡ (ok tt, w'))
          → (refusals : Refusals) (later : ℕ) (new_password : String) (salt : ℕ)
          → reset_password_with db ext refusals later old.token new_password salt w'
            ≡ (err refusals.unknown, w')
      older_link_refused k u there named sent refusals later new_password salt =
          refused_unknown refusals later old.token new_password salt w'
            (elim (Option-cases (db.find w.users (by_email db address))) [
              | inl missing ↦ cc (
                db.find-complete w.users (by_email db address) k u missing there,
                (eq_iff u.email address).1 named,
              )
              | inr ((j, v), known) ↦ elim sent [
                | inl done ↦ forgotten_missing (forgotten_links j v known done)
                | inr done ↦ requested_missing (requested_links j v known done)
              ]
            ])
