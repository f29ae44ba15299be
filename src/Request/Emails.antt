-- ===== src/Request/Emails.antt =====
-- The addresses of users under the handlers of requests.
use rooeel_backend_api.Prelude.{str_eq, ℕ, String, Option-cases, inl, inr, arith}
use rooeel_backend_api.Prisma.{Engine}
use rooeel_backend_api.World.{Accounts}
use rooeel_backend_api.Services.{Services}
use rooeel_backend_api.User.Emails.{HasUniqueEmails, written}
use rooeel_backend_api.Request.{set_password, generate_password, forgot_password}

module _ (db : Engine) (ext : Services) (w : Accounts db) (h : HasUniqueEmails db w) where
  -- Where no two users share an address, none do after `generatePassword`.
  pub generate_password-HasUniqueEmails :
      (id admin_id : ℕ) (plain : String) (salt : ℕ)
      → HasUniqueEmails db (generate_password db ext id admin_id plain salt w).1
  unfolding generate_password
  generate_password-HasUniqueEmails id admin_id plain salt i j a b hi hj e =
      elim (Option-cases (db.row w.requests id)) [
        | inl missing ↦ ground (arith, h i j a b)
        | inr (q, found) ↦ elim (Option-cases (db.row w.users q.user_id)) [
          | inl missing ↦ ground (arith, h i j a b)
          | inr (u, there) ↦ ground (
            arith,
            h i j a b,
            written db ext w h q.user_id (set_password (ext.hash salt plain) u) i j a b,
          )
        ]
      ]

  -- Where no two users share an address, none do after `forgotPassword` of the requests.
  pub forgot_password-HasUniqueEmails :
      (address temporary : String) (salt : ℕ)
      → HasUniqueEmails db (forgot_password db ext address temporary salt w).1
  unfolding forgot_password
  forgot_password-HasUniqueEmails address temporary salt i j a b hi hj e =
      elim (Option-cases (db.find w.users (λ k u. str_eq u.email address))) [
        | inl unknown ↦ ground (arith, h i j a b)
        | inr ((k, v), found) ↦ elim (Option-cases (db.row w.users k)) [
          | inl missing ↦ ground (arith, h i j a b)
          | inr (u, there) ↦ ground (
            arith,
            h i j a b,
            written db ext w h k (set_password (ext.hash salt temporary) u) i j a b,
          )
        ]
      ]
