-- ===== src/User/Emails.antt =====
-- The addresses of users, under the handlers of users.
use rooeel_backend_api.Prelude.{
  eq_iff, none, ok, sym, true, ◌⊎◌, conflict, Bool-cases, err, is_some, ℕ, String, false, some, ◌≡◌,
  arith, Option-cases, inl, inr,
}
use rooeel_backend_api.Prisma.{Engine, breaks}
use rooeel_backend_api.Prisma.Unique.{breaks_sound, IsUnique, put-IsUnique}
use rooeel_backend_api.Schema.{User, user_clash}
use rooeel_backend_api.World.{Accounts}
use rooeel_backend_api.Services.{Services}
use rooeel_backend_api.User.{by_email, CreateUser, create}

abbrev pub email_of : User → String
email_of u = u.email

module _ (db : Engine) where
  abbrev pub HasUniqueEmails : Accounts db → Type 0
  HasUniqueEmails w = IsUnique db email_of w.users

module _ (db : Engine) (ext : Services) (w : Accounts db) (h : HasUniqueEmails db w) where
  -- A row that the constraint lets through.
  pub written :
      (k : ℕ) (u : User) (i j : ℕ) (a b : User)
      → breaks db user_clash k u w.users ≡ false
      → db.row (db.put w.users k u) i ≡ some a
      → db.row (db.put w.users k u) j ≡ some b
      → a.email ≡ b.email
      → i ≡ j
  written k u i j a b fine = put-IsUnique db email_of w.users k u h fine i j a b

-- Some user has the address.
abbrev pub IsTaken : (db : Engine) → Accounts db → String → Type 0
IsTaken db w address = (i : ℕ) × (v : User) × (db.row w.users i ≡ some v) × (v.email ≡ address)

module _ (db : Engine) (ext : Services) (w : Accounts db) where
  -- Looking for an address finds a user exactly if it is taken.
  address_cases :
      (address : String)
      → (IsTaken db w address × (is_some (db.find w.users (by_email db address)) ≡ true))
        ⊎ ((IsTaken db w address → ⊥) × (db.find w.users (by_email db address) ≡ none))
  address_cases address = elim (Option-cases (db.find w.users (by_email db address))) [
    | inl missing ↦ inr (
      λ (i, v, at, same). ground (
        arith,
        db.find-complete w.users (by_email db address) i v missing at,
        eq_iff v.email address,
      ),
      missing,
    )
    | inr ((i, v), found) ↦
        let (at, same) = db.find-sound w.users (by_email db address) i v found in
        inl ((i, v, at, (eq_iff v.email address).0 same), ground arith)
  ]

  -- The constraint lets a row with a free address through.
  breaks_free :
      (i : ℕ) (v : User) → (IsTaken db w v.email → ⊥) → breaks db user_clash i v w.users ≡ false
  breaks_free i v free = elim (Bool-cases (breaks db user_clash i v w.users)) [
    | inl broken ↦
        let (j, q, at, apart, same) = breaks_sound db email_of w.users i v broken in
        absurd (free (j, q, at, sym same))
    | inr fine ↦ fine
  ]

  -- The row that `create` makes.
  abbrev pub created : CreateUser → ℕ → ℕ → User
  created dto admin_id salt = record {
    first_name = dto.first_name;
    last_name = dto.last_name;
    email = dto.email;
    password = ext.hash salt dto.password;
    created_by = some admin_id;
  }

  -- `create` never throws the exception of the database's constraint on addresses: on an address that
  -- a user has it throws the conflict of its own check and changes nothing, and on any other it
  -- answers the new row, with the password hashed and under the next key, and writes that row only.
  pub create_answers :
      (dto : CreateUser) (admin_id salt : ℕ)
      → (IsTaken db w dto.email
          × (create db ext dto admin_id salt w
              ≡ (err (conflict "User with this email already exists"), w)))
        ⊎ ((IsTaken db w dto.email → ⊥)
            × (create db ext dto admin_id salt w ≡ (
              ok (db.next w.users, created dto admin_id salt),
              record w { users = db.put w.users (db.next w.users) (created dto admin_id salt) },
            )))
  unfolding create
  create_answers dto admin_id salt = elim (address_cases dto.email) [
    | inl (taken, found) ↦ inl (taken, ground (arith, found))
    | inr (free, missing) ↦
        let fine = breaks_free (db.next w.users) (created dto admin_id salt) free in
        inr (free, ground (arith, missing, fine))
  ]
