-- ===== src/Services.antt =====
-- What the handlers call outside the program, as a parameter: bcrypt and the mail provider.
use rooeel_backend_api.Prelude.{ℕ, String, ◌≡◌, Bool, true}
use rooeel_backend_api.World.{Mail}

pub record Services : Type 0 where
  -- `bcrypt.hash`, by the salt that it draws
  pub hash : ℕ → String → String
  -- `bcrypt.compare`
  pub compare : String → String → Bool
  -- whether the provider takes a mail, without an error of either kind
  pub delivers : Mail → Bool
  pub compare-hash : (salt : ℕ) (password : String) → compare password (hash salt password) ≡ true
