-- ===== src/Auth/Race.antt =====
-- Refreshes at the same time: `refreshTokens` of src/auth/services/auth.service.ts up to the subject of
-- the new tokens, one call of the database at a time, as the runtime switches at each `await`.
pub mod Alone
pub mod Together
pub mod Parts
pub mod Double
pub mod Ends
use rooeel_backend_api.Prelude.{
  ℕ, zero, suc, String, Bool, Option, none, some, not, List, [], ◌∷◌, Action, Result, ok, err,
  ◌>>=◌, ◌>>◌, pure, or_throw, throw_if, unauthorized, service_failure, Exception, is_some, ltb,
}
use rooeel_backend_api.Prisma.{Engine, find_first, update}
use rooeel_backend_api.Schema.{RefreshToken, refresh_token_clash}
use rooeel_backend_api.World.{Accounts, refresh_tokens}
use rooeel_backend_api.Tokens.{Tokens, Claims}
use rooeel_backend_api.Auth.Session.{Subject, by_token, is_refresh, revoke, subject_of}

-- The stored token that a call has read, under its key, with the claims of the token.
pub record Read : Type 0 where
  pub payload : Claims
  pub id : ℕ
  pub stored : RefreshToken

-- How far a call is: before the read, before the update, before the look for the owner, at the end.
pub data Phase : Type 0 where
  asked : Phase
  looked : Read → Phase
  spent : Read → Phase
  ended : Result Subject → Phase

pub record Call : Type 0 where
  pub now : ℕ
  pub token : String
  pub phase : Phase

-- Calls that begin, each at its time and with its token.
abbrev pub begin : List (ℕ × String) → List Call
begin [] = []
begin ((now, token) ∷ rest) = record { now = now; token = token; phase = asked } ∷ begin rest

abbrev pub found_owner : Option Subject → Result Subject
found_owner none = err (unauthorized "User not found")
found_owner (some who) = ok who

module _ (db : Engine) (jwt : Tokens) where
  -- Up to the read, with the checks of what was read.
  unfoldable pub look : ℕ → String → Action (Accounts db) Read
  look now token = do
    payload ← or_throw (jwt.verify now token) service_failure
    throw_if (not (is_refresh payload.kind)) (unauthorized "Invalid token type")
    found ← find_first db (refresh_tokens db) (by_token (jwt.sha256 token))
    stored ← or_throw found (unauthorized "Token has been revoked or does not exist")
    throw_if (is_some stored.1.revoked_at) (unauthorized "Token has been revoked or does not exist")
    throw_if (ltb stored.1.expires_at now) (unauthorized "Token has expired")
    pure (record { payload = payload; id = stored.0; stored = stored.1 })

  unfoldable pub spend : ℕ → Read → Action (Accounts db) RefreshToken
  spend now r = update db (refresh_tokens db) refresh_token_clash r.id (revoke now)

  abbrev pub owner : Read → Accounts db → Result Subject
  owner r w = found_owner (subject_of db r.payload.sub r.stored.user_type w)

  abbrev after_look : Result Read → Phase
  after_look (ok r) = looked r
  after_look (err e) = ended (err e)

  abbrev after_spend : Read → Result RefreshToken → Phase
  after_spend r (ok t) = spent r
  after_spend r (err e) = ended (err e)

  -- A call goes on to its next `await`.
  unfoldable pub advance : ℕ → String → Phase → Accounts db → Phase × Accounts db
  advance now token asked w = (after_look (look now token w).0, w)
  advance now token (looked r) w = (after_spend r (spend now r w).0, (spend now r w).1)
  advance now token (spent r) w = (ended (owner r w), w)
  advance now token (ended x) w = (ended x, w)

  -- The call at a place of the list goes on.
  unfoldable pub step : ℕ → List Call → Accounts db → List Call × Accounts db
  unfolding advance
  step n [] w = ([], w)
  step zero (c ∷ cs) w =
      let (phase, w') = advance c.now c.token c.phase w in (record c { phase = phase } ∷ cs, w')
  step (suc n) (c ∷ cs) w = let (rest, w') = step n cs w in (c ∷ rest, w')

  -- The calls go on in the order of their places in a schedule.
  unfoldable pub run : List ℕ → List Call → Accounts db → List Call × Accounts db
  unfolding step
  run [] cs w = (cs, w)
  run (n ∷ ns) cs w = let (cs', w') = step n cs w in run ns cs' w'
