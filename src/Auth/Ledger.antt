-- ===== src/Auth/Ledger.antt =====
-- The sessions as an abstract machine: what became of each refresh token, by its hash.
pub mod Table
pub mod Refinement
pub mod Calls
pub mod Sequence
pub mod Spent
use rooeel_backend_api.Prelude.{ℕ, String, ◌≡◌, ◌∙◌, ◌==◌, str_eq, eq_iff, if◌then◌else◌, arith}
use rooeel_backend_api.Schema.{Role}

-- Whose a token is, and until when.
pub record Grant : Type 0 where
  pub user_id : ℕ
  pub user_type : Role
  pub expires_at : ℕ

pub data Standing : Type 0 where
  unknown dead : Standing
  live : Grant → Standing

-- For each hash, its standing.
abbrev pub Ledger : Type 0
Ledger = String → Standing

abbrev pub closed_by : ℕ → Standing → Standing
closed_by id unknown = unknown
closed_by id dead = dead
closed_by id (live g) = if g.user_id == id then dead else live g

-- What may happen to a ledger: nothing, the issue of a hash that was never seen, the end of a live
-- one, or the end of all of an account.
pub data Moves (a b : Ledger) : Type 0 where
  stay : ((k : String) → b k ≡ a k) → Moves a b
  issue :
      (h : String) (g : Grant)
      → a h ≡ unknown
      → ((k : String) → b k ≡ (if str_eq k h then live g else a k))
      → Moves a b
  spend :
      (h : String) (g : Grant)
      → a h ≡ live g
      → ((k : String) → b k ≡ (if str_eq k h then dead else a k))
      → Moves a b
  close : (id : ℕ) → ((k : String) → b k ≡ closed_by id (a k)) → Moves a b

pub data Trace (a : Ledger) : Ledger → Type 0 where
  here : Trace a a
  then_moves : {b c : Ledger} → Trace a b → Moves b c → Trace a c

Moves-dead : (a b : Ledger) (h : String) → Moves a b → a h ≡ dead → b h ≡ dead
Moves-dead a b h (stay e) d = e h ∙ d
Moves-dead a b h (issue k g new e) d = ground (arith, e h, eq_iff h k)
Moves-dead a b h (spend k g old e) d = ground (arith, e h, eq_iff h k)
Moves-dead a b h (close id e) d = ground (arith, e h)

-- A dead token stays dead.
pub Trace-dead : (a b : Ledger) (h : String) → Trace a b → a h ≡ dead → b h ≡ dead
Trace-dead a b h here d = d
Trace-dead a b h (then_moves {b = c} earlier m) d = Moves-dead c b h m (Trace-dead a c h earlier d)

pub Trace-append : (a b c : Ledger) → Trace a b → Trace b c → Trace a c
Trace-append a b c s here = s
Trace-append a b c s (then_moves {b = d} t m) = then_moves (Trace-append a b d s t) m
