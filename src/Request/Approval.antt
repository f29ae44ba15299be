-- ===== src/Request/Approval.antt =====
-- The three actions of an admin on a request, and what they do to its user.
use rooeel_backend_api.Prelude.{
  ℕ, String, some, ◌==◌, ◌≡◌, Exception, ok, err, arith, if◌then◌else◌, Option-cases, inl, inr,
}
use rooeel_backend_api.Prisma.{Engine}
use rooeel_backend_api.Schema.{User, UserRequest, Status, pending, approved, rejected}
use rooeel_backend_api.World.{Accounts}
use rooeel_backend_api.Services.{Services}
use rooeel_backend_api.Request.{
  GeneratedPassword, change, set_password, set_status, generate_password, approve_request,
  reject_request,
}

-- An admin settles a request: it was there, pending and theirs, and it alone gets the status.
pub record Settles (db : Engine) (id admin_id : ℕ) (s : Status) (w w' : Accounts db) : Type 0 where
  pub request : UserRequest
  pub found : db.row w.requests id ≡ some request
  pub mine : request.admin_id ≡ admin_id
  pub was_pending : request.status ≡ pending
  pub settled :
      (j : ℕ)
      → db.row w'.requests j
        ≡ (if id == j then some (set_status s request) else db.row w.requests j)

-- A write of one user: the others, and the accounts and tokens beside them, stay.
pub record EditsUser (db : Engine) (id : ℕ) (edit : User → User) (w w' : Accounts db) : Type 0 where
  pub before : User
  pub found : db.row w.users id ≡ some before
  pub after :
      (j : ℕ) → db.row w'.users j ≡ (if id == j then some (edit before) else db.row w.users j)

module _ (db : Engine) (ext : Services) (id admin_id : ℕ) (w : Accounts db) where
  -- Where `approveRequest` throws, the state is the one it was called in.
  pub approve_request_atomic :
      (e : Exception)
      → (approve_request db ext id admin_id w).0 ≡ err e
      → (approve_request db ext id admin_id w).1 ≡ w
  unfolding approve_request
  approve_request_atomic e h = ground arith

  -- Where `generatePassword` throws, the state is the one it was called in.
  pub generate_password_atomic :
      (plain : String) (salt : ℕ) (e : Exception)
      → (generate_password db ext id admin_id plain salt w).0 ≡ err e
      → (generate_password db ext id admin_id plain salt w).1 ≡ w
  unfolding generate_password
  generate_password_atomic plain salt e h = ground arith

  -- Where `rejectRequest` throws, the state is the one it was called in.
  pub reject_request_atomic :
      (e : Exception)
      → (reject_request db ext id admin_id w).0 ≡ err e
      → (reject_request db ext id admin_id w).1 ≡ w
  unfolding reject_request
  reject_request_atomic e h = ground arith

  -- If `rejectRequest` answers, then the request was stored, was addressed to the calling admin
  -- and was pending; it is rejected afterwards, with the rest of its row as it was, and no other
  -- request has changed.
  pub reject_request-Settles :
      {r : UserRequest} {w' : Accounts db}
      → reject_request db ext id admin_id w ≡ (ok r, w')
      → Settles db id admin_id rejected w w'
  unfolding reject_request
  reject_request-Settles {w'} h = elim (Option-cases (db.row w.requests id)) [
    | inl missing ↦ ground arith
    | inr (q, found) ↦ record {
      request = q;
      found = found;
      mine = ground arith;
      was_pending = ground arith;
      settled = λ j. ground (arith, db.row-put w.requests id (set_status rejected q) j);
    }
  ]

  -- If `approveRequest` answers, then the request was stored, was addressed to the calling admin
  -- and was pending; it is approved afterwards, with the rest of its row as it was, and no other
  -- request has changed.
  pub approve_request-Settles :
      {r : UserRequest} {w' : Accounts db}
      → approve_request db ext id admin_id w ≡ (ok r, w')
      → Settles db id admin_id approved w w'
  unfolding approve_request
  approve_request-Settles {w'} h = elim (Option-cases (db.row w.requests id)) [
    | inl missing ↦ ground arith
    | inr (q, found) ↦ record {
      request = q;
      found = found;
      mine = ground arith;
      was_pending = ground arith;
      settled = λ j. ground (arith, db.row-put w.requests id (set_status approved q) j);
    }
  ]

  -- If `generatePassword` answers, then the request was stored, was addressed to the calling admin
  -- and was pending; it is approved afterwards, with the rest of its row as it was, and no other
  -- request has changed.
  pub generate_password-Settles :
      (plain : String) (salt : ℕ) {g : GeneratedPassword} {w' : Accounts db}
      → generate_password db ext id admin_id plain salt w ≡ (ok g, w')
      → Settles db id admin_id approved w w'
  unfolding generate_password
  generate_password-Settles plain salt {w'} h = elim (Option-cases (db.row w.requests id)) [
    | inl missing ↦ ground arith
    | inr (q, found) ↦ record {
      request = q;
      found = found;
      mine = ground arith;
      was_pending = ground arith;
      settled = λ j. ground (arith, db.row-put w.requests id (set_status approved q) j);
    }
  ]

  -- If `approveRequest` answers on a stored request whose type and value make an edit of a user,
  -- then the requesting user was stored, that edit is applied to their row, and no other row of
  -- the users has changed.
  approve_request-EditsUser :
      {r : UserRequest} {w' : Accounts db} (q : UserRequest) (edit : User → User)
      → approve_request db ext id admin_id w ≡ (ok r, w')
      → db.row w.requests id ≡ some q
      → change q.request_type q.requested_value ≡ some edit
      → EditsUser db q.user_id edit w w'
  unfolding approve_request
  approve_request-EditsUser {w'} q edit h found kind =
      elim (Option-cases (db.row w.users q.user_id)) [
        | inl missing ↦ ground arith
        | inr (u, there) ↦ record {
          before = u;
          found = there;
          after = λ j. ground (arith, db.row-put w.users q.user_id (edit u) j);
        }
      ]

  approved-change :
      {r : UserRequest} {w' : Accounts db} (q : UserRequest)
      → approve_request db ext id admin_id w ≡ (ok r, w')
      → db.row w.requests id ≡ some q
      → (edit : User → User) × (change q.request_type q.requested_value ≡ some edit)
  unfolding approve_request
  approved-change q h found = elim (Option-cases (change q.request_type q.requested_value)) [
    | inl none_made ↦ ground arith
    | inr made ↦ made
  ]

  -- If `approveRequest` answers, then the request was stored, was addressed to the calling admin
  -- and was pending; it is approved afterwards, with the rest of its row as it was, and no other
  -- request has changed; its type and value make an edit of a user, which is applied to the row of
  -- the requesting user, who was stored, and no other row of the users has changed.
  pub approve_request-Approves :
      {r : UserRequest} {w' : Accounts db}
      → approve_request db ext id admin_id w ≡ (ok r, w')
      → (s : Settles db id admin_id approved w w') × (edit : User → User) × (change
            s.request.request_type s.request.requested_value
          ≡ some edit)
        × EditsUser db s.request.user_id edit w w'
  approve_request-Approves h =
      let s = approve_request-Settles h in
      let (edit, kind) = approved-change s.request h s.found in
      (s, edit, kind, approve_request-EditsUser s.request edit h s.found kind)

  -- If `generatePassword` answers on a stored request, then the requesting user was stored, the
  -- hash of the drawn password becomes their password, and no other row of the users has changed.
  pub generate_password-EditsUser :
      (plain : String) (salt : ℕ) {g : GeneratedPassword} {w' : Accounts db} (q : UserRequest)
      → generate_password db ext id admin_id plain salt w ≡ (ok g, w')
      → db.row w.requests id ≡ some q
      → EditsUser db q.user_id (set_password (ext.hash salt plain)) w w'
  unfolding generate_password
  generate_password-EditsUser plain salt {w'} q h found =
      elim (Option-cases (db.row w.users q.user_id)) [
        | inl missing ↦ ground arith
        | inr (u, there) ↦ record {
          before = u;
          found = there;
          after = λ j.
              ground (arith, db.row-put w.users q.user_id (set_password (ext.hash salt plain) u) j);
        }
      ]

  reject_request-users : (reject_request db ext id admin_id w).1.users ≡ w.users
  unfolding reject_request
  reject_request-users = ground arith
