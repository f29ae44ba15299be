-- ===== src/Auth/Guard/Admission.antt =====
-- Whom the guard of projects lets pass, beside what the access map says.
use rooeel_backend_api.Prelude.{
  ℕ, String, Bool, true, false, ◌==◌, ◌&&◌, ◌≡◌, ◌⊎◌, Option, some, List, [], ◌∷◌, Result, ok, err,
  arith, Option-cases, Bool-cases, inl, inr,
}
use rooeel_backend_api.Text.{is_empty}
use rooeel_backend_api.Prisma.{Engine}
use rooeel_backend_api.Schema.{is_admin, ProjectUser, Permission, DepartmentRolePolicy}
use rooeel_backend_api.World.{World}
use rooeel_backend_api.Tokens.{Tokens, Claims}
use rooeel_backend_api.Access.{normalize_resource, can_access}
use rooeel_backend_api.Access.Effective.{Grant, build_access_map}
use rooeel_backend_api.Access.Precedence.{last_about, is_granted, can_access-build_access_map}
use rooeel_backend_api.Auth.Guard.Context.{LeadsTo, resolve_project-LeadsTo}
use rooeel_backend_api.Auth.Guard.Grounds.{MayDo, decide_for-MayDo}
use rooeel_backend_api.Auth.Guard.{Metadata, Args, outside, decide, resolve_project, can_activate}

abbrev pub is_ok : {A : Type 0} → Result A → Bool
is_ok (ok a) = true
is_ok (err e) = false

-- A caller who is a member of the project that the arguments lead to, and who may do the action.
pub record IsAdmitted (db : Engine) (meta : Metadata) (payload : Claims) (args : Args)
    (w : World db) : Type 0 where
  pub project : ℕ
  pub key : ℕ
  pub member : ProjectUser
  pub named : LeadsTo db meta.resource args w project
  pub listed : db.row w.team.members key ≡ some member
  pub in_project : member.project_id ≡ project
  pub is_caller : member.user_id ≡ payload.sub
  pub granted : MayDo db meta.resource member w meta.action

-- Where a handler names a resource and an action, the guard lets a call pass only with a token that
-- verifies, and then only for an admin, or for a member of the project that the arguments lead to who
-- may do the action: because a policy of their department role about the resource grants it; or,
-- where there is no such policy, a permission of their project role about it; or, where there is
-- neither, because the action is to view and the resource is one of the seven that every member may
-- view. For a task or a subtask, if there are permissions of their project role about it, then one of
-- them is tied to no department or to theirs.
pub can_activate-IsAdmitted :
    (db : Engine) (jwt : Tokens) (now : ℕ) (token : String) (meta : Metadata) (args : Args)
    (w : World db)
    → can_activate db jwt now (some token) (some meta) args w ≡ ok tt
    → (payload : Claims) × (jwt.verify now token ≡ some payload)
      × ((is_admin payload.role ≡ true) ⊎ IsAdmitted db meta payload args w)
unfolding can_activate
can_activate-IsAdmitted db jwt now token meta args w h =
    elim (Option-cases (jwt.verify now token)) [
      | inl bad ↦ ground arith
      | inr (payload, good) ↦ elim (Bool-cases (is_admin payload.role)) [
        | inl boss ↦ (payload, good, inl boss)
        | inr other ↦ elim (Option-cases (resolve_project db meta.resource args w)) [
          | inl nowhere ↦ ground arith
          | inr (p, resolved) ↦
              elim (Option-cases
                (db.find w.team.members (λ i m. m.project_id == p && m.user_id == payload.sub))) [
                  | inl stranger ↦ ground arith
                  | inr ((k, m), found) ↦
                      let (there, same) =
                        db.find-sound w.team.members
                          (λ i m. m.project_id == p && m.user_id == payload.sub) k m found in
                      (
                        payload,
                        good,
                        inr (record {
                          project = p;
                          key = k;
                          member = m;
                          named = resolve_project-LeadsTo db meta.resource args w p resolved;
                          listed = there;
                          in_project = ground arith;
                          is_caller = ground arith;
                          granted =
                              decide_for-MayDo db meta.resource m w meta.action (ground arith);
                        }),
                      )
                ]
        ]
      ]
    ]

-- Where the last policy of a department role about a resource that is not blank is the one that
-- the guard has read, and no permission ties the resource to another department, the guard grants
-- an action exactly where the access map of the same rows does.
pub decide-can_access :
    (meta : Metadata) (own : Option ℕ) (permission : Option Permission) (p : DepartmentRolePolicy)
    (ps qs : List Grant)
    → is_empty (normalize_resource meta.resource) ≡ false
    → last_about (normalize_resource meta.resource) ps ≡ some p.flags
    → outside permission own ≡ false
    → is_ok (decide meta own permission (some p))
      ≡ can_access (build_access_map ps qs) meta.resource meta.action
unfolding decide is_granted last_about
decide-can_access meta own permission p [] qs named last inside = ground arith
decide-can_access meta own permission p (g ∷ ps) qs named last inside =
    rw (can_access-build_access_map (g ∷ ps) qs meta.resource meta.action named) (ground arith)
