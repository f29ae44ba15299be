-- ===== src/Auth/Guard/Grounds.antt =====
-- Why a member may do an action: from the rows of their roles, or without any.
use rooeel_backend_api.Prelude.{
  ℕ, Bool, true, false, ◌==◌, ◌&&◌, In, refl, none, ◌≡◌, ◌⊎◌, Option, some, [], ◌∷◌, ok, arith,
  Option-cases, inl, inr,
}
use rooeel_backend_api.Text.{
  Text, codes, text_eq, text_eq_iff, includes_iff, includes, to_upper_case,
}
use rooeel_backend_api.Prisma.{Engine}
use rooeel_backend_api.Schema.{ProjectUser, Permission, DepartmentRolePolicy}
use rooeel_backend_api.World.{World}
use rooeel_backend_api.Access
use rooeel_backend_api.Access.{flag, normalize_resource, can_access}
use rooeel_backend_api.Access.Precedence.{is_view}
use rooeel_backend_api.Auth.Guard.Context.{IsMissing, truthy_cases}
use rooeel_backend_api.Auth.Guard.{
  Metadata, outside, decide, decide_for, policy_about, permission_about, default_view_resources,
}

view_only : (a : Access.Action) → is_view a ≡ true → a ≡ Access.can_view
view_only Access.can_view h = refl
view_only Access.can_create h = ground arith
view_only Access.can_edit h = ground arith
view_only Access.can_delete h = ground arith

module _ (db : Engine) (resource : Text) (m : ProjectUser) (w : World db) where
  -- A policy of the member's department role, or a permission of their project role, about the
  -- resource.
  abbrev pub IsOwnPolicy : DepartmentRolePolicy → Type 0
  IsOwnPolicy p =
      (i : ℕ) × (db.row w.team.policies i ≡ some p)
      × (m.department_role_id ≡ some p.department_role_id)
      × (p.resource ≡ to_upper_case resource)

  abbrev pub IsOwnPermission : Permission → Type 0
  IsOwnPermission q =
      (i : ℕ) × (db.row w.team.permissions i ≡ some q)
      × (m.project_role_id ≡ some q.project_role_id)
      × (q.resource ≡ to_upper_case resource)

  -- A permission that is tied to a department lets its members only do tasks and subtasks.
  abbrev pub IsInside : Permission → Type 0
  IsInside q =
      (resource ≡ codes "TASK") ⊎ (resource ≡ codes "SUBTASK")
      → IsMissing q.department_id ⊎ (m.department_id ≡ q.department_id)

  -- The resources that every member may look at where no row of theirs is about them.
  abbrev pub IsOpen : Text → Type 0
  IsOpen key = In key (
      codes "WORK_ORDER"
      ∷ codes "TASK"
      ∷ codes "SUBTASK"
      ∷ codes "DEPARTMENT"
      ∷ codes "USER"
      ∷ codes "FIELD"
      ∷ codes "PROJECT_FIELD"
      ∷ [])

  -- Why a member may do an action.
  pub data MayDo (action : Access.Action) : Type 0 where
    by_policy :
        (p : DepartmentRolePolicy)
        → IsOwnPolicy p
        → ((q : Permission) × IsOwnPermission q × IsInside q)
          ⊎ ((q : Permission) → IsOwnPermission q → ⊥)
        → flag p.flags action ≡ true
        → MayDo action
    by_permission :
        (q : Permission)
        → ((p : DepartmentRolePolicy) → IsOwnPolicy p → ⊥)
        → IsOwnPermission q
        → IsInside q
        → flag q.flags action ≡ true
        → MayDo action
    by_default :
        ((p : DepartmentRolePolicy) → IsOwnPolicy p → ⊥)
        → ((q : Permission) → IsOwnPermission q → ⊥)
        → action ≡ Access.can_view
        → IsOpen (to_upper_case resource)
        → MayDo action

  policy_cases :
      ((p : DepartmentRolePolicy) × IsOwnPolicy p
        × (policy_about db m.department_role_id (to_upper_case resource) w.team ≡ some p))
      ⊎ (((p : DepartmentRolePolicy) → IsOwnPolicy p → ⊥)
          × (policy_about db m.department_role_id (to_upper_case resource) w.team ≡ none))
  policy_cases = elim (Option-cases m.department_role_id) [
    | inl no_role ↦ inr (λ p (i, at, own, about). ground (arith, no_role), rw no_role refl)
    | inr (r, role) ↦
        let test : ℕ → DepartmentRolePolicy → Bool =
          λ i p. p.department_role_id == r && text_eq p.resource (to_upper_case resource) in
        elim (Option-cases (db.find w.team.policies test)) [
          | inl missing ↦ inr (
            λ p (i, at, own, about). ground (
              arith,
              role,
              db.find-complete w.team.policies test i p missing at,
              text_eq_iff p.resource (to_upper_case resource),
            ),
            ground (arith, role, missing),
          )
          | inr ((i, p), found) ↦
              let (at, same) = db.find-sound w.team.policies test i p found in
              let about : p.resource ≡ to_upper_case resource =
                ground (arith, text_eq_iff p.resource (to_upper_case resource)) in
              let own : m.department_role_id ≡ some p.department_role_id = ground (arith, role) in
              inl (p, (i, at, own, about), ground (arith, role, found))
        ]
  ]

  permission_cases :
      ((q : Permission) × IsOwnPermission q
        × (permission_about db m.project_role_id (to_upper_case resource) w.team ≡ some q))
      ⊎ (((q : Permission) → IsOwnPermission q → ⊥)
          × (permission_about db m.project_role_id (to_upper_case resource) w.team ≡ none))
  permission_cases = elim (Option-cases m.project_role_id) [
    | inl no_role ↦ inr (λ q (i, at, own, about). ground (arith, no_role), rw no_role refl)
    | inr (r, role) ↦
        let test : ℕ → Permission → Bool =
          λ i q. q.project_role_id == r && text_eq q.resource (to_upper_case resource) in
        elim (Option-cases (db.find w.team.permissions test)) [
          | inl missing ↦ inr (
            λ q (i, at, own, about). ground (
              arith,
              role,
              db.find-complete w.team.permissions test i q missing at,
              text_eq_iff q.resource (to_upper_case resource),
            ),
            ground (arith, role, missing),
          )
          | inr ((i, q), found) ↦
              let (at, same) = db.find-sound w.team.permissions test i q found in
              let about : q.resource ≡ to_upper_case resource =
                ground (arith, text_eq_iff q.resource (to_upper_case resource)) in
              let own : m.project_role_id ≡ some q.project_role_id = ground (arith, role) in
              inl (q, (i, at, own, about), ground (arith, role, found))
        ]
  ]

  includes-IsOpen :
      includes default_view_resources (to_upper_case resource) ≡ true
      → IsOpen (to_upper_case resource)
  unfolding default_view_resources
  includes-IsOpen h = (includes_iff default_view_resources (to_upper_case resource)).0 h

  -- What the guard has checked of the rows that it has read.
  inside_sound :
      (q : Permission)
      → outside (some q) m.department_id ≡ false
      → IsMissing q.department_id ⊎ (m.department_id ≡ q.department_id)
  inside_sound q h = elim (truthy_cases q.department_id) [
    | inl (missing, e) ↦ inl missing
    | inr (d, named, e) ↦ inr (ground (arith, e))
  ]

  module _ (action : Access.Action) where
    abbrev pub meta : Metadata
    meta = record { resource = resource; action = action }

    decided-IsInside :
        (q : Permission) (policy : Option DepartmentRolePolicy)
        → decide meta m.department_id (some q) policy ≡ ok tt
        → IsInside q
    unfolding decide
    decided-IsInside q policy h concerned =
        let inside : outside (some q) m.department_id ≡ false = elim concerned [
          | inl is_task ↦ ground (arith, (text_eq_iff resource (codes "TASK")).1 is_task)
          | inr is_subtask ↦ ground (arith, (text_eq_iff resource (codes "SUBTASK")).1 is_subtask)
        ] in
        inside_sound q inside

    policy-flag :
        (permission : Option Permission) (p : DepartmentRolePolicy)
        → decide meta m.department_id permission (some p) ≡ ok tt
        → flag p.flags action ≡ true
    unfolding decide
    policy-flag permission p h = ground arith

    permission-flag :
        (q : Permission)
        → decide meta m.department_id (some q) none ≡ ok tt
        → flag q.flags action ≡ true
    unfolding decide
    permission-flag q h = ground arith

    default-view :
        decide meta m.department_id none none ≡ ok tt
        → (action ≡ Access.can_view) × IsOpen (to_upper_case resource)
    unfolding decide
    default-view h = (view_only action (ground arith), includes-IsOpen (ground arith))

    pub decide_for-MayDo : decide_for db meta m w.team ≡ ok tt → MayDo action
    decide_for-MayDo h = elim policy_cases [
      | inl (p, own, e) ↦ elim permission_cases [
        | inl (q, own', e') ↦
            let h' = rw (e, e') at h in
            by_policy p own (inl (q, own', decided-IsInside q (some p) h'))
              (policy-flag (some q) p h')
        | inr (nothing, e') ↦ by_policy p own (inr nothing) (policy-flag none p (rw (e, e') at h))
      ]
      | inr (none_own, e) ↦ elim permission_cases [
        | inl (q, own', e') ↦
            let h' = rw (e, e') at h in
            by_permission q none_own own' (decided-IsInside q none h') (permission-flag q h')
        | inr (nothing, e') ↦
            let (is_view, anyone) = default-view (rw (e, e') at h) in
            by_default none_own nothing is_view anyone
      ]
    ]
