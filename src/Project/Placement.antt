-- ===== src/Project/Placement.antt =====
-- The place of a member: the department, beside the department of their department role.
use rooeel_backend_api.Prelude.{
  ℕ, Bool, true, false, Option, none, some, ◌≡◌, arith, Option-cases, inl, inr, is_id,
}
use rooeel_backend_api.Prisma.{Engine}
use rooeel_backend_api.Schema.{ProjectUser, DepartmentRole}
use rooeel_backend_api.World.{
  Team, delete_department_roles, delete_departments, delete_roles, department_role_in, refers,
  lose_department_role, leave_department, lose_role,
}

module _ (db : Engine) where
  abbrev pub role_fits : db.Rows DepartmentRole → Option ℕ → Option ℕ → Bool
  role_fits roles none department = true
  role_fits roles (some r) department = elim (db.row roles r) [
    | none ↦ false
    | some role ↦ is_id department role.department_id
  ]

  abbrev pub is_placed : db.Rows DepartmentRole → ProjectUser → Bool
  is_placed roles m = role_fits roles m.department_role_id m.department_id

  -- The foreign key of a member's department role holds, and the role is one of their department.
  abbrev pub IsPlaced : Team db → Type 0
  IsPlaced t =
      (i : ℕ) (m : ProjectUser)
      → db.row t.members i ≡ some m
      → is_placed t.department_roles m ≡ true

  module _ (t : Team db) (h : IsPlaced t) where
    pub put_member-IsPlaced :
        (k : ℕ) (m : ProjectUser)
        → is_placed t.department_roles m ≡ true
        → IsPlaced (record t { members = db.put t.members k m })
    put_member-IsPlaced k m fine i n at = ground (arith, db.row-put t.members k m i, h i n)

    remove_member-IsPlaced :
        (p : ℕ → ProjectUser → Bool) → IsPlaced (record t { members = db.remove_where t.members p })
    remove_member-IsPlaced p i n at = ground (arith, db.row-remove_where t.members p i, h i n)

    pub put_department_role-IsPlaced :
        (k : ℕ) (r : DepartmentRole)
        → ((old : DepartmentRole)
            → db.row t.department_roles k ≡ some old
            → old.department_id ≡ r.department_id)
        → IsPlaced (record t { department_roles = db.put t.department_roles k r })
    put_department_role-IsPlaced k r keeps i m at = elim (Option-cases m.department_role_id) [
      | inl absent ↦ ground (arith, h i m)
      | inr (d, there) ↦ elim (Option-cases (db.row t.department_roles d)) [
        | inl missing ↦ ground (arith, h i m)
        | inr (old, found) ↦ ground (arith, h i m, db.row-put t.department_roles k r d, keeps old)
      ]
    ]

    pub delete_department_roles-IsPlaced :
        (gone : ℕ → Bool) → IsPlaced (delete_department_roles db gone t)
    unfolding delete_department_roles
    delete_department_roles-IsPlaced gone i m at =
        let moved =
          db.row-put_where t.members (λ i r. refers gone r.department_role_id) lose_department_role
            i in
        elim (Option-cases (db.row t.members i)) [
          | inl missing ↦ ground (arith, moved)
          | inr (old, found) ↦ elim (Option-cases old.department_role_id) [
            | inl absent ↦ ground (arith, moved, h i old)
            | inr (d, there) ↦ elim (Option-cases (db.row t.department_roles d)) [
              | inl unknown ↦ ground (arith, h i old)
              | inr (role, kept) ↦
                  ground (
                    arith,
                    moved,
                    h i old,
                    db.row-remove_where t.department_roles (λ i r. gone i) d,
                  )
            ]
          ]
        ]

    -- The members of departments that go, once the roles of these are gone.
    leave_departments-IsPlaced :
        (gone : ℕ → Bool)
        → ((d : ℕ) (role : DepartmentRole)
            → db.row t.department_roles d ≡ some role
            → gone role.department_id ≡ false)
        → IsPlaced (record t {
          members = db.put_where t.members (λ i r. refers gone r.department_id) leave_department;
        })
    leave_departments-IsPlaced gone rest i m at =
        let moved =
          db.row-put_where t.members (λ i r. refers gone r.department_id) leave_department i in
        elim (Option-cases (db.row t.members i)) [
          | inl missing ↦ ground (arith, moved)
          | inr (old, found) ↦ elim (Option-cases old.department_role_id) [
            | inl absent ↦ ground (arith, moved, h i old)
            | inr (d, there) ↦ elim (Option-cases (db.row t.department_roles d)) [
              | inl unknown ↦ ground (arith, h i old)
              | inr (role, kept) ↦ ground (arith, moved, h i old, rest d role)
            ]
          ]
        ]

    pub delete_roles-IsPlaced : (gone : ℕ → Bool) → IsPlaced (delete_roles db gone t)
    unfolding delete_roles
    delete_roles-IsPlaced gone i m at =
        let moved = db.row-put_where t.members (λ i r. refers gone r.project_role_id) lose_role i in
        elim (Option-cases (db.row t.members i)) [
          | inl missing ↦ ground (arith, moved)
          | inr (old, found) ↦ ground (arith, moved, h i old)
        ]

  roles_left :
      (t : Team db) (gone : ℕ → Bool) (d : ℕ) (role : DepartmentRole)
      → db.row (delete_department_roles db (department_role_in db gone t) t).department_roles d
        ≡ some role
      → gone role.department_id ≡ false
  unfolding delete_department_roles
  roles_left t gone d role at = elim (Option-cases (db.row t.department_roles d)) [
    | inl missing ↦
        ground
          (arith, db.row-remove_where t.department_roles (λ i r. department_role_in db gone t i) d)
    | inr (old, found) ↦
        ground
          (arith, db.row-remove_where t.department_roles (λ i r. department_role_in db gone t i) d)
  ]

  pub delete_departments-IsPlaced :
      (t : Team db) (gone : ℕ → Bool) → IsPlaced t → IsPlaced (delete_departments db gone t)
  unfolding delete_departments
  delete_departments-IsPlaced t gone h =
      leave_departments-IsPlaced (delete_department_roles db (department_role_in db gone t) t)
        (delete_department_roles-IsPlaced t h (department_role_in db gone t)) gone
        (roles_left t gone)
