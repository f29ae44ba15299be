-- ===== src/Project/Calls.antt =====
-- Sequences of calls of the service on the members of a project, and the place of each member.
use rooeel_backend_api.Prelude.{
  ℕ, true, ◌==◌, ◌&&◌, none, some, ◌≡◌, refl, arith, Option-cases, inl, inr, List, [], ◌∷◌,
}
use rooeel_backend_api.Text.{Text, trim}
use rooeel_backend_api.Prisma.{Engine}
use rooeel_backend_api.Schema.{ProjectUser}
use rooeel_backend_api.World.{World}
use rooeel_backend_api.Project.Lookup.{update_member}
use rooeel_backend_api.Project.Members.{
  assign_user, unassign_user, set_user_role, unset_user_role, assign_user_to_department,
  remove_user_from_department, set_user_department_role, unset_user_department_role, give_role,
  place,
}
use rooeel_backend_api.Project.Departments.{
  remove_department, create_department_role, update_department_role, remove_department_role,
}
use rooeel_backend_api.Project.Roles.{remove_role}
use rooeel_backend_api.Project.Placement.{
  is_placed, IsPlaced, put_member-IsPlaced, put_department_role-IsPlaced,
  delete_department_roles-IsPlaced, delete_departments-IsPlaced, delete_roles-IsPlaced,
}

-- The calls that write members, department roles, or what deletes either.
pub data TeamCall : Type 0 where
  assign unassign : ℕ → ℕ → TeamCall
  give_project_role : ℕ → ℕ → ℕ → TeamCall
  take_project_role : ℕ → ℕ → TeamCall
  move : ℕ → ℕ → ℕ → TeamCall
  leave : ℕ → ℕ → TeamCall
  give_department_role : ℕ → ℕ → ℕ → TeamCall
  take_department_role : ℕ → ℕ → TeamCall
  drop_department drop_department_role drop_project_role : ℕ → TeamCall
  add_department_role rename_department_role : ℕ → Text → TeamCall

module _ (db : Engine) where
  -- The state after a call, whether it answered or threw.
  unfoldable pub run_team_call : TeamCall → World db → World db
  run_team_call (assign p u) w = (assign_user db p u w).1
  run_team_call (unassign p u) w = (unassign_user db p u w).1
  run_team_call (give_project_role p u r) w = (set_user_role db p u r w).1
  run_team_call (take_project_role p u) w = (unset_user_role db p u w).1
  run_team_call (move p u d) w = (assign_user_to_department db p u d w).1
  run_team_call (leave p u) w = (remove_user_from_department db p u w).1
  run_team_call (give_department_role p u r) w = (set_user_department_role db p u r w).1
  run_team_call (take_department_role p u) w = (unset_user_department_role db p u w).1
  run_team_call (drop_department d) w = (remove_department db d w).1
  run_team_call (drop_department_role r) w = (remove_department_role db r w).1
  run_team_call (drop_project_role r) w = (remove_role db r w).1
  run_team_call (add_department_role d name) w = (create_department_role db d name w).1
  run_team_call (rename_department_role r name) w = (update_department_role db r name w).1

  unfoldable pub run_team_calls : List TeamCall → World db → World db
  run_team_calls [] w = w
  run_team_calls (c ∷ cs) w = run_team_calls cs (run_team_call c w)

  -- An edit that keeps members in place.
  abbrev KeepsPlace : World db → (ProjectUser → ProjectUser) → Type 0
  KeepsPlace w edit =
      (m : ProjectUser)
      → is_placed db w.team.department_roles m ≡ true
      → is_placed db w.team.department_roles (edit m) ≡ true

  update_member-IsPlaced :
      (p u : ℕ) (edit : ProjectUser → ProjectUser) (w : World db)
      → KeepsPlace w edit
      → IsPlaced db w.team
      → IsPlaced db (update_member db p u edit w).1.team
  update_member-IsPlaced p u edit w keeps h i n at =
      elim (Option-cases
        (db.find w.team.members (λ j m. (m.project_id == p) && (m.user_id == u)))) [
          | inl unknown ↦ ground (arith, h i n)
          | inr ((k, m), found) ↦
              let (there, named) =
                db.find-sound w.team.members (λ j m. (m.project_id == p) && (m.user_id == u)) k m
                  found in
              let fine : is_placed db w.team.department_roles (edit m) ≡ true =
                keeps m (h k m there) in
              ground (arith, h i n, put_member-IsPlaced db w.team h k (edit m) fine i n)
        ]

  module _ (w : World db) (h : IsPlaced db w.team) where
    assign_user-IsPlaced : (p u : ℕ) → IsPlaced db (assign_user db p u w).1.team
    unfolding assign_user
    assign_user-IsPlaced p u i n at = ground (
      arith,
      h i n,
      put_member-IsPlaced db w.team h (db.next w.team.members)
          (record {
            project_id = p;
            user_id = u;
            project_role_id = none;
            department_id = none;
            department_role_id = none;
          })
          refl i n,
    )

    unassign_user-IsPlaced : (p u : ℕ) → IsPlaced db (unassign_user db p u w).1.team
    unfolding unassign_user
    unassign_user-IsPlaced p u i n at =
        elim (Option-cases
          (db.find w.team.members (λ j m. (m.project_id == p) && (m.user_id == u)))) [
            | inl unknown ↦ ground (arith, h i n)
            | inr ((k, m), found) ↦
                ground (arith, h i n, db.row-remove_where w.team.members (λ j _. k == j) i)
          ]

    set_user_role-IsPlaced : (p u r : ℕ) → IsPlaced db (set_user_role db p u r w).1.team
    unfolding set_user_role
    set_user_role-IsPlaced p u r i n at =
        ground (arith, h i n, update_member-IsPlaced p u (give_role (some r)) w (λ m e. e) h i n)

    unset_user_role-IsPlaced : (p u : ℕ) → IsPlaced db (unset_user_role db p u w).1.team
    unfolding unset_user_role
    unset_user_role-IsPlaced p u = update_member-IsPlaced p u (give_role none) w (λ m e. e) h

    assign_user_to_department-IsPlaced :
        (p u d : ℕ) → IsPlaced db (assign_user_to_department db p u d w).1.team
    unfolding assign_user_to_department
    assign_user_to_department-IsPlaced p u d i n at =
        ground
          (arith, h i n, update_member-IsPlaced p u (place (some d) none) w (λ m e. refl) h i n)

    remove_user_from_department-IsPlaced :
        (p u : ℕ) → IsPlaced db (remove_user_from_department db p u w).1.team
    unfolding remove_user_from_department
    remove_user_from_department-IsPlaced p u =
        update_member-IsPlaced p u (place none none) w (λ m e. refl) h

    set_user_department_role-IsPlaced :
        (p u r : ℕ) → IsPlaced db (set_user_department_role db p u r w).1.team
    unfolding set_user_department_role
    set_user_department_role-IsPlaced p u r i n at =
        elim (Option-cases (db.row w.team.department_roles r)) [
          | inl unknown ↦ ground (arith, h i n)
          | inr (role, there) ↦ ground (
            arith,
            h i n,
            update_member-IsPlaced p u (place (some role.department_id) (some r)) w
                (λ m e. ground arith) h i n,
          )
        ]

    unset_user_department_role-IsPlaced :
        (p u : ℕ) → IsPlaced db (unset_user_department_role db p u w).1.team
    unfolding unset_user_department_role
    unset_user_department_role-IsPlaced p u =
        update_member-IsPlaced p u (λ m. record m { department_role_id = none }) w (λ m e. refl) h

    remove_department-IsPlaced : (d : ℕ) → IsPlaced db (remove_department db d w).1.team
    unfolding remove_department
    remove_department-IsPlaced d i n at =
        ground (arith, h i n, delete_departments-IsPlaced db w.team (λ j. d == j) h i n)

    remove_department_role-IsPlaced : (r : ℕ) → IsPlaced db (remove_department_role db r w).1.team
    unfolding remove_department_role
    remove_department_role-IsPlaced r i n at =
        ground (arith, h i n, delete_department_roles-IsPlaced db w.team h (λ j. r == j) i n)

    remove_role-IsPlaced : (r : ℕ) → IsPlaced db (remove_role db r w).1.team
    unfolding remove_role
    remove_role-IsPlaced r i n at =
        ground (arith, h i n, delete_roles-IsPlaced db w.team h (λ j. r == j) i n)

    create_department_role-IsPlaced :
        (d : ℕ) (name : Text) → IsPlaced db (create_department_role db d name w).1.team
    unfolding create_department_role
    create_department_role-IsPlaced d name i n at = ground (
      arith,
      h i n,
      put_department_role-IsPlaced db w.team h (db.next w.team.department_roles)
          (record { department_id = d; name = trim name })
          (λ old e. ground (arith, db.row-next w.team.department_roles)) i n,
    )

    update_department_role-IsPlaced :
        (r : ℕ) (name : Text) → IsPlaced db (update_department_role db r name w).1.team
    unfolding update_department_role
    update_department_role-IsPlaced r name i n at =
        elim (Option-cases (db.row w.team.department_roles r)) [
          | inl unknown ↦ ground (arith, h i n)
          | inr (role, there) ↦ ground (
            arith,
            h i n,
            put_department_role-IsPlaced db w.team h r (record role { name = trim name })
                (λ old e. ground arith) i n,
          )
        ]

    run_team_call-IsPlaced : (c : TeamCall) → IsPlaced db (run_team_call c w).team
    unfolding run_team_call
    run_team_call-IsPlaced (assign p u) = assign_user-IsPlaced p u
    run_team_call-IsPlaced (unassign p u) = unassign_user-IsPlaced p u
    run_team_call-IsPlaced (give_project_role p u r) = set_user_role-IsPlaced p u r
    run_team_call-IsPlaced (take_project_role p u) = unset_user_role-IsPlaced p u
    run_team_call-IsPlaced (move p u d) = assign_user_to_department-IsPlaced p u d
    run_team_call-IsPlaced (leave p u) = remove_user_from_department-IsPlaced p u
    run_team_call-IsPlaced (give_department_role p u r) = set_user_department_role-IsPlaced p u r
    run_team_call-IsPlaced (take_department_role p u) = unset_user_department_role-IsPlaced p u
    run_team_call-IsPlaced (drop_department d) = remove_department-IsPlaced d
    run_team_call-IsPlaced (drop_department_role r) = remove_department_role-IsPlaced r
    run_team_call-IsPlaced (drop_project_role r) = remove_role-IsPlaced r
    run_team_call-IsPlaced (add_department_role d name) = create_department_role-IsPlaced d name
    run_team_call-IsPlaced (rename_department_role r name) = update_department_role-IsPlaced r name

  -- Where the department role of every member is stored and is a role of the member's department,
  -- this holds after any sequence of calls that assign and unassign members, give, take and delete
  -- roles and department roles, move members between departments, delete departments, and add and
  -- rename department roles, whether the calls answer or throw.
  pub run_team_calls-IsPlaced :
      (cs : List TeamCall) (w : World db)
      → IsPlaced db w.team
      → IsPlaced db (run_team_calls cs w).team
  unfolding run_team_calls
  run_team_calls-IsPlaced [] w h = h
  run_team_calls-IsPlaced (c ∷ cs) w h =
      run_team_calls-IsPlaced cs (run_team_call c w) (run_team_call-IsPlaced w h c)
