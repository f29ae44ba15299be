-- ===== src/Project/Policies/Kept.antt =====
-- The calls of src/project/services/project.service.ts that write or delete policies of department
-- roles.
use rooeel_backend_api.Prelude.{
  ℕ, ◌==◌, Bool, Action, err, ◌≡◌, arith, inl, inr, Option-cases, Result-cases, Exception,
}
use rooeel_backend_api.Text.{Text}
use rooeel_backend_api.Schema.{Flags, DepartmentRolePolicy}
use rooeel_backend_api.Prisma.{Engine}
use rooeel_backend_api.World.{
  World, Team, delete_roles, delete_departments, delete_department_roles, delete_project_team,
}
use rooeel_backend_api.Project.Crud
use rooeel_backend_api.Project.Departments
use rooeel_backend_api.Project.Policies.{ArePolicies, set-ArePolicies}
use rooeel_backend_api.Project.Policies.Spared.{Spares}

module _ (db : Engine) where
  -- An action that keeps the policies in order.
  pub record Keeps {A : Type 0} (m : Action (World db) A) : Type 0 where
    pub kept :
        (w : World db) → ArePolicies db w.team.policies → ArePolicies db (m w).1.team.policies

  pub spared-Keeps : {A : Type 0} (m : Action (World db) A) → Spares db m → Keeps m
  spared-Keeps m h = record { kept = λ w good. rw (h.same w) good }

  same_policies :
      (t t' : db.Rows DepartmentRolePolicy) → t' ≡ t → ArePolicies db t → ArePolicies db t'
  same_policies t t' e good = rw e good

  remove_where-ArePolicies :
      (t : db.Rows DepartmentRolePolicy) (p : ℕ → DepartmentRolePolicy → Bool)
      → ArePolicies db t
      → ArePolicies db (db.remove_where t p)
  remove_where-ArePolicies t p good = record {
    alone = λ i j a b hi hj role name.
        ground (arith, db.row-remove_where t p i, db.row-remove_where t p j, good.alone i j a b);
    allowed = λ i a hi. ground (arith, db.row-remove_where t p i, good.allowed i a);
  }

  module _ (gone : ℕ → Bool) (t : Team db) (good : ArePolicies db t.policies) where
    delete_department_roles-ArePolicies :
        ArePolicies db (delete_department_roles db gone t).policies
    unfolding delete_department_roles
    delete_department_roles-ArePolicies = remove_where-ArePolicies t.policies _ good

    delete_departments-ArePolicies : ArePolicies db (delete_departments db gone t).policies
    unfolding delete_departments delete_department_roles
    delete_departments-ArePolicies = remove_where-ArePolicies t.policies _ good

    delete_project_team-ArePolicies : ArePolicies db (delete_project_team db gone t).policies
    unfolding delete_project_team delete_roles delete_departments delete_department_roles
    delete_project_team-ArePolicies = remove_where-ArePolicies t.policies _ good

  pub remove_project-Keeps : (id : ℕ) → Keeps (Crud.remove db id)
  remove_project-Keeps id = record {
    kept = λ w good. elim (Option-cases (db.row w.content.projects id)) [
      | inl missing ↦
          same_policies w.team.policies (Crud.remove db id w).1.team.policies
            (unfold Crud.remove in ground arith) good
      | inr (p, there) ↦
          same_policies (delete_project_team db (λ i. id == i) w.team).policies
            (Crud.remove db id w).1.team.policies (unfold Crud.remove in ground arith)
            (delete_project_team-ArePolicies (λ i. id == i) w.team good)
    ];
  }

  pub remove_department-Keeps : (id : ℕ) → Keeps (Departments.remove_department db id)
  remove_department-Keeps id = record {
    kept = λ w good. elim (Option-cases (db.row w.team.departments id)) [
      | inl missing ↦
          same_policies w.team.policies (Departments.remove_department db id w).1.team.policies
            (unfold Departments.remove_department in ground arith) good
      | inr (p, there) ↦
          same_policies (delete_departments db (λ i. id == i) w.team).policies
            (Departments.remove_department db id w).1.team.policies
            (unfold Departments.remove_department in ground arith)
            (delete_departments-ArePolicies (λ i. id == i) w.team good)
    ];
  }

  pub remove_department_role-Keeps : (id : ℕ) → Keeps (Departments.remove_department_role db id)
  remove_department_role-Keeps id = record {
    kept = λ w good. elim (Option-cases (db.row w.team.department_roles id)) [
      | inl missing ↦
          same_policies w.team.policies (Departments.remove_department_role db id w).1.team.policies
            (unfold Departments.remove_department_role in ground arith) good
      | inr (p, there) ↦
          same_policies (delete_department_roles db (λ i. id == i) w.team).policies
            (Departments.remove_department_role db id w).1.team.policies
            (unfold Departments.remove_department_role in ground arith)
            (delete_department_roles-ArePolicies (λ i. id == i) w.team good)
    ];
  }

  pub remove_department_role_policy-Keeps :
      (id : ℕ) → Keeps (Departments.remove_department_role_policy db id)
  remove_department_role_policy-Keeps id = record {
    kept = λ w good. elim (Option-cases (db.row w.team.policies id)) [
      | inl missing ↦
          same_policies w.team.policies
            (Departments.remove_department_role_policy db id w).1.team.policies
            (unfold Departments.remove_department_role_policy in ground arith) good
      | inr (p, there) ↦
          same_policies (db.remove_where w.team.policies (λ j _. id == j))
            (Departments.remove_department_role_policy db id w).1.team.policies
            (unfold Departments.remove_department_role_policy in ground arith)
            (remove_where-ArePolicies w.team.policies (λ j _. id == j) good)
    ];
  }

  refused_policy :
      (r : ℕ) (resource : Text) (flags : Flags) (e : Exception) (w : World db)
      → (Departments.set_department_role_policy db r resource flags w).0 ≡ err e
      → (Departments.set_department_role_policy db r resource flags w).1.team.policies
        ≡ w.team.policies
  unfolding Departments.set_department_role_policy
  refused_policy r resource flags e w h = ground arith

  pub set_department_role_policy-Keeps :
      (r : ℕ) (resource : Text) (flags : Flags)
      → Keeps (Departments.set_department_role_policy db r resource flags)
  set_department_role_policy-Keeps r resource flags = record {
    kept = λ w good.
        elim (Result-cases (Departments.set_department_role_policy db r resource flags w).0) [
          | inl (p, e) ↦
              set-ArePolicies db r resource flags p w
                (Departments.set_department_role_policy db r resource flags w).1 good
                (ground (arith, e))
          | inr (x, e) ↦ rw (refused_policy r resource flags x w e) good
        ];
  }
