-- ===== src/Project/Policies.antt =====
-- The policies of department roles in src/project/services/project.service.ts, from the call that
-- sets one to the access of the members who hold the role.
pub mod Spared
pub mod Kept
use rooeel_backend_api.Access.Last.{
  normal_name, allowed_normal, Agree, last_about_only, is_granted-last,
}
use rooeel_backend_api.Prelude.{
  ==_refl, ==_iff, ap, ℕ, Bool, true, false, ◌&&◌, ◌≡◌, refl, sym, ◌∙◌, ◌⊎◌, ◌==◌, none, some, List,
  [], ◌∷◌, arith, Option-cases, Bool-cases, inl, inr, In, In-map, map_sound, truthy, ok,
}
use rooeel_backend_api.Text.{
  Text, text_eq, text_eq_iff, text_eq_refl, is_empty, includes, to_upper_case, trim, trim_end,
  trim_start, is_space, cons_trimmed, upper,
}
use rooeel_backend_api.Schema.{Flags, DepartmentRolePolicy, ProjectUser}
use rooeel_backend_api.Prisma.{Engine}
use rooeel_backend_api.World.{World}
use rooeel_backend_api.Access.{
  allowed_policy_resources, normalize_resource, can_access, flag, Action,
}
use rooeel_backend_api.Access.Policy.{normalize_policy_resource, build_policy_flags}
use rooeel_backend_api.Access.Effective.{
  build_access_map, Grant, policy_grant, policies_of, permissions_of,
  get_access_map_for_project_user,
}
use rooeel_backend_api.Access.Precedence.{
  is_about, last_about, is_granted, all_normal, can_access-build_access_map,
}
use rooeel_backend_api.Project.Departments.{set_department_role_policy}

module _ (db : Engine) where
  -- Each department role has one policy at most about a resource, and it is an allowed one.
  pub record ArePolicies (t : db.Rows DepartmentRolePolicy) : Type 0 where
    pub alone :
        (i j : ℕ) (a b : DepartmentRolePolicy)
        → db.row t i ≡ some a
        → db.row t j ≡ some b
        → a.department_role_id ≡ b.department_role_id
        → a.resource ≡ b.resource
        → i ≡ j
    pub allowed :
        (i : ℕ) (a : DepartmentRolePolicy)
        → db.row t i ≡ some a
        → includes allowed_policy_resources a.resource ≡ true

  -- What setting a policy has met and written.
  record IsStored (r : ℕ) (key : Text) (f : Flags) (w w' : World db) : Type 0 where
    id : ℕ
    listed : includes allowed_policy_resources key ≡ true
    named : is_empty key ≡ false
    only :
        (j : ℕ) (q : DepartmentRolePolicy)
        → db.row w.team.policies j ≡ some q
        → q.department_role_id ≡ r
        → q.resource ≡ key
        → j ≡ id
    state : w' ≡ record w {
      team = record w.team {
        policies =
            db.put w.team.policies id
              (record { department_role_id = r; resource = key; flags = f });
      };
    }

  module _ (r : ℕ) (resource : Text) (flags : Flags) (p : DepartmentRolePolicy) (w w' : World db)
      (good : ArePolicies w.team.policies)
      (done : set_department_role_policy db r resource flags w ≡ (ok p, w')) where
    abbrev key : Text
    key = normalize_policy_resource resource

    abbrev set_flags : Flags
    set_flags = build_policy_flags key flags

    abbrev asked : ℕ → DepartmentRolePolicy → Bool
    asked i q = q.department_role_id == r && text_eq q.resource key

    abbrev set_row : DepartmentRolePolicy
    set_row = record { department_role_id = r; resource = key; flags = set_flags }

    set-named : is_empty key ≡ false
    unfolding set_department_role_policy
    set-named = ground arith

    set-listed : includes allowed_policy_resources key ≡ true
    unfolding set_department_role_policy
    set-listed = ground arith

    set-IsStored : IsStored r key set_flags w w'
    set-IsStored = elim (Option-cases (db.find w.team.policies asked)) [
      | inl fresh ↦ record {
        id = db.next w.team.policies;
        listed = set-listed;
        named = set-named;
        only = λ j q at same e. ground (
          arith,
          db.find-complete w.team.policies asked j q fresh at,
          text_eq_iff q.resource key,
        );
        state = unfold set_department_role_policy in ground arith;
      }
      | inr ((i, q), found) ↦
          let (at, same) = db.find-sound w.team.policies asked i q found in
          let role : q.department_role_id ≡ r = ground arith in
          let name : q.resource ≡ key = ground (arith, text_eq_iff q.resource key) in
          record {
            id = i;
            listed = set-listed;
            named = set-named;
            only = λ j q' at' role' name'.
                good.alone j i q' q at' at (role' ∙ sym role) (name' ∙ sym name);
            state = unfold set_department_role_policy in ground arith;
          }
    ]

    pub set-ArePolicies : ArePolicies w'.team.policies
    set-ArePolicies =
        let x = set-IsStored in
        record {
          alone = λ i j a b hi hj role name. ground (
            arith,
            x.state,
            db.row-put w.team.policies x.id set_row i,
            db.row-put w.team.policies x.id set_row j,
            x.only i a,
            x.only j b,
            good.alone i j a b,
          );
          allowed = λ i a hi. ground (
            arith,
            x.state,
            x.listed,
            db.row-put w.team.policies x.id set_row i,
            good.allowed i a,
          );
        }

    -- The policies of the role, as the access map reads them.
    abbrev own : List Grant
    own = policies_of db (some r) w'.team

    set-at : db.row w'.team.policies set-IsStored.id ≡ some set_row
    set-at =
        let x = set-IsStored in
        ground (arith, x.state, db.row-put w.team.policies x.id set_row x.id)

    set-In : In (key, set_flags) own
    set-In =
        In-map policy_grant (set-IsStored.id, set_row) _
          (db.find_all-complete w'.team.policies (λ i q. q.department_role_id == r) set-IsStored.id
            set_row set-at (==_refl r))

    key-normal : normalize_resource key ≡ key
    key-normal = normal_name allowed_policy_resources key allowed_normal set-listed

    set-Agree : Agree key set_flags own
    set-Agree h m about =
        let ((i, q), listed, same) = map_sound policy_grant h _ m in
        let (at, role) =
          db.find_all-sound w'.team.policies (λ i q. q.department_role_id == r) i q listed in
        let normal : normalize_resource q.resource ≡ q.resource =
          normal_name allowed_policy_resources q.resource allowed_normal
            (set-ArePolicies.allowed i q at) in
        let one : i ≡ set-IsStored.id =
          set-ArePolicies.alone i set-IsStored.id q set_row at set-at
            ((==_iff q.department_role_id r).0 role)
            (ground
              (arith, same, normal, about, text_eq_iff (normalize_resource q.resource) key)) in
        ground (arith, one, at, set-at, same)

    set-last : last_about key own ≡ some set_flags
    set-last =
        last_about_only key set_flags own (key, set_flags) set-Agree set-In
          (rw key-normal (text_eq_refl key))

    set-access :
        (member : ProjectUser) (a : Action)
        → truthy member.department_role_id ≡ some r
        → can_access (get_access_map_for_project_user db member w'.team) key a ≡ flag set_flags a
    unfolding get_access_map_for_project_user
    set-access member a holds =
        let scope =
          permissions_of db (truthy member.project_role_id) member.department_id w'.team in
        ap (λ o. can_access (build_access_map (policies_of db o w'.team) scope) key a) holds
        ∙ can_access-build_access_map own scope key a (rw key-normal set-named)
        ∙ ap (λ k. is_granted own scope k a) key-normal
        ∙ is_granted-last key set_flags own scope a set-last

  -- Where each department role has one policy at most about a resource and all are about allowed
  -- resources: after `setDepartmentRolePolicy` has answered, the access map of a member whose
  -- department role is that role allows an action on the resource, by the name under which the policy
  -- is stored, exactly if the stored flags do.
  pub set_department_role_policy-can_access :
      (r : ℕ) (resource : Text) (flags : Flags) (p : DepartmentRolePolicy) (w w' : World db)
      (member : ProjectUser) (a : Action)
      → ArePolicies w.team.policies
      → set_department_role_policy db r resource flags w ≡ (ok p, w')
      → truthy member.department_role_id ≡ some r
      → can_access
          (get_access_map_for_project_user db member w'.team)
          (normalize_policy_resource resource)
          a
        ≡ flag (build_policy_flags (normalize_policy_resource resource) flags) a
  set_department_role_policy-can_access r resource flags p w w' member a good done holds =
      set-access r resource flags p w w' good done member a holds
