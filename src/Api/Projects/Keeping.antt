-- ===== src/Api/Projects/Keeping.antt =====
-- The handlers and the guards, and what they keep of the state.
use rooeel_backend_api.Prelude.{
  ℕ, Bool, true, false, some, if◌then◌else◌, Action, Result, ok, err, ◌>>◌, Exception, ◌≡◌, refl,
  arith, inl, inr,
}
use rooeel_backend_api.Text.{Text}
use rooeel_backend_api.Schema.{is_admin}
use rooeel_backend_api.Prisma.{Engine}
use rooeel_backend_api.World.{World, Accounts}
use rooeel_backend_api.Tokens.{Tokens}
use rooeel_backend_api.Json.{JsonHost}
use rooeel_backend_api.Storage.{ObjectStore}
use rooeel_backend_api.Access
use rooeel_backend_api.Auth.Guard
use rooeel_backend_api.Api.Guards.{Caller, as_admin, as_rest_user}
use rooeel_backend_api.Api.Guards.Refusal.{
  IsPlain, as_admin_plain, as_gql_user_cases, as_rest_user_cases,
}
use rooeel_backend_api.Prelude.{Result-cases}
use rooeel_backend_api.Api.Projects.Serve.{accounts_of, any_user, with_permission, needs}
use rooeel_backend_api.Project.Crud
use rooeel_backend_api.Project.Members
use rooeel_backend_api.Project.Departments
use rooeel_backend_api.Project.WorkOrders
use rooeel_backend_api.Project.Rights.{kept, Holds, bind-Holds, sign_orders-Holds}
use rooeel_backend_api.Storage.{delete_file, get_presigned_url}
use rooeel_backend_api.Project.WorkOrders.{Office, in_world}
use rooeel_backend_api.Project.Tasks.Handlers.{Viewer}

module _ (db : Engine) where
  -- A call after which the accounts, the rights within projects, the projects and their fields are
  -- as before.
  pub record Keeps {A : Type 0} (m : Action (Office db) A) : Type 0 where
    pub same : (o : Office db) → kept db (m o).1.world ≡ kept db o.world

  pub in_world-Keeps : {A : Type 0} (m : Action (World db) A) → Holds db m → Keeps (in_world m)
  in_world-Keeps m h = record { same = λ o. h.same o.world }

  pub delete_work_order-Keeps :
      (s3 : ObjectStore) (id : ℕ) (row_goes : Bool)
      → Keeps (WorkOrders.delete_work_order db s3 id row_goes)
  unfolding WorkOrders.delete_work_order delete_file
  delete_work_order-Keeps s3 id row_goes = record { same = λ o. ground arith }

  pub get_fields-Holds : (p : ℕ) → Holds db (Crud.get_fields db p)
  unfolding Crud.get_fields
  get_fields-Holds p = record { same = λ w. refl }

  pub get_users-Holds : (p : ℕ) → Holds db (Members.get_users db p)
  unfolding Members.get_users
  get_users-Holds p = record { same = λ w. refl }

  pub get_departments-Holds : (p : ℕ) → Holds db (Departments.get_departments db p)
  unfolding Departments.get_departments
  get_departments-Holds p = record { same = λ w. refl }

  pub get_work_orders-Holds :
      (s3 : ObjectStore) (p : ℕ) → Holds db (WorkOrders.get_work_orders db s3 p)
  unfolding WorkOrders.get_work_orders
  get_work_orders-Holds s3 p = record { same = λ w. (sign_orders-Holds db s3 _).same w }

  pub reading-Holds : {A : Type 0} (f : World db → A) → Holds db (λ w. (ok (f w), w))
  reading-Holds f = record { same = λ w. refl }

  -- Two tests, and an exception if both fail.
  two_tests :
      (a b : Bool) (e : Exception) (w : World db)
      → let r : Result (Unit {0}) × World db =
          if a then (ok tt, w) else if b then (ok tt, w) else (err e, w) in
        kept db r.1 ≡ kept db w
  two_tests true b e w = refl
  two_tests false true e w = refl
  two_tests false false e w = refl

  pub view-Holds :
      (s3 : ObjectStore) (p id : ℕ) (v : Viewer)
      → Holds db (
          WorkOrders.assert_can_view_work_order db p v
          >> WorkOrders.get_work_order_view_url db s3 p id)
  unfolding WorkOrders.assert_can_view_work_order WorkOrders.get_work_order_view_url
      get_presigned_url
  view-Holds s3 p id v =
      bind-Holds db (λ _. WorkOrders.get_work_order_view_url db s3 p id)
        (λ _. record { same = λ w. ground arith }) (WorkOrders.assert_can_view_work_order db p v)
        (record { same = λ w. two_tests (is_admin v.role) _ _ w })

module _ (db : Engine) (host : JsonHost) (s3 : ObjectStore) (jwt : Tokens) (caller : Caller) where
  abbrev at : Office db → Accounts db
  at = accounts_of db host s3 jwt caller

  module _ {A : Type 0} where
    pub as_admin-Keeps :
        (run : Viewer → Action (Office db) A)
        → IsPlain jwt caller
        → Keeps db (as_admin db jwt caller at run)
    as_admin-Keeps run plain = record {
      same = λ o. let (e, refused) = as_admin_plain db jwt caller at run o plain in rw refused refl;
    }

    pub as_gql_user-Keeps :
        (run : Viewer → Action (World db) A)
        → ((v : Viewer) → Holds db (run v))
        → Keeps db (any_user db host s3 jwt caller run)
    as_gql_user-Keeps run held = record {
      same = λ o. elim (as_gql_user_cases db jwt caller at (λ v. in_world (run v)) o) [
        | inl (e, same) ↦ rw same refl
        | inr (v, shown, same) ↦ rw same ((held v).same o.world)
      ];
    }

    pub as_rest_user-Keeps :
        (run : Viewer → Action (World db) A)
        → ((v : Viewer) → Holds db (run v))
        → Keeps db (as_rest_user db jwt caller at (λ v. in_world (run v)))
    as_rest_user-Keeps run held = record {
      same = λ o. elim (as_rest_user_cases db jwt caller at (λ v. in_world (run v)) o) [
        | inl (e, same) ↦ rw same refl
        | inr (v, shown, same) ↦ rw same ((held v).same o.world)
      ];
    }

    pub with_permission-Keeps :
        (resource : Text) (action : Access.Action) (args : Guard.Args) (run : Action (Office db) A)
        → Keeps db run
        → Keeps db (with_permission db host s3 jwt caller resource action args run)
    with_permission-Keeps resource action args run keeps = record {
      same = λ o.
          elim (Result-cases (
            Guard.can_activate db jwt caller.now caller.bearer (some (needs resource action)) args
              o.world)) [
                | inl (_, fine) ↦ rw (fine, with_permission) (keeps.same o)
                | inr (e, thrown) ↦ rw (thrown, with_permission) refl
              ];
    }
