-- ===== src/Api/Projects/Orders.antt =====
-- Calls on projects behind their guards, and the policies of department roles after them.
use rooeel_backend_api.Prelude.{◌≡◌}
use rooeel_backend_api.Prisma.{Engine}
use rooeel_backend_api.Tokens.{Tokens}
use rooeel_backend_api.Json.{JsonHost}
use rooeel_backend_api.Storage.{ObjectStore}
use rooeel_backend_api.Api.Guards.{Caller}
use rooeel_backend_api.Project.WorkOrders
use rooeel_backend_api.Project.WorkOrders.{Office, in_world}
use rooeel_backend_api.Project.Tasks.Handlers.{Viewer}
use rooeel_backend_api.Api.Projects.Keeping.{Keeps}
use rooeel_backend_api.Prelude.{ℕ, Option, Action, ◌≡◌, ap, arith, inl, inr}
use rooeel_backend_api.Storage.{upload_file, get_presigned_url}
use rooeel_backend_api.Text.{Text}
use rooeel_backend_api.World.{World}
use rooeel_backend_api.Api.Guards.{as_admin}
use rooeel_backend_api.Api.Guards.Refusal.{as_admin_cases}
use rooeel_backend_api.Api.Projects.{Attachment, no_file, other_type, pdf}
use rooeel_backend_api.Api.Projects.Serve.{accounts_of, admin_only, upload}
use rooeel_backend_api.Project.Policies.{ArePolicies}
use rooeel_backend_api.Project.Policies.Kept as Policies
use rooeel_backend_api.Project.Policies.Kept.{
  spared-Keeps, remove_project-Keeps, remove_department-Keeps, remove_department_role-Keeps,
  remove_department_role_policy-Keeps, set_department_role_policy-Keeps,
}
use rooeel_backend_api.Project.Policies.Spared.{Spares}

module _ (db : Engine) where
  -- A call that keeps the policies in order.
  pub record Orders {A : Type 0} (m : Action (Office db) A) : Type 0 where
    pub kept :
        (o : Office db)
        → ArePolicies db o.world.team.policies
        → ArePolicies db (m o).1.world.team.policies

  -- A call that leaves the rights alone does.
  pub Keeps-Orders : {A : Type 0} (m : Action (Office db) A) → Keeps db m → Orders m
  Keeps-Orders m h = record { kept = λ o good. rw (ap (λ k. k.1.policies) (h.same o)) good }

  uploaded_policies :
      (s3 : ObjectStore) (p admin_id : ℕ) (file : WorkOrders.Upload) (o : Office db)
      → (WorkOrders.upload_work_order db s3 p admin_id file o).1.world.team.policies
        ≡ o.world.team.policies
  unfolding WorkOrders.upload_work_order upload_file get_presigned_url
  uploaded_policies s3 p admin_id file o = ground arith

module _ (db : Engine) (host : JsonHost) (s3 : ObjectStore) (jwt : Tokens) (caller : Caller) where
  pub upload-Orders :
      (p admin_id : ℕ) (name : Option Text) (attachment : Attachment)
      → Orders db (upload db host s3 jwt caller p admin_id name attachment)
  upload-Orders p admin_id name no_file = record { kept = λ o good. good }
  upload-Orders p admin_id name other_type = record { kept = λ o good. good }
  upload-Orders p admin_id name (pdf file) = record {
    kept = λ o good. rw (uploaded_policies db s3 p admin_id (record file { name = name }) o) good;
  }

  pub as_admin-Orders :
      {A : Type 0} (run : Viewer → Action (Office db) A)
      → ((v : Viewer) → Orders db (run v))
      → Orders db (as_admin db jwt caller (accounts_of db host s3 jwt caller) run)
  as_admin-Orders run h = record {
    kept = λ o good. elim (as_admin_cases db jwt caller (accounts_of db host s3 jwt caller) run o) [
      | inl (e, same) ↦ rw same good
      | inr (v, same) ↦ rw same ((h v).kept o good)
    ];
  }

  pub admin_only-Orders :
      {A : Type 0} (run : Viewer → Action (World db) A)
      → ((v : Viewer) → Policies.Keeps db (run v))
      → Orders db (admin_only db host s3 jwt caller run)
  admin_only-Orders run h =
      as_admin-Orders (λ v. in_world (run v))
        (λ v. record { kept = λ o good. (h v).kept o.world good })

  pub spared-Orders :
      {A : Type 0} (run : Viewer → Action (World db) A)
      → ((v : Viewer) → Spares db (run v))
      → Orders db (admin_only db host s3 jwt caller run)
  spared-Orders run h = admin_only-Orders run (λ v. spared-Keeps db (run v) (h v))
