-- ===== src/Project/WorkOrders.antt =====
-- The work orders of a project: a row for each, and its file in the bucket.
pub mod Viewing
pub mod Names
pub mod Safety
pub mod Bucket
pub mod Backing
use rooeel_backend_api.Prelude.{
  service_failure, if◌then◌else◌, ℕ, ◌==◌, ◌&&◌, Bool, true, false, Option, none, some, List, [],
  ◌∷◌, map, Action, ok, err, ◌>>=◌, ◌>>◌, pure, or_throw, throw_if, throw, not_found, forbidden,
  truthy, not, Result, unauthorized,
}
use rooeel_backend_api.Text.{Text, codes}
use rooeel_backend_api.Prisma.{Engine, find_by_id_or_throw, find_first, find_many, create, delete}
use rooeel_backend_api.Schema.{WorkOrderPdf, is_admin}
use rooeel_backend_api.World.{World, work_orders}
use rooeel_backend_api.Storage.{
  ObjectStore, Files, upload_file, delete_file, get_file_stream, get_presigned_url,
}
use rooeel_backend_api.Access.{can_access, can_view}
use rooeel_backend_api.Project.View.{SignedOrder, sign_orders}
use rooeel_backend_api.Project.Lookup.{found_project}
use rooeel_backend_api.Project.Tasks.Resource.{get_project_user_context}
use rooeel_backend_api.Project.Tasks.Handlers.{Viewer, restricted}
use rooeel_backend_api.Project.WorkOrders.Names.{display_name}

-- The tables with the bucket.
pub record Office (db : Engine) : Type 0 where
  pub world : World db
  pub files : Files

module _ {db : Engine} {A : Type 0} where
  -- A call that is about the tables, or about the bucket.
  abbrev pub in_world : Action (World db) A → Action (Office db) A
  in_world m o = let (r, w) = m o.world in (r, record o { world = w })

  abbrev pub in_bucket : Action Files A → Action (Office db) A
  in_bucket m o = let (r, fs) = m o.files in (r, record o { files = fs })

-- What an upload brings, and what it draws: the name of the file and the date.
pub record Upload : Type 0 where
  pub original_name : Text
  pub name : Option Text
  pub uuid : Text
  pub date : Text

module _ (db : Engine) (s3 : ObjectStore) where
  -- The order of the answer, by `createdAt`, is left out.
  unfoldable pub get_work_orders : ℕ → Action (World db) (List SignedOrder)
  unfolding sign_orders
  get_work_orders project_id = do
    orders ← find_many db (work_orders db) (λ i o. o.project_id == project_id)
    sign_orders s3 orders

  unfoldable pub upload_work_order : ℕ → ℕ → Upload → Action (Office db) (ℕ × WorkOrderPdf × Text)
  unfolding upload_file get_presigned_url display_name
  upload_work_order project_id admin_id file = do
    in_world (found_project db project_id)
    key ← in_bucket (upload_file s3 (codes "work-orders") file.uuid file.original_name)
    made ← in_world (
        create db (work_orders db) none (record {
          project_id = project_id;
          file_key = key;
          file_name = display_name file.name file.original_name file.date;
          uploaded_by = admin_id;
        }))
    url ← get_presigned_url s3 key made.1.file_name
    pure (made.0, made.1, url)

  -- The file goes first. `row_goes` is whether the database then carries the deletion of the row
  -- out; if not, the client throws and the row stays.
  unfoldable pub delete_work_order : ℕ → Bool → Action (Office db) (Unit {0})
  unfolding delete_file
  delete_work_order id row_goes = do
    order ← in_world (find_by_id_or_throw db (work_orders db) id)
    in_bucket (delete_file s3 order.file_key)
    throw_if (not row_goes) service_failure
    in_world (delete db (work_orders db) id)
    pure tt

  -- A work order by its key, if it is one of the project.
  abbrev pub order_of : ℕ → ℕ → Action (World db) WorkOrderPdf
  order_of project_id id w = elim (db.row w.content.work_orders id) [
    | none ↦ (err (not_found "Work order not found in project"), w)
    | some o ↦
        if o.project_id == project_id
        then (ok o, w)
        else (err (not_found "Work order not found in project"), w)
  ]

  -- The content of the file, and its name.
  unfoldable pub get_work_order_for_viewing : ℕ → ℕ → Action (World db) (Text × Text)
  unfolding get_file_stream
  get_work_order_for_viewing project_id id = do
    order ← order_of project_id id
    stream ← get_file_stream s3 order.file_key
    pure (stream, order.file_name)

  unfoldable pub get_work_order_view_url : ℕ → ℕ → Action (World db) (Text × Text)
  unfolding get_presigned_url
  get_work_order_view_url project_id id = do
    order ← order_of project_id id
    url ← get_presigned_url s3 order.file_key order.file_name
    pure (order.file_name, url)

module _ (db : Engine) where
  abbrev may_view : Option ℕ → ℕ → World db → Bool
  may_view none project_id w = false
  may_view (some user_id) project_id w = elim (get_project_user_context db project_id user_id w) [
    | none ↦ false
    | some (m, access_map) ↦ can_access access_map (codes "WORK_ORDER") can_view
  ]

  unfoldable pub assert_can_view_work_order : ℕ → Viewer → Action (World db) (Unit {0})
  assert_can_view_work_order project_id user w =
      if is_admin user.role
      then (ok tt, w)
      else if may_view (truthy (some user.user_id)) project_id w
      then (ok tt, w)
      else (err (forbidden "Work order access denied"), w)
