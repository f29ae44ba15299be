-- ===== src/Project/WorkOrders/Backing.antt =====
-- The files behind the work orders, over the steps that write either.
use rooeel_backend_api.Prelude.{
  [], List, ℕ, ◌==◌, ◌≡◌, ◌≢◌, ◌⊎◌, not, Bool, true, false, if◌then◌else◌, some, ◌∷◌, keep, arith,
  Option-cases, Bool-cases, inl, inr,
}
use rooeel_backend_api.Text.{Text, codes, text_eq}
use rooeel_backend_api.Prisma.{Engine}
use rooeel_backend_api.Schema.{WorkOrderPdf}
use rooeel_backend_api.World.{delete_project_content, delete_tasks}
use rooeel_backend_api.Storage.{
  ObjectStore, key_of_file, upload_file, delete_file, get_presigned_url,
}
use rooeel_backend_api.Project.Crud
use rooeel_backend_api.Project.WorkOrders.Bucket.{
  IsBacked, cut_by, put_order-IsBacked, drop_orders-IsBacked, drop_file-IsBacked,
  lose_file-IsBacked, more_cut,
}
use rooeel_backend_api.Project.WorkOrders.{
  get_presigned_url, Office, Upload, upload_work_order, delete_work_order,
}
use rooeel_backend_api.Project.WorkOrders.Names.{display_name}

module _ (db : Engine) where
  abbrev pub key_of : Upload → Text
  key_of file = key_of_file (codes "work-orders") file.uuid file.original_name

  -- A key that no work order has: what the drawn name of a file makes sure of.
  abbrev pub IsNewKey : Office db → Text → Type 0
  IsNewKey o key =
      (i : ℕ) (r : WorkOrderPdf) → db.row o.world.content.work_orders i ≡ some r → r.file_key ≢ key

  -- The steps, each with the store as it behaves then: an upload under a new key, a deletion, at
  -- which the database may fail when the file is gone, and the removal of a project with its work
  -- orders. The store may refuse any command. The lists are of the deletions at which the database
  -- failed, before and after the step.
  pub data OfficeStep (cut : List ℕ) (o : Office db) : List ℕ → Office db → Type 0 where
    upload :
        (s3 : ObjectStore) (project_id admin_id : ℕ) (file : Upload)
        → IsNewKey o (key_of file)
        → OfficeStep cut o cut (upload_work_order db s3 project_id admin_id file o).1
    drop :
        (s3 : ObjectStore) (id : ℕ) (row_goes : Bool)
        → OfficeStep cut o (cut_by id row_goes cut) (delete_work_order db s3 id row_goes o).1
    remove_project :
        (id : ℕ) → OfficeStep cut o cut (record o { world = (Crud.remove db id o.world).1 })

  pub data Reach (o : Office db) : List ℕ → Office db → Type 0 where
    here : Reach o [] o
    next :
        {cut cut' : List ℕ} {a b : Office db}
        → Reach o cut a
        → OfficeStep cut a cut' b
        → Reach o cut' b

  abbrev pub IsOfficeBacked : List ℕ → Office db → Type 0
  IsOfficeBacked cut o = IsBacked db cut o.world.content.work_orders o.files

  module _ (s3 : ObjectStore) (o : Office db) where
    -- What an upload leaves.
    upload_cases :
        (p a : ℕ) (file : Upload)
        → let o' = (upload_work_order db s3 p a file o).1 in
          (o' ≡ o)
          ⊎ ((o'.world.content.work_orders
                ≡ db.put o.world.content.work_orders (db.next o.world.content.work_orders) (record {
                  project_id = p;
                  file_key = key_of file;
                  file_name = display_name file.name file.original_name file.date;
                  uploaded_by = a;
                }))
              × (o'.files ≡ key_of file ∷ o.files))
    unfolding upload_work_order upload_file get_presigned_url
    upload_cases p a file = elim (Option-cases (db.row o.world.content.projects p)) [
      | inl gone ↦ inl (ground (arith, gone))
      | inr (pr, there) ↦ elim (Bool-cases (s3.takes (key_of file))) [
        | inl taken ↦ ground (arith, there, taken)
        | inr refused ↦ ground (arith, there, refused)
      ]
    ]

    upload-IsBacked :
        (cut : List ℕ) (p a : ℕ) (file : Upload)
        → IsOfficeBacked cut o
        → IsNewKey o (key_of file)
        → IsOfficeBacked cut (upload_work_order db s3 p a file o).1
    upload-IsBacked cut p a file h fresh = elim (upload_cases p a file) [
      | inl same ↦ rw same h
      | inr (rows, keys) ↦ rw rows (
          rw keys (
            put_order-IsBacked db cut o.world.content.work_orders o.files h
              (record {
                project_id = p;
                file_key = key_of file;
                file_name = display_name file.name file.original_name file.date;
                uploaded_by = a;
              })
              fresh))
    ]

    -- What a deletion leaves: nothing is changed, or the file is gone, and the row if the database
    -- carries its deletion out.
    delete_cases :
        (id : ℕ) (row_goes : Bool)
        → let o' = (delete_work_order db s3 id row_goes o).1 in
          (o' ≡ o)
          ⊎ ((r : WorkOrderPdf) × (db.row o.world.content.work_orders id ≡ some r)
              × (o'.world.content.work_orders ≡ (
                  if row_goes
                  then db.remove_where o.world.content.work_orders (λ i _. id == i)
                  else o.world.content.work_orders))
              × (o'.files ≡ keep (λ k. not (text_eq k r.file_key)) o.files))
    unfolding delete_work_order delete_file
    delete_cases id row_goes = elim (Option-cases (db.row o.world.content.work_orders id)) [
      | inl gone ↦ inl (ground (arith, gone))
      | inr (r, there) ↦ elim (Bool-cases (s3.drops r.file_key)) [
        | inl dropped ↦
            inr (r, there, ground (arith, there, dropped), ground (arith, there, dropped))
        | inr refused ↦ inl (ground (arith, there, refused))
      ]
    ]

    delete-IsBacked :
        (cut : List ℕ) (id : ℕ) (row_goes : Bool)
        → IsOfficeBacked cut o
        → IsOfficeBacked (cut_by id row_goes cut) (delete_work_order db s3 id row_goes o).1
    delete-IsBacked cut id true h = elim (delete_cases id true) [
      | inl same ↦ rw same h
      | inr (r, there, rows, keys) ↦
          rw rows
            (rw keys (drop_file-IsBacked db cut o.world.content.work_orders o.files h id r there))
    ]
    delete-IsBacked cut id false h = elim (delete_cases id false) [
      | inl same ↦ rw same (more_cut db cut o.world.content.work_orders o.files h id false)
      | inr (r, there, rows, keys) ↦
          rw rows
            (rw keys (lose_file-IsBacked db cut o.world.content.work_orders o.files h id r there))
    ]

  remove-IsBacked :
      (cut : List ℕ) (o : Office db) (id : ℕ)
      → IsOfficeBacked cut o
      → IsBacked db cut (Crud.remove db id o.world).1.content.work_orders o.files
  unfolding Crud.remove delete_project_content delete_tasks
  remove-IsBacked cut o id h =
      let orders = o.world.content.work_orders in
      elim (Option-cases (db.row o.world.content.projects id)) [
        | inl gone ↦
            let same : (Crud.remove db id o.world).1.content.work_orders ≡ orders =
              ground (arith, gone) in
            rw same h
        | inr (p, there) ↦
            let dropped : (Crud.remove db id o.world).1.content.work_orders
                ≡ db.remove_where orders (λ i r. id == r.project_id) =
              ground (arith, there) in
            rw dropped (drop_orders-IsBacked db cut orders o.files h (λ i r. id == r.project_id))
      ]

  OfficeStep-IsBacked :
      (cut cut' : List ℕ) (o o' : Office db)
      → OfficeStep cut o cut' o'
      → IsOfficeBacked cut o
      → IsOfficeBacked cut' o'
  OfficeStep-IsBacked cut _ o _ (upload s3 p a file fresh) h =
      upload-IsBacked s3 o cut p a file h fresh
  OfficeStep-IsBacked cut _ o _ (drop s3 id row_goes) h = delete-IsBacked s3 o cut id row_goes h
  OfficeStep-IsBacked cut _ o _ (remove_project id) h = remove-IsBacked cut o id h

  -- Over any sequence of uploads, deletions and removals of projects, whichever commands the store
  -- refuses and at whichever deletions the database fails when the file is gone: if every work order
  -- has its file in the bucket and no two orders have the same, and no upload draws the key of a work
  -- order, then afterwards no two have the same, and every work order has its file in the bucket
  -- except those at whose deletion the database failed.
  pub Reach-IsBacked :
      (s t : Office db) (cut : List ℕ) → Reach s cut t → IsOfficeBacked [] s → IsOfficeBacked cut t
  Reach-IsBacked s t [] here h = h
  Reach-IsBacked s t cut (next {cut = before} {a = a} earlier step) h =
      OfficeStep-IsBacked before cut a t step (Reach-IsBacked s a before earlier h)
