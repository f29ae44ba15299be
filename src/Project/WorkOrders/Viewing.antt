-- ===== src/Project/WorkOrders/Viewing.antt =====
-- Uploading a work order, and looking at it.
use rooeel_backend_api.Prelude.{
  ◌++◌, [], ◌∷◌, false, Option, refl, if◌then◌else◌, not_found, ℕ, some, ok, err, ◌≡◌, arith, ◌==◌,
}
use rooeel_backend_api.Project.WorkOrders.Names.{display_name, safe_name, drop_pdf}
use rooeel_backend_api.Text.{codes, trim, is_empty, Text}
use rooeel_backend_api.Schema.{WorkOrderPdf}
use rooeel_backend_api.Prisma.{Engine}
use rooeel_backend_api.Storage.{
  or_text, ObjectStore, shown_name, get_presigned_url, get_file_stream,
}
use rooeel_backend_api.Project.WorkOrders.{
  Office, Upload, upload_work_order, get_work_order_for_viewing, get_work_order_view_url,
}

joined_full : (s : Text) (c : ℕ) (t : Text) → is_empty (s ++ (c ∷ t)) ≡ false
joined_full [] c t = refl
joined_full (d ∷ s) c t = refl

-- The name of an order is never empty, so that it is the name under which its file is shown.
shown_name-display_name :
    (key : Text) (name : Option Text) (original_name date : Text)
    → shown_name key (display_name name original_name date) ≡ display_name name original_name date
unfolding shown_name display_name
shown_name-display_name key name original_name date =
    rw
      (joined_full (safe_name (trim (or_text name (drop_pdf original_name)))) b' '
        (codes "- " ++ (date ++ codes ".pdf")))
      refl

module _ (db : Engine) (s3 : ObjectStore) (p admin_id : ℕ) (file : Upload) (id : ℕ)
    (row : WorkOrderPdf) (url : Text) (o o' : Office db)
    (done : upload_work_order db s3 p admin_id file o ≡ (ok (id, row, url), o')) where
  uploaded-row : db.row o'.world.content.work_orders id ≡ some row
  unfolding upload_work_order
  uploaded-row = ground (
    arith,
    db.row-put o.world.content.work_orders (db.next o.world.content.work_orders) row
        (db.next o.world.content.work_orders),
  )

  uploaded-project : row.project_id ≡ p
  unfolding upload_work_order
  uploaded-project = ground arith

  uploaded-name : shown_name row.file_key row.file_name ≡ row.file_name
  unfolding upload_work_order
  uploaded-name =
      let named : row.file_name ≡ display_name file.name file.original_name file.date =
        ground arith in
      rw named (shown_name-display_name row.file_key file.name file.original_name file.date)

  uploaded-url : s3.signs s3.now 900 row.file_key row.file_name ≡ some url
  unfolding upload_work_order get_presigned_url
  uploaded-url = ground (arith, uploaded-name)

  module _ (later : ObjectStore) where
    viewed :
        (q : ℕ) (body : Text)
        → later.reads row.file_key ≡ some body
        → get_work_order_for_viewing db later q id o'.world ≡ (
            if q == p
            then (ok (body, row.file_name), o'.world)
            else (err (not_found "Work order not found in project"), o'.world))
    unfolding get_work_order_for_viewing get_file_stream
    viewed q body read = ground (arith, uploaded-row, uploaded-project)

    addressed :
        (q : ℕ) (signed : Text)
        → later.signs later.now 900 row.file_key row.file_name ≡ some signed
        → get_work_order_view_url db later q id o'.world ≡ (
            if q == p
            then (ok (row.file_name, signed), o'.world)
            else (err (not_found "Work order not found in project"), o'.world))
    unfolding get_work_order_view_url get_presigned_url
    addressed q signed given = ground (arith, uploaded-row, uploaded-project, uploaded-name)

    -- If uploading a work order to a project answers, then the address of the answer was signed for
    -- the key and the name of the new row, and for 15 minutes from the time of the upload. If later
    -- the store reads a content under that key, and signs an address for that key and name and for
    -- 15 minutes from its time then, then that content and that address, each with the name, are what
    -- looking at the order answers in that project;
    -- in every other project both ways of looking throw that it is not found; and nothing changes by
    -- looking.
    pub upload_work_order-view :
        (q : ℕ) (body signed : Text)
        → later.reads row.file_key ≡ some body
        → later.signs later.now 900 row.file_key row.file_name ≡ some signed
        → (s3.signs s3.now 900 row.file_key row.file_name ≡ some url)
          × (get_work_order_for_viewing db later q id o'.world ≡ (
              if q == p
              then (ok (body, row.file_name), o'.world)
              else (err (not_found "Work order not found in project"), o'.world)))
          × (get_work_order_view_url db later q id o'.world ≡ (
              if q == p
              then (ok (row.file_name, signed), o'.world)
              else (err (not_found "Work order not found in project"), o'.world)))
    upload_work_order-view q body signed read given =
        (uploaded-url, viewed q body read, addressed q signed given)
