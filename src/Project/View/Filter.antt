-- ===== src/Project/View/Filter.antt =====
-- What the filter leaves of a project.
use rooeel_backend_api.Prelude.{
  ◌∷◌, ℕ, ◌==◌, true, false, some, List, [], any, ok, err, service_failure, Exception, ◌⊎◌, ◌∷◌,
  not_found, ◌≡◌, refl, arith, inl, inr, In, Bool-cases, Option-cases, keep_sound,
}
use rooeel_backend_api.Text.{codes}
use rooeel_backend_api.Prelude.{any-first, first_sound}
use rooeel_backend_api.Prisma.{Engine}
use rooeel_backend_api.Schema.{ProjectUser, Project, is_admin}
use rooeel_backend_api.World.{World}
use rooeel_backend_api.Json.{JsonHost}
use rooeel_backend_api.Storage.{shown_name, ObjectStore, get_presigned_url}
use rooeel_backend_api.Access.{can_access, can_view}
use rooeel_backend_api.Access.Effective.{get_access_map_for_project_user}
use rooeel_backend_api.Project.View.{
  get_presigned_url, WorkOrderPdf, with_work_orders, SignedProject, sign_orders, of_user, find_one,
  shown_to, read_project, ShownProject, SignedOrder, may_view_fields,
  apply_viewer_policy_on_project,
}
use rooeel_backend_api.Project.Tasks.Handlers.{Viewer}
use mathlib.Core.Path.{subst}

module _ (db : Engine) (host : JsonHost) (s3 : ObjectStore) (id : ℕ) (v : Viewer)
    (w : World db) where
  abbrev pub IsMember : ProjectUser → Type 0
  IsMember m = (m.project_id ≡ id) × (m.user_id ≡ v.user_id)

  abbrev listed : List (ℕ × ProjectUser)
  listed = db.find_all w.team.members (λ i m. m.project_id == id)

  any-IsMember :
      any (of_user v.user_id) listed ≡ true
      → (i : ℕ) × (m : ProjectUser) × (db.row w.team.members i ≡ some m) × IsMember m
  any-IsMember h =
      let ((i, m), found) = any-first (of_user v.user_id) listed h in
      let (there, fits) = first_sound (of_user v.user_id) listed (i, m) found in
      let (at, of_project) =
        db.find_all-sound w.team.members (λ i m. m.project_id == id) i m there in
      (i, m, at, (ground arith, ground arith))

  -- What is kept from a member: by the access map of their row.
  pub record IsFiltered (m : ProjectUser) (shown : SignedProject) : Type 0 where
    pub own_row :
        can_access (get_access_map_for_project_user db m w.team) (codes "USER") can_view ≡ false
        → (x : ℕ × ProjectUser) → In x shown.members
        → x.1.user_id ≡ v.user_id
    pub no_departments :
        can_access (get_access_map_for_project_user db m w.team) (codes "DEPARTMENT") can_view
          ≡ false
        → shown.departments ≡ some []
    pub no_fields :
        may_view_fields (get_access_map_for_project_user db m w.team) ≡ false
        → shown.fields ≡ some []
    pub no_orders :
        can_access (get_access_map_for_project_user db m w.team) (codes "WORK_ORDER") can_view
          ≡ false
        → shown.work_orders ≡ []

  -- What the filter leaves to a member.
  abbrev left_to : ProjectUser → Project → ShownProject
  left_to m p =
      shown_to host v.user_id m (get_access_map_for_project_user db m w.team)
        (read_project db w id p)

  no_orders-sign_orders :
      (os : List (ℕ × WorkOrderPdf)) (signed : List SignedOrder)
      → os ≡ []
      → sign_orders s3 os w ≡ (ok signed, w)
      → signed ≡ []
  unfolding sign_orders
  no_orders-sign_orders [] signed none_left done = ground arith
  no_orders-sign_orders (o ∷ os) signed none_left done = ground (arith, none_left)

  shown_to-IsFiltered :
      (m : ProjectUser) (p : Project) (signed : List SignedOrder)
      → sign_orders s3 (left_to m p).work_orders w ≡ (ok signed, w)
      → IsFiltered m (with_work_orders (left_to m p) signed)
  shown_to-IsFiltered m p signed done = record {
    own_row = λ hides x there.
        let (_, own) = keep_sound (of_user v.user_id) x listed (rw hides at there) in ground arith;
    no_departments = λ hides. rw hides refl;
    no_fields = λ hides. rw hides refl;
    no_orders =
        λ hides. no_orders-sign_orders (left_to m p).work_orders signed (rw hides refl) done;
  }

  -- Signing changes nothing.
  signed_or_thrown :
      (os : List (ℕ × WorkOrderPdf))
      → ((signed : List SignedOrder) × (sign_orders s3 os w ≡ (ok signed, w)))
        ⊎ ((e : Exception) × (sign_orders s3 os w ≡ (err e, w)))
  unfolding sign_orders get_presigned_url
  signed_or_thrown [] = inl ([], refl)
  signed_or_thrown ((i, o) ∷ os) =
      elim (Option-cases (s3.signs s3.now 900 o.file_key (shown_name o.file_key o.file_name))) [
        | inl refused ↦ inr (service_failure, ground (arith, refused))
        | inr (url, given) ↦ elim (signed_or_thrown os) [
          | inl (rest, done) ↦
              inl (record { id = i; order = o; file_url = url } ∷ rest, ground (arith, given, done))
          | inr (e, thrown) ↦ inr (e, ground (arith, given, thrown))
        ]
      ]

  -- The member and the signed work orders of an answer.
  answered :
      (shown : SignedProject) (w' : World db)
      → is_admin v.role ≡ false
      → find_one db host s3 id (some v) w ≡ (ok shown, w')
      → (p : Project) × (signed : List SignedOrder) × (sign_orders s3
            (apply_viewer_policy_on_project db host
              (read_project db w id p)
              v.user_id
              w.team).work_orders
            w
          ≡ (ok signed, w))
        × (with_work_orders
              (apply_viewer_policy_on_project db host (read_project db w id p) v.user_id w.team)
              signed
            ≡ shown)
        × (any (of_user v.user_id) listed ≡ true)
  unfolding find_one
  answered shown w' plain done = elim (Option-cases (db.row w.content.projects id)) [
    | inl gone ↦ ground (arith, gone)
    | inr (p, there) ↦ elim (Bool-cases (any (of_user v.user_id) listed)) [
      | inr apart ↦ ground (arith, there, apart)
      | inl member ↦
          let orders =
            (apply_viewer_policy_on_project db host (read_project db w id p) v.user_id
              w.team).work_orders in
          elim (signed_or_thrown orders) [
            | inl (signed, made) ↦ (p, signed, made, ground (arith, there, member, made), member)
            | inr (e, thrown) ↦ ground (arith, there, member, thrown)
          ]
    ]
  ]

-- To a caller who is no admin and has no row as a member of the project, `findOne` throws the
-- exception of a project that is not there, whether it is there or not, and changes nothing.
pub find_one_hides :
    (db : Engine) (host : JsonHost) (s3 : ObjectStore) (id : ℕ) (v : Viewer) (w : World db)
    → is_admin v.role ≡ false
    → ((i : ℕ) (m : ProjectUser)
        → db.row w.team.members i ≡ some m
        → IsMember db host s3 id v w m
        → ⊥)
    → find_one db host s3 id (some v) w ≡ (err (not_found "Project with ID not found"), w)
unfolding find_one
find_one_hides db host s3 id v w plain outsider =
    elim (Bool-cases (any (of_user v.user_id) (listed db host s3 id v w))) [
      | inl member ↦
          let (i, m, at, is) = any-IsMember db host s3 id v w member in absurd (outsider i m at is)
      | inr apart ↦ elim (Option-cases (db.row w.content.projects id)) [
        | inl gone ↦ ground (arith, gone)
        | inr (p, there) ↦ ground (arith, there, apart)
      ]
    ]

-- If `findOne` answers a caller who is no admin, then they are a member of the project, and by the
-- access map of their row: without the right to view users the answer has only their own row,
-- without that to view departments or fields it has none of these, and without that to view work
-- orders it has no work order and no signed address.
pub find_one-IsFiltered :
    (db : Engine) (host : JsonHost) (s3 : ObjectStore) (id : ℕ) (v : Viewer) (w w' : World db)
    (shown : SignedProject)
    → is_admin v.role ≡ false
    → find_one db host s3 id (some v) w ≡ (ok shown, w')
    → (i : ℕ) × (m : ProjectUser) × (db.row w.team.members i ≡ some m)
      × IsMember db host s3 id v w m
      × IsFiltered db host s3 id v w m shown
unfolding apply_viewer_policy_on_project
find_one-IsFiltered db host s3 id v w w' shown plain done =
    let (p, signed, made, same, member) = answered db host s3 id v w shown w' plain done in
    let ((i, m), found) = any-first (of_user v.user_id) (listed db host s3 id v w) member in
    let (there, own) = first_sound (of_user v.user_id) (listed db host s3 id v w) (i, m) found in
    let (at, of_project) = db.find_all-sound w.team.members (λ i m. m.project_id == id) i m there in
    (
      i,
      m,
      at,
      (ground arith, ground arith),
      subst (IsFiltered db host s3 id v w m) (rw (found, apply_viewer_policy_on_project) at same) (
          shown_to-IsFiltered db host s3 id v w m p signed
            (rw (found, apply_viewer_policy_on_project) at made)),
    )
