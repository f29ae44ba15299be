-- ===== src/Project/Rights.antt =====
-- The handlers that a caller who is no admin can reach, and the tables that they do not write.
use rooeel_backend_api.Prelude.{
  ℕ, Bool, true, false, String, Option, List, [], ◌∷◌, Action, Result, ok, err, ◌>>=◌, pure,
  throw_if, Exception, ◌≡◌, refl, arith,
}
use rooeel_backend_api.Prelude.{◌∙◌}
use rooeel_backend_api.Prisma.{Engine}
use rooeel_backend_api.World.{World, Accounts, Team, delete_tasks}
use rooeel_backend_api.Schema.{Project, ProjectField, Task, WorkOrderPdf}
use rooeel_backend_api.Json.{JsonHost}
use rooeel_backend_api.Storage.{ObjectStore, get_presigned_url}
use rooeel_backend_api.Project.Crud
use rooeel_backend_api.Project.View.{
  ShownProject, find_one, get_user_projects, sign_orders, with_urls, with_work_orders,
  sign_projects, view_for, read_project,
}
use rooeel_backend_api.Project.Tasks.Handlers.{
  Viewer, restricted, UpdateTask, CreateTask, create_task, update_task, remove_task, insert_task,
  save_task, context_of,
}
use rooeel_backend_api.Project.Tasks.Subtasks.{
  CreateSubTask, create_subtask, update_subtask, remove_subtask,
}
use rooeel_backend_api.Project.Lookup.{found_project}

module _ (db : Engine) where
  -- The accounts, the rights within projects, the projects and their fields.
  abbrev pub kept : World db → Accounts db × Team db × db.Rows Project × db.Rows ProjectField
  kept w = (w.accounts, w.team, w.content.projects, w.content.fields)

  -- An action after which these are the same, whether it answers or throws.
  pub record Holds {A : Type 0} (m : Action (World db) A) : Type 0 where
    pub same : (w : World db) → kept (m w).1 ≡ kept w

  pure-Holds : {A : Type 0} (a : A) → Holds (pure a)
  pure-Holds a = record { same = λ w. refl }

  module _ {A B : Type 0} (f : A → Action (World db) B) (k : (a : A) → Holds (f a)) where
    bind_step :
        (w : World db) (r : Result A × World db)
        → kept r.1 ≡ kept w
        → kept (((λ _. r) >>= f) w).1 ≡ kept w
    bind_step w (ok a, w1) h = (k a).same w1 ∙ h
    bind_step w (err e, w1) h = h

    -- A sequence holds what its parts hold.
    pub bind-Holds : (m : Action (World db) A) → Holds m → Holds (m >>= f)
    bind-Holds m h = record { same = λ w. bind_step w (m w) (h.same w) }

  pub set_field_value-Holds : (p f : ℕ) (value : String) → Holds (Crud.set_field_value db p f value)
  unfolding Crud.set_field_value
  set_field_value-Holds p f value = record { same = λ w. ground arith }

  pub create_subtask-Holds : (id : ℕ) (dto : CreateSubTask) → Holds (create_subtask db id dto)
  unfolding create_subtask
  create_subtask-Holds id dto = record { same = λ w. ground arith }

  pub update_subtask-Holds : (id : ℕ) (dto : UpdateTask) → Holds (update_subtask db id dto)
  unfolding update_subtask
  update_subtask-Holds id dto = record { same = λ w. ground arith }

  pub remove_subtask-Holds : (id : ℕ) → Holds (remove_subtask db id)
  unfolding remove_subtask
  remove_subtask-Holds id = record { same = λ w. ground arith }

  module _ (s3 : ObjectStore) where
    pub sign_orders-Holds : (os : List (ℕ × WorkOrderPdf)) → Holds (sign_orders s3 os)
    unfolding sign_orders get_presigned_url
    sign_orders-Holds [] = pure-Holds []
    sign_orders-Holds ((i, o) ∷ os) =
        bind-Holds _
          (λ url. bind-Holds _ (λ rest. pure-Holds _) (sign_orders s3 os) (sign_orders-Holds os))
          (get_presigned_url s3 o.file_key o.file_name) (record { same = λ w. ground arith })

    with_urls-Holds : (p : ShownProject) → Holds (with_urls s3 p)
    with_urls-Holds p =
        bind-Holds (λ signed. pure (with_work_orders p signed)) (λ rest. pure-Holds _)
          (sign_orders s3 p.work_orders) (sign_orders-Holds p.work_orders)

  module _ (host : JsonHost) where
    throw_if-Holds : (b : Bool) (e : Exception) → Holds (throw_if b e)
    throw_if-Holds true e = record { same = λ w. refl }
    throw_if-Holds false e = record { same = λ w. refl }

    context_of-Holds : (p : ℕ) (v : Option Viewer) → Holds (context_of db host p v)
    context_of-Holds p v = record { same = λ w. ground arith }

    insert_task-Holds : (t : Task) → Holds (insert_task db host t)
    unfolding insert_task
    insert_task-Holds t = record { same = λ w. ground arith }

    pub create_task-Holds :
        (p : ℕ) (dto : CreateTask) (v : Option Viewer) → Holds (create_task db host p dto v)
    unfolding create_task
    create_task-Holds p dto v =
        bind-Holds _ (λ c. bind-Holds _ (λ _. insert_task-Holds _) _ (throw_if-Holds _ _))
          (context_of db host p v) (context_of-Holds p v)

    pub update_task-Holds :
        (id : ℕ) (dto : UpdateTask) (v : Option Viewer) → Holds (update_task db host id dto v)
    unfolding update_task save_task
    update_task-Holds id dto v = record { same = λ w. ground arith }

    pub remove_task-Holds : (id : ℕ) (v : Option Viewer) → Holds (remove_task db host id v)
    unfolding remove_task delete_tasks
    remove_task-Holds id v = record { same = λ w. ground arith }

    module _ (s3 : ObjectStore) where
      sign_projects-Holds : (ps : List ShownProject) → Holds (sign_projects db host s3 ps)
      sign_projects-Holds [] = pure-Holds []
      sign_projects-Holds (p ∷ ps) =
          bind-Holds _
            (λ signed.
              bind-Holds (λ rest. pure (signed ∷ rest)) (λ rest. pure-Holds _) _
                (sign_projects-Holds ps))
            (with_urls s3 p) (with_urls-Holds s3 p)

      pub get_user_projects-Holds : (u : ℕ) → Holds (get_user_projects db host s3 u)
      unfolding get_user_projects
      get_user_projects-Holds u = record { same = λ w. (sign_projects-Holds _).same w }

      seen-Holds :
          (id : ℕ) (p : Project) (v : Option Viewer)
          → Holds (λ w. (view_for db host s3 (read_project db w id p) (restricted v) w.team, w))
      seen-Holds id p v = record { same = λ w. refl }

      found_project-Holds : (id : ℕ) → Holds (found_project db id)
      found_project-Holds id = record { same = λ w. ground arith }

      pub find_one-Holds : (id : ℕ) (v : Option Viewer) → Holds (find_one db host s3 id v)
      unfolding find_one
      find_one-Holds id v =
          bind-Holds _ (λ p. bind-Holds _ (λ shown. with_urls-Holds s3 shown) _ (seen-Holds id p v))
            (found_project db id) (found_project-Holds id)
