-- ===== src/Project/Lookup.antt =====
-- What the handlers of projects begin with.
use rooeel_backend_api.Prelude.{
  ℕ, Bool, ◌==◌, ◌&&◌, Action, or_throw, not_found, record_missing, reference_missing, ◌>>=◌,
}
use rooeel_backend_api.Prisma.{Engine, Lens, find_by_id, find_first, update}
use rooeel_backend_api.Schema.{Project, ProjectUser, project_user_clash}
use rooeel_backend_api.World.{World, projects, members}

module _ (db : Engine) where
  -- `findOne(projectId)` without a viewer, of which the callers use that the project is there.
  abbrev pub found_project : ℕ → Action (World db) Project
  found_project id = do
    or_throw (← find_by_id db (projects db) id) (not_found "Project with ID not found")

  -- The database's check of a foreign key that is written.
  abbrev pub referenced : {R : Type 0} → Lens (World db) (db.Rows R) → ℕ → Action (World db) R
  referenced l id = do or_throw (← find_by_id db l id) reference_missing

  -- `{ projectId_userId: { projectId, userId } }`
  abbrev pub member_of : ℕ → ℕ → ℕ → ProjectUser → Bool
  member_of project_id user_id i m = m.project_id == project_id && m.user_id == user_id

  abbrev pub found_member : ℕ → ℕ → Action (World db) (ℕ × ProjectUser)
  found_member project_id user_id = do
    or_throw (← find_first db (members db) (member_of project_id user_id)) record_missing

  abbrev pub update_member : ℕ → ℕ → (ProjectUser → ProjectUser) → Action (World db) ProjectUser
  update_member project_id user_id edit = do
    found ← found_member project_id user_id
    update db (members db) project_user_clash found.0 edit
