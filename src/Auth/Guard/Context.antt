-- ===== src/Auth/Guard/Context.antt =====
-- The project that the arguments of a call lead to.
use rooeel_backend_api.Prelude.{
  ℕ, ◌≢◌, zero, suc, truthy, refl, none, ◌≡◌, ◌⊎◌, Option, some, arith, Option-cases, Bool-cases,
  inl, inr,
}
use rooeel_backend_api.Text.{Text, codes, text_eq, text_eq_iff}
use rooeel_backend_api.Prisma.{Engine}
use rooeel_backend_api.Schema.{ProjectField, WorkOrderPdf, Department, Task, SubTask}
use rooeel_backend_api.World.{World}
use rooeel_backend_api.Auth.Guard.{Args, resolve_project, project_of_id}

-- An argument that is not given, or 0.
abbrev pub IsMissing : Option ℕ → Type 0
IsMissing x = (x ≡ none) ⊎ (x ≡ some 0)

-- An argument that is given.
abbrev pub Names : Option ℕ → ℕ → Type 0
Names x n = (x ≡ some n) × (n ≢ 0)

-- The project that the arguments lead to: their own, or that of the row that the first argument
-- after it names, for `id` a row of the table that belongs to the resource.
pub data LeadsTo (db : Engine) (resource : Text) (args : Args) (w : World db) (p : ℕ) : Type 0 where
  by_project : Names args.project_id p → LeadsTo db resource args w p
  by_field :
      (i : ℕ) (f : ProjectField)
      → IsMissing args.project_id
      → Names args.field_id i
      → db.row w.content.fields i ≡ some f
      → f.project_id ≡ p
      → LeadsTo db resource args w p
  by_work_order :
      (i : ℕ) (o : WorkOrderPdf)
      → IsMissing args.project_id
      → IsMissing args.field_id
      → Names args.work_order_id i
      → db.row w.content.work_orders i ≡ some o
      → o.project_id ≡ p
      → LeadsTo db resource args w p
  by_department :
      (i : ℕ) (d : Department)
      → IsMissing args.project_id
      → IsMissing args.field_id
      → IsMissing args.work_order_id
      → Names args.id i
      → resource ≡ codes "DEPARTMENT"
      → db.row w.team.departments i ≡ some d
      → d.project_id ≡ p
      → LeadsTo db resource args w p
  by_task :
      (i : ℕ) (t : Task)
      → IsMissing args.project_id
      → IsMissing args.field_id
      → IsMissing args.work_order_id
      → (Names args.id i × (resource ≡ codes "TASK")) ⊎ (IsMissing args.id × Names args.task_id i)
      → db.row w.content.tasks i ≡ some t
      → t.project_id ≡ p
      → LeadsTo db resource args w p
  by_subtask :
      (i : ℕ) (s : SubTask) (t : Task)
      → IsMissing args.project_id
      → IsMissing args.field_id
      → IsMissing args.work_order_id
      → Names args.id i
      → resource ≡ codes "SUBTASK"
      → db.row w.content.subtasks i ≡ some s
      → db.row w.content.tasks s.task_id ≡ some t
      → t.project_id ≡ p
      → LeadsTo db resource args w p

pub truthy_cases :
    (x : Option ℕ) → (IsMissing x × (truthy x ≡ none)) ⊎ ((n : ℕ) × Names x n × (truthy x ≡ some n))
truthy_cases none = inl (inl refl, refl)
truthy_cases (some zero) = inl (inr refl, refl)
truthy_cases (some (suc n)) = inr (suc n, (refl, λ e. omega arith), refl)

module _ (db : Engine) (resource : Text) (args : Args) (w : World db) where
  id-LeadsTo :
      (p i : ℕ)
      → IsMissing args.project_id
      → IsMissing args.field_id
      → IsMissing args.work_order_id
      → Names args.id i
      → project_of_id db resource i w ≡ some p
      → LeadsTo db resource args w p
  id-LeadsTo p i no_project no_field no_order named h =
      elim (Bool-cases (text_eq resource (codes "DEPARTMENT"))) [
        | inl of_department ↦ elim (Option-cases (db.row w.team.departments i)) [
          | inl gone ↦ ground (arith, of_department, gone)
          | inr (d, there) ↦
              by_department i d no_project no_field no_order named
                ((text_eq_iff resource (codes "DEPARTMENT")).0 of_department) there
                (ground (arith, of_department, there))
        ]
        | inr no_department ↦ elim (Bool-cases (text_eq resource (codes "TASK"))) [
          | inl of_task ↦ elim (Option-cases (db.row w.content.tasks i)) [
            | inl gone ↦ ground (arith, no_department, of_task, gone)
            | inr (t, there) ↦
                by_task i t no_project no_field no_order
                  (inl (named, (text_eq_iff resource (codes "TASK")).0 of_task)) there
                  (ground (arith, no_department, of_task, there))
          ]
          | inr no_task ↦ elim (Bool-cases (text_eq resource (codes "SUBTASK"))) [
            | inr other ↦ ground (arith, no_department, no_task, other)
            | inl of_subtask ↦ elim (Option-cases (db.row w.content.subtasks i)) [
              | inl gone ↦ ground (arith, no_department, no_task, of_subtask, gone)
              | inr (s, there) ↦ elim (Option-cases (db.row w.content.tasks s.task_id)) [
                | inl gone ↦ ground (arith, no_department, no_task, of_subtask, there, gone)
                | inr (t, above) ↦
                    by_subtask i s t no_project no_field no_order named
                      ((text_eq_iff resource (codes "SUBTASK")).0 of_subtask) there above
                      (ground (arith, no_department, no_task, of_subtask, there, above))
              ]
            ]
          ]
        ]
      ]

  pub resolve_project-LeadsTo :
      (p : ℕ) → resolve_project db resource args w ≡ some p → LeadsTo db resource args w p
  unfolding resolve_project
  resolve_project-LeadsTo p h = elim (truthy_cases args.project_id) [
    | inr (q, named, e) ↦ let same : q ≡ p = ground (arith, e) in by_project (rw same at named)
    | inl (no_project, e) ↦ elim (truthy_cases args.field_id) [
      | inr (i, named, e') ↦ elim (Option-cases (db.row w.content.fields i)) [
        | inl gone ↦ ground (arith, e, e', gone)
        | inr (f, there) ↦ by_field i f no_project named there (ground (arith, e, e', there))
      ]
      | inl (no_field, e') ↦ elim (truthy_cases args.work_order_id) [
        | inr (i, named, e'') ↦ elim (Option-cases (db.row w.content.work_orders i)) [
          | inl gone ↦ ground (arith, e, e', e'', gone)
          | inr (o, there) ↦
              by_work_order i o no_project no_field named there (ground (arith, e, e', e'', there))
        ]
        | inl (no_order, e'') ↦ elim (truthy_cases args.id) [
          | inr (i, named, d) ↦
              id-LeadsTo p i no_project no_field no_order named (ground (arith, e, e', e'', d))
          | inl (no_id, d) ↦ elim (truthy_cases args.task_id) [
            | inl (no_task, d') ↦ ground (arith, e, e', e'', d, d')
            | inr (i, named, d') ↦ elim (Option-cases (db.row w.content.tasks i)) [
              | inl gone ↦ ground (arith, e, e', e'', d, d', gone)
              | inr (t, there) ↦
                  by_task i t no_project no_field no_order (inr (no_id, named)) there
                    (ground (arith, e, e', e'', d, d', there))
            ]
          ]
        ]
      ]
    ]
  ]
