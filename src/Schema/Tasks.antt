-- ===== src/Schema/Tasks.antt =====
-- The models of tasks and subtasks, whose forms and submissions are JSON.
use rooeel_backend_api.Prelude.{ℕ, String, Bool, Option}
use rooeel_backend_api.Text.{Text}

mutual
  -- A JSON value. `num` is a number that is a natural; `other_num` is any other number.
  pub data Json : Type 0 where
    null other_num : Json
    bool : Bool → Json
    num : ℕ → Json
    str : Text → Json
    arr : Items → Json
    obj : Fields → Json

  pub data Items : Type 0 where
    nil : Items
    cons : Json → Items → Items

  pub data Fields : Type 0 where
    end : Fields
    field : Text → Json → Fields → Fields

pub record Task : Type 0 where
  pub project_id : ℕ
  pub department_id : Option ℕ
  pub title : String
  pub description : Option String
  pub status : Text
  pub kind : Text
  pub form_schema : Option Json
  pub submission_data : Option Json
  pub assigned_to : Option ℕ

pub record SubTask : Type 0 where
  pub task_id : ℕ
  pub title : String
  pub description : Option String
  pub status : Text
  pub kind : Text
  pub form_schema : Option Json
  pub submission_data : Option Json
  pub assigned_to : Option ℕ
