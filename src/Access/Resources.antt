-- ===== src/Access/Resources.antt =====
-- The resources that a permission can name, and the other spellings of them: the tables of
-- src/project/services/project.service.ts.
use rooeel_backend_api.Prelude.{List, [], ◌∷◌, ◌++◌}
use rooeel_backend_api.Text.{Text, codes}

unfoldable pub default_user_view_resources : List Text
default_user_view_resources =
    codes "WORK_ORDER" ∷ codes "TASK" ∷ codes "SUBTASK" ∷ codes "DEPARTMENT" ∷ codes "USER" ∷ []

unfoldable pub project_field_resources : List Text
project_field_resources = codes "FIELD" ∷ codes "PROJECT_FIELD" ∷ []

unfoldable pub hardcoded_task_resources : List Text
hardcoded_task_resources =
    codes "DRAWING_VIEW_FOLDERS"
    ∷ codes "DRAWING_VIEW_REGISTERS"
    ∷ codes "DRAWING_CREATE_FOLDER"
    ∷ codes "DRAWING_RENAME_FOLDER"
    ∷ codes "DRAWING_DELETE_FOLDER"
    ∷ codes "DRAWING_VIEW_PDFS"
    ∷ codes "DRAWING_UPLOAD_PDF"
    ∷ codes "DRAWING_UPLOAD_MULTIPLE_PDFS"
    ∷ codes "DRAWING_RENAME_PDF"
    ∷ codes "DRAWING_DELETE_PDF"
    ∷ codes "DRAWING_DELETE_MULTIPLE_PDFS"
    ∷ codes "DRAWING_CREATE_REGISTER"
    ∷ codes "DRAWING_DELETE_REGISTER"
    ∷ codes "BILL_OF_MATERIAL_FOLDER_VIEW"
    ∷ codes "BILL_OF_MATERIAL_FOLDER_CREATE"
    ∷ codes "BILL_OF_MATERIAL_FOLDER_RENAME"
    ∷ codes "BILL_OF_MATERIAL_FOLDER_DELETE"
    ∷ codes "BILL_OF_MATERIAL_TRACK_CREATE"
    ∷ codes "BILL_OF_MATERIAL_TRACK_VIEW"
    ∷ codes "BILL_OF_MATERIAL_TRACK_RENAME"
    ∷ codes "BILL_OF_MATERIAL_TRACK_EDIT"
    ∷ codes "MIV_MIN_FOLDER_VIEW"
    ∷ codes "MIV_MIN_FOLDER_CREATE"
    ∷ codes "MIV_MIN_FOLDER_RENAME"
    ∷ codes "MIV_MIN_FOLDER_DELETE"
    ∷ codes "MIN_MIV_PDF_VIEW"
    ∷ codes "MIN_MIV_PDF_UPLOAD"
    ∷ codes "MIN_MIV_PDF_RENAME"
    ∷ codes "MIN_MIV_PDF_DELETE"
    ∷ codes "MIV_MIN_REGISTER_CREATE"
    ∷ codes "MIV_MIN_REGISTER_VIEW"
    ∷ codes "MIV_MIN_REGISTER_RENAME"
    ∷ codes "MIV_MIN_REGISTER_DELETE"
    ∷ codes "CHALLAN_FOLDER_VIEW"
    ∷ codes "CHALLAN_FOLDER_CREATE"
    ∷ codes "CHALLAN_FOLDER_RENAME"
    ∷ codes "CHALLAN_FOLDER_DELETE"
    ∷ codes "CHALLAN_PDF_VIEW"
    ∷ codes "CHALLAN_PDF_UPLOAD"
    ∷ codes "CHALLAN_PDF_RENAME"
    ∷ codes "CHALLAN_PDF_DELETE"
    ∷ codes "CHALLAN_REGISTER_CREATE"
    ∷ codes "CHALLAN_REGISTER_VIEW"
    ∷ codes "CHALLAN_REGISTER_RENAME"
    ∷ codes "CHALLAN_REGISTER_DELETE"
    ∷ codes "CHALLAN_REGISTER_EDIT"
    ∷ codes "SCHEDULE_FOLDER_CREATE"
    ∷ codes "SCHEDULE_FOLDER_RENAME"
    ∷ codes "SCHEDULE_FOLDER_VIEW"
    ∷ codes "SCHEDULE_FOLDER_DELETE"
    ∷ codes "L3_SCHEDULE_VIEW"
    ∷ codes "L3_SCHEDULE_CREATE"
    ∷ codes "L3_SCHEDULE_EDIT"
    ∷ codes "L3_SCHEDULE_RENAME"
    ∷ codes "L3_SCHEDULE_DELETE"
    ∷ codes "LHS_FOLDER_CREATE"
    ∷ codes "LHS_FOLDER_VIEW"
    ∷ codes "LHS_FOLDER_EDIT"
    ∷ codes "LHS_FOLDER_DELETE"
    ∷ []

unfoldable pub hardcoded_view_only_resources : List Text
hardcoded_view_only_resources =
    codes "DRAWING_VIEW_FOLDERS"
    ∷ codes "DRAWING_VIEW_REGISTERS"
    ∷ codes "DRAWING_VIEW_PDFS"
    ∷ codes "BILL_OF_MATERIAL_FOLDER_VIEW"
    ∷ codes "BILL_OF_MATERIAL_TRACK_VIEW"
    ∷ codes "MIV_MIN_FOLDER_VIEW"
    ∷ codes "MIN_MIV_PDF_VIEW"
    ∷ codes "MIV_MIN_REGISTER_VIEW"
    ∷ codes "CHALLAN_FOLDER_VIEW"
    ∷ codes "CHALLAN_PDF_VIEW"
    ∷ codes "CHALLAN_REGISTER_VIEW"
    ∷ codes "SCHEDULE_FOLDER_VIEW"
    ∷ codes "L3_SCHEDULE_VIEW"
    ∷ codes "LHS_FOLDER_VIEW"
    ∷ []

unfoldable pub allowed_policy_resources : List Text
unfolding default_user_view_resources project_field_resources hardcoded_task_resources
allowed_policy_resources =
    default_user_view_resources ++ (project_field_resources ++ hardcoded_task_resources)

-- `aliases`, each with the resource that it stands for.
unfoldable pub aliases : List (Text × Text)
aliases =
    (codes "DRAWING_UPLOAD_MULTIPLE_PDF", codes "DRAWING_UPLOAD_MULTIPLE_PDFS")
    ∷ (codes "DRAWING_DELETE_MULTIPLE_PDF", codes "DRAWING_DELETE_MULTIPLE_PDFS")
    ∷ (codes "UPLOAD_MULTIPLE_PDFS", codes "DRAWING_UPLOAD_MULTIPLE_PDFS")
    ∷ (codes "DELETE_MULTIPLE_PDFS", codes "DRAWING_DELETE_MULTIPLE_PDFS")
    ∷ (codes "DRAWING_VIEW_FOLDER", codes "DRAWING_VIEW_FOLDERS")
    ∷ (codes "VIEW_FOLDERS", codes "DRAWING_VIEW_FOLDERS")
    ∷ (codes "DRAWING_VIEW_REGISTER", codes "DRAWING_VIEW_REGISTERS")
    ∷ (codes "VIEW_REGISTER", codes "DRAWING_VIEW_REGISTERS")
    ∷ (codes "VIEW_REGISTERS", codes "DRAWING_VIEW_REGISTERS")
    ∷ (codes "DRAWING_VIEW_PDF", codes "DRAWING_VIEW_PDFS")
    ∷ (codes "VIEW_PDFS", codes "DRAWING_VIEW_PDFS")
    ∷ (codes "BILL_OF_MATERIAL_VIEW_TRACK_REGISTER", codes "BILL_OF_MATERIAL_TRACK_VIEW")
    ∷ (codes "VIEW_BILL_OF_MATERIAL_TRACK_REGISTER", codes "BILL_OF_MATERIAL_TRACK_VIEW")
    ∷ (codes "BOM_TRACK_VIEW", codes "BILL_OF_MATERIAL_TRACK_VIEW")
    ∷ (codes "BILL_OF_MATERIAL_EDIT_TRACK_REGISTER", codes "BILL_OF_MATERIAL_TRACK_EDIT")
    ∷ (codes "EDIT_BILL_OF_MATERIAL_TRACK_REGISTER", codes "BILL_OF_MATERIAL_TRACK_EDIT")
    ∷ (codes "BOM_TRACK_EDIT", codes "BILL_OF_MATERIAL_TRACK_EDIT")
    ∷ (codes "BILL_OF_MATERIAL_CREATE_FOLDER", codes "BILL_OF_MATERIAL_FOLDER_CREATE")
    ∷ (codes "BILL_OF_MATERIAL_VIEW_FOLDER", codes "BILL_OF_MATERIAL_FOLDER_VIEW")
    ∷ (codes "BILL_OF_MATERIAL_RENAME_FOLDER", codes "BILL_OF_MATERIAL_FOLDER_RENAME")
    ∷ (codes "BILL_OF_MATERIAL_DELETE_FOLDER", codes "BILL_OF_MATERIAL_FOLDER_DELETE")
    ∷ (codes "CREATE_BILL_OF_MATERIALS_FOLDERS", codes "BILL_OF_MATERIAL_FOLDER_CREATE")
    ∷ (codes "VIEW_BILL_OF_MATERIALS_FOLDERS", codes "BILL_OF_MATERIAL_FOLDER_VIEW")
    ∷ (codes "RENAME_BILL_OF_MATERIALS_FOLDERS", codes "BILL_OF_MATERIAL_FOLDER_RENAME")
    ∷ (codes "DELETE_BILL_OF_MATERIALS_FOLDERS", codes "BILL_OF_MATERIAL_FOLDER_DELETE")
    ∷ (codes "BILL_OF_MATERIAL_TRACK_CREATE_REGISTER", codes "BILL_OF_MATERIAL_TRACK_CREATE")
    ∷ (codes "BILL_OF_MATERIAL_TRACK_RENAME_REGISTER", codes "BILL_OF_MATERIAL_TRACK_RENAME")
    ∷ (codes "CREATE_BILL_OF_MATERIALS_TRACK_REGISTER", codes "BILL_OF_MATERIAL_TRACK_CREATE")
    ∷ (codes "RENAME_BILL_OF_MATERIALS_TRACK_REGISTER", codes "BILL_OF_MATERIAL_TRACK_RENAME")
    ∷ (codes "MIV_MIN_CREATE_FOLDER", codes "MIV_MIN_FOLDER_CREATE")
    ∷ (codes "MIV_MIN_VIEW_FOLDER", codes "MIV_MIN_FOLDER_VIEW")
    ∷ (codes "MIV_MIN_RENAME_FOLDER", codes "MIV_MIN_FOLDER_RENAME")
    ∷ (codes "MIV_MIN_DELETE_FOLDER", codes "MIV_MIN_FOLDER_DELETE")
    ∷ (codes "CREATE_MIV_MIN_FOLDERS", codes "MIV_MIN_FOLDER_CREATE")
    ∷ (codes "VIEW_MIV_MIN_FOLDERS", codes "MIV_MIN_FOLDER_VIEW")
    ∷ (codes "RENAME_MIV_MIN_FOLDERS", codes "MIV_MIN_FOLDER_RENAME")
    ∷ (codes "DELETE_MIV_MIN_FOLDERS", codes "MIV_MIN_FOLDER_DELETE")
    ∷ (codes "MIN_MIV_VIEW_PDF", codes "MIN_MIV_PDF_VIEW")
    ∷ (codes "MIN_MIV_UPLOAD_PDF", codes "MIN_MIV_PDF_UPLOAD")
    ∷ (codes "MIN_MIV_RENAME_PDF", codes "MIN_MIV_PDF_RENAME")
    ∷ (codes "MIN_MIV_DELETE_PDF", codes "MIN_MIV_PDF_DELETE")
    ∷ (codes "VIEW_MIN_MIV_PDF", codes "MIN_MIV_PDF_VIEW")
    ∷ (codes "UPLOAD_MIN_MIV_PDF", codes "MIN_MIV_PDF_UPLOAD")
    ∷ (codes "RENAME_MIN_MIV_PDF", codes "MIN_MIV_PDF_RENAME")
    ∷ (codes "DELETE_MIN_MIV_PDF", codes "MIN_MIV_PDF_DELETE")
    ∷ (codes "MIV_MIN_CREATE_REGISTER", codes "MIV_MIN_REGISTER_CREATE")
    ∷ (codes "MIV_MIN_VIEW_REGISTER", codes "MIV_MIN_REGISTER_VIEW")
    ∷ (codes "MIV_MIN_RENAME_REGISTER", codes "MIV_MIN_REGISTER_RENAME")
    ∷ (codes "MIV_MIN_DELETE_REGISTER", codes "MIV_MIN_REGISTER_DELETE")
    ∷ (codes "CREATE_MIV_MIN_REGISTER", codes "MIV_MIN_REGISTER_CREATE")
    ∷ (codes "VIEW_MIV_MIN_REGISTER", codes "MIV_MIN_REGISTER_VIEW")
    ∷ (codes "RENAME_MIV_MIN_REGISTER", codes "MIV_MIN_REGISTER_RENAME")
    ∷ (codes "DELETE_MIV_MIN_REGISTER", codes "MIV_MIN_REGISTER_DELETE")
    ∷ (codes "CHALLAN_CREATE_FOLDER", codes "CHALLAN_FOLDER_CREATE")
    ∷ (codes "CHALLAN_VIEW_FOLDER", codes "CHALLAN_FOLDER_VIEW")
    ∷ (codes "CHALLAN_RENAME_FOLDER", codes "CHALLAN_FOLDER_RENAME")
    ∷ (codes "CHALLAN_DELETE_FOLDER", codes "CHALLAN_FOLDER_DELETE")
    ∷ (codes "CREATE_CHALLAN_FOLDERS", codes "CHALLAN_FOLDER_CREATE")
    ∷ (codes "VIEW_CHALLAN_FOLDERS", codes "CHALLAN_FOLDER_VIEW")
    ∷ (codes "RENAME_CHALLAN_FOLDERS", codes "CHALLAN_FOLDER_RENAME")
    ∷ (codes "DELETE_CHALLAN_FOLDERS", codes "CHALLAN_FOLDER_DELETE")
    ∷ (codes "CHALLAN_VIEW_PDF", codes "CHALLAN_PDF_VIEW")
    ∷ (codes "CHALLAN_UPLOAD_PDF", codes "CHALLAN_PDF_UPLOAD")
    ∷ (codes "CHALLAN_RENAME_PDF", codes "CHALLAN_PDF_RENAME")
    ∷ (codes "CHALLAN_DELETE_PDF", codes "CHALLAN_PDF_DELETE")
    ∷ (codes "VIEW_CHALLAN_PDF", codes "CHALLAN_PDF_VIEW")
    ∷ (codes "UPLOAD_CHALLAN_PDF", codes "CHALLAN_PDF_UPLOAD")
    ∷ (codes "RENAME_CHALLAN_PDF", codes "CHALLAN_PDF_RENAME")
    ∷ (codes "DELETE_CHALLAN_PDF", codes "CHALLAN_PDF_DELETE")
    ∷ (codes "CHALLAN_CREATE_REGISTER", codes "CHALLAN_REGISTER_CREATE")
    ∷ (codes "CHALLAN_VIEW_REGISTER", codes "CHALLAN_REGISTER_VIEW")
    ∷ (codes "CHALLAN_RENAME_REGISTER", codes "CHALLAN_REGISTER_RENAME")
    ∷ (codes "CHALLAN_DELETE_REGISTER", codes "CHALLAN_REGISTER_DELETE")
    ∷ (codes "CHALLAN_EDIT_REGISTER", codes "CHALLAN_REGISTER_EDIT")
    ∷ (codes "CREATE_CHALLAN_REGISTER", codes "CHALLAN_REGISTER_CREATE")
    ∷ (codes "VIEW_CHALLAN_REGISTER", codes "CHALLAN_REGISTER_VIEW")
    ∷ (codes "RENAME_CHALLAN_REGISTER", codes "CHALLAN_REGISTER_RENAME")
    ∷ (codes "DELETE_CHALLAN_REGISTER", codes "CHALLAN_REGISTER_DELETE")
    ∷ (codes "EDIT_CHALLAN_REGISTER", codes "CHALLAN_REGISTER_EDIT")
    ∷ (codes "SCHEDULE_CREATE_FOLDER", codes "SCHEDULE_FOLDER_CREATE")
    ∷ (codes "SCHEDULE_RENAME_FOLDER", codes "SCHEDULE_FOLDER_RENAME")
    ∷ (codes "SCHEDULE_VIEW_FOLDER", codes "SCHEDULE_FOLDER_VIEW")
    ∷ (codes "SCHEDULE_DELETE_FOLDER", codes "SCHEDULE_FOLDER_DELETE")
    ∷ (codes "CREATE_SCHEDULE_FOLDERS", codes "SCHEDULE_FOLDER_CREATE")
    ∷ (codes "RENAME_SCHEDULE_FOLDERS", codes "SCHEDULE_FOLDER_RENAME")
    ∷ (codes "VIEW_SCHEDULE_FOLDERS", codes "SCHEDULE_FOLDER_VIEW")
    ∷ (codes "DELETE_SCHEDULE_FOLDERS", codes "SCHEDULE_FOLDER_DELETE")
    ∷ (codes "VIEW_L3_SCHEDULE", codes "L3_SCHEDULE_VIEW")
    ∷ (codes "CREATE_L3_SCHEDULE", codes "L3_SCHEDULE_CREATE")
    ∷ (codes "EDIT_L3_SCHEDULE", codes "L3_SCHEDULE_EDIT")
    ∷ (codes "RENAME_L3_SCHEDULE", codes "L3_SCHEDULE_RENAME")
    ∷ (codes "DELETE_L3_SCHEDULE", codes "L3_SCHEDULE_DELETE")
    ∷ (codes "L3_CREATE_SCHEDULE", codes "L3_SCHEDULE_CREATE")
    ∷ (codes "L3_EDIT_SCHEDULE", codes "L3_SCHEDULE_EDIT")
    ∷ (codes "L3_RENAME_SCHEDULE", codes "L3_SCHEDULE_RENAME")
    ∷ (codes "L3_DELETE_SCHEDULE", codes "L3_SCHEDULE_DELETE")
    ∷ (codes "L3_VIEW_SCHEDULE", codes "L3_SCHEDULE_VIEW")
    ∷ (codes "LINE_HISTORY_SHEET_CREATE_FOLDER", codes "LHS_FOLDER_CREATE")
    ∷ (codes "LINE_HISTORY_SHEET_VIEW_FOLDER", codes "LHS_FOLDER_VIEW")
    ∷ (codes "LINE_HISTORY_SHEET_EDIT_FOLDER", codes "LHS_FOLDER_EDIT")
    ∷ (codes "LINE_HISTORY_SHEET_DELETE_FOLDER", codes "LHS_FOLDER_DELETE")
    ∷ (codes "CREATE_LINE_HISTORY_SHEET_FOLDERS", codes "LHS_FOLDER_CREATE")
    ∷ (codes "VIEW_LINE_HISTORY_SHEET_FOLDERS", codes "LHS_FOLDER_VIEW")
    ∷ (codes "EDIT_LINE_HISTORY_SHEET_FOLDERS", codes "LHS_FOLDER_EDIT")
    ∷ (codes "DELETE_LINE_HISTORY_SHEET_FOLDERS", codes "LHS_FOLDER_DELETE")
    ∷ (codes "LHS_CREATE_FOLDER", codes "LHS_FOLDER_CREATE")
    ∷ (codes "LHS_VIEW_FOLDER", codes "LHS_FOLDER_VIEW")
    ∷ (codes "LHS_EDIT_FOLDER", codes "LHS_FOLDER_EDIT")
    ∷ (codes "LHS_DELETE_FOLDER", codes "LHS_FOLDER_DELETE")
    ∷ []
