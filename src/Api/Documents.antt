-- ===== src/Api/Documents.antt =====
-- backend/api/documents.py: the handlers of documents. The connection of the document repository is
-- opened for the request, and closed with it.
pub mod Requests
use graph_blizz.Prelude.{
  map, ℕ, Bool, Option, none, some, List, ◌++◌, String, Text, codes, uuid_text, is_none, Result, ok,
  err, if◌then◌else◌,
}
use graph_blizz.Errors.{
  Exn, lookup_error, runtime_error, object_storage_error, object_not_found, document_scope_conflict,
  document_state_transition, embedding_error, llm_error, http_error,
}
use graph_blizz.Jobs.Models.{Job, JobStatus}
use graph_blizz.Documents.Models.{DocumentStatus, DocumentUpsertAction, created, Document}
use graph_blizz.Documents.World.{
  World, Faults, Action, return, raise, ◌>>=◌, statement, with_connection,
}
use graph_blizz.Documents.Repository.{get, list_documents}
use graph_blizz.Documents.SourceService.{
  Setting, Source, UpsertResult, DeleteResult, required, store_for_indexing, upsert_for_indexing,
  delete_for_indexing,
}
use graph_blizz.Indexing.Service.{lifted}
use graph_blizz.Parsers.Registry.{Library}
use graph_blizz.Security.Models.{document_read, document_create, document_delete}
use graph_blizz.Api.Access.{Access, authorized}
use graph_blizz.Api.Uploads.{UploadFile, Upload, checked_upload, max_upload_bytes}

-- `except … as error: raise HTTPException(…) from error`
abbrev pub translated : {A : Type 0} → (Exn → Exn) → Result Exn A × World → Result Exn A × World
translated translate (ok a, w) = (ok a, w)
translated translate (err e, w) = (err (translate e), w)

unfoldable pub catching : {A : Type 0} → (Exn → Exn) → Action A → Action A
catching translate body faults w = translated translate (body faults w)

abbrev pub upload_error : Exn → Exn
upload_error object_storage_error = http_error 503
upload_error object_not_found = http_error 503
upload_error e = e

abbrev pub upsert_error : Exn → Exn
upsert_error document_scope_conflict = http_error 404
upsert_error object_storage_error = http_error 503
upsert_error object_not_found = http_error 503
upsert_error e = e

-- The other errors of the application are kinds of RuntimeError.
abbrev pub delete_error : Exn → Exn
delete_error document_scope_conflict = http_error 404
delete_error lookup_error = http_error 404
delete_error runtime_error = http_error 409
delete_error document_state_transition = http_error 409
delete_error object_storage_error = http_error 409
delete_error object_not_found = http_error 409
delete_error embedding_error = http_error 409
delete_error llm_error = http_error 409
delete_error e = e

-- A status in a response: of the job, or of the document.
pub data PublicStatus : Type 0 where
  of_job : JobStatus → PublicStatus
  of_document : DocumentStatus → PublicStatus

pub record DocumentUploadResponse : Type 0 where
  pub action : DocumentUpsertAction
  pub id : ℕ
  pub workspace_id : ℕ
  pub filename : String
  pub source_type : String
  pub revision : ℕ
  pub status : PublicStatus
  pub job_id : Option ℕ
  pub created_at : ℕ
  pub updated_at : ℕ

pub record DocumentDeleteResponse : Type 0 where
  pub id : ℕ
  pub workspace_id : ℕ
  pub revision : ℕ
  pub status : PublicStatus
  pub job_id : Option ℕ
  pub status_code : ℕ

pub record DocumentResponse : Type 0 where
  pub id : ℕ
  pub workspace_id : ℕ
  pub filename : String
  pub source_type : String
  pub status : DocumentStatus
  pub created_at : ℕ
  pub updated_at : ℕ

-- What a request takes from the application: access, the parsers' library functions, the drive of a
-- Windows path, and the setting of the source service.
pub record Application : Type 0 where
  pub access : Access
  pub library : Library
  pub drive : Text → Text
  pub setting : Setting

abbrev pub upload_response :
    DocumentUpsertAction → Document → (revision : ℕ) → Option Job → DocumentUploadResponse
upload_response action document revision job = record {
  action = action;
  id = document.id;
  workspace_id = document.workspace_id;
  filename = document.filename;
  source_type = document.source_type;
  revision = revision;
  status = elim job [ none ↦ of_document document.status | some j ↦ of_job j.status ];
  job_id = elim job [ none ↦ none | some j ↦ some j.id ];
  created_at = document.created_at;
  updated_at = document.updated_at;
}

abbrev pub source_of : (workspace_id document_id : ℕ) (source_key : Text) → Upload → Source
source_of workspace_id document_id source_key upload = record {
  workspace_id = workspace_id;
  document_id = document_id;
  source_key = source_key;
  filename = upload.filename;
  source_type = upload.source_type;
  content = upload.content;
}

-- `upload_document`; the document's id and the UUID of its key are generated.
unfoldable pub upload_document :
    Application → (workspace_id document_id key_id : ℕ) → UploadFile → Action DocumentUploadResponse
upload_document app workspace_id document_id key_id file = with_connection (do
  _ ← authorized app.access workspace_id document_create
  upload ← lifted (checked_upload max_upload_bytes app.library app.drive file)
  stored ← catching upload_error (
      store_for_indexing app.setting
        (source_of workspace_id document_id (codes "upload-" ++ uuid_text key_id) upload))
  return (upload_response created stored.0 stored.1.document_revision (some stored.1)))

-- The revision that a response names: the job's, or the active one.
abbrev pub revision_of : UpsertResult → Option ℕ
revision_of result = elim result.job [
  | none ↦ result.document.active_revision
  | some j ↦ some j.document_revision
]

-- `upsert_document`
unfoldable pub upsert_document :
    Application → (workspace_id document_id : ℕ) → UploadFile → Action DocumentUploadResponse
upsert_document app workspace_id document_id file = with_connection (do
  _ ← authorized app.access workspace_id document_create
  upload ← lifted (checked_upload max_upload_bytes app.library app.drive file)
  result ← catching upsert_error (
      upsert_for_indexing app.setting
        (source_of workspace_id document_id (codes "upsert-" ++ uuid_text document_id) upload))
  revision ← required (revision_of result) (http_error 409)
  return (upload_response result.action result.document revision result.job))

abbrev pub document_response : Document → DocumentResponse
document_response document = record {
  id = document.id;
  workspace_id = document.workspace_id;
  filename = document.filename;
  source_type = document.source_type;
  status = document.status;
  created_at = document.created_at;
  updated_at = document.updated_at;
}

abbrev pub delete_response : DeleteResult → (revision : ℕ) → DocumentDeleteResponse
delete_response result revision = record {
  id = result.document.id;
  workspace_id = result.document.workspace_id;
  revision = revision;
  status = elim result.job [ none ↦ of_document result.document.status | some j ↦ of_job j.status ];
  job_id = elim result.job [ none ↦ none | some j ↦ some j.id ];
  status_code = if is_none result.job then 200 else 202;
}

-- `delete_document`
unfoldable pub delete_document_request :
    Application → (workspace_id document_id : ℕ) → Action DocumentDeleteResponse
delete_document_request app workspace_id document_id = with_connection (do
  _ ← authorized app.access workspace_id document_delete
  result ← catching delete_error (delete_for_indexing app.setting workspace_id document_id)
  revision ← required result.document.active_revision (http_error 409)
  return (delete_response result revision))

-- `list_documents`
unfoldable pub list_documents_request :
    Application → (workspace_id : ℕ) → Action (List DocumentResponse)
list_documents_request app workspace_id = with_connection (do
  _ ← authorized app.access workspace_id document_read
  documents ← statement (λ db. ok (db, list_documents workspace_id db))
  return (map document_response documents))

-- `get_document`
unfoldable pub get_document_request :
    Application → (workspace_id document_id : ℕ) → Action DocumentResponse
get_document_request app workspace_id document_id = with_connection (do
  _ ← authorized app.access workspace_id document_read
  found ← statement (λ db. ok (db, get workspace_id document_id db))
  document ← required found (http_error 404)
  return (document_response document))
