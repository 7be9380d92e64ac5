-- ===== src/Api/Documents/Requests.antt =====
-- The handlers of documents before a request that is not authorized.
use graph_blizz.Prelude.{ℕ, List}
use graph_blizz.Documents.World.{World, Faults, Action}
use graph_blizz.Security.Models.{Permission, document_read, document_create, document_delete}
use graph_blizz.Api.Access.Denied.{IsDenied, HasRefused, refuses}
use graph_blizz.Api.Uploads.{UploadFile}
use graph_blizz.Api.Documents.{
  Application, DocumentUploadResponse, DocumentDeleteResponse, DocumentResponse, upload_document,
  upsert_document, delete_document_request, list_documents_request, get_document_request,
}

-- The five requests for documents, each with what it takes and the permission that it is to need.
pub data DocumentRequest : Type 0 where
  uploads : (document_id key_id : ℕ) → UploadFile → DocumentRequest
  upserts : (document_id : ℕ) → UploadFile → DocumentRequest
  deletes : (document_id : ℕ) → DocumentRequest
  lists : DocumentRequest
  gets : (document_id : ℕ) → DocumentRequest

abbrev pub permission_of : DocumentRequest → Permission
permission_of (uploads document_id key_id file) = document_create
permission_of (upserts document_id file) = document_create
permission_of (deletes document_id) = document_delete
permission_of lists = document_read
permission_of (gets document_id) = document_read

abbrev pub Response : DocumentRequest → Type 0
Response (uploads document_id key_id file) = DocumentUploadResponse
Response (upserts document_id file) = DocumentUploadResponse
Response (deletes document_id) = DocumentDeleteResponse
Response lists = List DocumentResponse
Response (gets document_id) = DocumentResponse

abbrev pub respond :
    Application → (workspace_id : ℕ) (request : DocumentRequest) → Action (Response request)
respond app workspace_id (uploads document_id key_id file) =
    upload_document app workspace_id document_id key_id file
respond app workspace_id (upserts document_id file) =
    upsert_document app workspace_id document_id file
respond app workspace_id (deletes document_id) =
    delete_document_request app workspace_id document_id
respond app workspace_id lists = list_documents_request app workspace_id
respond app workspace_id (gets document_id) = get_document_request app workspace_id document_id

-- A request for documents of a workspace that does not exist, or for which the policy refuses the one
-- permission that the request needs (to create for an upload and an upsert, to delete for a deletion,
-- to read for the list and for one document), gets no response, whichever calls raise: the handler
-- raises, and the committed tables, the stored objects and the index are as they were.
pub requests-HasRefused :
    (app : Application) (workspace_id : ℕ) (request : DocumentRequest) (faults : Faults) (w : World)
    → IsDenied app.access workspace_id (permission_of request) w.committed
    → HasRefused w (respond app workspace_id request faults w)
unfolding upload_document upsert_document delete_document_request list_documents_request
    get_document_request
requests-HasRefused app workspace_id (uploads document_id key_id file) faults w denied =
    refuses app.access workspace_id document_create _ faults w denied
requests-HasRefused app workspace_id (upserts document_id file) faults w denied =
    refuses app.access workspace_id document_create _ faults w denied
requests-HasRefused app workspace_id (deletes document_id) faults w denied =
    refuses app.access workspace_id document_delete _ faults w denied
requests-HasRefused app workspace_id lists faults w denied =
    refuses app.access workspace_id document_read _ faults w denied
requests-HasRefused app workspace_id (gets document_id) faults w denied =
    refuses app.access workspace_id document_read _ faults w denied
