-- ===== src/Api/Workspaces.antt =====
-- backend/api/workspaces.py: the handlers of workspaces.
use graph_blizz.Prelude.{
  ℕ, Option, none, some, List, map, String, Text, is_empty, if◌then◌else◌, ok,
}
use graph_blizz.Jobs.Models.{Job, JobStatus, pending}
use graph_blizz.Documents.Db.{WorkspaceRow, WorkspaceStatus}
use graph_blizz.Documents.World.{Action, return, ◌>>=◌, statement, statement_at, with_connection}
use graph_blizz.Indexing.Service.{lifted}
use graph_blizz.Indexing.Versions.{IndexContract}
use graph_blizz.Security.Models.{workspace_read, workspace_manage, index_rebuild}
use graph_blizz.Workspaces.Repository.{Generated, create_workspace, list_workspaces}
use graph_blizz.Workspaces.Reindex.{enqueue}
use graph_blizz.Api.Access.{Access, authorize_request, workspace_or_404, authorized}

-- The payload as pydantic gives it: stripped texts, of which name and slug are not empty.
pub record WorkspaceCreate : Type 0 where
  pub name : String
  pub slug : String
  pub description : Option Text

-- `_blank_description_is_absent`
abbrev pub blank_description_is_absent : Option Text → Option Text
blank_description_is_absent none = none
blank_description_is_absent (some value) = if is_empty value then none else some value

-- The public fields: the physical storage key and the index contract are not among them.
pub record WorkspaceResponse : Type 0 where
  pub id : ℕ
  pub name : String
  pub slug : String
  pub description : Option Text
  pub status : WorkspaceStatus
  pub created_at : ℕ
  pub updated_at : ℕ

abbrev pub workspace_response : WorkspaceRow → WorkspaceResponse
workspace_response w = record {
  id = w.id;
  name = w.name;
  slug = w.slug;
  description = w.description;
  status = w.status;
  created_at = w.created_at;
  updated_at = w.updated_at;
}

pub record WorkspaceReindexResponse : Type 0 where
  pub workspace_id : ℕ
  pub status : JobStatus
  pub job_ids : List ℕ

-- `create_workspace`: the row is written first, and goes again if the request is not authorized.
unfoldable pub create_workspace_request :
    Access → Generated → (clock : ℕ → ℕ) → WorkspaceCreate → Action WorkspaceResponse
create_workspace_request access generated clock payload = with_connection (do
  w ← statement_at clock (λ now.
      create_workspace generated now payload.name payload.slug
        (blank_description_is_absent payload.description))
  _ ← lifted (authorize_request access w workspace_manage)
  return (workspace_response w))

-- `get_workspace`
unfoldable pub get_workspace_request : Access → (workspace_id : ℕ) → Action WorkspaceResponse
get_workspace_request access workspace_id = do
  w ← workspace_or_404 workspace_id
  _ ← lifted (authorize_request access w workspace_read)
  return (workspace_response w)

-- `list_workspaces`
unfoldable pub list_workspaces_request : Action (List WorkspaceResponse)
list_workspaces_request =
    with_connection (do
      rows ← statement (λ db. ok (db, list_workspaces db))
      return (map workspace_response rows))

-- `reindex_workspace`, on the connection of the reindex service.
unfoldable pub reindex_workspace_request :
    Access
    → (job_id_of clock : ℕ → ℕ) → IndexContract
    → (workspace_id : ℕ) → Action WorkspaceReindexResponse
reindex_workspace_request access job_id_of clock contract workspace_id = with_connection (do
  _ ← authorized access workspace_id index_rebuild
  jobs ← enqueue job_id_of clock contract workspace_id
  return (record {
    workspace_id = workspace_id;
    status = pending;
    job_ids = map (λ (j : Job). j.id) jobs;
  }))
