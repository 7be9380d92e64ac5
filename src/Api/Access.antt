-- ===== src/Api/Access.antt =====
-- backend/api/workspaces.py and documents.py: the workspace of a request and its authorization.
pub mod Denied
use graph_blizz.Prelude.{ℕ, Option, none, some, if◌then◌else◌, Result, ok, err}
use graph_blizz.Errors.{Exn, permission_error, http_error}
use graph_blizz.Documents.Db.{Db, WorkspaceRow}
use graph_blizz.Documents.World.{Action, return, raise, ◌>>=◌, call}
use graph_blizz.Documents.SourceService.{required}
use graph_blizz.Indexing.Service.{lifted}
use graph_blizz.Security.Models.{
  Permission, is_granted, PrincipalContext, AuthorizedWorkspaceContext,
}
use graph_blizz.Workspaces.Repository.{get_workspace}

-- The identity resolver's answer for the request, and the access policy.
pub record Access : Type 0 where
  pub principal : PrincipalContext
  pub policy : PrincipalContext → WorkspaceRow → Permission → Result Exn AuthorizedWorkspaceContext

-- What `_authorize` makes of the answer of the policy.
abbrev pub granted :
    Permission → Result Exn AuthorizedWorkspaceContext → Result Exn AuthorizedWorkspaceContext
granted permission (ok context) =
    if is_granted permission context.permissions then ok context else err (http_error 403)
granted permission (err permission_error) = err (http_error 403)
granted permission (err e) = err e

-- `_authorize`
unfoldable pub authorize_request :
    Access → WorkspaceRow → Permission → Result Exn AuthorizedWorkspaceContext
unfolding is_granted
authorize_request access w permission =
    granted permission (access.policy access.principal w permission)

-- A SELECT on the connection of the workspace repository, which sees the committed tables.
unfoldable pub committed_reading : {A : Type 0} → (Db → A) → Action A
committed_reading query = call (λ w. (ok (query w.committed), w))

-- `_workspace_or_404`
unfoldable pub workspace_or_404 : (workspace_id : ℕ) → Action WorkspaceRow
workspace_or_404 workspace_id = do
  found ← committed_reading (get_workspace workspace_id)
  required found (http_error 404)

-- The first two steps of a handler: the workspace, then the permission.
unfoldable pub authorized :
    Access → (workspace_id : ℕ) → Permission → Action AuthorizedWorkspaceContext
authorized access workspace_id permission = do
  w ← workspace_or_404 workspace_id
  lifted (authorize_request access w permission)
