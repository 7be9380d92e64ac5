-- ===== src/Security/DemoOwner.antt =====
-- backend/security/demo_owner.py: the policy of the single owner.
use graph_blizz.Prelude.{not, String, str_eq, some, if◌then◌else◌, Result, ok, err}
use graph_blizz.Errors.{Exn, permission_error}
use graph_blizz.Documents.Db.{WorkspaceRow}
use graph_blizz.Security.Models.{
  user, Permission, all_owner_permissions, is_granted, PrincipalContext, AuthorizedWorkspaceContext,
}

-- `resolve`: every request is the owner's.
abbrev pub resolve : (owner_id : String) → PrincipalContext
resolve owner_id = record { principal_id = owner_id; principal_type = user }

abbrev pub context_of : PrincipalContext → WorkspaceRow → AuthorizedWorkspaceContext
context_of principal w = record {
  principal_id = principal.principal_id;
  principal_type = principal.principal_type;
  workspace_id = w.id;
  storage_key = w.storage_key;
  permissions = all_owner_permissions;
  index_schema_version = w.index_schema_version;
  embedding_profile = some w.embedding_profile;
}

-- There is one type of principal, so its test always passes.
unfoldable pub authorize :
    (owner_id : String)
    → PrincipalContext
    → WorkspaceRow
    → Permission
    → Result Exn AuthorizedWorkspaceContext
unfolding is_granted
authorize owner_id principal w permission =
    if not (str_eq principal.principal_id owner_id)
    then err permission_error
    else if not (is_granted permission all_owner_permissions)
    then err permission_error
    else ok (context_of principal w)
