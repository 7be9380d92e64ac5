-- ===== src/Security/Models.antt =====
-- backend/security/models.py.
use graph_blizz.Prelude.{ℕ, Bool, List, [], ◌∷◌, String, Text, Option, any, ◌==◌}

pub data PrincipalType : Type 0 where
  user : PrincipalType

pub data Permission : Type 0 where
  workspace_read workspace_manage workspace_delete query_execute : Permission
  document_read document_create document_update document_delete : Permission
  members_read members_manage index_rebuild index_repair : Permission

abbrev pub all_owner_permissions : List Permission
all_owner_permissions =
    workspace_read ∷ workspace_manage ∷ workspace_delete ∷ query_execute ∷ document_read
    ∷ document_create ∷ document_update ∷ document_delete ∷ members_read ∷ members_manage
    ∷ index_rebuild ∷ index_repair ∷ []

abbrev pub permission_number : Permission → ℕ
permission_number workspace_read = 0
permission_number workspace_manage = 1
permission_number workspace_delete = 2
permission_number query_execute = 3
permission_number document_read = 4
permission_number document_create = 5
permission_number document_update = 6
permission_number document_delete = 7
permission_number members_read = 8
permission_number members_manage = 9
permission_number index_rebuild = 10
permission_number index_repair = 11

-- `permission in permissions`
unfoldable pub is_granted : Permission → List Permission → Bool
is_granted permission = any (λ p. permission_number p == permission_number permission)

pub record PrincipalContext : Type 0 where
  pub principal_id : String
  pub principal_type : PrincipalType

pub record AuthorizedWorkspaceContext : Type 0 where
  pub principal_id : String
  pub principal_type : PrincipalType
  pub workspace_id : ℕ
  pub storage_key : Text
  pub permissions : List Permission
  pub index_schema_version : ℕ
  pub embedding_profile : Option Text
