-- ===== src/Documents/Models.antt =====
-- backend/documents/models.py, with backend/index_versions.py's version numbers.
-- An object URI is its code points; a content hash is the text that hashlib returns.
use graph_blizz.Prelude.{ℕ, Bool, Option, String, Text}

pub data DocumentStatus : Type 0 where
  uploaded indexing ready updating deleting deleted failed : DocumentStatus

pub data DocumentUpsertAction : Type 0 where
  created updated unchanged : DocumentUpsertAction

pub record Document : Type 0 where
  pub id : ℕ
  pub workspace_id : ℕ
  pub source_key : Text
  pub filename : String
  pub source_type : String
  pub object_uri : Text
  pub content_hash : String
  pub status : DocumentStatus
  pub created_at : ℕ
  pub updated_at : ℕ
  pub active_revision : Option ℕ
  pub parser_version : ℕ
  pub chunk_schema_version : ℕ
  pub index_schema_version : ℕ
  pub requires_reindex : Bool

pub record DocumentRevision : Type 0 where
  pub document_id : ℕ
  pub revision : ℕ
  pub object_uri : Text
  pub content_hash : String
  pub created_at : ℕ
  pub parser_version : ℕ
  pub chunk_schema_version : ℕ
  pub index_schema_version : ℕ
  pub requires_reindex : Bool

abbrev pub parser_version_now : ℕ
parser_version_now = 1

abbrev pub chunk_schema_version_now : ℕ
chunk_schema_version_now = 1

abbrev pub index_schema_version_now : ℕ
index_schema_version_now = 1
