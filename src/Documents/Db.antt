-- ===== src/Documents/Db.antt =====
-- The tables of the application schema and the lookups that their primary keys allow.
use graph_blizz.Prelude.{
  ℕ, Bool, ◌&&◌, Option, none, some, List, [], ◌∷◌, String, Text, find?, ltb, ◌==◌, update_where,
  if◌then◌else◌,
}
use graph_blizz.Jobs.Repository.{Jobs}
use graph_blizz.Documents.Models.{
  DocumentStatus, uploaded, indexing, ready, updating, deleting, deleted, failed, Document,
  DocumentRevision,
}

pub data WorkspaceStatus : Type 0 where
  active archived : WorkspaceStatus

pub record WorkspaceRow : Type 0 where
  pub id : ℕ
  pub name : String
  pub slug : String
  pub storage_key : Text
  pub status : WorkspaceStatus
  pub created_at : ℕ
  pub updated_at : ℕ
  pub description : Option Text
  pub index_schema_version : ℕ
  pub embedding_profile : Text

pub record DocumentRow : Type 0 where
  pub id : ℕ
  pub workspace_id : ℕ
  pub source_key : Text
  pub filename : String
  pub source_type : String
  pub status : DocumentStatus
  pub created_at : ℕ
  pub updated_at : ℕ
  pub active_revision : Option ℕ

pub record Db : Type 0 where
  pub workspaces : List WorkspaceRow
  pub documents : List DocumentRow
  pub revisions : List DocumentRevision
  pub jobs : Jobs

abbrev pub status_number : DocumentStatus → ℕ
status_number uploaded = 0
status_number indexing = 1
status_number ready = 2
status_number updating = 3
status_number deleting = 4
status_number deleted = 5
status_number failed = 6

-- Equality of statuses, by their numbers.
abbrev pub status_eq : DocumentStatus → DocumentStatus → Bool
status_eq a b = status_number a == status_number b

-- `document_id = … AND revision = …`, the primary key of document_revisions.
unfoldable pub find_revision : ℕ → ℕ → List DocumentRevision → Option DocumentRevision
find_revision document_id revision =
    find? (λ r. r.document_id == document_id && r.revision == revision)

-- `SELECT MAX(revision) … WHERE document_id = …`
unfoldable pub max_revision : ℕ → List DocumentRevision → Option ℕ
max_revision document_id [] = none
max_revision document_id (r ∷ revisions) =
    let rest = max_revision document_id revisions in
    if r.document_id == document_id
    then elim rest [
      | none ↦ some r.revision
      | some n ↦ some (if ltb n r.revision then r.revision else n)
    ]
    else rest

-- The revision that a document shows: COALESCE of the active one and the newest.
unfoldable pub shown_revision : DocumentRow → List DocumentRevision → Option ℕ
unfolding max_revision
shown_revision d revisions = elim d.active_revision [
  | some n ↦ some n
  | none ↦ max_revision d.id revisions
]

-- The projection `_COLUMNS` of a document and a revision, which `_document` maps field by field.
abbrev pub document_of : DocumentRow → DocumentRevision → Document
document_of d r = record {
  id = d.id;
  workspace_id = d.workspace_id;
  source_key = d.source_key;
  filename = d.filename;
  source_type = d.source_type;
  object_uri = r.object_uri;
  content_hash = r.content_hash;
  status = d.status;
  created_at = d.created_at;
  updated_at = d.updated_at;
  active_revision = d.active_revision;
  parser_version = r.parser_version;
  chunk_schema_version = r.chunk_schema_version;
  index_schema_version = r.index_schema_version;
  requires_reindex = r.requires_reindex;
}

-- `WHERE d.workspace_id = … AND d.id = …`
unfoldable pub find_document : ℕ → ℕ → List DocumentRow → Option DocumentRow
find_document workspace_id document_id =
    find? (λ d. d.workspace_id == workspace_id && d.id == document_id)

-- The revision that a document shows.
unfoldable pub shown_row : DocumentRow → List DocumentRevision → Option DocumentRevision
unfolding shown_revision find_revision
shown_row d revisions = elim (shown_revision d revisions) [
  | none ↦ none
  | some n ↦ find_revision d.id n revisions
]

-- `UPDATE documents AS d … FROM document_revisions AS r WHERE … RETURNING …` on one document: the
-- joined revision, the remaining conditions, and the SET clause.
module _ (revision_of : DocumentRow → Option DocumentRevision) (test : DocumentRow → Bool)
    (change : DocumentRow → DocumentRevision → DocumentRow) (db : Db) where
  abbrev pub update_joined : DocumentRow → Option DocumentRevision → Db × Option Document
  update_joined d none = (db, none)
  update_joined d (some r) =
      if test d
      then (
        record db { documents = update_where (λ q. q.id == d.id) (λ q. change d r) db.documents },
        some (document_of (change d r) r),
      )
      else (db, none)

  abbrev pub update_found : Option DocumentRow → Db × Option Document
  update_found none = (db, none)
  update_found (some d) = update_joined d (revision_of d)

unfoldable pub update_document :
    (workspace_id document_id : ℕ) (revision_of : DocumentRow → Option DocumentRevision)
    (test : DocumentRow → Bool) (change : DocumentRow → DocumentRevision → DocumentRow)
    → Db
    → Db × Option Document
update_document workspace_id document_id revision_of test change db =
    update_found revision_of test change db (find_document workspace_id document_id db.documents)
