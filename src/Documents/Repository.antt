-- ===== src/Documents/Repository.antt =====
-- backend/documents/repository.py: the statements on documents and revisions.
-- `now` is the transaction's timestamp. The lock of a document keeps its other writers out until the
-- transaction ends, so a transaction is a sequence of these functions on the tables that it sees.
pub mod Completion
pub mod Transitions
use graph_blizz.Prelude.{
  ℕ, ◌+◌, Bool, true, false, not, ◌&&◌, ◌||◌, Option, none, some, List, [], ◌∷◌, ◌++◌, String, Text,
  text_eq, filter, any, all, find?, first_by, update_where, ltb, ◌==◌, str_eq, if◌then◌else◌,
  Result, ok, err, codes, leb,
}
use graph_blizz.Errors.{Exn, integrity_error, document_scope_conflict}
use graph_blizz.Documents.Models.{
  DocumentStatus, uploaded, ready, Document, DocumentRevision, parser_version_now,
  chunk_schema_version_now, index_schema_version_now,
}
use graph_blizz.Documents.Db.{
  Db, WorkspaceRow, DocumentRow, find_document, find_revision, max_revision, shown_row, document_of,
  update_document, status_eq,
}
use graph_blizz.Documents.World.{Action, return, ◌>>=◌, call, statement}

-- `btrim(…) <> ''`
unfoldable pub is_blank_text : Text → Bool
is_blank_text text = all (λ c. c == 32) text

unfoldable pub get : (workspace_id document_id : ℕ) → Db → Option Document
unfolding find_document shown_row
get workspace_id document_id db = elim (find_document workspace_id document_id db.documents) [
  | none ↦ none
  | some d ↦ elim (shown_row d db.revisions) [ none ↦ none | some r ↦ some (document_of d r) ]
]

unfoldable pub get_revision : (workspace_id document_id revision : ℕ) → Db → Option Document
get_revision workspace_id document_id revision db =
    elim (find_document workspace_id document_id db.documents) [
      | none ↦ none
      | some d ↦ elim (find_revision d.id revision db.revisions) [
        | none ↦ none
        | some r ↦ some (document_of d r)
      ]
    ]

-- The advisory lock is what keeps other writers of the document out until the transaction ends.
unfoldable pub lock_for_upsert :
    (workspace_id document_id : ℕ) → Db → Result Exn (Db × Option Document)
unfolding get
lock_for_upsert workspace_id document_id db = elim (get workspace_id document_id db) [
  | some document ↦ ok (db, some document)
  | none ↦
      if any (λ d. d.id == document_id) db.documents
      then err document_scope_conflict
      else ok (db, none)
]

-- The constraints of a new document row: the keys, the workspace and the texts that are not blank.
unfoldable pub admits_document : DocumentRow → Db → Bool
unfolding is_blank_text
admits_document d db =
    any (λ w. w.id == d.workspace_id) db.workspaces
    && not (any (λ q. q.id == d.id) db.documents)
    && not (
        any (λ q. q.workspace_id == d.workspace_id && text_eq q.source_key d.source_key)
          db.documents)
    && not (is_blank_text d.source_key)
    && not (is_blank_text (codes d.filename))
    && not (is_blank_text (codes d.source_type))

-- The constraints of a new revision row; the foreign key is the caller's row.
unfoldable pub admits_revision : DocumentRevision → List DocumentRevision → Bool
unfolding is_blank_text
admits_revision r revisions =
    ltb 0 r.revision
    && not (any (λ q. q.document_id == r.document_id && q.revision == r.revision) revisions)
    && not (any (λ q. text_eq q.object_uri r.object_uri) revisions)
    && not (is_blank_text r.object_uri)
    && not (is_blank_text (codes r.content_hash))

abbrev pub new_revision :
    (now document_id revision : ℕ) (object_uri : Text) (content_hash : String) → DocumentRevision
new_revision now document_id revision object_uri content_hash = record {
  document_id = document_id;
  revision = revision;
  object_uri = object_uri;
  content_hash = content_hash;
  created_at = now;
  parser_version = parser_version_now;
  chunk_schema_version = chunk_schema_version_now;
  index_schema_version = index_schema_version_now;
  requires_reindex = false;
}

abbrev pub new_document :
    (now document_id workspace_id : ℕ) (source_key : Text) (filename source_type : String)
    (activate : Bool)
    → DocumentRow
new_document now document_id workspace_id source_key filename source_type activate = record {
  id = document_id;
  workspace_id = workspace_id;
  source_key = source_key;
  filename = filename;
  source_type = source_type;
  status = uploaded;
  created_at = now;
  updated_at = now;
  active_revision = if activate then some 1 else none;
}

unfoldable pub create :
    (now document_id workspace_id : ℕ) (source_key : Text) (filename source_type : String)
    (object_uri : Text) (content_hash : String) (activate : Bool)
    → Db
    → Result Exn (Db × Document)
unfolding admits_document admits_revision
create now document_id workspace_id source_key filename source_type object_uri content_hash activate
      db =
    let d = new_document now document_id workspace_id source_key filename source_type activate in
    let r = new_revision now document_id 1 object_uri content_hash in
    if admits_document d db && admits_revision r db.revisions
    then ok (
      record db { documents = db.documents ++ d ∷ []; revisions = db.revisions ++ r ∷ [] },
      document_of d r,
    )
    else err integrity_error

-- `COALESCE(MAX(revision), 0) + 1`, once the document's row is locked.
unfoldable pub next_revision : (workspace_id document_id : ℕ) → Db → Option ℕ
unfolding max_revision
next_revision workspace_id document_id db =
    elim (find_document workspace_id document_id db.documents) [
      | none ↦ none
      | some d ↦ elim (max_revision document_id db.revisions) [
        | none ↦ some 1
        | some n ↦ some (n + 1)
      ]
    ]

unfoldable pub insert_revision : DocumentRevision → Db → Result Exn (Db × DocumentRevision)
insert_revision r db =
    if admits_revision r db.revisions
    then ok (record db { revisions = db.revisions ++ r ∷ [] }, r)
    else err integrity_error

-- The rest of `add_revision`, once the number is known.
unfoldable pub append_revision :
    (now document_id : ℕ) (content_hash : String) (object_uri_factory : ℕ → Action Text)
    → Option ℕ
    → Action (Option DocumentRevision)
append_revision now document_id content_hash object_uri_factory none = return none
append_revision now document_id content_hash object_uri_factory (some revision) = do
  object_uri ← object_uri_factory revision
  r ← statement (insert_revision (new_revision now document_id revision object_uri content_hash))
  return (some r)

-- `object_uri_factory` stores the object, between the two statements.
unfoldable pub add_revision :
    (now workspace_id document_id : ℕ) (content_hash : String)
    (object_uri_factory : ℕ → Action Text)
    → Action (Option DocumentRevision)
add_revision now workspace_id document_id content_hash object_uri_factory = do
  next ← statement (λ db. ok (db, next_revision workspace_id document_id db))
  append_revision now document_id content_hash object_uri_factory next

unfoldable pub activate_revision :
    (now workspace_id document_id revision : ℕ) → Db → Db × Option Document
unfolding update_document get
activate_revision now workspace_id document_id revision db =
    let changed =
      update_document workspace_id document_id (λ d. find_revision d.id revision db.revisions)
        (λ d. true) (λ d r. record d { active_revision = some revision; updated_at = now }) db in
    elim changed.1 [
      | none ↦ (changed.0, none)
      | some document ↦ (changed.0, get workspace_id document_id changed.0)
    ]

-- `ORDER BY`: insertion of each row before the first one that it does not follow.
unfoldable pub insert_before : DocumentRow → List DocumentRow → List DocumentRow
insert_before d [] = d ∷ []
insert_before d (q ∷ rows) =
    let rest = insert_before d rows in
    if ltb d.created_at q.created_at || d.created_at == q.created_at && leb d.id q.id
    then d ∷ q ∷ rows
    else q ∷ rest

unfoldable pub in_creation_order : List DocumentRow → List DocumentRow
unfolding insert_before
in_creation_order [] = []
in_creation_order (d ∷ rows) = insert_before d (in_creation_order rows)

-- A document before others, if it has a revision to show.
abbrev pub shown_before : DocumentRow → List Document → Option DocumentRevision → List Document
shown_before d documents none = documents
shown_before d documents (some r) = document_of d r ∷ documents

-- The rows that have a revision to show, as documents.
unfoldable pub shown_documents : List DocumentRevision → List DocumentRow → List Document
shown_documents revisions [] = []
shown_documents revisions (d ∷ rows) =
    shown_before d (shown_documents revisions rows) (shown_row d revisions)

unfoldable pub list_documents : (workspace_id : ℕ) → Db → List Document
unfolding in_creation_order shown_documents
list_documents workspace_id db =
    shown_documents db.revisions
      (in_creation_order (filter (λ d. d.workspace_id == workspace_id) db.documents))

abbrev pub or_else : Option ℕ → ℕ → Option ℕ
or_else none n = some n
or_else (some m) n = some m

unfoldable pub transition_status :
    (now workspace_id document_id : ℕ) (from_status to_status : DocumentStatus)
    → Db
    → Db × Option Document
unfolding update_document
transition_status now workspace_id document_id from_status to_status db =
    update_document workspace_id document_id (λ d. shown_row d db.revisions)
      (λ d. status_eq d.status from_status)
      (λ d r. record d {
        status = to_status;
        active_revision =
            if status_eq to_status ready
            then or_else d.active_revision r.revision
            else d.active_revision;
        updated_at = now;
      })
      db
