-- ===== src/Workspaces/Repository.antt =====
-- backend/workspaces/repository.py: the statements on graph_blizz.workspaces, whose columns are those of
-- the Workspace entity. `now` is the transaction's timestamp.
pub mod Contract
use graph_blizz.Prelude.{
  ℕ, Bool, true, false, not, ◌&&◌, ◌||◌, Option, none, some, List, [], ◌∷◌, ◌++◌, String, Text,
  codes, text_eq, strip, is_empty, holds, any, filter, find?, update_where, ltb, leb, str_eq, ◌==◌,
  if◌then◌else◌, Result, ok, err,
}
use graph_blizz.Errors.{Exn, integrity_error}
use graph_blizz.Indexing.Versions.{IndexContract}
use graph_blizz.Documents.Models.{DocumentRevision, deleted}
use graph_blizz.Documents.Db.{Db, WorkspaceRow, active, DocumentRow, status_eq}
use graph_blizz.Documents.Repository.{is_blank_text}

-- `_normalize_description`
unfoldable pub normalize_description : Option Text → Option Text
normalize_description none = none
normalize_description (some description) =
    let normalized = strip description in if is_empty normalized then none else some normalized

-- The constraints of the row: texts that are not blank, and a version that is positive.
unfoldable pub workspace_checks : WorkspaceRow → Bool
unfolding is_blank_text
workspace_checks w =
    not (is_blank_text (codes w.name))
    && not (is_blank_text (codes w.slug))
    && ltb 0 w.index_schema_version
    && not (is_blank_text w.embedding_profile)

-- The keys of the row are not those of another.
unfoldable pub is_unique : WorkspaceRow → List WorkspaceRow → Bool
is_unique w rows =
    not
      (any (λ q. q.id == w.id || str_eq q.slug w.slug || text_eq q.storage_key w.storage_key) rows)

-- What the database generates for a row: its id, its physical storage key and the column defaults.
pub record Generated : Type 0 where
  pub id : ℕ
  pub storage_key : Text
  pub index_schema_version : ℕ
  pub embedding_profile : Text

abbrev pub new_workspace :
    Generated → (now : ℕ) (name slug : String) (description : Option Text) → WorkspaceRow
new_workspace g now name slug description = record {
  id = g.id;
  name = name;
  slug = slug;
  storage_key = g.storage_key;
  status = active;
  created_at = now;
  updated_at = now;
  description = description;
  index_schema_version = g.index_schema_version;
  embedding_profile = g.embedding_profile;
}

unfoldable pub create_workspace :
    Generated
    → (now : ℕ) (name slug : String) (description : Option Text) → Db
    → Result Exn (Db × WorkspaceRow)
unfolding normalize_description workspace_checks is_unique
create_workspace g now name slug description db =
    let w = new_workspace g now name slug (normalize_description description) in
    if workspace_checks w && is_unique w db.workspaces
    then ok (record db { workspaces = db.workspaces ++ w ∷ [] }, w)
    else err integrity_error

unfoldable pub get_workspace : (workspace_id : ℕ) → Db → Option WorkspaceRow
get_workspace workspace_id db = find? (λ w. w.id == workspace_id) db.workspaces

-- `ORDER BY created_at, id`
unfoldable pub insert_workspace : WorkspaceRow → List WorkspaceRow → List WorkspaceRow
insert_workspace w [] = w ∷ []
insert_workspace w (q ∷ rows) =
    let rest = insert_workspace w rows in
    if ltb w.created_at q.created_at || w.created_at == q.created_at && leb w.id q.id
    then w ∷ q ∷ rows
    else q ∷ rest

unfoldable pub in_order : List WorkspaceRow → List WorkspaceRow
unfolding insert_workspace
in_order [] = []
in_order (w ∷ rows) = insert_workspace w (in_order rows)

unfoldable pub list_workspaces : Db → List WorkspaceRow
unfolding in_order
list_workspaces db = in_order db.workspaces

abbrev pub renamed_workspace : (now : ℕ) (name slug : String) → WorkspaceRow → WorkspaceRow
renamed_workspace now name slug w = record w { name = name; slug = slug; updated_at = now }

-- The statement on the row that it finds; a slug of another workspace breaks a constraint.
unfoldable pub rename_found :
    (now : ℕ) (name slug : String)
    → Db
    → Option WorkspaceRow
    → Result Exn (Db × Option WorkspaceRow)
unfolding workspace_checks
rename_found now name slug db none = ok (db, none)
rename_found now name slug db (some w) =
    let w' = renamed_workspace now name slug w in
    if workspace_checks w'
      && not (any (λ q. not (q.id == w.id) && str_eq q.slug slug) db.workspaces)
    then ok (
      record db {
        workspaces =
            update_where (λ q. q.id == w.id) (renamed_workspace now name slug) db.workspaces;
      },
      some w',
    )
    else err integrity_error

unfoldable pub rename_workspace :
    (workspace_id now : ℕ) (name slug : String) → Db → Result Exn (Db × Option WorkspaceRow)
rename_workspace workspace_id now name slug db =
    rename_found now name slug db (get_workspace workspace_id db)

abbrev pub has_contract : IndexContract → WorkspaceRow → Bool
has_contract c w =
    w.index_schema_version == c.index_schema_version
    && text_eq w.embedding_profile c.embedding_profile

abbrev pub with_contract : IndexContract → (now : ℕ) → WorkspaceRow → WorkspaceRow
with_contract c now w = record w {
  index_schema_version = c.index_schema_version;
  embedding_profile = c.embedding_profile;
  updated_at = now;
}

-- The join of `marked`: the active revision of a document of the workspace that is not deleted.
unfoldable pub is_marked_by : (workspace_id : ℕ) → DocumentRevision → DocumentRow → Bool
is_marked_by workspace_id r d =
    r.document_id == d.id
    && d.workspace_id == workspace_id
    && holds d.active_revision (λ n. r.revision == n)
    && not (status_eq d.status deleted)

abbrev pub marked : DocumentRevision → DocumentRevision
marked r = record r { requires_reindex = true }

unfoldable pub change_contract :
    IndexContract → (now : ℕ) → Db → WorkspaceRow → Result Exn (Db × Option WorkspaceRow)
unfolding is_marked_by workspace_checks
change_contract c now db w =
    let w' = with_contract c now w in
    if workspace_checks w'
    then ok (
      record db {
        workspaces = update_where (λ q. q.id == w.id) (with_contract c now) db.workspaces;
        revisions = update_where (λ r. any (is_marked_by w.id r) db.documents) marked db.revisions;
      },
      some w',
    )
    else err integrity_error

unfoldable pub ensure_found :
    IndexContract → (now : ℕ) → Db → Option WorkspaceRow → Result Exn (Db × Option WorkspaceRow)
ensure_found c now db none = ok (db, none)
ensure_found c now db (some w) =
    if has_contract c w then ok (db, some w) else change_contract c now db w

unfoldable pub ensure_index_contract :
    IndexContract → (now workspace_id : ℕ) → Db → Result Exn (Db × Option WorkspaceRow)
ensure_index_contract c now workspace_id db = ensure_found c now db (get_workspace workspace_id db)
