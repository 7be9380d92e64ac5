-- ===== src/Documents/Repository/Completion.antt =====
-- backend/documents/repository.py: the statements that change a document for the attempt that owns
-- its job, and create_workspace_reindex of backend/jobs/repository.py, which reads documents.
pub mod Outcome
pub mod Reindex
use graph_blizz.Prelude.{
  ℕ, Bool, true, false, not, ◌&&◌, Option, none, some, List, ◌++◌, String, holds, is_empty, filter,
  any, map, find?, update_where, ltb, ◌==◌, if◌then◌else◌, Result, ok, err, ◌>>=◌,
}
use graph_blizz.Errors.{Exn, integrity_error}
use graph_blizz.Jobs.Models.{JobType, delete_document, reindex_document, Job, is_active}
use graph_blizz.Jobs.Rows.{JobRow}
use graph_blizz.Jobs.Repository.{
  is_owned, completed, update_returning, new_row, checked, fetch_jobs,
}
use graph_blizz.Documents.Models.{
  DocumentStatus, ready, updating, deleting, deleted, Document, DocumentRevision,
}
use graph_blizz.Documents.Db.{
  Db, active, WorkspaceStatus, archived, DocumentRow, find_document, find_revision, document_of,
  update_document, status_eq,
}
use graph_blizz.Documents.Repository.{in_creation_order}

-- The completing attempt: the document that it changes, and the fence of its lease.
pub record Attempt : Type 0 where
  pub workspace_id : ℕ
  pub document_id : ℕ
  pub revision : ℕ
  pub job_id : ℕ
  pub lease_owner : String
  pub attempt : ℕ

abbrev pub is_deletion : JobType → Bool
is_deletion delete_document = true
is_deletion _ = false

abbrev pub is_reindexing : JobType → Bool
is_reindexing reindex_document = true
is_reindexing _ = false

-- The WHERE clause of `completed_job`, but for the type and the state of the document.
unfoldable pub is_attempt : Attempt → ℕ → JobRow → Bool
is_attempt a now j =
    is_owned a.job_id a.lease_owner a.attempt now j
    && j.document_id == a.document_id
    && j.document_revision == a.revision

abbrev pub active_row : DocumentRow → List DocumentRevision → Option DocumentRevision
active_row d revisions = elim d.active_revision [
  | none ↦ none
  | some n ↦ find_revision d.id n revisions
]

-- The EXISTS clause: the document in a status, with the attempt's revision active, and a test of it.
unfoldable pub is_candidate : Attempt → DocumentStatus → (DocumentRevision → Bool) → Db → Bool
unfolding find_document find_revision
is_candidate a status test db =
    holds (find_document a.workspace_id a.document_id db.documents) (λ d.
      status_eq d.status status
      && holds d.active_revision (λ n. n == a.revision)
      && holds (active_row d db.revisions) test)

-- `WITH completed_job AS (UPDATE … RETURNING id)`, then what runs if a job was completed.
unfoldable pub completing :
    (now : ℕ) (test : JobRow → Bool) (next : Db → Db × Option Document)
    → Db
    → Result Exn (Db × Option Document)
completing now test next db = do
  (jobs', done) ← update_returning test (completed now) db.jobs
  if is_empty done
      then ok (record db { jobs = jobs' }, none)
      else ok (next (record db { jobs = jobs' }))

unfoldable pub complete_replacement_for_job : Attempt → ℕ → Db → Result Exn (Db × Option Document)
complete_replacement_for_job a now db =
    completing now (is_attempt a now)
      (update_document a.workspace_id a.document_id
        (λ d. find_revision d.id a.revision db.revisions) (λ d. status_eq d.status updating)
        (λ d r. record d { active_revision = some a.revision; status = ready; updated_at = now }))
      db

-- The job of a deletion whose document still waits for it.
unfoldable pub is_deletion_attempt : Attempt → ℕ → Db → JobRow → Bool
is_deletion_attempt a now db j =
    is_attempt a now j && is_deletion j.job_type && is_candidate a deleting (λ r. true) db

-- The job of a rebuild whose document is ready and still marked.
unfoldable pub is_reindex_attempt : Attempt → ℕ → Db → JobRow → Bool
is_reindex_attempt a now db j =
    is_attempt a now j
    && is_reindexing j.job_type
    && is_candidate a ready (λ r. r.requires_reindex) db

unfoldable pub complete_deletion_for_job : Attempt → ℕ → Db → Result Exn (Db × Option Document)
complete_deletion_for_job a now db =
    completing now (is_deletion_attempt a now db)
      (update_document a.workspace_id a.document_id (λ d. active_row d db.revisions)
        (λ d. status_eq d.status deleting && holds d.active_revision (λ n. n == a.revision))
        (λ d r. record d { status = deleted; updated_at = now }))
      db

pub record Versions : Type 0 where
  pub parser_version : ℕ
  pub chunk_schema_version : ℕ
  pub index_schema_version : ℕ

unfoldable pub reindexed : Versions → DocumentRevision → DocumentRevision
reindexed v r = record r {
  parser_version = v.parser_version;
  chunk_schema_version = v.chunk_schema_version;
  index_schema_version = v.index_schema_version;
  requires_reindex = false;
}

-- The rest of the statement, once the document and its active revision are found. The SELECT reads
-- the revision as it was before the statement.
unfoldable pub rebuilt_joined :
    Attempt → Versions → Db → DocumentRow → Option DocumentRevision → Db × Option Document
rebuilt_joined a v db d none = (db, none)
rebuilt_joined a v db d (some r) =
    if status_eq d.status ready && r.revision == a.revision && r.requires_reindex
    then (
      record db {
        revisions =
            update_where (λ q. q.document_id == d.id && q.revision == a.revision) (reindexed v)
              db.revisions;
      },
      some (document_of d r),
    )
    else (db, none)

unfoldable pub rebuilt_found : Attempt → Versions → Db → Option DocumentRow → Db × Option Document
rebuilt_found a v db none = (db, none)
rebuilt_found a v db (some d) = rebuilt_joined a v db d (active_row d db.revisions)

unfoldable pub rebuilt : Attempt → Versions → Db → Db × Option Document
rebuilt a v db = rebuilt_found a v db (find_document a.workspace_id a.document_id db.documents)

-- Versions are positive: a CHECK of document_revisions, on a row that is updated.
unfoldable pub versions_checked :
    Versions → Db × Option Document → Result Exn (Db × Option Document)
versions_checked v (db, none) = ok (db, none)
versions_checked v (db, some document) =
    if ltb 0 v.parser_version && ltb 0 v.chunk_schema_version && ltb 0 v.index_schema_version
    then ok (db, some document)
    else err integrity_error

unfoldable pub complete_reindex_for_job :
    Attempt → Versions → ℕ → Db → Result Exn (Db × Option Document)
complete_reindex_for_job a v now db = do
  done ← completing now (is_reindex_attempt a now db) (rebuilt a v) db
  versions_checked v done

-- The statement, once the row of the attempt's job is joined.
unfoldable pub transition_under :
    (now : ℕ)
    → Attempt
    → (from_status to_status : DocumentStatus) → Db
    → Option JobRow
    → Db × Option Document
transition_under now a from_status to_status db none = (db, none)
transition_under now a from_status to_status db (some j) =
    update_document a.workspace_id a.document_id
      (λ d. find_revision d.id j.document_revision db.revisions)
      (λ d. status_eq d.status from_status)
      (λ d r. record d {
        status = to_status;
        active_revision =
            if status_eq to_status ready then some j.document_revision else d.active_revision;
        updated_at = now;
      })
      db

unfoldable pub is_attempt_on_document : Attempt → ℕ → JobRow → Bool
is_attempt_on_document a now j =
    is_owned a.job_id a.lease_owner a.attempt now j && j.document_id == a.document_id

unfoldable pub transition_status_for_job :
    (now : ℕ) → Attempt → (from_status to_status : DocumentStatus) → Db → Db × Option Document
transition_status_for_job now a from_status to_status db =
    transition_under now a from_status to_status db (find? (is_attempt_on_document a now) db.jobs)

abbrev pub is_active_workspace : WorkspaceStatus → Bool
is_active_workspace active = true
is_active_workspace archived = false

-- The documents whose active revision is marked, and that no active job protects.
unfoldable pub needs_reindex : (workspace_id : ℕ) → Db → DocumentRow → Bool
needs_reindex workspace_id db d =
    any (λ w. w.id == workspace_id && is_active_workspace w.status) db.workspaces
    && d.workspace_id == workspace_id
    && status_eq d.status ready
    && holds (active_row d db.revisions) (λ r. r.requires_reindex)
    && not (any (λ j. j.document_id == d.id && is_active j.status) db.jobs)

abbrev pub or_zero : Option ℕ → ℕ
or_zero none = 0
or_zero (some n) = n

-- The inserted rows; `job_id_of` gives the generated identifiers.
abbrev pub reindex_row : (job_id_of : ℕ → ℕ) (now : ℕ) → DocumentRow → JobRow
reindex_row job_id_of now d =
    new_row (job_id_of d.id) d.id (or_zero d.active_revision) reindex_document 3 now

unfoldable pub create_workspace_reindex :
    (job_id_of : ℕ → ℕ) (now workspace_id : ℕ) → Db → Result Exn (Db × List Job)
unfolding needs_reindex in_creation_order
create_workspace_reindex job_id_of now workspace_id db =
    let rows =
      map (reindex_row job_id_of now)
        (in_creation_order (filter (needs_reindex workspace_id db) db.documents)) in
    do
      (jobs', _) ← checked tt (db.jobs ++ rows)
      jobs ← fetch_jobs rows
      ok (record db { jobs = jobs' }, jobs)
