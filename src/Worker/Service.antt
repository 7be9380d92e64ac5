-- ===== src/Worker/Service.antt =====
-- backend/worker/service.py: what a worker does with a claimed job, on one connection.
pub mod Finishing
pub mod Keeping
pub mod Steps
pub mod Fence
use graph_blizz.Prelude.{
  ℕ, Bool, true, false, not, ◌&&◌, ◌||◌, Option, none, some, List, ◌++◌, String, Text, find?, holds,
  is_none, is_some, ◌==◌, if◌then◌else◌, Result, ok, err,
}
use graph_blizz.Errors.{Exn, value_error, lookup_error, runtime_error}
use graph_blizz.Jobs.Models.{JobType, index_document, delete_document, reindex_document, Job}
use graph_blizz.Documents.Models.{
  DocumentStatus, uploaded, indexing, ready, updating, deleting, failed, Document,
  parser_version_now, chunk_schema_version_now,
}
use graph_blizz.Documents.Db.{Db, WorkspaceStatus, active, archived, WorkspaceRow, status_eq}
use graph_blizz.Documents.World.{
  Action, return, raise, ◌>>=◌, statement_at, commit, outside, with_connection,
}
use graph_blizz.Documents.Repository.{get, get_revision}
use graph_blizz.Documents.Repository.Completion.{
  Attempt, Versions, is_deletion, is_reindexing, is_active_workspace, complete_replacement_for_job,
  complete_deletion_for_job, complete_reindex_for_job, transition_status_for_job,
}
use graph_blizz.Documents.SourceService.{required}
use graph_blizz.Parsers.Models.{ParsedDocument}
use graph_blizz.Security.Models.{user, all_owner_permissions, AuthorizedWorkspaceContext}
use graph_blizz.Indexing.Versions.{IndexContract}
use graph_blizz.Indexing.Provenance.{delete_indexed_document, insert_parsed_document}
use graph_blizz.Indexing.Service.{Environment, Transition, get_runtime, parse_stored, index}
use graph_blizz.Workspaces.Repository.{ensure_index_contract}

-- The settings that the processor reads: the owner and the active index contract.
pub record Settings : Type 0 where
  pub owner_id : String
  pub contract : IndexContract

-- The attempt of a job on a document, with the owner of the lease.
abbrev pub attempt_of : Job → (lease_owner : String) (workspace_id document_id : ℕ) → Attempt
attempt_of job lease_owner workspace_id document_id = record {
  workspace_id = workspace_id;
  document_id = document_id;
  revision = job.document_revision;
  job_id = job.id;
  lease_owner = lease_owner;
  attempt = job.attempts;
}

-- `LeasedDocumentRepository.transition_status`
abbrev pub leased_transition : Job → (lease_owner : String) → Transition
leased_transition job lease_owner workspace_id document_id from_status to_status now db = ok (
    transition_status_for_job now (attempt_of job lease_owner workspace_id document_id) from_status
      to_status db)

-- A SELECT.
abbrev pub reading : {A : Type 0} → Environment → (Db → A) → Action A
reading env query = statement_at env.clock (λ now db. ok (db, query db))

abbrev pub is_indexing : JobType → Bool
is_indexing index_document = true
is_indexing job_type = false

abbrev pub is_in : DocumentStatus → Document → Bool
is_in status document = status_eq document.status status

-- A test that raises if it fails.
abbrev pub demand : Bool → Exn → Action (Unit {0})
demand test e = if test then return tt else raise e

-- The completing statement, which raises if the lease is lost, and the commit.
unfoldable pub finish :
    Environment → (ℕ → Db → Result Exn (Db × Option Document)) → Action (Unit {0})
finish env complete = do
  completed ← statement_at env.clock complete
  _ ← required completed runtime_error
  commit

-- `job.lease_owner or ""`
abbrev pub owner_or_blank : Option String → String
owner_or_blank none = ""
owner_or_blank (some owner) = owner

abbrev pub versions_of : AuthorizedWorkspaceContext → Versions
versions_of context = record {
  parser_version = parser_version_now;
  chunk_schema_version = chunk_schema_version_now;
  index_schema_version = context.index_schema_version;
}

abbrev pub attempt_in : AuthorizedWorkspaceContext → Document → Job → Attempt
attempt_in context document job =
    attempt_of job (owner_or_blank job.lease_owner) context.workspace_id document.id

abbrev pub is_job_revision : Document → Job → Bool
is_job_revision document job = holds document.active_revision (λ n. n == job.document_revision)

-- `_reindex`
unfoldable pub reindex_job :
    Environment → AuthorizedWorkspaceContext → Document → Job → Action (Unit {0})
reindex_job env context document job = do
  _ ← demand (is_in ready document) runtime_error
  _ ← demand (is_job_revision document job) runtime_error
  parsed ← parse_stored env document
  namespace ← get_runtime env context
  _ ← insert_parsed_document env.codec namespace document parsed (some job.document_revision)
  finish env (complete_reindex_for_job (attempt_in context document job) (versions_of context))

-- `_replace`; `replacement` is the document at the revision of the job.
unfoldable pub replace_job :
    Environment
    → AuthorizedWorkspaceContext
    → (active replacement : Document) → Job
    → Action (Unit {0})
replace_job env context active_document replacement job = do
  old_content ← parse_stored env active_document
  new_content ← parse_stored env replacement
  namespace ← get_runtime env context
  _ ← delete_indexed_document env.codec env.content_id namespace active_document old_content
  _ ←
      insert_parsed_document env.codec namespace replacement new_content
        (some job.document_revision)
  finish env (complete_replacement_for_job (attempt_in context replacement job))

-- `_delete`
unfoldable pub delete_job :
    Environment → AuthorizedWorkspaceContext → Document → Job → Action (Unit {0})
delete_job env context document job = do
  _ ← demand (is_in deleting document) runtime_error
  _ ← demand (is_job_revision document job) runtime_error
  parsed ← parse_stored env document
  namespace ← get_runtime env context
  _ ← delete_indexed_document env.codec env.content_id namespace document parsed
  finish env (complete_deletion_for_job (attempt_in context document job))

unfoldable pub index_job :
    Environment
    → AuthorizedWorkspaceContext
    → Document
    → Job
    → (lease_owner : String) → Action (Unit {0})
index_job env context document job lease_owner = do
  _ ← index env (leased_transition job lease_owner) context document
  return tt

-- The replacement of an active revision, or the indexing of the document.
unfoldable pub index_or_replace :
    Environment
    → AuthorizedWorkspaceContext
    → Document
    → Option Document
    → Job
    → (lease_owner : String) → Action (Unit {0})
index_or_replace env context document none job lease_owner =
    index_job env context document job lease_owner
index_or_replace env context document (some active_document) job lease_owner =
    if is_in updating document && not (is_job_revision active_document job)
    then replace_job env context active_document document job
    else index_job env context document job lease_owner

-- The dispatch on the type of the job.
unfoldable pub process_as :
    JobType
    → Environment
    → AuthorizedWorkspaceContext
    → Document
    → Option Document
    → Job
    → (lease_owner : String) → Action (Unit {0})
process_as reindex_document env context document active_document job lease_owner =
    reindex_job env context document job
process_as delete_document env context document active_document job lease_owner =
    delete_job env context document job
process_as index_document env context document active_document job lease_owner =
    index_or_replace env context document active_document job lease_owner

-- A retry: a document that an earlier attempt left FAILED or INDEXING is UPLOADED again.
unfoldable pub reset :
    Environment → (workspace_id : ℕ) → Document → Job → (lease_owner : String) → Action Document
reset env workspace_id document job lease_owner = do
  moved ←
      statement_at env.clock
        (leased_transition job lease_owner workspace_id document.id document.status uploaded)
  document' ← required moved runtime_error
  _ ← commit
  return document'

unfoldable pub reset_if_retried :
    Environment → (workspace_id : ℕ) → Document → Job → (lease_owner : String) → Action Document
reset_if_retried env workspace_id document job lease_owner =
    if is_in failed document || is_in indexing document
    then reset env workspace_id document job lease_owner
    else return document

abbrev pub context_for : Settings → WorkspaceRow → AuthorizedWorkspaceContext
context_for settings w = record {
  principal_id = settings.owner_id;
  principal_type = user;
  workspace_id = w.id;
  storage_key = w.storage_key;
  permissions = all_owner_permissions;
  index_schema_version = w.index_schema_version;
  embedding_profile = some w.embedding_profile;
}

-- The rest of `process`, once the document at the job's revision is known.
unfoldable pub process_found :
    Environment
    → Settings
    → Job
    → (lease_owner : String) (workspace_id : ℕ) → Document
    → Action (Unit {0})
process_found env settings job lease_owner workspace_id found = do
  active_document ← reading env (get workspace_id job.document_id)
  _ ← demand (not (is_none active_document && is_some found.active_revision)) lookup_error
  document ← reset_if_retried env workspace_id found job lease_owner
  ensured ← statement_at env.clock (λ now. ensure_index_contract settings.contract now workspace_id)
  workspace ← required ensured lookup_error
  _ ← demand (is_active_workspace workspace.status) lookup_error
  process_as job.type env (context_for settings workspace) document active_document job lease_owner

unfoldable pub process_document :
    Environment
    → Settings
    → Job
    → (lease_owner : String) (workspace_id : ℕ) → Document
    → Action (Unit {0})
process_document env settings job lease_owner workspace_id document =
    if is_in ready document && is_indexing job.type
    then return tt
    else process_found env settings job lease_owner workspace_id document

-- `_workspace_id`: the workspace of a document.
unfoldable pub workspace_of : (document_id : ℕ) → Db → Option ℕ
workspace_of document_id db = elim (find? (λ d. d.id == document_id) db.documents) [
  | none ↦ none
  | some d ↦ some d.workspace_id
]

-- `process` under the lock, with the repository of the leased attempt.
unfoldable pub process_leased :
    Environment → Settings → Job → (lease_owner : String) → Action (Unit {0})
process_leased env settings job lease_owner = do
  in_workspace ← reading env (workspace_of job.document_id)
  workspace_id ← required in_workspace lookup_error
  found ← reading env (get_revision workspace_id job.document_id job.document_revision)
  document ← required found lookup_error
  process_document env settings job lease_owner workspace_id document

unfoldable pub process_locked : Environment → Settings → Job → Action (Unit {0})
process_locked env settings job = do
  _ ← outside
  lease_owner ← required job.lease_owner value_error
  process_leased env settings job lease_owner

-- `process`: the advisory lock is taken and held on the connection.
unfoldable pub process : Environment → Settings → Job → Action (Unit {0})
process env settings job = with_connection (process_locked env settings job)
