-- ===== src/Documents/SourceService.antt =====
-- backend/documents/source_service.py: source bytes in the object store, then metadata and a job in
-- one transaction, with the object deleted again when the transaction fails.
-- Python's `nonlocal stored_key` is the field `stored_key` of the world.
pub mod Atomicity
use graph_blizz.Prelude.{
  ℕ, Bool, true, false, Option, none, some, List, ◌++◌, String, Text, codes, uuid_text,
  decimal_text, is_some, ltb, str_eq, if◌then◌else◌, Result, ok, err,
}
use graph_blizz.Errors.{
  Exn, value_error, lookup_error, runtime_error, object_storage_error, object_not_found,
}
use graph_blizz.Jobs.Models.{Job}
use graph_blizz.Jobs.Repository.{Jobs, create_indexing, create_deletion, get_active_for_document}
use graph_blizz.Documents.Models.{
  ready, updating, deleting, deleted, DocumentUpsertAction, created, updated, unchanged, Document,
  DocumentRevision,
}
use graph_blizz.Documents.Db.{Db, find_revision, status_eq}
use graph_blizz.Documents.World.{
  World, Action, return, raise, ◌>>=◌, call, statement, commit, rollback, put, delete, uri, get_uri,
  try_except,
}
use graph_blizz.Documents.Repository.{lock_for_upsert, create, add_revision, transition_status}
use graph_blizz.Documents.Repository.Completion.{is_deletion}

pub record UpsertResult : Type 0 where
  pub action : DocumentUpsertAction
  pub document : Document
  pub job : Option Job

pub record DeleteResult : Type 0 where
  pub document : Document
  pub job : Option Job

-- What a call of the service takes from outside: hashlib, the clock, the bucket, the generated ids.
pub record Setting : Type 0 where
  pub sha256 : List ℕ → String
  pub now : ℕ
  pub bucket : Text
  pub job_id : ℕ

unfoldable pub key_text : (workspace_id document_id revision : ℕ) → Text
key_text workspace_id document_id revision =
    codes "workspace/"
    ++ (uuid_text workspace_id
        ++ (codes "/document/"
            ++ (uuid_text document_id
                ++ (codes "/revision/" ++ (decimal_text revision ++ codes "/source")))))

unfoldable pub object_key : (workspace_id document_id revision : ℕ) → Action Text
object_key workspace_id document_id revision =
    if ltb revision 1
    then raise value_error
    else return (key_text workspace_id document_id revision)

unfoldable pub remember : Text → Action (Unit {0})
remember key faults w = (ok tt, record w { stored_key = some key })

unfoldable pub forget : Action (Unit {0})
forget faults w = (ok tt, record w { stored_key = none })

-- `except BaseException: return`
abbrev ignored : Result Exn (Unit {0}) × World → Result Exn (Unit {0}) × World
ignored r = (ok tt, r.1)

unfoldable pub safe_rollback : Action (Unit {0})
safe_rollback faults w = ignored (rollback faults w)

-- `except ObjectStorageError: pass`
abbrev pub storage_ignored : Result Exn (Unit {0}) × World → Result Exn (Unit {0}) × World
storage_ignored (err object_storage_error, w) = (ok tt, w)
storage_ignored (err object_not_found, w) = (ok tt, w)
storage_ignored (err e, w) = (err e, w)
storage_ignored (ok a, w) = (ok a, w)

unfoldable pub safe_delete : Text → Action (Unit {0})
safe_delete key faults w = storage_ignored (delete key faults w)

unfoldable pub discard : Option Text → Action (Unit {0})
discard none = return tt
discard (some key) = safe_delete key

-- The handler of the operations: the transaction, then the object that was stored.
unfoldable pub compensate : Action (Unit {0})
compensate = do _ ← safe_rollback; λ faults w. discard w.stored_key faults w

-- A statement of the jobs repository, with the foreign key to the revisions.
abbrev pub on_jobs :
    {A : Type 0} → ((ℕ → ℕ → Bool) → Jobs → Result Exn (Jobs × A)) → Db → Result Exn (Db × A)
on_jobs s db =
    elim (s (λ document_id revision. is_some (find_revision document_id revision db.revisions))
      db.jobs) [ err e ↦ err e | ok r ↦ ok (record db { jobs = r.0 }, r.1) ]

-- Of a read of the jobs, the tables stay.
abbrev pub read_jobs : {A : Type 0} → (Jobs → Result Exn A) → Db → Result Exn (Db × A)
read_jobs s db = elim (s db.jobs) [ err e ↦ err e | ok a ↦ ok (db, a) ]

unfoldable pub enqueue_indexing : Setting → (document_id revision : ℕ) → Action Job
enqueue_indexing s document_id revision =
    statement
      (on_jobs (λ has_revision. create_indexing has_revision s.job_id s.now document_id revision 3))

unfoldable pub enqueue_deletion : Setting → (document_id revision : ℕ) → Action Job
enqueue_deletion s document_id revision =
    statement
      (on_jobs (λ has_revision. create_deletion has_revision s.job_id s.now document_id revision 3))

-- The arguments that describe a source.
pub record Source : Type 0 where
  pub workspace_id : ℕ
  pub document_id : ℕ
  pub source_key : Text
  pub filename : String
  pub source_type : String
  pub content : List ℕ

unfoldable pub create_for : Setting → Source → (key : Text) (activate : Bool) → Action Document
create_for s c key activate = statement (
    create s.now c.document_id c.workspace_id c.source_key c.filename c.source_type
      (uri s.bucket key) (s.sha256 c.content) activate)

-- `document_id` is the id that the factory gives.
unfoldable pub store : Setting → Source → Action Document
store s c = do
  key ← object_key c.workspace_id c.document_id 1
  _ ← put key c.content
  _ ← remember key
  try_except (do document ← create_for s c key true; _ ← commit; return document) compensate

unfoldable pub store_for_indexing : Setting → Source → Action (Document × Job)
store_for_indexing s c = do
  key ← object_key c.workspace_id c.document_id 1
  _ ← put key c.content
  _ ← remember key
  try_except
      (do
        document ← create_for s c key false
        job ← enqueue_indexing s document.id 1
        _ ← commit
        return (document, job))
      compensate

-- `store_replacement` and `store_source`, the factories that the repository calls.
unfoldable pub store_revision :
    Setting → (workspace_id document_id : ℕ) (content : List ℕ) (revision : ℕ) → Action Text
store_revision s workspace_id document_id content revision = do
  key ← object_key workspace_id document_id revision
  _ ← remember key
  _ ← put key content
  return (uri s.bucket key)

unfoldable pub required : {A : Type 0} → Option A → Exn → Action A
required none e = raise e
required (some a) e = return a

-- The branch of an existing document whose content differs.
unfoldable pub replace : Setting → Source → Action UpsertResult
replace s c = do
  added ←
      add_revision s.now c.workspace_id c.document_id (s.sha256 c.content)
        (store_revision s c.workspace_id c.document_id c.content)
  revision ← required added lookup_error
  moved ←
      statement (λ db. ok (transition_status s.now c.workspace_id c.document_id ready updating db))
  document ← required moved runtime_error
  job ← enqueue_indexing s c.document_id revision.revision
  _ ← commit
  return (record { action = updated; document = document; job = some job })

-- The branch of a document that does not exist.
unfoldable pub register : Setting → Source → Action UpsertResult
register s c = do
  key ← object_key c.workspace_id c.document_id 1
  _ ← remember key
  _ ← put key c.content
  document ← create_for s c key false
  job ← enqueue_indexing s document.id 1
  _ ← commit
  return (record { action = created; document = document; job = some job })

unfoldable pub keep : Document → Action UpsertResult
keep document = do
  _ ← commit
  return (record { action = unchanged; document = document; job = none })

-- The comparison of the contents' hashes, under the lock.
unfoldable pub upsert_existing : Setting → Source → Option Document → Action UpsertResult
upsert_existing s c none = register s c
upsert_existing s c (some document) =
    if str_eq document.content_hash (s.sha256 c.content) then keep document else replace s c

unfoldable pub upsert_for_indexing : Setting → Source → Action UpsertResult
upsert_for_indexing s c = do
  _ ← forget
  try_except
      (do
        existing ← statement (lock_for_upsert c.workspace_id c.document_id)
        upsert_existing s c existing)
      compensate

-- The three branches of a document to delete.
unfoldable pub finish_deletion : Document → Option Job → Action DeleteResult
finish_deletion document job = do _ ← commit; return (record { document = document; job = job })

unfoldable pub deletion_of : Document → Option Job → Action DeleteResult
deletion_of document none = raise runtime_error
deletion_of document (some job) =
    if is_deletion job.type then finish_deletion document (some job) else raise runtime_error

unfoldable pub repeat_deletion : Document → Action DeleteResult
repeat_deletion document = do
  job ← statement (read_jobs (get_active_for_document document.id))
  deletion_of document job

unfoldable pub begin_deletion : Setting → Document → Action DeleteResult
begin_deletion s document = do
  revision ← required document.active_revision runtime_error
  moved ←
      statement
        (λ db. ok (transition_status s.now document.workspace_id document.id ready deleting db))
  document' ← required moved runtime_error
  job ← enqueue_deletion s document.id revision
  finish_deletion document' (some job)

unfoldable pub delete_document_for : Setting → Document → Action DeleteResult
delete_document_for s document =
    if status_eq document.status deleted
    then finish_deletion document none
    else if status_eq document.status deleting
    then repeat_deletion document
    else begin_deletion s document

unfoldable pub delete_for_indexing : Setting → (workspace_id document_id : ℕ) → Action DeleteResult
delete_for_indexing s workspace_id document_id =
    try_except
      (do
        existing ← statement (lock_for_upsert workspace_id document_id)
        document ← required existing lookup_error
        delete_document_for s document)
      safe_rollback

unfoldable pub add_source_revision : Setting → Document → List ℕ → Action DocumentRevision
add_source_revision s document content = do
  _ ← forget
  try_except
      (do
        added ←
            add_revision s.now document.workspace_id document.id (s.sha256 content)
              (store_revision s document.workspace_id document.id content)
        revision ← required added lookup_error
        _ ← commit
        return revision)
      compensate

abbrev pub read : Setting → Document → Action (List ℕ)
read s document = get_uri s.bucket document.object_uri
