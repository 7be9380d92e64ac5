-- ===== src/Documents/Tests.antt =====
-- Runs of the documents modules on small tables, and the theorems at inputs that meet their
-- hypotheses.
mod Reindex
use mathlib.Core.List.{Memᴰ}
use graph_blizz.Jobs.Models.{succeeded}
use graph_blizz.Documents.Db.{status_eq}
use graph_blizz.Prelude.{
  ℕ, String, arith, ◌≡◌, refl, true, false, none, some, [], ◌∷◌, codes, ok, err, if◌then◌else◌,
  ◌==◌, All, any, all, ◌⊎◌, update_where, filter, strip, text_eq, uuid_text, hex_digits,
  decimal_text, decimal_digits, find?,
}
use graph_blizz.Errors.{connection_error}
use graph_blizz.Jobs.Models.{
  is_malformed_owner, delete_document, running, post_init, count_guards, lease_guards,
  finish_guards,
}
use graph_blizz.Jobs.Rows.{JobRow, row_checks, is_blank, job_of_row}
use graph_blizz.Jobs.Rows.Checks.{row_checks-IsChecked}
use graph_blizz.Jobs.Repository.{
  new_row, unique_active, unique_ids, no_rival, table_checks, checked, insert_job, create_indexing,
  is_owned, completed,
}
use graph_blizz.Jobs.Repository.Soundness.{IsSound, IsSoundRow}
use graph_blizz.Documents.Models.{Document, DocumentRevision, deleting, deleted, ready}
use graph_blizz.Documents.Db.{
  Db, WorkspaceRow, active, DocumentRow, find_document, find_revision, document_of,
}
use graph_blizz.Documents.World.{
  World, Faults, return, ◌>>=◌, call, statement, commit, rollback, put, delete, bucket_prefix, uri,
  try_except,
}
use graph_blizz.Documents.World.Transactions.{IsTransacted}
use graph_blizz.Documents.Repository.{
  new_document, new_revision, get, lock_for_upsert, is_blank_text, admits_document, admits_revision,
  create,
}
use graph_blizz.Documents.Repository.Completion.{
  Attempt, is_deletion_attempt, complete_deletion_for_job, active_row,
}
use graph_blizz.Documents.Repository.Completion.Outcome.{
  completion_call, deletes, completion_call-fenced, complete_deletion_for_job_lem,
}
use graph_blizz.Documents.SourceService.{
  compensate, safe_rollback, discard, safe_delete, Setting, Source, store, store_for_indexing,
  upsert_for_indexing, upsert_existing, register, create_for, enqueue_indexing, object_key,
  key_text, remember, forget, delete_for_indexing, add_source_revision,
}
use graph_blizz.Documents.SourceService.Atomicity.{operations-IsTransacted}

abbrev pub workspace : WorkspaceRow
workspace = record {
  id = 1;
  name = "demo";
  slug = "demo";
  storage_key = codes "w1";
  status = active;
  created_at = 0;
  updated_at = 0;
  description = none;
  index_schema_version = 1;
  embedding_profile = codes "bge";
}

abbrev setting : Setting
setting = record { sha256 = λ content. "abc"; now = 10; bucket = codes "b"; job_id = 5 }

abbrev source : Source
source = record {
  workspace_id = 1;
  document_id = 8;
  source_key = codes "readme";
  filename = "a.md";
  source_type = "text/markdown";
  content = 104 ∷ 105 ∷ [];
}

abbrev empty_db : Db
empty_db = record { workspaces = workspace ∷ []; documents = []; revisions = []; jobs = [] }

abbrev empty_world : World
empty_world = record {
  committed = empty_db;
  working = empty_db;
  objects = [];
  stored_key = none;
  index_calls = [];
  calls = 0;
}

abbrev quiet : Faults
quiet n = none

-- Under these faults the commit of an upsert, its fifth call, raises.
abbrev failing_commit : Faults
failing_commit n = if n == 4 then some connection_error else none

abbrev ready_document : Document
ready_document =
    document_of
      (record (new_document 5 8 1 (codes "readme") "a.md" "text/markdown" true) { status = ready })
      (new_revision 5 8 1 (codes "s3://b/k") "abd")

upsert_quietly :
    (upsert_for_indexing setting source quiet empty_world).1.committed.documents
    ≡ new_document 10 8 1 (codes "readme") "a.md" "text/markdown" false ∷ []
unfolding upsert_for_indexing ◌>>=◌ forget try_except statement call lock_for_upsert get
    find_document find? any upsert_existing register object_key key_text return remember put
    create_for create admits_document admits_revision is_blank_text all enqueue_indexing
    create_indexing insert_job find_revision checked table_checks row_checks unique_active
    unique_ids no_rival job_of_row commit uri bucket_prefix uuid_text hex_digits decimal_text
    decimal_digits text_eq filter post_init count_guards lease_guards finish_guards
upsert_quietly = refl

-- The same upsert when its commit raises: no document and no object is left.
upsert_failing :
    let after = upsert_for_indexing setting source failing_commit empty_world in
    (after.0 ≡ err connection_error)
    × (after.1.committed.documents ≡ [])
    × (after.1.working.documents ≡ [])
    × (after.1.objects ≡ [])
unfolding compensate safe_rollback rollback discard safe_delete delete upsert_for_indexing ◌>>=◌
    forget try_except statement call lock_for_upsert get find_document find? any upsert_existing
    register object_key key_text return remember put create_for create admits_document
    admits_revision is_blank_text all enqueue_indexing create_indexing insert_job find_revision
    checked table_checks row_checks unique_active unique_ids no_rival job_of_row commit uri
    bucket_prefix uuid_text hex_digits decimal_text decimal_digits text_eq filter post_init
    count_guards lease_guards finish_guards
upsert_failing = (refl, refl, refl, refl)

operations-IsTransacted_example :
    IsTransacted empty_world (store setting source failing_commit empty_world)
    × IsTransacted empty_world (store_for_indexing setting source failing_commit empty_world)
    × IsTransacted empty_world (upsert_for_indexing setting source failing_commit empty_world)
    × IsTransacted empty_world (delete_for_indexing setting 1 8 failing_commit empty_world)
    × IsTransacted empty_world
        (add_source_revision setting ready_document (104 ∷ 105 ∷ []) failing_commit empty_world)
operations-IsTransacted_example =
    operations-IsTransacted setting source ready_document failing_commit empty_world

abbrev pub leased : JobRow
leased = record (new_row 2 8 1 delete_document 3 5) {
  status = running;
  attempts = 1;
  updated_at = 6;
  lease_owner = some "w-1";
  lease_expires_at = some 36;
  heartbeat_at = some 6;
  started_at = some 6;
}

abbrev deleting_document : DocumentRow
deleting_document = record (new_document 5 8 1 (codes "readme") "a.md" "text/markdown" true) {
  status = deleting;
}

abbrev pub deleting_db : Db
deleting_db = record {
  workspaces = workspace ∷ [];
  documents = deleting_document ∷ [];
  revisions = new_revision 5 8 1 (codes "s3://b/k") "abd" ∷ [];
  jobs = leased ∷ [];
}

abbrev pub attempt_by : String → Attempt
attempt_by owner = record {
  workspace_id = 1;
  document_id = 8;
  revision = 1;
  job_id = 2;
  lease_owner = owner;
  attempt = 1;
}

leased_sound : IsSoundRow leased
unfolding row_checks is_blank is_malformed_owner all strip
leased_sound = record { checks = row_checks-IsChecked leased refl; owner = refl; timed = refl }

jobs-IsSound : IsSound deleting_db.jobs
unfolding unique_active unique_ids any
jobs-IsSound = record { each = (leased_sound, tt); active = refl; ids = refl }

other_owner : All (λ j. is_owned 2 "w-2" 1 20 j ≡ false) deleting_db.jobs
unfolding is_owned
other_owner = (refl, tt)

completion_call-fenced_example :
    completion_call deletes (attempt_by "w-2") 20 deleting_db ≡ ok (deleting_db, none)
completion_call-fenced_example =
    completion_call-fenced deletes (attempt_by "w-2") 20 deleting_db jobs-IsSound other_owner

abbrev DeletionOutcome : Attempt → ℕ → Db → Type 0
DeletionOutcome a now db =
    ((any (is_deletion_attempt a now db) db.jobs ≡ false)
      × (complete_deletion_for_job a now db ≡ ok (db, none)))
    ⊎ ((j : JobRow) × Memᴰ j db.jobs
        × (is_owned a.job_id a.lease_owner a.attempt now j ≡ true)
        × (is_deletion_attempt a now db j ≡ true)
        × ((completed now j).status ≡ succeeded)
        × (d : DocumentRow) × (r : DocumentRevision) × (find_document a.workspace_id a.document_id
              db.documents
            ≡ some d)
        × (active_row d db.revisions ≡ some r)
        × (status_eq d.status deleting ≡ true)
        × (complete_deletion_for_job a now db ≡ (
            let d' = record d { status = deleted; updated_at = now } in
            ok (
              record db {
                documents = update_where (λ q. q.id == d.id) (λ q. d') db.documents;
                jobs = update_where (is_deletion_attempt a now db) (completed now) db.jobs;
              },
              some (document_of d' r),
            ))))

complete_deletion_for_job_lem_example : DeletionOutcome (attempt_by "w-1") 20 deleting_db
complete_deletion_for_job_lem_example =
    complete_deletion_for_job_lem (attempt_by "w-1") 20 deleting_db jobs-IsSound (omega arith, tt)
