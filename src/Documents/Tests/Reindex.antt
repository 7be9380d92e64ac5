-- ===== src/Documents/Tests/Reindex.antt =====
-- A rebuild of a marked revision, and the theorem on it at this input.
use mathlib.Core.List.{Memᴰ}
use graph_blizz.Jobs.Models.{succeeded}
use graph_blizz.Documents.Db.{status_eq}
use graph_blizz.Prelude.{
  ℕ, ◌≡◌, refl, arith, true, false, none, some, [], ◌∷◌, ◌&&◌, ◌==◌, ◌⊎◌, codes, ok, any, all,
  strip, update_where,
}
use graph_blizz.Jobs.Models.{reindex_document, is_malformed_owner}
use graph_blizz.Jobs.Rows.{JobRow, row_checks, is_blank}
use graph_blizz.Jobs.Rows.Checks.{row_checks-IsChecked}
use graph_blizz.Jobs.Repository.{unique_active, unique_ids, completed, is_owned}
use graph_blizz.Jobs.Repository.Soundness.{IsSound, IsSoundRow}
use graph_blizz.Documents.Models.{DocumentRevision, ready}
use graph_blizz.Documents.Db.{Db, DocumentRow, find_document, document_of}
use graph_blizz.Documents.Repository.{new_document, new_revision}
use graph_blizz.Documents.Repository.Completion.{
  Attempt, Versions, active_row, is_reindex_attempt, reindexed, complete_reindex_for_job,
}
use graph_blizz.Documents.Repository.Completion.Reindex.{complete_reindex_for_job_lem}
use graph_blizz.Documents.Tests.{leased, attempt_by, workspace}

abbrev marked_db : Db
marked_db = record {
  workspaces = workspace ∷ [];
  documents =
      record (new_document 5 8 1 (codes "readme") "a.md" "text/markdown" true) { status = ready }
      ∷ [];
  revisions = record (new_revision 5 8 1 (codes "s3://b/k") "abd") { requires_reindex = true } ∷ [];
  jobs = record leased { job_type = reindex_document } ∷ [];
}

abbrev versions : Versions
versions = record { parser_version = 2; chunk_schema_version = 2; index_schema_version = 2 }

reindexing_sound : IsSoundRow (record leased { job_type = reindex_document })
unfolding row_checks is_blank is_malformed_owner all strip
reindexing_sound = record {
  checks = row_checks-IsChecked (record leased { job_type = reindex_document }) refl;
  owner = refl;
  timed = refl;
}

jobs-IsSound : IsSound marked_db.jobs
unfolding unique_active unique_ids any
jobs-IsSound = record { each = (reindexing_sound, tt); active = refl; ids = refl }

abbrev ReindexOutcome : Attempt → Versions → ℕ → Db → Type 0
ReindexOutcome a v now db =
    ((any (is_reindex_attempt a now db) db.jobs ≡ false)
      × (complete_reindex_for_job a v now db ≡ ok (db, none)))
    ⊎ ((j : JobRow) × Memᴰ j db.jobs
        × (is_owned a.job_id a.lease_owner a.attempt now j ≡ true)
        × (is_reindex_attempt a now db j ≡ true)
        × ((completed now j).status ≡ succeeded)
        × (d : DocumentRow) × (r : DocumentRevision) × (find_document a.workspace_id a.document_id
              db.documents
            ≡ some d)
        × (active_row d db.revisions ≡ some r)
        × (status_eq d.status ready ≡ true)
        × (r.requires_reindex ≡ true)
        × (complete_reindex_for_job a v now db
            ≡ ok (
              record db {
                revisions =
                    update_where (λ q. q.document_id == d.id && q.revision == a.revision)
                      (reindexed v) db.revisions;
                jobs = update_where (is_reindex_attempt a now db) (completed now) db.jobs;
              },
              some (document_of d r),
            )))

complete_reindex_for_job_lem_example : ReindexOutcome (attempt_by "w-1") versions 20 marked_db
complete_reindex_for_job_lem_example =
    complete_reindex_for_job_lem (attempt_by "w-1") versions 20 marked_db refl jobs-IsSound
      (omega arith, tt)
