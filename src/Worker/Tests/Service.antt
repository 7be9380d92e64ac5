-- ===== src/Worker/Tests/Service.antt =====
-- The processing of a job, at inputs that meet the hypotheses of the theorems.
use graph_blizz.Prelude.{◌≡◌, refl, some, any, [], ◌∷◌, All, false, ℕ, all, strip, codes}
use graph_blizz.Jobs.Models.{Job, delete_document, running, is_malformed_owner}
use graph_blizz.Jobs.Rows.{JobRow, row_checks, snapshot, is_blank}
use graph_blizz.Jobs.Rows.Checks.{row_checks-IsChecked}
use graph_blizz.Jobs.Repository.{new_row, unique_active, unique_ids, is_owned}
use graph_blizz.Jobs.Repository.Soundness.{IsSound}
use graph_blizz.Documents.Models.{DocumentStatus, Document}
use graph_blizz.Documents.World.{World}
use graph_blizz.Documents.World.Ensures.{Outcome}
use graph_blizz.Indexing.Samples.{
  row_at, document_at, environment, context, db_with, world_with, quiet,
}
use graph_blizz.Worker.Service.{Settings, reindex_job, replace_job, delete_job, process}
use graph_blizz.Worker.Service.Finishing.{Reindexed, Replaced, Deleted, Uncommitted, jobs_finish}
use graph_blizz.Worker.Service.Fence.{process-fenced}

-- The job of a deletion, leased until an instant before that of the clock, which is 20.
abbrev expired : JobRow
expired = record (new_row 3 8 1 delete_document 3 5) {
  status = running;
  attempts = 1;
  updated_at = 6;
  lease_owner = some "w-1";
  lease_expires_at = some 15;
  heartbeat_at = some 6;
  started_at = some 6;
}

abbrev held : Job
held = snapshot expired

abbrev world : World
world = world_with (db_with (row_at DocumentStatus.deleting (some 1)) (expired ∷ []))

abbrev settings : Settings
settings = record {
  owner_id = "owner";
  contract = record { index_schema_version = 1; embedding_profile = codes "bge" };
}

jobs-IsSound : IsSound (expired ∷ [])
unfolding row_checks unique_active unique_ids any is_blank is_malformed_owner all strip
jobs-IsSound = record {
  each = (record { checks = row_checks-IsChecked expired refl; owner = refl; timed = refl }, tt);
  active = refl;
  ids = refl;
}

not_owned :
    (n : ℕ)
    → All (λ j. is_owned held.id "w-1" held.attempts (environment.clock n) j ≡ false) (expired ∷ [])
unfolding is_owned
not_owned n = (refl, tt)

process-fenced_example :
    let after = (process environment settings held quiet world).1 in
    (after.committed.documents ≡ world.committed.documents)
    × (after.committed.jobs ≡ world.committed.jobs)
process-fenced_example =
    process-fenced environment settings held "w-1" quiet world refl jobs-IsSound not_owned refl

abbrev document : Document
document = document_at DocumentStatus.deleting (some 1)

-- The same job while its lease lasts: the deletion of this document returns.
abbrev leased : JobRow
leased = record expired { lease_expires_at = some 36 }

abbrev leased_job : Job
leased_job = snapshot leased

abbrev leased_world : World
leased_world = world_with (db_with (row_at DocumentStatus.deleting (some 1)) (leased ∷ []))

jobs_finish_example :
    Outcome
      (λ u. Reindexed leased_world environment context leased_job document)
      (Uncommitted leased_world)
      (reindex_job environment context document leased_job quiet leased_world)
    × Outcome
        (λ u. Replaced leased_world environment context leased_job document document)
        (Uncommitted leased_world)
        (replace_job environment context document document leased_job quiet leased_world)
    × Outcome
        (λ u. Deleted leased_world environment context leased_job document)
        (Uncommitted leased_world)
        (delete_job environment context document leased_job quiet leased_world)
jobs_finish_example =
    jobs_finish leased_world environment context leased_job document document quiet
