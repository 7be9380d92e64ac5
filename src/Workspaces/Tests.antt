-- ===== src/Workspaces/Tests.antt =====
-- Runs of the workspace statements, and the theorem on maintenance at one request.
use graph_blizz.Prelude.{◌≡◌, refl, some, none, [], codes, strip}
use graph_blizz.Documents.Models.{DocumentStatus}
use graph_blizz.Documents.Db.{Db}
use graph_blizz.Documents.World.Ensures.{Outcome}
use graph_blizz.Indexing.Versions.{IndexContract}
use graph_blizz.Indexing.Samples.{row_at, db_with, world_with, quiet}
use graph_blizz.Workspaces.Repository.{normalize_description}
use graph_blizz.Workspaces.Reindex.{enqueue}
use graph_blizz.Workspaces.Reindex.Coverage.{Covered, enqueue_lem}

described : normalize_description (some (codes "  a b ")) ≡ some (codes "a b")
unfolding normalize_description strip
described = refl

blank : normalize_description (some (codes "   ")) ≡ none
unfolding normalize_description strip
blank = refl

abbrev newer : IndexContract
newer = record { index_schema_version = 2; embedding_profile = codes "m" }

abbrev ready_db : Db
ready_db = db_with (row_at DocumentStatus.ready (some 1)) []

enqueue_lem_example :
    Outcome
      (λ jobs. Covered newer 1 (world_with ready_db))
      (λ committed k o l. committed ≡ ready_db)
      (enqueue (λ id. 7) (λ n. 20) newer 1 quiet (world_with ready_db))
enqueue_lem_example = enqueue_lem (λ id. 7) (λ n. 20) newer 1 quiet (world_with ready_db)
