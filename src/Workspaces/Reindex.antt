-- ===== src/Workspaces/Reindex.antt =====
-- backend/maintenance/reindex.py: the enqueuing of a workspace's rebuild in one transaction.
pub mod Coverage
use graph_blizz.Prelude.{ℕ, List, ok}
use graph_blizz.Jobs.Models.{Job}
use graph_blizz.Documents.World.{Action, return, ◌>>=◌, statement_at, commit, rollback, try_except}
use graph_blizz.Documents.Repository.Completion.{create_workspace_reindex}
use graph_blizz.Indexing.Versions.{IndexContract}
use graph_blizz.Workspaces.Repository.{ensure_index_contract}

-- `job_id_of` gives the generated identifiers, `clock` the timestamps.
unfoldable pub enqueue :
    (job_id_of : ℕ → ℕ) (clock : ℕ → ℕ) → IndexContract → (workspace_id : ℕ) → Action (List Job)
enqueue job_id_of clock contract workspace_id =
    try_except
      (do
        _ ← statement_at clock (λ now. ensure_index_contract contract now workspace_id)
        jobs ← statement_at clock (λ now. create_workspace_reindex job_id_of now workspace_id)
        _ ← commit
        return jobs)
      rollback
