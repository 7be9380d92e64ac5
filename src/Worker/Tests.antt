-- ===== src/Worker/Tests.antt =====
-- Runs of the worker's modules, and the theorems at inputs that meet their hypotheses.
mod Service
use graph_blizz.Prelude.{◌%◌, ◌≡◌, false, all, [], ◌∷◌, leb, pos, if◌then◌else◌, ◌↔◌, none, some}
use graph_blizz.Errors.{connection_error}
use graph_blizz.Jobs.Models.{Job, index_document}
use graph_blizz.Jobs.Repository.{Jobs, new_row}
use graph_blizz.Worker.Locks.{document_lock_key, IsBigint, document_lock_key_lem}
use graph_blizz.Worker.Runner.{Worker, Race, finished, lease_lost, Clock, StoreFaults}

document_lock_key_lem_example :
    IsBigint (document_lock_key 18446744073709551615)
    × ((document_lock_key 18446744073709551615 ≡ document_lock_key 7)
        ↔ (18446744073709551615 % 18446744073709551616 ≡ 7 % 18446744073709551616))
document_lock_key_lem_example = document_lock_key_lem 18446744073709551615 7

abbrev settings : Worker
settings = record {
  owner = "w-1";
  lease_for = pos 30;
  heartbeat_every = pos 10;
  retry_after = pos 5;
  poll_every = pos 1;
}

abbrev clock : Clock
clock = record { recovery = 20; claim = 21; report = 40; locked = λ id. false }

abbrev rows : Jobs
rows = new_row 1 7 1 index_document 3 10 ∷ []

-- Processing ends well and leaves the table as it is, if its clock allows.
abbrev work : Job → Jobs → Race × Jobs
work job table =
    if all (λ r. leb r.updated_at 40) table then (finished, table) else (lease_lost, [])

-- The call that reports loses its connection.
abbrev failing_report : StoreFaults
failing_report = record { recovery = none; claim = none; report = some connection_error }
