-- ===== src/Worker/Runner/Round.antt =====
-- A round of a worker that its constructor accepts, on a sound table of jobs.
use graph_blizz.Prelude.{◌≡◌, Bool, true, false, ◌⊎◌, Result, ok, err, some, [], update_where, ◌==◌}
use graph_blizz.Errors.{Exn, cancelled_error}
use graph_blizz.Jobs.Models.{Job, dependency_unavailable}
use graph_blizz.Jobs.Rows.{JobRow, snapshot}
use graph_blizz.Jobs.Repository.{Jobs, is_owned, completed, released, is_expired, claimed}
use graph_blizz.Jobs.Repository.Soundness.{IsSound}
use graph_blizz.Jobs.Repository.Order.{IsFirst}
use graph_blizz.Jobs.Repository.Claim.{queue}
use graph_blizz.Jobs.Repository.Lease.{IsPast}
use graph_blizz.Worker.Runner.{
  Worker, classify_error, is_cancellation, Race, finished, lease_lost, cancelled, raised, Clock,
  StoreFaults, report,
}

-- The race ended with the cancellation of the round.
abbrev pub is_cancelled : Race → Bool
is_cancelled cancelled = true
is_cancelled (raised e) = is_cancellation e
is_cancelled finished = false
is_cancelled lease_lost = false

-- The table after the report: the job that is still leased to the attempt succeeds, or is released
-- with the code of the error; after a lost lease or a cancellation nothing is reported.
abbrev pub reported_table : Worker → Clock → Job → Race → Jobs → Jobs
reported_table w clock job finished rows =
    update_where (is_owned job.id w.owner job.attempts clock.report) (completed clock.report) rows
reported_table w clock job (raised e) rows =
    update_where (is_owned job.id w.owner job.attempts clock.report)
      (released (classify_error e) w.retry_after clock.report) rows
reported_table w clock job lease_lost rows = rows
reported_table w clock job cancelled rows = rows

abbrev pub recovered_table : Worker → Clock → Jobs → Jobs
recovered_table w clock rows =
    update_where (is_expired clock.recovery)
      (released dependency_unavailable w.retry_after clock.recovery) rows

-- The race for the job of a row that is claimed, and the table at its end.
abbrev pub race_for :
    Worker → Clock → (work : Job → Jobs → Race × Jobs) → Jobs → JobRow → Race × Jobs
race_for w clock work rows c =
    work (snapshot (claimed w.owner w.lease_for clock.claim c))
      (update_where (λ r. r.id == c.id) (claimed w.owner w.lease_for clock.claim) rows)

-- The end of a round after the race for a job: reported, cancelled, or with the error of the report.
abbrev pub IsEnd :
    Worker → Clock → StoreFaults → Job → Race × Jobs → Result Exn Bool × Jobs → Type 0
IsEnd w clock faults job race r =
    ((is_cancelled race.0 ≡ false)
      × (r.0 ≡ ok true)
      × (r.1 ≡ reported_table w clock job race.0 race.1))
    ⊎ ((is_cancelled race.0 ≡ true) × (r.0 ≡ err cancelled_error) × (r.1 ≡ race.1))
    ⊎ ((e : Exn) × (faults.report ≡ some e) × (r.0 ≡ err e) × (r.1 ≡ race.1))

-- A round from the claim on, over a table that is sound at its end: nothing is claimed since the worker
-- was stopped or no job is claimable, the claim raises, or the first job of the queue is claimed.
abbrev pub IsClaimRound :
    Worker
    → Clock
    → StoreFaults
    → (stopped : Bool) (work : Job → Jobs → Race × Jobs) → Jobs
    → Result Exn Bool × Jobs
    → Type 0
IsClaimRound w clock faults stopped work rows r =
    ((((stopped ≡ true) ⊎ (queue clock.locked clock.claim rows ≡ []))
        × (r.0 ≡ ok false)
        × (r.1 ≡ rows))
      ⊎ ((e : Exn) × (faults.claim ≡ some e) × (r.0 ≡ err e) × (r.1 ≡ rows))
      ⊎ ((c : JobRow) × IsFirst (queue clock.locked clock.claim rows) c
          × IsEnd w clock faults (snapshot (claimed w.owner w.lease_for clock.claim c))
              (race_for w clock work rows c) r))
    × IsSound r.1

-- A round: it was stopped or its recovery raises, and the table is as before, or it goes on with the
-- table without expired leases.
abbrev pub IsOrderly :
    Worker
    → Clock
    → StoreFaults
    → (stopped stopped_later : Bool) (work : Job → Jobs → Race × Jobs) → Jobs
    → Result Exn Bool × Jobs
    → Type 0
IsOrderly w clock faults stopped stopped_later work rows r =
    ((((stopped ≡ true) × (r.0 ≡ ok false))
        ⊎ ((e : Exn) × (faults.recovery ≡ some e) × (r.0 ≡ err e)))
      × (r.1 ≡ rows)
      × IsSound r.1)
    ⊎ IsClaimRound w clock faults stopped_later work (recovered_table w clock rows) r

-- What happens while a job is worked on keeps the table sound, and is over before the report.
abbrev pub IsHonest : Clock → (Job → Jobs → Race × Jobs) → Type 0
IsHonest clock work =
    (job : Job) (rows : Jobs)
    → IsSound rows
    → IsSound (work job rows).1 × IsPast clock.report (work job rows).1
