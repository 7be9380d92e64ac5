-- ===== src/Worker/Runner.antt =====
-- backend/worker/runner.py: one round of a worker over the table of jobs, each store call of which is
-- a committed transaction. Durations are integers of microseconds. What happens to the table between
-- the claim and the end of the race of processing and heartbeat, by this worker or by others, and how
-- the race ends, is the argument `work`. Each call of the store may raise, as `StoreFaults` says.
pub mod Round
use graph_blizz.Prelude.{
  ℕ, Bool, true, false, not, ◌||◌, Option, none, some, String, ℤ, pos, negsuc, is_positive, ltb,
  leb, if◌then◌else◌, Result, ok, err,
}
use graph_blizz.Errors.{
  Exn, value_error, connection_error, timeout_error, cancelled_error, object_storage_error,
  object_not_found, embedding_error, llm_error,
}
use graph_blizz.Jobs.Models.{
  Job, JobErrorCode, dependency_unavailable, indexing_failed, is_malformed_owner,
}
use graph_blizz.Jobs.Repository.{Jobs, recover_expired, claim_next, fail, succeed}

pub record Worker : Type 0 where
  pub owner : String
  pub lease_for : ℤ
  pub heartbeat_every : ℤ
  pub retry_after : ℤ
  pub poll_every : ℤ

-- `a < b` for durations.
abbrev pub is_shorter : ℤ → ℤ → Bool
is_shorter (pos a) (pos b) = ltb a b
is_shorter (pos a) (negsuc b) = false
is_shorter (negsuc a) (pos b) = true
is_shorter (negsuc a) (negsuc b) = ltb b a

-- `__init__`
unfoldable pub worker : Worker → Result Exn Worker
worker w =
    if is_malformed_owner w.owner
    then err value_error
    else if not (is_positive w.heartbeat_every) || not (is_shorter w.heartbeat_every w.lease_for)
    then err value_error
    else if not (is_positive w.poll_every)
    then err value_error
    else ok w

abbrev pub classify_error : Exn → JobErrorCode
classify_error embedding_error = dependency_unavailable
classify_error llm_error = dependency_unavailable
classify_error object_storage_error = dependency_unavailable
classify_error object_not_found = dependency_unavailable
classify_error connection_error = dependency_unavailable
classify_error timeout_error = dependency_unavailable
classify_error e = indexing_failed

-- `asyncio.CancelledError` is no `Exception`: it ends the round, whoever raises it.
abbrev pub is_cancellation : Exn → Bool
is_cancellation cancelled_error = true
is_cancellation e = false

-- How processing and heartbeat end: processing first, with or without an exception of its own, or
-- the heartbeat, which only ends with one, or the cancellation of the round.
pub data Race : Type 0 where
  finished lease_lost cancelled : Race
  raised : Exn → Race

-- The instants of the transactions of a round, and the rows that others hold at the claim.
pub record Clock : Type 0 where
  pub recovery : ℕ
  pub claim : ℕ
  pub report : ℕ
  pub locked : ℕ → Bool

-- What the calls of the store raise, if they do: each opens a connection of its own, and a call that
-- raises has changed nothing.
pub record StoreFaults : Type 0 where
  pub recovery : Option Exn
  pub claim : Option Exn
  pub report : Option Exn

-- A call of PostgreSQLJobStore: the statement in its own transaction.
abbrev pub stored : {A : Type 0} → Option Exn → Result Exn A → Result Exn A
stored none result = result
stored (some e) result = err e

-- A committed call of the store whose job is not used.
abbrev pub report : Jobs → Result Exn (Jobs × Option Job) → Result Exn Bool × Jobs
report rows (err e) = (err e, rows)
report rows (ok r) = (ok true, r.0)

unfoldable pub end_round : Worker → Clock → StoreFaults → Job → Race × Jobs → Result Exn Bool × Jobs
end_round w clock faults job (finished, rows) =
    report rows (stored faults.report (succeed job.id w.owner job.attempts clock.report rows))
end_round w clock faults job (raised e, rows) =
    if is_cancellation e
    then (err cancelled_error, rows)
    else report rows (
        stored faults.report
          (fail job.id w.owner job.attempts clock.report (classify_error e) w.retry_after rows))
end_round w clock faults job (lease_lost, rows) = (ok true, rows)
end_round w clock faults job (cancelled, rows) = (err cancelled_error, rows)

unfoldable pub work_round :
    Worker
    → Clock
    → StoreFaults
    → (work : Job → Jobs → Race × Jobs) → Jobs
    → Result Exn (Jobs × Option Job)
    → Result Exn Bool × Jobs
work_round w clock faults work rows (err e) = (err e, rows)
work_round w clock faults work rows (ok (rows', none)) = (ok false, rows')
work_round w clock faults work rows (ok (rows', some job)) =
    end_round w clock faults job (work job rows')

unfoldable pub claim_round :
    Worker
    → Clock
    → StoreFaults
    → (stopped : Bool) → (work : Job → Jobs → Race × Jobs) → Jobs
    → Result Exn Bool × Jobs
claim_round w clock faults true work rows = (ok false, rows)
claim_round w clock faults false work rows =
    work_round w clock faults work rows
      (stored faults.claim (claim_next clock.locked clock.claim w.owner w.lease_for rows))

abbrev pub recovered_round :
    {A : Type 0}
    → (Jobs → Result Exn Bool × Jobs)
    → Jobs
    → Result Exn (Jobs × A)
    → Result Exn Bool × Jobs
recovered_round next rows (err e) = (err e, rows)
recovered_round next rows (ok r) = next r.0

-- `stop.is_set()` is asked before the recovery and again before the claim.
unfoldable pub run_once :
    Worker
    → Clock
    → StoreFaults
    → (stopped stopped_later : Bool) → (work : Job → Jobs → Race × Jobs) → Jobs
    → Result Exn Bool × Jobs
run_once w clock faults true stopped_later work rows = (ok false, rows)
run_once w clock faults false stopped_later work rows =
    recovered_round (claim_round w clock faults stopped_later work) rows
      (stored faults.recovery (recover_expired clock.recovery w.retry_after rows))
