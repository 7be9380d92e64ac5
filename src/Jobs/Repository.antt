-- ===== src/Jobs/Repository.antt =====
-- backend/jobs/repository.py: each statement on graph_blizz.jobs as a function of the table.
-- `now` is the transaction's timestamp. A statement whose result breaks a constraint of the table
-- raises, and the table that it leaves is not read again: the transaction is rolled back.
pub mod Soundness
pub mod Changes
pub mod Order
pub mod Claim
pub mod Lease
pub mod Fencing
pub mod Steps
pub mod Completions
pub mod History
use graph_blizz.Prelude.{
  ℕ, ◌+◌, Bool, true, not, ◌&&◌, ◌||◌, Option, none, some, List, [], ◌∷◌, ◌++◌, String, ℤ,
  is_negative, is_positive, shift, holds, any, all, filter, map, update_where, first_by, ltb, leb,
  ◌==◌, str_eq, if◌then◌else◌, Result, ok, err, ◌>>=◌,
}
use graph_blizz.Errors.{Exn, value_error, integrity_error, lift_fault}
use graph_blizz.Jobs.Models.{
  pending, running, retry, succeeded, failed, JobType, index_document, delete_document,
  JobErrorCode, dependency_unavailable, attempts_exhausted, Job, is_active, is_pending, is_retry,
  is_running, is_malformed_owner,
}
use graph_blizz.Jobs.Rows.{JobRow, row_checks, job_of_row}

abbrev pub Jobs : Type 0
Jobs = List JobRow

-- The partial unique index on the document of an active job: the row has no rival in the list.
unfoldable pub no_rival : JobRow → Jobs → Bool
no_rival r rows =
    not (is_active r.status && any (λ q. is_active q.status && q.document_id == r.document_id) rows)

unfoldable pub unique_active : Jobs → Bool
unfolding no_rival
unique_active [] = true
unique_active (r ∷ rows) = no_rival r rows && unique_active rows

unfoldable pub unique_ids : Jobs → Bool
unique_ids [] = true
unique_ids (r ∷ rows) = not (any (λ q. q.id == r.id) rows) && unique_ids rows

-- Every constraint of the table but the foreign key.
unfoldable pub table_checks : Jobs → Bool
table_checks rows = all row_checks rows && unique_active rows && unique_ids rows

-- What a statement leaves and returns, if the constraints hold of it.
unfoldable pub checked : {A : Type 0} → A → Jobs → Result Exn (Jobs × A)
checked returned rows = if table_checks rows then ok (rows, returned) else err integrity_error

-- `UPDATE … WHERE … RETURNING`
unfoldable pub update_returning :
    (JobRow → Bool) → (JobRow → JobRow) → Jobs → Result Exn (Jobs × Jobs)
update_returning test change rows =
    checked (map change (filter test rows)) (update_where test change rows)

-- `fetchone` and `_job`
unfoldable pub fetch_job : Jobs → Result Exn (Option Job)
fetch_job [] = ok none
fetch_job (r ∷ rows) = do job ← lift_fault (job_of_row r); ok (some job)

unfoldable pub fetch_jobs : Jobs → Result Exn (List Job)
fetch_jobs [] = ok []
fetch_jobs (r ∷ rows) = do job ← lift_fault (job_of_row r); jobs ← fetch_jobs rows; ok (job ∷ jobs)

-- An UPDATE of which one returned row is read.
unfoldable pub update_one :
    (JobRow → Bool) → (JobRow → JobRow) → Jobs → Result Exn (Jobs × Option Job)
update_one test change rows = do
  (rows', returned) ← update_returning test change rows
  job ← fetch_job returned
  ok (rows', job)

unfoldable pub validate_lease : String → ℤ → Result Exn (Unit {0})
validate_lease owner lease_for =
    if is_malformed_owner owner
    then err value_error
    else if not (is_positive lease_for)
    then err value_error
    else ok tt

-- A new row, with the defaults of the columns.
abbrev pub new_row : ℕ → ℕ → ℕ → JobType → ℕ → ℕ → JobRow
new_row id document_id document_revision job_type max_attempts now = record {
  id = id;
  document_id = document_id;
  document_revision = document_revision;
  job_type = job_type;
  status = pending;
  attempts = 0;
  max_attempts = max_attempts;
  available_at = now;
  created_at = now;
  updated_at = now;
  lease_owner = none;
  lease_expires_at = none;
  heartbeat_at = none;
  started_at = none;
  finished_at = none;
  error_code = none;
  error_detail = none;
}

-- `INSERT … RETURNING`: `has_revision` answers for the foreign key, `id` is the generated UUID.
unfoldable pub insert_job : (has_revision : ℕ → ℕ → Bool) → JobRow → Jobs → Result Exn (Jobs × Job)
insert_job has_revision r rows =
    if not (has_revision r.document_id r.document_revision) then err integrity_error else do
      (rows', _) ← checked tt (rows ++ r ∷ [])
      job ← lift_fault (job_of_row r)
      ok (rows', job)

unfoldable pub create_indexing :
    (has_revision : ℕ → ℕ → Bool) (id now document_id document_revision max_attempts : ℕ)
    → Jobs
    → Result Exn (Jobs × Job)
unfolding insert_job
create_indexing has_revision id now document_id document_revision max_attempts =
    insert_job has_revision
      (new_row id document_id document_revision index_document max_attempts now)

unfoldable pub create_deletion :
    (has_revision : ℕ → ℕ → Bool) (id now document_id document_revision max_attempts : ℕ)
    → Jobs
    → Result Exn (Jobs × Job)
unfolding insert_job
create_deletion has_revision id now document_id document_revision max_attempts =
    insert_job has_revision
      (new_row id document_id document_revision delete_document max_attempts now)

unfoldable pub get : ℕ → Jobs → Result Exn (Option Job)
get job_id rows = fetch_job (filter (λ r. r.id == job_id) rows)

unfoldable pub get_active_for_document : ℕ → Jobs → Result Exn (Option Job)
get_active_for_document document_id rows =
    fetch_job (filter (λ r. r.document_id == document_id && is_active r.status) rows)

-- The WHERE clause of `claim_next`; `locked` are the rows that other transactions hold.
unfoldable pub is_claimable : (locked : ℕ → Bool) (now : ℕ) → JobRow → Bool
is_claimable locked now r =
    (is_pending r.status || is_retry r.status)
    && leb r.available_at now
    && ltb r.attempts r.max_attempts
    && not (locked r.id)

-- `ORDER BY available_at, created_at, id`
unfoldable pub is_earlier : JobRow → JobRow → Bool
is_earlier a b =
    ltb a.available_at b.available_at
    || a.available_at == b.available_at
      && (ltb a.created_at b.created_at || a.created_at == b.created_at && ltb a.id b.id)

unfoldable pub candidate : (locked : ℕ → Bool) (now : ℕ) → Jobs → Option JobRow
candidate locked now rows = first_by is_earlier (filter (is_claimable locked now) rows)

unfoldable pub claimed : String → ℤ → ℕ → JobRow → JobRow
claimed owner lease_for now r = record r {
  status = running;
  attempts = r.attempts + 1;
  lease_owner = some owner;
  heartbeat_at = some now;
  lease_expires_at = some (shift now lease_for);
  started_at = elim r.started_at [ none ↦ some now | some t ↦ some t ];
  updated_at = now;
  error_code = none;
  error_detail = none;
}

unfoldable pub claim_next :
    (locked : ℕ → Bool) (now : ℕ) (owner : String) (lease_for : ℤ)
    → Jobs
    → Result Exn (Jobs × Option Job)
claim_next locked now owner lease_for rows = do
  _ ← validate_lease owner lease_for
  elim (candidate locked now rows) [
    | none ↦ ok (rows, none)
    | some c ↦ update_one (λ r. r.id == c.id) (claimed owner lease_for now) rows
  ]

-- The fence of a lease: the owner, the attempt, and a lease that has not expired.
unfoldable pub is_owned : (job_id : ℕ) (owner : String) (attempt now : ℕ) → JobRow → Bool
is_owned job_id owner attempt now r =
    r.id == job_id
    && is_running r.status
    && holds r.lease_owner (λ o. str_eq o owner)
    && r.attempts == attempt
    && holds r.lease_expires_at (λ e. ltb now e)

abbrev pub update_owned :
    (job_id : ℕ) (owner : String) (attempt now : ℕ) (change : JobRow → JobRow)
    → Jobs
    → Result Exn (Jobs × Option Job)
update_owned job_id owner attempt now = update_one (is_owned job_id owner attempt now)

unfoldable pub renewed : ℤ → ℕ → JobRow → JobRow
renewed lease_for now r = record r {
  heartbeat_at = some now;
  lease_expires_at = some (shift now lease_for);
  updated_at = now;
}

unfoldable pub heartbeat :
    (job_id : ℕ) (owner : String) (attempt now : ℕ) (lease_for : ℤ)
    → Jobs
    → Result Exn (Jobs × Option Job)
heartbeat job_id owner attempt now lease_for rows = do
  _ ← validate_lease owner lease_for
  update_owned job_id owner attempt now (renewed lease_for now) rows

unfoldable pub completed : ℕ → JobRow → JobRow
completed now r = record r {
  status = succeeded;
  lease_owner = none;
  lease_expires_at = none;
  heartbeat_at = none;
  finished_at = some now;
  updated_at = now;
}

unfoldable pub succeed :
    (job_id : ℕ) (owner : String) (attempt now : ℕ) → Jobs → Result Exn (Jobs × Option Job)
succeed job_id owner attempt now = update_owned job_id owner attempt now (completed now)

-- The SET clause that `fail` and `recover_expired` share: another attempt later, or the end.
unfoldable pub released : JobErrorCode → ℤ → ℕ → JobRow → JobRow
released error_code retry_after now r =
    let again = ltb r.attempts r.max_attempts in
    record r {
      status = if again then retry else failed;
      available_at = if again then shift now retry_after else r.available_at;
      lease_owner = none;
      lease_expires_at = none;
      heartbeat_at = none;
      finished_at = if again then none else some now;
      error_code = if again then some error_code else some attempts_exhausted;
      error_detail = none;
      updated_at = now;
    }

unfoldable pub fail :
    (job_id : ℕ) (owner : String) (attempt now : ℕ) (error_code : JobErrorCode) (retry_after : ℤ)
    → Jobs
    → Result Exn (Jobs × Option Job)
fail job_id owner attempt now error_code retry_after rows =
    if is_negative retry_after
    then err value_error
    else update_owned job_id owner attempt now (released error_code retry_after now) rows

unfoldable pub is_expired : ℕ → JobRow → Bool
is_expired now r = is_running r.status && holds r.lease_expires_at (λ e. leb e now)

unfoldable pub recover_expired : (now : ℕ) (retry_after : ℤ) → Jobs → Result Exn (Jobs × List Job)
recover_expired now retry_after rows = if is_negative retry_after then err value_error else do
  (rows', returned) ←
      update_returning (is_expired now) (released dependency_unavailable retry_after now) rows
  jobs ← fetch_jobs returned
  ok (rows', jobs)
