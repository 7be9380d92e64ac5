-- ===== src/Jobs/Rows.antt =====
-- The rows of graph_blizz.jobs, the CHECK constraints that the migrations put on them, and `_job`
-- of backend/jobs/repository.py, which maps a row to the validated entity.
-- A timestamptz column is an instant. A CHECK that evaluates to NULL passes, as in SQL.
pub mod Checks
use graph_blizz.Prelude.{
  ℕ, Bool, true, false, not, ◌&&◌, ◌||◌, Option, none, some, List, String, codes, map, length, all,
  is_some, is_none, holds, ltb, leb, ◌==◌, Result, ok, err,
}
use mathlib.Core.Option
use graph_blizz.Jobs.Models.{
  JobStatus, pending, JobType, JobErrorCode, Job, JobFault, Timestamp, is_pending, is_running,
  is_retry, is_started, is_terminal, may_have_error, xor_bool, or_else, post_init,
}

pub record JobRow : Type 0 where
  pub id : ℕ
  pub document_id : ℕ
  pub document_revision : ℕ
  pub job_type : JobType
  pub status : JobStatus
  pub attempts : ℕ
  pub max_attempts : ℕ
  pub available_at : ℕ
  pub created_at : ℕ
  pub updated_at : ℕ
  pub lease_owner : Option String
  pub lease_expires_at : Option ℕ
  pub heartbeat_at : Option ℕ
  pub started_at : Option ℕ
  pub finished_at : Option ℕ
  pub error_code : Option JobErrorCode
  pub error_detail : Option String

-- A test of a nullable column that is not refuted by NULL.
abbrev pub unless_null {ℓ} : {A : Type ℓ} → Option A → (A → Bool) → Bool
unless_null none p = true
unless_null (some a) p = p a

-- `btrim(s) <> ''`: some character is not a space.
unfoldable pub is_blank : String → Bool
is_blank s = all (λ c. c == 32) (codes s)

abbrev pub revision_positive : JobRow → Bool
revision_positive r = ltb 0 r.document_revision

abbrev pub attempts_in_range : JobRow → Bool
attempts_in_range r = ltb 0 r.max_attempts && leb r.attempts r.max_attempts

abbrev pub timestamp_order : JobRow → Bool
timestamp_order r = leb r.created_at r.updated_at && leb r.created_at r.available_at

abbrev pub pending_attempts : JobRow → Bool
pending_attempts r = not (is_pending r.status) || r.attempts == 0

abbrev pub started : JobRow → Bool
started r = not (is_started r.status) || ltb 0 r.attempts && is_some r.started_at

abbrev pub started_order : JobRow → Bool
started_order r = unless_null r.started_at (leb r.created_at)

abbrev pub attempts_started_pair : JobRow → Bool
attempts_started_pair r = not (xor_bool (r.attempts == 0) (is_none r.started_at))

abbrev pub lease : JobRow → Bool
lease r =
    is_running r.status
      && ltb 0 r.attempts
      && holds r.lease_owner (λ o. not (is_blank o))
      && is_some r.started_at
      && holds r.lease_expires_at (λ e. holds r.heartbeat_at (λ h. ltb h e))
    || not (is_running r.status)
      && is_none r.lease_owner
      && is_none r.lease_expires_at
      && is_none r.heartbeat_at

abbrev pub heartbeat_order : JobRow → Bool
heartbeat_order r = unless_null r.heartbeat_at (λ h. unless_null r.started_at (λ s. leb s h))

abbrev pub updated_order : JobRow → Bool
updated_order r =
    leb (or_else r.started_at r.created_at) r.updated_at
    && leb (or_else r.heartbeat_at r.created_at) r.updated_at

abbrev pub finished : JobRow → Bool
finished r = not (xor_bool (is_terminal r.status) (is_some r.finished_at))

abbrev pub finished_order : JobRow → Bool
finished_order r = unless_null r.finished_at (leb (or_else r.started_at r.created_at))

abbrev pub updated_after_finished : JobRow → Bool
updated_after_finished r = unless_null r.finished_at (λ f. leb f r.updated_at)

abbrev pub retry_attempts : JobRow → Bool
retry_attempts r = not (is_retry r.status) || ltb r.attempts r.max_attempts

abbrev pub error_code_allowed : JobRow → Bool
error_code_allowed r = is_none r.error_code || may_have_error r.status

abbrev pub error_detail_absent : JobRow → Bool
error_detail_absent r = is_none r.error_detail

-- The CHECK constraints of the jobs table and the length of its `lease_owner` column.
unfoldable pub row_checks : JobRow → Bool
row_checks r =
    revision_positive r
    && attempts_in_range r
    && timestamp_order r
    && pending_attempts r
    && started r
    && started_order r
    && attempts_started_pair r
    && lease r
    && heartbeat_order r
    && updated_order r
    && finished r
    && finished_order r
    && updated_after_finished r
    && retry_attempts r
    && error_code_allowed r
    && error_detail_absent r
    && unless_null r.lease_owner (λ o. leb (length (codes o)) 128)

abbrev pub utc : ℕ → Timestamp
utc t = record { instant = t; aware = true }

abbrev pub snapshot : JobRow → Job
snapshot r = record {
  id = r.id;
  document_id = r.document_id;
  document_revision = r.document_revision;
  type = r.job_type;
  status = r.status;
  attempts = r.attempts;
  max_attempts = r.max_attempts;
  available_at = utc r.available_at;
  created_at = utc r.created_at;
  updated_at = utc r.updated_at;
  lease_owner = r.lease_owner;
  lease_expires_at = Option.map utc r.lease_expires_at;
  heartbeat_at = Option.map utc r.heartbeat_at;
  started_at = Option.map utc r.started_at;
  finished_at = Option.map utc r.finished_at;
  error_code = r.error_code;
  error_detail = r.error_detail;
}

-- `_job` at a row that the statement returned.
unfoldable pub job_of_row : JobRow → Result JobFault Job
job_of_row r = post_init (snapshot r)
