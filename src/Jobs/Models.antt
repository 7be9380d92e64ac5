-- ===== src/Jobs/Models.antt =====
-- backend/jobs/models.py: the lifecycle of a job and the snapshot that its constructor validates.
-- A datetime is the instant that it names and whether it carries a time zone; identifiers are the
-- integers of their UUIDs.
use graph_blizz.Prelude.{
  ℕ, Bool, true, false, not, ◌&&◌, ◌||◌, Option, none, some, List, [], ◌∷◌, String, codes, strip,
  length, is_empty, is_some, is_none, holds, ltb, leb, ◌==◌, if◌then◌else◌, Result, ok, err,
}

pub data JobStatus : Type 0 where
  pending running retry succeeded failed cancelled : JobStatus

pub data JobType : Type 0 where
  index_document delete_document reindex_document : JobType

pub data JobErrorCode : Type 0 where
  indexing_failed dependency_unavailable attempts_exhausted internal_error : JobErrorCode

pub JobStatus-discrete : Discrete JobStatus
JobStatus-discrete = hlevel

-- ACTIVE_JOB_STATUSES
abbrev pub is_active : JobStatus → Bool
is_active pending = true
is_active running = true
is_active retry = true
is_active _ = false

-- TERMINAL_JOB_STATUSES
abbrev pub is_terminal : JobStatus → Bool
is_terminal succeeded = true
is_terminal failed = true
is_terminal cancelled = true
is_terminal _ = false

abbrev pub is_running : JobStatus → Bool
is_running running = true
is_running _ = false

-- Membership of the target in `_TRANSITIONS[current]`.
abbrev pub in_transitions : JobStatus → JobStatus → Bool
in_transitions pending running = true
in_transitions pending cancelled = true
in_transitions running retry = true
in_transitions running succeeded = true
in_transitions running failed = true
in_transitions running cancelled = true
in_transitions retry running = true
in_transitions retry cancelled = true
in_transitions _ _ = false

-- The ValueErrors of the module, one for each message.
pub data JobFault : Type 0 where
  naive_timestamp revision_not_positive attempts_out_of_range before_created : JobFault
  attempts_without_start pending_with_attempts started_without_attempt : JobFault
  started_before_created updated_before_started lease_missing owner_malformed : JobFault
  lease_not_after_heartbeat heartbeat_before_started updated_before_heartbeat : JobFault
  lease_not_running terminal_without_finish active_with_finish retry_without_attempt : JobFault
  error_not_allowed raw_error_detail finished_before_execution updated_before_finished : JobFault
  invalid_transition : JobFault

unfoldable pub validate_transition : JobStatus → JobStatus → Result JobFault (Unit {0})
validate_transition current target =
    if not (in_transitions current target) then err invalid_transition else ok tt

pub record Timestamp : Type 0 where
  pub instant : ℕ
  pub aware : Bool

pub record Job : Type 0 where
  pub id : ℕ
  pub document_id : ℕ
  pub document_revision : ℕ
  pub type : JobType
  pub status : JobStatus
  pub attempts : ℕ
  pub max_attempts : ℕ
  pub available_at : Timestamp
  pub created_at : Timestamp
  pub updated_at : Timestamp
  pub lease_owner : Option String
  pub lease_expires_at : Option Timestamp
  pub heartbeat_at : Option Timestamp
  pub started_at : Option Timestamp
  pub finished_at : Option Timestamp
  pub error_code : Option JobErrorCode
  pub error_detail : Option String

abbrev pub before : Timestamp → Timestamp → Bool
before a b = ltb a.instant b.instant

-- `not owner.strip() or len(owner) > 128`
unfoldable pub is_malformed_owner : String → Bool
is_malformed_owner owner = is_empty (strip (codes owner)) || ltb 128 (length (codes owner))

abbrev pub is_naive : Timestamp → Bool
is_naive t = not t.aware

-- The statuses that a job reaches only by an attempt.
abbrev pub is_started : JobStatus → Bool
is_started running = true
is_started retry = true
is_started succeeded = true
is_started failed = true
is_started _ = false

abbrev pub is_pending : JobStatus → Bool
is_pending pending = true
is_pending _ = false

abbrev pub is_retry : JobStatus → Bool
is_retry retry = true
is_retry _ = false

abbrev pub may_have_error : JobStatus → Bool
may_have_error retry = true
may_have_error failed = true
may_have_error _ = false

abbrev pub xor_bool : Bool → Bool → Bool
xor_bool true b = not b
xor_bool false b = b

abbrev pub or_else {ℓ} : {A : Type ℓ} → Option A → A → A
or_else none d = d
or_else (some a) d = a

-- The first guard whose test passes raises its fault.
unfoldable pub first_fault : List (Bool × JobFault) → Option JobFault
first_fault [] = none
first_fault ((test, fault) ∷ guards) =
    let rest = first_fault guards in if test then some fault else rest

-- The guards on counters and on the start of a job, in the order of `__post_init__`.
unfoldable pub count_guards : Job → List (Bool × JobFault)
count_guards j =
    (
      is_naive j.available_at
          || is_naive j.created_at
          || is_naive j.updated_at
          || holds j.lease_expires_at is_naive
          || holds j.heartbeat_at is_naive
          || holds j.started_at is_naive
          || holds j.finished_at is_naive,
      naive_timestamp,
    )
    ∷ (leb j.document_revision 0, revision_not_positive)
    ∷ (leb j.max_attempts 0 || not (leb j.attempts j.max_attempts), attempts_out_of_range)
    ∷ (before j.updated_at j.created_at || before j.available_at j.created_at, before_created)
    ∷ (xor_bool (j.attempts == 0) (is_none j.started_at), attempts_without_start)
    ∷ (is_pending j.status && not (j.attempts == 0), pending_with_attempts)
    ∷ (is_started j.status && (j.attempts == 0 || is_none j.started_at), started_without_attempt)
    ∷ (holds j.started_at (λ s. before s j.created_at), started_before_created)
    ∷ (holds j.started_at (λ s. before j.updated_at s), updated_before_started)
    ∷ []

-- The guards on the lease: of a running job, and of any other.
unfoldable pub lease_guards : Job → List (Bool × JobFault)
unfolding is_malformed_owner
lease_guards j =
    (
      is_running j.status
          && (is_none j.lease_owner
              || is_none j.lease_expires_at
              || is_none j.heartbeat_at
              || is_none j.started_at),
      lease_missing,
    )
    ∷ (is_running j.status && holds j.lease_owner is_malformed_owner, owner_malformed)
    ∷ (
      is_running j.status
          && holds j.lease_expires_at (λ e. holds j.heartbeat_at (λ h. leb e.instant h.instant)),
      lease_not_after_heartbeat,
    )
    ∷ (
      is_running j.status && holds j.heartbeat_at (λ h. holds j.started_at (λ s. before h s)),
      heartbeat_before_started,
    )
    ∷ (
      is_running j.status && holds j.heartbeat_at (λ h. before j.updated_at h),
      updated_before_heartbeat,
    )
    ∷ (
      not (is_running j.status)
          && (is_some j.lease_owner || is_some j.lease_expires_at || is_some j.heartbeat_at),
      lease_not_running,
    )
    ∷ []

-- The guards on the end of a job and on its error metadata.
unfoldable pub finish_guards : Job → List (Bool × JobFault)
finish_guards j =
    (is_terminal j.status && is_none j.finished_at, terminal_without_finish)
    ∷ (not (is_terminal j.status) && is_some j.finished_at, active_with_finish)
    ∷ (is_retry j.status && leb j.max_attempts j.attempts, retry_without_attempt)
    ∷ (not (may_have_error j.status) && is_some j.error_code, error_not_allowed)
    ∷ (is_some j.error_detail, raw_error_detail)
    ∷ (
      holds j.finished_at (λ f. before f (or_else j.started_at j.created_at)),
      finished_before_execution,
    )
    ∷ (holds j.finished_at (λ f. before j.updated_at f), updated_before_finished)
    ∷ []

-- `__post_init__`: the constructor returns the job, or raises the first fault.
unfoldable pub post_init : Job → Result JobFault Job
unfolding first_fault
post_init j = elim (first_fault (count_guards j)) [
  | some fault ↦ err fault
  | none ↦ elim (first_fault (lease_guards j)) [
    | some fault ↦ err fault
    | none ↦ elim (first_fault (finish_guards j)) [ some fault ↦ err fault | none ↦ ok j ]
  ]
]

-- `transitioned`: the keyword changes are the function that `replace` applies.
unfoldable pub transitioned : Job → JobStatus → (Job → Job) → Result JobFault Job
unfolding validate_transition post_init
transitioned j status changes = elim (validate_transition j.status status) [
  | err fault ↦ err fault
  | ok _ ↦ post_init (changes (record j { status = status }))
]
