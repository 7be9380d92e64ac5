-- ===== src/Jobs/Repository/Lease.antt =====
-- The calls under a lease (`heartbeat`, `succeed`, `fail`) and the recovery of expired leases.
use graph_blizz.Prelude.{
  ℕ, ◌≤◌, ◌≡◌, refl, true, false, none, arith, String, ℤ, is_positive, is_negative, All, filter,
  map, update_where, update_where_none, All-update_where, ok, Option, All-of_mem, Result,
}
use graph_blizz.Errors.{Exn}
use graph_blizz.Jobs.Models.{Job, JobErrorCode, is_malformed_owner, dependency_unavailable}
use graph_blizz.Jobs.Rows.{JobRow, snapshot}
use graph_blizz.Jobs.Repository.{
  Jobs, is_owned, update_one, renewed, heartbeat, completed, succeed, released, fail, is_expired,
  recover_expired,
}
use graph_blizz.Jobs.Repository.Soundness.{
  IsSound, IsSoundRow, Keeps, head_job, update_where-IsSound, update_returning_lem, update_one_lem,
  returned_sound, fetch_jobs_sound,
}
use graph_blizz.Jobs.Repository.Changes.{
  renewed-Keeps, completed-Keeps, released-Keeps, recovered-Keeps,
}
use graph_blizz.Jobs.Repository.Claim.{validate_lease-ok}

-- A call that a worker makes under its lease, with arguments that the code accepts.
pub data LeaseCall : Type 0 where
  beats : (lease_for : ℤ) → is_positive lease_for ≡ true → LeaseCall
  succeeds : LeaseCall
  fails : JobErrorCode → (retry_after : ℤ) → is_negative retry_after ≡ false → LeaseCall

abbrev pub lease_call :
    LeaseCall
    → (job_id : ℕ) (owner : String) (attempt now : ℕ) → Jobs
    → Result Exn (Jobs × Option Job)
lease_call (beats lease_for _) job_id owner attempt now =
    heartbeat job_id owner attempt now lease_for
lease_call succeeds job_id owner attempt now = succeed job_id owner attempt now
lease_call (fails error_code retry_after _) job_id owner attempt now =
    fail job_id owner attempt now error_code retry_after

abbrev pub call_change : LeaseCall → ℕ → JobRow → JobRow
call_change (beats lease_for _) now = renewed lease_for now
call_change succeeds now = completed now
call_change (fails error_code retry_after _) now = released error_code retry_after now

-- No row was changed after the transaction began.
abbrev pub IsPast : ℕ → Jobs → Type 0
IsPast now = All (λ r. r.updated_at ≤ now)

lease_call-update :
    (call : LeaseCall) (job_id : ℕ) (owner : String) (attempt now : ℕ) (rows : Jobs)
    → is_malformed_owner owner ≡ false
    → lease_call call job_id owner attempt now rows
      ≡ update_one (is_owned job_id owner attempt now) (call_change call now) rows
unfolding heartbeat succeed fail
lease_call-update (beats lease_for lasting) job_id owner attempt now rows good =
    rw (validate_lease-ok owner lease_for good lasting) refl
lease_call-update succeeds job_id owner attempt now rows good = refl
lease_call-update (fails error_code retry_after later) job_id owner attempt now rows good =
    rw later refl

call-Keeps :
    (call : LeaseCall) (job_id : ℕ) (owner : String) (attempt now : ℕ) (r : JobRow)
    → IsSoundRow r
    → r.updated_at ≤ now
    → is_owned job_id owner attempt now r ≡ true
    → Keeps r (call_change call now r)
call-Keeps (beats lease_for lasting) job_id owner attempt now r =
    renewed-Keeps job_id owner attempt now lease_for lasting r
call-Keeps succeeds job_id owner attempt now r = completed-Keeps job_id owner attempt now r
call-Keeps (fails error_code retry_after later) job_id owner attempt now r =
    released-Keeps job_id owner attempt now error_code retry_after later r

-- On a sound table that was not changed after the transaction began, a heartbeat with a positive lease,
-- a success, and a failure report with a delay that is not negative, each with an owner that the checks
-- accept, return. They change the rows that the caller's live lease covers and no others,
-- return such a row as it is after the change, and leave a sound table.
pub lease_call_lem :
    (call : LeaseCall) (job_id : ℕ) (owner : String) (attempt now : ℕ) (rows : Jobs)
    → is_malformed_owner owner ≡ false
    → IsSound rows
    → IsPast now rows
    → (lease_call call job_id owner attempt now rows
        ≡ ok (
          update_where (is_owned job_id owner attempt now) (call_change call now) rows,
          head_job (map (call_change call now) (filter (is_owned job_id owner attempt now) rows)),
        ))
      × IsSound (update_where (is_owned job_id owner attempt now) (call_change call now) rows)
lease_call_lem call job_id owner attempt now rows good s past =
    let keeps = call-Keeps call job_id owner attempt now in
    (
      rw (lease_call-update call job_id owner attempt now rows good)
          (update_one_lem (λ r. r.updated_at ≤ now) _ _ keeps rows s past),
      update_where-IsSound (λ r. r.updated_at ≤ now) _ _ keeps rows s past,
    )

-- A call that no row admits changes nothing.
pub lease_call-fenced :
    (call : LeaseCall) (job_id : ℕ) (owner : String) (attempt now : ℕ) (rows : Jobs)
    → is_malformed_owner owner ≡ false
    → IsSound rows
    → All (λ r. is_owned job_id owner attempt now r ≡ false) rows
    → lease_call call job_id owner attempt now rows ≡ ok (rows, none)
lease_call-fenced call job_id owner attempt now rows good s fence =
    let (same, nothing) =
      update_where_none (is_owned job_id owner attempt now) (call_change call now) rows fence in
    rw (lease_call-update call job_id owner attempt now rows good) (
      rw
        (update_one_lem (λ r. is_owned job_id owner attempt now r ≡ false)
          (is_owned job_id owner attempt now) (call_change call now) (λ r t f o. absurd (cc f)) rows
          s fence)
        (rw (same, nothing) refl))

module _ (now : ℕ) (retry_after : ℤ) (later : is_negative retry_after ≡ false) where
  recovered_row-Keeps :
      (r : JobRow)
      → IsSoundRow r
      → Unit {0}
      → is_expired now r ≡ true
      → Keeps r (released dependency_unavailable retry_after now r)
  recovered_row-Keeps r s u e = recovered-Keeps now dependency_unavailable retry_after later r s e

  -- On a sound table, whatever the clock says, `recover_expired` with a delay that is not negative
  -- returns the released jobs and leaves a sound table without an expired lease.
  pub recover_expired_lem :
      (rows : Jobs)
      → IsSound rows
      → let change = released dependency_unavailable retry_after now in
        let rows' = update_where (is_expired now) change rows in
        (recover_expired now retry_after rows
          ≡ ok (rows', map snapshot (map change (filter (is_expired now) rows))))
        × IsSound rows'
        × All (λ r. is_expired now r ≡ false) rows'
  unfolding recover_expired
  recover_expired_lem rows s =
      let any_row = All-of_mem (λ (r : JobRow). Unit {0}) rows (λ r m. tt) in
      (
        rw (later, update_returning_lem (λ r. Unit {0}) _ _ recovered_row-Keeps rows s any_row)
            (rw
              (fetch_jobs_sound _
                (returned_sound (λ r. Unit {0}) _ _ recovered_row-Keeps rows s any_row))
              refl),
        update_where-IsSound (λ r. Unit {0}) _ _ recovered_row-Keeps rows s any_row,
        All-update_where (λ r. is_expired now r ≡ false) _ _ rows
            (λ r m e. unfold is_expired released in ground arith) (λ r m e. e),
      )
