-- ===== src/Jobs/Tests.antt =====
-- Runs of the jobs modules on small tables, and the theorems at inputs that meet their hypotheses.
use graph_blizz.Prelude.{
  ℕ, ◌≡◌, refl, true, false, some, none, [], ◌∷◌, arith, pos, ok, All, Bool, filter, ◌↔◌,
  update_where, any, all, first_by, map, strip,
}
use graph_blizz.Jobs.Models.{
  index_document, delete_document, running, retry, post_init, is_malformed_owner,
  dependency_unavailable, count_guards, lease_guards, finish_guards, first_fault,
}
use graph_blizz.Jobs.Rows.{JobRow, row_checks, is_blank, job_of_row, snapshot}
use graph_blizz.Jobs.Rows.Checks.{HasGoodOwner, row_checks-IsChecked, job_of_row-ok_iff}
use graph_blizz.Jobs.Repository.{
  Jobs, new_row, claim_next, claimed, is_claimable, is_earlier, candidate, update_one,
  update_returning, checked, table_checks, unique_active, unique_ids, no_rival, fetch_job,
  validate_lease, is_owned, completed, released, is_expired, recover_expired,
}
use graph_blizz.Jobs.Repository.Soundness.{IsSound, IsSoundRow, head_job}
use graph_blizz.Jobs.Repository.Claim.{ClaimOutcome, claim_next_lem}
use graph_blizz.Jobs.Repository.Lease.{succeeds, lease_call, lease_call_lem, recover_expired_lem}
use graph_blizz.Jobs.Repository.Fencing.{stale_attempt_fenced}
use graph_blizz.Jobs.Repository.Steps.{Step, claims, here, next, Follows, Extends}
use graph_blizz.Jobs.Repository.History.{Lasts, Step-Extends, Reach-Extends}

abbrev waiting : JobRow
waiting = new_row 1 7 1 index_document 3 10

abbrev leased : JobRow
leased = record (new_row 2 8 1 delete_document 3 5) {
  status = running;
  attempts = 1;
  updated_at = 6;
  lease_owner = some "w-1";
  lease_expires_at = some 36;
  heartbeat_at = some 6;
  started_at = some 6;
}

abbrev rows : Jobs
rows = waiting ∷ leased ∷ []

abbrev free : ℕ → Bool
free id = false

waiting_sound : IsSoundRow waiting
unfolding row_checks
waiting_sound = record { checks = row_checks-IsChecked waiting refl; owner = refl; timed = refl }

leased_sound : IsSoundRow leased
unfolding row_checks is_blank is_malformed_owner all strip
leased_sound = record { checks = row_checks-IsChecked leased refl; owner = refl; timed = refl }

rows-IsSound : IsSound rows
unfolding unique_active unique_ids any
rows-IsSound = record { each = (waiting_sound, (leased_sound, tt)); active = refl; ids = refl }

good_owner_2 : is_malformed_owner "w-2" ≡ false
unfolding is_malformed_owner strip
good_owner_2 = refl

claim_next_lem_example : ClaimOutcome free 20 "w-2" (pos 30) rows
claim_next_lem_example = claim_next_lem free 20 "w-2" (pos 30) good_owner_2 refl rows rows-IsSound

job_of_row-ok_iff_example :
    (job_of_row leased ≡ ok (snapshot leased)) ↔ ((row_checks leased ≡ true) × HasGoodOwner leased)
job_of_row-ok_iff_example = job_of_row-ok_iff leased

-- The table after the claim at time 20.
abbrev claimed_rows : Jobs
claimed_rows =
    record waiting {
      status = running;
      attempts = 1;
      lease_owner = some "w-2";
      heartbeat_at = some 20;
      lease_expires_at = some 50;
      started_at = some 20;
      updated_at = 20;
    }
    ∷ leased
    ∷ []

checks_unfold : Unit {0}
unfolding claim_next candidate is_claimable is_earlier first_by filter update_one update_returning
    checked table_checks unique_active unique_ids no_rival fetch_job validate_lease
    is_malformed_owner strip row_checks is_blank any all update_where claimed job_of_row post_init
    count_guards lease_guards finish_guards first_fault
checks_unfold = tt

claim_first :
    claim_next free 20 "w-2" (pos 30) rows
    ≡ ok (claimed_rows, some (snapshot (claimed "w-2" (pos 30) 20 waiting)))
unfolding checks_unfold
claim_first = refl

good_owner_1 : is_malformed_owner "w-1" ≡ false
unfolding is_malformed_owner strip
good_owner_1 = refl

lease_call_lem_example :
    (lease_call succeeds 2 "w-1" 1 20 rows
      ≡ ok (
        update_where (is_owned 2 "w-1" 1 20) (completed 20) rows,
        head_job (map (completed 20) (filter (is_owned 2 "w-1" 1 20) rows)),
      ))
    × IsSound (update_where (is_owned 2 "w-1" 1 20) (completed 20) rows)
lease_call_lem_example =
    lease_call_lem succeeds 2 "w-1" 1 20 rows good_owner_1 rows-IsSound (omega arith)

-- The call covers the leased row.
leased_owned : is_owned 2 "w-1" 1 20 leased ≡ true
unfolding is_owned
leased_owned = refl

recover_expired_lem_example :
    let rows' = update_where (is_expired 40) (released dependency_unavailable (pos 5) 40) rows in
    (recover_expired 40 (pos 5) rows
      ≡ ok (
        rows',
        map snapshot
            (map (released dependency_unavailable (pos 5) 40) (filter (is_expired 40) rows)),
      ))
    × IsSound rows'
    × All (λ r. is_expired 40 r ≡ false) rows'
recover_expired_lem_example = recover_expired_lem 40 (pos 5) refl rows rows-IsSound

-- A job that waits for its second attempt.
abbrev retried : JobRow
retried = record leased {
  status = retry;
  available_at = 40;
  updated_at = 40;
  lease_owner = none;
  lease_expires_at = none;
  heartbeat_at = none;
  error_code = some dependency_unavailable;
}

retried-IsSound : IsSound (retried ∷ [])
unfolding row_checks unique_active unique_ids any
retried-IsSound = record {
  each = (record { checks = row_checks-IsChecked retried refl; owner = refl; timed = refl }, tt);
  active = refl;
  ids = refl;
}

abbrev again : JobRow
again = record retried {
  status = running;
  attempts = 2;
  lease_owner = some "w-2";
  heartbeat_at = some 45;
  lease_expires_at = some 75;
  updated_at = 45;
  error_code = none;
}

claim_again :
    claim_next free 45 "w-2" (pos 30) (retried ∷ []) ≡ ok (again ∷ [], some (snapshot again))
unfolding checks_unfold
claim_again = refl

stale_attempt_fenced_example : lease_call succeeds 2 "w-1" 1 50 (again ∷ []) ≡ ok (again ∷ [], none)
stale_attempt_fenced_example =
    stale_attempt_fenced free 45 "w-2" (pos 30) good_owner_2 refl (retried ∷ []) (again ∷ [])
      (snapshot again) retried-IsSound claim_again succeeds "w-1" 1 50 good_owner_1 (omega arith)

rows_checks : table_checks rows ≡ true
unfolding checks_unfold
rows_checks = refl

claim-Step : Step rows claimed_rows
claim-Step =
    claims free 20 "w-2" (pos 30) (some (snapshot (claimed "w-2" (pos 30) 20 waiting))) claim_first

Step-Extends_example : Extends Follows rows claimed_rows × (table_checks claimed_rows ≡ true)
Step-Extends_example = Step-Extends {rows = rows} {rows' = claimed_rows} rows_checks claim-Step

Reach-Extends_example : Extends Lasts rows claimed_rows × (table_checks claimed_rows ≡ true)
Reach-Extends_example =
    Reach-Extends {rows = rows} {rows' = claimed_rows} rows_checks (next here claim-Step)
