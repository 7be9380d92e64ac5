-- ===== src/Jobs/Rows/Checks.antt =====
-- The constraints of the table are as strong as the validation of the entity, up to the owner.
use graph_blizz.Prelude.{
  ◌≡◌, refl, ◌↔◌, true, false, none, some, List, [], ◌∷◌, arith, codes, all, strip, lstrip,
  is_space, holds, ℕ, ◌==◌, ok, length, leb, String, Option,
}
use graph_blizz.Jobs.Models.{
  Job, first_fault, count_guards, lease_guards, finish_guards, post_init, is_malformed_owner,
}
use graph_blizz.Jobs.Rows.{
  JobRow, row_checks, is_blank, snapshot, job_of_row, revision_positive, attempts_in_range,
  timestamp_order, pending_attempts, started, started_order, attempts_started_pair, lease,
  heartbeat_order, updated_order, finished, finished_order, updated_after_finished, retry_attempts,
  error_code_allowed, error_detail_absent, unless_null,
}

pub record IsChecked (r : JobRow) : Type 0 where
  pub revision : revision_positive r ≡ true
  pub attempts : attempts_in_range r ≡ true
  pub order : timestamp_order r ≡ true
  pub pending : pending_attempts r ≡ true
  pub start : started r ≡ true
  pub start_order : started_order r ≡ true
  pub start_pair : attempts_started_pair r ≡ true
  pub leased : lease r ≡ true
  pub beat_order : heartbeat_order r ≡ true
  pub update_order : updated_order r ≡ true
  pub finish : finished r ≡ true
  pub finish_order : finished_order r ≡ true
  pub update_finish : updated_after_finished r ≡ true
  pub retries : retry_attempts r ≡ true
  pub error : error_code_allowed r ≡ true
  pub detail : error_detail_absent r ≡ true
  pub owner_length : unless_null r.lease_owner (λ o. leb (length (codes o)) 128) ≡ true

-- The owner of the row, if there is one, passes the test of the Python code.
abbrev pub HasGoodOwner : JobRow → Type 0
HasGoodOwner r = holds r.lease_owner is_malformed_owner ≡ false

pub count_guards_pass : (r : JobRow) → IsChecked r → first_fault (count_guards (snapshot r)) ≡ none
unfolding first_fault count_guards
count_guards_pass r c = ground arith

pub lease_guards_pass :
    (r : JobRow) → IsChecked r → HasGoodOwner r → first_fault (lease_guards (snapshot r)) ≡ none
unfolding first_fault lease_guards
lease_guards_pass r c o = ground arith

pub finish_guards_pass :
    (r : JobRow) → IsChecked r → first_fault (finish_guards (snapshot r)) ≡ none
unfolding first_fault finish_guards
finish_guards_pass r c = ground arith

-- `row_checks` is the conjunction of the named constraints.
pub row_checks-IsChecked : (r : JobRow) → row_checks r ≡ true → IsChecked r
unfolding row_checks
row_checks-IsChecked r h = ground arith

pub IsChecked-row_checks : (r : JobRow) → IsChecked r → row_checks r ≡ true
unfolding row_checks
IsChecked-row_checks r c = ground arith

lstrip_spaces : (s : List ℕ) → all (λ c. c == 32) s ≡ true → lstrip s ≡ []
unfolding all lstrip is_space
lstrip_spaces [] h = refl
lstrip_spaces (c ∷ s) h = ground (arith, lstrip_spaces s)

-- An owner that `strip` leaves something of has a character that is not a space.
pub not-is_blank : (o : String) → is_malformed_owner o ≡ false → is_blank o ≡ false
unfolding is_malformed_owner is_blank strip
not-is_blank o h = ground (arith, lstrip_spaces (codes o))

pub job_of_row-ok : (r : JobRow) → IsChecked r → HasGoodOwner r → job_of_row r ≡ ok (snapshot r)
unfolding job_of_row post_init
job_of_row-ok r c o =
    ground (arith, count_guards_pass r c, lease_guards_pass r c o, finish_guards_pass r c)

guards_of_ok :
    (r : JobRow) (j : Job)
    → job_of_row r ≡ ok j
    → (first_fault (count_guards (snapshot r)) ≡ none)
      × (first_fault (lease_guards (snapshot r)) ≡ none)
      × (first_fault (finish_guards (snapshot r)) ≡ none)
unfolding job_of_row post_init
guards_of_ok r j h = ground arith

-- A good owner satisfies the constraints on the column.
pub good_owner :
    (o : Option String)
    → holds o is_malformed_owner ≡ false
    → (holds o is_blank ≡ false) × (unless_null o (λ s. leb (length (codes s)) 128) ≡ true)
good_owner none h = (refl, refl)
good_owner (some s) h = (not-is_blank s h, unfold is_malformed_owner in ground arith)

HasGoodOwner-of_guards :
    (r : JobRow) → first_fault (lease_guards (snapshot r)) ≡ none → HasGoodOwner r
unfolding first_fault lease_guards
HasGoodOwner-of_guards r l = ground arith

IsChecked-of_guards :
    (r : JobRow)
    → first_fault (count_guards (snapshot r)) ≡ none
    → first_fault (lease_guards (snapshot r)) ≡ none
    → first_fault (finish_guards (snapshot r)) ≡ none
    → (holds r.lease_owner is_blank ≡ false)
    → (unless_null r.lease_owner (λ s. leb (length (codes s)) 128) ≡ true)
    → IsChecked r
unfolding first_fault count_guards lease_guards finish_guards
IsChecked-of_guards r c l f b n = record {
  revision = ground arith;
  attempts = ground arith;
  order = ground arith;
  pending = ground arith;
  start = ground arith;
  start_order = ground arith;
  start_pair = ground arith;
  leased = ground arith;
  beat_order = ground arith;
  update_order = ground arith;
  finish = ground arith;
  finish_order = ground arith;
  update_finish = ground arith;
  retries = ground arith;
  error = ground arith;
  detail = ground arith;
  owner_length = n;
}

-- For every row, `_job` returns the row's snapshot exactly if the row satisfies every CHECK
-- constraint of the table and its owner, if it has one, passes the owner test of the Python code.
pub job_of_row-ok_iff :
    (r : JobRow) → (job_of_row r ≡ ok (snapshot r)) ↔ ((row_checks r ≡ true) × (HasGoodOwner r))
job_of_row-ok_iff r = (
  λ h.
      let (c, l, f) = guards_of_ok r (snapshot r) h in
      let o = HasGoodOwner-of_guards r l in
      let (b, n) = good_owner r.lease_owner o in
      (IsChecked-row_checks r (IsChecked-of_guards r c l f b n), o),
  λ (h, o). job_of_row-ok r (row_checks-IsChecked r h) o,
)
