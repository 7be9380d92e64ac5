-- ===== src/Jobs/Repository/Fencing.antt =====
-- A worker whose job was claimed again cannot touch it.
use mathlib.Core.List.{Memᴰ}
use mathlib.Core.List.Memᴰ
use graph_blizz.Prelude.{
  ℕ, suc, ◌<◌, ◌≡◌, true, false, Bool, some, none, arith, String, ℤ, is_positive, All, filter-mem,
  mem-filter, update_where, All-update_where, ◌==◌, ok, ap, inl, inr, subst,
}
use graph_blizz.Jobs.Models.{Job, is_malformed_owner}
use graph_blizz.Jobs.Rows.{JobRow, snapshot}
use graph_blizz.Jobs.Repository.{Jobs, claimed, claim_next, is_owned, unique_ids}
use graph_blizz.Jobs.Repository.Soundness.{IsSound}
use graph_blizz.Jobs.Repository.Order.{filter-id}
use graph_blizz.Jobs.Repository.Claim.{claim_next_lem}
use graph_blizz.Jobs.Repository.Lease.{LeaseCall, lease_call, lease_call-fenced}

-- Two rows of a table with one identifier are one row.
pub same_row :
    (c r : JobRow) (rows : Jobs)
    → unique_ids rows ≡ true
    → Memᴰ c rows
    → Memᴰ r rows
    → (r.id == c.id) ≡ true
    → r ≡ c
same_row c r rows u m n e =
    elim (Memᴰ.cases_cons
      (subst (Memᴰ r) (filter-id c rows u m) (filter-mem (λ q. q.id == c.id) r rows n e))) [
        | inl same ↦ same
        | inr nothing ↦ absurd (Memᴰ.not-nil nothing)
      ]

-- Once the first job of the queue is claimed, no row admits a call for it by an earlier attempt.
claimed-fence :
    (c : JobRow) (rows : Jobs) (owner stale : String) (lease_for : ℤ) (attempt now later : ℕ)
    → unique_ids rows ≡ true
    → Memᴰ c rows
    → attempt < suc c.attempts
    → All
        (λ r. is_owned c.id stale attempt later r ≡ false)
        (update_where (λ r. r.id == c.id) (claimed owner lease_for now) rows)
claimed-fence c rows owner stale lease_for attempt now later u m old =
    All-update_where (λ r. is_owned c.id stale attempt later r ≡ false) _ _ rows
      (λ r n e.
        let fewer = ap (λ (x : JobRow). x.attempts) (same_row c r rows u m n e) in
        unfold is_owned claimed in ground arith)
      (λ r n e. unfold is_owned in ground arith)

-- On a sound table let `claim_next`, with a good owner and a positive lease, return a job. Then a
-- heartbeat, a success or a failure report that names this job and an earlier attempt returns none
-- and leaves the table as the claim left it, whoever makes it and whenever.
pub stale_attempt_fenced :
    (locked : ℕ → Bool) (now : ℕ) (owner : String) (lease_for : ℤ)
    → is_malformed_owner owner ≡ false
    → is_positive lease_for ≡ true
    → (rows rows' : Jobs) (job : Job) → IsSound rows
    → claim_next locked now owner lease_for rows ≡ ok (rows', some job)
    → (call : LeaseCall) (stale : String) (attempt later : ℕ) → is_malformed_owner stale ≡ false
    → attempt < job.attempts
    → lease_call call job.id stale attempt later rows' ≡ ok (rows', none)
stale_attempt_fenced locked now owner lease_for good lasting rows rows' job s h call stale attempt
      later good_stale old =
    elim (claim_next_lem locked now owner lease_for good lasting rows s) [
      | inl (c, first, returns, sound) ↦
          let table : rows' ≡ update_where (λ r. r.id == c.id) (claimed owner lease_for now) rows =
            cc in
          let same : job ≡ snapshot (claimed owner lease_for now c) = cc in
          let (m, claimable) = mem-filter _ c rows first.0 in
          let id : job.id ≡ c.id = unfold claimed in ap (λ (j : Job). j.id) same in
          let count : job.attempts ≡ suc c.attempts =
            unfold claimed in omega (arith, ap (λ (j : Job). j.attempts) same) in
          rw (table, id)
            (lease_call-fenced call c.id stale attempt later _ good_stale sound
              (claimed-fence c rows owner stale lease_for attempt now later s.ids m (omega arith)))
      | inr (empty, returns) ↦ absurd (cc)
    ]
