-- ===== src/Jobs/Repository/Claim.antt =====
-- `claim_next` on a sound table: it returns on every branch, takes the first claimable job of the
-- queue and changes no other.
use mathlib.Core.List.{Memᴰ}
use mathlib.Core.List.Memᴰ
use graph_blizz.Prelude.{
  ℕ, ◌≡◌, refl, true, false, ◌⊎◌, inl, inr, some, none, [], arith, String, ℤ, is_positive, All,
  Bool, filter, update_where, ◌==◌, ok, Option-cases, mem-filter, filter-mem, All-of_mem, subst,
  sym,
}
use graph_blizz.Jobs.Models.{is_malformed_owner}
use graph_blizz.Jobs.Rows.{JobRow, snapshot}
use graph_blizz.Jobs.Repository.{Jobs, is_claimable, candidate, claimed, claim_next, validate_lease}
use graph_blizz.Jobs.Repository.Soundness.{
  IsSound, IsSoundRow, Keeps, update_where-IsSound, update_one_lem,
}
use graph_blizz.Jobs.Repository.Changes.{claimed-Keeps}
use graph_blizz.Jobs.Repository.Order.{IsFirst, first_by-IsFirst, first_by-none, filter-id}

pub validate_lease-ok :
    (owner : String) (lease_for : ℤ)
    → is_malformed_owner owner ≡ false
    → is_positive lease_for ≡ true
    → validate_lease owner lease_for ≡ ok tt
unfolding validate_lease
validate_lease-ok owner lease_for good lasting = ground arith

abbrev pub queue : (locked : ℕ → Bool) (now : ℕ) → Jobs → Jobs
queue locked now = filter (is_claimable locked now)

module _ (locked : ℕ → Bool) (now : ℕ) (owner : String) (lease_for : ℤ) where
  -- The first job of the queue is claimed and returned, and the table stays sound; or no job is
  -- claimable, none is returned and the table stays as it is.
  abbrev pub ClaimOutcome : Jobs → Type 0
  ClaimOutcome rows =
      ((c : JobRow) × IsFirst (queue locked now rows) c
        × (claim_next locked now owner lease_for rows
            ≡ ok (
              update_where (λ r. r.id == c.id) (claimed owner lease_for now) rows,
              some (snapshot (claimed owner lease_for now c)),
            ))
        × IsSound (update_where (λ r. r.id == c.id) (claimed owner lease_for now) rows))
      ⊎ ((queue locked now rows ≡ [])
          × (claim_next locked now owner lease_for rows ≡ ok (rows, none)))

module _ (locked : ℕ → Bool) (now : ℕ) (owner : String) (lease_for : ℤ)
    (good : is_malformed_owner owner ≡ false) (lasting : is_positive lease_for ≡ true) where
  -- A row with the candidate's identifier is the candidate.
  abbrev IsClaimableIf : JobRow → JobRow → Type 0
  IsClaimableIf c r = (r.id == c.id) ≡ true → is_claimable locked now r ≡ true

  pub claimable_if :
      (rows : Jobs) (c : JobRow)
      → IsSound rows
      → Memᴰ c rows
      → is_claimable locked now c ≡ true
      → All (IsClaimableIf c) rows
  claimable_if rows c s m k = All-of_mem (IsClaimableIf c) rows λ r n e.
      let alone = filter-mem (λ q. q.id == c.id) r rows n e in
      elim (Memᴰ.cases_cons (subst (Memᴰ r) (filter-id c rows s.ids m) alone)) [
        | inl same ↦ subst (λ x. is_claimable locked now x ≡ true) (sym same) k
        | inr none_left ↦ absurd (Memᴰ.not-nil none_left)
      ]

  keeps :
      (c r : JobRow)
      → IsSoundRow r
      → IsClaimableIf c r
      → (r.id == c.id) ≡ true
      → Keeps r (claimed owner lease_for now r)
  keeps c r s k e = claimed-Keeps locked now owner lease_for good lasting r s (k e)

  claim_next_eq :
      (rows : Jobs) (c : JobRow)
      → IsSound rows
      → Memᴰ c rows
      → candidate locked now rows ≡ some c
      → All (IsClaimableIf c) rows
      → claim_next locked now owner lease_for rows
        ≡ ok (
          update_where (λ r. r.id == c.id) (claimed owner lease_for now) rows,
          some (snapshot (claimed owner lease_for now c)),
        )
  unfolding claim_next
  claim_next_eq rows c s m e a =
      rw (validate_lease-ok owner lease_for good lasting, e)
        (rw
          (update_one_lem (IsClaimableIf c) (λ r. r.id == c.id) (claimed owner lease_for now)
            (keeps c) rows s a)
          (rw (filter-id c rows s.ids m) refl))

  claim_next-none :
      (rows : Jobs)
      → candidate locked now rows ≡ none
      → claim_next locked now owner lease_for rows ≡ ok (rows, none)
  unfolding claim_next
  claim_next-none rows e = rw (validate_lease-ok owner lease_for good lasting, e) refl

  claim_next-candidate :
      (rows : Jobs) (c : JobRow)
      → IsSound rows
      → Memᴰ c rows
      → is_claimable locked now c ≡ true
      → candidate locked now rows ≡ some c
      → (claim_next locked now owner lease_for rows
          ≡ ok (
            update_where (λ r. r.id == c.id) (claimed owner lease_for now) rows,
            some (snapshot (claimed owner lease_for now c)),
          ))
        × IsSound (update_where (λ r. r.id == c.id) (claimed owner lease_for now) rows)
  claim_next-candidate rows c s m k e =
      let a = claimable_if rows c s m k in
      (
        claim_next_eq rows c s m e a,
        update_where-IsSound (IsClaimableIf c) (λ r. r.id == c.id) (claimed owner lease_for now)
            (keeps c) rows s a,
      )

  -- With a good owner and a positive lease `claim_next` returns on a sound table. If a job is
  -- claimable, a first one of the queue is claimed and returned, every row with another identifier
  -- stays as it is, and the table stays sound; if none is claimable, none is returned and the table
  -- stays as it is.
  pub claim_next_lem : (rows : Jobs) → IsSound rows → ClaimOutcome locked now owner lease_for rows
  claim_next_lem rows s = elim (Option-cases (candidate locked now rows)) [
    | inl e ↦
        inr (first_by-none (queue locked now rows) (unfold candidate in e), claim_next-none rows e)
    | inr (c, e) ↦
        let f = first_by-IsFirst (queue locked now rows) c (unfold candidate in e) in
        let (m, k) = mem-filter (is_claimable locked now) c rows f.0 in
        let (eq, sound) = claim_next-candidate rows c s m k e in inl (c, f, eq, sound)
  ]
