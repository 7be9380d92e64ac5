-- ===== src/Jobs/Repository/Soundness.antt =====
-- What holds of the jobs table between two statements, and the rule by which an UPDATE keeps it.
use graph_blizz.Prelude.{
  ◌≡◌, refl, Bool, true, false, not, ◌&&◌, ◌||◌, none, some, [], ◌∷◌, arith, any, all, filter, map,
  update_where, leb, ◌==◌, All, ok, Option, Bool-cases, inl, inr,
}
use graph_blizz.Jobs.Models.{Job, is_active, is_pending, is_retry}
use graph_blizz.Jobs.Rows.{JobRow, row_checks, snapshot}
use graph_blizz.Jobs.Rows.Checks.{IsChecked, HasGoodOwner, IsChecked-row_checks, job_of_row-ok}
use graph_blizz.Jobs.Repository.{
  Jobs, unique_active, unique_ids, table_checks, checked, update_returning, update_one, fetch_job,
  fetch_jobs,
}

-- A waiting job is not available before its last change.
abbrev pub is_timed : JobRow → Bool
is_timed r = not (is_pending r.status || is_retry r.status) || leb r.updated_at r.available_at

pub record IsSoundRow (r : JobRow) : Type 0 where
  pub checks : IsChecked r
  pub owner : HasGoodOwner r
  pub timed : is_timed r ≡ true

pub record IsSound (rows : Jobs) : Type 0 where
  pub each : All IsSoundRow rows
  pub active : unique_active rows ≡ true
  pub ids : unique_ids rows ≡ true

-- What a change may do to a row: the constraints stay, and no job becomes active.
pub record Keeps (r r' : JobRow) : Type 0 where
  pub sound : IsSoundRow r'
  pub id : r'.id ≡ r.id
  pub document : r'.document_id ≡ r.document_id
  pub active : is_active r'.status ≡ true → is_active r.status ≡ true

all_checks : (rows : Jobs) → All IsSoundRow rows → all row_checks rows ≡ true
unfolding all
all_checks [] h = refl
all_checks (r ∷ rows) h = ground (arith, IsChecked-row_checks r h.0.checks, all_checks rows h.1)

pub IsSound-table_checks : (rows : Jobs) → IsSound rows → table_checks rows ≡ true
unfolding table_checks
IsSound-table_checks rows s = ground (arith, all_checks rows s.each)

-- `Admits` is what is known of the rows beside their soundness, such as a bound on their clocks.
module _ (Admits : JobRow → Type 0) (test : JobRow → Bool) (change : JobRow → JobRow)
    (keeps : (r : JobRow) → IsSoundRow r → Admits r → test r ≡ true → Keeps r (change r)) where
  each-update_where :
      (rows : Jobs)
      → All IsSoundRow rows
      → All Admits rows
      → All IsSoundRow (update_where test change rows)
  unfolding update_where
  each-update_where [] h a = tt
  each-update_where (r ∷ rows) h a = elim (Bool-cases (test r)) [
    | inl e ↦ rw e ((keeps r h.0 a.0 e).sound, each-update_where rows h.1 a.1)
    | inr e ↦ rw e (h.0, each-update_where rows h.1 a.1)
  ]

  each-returned :
      (rows : Jobs)
      → All IsSoundRow rows
      → All Admits rows
      → All IsSoundRow (map change (filter test rows))
  unfolding filter
  each-returned [] h a = tt
  each-returned (r ∷ rows) h a = elim (Bool-cases (test r)) [
    | inl e ↦ rw e ((keeps r h.0 a.0 e).sound, each-returned rows h.1 a.1)
    | inr e ↦ rw e (each-returned rows h.1 a.1)
  ]

  ids-update_where :
      (rows : Jobs)
      → All IsSoundRow rows
      → All Admits rows
      → (r : JobRow) → any (λ q. q.id == r.id) rows ≡ false
      → any (λ q. q.id == r.id) (update_where test change rows) ≡ false
  unfolding update_where any
  ids-update_where [] h a r n = refl
  ids-update_where (q ∷ rows) h a r n = elim (Bool-cases (test q)) [
    | inl e ↦ rw e (ground (arith, (keeps q h.0 a.0 e).id, ids-update_where rows h.1 a.1 r))
    | inr e ↦ rw e (ground (arith, ids-update_where rows h.1 a.1 r))
  ]

  unique_ids-update_where :
      (rows : Jobs)
      → All IsSoundRow rows
      → All Admits rows
      → unique_ids rows ≡ true
      → unique_ids (update_where test change rows) ≡ true
  unfolding update_where unique_ids
  unique_ids-update_where [] h a u = refl
  unique_ids-update_where (r ∷ rows) h a u = elim (Bool-cases (test r)) [
    | inl e ↦ rw e (
        ground (
          arith,
          (keeps r h.0 a.0 e).id,
          ids-update_where rows h.1 a.1 r,
          unique_ids-update_where rows h.1 a.1,
        ))
    | inr e ↦
        rw e (ground (arith, ids-update_where rows h.1 a.1 r, unique_ids-update_where rows h.1 a.1))
  ]

  rivals-update_where :
      (rows : Jobs)
      → All IsSoundRow rows
      → All Admits rows
      → (r : JobRow) → any (λ q. is_active q.status && q.document_id == r.document_id) rows ≡ false
      → any
          (λ q. is_active q.status && q.document_id == r.document_id)
          (update_where test change rows)
        ≡ false
  unfolding update_where any
  rivals-update_where [] h a r n = refl
  rivals-update_where (q ∷ rows) h a r n = elim (Bool-cases (test q)) [
    | inl e ↦ rw e (
        let k = keeps q h.0 a.0 e in
        ground (arith, k.document, k.active, rivals-update_where rows h.1 a.1 r))
    | inr e ↦ rw e (ground (arith, rivals-update_where rows h.1 a.1 r))
  ]

  unique_active-update_where :
      (rows : Jobs)
      → All IsSoundRow rows
      → All Admits rows
      → unique_active rows ≡ true
      → unique_active (update_where test change rows) ≡ true
  unfolding update_where unique_active
  unique_active-update_where [] h a u = refl
  unique_active-update_where (r ∷ rows) h a u = elim (Bool-cases (test r)) [
    | inl e ↦ rw e (
        let k = keeps r h.0 a.0 e in
        ground (
          arith,
          k.document,
          k.active,
          rivals-update_where rows h.1 a.1 r,
          unique_active-update_where rows h.1 a.1,
        ))
    | inr e ↦ rw e (
        ground (arith, rivals-update_where rows h.1 a.1 r, unique_active-update_where rows h.1 a.1))
  ]

  -- The statement returns, with the changed rows and a sound table.
  pub update_where-IsSound :
      (rows : Jobs) → IsSound rows → All Admits rows → IsSound (update_where test change rows)
  update_where-IsSound rows s a = record {
    each = each-update_where rows s.each a;
    active = unique_active-update_where rows s.each a s.active;
    ids = unique_ids-update_where rows s.each a s.ids;
  }

  pub update_returning_lem :
      (rows : Jobs)
      → IsSound rows
      → All Admits rows
      → update_returning test change rows
        ≡ ok (update_where test change rows, map change (filter test rows))
  unfolding update_returning checked
  update_returning_lem rows s a =
      rw (IsSound-table_checks (update_where test change rows) (update_where-IsSound rows s a)) refl

  pub returned_sound :
      (rows : Jobs)
      → IsSound rows
      → All Admits rows
      → All IsSoundRow (map change (filter test rows))
  returned_sound rows s a = each-returned rows s.each a

abbrev pub head_job : Jobs → Option Job
head_job [] = none
head_job (r ∷ rows) = some (snapshot r)

pub fetch_job_sound : (rows : Jobs) → All IsSoundRow rows → fetch_job rows ≡ ok (head_job rows)
unfolding fetch_job
fetch_job_sound [] h = refl
fetch_job_sound (r ∷ rows) h = rw (job_of_row-ok r h.0.checks h.0.owner) refl

pub fetch_jobs_sound :
    (rows : Jobs) → All IsSoundRow rows → fetch_jobs rows ≡ ok (map snapshot rows)
unfolding fetch_jobs
fetch_jobs_sound [] h = refl
fetch_jobs_sound (r ∷ rows) h =
    rw (job_of_row-ok r h.0.checks h.0.owner, fetch_jobs_sound rows h.1) refl

module _ (Admits : JobRow → Type 0) (test : JobRow → Bool) (change : JobRow → JobRow)
    (keeps : (r : JobRow) → IsSoundRow r → Admits r → test r ≡ true → Keeps r (change r)) where
  -- The statement and the mapping of its row return on a sound table.
  pub update_one_lem :
      (rows : Jobs)
      → IsSound rows
      → All Admits rows
      → update_one test change rows
        ≡ ok (update_where test change rows, head_job (map change (filter test rows)))
  unfolding update_one
  update_one_lem rows s a =
      rw (update_returning_lem Admits test change keeps rows s a)
        (rw (fetch_job_sound _ (returned_sound Admits test change keeps rows s a)) refl)
