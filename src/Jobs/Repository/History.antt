-- ===== src/Jobs/Repository/History.antt =====
-- What every history of the jobs table keeps, without any assumption on the clock.
use mathlib.Core.List.{Memᴰ}
use graph_blizz.Prelude.{
  ℕ, ◌≤◌, ◌≡◌, refl, true, ◌⊎◌, inl, inr, some, Bool, List, [], ◌∷◌, ◌++◌, arith, String, ℤ,
  mem-filter, update_where, ◌==◌, ok, Option, sym, subst, ◌∙◌, >>=-eq-ok,
}
use graph_blizz.Jobs.Models.{Job, JobErrorCode, is_terminal, dependency_unavailable}
use graph_blizz.Jobs.Rows.{JobRow}
use graph_blizz.Jobs.Repository.{
  Jobs, unique_ids, table_checks, checked, update_returning, update_one, fetch_job, is_claimable,
  candidate, claimed, claim_next, is_owned, renewed, heartbeat, completed, succeed, released, fail,
  is_expired, recover_expired, insert_job, create_indexing, create_deletion, validate_lease,
}
use graph_blizz.Documents.Repository.Completion.{Attempt}
use graph_blizz.Jobs.Repository.Completions.{
  checked-eq-ok, Completes, completion_call-jobs, create_workspace_reindex-jobs,
}
use graph_blizz.Jobs.Repository.Order.{first_by-IsFirst}
use graph_blizz.Jobs.Repository.Fencing.{same_row}
use graph_blizz.Jobs.Repository.Steps.{
  Step, creates_indexing, creates_deletion, claims, beats, succeeds, fails, recovers,
  creates_reindexing, completes, Reach, here, next, Follows, Extends, Follows-refl, claimed-Follows,
  renewed-Follows, completed-Follows, released-Follows, owned-running, expired-running,
  update_where-Extends, append-Extends,
}

pub update_one-eq-ok :
    (test : JobRow → Bool) (change : JobRow → JobRow) (rows rows' : Jobs) (job : Option Job)
    → update_one test change rows ≡ ok (rows', job)
    → (rows' ≡ update_where test change rows) × (table_checks rows' ≡ true)
unfolding update_one update_returning
update_one-eq-ok test change rows rows' job h =
    let (a, e, f) = >>=-eq-ok (update_returning test change rows) _ h in
    let (j, g, k) = >>=-eq-ok (fetch_job a.1) _ f in
    let (t, c) = checked-eq-ok _ a.1 _ a.0 e in
    let same : rows' ≡ a.0 = cc in (same ∙ t, rw (same, t) c)

insert-eq-ok :
    (has_revision : ℕ → ℕ → Bool) (r : JobRow) (rows rows' : Jobs) (job : Job)
    → insert_job has_revision r rows ≡ ok (rows', job)
    → (rows' ≡ rows ++ r ∷ []) × (table_checks rows' ≡ true)
unfolding insert_job checked
insert-eq-ok has_revision r rows rows' job h = ground arith

claim-eq-ok :
    (locked : ℕ → Bool) (now : ℕ) (owner : String) (lease_for : ℤ) (rows rows' : Jobs)
    (job : Option Job)
    → claim_next locked now owner lease_for rows ≡ ok (rows', job)
    → (rows' ≡ rows)
      ⊎ ((c : JobRow) × (candidate locked now rows ≡ some c)
          × (update_one (λ r. r.id == c.id) (claimed owner lease_for now) rows ≡ ok (rows', job)))
unfolding claim_next validate_lease
claim-eq-ok locked now owner lease_for rows rows' job h = ground arith

heartbeat-eq-ok :
    (id : ℕ) (owner : String) (attempt now : ℕ) (lease_for : ℤ) (rows rows' : Jobs)
    (job : Option Job)
    → heartbeat id owner attempt now lease_for rows ≡ ok (rows', job)
    → update_one (is_owned id owner attempt now) (renewed lease_for now) rows ≡ ok (rows', job)
unfolding heartbeat validate_lease
heartbeat-eq-ok id owner attempt now lease_for rows rows' job h = ground arith

fail-eq-ok :
    (id : ℕ) (owner : String) (attempt now : ℕ) (error : JobErrorCode) (retry_after : ℤ)
    (rows rows' : Jobs) (job : Option Job)
    → fail id owner attempt now error retry_after rows ≡ ok (rows', job)
    → update_one (is_owned id owner attempt now) (released error retry_after now) rows
      ≡ ok (rows', job)
unfolding fail
fail-eq-ok id owner attempt now error retry_after rows rows' job h = ground arith

recover-eq-ok :
    (now : ℕ) (retry_after : ℤ) (rows rows' : Jobs) (jobs : List Job)
    → recover_expired now retry_after rows ≡ ok (rows', jobs)
    → (rows' ≡ update_where (is_expired now) (released dependency_unavailable retry_after now) rows)
      × (table_checks rows' ≡ true)
unfolding recover_expired update_returning checked
recover-eq-ok now retry_after rows rows' jobs h = ground arith

candidate-claimable :
    (locked : ℕ → Bool) (now : ℕ) (rows : Jobs) (c : JobRow)
    → candidate locked now rows ≡ some c
    → Memᴰ c rows × (is_claimable locked now c ≡ true)
unfolding candidate
candidate-claimable locked now rows c h =
    mem-filter (is_claimable locked now) c rows (first_by-IsFirst _ c h).0

ids_of_checks : (rows : Jobs) → table_checks rows ≡ true → unique_ids rows ≡ true
unfolding table_checks
ids_of_checks rows h = ground arith

-- The new table of an UPDATE whose changes all follow the lifecycle.
update-Extends :
    (test : JobRow → Bool) (change : JobRow → JobRow) (rows rows' : Jobs)
    → ((r : JobRow) → Memᴰ r rows → test r ≡ true → Follows r (change r))
    → (rows' ≡ update_where test change rows) × (table_checks rows' ≡ true)
    → Extends Follows rows rows' × (table_checks rows' ≡ true)
update-Extends test change rows rows' f (e, c) =
    (subst (Extends Follows rows) (sym e) (update_where-Extends test change rows f), c)

rows-Extends : (rows : Jobs) → Extends Follows rows rows
rows-Extends [] = tt
rows-Extends (r ∷ rows) = (Follows-refl r, rows-Extends rows)

insert-Extends :
    (has_revision : ℕ → ℕ → Bool) (r : JobRow) (rows rows' : Jobs) (job : Job)
    → insert_job has_revision r rows ≡ ok (rows', job)
    → Extends Follows rows rows' × (table_checks rows' ≡ true)
insert-Extends has_revision r rows rows' job h =
    let (e, c) = insert-eq-ok has_revision r rows rows' job h in
    (subst (Extends Follows rows) (sym e) (append-Extends rows (r ∷ [])), c)

claim-Extends :
    (locked : ℕ → Bool) (now : ℕ) (owner : String) (lease_for : ℤ) (rows rows' : Jobs)
    (job : Option Job)
    → table_checks rows ≡ true
    → claim_next locked now owner lease_for rows ≡ ok (rows', job)
    → Extends Follows rows rows' × (table_checks rows' ≡ true)
claim-Extends locked now owner lease_for rows rows' job t h =
    elim (claim-eq-ok locked now owner lease_for rows rows' job h) [
      | inl same ↦ (subst (Extends Follows rows) (sym same) (rows-Extends rows), rw same t)
      | inr (c, e, u) ↦
          let (m, k) = candidate-claimable locked now rows c e in
          update-Extends (λ r. r.id == c.id) (claimed owner lease_for now) rows rows'
            (λ r n i. claimed-Follows locked now owner lease_for r (
              subst (λ x. is_claimable locked now x ≡ true)
                (sym (same_row c r rows (ids_of_checks rows t) m n i)) k))
            (update_one-eq-ok _ _ rows rows' job u)
    ]

Completes-Extends :
    (a : Attempt) (now : ℕ) (rows rows' : Jobs)
    → table_checks rows ≡ true
    → Completes a now rows rows' ⊎ (rows' ≡ rows)
    → Extends Follows rows rows' × (table_checks rows' ≡ true)
Completes-Extends a now rows rows' t (inl (test, owned, same, checks)) =
    update-Extends test (completed now) rows rows'
      (λ r m e. completed-Follows a.job_id a.lease_owner a.attempt now r (owned r e)) (same, checks)
Completes-Extends a now rows rows' t (inr same) = (
  subst (Extends Follows rows) (sym same) (rows-Extends rows),
  subst (λ x. table_checks x ≡ true) (sym same) t,
)

-- Whatever statement that writes to the table of jobs succeeds on a table that satisfies its
-- constraints, the creation of the jobs of maintenance and the completions of a job together with its
-- document included: each row keeps its place, its identity, its document and revision, its type, its
-- limit of attempts and its time of creation; its attempts do not fall; its status stays or moves along
-- `_TRANSITIONS`; and the row of a job that has ended stays as it is. New rows come behind, and the
-- constraints hold of the new table.
pub Step-Extends :
    {rows rows' : Jobs}
    → table_checks rows ≡ true
    → Step rows rows'
    → Extends Follows rows rows' × (table_checks rows' ≡ true)
unfolding create_indexing create_deletion succeed
Step-Extends {rows} {rows'} t (creates_indexing has_revision id now document revision max job h) =
    insert-Extends has_revision _ rows rows' job h
Step-Extends {rows} {rows'} t (creates_deletion has_revision id now document revision max job h) =
    insert-Extends has_revision _ rows rows' job h
Step-Extends {rows} {rows'} t (claims locked now owner lease_for job h) =
    claim-Extends locked now owner lease_for rows rows' job t h
Step-Extends {rows} {rows'} t (beats id owner attempt now lease_for job h) =
    update-Extends (is_owned id owner attempt now) (renewed lease_for now) rows rows'
      (λ r m e. renewed-Follows id owner attempt now lease_for r e)
      (update_one-eq-ok _ _ rows rows' job
        (heartbeat-eq-ok id owner attempt now lease_for rows rows' job h))
Step-Extends {rows} {rows'} t (succeeds id owner attempt now job h) =
    update-Extends (is_owned id owner attempt now) (completed now) rows rows'
      (λ r m e. completed-Follows id owner attempt now r e) (update_one-eq-ok _ _ rows rows' job h)
Step-Extends {rows} {rows'} t (fails id owner attempt now error retry_after job h) =
    update-Extends (is_owned id owner attempt now) (released error retry_after now) rows rows'
      (λ r m e. released-Follows error retry_after now r (owned-running id owner attempt now r e))
      (update_one-eq-ok _ _ rows rows' job
        (fail-eq-ok id owner attempt now error retry_after rows rows' job h))
Step-Extends {rows} {rows'} t
      (creates_reindexing job_id_of now workspace_id db db' jobs before after h) =
    let (more, same, checks) =
      create_workspace_reindex-jobs job_id_of now workspace_id db db' jobs h in
    let extended : rows' ≡ rows ++ more = cc (before, after, same) in
    (
      subst (Extends Follows rows) (sym extended) (append-Extends rows more),
      subst (λ x. table_checks x ≡ true) after checks,
    )
Step-Extends {rows} {rows'} t (completes call a now db db' document before after h) =
    Completes-Extends a now rows rows' t (
      subst (λ x. Completes a now x rows' ⊎ (rows' ≡ x)) before
        (subst (λ x. Completes a now db.jobs x ⊎ (x ≡ db.jobs)) after
          (completion_call-jobs call a now db db' document h)))
Step-Extends {rows} {rows'} t (recovers now retry_after jobs h) =
    update-Extends (is_expired now) (released dependency_unavailable retry_after now) rows rows'
      (λ r m e. released-Follows dependency_unavailable retry_after now r (expired-running now r e))
      (recover-eq-ok now retry_after rows rows' jobs h)

-- What lasts over a whole history.
pub record Lasts (r r' : JobRow) : Type 0 where
  pub id : r'.id ≡ r.id
  pub document : r'.document_id ≡ r.document_id
  pub attempts : r.attempts ≤ r'.attempts
  pub frozen : is_terminal r.status ≡ true → r' ≡ r

Lasts-step : (a b c : JobRow) → Lasts a b → Follows b c → Lasts a c
Lasts-step a b c l f = record {
  id = f.id ∙ l.id;
  document = f.document ∙ l.document;
  attempts = omega arith;
  frozen = λ t.
      let same = l.frozen t in
      f.frozen (subst (λ (x : JobRow). is_terminal x.status ≡ true) (sym same) t) ∙ same;
}

Extends-step : (a b c : Jobs) → Extends Lasts a b → Extends Follows b c → Extends Lasts a c
Extends-step [] b c l f = tt
Extends-step (x ∷ a) [] c l f = elim l [ ]
Extends-step (x ∷ a) (y ∷ b) [] l f = elim f [ ]
Extends-step (x ∷ a) (y ∷ b) (z ∷ c) l f = (Lasts-step x y z l.0 f.0, Extends-step a b c l.1 f.1)

Extends-Lasts : (rows : Jobs) → Extends Lasts rows rows
Extends-Lasts [] = tt
Extends-Lasts (r ∷ rows) = (
  record { id = refl; document = refl; attempts = omega arith; frozen = λ t. refl },
  Extends-Lasts rows,
)

-- Over every history of successful statements that write to the table of jobs, those that complete a job
-- with its document included, that begins at a table with its constraints, each row
-- keeps its place, its identity and its document, its attempts do not fall, the row of a job that
-- has ended is never changed again, and the constraints hold at the end.
pub Reach-Extends :
    {rows rows' : Jobs}
    → table_checks rows ≡ true
    → Reach rows rows'
    → Extends Lasts rows rows' × (table_checks rows' ≡ true)
Reach-Extends {rows} t here = (Extends-Lasts rows, t)
Reach-Extends {rows} {rows'} t (next {mid = mid} r s) =
    let (l, c) = Reach-Extends t r in
    let (f, d) = Step-Extends c s in (Extends-step rows mid rows' l f, d)
