-- ===== src/Documents/Repository/Completion/Outcome.antt =====
-- What a completing statement leaves: the job and the document change together, or neither does.
use mathlib.Core.List.{Memᴰ}
use graph_blizz.Prelude.{
  ℕ, String, ◌≤◌, ◌≡◌, refl, ap, ◌∙◌, arith, Bool, true, false, ◌&&◌, Option, none, some, List, [],
  ◌∷◌, holds, any, find?, map, filter, is_empty, update_where, update_where_none, All, Bool-cases,
  inl, inr, ◌⊎◌, Result, ok, ◌==◌, Option-cases, both_of_and,
}
use graph_blizz.Errors.{Exn}
use graph_blizz.Jobs.Models.{succeeded}
use graph_blizz.Jobs.Rows.{JobRow}
use graph_blizz.Jobs.Repository.{Jobs, is_owned, completed}
use graph_blizz.Jobs.Repository.Soundness.{IsSound, update_returning_lem}
use graph_blizz.Jobs.Repository.Changes.{completed-Keeps}
use graph_blizz.Jobs.Repository.Lease.{IsPast}
use graph_blizz.Documents.Models.{DocumentStatus, Document, DocumentRevision, deleting, deleted}
use graph_blizz.Documents.Db.{
  Db, DocumentRow, find_document, document_of, update_document, update_found, update_joined,
  status_eq,
}
use graph_blizz.Documents.Repository.Completion.{
  Attempt, is_attempt, is_deletion_attempt, is_reindex_attempt, versions_checked, active_row,
  is_candidate, completing, complete_replacement_for_job, complete_deletion_for_job, Versions,
  rebuilt, complete_reindex_for_job, transition_status_for_job, transition_under,
  is_attempt_on_document,
}

filter-any :
    (test : JobRow → Bool) (rows : Jobs)
    → any test rows ≡ true
    → is_empty (filter test rows) ≡ false
unfolding any filter
filter-any test [] h = cc
filter-any test (r ∷ rows) h = elim (Bool-cases (test r)) [
  | inl e ↦ rw e refl
  | inr e ↦ rw e (filter-any test rows (rw e at h))
]

pub any-witness :
    (test : JobRow → Bool) (rows : Jobs)
    → any test rows ≡ true
    → (r : JobRow) × Memᴰ r rows × (test r ≡ true)
unfolding any
any-witness test [] h = cc
any-witness test (r ∷ rows) h = elim (Bool-cases (test r)) [
  | inl e ↦ (r, Memᴰ.head refl, e)
  | inr e ↦ let (q, m, t) = any-witness test rows (rw e at h) in (q, Memᴰ.tail m, t)
]

is_empty-map : {A B : Type 0} (f : A → B) (xs : List A) → is_empty (map f xs) ≡ is_empty xs
is_empty-map f [] = refl
is_empty-map f (x ∷ xs) = refl

find?-none :
    (test : JobRow → Bool) (rows : Jobs) → All (λ r. test r ≡ false) rows → find? test rows ≡ none
unfolding find?
find?-none test [] h = refl
find?-none test (r ∷ rows) h = rw h.0 (find?-none test rows h.1)

module _ (now : ℕ) (test : JobRow → Bool) (next : Db → Db × Option Document) (db : Db)
    (s : IsSound db.jobs) where
  -- No job that the statement completes: nothing changes.
  pub completing_nothing :
      All (λ j. test j ≡ false) db.jobs → completing now test next db ≡ ok (db, none)
  unfolding completing
  completing_nothing fence =
      let (same, nothing) = update_where_none test (completed now) db.jobs fence in
      rw
        (update_returning_lem (λ r. test r ≡ false) test (completed now) (λ r t f o. absurd (cc f))
          db.jobs s fence)
        (rw (same, nothing) refl)

  -- A job that it completes: the rest of the statement runs.
  pub completing_done :
      (job_id : ℕ) (owner : String) (attempt : ℕ)
      → ((j : JobRow) → test j ≡ true → is_owned job_id owner attempt now j ≡ true)
      → IsPast now db.jobs
      → any test db.jobs ≡ true
      → completing now test next db
        ≡ ok (next (record db { jobs = update_where test (completed now) db.jobs }))
  unfolding completing
  completing_done job_id owner attempt owned past found =
      rw
        (update_returning_lem (λ r. r.updated_at ≤ now) test (completed now)
          (λ r t p o. completed-Keeps job_id owner attempt now r t p (owned r o)) db.jobs s past)
        (rw (is_empty-map (completed now) (filter test db.jobs), filter-any test db.jobs found)
          refl)

-- The statements of this file, under one attempt.
pub data CompletionCall : Type 0 where
  replaces deletes : CompletionCall
  reindexes : Versions → CompletionCall
  moves : (from_status to_status : DocumentStatus) → CompletionCall

abbrev pub completion_call :
    CompletionCall → Attempt → (now : ℕ) → Db → Result Exn (Db × Option Document)
completion_call replaces a now db = complete_replacement_for_job a now db
completion_call deletes a now db = complete_deletion_for_job a now db
completion_call (reindexes v) a now db = complete_reindex_for_job a v now db
completion_call (moves from_status to_status) a now db =
    ok (transition_status_for_job now a from_status to_status db)

fence-All :
    (owned test : JobRow → Bool) (rows : Jobs)
    → ((j : JobRow) → owned j ≡ false → test j ≡ false)
    → All (λ j. owned j ≡ false) rows
    → All (λ j. test j ≡ false) rows
fence-All owned test [] less fence = tt
fence-All owned test (j ∷ rows) less fence =
    (less j fence.0, fence-All owned test rows less fence.1)

-- On a sound table of jobs, an attempt whose job is not leased to it any more (another owner or
-- attempt number, an expired lease, or a job that is not running) changes neither documents, nor
-- revisions, nor jobs by any of the four statements, and gets none.
pub completion_call-fenced :
    (call : CompletionCall) (a : Attempt) (now : ℕ) (db : Db)
    → IsSound db.jobs
    → All (λ j. is_owned a.job_id a.lease_owner a.attempt now j ≡ false) db.jobs
    → completion_call call a now db ≡ ok (db, none)
unfolding complete_replacement_for_job complete_deletion_for_job complete_reindex_for_job
    versions_checked transition_status_for_job transition_under
completion_call-fenced replaces a now db s fence =
    completing_nothing now (is_attempt a now) _ db s (
      fence-All (is_owned a.job_id a.lease_owner a.attempt now) _ db.jobs
        (λ j f. unfold is_attempt in ground arith) fence)
completion_call-fenced deletes a now db s fence =
    completing_nothing now (is_deletion_attempt a now db) _ db s (
      fence-All (is_owned a.job_id a.lease_owner a.attempt now) _ db.jobs
        (λ j f. unfold is_deletion_attempt is_attempt in ground arith) fence)
completion_call-fenced (reindexes v) a now db s fence =
    rw
      (completing_nothing now (is_reindex_attempt a now db) (rebuilt a v) db s (
        fence-All (is_owned a.job_id a.lease_owner a.attempt now) _ db.jobs
          (λ j f. unfold is_reindex_attempt is_attempt in ground arith) fence))
      refl
completion_call-fenced (moves from_status to_status) a now db s fence =
    ap (λ job. ok (transition_under now a from_status to_status db job))
      (find?-none (is_attempt_on_document a now) db.jobs (
        fence-All (is_owned a.job_id a.lease_owner a.attempt now) _ db.jobs
          (λ j f. unfold is_attempt_on_document in ground arith) fence))

pub none_of_any :
    (test : JobRow → Bool) (rows : Jobs) → any test rows ≡ false → All (λ j. test j ≡ false) rows
unfolding any
none_of_any test [] h = tt
none_of_any test (r ∷ rows) h = elim (Bool-cases (test r)) [
  | inl e ↦ absurd (cc (rw e at h))
  | inr e ↦ (e, none_of_any test rows (rw e at h))
]

-- What the EXISTS clause finds.
pub candidate-row :
    (a : Attempt) (status : DocumentStatus) (test : DocumentRevision → Bool) (db : Db)
    → is_candidate a status test db ≡ true
    → (d : DocumentRow) × (r : DocumentRevision) × (find_document a.workspace_id a.document_id
          db.documents
        ≡ some d)
      × (active_row d db.revisions ≡ some r)
      × ((status_eq d.status status && holds d.active_revision (λ n. n == a.revision)) ≡ true)
      × (test r ≡ true)
unfolding is_candidate
candidate-row a status test db h =
    elim (Option-cases (find_document a.workspace_id a.document_id db.documents)) [
      | inl nothing ↦ absurd (cc (rw nothing at h))
      | inr (d, found) ↦ elim (Option-cases (active_row d db.revisions)) [
        | inl gone ↦ absurd (ground (arith, rw (found, gone) at h))
        | inr (r, active) ↦
            let k = rw (found, active) at h in
            (d, r, found, active, ground (arith, k), ground (arith, k))
      ]
    ]

deletion_attempt-owned :
    (a : Attempt) (now : ℕ) (db : Db) (j : JobRow)
    → is_deletion_attempt a now db j ≡ true
    → is_owned a.job_id a.lease_owner a.attempt now j ≡ true
unfolding is_deletion_attempt is_attempt
deletion_attempt-owned a now db j h = ground arith

deletion_attempt-candidate :
    (a : Attempt) (now : ℕ) (db : Db) (j : JobRow)
    → is_deletion_attempt a now db j ≡ true
    → is_candidate a deleting (λ r. true) db ≡ true
unfolding is_deletion_attempt
deletion_attempt-candidate a now db j h = ground arith

update_document_lem :
    (workspace_id document_id : ℕ) (revision_of : DocumentRow → Option DocumentRevision)
    (test : DocumentRow → Bool) (change : DocumentRow → DocumentRevision → DocumentRow) (db : Db)
    (d : DocumentRow) (r : DocumentRevision)
    → find_document workspace_id document_id db.documents ≡ some d
    → revision_of d ≡ some r
    → test d ≡ true
    → update_document workspace_id document_id revision_of test change db ≡ (
      record db { documents = update_where (λ q. q.id == d.id) (λ q. change d r) db.documents },
      some (document_of (change d r) r),
    )
unfolding update_document
update_document_lem workspace_id document_id revision_of test change db d r there joined passes =
    (ap (update_found revision_of test change db) there)
    ∙ (ap (update_joined revision_of test change db d) joined)
    ∙ (rw passes refl)

-- A deletion completes its job and marks the document together: on a sound table of jobs that was
-- not changed after the transaction began, either no job is the attempt's and nothing changes, or
-- a job of the table is leased to the attempt, is its deletion and succeeds, and the document is
-- there, was DELETING, and is deleted with its other columns kept.
pub complete_deletion_for_job_lem :
    (a : Attempt) (now : ℕ) (db : Db)
    → IsSound db.jobs
    → IsPast now db.jobs
    → ((any (is_deletion_attempt a now db) db.jobs ≡ false)
        × (complete_deletion_for_job a now db ≡ ok (db, none)))
      ⊎ ((j : JobRow) × Memᴰ j db.jobs
          × (is_owned a.job_id a.lease_owner a.attempt now j ≡ true)
          × (is_deletion_attempt a now db j ≡ true)
          × ((completed now j).status ≡ succeeded)
          × (d : DocumentRow) × (r : DocumentRevision) × (find_document a.workspace_id a.document_id
                db.documents
              ≡ some d)
          × (active_row d db.revisions ≡ some r)
          × (status_eq d.status deleting ≡ true)
          × (complete_deletion_for_job a now db ≡ (
              let d' = record d { status = deleted; updated_at = now } in
              ok (
                record db {
                  documents = update_where (λ q. q.id == d.id) (λ q. d') db.documents;
                  jobs = update_where (is_deletion_attempt a now db) (completed now) db.jobs;
                },
                some (document_of d' r),
              ))))
unfolding complete_deletion_for_job
complete_deletion_for_job_lem a now db s past =
    elim (Bool-cases (any (is_deletion_attempt a now db) db.jobs)) [
      | inr nothing ↦ inl (
        nothing,
        completing_nothing now (is_deletion_attempt a now db) _ db s
            (none_of_any (is_deletion_attempt a now db) db.jobs nothing),
      )
      | inl found ↦
          let (j, listed, admitted) = any-witness (is_deletion_attempt a now db) db.jobs found in
          let (d, r, there, active, waiting, t) =
            candidate-row a deleting (λ r. true) db
              (deletion_attempt-candidate a now db j admitted) in
          inr (
            j,
            listed,
            deletion_attempt-owned a now db j admitted,
            admitted,
            unfold completed in refl,
            d,
            r,
            there,
            active,
            (both_of_and _ _ waiting).0,
            (completing_done now (is_deletion_attempt a now db) _ db s a.job_id a.lease_owner
                  a.attempt (λ j h. deletion_attempt-owned a now db j h) past found)
                ∙ (ap ok (
                    update_document_lem a.workspace_id a.document_id
                      (λ q. active_row q db.revisions) _ _ _ d r there active waiting)),
          )
    ]
