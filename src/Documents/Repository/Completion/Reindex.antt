-- ===== src/Documents/Repository/Completion/Reindex.antt =====
-- What a completed rebuild leaves: the job, and the versions of the revision.
use mathlib.Core.List.{Memᴰ}
use graph_blizz.Prelude.{
  both_of_and, subst, ◌>>=◌, ltb, ℕ, ◌≡◌, refl, ap, ◌∙◌, arith, Bool, true, false, ◌&&◌, none, some,
  List, [], ◌∷◌, holds, any, find?, update_where, Bool-cases, inl, inr, ◌⊎◌, ok, ◌==◌, Option-cases,
}
use graph_blizz.Jobs.Models.{succeeded}
use graph_blizz.Jobs.Rows.{JobRow}
use graph_blizz.Jobs.Repository.{is_owned, completed}
use graph_blizz.Jobs.Repository.Soundness.{IsSound}
use graph_blizz.Jobs.Repository.Lease.{IsPast}
use graph_blizz.Documents.Models.{DocumentRevision}
use graph_blizz.Documents.Db.{Db, DocumentRow, find_document, document_of, status_eq}
use graph_blizz.Documents.Repository.Completion.{
  Attempt, is_attempt, is_reindex_attempt, versions_checked, active_row, is_candidate, Versions,
  rebuilt, complete_reindex_for_job,
}
use graph_blizz.Documents.Models.{ready}
use graph_blizz.Documents.Db.{find_revision}
use graph_blizz.Documents.Repository.Completion.{rebuilt_joined, rebuilt_found, reindexed}
use graph_blizz.Documents.Repository.Completion.Outcome.{
  any-witness, none_of_any, completing_nothing, completing_done, candidate-row,
}

pub find?-test :
    {A : Type 0} (test : A → Bool) (xs : List A) (a : A) → find? test xs ≡ some a → test a ≡ true
unfolding find?
find?-test test [] a h = cc
find?-test test (x ∷ xs) a h = elim (Bool-cases (test x)) [
  | inl e ↦ subst (λ y. test y ≡ true) (cc (rw e at h)) e
  | inr e ↦ find?-test test xs a (rw e at h)
]

reindex_attempt-owned :
    (a : Attempt) (now : ℕ) (db : Db) (j : JobRow)
    → is_reindex_attempt a now db j ≡ true
    → is_owned a.job_id a.lease_owner a.attempt now j ≡ true
unfolding is_reindex_attempt is_attempt
reindex_attempt-owned a now db j h = ground arith

reindex_attempt-candidate :
    (a : Attempt) (now : ℕ) (db : Db) (j : JobRow)
    → is_reindex_attempt a now db j ≡ true
    → is_candidate a ready (λ r. r.requires_reindex) db ≡ true
unfolding is_reindex_attempt
reindex_attempt-candidate a now db j h = ground arith

-- The active revision of a document has the number that the document names.
active_row-revision :
    (d : DocumentRow) (revisions : List DocumentRevision) (r : DocumentRevision) (number : ℕ)
    → active_row d revisions ≡ some r
    → holds d.active_revision (λ n. n == number) ≡ true
    → (r.revision == number) ≡ true
active_row-revision d revisions r number h k = elim (Option-cases d.active_revision) [
  | inl inactive ↦ absurd (cc (rw inactive at k))
  | inr (n, active) ↦
      let found =
        find?-test (λ q. q.document_id == d.id && q.revision == n) revisions r
          (unfold find_revision in rw active at h) in
      let same = rw active at k in ground (arith, found, same)
]

rebuilt_lem :
    (a : Attempt) (v : Versions) (db : Db) (d : DocumentRow) (r : DocumentRevision)
    → find_document a.workspace_id a.document_id db.documents ≡ some d
    → active_row d db.revisions ≡ some r
    → (status_eq d.status ready && r.revision == a.revision && r.requires_reindex) ≡ true
    → rebuilt a v db ≡ (
      record db {
        revisions =
            update_where
              (λ q. q.document_id == d.id && q.revision == a.revision)
              (reindexed v)
              db.revisions;
      },
      some (document_of d r),
    )
unfolding rebuilt rebuilt_found rebuilt_joined
rebuilt_lem a v db d r there active marked =
    (ap (rebuilt_found a v db) there) ∙ (ap (rebuilt_joined a v db d) active) ∙ (rw marked refl)

all_three : (b c d : Bool) → b ≡ true → c ≡ true → d ≡ true → (b && c && d) ≡ true
all_three b c d h k l = ground arith

-- A rebuild completes its job and confirms the versions together: with positive versions, on a
-- sound table of jobs that was not changed after the transaction began, either no job is the
-- attempt's and nothing changes, or a job of the table is leased to the attempt, is its rebuild and
-- succeeds, and the active revision of the READY document, which was marked, takes the versions and
-- loses its mark. The document that is returned still shows the revision as it was.
pub complete_reindex_for_job_lem :
    (a : Attempt) (v : Versions) (now : ℕ) (db : Db)
    → (ltb 0 v.parser_version && ltb 0 v.chunk_schema_version && ltb 0 v.index_schema_version)
      ≡ true
    → IsSound db.jobs
    → IsPast now db.jobs
    → ((any (is_reindex_attempt a now db) db.jobs ≡ false)
        × (complete_reindex_for_job a v now db ≡ ok (db, none)))
      ⊎ ((j : JobRow) × Memᴰ j db.jobs
          × (is_owned a.job_id a.lease_owner a.attempt now j ≡ true)
          × (is_reindex_attempt a now db j ≡ true)
          × ((completed now j).status ≡ succeeded)
          × (d : DocumentRow) × (r : DocumentRevision) × (find_document a.workspace_id a.document_id
                db.documents
              ≡ some d)
          × (active_row d db.revisions ≡ some r)
          × (status_eq d.status ready ≡ true)
          × (r.requires_reindex ≡ true)
          × (complete_reindex_for_job a v now db
              ≡ ok (
                record db {
                  revisions =
                      update_where
                        (λ q. q.document_id == d.id && q.revision == a.revision)
                        (reindexed v)
                        db.revisions;
                  jobs = update_where (is_reindex_attempt a now db) (completed now) db.jobs;
                },
                some (document_of d r),
              )))
unfolding complete_reindex_for_job versions_checked
complete_reindex_for_job_lem a v now db positive s past =
    let test = is_reindex_attempt a now db in
    elim (Bool-cases (any test db.jobs)) [
      | inr nothing ↦ inl (
        nothing,
        ap (λ done. done >>= versions_checked v)
            (completing_nothing now test (rebuilt a v) db s (none_of_any test db.jobs nothing)),
      )
      | inl found ↦
          let (j, listed, admitted) = any-witness test db.jobs found in
          let (d, r, there, active, waiting, marked) =
            candidate-row a ready (λ r. r.requires_reindex) db
              (reindex_attempt-candidate a now db j admitted) in
          let numbered =
            active_row-revision d db.revisions r a.revision active (both_of_and _ _ waiting).1 in
          let kept = both_of_and _ _ waiting in
          inr (
            j,
            listed,
            reindex_attempt-owned a now db j admitted,
            admitted,
            unfold completed in refl,
            d,
            r,
            there,
            active,
            kept.0,
            marked,
            (ap (λ done. done >>= versions_checked v)
                  (completing_done now test (rebuilt a v) db s a.job_id a.lease_owner a.attempt
                    (λ j h. reindex_attempt-owned a now db j h) past found))
                ∙ (ap (versions_checked v) (
                    rebuilt_lem a v (record db { jobs = update_where test (completed now) db.jobs })
                      d r there active (all_three _ _ _ kept.0 numbered marked)))
                ∙ (rw positive refl),
          )
    ]
