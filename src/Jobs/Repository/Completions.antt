-- ===== src/Jobs/Repository/Completions.antt =====
-- What the statements that change documents, or read them, leave in the table of jobs.
use graph_blizz.Prelude.{
  ℕ, ◌≡◌, refl, sym, ap, subst, ◌∙◌, arith, Bool, true, Bool-cases, inl, inr, ◌⊎◌, Option, none,
  some, List, ◌++◌, is_empty, update_where, ok, >>=-eq-ok,
}
use graph_blizz.Jobs.Models.{Job}
use graph_blizz.Jobs.Rows.{JobRow}
use graph_blizz.Jobs.Repository.{
  Jobs, table_checks, checked, update_returning, fetch_jobs, is_owned, completed,
}
use graph_blizz.Documents.Models.{DocumentStatus, Document, DocumentRevision}
use graph_blizz.Documents.Db.{Db, DocumentRow, update_document, update_found, update_joined}
use graph_blizz.Documents.Repository.Completion.{
  Attempt, is_attempt, is_deletion_attempt, is_reindex_attempt, active_row, completing,
  complete_replacement_for_job, complete_deletion_for_job, Versions, rebuilt, rebuilt_found,
  rebuilt_joined, versions_checked, complete_reindex_for_job, transition_under,
  transition_status_for_job, create_workspace_reindex,
}
use graph_blizz.Documents.Repository.Completion.Outcome.{
  CompletionCall, replaces, deletes, reindexes, moves, completion_call,
}

-- What is read back from a statement that did not raise.
pub checked-eq-ok :
    {A : Type 0} (a b : A) (rows rows' : Jobs)
    → checked a rows ≡ ok (rows', b)
    → (rows' ≡ rows) × (table_checks rows ≡ true)
unfolding checked
checked-eq-ok a b rows rows' h = ground arith

module _ (revision_of : DocumentRow → Option DocumentRevision) (test : DocumentRow → Bool)
    (change : DocumentRow → DocumentRevision → DocumentRow) (db : Db) where
  update_joined-jobs :
      (d : DocumentRow) (r : Option DocumentRevision)
      → (update_joined revision_of test change db d r).0.jobs ≡ db.jobs
  update_joined-jobs d none = refl
  update_joined-jobs d (some r) = elim (Bool-cases (test d)) [
    | inl e ↦ rw e refl
    | inr e ↦ rw e refl
  ]

  update_found-jobs :
      (d : Option DocumentRow) → (update_found revision_of test change db d).0.jobs ≡ db.jobs
  update_found-jobs none = refl
  update_found-jobs (some d) = update_joined-jobs d (revision_of d)

  update_document-jobs :
      (workspace_id document_id : ℕ)
      → (update_document workspace_id document_id revision_of test change db).0.jobs ≡ db.jobs
  unfolding update_document
  update_document-jobs workspace_id document_id = update_found-jobs _

rebuilt_joined-jobs :
    (a : Attempt) (v : Versions) (db : Db) (d : DocumentRow) (r : Option DocumentRevision)
    → (rebuilt_joined a v db d r).0.jobs ≡ db.jobs
unfolding rebuilt_joined
rebuilt_joined-jobs a v db d none = refl
rebuilt_joined-jobs a v db d (some r) = ground arith

rebuilt_found-jobs :
    (a : Attempt) (v : Versions) (db : Db) (d : Option DocumentRow)
    → (rebuilt_found a v db d).0.jobs ≡ db.jobs
unfolding rebuilt_found
rebuilt_found-jobs a v db none = refl
rebuilt_found-jobs a v db (some d) = rebuilt_joined-jobs a v db d (active_row d db.revisions)

rebuilt-jobs : (a : Attempt) (v : Versions) (db : Db) → (rebuilt a v db).0.jobs ≡ db.jobs
unfolding rebuilt
rebuilt-jobs a v db = rebuilt_found-jobs a v db _

-- The table of jobs after a statement with `completed_job`.
abbrev pub Completes : Attempt → ℕ → Jobs → Jobs → Type 0
Completes a now rows rows' =
    (test : JobRow → Bool) × ((j : JobRow)
      → test j ≡ true
      → is_owned a.job_id a.lease_owner a.attempt now j ≡ true)
    × (rows' ≡ update_where test (completed now) rows)
    × (table_checks rows' ≡ true)

completing-eq-ok :
    (a : Attempt) (now : ℕ) (test : JobRow → Bool) (step : Db → Db × Option Document) (db db' : Db)
    (document : Option Document)
    → ((j : JobRow) → test j ≡ true → is_owned a.job_id a.lease_owner a.attempt now j ≡ true)
    → ((t : Db) → (step t).0.jobs ≡ t.jobs)
    → completing now test step db ≡ ok (db', document)
    → Completes a now db.jobs db'.jobs
unfolding completing update_returning
completing-eq-ok a now test step db db' document owned keeps h =
    let (r, first, last) = >>=-eq-ok (update_returning test (completed now) db.jobs) _ h in
    let (same, checks) = checked-eq-ok _ r.1 _ r.0 first in
    let kept : db'.jobs ≡ r.0 = elim (Bool-cases (is_empty r.1)) [
      | inl e ↦
          let done : record db { jobs = r.0 } ≡ db' = cc (rw e at last) in
          sym (ap (λ (t : Db). t.jobs) done)
      | inr e ↦
          let done : step (record db { jobs = r.0 }) ≡ (db', document) = cc (rw e at last) in
          sym (ap (λ (p : Db × Option Document). p.0.jobs) done) ∙ keeps (record db { jobs = r.0 })
    ] in
    (test, owned, kept ∙ same, subst (λ t. table_checks t ≡ true) (sym (kept ∙ same)) checks)

under-jobs :
    (now : ℕ) (a : Attempt) (from_status to_status : DocumentStatus) (db : Db) (j : Option JobRow)
    → (transition_under now a from_status to_status db j).0.jobs ≡ db.jobs
unfolding transition_under
under-jobs now a from_status to_status db none = refl
under-jobs now a from_status to_status db (some j) =
    update_document-jobs _ _ _ db a.workspace_id a.document_id

versions_checked-eq-ok :
    (v : Versions) (done : Db × Option Document) (db' : Db) (document : Option Document)
    → versions_checked v done ≡ ok (db', document)
    → done ≡ (db', document)
unfolding versions_checked
versions_checked-eq-ok v (db, none) db' document h = cc
versions_checked-eq-ok v (db, some d) db' document h = ground arith

-- A statement that completes or moves a document under a lease completes jobs of its attempt, or leaves
-- the table of jobs as it is.
pub completion_call-jobs :
    (call : CompletionCall) (a : Attempt) (now : ℕ) (db db' : Db) (document : Option Document)
    → completion_call call a now db ≡ ok (db', document)
    → Completes a now db.jobs db'.jobs ⊎ (db'.jobs ≡ db.jobs)
unfolding complete_replacement_for_job complete_deletion_for_job complete_reindex_for_job
    transition_status_for_job is_deletion_attempt is_reindex_attempt is_attempt
completion_call-jobs replaces a now db db' document h = inl (
    completing-eq-ok a now _ _ db db' document (λ j t. ground arith)
      (λ q. update_document-jobs _ _ _ q a.workspace_id a.document_id) h)
completion_call-jobs deletes a now db db' document h = inl (
    completing-eq-ok a now _ _ db db' document (λ j t. ground arith)
      (λ q. update_document-jobs _ _ _ q a.workspace_id a.document_id) h)
completion_call-jobs (reindexes v) a now db db' document h =
    let (done, first, last) =
      >>=-eq-ok (completing now (is_reindex_attempt a now db) (rebuilt a v) db) (versions_checked v)
        h in
    let same = versions_checked-eq-ok v done db' document last in
    inl (
      completing-eq-ok a now _ _ db db' document (λ j t. ground arith) (λ q. rebuilt-jobs a v q)
        (first ∙ ap ok same))
completion_call-jobs (moves from_status to_status) a now db db' document h =
    let done : transition_status_for_job now a from_status to_status db ≡ (db', document) = cc h in
    inr (
      sym (ap (λ (p : Db × Option Document). p.0.jobs) done)
      ∙ under-jobs now a from_status to_status db _)

-- The jobs of maintenance come behind those that are there.
pub create_workspace_reindex-jobs :
    (job_id_of : ℕ → ℕ) (now workspace_id : ℕ) (db db' : Db) (jobs : List Job)
    → create_workspace_reindex job_id_of now workspace_id db ≡ ok (db', jobs)
    → (more : Jobs) × (db'.jobs ≡ db.jobs ++ more) × (table_checks db'.jobs ≡ true)
unfolding create_workspace_reindex
create_workspace_reindex-jobs job_id_of now workspace_id db db' jobs h =
    let (r, first, rest) = >>=-eq-ok (checked tt (db.jobs ++ _)) _ h in
    let (found, fetched, last) = >>=-eq-ok (fetch_jobs _) _ rest in
    let (same, checks) = checked-eq-ok tt r.1 _ r.0 first in
    let done : record db { jobs = r.0 } ≡ db' = cc last in
    let kept : db'.jobs ≡ r.0 = sym (ap (λ (t : Db). t.jobs) done) in
    (_, kept ∙ same, subst (λ t. table_checks t ≡ true) (sym (kept ∙ same)) checks)
