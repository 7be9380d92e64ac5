-- ===== src/Worker/Service/Fence.antt =====
-- A worker whose attempt is not current any more: what it does leaves documents and jobs alone.
use graph_blizz.Prelude.{
  ℕ, ◌≡◌, refl, sym, ap, subst, false, not, ◌&&◌, ◌||◌, Bool-cases, inl, inr, Option, none, some,
  List, String, All, Result, ok, err, ◌==◌,
}
use graph_blizz.Errors.{Exn, value_error}
use graph_blizz.Jobs.Models.{JobType, index_document, delete_document, reindex_document, Job}
use graph_blizz.Jobs.Repository.{Jobs, is_owned}
use graph_blizz.Jobs.Repository.Soundness.{IsSound}
use graph_blizz.Documents.Models.{
  DocumentStatus, uploaded, indexing, ready, updating, failed, Document,
}
use graph_blizz.Documents.Db.{Db, DocumentRow}
use graph_blizz.Documents.World.{World, Faults, statement_at}
use graph_blizz.Documents.World.Ensures.{Outcome, Ensures, bind, given}
use graph_blizz.Documents.Repository.Completion.{
  complete_replacement_for_job, complete_deletion_for_job, complete_reindex_for_job,
}
use graph_blizz.Documents.Repository.Completion.Outcome.{
  CompletionCall, replaces, deletes, reindexes, moves, completion_call, completion_call-fenced,
}
use graph_blizz.Indexing.Service.{Environment, move, swallowed, mark_failed, index_started, index}
use graph_blizz.Security.Models.{AuthorizedWorkspaceContext}
use graph_blizz.Indexing.Service.Rules.{required-Ensures}
use graph_blizz.Worker.Service.{
  Settings, attempt_of, leased_transition, is_in, is_indexing, finish, owner_or_blank, attempt_in,
  versions_of, is_job_revision, reindex_job, replace_job, delete_job, index_job, index_or_replace,
  process_as, reset, reset_if_retried, process_found, process_document, process_leased,
  process_locked, process,
}
use graph_blizz.Worker.Service.Steps.{working}
use graph_blizz.Worker.Service.Keeping.{
  Kept, Keeps, >>=-Keeps, clocked-Keeps, with_connection-Keeps, keeping,
}

kept_tables :
    {A : Type 0} (documents : List DocumentRow) (jobs : Jobs) (r : Result Exn A × World)
    → Outcome (λ a. Kept documents jobs) (Kept documents jobs) r
    → (r.1.committed.documents ≡ documents) × (r.1.committed.jobs ≡ jobs)
kept_tables documents jobs (ok a, w) h = (h.0, h.1)
kept_tables documents jobs (err e, w) h = (h.0, h.1)

-- The attempt of a job that no row of the table is leased to when a statement begins.
module _ (documents : List DocumentRow) (jobs : Jobs) (s : IsSound jobs) (env : Environment)
    (job : Job) (owner : String)
    (stale : (n : ℕ)
      → All (λ j. is_owned job.id owner job.attempts (env.clock n) j ≡ false) jobs) where
  -- Each of the fenced statements gets nothing and changes nothing.
  fenced-Keeps :
      (c : CompletionCall) (workspace_id document_id : ℕ)
      → Keeps documents jobs (
          statement_at env.clock
            (λ now. completion_call c (attempt_of job owner workspace_id document_id) now))
  fenced-Keeps c workspace_id document_id =
      clocked-Keeps documents jobs env.clock _ (λ n k db a d j e.
        let a' = attempt_of job owner workspace_id document_id in
        let nothing = completion_call-fenced c a' (env.clock n) k (subst IsSound (sym j) s) (
          subst (λ t. All (λ j. is_owned job.id owner job.attempts (env.clock n) j ≡ false) t)
            (sym j) (stale n)) in
        let same : k ≡ db = cc (nothing, e) in
        (
          subst (λ (t : Db). t.documents ≡ documents) same d,
          subst (λ (t : Db). t.jobs ≡ jobs) same j,
        ))

  move-Keeps :
      (document : Document) (from_status to_status : DocumentStatus)
      → Keeps documents jobs (move env (leased_transition job owner) document from_status to_status)
  unfolding move
  move-Keeps document from_status to_status =
      >>=-Keeps documents jobs _ _
        (fenced-Keeps (moves from_status to_status) document.workspace_id document.id)
        (λ moved. search keeping)

  swallowed-Kept :
      (A : Type 0) (r : Result Exn A × World)
      → Outcome (λ a. Kept documents jobs) (Kept documents jobs) r
      → Outcome (λ u. Kept documents jobs) (Kept documents jobs) (swallowed r)
  swallowed-Kept A (ok a, w) h = h
  swallowed-Kept A (err e, w) h = h

  mark_failed-Keeps :
      (document : Document)
      → Keeps documents jobs (mark_failed env (leased_transition job owner) document)
  unfolding mark_failed
  mark_failed-Keeps document = record {
    run = record {
      run = λ faults w h.
          swallowed-Kept Document _ ((move-Keeps document indexing failed).run.run faults w h);
    };
  }

  index_started-Keeps :
      (context : AuthorizedWorkspaceContext) (document : Document)
      → Keeps documents jobs (index_started env (leased_transition job owner) context document)
  unfolding index_started
  index_started-Keeps context document = search (working, move-Keeps)

  index-Keeps :
      (context : AuthorizedWorkspaceContext) (document : Document)
      → Keeps documents jobs (index env (leased_transition job owner) context document)
  unfolding index
  index-Keeps context document = elim (Bool-cases (document.workspace_id == context.workspace_id)) [
    | inl here ↦ rw here (search (keeping, move-Keeps, mark_failed-Keeps, index_started-Keeps))
    | inr elsewhere ↦ rw elsewhere (search keeping)
  ]

  finish-Keeps :
      (c : CompletionCall) (workspace_id document_id : ℕ)
      → Keeps documents jobs (
          finish env (λ now. completion_call c (attempt_of job owner workspace_id document_id) now))
  unfolding finish
  finish-Keeps c workspace_id document_id =
      >>=-Keeps documents jobs _ _ (fenced-Keeps c workspace_id document_id)
        (λ done. search keeping)

  module _ (held : job.lease_owner ≡ some owner) where
    finish_held-Keeps :
        (c : CompletionCall) (workspace_id document_id : ℕ)
        → Keeps documents jobs (
            finish env (λ now.
              completion_call c
                (attempt_of job (owner_or_blank job.lease_owner) workspace_id document_id)
                now))
    finish_held-Keeps c workspace_id document_id =
        subst
          (λ o.
            Keeps documents jobs (
              finish env
                (λ now. completion_call c (attempt_of job o workspace_id document_id) now)))
          (sym (ap owner_or_blank held)) (finish-Keeps c workspace_id document_id)

    finish_reindex-Keeps :
        (context : AuthorizedWorkspaceContext) (document : Document)
        → Keeps documents jobs (
            finish env
              (complete_reindex_for_job (attempt_in context document job) (versions_of context)))
    finish_reindex-Keeps context document =
        finish_held-Keeps (reindexes (versions_of context)) context.workspace_id document.id

    reindex_job-Keeps :
        (context : AuthorizedWorkspaceContext) (document : Document)
        → Keeps documents jobs (reindex_job env context document job)
    unfolding reindex_job
    reindex_job-Keeps context document = search (working, finish_reindex-Keeps) depth 12

    finish_replace-Keeps :
        (context : AuthorizedWorkspaceContext) (document : Document)
        → Keeps documents jobs
            (finish env (complete_replacement_for_job (attempt_in context document job)))
    finish_replace-Keeps context document =
        finish_held-Keeps replaces context.workspace_id document.id

    replace_job-Keeps :
        (context : AuthorizedWorkspaceContext) (active_document replacement : Document)
        → Keeps documents jobs (replace_job env context active_document replacement job)
    unfolding replace_job
    replace_job-Keeps context active_document replacement =
        search (working, finish_replace-Keeps) depth 12

    finish_delete-Keeps :
        (context : AuthorizedWorkspaceContext) (document : Document)
        → Keeps documents jobs
            (finish env (complete_deletion_for_job (attempt_in context document job)))
    finish_delete-Keeps context document =
        finish_held-Keeps deletes context.workspace_id document.id

    delete_job-Keeps :
        (context : AuthorizedWorkspaceContext) (document : Document)
        → Keeps documents jobs (delete_job env context document job)
    unfolding delete_job
    delete_job-Keeps context document = search (working, finish_delete-Keeps) depth 12

    index_job-Keeps :
        (context : AuthorizedWorkspaceContext) (document : Document)
        → Keeps documents jobs (index_job env context document job owner)
    unfolding index_job
    index_job-Keeps context document = search (keeping, index-Keeps)

    index_or_replace-Keeps :
        (context : AuthorizedWorkspaceContext) (document : Document)
        (active_document : Option Document)
        → Keeps documents jobs (index_or_replace env context document active_document job owner)
    unfolding index_or_replace
    index_or_replace-Keeps context document none = index_job-Keeps context document
    index_or_replace-Keeps context document (some other) =
        elim (Bool-cases (is_in updating document && not (is_job_revision other job))) [
          | inl replaced ↦ rw replaced (replace_job-Keeps context other document)
          | inr indexed ↦ rw indexed (index_job-Keeps context document)
        ]

    process_as-Keeps :
        (job_type : JobType) (context : AuthorizedWorkspaceContext) (document : Document)
        (active_document : Option Document)
        → Keeps documents jobs (process_as job_type env context document active_document job owner)
    unfolding process_as
    process_as-Keeps index_document context document active_document =
        index_or_replace-Keeps context document active_document
    process_as-Keeps delete_document context document active_document =
        delete_job-Keeps context document
    process_as-Keeps reindex_document context document active_document =
        reindex_job-Keeps context document

    reset_first-Keeps :
        (workspace_id : ℕ) (document : Document)
        → Keeps documents jobs (
            statement_at env.clock
              (leased_transition job owner workspace_id document.id document.status uploaded))
    reset_first-Keeps workspace_id document =
        fenced-Keeps (moves document.status uploaded) workspace_id document.id

    reset-Keeps :
        (workspace_id : ℕ) (document : Document)
        → Keeps documents jobs (reset env workspace_id document job owner)
    unfolding reset
    reset-Keeps workspace_id document =
        >>=-Keeps documents jobs _ _ (reset_first-Keeps workspace_id document)
          (λ moved. search keeping)

    reset_if_retried-Keeps :
        (workspace_id : ℕ) (document : Document)
        → Keeps documents jobs (reset_if_retried env workspace_id document job owner)
    unfolding reset_if_retried
    reset_if_retried-Keeps workspace_id document =
        elim (Bool-cases (is_in failed document || is_in indexing document)) [
          | inl again ↦ rw again (reset-Keeps workspace_id document)
          | inr fresh ↦ rw fresh (search keeping)
        ]

    process_document-Keeps :
        (settings : Settings) (workspace_id : ℕ) (document : Document)
        → Keeps documents jobs (process_document env settings job owner workspace_id document)
    unfolding process_document process_found
    process_document-Keeps settings workspace_id document =
        elim (Bool-cases (is_in ready document && is_indexing job.type)) [
          | inl done ↦ rw done (search keeping)
          | inr rest ↦ rw rest (search (working, reset_if_retried-Keeps, process_as-Keeps) depth 14)
        ]

    process_leased-Keeps :
        (settings : Settings) → Keeps documents jobs (process_leased env settings job owner)
    unfolding process_leased
    process_leased-Keeps settings = search (keeping, process_document-Keeps) depth 14

    process_locked-Keeps :
        (settings : Settings) → Keeps documents jobs (process_locked env settings job)
    unfolding process_locked
    process_locked-Keeps settings = >>=-Keeps documents jobs _ _ (search keeping) (λ u. record {
      run =
          bind
            (λ lease_owner c k o l.
              Kept documents jobs c k o l × (job.lease_owner ≡ some lease_owner))
            (required-Ensures job.lease_owner value_error)
            (λ lease_owner. given (λ same.
              subst
                (λ (o : String).
                  Ensures (Kept documents jobs) (process_leased env settings job o)
                    (λ a. Kept documents jobs) (Kept documents jobs))
                (cc (held, same)) (process_leased-Keeps settings).run));
    })

    process-Keeps : (settings : Settings) → Keeps documents jobs (process env settings job)
    unfolding process
    process-Keeps settings = with_connection-Keeps documents jobs _ (process_locked-Keeps settings)

-- A worker that has lost its lease changes no document and no job, whichever calls raise: if on a sound
-- table of jobs, when any statement of the processing begins, no row is leased to the owner and attempt
-- of its job (another owner or attempt, a job that is not running, or a lease that has expired by then),
-- processing the job leaves the committed documents and the committed jobs as they were, whatever kind
-- of job it is and whether it returns or raises. The calls of LightRAG are not fenced.
pub process-fenced :
    (env : Environment) (settings : Settings) (job : Job) (owner : String) (faults : Faults)
    (w : World)
    → job.lease_owner ≡ some owner
    → IsSound w.committed.jobs
    → ((n : ℕ)
        → All (λ j. is_owned job.id owner job.attempts (env.clock n) j ≡ false) w.committed.jobs)
    → w.working ≡ w.committed
    → let after = (process env settings job faults w).1 in
      (after.committed.documents ≡ w.committed.documents)
      × (after.committed.jobs ≡ w.committed.jobs)
process-fenced env settings job owner faults w held s stale fresh =
    kept_tables w.committed.documents w.committed.jobs (process env settings job faults w) (
      (process-Keeps w.committed.documents w.committed.jobs s env job owner stale held
          settings).run.run
        faults w (refl, refl, ap (λ (t : Db). t.documents) fresh, ap (λ (t : Db). t.jobs) fresh))
