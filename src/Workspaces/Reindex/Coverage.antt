-- ===== src/Workspaces/Reindex/Coverage.antt =====
-- After a change of the index contract every ready document of the workspace has an active job.
use mathlib.Core.List.{Memᴰ}
use mathlib.Core.List.Memᴰ
use graph_blizz.Prelude.{
  ℕ, ◌≡◌, refl, sym, ap, subst, ◌∙◌, arith, Bool, true, false, ◌&&◌, ◌||◌, ◌⊎◌, Bool-cases, inl,
  inr, Option, some, List, [], ◌∷◌, ◌++◌, any, filter, filter-mem, map, update_where, Result, ok,
  >>=-eq-ok, ◌==◌, ltb, leb,
}
use graph_blizz.Jobs.Models.{Job, is_active}
use graph_blizz.Jobs.Rows.{JobRow}
use graph_blizz.Jobs.Repository.{Jobs, checked, table_checks, fetch_jobs}
use graph_blizz.Documents.Models.{DocumentRevision, ready, deleted}
use graph_blizz.Documents.Db.{Db, DocumentRow, WorkspaceRow, find_revision, status_eq}
use graph_blizz.Documents.Repository.{insert_before, in_creation_order}
use graph_blizz.Documents.Repository.Completion.{
  is_active_workspace, needs_reindex, reindex_row, create_workspace_reindex,
}
use graph_blizz.Indexing.Versions.{IndexContract}
use graph_blizz.Workspaces.Repository.{
  get_workspace, has_contract, with_contract, is_marked_by, marked, workspace_checks,
  change_contract, ensure_found, ensure_index_contract,
}
use graph_blizz.Documents.Repository.Completion.Reindex.{find?-test}
use graph_blizz.Documents.World.{World, Faults, rollback}
use graph_blizz.Documents.World.Ensures.{
  Condition, Outcome, Ensures, bind, weaken, returns, states, commits, rolls_back,
}
use graph_blizz.Documents.World.Blocks.{excepts}
use graph_blizz.Indexing.Provenance.Written.{Called, Called-start}
use graph_blizz.Workspaces.Reindex.{enqueue}
use graph_blizz.Workspaces.Repository.Contract.{active_row-marked, workspace-stays, any-mem}

any-append :
    {A : Type 0} (test : A → Bool) (xs ys : List A)
    → any test (xs ++ ys) ≡ (any test xs || any test ys)
unfolding any
any-append test [] ys = refl
any-append test (x ∷ xs) ys = ground (arith, any-append test xs ys)

insert_before-mem :
    (q d : DocumentRow) (rows : List DocumentRow)
    → (q ≡ d) ⊎ Memᴰ q rows
    → Memᴰ q (insert_before d rows)
unfolding insert_before
insert_before-mem q d [] (inl same) = Memᴰ.head same
insert_before-mem q d [] (inr later) = elim later [ ]
insert_before-mem q d (x ∷ rows) there =
    elim (Bool-cases
      (ltb d.created_at x.created_at || d.created_at == x.created_at && leb d.id x.id)) [
        | inl first ↦
            rw first (elim there [ inl same ↦ Memᴰ.head same | inr later ↦ Memᴰ.tail later ])
        | inr after ↦ rw after (elim there [
          | inl same ↦ Memᴰ.tail (insert_before-mem q d rows (inl same))
          | inr later ↦ elim (Memᴰ.cases_cons later) [
            | inl here ↦ Memᴰ.head here
            | inr further ↦ Memᴰ.tail (insert_before-mem q d rows (inr further))
          ]
        ])
      ]

in_creation_order-mem :
    (q : DocumentRow) (rows : List DocumentRow) → Memᴰ q rows → Memᴰ q (in_creation_order rows)
unfolding in_creation_order
in_creation_order-mem q [] m = elim m [ ]
in_creation_order-mem q (d ∷ rows) (Memᴰ.head same) = insert_before-mem q d _ (inl same)
in_creation_order-mem q (d ∷ rows) (Memᴰ.tail m) =
    insert_before-mem q d _ (inr (in_creation_order-mem q rows m))

any-map :
    {A B : Type 0} (test : B → Bool) (f : A → B) (xs : List A)
    → any test (map f xs) ≡ any (λ x. test (f x)) xs
unfolding any
any-map test f [] = refl
any-map test f (x ∷ xs) = ap (λ rest. test (f x) || rest) (any-map test f xs)

ok_same : {E A : Type 0} (a b : A) → ◌≡◌ {A = Result E A} (ok a) (ok b) → a ≡ b
ok_same a b e = cc

-- `EXISTS` of an active job of the document.
abbrev pub has_active_job : DocumentRow → Jobs → Bool
has_active_job d = any (λ j. j.document_id == d.id && is_active j.status)

create_workspace_reindex-jobs :
    (job_id_of : ℕ → ℕ) (now workspace_id : ℕ) (db db' : Db) (jobs : List Job)
    → create_workspace_reindex job_id_of now workspace_id db ≡ ok (db', jobs)
    → db'.jobs
      ≡ db.jobs
        ++ map
            (reindex_row job_id_of now)
            (in_creation_order (filter (needs_reindex workspace_id db) db.documents))
unfolding create_workspace_reindex checked
create_workspace_reindex-jobs job_id_of now workspace_id db db' jobs e =
    let rows =
      map (reindex_row job_id_of now)
        (in_creation_order (filter (needs_reindex workspace_id db) db.documents)) in
    elim (Bool-cases (table_checks (db.jobs ++ rows))) [
      | inr broken ↦ absurd (cc (rw broken at e))
      | inl good ↦
          let (fetched, same, last) = >>=-eq-ok (fetch_jobs rows) _ (rw good at e) in
          ap (λ (t : Db × List Job). t.0.jobs) (sym (ok_same _ _ last))
    ]

-- A document that needs it gets a job; one that does not is not asked.
covered :
    (job_id_of : ℕ → ℕ) (now workspace_id : ℕ) (db db' : Db) (jobs : List Job) (d : DocumentRow)
    → create_workspace_reindex job_id_of now workspace_id db ≡ ok (db', jobs)
    → Memᴰ d db.documents
    → needs_reindex workspace_id db d ≡ true
    → has_active_job d db'.jobs ≡ true
covered job_id_of now workspace_id db db' jobs d e there needs =
    let rows = in_creation_order (filter (needs_reindex workspace_id db) db.documents) in
    let inserted : any
          (λ x.
            (reindex_row job_id_of now x).document_id == d.id
            && is_active (reindex_row job_id_of now x).status)
          rows
        ≡ true =
      any-mem _ d rows (in_creation_order-mem d _ (filter-mem _ d db.documents there needs))
        (ground arith) in
    (ap (has_active_job d) (create_workspace_reindex-jobs job_id_of now workspace_id db db' jobs e))
    ∙ (any-append (λ j. j.document_id == d.id && is_active j.status) db.jobs
        (map (reindex_row job_id_of now) rows))
    ∙ (ground (
      arith,
      (any-map (λ (j : JobRow). j.document_id == d.id && is_active j.status)
            (reindex_row job_id_of now) rows)
          ∙ inserted,
    ))

has_active_job-kept :
    (job_id_of : ℕ → ℕ) (now workspace_id : ℕ) (db db' : Db) (jobs : List Job) (d : DocumentRow)
    → create_workspace_reindex job_id_of now workspace_id db ≡ ok (db', jobs)
    → has_active_job d db.jobs ≡ true
    → has_active_job d db'.jobs ≡ true
has_active_job-kept job_id_of now workspace_id db db' jobs d e busy =
    (ap (has_active_job d) (create_workspace_reindex-jobs job_id_of now workspace_id db db' jobs e))
    ∙ (any-append (λ j. j.document_id == d.id && is_active j.status) db.jobs _)
    ∙ (ground (arith, busy))

-- The tables after a change of the contract.
abbrev changed_db : IndexContract → (now : ℕ) → Db → WorkspaceRow → Db
changed_db c now db w = record db {
  workspaces = update_where (λ q. q.id == w.id) (with_contract c now) db.workspaces;
  revisions = update_where (λ r. any (is_marked_by w.id r) db.documents) marked db.revisions;
}

change_contract-db :
    (c : IndexContract) (now : ℕ) (db db' : Db) (w : WorkspaceRow) (found : Option WorkspaceRow)
    → change_contract c now db w ≡ ok (db', found)
    → db' ≡ changed_db c now db w
unfolding change_contract
change_contract-db c now db db' w found e =
    elim (Bool-cases (workspace_checks (with_contract c now w))) [
      | inl good ↦ ap (λ (t : Db × Option WorkspaceRow). t.0) (sym (ok_same _ _ (rw good at e)))
      | inr bad ↦ absurd (cc (rw bad at e))
    ]

ensure_index_contract-db :
    (c : IndexContract) (now workspace_id : ℕ) (db db' : Db) (w : WorkspaceRow)
    (found : Option WorkspaceRow)
    → get_workspace workspace_id db ≡ some w
    → has_contract c w ≡ false
    → ensure_index_contract c now workspace_id db ≡ ok (db', found)
    → db' ≡ changed_db c now db w
unfolding ensure_index_contract ensure_found
ensure_index_contract-db c now workspace_id db db' w found there other e =
    change_contract-db c now db db' w found (rw other at rw there at e)

-- A ready document with an active revision, in an active workspace with another contract.
pub record IsAffected (c : IndexContract) (workspace_id : ℕ) (db : Db) (d : DocumentRow)
    : Type 0 where
  pub workspace : WorkspaceRow
  pub revision : ℕ
  pub row : DocumentRevision
  pub there : get_workspace workspace_id db ≡ some workspace
  pub open_workspace : is_active_workspace workspace.status ≡ true
  pub other : has_contract c workspace ≡ false
  pub stored : Memᴰ d db.documents
  pub inside : (d.workspace_id == workspace_id) ≡ true
  pub is_ready : status_eq d.status ready ≡ true
  pub active : d.active_revision ≡ some revision
  pub found : find_revision d.id revision db.revisions ≡ some row

not_deleted :
    (d : DocumentRow) → status_eq d.status ready ≡ true → status_eq d.status deleted ≡ false
not_deleted d h = ground (arith, h)

affected-needs :
    (c : IndexContract) (now workspace_id : ℕ) (db : Db) (d : DocumentRow)
    (a : IsAffected c workspace_id db d)
    → has_active_job d db.jobs ≡ false
    → needs_reindex workspace_id (changed_db c now db a.workspace) d ≡ true
unfolding needs_reindex
affected-needs c now workspace_id db d a free =
    let named =
      find?-test (λ w. w.id == workspace_id) db.workspaces a.workspace
        (unfold get_workspace in a.there) in
    let open_still =
      workspace-stays c now workspace_id a.workspace.id db.workspaces a.workspace
        (unfold get_workspace in a.there) a.open_workspace in
    let marked_row =
      active_row-marked db a.workspace.id a.revision d a.row a.stored
        (ground (arith, named, a.inside)) (not_deleted d a.is_ready) a.active a.found in
    rw (open_still, a.inside, a.is_ready, marked_row, free) refl

-- One request of maintenance, on the statements of its transaction.
pub reindex_covers :
    (job_id_of : ℕ → ℕ) (c : IndexContract) (now now' workspace_id : ℕ) (db db' db'' : Db)
    (found : Option WorkspaceRow) (jobs : List Job) (d : DocumentRow)
    → IsAffected c workspace_id db d
    → ensure_index_contract c now workspace_id db ≡ ok (db', found)
    → create_workspace_reindex job_id_of now' workspace_id db' ≡ ok (db'', jobs)
    → has_active_job d db''.jobs ≡ true
reindex_covers job_id_of c now now' workspace_id db db' db'' found jobs d a ensured created =
    let changed =
      ensure_index_contract-db c now workspace_id db db' a.workspace found a.there a.other
        ensured in
    let created' =
      subst (λ (t : Db). create_workspace_reindex job_id_of now' workspace_id t ≡ ok (db'', jobs))
        changed created in
    elim (Bool-cases (has_active_job d db.jobs)) [
      | inl busy ↦ has_active_job-kept job_id_of now' workspace_id _ db'' jobs d created' busy
      | inr free ↦
          covered job_id_of now' workspace_id _ db'' jobs d created' a.stored
            (affected-needs c now workspace_id db d a free)
    ]

-- What an enqueuing leaves: jobs for all affected documents, or nothing.
abbrev pub Covered : IndexContract → (workspace_id : ℕ) → World → Condition
Covered c workspace_id w = λ committed k o l.
    (d : DocumentRow)
    → IsAffected c workspace_id w.working d
    → has_active_job d committed.jobs ≡ true

enqueue-Ensures :
    (job_id_of clock : ℕ → ℕ) (c : IndexContract) (workspace_id : ℕ) (w : World)
    → Ensures
        (Called w [])
        (enqueue job_id_of clock c workspace_id)
        (λ jobs. Covered c workspace_id w)
        (λ committed k o l. committed ≡ w.committed)
unfolding enqueue
enqueue-Ensures job_id_of clock c workspace_id w =
    let Bad : Condition = λ committed k o l. committed ≡ w.committed in
    let Ensured : Option WorkspaceRow → Condition = λ found committed k o l.
      (committed ≡ w.committed)
      × (now : ℕ) × (ensure_index_contract c now workspace_id w.working ≡ ok (k, found)) in
    let Created : List Job → Condition =
      λ jobs committed k o l. (committed ≡ w.committed) × Covered c workspace_id w k k o l in
    excepts Bad Bad (λ jobs. Covered c workspace_id w) (Called w []) _ rollback
      (bind Ensured
        (weaken (λ committed k o l h. h) (λ a committed k o l h. h)
          (λ committed k o l (h : Called w [] committed k o l). h.0)
          (states clock (λ now. ensure_index_contract c now workspace_id)
            (λ now committed k o l db found h e. (
              h.0,
              now,
              subst (λ t. ensure_index_contract c now workspace_id t ≡ ok (db, found)) h.1 e,
            ))))
        (λ found.
          bind Created
            (weaken (λ committed k o l h. h) (λ a committed k o l h. h)
              (λ committed k o l (h : Ensured found committed k o l). h.0)
              (states clock (λ now. create_workspace_reindex job_id_of now workspace_id)
                (λ now committed k o l db jobs h e. (
                  h.0,
                  λ d a.
                      reindex_covers job_id_of c h.1 now workspace_id w.working k db found jobs d a
                        h.2 e,
                ))))
            (λ jobs.
              bind (λ u. Covered c workspace_id w)
                (weaken (λ committed k o l h. h) (λ a committed k o l h. h)
                  (λ committed k o l (h : Created jobs committed k o l). h.0)
                  (commits (λ committed k o l h. h.1)))
                (λ u. returns jobs))))
      (rolls_back (λ committed k o l h. h))

-- Whichever calls raise: when a request of maintenance returns, every READY document with an active
-- revision in the workspace, which is active and had another index contract, has an active job in the
-- committed table; when the request raises, nothing has been committed.
pub enqueue_lem :
    (job_id_of clock : ℕ → ℕ) (c : IndexContract) (workspace_id : ℕ) (faults : Faults) (w : World)
    → Outcome
        (λ jobs. Covered c workspace_id w)
        (λ committed k o l. committed ≡ w.committed)
        (enqueue job_id_of clock c workspace_id faults w)
enqueue_lem job_id_of clock c workspace_id faults w =
    (enqueue-Ensures job_id_of clock c workspace_id w).run faults w (Called-start w)
