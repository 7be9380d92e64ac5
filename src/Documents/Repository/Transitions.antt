-- ===== src/Documents/Repository/Transitions.antt =====
-- What a transition of a document's status does, with or without the fence of a lease.
use graph_blizz.Prelude.{
  ℕ, ◌≡◌, refl, sym, ap, ◌∙◌, Bool, true, ◌&&◌, ◌==◌, ==_iff, Bool-cases, inl, inr, Option, none,
  some, List, [], ◌∷◌, find?, update_where, if◌then◌else◌,
}
use graph_blizz.Jobs.Rows.{JobRow}
use graph_blizz.Documents.Models.{
  DocumentStatus, uploaded, indexing, ready, updating, deleting, deleted, failed, Document,
  DocumentRevision,
}
use graph_blizz.Documents.Db.{
  Db, DocumentRow, status_number, status_eq, find_document, document_of, update_document,
  update_found, update_joined,
}
use graph_blizz.Documents.Repository.{transition_status}
use graph_blizz.Documents.Repository.Completion.{
  Attempt, transition_under, transition_status_for_job,
}
use graph_blizz.Documents.Repository.Completion.Reindex.{find?-test}

abbrev status_of_number : ℕ → DocumentStatus
status_of_number n =
    if n == 0
    then uploaded
    else if n == 1
    then indexing
    else if n == 2
    then ready
    else if n == 3
    then updating
    else if n == 4
    then deleting
    else if n == 5
    then deleted
    else failed

status_of_number_lem : (s : DocumentStatus) → status_of_number (status_number s) ≡ s
status_of_number_lem uploaded = refl
status_of_number_lem indexing = refl
status_of_number_lem ready = refl
status_of_number_lem updating = refl
status_of_number_lem deleting = refl
status_of_number_lem deleted = refl
status_of_number_lem failed = refl

pub status_eq-eq : (a b : DocumentStatus) → status_eq a b ≡ true → a ≡ b
status_eq-eq a b h =
    sym (status_of_number_lem a)
    ∙ ap status_of_number ((==_iff (status_number a) (status_number b)).0 h)
    ∙ status_of_number_lem b

-- The document with these identifiers had the one status, and has the other; its row is replaced, and
-- nothing else of the tables changes.
pub record Moved (workspace_id document_id : ℕ) (from_status to_status : DocumentStatus)
    (db db' : Db) (document' : Document) : Type 0 where
  pub row : DocumentRow
  pub found : find_document workspace_id document_id db.documents ≡ some row
  pub was : row.status ≡ from_status
  pub changed : DocumentRow
  pub changed_id : changed.id ≡ row.id
  pub changed_workspace : changed.workspace_id ≡ row.workspace_id
  pub is : changed.status ≡ to_status
  pub documents : db'.documents ≡ update_where (λ q. q.id == row.id) (λ q. changed) db.documents
  pub revisions : db'.revisions ≡ db.revisions
  pub jobs : db'.jobs ≡ db.jobs
  pub revision : DocumentRevision
  pub returned : document' ≡ document_of changed revision

module _ (workspace_id document_id : ℕ) (revision_of : DocumentRow → Option DocumentRevision)
    (from_status to_status : DocumentStatus) (change : DocumentRow → DocumentRevision → DocumentRow)
    (status_is : (d : DocumentRow) (r : DocumentRevision) → (change d r).status ≡ to_status)
    (id_is : (d : DocumentRow) (r : DocumentRevision) → (change d r).id ≡ d.id)
    (workspace_is : (d : DocumentRow) (r : DocumentRevision)
      → (change d r).workspace_id ≡ d.workspace_id)
    (db db' : Db) where
  joined-Moved :
      (document' : Document) (d : DocumentRow) (joined : Option DocumentRevision)
      → find_document workspace_id document_id db.documents ≡ some d
      → update_joined revision_of (λ q. status_eq q.status from_status) change db d joined
        ≡ (db', some document')
      → Moved workspace_id document_id from_status to_status db db' document'
  joined-Moved document' d none there h = absurd (cc (ap (λ (p : Db × Option Document). p.1) h))
  joined-Moved document' d (some r) there h = elim (Bool-cases (status_eq d.status from_status)) [
    | inr other ↦ absurd (cc (ap (λ (p : Db × Option Document). p.1) (rw other at h)))
    | inl was ↦
        let same = rw was at h in
        let after = ap (λ (p : Db × Option Document). p.0) same in
        record {
          row = d;
          found = there;
          was = status_eq-eq d.status from_status was;
          changed = change d r;
          changed_id = id_is d r;
          changed_workspace = workspace_is d r;
          is = status_is d r;
          documents = sym (ap (λ (t : Db). t.documents) after);
          revisions = sym (ap (λ (t : Db). t.revisions) after);
          jobs = sym (ap (λ (t : Db). t.jobs) after);
          revision = r;
          returned = cc (ap (λ (p : Db × Option Document). p.1) same);
        }
  ]

  found-Moved :
      (document' : Document) (found : Option DocumentRow)
      → find_document workspace_id document_id db.documents ≡ found
      → update_found revision_of (λ q. status_eq q.status from_status) change db found
        ≡ (db', some document')
      → Moved workspace_id document_id from_status to_status db db' document'
  found-Moved document' none there h = absurd (cc (ap (λ (p : Db × Option Document). p.1) h))
  found-Moved document' (some d) there h = joined-Moved document' d (revision_of d) there h

  update_document-Moved :
      (document' : Document)
      → update_document workspace_id document_id revision_of
          (λ q. status_eq q.status from_status)
          change
          db
        ≡ (db', some document')
      → Moved workspace_id document_id from_status to_status db db' document'
  unfolding update_document
  update_document-Moved document' h = found-Moved document' _ refl h

  joined-none :
      (d : DocumentRow) (joined : Option DocumentRevision)
      → update_joined revision_of (λ q. status_eq q.status from_status) change db d joined
        ≡ (db', none)
      → db' ≡ db
  joined-none d none h = sym (ap (λ (p : Db × Option Document). p.0) h)
  joined-none d (some r) h = elim (Bool-cases (status_eq d.status from_status)) [
    | inr other ↦ sym (ap (λ (p : Db × Option Document). p.0) (rw other at h))
    | inl was ↦ absurd (cc (ap (λ (p : Db × Option Document). p.1) (rw was at h)))
  ]

  update_document-none :
      update_document workspace_id document_id revision_of
          (λ q. status_eq q.status from_status)
          change
          db
        ≡ (db', none)
      → db' ≡ db
  unfolding update_document
  update_document-none h = found_none (find_document workspace_id document_id db.documents) h
    where
      found_none :
          (found : Option DocumentRow)
          → update_found revision_of (λ q. status_eq q.status from_status) change db found
            ≡ (db', none)
          → db' ≡ db
      found_none none k = sym (ap (λ (p : Db × Option Document). p.0) k)
      found_none (some d) k = joined-none d (revision_of d) k

module _ (now workspace_id document_id : ℕ) (from_status to_status : DocumentStatus)
    (db db' : Db) where
  pub transition_status-Moved :
      (document' : Document)
      → transition_status now workspace_id document_id from_status to_status db
        ≡ (db', some document')
      → Moved workspace_id document_id from_status to_status db db' document'
  unfolding transition_status
  transition_status-Moved document' h =
      update_document-Moved workspace_id document_id _ from_status to_status _ (λ d r. refl)
        (λ d r. refl) (λ d r. refl) db db' document' h

  pub transition_status-none :
      transition_status now workspace_id document_id from_status to_status db ≡ (db', none)
      → db' ≡ db
  unfolding transition_status
  transition_status-none h =
      update_document-none workspace_id document_id _ from_status to_status _ (λ d r. refl)
        (λ d r. refl) (λ d r. refl) db db' h

module _ (now : ℕ) (a : Attempt) (from_status to_status : DocumentStatus) (db db' : Db) where
  under-Moved :
      (document' : Document) (job : Option JobRow)
      → transition_under now a from_status to_status db job ≡ (db', some document')
      → Moved a.workspace_id a.document_id from_status to_status db db' document'
  unfolding transition_under
  under-Moved document' none h = absurd (cc (ap (λ (p : Db × Option Document). p.1) h))
  under-Moved document' (some j) h =
      update_document-Moved a.workspace_id a.document_id _ from_status to_status _ (λ d r. refl)
        (λ d r. refl) (λ d r. refl) db db' document' h

  under-none :
      (job : Option JobRow)
      → transition_under now a from_status to_status db job ≡ (db', none)
      → db' ≡ db
  unfolding transition_under
  under-none none h = sym (ap (λ (p : Db × Option Document). p.0) h)
  under-none (some j) h =
      update_document-none a.workspace_id a.document_id _ from_status to_status _ (λ d r. refl)
        (λ d r. refl) (λ d r. refl) db db' h

  pub transition_status_for_job-Moved :
      (document' : Document)
      → transition_status_for_job now a from_status to_status db ≡ (db', some document')
      → Moved a.workspace_id a.document_id from_status to_status db db' document'
  unfolding transition_status_for_job
  transition_status_for_job-Moved document' h = under-Moved document' _ h

  pub transition_status_for_job-none :
      transition_status_for_job now a from_status to_status db ≡ (db', none) → db' ≡ db
  unfolding transition_status_for_job
  transition_status_for_job-none h = under-none _ h

-- The first row that passes a test, after that row has been replaced by one that passes it too.
find?-replaced :
    (test : DocumentRow → Bool) (rows : List DocumentRow) (d changed : DocumentRow)
    → find? test rows ≡ some d
    → test changed ≡ true
    → find? test (update_where (λ q. q.id == d.id) (λ q. changed) rows) ≡ some changed
unfolding find? update_where
find?-replaced test [] d changed h passes = absurd (cc h)
find?-replaced test (q ∷ rows) d changed h passes = elim (Bool-cases (test q)) [
  | inl e ↦
      let same : q ≡ d = cc (rw e at h) in
      rw ((==_iff q.id d.id).1 (ap (λ (t : DocumentRow). t.id) same), passes) refl
  | inr e ↦ elim (Bool-cases (q.id == d.id)) [
    | inl replaced ↦ rw (replaced, passes) refl
    | inr kept ↦ rw (kept, e) (find?-replaced test rows d changed (rw e at h) passes)
  ]
]

-- A document that has been moved to a status is not found in another.
pub Moved-found :
    {workspace_id document_id : ℕ} {from_status to_status : DocumentStatus} {db db' : Db}
    {document' : Document}
    (m : Moved workspace_id document_id from_status to_status db db' document')
    → find_document workspace_id document_id db'.documents ≡ some m.changed
unfolding find_document
Moved-found {workspace_id} {document_id} m =
    let test : DocumentRow → Bool = λ q. q.workspace_id == workspace_id && q.id == document_id in
    let passes = find?-test test _ m.row m.found in
    let same =
      (ap (λ n. n == workspace_id && m.changed.id == document_id) m.changed_workspace)
      ∙ (ap (λ n. m.row.workspace_id == workspace_id && n == document_id) m.changed_id) in
    (ap (find? test) m.documents) ∙ find?-replaced test _ m.row m.changed m.found (same ∙ passes)
