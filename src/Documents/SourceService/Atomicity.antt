-- ===== src/Documents/SourceService/Atomicity.antt =====
-- Atomicity: each operation commits the whole of its transaction when it returns, and nothing when
-- it raises, whichever calls of the database and of the object store raise.
use graph_blizz.Prelude.{
  ℕ, ltb, Bool, ◌≡◌, refl, ◌∙◌, arith, Option, none, some, List, Text, String, Result, Bool-cases,
  inl, inr, str_eq,
}
use graph_blizz.Errors.{Exn}
use graph_blizz.Jobs.Models.{Job}
use graph_blizz.Documents.Models.{Document, deleted, deleting}
use graph_blizz.Documents.Db.{status_eq}
use graph_blizz.Documents.World.{World, Faults, Action, delete}
use graph_blizz.Documents.World.Transactions.{
  KeepsCommitted, Transacts, IsTransacted, delete-KeepsCommitted, rollback-KeepsCommitted,
  transactions,
}
use graph_blizz.Documents.Repository.{add_revision, append_revision}
use graph_blizz.Documents.SourceService.{
  Setting, Source, object_key, remember, forget, safe_rollback, safe_delete, storage_ignored,
  discard, compensate, enqueue_indexing, enqueue_deletion, create_for, store, store_for_indexing,
  store_revision, required, replace, register, keep, upsert_existing, upsert_for_indexing,
  finish_deletion, deletion_of, repeat_deletion, begin_deletion, delete_document_for,
  delete_for_indexing, add_source_revision,
}
use graph_blizz.Documents.Repository.Completion.{is_deletion}

object_key-KeepsCommitted : (w d r : ℕ) → KeepsCommitted (object_key w d r)
unfolding object_key
object_key-KeepsCommitted w d r = elim (Bool-cases (ltb r 1)) [
  | inl low ↦ rw low (search transactions)
  | inr fine ↦ rw fine (search transactions)
]

remember-KeepsCommitted : (key : Text) → KeepsCommitted (remember key)
unfolding remember
remember-KeepsCommitted key = record { run = λ faults w. refl }

forget-KeepsCommitted : KeepsCommitted forget
unfolding forget
forget-KeepsCommitted = record { run = λ faults w. refl }

ruleset storing =
    (transactions, object_key-KeepsCommitted, remember-KeepsCommitted, forget-KeepsCommitted)

store_revision-KeepsCommitted :
    (s : Setting) (w d : ℕ) (content : List ℕ) (revision : ℕ)
    → KeepsCommitted (store_revision s w d content revision)
unfolding store_revision
store_revision-KeepsCommitted s w d content revision = search storing

append_revision-KeepsCommitted :
    (now d : ℕ) (hash : String) (factory : ℕ → Action Text)
    → ((revision : ℕ) → KeepsCommitted (factory revision))
    → (next : Option ℕ) → KeepsCommitted (append_revision now d hash factory next)
unfolding append_revision
append_revision-KeepsCommitted now d hash factory k none = search storing
append_revision-KeepsCommitted now d hash factory k (some revision) = search storing

add_revision-KeepsCommitted :
    (now w d : ℕ) (hash : String) (factory : ℕ → Action Text)
    → ((revision : ℕ) → KeepsCommitted (factory revision))
    → KeepsCommitted (add_revision now w d hash factory)
unfolding add_revision
add_revision-KeepsCommitted now w d hash factory k =
    search (storing, append_revision-KeepsCommitted)

required-KeepsCommitted : {A : Type 0} (a : Option A) (e : Exn) → KeepsCommitted (required a e)
unfolding required
required-KeepsCommitted none e = search storing
required-KeepsCommitted (some a) e = search storing

create_for-KeepsCommitted :
    (s : Setting) (c : Source) (key : Text) (activate : Bool)
    → KeepsCommitted (create_for s c key activate)
unfolding create_for
create_for-KeepsCommitted s c key activate = search storing

enqueue_indexing-KeepsCommitted : (s : Setting) (d r : ℕ) → KeepsCommitted (enqueue_indexing s d r)
unfolding enqueue_indexing
enqueue_indexing-KeepsCommitted s d r = search storing

enqueue_deletion-KeepsCommitted : (s : Setting) (d r : ℕ) → KeepsCommitted (enqueue_deletion s d r)
unfolding enqueue_deletion
enqueue_deletion-KeepsCommitted s d r = search storing

safe_rollback-KeepsCommitted : KeepsCommitted safe_rollback
unfolding safe_rollback
safe_rollback-KeepsCommitted = record { run = rollback-KeepsCommitted.run }

storage_ignored-committed :
    (r : Result Exn (Unit {0}) × World) → (storage_ignored r).1.committed ≡ r.1.committed
storage_ignored-committed r = ground arith

discard-KeepsCommitted : (key : Option Text) → KeepsCommitted (discard key)
unfolding discard safe_delete
discard-KeepsCommitted none = search storing
discard-KeepsCommitted (some key) = record {
  run = λ faults w.
      (storage_ignored-committed (delete key faults w))
      ∙ ((delete-KeepsCommitted key).run faults w);
}

discard_stored-KeepsCommitted : KeepsCommitted (λ faults w. discard w.stored_key faults w)
discard_stored-KeepsCommitted = record {
  run = λ faults w. (discard-KeepsCommitted w.stored_key).run faults w;
}

compensate-KeepsCommitted : KeepsCommitted compensate
unfolding compensate
compensate-KeepsCommitted =
    search (storing, safe_rollback-KeepsCommitted, discard_stored-KeepsCommitted)

ruleset operations = (
  storing, store_revision-KeepsCommitted, add_revision-KeepsCommitted, required-KeepsCommitted,
  create_for-KeepsCommitted, enqueue_indexing-KeepsCommitted, enqueue_deletion-KeepsCommitted,
  compensate-KeepsCommitted, safe_rollback-KeepsCommitted,
)

store-Transacts : (s : Setting) (c : Source) → Transacts (store s c)
unfolding store
store-Transacts s c = search operations depth 12

store_for_indexing-Transacts : (s : Setting) (c : Source) → Transacts (store_for_indexing s c)
unfolding store_for_indexing
store_for_indexing-Transacts s c = search operations depth 12

replace-Transacts : (s : Setting) (c : Source) → Transacts (replace s c)
unfolding replace
replace-Transacts s c = search operations depth 12

register-Transacts : (s : Setting) (c : Source) → Transacts (register s c)
unfolding register
register-Transacts s c = search operations depth 12

keep-Transacts : (document : Document) → Transacts (keep document)
unfolding keep
keep-Transacts document = search operations

upsert_existing-Transacts :
    (s : Setting) (c : Source) (existing : Option Document)
    → Transacts (upsert_existing s c existing)
unfolding upsert_existing
upsert_existing-Transacts s c none = register-Transacts s c
upsert_existing-Transacts s c (some document) =
    elim (Bool-cases (str_eq document.content_hash (s.sha256 c.content))) [
      | inl same ↦ rw same (keep-Transacts document)
      | inr other ↦ rw other (replace-Transacts s c)
    ]

upsert_for_indexing-Transacts : (s : Setting) (c : Source) → Transacts (upsert_for_indexing s c)
unfolding upsert_for_indexing
upsert_for_indexing-Transacts s c = search (operations, upsert_existing-Transacts)

finish_deletion-Transacts :
    (document : Document) (job : Option Job) → Transacts (finish_deletion document job)
unfolding finish_deletion
finish_deletion-Transacts document job = search operations

deletion_of-Transacts :
    (document : Document) (job : Option Job) → Transacts (deletion_of document job)
unfolding deletion_of
deletion_of-Transacts document none = search operations
deletion_of-Transacts document (some job) = elim (Bool-cases (is_deletion job.type)) [
  | inl deletes ↦ rw deletes (finish_deletion-Transacts document (some job))
  | inr other ↦ rw other (search operations)
]

repeat_deletion-Transacts : (document : Document) → Transacts (repeat_deletion document)
unfolding repeat_deletion
repeat_deletion-Transacts document = search (operations, deletion_of-Transacts)

begin_deletion-Transacts :
    (s : Setting) (document : Document) → Transacts (begin_deletion s document)
unfolding begin_deletion
begin_deletion-Transacts s document = search (operations, finish_deletion-Transacts)

delete_document_for-Transacts :
    (s : Setting) (document : Document) → Transacts (delete_document_for s document)
unfolding delete_document_for
delete_document_for-Transacts s document = elim (Bool-cases (status_eq document.status deleted)) [
  | inl done ↦ rw done (finish_deletion-Transacts document none)
  | inr live ↦ elim (Bool-cases (status_eq document.status deleting)) [
    | inl begun ↦ rw (live, begun) (repeat_deletion-Transacts document)
    | inr ready ↦ rw (live, ready) (begin_deletion-Transacts s document)
  ]
]

delete_for_indexing-Transacts :
    (s : Setting) (workspace_id document_id : ℕ)
    → Transacts (delete_for_indexing s workspace_id document_id)
unfolding delete_for_indexing
delete_for_indexing-Transacts s workspace_id document_id =
    search (operations, delete_document_for-Transacts)

add_source_revision-Transacts :
    (s : Setting) (document : Document) (content : List ℕ)
    → Transacts (add_source_revision s document content)
unfolding add_source_revision
add_source_revision-Transacts s document content = search operations

-- Whichever calls raise: if one of the five operations of DocumentSourceService returns, the
-- committed tables are the tables of its transaction; if it raises, they are those before it.
pub operations-IsTransacted :
    (s : Setting) (c : Source) (document : Document) (faults : Faults) (w : World)
    → IsTransacted w (store s c faults w)
      × IsTransacted w (store_for_indexing s c faults w)
      × IsTransacted w (upsert_for_indexing s c faults w)
      × IsTransacted w (delete_for_indexing s c.workspace_id c.document_id faults w)
      × IsTransacted w (add_source_revision s document c.content faults w)
operations-IsTransacted s c document faults w = (
  (store-Transacts s c).run faults w,
  (store_for_indexing-Transacts s c).run faults w,
  (upsert_for_indexing-Transacts s c).run faults w,
  (delete_for_indexing-Transacts s c.workspace_id c.document_id).run faults w,
  (add_source_revision-Transacts s document c.content).run faults w,
)
