-- ===== src/Query/Request/Listed.antt =====
-- Every READY document of a workspace is among the sources of an answer without citations.
use mathlib.Core.List.{Memᴰ}
use graph_blizz.Prelude.{
  ℕ, ◌≡◌, refl, sym, ap, subst, Bool, ◌&&◌, ◌||◌, ◌==◌, ==_iff, ltb, leb, Bool-cases, inl, inr,
  Option, none, some, List, [], ◌∷◌, map, filter-mem,
}
use graph_blizz.Documents.Models.{Document, DocumentStatus, DocumentRevision}
use graph_blizz.Documents.Db.{Db, DocumentRow, document_of, shown_row}
use graph_blizz.Documents.Repository.{
  insert_before, in_creation_order, shown_before, shown_documents, list_documents,
}
use graph_blizz.Query.Service.{uncited_source, ready_documents}

module _ {A : Type 0} where
  map-mem : {B : Type 0} (f : A → B) (a : A) (xs : List A) → Memᴰ a xs → Memᴰ (f a) (map f xs)
  map-mem f a [] m = elim m [ ]
  map-mem f a (x ∷ xs) (Memᴰ.head same) = Memᴰ.head (ap f same)
  map-mem f a (x ∷ xs) (Memᴰ.tail m) = Memᴰ.tail (map-mem f a xs m)

-- The order of creation keeps every row.
abbrev comes_before : DocumentRow → DocumentRow → Bool
comes_before d q = ltb d.created_at q.created_at || d.created_at == q.created_at && leb d.id q.id

insert_before-mem : (d : DocumentRow) (rows : List DocumentRow) → Memᴰ d (insert_before d rows)
unfolding insert_before
insert_before-mem d [] = Memᴰ.head refl
insert_before-mem d (q ∷ rows) = elim (Bool-cases (comes_before d q)) [
  | inl e ↦ rw e (Memᴰ.head refl)
  | inr e ↦ rw e (Memᴰ.tail (insert_before-mem d rows))
]

insert_before-keeps :
    (d e : DocumentRow) (rows : List DocumentRow) → Memᴰ e rows → Memᴰ e (insert_before d rows)
unfolding insert_before
insert_before-keeps d e [] m = elim m [ ]
insert_before-keeps d e (q ∷ rows) m = elim (Bool-cases (comes_before d q)) [
  | inl before ↦ rw before (Memᴰ.tail m)
  | inr after ↦ rw after (elim m [
    | Memᴰ.head same ↦ Memᴰ.head same
    | Memᴰ.tail n ↦ Memᴰ.tail (insert_before-keeps d e rows n)
  ])
]

in_creation_order-mem :
    (d : DocumentRow) (rows : List DocumentRow) → Memᴰ d rows → Memᴰ d (in_creation_order rows)
unfolding in_creation_order
in_creation_order-mem d [] m = elim m [ ]
in_creation_order-mem d (q ∷ rows) (Memᴰ.head same) =
    subst (λ t. Memᴰ d (insert_before t (in_creation_order rows))) same
      (insert_before-mem d (in_creation_order rows))
in_creation_order-mem d (q ∷ rows) (Memᴰ.tail m) =
    insert_before-keeps q d _ (in_creation_order-mem d rows m)

shown_before-mem :
    (d q : DocumentRow) (r : DocumentRevision) (documents : List Document)
    (shown : Option DocumentRevision)
    → Memᴰ (document_of d r) documents
    → Memᴰ (document_of d r) (shown_before q documents shown)
shown_before-mem d q r documents none m = m
shown_before-mem d q r documents (some other) m = Memᴰ.tail m

shown_documents-mem :
    (revisions : List DocumentRevision) (d : DocumentRow) (r : DocumentRevision)
    (rows : List DocumentRow)
    → Memᴰ d rows
    → shown_row d revisions ≡ some r
    → Memᴰ (document_of d r) (shown_documents revisions rows)
unfolding shown_documents
shown_documents-mem revisions d r [] m shown = elim m [ ]
shown_documents-mem revisions d r (q ∷ rows) (Memᴰ.head same) shown =
    subst
      (λ t.
        Memᴰ (document_of d r)
          (shown_before t (shown_documents revisions rows) (shown_row t revisions)))
      same
      (subst (λ t. Memᴰ (document_of d r) (shown_before d (shown_documents revisions rows) t))
        (sym shown) (Memᴰ.head refl))
shown_documents-mem revisions d r (q ∷ rows) (Memᴰ.tail m) shown =
    shown_before-mem d q r _ (shown_row q revisions)
      (shown_documents-mem revisions d r rows m shown)

-- A READY row of the workspace with a revision to show is one of the documents that a query names.
pub ready_documents-mem :
    (workspace_id : ℕ) (db : Db) (d : DocumentRow) (r : DocumentRevision)
    → Memᴰ d db.documents
    → d.workspace_id ≡ workspace_id
    → d.status ≡ DocumentStatus.ready
    → shown_row d db.revisions ≡ some r
    → Memᴰ
        (uncited_source (document_of d r))
        (map uncited_source (ready_documents workspace_id (list_documents workspace_id db)))
unfolding ready_documents list_documents
ready_documents-mem workspace_id db d r there here status shown =
    let placed = (==_iff d.workspace_id workspace_id).1 here in
    let listed =
      in_creation_order-mem d _
        (filter-mem (λ q. q.workspace_id == workspace_id) d db.documents there placed) in
    map-mem uncited_source (document_of d r) _ (
      filter-mem _ (document_of d r) _ (shown_documents-mem db.revisions d r _ listed shown)
        (rw (placed, status) refl))
