-- ===== src/Indexing/Provenance/Written.antt =====
-- The calls of LightRAG that an insertion and a deletion make, whichever of them raises.
use mathlib.Core.List.{append_assoc, append-nil}
use graph_blizz.Prelude.{
  ℕ, ◌≡◌, refl, sym, ap, subst, ◌∙◌, Option, none, some, List, [], ◌∷◌, ◌++◌, Text, codes, map,
}
use graph_blizz.Documents.Models.{Document}
use graph_blizz.Documents.Db.{Db}
use graph_blizz.Documents.World.{World}
use graph_blizz.Documents.World.Ensures.{Condition, Ensures, bind, weaken, returns, indexes}
use graph_blizz.Indexing.Calls.{IndexCall, inserts_content, inserts_chunks, deletes_document}
use graph_blizz.Parsers.Models.{ParsedDocument}
use graph_blizz.Indexing.Provenance.{
  Codec, ContentId, CodeDocuments, code_chunk_documents, delete_all, delete_documents,
  delete_indexed_document, insert_documents, insert_parsed_document,
}

-- Tables and objects as in a world, and some calls after its own.
abbrev pub Called : World → List IndexCall → Condition
Called w calls =
    λ c k o l. (c ≡ w.committed) × (k ≡ w.working) × (o ≡ w.objects) × (l ≡ w.index_calls ++ calls)

-- The same for the first ones of some calls.
abbrev pub Began : World → List IndexCall → Condition
Began w calls = λ c k o l.
    (done : List IndexCall) × (rest : List IndexCall) × (done ++ rest ≡ calls)
    × Called w done c k o l

pub called :
    (w : World) (before : List IndexCall) (i : IndexCall) (c k : Db) (o : List (Text × List ℕ))
    (l : List IndexCall)
    → Called w before c k o l
    → Called w (before ++ i ∷ []) c k o (l ++ i ∷ [])
called w before i c k o l h =
    (h.0, h.1, h.2, (ap (λ t. t ++ i ∷ []) h.3) ∙ (append_assoc w.index_calls before (i ∷ [])))

abbrev pub deletions : (namespace : Text) → List Text → List IndexCall
deletions namespace ids = map (deletes_document namespace) ids

delete_all-Ensures :
    (w : World) (namespace : Text) (before : List IndexCall) (ids : List Text)
    → Ensures
        (Called w before)
        (delete_all namespace ids)
        (λ u. Called w (before ++ deletions namespace ids))
        (Began w (before ++ deletions namespace ids))
unfolding delete_all
delete_all-Ensures w namespace before [] =
    weaken (λ c k o l h. subst (λ t. Called w t c k o l) (sym (append-nil before)) h)
      (λ a c k o l h. h) (λ c k o l (h : Began w (before ++ []) c k o l). h) (returns tt)
delete_all-Ensures w namespace before (id ∷ ids) =
    let i = deletes_document namespace id in
    let same : (before ++ i ∷ []) ++ deletions namespace ids
        ≡ before ++ i ∷ deletions namespace ids =
      append_assoc before (i ∷ []) (deletions namespace ids) in
    bind (λ u. Called w (before ++ i ∷ []))
      (weaken (λ c k o l h. h) (λ a c k o l h. h)
        (λ c k o l (h : Called w (before ++ i ∷ []) c k o l).
          (before ++ i ∷ [], deletions namespace ids, same, h))
        (indexes i (λ c k o l h. called w before i c k o l h)))
      (λ u.
        subst
          (λ t.
            Ensures (Called w (before ++ i ∷ [])) (delete_all namespace ids) (λ u. Called w t)
              (Began w t))
          same (delete_all-Ensures w namespace (before ++ i ∷ []) ids))

-- The call of an insertion, and the calls of a deletion.
abbrev pub insertion : (namespace : Text) → ParsedDocument → Option CodeDocuments → IndexCall
insertion namespace parsed none = inserts_content namespace parsed.content
insertion namespace parsed (some (contents, ids, citations)) =
    inserts_chunks namespace contents ids citations

abbrev pub deletion :
    ContentId → (namespace : Text) → ParsedDocument → Option CodeDocuments → List IndexCall
deletion content_id namespace parsed none =
    deletes_document namespace (content_id parsed.content (codes "doc-")) ∷ []
deletion content_id namespace parsed (some (contents, ids, citations)) = deletions namespace ids

insert_documents-Ensures :
    (w : World) (before : List IndexCall) (namespace : Text) (parsed : ParsedDocument)
    (documents : Option CodeDocuments)
    → Ensures
        (Called w before)
        (insert_documents namespace parsed documents)
        (λ u. Called w (before ++ insertion namespace parsed documents ∷ []))
        (Called w (before ++ insertion namespace parsed documents ∷ []))
unfolding insert_documents
insert_documents-Ensures w before namespace parsed none =
    indexes (inserts_content namespace parsed.content) (λ c k o l h. called w before _ c k o l h)
insert_documents-Ensures w before namespace parsed (some (contents, ids, citations)) =
    indexes (inserts_chunks namespace contents ids citations)
      (λ c k o l h. called w before _ c k o l h)

pub insert_parsed_document-Ensures :
    (w : World) (before : List IndexCall) (codec : Codec) (namespace : Text) (document : Document)
    (parsed : ParsedDocument) (revision : Option ℕ)
    → let i = insertion namespace parsed (code_chunk_documents codec document parsed revision) in
      Ensures
        (Called w before)
        (insert_parsed_document codec namespace document parsed revision)
        (λ u. Called w (before ++ i ∷ []))
        (Called w (before ++ i ∷ []))
unfolding insert_parsed_document
insert_parsed_document-Ensures w before codec namespace document parsed revision =
    insert_documents-Ensures w before namespace parsed
      (code_chunk_documents codec document parsed revision)

delete_documents-Ensures :
    (w : World) (before : List IndexCall) (content_id : ContentId) (namespace : Text)
    (parsed : ParsedDocument) (documents : Option CodeDocuments)
    → Ensures
        (Called w before)
        (delete_documents content_id namespace parsed documents)
        (λ u. Called w (before ++ deletion content_id namespace parsed documents))
        (Began w (before ++ deletion content_id namespace parsed documents))
unfolding delete_documents
delete_documents-Ensures w before content_id namespace parsed none =
    let i = deletes_document namespace (content_id parsed.content (codes "doc-")) in
    weaken (λ c k o l h. h) (λ a c k o l h. h)
      (λ c k o l (h : Called w (before ++ i ∷ []) c k o l).
        (before ++ i ∷ [], [], append-nil (before ++ i ∷ []), h))
      (indexes i (λ c k o l h. called w before i c k o l h))
delete_documents-Ensures w before content_id namespace parsed (some (contents, ids, citations)) =
    delete_all-Ensures w namespace before ids

pub delete_indexed_document-Ensures :
    (w : World) (before : List IndexCall) (codec : Codec) (content_id : ContentId)
    (namespace : Text) (document : Document) (parsed : ParsedDocument)
    → let calls =
        deletion content_id namespace parsed (code_chunk_documents codec document parsed none) in
      Ensures
        (Called w before)
        (delete_indexed_document codec content_id namespace document parsed)
        (λ u. Called w (before ++ calls))
        (Began w (before ++ calls))
unfolding delete_indexed_document
delete_indexed_document-Ensures w before codec content_id namespace document parsed =
    delete_documents-Ensures w before content_id namespace parsed
      (code_chunk_documents codec document parsed none)

-- A world of its own calls alone.
pub Called-start : (w : World) → Called w [] w.committed w.working w.objects w.index_calls
Called-start w = (refl, refl, refl, sym (append-nil w.index_calls))
