-- ===== src/Indexing/Provenance/Leftovers.antt =====
-- What an insertion writes and a later deletion takes away.
use graph_blizz.Prelude.{
  ℕ, ◌≡◌, ◌≢◌, refl, sym, ap, subst, ◌∙◌, arith, false, true, none, some, Option, List, [], ◌∷◌,
  ◌++◌, Text, codes, map, is_empty, is_some, All, Result,
}
use graph_blizz.Errors.{Exn}
use graph_blizz.Documents.Models.{Document}
use graph_blizz.Documents.World.{World, Faults}
use graph_blizz.Indexing.Calls.{IndexCall, inserts_content, inserts_chunks}
use graph_blizz.Parsers.Models.{ParsedChunk, ParsedDocument}
use graph_blizz.Documents.World.Ensures.{Outcome}
use graph_blizz.Indexing.Provenance.{
  Codec, ContentId, CodeDocuments, metadata_of, chunk_document_id, code_chunk_documents,
  encode_chunk_provenance, delete_indexed_document, insert_parsed_document,
}
use graph_blizz.Indexing.Provenance.Written.{
  Called, Began, Called-start, insertion, deletion, deletions, insert_parsed_document-Ensures,
  delete_indexed_document-Ensures,
}

-- The calls that an action has added: all of them if it returns, the first ones if it raises.
abbrev pub HasMade : World → List IndexCall → Result Exn (Unit {0}) × World → Type 0
HasMade w calls = Outcome (λ u. Called w calls) (Began w calls)

-- One call more, whether or not it raised.
abbrev pub HasCalled : World → IndexCall → Result Exn (Unit {0}) × World → Type 0
HasCalled w i = Outcome (λ u. Called w (i ∷ [])) (Called w (i ∷ []))

pub insert_parsed_document-HasCalled :
    (codec : Codec) (namespace : Text) (document : Document) (parsed : ParsedDocument)
    (revision : Option ℕ) (documents : Option CodeDocuments) (faults : Faults) (w : World)
    → code_chunk_documents codec document parsed revision ≡ documents
    → HasCalled w
        (insertion namespace parsed documents)
        (insert_parsed_document codec namespace document parsed revision faults w)
insert_parsed_document-HasCalled codec namespace document parsed revision documents faults w e =
    subst
      (λ t.
        HasCalled w (insertion namespace parsed t)
          (insert_parsed_document codec namespace document parsed revision faults w))
      e
      ((insert_parsed_document-Ensures w [] codec namespace document parsed revision).run faults w
        (Called-start w))

pub delete_indexed_document-HasMade :
    (codec : Codec) (content_id : ContentId) (namespace : Text) (document : Document)
    (parsed : ParsedDocument) (documents : Option CodeDocuments) (faults : Faults) (w : World)
    → code_chunk_documents codec document parsed none ≡ documents
    → HasMade w
        (deletion content_id namespace parsed documents)
        (delete_indexed_document codec content_id namespace document parsed faults w)
delete_indexed_document-HasMade codec content_id namespace document parsed documents faults w e =
    subst
      (λ t.
        HasMade w (deletion content_id namespace parsed t)
          (delete_indexed_document codec content_id namespace document parsed faults w))
      e
      ((delete_indexed_document-Ensures w [] codec content_id namespace document parsed).run faults
        w (Called-start w))

-- A source of code: it has chunks and a language.
abbrev pub IsCode : ParsedDocument → Type 0
IsCode parsed =
    (is_empty parsed.chunks ≡ false)
    × (is_some (metadata_of (codes "language") parsed.metadata) ≡ true)

abbrev pub chunk_ids : (document_id revision : ℕ) → ParsedDocument → List Text
chunk_ids document_id revision parsed =
    map (λ (c : ParsedChunk). chunk_document_id document_id revision c.index) parsed.chunks

code_at_revision :
    (codec : Codec) (document : Document) (parsed : ParsedDocument) (r : ℕ)
    → IsCode parsed
    → (contents citations : List Text) × (code_chunk_documents codec document parsed (some r)
        ≡ some (contents, chunk_ids document.id r parsed, citations))
unfolding code_chunk_documents
code_at_revision codec document parsed r code = (
  map (λ (c : ParsedChunk). c.content) parsed.chunks,
  map (encode_chunk_provenance codec document r) parsed.chunks,
  rw (code.0, code.1) refl,
)

code_when_active :
    (codec : Codec) (document : Document) (parsed : ParsedDocument) (r : ℕ)
    → document.active_revision ≡ some r
    → code_chunk_documents codec document parsed none
      ≡ code_chunk_documents codec document parsed (some r)
unfolding code_chunk_documents
code_when_active codec document parsed r active = rw active refl

code_when_inactive :
    (codec : Codec) (document : Document) (parsed : ParsedDocument)
    → document.active_revision ≡ none
    → code_chunk_documents codec document parsed none ≡ none
unfolding code_chunk_documents
code_when_inactive codec document parsed inactive = rw inactive (ground arith)

-- While a revision is active, the deletion of a source of code takes away what an insertion under
-- that revision wrote: the insertion makes one call, with an identity for each chunk, and changes
-- nothing else; the deletion names exactly these identities, in order, all of them if it returns and
-- the first ones if a call raises, and changes nothing else.
pub delete_indexed_document-insert_parsed_document :
    (codec : Codec) (content_id : ContentId) (namespace : Text) (document : Document)
    (parsed : ParsedDocument) (r : ℕ) (faults faults' : Faults) (w w' : World)
    → document.active_revision ≡ some r
    → IsCode parsed
    → (contents citations : List Text) × HasCalled w
        (inserts_chunks namespace contents (chunk_ids document.id r parsed) citations)
        (insert_parsed_document codec namespace document parsed (some r) faults w)
      × HasMade w'
          (deletions namespace (chunk_ids document.id r parsed))
          (delete_indexed_document codec content_id namespace document parsed faults' w')
delete_indexed_document-insert_parsed_document codec content_id namespace document parsed r faults
      faults' w w' active code =
    let (contents, citations, same) = code_at_revision codec document parsed r code in
    (
      contents,
      citations,
      insert_parsed_document-HasCalled codec namespace document parsed (some r) _ faults w same,
      delete_indexed_document-HasMade codec content_id namespace document parsed _ faults' w'
          ((code_when_active codec document parsed r active) ∙ same),
    )

abbrev first : Text → ℕ
first [] = 0
first (c ∷ rest) = c

chunk_ids-foreign :
    (document_id revision : ℕ) (chunks : List ParsedChunk) (other : Text)
    → All
        (λ id. id ≢ codes "doc-" ++ other)
        (map (λ (c : ParsedChunk). chunk_document_id document_id revision c.index) chunks)
unfolding chunk_document_id
chunk_ids-foreign document_id revision [] other = tt
chunk_ids-foreign document_id revision (c ∷ chunks) other =
    (λ e. omega (arith, ap first e), chunk_ids-foreign document_id revision chunks other)

-- A source of code that is indexed before any revision is active, as the first revision of a document
-- is, is written as one whole text; a deletion after a revision has become active names only chunks,
-- and never the identity of the whole text, whose prefix is "doc-". So that text stays in the index.
pub first_insertion-delete_indexed_document :
    (codec : Codec) (content_id : ContentId) (hash : Text → Text) (namespace : Text)
    (document active : Document) (parsed : ParsedDocument) (r : ℕ) (faults faults' : Faults)
    (w w' : World)
    → document.active_revision ≡ none
    → active.active_revision ≡ some r
    → IsCode parsed
    → ((content prefix : Text) → content_id content prefix ≡ prefix ++ hash content)
    → HasCalled w
        (inserts_content namespace parsed.content)
        (insert_parsed_document codec namespace document parsed none faults w)
      × HasMade w'
          (deletions namespace (chunk_ids active.id r parsed))
          (delete_indexed_document codec content_id namespace active parsed faults' w')
      × All (λ id. id ≢ content_id parsed.content (codes "doc-")) (chunk_ids active.id r parsed)
first_insertion-delete_indexed_document codec content_id hash namespace document active parsed r
      faults faults' w w' inactive there code prefixed =
    let (contents, citations, same) = code_at_revision codec active parsed r code in
    (
      insert_parsed_document-HasCalled codec namespace document parsed none none faults w
          (code_when_inactive codec document parsed inactive),
      delete_indexed_document-HasMade codec content_id namespace active parsed _ faults' w'
          ((code_when_active codec active parsed r there) ∙ same),
      subst (λ t. All (λ id. id ≢ t) (chunk_ids active.id r parsed))
          (sym (prefixed parsed.content (codes "doc-")))
          (chunk_ids-foreign active.id r parsed.chunks (hash parsed.content)),
    )
