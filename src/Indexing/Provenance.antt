-- ===== src/Indexing/Provenance.antt =====
-- backend/indexing/provenance.py: the documents that LightRAG receives for a parsed source, with the
-- citations that lead back to it. Base 64, the json module and `uuid.UUID` are arguments.
pub mod RoundTrip
pub mod Written
pub mod Leftovers
use graph_blizz.Prelude.{
  ℕ, zero, suc, ◌+◌, ◌-◌, ◌*◌, ◌%◌, ℤ, pos, negsuc, Bool, true, false, not, ◌&&◌, ◌||◌, Option,
  none, some, List, [], ◌∷◌, ◌++◌, Text, codes, text_eq, uuid_text, decimal_text, is_empty, is_some,
  length, map, strip, ltb, leb, ◌==◌, if◌then◌else◌, Result, ok, err,
}
use graph_blizz.Json.{
  Json, null, boolean, integer, real, text, array, object, Fields, no_fields, with_field, field_of,
}
use graph_blizz.Errors.{Exn, attribute_error}
use graph_blizz.Documents.Models.{Document}
use graph_blizz.Documents.World.{Action, return, ◌>>=◌, index_call, after_prefix}
use graph_blizz.Indexing.Calls.{inserts_content, inserts_chunks, deletes_document}
use graph_blizz.Parsers.Models.{Metadata, ParsedChunk, ParsedDocument}

pub record Codec : Type 0 where
  pub dumps : Json → Text
  pub loads : Text → Option Json
  pub encode64 : Text → Text
  pub decode64 : Text → Option Text
  pub uuid_of : Text → Option ℕ

-- `compute_mdhash_id` of LightRAG, of a content and a prefix.
abbrev pub ContentId : Type 0
ContentId = (content prefix : Text) → Text

unfoldable pub chunk_document_id : (document_id revision chunk_index : ℕ) → Text
chunk_document_id document_id revision chunk_index =
    codes "source-"
    ++ (uuid_text document_id
        ++ (codes "-r" ++ (decimal_text revision ++ (codes "-c" ++ decimal_text chunk_index))))

-- `dict.get` of the metadata: a dict built from pairs keeps the last one of a key.
unfoldable pub metadata_of : Text → Metadata → Option Text
metadata_of key [] = none
metadata_of key (entry ∷ metadata) = elim (metadata_of key metadata) [
  | some value ↦ some value
  | none ↦ if text_eq entry.0 key then some entry.1 else none
]

-- `… or …` of a text that may be absent or empty.
abbrev pub text_or : {A : Type 0} → (Text → A) → A → Option Text → A
text_or f other none = other
text_or f other (some []) = other
text_or f other (some (c ∷ value)) = f (c ∷ value)

abbrev pub text_or_null : Option Text → Json
text_or_null none = null
text_or_null (some value) = text value

-- `int` of a text of ASCII digits, which an underscore may separate; `seen` says that a digit is before.
unfoldable pub digits_value : (value : ℕ) (seen : Bool) → Text → Option ℕ
digits_value value seen [] = if seen then some value else none
digits_value value seen (c ∷ digits) = elim (leb 48 c && leb c 57) [
  | true ↦ digits_value (value * 10 + (c - 48)) true digits
  | false ↦ if c == 95 && seen then digits_value value false digits else none
]

unfoldable pub signed_value : Text → Option ℤ
unfolding digits_value
signed_value [] = none
signed_value (c ∷ digits) =
    if c == 45
    then (elim (digits_value 0 false digits) [
      | none ↦ none
      | some n ↦ some (if n == 0 then pos 0 else negsuc (n - 1))
    ])
    else if c == 43
    then (elim (digits_value 0 false digits) [ none ↦ none | some n ↦ some (pos n) ])
    else (elim (digits_value 0 false (c ∷ digits)) [ none ↦ none | some n ↦ some (pos n) ])

abbrev positive_only : Option ℤ → Option ℕ
positive_only (some (pos (suc n))) = some (suc n)
positive_only value = none

-- `_positive_int`
unfoldable pub positive_int : Option Text → Option ℕ
unfolding signed_value
positive_int none = none
positive_int (some value) = positive_only (signed_value (strip value))

abbrev pub line_of : Option ℕ → Json
line_of none = null
line_of (some n) = integer (pos n)

-- The payload, its keys sorted.
unfoldable pub payload_of : Document → (revision : ℕ) → ParsedChunk → Fields
unfolding metadata_of positive_int
payload_of document revision chunk =
    with_field (codes "document_id") (text (uuid_text document.id)) (
      with_field (codes "end_line")
        (line_of (positive_int (metadata_of (codes "end_line") chunk.metadata)))
        (with_field (codes "language")
          (text_or_null (metadata_of (codes "language") chunk.metadata))
          (with_field (codes "path")
            (text_or text (text (codes document.filename))
              (metadata_of (codes "path") chunk.metadata))
            (with_field (codes "revision") (integer (pos revision)) (
              with_field (codes "start_line")
                (line_of (positive_int (metadata_of (codes "start_line") chunk.metadata)))
                (with_field (codes "symbol")
                  (text_or text null (metadata_of (codes "symbol") chunk.metadata)) no_fields))))))

abbrev pub prefix : Text
prefix = codes "graph-blizz-source:"

-- `str.rstrip` of one character.
unfoldable pub rstrip_char : ℕ → Text → Text
rstrip_char c [] = []
rstrip_char c (d ∷ rest) =
    let stripped = rstrip_char c rest in if is_empty stripped && d == c then [] else d ∷ stripped

unfoldable pub encode_chunk_provenance : Codec → Document → (revision : ℕ) → ParsedChunk → Text
unfolding payload_of rstrip_char
encode_chunk_provenance codec document revision chunk =
    prefix
    ++ rstrip_char 61 (codec.encode64 (codec.dumps (object (payload_of document revision chunk))))

abbrev pub repeated : ℕ → ℕ → Text
repeated c zero = []
repeated c (suc n) = c ∷ repeated c n

-- `encoded + "=" * (-len(encoded) % 4)`
unfoldable pub padded : Text → Text
padded encoded = encoded ++ repeated 61 ((4 - length encoded % 4) % 4)

-- `UUID(payload["document_id"])`: None is refused with a TypeError, which is caught, other values that
-- are no text have no `replace`.
abbrev pub identified : Codec → Fields → Option Json → Result Exn (Option Fields)
identified codec payload none = ok none
identified codec payload (some null) = ok none
identified codec payload (some (text id)) =
    if is_some (codec.uuid_of id) then ok (some payload) else ok none
identified codec payload (some value) = err attribute_error

abbrev pub payload_checked : Codec → Option Json → Result Exn (Option Fields)
payload_checked codec (some (object payload)) =
    identified codec payload (field_of (codes "document_id") payload)
payload_checked codec value = ok none

abbrev pub raw_checked : Codec → Option Text → Result Exn (Option Fields)
raw_checked codec none = ok none
raw_checked codec (some raw) = payload_checked codec (codec.loads raw)

abbrev pub encoded_checked : Codec → Option Text → Result Exn (Option Fields)
encoded_checked codec none = ok none
encoded_checked codec (some encoded) = raw_checked codec (codec.decode64 (padded encoded))

unfoldable pub decode_chunk_provenance : Codec → Json → Result Exn (Option Fields)
unfolding padded after_prefix field_of
decode_chunk_provenance codec (text value) = encoded_checked codec (after_prefix prefix value)
decode_chunk_provenance codec value = ok none

abbrev or_active : Document → Option ℕ → Option ℕ
or_active document none = document.active_revision
or_active document (some revision) = some revision

abbrev pub CodeDocuments : Type 0
CodeDocuments = List Text × List Text × List Text

abbrev code_documents_at : Codec → Document → ParsedDocument → Option ℕ → Option CodeDocuments
code_documents_at codec document parsed none = none
code_documents_at codec document parsed (some revision) = some (
  map (λ (c : ParsedChunk). c.content) parsed.chunks,
  map (λ (c : ParsedChunk). chunk_document_id document.id revision c.index) parsed.chunks,
  map (encode_chunk_provenance codec document revision) parsed.chunks,
)

unfoldable pub code_chunk_documents :
    Codec → Document → ParsedDocument → (revision : Option ℕ) → Option CodeDocuments
unfolding metadata_of chunk_document_id encode_chunk_provenance
code_chunk_documents codec document parsed revision =
    if is_empty parsed.chunks || not (is_some (metadata_of (codes "language") parsed.metadata))
    then none
    else code_documents_at codec document parsed (or_active document revision)

unfoldable pub delete_all : (namespace : Text) → List Text → Action (Unit {0})
delete_all namespace [] = return tt
delete_all namespace (id ∷ ids) = do
  _ ← index_call (deletes_document namespace id)
  delete_all namespace ids

unfoldable pub delete_documents :
    ContentId → (namespace : Text) → ParsedDocument → Option CodeDocuments → Action (Unit {0})
delete_documents content_id namespace parsed none =
    index_call (deletes_document namespace (content_id parsed.content (codes "doc-")))
delete_documents content_id namespace parsed (some (contents, ids, citations)) =
    delete_all namespace ids

unfoldable pub delete_indexed_document :
    Codec → ContentId → (namespace : Text) → Document → ParsedDocument → Action (Unit {0})
delete_indexed_document codec content_id namespace document parsed =
    delete_documents content_id namespace parsed (code_chunk_documents codec document parsed none)

unfoldable pub insert_documents :
    (namespace : Text) → ParsedDocument → Option CodeDocuments → Action (Unit {0})
insert_documents namespace parsed none = index_call (inserts_content namespace parsed.content)
insert_documents namespace parsed (some (contents, ids, citations)) =
    index_call (inserts_chunks namespace contents ids citations)

unfoldable pub insert_parsed_document :
    Codec
    → (namespace : Text) → Document
    → ParsedDocument
    → (revision : Option ℕ) → Action (Unit {0})
insert_parsed_document codec namespace document parsed revision =
    insert_documents namespace parsed (code_chunk_documents codec document parsed revision)
