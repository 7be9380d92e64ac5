-- ===== src/Query/Service.antt =====
-- backend/query/service.py and models.py: an answer and the sources that it cites. What LightRAG
-- returns is an argument, as a JSON value.
use graph_blizz.Prelude.{
  ℕ, ℤ, pos, negsuc, Bool, true, false, not, ◌&&◌, Option, none, some, List, [], ◌∷◌, String, Text,
  codes, text_eq, reverse, is_empty, any, filter, find?, map, ◌==◌, if◌then◌else◌, Result, ok, err,
  ◌>>=◌,
}
use graph_blizz.Errors.{Exn, type_error}
use graph_blizz.Json.{
  Json, null, boolean, integer, real, text, array, object, no_items, with_item, Fields, no_fields,
  with_field, field_of, field_or_null, items_of, Number, whole_number, other_float, number_of,
  int_eq,
}
use graph_blizz.Documents.Models.{ready, Document}
use graph_blizz.Documents.Db.{status_eq}
use graph_blizz.Indexing.Provenance.{Codec, decode_chunk_provenance}

pub record QuerySource : Type 0 where
  pub document_id : ℕ
  pub filename : String
  pub revision : Json
  pub path : Json
  pub language : Json
  pub symbol : Json
  pub start_line : Json
  pub end_line : Json

pub record QueryResult : Type 0 where
  pub answer : Text
  pub workspace_id : ℕ
  pub request_id : ℕ
  pub sources : List QuerySource

abbrev pub is_zero : ℤ → Bool
is_zero (pos n) = n == 0
is_zero (negsuc n) = false

abbrev pub has_fields : Fields → Bool
has_fields no_fields = false
has_fields (with_field name value members) = true

-- `bool` of a value.
abbrev pub is_truthy : Json → Bool
is_truthy null = false
is_truthy (boolean b) = b
is_truthy (integer n) = not (is_zero n)
is_truthy (real (some n) bits) = not (is_zero n)
is_truthy (real none bits) = true
is_truthy (text t) = not (is_empty t)
is_truthy (array no_items) = false
is_truthy (array (with_item value items)) = true
is_truthy (object members) = has_fields members

abbrev pub content_of_response : Json → Json
content_of_response (object response) =
    if is_truthy (field_or_null (codes "is_streaming") response)
    then null
    else field_or_null (codes "content") response
content_of_response value = null

-- `_retrieval_answer`
unfoldable pub retrieval_answer : Json → Json
unfolding field_of
retrieval_answer (object retrieval) =
    content_of_response (field_or_null (codes "llm_response") retrieval)
retrieval_answer value = null

-- `==` of two numbers, of None and of texts, as far as the keys of sources need it.
abbrev pub number_eq : Number → Number → Bool
number_eq (whole_number a) (whole_number b) = int_eq a b
number_eq (other_float a) (other_float b) = a == b
number_eq a b = false

abbrev pub scalar_eq : Json → Json → Bool
scalar_eq null null = true
scalar_eq (text a) (text b) = text_eq a b
scalar_eq a b = number_eq (number_of a) (number_of b)

-- `revision != document.active_revision`, negated.
abbrev pub is_revision : Option ℕ → Json → Bool
is_revision none null = true
is_revision none value = false
is_revision (some n) value = number_eq (number_of value) (whole_number (pos n))

-- A list or a dict has no hash, so it cannot stand in a set.
abbrev pub has_hash : Json → Bool
has_hash (array items) = false
has_hash (object members) = false
has_hash value = true

abbrev pub same_source : QuerySource → QuerySource → Bool
same_source a b =
    a.document_id == b.document_id
    && scalar_eq a.revision b.revision
    && scalar_eq a.start_line b.start_line
    && scalar_eq a.end_line b.end_line

-- `ready.get`; the identifiers of documents are unique.
unfoldable pub ready_document : (document_id : ℕ) → List Document → Option Document
ready_document document_id = find? (λ d. d.id == document_id)

abbrev pub source_of : Document → Fields → QuerySource
source_of document provenance = record {
  document_id = document.id;
  filename = document.filename;
  revision = field_or_null (codes "revision") provenance;
  path = field_or_null (codes "path") provenance;
  language = field_or_null (codes "language") provenance;
  symbol = field_or_null (codes "symbol") provenance;
  start_line = field_or_null (codes "start_line") provenance;
  end_line = field_or_null (codes "end_line") provenance;
}

-- What the loop keeps of a citation that was decoded: a source, or nothing.
abbrev pub cited_document : Fields → Option Document → Option QuerySource
cited_document provenance none = none
cited_document provenance (some document) =
    if is_revision document.active_revision (field_or_null (codes "revision") provenance)
    then some (source_of document provenance)
    else none

unfoldable pub cited : List Document → (document_id : Option ℕ) → Fields → Option QuerySource
cited documents none provenance = none
cited documents (some document_id) provenance =
    cited_document provenance (ready_document document_id documents)

-- The identifier of a provenance that was decoded.
abbrev pub id_of : Codec → Json → Option ℕ
id_of codec (text id) = codec.uuid_of id
id_of codec value = none

-- The key of a source and the set of the keys before it.
unfoldable pub kept :
    (found : List QuerySource) → Option QuerySource → Result Exn (List QuerySource)
kept found none = ok found
kept found (some source) =
    if not (has_hash source.start_line && has_hash source.end_line)
    then err type_error
    else if any (same_source source) found
    then ok found
    else ok (source ∷ found)

abbrev pub cited_by : Codec → List Document → Option Fields → Option QuerySource
cited_by codec documents none = none
cited_by codec documents (some provenance) =
    cited documents (id_of codec (field_or_null (codes "document_id") provenance)) provenance

-- One round of the loop; what is found so far stands in reverse.
unfoldable pub add_chunk :
    Codec → List Document → (found : List QuerySource) → Json → Result Exn (List QuerySource)
unfolding kept cited
add_chunk codec documents found (object chunk) = do
  provenance ← decode_chunk_provenance codec (field_or_null (codes "file_path") chunk)
  kept found (cited_by codec documents provenance)
add_chunk codec documents found value = ok found

unfoldable pub add_chunks :
    Codec → List Document → (found : List QuerySource) → List Json → Result Exn (List QuerySource)
add_chunks codec documents found [] = ok found
add_chunks codec documents found (chunk ∷ chunks) = do
  found' ← add_chunk codec documents found chunk
  add_chunks codec documents found' chunks

abbrev pub chunks_in : Json → List Json
chunks_in (array items) = items_of items
chunks_in value = []

abbrev pub chunks_of_data : Json → List Json
chunks_of_data (object members) = chunks_in (field_or_null (codes "chunks") members)
chunks_of_data value = []

abbrev pub retrieved_chunks : Json → List Json
retrieved_chunks (object retrieval) = chunks_of_data (field_or_null (codes "data") retrieval)
retrieved_chunks value = []

-- `_retrieved_sources`
unfoldable pub retrieved_sources :
    Codec → List Document → (retrieval : Json) → Result Exn (List QuerySource)
unfolding add_chunks
retrieved_sources codec documents retrieval = do
  found ← add_chunks codec documents [] (retrieved_chunks retrieval)
  ok (reverse found)

-- What LightRAG answers: `aquery` only an answer, `aquery_llm` a retrieval with its answer.
pub data Reply : Type 0 where
  answered : Json → Reply
  retrieved : Json → Reply

abbrev pub retrieval_of : Reply → Json
retrieval_of (answered answer) = null
retrieval_of (retrieved retrieval) = retrieval

abbrev pub answer_of : Reply → Json
answer_of (answered answer) = answer
answer_of (retrieved retrieval) = retrieval_answer retrieval

abbrev pub text_answer : Json → Result Exn Text
text_answer (text answer) = ok answer
text_answer value = err type_error

-- `ready`: the documents of the workspace that are READY.
unfoldable pub ready_documents : (workspace_id : ℕ) → List Document → List Document
ready_documents workspace_id =
    filter (λ d. d.workspace_id == workspace_id && status_eq d.status ready)

abbrev pub uncited_source : Document → QuerySource
uncited_source document = record {
  document_id = document.id;
  filename = document.filename;
  revision = null;
  path = null;
  language = null;
  symbol = null;
  start_line = null;
  end_line = null;
}

-- Without a source that was cited, all of the documents.
abbrev pub sources_or_all : List Document → List QuerySource → List QuerySource
sources_or_all documents [] = map uncited_source documents
sources_or_all documents (source ∷ sources) = source ∷ sources

-- What `query` makes of the reply and of the documents of the workspace.
unfoldable pub result_of :
    Codec
    → (request_id workspace_id : ℕ) → Reply
    → (answer : Text) → List Document
    → Result Exn QueryResult
unfolding retrieved_sources ready_documents
result_of codec request_id workspace_id reply answer documents = do
  sources ← retrieved_sources codec (ready_documents workspace_id documents) (retrieval_of reply)
  ok (record {
    answer = answer;
    workspace_id = workspace_id;
    request_id = request_id;
    sources = sources_or_all (ready_documents workspace_id documents) sources;
  })
