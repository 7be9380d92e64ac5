-- ===== src/Query/Tests.antt =====
-- A question to LightRAG, and the theorems at inputs that meet their hypotheses.
use mathlib.Core.List.{Memᴰ}
use graph_blizz.Documents.Db.{DocumentRow, document_of, shown_row, shown_revision, find_revision}
use graph_blizz.Query.Service.{QueryResult}
use graph_blizz.Query.Request.Ready.{IsReadySource}
use graph_blizz.Indexing.Samples.{first_revision}
use graph_blizz.Prelude.{
  pos, ◌≡◌, refl, false, some, List, [], ◌∷◌, ◌++◌, Text, codes, text_eq, All, find?, any, ok,
  is_empty, strip,
}
use graph_blizz.Json.{
  Json, null, integer, text, array, object, no_items, with_item, no_fields, with_field, field_of,
  items_of,
}
use graph_blizz.Documents.Models.{Document, DocumentStatus}
use graph_blizz.Documents.World.{World, after_prefix}
use graph_blizz.Documents.World.Ensures.{Outcome}
use graph_blizz.Documents.Repository.{list_documents}
use graph_blizz.Indexing.Provenance.{encode_chunk_provenance, decode_chunk_provenance, padded}
use graph_blizz.Indexing.Provenance.Written.{Called}
use graph_blizz.Indexing.Service.{namespace_of}
use graph_blizz.Indexing.Samples.{
  row_at, document_at, code_chunk, environment, context, db_with, world_with, quiet,
}
use graph_blizz.Query.Service.{
  QuerySource, Reply, answered, uncited_source, retrieved_sources, add_chunks, add_chunk, cited,
  kept, ready_document,
}
use graph_blizz.Query.Sources.{IsCited, Fresh, retrieved_sources_lem}
use graph_blizz.Query.Request.{query}
use graph_blizz.Query.Request.Answers.{IsAnswer, ok_value, query_lem, query-answered}

abbrev documents : List Document
documents = document_at DocumentStatus.ready (some 1) ∷ []

abbrev chunk : Json
chunk = object (
    with_field (codes "file_path")
      (text (
        encode_chunk_provenance environment.codec (document_at DocumentStatus.ready (some 1)) 1
          code_chunk))
      no_fields)

-- The same chunk twice.
abbrev retrieval : Json
retrieval = object (
    with_field (codes "data")
      (object (
        with_field (codes "chunks") (array (with_item chunk (with_item chunk no_items))) no_fields))
      no_fields)

abbrev source : QuerySource
source = record {
  document_id = 8;
  filename = "a.txt";
  revision = integer (pos 1);
  path = text (codes "a.txt");
  language = text (codes "go");
  symbol = null;
  start_line = null;
  end_line = null;
}

one_source : retrieved_sources environment.codec documents retrieval ≡ ok (source ∷ [])
unfolding retrieved_sources add_chunks add_chunk cited kept ready_document find? any field_of
    encode_chunk_provenance decode_chunk_provenance padded text_eq items_of after_prefix
one_source = refl

retrieved_sources_lem_example : All (IsCited documents) (source ∷ []) × Fresh [] (source ∷ [])
retrieved_sources_lem_example =
    retrieved_sources_lem environment.codec documents retrieval (source ∷ []) one_source

abbrev world : World
world = world_with (db_with (row_at DocumentStatus.ready (some 1)) [])

abbrev rag : (namespace query : Text) → Reply
rag namespace question = answered (text (namespace ++ question))

query_lem_example :
    Outcome
      (λ result c k o l.
        Called world [] c k o l
        × IsAnswer environment rag context (codes " q ") world.working result)
      (Called world [])
      (query environment rag 3 context (codes " q ") quiet world)
query_lem_example = query_lem environment rag 3 context (codes " q ") quiet world

asked : is_empty (strip (codes " q ")) ≡ false
unfolding strip
asked = refl

abbrev reply : Text
reply = namespace_of environment.digest context ++ codes "q"

abbrev row : DocumentRow
row = row_at DocumentStatus.ready (some 1)

row-shown : shown_row row world.working.revisions ≡ some first_revision
unfolding shown_row shown_revision find_revision find?
row-shown = refl

query-answered_example :
    (result : QueryResult) × (ok_value (query environment rag 3 context (codes " q ") quiet world)
      ≡ some result)
    × (result.answer ≡ reply)
    × Memᴰ (uncited_source (document_of row first_revision)) result.sources
    × All (IsReadySource 1 (list_documents 1 world.working)) result.sources
unfolding strip
query-answered_example =
    query-answered environment rag 3 context (codes " q ") reply quiet world row first_revision
      (λ n. refl) asked refl (Memᴰ.head refl) refl refl row-shown
