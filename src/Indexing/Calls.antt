-- ===== src/Indexing/Calls.antt =====
-- The calls of a LightRAG runtime that write derived data: `ainsert` of one text, `ainsert` of texts with
-- identities and citations, and `adelete_by_doc_id`. The runtime is named by its storage namespace.
use graph_blizz.Prelude.{List, Text}

pub data IndexCall : Type 0 where
  inserts_content : (namespace content : Text) → IndexCall
  inserts_chunks : (namespace : Text) → (contents ids citations : List Text) → IndexCall
  deletes_document : (namespace id : Text) → IndexCall
