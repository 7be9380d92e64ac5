-- ===== src/Indexing/Tests.antt =====
-- Runs of indexing, and the theorems at inputs that meet their hypotheses.
use graph_blizz.Prelude.{◌≡◌, ◌≢◌, refl, arith, none, some, ok, List, [], Text, codes, All, text_eq}
use graph_blizz.Json.{text}
use graph_blizz.Documents.Models.{DocumentStatus, Document}
use graph_blizz.Indexing.Calls.{inserts_content, inserts_chunks}
use graph_blizz.Indexing.Provenance.{
  metadata_of, payload_of, rstrip_char, encode_chunk_provenance, decode_chunk_provenance,
  insert_parsed_document, delete_indexed_document,
}
use graph_blizz.Indexing.Provenance.RoundTrip.{
  IsCodec, decode_chunk_provenance-encode_chunk_provenance,
}
use graph_blizz.Indexing.Provenance.Written.{deletions}
use graph_blizz.Indexing.Provenance.Leftovers.{
  HasCalled, HasMade, IsCode, chunk_ids, delete_indexed_document-insert_parsed_document,
  first_insertion-delete_indexed_document,
}
use graph_blizz.Indexing.Samples.{
  row_at, document_at, code_chunk, code, codec_for, content_id, environment, db_with, world_with,
  quiet, failing,
}

abbrev active_document : Document
active_document = document_at DocumentStatus.ready (some 1)

abbrev first_document : Document
first_document = document_at DocumentStatus.indexing none

codec_for-IsCodec :
    IsCodec (codec_for (payload_of active_document 1 code_chunk)) active_document 1 code_chunk
unfolding rstrip_char
codec_for-IsCodec = record {
  shaped = record {
    body = codes "QQ";
    count = 2;
    few = omega arith;
    same = refl;
    bare = refl;
    whole = refl;
  };
  decoded = refl;
  loaded = refl;
  named = refl;
}

decode_chunk_provenance-encode_chunk_provenance_example :
    decode_chunk_provenance environment.codec
      (text (encode_chunk_provenance environment.codec active_document 1 code_chunk))
    ≡ ok (some (payload_of active_document 1 code_chunk))
decode_chunk_provenance-encode_chunk_provenance_example =
    decode_chunk_provenance-encode_chunk_provenance environment.codec active_document 1 code_chunk
      codec_for-IsCodec

code-IsCode : IsCode code
unfolding metadata_of text_eq
code-IsCode = (refl, refl)

delete_indexed_document-insert_parsed_document_example :
    (contents citations : List Text) × HasCalled
      (world_with (db_with (row_at DocumentStatus.ready (some 1)) []))
      (inserts_chunks (codes "n") contents (chunk_ids active_document.id 1 code) citations)
      (insert_parsed_document environment.codec
        (codes "n")
        active_document
        code
        (some 1)
        quiet
        (world_with (db_with (row_at DocumentStatus.ready (some 1)) [])))
    × HasMade
        (world_with (db_with (row_at DocumentStatus.ready (some 1)) []))
        (deletions (codes "n") (chunk_ids active_document.id 1 code))
        (delete_indexed_document environment.codec content_id
          (codes "n")
          active_document
          code
          failing
          (world_with (db_with (row_at DocumentStatus.ready (some 1)) [])))
delete_indexed_document-insert_parsed_document_example =
    delete_indexed_document-insert_parsed_document environment.codec content_id (codes "n")
      active_document code 1 quiet failing
      (world_with (db_with (row_at DocumentStatus.ready (some 1)) []))
      (world_with (db_with (row_at DocumentStatus.ready (some 1)) [])) refl code-IsCode

first_insertion-delete_indexed_document_example :
    HasCalled
      (world_with (db_with (row_at DocumentStatus.indexing none) []))
      (inserts_content (codes "n") code.content)
      (insert_parsed_document environment.codec
        (codes "n")
        first_document
        code
        none
        quiet
        (world_with (db_with (row_at DocumentStatus.indexing none) [])))
    × HasMade
        (world_with (db_with (row_at DocumentStatus.ready (some 1)) []))
        (deletions (codes "n") (chunk_ids active_document.id 1 code))
        (delete_indexed_document environment.codec content_id
          (codes "n")
          active_document
          code
          quiet
          (world_with (db_with (row_at DocumentStatus.ready (some 1)) [])))
    × All (λ id. id ≢ content_id code.content (codes "doc-")) (chunk_ids active_document.id 1 code)
first_insertion-delete_indexed_document_example =
    first_insertion-delete_indexed_document environment.codec content_id (λ content. content)
      (codes "n") first_document active_document code 1 quiet quiet
      (world_with (db_with (row_at DocumentStatus.indexing none) []))
      (world_with (db_with (row_at DocumentStatus.ready (some 1)) [])) refl refl code-IsCode
      (λ content prefix. refl)
