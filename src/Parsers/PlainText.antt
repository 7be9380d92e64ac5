-- ===== src/Parsers/PlainText.antt =====
-- backend/parsers/text.py: a text source as one chunk.
use graph_blizz.Prelude.{Option, none, some, [], ◌∷◌, Text, codes, Result, ◌>>=◌}
use graph_blizz.Errors.{Exn}
use graph_blizz.Parsers.Models.{Metadata, ParsedDocument, parsed_chunk, parsed_document}

abbrev pub named_source : Option Text → Metadata
named_source none = []
named_source (some name) = (codes "source_name", name) ∷ []

unfoldable pub parse_text : (content : Text) (source_name : Option Text) → Result Exn ParsedDocument
parse_text content source_name = do
  chunk ← parsed_chunk content 0 ((codes "parser", codes "plain_text") ∷ [])
  parsed_document content (chunk ∷ []) (
      (codes "parser", codes "plain_text")
      ∷ (codes "content_type", codes "text/plain")
      ∷ named_source source_name)
