-- ===== src/Parsers/Models.antt =====
-- backend/parsers/models.py: chunks and documents, with what their constructors check.
-- The types of the fields are those that the constructors test; metadata are pairs in their order.
use graph_blizz.Prelude.{
  ℕ, suc, Bool, true, not, ◌&&◌, List, [], ◌∷◌, Text, any, is_empty, ◌==◌, if◌then◌else◌, Result,
  ok, err, ◌>>=◌,
}
use graph_blizz.Errors.{Exn, value_error}

abbrev pub Metadata : Type 0
Metadata = List (Text × Text)

pub record ParsedChunk : Type 0 where
  pub content : Text
  pub index : ℕ
  pub metadata : Metadata

pub record ParsedDocument : Type 0 where
  pub content : Text
  pub chunks : List ParsedChunk
  pub metadata : Metadata

-- `_immutable_metadata`
unfoldable pub immutable_metadata : Metadata → Result Exn Metadata
immutable_metadata metadata =
    if any (λ entry. is_empty entry.0) metadata then err value_error else ok metadata

unfoldable pub parsed_chunk : Text → ℕ → Metadata → Result Exn ParsedChunk
parsed_chunk content index metadata = do
  copied ← immutable_metadata metadata
  ok (record { content = content; index = index; metadata = copied })

-- `chunk.index == index` along the chunks, counted from the first argument.
unfoldable pub is_numbered : ℕ → List ParsedChunk → Bool
is_numbered index [] = true
is_numbered index (chunk ∷ chunks) = chunk.index == index && is_numbered (suc index) chunks

unfoldable pub parsed_document : Text → List ParsedChunk → Metadata → Result Exn ParsedDocument
parsed_document content chunks metadata = if not (is_numbered 0 chunks) then err value_error else do
  copied ← immutable_metadata metadata
  ok (record { content = content; chunks = chunks; metadata = copied })
