-- ===== src/Parsers/TreeSitter/Chunks.antt =====
-- The chunks of a source are the texts of its pieces, numbered from 0.
use graph_blizz.Prelude.{
  ℕ, suc, ◌+◌, ◌≡◌, refl, sym, ap, subst, ◌∙◌, arith, true, List, [], ◌∷◌, ◌++◌, length, map, Text,
  All, any, ok, Result,
}
use graph_blizz.Errors.{Exn}
use graph_blizz.Parsers.Models.{ParsedChunk, parsed_chunk, immutable_metadata, is_numbered}
use graph_blizz.Parsers.Intervals.{Interval, Tiles, slice, slices, slices-Tiles}
use graph_blizz.Parsers.TreeSitter.{
  Symbols, Region, partition, split_by_token_limit, module_context, Origin, chunk_metadata,
  region_chunks, chunks_from, semantic_chunks,
}
use graph_blizz.Parsers.TreeSitter.Cover.{IsNested, map-append, partition-Tiles}
use graph_blizz.Parsers.TreeSitter.Pieces.{IsCodec, IsText, pieces, pieces-Tiles}

abbrev pub contents : Origin → List Interval → List Text
contents o = map (λ i. o.codec.decode (slice o.source i))

abbrev pub content_of : ParsedChunk → Text
content_of chunk = chunk.content

-- Chunks that a list of pieces gives: numbered from `index`, with the text of each piece.
abbrev pub IsChunked : Origin → ℕ → List Interval → Result Exn (List ParsedChunk) → Type 0
IsChunked o index intervals result =
    (chunks : List ParsedChunk) × (result ≡ ok chunks)
    × (is_numbered index chunks ≡ true)
    × (map content_of chunks ≡ contents o intervals)

region_chunks-IsChunked :
    (o : Origin) (r : Region) (index : ℕ) (intervals : List Interval)
    → IsChunked o index intervals (region_chunks o r index intervals)
unfolding region_chunks parsed_chunk immutable_metadata is_numbered any
region_chunks-IsChunked o r index [] = ([], refl, refl, refl)
region_chunks-IsChunked o r index (i ∷ rest) =
    let (chunks, same, numbered, texts) = region_chunks-IsChunked o r (suc index) rest in
    (
      record {
        content = o.codec.decode (slice o.source i);
        index = index;
        metadata = chunk_metadata o r i;
      }
          ∷ chunks,
      rw same refl,
      ground (arith, numbered),
      ap (λ later. o.codec.decode (slice o.source i) ∷ later) texts,
    )

is_numbered-append :
    (index : ℕ) (left right : List ParsedChunk)
    → is_numbered index left ≡ true
    → is_numbered (index + length left) right ≡ true
    → is_numbered index (left ++ right) ≡ true
unfolding is_numbered
is_numbered-append index [] right h k = subst (λ n. is_numbered n right ≡ true) (omega arith) k
is_numbered-append index (chunk ∷ left) right h k = ground (
  arith,
  h,
  is_numbered-append (suc index) left right (ground (arith, h))
      (subst (λ n. is_numbered n right ≡ true) (omega arith) k),
)

chunks_from-IsChunked :
    (o : Origin) (index : ℕ) (regions : List Region)
    → IsChunked o index (pieces o.codec o.limit o.source regions) (chunks_from o index regions)
unfolding chunks_from pieces is_numbered
chunks_from-IsChunked o index [] = ([], refl, refl, refl)
chunks_from-IsChunked o index (r ∷ regions) =
    let split = split_by_token_limit o.codec o.limit o.source r in
    let (chunks, same, numbered, texts) = region_chunks-IsChunked o r index split in
    let (later, same', numbered', texts') =
      chunks_from-IsChunked o (index + length chunks) regions in
    (
      chunks ++ later,
      rw same (rw same' refl),
      is_numbered-append index chunks later numbered numbered',
      ((map-append content_of chunks later) ∙ (rw (texts, texts') refl))
          ∙ (sym (map-append _ split (pieces o.codec o.limit o.source regions))),
    )

abbrev pub regions_of : Origin → Symbols → List Region
regions_of o symbols = partition module_context 0 (length o.source) symbols

-- For symbols that are nested as tree-sitter promises, and regions whose bytes decode and encode
-- back to themselves, semantic chunking of a source returns chunks numbered from 0 without a gap.
-- They are the texts of intervals that cover the bytes of the source once and in order, so that the
-- bytes of the chunks, one after the other, are the source.
pub semantic_chunks_lem :
    (o : Origin) (symbols : Symbols)
    → IsCodec o.codec
    → IsNested 0 (length o.source) symbols
    → All (IsText o.codec o.source) (regions_of o symbols)
    → (chunks : List ParsedChunk) × (intervals : List Interval) × (semantic_chunks o symbols
        ≡ ok chunks)
      × (is_numbered 0 chunks ≡ true)
      × (map content_of chunks ≡ contents o intervals)
      × Tiles 0 (length o.source) intervals
      × (slices o.source intervals ≡ o.source)
unfolding semantic_chunks
semantic_chunks_lem o symbols laws nested good =
    let intervals = pieces o.codec o.limit o.source (regions_of o symbols) in
    let (chunks, same, numbered, texts) = chunks_from-IsChunked o 0 (regions_of o symbols) in
    let tiles =
      pieces-Tiles o.codec o.limit o.source 0 (regions_of o symbols) laws
        (partition-Tiles module_context 0 (length o.source) symbols nested) good in
    (chunks, intervals, same, numbered, texts, tiles, slices-Tiles o.source intervals tiles)
