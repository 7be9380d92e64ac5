-- ===== src/Parsers/Tests.antt =====
-- A run of the parsers on a short source, and the theorems at inputs that meet their hypotheses.
mod Markdown
use graph_blizz.Prelude.{
  Option, some, none, ◌⊎◌, ◌++◌, text_eq, if◌then◌else◌, strip, lstrip, all, false, err, Text, ◌≡◌,
  refl, arith, true, List, [], ◌∷◌, codes, Result, ok, err, length, map, All, is_space, any,
}
use graph_blizz.Errors.{Exn, binary_document_type}
use graph_blizz.Parsers.Models.{ParsedChunk, is_numbered, parsed_chunk, immutable_metadata}
use graph_blizz.Parsers.Registry.{
  Library, lookup_last, before_semicolon, normalize_media_type, normalize_extension, has_prefix,
  is_binary, Registry, registry, parser_of_file, parser_of_type, get_parser, Parser,
  create_default_parser_registry,
}
use graph_blizz.Parsers.Registry.Choice.{get_parser-parameters}
use graph_blizz.Parsers.Registry.Defaults.{IsLower, get_parser-is_binary}
use graph_blizz.Parsers.Intervals.{Interval, Tiles, slice, slices}
use graph_blizz.Parsers.TreeSitter.{
  Symbols, symbol, none_left, with_next, Codec, Origin, semantic_chunks, partition, walk_children,
  close_partition, chunks_from, region_chunks, split_by_token_limit, token_starts, every, char_cuts,
  pairwise,
}
use graph_blizz.Parsers.TreeSitter.Cover.{IsNested}
use graph_blizz.Parsers.TreeSitter.Pieces.{IsCodec, IsText}
use graph_blizz.Parsers.TreeSitter.Chunks.{contents, content_of, regions_of, semantic_chunks_lem}

-- The codec of a source of ASCII characters.
abbrev ascii : Codec
ascii = record { encode = λ text. text; decode = λ bytes. bytes }

ascii-IsCodec : IsCodec ascii
ascii-IsCodec = record { append = λ s t. refl }

-- A comment, a function and a line after it, split after two tokens.
abbrev origin : Origin
origin = record {
  codec = ascii;
  limit = 2;
  language = codes "python";
  path = codes "a.py";
  source = codes "# hi\ndef f(): return 1\nx = f()\n";
}

abbrev symbols : Symbols
symbols = with_next (symbol 5 22 (codes "f") (codes "function") [] none_left) none_left

symbols-IsNested : IsNested 0 (length origin.source) symbols
symbols-IsNested = (omega arith, omega arith, omega arith, omega arith)

regions-IsText : All (IsText ascii origin.source) (regions_of origin symbols)
unfolding partition walk_children close_partition
regions-IsText = (refl, (refl, (refl, tt)))

abbrev chunks_of_run : Result Exn (List ParsedChunk) → List ParsedChunk
chunks_of_run (ok chunks) = chunks
chunks_of_run (err e) = []

chunked :
    (map (λ (c : ParsedChunk). c.content) (chunks_of_run (semantic_chunks origin symbols)))
    ≡ codes "# hi\n" ∷ codes "def f(): " ∷ codes "return 1" ∷ codes "\nx = " ∷ codes "f()\n" ∷ []
unfolding semantic_chunks partition walk_children close_partition chunks_from region_chunks
    split_by_token_limit token_starts every char_cuts pairwise slice parsed_chunk immutable_metadata
    any is_space
chunked = refl

semantic_chunks_lem_example :
    (chunks : List ParsedChunk) × (intervals : List Interval) × (semantic_chunks origin symbols
      ≡ ok chunks)
    × (is_numbered 0 chunks ≡ true)
    × (map content_of chunks ≡ contents origin intervals)
    × Tiles 0 (length origin.source) intervals
    × (slices origin.source intervals ≡ origin.source)
semantic_chunks_lem_example =
    semantic_chunks_lem origin symbols ascii-IsCodec symbols-IsNested regions-IsText

-- Names in lower case, and the suffix of two names.
abbrev library : Library
library = record {
  lower = λ text. text;
  suffix = λ name. if text_eq name (codes "a.py") then codes ".py" else [];
}

abbrev defaults : Registry Parser
defaults = create_default_parser_registry library

pdf_refused :
    get_parser library defaults (some (codes "application/pdf")) (some (codes "a.py"))
    ≡ err binary_document_type
unfolding get_parser parser_of_type parser_of_file create_default_parser_registry registry
    normalize_media_type normalize_extension before_semicolon strip lstrip is_space lookup_last
    text_eq is_binary any has_prefix
pdf_refused = refl

get_parser-parameters_example :
    get_parser library defaults
      (some (codes "text/plain" ++ 59 ∷ codes " charset=utf-8"))
      (some (codes "a.py"))
    ≡ get_parser library defaults (some (codes "text/plain")) (some (codes "a.py"))
unfolding all
get_parser-parameters_example =
    get_parser-parameters library defaults (codes "text/plain") (codes " charset=utf-8")
      (some (codes "a.py")) refl

library-IsLower : IsLower library
library-IsLower = record { keeps = λ t small. refl }

get_parser-is_binary_example :
    get_parser library defaults (some (codes "image/png; q=1")) (some (codes "a.py"))
    ≡ err binary_document_type
unfolding normalize_media_type before_semicolon strip lstrip is_space text_eq is_binary any
    has_prefix
get_parser-is_binary_example =
    get_parser-is_binary library library-IsLower (codes "image/png; q=1") (some (codes "a.py")) refl
