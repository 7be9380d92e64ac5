-- ===== src/Parsers/TreeSitter.antt =====
-- backend/parsers/tree_sitter.py: the partition of a source into regions, the split of a region by
-- its tokens, and the chunks. `collect_symbols` of the syntax tree is an argument, as are the UTF-8
-- codec and the syntax error that tree-sitter reports.
pub mod Cover
pub mod Pieces
pub mod Chunks
use graph_blizz.Prelude.{
  ℕ, zero, suc, ◌+◌, ◌-◌, Bool, true, false, not, ◌&&◌, ◌||◌, List, [], ◌∷◌, ◌++◌, String, Text,
  codes, decimal_text, length, take, drop, is_empty, is_space, ltb, leb, ◌==◌, if◌then◌else◌,
  Option, none, some, Result, ok, err, ◌>>=◌,
}
use graph_blizz.Errors.{Exn, value_error}
use graph_blizz.Parsers.Models.{
  Metadata, ParsedChunk, ParsedDocument, parsed_chunk, parsed_document,
}
use graph_blizz.Parsers.Intervals.{Interval, slice}

mutual
  pub data Symbol : Type 0 where
    symbol : (start end : ℕ) (name symbol_type parent : Text) (children : Symbols) → Symbol

  pub data Symbols : Type 0 where
    none_left : Symbols
    with_next : Symbol → Symbols → Symbols

pub record Region : Type 0 where
  pub start : ℕ
  pub end : ℕ
  pub symbol : Text
  pub symbol_type : Text
  pub parent_symbol : Text

-- The context that text outside the children of a symbol is attributed to.
pub record Context : Type 0 where
  pub symbol : Text
  pub symbol_type : Text
  pub parent_symbol : Text

abbrev pub region : Context → ℕ → ℕ → Region
region c start end = record {
  start = start;
  end = end;
  symbol = c.symbol;
  symbol_type = c.symbol_type;
  parent_symbol = c.parent_symbol;
}

abbrev pub context_of : (name symbol_type parent : Text) → Context
context_of name symbol_type parent = record {
  symbol = name;
  symbol_type = symbol_type;
  parent_symbol = parent;
}

-- The end of `_partition`: what follows the last child.
unfoldable pub close_partition : Context → (start end : ℕ) → List Region × ℕ → List Region
close_partition c start end walked =
    if ltb walked.1 end || is_empty walked.0 && start == end
    then walked.0 ++ region c walked.1 end ∷ []
    else walked.0

-- The loop over the children: the regions up to the cursor, and the cursor.
unfoldable pub walk_children : Context → (cursor : ℕ) → Symbols → List Region × ℕ
walk_children c cursor none_left = ([], cursor)
walk_children c cursor (with_next (symbol start end name symbol_type parent children) rest) =
    let gap = if ltb cursor start then region c cursor start ∷ [] else [] in
    let inner = context_of name symbol_type parent in
    let inside = close_partition inner start end (walk_children inner start children) in
    let after = walk_children c end rest in (gap ++ (inside ++ after.0), after.1)

unfoldable pub partition : Context → (start end : ℕ) → Symbols → List Region
partition c start end children = close_partition c start end (walk_children c start children)

-- `_TOKEN_RE.finditer`: the positions where a run of characters that are not white space begins.
unfoldable pub token_starts : (position : ℕ) (in_token : Bool) → Text → List ℕ
token_starts position in_token [] = []
token_starts position in_token (c ∷ text) =
    let rest = token_starts (suc position) (not (is_space c)) text in
    if not (is_space c) && not in_token then position ∷ rest else rest

-- `matches[index].start() for index in range(limit, len(matches), limit)`; a step shortens the list
-- by the limit, which is positive, so its length is fuel enough.
abbrev pub first_and : List ℕ → List ℕ → List ℕ
first_and [] later = []
first_and (position ∷ rest) later = position ∷ later

unfoldable pub every : (fuel limit : ℕ) → List ℕ → List ℕ
every zero limit starts = []
every (suc fuel) limit starts =
    let next = drop limit starts in first_and next (every fuel limit next)

unfoldable pub char_cuts : (limit : ℕ) → Text → List ℕ
char_cuts limit text =
    let starts = token_starts 0 false text in
    0 ∷ (every (length starts) limit starts ++ length text ∷ [])

-- `itertools.pairwise`, from the first element.
unfoldable pub pairwise : ℕ → List ℕ → List Interval
pairwise a [] = []
pairwise a (b ∷ rest) = (a, b) ∷ pairwise b rest

abbrev pub pairwise_all : List ℕ → List Interval
pairwise_all [] = []
pairwise_all (a ∷ rest) = pairwise a rest

-- The codec of `str.encode` and `bytes.decode`.
pub record Codec : Type 0 where
  pub encode : Text → List ℕ
  pub decode : List ℕ → Text

abbrev pub span : Region → Interval
span r = (r.start, r.end)

abbrev pub byte_cuts : Codec → (start : ℕ) → Text → List ℕ → List ℕ
byte_cuts codec start text [] = []
byte_cuts codec start text (cut ∷ cuts) =
    (start + length (codec.encode (take cut text))) ∷ byte_cuts codec start text cuts

unfoldable pub split_by_token_limit :
    Codec → (limit : ℕ) → (source : List ℕ) → Region → List Interval
split_by_token_limit codec limit source r =
    let text = codec.decode (slice source (span r)) in
    if leb (length (token_starts 0 false text)) limit
    then span r ∷ []
    else pairwise_all (byte_cuts codec r.start text (char_cuts limit text))

unfoldable pub count_newlines : List ℕ → ℕ
count_newlines [] = 0
count_newlines (c ∷ rest) = if c == 10 then suc (count_newlines rest) else count_newlines rest

unfoldable pub line_at : (source : List ℕ) (offset : ℕ) → ℕ
line_at source offset = count_newlines (take offset source) + 1

abbrev pub max : ℕ → ℕ → ℕ
max a b = if ltb a b then b else a

-- What the chunks of a file have in common.
pub record Origin : Type 0 where
  pub codec : Codec
  pub limit : ℕ
  pub language : Text
  pub path : Text
  pub source : List ℕ

abbrev pub chunk_metadata : Origin → Region → Interval → Metadata
chunk_metadata o r i =
    (codes "parser", codes "tree_sitter")
    ∷ (codes "syntax_status", codes "parsed")
    ∷ (codes "path", o.path)
    ∷ (codes "language", o.language)
    ∷ (codes "symbol", r.symbol)
    ∷ (codes "symbol_type", r.symbol_type)
    ∷ (codes "parent_symbol", r.parent_symbol)
    ∷ (codes "start_line", decimal_text (line_at o.source i.0))
    ∷ (codes "end_line", decimal_text (line_at o.source (max i.0 (i.1 - 1))))
    ∷ []

-- The chunks of one region; `index` is the number of chunks before them.
unfoldable pub region_chunks :
    Origin → Region → (index : ℕ) → List Interval → Result Exn (List ParsedChunk)
region_chunks o r index [] = ok []
region_chunks o r index (i ∷ rest) = do
  chunk ← parsed_chunk (o.codec.decode (slice o.source i)) index (chunk_metadata o r i)
  later ← region_chunks o r (suc index) rest
  ok (chunk ∷ later)

unfoldable pub chunks_from : Origin → (index : ℕ) → List Region → Result Exn (List ParsedChunk)
chunks_from o index [] = ok []
chunks_from o index (r ∷ regions) = do
  chunks ← region_chunks o r index (split_by_token_limit o.codec o.limit o.source r)
  later ← chunks_from o (index + length chunks) regions
  ok (chunks ++ later)

abbrev pub module_context : Context
module_context = record { symbol = []; symbol_type = codes "module"; parent_symbol = [] }

unfoldable pub semantic_chunks : Origin → Symbols → Result Exn (List ParsedChunk)
semantic_chunks o symbols = chunks_from o 0 (partition module_context 0 (length o.source) symbols)

-- The constructor's test of the limit.
unfoldable pub validate_limit : ℕ → Result Exn (Unit {0})
validate_limit limit = if limit == 0 then err value_error else ok tt

abbrev pub document_metadata :
    (content_type language : Text) (has_error : Bool) (source_name : Option Text) → Metadata
document_metadata content_type language has_error source_name =
    (codes "parser", codes "tree_sitter")
    ∷ (codes "content_type", content_type)
    ∷ (codes "language", language)
    ∷ (codes "syntax_status", codes (if has_error then "syntax_error_fallback" else "parsed"))
    ∷ ((if has_error then (codes "fallback_parser", codes "plain_text") ∷ [] else [])
        ++ elim source_name [ none ↦ [] | some name ↦ (codes "source_name", name) ∷ [] ])

abbrev pub fallback_metadata : (language : Text) → Metadata
fallback_metadata language =
    (codes "parser", codes "tree_sitter")
    ∷ (codes "language", language)
    ∷ (codes "syntax_status", codes "syntax_error_fallback")
    ∷ []

abbrev pub chunks_of :
    Origin → (content : Text) (has_error : Bool) → Symbols → Result Exn (List ParsedChunk)
chunks_of o content true symbols = do
  chunk ← parsed_chunk content 0 (fallback_metadata o.language)
  ok (chunk ∷ [])
chunks_of o content false symbols = semantic_chunks o symbols

abbrev pub origin_of :
    Codec → (limit : ℕ) (language : Text) (source_name : Option Text) (source : List ℕ) → Origin
origin_of codec limit language source_name source = record {
  codec = codec;
  limit = limit;
  language = language;
  path = elim source_name [ none ↦ [] | some name ↦ name ];
  source = source;
}

unfoldable pub parse :
    (codec : Codec) (limit : ℕ) (content_type language : Text)
    → (syntax_tree : List ℕ → Bool × Symbols) → (content : Text) (source_name : Option Text)
    → Result Exn ParsedDocument
parse codec limit content_type language syntax_tree content source_name =
    let source = codec.encode content in
    let tree = syntax_tree source in
    let o = origin_of codec limit language source_name source in
    do
      chunks ← chunks_of o content tree.0 tree.1
      parsed_document content chunks (document_metadata content_type language tree.0 source_name)
