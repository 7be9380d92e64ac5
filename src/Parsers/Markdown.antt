-- ===== src/Parsers/Markdown.antt =====
-- backend/parsers/markdown.py: the sections of a Markdown source, one for each heading of the ATX
-- form that stands outside a fence, and a preamble before the first.
pub mod Sections
pub mod Chunks
use graph_blizz.Prelude.{
  ℕ, zero, suc, ◌+◌, ◌-◌, Bool, true, false, not, ◌&&◌, ◌||◌, Option, none, some, List, [], ◌∷◌,
  ◌++◌, Text, codes, decimal_text, length, drop, is_empty, ltb, leb, ◌==◌, if◌then◌else◌, Result,
  ok, ◌>>=◌, reverse,
}
use graph_blizz.Errors.{Exn}
use graph_blizz.Parsers.Models.{
  Metadata, ParsedChunk, ParsedDocument, parsed_chunk, parsed_document,
}
use graph_blizz.Parsers.Intervals.{slice}
use graph_blizz.Parsers.PlainText.{named_source}

-- The characters at which `str.splitlines` ends a line; the pair CR LF is one end.
unfoldable pub is_line_end : ℕ → Bool
is_line_end c = leb 10 c && leb c 13 || leb 28 c && leb c 30 || c == 133 || c == 8232 || c == 8233

abbrev starts_with_lf : Text → Bool
starts_with_lf [] = false
starts_with_lf (c ∷ text) = c == 10

-- The first line takes one more character in front.
abbrev pub onto_first : ℕ → List Text → List Text
onto_first c [] = (c ∷ []) ∷ []
onto_first c (line ∷ lines) = (c ∷ line) ∷ lines

-- `content.splitlines(keepends=True)`
unfoldable pub split_lines : Text → List Text
split_lines [] = []
split_lines (c ∷ text) =
    let rest = split_lines text in
    if is_line_end c && not (c == 13 && starts_with_lf text)
    then (c ∷ []) ∷ rest
    else onto_first c rest

abbrev without_first : ℕ → Text → Text
without_first c [] = []
without_first c (d ∷ text) = if c == d then text else d ∷ text

-- `line.removesuffix("\n").removesuffix("\r")`
unfoldable pub bare_line : Text → Text
bare_line line = reverse (without_first 13 (without_first 10 (reverse line)))

-- The length of the run of one character at the front, and what follows the run.
unfoldable pub run_length : ℕ → Text → ℕ
run_length c [] = 0
run_length c (d ∷ text) = if c == d then suc (run_length c text) else 0

abbrev pub is_gap : ℕ → Bool
is_gap c = c == 32 || c == 9

unfoldable pub skip_gap : Text → Text
skip_gap [] = []
skip_gap (c ∷ text) = if is_gap c then skip_gap text else c ∷ text

-- A fence: its character and how often it stands.
pub record Fence : Type 0 where
  pub mark : ℕ
  pub count : ℕ

-- The text after up to three spaces; none if there are more.
abbrev pub indented : Text → Option Text
indented line =
    let spaces = run_length 32 line in if leb spaces 3 then some (drop spaces line) else none

abbrev fence_of : ℕ → Text → Option Fence
fence_of mark text =
    let count = run_length mark text in
    if leb 3 count then some (record { mark = mark; count = count }) else none

abbrev first_fence : Option Fence → Option Fence → Option Fence
first_fence (some fence) other = some fence
first_fence none other = other

abbrev fence_at : Option Text → Option Fence
fence_at none = none
fence_at (some text) = first_fence (fence_of 96 text) (fence_of 126 text)

-- `_FENCE_OPEN.match`
unfoldable pub opening_fence : Text → Option Fence
unfolding run_length
opening_fence line = fence_at (indented line)

abbrev closes : Fence → Option Text → Bool
closes fence none = false
closes fence (some text) =
    let count = run_length fence.mark text in
    leb fence.count count && is_empty (skip_gap (drop count text))

-- `closing_fence.match`
unfoldable pub is_closing : Fence → Text → Bool
unfolding run_length skip_gap
is_closing fence line = closes fence (indented line)

-- `re.sub(r"[ \t]+#+[ \t]*$", "", …)` of the text in reverse: the closing marks, if a gap is before them.
abbrev without_marks : Text → Text → Text
without_marks whole [] = whole
without_marks whole (c ∷ text) = if is_gap c then skip_gap text else whole

unfoldable pub heading_text : Text → Text
unfolding run_length skip_gap
heading_text text =
    let backwards = reverse text in
    let marks = skip_gap backwards in
    let count = run_length 35 marks in
    reverse
      (skip_gap (if count == 0 then backwards else without_marks backwards (drop count marks)))

pub record Heading : Type 0 where
  pub position : ℕ
  pub title : Text
  pub level : ℕ

abbrev heading_after : (position level : ℕ) → Text → Option Heading
heading_after position level [] = none
heading_after position level (c ∷ text) =
    if is_gap c
    then some (record { position = position; title = heading_text (skip_gap text); level = level })
    else none

-- `_ATX_HEADING.match`, with the text and the level that are kept of it.
unfoldable pub heading_at : (position : ℕ) → Text → Option Heading
unfolding run_length skip_gap heading_text
heading_at position line =
    let level = run_length 35 line in
    if ltb 0 level && leb level 6 then heading_after position level (drop level line) else none

abbrev pub with_heading : Option Heading → List Heading → List Heading
with_heading none rest = rest
with_heading (some heading) rest = heading ∷ rest

-- The fence after a line that is outside one, and inside one.
abbrev pub fence_after : Option Fence → Text → Option Fence
fence_after none line = opening_fence line
fence_after (some fence) line = if is_closing fence line then none else some fence

-- The heading of a line: only outside a fence, and not where one opens.
abbrev pub heading_of : Option Fence → (position : ℕ) → Text → Option Heading
heading_of (some fence) position line = none
heading_of none position line = elim (opening_fence line) [
  | some fence ↦ none
  | none ↦ heading_at position line
]

-- The loop over the lines.
unfoldable pub scan_lines : (position : ℕ) → Option Fence → List Text → List Heading
unfolding bare_line opening_fence is_closing heading_at
scan_lines position fence [] = []
scan_lines position fence (line ∷ lines) =
    let matched = bare_line line in
    with_heading (heading_of fence position matched)
      (scan_lines (position + length line) (fence_after fence matched) lines)

abbrev pub next_position : ℕ → List Heading → ℕ
next_position end [] = end
next_position end (heading ∷ rest) = heading.position

-- The sections of the headings.
unfoldable pub heading_sections : Text → List Heading → List (Text × Metadata)
unfolding slice
heading_sections content [] = []
heading_sections content (heading ∷ rest) =
    (
      slice content (heading.position, next_position (length content) rest),
      (codes "section", heading.title) ∷ (codes "heading_level", decimal_text heading.level) ∷ [],
    )
    ∷ heading_sections content rest

-- A preamble comes first unless a heading stands at the start.
abbrev pub with_preamble : Text → List Heading → List (Text × Metadata)
with_preamble content starts =
    let first = next_position (length content) starts in
    if is_empty starts || ltb 0 first
    then (slice content (0, first), (codes "section", codes "preamble") ∷ [])
      ∷ heading_sections content starts
    else heading_sections content starts

-- `_sections`
unfoldable pub sections : Text → List (Text × Metadata)
unfolding split_lines is_line_end scan_lines heading_sections slice
sections content = with_preamble content (scan_lines 0 none (split_lines content))

unfoldable pub section_chunks : (index : ℕ) → List (Text × Metadata) → Result Exn (List ParsedChunk)
section_chunks index [] = ok []
section_chunks index (section ∷ rest) = do
  chunk ← parsed_chunk section.0 index section.1
  later ← section_chunks (suc index) rest
  ok (chunk ∷ later)

abbrev pub markdown_metadata : Option Text → Metadata
markdown_metadata source_name =
    (codes "parser", codes "markdown")
    ∷ (codes "content_type", codes "text/markdown")
    ∷ named_source source_name

unfoldable pub parse_markdown :
    (content : Text) (source_name : Option Text) → Result Exn ParsedDocument
parse_markdown content source_name = do
  chunks ← section_chunks 0 (sections content)
  parsed_document content chunks (markdown_metadata source_name)
