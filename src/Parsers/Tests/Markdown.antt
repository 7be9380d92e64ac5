-- ===== src/Parsers/Tests/Markdown.antt =====
-- A run of the Markdown parser: a heading in a fence and closing marks.
use graph_blizz.Prelude.{◌≡◌, refl, true, some, [], ◌∷◌, ◌++◌, Text, codes, decimal_text, ok, map}
use graph_blizz.Parsers.Models.{ParsedDocument, is_numbered}
use graph_blizz.Parsers.Intervals.{slice}
use graph_blizz.Parsers.Markdown.{
  parse_markdown, sections, is_line_end, split_lines, bare_line, run_length, skip_gap,
  opening_fence, is_closing, heading_text, heading_at, scan_lines, heading_sections,
}
use graph_blizz.Parsers.Markdown.Sections.{joined}
use graph_blizz.Parsers.Markdown.Chunks.{content_of, parse_markdown_lem}

abbrev line : Text → Text
line text = text ++ 10 ∷ []

abbrev content : Text
content =
    line (codes "hi")
    ++ line (codes "# Top ##  ")
    ++ line (codes " ~~~~")
    ++ line (codes "# no")
    ++ line (codes "~~~")
    ++ line (codes "~~~~~ ")
    ++ line (codes "## b")

sections_found :
    sections content
    ≡ (line (codes "hi"), (codes "section", codes "preamble") ∷ [])
      ∷ (
        line (codes "# Top ##  ")
            ++ line (codes " ~~~~")
            ++ line (codes "# no")
            ++ line (codes "~~~")
            ++ line (codes "~~~~~ "),
        (codes "section", codes "Top") ∷ (codes "heading_level", codes "1") ∷ [],
      )
      ∷ (
        line (codes "## b"),
        (codes "section", codes "b") ∷ (codes "heading_level", codes "2") ∷ [],
      )
      ∷ []
unfolding sections is_line_end split_lines bare_line run_length skip_gap opening_fence is_closing
    heading_text heading_at scan_lines heading_sections slice decimal_text
sections_found = refl

parse_markdown_lem_example :
    (document : ParsedDocument) × (parse_markdown content (some (codes "a.md")) ≡ ok document)
    × (document.content ≡ content)
    × (is_numbered 0 document.chunks ≡ true)
    × (joined (map content_of document.chunks) ≡ content)
parse_markdown_lem_example = parse_markdown_lem content (some (codes "a.md"))
