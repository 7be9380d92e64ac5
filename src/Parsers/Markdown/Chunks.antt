-- ===== src/Parsers/Markdown/Chunks.antt =====
-- The chunks of a Markdown source are the texts of its sections, numbered from 0.
use graph_blizz.Prelude.{
  ℕ, suc, ◌≡◌, refl, ap, ◌∙◌, arith, Bool-cases, true, false, inl, inr, Option, none, some, List,
  [], ◌∷◌, Text, map, any, is_empty, All, ok, ltb,
}
use graph_blizz.Parsers.Models.{
  Metadata, ParsedChunk, ParsedDocument, immutable_metadata, parsed_chunk, parsed_document,
  is_numbered,
}
use graph_blizz.Parsers.Markdown.{
  Heading, heading_sections, with_preamble, sections, section_chunks, parse_markdown,
  markdown_metadata, split_lines, scan_lines,
}
use graph_blizz.Parsers.Markdown.Sections.{joined, text_of, sections-joined}

abbrev HasKeys : Text × Metadata → Type 0
HasKeys section = any (λ entry. is_empty entry.0) section.1 ≡ false

heading_sections-HasKeys :
    (content : Text) (hs : List Heading) → All HasKeys (heading_sections content hs)
unfolding heading_sections any
heading_sections-HasKeys content [] = tt
heading_sections-HasKeys content (x ∷ rest) = (refl, heading_sections-HasKeys content rest)

with_preamble-HasKeys :
    (content : Text) (hs : List Heading) → All HasKeys (with_preamble content hs)
unfolding any
with_preamble-HasKeys content [] = (refl, heading_sections-HasKeys content [])
with_preamble-HasKeys content (x ∷ rest) = elim (Bool-cases (ltb 0 x.position)) [
  | inl e ↦ rw e (refl, heading_sections-HasKeys content (x ∷ rest))
  | inr e ↦ rw e (heading_sections-HasKeys content (x ∷ rest))
]

sections-HasKeys : (content : Text) → All HasKeys (sections content)
unfolding sections
sections-HasKeys content = with_preamble-HasKeys content (scan_lines 0 none (split_lines content))

abbrev pub content_of : ParsedChunk → Text
content_of chunk = chunk.content

section_chunks_lem :
    (index : ℕ) (given : List (Text × Metadata))
    → All HasKeys given
    → (chunks : List ParsedChunk) × (section_chunks index given ≡ ok chunks)
      × (is_numbered index chunks ≡ true)
      × (map content_of chunks ≡ map text_of given)
unfolding section_chunks parsed_chunk immutable_metadata is_numbered
section_chunks_lem index [] h = ([], refl, refl, refl)
section_chunks_lem index (s ∷ given) h =
    let (chunks, same, numbered, texts) = section_chunks_lem (suc index) given h.1 in
    (
      record { content = s.0; index = index; metadata = s.1 } ∷ chunks,
      rw (h.0, same) refl,
      ground (arith, numbered),
      ap (λ later. s.0 ∷ later) texts,
    )

markdown_metadata-HasKeys :
    (source_name : Option Text)
    → any (λ entry. is_empty entry.0) (markdown_metadata source_name) ≡ false
unfolding any
markdown_metadata-HasKeys none = refl
markdown_metadata-HasKeys (some name) = refl

-- Markdown parsing never fails: for every content and name it returns a document that keeps the
-- content unchanged. Its chunks are numbered from 0 without a gap, and their texts, one after the
-- other, are the content.
pub parse_markdown_lem :
    (content : Text) (source_name : Option Text)
    → (document : ParsedDocument) × (parse_markdown content source_name ≡ ok document)
      × (document.content ≡ content)
      × (is_numbered 0 document.chunks ≡ true)
      × (joined (map content_of document.chunks) ≡ content)
unfolding parse_markdown parsed_document immutable_metadata
parse_markdown_lem content source_name =
    let (chunks, same, numbered, texts) =
      section_chunks_lem 0 (sections content) (sections-HasKeys content) in
    (
      record { content = content; chunks = chunks; metadata = markdown_metadata source_name },
      rw (same, numbered, markdown_metadata-HasKeys source_name) refl,
      refl,
      numbered,
      (ap joined texts) ∙ (sections-joined content),
    )
