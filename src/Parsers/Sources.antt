-- ===== src/Parsers/Sources.antt =====
-- The parsing of a stored source, as backend/indexing/service.py and backend/worker/service.py do it:
-- UTF-8, the choice of a parser, and the parser. The UTF-8 codec and tree-sitter are arguments.
use graph_blizz.Prelude.{
  ℕ, Bool, Option, none, some, List, String, Text, codes, Result, ok, err, ◌>>=◌,
}
use graph_blizz.Errors.{Exn, unicode_error}
use graph_blizz.Parsers.Models.{ParsedDocument}
use graph_blizz.Parsers.PlainText.{parse_text}
use graph_blizz.Parsers.Markdown.{parse_markdown}
use graph_blizz.Parsers.TreeSitter.{Codec, Symbols, parse}
use graph_blizz.Parsers.Registry.{
  Library, Parser, plain_text, markdown, python, javascript, typescript, tsx, java, go, get_parser,
  create_default_parser_registry,
}

-- `decode` is `bytes.decode("utf-8")`, `limit` the token limit of the tree-sitter parsers.
pub record Tools : Type 0 where
  pub library : Library
  pub decode : List ℕ → Option Text
  pub codec : Codec
  pub limit : ℕ
  pub syntax_tree : (language : Text) → List ℕ → Bool × Symbols

abbrev parse_code :
    Tools → (language content_type : String) → Text → Option Text → Result Exn ParsedDocument
parse_code tools language content_type =
    parse tools.codec tools.limit (codes content_type) (codes language)
      (tools.syntax_tree (codes language))

-- `parser.parse`
unfoldable pub parse_as : Tools → Parser → Text → Option Text → Result Exn ParsedDocument
parse_as tools plain_text = parse_text
parse_as tools markdown = parse_markdown
parse_as tools python = parse_code tools "python" "text/x-python"
parse_as tools javascript = parse_code tools "javascript" "text/javascript"
parse_as tools typescript = parse_code tools "typescript" "text/typescript"
parse_as tools tsx = parse_code tools "tsx" "text/tsx"
parse_as tools java = parse_code tools "java" "text/x-java-source"
parse_as tools go = parse_code tools "go" "text/x-go"

unfoldable pub decoded : Option Text → Result Exn Text
decoded none = err unicode_error
decoded (some content) = ok content

unfoldable pub parse_source :
    Tools → (source_type filename : String) → List ℕ → Result Exn ParsedDocument
unfolding decoded parse_as
parse_source tools source_type filename source = do
  content ← decoded (tools.decode source)
  parser ←
      get_parser tools.library (create_default_parser_registry tools.library)
        (some (codes source_type)) (some (codes filename))
  parse_as tools parser content (some (codes filename))
