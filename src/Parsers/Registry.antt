-- ===== src/Parsers/Registry.antt =====
-- backend/parsers/registry.py: the choice of a parser by media type, then by the file's suffix.
-- `str.lower` and `PurePath(...).suffix` are arguments. A dict built from pairs keeps the last one of
-- a key.
pub mod Choice
pub mod Defaults
use graph_blizz.Prelude.{
  ℕ, Bool, true, false, ◌&&◌, ◌||◌, Option, none, some, List, [], ◌∷◌, Text, codes, String, text_eq,
  strip, any, map, ◌==◌, if◌then◌else◌, Result, ok, err,
}
use graph_blizz.Errors.{Exn, unsupported_document_type, binary_document_type}

-- The library functions that the registry calls.
pub record Library : Type 0 where
  pub lower : Text → Text
  pub suffix : Text → Text

abbrev pub Table : Type 0 → Type 0
Table P = List (Text × P)

-- `dict.get`: the last entry of the key.
unfoldable pub lookup_last : {P : Type 0} → Text → Table P → Option P
lookup_last key [] = none
lookup_last key (entry ∷ table) = elim (lookup_last key table) [
  | some p ↦ some p
  | none ↦ if text_eq entry.0 key then some entry.1 else none
]

abbrev pub renamed : {P : Type 0} → (Text → Text) → Table P → Table P
renamed f [] = []
renamed f (entry ∷ table) = (f entry.0, entry.1) ∷ renamed f table

-- `media_type.partition(";")[0]`
unfoldable pub before_semicolon : Text → Text
before_semicolon [] = []
before_semicolon (c ∷ text) = let rest = before_semicolon text in if c == 59 then [] else c ∷ rest

unfoldable pub normalize_media_type : Library → Text → Text
normalize_media_type library media_type = library.lower (strip (before_semicolon media_type))

abbrev pub starts_with_dot : Text → Bool
starts_with_dot [] = false
starts_with_dot (c ∷ text) = c == 46

unfoldable pub normalize_extension : Library → Text → Text
normalize_extension library extension =
    let normalized = library.lower (strip extension) in
    if starts_with_dot normalized then normalized else 46 ∷ normalized

unfoldable pub has_prefix : (prefix : Text) → Text → Bool
has_prefix [] text = true
has_prefix (c ∷ prefix) [] = false
has_prefix (c ∷ prefix) (d ∷ text) = c == d && has_prefix prefix text

abbrev pub binary_media_types : List String
binary_media_types =
    "application/gzip" ∷ "application/msword" ∷ "application/octet-stream" ∷ "application/pdf"
    ∷ "application/vnd.ms-excel" ∷ "application/vnd.ms-powerpoint" ∷ "application/x-bzip2"
    ∷ "application/x-executable" ∷ "application/x-tar" ∷ "application/zip"
    ∷ "application/x-7z-compressed" ∷ "application/x-rar-compressed" ∷ []

abbrev pub binary_media_prefixes : List String
binary_media_prefixes =
    "application/vnd.oasis.opendocument." ∷ "application/vnd.openxmlformats-officedocument."
    ∷ "audio/" ∷ "font/" ∷ "image/" ∷ "video/" ∷ []

unfoldable pub is_binary : Text → Bool
is_binary media_type =
    any (λ name. text_eq (codes name) media_type) binary_media_types
    || any (λ prefix. has_prefix (codes prefix) media_type) binary_media_prefixes

pub record Registry (P : Type 0) : Type 0 where
  pub media_types : Table P
  pub extensions : Table P

-- `__init__`
unfoldable pub registry : {P : Type 0} → Library → (media_types extensions : Table P) → Registry P
registry library media_types extensions = record {
  media_types = renamed (normalize_media_type library) media_types;
  extensions = renamed (normalize_extension library) extensions;
}

-- The choice by the file's suffix.
unfoldable pub parser_of_file : {P : Type 0} → Library → Registry P → Option Text → Result Exn P
parser_of_file library r none = err unsupported_document_type
parser_of_file library r (some filename) =
    elim (lookup_last (library.lower (library.suffix filename)) r.extensions) [
      | some p ↦ ok p
      | none ↦ err unsupported_document_type
    ]

-- What follows the lookup of a normalized media type.
unfoldable pub parser_of_type :
    {P : Type 0} → (normalized : Text) → (by_file : Result Exn P) → Option P → Result Exn P
parser_of_type normalized by_file (some p) = ok p
parser_of_type normalized by_file none =
    if is_binary normalized then err binary_document_type else by_file

unfoldable pub get_parser :
    {P : Type 0} → Library → Registry P → (media_type filename : Option Text) → Result Exn P
get_parser library r none filename = parser_of_file library r filename
get_parser library r (some media_type) filename =
    let normalized = normalize_media_type library media_type in
    parser_of_type normalized (parser_of_file library r filename)
      (lookup_last normalized r.media_types)

-- The parsers of `create_default_parser_registry`, a tree-sitter one by its language.
pub data Parser : Type 0 where
  plain_text markdown python javascript typescript tsx java go : Parser

abbrev pub default_media_types : List (String × Parser)
default_media_types =
    ("text/plain", plain_text)
    ∷ ("text/markdown", markdown)
    ∷ ("text/x-python", python)
    ∷ ("text/python", python)
    ∷ ("application/x-python-code", python)
    ∷ ("text/javascript", javascript)
    ∷ ("application/javascript", javascript)
    ∷ ("application/x-javascript", javascript)
    ∷ ("text/jsx", javascript)
    ∷ ("text/typescript", typescript)
    ∷ ("application/typescript", typescript)
    ∷ ("application/x-typescript", typescript)
    ∷ ("text/tsx", tsx)
    ∷ ("application/tsx", tsx)
    ∷ ("text/x-java-source", java)
    ∷ ("text/x-java", java)
    ∷ ("text/x-go", go)
    ∷ ("text/go", go)
    ∷ []

abbrev pub default_extensions : List (String × Parser)
default_extensions =
    (".txt", plain_text)
    ∷ (".md", markdown)
    ∷ (".markdown", markdown)
    ∷ (".py", python)
    ∷ (".js", javascript)
    ∷ (".jsx", javascript)
    ∷ (".ts", typescript)
    ∷ (".tsx", tsx)
    ∷ (".java", java)
    ∷ (".go", go)
    ∷ []

unfoldable pub create_default_parser_registry : Library → Registry Parser
create_default_parser_registry library =
    registry library (map (λ e. (codes e.0, e.1)) default_media_types)
      (map (λ e. (codes e.0, e.1)) default_extensions)
