-- ===== src/Api/Uploads.antt =====
-- backend/api/documents.py: what the upload handlers check of a file before they store it.
-- The drive of a PureWindowsPath is an argument.
pub mod Filenames
use graph_blizz.Prelude.{
  ℕ, suc, Bool, true, false, not, ◌&&◌, ◌||◌, Option, none, some, List, String, Text, codes,
  text_eq, is_empty, any, length, take, ltb, ◌==◌, if◌then◌else◌, Result, ok, err, ◌>>=◌,
}
use graph_blizz.Errors.{Exn, unsupported_document_type, binary_document_type, http_error}
use graph_blizz.Parsers.Registry.{Library, get_parser, create_default_parser_registry}

abbrev pub max_upload_bytes : ℕ
max_upload_bytes = 10485760

-- `character in filename`
abbrev pub contains : ℕ → Text → Bool
contains c name = any (λ d. d == c) name

-- The first test of `_safe_filename`: a name that is no plain basename.
unfoldable pub is_path : (drive : Text → Text) → Text → Bool
is_path drive name =
    is_empty name
    || text_eq name (codes ".")
    || text_eq name (codes "..")
    || contains 47 name
    || contains 92 name
    || not (is_empty (drive name))

-- `_safe_filename`
unfoldable pub safe_filename : (drive : Text → Text) → Option String → Result Exn String
unfolding is_path
safe_filename drive none = err (http_error 422)
safe_filename drive (some filename) =
    if is_path drive (codes filename)
    then err (http_error 422)
    else if contains 0 (codes filename) || ltb 255 (length (codes filename))
    then err (http_error 422)
    else ok filename

-- An uploaded file: its name, its content type and its bytes.
pub record UploadFile : Type 0 where
  pub filename : Option String
  pub content_type : Option String
  pub bytes : List ℕ

-- `file.content_type or "application/octet-stream"`
abbrev pub source_type_of : Option String → String
source_type_of none = "application/octet-stream"
source_type_of (some content_type) =
    if is_empty (codes content_type) then "application/octet-stream" else content_type

-- `except UnsupportedDocumentTypeError`, of which the binary one is a kind.
abbrev pub unsupported : {A : Type 0} → Result Exn A → Result Exn A
unsupported (err unsupported_document_type) = err (http_error 415)
unsupported (err binary_document_type) = err (http_error 415)
unsupported (err e) = err e
unsupported (ok a) = ok a

abbrev pub sized : (max : ℕ) → List ℕ → Result Exn (List ℕ)
sized max content =
    if is_empty content
    then err (http_error 400)
    else if ltb max (length content)
    then err (http_error 413)
    else ok content

-- A file that passed the checks.
pub record Upload : Type 0 where
  pub filename : String
  pub source_type : String
  pub content : List ℕ

-- The checks that `upload_document` and `upsert_document` make in the same words; `max` is the limit.
unfoldable pub checked_upload :
    (max : ℕ) → Library → (drive : Text → Text) → UploadFile → Result Exn Upload
unfolding safe_filename
checked_upload max library drive file = do
  filename ← safe_filename drive file.filename
  _ ← unsupported (
      get_parser library (create_default_parser_registry library)
        (some (codes (source_type_of file.content_type))) (some (codes filename)))
  content ← sized max (take (suc max) file.bytes)
  ok (record {
    filename = filename;
    source_type = source_type_of file.content_type;
    content = content;
  })
