-- ===== src/Parsers/Registry/Choice.antt =====
-- What the registry promises of its choice, whatever parsers are registered.
use graph_blizz.Prelude.{
  ◌≡◌, refl, arith, true, Option, none, some, [], ◌∷◌, ◌++◌, Text, strip, all, not, ◌==◌, Result,
  err, ap,
}
use graph_blizz.Errors.{Exn, binary_document_type}
use graph_blizz.Parsers.Registry.{
  Library, lookup_last, before_semicolon, normalize_media_type, is_binary, Registry, parser_of_file,
  parser_of_type, get_parser,
}

-- The text before the first semicolon does not depend on what follows it.
before_semicolon-append :
    (name parameters : Text)
    → all (λ c. not (c == 59)) name ≡ true
    → before_semicolon (name ++ 59 ∷ parameters) ≡ before_semicolon name
unfolding before_semicolon all
before_semicolon-append [] parameters h = refl
before_semicolon-append (c ∷ name) parameters h =
    ground (arith, before_semicolon-append name parameters)

module _ {P : Type 0} (normalized : Text) (by_file : Result Exn P) (found : Option P) where
  pub parser_binary :
      found ≡ none
      → is_binary normalized ≡ true
      → parser_of_type normalized by_file found ≡ err binary_document_type
  unfolding parser_of_type
  parser_binary unknown binary = rw (unknown, binary) refl

module _ {P : Type 0} (library : Library) (r : Registry P) where
  -- The parameters of a media type, after its first semicolon, never change the choice.
  pub get_parser-parameters :
      (name parameters : Text) (filename : Option Text)
      → all (λ c. not (c == 59)) name ≡ true
      → get_parser library r (some (name ++ 59 ∷ parameters)) filename
        ≡ get_parser library r (some name) filename
  unfolding get_parser normalize_media_type
  get_parser-parameters name parameters filename h =
      ap
        (λ front.
          parser_of_type (library.lower (strip front)) (parser_of_file library r filename)
            (lookup_last (library.lower (strip front)) r.media_types))
        (before_semicolon-append name parameters h)
