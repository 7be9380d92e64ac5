-- ===== src/Parsers/Registry/Defaults.antt =====
-- What the default registry promises of binary files.
use graph_blizz.Prelude.{
  ℕ, ◌≡◌, refl, ap, ◌∙◌, Bool, true, false, ◌&&◌, ◌||◌, Bool-cases, inl, inr, Option, none, some,
  [], ◌∷◌, Text, text_eq, text_eq_iff, strip, lstrip, is_space, all, any, leb, All, err,
}
use graph_blizz.Errors.{binary_document_type}
use graph_blizz.Parsers.Registry.{
  Library, Table, lookup_last, before_semicolon, normalize_media_type, has_prefix, is_binary,
  registry, get_parser, create_default_parser_registry,
}
use graph_blizz.Parsers.Registry.Choice.{parser_binary}

abbrev is_no_capital : ℕ → Bool
is_no_capital c = leb c 64 || leb 91 c && leb c 127

-- `str.lower` leaves ASCII text without capitals as it is.
pub record IsLower (library : Library) : Type 0 where
  pub keeps : (t : Text) → all is_no_capital t ≡ true → library.lower t ≡ t

-- No entry has a binary name, so a binary name has no entry.
lookup_last-none :
    {P : Type 0} (name : Text) (table : Table P)
    → is_binary name ≡ true
    → All (λ entry. is_binary entry.0 ≡ false) table
    → lookup_last name table ≡ none
unfolding lookup_last
lookup_last-none name [] binary others = refl
lookup_last-none name (entry ∷ table) binary others = elim (Bool-cases (text_eq entry.0 name)) [
  | inl e ↦
      let same : entry.0 ≡ name = (text_eq_iff entry.0 name).0 e in
      absurd (cc (ap is_binary same, binary, others.0))
  | inr e ↦ rw (lookup_last-none name table binary others.1, e) refl
]

module _ (library : Library) (lower : IsLower library) where
  -- A name that is its own normal form, and not binary.
  normal :
      (name : Text)
      → strip (before_semicolon name) ≡ name
      → all is_no_capital name ≡ true
      → is_binary name ≡ false
      → is_binary (normalize_media_type library name) ≡ false
  unfolding normalize_media_type
  normal name stripped small other =
      ap is_binary (ap library.lower stripped ∙ lower.keeps name small) ∙ other

  defaults-All :
      All (λ entry. is_binary entry.0 ≡ false) (create_default_parser_registry library).media_types
  unfolding create_default_parser_registry registry strip lstrip is_space before_semicolon all
      is_binary any has_prefix text_eq
  defaults-All = (
    normal _ refl refl refl,
    (
      normal _ refl refl refl,
      (
        normal _ refl refl refl,
        (
          normal _ refl refl refl,
          (
            normal _ refl refl refl,
            (
              normal _ refl refl refl,
              (
                normal _ refl refl refl,
                (
                  normal _ refl refl refl,
                  (
                    normal _ refl refl refl,
                    (
                      normal _ refl refl refl,
                      (
                        normal _ refl refl refl,
                        (
                          normal _ refl refl refl,
                          (
                            normal _ refl refl refl,
                            (
                              normal _ refl refl refl,
                              (
                                normal _ refl refl refl,
                                (
                                  normal _ refl refl refl,
                                  (normal _ refl refl refl, (normal _ refl refl refl, tt)),
                                ),
                              ),
                            ),
                          ),
                        ),
                      ),
                    ),
                  ),
                ),
              ),
            ),
          ),
        ),
      ),
    ),
  )

  -- The default registry, whose `str.lower` leaves ASCII text without capitals as it is, refuses a
  -- document of a binary media type as binary, with any case, spaces and parameters of the type that
  -- the normalization removes, and whatever the file is called: none of its names is binary.
  pub get_parser-is_binary :
      (media_type : Text) (filename : Option Text)
      → is_binary (normalize_media_type library media_type) ≡ true
      → get_parser library (create_default_parser_registry library) (some media_type) filename
        ≡ err binary_document_type
  unfolding get_parser
  get_parser-is_binary media_type filename binary =
      parser_binary (normalize_media_type library media_type) _ _
        (lookup_last-none (normalize_media_type library media_type)
          (create_default_parser_registry library).media_types binary defaults-All)
        binary
