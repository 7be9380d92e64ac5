-- ===== src/Api/Uploads/Filenames.antt =====
-- The names that an upload may have.
use graph_blizz.Prelude.{
  ℕ, ◌≤◌, ◌≡◌, ◌≢◌, ◌⊎◌, refl, ap, arith, Bool, true, false, ◌||◌, Bool-cases, inl, inr, some,
  String, [], ◌∷◌, Text, codes, text_eq, text_eq_iff, is_empty, any, All, length, ltb, ◌==◌, ok,
  err,
}
use graph_blizz.Errors.{http_error}
use graph_blizz.Api.Uploads.{contains, is_path, safe_filename}

contains-free : (c : ℕ) (t : Text) → contains c t ≡ false → All (λ d. d ≢ c) t
unfolding any
contains-free c [] h = tt
contains-free c (d ∷ t) h =
    (λ e. absurd (ground (arith, h, e)), contains-free c t (ground (arith, h)))

free-contains : (c : ℕ) (t : Text) → All (λ d. d ≢ c) t → contains c t ≡ false
unfolding any
free-contains c [] h = refl
free-contains c (d ∷ t) h =
    let rest = free-contains c t h.1 in
    elim (Bool-cases (d == c)) [
      | inl e ↦ absurd (h.0 (ground (arith, e)))
      | inr e ↦ rw (e, rest) refl
    ]

-- A basename: no text that names a directory, no separator, no drive, no NUL, at most 255 characters.
pub record IsBasename (drive : Text → Text) (name : Text) : Type 0 where
  pub named : name ≢ []
  pub here : name ≢ codes "."
  pub above : name ≢ codes ".."
  pub slash : All (λ c. c ≢ 47) name
  pub backslash : All (λ c. c ≢ 92) name
  pub driveless : drive name ≡ []
  pub nul : All (λ c. c ≢ 0) name
  pub short : length name ≤ 255

is_empty-nil : (t : Text) → is_empty t ≡ true → t ≡ []
is_empty-nil [] h = refl
is_empty-nil (c ∷ t) h = cc

not_same : (s t : Text) → text_eq s t ≡ false → s ≢ t
not_same s t h e = cc (h, (text_eq_iff s t).1 e)

differs : (s t : Text) → s ≢ t → text_eq s t ≡ false
differs s t h = elim (Bool-cases (text_eq s t)) [
  | inl e ↦ absurd (h ((text_eq_iff s t).0 e))
  | inr e ↦ e
]

nonempty : (t : Text) → t ≢ [] → is_empty t ≡ false
nonempty [] h = absurd (h refl)
nonempty (c ∷ t) h = refl

basename-is_path : (drive : Text → Text) (t : Text) → IsBasename drive t → is_path drive t ≡ false
unfolding is_path
basename-is_path drive t b =
    rw
      (
        nonempty t b.named,
        differs t (codes ".") b.here,
        differs t (codes "..") b.above,
        free-contains 47 t b.slash,
        free-contains 92 t b.backslash,
        b.driveless,
      )
      refl

basename-short :
    (drive : Text → Text) (t : Text)
    → IsBasename drive t
    → (contains 0 t || ltb 255 (length t)) ≡ false
basename-short drive t b = ground (arith, free-contains 0 t b.nul, b.short)

both_false : (a b : Bool) → (a || b) ≡ false → (a ≡ false) × (b ≡ false)
both_false false false h = (refl, refl)
both_false true b h = cc
both_false false true h = cc

not_empty : (t : Text) → is_empty t ≡ false → t ≢ []
not_empty t h e = cc (h, ap is_empty e)

path-IsBasename :
    (drive : Text → Text) (t : Text)
    → is_path drive t ≡ false
    → (contains 0 t || ltb 255 (length t)) ≡ false
    → IsBasename drive t
unfolding is_path
path-IsBasename drive t h k =
    let (h4, drives) = both_false _ _ h in
    let (h3, backslash) = both_false _ _ h4 in
    let (h2, slash) = both_false _ _ h3 in
    let (h1, dots) = both_false _ _ h2 in
    let (empty, dot) = both_false _ _ h1 in
    let (nul, long) = both_false _ _ k in
    record {
      named = not_empty t empty;
      here = not_same t (codes ".") dot;
      above = not_same t (codes "..") dots;
      slash = contains-free 47 t slash;
      backslash = contains-free 92 t backslash;
      driveless = is_empty-nil (drive t) (ground (arith, drives));
      nul = contains-free 0 t nul;
      short = ground (arith, long);
    }

-- `_safe_filename` returns a name unchanged exactly if it is a basename: not empty, not `.` or `..`,
-- without a slash, a backslash, a drive or a NUL, and of at most 255 characters. Every other name is
-- answered with 422.
pub safe_filename_lem :
    (drive : Text → Text) (filename : String)
    → ((safe_filename drive (some filename) ≡ ok filename) × IsBasename drive (codes filename))
      ⊎ ((safe_filename drive (some filename) ≡ err (http_error 422))
          × (¬ IsBasename drive (codes filename)))
unfolding safe_filename
safe_filename_lem drive filename = elim (Bool-cases (is_path drive (codes filename))) [
  | inl path ↦ inr (rw path refl, λ b. cc (path, basename-is_path drive (codes filename) b))
  | inr plain ↦
      elim (Bool-cases (contains 0 (codes filename) || ltb 255 (length (codes filename)))) [
        | inl long ↦
            inr (rw (plain, long) refl, λ b. cc (long, basename-short drive (codes filename) b))
        | inr fine ↦ inl (rw (plain, fine) refl, path-IsBasename drive (codes filename) plain fine)
      ]
]
