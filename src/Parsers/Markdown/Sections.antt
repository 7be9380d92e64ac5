-- ===== src/Parsers/Markdown/Sections.antt =====
-- The sections of a Markdown source, one after the other, are the source.
use graph_blizz.Prelude.{
  ℕ, suc, ◌+◌, ◌≤◌, ◌≡◌, refl, ap, subst, ◌∙◌, arith, Bool-cases, inl, inr, Option, none, some,
  List, [], ◌∷◌, ◌++◌, Text, length, map, ltb,
}
use graph_blizz.Parsers.Models.{Metadata}
use graph_blizz.Parsers.Intervals.{Interval, Tiles, slice, slices, slices-Tiles}
use graph_blizz.Parsers.Markdown.{
  onto_first, split_lines, Fence, Heading, heading_at, with_heading, heading_of, scan_lines,
  next_position, heading_sections, with_preamble, sections, bare_line, fence_after,
}

-- The texts of a list, one after the other.
abbrev pub joined : List Text → Text
joined [] = []
joined (text ∷ texts) = text ++ joined texts

total : List Text → ℕ
total [] = 0
total (line ∷ lines) = length line + total lines

onto_first-total : (c : ℕ) (lines : List Text) → total (onto_first c lines) ≡ suc (total lines)
unfolding total
onto_first-total c [] = omega arith
onto_first-total c (line ∷ lines) = omega arith

split_lines-total : (text : Text) → total (split_lines text) ≡ length text
unfolding total split_lines
split_lines-total [] = refl
split_lines-total (c ∷ text) =
    ground (arith, split_lines-total text, onto_first-total c (split_lines text))

-- Positions of headings do not fall, between two bounds.
abbrev Climbs : ℕ → ℕ → List Heading → Type 0
Climbs lo hi [] = lo ≤ hi
Climbs lo hi (h ∷ rest) = (lo ≤ h.position) × Climbs h.position hi rest

Climbs-lower : (a b hi : ℕ) (hs : List Heading) → a ≤ b → Climbs b hi hs → Climbs a hi hs
Climbs-lower a b hi [] h k = omega (arith, h, k)
Climbs-lower a b hi (x ∷ rest) h k = (omega (arith, h, k.0), k.1)

Climbs-le : (lo hi : ℕ) (hs : List Heading) → Climbs lo hi hs → lo ≤ hi
Climbs-le lo hi [] h = h
Climbs-le lo hi (x ∷ rest) h = omega (arith, h.0, Climbs-le x.position hi rest h.1)

heading_of-position :
    (fence : Option Fence) (position : ℕ) (line : Text) (h : Heading)
    → heading_of fence position line ≡ some h
    → h.position ≡ position
unfolding heading_at
heading_of-position fence position line h e = ground arith

with_heading-Climbs :
    (found : Option Heading) (position later hi : ℕ) (rest : List Heading)
    → ((h : Heading) → found ≡ some h → h.position ≡ position)
    → position ≤ later
    → Climbs later hi rest
    → Climbs position hi (with_heading found rest)
with_heading-Climbs none position later hi rest same h k = Climbs-lower position later hi rest h k
with_heading-Climbs (some x) position later hi rest same h k =
    let here = same x refl in
    (omega (arith, here), Climbs-lower x.position later hi rest (omega (arith, here)) k)

scan_lines-Climbs :
    (position : ℕ) (fence : Option Fence) (lines : List Text)
    → Climbs position (position + total lines) (scan_lines position fence lines)
unfolding total scan_lines
scan_lines-Climbs position fence [] = omega arith
scan_lines-Climbs position fence (line ∷ lines) =
    subst (λ n. Climbs position n (scan_lines position fence (line ∷ lines))) (omega arith)
      (with_heading-Climbs (heading_of fence position (bare_line line)) position
        (position + length line) _ _ (heading_of-position fence position (bare_line line))
        (omega arith)
        (scan_lines-Climbs (position + length line) (fence_after fence (bare_line line)) lines))

-- The intervals of the sections of the headings, and of all sections.
abbrev heading_intervals : ℕ → List Heading → List Interval
heading_intervals end [] = []
heading_intervals end (h ∷ rest) = (h.position, next_position end rest) ∷ heading_intervals end rest

next_position-le : (lo hi : ℕ) (hs : List Heading) → Climbs lo hi hs → lo ≤ next_position hi hs
next_position-le lo hi [] h = h
next_position-le lo hi (x ∷ rest) h = h.0

heading_intervals-Tiles :
    (lo hi : ℕ) (hs : List Heading)
    → Climbs lo hi hs
    → Tiles (next_position hi hs) hi (heading_intervals hi hs)
heading_intervals-Tiles lo hi [] h = refl
heading_intervals-Tiles lo hi (x ∷ rest) h =
    (refl, next_position-le x.position hi rest h.1, heading_intervals-Tiles x.position hi rest h.1)

abbrev pub text_of : Text × Metadata → Text
text_of section = section.0

heading_sections-joined :
    (content : Text) (hs : List Heading)
    → joined (map text_of (heading_sections content hs))
      ≡ slices content (heading_intervals (length content) hs)
unfolding heading_sections slices
heading_sections-joined content [] = refl
heading_sections-joined content (x ∷ rest) =
    ap (λ later. slice content (x.position, next_position (length content) rest) ++ later)
      (heading_sections-joined content rest)

-- With the preamble the intervals begin at 0.
preamble_tiles :
    (content : Text) (hs : List Heading)
    → Climbs 0 (length content) hs
    → slice content (0, next_position (length content) hs)
        ++ joined (map text_of (heading_sections content hs))
      ≡ content
unfolding slices
preamble_tiles content hs h =
    (ap (λ later. slice content (0, next_position (length content) hs) ++ later)
      (heading_sections-joined content hs))
    ∙ (slices-Tiles content
        ((0, next_position (length content) hs) ∷ heading_intervals (length content) hs)
        (refl, omega arith, heading_intervals-Tiles 0 (length content) hs h))

with_preamble-joined :
    (content : Text) (hs : List Heading)
    → Climbs 0 (length content) hs
    → joined (map text_of (with_preamble content hs)) ≡ content
with_preamble-joined content [] h = preamble_tiles content [] h
with_preamble-joined content (x ∷ rest) h = elim (Bool-cases (ltb 0 x.position)) [
  | inl e ↦ rw e (preamble_tiles content (x ∷ rest) h)
  | inr e ↦ rw e (
      (heading_sections-joined content (x ∷ rest))
      ∙ (slices-Tiles content (heading_intervals (length content) (x ∷ rest)) (
          subst (λ n. Tiles n (length content) (heading_intervals (length content) (x ∷ rest)))
            (ground (arith, e)) (heading_intervals-Tiles 0 (length content) (x ∷ rest) h))))
]

pub sections-joined : (content : Text) → joined (map text_of (sections content)) ≡ content
unfolding sections total
sections-joined content = with_preamble-joined content (scan_lines 0 none (split_lines content)) (
    subst (λ n. Climbs 0 n (scan_lines 0 none (split_lines content)))
      (omega (arith, split_lines-total content)) (scan_lines-Climbs 0 none (split_lines content)))
