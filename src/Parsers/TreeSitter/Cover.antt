-- ===== src/Parsers/TreeSitter/Cover.antt =====
-- The regions, and the pieces that they are split into, cover the source once and in order.
use graph_blizz.Prelude.{
  ℕ, ◌≤◌, ◌≡◌, refl, arith, subst, Bool, false, Bool-cases, inl, inr, List, [], ◌∷◌, ◌++◌, map,
  is_empty, ltb, ◌&&◌, ◌||◌, ◌==◌, if◌then◌else◌,
}
use graph_blizz.Parsers.Intervals.{Tiles, Tiles-append}
use graph_blizz.Parsers.TreeSitter.{
  symbol, Symbols, none_left, with_next, Region, Context, region, context_of, span, close_partition,
  walk_children, partition,
}

-- What tree-sitter promises of the nodes: children lie in their parent, one after the other.
abbrev pub IsNested : ℕ → ℕ → Symbols → Type 0
IsNested a b none_left = a ≤ b
IsNested a b (with_next (symbol start end name symbol_type parent children) rest) =
    (a ≤ start) × (start ≤ end) × IsNested start end children × IsNested end b rest

pub map-append :
    {A B : Type 0} (f : A → B) (xs ys : List A) → map f (xs ++ ys) ≡ map f xs ++ map f ys
map-append f [] ys = refl
map-append f (x ∷ xs) ys = rw (map-append f xs ys) refl

closed_end : (a b : ℕ) (other : Bool) → a ≤ b → (ltb a b || other) ≡ false → a ≡ b
closed_end a b other h done = ground arith

close_partition-Tiles :
    (c : Context) (start end : ℕ) (walked : List Region × ℕ)
    → Tiles start walked.1 (map span walked.0)
    → walked.1 ≤ end
    → Tiles start end (map span (close_partition c start end walked))
unfolding close_partition
close_partition-Tiles c start end walked tiles inside =
    elim (Bool-cases (ltb walked.1 end || is_empty walked.0 && start == end)) [
      | inl more ↦
          rw (more, map-append span walked.0 (region c walked.1 end ∷ []))
            (Tiles-append start walked.1 end (map span walked.0) _ tiles (refl, inside, refl))
      | inr done ↦ rw done (
          subst (λ n. Tiles start n (map span walked.0)) (closed_end walked.1 end _ inside done)
            tiles)
    ]

-- The gap before a child.
gap-Tiles :
    (c : Context) (cursor start : ℕ)
    → cursor ≤ start
    → Tiles cursor start (map span (if ltb cursor start then region c cursor start ∷ [] else []))
gap-Tiles c cursor start h = elim (Bool-cases (ltb cursor start)) [
  | inl wide ↦ rw wide (refl, h, refl)
  | inr shut ↦ rw shut (ground (arith, shut))
]

walk_children-Tiles :
    (c : Context) (cursor end : ℕ) (children : Symbols)
    → IsNested cursor end children
    → Tiles cursor
        (walk_children c cursor children).1
        (map span (walk_children c cursor children).0)
      × ((walk_children c cursor children).1 ≤ end)
unfolding walk_children
walk_children-Tiles c cursor end none_left h = (refl, h)
walk_children-Tiles c cursor end (with_next (symbol s e name symbol_type parent children) rest) h =
    let inner = context_of name symbol_type parent in
    let (tiles, within) = walk_children-Tiles inner s e children h.2 in
    let inside = close_partition-Tiles inner s e (walk_children inner s children) tiles within in
    let (later, ends) = walk_children-Tiles c e end rest h.3 in
    (
      rw
          (
            map-append span _ (
                close_partition inner s e (walk_children inner s children)
                ++ (walk_children c e rest).0),
            map-append span (close_partition inner s e (walk_children inner s children))
                (walk_children c e rest).0,
          )
          (Tiles-append cursor s _ _ _ (gap-Tiles c cursor s h.0)
            (Tiles-append s e _ _ _ inside later)),
      ends,
    )

pub partition-Tiles :
    (c : Context) (start end : ℕ) (children : Symbols)
    → IsNested start end children
    → Tiles start end (map span (partition c start end children))
unfolding partition
partition-Tiles c start end children h =
    let (tiles, within) = walk_children-Tiles c start end children h in
    close_partition-Tiles c start end (walk_children c start children) tiles within
