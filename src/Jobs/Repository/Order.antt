-- ===== src/Jobs/Repository/Order.antt =====
-- The order of the queue: `first_by` returns a row that no other row precedes.
use mathlib.Core.List.{Memᴰ}
use graph_blizz.Prelude.{
  ◌≡◌, refl, true, false, none, some, [], ◌∷◌, arith, All, any, filter, ◌==◌, first_by,
  if◌then◌else◌, Bool-cases, Option-cases, inl, inr, sym, subst, ap,
}
use graph_blizz.Jobs.Rows.{JobRow}
use graph_blizz.Jobs.Repository.{Jobs, is_earlier, unique_ids}

is_earlier_asymm : (a b : JobRow) → is_earlier a b ≡ true → is_earlier b a ≡ false
unfolding is_earlier
is_earlier_asymm a b h = ground arith

-- What is not earlier than something that is not earlier than `c` is not earlier than `c`.
is_earlier_chain :
    (a b c : JobRow) → is_earlier a b ≡ false → is_earlier b c ≡ false → is_earlier a c ≡ false
unfolding is_earlier
is_earlier_chain a b c h k = ground arith

chain-All :
    (b c : JobRow) (rows : Jobs)
    → is_earlier b c ≡ false
    → All (λ r. is_earlier r b ≡ false) rows
    → All (λ r. is_earlier r c ≡ false) rows
chain-All b c [] h a = tt
chain-All b c (r ∷ rows) h a = (is_earlier_chain r b c a.0 h, chain-All b c rows h a.1)

is_earlier_irrefl : (a : JobRow) → is_earlier a a ≡ false
unfolding is_earlier
is_earlier_irrefl a = ground arith

first_by_total :
    (q : JobRow) (rows : Jobs) → (b : JobRow) × (first_by is_earlier (q ∷ rows) ≡ some b)
unfolding first_by
first_by_total q rows = elim (Option-cases (first_by is_earlier rows)) [
  | inl e ↦ (q, rw e refl)
  | inr (b, e) ↦ (if is_earlier b q then b else q, rw e (ground arith))
]

pub first_by-none : (rows : Jobs) → first_by is_earlier rows ≡ none → rows ≡ []
first_by-none [] h = refl
first_by-none (q ∷ rows) h = let (b, e) = first_by_total q rows in cc

first_by_step :
    (r q : JobRow) (rows : Jobs) {b : JobRow}
    → first_by is_earlier (q ∷ rows) ≡ some b
    → first_by is_earlier (r ∷ q ∷ rows) ≡ (if is_earlier b r then some b else some r)
unfolding first_by
first_by_step r q rows {b} e = rw e refl

abbrev pub IsFirst : Jobs → JobRow → Type 0
IsFirst rows c = Memᴰ c rows × All (λ r. is_earlier r c ≡ false) rows

-- What `ORDER BY … LIMIT 1` returns: a row of the list that no row of the list precedes.
pub first_by-IsFirst :
    (rows : Jobs) (c : JobRow) → first_by is_earlier rows ≡ some c → IsFirst rows c
first_by-IsFirst [] c h = unfold first_by in absurd (ground arith)
first_by-IsFirst (r ∷ []) c h =
    let e : r ≡ c = unfold first_by in ground arith in
    subst (IsFirst (r ∷ [])) e (Memᴰ.head refl, (is_earlier_irrefl r, tt))
first_by-IsFirst (r ∷ q ∷ rows) c h =
    let (b, e) = first_by_total q rows in
    let (m, least) = first_by-IsFirst (q ∷ rows) b e in
    let step = first_by_step r q rows e in
    elim (Bool-cases (is_earlier b r)) [
      | inl lt ↦
          let same : b ≡ c = ground (arith, step) in
          subst (IsFirst (r ∷ q ∷ rows)) same (Memᴰ.tail m, (is_earlier_asymm b r lt, least))
      | inr ge ↦
          let same : r ≡ c = ground (arith, step) in
          subst (IsFirst (r ∷ q ∷ rows)) same
            (Memᴰ.head refl, (is_earlier_irrefl r, chain-All b r (q ∷ rows) ge least))
    ]

no_such_id :
    (r : JobRow) (rows : Jobs)
    → any (λ q. q.id == r.id) rows ≡ false
    → filter (λ q. q.id == r.id) rows ≡ []
unfolding any filter
no_such_id r [] h = refl
no_such_id r (q ∷ rows) h = ground (arith, no_such_id r rows)

other_id :
    (c r : JobRow) (rows : Jobs)
    → any (λ q. q.id == r.id) rows ≡ false
    → Memᴰ c rows
    → (r.id == c.id) ≡ false
unfolding any
other_id c r [] h m = elim m [ ]
other_id c r (q ∷ rows) h (Memᴰ.head e) = ground (arith, ap (λ (x : JobRow). x.id) e)
other_id c r (q ∷ rows) h (Memᴰ.tail m) = ground (arith, other_id c r rows)

-- Identifiers are unique, so a row of the table is the only one with its identifier.
pub filter-id :
    (c : JobRow) (rows : Jobs)
    → unique_ids rows ≡ true
    → Memᴰ c rows
    → filter (λ q. q.id == c.id) rows ≡ c ∷ []
unfolding unique_ids filter
filter-id c [] u m = elim m [ ]
filter-id c (r ∷ rows) u (Memᴰ.head e) =
    subst (λ (x : JobRow). filter (λ q. q.id == x.id) (r ∷ rows) ≡ x ∷ []) (sym e)
      (ground (arith, no_such_id r rows))
filter-id c (r ∷ rows) u (Memᴰ.tail m) = ground (arith, other_id c r rows, filter-id c rows)
