-- ===== src/Prelude/Lists.antt =====
-- Lists measured by native numbers, and the Boolean quantifiers over them.
use Prim.Native.Nat.{ℕ, zero, suc, ◌+◌}
use mathlib.Core.Path.{◌≡◌, refl, sym, subst}
use mathlib.Core.Logic.{inl, inr}
use mathlib.Core.Bool.{Bool, true, false, ◌&&◌, ◌||◌}
use mathlib.Core.Option.{Option, none, some}
use mathlib.Core.List.{List, [], ◌∷◌, ◌++◌, Memᴰ}
use mathlib.Core.List.Memᴰ
use native.Mathlib.Omega.{arith}
use graph_blizz.Prelude.Tests.{if◌then◌else◌, Bool-cases}

module _ {ℓ} {A : Type ℓ} where
  abbrev pub length : List A → ℕ
  length [] = 0
  length (x ∷ xs) = suc (length xs)

  abbrev pub take : ℕ → List A → List A
  take zero xs = []
  take (suc n) [] = []
  take (suc n) (x ∷ xs) = x ∷ take n xs

  abbrev pub drop : ℕ → List A → List A
  drop zero xs = xs
  drop (suc n) [] = []
  drop (suc n) (x ∷ xs) = drop n xs

  abbrev pub is_empty : List A → Bool
  is_empty [] = true
  is_empty (x ∷ xs) = false

  unfoldable pub any : (A → Bool) → List A → Bool
  any p [] = false
  any p (x ∷ xs) = p x || any p xs

  unfoldable pub all : (A → Bool) → List A → Bool
  all p [] = true
  all p (x ∷ xs) = p x && all p xs

  unfoldable pub filter : (A → Bool) → List A → List A
  filter p [] = []
  filter p (x ∷ xs) = let rest = filter p xs in if p x then x ∷ rest else rest

  unfoldable pub find? : (A → Bool) → List A → Option A
  find? p [] = none
  find? p (x ∷ xs) = let rest = find? p xs in if p x then some x else rest

  -- `UPDATE … SET … WHERE`: the rows that pass the test are replaced, in their places.
  unfoldable pub update_where : (A → Bool) → (A → A) → List A → List A
  update_where p f [] = []
  update_where p f (x ∷ xs) = (if p x then f x else x) ∷ update_where p f xs

  -- The element of the list that comes first in an order, the earlier one of equals.
  unfoldable pub first_by : (A → A → Bool) → List A → Option A
  first_by lt [] = none
  first_by lt (x ∷ xs) = elim (first_by lt xs) [
    | none ↦ some x
    | some y ↦ if lt y x then some y else some x
  ]

  pub length-append : (xs ys : List A) → length (xs ++ ys) ≡ length xs + length ys
  length-append [] ys = omega arith
  length-append (x ∷ xs) ys = omega (arith, length-append xs ys)

-- A predicate of every element, by recursion: it computes to tuples.
abbrev pub All {ℓ κ} : {A : Type ℓ} → (A → Type κ) → List A → Type κ
All P [] = Unit
All P (x ∷ xs) = P x × All P xs

-- What passes a filter is in the list and passes the test.
pub mem-filter {ℓ} :
    {A : Type ℓ} (test : A → Bool) (a : A) (xs : List A)
    → Memᴰ a (filter test xs)
    → Memᴰ a xs × (test a ≡ true)
unfolding filter
mem-filter test a [] m = elim m [ ]
mem-filter test a (x ∷ xs) m = elim (Bool-cases (test x)) [
  | inl e ↦ elim (Memᴰ.cases_cons (rw e at m)) [
    | inl same ↦ (Memᴰ.head same, rw same e)
    | inr later ↦ let (n, t) = mem-filter test a xs later in (Memᴰ.tail n, t)
  ]
  | inr e ↦ let (n, t) = mem-filter test a xs (rw e at m) in (Memᴰ.tail n, t)
]

pub filter-mem {ℓ} :
    {A : Type ℓ} (test : A → Bool) (a : A) (xs : List A)
    → Memᴰ a xs
    → test a ≡ true
    → Memᴰ a (filter test xs)
unfolding filter
filter-mem test a [] m t = elim m [ ]
filter-mem test a (x ∷ xs) (Memᴰ.head same) t =
    rw (subst (λ y. test y ≡ true) same t) (Memᴰ.head same)
filter-mem test a (x ∷ xs) (Memᴰ.tail m) t =
    let n = filter-mem test a xs m t in
    elim (Bool-cases (test x)) [ inl e ↦ rw e (Memᴰ.tail n) | inr e ↦ rw e n ]

-- Membership and `All`, read as a function of the element.
pub All-mem {ℓ κ} : {A : Type ℓ} (P : A → Type κ) (a : A) (xs : List A) → All P xs → Memᴰ a xs → P a
All-mem P a [] h m = elim m [ ]
All-mem P a (x ∷ xs) h (Memᴰ.head e) = subst P (sym e) h.0
All-mem P a (x ∷ xs) h (Memᴰ.tail m) = All-mem P a xs h.1 m

pub All-of_mem {ℓ κ} :
    {A : Type ℓ} (P : A → Type κ) (xs : List A) → ((a : A) → Memᴰ a xs → P a) → All P xs
All-of_mem P [] h = tt
All-of_mem P (x ∷ xs) h = (h x (Memᴰ.head refl), All-of_mem P xs (λ a m. h a (Memᴰ.tail m)))

-- A statement that no row admits returns nothing and changes nothing.
pub update_where_none {ℓ} :
    {A : Type ℓ} (test : A → Bool) (change : A → A) (xs : List A)
    → All (λ x. test x ≡ false) xs
    → (update_where test change xs ≡ xs) × (filter test xs ≡ [])
unfolding update_where filter
update_where_none test change [] h = (refl, refl)
update_where_none test change (x ∷ xs) h =
    let (same, nothing) = update_where_none test change xs h.1 in
    (rw (h.0, same) refl, rw (h.0, nothing) refl)

-- What holds of the changed rows and of the others holds of all rows after an UPDATE.
pub All-update_where {ℓ κ} :
    {A : Type ℓ} (P : A → Type κ) (test : A → Bool) (change : A → A) (xs : List A)
    → ((x : A) → Memᴰ x xs → test x ≡ true → P (change x))
    → ((x : A) → Memᴰ x xs → test x ≡ false → P x)
    → All P (update_where test change xs)
unfolding update_where
All-update_where P test change [] changed kept = tt
All-update_where P test change (x ∷ xs) changed kept =
    let rest =
      All-update_where P test change xs (λ y m. changed y (Memᴰ.tail m))
        (λ y m. kept y (Memᴰ.tail m)) in
    elim (Bool-cases (test x)) [
      | inl e ↦ rw e (changed x (Memᴰ.head refl) e, rest)
      | inr e ↦ rw e (kept x (Memᴰ.head refl) e, rest)
    ]
