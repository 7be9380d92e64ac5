-- ===== src/Parsers/Intervals.antt =====
-- Intervals of a source, and what it means that a list of them covers the source once and in order.
use mathlib.Core.List.{append_assoc, append-nil}
use graph_blizz.Prelude.{
  ℕ, zero, suc, ◌+◌, ◌-◌, ◌≤◌, ◌≡◌, refl, sym, ap, ◌∙◌, arith, List, [], ◌∷◌, ◌++◌, length, take,
  drop,
}

abbrev pub Interval : Type 0
Interval = ℕ × ℕ

-- Each interval begins where the one before it ended, from the first bound to the last.
abbrev pub Tiles : ℕ → ℕ → List Interval → Type 0
Tiles a b [] = a ≡ b
Tiles a b (i ∷ rest) = (i.0 ≡ a) × (i.0 ≤ i.1) × Tiles i.1 b rest

-- `source[start:end]`
unfoldable pub slice : {A : Type 0} → List A → Interval → List A
slice source i = take (i.1 - i.0) (drop i.0 source)

unfoldable pub slices : {A : Type 0} → List A → List Interval → List A
slices source [] = []
slices source (i ∷ rest) = slice source i ++ slices source rest

pub Tiles-append :
    (a b c : ℕ) (left right : List Interval)
    → Tiles a b left
    → Tiles b c right
    → Tiles a c (left ++ right)
Tiles-append a b c [] right h k = rw h k
Tiles-append a b c (i ∷ left) right h k = (h.0, h.1, Tiles-append i.1 b c left right h.2 k)

pub Tiles-le : (a b : ℕ) (intervals : List Interval) → Tiles a b intervals → a ≤ b
Tiles-le a b [] h = omega (arith, h)
Tiles-le a b (i ∷ rest) h = omega (arith, h.0, h.1, Tiles-le i.1 b rest h.2)

take-drop : {A : Type 0} (n : ℕ) (source : List A) → take n source ++ drop n source ≡ source
take-drop zero source = refl
take-drop (suc n) [] = refl
take-drop (suc n) (x ∷ source) = ap (λ rest. x ∷ rest) (take-drop n source)

drop-nil : {A : Type 0} (n : ℕ) → drop {A = A} n [] ≡ []
drop-nil zero = refl
drop-nil (suc n) = refl

drop_add :
    {A : Type 0} (m n k : ℕ) (source : List A) → k ≡ m + n → drop n (drop m source) ≡ drop k source
drop_add zero n k source h = ap (λ j. drop j source) (omega (arith, h))
drop_add (suc m) n k [] h = (drop-nil n) ∙ (sym (drop-nil k))
drop_add (suc m) n zero (x ∷ source) h = absurd (omega (arith, h))
drop_add (suc m) n (suc k) (x ∷ source) h = drop_add m n k source (omega (arith, h))

slice-drop :
    {A : Type 0} (source : List A) (i : Interval)
    → i.0 ≤ i.1
    → slice source i ++ drop i.1 source ≡ drop i.0 source
unfolding slice
slice-drop source i h =
    (ap (λ rest. take (i.1 - i.0) (drop i.0 source) ++ rest)
      (sym (drop_add i.0 (i.1 - i.0) i.1 source (omega (arith, h)))))
    ∙ (take-drop (i.1 - i.0) (drop i.0 source))

slices-drop :
    {A : Type 0} (source : List A) (a b : ℕ) (intervals : List Interval)
    → Tiles a b intervals
    → slices source intervals ++ drop b source ≡ drop a source
unfolding slices
slices-drop source a b [] h = ap (λ n. drop n source) (sym h)
slices-drop source a b (i ∷ rest) h =
    (append_assoc (slice source i) (slices source rest) (drop b source))
    ∙ (ap (λ tail. slice source i ++ tail) (slices-drop source i.1 b rest h.2))
    ∙ (slice-drop source i h.1)
    ∙ (ap (λ n. drop n source) h.0)

drop-length : {A : Type 0} (source : List A) → drop (length source) source ≡ []
drop-length [] = refl
drop-length (x ∷ source) = drop-length source

-- The slices of intervals that tile a source are the source.
pub slices-Tiles :
    {A : Type 0} (source : List A) (intervals : List Interval)
    → Tiles 0 (length source) intervals
    → slices source intervals ≡ source
slices-Tiles source intervals h =
    (sym (append-nil (slices source intervals)))
    ∙ (ap (λ tail. slices source intervals ++ tail) (sym (drop-length source)))
    ∙ (slices-drop source 0 (length source) intervals h)
