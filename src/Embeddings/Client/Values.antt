-- ===== src/Embeddings/Client/Values.antt =====
-- What a vector of the response is: the floats of its values.
use mathlib.Core.List.{Memᴰ}
use graph_blizz.Prelude.{
  ℕ, suc, pos, ◌≡◌, refl, ap, subst, ◌∙◌, true, Bool-cases, ==_iff, inl, inr, Option, none, some,
  List, [], ◌∷◌, codes, length, Result, ok, err, >>=-eq-ok,
}
use graph_blizz.Errors.{Exn}
use graph_blizz.Json.{
  Json, null, boolean, integer, real, text, array, object, Items, Fields, field_or_null, items_of,
}
use graph_blizz.Embeddings.Client.{
  Floats, Vector, float_or_overflow, finite_value, with_value, finite_vector, vector_or_error,
  vector_of, has_dimension,
}

-- The bits of the float that a number of the response is: of an integer that a float holds, or those
-- of a finite float. No other value is one, a bool neither.
abbrev pub IsFloat : Floats → Json → ℕ → Type 0
IsFloat floats (integer n) bits = floats.float_of n ≡ some bits
IsFloat floats (real whole b) bits = (b ≡ bits) × (floats.is_finite bits ≡ true)
IsFloat floats null bits = ⊥
IsFloat floats (boolean b) bits = ⊥
IsFloat floats (text t) bits = ⊥
IsFloat floats (array a) bits = ⊥
IsFloat floats (object o) bits = ⊥

-- Each value of a vector is the float of the value in its place.
abbrev pub AreFloats : Floats → List Json → Vector → Type 0
AreFloats floats [] [] = Unit
AreFloats floats [] (bits ∷ vector) = ⊥
AreFloats floats (value ∷ values) [] = ⊥
AreFloats floats (value ∷ values) (bits ∷ vector) =
    IsFloat floats value bits × AreFloats floats values vector

-- An item of the response is for an input, and its list is the vector, of the dimension that is asked
-- for.
pub record IsVectorOf (floats : Floats) (dimension : Option ℕ) (items : List Json) (index : ℕ)
    (vector : Vector) : Type 0 where
  pub item : Fields
  pub listed : Memᴰ (object item) items
  pub index_is : field_or_null (codes "index") item ≡ integer (pos index)
  pub values : Items
  pub embedding : field_or_null (codes "embedding") item ≡ array values
  pub floats_are : AreFloats floats (items_of values) vector
  pub dimension_is : (d : ℕ) → dimension ≡ some d → length (items_of values) ≡ d

float_of_eq :
    (found : Option ℕ) (bits : ℕ) → float_or_overflow found ≡ ok (some bits) → found ≡ some bits
float_of_eq none bits h = cc
float_of_eq (some b) bits h = cc

finite_value-IsFloat :
    (floats : Floats) (value : Json) (bits : ℕ)
    → finite_value floats value ≡ ok (some bits)
    → IsFloat floats value bits
unfolding finite_value
finite_value-IsFloat floats (integer n) bits h = float_of_eq (floats.float_of n) bits h
finite_value-IsFloat floats (real whole b) bits h = elim (Bool-cases (floats.is_finite b)) [
  | inl finite ↦
      let same : b ≡ bits = cc (rw finite at h) in
      (same, subst (λ t. floats.is_finite t ≡ true) same finite)
  | inr other ↦ absurd (cc (rw other at h))
]
finite_value-IsFloat floats null bits h = absurd (cc h)
finite_value-IsFloat floats (boolean b) bits h = absurd (cc h)
finite_value-IsFloat floats (text t) bits h = absurd (cc h)
finite_value-IsFloat floats (array a) bits h = absurd (cc h)
finite_value-IsFloat floats (object o) bits h = absurd (cc h)

with_value-eq :
    (bits : Option ℕ) (rest : Result Exn (Option Vector)) (vector : Vector)
    → with_value bits rest ≡ ok (some vector)
    → (b : ℕ) × (tail : Vector) × (bits ≡ some b) × (rest ≡ ok (some tail)) × (b ∷ tail ≡ vector)
with_value-eq none rest vector h = absurd (cc h)
with_value-eq (some b) (err e) vector h = absurd (cc h)
with_value-eq (some b) (ok none) vector h = absurd (cc h)
with_value-eq (some b) (ok (some tail)) vector h = (b, tail, refl, refl, cc h)

finite_vector-AreFloats :
    (floats : Floats) (values : List Json) (vector : Vector)
    → finite_vector floats values ≡ ok (some vector)
    → AreFloats floats values vector
unfolding finite_vector
finite_vector-AreFloats floats [] vector h =
    let same : [] ≡ vector = cc h in subst (AreFloats floats []) same tt
finite_vector-AreFloats floats (value ∷ values) vector h =
    let (bits, first, rest) =
      >>=-eq-ok (finite_value floats value) (λ bits. with_value bits (finite_vector floats values))
        h in
    let (b, tail, known, others, same) =
      with_value-eq bits (finite_vector floats values) vector rest in
    subst (AreFloats floats (value ∷ values)) same (
      finite_value-IsFloat floats value b (first ∙ ap ok known),
      finite_vector-AreFloats floats values tail others,
    )

found_vector :
    (found : Option Vector) (vector : Vector)
    → vector_or_error found ≡ ok vector
    → found ≡ some vector
found_vector none vector h = cc
found_vector (some v) vector h = cc

-- A list of a response of which every value is a float.
pub vector_of-AreFloats :
    (floats : Floats) (value : Json) (vector : Vector)
    → vector_of floats value ≡ ok vector
    → (values : Items) × (value ≡ array values) × AreFloats floats (items_of values) vector
unfolding vector_of
vector_of-AreFloats floats (array values) vector h =
    let (found, first, last) =
      >>=-eq-ok (finite_vector floats (items_of values)) vector_or_error h in
    (
      values,
      refl,
      finite_vector-AreFloats floats (items_of values) vector
          (first ∙ ap ok (found_vector found vector last)),
    )
vector_of-AreFloats floats null vector h = absurd (cc h)
vector_of-AreFloats floats (boolean b) vector h = absurd (cc h)
vector_of-AreFloats floats (integer n) vector h = absurd (cc h)
vector_of-AreFloats floats (real w b) vector h = absurd (cc h)
vector_of-AreFloats floats (text t) vector h = absurd (cc h)
vector_of-AreFloats floats (object o) vector h = absurd (cc h)

pub AreFloats-length :
    (floats : Floats) (values : List Json) (vector : Vector)
    → AreFloats floats values vector
    → length values ≡ length vector
AreFloats-length floats [] [] h = refl
AreFloats-length floats [] (b ∷ vector) h = absurd h
AreFloats-length floats (value ∷ values) [] h = absurd h
AreFloats-length floats (value ∷ values) (b ∷ vector) h =
    ap suc (AreFloats-length floats values vector h.1)

pub has_dimension-eq :
    (dimension : Option ℕ) (vector : Vector) (d : ℕ)
    → has_dimension dimension vector ≡ true
    → dimension ≡ some d
    → length vector ≡ d
has_dimension-eq none vector d h e = absurd (cc e)
has_dimension-eq (some n) vector d h e =
    let same : n ≡ d = cc e in (==_iff (length vector) n).0 h ∙ same
