-- ===== src/Embeddings/Client/Order.antt =====
-- The vectors stand in the order of the inputs, whatever the order of the response.
use mathlib.Core.List.{Memᴰ}
use graph_blizz.Prelude.{
  ℕ, suc, ◌-◌, pos, negsuc, ◌≡◌, ◌⊎◌, refl, sym, ap, subst, ◌∙◌, arith, Bool-cases, ==_iff, inl,
  inr, ◌&&◌, ◌==◌, Option, none, some, List, [], ◌∷◌, codes, length, ltb, ok, >>=-eq-ok,
}
use graph_blizz.Json.{
  Json, null, boolean, integer, real, text, array, object, Fields, field_or_null, items_of,
}
use graph_blizz.Embeddings.Client.{
  Floats, Vector, slot, set_slot, is_vacant, free_index, vector_of, has_dimension, place_item,
  place_items, vacant, complete, payload_data, counted_vectors, parse_vectors,
}
use graph_blizz.Embeddings.Client.Values.{
  AreFloats-length, IsVectorOf, vector_of-AreFloats, has_dimension-eq,
}

slot-set_slot :
    (i j : ℕ) (v w : Vector) (vectors : List (Option Vector))
    → slot j (set_slot i (some v) vectors) ≡ some (some w)
    → ((j ≡ i) × (v ≡ w)) ⊎ (slot j vectors ≡ some (some w))
unfolding slot set_slot
slot-set_slot i j v w [] h = cc
slot-set_slot i j v w (x ∷ vectors) h = elim (Bool-cases (i == 0)) [
  | inl i_is ↦ elim (Bool-cases (j == 0)) [
    | inl j_is ↦ inl (ground arith, cc (rw (i_is, j_is) at h))
    | inr j_is ↦ inr (rw j_is (rw (i_is, j_is) at h))
  ]
  | inr i_is ↦ elim (Bool-cases (j == 0)) [
    | inl j_is ↦ inr (rw j_is (rw (i_is, j_is) at h))
    | inr j_is ↦ elim (slot-set_slot (i - 1) (j - 1) v w vectors (rw (i_is, j_is) at h)) [
      | inl here ↦ inl (grind arith, here.1)
      | inr there ↦ inr (rw j_is there)
    ]
  ]
]

length-set_slot : {A : Type 0} (i : ℕ) (a : A) (xs : List A) → length (set_slot i a xs) ≡ length xs
unfolding set_slot
length-set_slot i a [] = refl
length-set_slot i a (x ∷ xs) = elim (Bool-cases (i == 0)) [
  | inl e ↦ rw e refl
  | inr e ↦ rw e (ap suc (length-set_slot (i - 1) a xs))
]

length-vacant : (items : List Json) → length (vacant items) ≡ length items
unfolding vacant
length-vacant [] = refl
length-vacant (item ∷ items) = ap suc (length-vacant items)

slot-vacant : (i : ℕ) (w : Vector) (items : List Json) → slot i (vacant items) ≡ some (some w) → ⊥
unfolding slot vacant
slot-vacant i w [] h = cc
slot-vacant i w (item ∷ items) h = elim (Bool-cases (i == 0)) [
  | inl e ↦ cc (rw e at h)
  | inr e ↦ slot-vacant (i - 1) w items (rw e at h)
]

-- The place of a vector that was placed.
IsCompletion : List (Option Vector) → List Vector → Type 0
IsCompletion vectors found =
    (length found ≡ length vectors)
    × ((i : ℕ) (w : Vector) → slot i found ≡ some w → slot i vectors ≡ some (some w))

IsCompletion-next :
    (v : Vector) (vectors : List (Option Vector)) (rest : List Vector)
    → IsCompletion vectors rest
    → IsCompletion (some v ∷ vectors) (v ∷ rest)
unfolding IsCompletion slot
IsCompletion-next v vectors rest h = (
  ap suc h.0,
  λ i w at_i. elim (Bool-cases (i == 0)) [
    | inl e ↦ let same : v ≡ w = cc (rw e at at_i) in rw (e, same) refl
    | inr e ↦ rw e (h.1 (i - 1) w (rw e at at_i))
  ],
)

complete-IsCompletion :
    (vectors : List (Option Vector)) (found : List Vector)
    → complete vectors ≡ ok found
    → IsCompletion vectors found
unfolding complete IsCompletion slot
complete-IsCompletion [] found h =
    let same : [] ≡ found = cc h in subst (IsCompletion []) same (refl, λ i w h. cc)
complete-IsCompletion (none ∷ vectors) found h = cc
complete-IsCompletion (some v ∷ vectors) found h =
    let (rest, first, last) = >>=-eq-ok (complete vectors) (λ rest. ok (v ∷ rest)) h in
    let same : v ∷ rest ≡ found = cc last in
    subst (IsCompletion (some v ∷ vectors)) same
      (IsCompletion-next v vectors rest (complete-IsCompletion vectors rest first))

free_index-eq :
    (expected_count index : ℕ) (vectors : List (Option Vector)) (value : Json)
    → free_index expected_count vectors value ≡ ok index
    → value ≡ integer (pos index)
unfolding free_index
free_index-eq n index vectors (integer (pos i)) h =
    elim (Bool-cases (ltb i n && is_vacant (slot i vectors))) [
      | inl e ↦ cc (rw e at h)
      | inr e ↦ absurd (cc (rw e at h))
    ]
free_index-eq n index vectors (integer (negsuc i)) h = cc
free_index-eq n index vectors null h = cc
free_index-eq n index vectors (boolean b) h = cc
free_index-eq n index vectors (real w bits) h = cc
free_index-eq n index vectors (text t) h = cc
free_index-eq n index vectors (array a) h = cc
free_index-eq n index vectors (object o) h = cc

module _ (floats : Floats) (dimension : Option ℕ) (n : ℕ) (all_items : List Json) where
  -- What has been placed so far is of the response.
  IsPlaced : List (Option Vector) → Type 0
  IsPlaced vectors =
      (i : ℕ) (w : Vector)
      → slot i vectors ≡ some (some w)
      → IsVectorOf floats dimension all_items i w

  place_object :
      (vectors vectors' : List (Option Vector)) (item : Fields)
      → Memᴰ (object item) all_items
      → IsPlaced vectors
      → place_item floats dimension n vectors (object item) ≡ ok vectors'
      → IsPlaced vectors' × (length vectors' ≡ length vectors)
  unfolding place_item IsPlaced
  place_object vectors vectors' item there placed h =
      let (index, indexed, after_index) =
        >>=-eq-ok (free_index n vectors (field_or_null (codes "index") item)) _ h in
      let (vector, embedded, last) =
        >>=-eq-ok (vector_of floats (field_or_null (codes "embedding") item)) _ after_index in
      let raw =
        vector_of-AreFloats floats (field_or_null (codes "embedding") item) vector embedded in
      elim (Bool-cases (has_dimension dimension vector)) [
        | inr bad ↦ absurd (cc (rw bad at last))
        | inl fits ↦
            let same : set_slot index (some vector) vectors ≡ vectors' = cc (rw fits at last) in
            (
              λ i w at_i.
                  elim (slot-set_slot index i vector w vectors
                    (subst (λ t. slot i t ≡ some (some w)) (sym same) at_i)) [
                      | inr before ↦ placed i w before
                      | inl here ↦ subst (IsVectorOf floats dimension all_items i) here.1 (
                          subst (λ t. IsVectorOf floats dimension all_items t vector) (sym here.0)
                            (record {
                              item = item;
                              listed = there;
                              index_is =
                                  free_index-eq n index vectors (field_or_null (codes "index") item)
                                    indexed;
                              values = raw.0;
                              embedding = raw.1;
                              floats_are = raw.2;
                              dimension_is = λ d e.
                                  AreFloats-length floats (items_of raw.0) vector raw.2
                                  ∙ has_dimension-eq dimension vector d fits e;
                            }))
                    ],
              subst (λ t. length t ≡ length vectors) same
                  (length-set_slot index (some vector) vectors),
            )
      ]

  place_item-IsPlaced :
      (vectors vectors' : List (Option Vector)) (item : Json)
      → Memᴰ item all_items
      → IsPlaced vectors
      → place_item floats dimension n vectors item ≡ ok vectors'
      → IsPlaced vectors' × (length vectors' ≡ length vectors)
  unfolding place_item
  place_item-IsPlaced vectors vectors' (object item) there placed h =
      place_object vectors vectors' item there placed h
  place_item-IsPlaced vectors vectors' null there placed h = absurd (cc h)
  place_item-IsPlaced vectors vectors' (boolean b) there placed h = absurd (cc h)
  place_item-IsPlaced vectors vectors' (integer m) there placed h = absurd (cc h)
  place_item-IsPlaced vectors vectors' (real w bits) there placed h = absurd (cc h)
  place_item-IsPlaced vectors vectors' (text t) there placed h = absurd (cc h)
  place_item-IsPlaced vectors vectors' (array a) there placed h = absurd (cc h)

  place_items-IsPlaced :
      (vectors vectors' : List (Option Vector)) (items : List Json)
      → ((item : Json) → Memᴰ item items → Memᴰ item all_items)
      → IsPlaced vectors
      → place_items floats dimension n vectors items ≡ ok vectors'
      → IsPlaced vectors' × (length vectors' ≡ length vectors)
  unfolding place_items
  place_items-IsPlaced vectors vectors' [] there placed h =
      let same : vectors ≡ vectors' = cc h in (subst IsPlaced same placed, ap length (sym same))
  place_items-IsPlaced vectors vectors' (item ∷ items) there placed h =
      let (middle, first, rest) =
        >>=-eq-ok (place_item floats dimension n vectors item)
          (λ v. place_items floats dimension n v items) h in
      let now =
        place_item-IsPlaced vectors middle item (there item (Memᴰ.head refl)) placed first in
      let later =
        place_items-IsPlaced middle vectors' items (λ i m. there i (Memᴰ.tail m)) now.0 rest in
      (later.0, later.1 ∙ now.1)

  counted_vectors-IsVectorOf :
      (vectors : List Vector)
      → counted_vectors floats dimension n all_items ≡ ok vectors
      → (length vectors ≡ n)
        × ((i : ℕ) (w : Vector)
            → slot i vectors ≡ some w
            → IsVectorOf floats dimension all_items i w)
  unfolding counted_vectors IsPlaced IsCompletion
  counted_vectors-IsVectorOf vectors h = elim (Bool-cases (length all_items == n)) [
    | inr other ↦ absurd (cc (rw other at h))
    | inl counted ↦
        let (slots, placed, last) =
          >>=-eq-ok (place_items floats dimension n (vacant all_items) all_items) (λ v. complete v)
            (rw counted at h) in
        let good =
          place_items-IsPlaced (vacant all_items) slots all_items (λ i m. m)
            (λ i w at_i. absurd (slot-vacant i w all_items at_i)) placed in
        let done = complete-IsCompletion slots vectors last in
        (
          done.0 ∙ good.1 ∙ length-vacant all_items ∙ (==_iff (length all_items) n).0 counted,
          λ i w at_i. good.0 i w (done.1 i w at_i),
        )
  ]

-- If a response is accepted, there is one vector for each input, and the vector at a place is, value
-- by value, the list of an item whose index is that place, wherever the item stands: each value is the
-- float of an integer or a finite float, and the list has the dimension that is asked for, if one is.
pub parse_vectors_lem :
    (floats : Floats) (dimension : Option ℕ) (payload : Json) (expected_count : ℕ)
    (vectors : List Vector)
    → parse_vectors floats dimension payload expected_count ≡ ok vectors
    → (items : List Json) × (payload_data payload ≡ ok items)
      × (length vectors ≡ expected_count)
      × ((i : ℕ) (w : Vector) → slot i vectors ≡ some w → IsVectorOf floats dimension items i w)
unfolding parse_vectors
parse_vectors_lem floats dimension payload n vectors h =
    let (items, read, counted) =
      >>=-eq-ok (payload_data payload) (λ i. counted_vectors floats dimension n i) h in
    let good = counted_vectors-IsVectorOf floats dimension n items vectors counted in
    (items, read, good.0, good.1)
