-- ===== src/Embeddings/Tests.antt =====
-- A response whose items stand in another order than the inputs.
use graph_blizz.Prelude.{ℕ, ◌≡◌, refl, pos, some, true, List, [], ◌∷◌, codes, length, text_eq, ok}
use graph_blizz.Json.{
  Json, integer, array, object, no_items, with_item, no_fields, with_field, field_of, items_of,
}
use graph_blizz.Embeddings.Client.{
  Floats, Vector, slot, set_slot, free_index, finite_vector, finite_value, vector_of, place_item,
  place_items, vacant, complete, payload_data, counted_vectors, parse_vectors,
}
use graph_blizz.Embeddings.Client.Values.{IsVectorOf}
use graph_blizz.Embeddings.Client.Order.{parse_vectors_lem}

abbrev floats : Floats
floats = record { float_of = λ n. some 9; is_finite = λ bits. true }

abbrev item : ℕ → Json
item index = object (
    with_field (codes "index") (integer (pos index))
      (with_field (codes "embedding") (array (with_item (integer (pos 1)) no_items)) no_fields))

abbrev payload : Json
payload =
    object (
      with_field (codes "data") (array (with_item (item 1) (with_item (item 0) no_items)))
        no_fields)

abbrev vectors : List Vector
vectors = (9 ∷ []) ∷ (9 ∷ []) ∷ []

parsed : parse_vectors floats (some 1) payload 2 ≡ ok vectors
unfolding parse_vectors counted_vectors place_items place_item complete vacant slot set_slot
    free_index vector_of finite_vector finite_value field_of items_of text_eq
parsed = refl

parse_vectors_lem_example :
    (items : List Json) × (payload_data payload ≡ ok items)
    × (length vectors ≡ 2)
    × ((i : ℕ) (w : Vector) → slot i vectors ≡ some w → IsVectorOf floats (some 1) items i w)
parse_vectors_lem_example = parse_vectors_lem floats (some 1) payload 2 vectors parsed
