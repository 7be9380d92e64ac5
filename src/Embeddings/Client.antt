-- ===== src/Embeddings/Client.antt =====
-- backend/embeddings/client.py: from the response of the endpoint to the vectors of the inputs.
pub mod Values
pub mod Order
use graph_blizz.Prelude.{
  ℕ, suc, ◌-◌, ℤ, pos, negsuc, Bool, true, false, not, ◌&&◌, ◌==◌, if◌then◌else◌, Option, none,
  some, List, [], ◌∷◌, Text, codes, length, is_empty, ltb, Result, ok, err, ◌>>=◌,
}
use graph_blizz.Errors.{Exn, embedding_error, overflow_error}
use graph_blizz.Json.{
  Json, null, boolean, integer, real, text, array, object, Items, Fields, field_or_null, items_of,
}

-- Floats of Python: the bits of an integer's float, if it has one, and `math.isfinite` of bits.
pub record Floats : Type 0 where
  pub float_of : ℤ → Option ℕ
  pub is_finite : ℕ → Bool

abbrev pub Vector : Type 0
Vector = List ℕ

-- What the post of the inputs gives: an answer with its status and, if it is JSON, its value, or a
-- timeout or a transport error of httpx.
pub data EndpointReply : Type 0 where
  unreachable : EndpointReply
  answered : (is_success : Bool) → (payload : Option Json) → EndpointReply

abbrev pub float_or_overflow : Option ℕ → Result Exn (Option ℕ)
float_or_overflow none = err overflow_error
float_or_overflow (some bits) = ok (some bits)

-- The tests of one value of a vector, and its float; `math.isfinite` raises for an integer that no
-- float holds.
unfoldable pub finite_value : Floats → Json → Result Exn (Option ℕ)
finite_value floats (integer n) = float_or_overflow (floats.float_of n)
finite_value floats (real whole bits) = ok (if floats.is_finite bits then some bits else none)
finite_value floats value = ok none

abbrev pub with_value : Option ℕ → Result Exn (Option Vector) → Result Exn (Option Vector)
with_value none rest = ok none
with_value (some bits) (err e) = err e
with_value (some bits) (ok none) = ok none
with_value (some bits) (ok (some vector)) = ok (some (bits ∷ vector))

-- `all(… for value in raw_vector)` with the floats; none, if a value fails its tests.
unfoldable pub finite_vector : Floats → List Json → Result Exn (Option Vector)
finite_vector floats [] = ok (some [])
finite_vector floats (value ∷ values) =
    let rest = finite_vector floats values in
    finite_value floats value >>= λ bits. with_value bits rest

-- `vectors[index]`, out of range none.
unfoldable pub slot : {A : Type 0} → ℕ → List A → Option A
slot i [] = none
slot i (x ∷ xs) = let rest = slot (i - 1) xs in if i == 0 then some x else rest

unfoldable pub set_slot : {A : Type 0} → ℕ → A → List A → List A
set_slot i a [] = []
set_slot i a (x ∷ xs) = let rest = set_slot (i - 1) a xs in if i == 0 then a ∷ xs else x ∷ rest

abbrev pub is_vacant : Option (Option Vector) → Bool
is_vacant (some none) = true
is_vacant (some (some vector)) = false
is_vacant none = false

-- The index of an item: an integer below the number of inputs whose place is still empty.
unfoldable pub free_index : (expected_count : ℕ) → List (Option Vector) → Json → Result Exn ℕ
unfolding slot
free_index expected_count vectors (integer (pos i)) =
    if ltb i expected_count && is_vacant (slot i vectors) then ok i else err embedding_error
free_index expected_count vectors value = err embedding_error

abbrev pub vector_or_error : Option Vector → Result Exn Vector
vector_or_error none = err embedding_error
vector_or_error (some vector) = ok vector

unfoldable pub vector_of : Floats → Json → Result Exn Vector
vector_of floats (array values) = finite_vector floats (items_of values) >>= vector_or_error
vector_of floats value = err embedding_error

abbrev pub has_dimension : Option ℕ → Vector → Bool
has_dimension none vector = true
has_dimension (some dimension) vector = length vector == dimension

-- One round of the loop.
unfoldable pub place_item :
    Floats
    → (dimension : Option ℕ) (expected_count : ℕ) → List (Option Vector)
    → Json
    → Result Exn (List (Option Vector))
unfolding set_slot
place_item floats dimension expected_count vectors (object item) = do
  index ← free_index expected_count vectors (field_or_null (codes "index") item)
  vector ← vector_of floats (field_or_null (codes "embedding") item)
  if has_dimension dimension vector
      then ok (set_slot index (some vector) vectors)
      else err embedding_error
place_item floats dimension expected_count vectors value = err embedding_error

unfoldable pub place_items :
    Floats
    → (dimension : Option ℕ) (expected_count : ℕ) → List (Option Vector)
    → List Json
    → Result Exn (List (Option Vector))
place_items floats dimension expected_count vectors [] = ok vectors
place_items floats dimension expected_count vectors (item ∷ items) = do
  vectors' ← place_item floats dimension expected_count vectors item
  place_items floats dimension expected_count vectors' items

-- `[None] * expected_count`
unfoldable pub vacant : List Json → List (Option Vector)
vacant [] = []
vacant (item ∷ items) = none ∷ vacant items

-- The vectors, if none is missing.
unfoldable pub complete : List (Option Vector) → Result Exn (List Vector)
complete [] = ok []
complete (none ∷ vectors) = err embedding_error
complete (some vector ∷ vectors) = do rest ← complete vectors; ok (vector ∷ rest)

abbrev pub data_of : Json → Result Exn (List Json)
data_of (array items) = ok (items_of items)
data_of value = err embedding_error

abbrev pub payload_data : Json → Result Exn (List Json)
payload_data (object payload) = data_of (field_or_null (codes "data") payload)
payload_data value = err embedding_error

-- `_parse_vectors`, of items that has as many items as there are inputs.
unfoldable pub counted_vectors :
    Floats → (dimension : Option ℕ) (expected_count : ℕ) → List Json → Result Exn (List Vector)
unfolding place_items complete vacant
counted_vectors floats dimension expected_count items =
    if not (length items == expected_count) then err embedding_error else do
      vectors ← place_items floats dimension expected_count (vacant items) items
      complete vectors

-- `_parse_vectors`
unfoldable pub parse_vectors :
    Floats
    → (dimension : Option ℕ) → (payload : Json) (expected_count : ℕ) → Result Exn (List Vector)
unfolding counted_vectors
parse_vectors floats dimension payload expected_count =
    payload_data payload >>= counted_vectors floats dimension expected_count

abbrev pub payload_of_reply : EndpointReply → Result Exn Json
payload_of_reply unreachable = err embedding_error
payload_of_reply (answered false payload) = err embedding_error
payload_of_reply (answered true none) = err embedding_error
payload_of_reply (answered true (some payload)) = ok payload

-- `embed_batch`; `post` is the endpoint.
unfoldable pub embed_batch :
    Floats
    → (dimension : Option ℕ) → (post : List Text → EndpointReply) → List Text
    → Result Exn (List Vector)
unfolding parse_vectors
embed_batch floats dimension post texts = if is_empty texts then ok [] else do
  payload ← payload_of_reply (post texts)
  parse_vectors floats dimension payload (length texts)
