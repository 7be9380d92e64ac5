-- ===== src/Json.antt =====
-- Values of the json module of Python, as `json.loads` gives them and `json.dumps` takes them.
-- A float is its bits, with the integer that it equals, if it equals one.
use graph_blizz.Prelude.{
  ℕ, ℤ, pos, negsuc, Bool, true, false, Option, none, some, List, [], ◌∷◌, Text, text_eq, ◌==◌,
  if◌then◌else◌,
}

mutual
  pub data Json : Type 0 where
    null : Json
    boolean : Bool → Json
    integer : ℤ → Json
    real : (whole : Option ℤ) → (bits : ℕ) → Json
    text : Text → Json
    array : Items → Json
    object : Fields → Json

  pub data Items : Type 0 where
    no_items : Items
    with_item : Json → Items → Items

  -- The entries of a dict, in their order.
  pub data Fields : Type 0 where
    no_fields : Fields
    with_field : Text → Json → Fields → Fields

-- `dict.get`
unfoldable pub field_of : Text → Fields → Option Json
field_of key no_fields = none
field_of key (with_field name value fields) =
    let rest = field_of key fields in if text_eq name key then some value else rest

abbrev pub field_or_null : Text → Fields → Json
field_or_null key fields = elim (field_of key fields) [ none ↦ null | some value ↦ value ]

unfoldable pub items_of : Items → List Json
items_of no_items = []
items_of (with_item value items) = value ∷ items_of items

-- The number that a value is for `==`, where True is 1: an integer, or the bits of another float.
pub data Number : Type 0 where
  no_number : Number
  whole_number : ℤ → Number
  other_float : ℕ → Number

abbrev pub number_of : Json → Number
number_of (boolean true) = whole_number (pos 1)
number_of (boolean false) = whole_number (pos 0)
number_of (integer n) = whole_number n
number_of (real (some n) bits) = whole_number n
number_of (real none bits) = other_float bits
number_of value = no_number

abbrev pub int_eq : ℤ → ℤ → Bool
int_eq (pos a) (pos b) = a == b
int_eq (pos a) (negsuc b) = false
int_eq (negsuc a) (pos b) = false
int_eq (negsuc a) (negsuc b) = a == b
