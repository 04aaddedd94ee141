-- ===== src/Json/Value.antt =====
-- `serde_json::Value` and the lookups that the program makes in it. An object is its entries in
-- order, each key once. A number is a non-negative integer, or any other with the text it prints as.
use slopd.Base.{
  ℕ, suc, zero, String, Bool, Option, none, some, List, [], ◌∷◌, ◌==◌, if◌then◌else◌, and_then,
}

mutual
  pub data Value : Type 0 where
    null : Value
    bool : Bool → Value
    number : ℕ → Value
    other_number : String → Value
    string : String → Value
    array : Values → Value
    object : Fields → Value

  pub data Values : Type 0 where
    empty : Values
    item : Value → Values → Values

  pub data Fields : Type 0 where
    no_fields : Fields
    field : String → Value → Fields → Fields

unfoldable pub field_of : Fields → String → Option Value
field_of no_fields k = none
field_of (field j v fs) k = let rest = field_of fs k in if j == k then some v else rest

abbrev nth : Values → ℕ → Option Value
nth empty i = none
nth (item v vs) zero = some v
nth (item v vs) (suc i) = nth vs i

-- `Value::get` by a key and by an index.
unfoldable pub get_key : Value → String → Option Value
unfolding field_of
get_key (object fs) k = field_of fs k
get_key _ k = none

unfoldable pub get_index : Value → ℕ → Option Value
get_index (array vs) i = nth vs i
get_index _ i = none

-- `Value::pointer`, whose tokens here are never the index of an array.
unfoldable pub pointer : Value → List String → Option Value
unfolding get_key
pointer v [] = some v
pointer v (k ∷ ks) = elim (get_key v k) [ none ↦ none | some w ↦ pointer w ks ]

unfoldable pub as_str : Value → Option String
as_str (string s) = some s
as_str _ = none

unfoldable pub as_bool : Value → Option Bool
as_bool (bool b) = some b
as_bool _ = none

unfoldable pub as_u64 : Value → Option ℕ
as_u64 (number n) = some n
as_u64 _ = none

unfoldable pub as_array : Value → Option Values
as_array (array vs) = some vs
as_array _ = none

-- `get(k).and_then(Value::as_str)`
unfoldable pub str_at : Value → String → Option String
unfolding get_key as_str
str_at v k = and_then (get_key v k) as_str
