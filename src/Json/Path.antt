-- ===== src/Json/Path.antt =====
-- libslop/src/lib.rs: walking a payload along a parsed path (`path_matches`, `predicates_match`).
use slopd.Base.{
  ℕ, String, Bool, true, false, ◌||◌, Option, none, some, List, [], ◌∷◌, ◌++◌, any, all, ◌==◌, ◌≡◌,
  refl, sym, ap, ◌∙◌, arith, append-nil,
}
use slopd.Base.Decimal.{to_string}
use slopd.Json.Value.{
  Value, null, bool, number, other_number, string, array, object, Values, empty, item, get_key,
  get_index, as_array,
}

pub data PathSegment : Type 0 where
  key : String → PathSegment
  index : ℕ → PathSegment
  any_element : PathSegment

pub record PayloadPredicate : Type 0 where
  pub path : List PathSegment
  pub expected : String

abbrev bool_name : Bool → String
bool_name true = "true"
bool_name false = "false"

unfoldable pub scalar_eq : Value → String → Bool
scalar_eq (string s) expected = s == expected
scalar_eq null expected = expected == "null"
scalar_eq (bool b) expected = bool_name b == expected
scalar_eq (number n) expected = to_string n == expected
scalar_eq (other_number t) expected = t == expected
scalar_eq (array vs) expected = false
scalar_eq (object fs) expected = false

abbrev elements : Values → List Value
elements empty = []
elements (item v vs) = v ∷ elements vs

unfoldable pub path_matches : Value → List PathSegment → String → Bool
unfolding scalar_eq
path_matches v [] expected = scalar_eq v expected
path_matches v (key k ∷ rest) expected = elim (get_key v k) [
  | none ↦ false
  | some child ↦ path_matches child rest expected
]
path_matches v (index i ∷ rest) expected = elim (get_index v i) [
  | none ↦ false
  | some child ↦ path_matches child rest expected
]
path_matches v (any_element ∷ rest) expected = elim (as_array v) [
  | none ↦ false
  | some vs ↦ any (λ child. path_matches child rest expected) (elements vs)
]

unfoldable pub predicates_match : Value → List PayloadPredicate → Bool
unfolding path_matches
predicates_match v predicates =
    all (λ (p : PayloadPredicate). path_matches v p.path p.expected) predicates

-- The values that a path reaches, as jq lists them.
abbrev option_list {ℓ} : {A : Type ℓ} → Option A → List A
option_list none = []
option_list (some a) = a ∷ []

abbrev array_list : Option Values → List Value
array_list none = []
array_list (some vs) = elements vs

abbrev step_list : Value → PathSegment → List Value
step_list v (key k) = option_list (get_key v k)
step_list v (index i) = option_list (get_index v i)
step_list v any_element = array_list (as_array v)

abbrev flat_map : (Value → List Value) → List Value → List Value
flat_map f [] = []
flat_map f (v ∷ vs) = f v ++ flat_map f vs

unfoldable pub reached : List PathSegment → Value → List Value
reached [] v = v ∷ []
reached (s ∷ rest) v = flat_map (reached rest) (step_list v s)

any-append : (p : Value → Bool) (xs ys : List Value) → any p (xs ++ ys) ≡ (any p xs || any p ys)
any-append p [] ys = refl
any-append p (x ∷ xs) ys = ground (arith, any-append p xs ys)

any-flat_map :
    (p q : Value → Bool) (f : Value → List Value) (vs : List Value)
    → ((v : Value) → q v ≡ any p (f v))
    → any q vs ≡ any p (flat_map f vs)
any-flat_map p q f [] h = refl
any-flat_map p q f (v ∷ vs) h =
    rw (h v, any-flat_map p q f vs h) (sym (any-append p (f v) (flat_map f vs)))

any-option :
    (p q : Value → Bool) (f : Value → List Value) (o : Option Value)
    → ((v : Value) → q v ≡ any p (f v))
    → (elim o [ none ↦ false | some v ↦ q v ]) ≡ any p (flat_map f (option_list o))
any-option p q f none h = refl
any-option p q f (some v) h = h v ∙ ap (any p) (sym (append-nil (f v)))

any-array :
    (p q : Value → Bool) (f : Value → List Value) (o : Option Values)
    → ((v : Value) → q v ≡ any p (f v))
    → (elim o [ none ↦ false | some vs ↦ any q (elements vs) ]) ≡ any p (flat_map f (array_list o))
any-array p q f none h = refl
any-array p q f (some vs) h = any-flat_map p q f (elements vs) h

-- A predicate's path matches a payload exactly when one of the values that the path reaches, with
-- `[]` standing for every element of an array, is a scalar that prints as the expected text.
pub path_matches-reached :
    (v : Value) (path : List PathSegment) (expected : String)
    → path_matches v path expected ≡ any (λ w. scalar_eq w expected) (reached path v)
unfolding path_matches reached
path_matches-reached v [] expected = ground arith
path_matches-reached v (key k ∷ rest) expected =
    any-option (λ w. scalar_eq w expected) (λ c. path_matches c rest expected) (reached rest)
      (get_key v k) (λ c. path_matches-reached c rest expected)
path_matches-reached v (index i ∷ rest) expected =
    any-option (λ w. scalar_eq w expected) (λ c. path_matches c rest expected) (reached rest)
      (get_index v i) (λ c. path_matches-reached c rest expected)
path_matches-reached v (any_element ∷ rest) expected =
    any-array (λ w. scalar_eq w expected) (λ c. path_matches c rest expected) (reached rest)
      (as_array v) (λ c. path_matches-reached c rest expected)
