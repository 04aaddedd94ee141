-- ===== src/Settings/Fields.antt =====
-- The entries of an object after a write, and the entries of an event.
use slopd.Base.{
  String, Bool, true, false, Option, some, ◌≡◌, refl, ap, ◌∙◌, arith, ◌==◌, eq_iff, eq_refl, inl,
  inr, Bool-cases, is_some, if◌then◌else◌, unwrap_or, and_then,
}
use slopd.Json.Value.{
  Value, Values, empty, item, Fields, no_fields, field, field_of, get_key, as_array,
}
use slopd.Settings.Inject.{as_object, set_field, replace_field, insert_field, retain}

field_of-replace_field :
    (k j : String) (v : Value) (fs : Fields)
    → is_some (field_of fs k) ≡ true
    → field_of (replace_field k v fs) j ≡ (if k == j then some v else field_of fs j)
unfolding replace_field field_of
field_of-replace_field k j v no_fields h = cc
field_of-replace_field k j v (field i w fs) h =
    ground (arith, field_of-replace_field k j v fs, eq_iff i k, eq_iff i j, eq_iff k j)

field_of-insert_field :
    (k j : String) (v : Value) (fs : Fields)
    → is_some (field_of fs k) ≡ false
    → field_of (insert_field k v fs) j ≡ (if k == j then some v else field_of fs j)
unfolding insert_field field_of
field_of-insert_field k j v no_fields h = refl
field_of-insert_field k j v (field i w fs) h =
    ground (arith, field_of-insert_field k j v fs, eq_iff i k, eq_iff i j, eq_iff k j)

pub field_of-set_field :
    (k j : String) (v : Value) (fs : Fields)
    → field_of (set_field k v fs) j ≡ (if k == j then some v else field_of fs j)
unfolding set_field
field_of-set_field k j v fs = elim (Bool-cases (is_some (field_of fs k))) [
  | inl e ↦ rw e (field_of-replace_field k j v fs e)
  | inr e ↦ rw e (field_of-insert_field k j v fs e)
]

pub field_of-set_field_self :
    (k : String) (v : Value) (fs : Fields) → field_of (set_field k v fs) k ≡ some v
field_of-set_field_self k v fs = field_of-set_field k k v fs ∙ rw (eq_refl k)

replace_field_same :
    (k : String) (v : Value) (fs : Fields) → field_of fs k ≡ some v → replace_field k v fs ≡ fs
unfolding replace_field field_of
replace_field_same k v no_fields h = refl
replace_field_same k v (field j w fs) h = ground (arith, replace_field_same k v fs, eq_iff j k)

-- Writing the value that is there changes nothing.
pub set_field_same :
    (k : String) (v : Value) (fs : Fields) → field_of fs k ≡ some v → set_field k v fs ≡ fs
unfolding set_field
set_field_same k v fs h = rw (h, set_field) (replace_field_same k v fs h)

pub retain_twice : (p : Value → Bool) (vs : Values) → retain p (retain p vs) ≡ retain p vs
unfolding retain
retain_twice p empty = refl
retain_twice p (item v vs) = elim (Bool-cases (p v)) [
  | inl e ↦ rw (e, retain) (rw e (ap (item v) (retain_twice p vs)))
  | inr e ↦ rw e (retain_twice p vs)
]

-- A test that keeps all that another test keeps makes no difference behind it.
pub retain-weaker :
    (p q : Value → Bool) (vs : Values)
    → ((v : Value) → p v ≡ false → q v ≡ false)
    → retain q (retain p vs) ≡ retain q vs
unfolding retain
retain-weaker p q empty h = refl
retain-weaker p q (item v vs) h = elim (Bool-cases (p v)) [
  | inl e ↦ rw e (ground (arith, retain-weaker p q vs h))
  | inr e ↦ rw (e, h v e) (retain-weaker p q vs h)
]

-- The array at an event, and the hooks of a settings value.
abbrev pub entries : Option Value → Values
entries o = unwrap_or (and_then o as_array) empty

abbrev pub hooks_of : Value → Fields
hooks_of v = unwrap_or (and_then (get_key v "hooks") as_object) no_fields

abbrev pub entries_at : String → Value → Values
entries_at event v = entries (field_of (hooks_of v) event)
