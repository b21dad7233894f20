-- ===== src/Json.antt =====
-- JSON values, as the runtime modules take them: what `json.loads` gives, with integers split by
-- sign and no content kept of a float: where the code tests one for truth, it is taken not to be zero.
use super_memory_brain.Base.{
  not, eqb, true, false, ℕ, suc, String, Bool, Option, none, some, ◌==◌, if◌then◌else◌, List, [],
  ◌∷◌, ◌&&◌, member,
}

mutual
  pub data Value : Type 0 where
    null : Value
    bool : Bool → Value
    int : ℕ → Value
    negative : ℕ → Value
    float : Value
    text : String → Value
    arr : Items → Value
    obj : Fields → Value

  pub data Items : Type 0 where
    end : Items
    item : Value → Items → Items

  pub data Fields : Type 0 where
    none_left : Fields
    field : String → Value → Fields → Fields

-- `len(list)`
abbrev pub count : Items → ℕ
count end = 0
count (item v items) = suc (count items)

-- `d[name] if name in d`
unfoldable pub find : String → Fields → Option Value
find name none_left = none
find name (field key value fields) = if key == name then some value else find name fields

-- `d.get(name)`
unfoldable pub get_or_null : String → Fields → Value
unfolding find
get_or_null name fields = elim (find name fields) [ none ↦ null | some value ↦ value ]

-- Python's `str` of a value that is no string, and `str.lower` and `str.casefold`.
pub record Python : Type 0 where
  pub str : Value → String
  pub lower : String → String
  pub casefold : String → String

abbrev pub to_text : Python → Value → String
to_text py (text s) = s
to_text py null = py.str null
to_text py (bool b) = py.str (bool b)
to_text py (int n) = py.str (int n)
to_text py (negative n) = py.str (negative n)
to_text py float = py.str float
to_text py (arr xs) = py.str (arr xs)
to_text py (obj fs) = py.str (obj fs)

-- Whether `value or ""` is `""`. A float is taken not to be zero.
abbrev pub is_falsy : Value → Bool
is_falsy null = true
is_falsy (bool b) = not b
is_falsy (int n) = eqb n 0
is_falsy (negative n) = false
is_falsy float = false
is_falsy (text s) = s == ""
is_falsy (arr end) = true
is_falsy (arr (item v items)) = false
is_falsy (obj none_left) = true
is_falsy (obj (field key v fields)) = false

-- `value is True`
abbrev pub is_true : Value → Bool
is_true (bool b) = b
is_true null = false
is_true (int n) = false
is_true (negative n) = false
is_true float = false
is_true (text s) = false
is_true (arr xs) = false
is_true (obj fs) = false

-- `value is False`
abbrev pub is_false : Value → Bool
is_false (bool b) = not b
is_false null = false
is_false (int n) = false
is_false (negative n) = false
is_false float = false
is_false (text s) = false
is_false (arr xs) = false
is_false (obj fs) = false

-- `value == s`
abbrev pub is_text : String → Value → Bool
is_text s (text t) = t == s
is_text s null = false
is_text s (bool b) = false
is_text s (int n) = false
is_text s (negative n) = false
is_text s float = false
is_text s (arr xs) = false
is_text s (obj fs) = false

-- `value if isinstance(value, Mapping) else {}`
abbrev pub fields_of : Value → Fields
fields_of (obj fs) = fs
fields_of null = none_left
fields_of (bool b) = none_left
fields_of (int n) = none_left
fields_of (negative n) = none_left
fields_of float = none_left
fields_of (text s) = none_left
fields_of (arr xs) = none_left

-- `value if isinstance(value, list) else []`
abbrev pub items_of : Value → Items
items_of (arr xs) = xs
items_of null = end
items_of (bool b) = end
items_of (int n) = end
items_of (negative n) = end
items_of float = end
items_of (text s) = end
items_of (obj fs) = end

unfoldable pub has_only : List String → Fields → Bool
has_only names none_left = true
has_only names (field key value fields) = member key names && has_only names fields

unfoldable pub has_all : List String → Fields → Bool
unfolding find
has_all [] fields = true
has_all (name ∷ names) fields =
    elim (find name fields) [ none ↦ false | some _ ↦ true ] && has_all names fields

-- `set(d) == {...}`
unfoldable pub has_exactly : List String → Fields → Bool
unfolding has_only has_all
has_exactly names fields = has_only names fields && has_all names fields

-- `{key: item for key, item in d.items() if key != name}`
unfoldable pub without_field : String → Fields → Fields
without_field name none_left = none_left
without_field name (field key value fields) =
    let rest = without_field name fields in if key == name then rest else field key value rest
