-- ===== src/Json.antt =====
-- The documents that the program exchanges: what Python's `json.loads` returns, and the operations
-- of `dict`, `list` and `==` that the program applies to them.
pub mod Laws
pub mod Canonical
pub mod Keys
use printer_hmi_remote.Prelude.{
  ℕ, suc, String, Bool, true, false, not, ◌&&◌, ◌||◌, Option, none, some, List, [], ◌∷◌, ◌==◌,
  str_eq, all, if◌then◌else◌,
}
use printer_hmi_remote.Prelude.Int.{ℤ, pos, millions, eq_ℤ}

-- A number with a fraction is held as a whole number of millionths. The fields of an object stand
-- in the order of the `dict`.
mutual
  pub data Fields : Type 0 where
    end : Fields
    field : String → Value → Fields → Fields

  pub data Items : Type 0 where
    nil : Items
    cons : Value → Items → Items

  pub data Value : Type 0 where
    null : Value
    bool : Bool → Value
    int : ℤ → Value
    float : ℤ → Value
    str : String → Value
    arr : Items → Value
    obj : Fields → Value

-- `d[k]`, where a missing key is `none`.
unfoldable pub lookup : String → Fields → Option Value
lookup k end = none
lookup k (field j v fs) = if str_eq j k then some v else lookup k fs

abbrev pub or_null : Option Value → Value
or_null none = null
or_null (some v) = v

-- `d.get(k)`
abbrev pub get : String → Fields → Value
get k fs = or_null (lookup k fs)

abbrev pub is_some : Option Value → Bool
is_some none = false
is_some (some v) = true

-- `k in d`
abbrev pub has : String → Fields → Bool
has k fs = is_some (lookup k fs)

-- `d[k] = v`
unfoldable pub insert : String → Value → Fields → Fields
insert k v end = field k v end
insert k v (field j w fs) = if str_eq j k then field k v fs else field j w (insert k v fs)

-- `d.pop(k)` of a key that is there.
unfoldable pub pop : String → Fields → Fields
pop k end = end
pop k (field j w fs) = if str_eq j k then fs else field j w (pop k fs)

unfoldable pub keys : Fields → List String
keys end = []
keys (field k v fs) = k ∷ keys fs

-- `k in names`
unfoldable pub member : String → List String → Bool
member k [] = false
member k (j ∷ js) = str_eq j k || member k js

-- `set(d) == names`
unfoldable pub same_keys : Fields → List String → Bool
unfolding keys member
same_keys fs names = all (λ k. has k fs) names && all (λ k. member k names) (keys fs)

unfoldable pub count : Fields → ℕ
count end = 0
count (field k v fs) = suc (count fs)

-- `isinstance(v, str)` and so on, with the value when it holds.
abbrev pub as_str : Value → Option String
as_str (str s) = some s
as_str _ = none

abbrev pub as_dict : Value → Option Fields
as_dict (obj fs) = some fs
as_dict _ = none

abbrev pub as_list : Value → Option Items
as_list (arr xs) = some xs
as_list _ = none

abbrev pub as_bool : Value → Option Bool
as_bool (bool b) = some b
as_bool _ = none

-- `isinstance(v, int) and not isinstance(v, bool)`
abbrev pub as_int : Value → Option ℤ
as_int (int n) = some n
as_int _ = none

-- `isinstance(v, (int, float)) and not isinstance(v, bool)`, with `float(v)` in millionths.
abbrev pub as_number : Value → Option ℤ
as_number (int n) = some (millions n)
as_number (float m) = some m
as_number _ = none

abbrev pub unit_if : Bool → ℤ
unit_if true = pos 1000000
unit_if false = pos 0

-- The value of a number in millionths. To `==` a `bool` is a number.
abbrev pub numeric : Value → Option ℤ
numeric (bool b) = some (unit_if b)
numeric (int n) = some (millions n)
numeric (float m) = some m
numeric _ = none

abbrev pub eq_number : ℤ → Value → Bool
eq_number m v = elim (numeric v) [ none ↦ false | some n ↦ eq_ℤ m n ]

-- `bool(v)`
unfoldable pub truthy : Value → Bool
truthy null = false
truthy (bool b) = b
truthy (int n) = not (eq_ℤ n (pos 0))
truthy (float m) = not (eq_ℤ m (pos 0))
truthy (str s) = not (str_eq s "")
truthy (arr nil) = false
truthy (arr (cons v vs)) = true
truthy (obj end) = false
truthy (obj (field k v fs)) = true

-- Python's `==`. Two objects are equal when they have the same keys with equal values, in any order.
unfoldable mutual
  pub py_eq : Value → Value → Bool
  py_eq null w = elim w [ null ↦ true | _ ↦ false ]
  py_eq (bool b) w = eq_number (unit_if b) w
  py_eq (int n) w = eq_number (millions n) w
  py_eq (float m) w = eq_number m w
  py_eq (str s) w = elim w [ str t ↦ str_eq s t | _ ↦ false ]
  py_eq (arr xs) w = elim w [ arr ys ↦ eq_items xs ys | _ ↦ false ]
  py_eq (obj fs) w = elim w [ obj gs ↦ (count fs == count gs) && eq_fields fs gs | _ ↦ false ]

  pub eq_items : Items → Items → Bool
  eq_items nil ys = elim ys [ nil ↦ true | _ ↦ false ]
  eq_items (cons x xs) ys = elim ys [ nil ↦ false | cons y zs ↦ py_eq x y && eq_items xs zs ]

  pub eq_fields : Fields → Fields → Bool
  eq_fields end gs = true
  eq_fields (field k v fs) gs =
      elim (lookup k gs) [ none ↦ false | some w ↦ py_eq v w ] && eq_fields fs gs

-- `v == 1` and `v == "text"`
abbrev pub is_one : Value → Bool
is_one v = eq_number (pos 1000000) v

abbrev pub is_text : String → Value → Bool
is_text s v = elim v [ str t ↦ str_eq t s | _ ↦ false ]
