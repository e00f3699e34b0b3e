-- ===== src/Json/Laws.antt =====
-- Laws of documents: every document whose objects have distinct keys equals itself.
use printer_hmi_remote.Prelude.{
  String, ◌≡◌, refl, true, false, none, some, arith, str_eq, eq_iff, eq_refl, ==_refl,
  if◌then◌else◌,
}
use printer_hmi_remote.Prelude.Int.{eq_ℤ_refl, millions}
use printer_hmi_remote.Json.{
  Value, null, bool, int, float, str, arr, obj, Items, nil, cons, Fields, end, field, lookup,
  insert, count, py_eq, eq_fields, eq_items, unit_if,
}

-- Every object in the document has distinct keys, as in every `dict`.
unfoldable mutual
  pub IsJson : Value → Type 0
  IsJson null = Unit
  IsJson (bool b) = Unit
  IsJson (int n) = Unit
  IsJson (float m) = Unit
  IsJson (str s) = Unit
  IsJson (arr xs) = IsJsonItems xs
  IsJson (obj fs) = IsJsonFields fs

  pub IsJsonItems : Items → Type 0
  IsJsonItems nil = Unit
  IsJsonItems (cons v vs) = IsJson v × IsJsonItems vs

  pub IsJsonFields : Fields → Type 0
  IsJsonFields end = Unit
  IsJsonFields (field k v fs) = (lookup k fs ≡ none) × IsJson v × IsJsonFields fs

-- Each entry of the first object is found in the second.
abbrev Within : Fields → Fields → Type 0
Within end gs = Unit
Within (field k v fs) gs = (lookup k gs ≡ some v) × Within fs gs

-- A key found in `fs` is not one that `fs` lacks.
abbrev Avoids : String → Fields → Type 0
Avoids k end = Unit
Avoids k (field j v fs) = (str_eq k j ≡ false) × Avoids k fs

pub str_eq_sym : (j k : String) → str_eq j k ≡ str_eq k j
str_eq_sym j k = ground (arith, eq_iff j k, eq_iff k j)

lookup-Avoids : (k : String) (fs : Fields) → lookup k fs ≡ none → Avoids k fs
unfolding lookup
lookup-Avoids k end h = tt
lookup-Avoids k (field j v fs) h =
    (ground (arith, str_eq_sym j k), lookup-Avoids k fs (ground arith))

Within-field :
    (k : String) (w : Value) (fs gs : Fields)
    → Avoids k fs
    → Within fs gs
    → Within fs (field k w gs)
unfolding lookup
Within-field k w end gs a h = tt
Within-field k w (field j v fs) gs a h = (ground (arith), Within-field k w fs gs a.1 h.1)

Within-refl : (fs : Fields) → IsJsonFields fs → Within fs fs
unfolding lookup IsJson
Within-refl end h = tt
Within-refl (field k v fs) h = (
  ground (arith, eq_refl k),
  Within-field k v fs fs (lookup-Avoids k fs h.0) (Within-refl fs h.2),
)

mutual
  unfolding py_eq IsJson

  py_eq_same : (v : Value) → IsJson v → py_eq v v ≡ true
  py_eq_same null h = refl
  py_eq_same (bool b) h = eq_ℤ_refl (unit_if b)
  py_eq_same (int n) h = eq_ℤ_refl (millions n)
  py_eq_same (float m) h = eq_ℤ_refl m
  py_eq_same (str s) h = eq_refl s
  py_eq_same (arr xs) h = eq_items_same xs h
  py_eq_same (obj fs) h =
      ground (arith, ==_refl (count fs), eq_fields-Within fs fs h (Within-refl fs h))

  eq_items_same : (xs : Items) → IsJsonItems xs → eq_items xs xs ≡ true
  eq_items_same nil h = refl
  eq_items_same (cons x xs) h = ground (arith, py_eq_same x h.0, eq_items_same xs h.1)

  eq_fields-Within : (fs gs : Fields) → IsJsonFields fs → Within fs gs → eq_fields fs gs ≡ true
  eq_fields-Within end gs h w = refl
  eq_fields-Within (field k v fs) gs h w =
      ground (arith, w.0, py_eq_same v h.1, eq_fields-Within fs gs h.2 w.1)

pub py_eq_refl : (v : Value) → IsJson v → py_eq v v ≡ true
py_eq_refl v h = py_eq_same v h

-- Reading back what was written, under the same key and under another.
pub lookup-insert :
    (k j : String) (v : Value) (fs : Fields)
    → lookup j (insert k v fs) ≡ (if str_eq k j then some v else lookup j fs)
unfolding lookup insert
lookup-insert k j v end = refl
lookup-insert k j v (field i w fs) =
    ground (arith, eq_iff k j, eq_iff i k, eq_iff i j, lookup-insert k j v fs)
