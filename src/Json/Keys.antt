-- ===== src/Json/Keys.antt =====
-- The keys of an object when a key that it has is written again.
use printer_hmi_remote.Prelude.{
  String, none, some, if◌then◌else◌, ◌≡◌, refl, Bool, true, false, List, [], ◌∷◌, all, arith,
  eq_iff, str_eq,
}
use printer_hmi_remote.Json.{
  Value, Fields, end, field, lookup, insert, keys, has, member, same_keys, get, pop, or_null,
}
use printer_hmi_remote.Json.Laws.{lookup-insert, IsJson, IsJsonFields}

keys-insert :
    (k : String) (v : Value) (fs : Fields) → has k fs ≡ true → keys (insert k v fs) ≡ keys fs
unfolding keys insert lookup
keys-insert k v end h = cc
keys-insert k v (field j w fs) h = ground (arith, eq_iff j k, keys-insert k v fs)

has-insert :
    (k j : String) (v : Value) (fs : Fields) → has k fs ≡ true → has j (insert k v fs) ≡ has j fs
has-insert k j v fs h = ground (arith, lookup-insert k j v fs, eq_iff k j)

all-has-insert :
    (k : String) (v : Value) (fs : Fields) (names : List String)
    → has k fs ≡ true
    → all (λ j. has j (insert k v fs)) names ≡ all (λ j. has j fs) names
all-has-insert k v fs [] h = refl
all-has-insert k v fs (j ∷ js) h = rw (has-insert k j v fs h, all-has-insert k v fs js h) refl

-- Writing a key that is there leaves the set of keys as it was.
pub same_keys-insert :
    (k : String) (v : Value) (fs : Fields) (names : List String)
    → has k fs ≡ true
    → same_keys (insert k v fs) names ≡ same_keys fs names
unfolding same_keys
same_keys-insert k v fs names h = rw (all-has-insert k v fs names h, keys-insert k v fs h) refl

has_of_all :
    (k : String) (fs : Fields) (names : List String)
    → all (λ j. has j fs) names ≡ true
    → member k names ≡ true
    → has k fs ≡ true
unfolding member
has_of_all k fs [] h m = cc
has_of_all k fs (j ∷ js) h m = ground (arith, eq_iff j k, has_of_all k fs js)

-- A key that is one of the expected ones is there.
pub has_of_same_keys :
    (k : String) (fs : Fields) (names : List String)
    → same_keys fs names ≡ true
    → member k names ≡ true
    → has k fs ≡ true
unfolding same_keys
has_of_same_keys k fs names h m = has_of_all k fs names (ground arith) m

if-keeps : {A : Type 0} (P : A → Type 0) (b : Bool) (x y : A) → P x → P y → P (if b then x else y)
if-keeps P true x y h g = h
if-keeps P false x y h g = g

-- What an object with distinct keys holds has distinct keys too.
pub get-IsJson : (k : String) (fs : Fields) → IsJsonFields fs → IsJson (get k fs)
unfolding lookup IsJson
get-IsJson k end h = tt
get-IsJson k (field j v fs) h =
    if-keeps (λ o. IsJson (or_null o)) (str_eq j k) (some v) (lookup k fs) h.1 (get-IsJson k fs h.2)

-- A key that was popped is not found.
pub lookup-pop : (k : String) (fs : Fields) → IsJsonFields fs → lookup k (pop k fs) ≡ none
unfolding lookup pop IsJson
lookup-pop k end h = refl
lookup-pop k (field j v fs) h = ground (arith, eq_iff j k, lookup-pop k fs h.2, h.0)
