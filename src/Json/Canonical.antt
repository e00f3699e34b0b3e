-- ===== src/Json/Canonical.antt =====
-- `_canonical`: `json.dumps(…, separators=(",", ":"), sort_keys=True, ensure_ascii=True)`, as bytes.
use Prim.Native.Nat.{Ordering}
use Prim.Native.String.{compare}
use printer_hmi_remote.Prelude.{
  ℕ, zero, suc, ◌+◌, ◌-◌, ◌/◌, ◌%◌, String, ◌&&◌, List, [], ◌∷◌, ◌++◌, ◌==◌, ltb, ◌||◌, leb, codes,
  if◌then◌else◌,
}
use printer_hmi_remote.Prelude.Int.{ℤ, pos, negsuc}
use printer_hmi_remote.Json.{
  Value, null, bool, int, float, str, arr, obj, Items, nil, cons, Fields, end, field,
}
use printer_hmi_remote.Codec.Base64.{Bytes}
use printer_hmi_remote.Platform.{Platform}

-- The keys of an object in order, its entries being in order already.
insert_sorted : String → Value → Fields → Fields
insert_sorted k v end = field k v end
insert_sorted k v (field j w fs) =
    let rest = field j w (insert_sorted k v fs) in
    elim (compare k j) [ Ordering.gt ↦ rest | _ ↦ field k v (field j w fs) ]

unfoldable mutual
  unfolding insert_sorted

  pub sorted : Value → Value
  sorted (arr xs) = arr (sorted_items xs)
  sorted (obj fs) = obj (sorted_fields fs)
  sorted v = v

  pub sorted_items : Items → Items
  sorted_items nil = nil
  sorted_items (cons x xs) = cons (sorted x) (sorted_items xs)

  pub sorted_fields : Fields → Fields
  sorted_fields end = end
  sorted_fields (field k v fs) = insert_sorted k (sorted v) (sorted_fields fs)

hex_digit : ℕ → ℕ
hex_digit n = if ltb n 10 then 48 + n else 87 + n

-- `\uXXXX`
unicode_escape : ℕ → Bytes
unfolding hex_digit
unicode_escape c =
    b'\\'
    ∷ b'u'
    ∷ hex_digit (c / 4096 % 16)
    ∷ hex_digit (c / 256 % 16)
    ∷ hex_digit (c / 16 % 16)
    ∷ hex_digit (c % 16)
    ∷ []

escape : ℕ → Bytes
unfolding unicode_escape
escape c =
    if c == 34 || c == 92
    then 92 ∷ c ∷ []
    else if c == 10
    then 92 ∷ b'n' ∷ []
    else if c == 13
    then 92 ∷ b'r' ∷ []
    else if c == 9
    then 92 ∷ b't' ∷ []
    else if c == 12
    then 92 ∷ b'f' ∷ []
    else if c == 8
    then 92 ∷ b'b' ∷ []
    else if leb 32 c && leb c 126
    then c ∷ []
    else if ltb c 65536
    then unicode_escape c
    else (unicode_escape (55296 + (c - 65536) / 1024 % 1024)
        ++ unicode_escape (56320 + (c - 65536) % 1024))

escape_all : List ℕ → Bytes
unfolding escape
escape_all [] = []
escape_all (c ∷ cs) = escape c ++ escape_all cs

unfoldable pub dump_text : String → Bytes
unfolding escape_all
dump_text s = 34 ∷ (escape_all (codes s) ++ (34 ∷ []))

-- The decimal digits of a number below `10 ^ fuel`.
decimal_from : ℕ → ℕ → Bytes → Bytes
decimal_from zero n acc = acc
decimal_from (suc fuel) n acc =
    let rest = decimal_from fuel (n / 10) ((48 + n % 10) ∷ acc) in
    if ltb n 10 then (48 + n) ∷ acc else rest

decimal : ℕ → Bytes
unfolding decimal_from
decimal n = decimal_from (suc n) n []

dump_int : ℤ → Bytes
unfolding decimal
dump_int (pos n) = decimal n
dump_int (negsuc n) = b'-' ∷ decimal (n + 1)

module _ (p : Platform) where
  unfoldable mutual
    unfolding dump_text dump_int

    pub dump : Value → Bytes
    dump null = codes "null"
    dump (bool b) = if b then codes "true" else codes "false"
    dump (int n) = dump_int n
    dump (float m) = p.float_repr m
    dump (str s) = dump_text s
    dump (arr xs) = b'[' ∷ dump_items xs
    dump (obj fs) = b'{' ∷ dump_fields fs

    pub dump_items : Items → Bytes
    dump_items nil = b']' ∷ []
    dump_items (cons x xs) = dump x ++ dump_more_items xs

    pub dump_more_items : Items → Bytes
    dump_more_items nil = b']' ∷ []
    dump_more_items (cons x xs) = b',' ∷ (dump x ++ dump_more_items xs)

    pub dump_fields : Fields → Bytes
    dump_fields end = b'}' ∷ []
    dump_fields (field k v fs) = dump_text k ++ (b':' ∷ (dump v ++ dump_more_fields fs))

    pub dump_more_fields : Fields → Bytes
    dump_more_fields end = b'}' ∷ []
    dump_more_fields (field k v fs) =
        b',' ∷ (dump_text k ++ (b':' ∷ (dump v ++ dump_more_fields fs)))

  unfoldable pub canonical : Value → Bytes
  unfolding dump sorted
  canonical v = dump (sorted v)
