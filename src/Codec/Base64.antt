-- ===== src/Codec/Base64.antt =====
-- `_encode` and `_decode`: base64 with the URL alphabet and no padding, over lists of byte values.
pub mod RoundTrip
use Prim.Native.Char.{Char}
use printer_hmi_remote.Prelude.{
  ℕ, zero, suc, ◌+◌, ◌-◌, ◌*◌, ◌/◌, ◌%◌, ◌<◌, String, Bool, ◌&&◌, ◌||◌, Option, none, some, List,
  [], ◌∷◌, ◌++◌, ◌==◌, leb, length, All, codes, if◌then◌else◌,
}

abbrev pub Bytes : Type 0
Bytes = List ℕ

abbrev pub IsBytes : Bytes → Type 0
IsBytes = All (λ b. b < 256)

abbrev pub alphabet : String
alphabet = "ABCDEFGHIJKLMNOPQRSTUVWXYZabcdefghijklmnopqrstuvwxyz0123456789-_"

-- The character of a text at a position.
unfoldable pub pick : String → ℕ → Char
pick String.[] n = "A"
pick (String.◌∷◌ c s) zero = c
pick (String.◌∷◌ c s) (suc n) = pick s n

abbrev pub digit : ℕ → Char
digit n = pick alphabet n

-- `base64.urlsafe_b64encode(value).rstrip(b"=")`
unfoldable pub encode : Bytes → String
encode [] = String.[]
encode (a ∷ []) = String.◌∷◌ (digit (a / 4)) (String.◌∷◌ (digit (a % 4 * 16)) String.[])
encode (a ∷ b ∷ []) =
    String.◌∷◌ (digit (a / 4))
      (String.◌∷◌ (digit (a % 4 * 16 + b / 16)) (String.◌∷◌ (digit (b % 16 * 4)) String.[]))
encode (a ∷ b ∷ c ∷ rest) = String.◌∷◌ (digit (a / 4)) (
    String.◌∷◌ (digit (a % 4 * 16 + b / 16))
      (String.◌∷◌ (digit (b % 16 * 4 + c / 64)) (String.◌∷◌ (digit (c % 64)) (encode rest))))

-- The value of a digit. `altchars=b"-_"` maps `-` and `_` to `+` and `/`, which count too.
unfoldable pub digit_value : ℕ → Option ℕ
digit_value c =
    if leb b'A' c && leb c b'Z'
    then some (c - 65)
    else if leb b'a' c && leb c b'z'
    then some (c - 71)
    else if leb b'0' c && leb c b'9'
    then some (c + 4)
    else if c == 45 || c == 43
    then some 62
    else if c == 95 || c == 47
    then some 63
    else none

infixl 5 ◌>>=◌
abbrev ◌>>=◌ : {A B : Type 0} → Option A → (A → Option B) → Option B
none >>= f = none
some a >>= f = f a

-- A last group of two digits and `==`, or of three and `=`.
abbrev one_byte : ℕ → ℕ → Option Bytes
one_byte w x = do w' ← digit_value w; x' ← digit_value x; some ((w' * 4 + x' / 16) ∷ [])

abbrev two_bytes : ℕ → ℕ → ℕ → Option Bytes
two_bytes w x y = do
  w' ← digit_value w
  x' ← digit_value x
  y' ← digit_value y
  some ((w' * 4 + x' / 16) ∷ (x' % 16 * 16 + y' / 4) ∷ [])

abbrev three_bytes : ℕ → ℕ → ℕ → ℕ → Option Bytes → Option Bytes
three_bytes w x y z more = do
  w' ← digit_value w
  x' ← digit_value x
  y' ← digit_value y
  z' ← digit_value z
  rest ← more
  some ((w' * 4 + x' / 16) ∷ (x' % 16 * 16 + y' / 4) ∷ (y' % 4 * 64 + z') ∷ rest)

-- Padding stands at the end only.
abbrev last_only : List ℕ → Option Bytes → Option Bytes
last_only [] o = o
last_only (c ∷ cs) o = none

-- `base64.b64decode(…, validate=True)` on whole groups of four; `none` is its `ValueError`.
unfoldable pub decode_groups : List ℕ → Option Bytes
decode_groups [] = some []
decode_groups (w ∷ x ∷ y ∷ z ∷ rest) =
    let more = decode_groups rest in
    if z == b'='
    then last_only rest (if y == b'=' then one_byte w x else two_bytes w x y)
    else three_bytes w x y z more
decode_groups _ = none

-- `"=" * (-len(value) % 4)`
unfoldable pub padding : ℕ → List ℕ
padding n =
    if n % 4 == 0
    then []
    else if n % 4 == 1
    then b'=' ∷ b'=' ∷ b'=' ∷ []
    else if n % 4 == 2
    then b'=' ∷ b'=' ∷ []
    else b'=' ∷ []

unfoldable pub decode : String → Option Bytes
unfolding decode_groups padding digit_value
decode value = decode_groups (codes value ++ padding (length (codes value)))
