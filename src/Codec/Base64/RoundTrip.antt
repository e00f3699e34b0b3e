-- ===== src/Codec/Base64/RoundTrip.antt =====
-- Decoding what was encoded.
use Prim.Native.Char.{code}
use printer_hmi_remote.Prelude.{
  ℕ, zero, suc, ◌+◌, ◌*◌, ◌/◌, ◌%◌, ◌<◌, ◌≡◌, refl, Bool, true, false, not, ◌&&◌, Option, none,
  some, List, [], ◌∷◌, ◌++◌, arith, ◌==◌, length, codes,
}
use printer_hmi_remote.Codec.Base64.{
  Bytes, IsBytes, digit, digit_value, encode, decode, decode_groups, padding, pick,
}

-- The digit of each value below 64 is not the padding and has that value.
digit_works : ℕ → Bool
digit_works n =
    elim (digit_value (code (digit n))) [ none ↦ false | some m ↦ m == n ]
    && not (code (digit n) == 61)

-- Every digit less than a bound works.
digits_work : ℕ → Bool
digits_work zero = true
digits_work (suc bound) = digits_work bound && digit_works bound

digit_works_below : (bound d : ℕ) → d < bound → digits_work bound ≡ true → digit_works d ≡ true
unfolding digits_work
digit_works_below zero d less table = absurd (omega arith)
digit_works_below (suc bound) d less table = ground (arith, digit_works_below bound d)

digit_table : digits_work 64 ≡ true
unfolding digits_work digit_works digit_value pick
digit_table = refl

digit_works_facts :
    (o : Option ℕ) (n : ℕ) (b : Bool)
    → (elim o [ none ↦ false | some m ↦ m == n ] && not b) ≡ true
    → (o ≡ some n) × (b ≡ false)
digit_works_facts o n b h = ground arith

digit_value-digit :
    (n : ℕ) → n < 64 → (digit_value (code (digit n)) ≡ some n) × ((code (digit n) == 61) ≡ false)
unfolding digit_works
digit_value-digit n h =
    digit_works_facts (digit_value (code (digit n))) n (code (digit n) == 61)
      (digit_works_below 64 n h digit_table)

padding-add_four : (n : ℕ) → padding (suc (suc (suc (suc n)))) ≡ padding n
unfolding padding
padding-add_four n = ground arith

-- One whole group, with `cs` after it.
group :
    (a b c : ℕ) (cs : List ℕ) (bs : Bytes)
    → a < 256
    → b < 256
    → c < 256
    → decode_groups cs ≡ some bs
    → decode_groups (
        code (digit (a / 4))
        ∷ code (digit (a % 4 * 16 + b / 16))
        ∷ code (digit (b % 16 * 4 + c / 64))
        ∷ code (digit (c % 64))
        ∷ cs)
      ≡ some (a ∷ b ∷ c ∷ bs)
unfolding decode_groups
group a b c cs bs ha hb hc e =
    let f1 = digit_value-digit (a / 4) (omega arith) in
    let f2 = digit_value-digit (a % 4 * 16 + b / 16) (omega arith) in
    let f3 = digit_value-digit (b % 16 * 4 + c / 64) (omega arith) in
    let f4 = digit_value-digit (c % 64) (omega arith) in
    rw (f4.1, f1.0, f2.0, f3.0, f4.0, e) (ground arith)

two :
    (a b : ℕ)
    → a < 256
    → b < 256
    → decode_groups (
        code (digit (a / 4))
        ∷ code (digit (a % 4 * 16 + b / 16))
        ∷ code (digit (b % 16 * 4))
        ∷ 61
        ∷ [])
      ≡ some (a ∷ b ∷ [])
unfolding decode_groups
two a b ha hb =
    let f1 = digit_value-digit (a / 4) (omega arith) in
    let f2 = digit_value-digit (a % 4 * 16 + b / 16) (omega arith) in
    let f3 = digit_value-digit (b % 16 * 4) (omega arith) in
    rw (f3.1, f1.0, f2.0, f3.0) (ground arith)

one :
    (a : ℕ)
    → a < 256
    → decode_groups (code (digit (a / 4)) ∷ code (digit (a % 4 * 16)) ∷ 61 ∷ 61 ∷ [])
      ≡ some (a ∷ [])
unfolding decode_groups
one a ha =
    let f1 = digit_value-digit (a / 4) (omega arith) in
    let f2 = digit_value-digit (a % 4 * 16) (omega arith) in rw (f1.0, f2.0) (ground arith)

decode_padded :
    (bs : Bytes)
    → IsBytes bs
    → decode_groups (codes (encode bs) ++ padding (length (codes (encode bs)))) ≡ some bs
unfolding encode
decode_padded [] h = unfold padding decode_groups in refl
decode_padded (a ∷ []) h = unfold padding in one a h.0
decode_padded (a ∷ b ∷ []) h = unfold padding in two a b h.0 h.1.0
decode_padded (a ∷ b ∷ c ∷ rest) h = rw padding-add_four (
    group a b c (codes (encode rest) ++ padding (length (codes (encode rest)))) rest h.0 h.1.0
      h.1.1.0 (decode_padded rest h.1.1.1))

-- Every list of byte values comes back from its encoding.
pub decode-encode : (bs : Bytes) → IsBytes bs → decode (encode bs) ≡ some bs
unfolding decode
decode-encode bs h = decode_padded bs h
