-- ===== src/Transport/Retry.antt =====
-- relay_transport.py: `retry_delays` and the loop of `send_with_retries`.
pub mod Budget
use native.Mathlib.Nat.{pow-suc}
use printer_hmi_remote.Prelude.{
  ℕ, zero, suc, ◌+◌, ◌-◌, ◌*◌, ◌^◌, ◌≤◌, ◌<◌, min, ◌≡◌, Bool, true, false, ◌||◌, Option, none, some,
  List, [], ◌∷◌, ◌++◌, arith, ◌==◌, ltb, length, All, refl, ap, if◌then◌else◌, Error, transport,
  other, value, Result, ok, err, raise_if, ◌>>◌,
}
use printer_hmi_remote.Prelude.Int.{ℤ, pos, negsuc}
use printer_hmi_remote.Action.{Action}

-- Delays are in microseconds.
delay : ℕ → ℕ → ℕ → ℕ
delay base maximum attempt = min maximum (base * 2 ^ attempt)

delays_from : ℕ → ℕ → ℕ → ℕ → List ℕ
unfolding delay
delays_from base maximum attempt zero = []
delays_from base maximum attempt (suc n) =
    delay base maximum attempt ∷ delays_from base maximum (attempt + 1) n

-- The base is a float, and `2 ** attempt` is made one to multiply it: the greatest power of two that is
-- a float is that of 1023. A product that is too large is the infinite float, above any maximum.
abbrev pub max_retries : ℕ
max_retries = 1024

unfoldable pub retry_delays : ℤ → ℕ → ℕ → Result (List ℕ)
unfolding delays_from
retry_delays (negsuc n) base maximum = err (value "invalid retry policy")
retry_delays (pos attempts) base maximum =
    if base == 0 || maximum == 0
    then err (value "invalid retry policy")
    else if ltb max_retries attempts
    then err (other "OverflowError")
    else ok (delays_from base maximum 0 attempts)

abbrev pub default_base : ℕ
default_base = 1000000

abbrev pub default_maximum : ℕ
default_maximum = 30000000

abbrev get_elem? : List ℕ → ℕ → Option ℕ
get_elem? [] i = none
get_elem? (x ∷ xs) zero = some x
get_elem? (x ∷ xs) (suc i) = get_elem? xs i

abbrev pub exhausted : Error
exhausted = transport "relay retry budget exhausted"

module _ {S A : Type 0} (send : Action S A) where
  -- The store of the sender, and the delays slept so far.
  abbrev slept : Option ℕ → List ℕ → List ℕ
  slept none log = log
  slept (some d) log = log ++ (d ∷ [])

  -- One attempt of the loop: only a `RelayTransportError` is caught.
  attempts_from : ℕ → ℕ → List ℕ → S → List ℕ → Result A × S × List ℕ
  attempts_from zero attempt delays s log = (err exhausted, s, log)
  attempts_from (suc n) attempt delays s log =
      let outcome = send s in
      let again =
        attempts_from n (attempt + 1) delays outcome.1 (slept (get_elem? delays attempt) log) in
      elim outcome.0 [
        | ok a ↦ (ok a, outcome.1, log)
        | err e ↦ elim e [ transport _ ↦ again | other_error ↦ (err other_error, outcome.1, log) ]
      ]

  abbrev with_delays : ℕ → S → Result (List ℕ) → Result A × S × List ℕ
  with_delays attempts s (ok delays) = attempts_from attempts 0 delays s []
  with_delays attempts s (err e) = (err e, s, [])

  unfoldable pub send_with_retries : ℕ → S → Result A × S × List ℕ
  unfolding attempts_from
  send_with_retries attempts s =
      if attempts == 0
      then (err (value "attempts must be positive"), s, [])
      else with_delays attempts s (retry_delays (pos (attempts - 1)) default_base default_maximum)

delays_from-length : (base maximum attempt n : ℕ) → length (delays_from base maximum attempt n) ≡ n
unfolding delays_from
delays_from-length base maximum attempt zero = refl
delays_from-length base maximum attempt (suc n) =
    ap suc (delays_from-length base maximum (attempt + 1) n)

two_pow_pos : (n : ℕ) → 0 < 2 ^ n
two_pow_pos zero = omega arith
two_pow_pos (suc n) = grind (arith, two_pow_pos n, pow-suc)

delay_bounds :
    (base maximum attempt : ℕ)
    → 0 < base
    → 0 < maximum
    → (0 < delay base maximum attempt) × (delay base maximum attempt ≤ maximum)
unfolding delay
delay_bounds base maximum attempt hb hm = grind (arith, two_pow_pos attempt)

delays_from-bounds :
    (base maximum attempt n : ℕ)
    → 0 < base
    → 0 < maximum
    → All (λ d. (0 < d) × (d ≤ maximum)) (delays_from base maximum attempt n)
unfolding delays_from
delays_from-bounds base maximum attempt zero hb hm = tt
delays_from-bounds base maximum attempt (suc n) hb hm =
    (delay_bounds base maximum attempt hb hm, delays_from-bounds base maximum (attempt + 1) n hb hm)
