-- ===== src/Transport/Retry/Budget.antt =====
-- relay_transport.py: what the retries of `send_with_retries` cost.
use printer_hmi_remote.Prelude.{
  ℕ, zero, suc, ◌+◌, ◌-◌, ◌≤◌, ◌<◌, ◌≡◌, refl, Bool, true, false, List, [], ◌∷◌, arith, length,
  length-append, String, Error, not, Result, transport, ok, err, ltb, if◌then◌else◌, All, min, ◌==◌,
}
use printer_hmi_remote.Prelude.Int.{pos}
use printer_hmi_remote.Action.{Action}
use printer_hmi_remote.Transport.Retry.{
  get_elem?, delays_from, delays_from-length, delays_from-bounds, retry_delays, default_base,
  default_maximum, exhausted, max_retries, slept, attempts_from, send_with_retries,
}

-- A positive base and maximum and at most 1024 retries give one delay for each retry, each positive and
-- at most the maximum.
pub retry_delays-bounds :
    (n base maximum : ℕ)
    → 0 < base
    → 0 < maximum
    → n ≤ 1024
    → (delays : List ℕ) × (retry_delays (pos n) base maximum ≡ ok delays)
      × (length delays ≡ n)
      × All (λ d. (0 < d) × (d ≤ maximum)) delays
unfolding retry_delays
retry_delays-bounds n base maximum hb hm hn = (
  delays_from base maximum 0 n,
  ground arith,
  delays_from-length base maximum 0 n,
  delays_from-bounds base maximum 0 n hb hm,
)

-- The error is one that the loop catches.
abbrev pub is_transport : Error → Bool
is_transport (transport message) = true
is_transport e = false

-- An outcome that the loop does not go on after.
abbrev pub is_decisive : {A : Type 0} → Result A → Bool
is_decisive (ok a) = true
is_decisive (err e) = not (is_transport e)

module _ {S A : Type 0} (send : Action S A) where
  -- One delay is slept after a failure, where there is one left.
  length-slept :
      (delays : List ℕ) (i : ℕ) (log : List ℕ)
      → length (slept send (get_elem? delays i) log)
        ≡ length log + (if ltb i (length delays) then 1 else 0)
  length-slept [] i log = ground arith
  length-slept (d ∷ ds) zero log = ground (arith, length-append log (d ∷ []))
  length-slept (d ∷ ds) (suc i) log = ground (arith, length-slept ds i log)

  -- The store after a number of sends.
  abbrev pub after_sends : ℕ → S → S
  after_sends zero s = s
  after_sends (suc n) s = after_sends n (send s).1

  attempts_from-exhausts :
      (n attempt : ℕ) (delays : List ℕ) (s : S) (log : List ℕ)
      → ((t : S) → (message : String) × ((send t).0 ≡ err (transport message)))
      → ((attempts_from send n attempt delays s log).0 ≡ err exhausted)
        × ((attempts_from send n attempt delays s log).1 ≡ after_sends n s)
        × (length (attempts_from send n attempt delays s log).2
            ≡ length log + min n (length delays - attempt))
  unfolding attempts_from
  attempts_from-exhausts zero attempt delays s log fails = (refl, refl, ground arith)
  attempts_from-exhausts (suc n) attempt delays s log fails =
      let (message, failed) = fails s in
      let log' = slept send (get_elem? delays attempt) log in
      let rest = attempts_from-exhausts n (attempt + 1) delays (send s).1 log' fails in
      (
        ground (arith, failed, rest.0),
        ground (arith, failed, rest.1),
        ground (arith, failed, rest.2, length-slept delays attempt log),
      )

  attempts_from_start :
      (attempts : ℕ) (s : S)
      → 1 ≤ attempts
      → attempts ≤ 1025
      → send_with_retries send attempts s
        ≡ attempts_from send attempts 0
            (delays_from default_base default_maximum 0 (attempts - 1))
            s
            []
  unfolding send_with_retries retry_delays
  attempts_from_start attempts s h few =
      let positive : (attempts == 0) ≡ false = ground arith in
      let fit : ltb max_retries (attempts - 1) ≡ false = ground arith in rw (positive, fit) refl

  -- Where 1 to 1025 attempts are asked for and every send fails with a transport error, there are as
  -- many sends as attempts, one delay fewer is slept, and the error is that the budget is exhausted.
  pub send_with_retries-exhausts :
      (attempts : ℕ) (s : S)
      → 1 ≤ attempts
      → attempts ≤ 1025
      → ((t : S) → (message : String) × ((send t).0 ≡ err (transport message)))
      → ((send_with_retries send attempts s).0 ≡ err (transport "relay retry budget exhausted"))
        × ((send_with_retries send attempts s).1 ≡ after_sends attempts s)
        × (length (send_with_retries send attempts s).2 ≡ attempts - 1)
  send_with_retries-exhausts attempts s h few fails =
      let all =
        attempts_from-exhausts attempts 0
          (delays_from default_base default_maximum 0 (attempts - 1)) s [] fails in
      rw (attempts_from_start attempts s h few) (
        all.0,
        all.1,
        omega (arith, all.2, delays_from-length default_base default_maximum 0 (attempts - 1)),
      )

  attempts_from-decided :
      (n attempt j : ℕ) (delays : List ℕ) (s : S) (log : List ℕ) (r : Result A)
      → j < n
      → ((i : ℕ) → i < j → (m : String) × ((send (after_sends i s)).0 ≡ err (transport m)))
      → (send (after_sends j s)).0 ≡ r
      → is_decisive r ≡ true
      → ((attempts_from send n attempt delays s log).0 ≡ r)
        × ((attempts_from send n attempt delays s log).1 ≡ after_sends (suc j) s)
        × (length (attempts_from send n attempt delays s log).2
            ≡ length log + min j (length delays - attempt))
  unfolding attempts_from
  attempts_from-decided zero attempt j delays s log r h fails last decisive = absurd (omega arith)
  attempts_from-decided (suc n) attempt zero delays s log (ok a) h fails last decisive =
      (ground (arith, last), ground (arith, last), ground (arith, last))
  attempts_from-decided (suc n) attempt zero delays s log (err e) h fails last decisive =
      (ground (arith, last), ground (arith, last), ground (arith, last))
  attempts_from-decided (suc n) attempt (suc j) delays s log r h fails last decisive =
      let (message, failed) = fails 0 (omega arith) in
      let log' = slept send (get_elem? delays attempt) log in
      let rest =
        attempts_from-decided n (attempt + 1) j delays (send s).1 log' r (omega (arith, h))
          (λ i l. fails (suc i) (omega (arith, l))) last decisive in
      (
        ground (arith, failed, rest.0),
        ground (arith, failed, rest.1),
        ground (arith, failed, rest.2, length-slept delays attempt log),
      )

  -- Where at most 1025 attempts are asked for, and a number of sends below that fail with a transport
  -- error, the next send decides where it returns or raises another error: its outcome is the outcome of
  -- all, nothing is sent after it, and one delay was slept for each send before it.
  pub send_with_retries-decided :
      (attempts j : ℕ) (s : S) (r : Result A)
      → j < attempts
      → attempts ≤ 1025
      → ((i : ℕ) → i < j → (m : String) × ((send (after_sends i s)).0 ≡ err (transport m)))
      → (send (after_sends j s)).0 ≡ r
      → is_decisive r ≡ true
      → ((send_with_retries send attempts s).0 ≡ r)
        × ((send_with_retries send attempts s).1 ≡ after_sends (suc j) s)
        × (length (send_with_retries send attempts s).2 ≡ j)
  send_with_retries-decided attempts j s r h few fails last decisive =
      let all =
        attempts_from-decided attempts 0 j
          (delays_from default_base default_maximum 0 (attempts - 1)) s [] r h fails last
          decisive in
      rw (attempts_from_start attempts s (omega (arith, h)) few) (
        all.0,
        all.1,
        omega (arith, h, all.2, delays_from-length default_base default_maximum 0 (attempts - 1)),
      )
