-- ===== src/Service/Worker/Counts.antt =====
-- relay_worker.py: what the worker counts and reports.
use printer_hmi_remote.Prelude.{
  ℕ, ◌+◌, ◌≡◌, refl, true, List, [], ◌∷◌, length, Result, ok, err, arith, Result-cases, subst,
  Bool-cases, inl, inr,
}
use printer_hmi_remote.Json.{Fields}
use printer_hmi_remote.Service.Worker.{
  Worker, Round, Sender, is_expected, write_state, settle, relay, run_once, run,
}

-- An outcome that the loop of `run` goes on after.
abbrev IsSettled : Result Fields → Type 0
IsSettled (ok a) = Unit
IsSettled (err e) = is_expected e ≡ true

module _ {S : Type 0} where
  abbrev pub total : Worker S → ℕ
  total w = w.success_count + w.failure_count

  total-settle :
      (round : Round) (outcome : Result Fields) (w : Worker S)
      → IsSettled outcome
      → total (settle round outcome w).1 ≡ total w + 1
  unfolding settle write_state
  total-settle round (ok result) w h = ground arith
  total-settle round (err e) w h = ground (arith, h)

  IsSettled-settle :
      (round : Round) (outcome : Result Fields) (w : Worker S)
      → IsSettled (settle round outcome w).0
      → IsSettled outcome
  unfolding settle write_state
  IsSettled-settle round (ok result) w h = tt
  IsSettled-settle round (err e) w h = ground arith

  total-run_once :
      (send : Sender S) (round : Round) (w : Worker S)
      → IsSettled (run_once send round w).0
      → total (run_once send round w).1 ≡ total w + 1
  unfolding run_once
  total-run_once send round w h =
      let (outcome, s) = relay send round w.connector in
      let w' = record w { connector = s } in
      total-settle round outcome w' (IsSettled-settle round outcome w' h)

  run-step :
      (send : Sender S) (round : Round) (rounds : List Round) (w : Worker S)
      → (run send (round ∷ rounds) w).0 ≡ ok tt
      → IsSettled (run_once send round w).0
        × (run send (round ∷ rounds) w ≡ run send rounds (run_once send round w).1)
  unfolding run
  run-step send round rounds w h = elim (Result-cases (run_once send round w).0) [
    | inl (result, e) ↦ (rw e tt, rw (run, e) refl)
    | inr (error, e) ↦ elim (Bool-cases (is_expected error)) [
      | inl expected ↦ (rw e expected, rw (run, e, expected) refl)
      | inr surprising ↦ absurd (ground arith)
    ]
  ]

  -- As long as the loop of the worker goes on, every round is counted exactly once, as a success or as a
  -- failure, whether or not its file could be written.
  pub run-total :
      (send : Sender S) (rounds : List Round) (w : Worker S)
      → (run send rounds w).0 ≡ ok tt
      → total (run send rounds w).1 ≡ total w + length rounds
  run-total send [] w h = unfold run in omega arith
  run-total send (round ∷ rounds) w h =
      let (settled, same) = run-step send round rounds w h in
      let next = (run_once send round w).1 in
      let later : total (run send rounds next).1 ≡ total next + length rounds =
        run-total send rounds next (subst (λ x. x.0 ≡ ok tt) same h) in
      rw same (omega (arith, later, total-run_once send round w settled))
