-- ===== src/Action.antt =====
-- Methods that mutate a store and may raise. What was written before a raise stays written, so the
-- store comes back beside the error too.
use printer_hmi_remote.Prelude.{Bool, true, false, ◌≡◌, refl, Error, Result, ok, err, if◌then◌else◌}

abbrev pub Action : Type 0 → Type 0 → Type 0
Action S A = S → Result A × S

module _ {S A : Type 0} where
  abbrev pub pure : A → Action S A
  pure a s = (ok a, s)

  abbrev pub raise : Error → Action S A
  raise e s = (err e, s)

  -- A computation that does not touch the store.
  abbrev pub lift : Result A → Action S A
  lift r s = (r, s)

  abbrev pub gets : (S → A) → Action S A
  gets f s = (ok (f s), s)

abbrev pub modify : {S : Type 0} → (S → S) → Action S Unit
modify f s = (ok tt, f s)

module _ {S A B : Type 0} where
  abbrev pub continue : Result A → (A → Action S B) → Action S B
  continue (ok a) f s = f a s
  continue (err e) f s = (err e, s)

  infixl 5 ◌>>=◌ ◌>>◌
  abbrev pub ◌>>=◌ : Action S A → (A → Action S B) → Action S B
  ◌>>=◌ m f s = let (r, s') = m s in continue r f s'

  abbrev pub ◌>>◌ : Action S A → Action S B → Action S B
  m >> k = m >>= λ _. k

-- A step on a part of the store.
abbrev pub focus : {S T A : Type 0} → (T → S) → (S → T → T) → Action S A → Action T A
focus part put m t = let (r, s) = m (part t) in (r, put s t)

-- `if bad: raise e`
abbrev pub check : {S : Type 0} → Bool → Error → Action S Unit
check true e s = (err e, s)
check false e s = (ok tt, s)

module _ {S A B : Type 0} where
  -- A property of the store is kept by what follows a step, if it is kept whenever the step returns.
  pub continue-keeps :
      (P : S → Type 0) (r : Result A) (f : A → Action S B) (s : S)
      → P s
      → ((a : A) → r ≡ ok a → P (f a s).1)
      → P (continue r f s).1
  continue-keeps P (ok a) f s h k = k a refl
  continue-keeps P (err e) f s h k = h

  -- A property of the store holds when a chain has returned, if its last part brings it about.
  pub continue-ensures :
      (P : S → Type 0) (r : Result A) (f : A → Action S B) (s : S) {b : B}
      → ((a : A) → r ≡ ok a → (f a s).0 ≡ ok b → P (f a s).1)
      → (continue r f s).0 ≡ ok b
      → P (continue r f s).1
  continue-ensures P (ok a) f s k h = k a refl h
  continue-ensures P (err e) f s k h = cc

module _ {S B : Type 0} where
  pub check-keeps :
      (P : S → Type 0) (b : Bool) (e : Error) (k : Action S B) (s : S)
      → P s
      → (b ≡ false → P (k s).1)
      → P ((check b e >> k) s).1
  check-keeps P true e k s h g = h
  check-keeps P false e k s h g = g refl

  pub check-ensures :
      (P : S → Type 0) (b : Bool) (e : Error) (k : Action S B) (s : S) {a : B}
      → (b ≡ false → (k s).0 ≡ ok a → P (k s).1)
      → ((check b e >> k) s).0 ≡ ok a
      → P ((check b e >> k) s).1
  check-ensures P true e k s g h = cc
  check-ensures P false e k s g h = g refl h

module _ {S A B : Type 0} where
  -- What a chain that returned went through.
  pub continue-eq-ok :
      (r : Result A) (f : A → Action S B) (s : S) {b : B}
      → (continue r f s).0 ≡ ok b
      → (a : A) × (r ≡ ok a) × ((f a s).0 ≡ ok b)
  continue-eq-ok (ok a) f s h = (a, refl, h)
  continue-eq-ok (err e) f s h = cc

module _ {S B : Type 0} where
  -- A property of the store that both branches keep.
  pub if-keeps :
      (P : S → Type 0) (b : Bool) (m k : Action S B) (s : S)
      → P (m s).1
      → P (k s).1
      → P ((if b then m else k) s).1
  if-keeps P true m k s h g = h
  if-keeps P false m k s h g = g
