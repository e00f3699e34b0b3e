-- ===== src/Transport/Queue.antt =====
-- relay_transport.py: `BoundedSnapshotQueue`, over the `asyncio.Queue` that it holds.
use printer_hmi_remote.Prelude.{
  ℕ, zero, suc, ◌+◌, ◌≤◌, ◌≡◌, Option, none, some, List, [], ◌∷◌, ◌++◌, arith, leb, length,
  length-append, Bool-cases, leb→le, inl, inr, drop, ◌-◌, refl, if◌then◌else◌,
}

module _ {ℓ} where
  -- The oldest snapshot stands first.
  pub record Queue (A : Type ℓ) : Type ℓ where
    pub capacity : ℕ
    pub items : List A
    pub dropped_count : ℕ

module _ {ℓ} {A : Type ℓ} where
  -- `while self._queue.full(): self._queue.get_nowait(); self.dropped_count += 1`
  drop_full : ℕ → List A → ℕ → List A × ℕ
  drop_full capacity [] dropped = ([], dropped)
  drop_full capacity (x ∷ xs) dropped =
      let rest = drop_full capacity xs (dropped + 1) in
      if leb capacity (length (x ∷ xs)) then rest else (x ∷ xs, dropped)

  unfoldable pub put_latest : A → Queue A → Queue A
  unfolding drop_full
  put_latest snapshot q =
      let (items, dropped) = drop_full q.capacity q.items q.dropped_count in
      record q { items = items ++ (snapshot ∷ []); dropped_count = dropped }

  -- `get`; on an empty queue it waits, which is `none` here.
  unfoldable pub get : Queue A → Option (A × Queue A)
  get q = elim q.items [ [] ↦ none | x ∷ xs ↦ some (x, record q { items = xs }) ]

  unfoldable pub qsize : Queue A → ℕ
  qsize q = length q.items

  -- The specification: of a list of snapshots, the latest that fit.
  unfoldable pub keep_latest : ℕ → List A → List A
  keep_latest capacity xs = drop (length xs - capacity) xs

  drop_full-keep_latest :
      (capacity : ℕ) (xs : List A) (x : A) (dropped : ℕ)
      → 1 ≤ capacity
      → (drop_full capacity xs dropped).0 ++ (x ∷ []) ≡ keep_latest capacity (xs ++ (x ∷ []))
  unfolding drop_full keep_latest
  drop_full-keep_latest capacity [] x dropped h = ground arith
  drop_full-keep_latest capacity (y ∷ ys) x dropped h =
      elim (Bool-cases (leb capacity (suc (length ys)))) [
        | inl full ↦
            let later : length (y ∷ ys ++ (x ∷ [])) - capacity
                ≡ suc (length (ys ++ (x ∷ [])) - capacity) =
              omega (arith, length-append ys (x ∷ []), leb→le capacity (suc (length ys)) full) in
            rw full (rw later (drop_full-keep_latest capacity ys x (dropped + 1) h))
        | inr room ↦
            let all_kept : length (y ∷ ys ++ (x ∷ [])) - capacity ≡ 0 =
              ground (arith, length-append ys (x ∷ [])) in
            rw room (rw all_kept)
      ]

  drop_full-count :
      (capacity : ℕ) (xs : List A) (dropped : ℕ)
      → length (drop_full capacity xs dropped).0 + (drop_full capacity xs dropped).1
        ≡ length xs + dropped
  unfolding drop_full
  drop_full-count capacity [] dropped = refl
  drop_full-count capacity (y ∷ ys) dropped =
      ground (arith, drop_full-count capacity ys (dropped + 1))

  -- Where the capacity is at least one, the snapshots after a `put_latest` are the latest that fit, in
  -- order: the specification `keep_latest` of what was held and the new one.
  pub items-put_latest :
      (x : A) (q : Queue A)
      → 1 ≤ q.capacity
      → (put_latest x q).items ≡ keep_latest q.capacity (q.items ++ (x ∷ []))
  unfolding put_latest
  items-put_latest x q h = drop_full-keep_latest q.capacity q.items x q.dropped_count h

  -- Nothing is lost uncounted: what is held and what was dropped grow by one together.
  pub count-put_latest :
      (x : A) (q : Queue A)
      → length (put_latest x q).items + (put_latest x q).dropped_count
        ≡ length q.items + q.dropped_count + 1
  unfolding put_latest
  count-put_latest x q = omega (
    arith,
    drop_full-count q.capacity q.items q.dropped_count,
    length-append (drop_full q.capacity q.items q.dropped_count).0 (x ∷ []),
  )

  length-drop_le : (n : ℕ) (xs : List A) → length (drop n xs) ≡ length xs - n
  length-drop_le zero xs = omega arith
  length-drop_le (suc n) [] = omega arith
  length-drop_le (suc n) (x ∷ xs) = omega (arith, length-drop_le n xs)

  -- Where the capacity is at least one, the queue is not above it after a `put_latest`.
  pub put_latest-le-capacity :
      (x : A) (q : Queue A) → 1 ≤ q.capacity → length (put_latest x q).items ≤ q.capacity
  unfolding keep_latest
  put_latest-le-capacity x q h = rw (items-put_latest x q h) (
      omega
        (arith, length-drop_le (length (q.items ++ (x ∷ [])) - q.capacity) (q.items ++ (x ∷ []))))
