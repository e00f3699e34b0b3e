-- ===== src/Dict.antt =====
-- Python's `dict` with text keys, in insertion order, for tables whose values are records.
use Prim.Native.Nat.{Ordering}
use Prim.Native.String.{compare}
use printer_hmi_remote.Prelude.{
  ◌+◌, ◌≤◌, String, ◌≡◌, refl, Bool, true, false, Option, none, some, List, [], ◌∷◌, arith, str_eq,
  eq_iff, length, if◌then◌else◌,
}

abbrev pub Dict {ℓ} : Type ℓ → Type ℓ
Dict V = List (String × V)

module _ {ℓ} {V : Type ℓ} where
  -- `d.get(k)`
  unfoldable pub lookup : String → Dict V → Option V
  lookup k [] = none
  lookup k ((j, v) ∷ d) = if str_eq j k then some v else lookup k d

  -- `k in d`
  abbrev pub contains : String → Dict V → Bool
  contains k d = elim (lookup k d) [ none ↦ false | some _ ↦ true ]

  -- `d[k] = v`
  unfoldable pub insert : String → V → Dict V → Dict V
  insert k v [] = (k, v) ∷ []
  insert k v ((j, w) ∷ d) = if str_eq j k then (k, v) ∷ d else (j, w) ∷ insert k v d

  -- `d.pop(k, None)`
  unfoldable pub erase : String → Dict V → Dict V
  erase k [] = []
  erase k ((j, w) ∷ d) = let rest = erase k d in if str_eq j k then rest else (j, w) ∷ rest

  -- The entries that pass a test are kept, the others popped.
  unfoldable pub keep : (V → Bool) → Dict V → Dict V
  keep p [] = []
  keep p ((j, w) ∷ d) = let rest = keep p d in if p w then (j, w) ∷ rest else rest

  pub lookup-insert :
      (k j : String) (v : V) (d : Dict V)
      → lookup j (insert k v d) ≡ (if str_eq k j then some v else lookup j d)
  unfolding lookup insert
  lookup-insert k j v [] = refl
  lookup-insert k j v ((i, w) ∷ d) =
      ground (arith, eq_iff k j, eq_iff i k, eq_iff i j, lookup-insert k j v d)

  pub lookup-erase :
      (k j : String) (d : Dict V) → lookup j (erase k d) ≡ (if str_eq k j then none else lookup j d)
  unfolding lookup erase
  lookup-erase k j [] = ground arith
  lookup-erase k j ((i, w) ∷ d) =
      ground (arith, eq_iff k j, eq_iff i k, eq_iff i j, lookup-erase k j d)

  -- An entry that is found and passes the test is kept.
  pub lookup-keep_of_pass :
      (p : V → Bool) (k : String) (v : V) (d : Dict V)
      → lookup k d ≡ some v
      → p v ≡ true
      → lookup k (keep p d) ≡ some v
  unfolding lookup keep
  lookup-keep_of_pass p k v [] h t = cc
  lookup-keep_of_pass p k v ((i, w) ∷ d) h t = ground (arith, lookup-keep_of_pass p k v d)

  -- What is found after the pruning passes the test.
  pub keep_passes :
      (p : V → Bool) (k : String) (v : V) (d : Dict V) → lookup k (keep p d) ≡ some v → p v ≡ true
  unfolding lookup keep
  keep_passes p k v [] h = cc
  keep_passes p k v ((i, w) ∷ d) h = ground (arith, keep_passes p k v d)

  pub length-erase-le : (k : String) (d : Dict V) → length (erase k d) ≤ length d
  unfolding erase
  length-erase-le k [] = omega arith
  length-erase-le k ((i, w) ∷ d) = ground (arith, length-erase-le k d)

  pub length-insert-le : (k : String) (v : V) (d : Dict V) → length (insert k v d) ≤ length d + 1
  unfolding insert
  length-insert-le k v [] = omega arith
  length-insert-le k v ((i, w) ∷ d) = ground (arith, length-insert-le k v d)

module _ {ℓ} {V : Type ℓ} where
  insert_sorted : String → V → Dict V → Dict V
  insert_sorted k v [] = (k, v) ∷ []
  insert_sorted k v ((j, w) ∷ d) =
      let rest = (j, w) ∷ insert_sorted k v d in
      elim (compare k j) [ Ordering.gt ↦ rest | _ ↦ (k, v) ∷ (j, w) ∷ d ]

  -- `sorted(d.items())`
  unfoldable pub sorted_items : Dict V → Dict V
  unfolding insert_sorted
  sorted_items [] = []
  sorted_items ((k, v) ∷ d) = insert_sorted k v (sorted_items d)

  abbrev pub values : Dict V → List V
  values [] = []
  values ((k, v) ∷ d) = v ∷ values d
