-- ===== src/Transport/Sanitize/Idempotent.antt =====
-- Sanitizing a sanitized snapshot changes nothing.
use printer_hmi_remote.Prelude.{
  need-eq-ok, String, ◌≡◌, refl, ap, ◌∙◌, All, Bool, true, false, Option, none, some, List, [], ◌∷◌,
  arith, eq_iff, if◌then◌else◌, ok, >>=-eq-ok, raise_if-eq-ok, need, not, ltb, length, subst,
}
use printer_hmi_remote.Json.{
  Value, null, bool, int, float, str, arr, obj, Items, nil, cons, Fields, end, field, lookup,
  member, truthy, get, as_dict, is_one,
}
use printer_hmi_remote.Json.Canonical.{canonical}
use printer_hmi_remote.Platform.{Platform}
use printer_hmi_remote.Transport.Sanitize.{
  instance_keys, max_snapshot_bytes, sanitize, sanitize_items, sanitize_fields, pick_fields,
  add_found, error_field, sanitize_instance, sanitize_instances, sanitize_snapshot,
  snapshot_document,
}

module _ (p : Platform) where
  mutual
    unfolding sanitize

    sanitize_same : (v : Value) → sanitize p (sanitize p v) ≡ sanitize p v
    sanitize_same null = refl
    sanitize_same (bool b) = refl
    sanitize_same (int n) = refl
    sanitize_same (float m) = refl
    sanitize_same (str s) = refl
    sanitize_same (arr xs) = ap arr (sanitize_items_same xs)
    sanitize_same (obj fs) = ap obj (sanitize_fields_same fs)

    sanitize_items_same :
        (xs : Items) → sanitize_items p (sanitize_items p xs) ≡ sanitize_items p xs
    sanitize_items_same nil = refl
    sanitize_items_same (cons x xs) = cc (sanitize_same x, sanitize_items_same xs)

    sanitize_fields_same :
        (fs : Fields) → sanitize_fields p (sanitize_fields p fs) ≡ sanitize_fields p fs
    sanitize_fields_same end = refl
    sanitize_fields_same (field k v fs) = ground (arith, sanitize_same v, sanitize_fields_same fs)

  abbrev sanitized : Option Value → Option Value
  sanitized none = none
  sanitized (some v) = some (sanitize p v)

  lookup-pick_fields :
      (k : String) (ks : List String) (source last : Fields)
      → lookup k last ≡ none
      → lookup k (pick_fields p ks source last)
        ≡ (if member k ks then sanitized (lookup k source) else none)
  unfolding lookup pick_fields member
  lookup-pick_fields k [] source last h = h
  lookup-pick_fields k (j ∷ js) source last h =
      ground (arith, eq_iff j k, lookup-pick_fields k js source last h)

  lookup-pick_fields_other :
      (k : String) (ks : List String) (source last : Fields)
      → member k ks ≡ false
      → lookup k (pick_fields p ks source last) ≡ lookup k last
  unfolding lookup pick_fields member
  lookup-pick_fields_other k [] source last h = refl
  lookup-pick_fields_other k (j ∷ js) source last h =
      ground (arith, lookup-pick_fields_other k js source last)

  add_found_same :
      (k : String) (o : Option Value) (rest : Fields)
      → add_found p k (sanitized o) rest ≡ add_found p k o rest
  add_found_same k none rest = refl
  add_found_same k (some v) rest = ap (λ w. field k w rest) (sanitize_same v)

  -- The named fields of what was picked are picked unchanged.
  pick_fields_again :
      (ks names : List String) (source first last : Fields)
      → All (λ k. (member k names ≡ true) × (lookup k first ≡ none)) ks
      → pick_fields p ks (pick_fields p names source first) last ≡ pick_fields p ks source last
  unfolding pick_fields
  pick_fields_again [] names source first last h = refl
  pick_fields_again (k ∷ ks) names source first last h =
      let picked = pick_fields p names source first in
      ap (λ o. add_found p k o (pick_fields p ks picked last))
        (lookup-pick_fields k names source first h.0.1
          ∙ ap (λ (b : Bool). if b then sanitized (lookup k source) else none) h.0.0)
      ∙ (ap (add_found p k (sanitized (lookup k source)))
            (pick_fields_again ks names source first last h.1)
          ∙ add_found_same k (lookup k source) (pick_fields p ks source last))

  error_field-lacks :
      (failed : Bool)
      → All
          (λ k. (member k instance_keys ≡ true) × (lookup k (error_field p failed) ≡ none))
          instance_keys
  unfolding member lookup
  error_field-lacks true =
      ((refl, refl), ((refl, refl), ((refl, refl), ((refl, refl), ((refl, refl), tt)))))
  error_field-lacks false =
      ((refl, refl), ((refl, refl), ((refl, refl), ((refl, refl), ((refl, refl), tt)))))

  truthy-error_field : (failed : Bool) → truthy (get "error" (error_field p failed)) ≡ failed
  unfolding truthy lookup
  truthy-error_field true = refl
  truthy-error_field false = refl

  no_error_key : member "error" instance_keys ≡ false
  unfolding member
  no_error_key = refl

  sanitize_instance_same :
      (source : Fields)
      → sanitize_instance p (sanitize_instance p source) ≡ sanitize_instance p source
  unfolding sanitize_instance
  sanitize_instance_same source =
      let failed = truthy (get "error" source) in
      let first = error_field p failed in
      let picked = pick_fields p instance_keys source first in
      let still : truthy (get "error" picked) ≡ failed =
        rw (lookup-pick_fields_other "error" instance_keys source first no_error_key)
          (truthy-error_field failed) in
      rw still (
        pick_fields_again instance_keys instance_keys source first first (error_field-lacks failed))

  sanitize_instances_same :
      (fs gs : Fields) → sanitize_instances p fs ≡ ok gs → sanitize_instances p gs ≡ ok gs
  unfolding sanitize_instances
  sanitize_instances_same end gs h = ground arith
  sanitize_instances_same (field k v fs) gs h =
      let (source, es, h1) = >>=-eq-ok (need (as_dict v) _) _ h in
      let (more, em, h2) =
        >>=-eq-ok (sanitize_instances p fs)
          (λ more. ok (field k (obj (sanitize_instance p source)) more)) h1 in
      ground (arith, sanitize_instance_same source, sanitize_instances_same fs more em)

  -- How `sanitize_snapshot` ends: the instances are sanitized, and the whole is small enough.
  pub sanitize_snapshot-parts :
      (document : Value) (r : Fields)
      → sanitize_snapshot p document ≡ ok r
      → (fs : Fields) × (instances : Fields) × (sanitized_ones : Fields) × (as_dict document
          ≡ some fs)
        × (as_dict (get "instances" fs) ≡ some instances)
        × (sanitize_instances p instances ≡ ok sanitized_ones)
        × (ltb max_snapshot_bytes (length (canonical p (obj r))) ≡ false)
        × (snapshot_document p (get "generated_at" fs) sanitized_ones ≡ r)
  unfolding sanitize_snapshot
  sanitize_snapshot-parts document r h =
      let (fs, ed, h1) = >>=-eq-ok (need (as_dict document) _) _ h in
      let (_, h2) = raise_if-eq-ok (not (is_one (get "schema_version" fs))) _ _ h1 in
      let (instances, ei, h3) = >>=-eq-ok (need (as_dict (get "instances" fs)) _) _ h2 in
      let (s, es, h4) = >>=-eq-ok (sanitize_instances p instances) _ h3 in
      let result = snapshot_document p (get "generated_at" fs) s in
      let (small, h5) =
        raise_if-eq-ok (ltb max_snapshot_bytes (length (canonical p (obj result)))) _ _ h4 in
      let same : result ≡ r = cc h5 in
      (fs, instances, s, need-eq-ok _ _ ed, need-eq-ok _ _ ei, es, rw (← same) small, same)

  sanitize_document_again :
      (generated_at : Value) (s : Fields)
      → sanitize_instances p s ≡ ok s
      → let r = snapshot_document p generated_at s in
        ltb max_snapshot_bytes (length (canonical p (obj r))) ≡ false
        → sanitize_snapshot p (obj r) ≡ ok r
  unfolding sanitize_snapshot lookup
  sanitize_document_again generated_at s e small = rw e (rw small)

  -- A snapshot that has been sanitized passes a second sanitizing unchanged.
  pub sanitize_snapshot_idem :
      (document : Value) (r : Fields)
      → sanitize_snapshot p document ≡ ok r
      → sanitize_snapshot p (obj r) ≡ ok r
  sanitize_snapshot_idem document r h =
      let (fs, instances, s, _, _, es, small, same) = sanitize_snapshot-parts document r h in
      subst (λ x. sanitize_snapshot p (obj x) ≡ ok x) same
        (sanitize_document_again (get "generated_at" fs) s (sanitize_instances_same instances s es)
          (rw same small))
