-- ===== src/Transport/Sanitize/Privacy.antt =====
-- relay_transport.py: what `sanitize_snapshot` lets pass of each instance.
use printer_hmi_remote.Prelude.{
  ◌≤◌, String, ◌≡◌, refl, ◌⊎◌, inl, inr, Bool, true, false, Option, none, some, List, [], ◌∷◌,
  arith, Bool-cases, length, All, ok, subst, sym, >>=-eq-ok, need,
}
use printer_hmi_remote.Prelude.Int.{pos}
use printer_hmi_remote.Json.{
  Value, null, bool, int, float, str, arr, obj, Items, nil, cons, Fields, end, field, lookup,
  member, get, truthy, as_dict,
}
use printer_hmi_remote.Json.Canonical.{canonical}
use printer_hmi_remote.Platform.{Platform}
use printer_hmi_remote.Transport.Sanitize.{
  instance_keys, is_private, sanitize, sanitize_items, sanitize_fields, pick_fields, add_found,
  error_field, sanitize_instance, sanitize_instances, sanitize_snapshot,
}
use printer_hmi_remote.Transport.Sanitize.Idempotent.{sanitize_snapshot-parts}

-- The keys that are dropped wherever they stand, in any case of their letters.
abbrev pub private_names : List String
private_names =
    "address" ∷ "api_key" ∷ "filename" ∷ "host" ∷ "hostname" ∷ "ip" ∷ "message" ∷ "socket_path"
    ∷ "url" ∷ []

-- The fields of an instance that are relayed.
abbrev pub relayed_names : List String
relayed_names = "instance_id" ∷ "connected" ∷ "captured_at" ∷ "eventtime" ∷ "status" ∷ []

module _ (p : Platform) where
  -- No object in the value has a private key.
  unfoldable mutual
    pub IsFiltered : Value → Type 0
    IsFiltered null = Unit
    IsFiltered (bool b) = Unit
    IsFiltered (int n) = Unit
    IsFiltered (float m) = Unit
    IsFiltered (str s) = Unit
    IsFiltered (arr xs) = IsFilteredItems xs
    IsFiltered (obj fs) = IsFilteredFields fs

    pub IsFilteredItems : Items → Type 0
    IsFilteredItems nil = Unit
    IsFilteredItems (cons x xs) = IsFiltered x × IsFilteredItems xs

    pub IsFilteredFields : Fields → Type 0
    IsFilteredFields end = Unit
    IsFilteredFields (field k v fs) =
        (member (p.lower k) private_names ≡ false) × IsFiltered v × IsFilteredFields fs

  mutual
    unfolding IsFiltered sanitize is_private

    sanitize_filters : (v : Value) → IsFiltered (sanitize p v)
    sanitize_filters null = tt
    sanitize_filters (bool b) = tt
    sanitize_filters (int n) = tt
    sanitize_filters (float m) = tt
    sanitize_filters (str s) = tt
    sanitize_filters (arr xs) = sanitize_items_filters xs
    sanitize_filters (obj fs) = sanitize_fields_filters fs

    sanitize_items_filters : (xs : Items) → IsFilteredItems (sanitize_items p xs)
    sanitize_items_filters nil = tt
    sanitize_items_filters (cons x xs) = (sanitize_filters x, sanitize_items_filters xs)

    sanitize_fields_filters : (fs : Fields) → IsFilteredFields (sanitize_fields p fs)
    sanitize_fields_filters end = tt
    sanitize_fields_filters (field k v fs) =
        let more = sanitize_fields_filters fs in
        let here = sanitize_filters v in
        elim (Bool-cases (is_private p k)) [
          | inl hidden ↦ rw hidden more
          | inr shown ↦ rw shown (shown, here, more)
        ]

  -- The fields of an instance: those that are relayed, filtered, and the bare mark of an error.
  abbrev pub IsRelayed : String → Value → Type 0
  IsRelayed k v =
      (member k relayed_names ≡ true) × IsFiltered v ⊎ (k ≡ "error") × (v ≡ str "unavailable")

  abbrev pub IsRelayedInstance : Fields → Type 0
  IsRelayedInstance end = Unit
  IsRelayedInstance (field k v fs) = IsRelayed k v × IsRelayedInstance fs

  abbrev pub IsInstance : Value → Type 0
  IsInstance (obj fs) = IsRelayedInstance fs
  IsInstance v = ⊥

  -- The instances of a document, under their own names and in order, and what is made of them.
  abbrev pub AreInstances : Fields → Fields → Type 0
  AreInstances end end = Unit
  AreInstances (field j source sources) (field k v fs) =
      (k ≡ j) × IsInstance v × AreInstances sources fs
  AreInstances end (field k v fs) = ⊥
  AreInstances (field j source sources) end = ⊥

  -- The instances of the document, filtered, in a document that fits the limit. Their names and
  -- `generated_at` are those of the document, whatever these are.
  pub record IsSanitized (document : Value) (r : Fields) : Type 0 where
    pub source : Fields
    pub sources : Fields
    pub instances : Fields
    pub is_source : as_dict document ≡ some source
    pub are_sources : as_dict (get "instances" source) ≡ some sources
    pub shape :
        r
        ≡ field "schema_version" (int (pos 1)) (
            field "generated_at"
              (get "generated_at" source)
              (field "instances" (obj instances) end))
    pub relayed : AreInstances sources instances
    pub fits : length (canonical p (obj r)) ≤ 131072

  pick_fields-IsRelayedInstance :
      (ks : List String) (source last : Fields)
      → All (λ k. member k relayed_names ≡ true) ks
      → IsRelayedInstance last
      → IsRelayedInstance (pick_fields p ks source last)
  unfolding pick_fields
  pick_fields-IsRelayedInstance [] source last names h = h
  pick_fields-IsRelayedInstance (k ∷ ks) source last names h =
      go (lookup k source) (pick_fields p ks source last)
        (pick_fields-IsRelayedInstance ks source last names.1 h)
    where
      go :
          (o : Option Value) (rest : Fields)
          → IsRelayedInstance rest
          → IsRelayedInstance (add_found p k o rest)
      go none rest r = r
      go (some v) rest r = (inl (names.0, sanitize_filters v), r)

  error_field-IsRelayedInstance : (failed : Bool) → IsRelayedInstance (error_field p failed)
  error_field-IsRelayedInstance true = (inr (refl, refl), tt)
  error_field-IsRelayedInstance false = tt

  names_relayed : All (λ k. member k relayed_names ≡ true) instance_keys
  unfolding member
  names_relayed = (refl, (refl, (refl, (refl, (refl, tt)))))

  sanitize_instance-IsRelayedInstance :
      (source : Fields) → IsRelayedInstance (sanitize_instance p source)
  unfolding sanitize_instance
  sanitize_instance-IsRelayedInstance source =
      pick_fields-IsRelayedInstance instance_keys source
        (error_field p (truthy (get "error" source))) names_relayed
        (error_field-IsRelayedInstance (truthy (get "error" source)))

  sanitize_instances-AreInstances :
      (fs gs : Fields) → sanitize_instances p fs ≡ ok gs → AreInstances fs gs
  unfolding sanitize_instances
  sanitize_instances-AreInstances end gs h =
      let e : end ≡ gs = cc h in subst (AreInstances end) e tt
  sanitize_instances-AreInstances (field k v fs) gs h =
      let (source, es, h1) = >>=-eq-ok (need (as_dict v) _) _ h in
      let (more, em, h2) =
        >>=-eq-ok (sanitize_instances p fs)
          (λ more. ok (field k (obj (sanitize_instance p source)) more)) h1 in
      let e : field k (obj (sanitize_instance p source)) more ≡ gs = cc h2 in
      subst (AreInstances (field k v fs)) e (
        refl,
        sanitize_instance-IsRelayedInstance source,
        sanitize_instances-AreInstances fs more em,
      )

  -- Whatever the agent holds, what `sanitize_snapshot` returns shows of each instance only the relayed
  -- fields, with no private key at any depth of them, and of an error only the bare mark that there is
  -- one, and has at most 131072 bytes in all. The names of the instances and `generated_at` are not
  -- filtered: they are those of the document.
  pub sanitize_snapshot-IsSanitized :
      (document : Value) (r : Fields) → sanitize_snapshot p document ≡ ok r → IsSanitized document r
  sanitize_snapshot-IsSanitized document r h =
      let (source, sources, s, ed, ei, es, small, same) = sanitize_snapshot-parts p document r h in
      record {
        source = source;
        sources = sources;
        instances = s;
        is_source = ed;
        are_sources = ei;
        shape = sym same;
        relayed = sanitize_instances-AreInstances sources s es;
        fits = ground arith;
      }
