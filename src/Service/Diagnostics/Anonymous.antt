-- ===== src/Service/Diagnostics/Anonymous.antt =====
-- diagnostics.py: what the report says of a printer.
use printer_hmi_remote.Prelude.{
  ℕ, ◌+◌, String, ◌≡◌, refl, Bool, true, false, none, some, List, [], ◌∷◌, ◌++◌, length, subst,
  if◌then◌else◌, arith,
}
use printer_hmi_remote.Json.{null, str, Fields, end, field, keys, get, lookup, as_dict}
use printer_hmi_remote.Service.Diagnostics.{
  Texts, device_summary, printer_document, catalog_printers, other_printers, is_listed, printers,
  alias_of,
}

abbrev pub report_keys : List String
report_keys =
    "alias" ∷ "reachable" ∷ "moonraker_version" ∷ "klippy_state" ∷ "connected" ∷ "captured_at"
    ∷ "error" ∷ "print_state" ∷ "temperature_device_count" ∷ "fan_device_count" ∷ []

module _ (texts : Texts) where
  -- The printers are named by their places from `index` on, and each has the report's keys and no other.
  abbrev pub IsAnonymous : ℕ → List Fields → Type 0
  IsAnonymous index [] = Unit
  IsAnonymous index (printer ∷ rest) =
      (keys printer ≡ report_keys)
      × (get "alias" printer ≡ str (alias_of texts index))
      × IsAnonymous (index + 1) rest

  catalog_printers-IsAnonymous :
      (snapshots : Fields) (index : ℕ) (items rest : List Fields)
      → IsAnonymous (index + length items) rest
      → IsAnonymous index (catalog_printers texts snapshots index items ++ rest)
  unfolding catalog_printers printer_document device_summary keys lookup
  catalog_printers-IsAnonymous snapshots index [] rest h =
      subst (λ n. IsAnonymous n rest) (omega arith) h
  catalog_printers-IsAnonymous snapshots index (item ∷ items) rest h = (
    refl,
    refl,
    catalog_printers-IsAnonymous snapshots (index + 1) items rest
        (subst (λ n. IsAnonymous n rest) (omega arith) h),
  )

  if-IsAnonymous :
      (index : ℕ) (b : Bool) (xs ys : List Fields)
      → IsAnonymous index xs
      → IsAnonymous index ys
      → IsAnonymous index (if b then xs else ys)
  if-IsAnonymous index true xs ys h g = h
  if-IsAnonymous index false xs ys h g = g

  other_printers-IsAnonymous :
      (items : List Fields) (index : ℕ) (snapshots : Fields)
      → IsAnonymous index (other_printers texts items index snapshots)
  unfolding other_printers printer_document device_summary keys lookup
  other_printers-IsAnonymous items index end = tt
  other_printers-IsAnonymous items index (field id telemetry snapshots) =
      elim (as_dict telemetry)
        as (λ o. IsAnonymous index (elim o [
          | none ↦ other_printers texts items index snapshots
          | some fs ↦
              if is_listed id items
              then other_printers texts items index snapshots
              else printer_document texts index null null null fs
                ∷ other_printers texts items (index + 1) snapshots
        ])) [
          | none ↦ other_printers-IsAnonymous items index snapshots
          | some fs ↦
              if-IsAnonymous index (is_listed id items) _ _
                (other_printers-IsAnonymous items index snapshots)
                (refl, refl, other_printers-IsAnonymous items (index + 1) snapshots)
        ]

  -- The printers of a diagnostics report are named printer-1, printer-2 and so on, in this order, whatever
  -- the catalog and the snapshots call them, and each has the ten keys of the report and no other.
  pub printers-IsAnonymous :
      (items : List Fields) (snapshots : Fields) → IsAnonymous 1 (printers texts items snapshots)
  unfolding printers
  printers-IsAnonymous items snapshots =
      catalog_printers-IsAnonymous snapshots 1 items
        (other_printers texts items (length items + 1) snapshots)
        (subst (λ n. IsAnonymous n (other_printers texts items (length items + 1) snapshots))
          (omega arith) (other_printers-IsAnonymous items (length items + 1) snapshots))
