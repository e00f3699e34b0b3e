-- ===== src/Enrollment/Signed.antt =====
-- enrollment.py: documents that carry a signature over all their other fields, each kind under its
-- own domain.
use printer_hmi_remote.Prelude.{String, [], ◌∷◌, ◌++◌, codes, ok, err}
use printer_hmi_remote.Json.{Value, str, obj, Fields, end, field}
use printer_hmi_remote.Json.Canonical.{canonical}
use printer_hmi_remote.Codec.Base64
use printer_hmi_remote.Codec.Base64.{Bytes}
use printer_hmi_remote.Platform.{Platform}
use printer_hmi_remote.Enrollment.Keys.{normalize_code}

abbrev pub domain : String → Bytes
domain s = codes s ++ (0 ∷ [])

abbrev pub challenge_signature_domain : Bytes
challenge_signature_domain = domain "PrinterHMI Remote relay challenge response v1"

abbrev pub enrollment_receipt_domain : Bytes
enrollment_receipt_domain = domain "PrinterHMI Remote enrollment receipt v1"

-- `d[k] = v` for a key that is not there: a new last entry.
unfoldable pub append_field : Fields → String → Value → Fields
append_field end k v = field k v end
append_field (field j w fs) k v = field j w (append_field fs k v)

module _ (p : Platform) where
  -- What is signed.
  unfoldable pub signed_payload : Bytes → Fields → Bytes
  signed_payload domain_bytes fs = domain_bytes ++ canonical p (obj fs)

  -- `response["signature"] = _b64encode(private_key.sign(DOMAIN + _canonical(response)))`
  unfoldable pub add_signature : Bytes → Bytes → Fields → Fields
  add_signature domain_bytes private_key fs =
      append_field fs "signature"
        (str (Base64.encode (p.sign private_key (signed_payload domain_bytes fs))))

  -- A malformed code is the blank one, which no pairing has.
  unfoldable pub normalized_or_blank : Value → String
  normalized_or_blank v = elim (normalize_code p v) [ ok s ↦ s | err e ↦ "" ]
