-- ===== src/Configuration/Proof.antt =====
-- relay_configuration.py with enrollment.py: what an agent makes of a request that the manager created.
use printer_hmi_remote.Prelude.{
  String, [], ◌∷◌, ◌≡◌, refl, true, Option, length, arith, Error, ok, Result-cases, inl, inr,
  >>=-eq-ok,
}
use printer_hmi_remote.Json.{
  Value, null, bool, int, float, str, arr, obj, Fields, end, field, get, lookup, same_keys, member,
  keys,
}
use printer_hmi_remote.Codec.Base64
use printer_hmi_remote.Codec.Base64.{Bytes}
use printer_hmi_remote.Codec.Pattern.{matches_relay_id, is_uuid}
use printer_hmi_remote.Platform.{Platform}
use printer_hmi_remote.Enrollment.Keys.{b64decode, bytes_eq}
use printer_hmi_remote.Enrollment.Request.{Request, read_request}
use printer_hmi_remote.Enrollment.Challenge.Accepts.{made, create_relay_challenge-made}
use printer_hmi_remote.Enrollment.Challenge.{create_relay_challenge, peer_proof_payload}
use printer_hmi_remote.Enrollment.Store.{bad_encoding}
use printer_hmi_remote.Enrollment.Signed.{normalized_or_blank}
use printer_hmi_remote.Prelude.Int.{pos}
use printer_hmi_remote.Configuration.Directory.{read_json}
use printer_hmi_remote.Configuration.Load.{bad_key, load_state, check_identity, text_of}
use printer_hmi_remote.Configuration.Request.{Offer, Fresh, read_pairing_id, read_offer, request_of}

bytes_eq→eq : (a b : Bytes) → bytes_eq a b ≡ true → a ≡ b
unfolding bytes_eq
bytes_eq→eq [] [] h = refl
bytes_eq→eq (x ∷ a) (y ∷ b) h = ground (arith, bytes_eq→eq a b)
bytes_eq→eq [] (y ∷ b) h = cc
bytes_eq→eq (x ∷ a) [] h = cc

-- Whether a text decodes does not depend on the error for those that do not.
b64decode_any :
    (e e' : Error) (v : Value) (k : Bytes) → b64decode e v ≡ ok k → b64decode e' v ≡ ok k
unfolding b64decode
b64decode_any e e' (str s) k h = ground arith
b64decode_any e e' null k h = cc
b64decode_any e e' (bool b) k h = cc
b64decode_any e e' (int n) k h = cc
b64decode_any e e' (float m) k h = cc
b64decode_any e e' (arr xs) k h = cc
b64decode_any e e' (obj fs) k h = cc

module _ (p : Platform) where
  -- The private key of the state, and the identifier of its peer.
  identity_of :
      (fs : Fields)
      → check_identity p fs ≡ ok tt
      → (k : Bytes) × (b64decode bad_key (get "peer_private_key" fs) ≡ ok k)
        × (b64decode bad_key (get "peer_public_key" fs) ≡ ok (p.public_key k))
  unfolding check_identity
  identity_of fs h =
      let (k, decodes, h1) = >>=-eq-ok (b64decode bad_key (get "peer_private_key" fs)) _ h in
      let (public, shows, h2) = >>=-eq-ok (b64decode bad_key (get "peer_public_key" fs)) _ h1 in
      let same : p.public_key k ≡ public = ground (arith, bytes_eq→eq (p.public_key k) public) in
      (k, decodes, rw same shows)

  load_state-check_identity :
      (read : Option Value) (fs : Fields) → load_state p read ≡ ok fs → check_identity p fs ≡ ok tt
  unfolding load_state read_json
  load_state-check_identity read fs h = ground arith

  pub peer_of :
      (read : Option Value) (fs : Fields)
      → load_state p read ≡ ok fs
      → (get "peer_id" fs ≡ str (text_of (get "peer_id" fs)))
        × (matches_relay_id (text_of (get "peer_id" fs)) ≡ true)
  unfolding load_state read_json
  peer_of read fs h = (ground arith, ground arith)

  read_pairing_id-is_uuid :
      (fs : Fields) (id : String) → read_pairing_id p fs ≡ ok id → is_uuid id ≡ true
  unfolding read_pairing_id
  read_pairing_id-is_uuid fs id h = ground arith

  pub offered_pairing :
      (file : Option Value) (o : Offer) → read_offer p file ≡ ok o → is_uuid o.pairing_id ≡ true
  unfolding read_offer
  offered_pairing file o h =
      let (fs, read, h1) = >>=-eq-ok (read_json file "pairing offer") _ h in
      elim (Result-cases (read_pairing_id p fs)) [
        | inl (id, pairing) ↦ ground (arith, read_pairing_id-is_uuid fs id pairing)
        | inr (e, fails) ↦ absurd (ground arith)
      ]

  -- What `read_request` returns for a request that is formed like the manager's.
  unfoldable pub formed_request : String → Value → String → String → Value → Bytes → Fields
  formed_request pairing_id challenge code peer key signature =
      field "schema_version" (int (pos 1)) (
        field "type" (str "relay.enrollment-request") (
          field "challenge" challenge (
            field "pairing_id" (str pairing_id) (
              field "code" (str code) (
                field "peer_id" (str peer) (
                  field "peer_public_key" key
                    (field "peer_signature" (str (Base64.encode signature)) end)))))))

  pub read_formed :
      (pairing_id : String) (challenge : Value) (code peer : String) (key : Value)
      (k signature : Bytes)
      → is_uuid pairing_id ≡ true
      → matches_relay_id peer ≡ true
      → b64decode bad_key key ≡ ok k
      → length k ≡ 32
      → p.accepts_key k ≡ true
      → length signature ≡ 64
      → b64decode bad_encoding (str (Base64.encode signature)) ≡ ok signature
      → (r : Request) × (read_request p
            (obj (formed_request pairing_id challenge code peer key signature))
          ≡ ok r)
        × (r.pairing_id ≡ pairing_id)
        × (r.peer_id ≡ peer)
        × (r.peer_key ≡ k)
        × (r.peer_signature ≡ signature)
        × (r.challenge ≡ challenge)
  unfolding read_request formed_request lookup same_keys keys member
  read_formed pairing_id challenge code peer key k signature u m dk lk ak ls ds = (
    record {
      challenge = challenge;
      pairing_id = pairing_id;
      normalized_code = normalized_or_blank p (str code);
      peer_id = peer;
      peer_key = k;
      peer_signature = signature;
    },
    rw (u, m, b64decode_any bad_key bad_encoding key k dk, ds, lk, ls, ak) refl,
    refl,
    refl,
    refl,
    refl,
    refl,
  )

  -- What the peer of a state signs for an offer.
  abbrev pub proof_of : Fields → Offer → Fields → Bytes
  proof_of fs o challenge =
      peer_proof_payload p challenge o.pairing_id (text_of (get "peer_id" fs)) o.device_id

  -- The challenge of a request.
  abbrev pub drawn_challenge : Fields → Offer → Fresh → Fields
  drawn_challenge fs o fresh =
      made p o.device_id (text_of (get "relay_id" fs)) fresh.now fresh.challenge_id fresh.nonce

  -- The private key that a state holds signs the request for an offer, with the challenge in it.
  abbrev pub IsSigned : Fields → Offer → Fresh → Fields → Fields → Type 0
  IsSigned fs o fresh challenge request =
      (k : Bytes) × (b64decode bad_key (get "peer_public_key" fs) ≡ ok (p.public_key k))
      × (request
          ≡ formed_request o.pairing_id (obj (drawn_challenge fs o fresh)) o.code
              (text_of (get "peer_id" fs)) (get "peer_public_key" fs)
              (p.sign k (proof_of fs o challenge)))
      × (challenge ≡ drawn_challenge fs o fresh)
      × (matches_relay_id (text_of (get "relay_id" fs)) ≡ true)

  pub request_of-IsSigned :
      (read : Option Value) (fs : Fields) (o : Offer) (fresh : Fresh) (challenge request : Fields)
      → load_state p read ≡ ok fs
      → request_of p fs o fresh ≡ ok (challenge, request)
      → IsSigned fs o fresh challenge request
  unfolding request_of formed_request
  request_of-IsSigned read fs o fresh challenge request loads asked =
      let (k, private, public) = identity_of fs (load_state-check_identity read fs loads) in
      let relay_id = text_of (get "relay_id" fs) in
      elim (Result-cases (
        create_relay_challenge p o.device_id relay_id 300 fresh.now fresh.challenge_id
          fresh.nonce)) [
            | inl (doc, drawn) ↦
                let (shape, named) =
                  create_relay_challenge-made p o.device_id relay_id fresh.now fresh.challenge_id
                    fresh.nonce doc drawn in
                (
                  k,
                  public,
                  ground (arith, shape, (peer_of read fs loads).0),
                  ground (arith, shape),
                  named,
                )
            | inr (e, fails) ↦ absurd (ground arith)
          ]
