-- ===== src/Enrollment/Redeem.antt =====
-- enrollment.py: a pairing code that was offered can be used.
use printer_hmi_remote.Prelude.{
  ℕ, ◌+◌, ◌<◌, String, ◌≡◌, refl, true, false, none, some, arith, ok, str_eq, eq_refl, [], ◌∷◌,
}
use printer_hmi_remote.Json.{Value, str}
use printer_hmi_remote.Dict
use printer_hmi_remote.Dict.{lookup-insert, lookup-erase}
use printer_hmi_remote.Codec.Base64
use printer_hmi_remote.Codec.Base64.{Bytes, IsBytes}
use printer_hmi_remote.Codec.Base64.RoundTrip.{decode-encode}
use printer_hmi_remote.Codec.Time.{seconds, timestamp}
use printer_hmi_remote.Platform.{Platform}
use printer_hmi_remote.Enrollment.Types.{Peer, State, Disk, Draw}
use printer_hmi_remote.Enrollment.Keys.{b64decode, bytes_eq, code_digest, fingerprint}
use printer_hmi_remote.Enrollment.Store.{
  bad_encoding, prune_expired, ensure_identity, is_active, consume_pairing_locked,
}
use printer_hmi_remote.Enrollment.Operations.{create_pairing, new_pairing}
use printer_hmi_remote.Enrollment.Pairings.{pairing_of}
use printer_hmi_remote.Enrollment.Frames.{state_of}

module _ (p : Platform) (draw : Draw) where
  pairing_of-create_pairing :
      (ttl : ℕ) (d : Disk) (v : Value)
      → (create_pairing p draw ttl d).0 ≡ ok v
      → pairing_of draw.pairing_id (create_pairing p draw ttl d).1 ≡ some (new_pairing p draw ttl)
  unfolding create_pairing
  pairing_of-create_pairing ttl d v h =
      let added = lookup-insert draw.pairing_id draw.pairing_id (new_pairing p draw ttl) in
      ground (
        arith,
        eq_refl draw.pairing_id,
        added (prune_expired p draw (state_of (ensure_identity p draw d).1.state)).pairings,
      )

pub bytes_eq_refl : (bs : Bytes) → bytes_eq bs bs ≡ true
unfolding bytes_eq
bytes_eq_refl [] = refl
bytes_eq_refl (b ∷ bs) = ground (arith, bytes_eq_refl bs)

module _ (p : Platform) where
  decodes : (bs : Bytes) → IsBytes bs → b64decode bad_encoding (str (Base64.encode bs)) ≡ ok bs
  unfolding b64decode
  decodes bs h = rw (decode-encode bs h) refl

  -- The peer as it is enrolled.
  abbrev pub new_peer : Draw → String → Bytes → Peer
  new_peer draw peer_id key = record {
    peer_id = peer_id;
    public_key = Base64.encode key;
    fingerprint = fingerprint p key;
    paired_at = timestamp p draw.now;
    revoked_at = none;
  }

  consume_pairing_locked-enrolls :
      (draw draw' : Draw) (ttl : ℕ) (state : State) (peer_id : String) (key : Bytes) (d : Disk)
      → Dict.lookup draw.pairing_id state.pairings ≡ some (new_pairing p draw ttl)
      → draw'.now < draw.now + seconds ttl
      → str_eq draw.code "" ≡ false
      → is_active p draw' (Dict.lookup peer_id state.peers) ≡ false
      → IsBytes draw.salt
      → IsBytes (code_digest p draw.code draw.salt)
      → Dict.lookup peer_id
          (state_of
            (consume_pairing_locked p draw' state draw.pairing_id draw.code peer_id key true
              d).1.state).peers
        ≡ some (new_peer draw' peer_id key)
  unfolding consume_pairing_locked
  consume_pairing_locked-enrolls draw draw' ttl state peer_id key d found live code inactive hs hd =
      ground (
        arith,
        decodes draw.salt hs,
        decodes (code_digest p draw.code draw.salt) hd,
        bytes_eq_refl (code_digest p draw.code draw.salt),
        lookup-insert peer_id peer_id (new_peer draw' peer_id key) state.peers,
        eq_refl peer_id,
      )

  -- After `create_pairing` has returned, the code that it drew enrolls a peer with the key it brings,
  -- where the code is not blank, the pairing has not expired, no active peer has the identifier, and the
  -- salt and the digest of the code are lists of byte values.
  pub create_pairing-enrolls :
      (draw draw' : Draw) (ttl : ℕ) (peer_id : String) (key : Bytes) (d : Disk) (v : Value)
      → (create_pairing p draw ttl d).0 ≡ ok v
      → draw'.now < draw.now + seconds ttl
      → str_eq draw.code "" ≡ false
      → is_active p draw'
          (Dict.lookup peer_id (state_of (create_pairing p draw ttl d).1.state).peers)
        ≡ false
      → IsBytes draw.salt
      → IsBytes (code_digest p draw.code draw.salt)
      → Dict.lookup peer_id
          (state_of
            (consume_pairing_locked p draw'
              (state_of (create_pairing p draw ttl d).1.state)
              draw.pairing_id
              draw.code
              peer_id
              key
              true
              (create_pairing p draw ttl d).1).1.state).peers
        ≡ some (new_peer draw' peer_id key)
  create_pairing-enrolls draw draw' ttl peer_id key d v h live code inactive hs hd =
      let d' = (create_pairing p draw ttl d).1 in
      consume_pairing_locked-enrolls draw draw' ttl (state_of d'.state) peer_id key d'
        (pairing_of-create_pairing p draw ttl d v h) live code inactive hs hd
