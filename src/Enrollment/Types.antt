-- ===== src/Enrollment/Types.antt =====
-- enrollment.py: the files of the enrollment directory as records, and the fresh values that an
-- operation draws. A file that the program did not write itself is not modelled beyond the checks of
-- the stored key.
use printer_hmi_remote.Prelude.{ℕ, String, Option, List, []}
use printer_hmi_remote.Json.{Fields}
use printer_hmi_remote.Dict.{Dict}
use printer_hmi_remote.Codec.Base64.{Bytes}

-- identity.json; the constants `schema_version` and `algorithm` are left out.
pub record Identity : Type 0 where
  pub device_id : String
  pub public_key : String
  pub private_key : String
  pub fingerprint : String
  pub generation : ℕ
  pub created_at : String

pub record Pairing : Type 0 where
  pub created_at : String
  pub expires_at : String
  pub expires_epoch : ℕ
  pub salt : String
  pub code_digest : String
  pub attempts_remaining : ℕ

pub record Peer : Type 0 where
  pub peer_id : String
  pub public_key : String
  pub fingerprint : String
  pub paired_at : String
  pub revoked_at : Option String

pub record UsedChallenge : Type 0 where
  pub relay_id : String
  pub expires_epoch : ℕ
  pub used_at : String

-- state.json
pub record State : Type 0 where
  pub pairings : Dict Pairing
  pub peers : Dict Peer
  pub used_challenges : Dict UsedChallenge

abbrev pub empty_state : State
empty_state = record { pairings = []; peers = []; used_challenges = [] }

-- A line of audit.jsonl.
pub record Audit : Type 0 where
  pub at_time : String
  pub event : String
  pub outcome : String
  pub details : Fields

-- The enrollment directory. A missing file is `none`.
pub record Disk : Type 0 where
  pub identity : Option Identity
  pub state : Option State
  pub audit : List Audit

-- The clock and the random values of one operation, which holds the lock throughout and so is one
-- step: it reads one time, and draws at most one key, pairing and throw-away digest.
pub record Draw : Type 0 where
  pub now : ℕ
  pub private_key : Bytes
  pub pairing_id : String
  pub code : String
  pub salt : Bytes
  pub junk : Bytes
