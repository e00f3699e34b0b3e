-- ===== src/Transport/Link.antt =====
-- relay_transport.py: `read_frame` and `write_frame` on the two streams of one connection.
use printer_hmi_remote.Prelude.{ℕ, ◌-◌, List, [], ◌∷◌, ◌++◌, ◌==◌, Error, other}
use printer_hmi_remote.Action.{Action, lift, gets, modify, check, ◌>>=◌, ◌>>◌}
use printer_hmi_remote.Json.{Fields}
use printer_hmi_remote.Codec.Base64.{Bytes}
use printer_hmi_remote.Platform.{Platform}
use printer_hmi_remote.Transport.Frame.{Incoming, timeout, read_frame, write_frame}

-- What the peer will deliver, what it has been sent, and how many writes go well before the
-- connection breaks.
pub record Link : Type 0 where
  pub inbox : List Incoming
  pub writes_left : ℕ
  pub sent : List Bytes

-- What `drain` raises on a broken connection.
abbrev pub os_error : Error
os_error = other "OSError"

-- A peer that delivers nothing more keeps the reader waiting.
abbrev next : List Incoming → Incoming
next [] = timeout
next (x ∷ xs) = x

abbrev later : List Incoming → List Incoming
later [] = []
later (x ∷ xs) = xs

module _ (p : Platform) where
  unfoldable pub receive : Action Link Fields
  receive l = (read_frame p (next l.inbox), record l { inbox = later l.inbox })

  unfoldable pub transmit : Fields → Action Link Unit
  transmit document = do
    payload ← lift (write_frame p document)
    left ← gets λ (l : Link). l.writes_left
    check (left == 0) os_error
    modify
        λ (l : Link). record l { writes_left = l.writes_left - 1; sent = l.sent ++ (payload ∷ []) }
