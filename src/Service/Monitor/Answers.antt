-- ===== src/Service/Monitor/Answers.antt =====
-- monitor.py: a request is answered by the first message with its identifier.
use printer_hmi_remote.Prelude.{ℕ, ◌≡◌, false, List, [], ◌∷◌, ◌++◌, All, true, ok, arith}
use printer_hmi_remote.Prelude.Int.{pos}
use printer_hmi_remote.Json.{int, Fields, get, py_eq}
use printer_hmi_remote.Platform.{Platform}
use printer_hmi_remote.Service.Monitor.{Frame, read_message, wait_reply, result_of}

module _ (p : Platform) where
  -- A message that answers another request, or none.
  abbrev pub IsOther : ℕ → Frame → Type 0
  IsOther id frame =
      (message : Fields) × (read_message p frame ≡ ok message)
      × (py_eq (get "id" message) (int (pos id)) ≡ false)

  -- The first message with the request's identifier answers it: with well-formed messages of other
  -- identifiers before it, `request` returns what that message says, and leaves what comes after.
  pub wait_reply-answers :
      (id : ℕ) (before after : List Frame) (reply : Frame) (message : Fields)
      → All (IsOther id) before
      → read_message p reply ≡ ok message
      → py_eq (get "id" message) (int (pos id)) ≡ true
      → wait_reply p id (before ++ (reply ∷ after)) ≡ (result_of p message, after)
  unfolding wait_reply
  wait_reply-answers id [] after reply message others reads same = ground (arith, reads, same)
  wait_reply-answers id (frame ∷ before) after reply message ((m, seen, differs), others) reads
        same =
      ground
        (arith, seen, differs, wait_reply-answers id before after reply message others reads same)
