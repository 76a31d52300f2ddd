-- ===== src/Transmit.antt =====
-- src/common/can4vscpobj.cpp: `transmitMessage`, which sends the first message of the transmit queue
-- in a CANAL frame. The message stays in the queue.
pub mod Frames
pub mod Worker
use vscpl1drv_can4vscp.Prelude.{
  ℕ, zero, suc, ◌+◌, ◌%◌, ◌^◌, Bool, true, false, not, List, [], ◌∷◌, ◌++◌, ltb, if◌then◌else◌,
}
use vscpl1drv_can4vscp.Message.{CanalMsg, id_bytes}
use vscpl1drv_can4vscp.Platform.{Platform}
use vscpl1drv_can4vscp.Driver.{Driver, Run, ok, fault, ◌>>=◌}
use vscpl1drv_can4vscp.Serial.{send_msg, frame_bytes}

-- The copy of the data to the local array `payload`, which has room for 8 bytes behind the identifier.
unfoldable pub data_bytes : List ℕ → ℕ → Run (List ℕ)
data_bytes xs zero = ok []
data_bytes [] (suc n) = fault
data_bytes (x ∷ xs) (suc n) = data_bytes xs n >>= λ ys. ok (x ∷ ys)

-- The fields that wait for the ACK or NACK of the frame with a sequence number.
abbrev pub arm : ℕ → Driver → Driver
arm seq d = record d {
  info = record { waiting_for_ack_nack = true; ack = false; seq = seq; channel = 0 };
}

abbrev pub disarm : Driver → Driver
disarm d = record d { info = record d.info { waiting_for_ack_nack = false } }

-- The message, as a frame on the port: whether it was sent, and the next sequence number.
unfoldable pub transmit_frame : Platform → ℕ → List ℕ → ℕ → Driver → Driver × Bool × ℕ
transmit_frame p declared payload seq d =
    let armed = arm seq d in
    let (sent, success) =
      send_msg p (frame_bytes p p.frame_types.canal seq declared payload) armed in
    (if success then sent else disarm sent, success, (seq + 1) % 2 ^ 8)

unfoldable pub transmit_head : Platform → ℕ → Driver → List CanalMsg → Run (Driver × Bool × ℕ)
transmit_head p seq d [] = ok (d, false, seq)
transmit_head p seq d (m ∷ ms) = if ltb 8 m.size_data then fault else (do
  bytes ← data_bytes m.bytes m.size_data
  ok (transmit_frame p (4 + m.size_data) (id_bytes m.id ++ bytes) seq d))

unfoldable pub transmit_message : Platform → ℕ → Driver → Run (Driver × Bool × ℕ)
transmit_message p seq d =
    if not d.opened then ok (d, false, seq) else transmit_head p seq d d.transmit_list
