-- ===== src/Serial.antt =====
-- src/common/can4vscpobj.cpp: `sendMsg`, `sendACK`, `sendNACK`, `sendNoopFrame` and the frames that
-- go out. A frame is built in a local array whose first contents do not matter: here they are 0.
use vscpl1drv_can4vscp.Prelude.{
  ℕ, ◌+◌, ◌%◌, ◌^◌, Bool, true, false, List, [], ◌∷◌, ◌++◌, if◌then◌else◌,
}
use vscpl1drv_can4vscp.Prelude.Memory.{prefix}
use vscpl1drv_can4vscp.Frame.{build_frame}
use vscpl1drv_can4vscp.Platform.{Platform}
use vscpl1drv_can4vscp.Driver.{Driver}

-- Writes the buffer if the port is open, and tells whether it was written.
unfoldable pub send_msg : Platform → List ℕ → Driver → Driver × Bool
send_msg p bytes d =
    if d.port.is_open
    then (
      record d { port = record { is_open = true; writes = d.port.writes ++ (bytes ∷ []) } },
      p.comm_puts d.port.writes bytes,
    )
    else (d, false)

-- `can4vscp_buildFrame` into a local array, as the bytes that `sendMsg` is given. The channel is 0.
unfoldable pub frame_bytes : Platform → ℕ → ℕ → ℕ → List ℕ → List ℕ
frame_bytes p frame_type seq declared payload =
    let w = build_frame p.crc8 (λ i. 0) frame_type 0 seq declared payload in prefix w.buf w.pos

-- The result of `sendMsg` is ignored in these three.
unfoldable pub send_ack : Platform → ℕ → Driver → Driver
send_ack p seq d = (send_msg p (frame_bytes p p.frame_types.ack seq 0 []) d).0

unfoldable pub send_nack : Platform → ℕ → Driver → Driver
send_nack p seq d = (send_msg p (frame_bytes p p.frame_types.nack seq 0 []) d).0

unfoldable pub send_noop_frame : Platform → Driver → Driver
send_noop_frame p d =
    (send_msg p (frame_bytes p p.frame_types.noop d.sequencyno 0 [])
      (record d { sequencyno = (d.sequencyno + 1) % 2 ^ 8 })).0
