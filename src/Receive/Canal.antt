-- ===== src/Receive/Canal.antt =====
-- The frame types CANAL and CANAL_TIMESTAMP of `readSerialData` (src/common/can4vscpobj.cpp).
use vscpl1drv_can4vscp.Prelude.{ℕ, ◌+◌, if◌then◌else◌, ltb}
use vscpl1drv_can4vscp.Prelude.Memory.{Memory}
use vscpl1drv_can4vscp.Platform.{Platform}
use vscpl1drv_can4vscp.Driver.{Driver, Run, ok, ◌>>=◌, read_byte}
use vscpl1drv_can4vscp.Receive.Reader.{
  read_bytes, read_word, deliver, overrun, has_room, received, Next, stop, advance, payload_loop,
}

-- One round for CANAL. The identifier is read at the start of the payload in every round.
unfoldable pub canal_round : Platform → (ℕ → ℕ) → Memory → ℕ → Driver → Run Next
canal_round p clock buf pos d = do
  data_len ← read_byte buf (pos + 4)
  if ltb 8 data_len
      then ok (stop (overrun d))
      else if has_room d
      then (do
        id ← read_word buf 5
        bytes ← read_bytes buf (pos + 5) data_len
        ok (advance (5 + data_len) (deliver p (received p id data_len bytes (clock pos)) d)))
      else ok (advance (5 + data_len) (overrun d))

unfoldable pub canal_frame : Platform → (ℕ → ℕ) → Memory → ℕ → Driver → Run Driver
canal_frame p clock buf size d = payload_loop (canal_round p clock buf) size size 5 d

-- CANAL_TIMESTAMP has one message and does not look at the payload size.
unfoldable pub canal_timestamp_frame : Platform → Memory → Driver → Run Driver
canal_timestamp_frame p buf d =
    if has_room d
    then (do
      id ← read_word buf 5
      timestamp ← read_word buf 9
      dlc ← read_byte buf 13
      let size = if ltb 8 dlc then 8 else dlc
      bytes ← read_bytes buf 14 size
      ok (deliver p (received p id size bytes timestamp) d))
    else ok (overrun d)
