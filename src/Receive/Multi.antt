-- ===== src/Receive/Multi.antt =====
-- The frame types MULTI_FRAME_CANAL and MULTI_FRAME_CANAL_TIMESTAMP of `readSerialData`
-- (src/common/can4vscpobj.cpp).
use vscpl1drv_can4vscp.Prelude.{ℕ, ◌+◌, if◌then◌else◌, ltb}
use vscpl1drv_can4vscp.Prelude.Memory.{Memory}
use vscpl1drv_can4vscp.Platform.{Platform}
use vscpl1drv_can4vscp.Driver.{Driver, Run, ok, ◌>>=◌, read_byte}
use vscpl1drv_can4vscp.Receive.Reader.{
  read_bytes, read_word, deliver, overrun, has_room, received, Next, stop, advance, payload_loop,
}

-- A length above 8 is cut to 8 in the message, and moves the position by the whole length.
unfoldable pub multi_canal_round : Platform → (ℕ → ℕ) → Memory → ℕ → Driver → Run Next
multi_canal_round p clock buf pos d =
    if has_room d
    then (do
      id ← read_word buf pos
      dlc ← read_byte buf (pos + 4)
      let size = if ltb 8 dlc then 8 else dlc
      bytes ← read_bytes buf (pos + 5) size
      ok (advance (5 + dlc) (deliver p (received p id size bytes (clock pos)) d)))
    else (do dlc ← read_byte buf (pos + 4); ok (advance (5 + dlc) (overrun d)))

unfoldable pub multi_canal_frame : Platform → (ℕ → ℕ) → Memory → ℕ → Driver → Run Driver
multi_canal_frame p clock buf size d = payload_loop (multi_canal_round p clock buf) size size 5 d

-- A length above 8 abandons the frame.
unfoldable pub multi_canal_timestamp_round : Platform → Memory → ℕ → Driver → Run Next
multi_canal_timestamp_round p buf pos d = do
  data_len ← read_byte buf (pos + 8)
  if ltb 8 data_len
      then ok (stop (overrun d))
      else if has_room d
      then (do
        id ← read_word buf pos
        timestamp ← read_word buf (pos + 4)
        bytes ← read_bytes buf (pos + 9) data_len
        ok (advance (9 + data_len) (deliver p (received p id data_len bytes timestamp) d)))
      else ok (advance (9 + data_len) (overrun d))

unfoldable pub multi_canal_timestamp_frame : Platform → Memory → ℕ → Driver → Run Driver
multi_canal_timestamp_frame p buf size d =
    payload_loop (multi_canal_timestamp_round p buf) size size 5 d
