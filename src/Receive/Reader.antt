-- ===== src/Receive/Reader.antt =====
-- What the frame types of `readSerialData` (src/common/can4vscpobj.cpp) that carry CAN messages share:
-- reads from the receive buffer, the delivery of a message, and the loop over the sub-frames.
use vscpl1drv_can4vscp.Prelude.{
  ℕ, zero, suc, ◌+◌, ◌-◌, Bool, List, [], ◌∷◌, if◌then◌else◌, ◌==◌, ltb, length,
}
use vscpl1drv_can4vscp.Prelude.Memory.{Memory}
use vscpl1drv_can4vscp.Message.{CanalMsg, masked_word}
use vscpl1drv_can4vscp.Platform.{Platform}
use vscpl1drv_can4vscp.Filter.{do_filter}
use vscpl1drv_can4vscp.Driver.{Driver, Run, ok, starved, ◌>>=◌, read_byte, max_receive}

-- memcpy from m_bufferMsgRcv
unfoldable pub read_bytes : Memory → ℕ → ℕ → Run (List ℕ)
read_bytes buf start zero = ok []
read_bytes buf start (suc n) =
    read_byte buf start >>= λ b. read_bytes buf (start + 1) n >>= λ bs. ok (b ∷ bs)

-- The four bytes at an offset, as an identifier or a time stamp.
unfoldable pub read_word : Memory → ℕ → Run ℕ
read_word buf at = do
  b0 ← read_byte buf at
  b1 ← read_byte buf (at + 1)
  b2 ← read_byte buf (at + 2)
  b3 ← read_byte buf (at + 3)
  ok (masked_word b0 b1 b2 b3)

-- A message that passes the filter goes to the receive queue, its reader is woken and the
-- statistics count it.
unfoldable pub deliver : Platform → CanalMsg → Driver → Driver
deliver p m d =
    if do_filter p d m
    then record d {
      receive_list = p.messages.add_node d.receive_list m;
      receive_data_sem = d.receive_data_sem + 1;
      stat = record d.stat {
        receive_data = d.stat.receive_data + m.size_data;
        receive_frames = d.stat.receive_frames + 1;
      };
    }
    else d

-- m_stat.cntOverruns++
unfoldable pub overrun : Driver → Driver
overrun d = record d { stat = record d.stat { overruns = d.stat.overruns + 1 } }

-- m_receiveList.nCount < CAN4VSCP_MAX_RCVMSG
abbrev pub has_room : Driver → Bool
has_room d = ltb (length d.receive_list) max_receive

-- The message that is made of a received one. It is always marked as extended.
abbrev pub received : Platform → ℕ → ℕ → List ℕ → ℕ → CanalMsg
received p id size bytes timestamp = record {
  flags = p.idflag_extended;
  obid = 0;
  id = id;
  size_data = size;
  bytes = bytes;
  timestamp = timestamp;
}

-- After a round of a loop over sub-frames: `break`, or on by the size of a sub-frame.
pub data Next : Type 0 where
  stop : Driver → Next
  advance : ℕ → Driver → Next

-- `while (sizePayload > 0)`, with `sizePayload` (a `long`) in `remaining` and `posFrame` in `pos`:
-- a difference below 0 ends the loop as 0 does.
unfoldable pub payload_loop : (ℕ → Driver → Run Next) → ℕ → ℕ → ℕ → Driver → Run Driver
payload_loop body zero remaining pos d = if remaining == 0 then ok d else starved
payload_loop body (suc fuel) remaining pos d =
    let round = body pos d >>= λ next. elim next [
      | stop d' ↦ ok d'
      | advance size d' ↦ payload_loop body fuel (remaining - size) (pos + size) d'
    ] in
    if remaining == 0 then ok d else round
