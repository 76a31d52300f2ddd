-- ===== src/Receive/Responses.antt =====
-- src/common/can4vscpobj.cpp: `addToResponseQueue`.
use vscpl1drv_can4vscp.Prelude.{
  ℕ, ◌+◌, ◌*◌, ◌^◌, Bool, true, false, ◌&&◌, if◌then◌else◌, ◌==◌, ltb, leb, length,
}
use vscpl1drv_can4vscp.Platform.{Platform, Response}
use vscpl1drv_can4vscp.Driver.{Driver, Run, ok, ◌>>=◌, has_flag, flag_wait_for_ack, max_response}
use vscpl1drv_can4vscp.Receive.Reader.{read_bytes}

-- The outcome of the transfer in progress, when its ACK or NACK arrives: the writer is woken.
unfoldable pub settle : Bool → Driver → Driver
settle acked d = record d {
  info = record d.info { ack = acked; waiting_for_ack_nack = false };
  transmit_ack_nack_sem = d.transmit_ack_nack_sem + 1;
}

-- The ACK mechanism, with the frame type, the channel and the sequence number of the frame.
unfoldable pub note_ack_nack : Platform → ℕ → ℕ → ℕ → Driver → Driver
unfolding settle
note_ack_nack p frame_type channel seq d =
    if has_flag d flag_wait_for_ack
      && (d.info.waiting_for_ack_nack && (d.info.channel == channel && d.info.seq == seq))
    then if frame_type == p.frame_types.ack
      then settle true d
      else if frame_type == p.frame_types.nack
      then settle false d
      else d
    else d

-- The response is queued, and the oldest one dropped where the queue is full.
unfoldable pub queue_response : Platform → Response → Driver → Driver
queue_response p r d =
    let kept =
      if leb max_response (length d.response_list)
      then p.responses.remove_head d.response_list
      else d.response_list in
    record d { response_list = p.responses.add_node kept r }

unfoldable pub add_to_response_queue : Platform → Driver → Run Driver
add_to_response_queue p d = do
  let buf = d.rx.buf
  let size = buf 3 * 2 ^ 8 + buf 4
  payload ← read_bytes buf 5 (if ltb 512 size then 512 else size)
  ok (
      queue_response p
        (record {
          op = buf 0;
          seq = buf 2;
          channel = buf 1;
          size_payload = size;
          payload = payload;
        })
        (note_ack_nack p (buf 0) (buf 1) (buf 2) d))
