-- ===== src/Receive/Untouched.antt =====
-- What `readSerialData` of src/common/can4vscpobj.cpp leaves as it is: the transmit queue with its
-- counters, the flags of the session, the filter and the mask. Whole responses stay whole.
use vscpl1drv_can4vscp.Prelude.{
  ℕ, ◌+◌, ◌≡◌, refl, arith, List, [], ◌∷◌, ◌≤◌, ◌*◌, ◌^◌, length, leb, leb→le, ltb, if◌then◌else◌,
  Bool-cases, inl, inr,
}
use vscpl1drv_can4vscp.Platform.{Platform, Response, IsFifo}
use vscpl1drv_can4vscp.Rx.{Read, serial_data}
use vscpl1drv_can4vscp.Serial.{send_msg, send_ack, send_nack}
use vscpl1drv_can4vscp.Driver.{Driver, ok, max_response}
use vscpl1drv_can4vscp.Driver.Outcome.{OnOk, OnOk-ok, bind-OnOk, map-OnOk}
use vscpl1drv_can4vscp.Receive.Reader.{read_bytes}
use vscpl1drv_can4vscp.Receive.Canal.{canal_round, canal_timestamp_frame, canal_frame}
use vscpl1drv_can4vscp.Receive.Multi.{
  multi_canal_round, multi_canal_timestamp_round, multi_canal_frame, multi_canal_timestamp_frame,
}
use vscpl1drv_can4vscp.Receive.Kinds.{
  Kind, noop, canal, canal_timestamp, refused, multi_canal, multi_canal_timestamp, response,
  unknown, classify,
}
use vscpl1drv_can4vscp.Receive.Stored.{
  FourBytes, Whole, append-Whole, remove_head-Whole, HasLength, read_bytes-HasLength,
}
use vscpl1drv_can4vscp.Receive.Responses.{note_ack_nack, queue_response, add_to_response_queue}
use vscpl1drv_can4vscp.Receive.{declared_size, act, handle_frame, read_serial_data}
use vscpl1drv_can4vscp.Receive.Unchanged.{
  IsUntouched, untouched, IsUntouched-trans, canal_round-IsUntouched, multi_canal_round-IsUntouched,
  multi_canal_timestamp_round-IsUntouched, canal_timestamp_frame-IsUntouched,
  payload_loop-IsUntouched,
}

module _ (p : Platform) (responses : IsFifo p.responses) where
  note_ack_nack-IsUntouched :
      (frame_type channel seq : ℕ) (d : Driver)
      → IsUntouched d (note_ack_nack p frame_type channel seq d)
  unfolding note_ack_nack
  note_ack_nack-IsUntouched frame_type channel seq d = ground (arith, untouched d)

  dropped-Whole :
      (xs : List Response)
      → max_response ≤ length xs
      → Whole xs
      → Whole (p.responses.remove_head xs)
  dropped-Whole [] h w = absurd (omega arith)
  dropped-Whole (x ∷ xs) h w = remove_head-Whole p responses x xs w

  queue_response-Whole :
      (r : Response) (d : Driver)
      → FourBytes r
      → Whole d.response_list
      → Whole (queue_response p r d).response_list
  unfolding queue_response
  queue_response-Whole r d four w = elim (Bool-cases (leb max_response (length d.response_list))) [
    | inl full ↦
        let rest = p.responses.remove_head d.response_list in
        let many = leb→le max_response (length d.response_list) full in
        rw (full, responses.add_node_lem rest r)
          (append-Whole rest r (dropped-Whole d.response_list many w) four)
    | inr room ↦
        rw (room, responses.add_node_lem d.response_list r) (append-Whole d.response_list r w four)
  ]

  queue_response-IsUntouched :
      (r : Response) (d : Driver) → FourBytes r → IsUntouched d (queue_response p r d)
  unfolding queue_response
  queue_response-IsUntouched r d four = record {
    transmit_list = refl;
    running = refl;
    opened = refl;
    strict = refl;
    init_flag = refl;
    filter = refl;
    mask = refl;
    transmit_data = refl;
    transmit_frames = refl;
    transmit_data_put_sem = refl;
    whole = queue_response-Whole r d four;
  }

  add_to_response_queue-IsUntouched :
      (d : Driver) → OnOk (IsUntouched d) (add_to_response_queue p d)
  unfolding add_to_response_queue
  add_to_response_queue-IsUntouched d =
      let buf = d.rx.buf in
      let size = buf 3 * 2 ^ 8 + buf 4 in
      let stored = if ltb 512 size then 512 else size in
      let noted = note_ack_nack p (buf 0) (buf 1) (buf 2) d in
      bind-OnOk (HasLength stored) (IsUntouched d) (read_bytes buf 5 stored) _
        (read_bytes-HasLength buf 5 stored)
        (λ payload h.
          IsUntouched-trans d noted _ (note_ack_nack-IsUntouched (buf 0) (buf 1) (buf 2) d)
            (queue_response-IsUntouched _ noted (λ four. ground arith)))

  send_ack-IsUntouched : (seq : ℕ) (d : Driver) → IsUntouched d (send_ack p seq d)
  unfolding send_ack send_msg
  send_ack-IsUntouched seq d = ground (arith, untouched d)

  send_nack-IsUntouched : (seq : ℕ) (d : Driver) → IsUntouched d (send_nack p seq d)
  unfolding send_nack send_msg
  send_nack-IsUntouched seq d = ground (arith, untouched d)

  -- The activity time is not among what is kept.
  active : (now : ℕ) (d e : Driver) → IsUntouched (record d { activity = now }) e → IsUntouched d e
  active now d e v = record {
    transmit_list = v.transmit_list;
    running = v.running;
    opened = v.opened;
    strict = v.strict;
    init_flag = v.init_flag;
    filter = v.filter;
    mask = v.mask;
    transmit_data = v.transmit_data;
    transmit_frames = v.transmit_frames;
    transmit_data_put_sem = v.transmit_data_put_sem;
    whole = v.whole;
  }

  act-IsUntouched :
      (now : ℕ) (clock : ℕ → ℕ) (k : Kind) (d : Driver) → OnOk (IsUntouched d) (act p now clock k d)
  unfolding act canal_frame multi_canal_frame multi_canal_timestamp_frame
  act-IsUntouched now clock noop d =
      ground
        (arith, send_ack-IsUntouched (d.rx.buf p.pos_frame_sequency) (record d { activity = now }))
  act-IsUntouched now clock canal d =
      payload_loop-IsUntouched (canal_round p clock d.rx.buf) (declared_size d.rx.buf)
        (declared_size d.rx.buf) 5 d (record d { activity = now })
        (canal_round-IsUntouched p clock d.rx.buf) (ground arith)
  act-IsUntouched now clock canal_timestamp d =
      let d' = record d { activity = now } in
      map-OnOk (IsUntouched d') (IsUntouched d) (canal_timestamp_frame p d.rx.buf d')
        (canal_timestamp_frame-IsUntouched p d.rx.buf d') (active now d)
  act-IsUntouched now clock refused d =
      ground
        (arith, send_nack-IsUntouched (d.rx.buf p.pos_frame_sequency) (record d { activity = now }))
  act-IsUntouched now clock multi_canal d =
      payload_loop-IsUntouched (multi_canal_round p clock d.rx.buf) (declared_size d.rx.buf)
        (declared_size d.rx.buf) 5 d (record d { activity = now })
        (multi_canal_round-IsUntouched p clock d.rx.buf) (ground arith)
  act-IsUntouched now clock multi_canal_timestamp d =
      payload_loop-IsUntouched (multi_canal_timestamp_round p d.rx.buf) (declared_size d.rx.buf)
        (declared_size d.rx.buf) 5 d (record d { activity = now })
        (multi_canal_timestamp_round-IsUntouched p d.rx.buf) (ground arith)
  act-IsUntouched now clock response d =
      let d' = record d { activity = now } in
      map-OnOk (IsUntouched d') (IsUntouched d) (add_to_response_queue p d')
        (add_to_response_queue-IsUntouched d') (active now d)
  act-IsUntouched now clock unknown d = ground arith

  handle_frame-IsUntouched :
      (now : ℕ) (clock : ℕ → ℕ) (d : Driver) → OnOk (IsUntouched d) (handle_frame p now clock d)
  unfolding handle_frame
  handle_frame-IsUntouched now clock d =
      ground (arith, act-IsUntouched now clock (classify p.frame_types (d.rx.buf 0)) d, untouched d)

  abbrev pub ReadUntouched : Driver → Driver × List Read → Type 0
  ReadUntouched d r = IsUntouched d r.0

  pub read_serial_data-IsUntouched :
      (now : ℕ) (clock : ℕ → ℕ) (reads : List Read) (d : Driver)
      → OnOk (ReadUntouched d) (read_serial_data p now clock reads d)
  unfolding read_serial_data
  read_serial_data-IsUntouched now clock reads d =
      let d' = record d { rx = (serial_data d.rx reads).0 } in
      ground (arith, handle_frame-IsUntouched now clock d', untouched d)

pub read_serial_data_lem :
    (p : Platform) (responses : IsFifo p.responses) (now : ℕ) (clock : ℕ → ℕ)
    (reads left : List Read) (d e : Driver)
    → read_serial_data p now clock reads d ≡ ok (e, left)
    → IsUntouched d e
read_serial_data_lem p responses now clock reads left d e run =
    OnOk-ok (ReadUntouched p responses d) (read_serial_data p now clock reads d) (e, left)
      (read_serial_data-IsUntouched p responses now clock reads d) run
