-- ===== src/Receive/Invariant.antt =====
-- The bounds of the queues and of the receive buffer, for `readSerialData` of
-- src/common/can4vscpobj.cpp.
use vscpl1drv_can4vscp.Prelude.{
  ℕ, zero, suc, ◌+◌, ◌-◌, ◌≤◌, ◌≡◌, ap, arith, List, [], ◌∷◌, ◌==◌, leb, leb→le, Bool-cases, inl,
  inr, true, length, length-append,
}
use vscpl1drv_can4vscp.Prelude.Memory.{Memory}
use vscpl1drv_can4vscp.Message.{CanalMsg}
use vscpl1drv_can4vscp.Platform.{Platform, Response, IsFifo}
use vscpl1drv_can4vscp.Rx.{Read, serial_data, buffer_size}
use vscpl1drv_can4vscp.Rx.Bounds.{serial_data_bounds}
use vscpl1drv_can4vscp.Serial.{send_msg, send_ack, send_nack}
use vscpl1drv_can4vscp.Driver.{Driver, Run, ok, fault, starved, ◌>>=◌, max_receive, max_response}
use vscpl1drv_can4vscp.Driver.Outcome.{OnOk}
use vscpl1drv_can4vscp.Receive.Reader.{
  has_room, deliver, overrun, Next, stop, advance, payload_loop,
}
use vscpl1drv_can4vscp.Receive.Canal.{canal_round, canal_timestamp_frame, canal_frame}
use vscpl1drv_can4vscp.Receive.Multi.{
  multi_canal_round, multi_canal_timestamp_round, multi_canal_frame, multi_canal_timestamp_frame,
}
use vscpl1drv_can4vscp.Receive.Kinds.{
  Kind, noop, canal, canal_timestamp, refused, multi_canal, multi_canal_timestamp, response,
  unknown, classify,
}
use vscpl1drv_can4vscp.Receive.Responses.{note_ack_nack, queue_response, add_to_response_queue}
use vscpl1drv_can4vscp.Receive.{declared_size, act, handle_frame, read_serial_data}

pub record IsBounded (d : Driver) : Type 0 where
  pub receive : length d.receive_list ≤ max_receive
  pub response : length d.response_list ≤ max_response
  pub rx_len : d.rx.len ≤ buffer_size

abbrev NextBounded : Next → Type 0
NextBounded (stop d) = IsBounded d
NextBounded (advance size d) = IsBounded d

module _ (p : Platform) (fifo : IsFifo p.messages) where
  deliver-IsBounded :
      (m : CanalMsg) (d : Driver) → has_room d ≡ true → IsBounded d → IsBounded (deliver p m d)
  unfolding deliver
  deliver-IsBounded m d room v = ground (
    arith,
    ap length (fifo.add_node_lem d.receive_list m),
    length-append {0} d.receive_list (m ∷ []),
  )

  overrun-IsBounded : (d : Driver) → IsBounded d → IsBounded (overrun d)
  unfolding overrun
  overrun-IsBounded d v = ground arith

  canal_round-IsBounded :
      (clock : ℕ → ℕ) (buf : Memory) (pos : ℕ) (d : Driver)
      → IsBounded d
      → OnOk NextBounded (canal_round p clock buf pos d)
  unfolding canal_round
  canal_round-IsBounded clock buf pos d v = grind (arith, deliver-IsBounded, overrun-IsBounded)

  multi_canal_round-IsBounded :
      (clock : ℕ → ℕ) (buf : Memory) (pos : ℕ) (d : Driver)
      → IsBounded d
      → OnOk NextBounded (multi_canal_round p clock buf pos d)
  unfolding multi_canal_round
  multi_canal_round-IsBounded clock buf pos d v =
      grind (arith, deliver-IsBounded, overrun-IsBounded)

  multi_canal_timestamp_round-IsBounded :
      (buf : Memory) (pos : ℕ) (d : Driver)
      → IsBounded d
      → OnOk NextBounded (multi_canal_timestamp_round p buf pos d)
  unfolding multi_canal_timestamp_round
  multi_canal_timestamp_round-IsBounded buf pos d v =
      grind (arith, deliver-IsBounded, overrun-IsBounded)

  canal_timestamp_frame-IsBounded :
      (buf : Memory) (d : Driver) → IsBounded d → OnOk IsBounded (canal_timestamp_frame p buf d)
  unfolding canal_timestamp_frame
  canal_timestamp_frame-IsBounded buf d v = grind (arith, deliver-IsBounded, overrun-IsBounded)

next-IsBounded :
    (r : Run Next) (next : ℕ → Driver → Run Driver)
    → OnOk NextBounded r
    → ((size : ℕ) (d : Driver) → IsBounded d → OnOk IsBounded (next size d))
    → OnOk IsBounded (r >>= λ n. elim n [ stop d ↦ ok d | advance size d ↦ next size d ])
next-IsBounded (ok (stop d)) next v h = v
next-IsBounded (ok (advance size d)) next v h = h size d v
next-IsBounded fault next v h = tt
next-IsBounded starved next v h = tt

payload_loop-IsBounded :
    (body : ℕ → Driver → Run Next) (fuel remaining pos : ℕ) (d : Driver)
    → ((at : ℕ) (e : Driver) → IsBounded e → OnOk NextBounded (body at e))
    → IsBounded d
    → OnOk IsBounded (payload_loop body fuel remaining pos d)
unfolding payload_loop
payload_loop-IsBounded body zero remaining pos d keep v = ground arith
payload_loop-IsBounded body (suc fuel) remaining pos d keep v =
    let next =
      λ (size : ℕ) (d' : Driver). payload_loop body fuel (remaining - size) (pos + size) d' in
    let later : (size : ℕ) (d' : Driver) → IsBounded d' → OnOk IsBounded (next size d') =
      λ size d' w. payload_loop-IsBounded body fuel (remaining - size) (pos + size) d' keep w in
    elim (Bool-cases (remaining == 0)) [
      | inl done ↦ rw done v
      | inr more ↦ rw more (next-IsBounded (body pos d) next (keep pos d v) later)
    ]

module _ (p : Platform) (messages : IsFifo p.messages) (responses : IsFifo p.responses) where
  canal_frame-IsBounded :
      (clock : ℕ → ℕ) (buf : Memory) (size : ℕ) (d : Driver)
      → IsBounded d
      → OnOk IsBounded (canal_frame p clock buf size d)
  unfolding canal_frame
  canal_frame-IsBounded clock buf size d v =
      payload_loop-IsBounded (canal_round p clock buf) size size 5 d
        (canal_round-IsBounded p messages clock buf) v

  multi_canal_frame-IsBounded :
      (clock : ℕ → ℕ) (buf : Memory) (size : ℕ) (d : Driver)
      → IsBounded d
      → OnOk IsBounded (multi_canal_frame p clock buf size d)
  unfolding multi_canal_frame
  multi_canal_frame-IsBounded clock buf size d v =
      payload_loop-IsBounded (multi_canal_round p clock buf) size size 5 d
        (multi_canal_round-IsBounded p messages clock buf) v

  multi_canal_timestamp_frame-IsBounded :
      (buf : Memory) (size : ℕ) (d : Driver)
      → IsBounded d
      → OnOk IsBounded (multi_canal_timestamp_frame p buf size d)
  unfolding multi_canal_timestamp_frame
  multi_canal_timestamp_frame-IsBounded buf size d v =
      payload_loop-IsBounded (multi_canal_timestamp_round p buf) size size 5 d
        (multi_canal_timestamp_round-IsBounded p messages buf) v

  note_ack_nack-IsBounded :
      (frame_type channel seq : ℕ) (d : Driver)
      → IsBounded d
      → IsBounded (note_ack_nack p frame_type channel seq d)
  unfolding note_ack_nack
  note_ack_nack-IsBounded frame_type channel seq d v = ground arith

  dropped :
      (xs : List Response)
      → max_response ≤ length xs
      → length xs ≤ max_response
      → suc (length (p.responses.remove_head xs)) ≡ max_response
  dropped [] h k = absurd (omega arith)
  dropped (x ∷ xs) h k = rw (responses.remove_head_lem x xs) (omega arith)

  queue_response-IsBounded :
      (r : Response) (d : Driver) → IsBounded d → IsBounded (queue_response p r d)
  unfolding queue_response
  queue_response-IsBounded r d v = elim (Bool-cases (leb max_response (length d.response_list))) [
    | inl full ↦
        rw (full, responses.add_node_lem (p.responses.remove_head d.response_list) r)
          (record {
            receive = v.receive;
            response = omega (
              arith,
              length-append {0} (p.responses.remove_head d.response_list) (r ∷ []),
              dropped d.response_list (leb→le _ _ full) v.response,
            );
            rx_len = v.rx_len;
          })
    | inr room ↦
        rw (room, responses.add_node_lem d.response_list r)
          (record {
            receive = v.receive;
            response = ground (arith, length-append {0} d.response_list (r ∷ []));
            rx_len = v.rx_len;
          })
  ]

  add_to_response_queue-IsBounded :
      (d : Driver) → IsBounded d → OnOk IsBounded (add_to_response_queue p d)
  unfolding add_to_response_queue
  add_to_response_queue-IsBounded d v =
      grind (arith, queue_response-IsBounded, note_ack_nack-IsBounded)

  send_msg-IsBounded :
      (bytes : List ℕ) (d : Driver) → IsBounded d → IsBounded (send_msg p bytes d).0
  unfolding send_msg
  send_msg-IsBounded bytes d v = ground arith

  send_ack-IsBounded : (seq : ℕ) (d : Driver) → IsBounded d → IsBounded (send_ack p seq d)
  unfolding send_ack
  send_ack-IsBounded seq d v = send_msg-IsBounded _ d v

  send_nack-IsBounded : (seq : ℕ) (d : Driver) → IsBounded d → IsBounded (send_nack p seq d)
  unfolding send_nack
  send_nack-IsBounded seq d v = send_msg-IsBounded _ d v

  active-IsBounded : (now : ℕ) (d : Driver) → IsBounded d → IsBounded (record d { activity = now })
  active-IsBounded now d v = ground arith

  act-IsBounded :
      (now : ℕ) (clock : ℕ → ℕ) (k : Kind) (d : Driver)
      → IsBounded d
      → OnOk IsBounded (act p now clock k d)
  unfolding act
  act-IsBounded now clock noop d v =
      ground
        (arith, send_ack-IsBounded (d.rx.buf p.pos_frame_sequency) (record d { activity = now }))
  act-IsBounded now clock canal d v =
      canal_frame-IsBounded clock d.rx.buf (declared_size d.rx.buf) (record d { activity = now })
        (active-IsBounded now d v)
  act-IsBounded now clock canal_timestamp d v =
      canal_timestamp_frame-IsBounded p messages d.rx.buf (record d { activity = now })
        (active-IsBounded now d v)
  act-IsBounded now clock refused d v =
      ground
        (arith, send_nack-IsBounded (d.rx.buf p.pos_frame_sequency) (record d { activity = now }))
  act-IsBounded now clock multi_canal d v =
      multi_canal_frame-IsBounded clock d.rx.buf (declared_size d.rx.buf)
        (record d { activity = now }) (active-IsBounded now d v)
  act-IsBounded now clock multi_canal_timestamp d v =
      multi_canal_timestamp_frame-IsBounded d.rx.buf (declared_size d.rx.buf)
        (record d { activity = now }) (active-IsBounded now d v)
  act-IsBounded now clock response d v =
      add_to_response_queue-IsBounded (record d { activity = now }) (active-IsBounded now d v)
  act-IsBounded now clock unknown d v = v

  handle_frame-IsBounded :
      (now : ℕ) (clock : ℕ → ℕ) (d : Driver)
      → IsBounded d
      → OnOk IsBounded (handle_frame p now clock d)
  unfolding handle_frame
  handle_frame-IsBounded now clock d v =
      ground (arith, act-IsBounded now clock (classify p.frame_types (d.rx.buf 0)) d v)

  -- Where readSerialData returns, the receive queue has at most 4096 messages, the response queue
  -- at most 32 responses and the receive length is within the buffer, if this held before; the
  -- lists keep the order of their nodes.
  pub read_serial_data-IsBounded :
      (now : ℕ) (clock : ℕ → ℕ) (reads left : List Read) (d e : Driver)
      → IsBounded d
      → read_serial_data p now clock reads d ≡ ok (e, left)
      → IsBounded e
  unfolding read_serial_data
  read_serial_data-IsBounded now clock reads left d e v h =
      let d' = record d { rx = (serial_data d.rx reads).0 } in
      let fits = (serial_data_bounds d.rx reads v.rx_len).0 in
      let v' : IsBounded d' = record {
        receive = v.receive;
        response = v.response;
        rx_len = fits;
      } in
      ground (arith, handle_frame-IsBounded now clock d' v')
