-- ===== src/Receive/Line.antt =====
-- From the sender of a frame to the client that reads messages: `can4vscp_buildFrame`,
-- `readSerialData` and `readMsg` together.
use native.Mathlib.Nat.{add-zero, zero-add}
use vscpl1drv_can4vscp.Prelude.{
  ℕ, zero, suc, Bool, ◌+◌, ◌-◌, ◌/◌, ◌%◌, ◌^◌, ◌≤◌, ◌<◌, ◌≡◌, ◌≢◌, refl, sym, ap, ◌∙◌, arith, List,
  [], ◌∷◌, ◌++◌, true, false, some, get_elem?, length, lt→ltb, if◌then◌else◌,
}
use vscpl1drv_can4vscp.Prelude.Memory.{Memory, prefix, get_elem?-prefix}
use vscpl1drv_can4vscp.Frame.{dle, build_frame, check_crc}
use vscpl1drv_can4vscp.Frame.Encode.{content, sealed, crc_from}
use vscpl1drv_can4vscp.Message.{CanalMsg}
use vscpl1drv_can4vscp.Platform.{Platform, IsFifo}
use vscpl1drv_can4vscp.Rx.{Rx, Read, State, ended, idle, serial_data, buffer_size}
use vscpl1drv_can4vscp.Rx.RoundTrip.{chars}
use vscpl1drv_can4vscp.Rx.EndToEnd.{serial_data-build_frame}
use vscpl1drv_can4vscp.Filter.{do_filter}
use vscpl1drv_can4vscp.Driver.{Driver, ok, fifo_empty, max_receive}
use vscpl1drv_can4vscp.Receive.Kinds.{Kind, multi_canal, classify}
use vscpl1drv_can4vscp.Receive.Packing.{
  At, At-append, SubFrame, IsSubFrame, All, pack, pack_all, accept_all, messages, clocked,
}
use vscpl1drv_can4vscp.Receive.Decode.{multi_canal_frame-pack_all}
use vscpl1drv_can4vscp.Receive.Multi.{multi_canal_frame}
use vscpl1drv_can4vscp.Receive.{
  declared_size, trace_payload, act, reset_rx, handle_frame, read_serial_data,
}
use vscpl1drv_can4vscp.Queues.Fifo.{
  passing, take, read_all, read_all_queue, accept_all-opened, accept_all_lem,
}

At-get_elem? :
    (buf : Memory) (xs : List ℕ) (at : ℕ)
    → ((i : ℕ) → i < length xs → get_elem? xs i ≡ some (buf (at + i)))
    → At buf at xs
At-get_elem? buf [] at h = tt
At-get_elem? buf (x ∷ xs) at h =
    let e : (i : ℕ) → at + suc i ≡ suc at + i = λ i. omega arith in
    let first : some x ≡ some (buf (at + 0)) = h zero (omega arith) in
    (
      ground (arith, (rw add-zero at first)),
      At-get_elem? buf xs (suc at) (λ i k. h (suc i) (omega arith) ∙ ap (λ j. some (buf j)) (e i)),
    )

-- Bytes that the buffer holds at its start.
At-prefix : (buf : Memory) (xs : List ℕ) → prefix buf (length xs) ≡ xs → At buf 0 xs
At-prefix buf xs e =
    At-get_elem? buf xs 0 (λ i k.
      ap (λ ys. get_elem? ys i) (sym e) ∙ rw zero-add (get_elem?-prefix buf (length xs) i k))

trace_payload-ok : (buf : Memory) (n : ℕ) → 5 + n ≤ buffer_size → trace_payload buf n ≡ ok tt
unfolding trace_payload
trace_payload-ok buf zero h = refl
trace_payload-ok buf (suc n) h =
    rw (trace_payload-ok buf n (omega arith), lt→ltb (5 + n) buffer_size (omega arith)) refl

traced :
    (b : Bool) (buf : Memory) (n : ℕ)
    → 5 + n ≤ buffer_size
    → trace_payload buf (if b then n else 0) ≡ ok tt
traced true buf n h = trace_payload-ok buf n h
traced false buf n h = trace_payload-ok buf 0 (omega arith)

-- The fields of a frame that the buffer holds.
At-content :
    (crc8 : ℕ → ℕ → ℕ) (buf : Memory) (t channel seq n : ℕ) (payload : List ℕ)
    → n < 2 ^ 16
    → At buf 0 (sealed crc8 (content t channel seq n payload))
    → (buf 0 ≡ t) × (declared_size buf ≡ n) × At buf 5 payload
At-content crc8 buf t channel seq n payload small h =
    let body = content t channel seq n payload in
    let fields = (At-append buf 0 body (crc_from crc8 0 body ∷ []) h).0 in
    let high : buf 3 ≡ n / 2 ^ 8 % 256 = fields.1.1.1.0 in
    let low : buf 4 ≡ n % 256 = fields.1.1.1.1.0 in (fields.0, omega arith, fields.1.1.1.1.1)

module _ (p : Platform) (now : ℕ) (clock : ℕ → ℕ) where
  handle_frame-act :
      (d e : Driver) (n : ℕ)
      → check_crc p.crc8 d.rx.buf d.rx.len ≡ true
      → declared_size d.rx.buf ≡ n
      → 5 + n ≤ buffer_size
      → act p now clock (classify p.frame_types (d.rx.buf 0)) d ≡ ok e
      → handle_frame p now clock d ≡ ok (reset_rx e)
  unfolding handle_frame
  handle_frame-act d e n crc size fits acted =
      rw (size, traced p.trace_enabled d.rx.buf n fits, crc, acted) refl

  -- A frame of `can4vscp_buildFrame` with a true size is handled by its kind.
  read_serial_data-frame :
      (mem : Memory) (t channel seq : ℕ) (payload : List ℕ) (rest : List Read) (kind : Kind)
      (d e : Driver)
      → d.rx.substate ≡ idle
      → d.rx.state ≢ ended
      → t ≢ dle
      → channel ≢ dle
      → classify p.frame_types t ≡ kind
      → length payload + 6 ≤ buffer_size
      → let w = build_frame p.crc8 mem t channel seq (length payload) payload in
        let reads = chars (prefix w.buf w.pos) rest in
        let rx = (serial_data d.rx reads).0 in
        (At rx.buf 5 payload
          → declared_size rx.buf ≡ length payload
          → act p now clock kind (record d { rx = rx }) ≡ ok e)
        → read_serial_data p now clock reads d ≡ ok (reset_rx e, rest)
  unfolding read_serial_data
  read_serial_data-frame mem t channel seq payload rest kind d e s st nt nc known fits acts =
      let n = length payload in
      let w = build_frame p.crc8 mem t channel seq n payload in
      let reads = chars (prefix w.buf w.pos) rest in
      let q = serial_data d.rx reads in
      let (got, crc) =
        serial_data-build_frame p.crc8 d.rx mem t channel seq n payload rest s st nt nc fits in
      let body = content t channel seq n payload in
      let stored : At q.0.buf 0 (sealed p.crc8 body) =
        At-prefix q.0.buf _ (ap (prefix q.0.buf) (sym got.len) ∙ got.body_stored) in
      let (type_at, size, bytes_at) =
        At-content p.crc8 q.0.buf t channel seq n payload (omega arith) stored in
      let acted : act p now clock (classify p.frame_types (q.0.buf 0)) (record d { rx = q.0 })
          ≡ ok e =
        rw (type_at, known) (acts bytes_at size) in
      let handled = handle_frame-act (record d { rx = q.0 }) e n crc size (omega arith) acted in
      rw (got.complete, handled, got.remaining) refl

  passing-received :
      (ms : List CanalMsg) (d : Driver) (rx : Rx)
      → passing p (record d { rx = rx; activity = now }) ms ≡ passing p d ms
  unfolding do_filter
  passing-received [] d rx = refl
  passing-received (m ∷ ms) d rx = rw (passing-received ms d rx) refl

  -- What a reader of the queue gets behind a run of messages.
  read_all-reset_rx :
      (fifo : IsFifo p.messages) (ms : List CanalMsg) (d : Driver) (rx : Rx)
      → d.opened ≡ true
      → let queue = d.receive_list ++ take (max_receive - length d.receive_list) (passing p d ms) in
        read_all p
          (suc (length queue))
          (reset_rx (accept_all p ms (record d { rx = rx; activity = now })))
        ≡ (queue, fifo_empty)
  read_all-reset_rx fifo ms d rx o =
      let d' = record d { rx = rx; activity = now } in
      let queue = accept_all_lem p fifo ms d' in
      read_all_queue p fifo _ (reset_rx (accept_all p ms d')) (accept_all-opened p fifo ms d' ∙ o)
        (rw passing-received at queue)

  act-multi_canal :
      (rx : Rx) (payload : List ℕ) (d e : Driver)
      → declared_size rx.buf ≡ length payload
      → multi_canal_frame p clock rx.buf (length payload) (record d { rx = rx; activity = now })
        ≡ ok e
      → act p now clock multi_canal (record d { rx = rx }) ≡ ok e
  unfolding act
  act-multi_canal rx payload d e size h = rw size h

  -- A MULTI_FRAME_CANAL frame that can4vscp_buildFrame builds of CAN messages is received and acted
  -- on without a fault, and readMsg then returns exactly the messages: behind those that were
  -- waiting, in their order, those that the filter lets through, as many as there is room for, and
  -- then reports an empty queue. The list keeps the order of its nodes, the frame type is none of
  -- those tested before it, the driver is open, its state machine is not behind a lone DLE, the
  -- identifiers have 29 bits, the data at most 8 bytes, the frame fits the receive buffer, and
  -- neither frame type nor channel is DLE.
  pub read_serial_data-multi_canal :
      (fifo : IsFifo p.messages) (mem : Memory) (channel seq : ℕ) (ss : List SubFrame)
      (rest : List Read) (d : Driver)
      → d.opened ≡ true
      → d.rx.substate ≡ idle
      → d.rx.state ≢ ended
      → p.frame_types.multi_frame_canal ≢ dle
      → channel ≢ dle
      → classify p.frame_types p.frame_types.multi_frame_canal ≡ multi_canal
      → All IsSubFrame ss
      → length (pack_all pack ss) + 6 ≤ buffer_size
      → let payload = pack_all pack ss in
        let w =
          build_frame p.crc8 mem p.frame_types.multi_frame_canal channel seq
            (length payload)
            payload in
        let sent = messages pack (clocked p clock) 5 ss in
        let queue =
          d.receive_list ++ take (max_receive - length d.receive_list) (passing p d sent) in
        (e : Driver) × (read_serial_data p now clock (chars (prefix w.buf w.pos) rest) d
          ≡ ok (e, rest))
        × (read_all p (suc (length queue)) e ≡ (queue, fifo_empty))
        × (e.rx.state ≡ State.none)
  read_serial_data-multi_canal fifo mem channel seq ss rest d o s st nt nc known valid fits =
      let payload = pack_all pack ss in
      let t = p.frame_types.multi_frame_canal in
      let w = build_frame p.crc8 mem t channel seq (length payload) payload in
      let rx = (serial_data d.rx (chars (prefix w.buf w.pos) rest)).0 in
      let d' = record d { rx = rx; activity = now } in
      let sent = messages pack (clocked p clock) 5 ss in
      (
        reset_rx (accept_all p sent d'),
        read_serial_data-frame mem t channel seq payload rest multi_canal d (accept_all p sent d') s
            st nt nc known fits
            (λ at size.
              act-multi_canal rx payload d (accept_all p sent d') size
                (multi_canal_frame-pack_all p clock rx.buf ss d' valid at (omega arith))),
        read_all-reset_rx fifo sent d rx o,
        refl,
      )
