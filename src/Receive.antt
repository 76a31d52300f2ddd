-- ===== src/Receive.antt =====
-- src/common/can4vscpobj.cpp: `readSerialData`, which reads one frame and acts on it. `clock` is
-- `getClockMicroSeconds` when the message at an offset of the buffer is made, `now` is
-- `getClockMilliSeconds`. `new` does not return NULL.
pub mod Reader
pub mod Stored
pub mod Invariant
pub mod Packing
pub mod Decode
pub mod Line
pub mod Shared
pub mod Safety
pub mod Unchanged
pub mod Untouched
pub mod Rounds
pub mod Progress
pub mod Kinds
pub mod Canal
pub mod Multi
pub mod Responses
use vscpl1drv_can4vscp.Prelude.{
  ℕ, zero, suc, ◌+◌, ◌-◌, ◌*◌, ◌%◌, ◌^◌, Bool, true, false, List, [], ◌∷◌, if◌then◌else◌, ◌==◌,
}
use vscpl1drv_can4vscp.Prelude.Memory.{Memory}
use vscpl1drv_can4vscp.Frame.{check_crc}
use vscpl1drv_can4vscp.Rx.{Rx, Read, State, idle, serial_data}
use vscpl1drv_can4vscp.Platform.{Platform}
use vscpl1drv_can4vscp.Driver.{Driver, Run, ok, fault, starved, ◌>>=◌, read_byte}
use vscpl1drv_can4vscp.Serial.{send_ack, send_nack}
use Kinds.{
  Kind, noop, canal, canal_timestamp, refused, multi_canal, multi_canal_timestamp, response,
  unknown, classify,
}
use Canal.{canal_frame, canal_timestamp_frame}
use Multi.{multi_canal_frame, multi_canal_timestamp_frame}
use Responses.{add_to_response_queue}

-- ((uint16_t) m_bufferMsgRcv[3] << 8) + m_bufferMsgRcv[4]
abbrev pub declared_size : Memory → ℕ
declared_size buf = buf 3 * 2 ^ 8 + buf 4

-- The trace output of the payload reads every byte that the frame declares.
unfoldable pub trace_payload : Memory → ℕ → Run (Unit {0})
trace_payload buf zero = ok tt
trace_payload buf (suc n) = trace_payload buf n >>= λ _. read_byte buf (5 + n) >>= λ _. ok tt

-- What a frame whose CRC is right does, by its kind. An unknown type leaves even the activity time.
unfoldable pub act : Platform → ℕ → (ℕ → ℕ) → Kind → Driver → Run Driver
act p now clock kind d =
    let active = record d { activity = now } in
    let buf = d.rx.buf in
    elim kind [
      | noop ↦ read_byte buf p.pos_frame_sequency >>= λ seq. ok (send_ack p seq active)
      | canal ↦ canal_frame p clock buf (declared_size buf) active
      | canal_timestamp ↦ canal_timestamp_frame p buf active
      | refused ↦ read_byte buf p.pos_frame_sequency >>= λ seq. ok (send_nack p seq active)
      | multi_canal ↦ multi_canal_frame p clock buf (declared_size buf) active
      | multi_canal_timestamp ↦ multi_canal_timestamp_frame p buf (declared_size buf) active
      | response ↦ add_to_response_queue p active
      | unknown ↦ ok d
    ]

-- The reset of the state machine behind a frame.
abbrev pub reset_rx : Driver → Driver
reset_rx d = record d { rx = record d.rx { state = State.none; substate = idle } }

-- A frame that is complete in the buffer: the trace output, the CRC check, the action.
unfoldable pub handle_frame : Platform → ℕ → (ℕ → ℕ) → Driver → Run Driver
handle_frame p now clock d = do
  let size = declared_size d.rx.buf
  _ ← trace_payload d.rx.buf (if p.trace_enabled then size else 0)
  if check_crc p.crc8 d.rx.buf d.rx.len
      then (do d' ← act p now clock (classify p.frame_types (d.rx.buf 0)) d; ok (reset_rx d'))
      else ok d

-- The new state and the reads that are left.
unfoldable pub read_serial_data :
    Platform → ℕ → (ℕ → ℕ) → List Read → Driver → Run (Driver × List Read)
read_serial_data p now clock reads d =
    let (rx, complete, left) = serial_data d.rx reads in
    let d' = record d { rx = rx } in
    if complete then (do d'' ← handle_frame p now clock d'; ok (d'', left)) else ok (d', left)

-- What a round of the receive thread meets: the time, the clock of the sub-frames, and the reads.
pub record Look : Type 0 where
  pub now : ℕ
  pub clock : ℕ → ℕ
  pub reads : List Read

-- `workThreadReceive`: rounds while `m_bRun` holds, as many as there are in the list.
unfoldable pub receive_loop : Platform → List Look → Driver → Run Driver
receive_loop p [] d = ok d
receive_loop p (k ∷ ks) d =
    if d.running
    then read_serial_data p k.now k.clock k.reads d >>= (λ r. receive_loop p ks r.0)
    else ok d
