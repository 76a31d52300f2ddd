-- ===== src/Receive/Safety.antt =====
-- Reads of `readSerialData` (src/common/can4vscpobj.cpp) from the receive buffer.
use vscpl1drv_can4vscp.Prelude.{
  ℕ, zero, suc, ◌+◌, ◌-◌, ◌≤◌, ◌<◌, ◌≡◌, ◌≢◌, refl, arith, true, false, List, ltb, lt→ltb, ◌==◌,
  Bool-cases, inl, inr,
}
use vscpl1drv_can4vscp.Prelude.Memory.{Memory}
use vscpl1drv_can4vscp.Platform.{Platform}
use vscpl1drv_can4vscp.Rx.{Read, serial_data, buffer_size}
use vscpl1drv_can4vscp.Driver.Outcome.{total}
use vscpl1drv_can4vscp.Driver.{Driver, Run, ok, fault, starved, ◌>>=◌, read_byte}
use vscpl1drv_can4vscp.Receive.Reader.{read_bytes, read_word, Next, stop, advance, payload_loop}
use vscpl1drv_can4vscp.Receive.Kinds.{
  Kind, noop, canal, canal_timestamp, refused, multi_canal, multi_canal_timestamp, response,
  unknown, classify,
}
use vscpl1drv_can4vscp.Receive.Canal.{canal_round, canal_frame, canal_timestamp_frame}
use vscpl1drv_can4vscp.Receive.Multi.{
  multi_canal_round, multi_canal_frame, multi_canal_timestamp_round, multi_canal_timestamp_frame,
}
use vscpl1drv_can4vscp.Receive.Responses.{add_to_response_queue}
use vscpl1drv_can4vscp.Receive.Progress.{trace_payload-ne-starved, read_serial_data-ne-starved}
use vscpl1drv_can4vscp.Receive.{declared_size, trace_payload, act, handle_frame, read_serial_data}

read_byte-ne-fault : (buf : Memory) (at : ℕ) → at < buffer_size → read_byte buf at ≢ fault
read_byte-ne-fault buf at h = rw (lt→ltb at buffer_size h) (λ e. cc)

read_bytes-ne-fault :
    (buf : Memory) (start n : ℕ) → start + n ≤ buffer_size → read_bytes buf start n ≢ fault
unfolding read_bytes
read_bytes-ne-fault buf start zero h = λ e. cc
read_bytes-ne-fault buf start (suc n) h =
    ground (arith, read_bytes-ne-fault buf (start + 1) n (omega arith))

read_word-ne-fault : (buf : Memory) (at : ℕ) → at + 4 ≤ buffer_size → read_word buf at ≢ fault
unfolding read_word
read_word-ne-fault buf at h = ground arith

canal_round-ne-fault :
    (p : Platform) (clock : ℕ → ℕ) (buf : Memory) (pos : ℕ) (d : Driver)
    → pos + 17 ≤ buffer_size
    → canal_round p clock buf pos d ≢ fault
unfolding canal_round
canal_round-ne-fault p clock buf pos d h =
    ground (arith, read_bytes-ne-fault buf (pos + 5) (buf (pos + 4)), read_word-ne-fault buf 5)

multi_canal_round-ne-fault :
    (p : Platform) (clock : ℕ → ℕ) (buf : Memory) (pos : ℕ) (d : Driver)
    → pos + 17 ≤ buffer_size
    → multi_canal_round p clock buf pos d ≢ fault
unfolding multi_canal_round
multi_canal_round-ne-fault p clock buf pos d h = ground (
  arith,
  read_bytes-ne-fault buf (pos + 5) (buf (pos + 4)),
  read_bytes-ne-fault buf (pos + 5) 8,
  read_word-ne-fault buf pos,
)

multi_canal_timestamp_round-ne-fault :
    (p : Platform) (buf : Memory) (pos : ℕ) (d : Driver)
    → pos + 17 ≤ buffer_size
    → multi_canal_timestamp_round p buf pos d ≢ fault
unfolding multi_canal_timestamp_round
multi_canal_timestamp_round-ne-fault p buf pos d h = ground (
  arith,
  read_bytes-ne-fault buf (pos + 9) (buf (pos + 8)),
  read_word-ne-fault buf pos,
  read_word-ne-fault buf (pos + 4),
)

canal_timestamp_frame-ne-fault :
    (p : Platform) (buf : Memory) (d : Driver) → canal_timestamp_frame p buf d ≢ fault
unfolding canal_timestamp_frame
canal_timestamp_frame-ne-fault p buf d = ground (
  arith,
  read_bytes-ne-fault buf 14 (buf 13),
  read_bytes-ne-fault buf 14 8,
  read_word-ne-fault buf 5,
  read_word-ne-fault buf 9,
)

add_to_response_queue-ne-fault : (p : Platform) (d : Driver) → add_to_response_queue p d ≢ fault
unfolding add_to_response_queue
add_to_response_queue-ne-fault p d = ground (
  arith,
  read_bytes-ne-fault d.rx.buf 5 512,
  read_bytes-ne-fault d.rx.buf 5 (declared_size d.rx.buf),
)

trace_payload-ne-fault : (buf : Memory) (n : ℕ) → 5 + n ≤ buffer_size → trace_payload buf n ≢ fault
unfolding trace_payload
trace_payload-ne-fault buf zero h = λ e. cc
trace_payload-ne-fault buf (suc n) h = ground (arith, trace_payload-ne-fault buf n)

next-ne-fault :
    (r : Run Next) (next : ℕ → Driver → Run Driver)
    → r ≢ fault
    → ((size : ℕ) (d : Driver) → next size d ≢ fault)
    → (r >>= λ n. elim n [ stop d ↦ ok d | advance size d ↦ next size d ]) ≢ fault
next-ne-fault (ok (stop d)) next g h = λ e. cc
next-ne-fault (ok (advance size d)) next g h = h size d
next-ne-fault fault next g h = λ e. g refl
next-ne-fault starved next g h = λ e. cc

-- A loop stays in front of `limit`, and reads nothing behind its rounds.
payload_loop-ne-fault :
    (body : ℕ → Driver → Run Next) (limit fuel remaining pos : ℕ) (d : Driver)
    → ((at : ℕ) (e : Driver) → at < limit → body at e ≢ fault)
    → (0 < remaining → pos + remaining ≤ limit)
    → payload_loop body fuel remaining pos d ≢ fault
unfolding payload_loop
payload_loop-ne-fault body limit zero remaining pos d safe h = ground arith
payload_loop-ne-fault body limit (suc fuel) remaining pos d safe h =
    let later : (size : ℕ) (d' : Driver)
        → payload_loop body fuel (remaining - size) (pos + size) d' ≢ fault =
      λ size d'.
        payload_loop-ne-fault body limit fuel (remaining - size) (pos + size) d' safe
          (λ k. omega (arith, h (omega arith))) in
    elim (Bool-cases (remaining == 0)) [
      | inl done ↦ rw done (λ e. cc)
      | inr more ↦
          let positive : 0 < remaining = ground arith in
          rw more (
            next-ne-fault (body pos d)
              (λ size d'. payload_loop body fuel (remaining - size) (pos + size) d')
              (safe pos d (omega (arith, h positive))) later)
    ]

-- The largest payload whose sub-frames are read within the buffer, whatever lengths they give.
abbrev pub safe_size : ℕ
safe_size = 5099

module _ (p : Platform) (sequency : p.pos_frame_sequency < buffer_size) where
  act-ne-fault :
      (now : ℕ) (clock : ℕ → ℕ) (k : Kind) (d : Driver)
      → declared_size d.rx.buf ≤ safe_size
      → act p now clock k d ≢ fault
  unfolding act canal_frame multi_canal_frame multi_canal_timestamp_frame
  act-ne-fault now clock noop d h =
      ground (arith, read_byte-ne-fault d.rx.buf p.pos_frame_sequency sequency)
  act-ne-fault now clock canal d h =
      let size = declared_size d.rx.buf in
      payload_loop-ne-fault (canal_round p clock d.rx.buf) (5 + size) size size 5
        (record d { activity = now })
        (λ at e k. canal_round-ne-fault p clock d.rx.buf at e (omega arith)) (λ k. omega arith)
  act-ne-fault now clock canal_timestamp d h =
      canal_timestamp_frame-ne-fault p d.rx.buf (record d { activity = now })
  act-ne-fault now clock refused d h =
      ground (arith, read_byte-ne-fault d.rx.buf p.pos_frame_sequency sequency)
  act-ne-fault now clock multi_canal d h =
      let size = declared_size d.rx.buf in
      payload_loop-ne-fault (multi_canal_round p clock d.rx.buf) (5 + size) size size 5
        (record d { activity = now })
        (λ at e k. multi_canal_round-ne-fault p clock d.rx.buf at e (omega arith))
        (λ k. omega arith)
  act-ne-fault now clock multi_canal_timestamp d h =
      let size = declared_size d.rx.buf in
      payload_loop-ne-fault (multi_canal_timestamp_round p d.rx.buf) (5 + size) size size 5
        (record d { activity = now })
        (λ at e k. multi_canal_timestamp_round-ne-fault p d.rx.buf at e (omega arith))
        (λ k. omega arith)
  act-ne-fault now clock response d h =
      add_to_response_queue-ne-fault p (record d { activity = now })
  act-ne-fault now clock unknown d h = λ e. cc

  handle_frame-ne-fault :
      (now : ℕ) (clock : ℕ → ℕ) (d : Driver)
      → declared_size d.rx.buf ≤ safe_size
      → handle_frame p now clock d ≢ fault
  unfolding handle_frame
  handle_frame-ne-fault now clock d h = ground (
    arith,
    trace_payload-ne-fault d.rx.buf (declared_size d.rx.buf),
    trace_payload-ne-fault d.rx.buf 0,
    act-ne-fault now clock (classify p.frame_types (d.rx.buf 0)) d h,
  )

  -- readSerialData returns, without a read outside the receive buffer, whenever the frame that the
  -- characters complete declares a payload of at most 5099 bytes; the position of the sequence
  -- number in a frame is within the buffer.
  pub read_serial_data-returns :
      (now : ℕ) (clock : ℕ → ℕ) (reads : List Read) (d : Driver)
      → declared_size (serial_data d.rx reads).0.buf ≤ safe_size
      → (r : Driver × List Read) × (read_serial_data p now clock reads d ≡ ok r)
  unfolding read_serial_data
  read_serial_data-returns now clock reads d h =
      let d' = record d { rx = (serial_data d.rx reads).0 } in
      total (read_serial_data p now clock reads d)
        (ground (arith, handle_frame-ne-fault now clock d' h))
        (read_serial_data-ne-starved p now clock reads d)

bind-fault :
    {A B : Type 0} (r : Run A) (f : A → Run B)
    → r ≢ starved
    → ((a : A) → f a ≡ fault)
    → (r >>= f) ≡ fault
bind-fault (ok a) f n e = e a
bind-fault fault f n e = refl
bind-fault starved f n e = absurd (n refl)

trace_payload-fault : (buf : Memory) (n : ℕ) → buffer_size < 5 + n → trace_payload buf n ≡ fault
unfolding trace_payload
trace_payload-fault buf zero h = absurd (omega arith)
trace_payload-fault buf (suc n) h = elim (Bool-cases (ltb buffer_size (5 + n))) [
  | inl behind ↦ rw (trace_payload-fault buf n (ground arith)) refl
  | inr here ↦
      let last : ltb (5 + n) buffer_size ≡ false = ground arith in
      bind-fault (trace_payload buf n) (λ _. read_byte buf (5 + n) >>= λ _. ok tt)
        (trace_payload-ne-starved buf n) (λ _. rw last refl)
]

-- A complete frame that declares more bytes than the receive buffer has behind its header makes
-- readSerialData read outside the buffer, where trace messages are enabled.
pub read_serial_data_overread :
    (p : Platform) (now : ℕ) (clock : ℕ → ℕ) (reads : List Read) (d : Driver)
    → p.trace_enabled ≡ true
    → (serial_data d.rx reads).1 ≡ true
    → buffer_size < 5 + declared_size (serial_data d.rx reads).0.buf
    → read_serial_data p now clock reads d ≡ fault
unfolding read_serial_data handle_frame
read_serial_data_overread p now clock reads d traced complete over =
    let q = serial_data d.rx reads in
    rw (complete, traced, trace_payload-fault q.0.buf (declared_size q.0.buf) over) refl
