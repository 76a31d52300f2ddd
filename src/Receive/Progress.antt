-- ===== src/Receive/Progress.antt =====
-- Termination of `readSerialData` (src/common/can4vscpobj.cpp).
use native.Mathlib.Nat.{le_refl}
use vscpl1drv_can4vscp.Prelude.{
  ℕ, zero, suc, ◌+◌, ◌-◌, ◌≤◌, ◌<◌, ◌≢◌, arith, List, ◌==◌, Bool-cases, inl, inr,
}
use vscpl1drv_can4vscp.Prelude.Memory.{Memory}
use vscpl1drv_can4vscp.Platform.{Platform}
use vscpl1drv_can4vscp.Rx.{Read, serial_data}
use vscpl1drv_can4vscp.Driver.{Driver, Run, ok, fault, starved, ◌>>=◌}
use vscpl1drv_can4vscp.Receive.Reader.{read_bytes, read_word, Next, stop, advance, payload_loop}
use vscpl1drv_can4vscp.Receive.Canal.{canal_round, canal_timestamp_frame, canal_frame}
use vscpl1drv_can4vscp.Receive.Multi.{
  multi_canal_round, multi_canal_timestamp_round, multi_canal_frame, multi_canal_timestamp_frame,
}
use vscpl1drv_can4vscp.Receive.Kinds.{
  Kind, noop, canal, canal_timestamp, refused, multi_canal, multi_canal_timestamp, response,
  unknown, classify,
}
use vscpl1drv_can4vscp.Receive.Responses.{add_to_response_queue}
use vscpl1drv_can4vscp.Receive.{declared_size, trace_payload, act, handle_frame, read_serial_data}

-- A round that goes on makes progress, and needs no fuel of its own.
abbrev pub Progress : Run Next → Type 0
Progress (ok (stop d)) = Unit {0}
Progress (ok (advance size d)) = 0 < size
Progress fault = Unit {0}
Progress starved = ⊥

next-ne-starved :
    (r : Run Next) (next : ℕ → Driver → Run Driver)
    → Progress r
    → ((size : ℕ) (d : Driver) → 0 < size → next size d ≢ starved)
    → (r >>= λ n. elim n [ stop d ↦ ok d | advance size d ↦ next size d ]) ≢ starved
next-ne-starved (ok (stop d)) next g h = λ e. cc
next-ne-starved (ok (advance size d)) next g h = h size d g
next-ne-starved fault next g h = λ e. cc
next-ne-starved starved next g h = absurd g

payload_loop-ne-starved :
    (body : ℕ → Driver → Run Next) (fuel remaining pos : ℕ) (d : Driver)
    → ((at : ℕ) (e : Driver) → Progress (body at e))
    → remaining ≤ fuel
    → payload_loop body fuel remaining pos d ≢ starved
unfolding payload_loop
payload_loop-ne-starved body zero remaining pos d progress h = ground arith
payload_loop-ne-starved body (suc fuel) remaining pos d progress h =
    let later : (size : ℕ) (d' : Driver)
        → 0 < size
        → payload_loop body fuel (remaining - size) (pos + size) d' ≢ starved =
      λ size d' g.
        payload_loop-ne-starved body fuel (remaining - size) (pos + size) d' progress
          (omega arith) in
    elim (Bool-cases (remaining == 0)) [
      | inl done ↦ rw done (λ e. cc)
      | inr more ↦ rw more (
          next-ne-starved (body pos d)
            (λ size d'. payload_loop body fuel (remaining - size) (pos + size) d') (progress pos d)
            later)
    ]

read_bytes-ne-starved : (buf : Memory) (start n : ℕ) → read_bytes buf start n ≢ starved
unfolding read_bytes
read_bytes-ne-starved buf start zero = λ e. cc
read_bytes-ne-starved buf start (suc n) = ground (arith, read_bytes-ne-starved buf (start + 1) n)

read_word-ne-starved : (buf : Memory) (at : ℕ) → read_word buf at ≢ starved
unfolding read_word
read_word-ne-starved buf at = ground arith

canal_round-Progress :
    (p : Platform) (clock : ℕ → ℕ) (buf : Memory) (pos : ℕ) (d : Driver)
    → Progress (canal_round p clock buf pos d)
unfolding canal_round
canal_round-Progress p clock buf pos d =
    ground (arith, read_bytes-ne-starved buf (pos + 5) (buf (pos + 4)), read_word-ne-starved buf 5)

multi_canal_round-Progress :
    (p : Platform) (clock : ℕ → ℕ) (buf : Memory) (pos : ℕ) (d : Driver)
    → Progress (multi_canal_round p clock buf pos d)
unfolding multi_canal_round
multi_canal_round-Progress p clock buf pos d = ground (
  arith,
  read_bytes-ne-starved buf (pos + 5) (buf (pos + 4)),
  read_bytes-ne-starved buf (pos + 5) 8,
  read_word-ne-starved buf pos,
)

multi_canal_timestamp_round-Progress :
    (p : Platform) (buf : Memory) (pos : ℕ) (d : Driver)
    → Progress (multi_canal_timestamp_round p buf pos d)
unfolding multi_canal_timestamp_round
multi_canal_timestamp_round-Progress p buf pos d = ground (
  arith,
  read_bytes-ne-starved buf (pos + 9) (buf (pos + 8)),
  read_word-ne-starved buf pos,
  read_word-ne-starved buf (pos + 4),
)

canal_timestamp_frame-ne-starved :
    (p : Platform) (buf : Memory) (d : Driver) → canal_timestamp_frame p buf d ≢ starved
unfolding canal_timestamp_frame
canal_timestamp_frame-ne-starved p buf d = ground (
  arith,
  read_bytes-ne-starved buf 14 (buf 13),
  read_bytes-ne-starved buf 14 8,
  read_word-ne-starved buf 5,
  read_word-ne-starved buf 9,
)

add_to_response_queue-ne-starved : (p : Platform) (d : Driver) → add_to_response_queue p d ≢ starved
unfolding add_to_response_queue
add_to_response_queue-ne-starved p d = ground (
  arith,
  read_bytes-ne-starved d.rx.buf 5 512,
  read_bytes-ne-starved d.rx.buf 5 (declared_size d.rx.buf),
)

canal_frame-ne-starved :
    (p : Platform) (clock : ℕ → ℕ) (buf : Memory) (size : ℕ) (d : Driver)
    → canal_frame p clock buf size d ≢ starved
unfolding canal_frame
canal_frame-ne-starved p clock buf size d =
    payload_loop-ne-starved (canal_round p clock buf) size size 5 d
      (canal_round-Progress p clock buf) (le_refl size)

multi_canal_frame-ne-starved :
    (p : Platform) (clock : ℕ → ℕ) (buf : Memory) (size : ℕ) (d : Driver)
    → multi_canal_frame p clock buf size d ≢ starved
unfolding multi_canal_frame
multi_canal_frame-ne-starved p clock buf size d =
    payload_loop-ne-starved (multi_canal_round p clock buf) size size 5 d
      (multi_canal_round-Progress p clock buf) (le_refl size)

multi_canal_timestamp_frame-ne-starved :
    (p : Platform) (buf : Memory) (size : ℕ) (d : Driver)
    → multi_canal_timestamp_frame p buf size d ≢ starved
unfolding multi_canal_timestamp_frame
multi_canal_timestamp_frame-ne-starved p buf size d =
    payload_loop-ne-starved (multi_canal_timestamp_round p buf) size size 5 d
      (multi_canal_timestamp_round-Progress p buf) (le_refl size)

act-ne-starved :
    (p : Platform) (now : ℕ) (clock : ℕ → ℕ) (k : Kind) (d : Driver) → act p now clock k d ≢ starved
unfolding act
act-ne-starved p now clock noop d = ground arith
act-ne-starved p now clock canal d =
    canal_frame-ne-starved p clock d.rx.buf (declared_size d.rx.buf) (record d { activity = now })
act-ne-starved p now clock canal_timestamp d =
    canal_timestamp_frame-ne-starved p d.rx.buf (record d { activity = now })
act-ne-starved p now clock refused d = ground arith
act-ne-starved p now clock multi_canal d =
    multi_canal_frame-ne-starved p clock d.rx.buf (declared_size d.rx.buf)
      (record d { activity = now })
act-ne-starved p now clock multi_canal_timestamp d =
    multi_canal_timestamp_frame-ne-starved p d.rx.buf (declared_size d.rx.buf)
      (record d { activity = now })
act-ne-starved p now clock response d =
    add_to_response_queue-ne-starved p (record d { activity = now })
act-ne-starved p now clock unknown d = λ e. cc

pub trace_payload-ne-starved : (buf : Memory) (n : ℕ) → trace_payload buf n ≢ starved
unfolding trace_payload
trace_payload-ne-starved buf zero = λ e. cc
trace_payload-ne-starved buf (suc n) = ground (arith, trace_payload-ne-starved buf n)

handle_frame-ne-starved :
    (p : Platform) (now : ℕ) (clock : ℕ → ℕ) (d : Driver) → handle_frame p now clock d ≢ starved
unfolding handle_frame
handle_frame-ne-starved p now clock d = ground (
  arith,
  trace_payload-ne-starved d.rx.buf (declared_size d.rx.buf),
  trace_payload-ne-starved d.rx.buf 0,
  act-ne-starved p now clock (classify p.frame_types (d.rx.buf 0)) d,
)

-- readSerialData always ends: no loop over sub-frames runs out of the fuel that the payload size
-- gives, whatever the line delivers and whatever sizes a frame declares.
pub read_serial_data-ne-starved :
    (p : Platform) (now : ℕ) (clock : ℕ → ℕ) (reads : List Read) (d : Driver)
    → read_serial_data p now clock reads d ≢ starved
unfolding read_serial_data
read_serial_data-ne-starved p now clock reads d =
    ground
      (arith, handle_frame-ne-starved p now clock (record d { rx = (serial_data d.rx reads).0 }))
