-- ===== src/Tests/Receive.antt =====
-- Frames that a driver receives.
use vscpl1drv_can4vscp.Prelude.{suc, ◌≡◌, ◌≢◌, refl, List, [], ◌∷◌, length, arith}
use vscpl1drv_can4vscp.Prelude.Memory.{Memory, prefix, update}
use vscpl1drv_can4vscp.Frame.{build_frame, check_crc}
use vscpl1drv_can4vscp.Message.{masked_word, id_bytes}
use vscpl1drv_can4vscp.Message.Identifier.{masked_word-id_bytes}
use vscpl1drv_can4vscp.Rx.{State, Read, serial_data}
use vscpl1drv_can4vscp.Rx.RoundTrip.{chars}
use vscpl1drv_can4vscp.Driver.{construct, Driver, ok, starved, fifo_empty, max_receive}
use vscpl1drv_can4vscp.Receive.{read_serial_data, handle_frame, trace_payload, act}
use vscpl1drv_can4vscp.Receive.Canal.{canal_frame}
use vscpl1drv_can4vscp.Receive.Shared.{with_id, canal_frame-pack_all}
use vscpl1drv_can4vscp.Receive.Kinds.{classify}
use vscpl1drv_can4vscp.Receive.Multi.{multi_canal_frame, multi_canal_timestamp_frame}
use vscpl1drv_can4vscp.Receive.Packing.{
  SubFrame, pack, pack_timestamp, pack_all, accept_all, messages, clocked, stamped,
}
use vscpl1drv_can4vscp.Receive.Decode.{
  multi_canal_frame-pack_all, multi_canal_timestamp_frame-pack_all,
}
use vscpl1drv_can4vscp.Receive.Invariant.{IsBounded, read_serial_data-IsBounded}
use vscpl1drv_can4vscp.Receive.Progress.{read_serial_data-ne-starved}
use vscpl1drv_can4vscp.Receive.Line.{read_serial_data-multi_canal}
use vscpl1drv_can4vscp.Queues.Fifo.{passing, take, read_all}
use vscpl1drv_can4vscp.Tests.Example.{example_platform, list_dllist-IsFifo, open_driver}

abbrev two_frames : List SubFrame
two_frames =
    record { id = 0x0102; timestamp = 9; bytes = 16 ∷ 2 ∷ [] }
    ∷ record { id = 0x10000003; timestamp = 77; bytes = [] }
    ∷ []

abbrev one_frame : List SubFrame
one_frame = record { id = 3; timestamp = 77; bytes = 5 ∷ [] } ∷ []

abbrev one : SubFrame
one = record { id = 3; timestamp = 0; bytes = [] }

abbrev other : SubFrame
other = record { id = 4; timestamp = 0; bytes = [] }

-- A buffer with the sub-frames `one` and `other` as its payload.
abbrev two_buffer : Memory
two_buffer = update (update (λ i. 0) 8 3) 13 4

-- A buffer with the sub-frame `one_frame` as its payload.
abbrev one_buffer : Memory
one_buffer = update (update (update (λ i. 0) 8 3) 9 1) 10 5

abbrev one_stamped_buffer : Memory
one_stamped_buffer = update (update (update (update (λ i. 0) 8 3) 12 77) 13 1) 14 5

open_driver-IsBounded : IsBounded open_driver
unfolding construct
open_driver-IsBounded = record {
  receive = omega arith;
  response = omega arith;
  rx_len = omega arith;
}

read_serial_data-multi_canal_example :
    let payload = pack_all pack two_frames in
    let w = build_frame example_platform.crc8 (λ i. 0) 10 0 16 (length payload) payload in
    let sent = messages pack (clocked example_platform (λ i. i)) 5 two_frames in
    let queue = take max_receive (passing example_platform open_driver sent) in
    (e : Driver) × (read_serial_data example_platform 1
        (λ i. i)
        (chars (prefix w.buf w.pos) [])
        open_driver
      ≡ ok (e, []))
    × (read_all example_platform (suc (length queue)) e ≡ (queue, fifo_empty))
    × (e.rx.state ≡ State.none)
unfolding construct classify id_bytes
read_serial_data-multi_canal_example =
    read_serial_data-multi_canal example_platform 1 (λ i. i) list_dllist-IsFifo (λ i. 0) 0 16
      two_frames [] open_driver refl refl (λ e. cc) (λ e. omega arith) (λ e. omega arith) refl
      (
        record { id_bits = omega arith; timestamp_bits = omega arith; dlc = omega arith },
        (record { id_bits = omega arith; timestamp_bits = omega arith; dlc = omega arith }, tt),
      )
      (omega arith)

multi_canal_frame-pack_all_example :
    multi_canal_frame example_platform (λ i. i) one_buffer 6 open_driver
    ≡ ok (
        accept_all example_platform
          (messages pack (clocked example_platform (λ i. i)) 5 one_frame)
          open_driver)
unfolding id_bytes
multi_canal_frame-pack_all_example =
    multi_canal_frame-pack_all example_platform (λ i. i) one_buffer one_frame open_driver
      (record { id_bits = omega arith; timestamp_bits = omega arith; dlc = omega arith }, tt)
      (refl, (refl, (refl, (refl, (refl, (refl, tt)))))) (omega arith)

multi_canal_timestamp_frame-pack_all_example :
    multi_canal_timestamp_frame example_platform one_stamped_buffer 10 open_driver
    ≡ ok (
        accept_all example_platform
          (messages pack_timestamp (stamped example_platform) 5 one_frame)
          open_driver)
unfolding id_bytes
multi_canal_timestamp_frame-pack_all_example =
    multi_canal_timestamp_frame-pack_all example_platform (λ i. i) one_stamped_buffer one_frame
      open_driver
      (record { id_bits = omega arith; timestamp_bits = omega arith; dlc = omega arith }, tt)
      (refl, (refl, (refl, (refl, (refl, (refl, (refl, (refl, (refl, (refl, tt))))))))))
      (omega arith)

abbrev noop_reads : List Read
noop_reads = chars (16 ∷ 2 ∷ 0 ∷ 0 ∷ 7 ∷ 0 ∷ 0 ∷ 7 ∷ 16 ∷ 3 ∷ []) []

abbrev behind_noop : Driver
unfolding read_serial_data
behind_noop = elim (read_serial_data example_platform 1 (λ i. i) noop_reads open_driver) [
  | ok r ↦ r.0
  | _ ↦ open_driver
]

read_serial_data-IsBounded_example : IsBounded behind_noop
unfolding read_serial_data serial_data construct handle_frame trace_payload check_crc act classify
read_serial_data-IsBounded_example =
    read_serial_data-IsBounded example_platform list_dllist-IsFifo list_dllist-IsFifo 1 (λ i. i)
      noop_reads [] open_driver behind_noop open_driver-IsBounded refl

read_serial_data-ne-starved_example :
    read_serial_data example_platform 1 (λ i. i) noop_reads open_driver ≢ starved
read_serial_data-ne-starved_example =
    read_serial_data-ne-starved example_platform 1 (λ i. i) noop_reads open_driver

masked_word-id_bytes_example : masked_word 0x1f 2 3 4 ≡ 0x1f020304
unfolding id_bytes
masked_word-id_bytes_example = masked_word-id_bytes 0x1f020304 0x1f 2 3 4 (omega arith) refl

canal_frame-pack_all_example :
    canal_frame example_platform (λ i. i) two_buffer 10 open_driver
    ≡ ok (
        accept_all example_platform
          (messages pack (with_id example_platform (λ i. i) 3) 5 (one ∷ other ∷ []))
          open_driver)
unfolding id_bytes
canal_frame-pack_all_example =
    canal_frame-pack_all example_platform (λ i. i) two_buffer one (other ∷ []) open_driver
      (
        record { id_bits = omega arith; timestamp_bits = omega arith; dlc = omega arith },
        (record { id_bits = omega arith; timestamp_bits = omega arith; dlc = omega arith }, tt),
      )
      (refl, (refl, (refl, (refl, (refl, (refl, (refl, (refl, (refl, (refl, tt))))))))))
      (omega arith)
