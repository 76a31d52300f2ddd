-- ===== src/Transmit/Frames.antt =====
-- The frame of a message and the response that it waits for: `transmitMessage` of
-- src/common/can4vscpobj.cpp.
use vscpl1drv_can4vscp.Prelude.{
  ℕ, ◌+◌, ◌%◌, ◌≤◌, ◌≡◌, refl, ap, ◌∙◌, arith, Bool, true, false, Bool-cases, inl, inr, List, [],
  ◌∷◌, ◌++◌, length, length-append, ltb, if◌then◌else◌, not,
}
use vscpl1drv_can4vscp.Frame.Encode.{encode}
use vscpl1drv_can4vscp.Message.{CanalMsg, id_bytes}
use vscpl1drv_can4vscp.Platform.{Platform}
use vscpl1drv_can4vscp.Driver.{Driver, ok}
use vscpl1drv_can4vscp.Serial.{send_msg, frame_bytes}
use vscpl1drv_can4vscp.Commands.Sent.{frame_bytes-encode}
use vscpl1drv_can4vscp.Transmit.{data_bytes, transmit_frame, transmit_head, transmit_message}

data_bytes-all : (xs : List ℕ) → data_bytes xs (length xs) ≡ ok xs
unfolding data_bytes
data_bytes-all [] = refl
data_bytes-all (x ∷ xs) = rw (data_bytes-all xs) refl

length-id_bytes : (id : ℕ) → length (id_bytes id) ≡ 4
unfolding id_bytes
length-id_bytes id = refl

-- What is known of a transfer behind `transmitMessage`: one frame more was handed to the port, the
-- queue is as it was, the driver waits for the response to the frame exactly if the port took
-- it, it is open and running as before, and the sequence number moves on.
pub record IsTransfer (before after : Driver) (wire : List ℕ) (seq : ℕ) (success : Bool) (next : ℕ)
    : Type 0 where
  pub writes : after.port.writes ≡ before.port.writes ++ (wire ∷ [])
  pub transmit_list : after.transmit_list ≡ before.transmit_list
  pub waiting : after.info.waiting_for_ack_nack ≡ success
  pub seq_kept : after.info.seq ≡ seq
  pub init_flag : after.init_flag ≡ before.init_flag
  pub stat : after.stat ≡ before.stat
  pub opened : after.opened ≡ before.opened
  pub running : after.running ≡ before.running
  pub is_open : after.port.is_open ≡ before.port.is_open
  pub next_seq : next ≡ (seq + 1) % 256

transmit_frame-IsTransfer :
    (p : Platform) (declared : ℕ) (payload wire : List ℕ) (seq : ℕ) (d : Driver)
    → d.port.is_open ≡ true
    → frame_bytes p p.frame_types.canal seq declared payload ≡ wire
    → let r = transmit_frame p declared payload seq d in
      IsTransfer d r.0 wire seq (p.comm_puts d.port.writes wire) r.2
      × (r.1 ≡ p.comm_puts d.port.writes wire)
unfolding transmit_frame send_msg
transmit_frame-IsTransfer p declared payload wire seq d o e =
    elim (Bool-cases (p.comm_puts d.port.writes wire)) [
      | inl sent ↦
          rw (o, e, sent)
            (
              record {
                writes = refl;
                transmit_list = refl;
                waiting = refl;
                seq_kept = refl;
                init_flag = refl;
                stat = refl;
                opened = refl;
                running = refl;
                is_open = refl;
                next_seq = refl;
              },
              refl,
            )
      | inr lost ↦
          rw (o, e, lost)
            (
              record {
                writes = refl;
                transmit_list = refl;
                waiting = refl;
                seq_kept = refl;
                init_flag = refl;
                stat = refl;
                opened = refl;
                running = refl;
                is_open = refl;
                next_seq = refl;
              },
              refl,
            )
    ]

transmit_message-frame :
    (p : Platform) (seq : ℕ) (m : CanalMsg) (ms : List CanalMsg) (d : Driver)
    → d.opened ≡ true
    → d.transmit_list ≡ m ∷ ms
    → ltb 8 m.size_data ≡ false
    → data_bytes m.bytes m.size_data ≡ ok m.bytes
    → transmit_message p seq d
      ≡ ok (transmit_frame p (4 + m.size_data) (id_bytes m.id ++ m.bytes) seq d)
unfolding transmit_message transmit_head
transmit_message-frame p seq m ms d o queue fits copied =
    ap (λ b. if not b then ok (d, false, seq) else transmit_head p seq d d.transmit_list) o
    ∙ ap (transmit_head p seq d) queue
    ∙ rw (fits, copied) refl

-- transmitMessage of an open driver hands the first message of the queue to the open port in one
-- CANAL frame with the four bytes of the identifier and the data, and leaves the queue as it is. It
-- then waits for the response to that frame exactly if the port took it. The message has at most 8
-- bytes.
pub transmit_message_lem :
    (p : Platform) (seq : ℕ) (m : CanalMsg) (ms : List CanalMsg) (d : Driver)
    → d.opened ≡ true
    → d.port.is_open ≡ true
    → d.transmit_list ≡ m ∷ ms
    → m.size_data ≡ length m.bytes
    → m.size_data ≤ 8
    → let wire =
        encode p.crc8 p.frame_types.canal 0 seq (4 + m.size_data) (id_bytes m.id ++ m.bytes) in
      (e : Driver) × (next : ℕ) × (transmit_message p seq d
        ≡ ok (e, p.comm_puts d.port.writes wire, next))
      × IsTransfer d e wire seq (p.comm_puts d.port.writes wire) next
transmit_message_lem p seq m ms d o port queue size small =
    let payload = id_bytes m.id ++ m.bytes in
    let r = transmit_frame p (4 + m.size_data) payload seq d in
    let framed =
      frame_bytes-encode p p.frame_types.canal seq (4 + m.size_data) payload
        (omega (arith, length-append {0} (id_bytes m.id) m.bytes, length-id_bytes m.id)) in
    let (transfer, result) =
      transmit_frame-IsTransfer p (4 + m.size_data) payload _ seq d port framed in
    let fits : ltb 8 m.size_data ≡ false = ground arith in
    let copied : data_bytes m.bytes m.size_data ≡ ok m.bytes =
      ap (data_bytes m.bytes) size ∙ data_bytes-all m.bytes in
    (
      r.0,
      r.2,
      transmit_message-frame p seq m ms d o queue fits copied ∙ ap (λ s. ok (r.0, s, r.2)) result,
      transfer,
    )
