-- ===== src/Transmit/Worker/Resend.antt =====
-- The frame that `workThreadTransmit` of src/common/can4vscpobj.cpp sends again.
use vscpl1drv_can4vscp.Prelude.{
  ℕ, ◌+◌, ◌-◌, ◌≤◌, ◌≡◌, refl, ap, ◌∙◌, Bool, true, false, ◌&&◌, List, ◌∷◌, ◌++◌, length,
  if◌then◌else◌,
}
use vscpl1drv_can4vscp.Frame.Encode.{encode}
use vscpl1drv_can4vscp.Message.{CanalMsg, id_bytes}
use vscpl1drv_can4vscp.Platform.{Platform}
use vscpl1drv_can4vscp.Driver.{Driver, ok, ◌>>=◌, has_flag, flag_wait_for_ack}
use vscpl1drv_can4vscp.Transmit.Frames.{IsTransfer, transmit_message_lem}
use vscpl1drv_can4vscp.Transmit.Worker.{Worker, Round, send_next, resend, on_response, worker_round}

-- The frame of a message, as `transmitMessage` encodes it.
abbrev pub wire_of : Platform → ℕ → CanalMsg → List ℕ
wire_of p seq m =
    encode p.crc8 p.frame_types.canal 0 seq (4 + m.size_data) (id_bytes m.id ++ m.bytes)

-- An open driver with `m` first in its transmit queue, a message that fits a frame.
pub record IsReady (d : Driver) (m : CanalMsg) (ms : List CanalMsg) : Type 0 where
  pub opened : d.opened ≡ true
  pub is_open : d.port.is_open ≡ true
  pub transmit_list : d.transmit_list ≡ m ∷ ms
  pub size_data : m.size_data ≡ length m.bytes
  pub dlc : m.size_data ≤ 8

-- A frame with the message `m` went out from `d`, and the thread is behind it.
abbrev pub Sent : Platform → Driver → CanalMsg → ℕ → Worker → Type 0
Sent p d m seq w =
    IsTransfer d w.driver (wire_of p seq m) seq (p.comm_puts d.port.writes (wire_of p seq m)) w.seq

pub resend-Sent :
    (p : Platform) (w : Worker) (m : CanalMsg) (ms : List CanalMsg)
    → IsReady w.driver m ms
    → (w' : Worker) × (resend p w ≡ ok w')
      × Sent p w.driver m w.seq w'
      × (w'.in_progress ≡ w.in_progress)
resend-Sent p w m ms ready =
    let (e, next, run, transfer) =
      transmit_message_lem p w.seq m ms w.driver ready.opened ready.is_open ready.transmit_list
        ready.size_data ready.dlc in
    (
      record { driver = e; in_progress = w.in_progress; seq = next },
      ap
          (λ q. q >>= λ (d, sent, seq).
            ok (record { driver = d; in_progress = w.in_progress; seq = seq }))
          run,
      transfer,
      refl,
    )

-- The semaphore plays no part in a transfer.
pub on_response-resend :
    (p : Platform) (r : Round) (w : Worker) (d : Driver) (granted acked : Bool) (m : CanalMsg)
    (ms : List CanalMsg)
    → (granted && acked) ≡ false
    → IsReady d m ms
    → (w' : Worker) × (on_response p r w d granted acked ≡ ok w')
      × Sent p d m w.seq w'
      × (w'.in_progress ≡ w.in_progress)
on_response-resend p r w d false acked m ms e ready =
    resend-Sent p (record w { driver = d }) m ms ready
on_response-resend p r w d true true m ms e ready = absurd cc
on_response-resend p r w d true false m ms e ready =
    let taken = record d { transmit_ack_nack_sem = d.transmit_ack_nack_sem - 1 } in
    let (w', run, sent, kept) =
      resend-Sent p (record w { driver = taken }) m ms
        (record {
          opened = ready.opened;
          is_open = ready.is_open;
          transmit_list = ready.transmit_list;
          size_data = ready.size_data;
          dlc = ready.dlc;
        }) in
    (
      w',
      run,
      record {
        writes = sent.writes;
        transmit_list = sent.transmit_list;
        waiting = sent.waiting;
        seq_kept = sent.seq_kept;
        init_flag = sent.init_flag;
        stat = sent.stat;
        opened = sent.opened;
        running = sent.running;
        is_open = sent.is_open;
        next_seq = sent.next_seq;
      },
      kept,
    )

pub waits :
    (p : Platform) (r : Round) (w : Worker)
    → has_flag w.driver flag_wait_for_ack ≡ true
    → w.in_progress ≡ true
    → let d = r.ack_others w.driver in
      worker_round p r w ≡ on_response p r w d r.ack_granted d.info.ack
unfolding worker_round
waits p r w flag progress =
    let d = r.ack_others w.driver in
    ap
      (λ b.
        if b && w.in_progress
        then on_response p r w d r.ack_granted d.info.ack
        else send_next p r w w.driver.transmit_list)
      flag
    ∙ ap
        (λ b.
          if b
          then on_response p r w d r.ack_granted d.info.ack
          else send_next p r w w.driver.transmit_list)
        progress
