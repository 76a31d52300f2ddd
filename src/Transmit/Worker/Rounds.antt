-- ===== src/Transmit/Worker/Rounds.antt =====
-- Rounds of `workThreadTransmit` (src/common/can4vscpobj.cpp) while it waits for an ACK.
use vscpl1drv_can4vscp.Prelude.{
  ℕ, ◌+◌, ◌-◌, ◌≤◌, ◌≡◌, refl, ap, ◌∙◌, Bool, true, false, ◌&&◌, List, [], ◌∷◌, ◌++◌, length, not,
  bit_and, ◌==◌,
}
use vscpl1drv_can4vscp.Message.{CanalMsg}
use vscpl1drv_can4vscp.Platform.{Platform, IsFifo}
use vscpl1drv_can4vscp.Driver.{Driver, ok, ◌>>=◌, has_flag, flag_wait_for_ack}
use vscpl1drv_can4vscp.Transmit.Frames.{transmit_message_lem}
use vscpl1drv_can4vscp.Transmit.Worker.{
  Worker, Round, complete, after_transmit, transmit_first, send_next, acknowledged, on_response,
  worker_round,
}
use vscpl1drv_can4vscp.Transmit.Worker.Resend.{wire_of, IsReady, Sent, on_response-resend, waits}

-- Without an ACK for the frame in progress (no response in time, or a NACK) the thread sends the
-- first message of the queue again, with the next sequence number, and keeps it in the queue and in
-- progress. The driver waits for ACKs, and the other threads leave an open driver with a message
-- that fits a frame.
pub worker_round-no_ack :
    (p : Platform) (r : Round) (w : Worker) (m : CanalMsg) (ms : List CanalMsg)
    → has_flag w.driver flag_wait_for_ack ≡ true
    → w.in_progress ≡ true
    → (r.ack_granted && (r.ack_others w.driver).info.ack) ≡ false
    → IsReady (r.ack_others w.driver) m ms
    → (w' : Worker) × (worker_round p r w ≡ ok w')
      × Sent p (r.ack_others w.driver) m w.seq w'
      × (w'.in_progress ≡ true)
worker_round-no_ack p r w m ms flag progress none_yet ready =
    let d = r.ack_others w.driver in
    let (w', run, sent, kept) =
      on_response-resend p r w d r.ack_granted d.info.ack m ms none_yet ready in
    (w', waits p r w flag progress ∙ run, sent, kept ∙ progress)

pub transmit_first-Sent :
    (p : Platform) (w : Worker) (m : CanalMsg) (ms : List CanalMsg)
    → has_flag w.driver flag_wait_for_ack ≡ true
    → w.in_progress ≡ false
    → IsReady w.driver m ms
    → (w' : Worker) × (transmit_first p w ≡ ok w')
      × Sent p w.driver m w.seq w'
      × (w'.in_progress ≡ p.comm_puts w.driver.port.writes (wire_of p w.seq m))
unfolding transmit_first
transmit_first-Sent p w m ms flag idle_before ready =
    let (e, next, run, transfer) =
      transmit_message_lem p w.seq m ms w.driver ready.opened ready.is_open ready.transmit_list
        ready.size_data ready.dlc in
    let success = p.comm_puts w.driver.port.writes (wire_of p w.seq m) in
    let flag_after : has_flag e flag_wait_for_ack ≡ true =
      ap (λ f. not (bit_and f flag_wait_for_ack == 0)) transfer.init_flag ∙ flag in
    let behind : Worker = record { driver = e; in_progress = success; seq = next } in
    (
      behind,
      ap
            (λ q. q >>= λ (d, sent, seq).
              ok (after_transmit p w d sent (has_flag d flag_wait_for_ack) seq))
            run
          ∙ ap (λ b. ok (after_transmit p w e success b next)) flag_after
          ∙ ap ok (started e success next),
      transfer,
      refl,
    )
  where
    started :
        (e : Driver) (sent : Bool) (next : ℕ)
        → after_transmit p w e sent true next
          ≡ record { driver = e; in_progress = sent; seq = next }
    started e true next = refl
    started e false next = ap (λ b. record { driver = e; in_progress = b; seq = next }) idle_before

-- The object behind the ACK for its first message, `m`.
abbrev pub behind_ack : Platform → CanalMsg → Driver → Driver
behind_ack p m d = complete p m (record d { transmit_ack_nack_sem = d.transmit_ack_nack_sem - 1 })

-- A round with an ACK, up to its second part.
pub acked_round :
    (p : Platform) (r : Round) (w : Worker) (m : CanalMsg) (ms : List CanalMsg)
    → has_flag w.driver flag_wait_for_ack ≡ true
    → w.in_progress ≡ true
    → r.ack_granted ≡ true
    → let d = r.ack_others w.driver in
      d.info.ack ≡ true
      → d.transmit_list ≡ m ∷ ms
      → (behind_ack p m d).transmit_list ≡ ms
      → worker_round p r w
        ≡ send_next p r (record { driver = behind_ack p m d; in_progress = false; seq = w.seq }) ms
acked_round p r w m ms flag progress granted acked queue left =
    let d = r.ack_others w.driver in
    let taken = record d { transmit_ack_nack_sem = d.transmit_ack_nack_sem - 1 } in
    let idle_worker : Worker = record {
      driver = behind_ack p m d;
      in_progress = false;
      seq = w.seq;
    } in
    waits p r w flag progress
    ∙ ap (λ b. on_response p r w d b d.info.ack) granted
    ∙ ap (on_response p r w d true) acked
    ∙ ap (acknowledged p r (record w { driver = taken })) queue
    ∙ ap (send_next p r idle_worker) left

-- The first message has left the queue.
pub behind_ack-left :
    (p : Platform) (fifo : IsFifo p.messages) (m : CanalMsg) (ms : List CanalMsg) (d : Driver)
    → d.transmit_list ≡ m ∷ ms
    → (behind_ack p m d).transmit_list ≡ ms
unfolding complete
behind_ack-left p fifo m ms d queue = ap p.messages.remove_head queue ∙ fifo.remove_head_lem m ms

-- On the ACK for the frame in progress the first message leaves the queue and is counted, and the
-- thread sends the message behind it, which is in progress then exactly if the port took it. The
-- driver waits for ACKs, the other threads leave an open driver with the two messages, the second
-- of which fits a frame, and the list keeps the order of its nodes.
pub worker_round-ack :
    (p : Platform) (fifo : IsFifo p.messages) (r : Round) (w : Worker) (m next : CanalMsg)
    (ms : List CanalMsg)
    → has_flag w.driver flag_wait_for_ack ≡ true
    → w.in_progress ≡ true
    → r.ack_granted ≡ true
    → let d = r.ack_others w.driver in
      d.info.ack ≡ true
      → d.transmit_list ≡ m ∷ next ∷ ms
      → has_flag d flag_wait_for_ack ≡ true
      → d.opened ≡ true
      → d.port.is_open ≡ true
      → next.size_data ≡ length next.bytes
      → next.size_data ≤ 8
      → (w' : Worker) × (worker_round p r w ≡ ok w')
        × (w'.driver.transmit_list ≡ next ∷ ms)
        × (w'.driver.stat.transmit_frames ≡ d.stat.transmit_frames + 1)
        × (w'.driver.port.writes ≡ d.port.writes ++ (wire_of p w.seq next ∷ []))
        × (w'.in_progress ≡ p.comm_puts d.port.writes (wire_of p w.seq next))
unfolding complete
worker_round-ack p fifo r w m next ms flag progress granted acked queue flag_d opened port size
      dlc =
    let d = r.ack_others w.driver in
    let idle_worker : Worker = record {
      driver = behind_ack p m d;
      in_progress = false;
      seq = w.seq;
    } in
    let left = behind_ack-left p fifo m (next ∷ ms) d queue in
    let (w', run, sent, state) = transmit_first-Sent p idle_worker next ms flag_d refl (record {
      opened = opened;
      is_open = port;
      transmit_list = left;
      size_data = size;
      dlc = dlc;
    }) in
    (
      w',
      acked_round p r w m (next ∷ ms) flag progress granted acked queue left ∙ run,
      sent.transmit_list ∙ left,
      ap (λ s. s.transmit_frames) sent.stat,
      sent.writes,
      state,
    )
