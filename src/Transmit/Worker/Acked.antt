-- ===== src/Transmit/Worker/Acked.antt =====
-- Rounds of `workThreadTransmit` (src/common/can4vscpobj.cpp) that wait for ACKs, with a device that
-- acknowledges every frame, empty the queue.
use vscpl1drv_can4vscp.Prelude.{
  ℕ, ◌+◌, ◌-◌, ◌≡◌, refl, ap, sym, ◌∙◌, arith, true, false, ◌&&◌, List, [], ◌∷◌, ◌++◌, length,
  append_assoc, append-nil, if◌then◌else◌,
}
use vscpl1drv_can4vscp.Message.{CanalMsg}
use vscpl1drv_can4vscp.Platform.{Platform, IsFifo}
use vscpl1drv_can4vscp.Driver.{Driver, ok, ◌>>=◌}
use vscpl1drv_can4vscp.Transmit.Worker.{
  Worker, Round, transmit_first, send_next, look_at_queue, on_response, worker_round, worker_loop,
  start_worker, work_thread_transmit,
}
use vscpl1drv_can4vscp.Transmit.Worker.Resend.{wire_of}
use vscpl1drv_can4vscp.Transmit.Worker.Rounds.{behind_ack, behind_ack-left, acked_round}
use vscpl1drv_can4vscp.Transmit.Worker.Drain.{Fits, wires}
use vscpl1drv_can4vscp.Transmit.Worker.Answered.{
  AllAnswered, IsAcking, behind_ack-IsAcking, behind_ack_counts, first_sent,
}

module _ (p : Platform) (fifo : IsFifo p.messages)
    (takes : (writes : List (List ℕ)) (bytes : List ℕ) → p.comm_puts writes bytes ≡ true) where
  -- With a frame in progress, as many rounds as there are messages empty the queue.
  loop-drains :
      (rs : List Round) (w : Worker) (m : CanalMsg) (ms : List CanalMsg)
      → length rs ≡ length (m ∷ ms)
      → AllAnswered rs
      → w.in_progress ≡ true
      → IsAcking w.driver (m ∷ ms)
      → Fits ms
      → (w' : Worker) × (worker_loop p rs w ≡ ok w')
        × (w'.driver.transmit_list ≡ [])
        × (w'.driver.port.writes ≡ w.driver.port.writes ++ wires p w.seq ms)
        × (w'.driver.stat.transmit_frames ≡ w.driver.stat.transmit_frames + length (m ∷ ms))
        × (w'.in_progress ≡ false)
  unfolding worker_loop
  loop-drains [] w m ms h a progress s fits = absurd (omega (arith, h))
  loop-drains (r ∷ []) w m [] h a progress s fits =
      let d = r.ack_others w.driver in
      let behind = behind_ack p m d in
      let w' : Worker = record { driver = r.get_others behind; in_progress = false; seq = w.seq } in
      let e = r.get_others behind in
      let waited : Worker = record {
        driver = record e { transmit_data_get_sem = e.transmit_data_get_sem - 1 };
        in_progress = false;
        seq = w.seq;
      } in
      let answer = (a.0).answered w.driver in
      let queue = answer.transmit_list ∙ s.transmit_list in
      let left = behind_ack-left p fifo m [] d queue in
      let (writes, frames) = behind_ack_counts p fifo takes r w.driver m a.0 in
      let round = acked_round p r w m [] s.acks progress (a.0).granted answer.ack queue left in
      (
        w',
        ap (λ b. if b then worker_round p r w >>= worker_loop p [] else ok w) s.running
            ∙ ap (λ q. q >>= worker_loop p []) round
            ∙ ap
                (λ b.
                  (if b then look_at_queue p r waited e.transmit_list else ok w')
                  >>= worker_loop p [])
                (a.0).nothing,
        ap (λ e. e.transmit_list) ((a.0).same behind) ∙ left,
        ap (λ e. e.port.writes) ((a.0).same behind)
            ∙ writes
            ∙ sym (append-nil w.driver.port.writes),
        ap (λ e. e.stat.transmit_frames) ((a.0).same behind) ∙ frames,
        refl,
      )
  loop-drains (r ∷ q ∷ rs) w m [] h a progress s fits = absurd (omega (arith, h))
  loop-drains (r ∷ rs) w m (n ∷ ms) h a progress s fits =
      let d = r.ack_others w.driver in
      let behind : Worker = record {
        driver = behind_ack p m d;
        in_progress = false;
        seq = w.seq;
      } in
      let answer = (a.0).answered w.driver in
      let queue = answer.transmit_list ∙ s.transmit_list in
      let (writes, frames) = behind_ack_counts p fifo takes r w.driver m a.0 in
      let s1 = behind_ack-IsAcking p fifo takes r w.driver m (n ∷ ms) a.0 s in
      let (w1, run, s2, progress1, writes1, frames1, seq1) =
        first_sent p fifo takes behind n ms refl s1 fits in
      let (w2, rest, empty, writes2, frames2, done) =
        loop-drains rs w1 n ms (omega (arith, h)) a.1 progress1 s2 fits.2 in
      let round =
        acked_round p r w m (n ∷ ms) s.acks progress (a.0).granted answer.ack queue
          (behind_ack-left p fifo m (n ∷ ms) d queue) in
      (
        w2,
        ap (λ b. if b then worker_round p r w >>= worker_loop p rs else ok w) s.running
            ∙ ap (λ q. q >>= worker_loop p rs) (round ∙ run)
            ∙ rest,
        empty,
        writes2
            ∙ ap (λ q. q ++ wires p w1.seq ms)
                (writes1 ∙ ap (λ q. q ++ (wire_of p w.seq n ∷ [])) writes)
            ∙ append_assoc w.driver.port.writes (wire_of p w.seq n ∷ []) (wires p w1.seq ms)
            ∙ ap (λ k. w.driver.port.writes ++ (wire_of p w.seq n ∷ wires p k ms)) seq1,
        omega (arith, frames2, frames1, frames),
        done,
      )

  not_in_progress :
      (r : Round) (w : Worker) (m : CanalMsg) (ms : List CanalMsg)
      → w.in_progress ≡ false
      → IsAcking w.driver (m ∷ ms)
      → worker_round p r w ≡ transmit_first p w
  unfolding worker_round
  not_in_progress r w m ms waits s =
      let d = r.ack_others w.driver in
      ap
        (λ b.
          if b && w.in_progress
          then on_response p r w d r.ack_granted d.info.ack
          else send_next p r w w.driver.transmit_list)
        s.acks
      ∙ ap
          (λ b.
            if b
            then on_response p r w d r.ack_granted d.info.ack
            else send_next p r w w.driver.transmit_list)
          waits
      ∙ ap (send_next p r w) s.transmit_list

  -- From its start, with waits for ACKs and a device that acknowledges every frame in time, the
  -- transmit thread empties the queue in one round more than there are messages: each message goes
  -- to the port exactly once, in their order, with the sequence numbers from 0 on, and all are
  -- counted as transmitted; at the end no frame is in progress. The driver is running and open, the
  -- port is open and takes every frame, each message fits a frame, no message is written meanwhile,
  -- and the list keeps the order of its nodes.
  pub work_thread_transmit-acked :
      (r : Round) (rs : List Round) (d : Driver) (m : CanalMsg) (ms : List CanalMsg)
      → length rs ≡ length (m ∷ ms)
      → AllAnswered rs
      → IsAcking d (m ∷ ms)
      → Fits (m ∷ ms)
      → (w' : Worker) × (work_thread_transmit p (r ∷ rs) d ≡ ok w')
        × (w'.driver.transmit_list ≡ [])
        × (w'.driver.port.writes ≡ d.port.writes ++ wires p 0 (m ∷ ms))
        × (w'.driver.stat.transmit_frames ≡ d.stat.transmit_frames + length (m ∷ ms))
        × (w'.in_progress ≡ false)
  unfolding work_thread_transmit worker_loop
  work_thread_transmit-acked r rs d m ms h a s fits =
      let w = start_worker d in
      let s0 : IsAcking w.driver (m ∷ ms) = record {
        running = s.running;
        opened = s.opened;
        is_open = s.is_open;
        acks = s.acks;
        transmit_list = s.transmit_list;
      } in
      let (w1, run, s1, progress, writes1, frames1, seq1) =
        first_sent p fifo takes w m ms refl s0 fits in
      let (w2, rest, empty, writes2, frames2, done) =
        loop-drains rs w1 m ms h a progress s1 fits.2 in
      (
        w2,
        ap (λ b. if b then worker_round p r w >>= worker_loop p rs else ok w) s.running
            ∙ ap (λ q. q >>= worker_loop p rs) (not_in_progress r w m ms refl s0 ∙ run)
            ∙ rest,
        empty,
        writes2
            ∙ ap (λ q. q ++ wires p w1.seq ms) writes1
            ∙ append_assoc d.port.writes (wire_of p 0 m ∷ []) (wires p w1.seq ms)
            ∙ ap (λ k. d.port.writes ++ (wire_of p 0 m ∷ wires p k ms)) seq1,
        omega (arith, frames2, frames1),
        done,
      )
