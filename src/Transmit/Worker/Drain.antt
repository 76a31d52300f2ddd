-- ===== src/Transmit/Worker/Drain.antt =====
-- Rounds of `workThreadTransmit` (src/common/can4vscpobj.cpp) that do not wait for ACKs empty the
-- queue.
use vscpl1drv_can4vscp.Prelude.{
  ℕ, ◌+◌, ◌%◌, ◌≤◌, ◌≡◌, refl, ap, sym, ◌∙◌, arith, true, false, ◌&&◌, List, [], ◌∷◌, ◌++◌, length,
  append_assoc, append-nil, if◌then◌else◌, not, bit_and, ◌==◌,
}
use vscpl1drv_can4vscp.Message.{CanalMsg}
use vscpl1drv_can4vscp.Platform.{Platform, IsFifo}
use vscpl1drv_can4vscp.Driver.{Driver, ok, ◌>>=◌, has_flag, flag_wait_for_ack}
use vscpl1drv_can4vscp.Transmit.Frames.{transmit_message_lem}
use vscpl1drv_can4vscp.Transmit.Worker.{
  Worker, Round, complete, complete_head, after_transmit, transmit_first, send_next, on_response,
  worker_round, worker_loop, start_worker, work_thread_transmit,
}
use vscpl1drv_can4vscp.Transmit.Worker.Resend.{wire_of}

-- A message that fits a frame.
abbrev pub Fits : List CanalMsg → Type 0
Fits [] = Unit {0}
Fits (m ∷ ms) = (m.size_data ≡ length m.bytes) × (m.size_data ≤ 8) × Fits ms

-- The frames of the messages, with the sequence numbers from `seq` on.
abbrev pub wires : Platform → ℕ → List CanalMsg → List (List ℕ)
wires p seq [] = []
wires p seq (m ∷ ms) = wire_of p seq m ∷ wires p ((seq + 1) % 256) ms

-- Running and open, without waits for ACKs, with the messages in its queue.
pub record IsStreaming (d : Driver) (ms : List CanalMsg) : Type 0 where
  pub running : d.running ≡ true
  pub opened : d.opened ≡ true
  pub is_open : d.port.is_open ≡ true
  pub no_acks : has_flag d flag_wait_for_ack ≡ false
  pub transmit_list : d.transmit_list ≡ ms

module _ (p : Platform) (fifo : IsFifo p.messages)
    (takes : (writes : List (List ℕ)) (bytes : List ℕ) → p.comm_puts writes bytes ≡ true) where
  -- A round sends the first message, and is done with it.
  worker_round-IsStreaming :
      (r : Round) (w : Worker) (m : CanalMsg) (ms : List CanalMsg)
      → IsStreaming w.driver (m ∷ ms)
      → Fits (m ∷ ms)
      → (w' : Worker) × (worker_round p r w ≡ ok w')
        × IsStreaming w'.driver ms
        × (w'.driver.port.writes ≡ w.driver.port.writes ++ (wire_of p w.seq m ∷ []))
        × (w'.driver.stat.transmit_frames ≡ w.driver.stat.transmit_frames + 1)
        × (w'.seq ≡ (w.seq + 1) % 256)
  unfolding worker_round transmit_first complete
  worker_round-IsStreaming r w m ms s fits =
      let (e, next, run, transfer) =
        transmit_message_lem p w.seq m ms w.driver s.opened s.is_open s.transmit_list fits.0
          fits.1 in
      let flag_after : has_flag e flag_wait_for_ack ≡ false =
        ap (λ f. not (bit_and f flag_wait_for_ack == 0)) transfer.init_flag ∙ s.no_acks in
      let queue : e.transmit_list ≡ m ∷ ms = transfer.transmit_list ∙ s.transmit_list in
      let behind : Worker = record {
        driver = complete p m e;
        in_progress = w.in_progress;
        seq = next;
      } in
      let sent = takes w.driver.port.writes (wire_of p w.seq m) in
      (
        behind,
        ap
              (λ b.
                if b && w.in_progress
                then on_response p r w (r.ack_others w.driver) r.ack_granted
                    (r.ack_others w.driver).info.ack
                else send_next p r w w.driver.transmit_list)
              s.no_acks
            ∙ ap (send_next p r w) s.transmit_list
            ∙ ap
                (λ q. q >>= λ (d, sent, seq).
                  ok (after_transmit p w d sent (has_flag d flag_wait_for_ack) seq))
                run
            ∙ ap (λ b. ok (after_transmit p w e b (has_flag e flag_wait_for_ack) next)) sent
            ∙ ap (λ b. ok (after_transmit p w e true b next)) flag_after
            ∙ ap
                (λ l. ok (record {
                  driver = complete_head p e l;
                  in_progress = w.in_progress;
                  seq = next;
                }))
                queue,
        record {
          running = transfer.running ∙ s.running;
          opened = transfer.opened ∙ s.opened;
          is_open = transfer.is_open ∙ s.is_open;
          no_acks = flag_after;
          transmit_list = ap p.messages.remove_head queue ∙ fifo.remove_head_lem m ms;
        },
        transfer.writes,
        ap (λ k. k.transmit_frames + 1) transfer.stat,
        transfer.next_seq,
      )

  -- From any state of the thread without waits for ACKs.
  pub worker_loop-drains :
      (rs : List Round) (w : Worker) (ms : List CanalMsg)
      → length rs ≡ length ms
      → IsStreaming w.driver ms
      → Fits ms
      → (w' : Worker) × (worker_loop p rs w ≡ ok w')
        × (w'.driver.transmit_list ≡ [])
        × (w'.driver.port.writes ≡ w.driver.port.writes ++ wires p w.seq ms)
        × (w'.driver.stat.transmit_frames ≡ w.driver.stat.transmit_frames + length ms)
  unfolding worker_loop
  worker_loop-drains [] w [] h s fits = (w, refl, s.transmit_list, sym (append-nil _), omega arith)
  worker_loop-drains [] w (m ∷ ms) h s fits = absurd (omega (arith, h))
  worker_loop-drains (r ∷ rs) w [] h s fits = absurd (omega (arith, h))
  worker_loop-drains (r ∷ rs) w (m ∷ ms) h s fits =
      let (w1, run, s1, writes, frames, seq) = worker_round-IsStreaming r w m ms s fits in
      let (w2, rest, empty, later, total) =
        worker_loop-drains rs w1 ms (omega (arith, h)) s1 fits.2 in
      (
        w2,
        ap (λ b. if b then worker_round p r w >>= worker_loop p rs else ok w) s.running
            ∙ ap (λ q. q >>= worker_loop p rs) run
            ∙ rest,
        empty,
        later
            ∙ ap (λ q. q ++ wires p w1.seq ms) writes
            ∙ append_assoc w.driver.port.writes (wire_of p w.seq m ∷ []) (wires p w1.seq ms)
            ∙ ap (λ k. w.driver.port.writes ++ (wire_of p w.seq m ∷ wires p k ms)) seq,
        omega (arith, total, frames),
      )

  -- From its start, without waits for ACKs, the transmit thread empties the queue in as many rounds
  -- as there are messages: the messages go to the port in their order, one frame each with the
  -- sequence numbers from 0 on, and all are counted as transmitted. The driver is running and open,
  -- the port is open and takes every frame, each message fits a frame, and the list keeps the order
  -- of its nodes.
  pub work_thread_transmit-drains :
      (rs : List Round) (d : Driver) (ms : List CanalMsg)
      → length rs ≡ length ms
      → IsStreaming d ms
      → Fits ms
      → (w' : Worker) × (work_thread_transmit p rs d ≡ ok w')
        × (w'.driver.transmit_list ≡ [])
        × (w'.driver.port.writes ≡ d.port.writes ++ wires p 0 ms)
        × (w'.driver.stat.transmit_frames ≡ d.stat.transmit_frames + length ms)
  unfolding work_thread_transmit
  work_thread_transmit-drains rs d ms h s fits =
      worker_loop-drains rs (start_worker d) ms h
        (record {
          running = s.running;
          opened = s.opened;
          is_open = s.is_open;
          no_acks = s.no_acks;
          transmit_list = s.transmit_list;
        })
        fits
