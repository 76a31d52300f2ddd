-- ===== src/Transmit/Worker/Answered.antt =====
-- What an ACK leaves behind, and the first frame, in rounds of `workThreadTransmit`
-- (src/common/can4vscpobj.cpp) that wait for ACKs.
use vscpl1drv_can4vscp.Prelude.{
  ℕ, ◌+◌, ◌%◌, ◌≡◌, ap, ◌∙◌, true, false, List, [], ◌∷◌, ◌++◌, not, bit_and, ◌==◌,
}
use vscpl1drv_can4vscp.Message.{CanalMsg}
use vscpl1drv_can4vscp.Platform.{Platform, IsFifo}
use vscpl1drv_can4vscp.Driver.{Driver, ok, has_flag, flag_wait_for_ack}
use vscpl1drv_can4vscp.Transmit.Worker.{Worker, Round, complete, transmit_first}
use vscpl1drv_can4vscp.Transmit.Worker.Resend.{wire_of}
use vscpl1drv_can4vscp.Transmit.Worker.Rounds.{behind_ack, behind_ack-left, transmit_first-Sent}
use vscpl1drv_can4vscp.Transmit.Worker.Drain.{Fits}

-- The ACK has come, and the rest of what the thread looks at is as it was.
pub record IsAnswered (d e : Driver) : Type 0 where
  pub ack : e.info.ack ≡ true
  pub running : e.running ≡ d.running
  pub opened : e.opened ≡ d.opened
  pub port : e.port ≡ d.port
  pub init_flag : e.init_flag ≡ d.init_flag
  pub transmit_list : e.transmit_list ≡ d.transmit_list
  pub stat : e.stat ≡ d.stat

-- A round in which the ACK comes in time, and no message is written.
pub record AnsweredRound (r : Round) : Type 0 where
  pub granted : r.ack_granted ≡ true
  pub answered : (d : Driver) → IsAnswered d (r.ack_others d)
  pub nothing : r.get_granted ≡ false
  pub same : (d : Driver) → r.get_others d ≡ d

abbrev pub AllAnswered : List Round → Type 0
AllAnswered [] = Unit {0}
AllAnswered (r ∷ rs) = AnsweredRound r × AllAnswered rs

-- Running and open, with waits for ACKs, and with the messages in its queue.
pub record IsAcking (d : Driver) (ms : List CanalMsg) : Type 0 where
  pub running : d.running ≡ true
  pub opened : d.opened ≡ true
  pub is_open : d.port.is_open ≡ true
  pub acks : has_flag d flag_wait_for_ack ≡ true
  pub transmit_list : d.transmit_list ≡ ms

pub acks_by_flag :
    (d e : Driver)
    → e.init_flag ≡ d.init_flag
    → has_flag d flag_wait_for_ack ≡ true
    → has_flag e flag_wait_for_ack ≡ true
acks_by_flag d e same h = ap (λ f. not (bit_and f flag_wait_for_ack == 0)) same ∙ h

module _ (p : Platform) (fifo : IsFifo p.messages)
    (takes : (writes : List (List ℕ)) (bytes : List ℕ) → p.comm_puts writes bytes ≡ true) where
  -- The object behind the ACK.
  pub behind_ack-IsAcking :
      (r : Round) (d : Driver) (m : CanalMsg) (ms : List CanalMsg)
      → AnsweredRound r
      → IsAcking d (m ∷ ms)
      → IsAcking (behind_ack p m (r.ack_others d)) ms
  unfolding complete
  behind_ack-IsAcking r d m ms a s =
      let h = a.answered d in
      record {
        running = h.running ∙ s.running;
        opened = h.opened ∙ s.opened;
        is_open = ap (λ q. q.is_open) h.port ∙ s.is_open;
        acks = acks_by_flag d (r.ack_others d) h.init_flag s.acks;
        transmit_list =
            behind_ack-left p fifo m ms (r.ack_others d) (h.transmit_list ∙ s.transmit_list);
      }

  -- What was written and counted, behind the ACK.
  pub behind_ack_counts :
      (r : Round) (d : Driver) (m : CanalMsg)
      → AnsweredRound r
      → ((behind_ack p m (r.ack_others d)).port.writes ≡ d.port.writes)
        × ((behind_ack p m (r.ack_others d)).stat.transmit_frames ≡ d.stat.transmit_frames + 1)
  unfolding complete
  behind_ack_counts r d m a =
      let h = a.answered d in (ap (λ q. q.writes) h.port, ap (λ q. q.transmit_frames + 1) h.stat)

  -- The first message is sent and in progress.
  pub first_sent :
      (w : Worker) (m : CanalMsg) (ms : List CanalMsg)
      → w.in_progress ≡ false
      → IsAcking w.driver (m ∷ ms)
      → Fits (m ∷ ms)
      → (w' : Worker) × (transmit_first p w ≡ ok w')
        × IsAcking w'.driver (m ∷ ms)
        × (w'.in_progress ≡ true)
        × (w'.driver.port.writes ≡ w.driver.port.writes ++ (wire_of p w.seq m ∷ []))
        × (w'.driver.stat.transmit_frames ≡ w.driver.stat.transmit_frames)
        × (w'.seq ≡ (w.seq + 1) % 256)
  first_sent w m ms waits s fits =
      let (w', run, sent, state) = transmit_first-Sent p w m ms s.acks waits (record {
        opened = s.opened;
        is_open = s.is_open;
        transmit_list = s.transmit_list;
        size_data = fits.0;
        dlc = fits.1;
      }) in
      (
        w',
        run,
        record {
          running = sent.running ∙ s.running;
          opened = sent.opened ∙ s.opened;
          is_open = sent.is_open ∙ s.is_open;
          acks = acks_by_flag w.driver w'.driver sent.init_flag s.acks;
          transmit_list = sent.transmit_list ∙ s.transmit_list;
        },
        state ∙ takes w.driver.port.writes (wire_of p w.seq m),
        sent.writes,
        ap (λ q. q.transmit_frames) sent.stat,
        sent.next_seq,
      )
