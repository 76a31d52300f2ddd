-- ===== src/Transmit/Worker.antt =====
-- src/common/can4vscpobj.cpp: one round of `while (pobj->m_bRun)` in `workThreadTransmit`, from its
-- test that holds to the next one.
pub mod Resend
pub mod Rounds
pub mod Drain
pub mod Answered
pub mod Acked
use vscpl1drv_can4vscp.Prelude.{
  ℕ, ◌+◌, ◌-◌, ◌%◌, ◌^◌, ◌==◌, ◌&&◌, Bool, true, false, List, [], ◌∷◌, ltb, if◌then◌else◌,
}
use vscpl1drv_can4vscp.Message.{CanalMsg}
use vscpl1drv_can4vscp.Platform.{Platform}
use vscpl1drv_can4vscp.Driver.{Driver, Run, ok, ◌>>=◌, has_flag, flag_wait_for_ack, flag_reopen}
use vscpl1drv_can4vscp.Session.{Waiting, soft_open}
use vscpl1drv_can4vscp.Transmit.{transmit_message}

-- The thread's variables `bTransmissionInProgress` and `seq`, with the object.
pub record Worker : Type 0 where
  pub driver : Driver
  pub in_progress : Bool
  pub seq : ℕ

-- What a round meets: whether each of the two waits gets its token and what the other threads do
-- meanwhile, the clocks (`uint32_t`), and the waits of `softOpen`.
pub record Round : Type 0 where
  pub ack_granted : Bool
  pub ack_others : Driver → Driver
  pub get_granted : Bool
  pub get_others : Driver → Driver
  pub micro_seconds : ℕ
  pub milli_seconds : ℕ
  pub timestamp_wait : Waiting
  pub baudrate_wait : Waiting
  pub mode_wait : Waiting

-- SOFT_OPEN_TIMOUT
abbrev pub soft_open_timeout : ℕ
soft_open_timeout = 120000

-- The first message, `m`, is done with: it leaves the queue and is counted, and a blocked writer is
-- woken.
unfoldable pub complete : Platform → CanalMsg → Driver → Driver
complete p m d = record d {
  transmit_list = p.messages.remove_head d.transmit_list;
  transmit_data_put_sem = d.transmit_data_put_sem + 1;
  stat = record d.stat {
    transmit_data = d.stat.transmit_data + m.size_data;
    transmit_frames = d.stat.transmit_frames + 1;
  };
}

-- `complete`, where the queue has a message.
abbrev pub complete_head : Platform → Driver → List CanalMsg → Driver
complete_head p d [] = d
complete_head p d (m ∷ ms) = complete p m d

-- The inactivity check, with `getClockMicroSeconds` against the activity time.
unfoldable pub check_activity : Platform → Round → Driver → Run Driver
check_activity p r d =
    let elapsed = (r.micro_seconds + 2 ^ 32 - d.activity) % 2 ^ 32 in
    if has_flag d flag_reopen && ltb soft_open_timeout elapsed
    then (do
      (d', code) ← soft_open p r.timestamp_wait r.baudrate_wait r.mode_wait d
      ok (record d' { activity = r.milli_seconds }))
    else ok d

-- Behind `transmitMessage`: whether it sent the frame, and whether an ACK is waited for. Without
-- the wait the message is done with at once.
abbrev pub after_transmit : Platform → Worker → Driver → Bool → Bool → ℕ → Worker
after_transmit p w d true true seq = record { driver = d; in_progress = true; seq = seq }
after_transmit p w d true false seq = record {
  driver = complete_head p d d.transmit_list;
  in_progress = w.in_progress;
  seq = seq;
}
after_transmit p w d false acks seq = record { driver = d; in_progress = w.in_progress; seq = seq }

-- The first message is transmitted.
unfoldable pub transmit_first : Platform → Worker → Run Worker
transmit_first p w = transmit_message p w.seq w.driver >>= λ (d, sent, seq).
    ok (after_transmit p w d sent (has_flag d flag_wait_for_ack) seq)

abbrev pub look_at_queue : Platform → Round → Worker → List CanalMsg → Run Worker
look_at_queue p r w [] = check_activity p r w.driver >>= λ d. ok (record w { driver = d })
look_at_queue p r w (m ∷ ms) = transmit_first p w

-- The second part of the round: an empty queue is waited for.
abbrev pub send_next : Platform → Round → Worker → List CanalMsg → Run Worker
send_next p r w [] =
    let d = r.get_others w.driver in
    let taken = record d { transmit_data_get_sem = d.transmit_data_get_sem - 1 } in
    if r.get_granted
    then look_at_queue p r (record w { driver = taken }) d.transmit_list
    else ok (record w { driver = d })
send_next p r w (m ∷ ms) = transmit_first p w

-- The frame is sent again; what comes of it is not looked at.
abbrev pub resend : Platform → Worker → Run Worker
resend p w = do
  (d, sent, seq) ← transmit_message p w.seq w.driver
  ok (record { driver = d; in_progress = w.in_progress; seq = seq })

-- An ACK: the message is done with. Without a message the round ends.
abbrev pub acknowledged : Platform → Round → Worker → List CanalMsg → Run Worker
acknowledged p r w [] = ok (record w { in_progress = false })
acknowledged p r w (m ∷ ms) =
    let d = complete p m w.driver in
    send_next p r (record w { driver = d; in_progress = false }) d.transmit_list

-- The end of the wait for the response: whether it got a token, and `msgResponseInfo.bAck`.
abbrev pub on_response : Platform → Round → Worker → Driver → Bool → Bool → Run Worker
on_response p r w d false acked = resend p (record w { driver = d })
on_response p r w d true false =
    resend p
      (record w { driver = record d { transmit_ack_nack_sem = d.transmit_ack_nack_sem - 1 } })
on_response p r w d true true =
    acknowledged p r
      (record w { driver = record d { transmit_ack_nack_sem = d.transmit_ack_nack_sem - 1 } })
      d.transmit_list

unfoldable pub worker_round : Platform → Round → Worker → Run Worker
worker_round p r w =
    let d = r.ack_others w.driver in
    if has_flag w.driver flag_wait_for_ack && w.in_progress
    then on_response p r w d r.ack_granted d.info.ack
    else send_next p r w w.driver.transmit_list

-- The rounds while `m_bRun` holds, as many as there are in the list.
unfoldable pub worker_loop : Platform → List Round → Worker → Run Worker
worker_loop p [] w = ok w
worker_loop p (r ∷ rs) w =
    if w.driver.running then worker_round p r w >>= worker_loop p rs else ok w

-- What the thread does ahead of its loop, behind the set-up of the CRC table.
abbrev pub start_worker : Driver → Worker
start_worker d = record {
  driver = record d {
    info = record { waiting_for_ack_nack = false; ack = false; seq = 0; channel = 0 };
  };
  in_progress = false;
  seq = 0;
}

-- The thread.
unfoldable pub work_thread_transmit : Platform → List Round → Driver → Run Worker
work_thread_transmit p rs d = worker_loop p rs (start_worker d)
