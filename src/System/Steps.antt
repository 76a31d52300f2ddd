-- ===== src/System/Steps.antt =====
-- The rounds of the transmit thread of src/common/can4vscpobj.cpp, and every sequence of steps, keep
-- the relations of Keeping.
use vscpl1drv_can4vscp.Prelude.{
  ℕ, ◌+◌, ◌-◌, ◌%◌, ◌^◌, ◌==◌, ◌≡◌, refl, arith, Bool, true, false, ◌&&◌, none, List, [], ◌∷◌, ltb,
  if◌then◌else◌,
}
use vscpl1drv_can4vscp.Message.{CanalMsg}
use vscpl1drv_can4vscp.Platform.{Platform}
use vscpl1drv_can4vscp.Driver.{
  Driver, Code, has_flag, flag_timestamp, flag_wait_for_ack, flag_reopen,
}
use vscpl1drv_can4vscp.Driver.Outcome.{OnOk, OnOk-ok, bind-OnOk, if-OnOk}
use vscpl1drv_can4vscp.Commands.{send_command_wait}
use vscpl1drv_can4vscp.Session.{
  Waiting, config_step, soft_open, mode_command, config_timestamp, config_baudrate, baudrate_115200,
}
use vscpl1drv_can4vscp.Session.Keeping.{
  Quiet, AllKeepRel, RelAfter, RelWait, same-Rel, send_command_wait-Rel, config_step-Rel,
}
use vscpl1drv_can4vscp.Transmit.{transmit_message}
use vscpl1drv_can4vscp.Transmit.Worker.{
  Worker, Round, complete, complete_head, after_transmit, transmit_first, resend, check_activity,
  look_at_queue, send_next, acknowledged, on_response, worker_round, soft_open_timeout,
}
use vscpl1drv_can4vscp.System.{Meanwhile, Step, other, round, Reach, here, further}
use vscpl1drv_can4vscp.System.Keeping.{
  QueueKeeping, QuietSent, transmit_message-Quiet, Other-Rel, Others-Rel, polls-AllKeepRel,
}

module _ (p : Platform) (Q : QueueKeeping p) where
  abbrev RelCode : Driver → Driver × Code → Type 0
  RelCode a r = Q.base.Rel a r.0

  abbrev RelWorker : Driver → Worker → Type 0
  RelWorker a w = Q.base.Rel a w.driver

  soft_open-Rel :
      (tw bw mw : Waiting) (d : Driver)
      → AllKeepRel Q.base.Rel tw.polls
      → AllKeepRel Q.base.Rel bw.polls
      → AllKeepRel Q.base.Rel mw.polls
      → OnOk (RelCode d) (soft_open p tw bw mw d)
  unfolding soft_open
  soft_open-Rel tw bw mw d kt kb km =
      bind-OnOk (RelAfter p Q.base d) (RelCode d)
        (config_step p (has_flag d flag_timestamp) config_timestamp 1 tw d) _
        (config_step-Rel p Q.base (has_flag d flag_timestamp) config_timestamp 1 tw d kt)
        (λ r1 s1.
          if-OnOk (RelCode d) r1.1 _ _
            (λ e.
              let rate = if r1.0.baud == baudrate_115200 then false else true in
              bind-OnOk (RelAfter p Q.base r1.0) (RelCode d)
                (config_step p rate config_baudrate (r1.0.baud % 2 ^ 8) bw r1.0) _
                (config_step-Rel p Q.base rate config_baudrate (r1.0.baud % 2 ^ 8) bw r1.0 kb)
                (λ r2 s2.
                  let sofar = Q.base.trans d r1.0 r2.0 s1 s2 in
                  if-OnOk (RelCode d) r2.1 _ _
                    (λ e2.
                      bind-OnOk (RelWait p Q.base r2.0) (RelCode d)
                        (send_command_wait p (mode_command r2.0) [] mw.start 1000 mw.polls none
                          r2.0)
                        _
                        (send_command_wait-Rel p Q.base (mode_command r2.0) [] mw.start 1000
                          mw.polls none r2.0 km)
                        (λ r3 s3. Q.base.trans d r2.0 r3.0 sofar s3))
                    (λ e2. sofar)))
            (λ e. s1))

  complete_head-Rel :
      (d : Driver) (ms : List CanalMsg) → d.transmit_list ≡ ms → Q.base.Rel d (complete_head p d ms)
  complete_head-Rel d [] e = same-Rel p Q.base d
  complete_head-Rel d (m ∷ ms) e = Q.done m ms d e

  after_transmit-Rel :
      (w : Worker) (d : Driver) (sent acks : Bool) (seq : ℕ)
      → Q.base.Rel d (after_transmit p w d sent acks seq).driver
  after_transmit-Rel w d true true seq = same-Rel p Q.base d
  after_transmit-Rel w d true false seq = complete_head-Rel d d.transmit_list refl
  after_transmit-Rel w d false acks seq = same-Rel p Q.base d

  transmit_first-Rel :
      (a : Driver) (w : Worker) → Q.base.Rel a w.driver → OnOk (RelWorker a) (transmit_first p w)
  unfolding transmit_first
  transmit_first-Rel a w s =
      bind-OnOk (QuietSent w.driver) (RelWorker a) (transmit_message p w.seq w.driver) _
        (transmit_message-Quiet p w.seq w.driver)
        (λ r q.
          let s1 = Q.base.trans a w.driver r.0 s (Q.base.quiet w.driver r.0 q) in
          let behind = (after_transmit p w r.0 r.1 (has_flag r.0 flag_wait_for_ack) r.2).driver in
          Q.base.trans a r.0 behind s1
            (after_transmit-Rel w r.0 r.1 (has_flag r.0 flag_wait_for_ack) r.2))

  resend-Rel : (a : Driver) (w : Worker) → Q.base.Rel a w.driver → OnOk (RelWorker a) (resend p w)
  resend-Rel a w s =
      bind-OnOk (QuietSent w.driver) (RelWorker a) (transmit_message p w.seq w.driver) _
        (transmit_message-Quiet p w.seq w.driver)
        (λ r q. Q.base.trans a w.driver r.0 s (Q.base.quiet w.driver r.0 q))

  -- A change of what the relation does not look at.
  also : (a d e : Driver) → Q.base.Rel a d → Quiet d e → Q.base.Rel a e
  also a d e s q = Q.base.trans a d e s (Q.base.quiet d e q)

module _ (p : Platform) (Q : QueueKeeping p) (r : Round) (k : Meanwhile p r) where
  check_activity-Rel : (d : Driver) → OnOk (Q.base.Rel d) (check_activity p r d)
  unfolding check_activity
  check_activity-Rel d =
      if-OnOk (Q.base.Rel d)
        (has_flag d flag_reopen
          && ltb soft_open_timeout ((r.micro_seconds + 2 ^ 32 - d.activity) % 2 ^ 32))
        _ _
        (λ e.
          bind-OnOk (RelCode p Q d) (Q.base.Rel d)
            (soft_open p r.timestamp_wait r.baudrate_wait r.mode_wait d) _
            (soft_open-Rel p Q r.timestamp_wait r.baudrate_wait r.mode_wait d
              (polls-AllKeepRel p Q r.timestamp_wait.polls k.timestamp)
              (polls-AllKeepRel p Q r.baudrate_wait.polls k.baudrate)
              (polls-AllKeepRel p Q r.mode_wait.polls k.mode))
            (λ x s. also p Q d x.0 (record x.0 { activity = r.milli_seconds }) s (ground arith)))
        (λ e. same-Rel p Q.base d)

  look_at_queue-Rel :
      (a : Driver) (w : Worker) (ms : List CanalMsg)
      → Q.base.Rel a w.driver
      → OnOk (RelWorker p Q a) (look_at_queue p r w ms)
  look_at_queue-Rel a w [] s =
      bind-OnOk (Q.base.Rel w.driver) (RelWorker p Q a) (check_activity p r w.driver) _
        (check_activity-Rel w.driver) (λ d s1. Q.base.trans a w.driver d s s1)
  look_at_queue-Rel a w (m ∷ ms) s = transmit_first-Rel p Q a w s

  send_next-Rel :
      (a : Driver) (w : Worker) (ms : List CanalMsg)
      → Q.base.Rel a w.driver
      → OnOk (RelWorker p Q a) (send_next p r w ms)
  send_next-Rel a w [] s =
      let d = r.get_others w.driver in
      let taken = record d { transmit_data_get_sem = d.transmit_data_get_sem - 1 } in
      let s1 = Q.base.trans a w.driver d s (Others-Rel p Q w.driver d (k.get w.driver)) in
      if-OnOk (RelWorker p Q a) r.get_granted _ _
        (λ e.
          look_at_queue-Rel a (record w { driver = taken }) d.transmit_list
            (also p Q a d taken s1 (ground arith)))
        (λ e. s1)
  send_next-Rel a w (m ∷ ms) s = transmit_first-Rel p Q a w s

  acknowledged-Rel :
      (a : Driver) (w : Worker) (ms : List CanalMsg)
      → w.driver.transmit_list ≡ ms
      → Q.base.Rel a w.driver
      → OnOk (RelWorker p Q a) (acknowledged p r w ms)
  acknowledged-Rel a w [] e s = s
  acknowledged-Rel a w (m ∷ ms) e s =
      let d = complete p m w.driver in
      send_next-Rel a (record w { driver = d; in_progress = false }) d.transmit_list
        (Q.base.trans a w.driver d s (Q.done m ms w.driver e))

  on_response-Rel :
      (a : Driver) (w : Worker) (d : Driver) (granted acked : Bool)
      → Q.base.Rel a d
      → OnOk (RelWorker p Q a) (on_response p r w d granted acked)
  on_response-Rel a w d false acked s = resend-Rel p Q a (record w { driver = d }) s
  on_response-Rel a w d true false s =
      let taken = record d { transmit_ack_nack_sem = d.transmit_ack_nack_sem - 1 } in
      resend-Rel p Q a (record w { driver = taken }) (also p Q a d taken s (ground arith))
  on_response-Rel a w d true true s =
      let taken = record d { transmit_ack_nack_sem = d.transmit_ack_nack_sem - 1 } in
      acknowledged-Rel a (record w { driver = taken }) d.transmit_list refl
        (also p Q a d taken s (ground arith))

  worker_round-Rel : (w : Worker) → OnOk (RelWorker p Q w.driver) (worker_round p r w)
  unfolding worker_round
  worker_round-Rel w =
      let d = r.ack_others w.driver in
      if-OnOk (RelWorker p Q w.driver) (has_flag w.driver flag_wait_for_ack && w.in_progress) _ _
        (λ e.
          on_response-Rel w.driver w d r.ack_granted d.info.ack
            (Others-Rel p Q w.driver d (k.ack w.driver)))
        (λ e. send_next-Rel w.driver w w.driver.transmit_list (same-Rel p Q.base w.driver))

module _ (p : Platform) (Q : QueueKeeping p) where
  Step-Rel : (w w' : Worker) → Step p w w' → Q.base.Rel w.driver w'.driver
  Step-Rel _ _ (other w d s) = Other-Rel p Q w.driver d s
  Step-Rel _ _ (round r w w' runs k run) =
      OnOk-ok (RelWorker p Q w.driver) (worker_round p r w) w' (worker_round-Rel p Q r k w) run

  pub Reach-Rel : (w w' : Worker) → Reach p w w' → Q.base.Rel w.driver w'.driver
  Reach-Rel _ _ (here w) = same-Rel p Q.base w.driver
  Reach-Rel _ _ (further a b c s later) =
      Q.base.trans a.driver b.driver c.driver (Step-Rel a b s) (Reach-Rel b c later)
