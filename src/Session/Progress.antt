-- ===== src/Session/Progress.antt =====
-- Termination of `softOpen` (src/common/can4vscpobj.cpp).
use vscpl1drv_can4vscp.Serial.{frame_bytes}
use vscpl1drv_can4vscp.Prelude.{
  ℕ, ◌%◌, ◌^◌, ◌==◌, ◌≢◌, Bool, true, false, none, List, [], ◌∷◌, if◌then◌else◌, length, ◌+◌, ltb,
}
use vscpl1drv_can4vscp.Platform.{Platform}
use vscpl1drv_can4vscp.Driver.{Driver, starved, has_flag, flag_timestamp}
use vscpl1drv_can4vscp.Driver.Outcome.{bind-ne-starved, if-ne-starved}
use vscpl1drv_can4vscp.Commands.{
  deadline_of, send_command_wait, send_config_wait, wait4_command_response, send_command,
  command_verdict, send_frame, send_data_size,
}
use vscpl1drv_can4vscp.Commands.Waiting.{Expires, wait_loop-ne-starved}
use vscpl1drv_can4vscp.Session.{
  Waiting, config_step, soft_open, mode_command, config_timestamp, config_baudrate, baudrate_115200,
}

pub send_frame-ne-starved :
    (p : Platform) (frame_type declared : ℕ) (payload : List ℕ) (d : Driver)
    → send_frame p frame_type declared payload d ≢ starved
unfolding send_frame
send_frame-ne-starved p frame_type declared payload d =
    let wire = frame_bytes p frame_type d.sequencyno declared payload in
    if-ne-starved (ltb send_data_size (length wire)) _ _ (λ e. cc) (λ e. cc)

send_command-ne-starved :
    (p : Platform) (code : ℕ) (param : List ℕ) (d : Driver) → send_command p code param d ≢ starved
unfolding send_command
send_command-ne-starved p code param d =
    send_frame-ne-starved p p.frame_types.command ((length param + 1) % 2 ^ 8) (code ∷ param) d

pub send_command_wait-ne-starved :
    (p : Platform) (code : ℕ) (param : List ℕ) (timeout : ℕ) (w : Waiting) (d : Driver)
    → Expires (deadline_of w.start timeout) w.polls
    → send_command_wait p code param w.start timeout w.polls none d ≢ starved
unfolding send_command_wait wait4_command_response
send_command_wait-ne-starved p code param timeout w d e =
    bind-ne-starved (send_command p code param d) _ (send_command-ne-starved p code param d)
      (λ sent.
        if-ne-starved sent.1 _ _
          (wait_loop-ne-starved p (command_verdict p code d.sequencyno)
            (deadline_of w.start timeout) w.polls none sent.0 e)
          (λ e. cc))

pub config_step-ne-starved :
    (p : Platform) (wanted : Bool) (code conf : ℕ) (w : Waiting) (d : Driver)
    → Expires (deadline_of w.start 500) w.polls
    → config_step p wanted code conf w d ≢ starved
unfolding config_step send_config_wait send_command_wait
config_step-ne-starved p wanted code conf w d e =
    if-ne-starved wanted _ _
      (bind-ne-starved (send_command_wait p code (conf ∷ []) w.start 500 w.polls none d) _
        (send_command_wait-ne-starved p code (conf ∷ []) 500 w d e) (λ a e. cc))
      (λ e. cc)

-- softOpen ends, if the clock reaches the deadline of each of its waits at one of the polls,
-- whatever the other threads do and whatever the interface answers.
pub soft_open-ne-starved :
    (p : Platform) (timestamp_wait baudrate_wait mode_wait : Waiting) (d : Driver)
    → Expires (deadline_of timestamp_wait.start 500) timestamp_wait.polls
    → Expires (deadline_of baudrate_wait.start 500) baudrate_wait.polls
    → Expires (deadline_of mode_wait.start 1000) mode_wait.polls
    → soft_open p timestamp_wait baudrate_wait mode_wait d ≢ starved
unfolding soft_open
soft_open-ne-starved p tw bw mw d et eb em =
    bind-ne-starved _ _
      (config_step-ne-starved p (has_flag d flag_timestamp) config_timestamp 1 tw d et)
      (λ (d1, stamped).
        if-ne-starved stamped _ _
          (bind-ne-starved _ _
            (config_step-ne-starved p (if d1.baud == baudrate_115200 then false else true)
              config_baudrate (d1.baud % 2 ^ 8) bw d1 eb)
            (λ (d2, rated).
              if-ne-starved rated _ _
                (bind-ne-starved _ _
                  (send_command_wait-ne-starved p (mode_command d2) [] 1000 mw d2 em) (λ a e. cc))
                (λ e. cc)))
          (λ e. cc))
