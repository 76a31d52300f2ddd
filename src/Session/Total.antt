-- ===== src/Session/Total.antt =====
-- `open` of src/common/can4vscpobj.cpp returns, without a read outside an array.
use vscpl1drv_can4vscp.Prelude.{
  ℕ, ◌%◌, ◌^◌, ◌<◌, ◌≤◌, ◌≡◌, ◌≢◌, ◌==◌, arith, Bool, true, false, not, Option, none, List, [], ◌∷◌,
  leb, length,
}
use vscpl1drv_can4vscp.Platform.{Platform, IsFifo}
use vscpl1drv_can4vscp.Driver.{
  Driver, Run, ok, fault, Code, success, init_fail, has_flag, flag_timestamp, no_statistics,
}
use vscpl1drv_can4vscp.Driver.Outcome.{ok-ne-fault, bind-ne-fault, if-ne-fault, total}
use vscpl1drv_can4vscp.Commands.{send_command_wait, send_config_wait, get_device_capabilities}
use vscpl1drv_can4vscp.Config.Text.{Bytes}
use vscpl1drv_can4vscp.Session.{
  Waiting, config_step, mode_command, command_noop, command_close, config_timestamp,
  config_baudrate, baudrate_115200,
}
use vscpl1drv_can4vscp.Session.Close.{Closing, close}
use vscpl1drv_can4vscp.Session.Open.{
  Opening, Session, Attempt, config_text, path_max, switch_mode, start, handshake, checkpoint,
  set_mode, set_rate, set_timestamp, ask_capabilities, establish, when_open, can4vscp_open,
}
use vscpl1drv_can4vscp.Session.Whole.{KeepWhole, get_device_capabilities-ne-fault}
use vscpl1drv_can4vscp.Session.Closed.{send_command_wait-ne-fault}
use vscpl1drv_can4vscp.Session.Returns.{OpeningExpires, can4vscp_open-ne-starved}

handshake-ne-fault :
    (p : Platform) (tries : List Attempt) (d : Driver) → handshake p tries d ≢ fault
unfolding handshake
handshake-ne-fault p [] d = λ e. cc
handshake-ne-fault p (a ∷ rest) d =
    bind-ne-fault (send_command_wait p command_noop [] a.wait.start 500 a.wait.polls none d) _
      (send_command_wait-ne-fault p command_noop [] a.wait.start 500 a.wait.polls none d
        (omega arith))
      (λ r. if-ne-fault r.1 _ _ (ok-ne-fault _) (handshake-ne-fault p rest (a.sleep r.0)))

config_step-ne-fault :
    (p : Platform) (wanted : Bool) (code conf : ℕ) (w : Waiting) (d : Driver)
    → config_step p wanted code conf w d ≢ fault
unfolding config_step send_config_wait send_command_wait
config_step-ne-fault p wanted code conf w d =
    if-ne-fault wanted _ _
      (bind-ne-fault (send_command_wait p code (conf ∷ []) w.start 500 w.polls none d) _
        (send_command_wait-ne-fault p code (conf ∷ []) w.start 500 w.polls none d (omega arith))
        (λ r. ok-ne-fault _))
      (ok-ne-fault _)

pub close-ne-fault : (p : Platform) (c : Closing) (d : Driver) → close p c d ≢ fault
unfolding close
close-ne-fault p c d = if-ne-fault (not d.running) _ _ (ok-ne-fault _) (
    bind-ne-fault (send_command_wait p command_close [] c.wait.start 1000 c.wait.polls none d) _
      (send_command_wait-ne-fault p command_close [] c.wait.start 1000 c.wait.polls none d
        (omega arith))
      (λ r. ok-ne-fault _))

checkpoint-ne-fault :
    (p : Platform) (c : Closing) (done : Bool) (next : Driver → Run (Driver × Code)) (d : Driver)
    → ((a : Driver) → next a ≢ fault)
    → checkpoint p c done next d ≢ fault
unfolding checkpoint
checkpoint-ne-fault p c done next d h = if-ne-fault done _ _ (h d) (
    if-ne-fault d.strict _ _
      (bind-ne-fault (close p c d) _ (close-ne-fault p c d) (λ r. ok-ne-fault _)) (h d))

module _ (p : Platform) (four : 4 ≤ p.caps_size) (fifo : IsFifo p.responses) (o : Opening)
    (k : KeepWhole o.caps_wait.polls) where
  set_mode-ne-fault : (d : Driver) → set_mode p o d ≢ fault
  set_mode-ne-fault d =
      bind-ne-fault
        (send_command_wait p (mode_command d) [] o.mode_wait.start 1000 o.mode_wait.polls none d) _
        (send_command_wait-ne-fault p (mode_command d) [] o.mode_wait.start 1000 o.mode_wait.polls
          none d (omega arith))
        (λ r. checkpoint-ne-fault p o.closing r.1 (λ a. ok (a, success)) r.0 (λ a. ok-ne-fault _))

  set_rate-ne-fault : (d : Driver) → set_rate p o d ≢ fault
  set_rate-ne-fault d =
      let rate = not (d.baud == baudrate_115200) in
      bind-ne-fault (config_step p rate config_baudrate (d.baud % 2 ^ 8) o.baudrate_wait d) _
        (config_step-ne-fault p rate config_baudrate (d.baud % 2 ^ 8) o.baudrate_wait d)
        (λ r. checkpoint-ne-fault p o.closing r.1 (set_mode p o) r.0 set_mode-ne-fault)

  set_timestamp-ne-fault : (d : Driver) → set_timestamp p o d ≢ fault
  set_timestamp-ne-fault d =
      bind-ne-fault
        (config_step p (has_flag d flag_timestamp) config_timestamp 1 o.timestamp_wait d) _
        (config_step-ne-fault p (has_flag d flag_timestamp) config_timestamp 1 o.timestamp_wait d)
        (λ r. checkpoint-ne-fault p o.closing r.1 (set_rate p o) r.0 set_rate-ne-fault)

  ask_capabilities-ne-fault : (d : Driver) → ask_capabilities p o d ≢ fault
  ask_capabilities-ne-fault d =
      let d' = record d { opened = true } in
      bind-ne-fault (get_device_capabilities p o.caps_wait.start o.caps_wait.polls d') _
        (get_device_capabilities-ne-fault p four fifo o.caps_wait.start o.caps_wait.polls d' k)
        (λ r. set_timestamp-ne-fault r.0)

  establish-ne-fault : (d : Driver) → establish p o d ≢ fault
  unfolding establish
  establish-ne-fault d =
      let started = start (switch_mode (record d { stat = no_statistics })) in
      bind-ne-fault (handshake p (o.first ∷ o.second ∷ o.third ∷ []) started) _
        (handshake-ne-fault p (o.first ∷ o.second ∷ o.third ∷ []) started)
        (λ r.
          checkpoint-ne-fault p o.closing r.1 (ask_capabilities p o) r.0 ask_capabilities-ne-fault)

  when_open-ne-fault : (r : Session × Code) → when_open p o r ≢ fault
  when_open-ne-fault (s, success) =
      bind-ne-fault (establish p o s.driver) _ (establish-ne-fault s.driver) (λ r. ok-ne-fault _)
  when_open-ne-fault (s, Code.parameter) = λ q. cc
  when_open-ne-fault (s, Code.not_open) = λ q. cc
  when_open-ne-fault (s, Code.fifo_full) = λ q. cc
  when_open-ne-fault (s, Code.fifo_empty) = λ q. cc
  when_open-ne-fault (s, Code.timeout) = λ q. cc
  when_open-ne-fault (s, Code.generic) = λ q. cc
  when_open-ne-fault (s, init_fail) = λ q. cc

  -- open returns, with or without strict mode and whatever the device answers, and reads nothing
  -- outside an array: the configuration string is shorter than PATH_MAX, a response with
  -- capabilities has at least four bytes by its code, the other threads queue no response that has
  -- less than it says, the clock reaches the deadline of each wait at one of the polls, and the
  -- list keeps the order of its nodes.
  pub can4vscp_open-returns :
      (config : Option Bytes) (flags : ℕ) (s : Session)
      → length (config_text config) < path_max
      → OpeningExpires o
      → (r : Session × Code) × (can4vscp_open p o config flags s ≡ ok r)
  unfolding can4vscp_open
  can4vscp_open-returns config flags s short expires =
      let fits : leb path_max (length (config_text config)) ≡ false = ground arith in
      total (can4vscp_open p o config flags s)
        (if-ne-fault s.driver.running _ _ (ok-ne-fault _) (rw fits (when_open-ne-fault _)))
        (can4vscp_open-ne-starved p o expires config flags s)
