-- ===== src/Session/Returns.antt =====
-- `open` and `close` of src/common/can4vscpobj.cpp return.
use vscpl1drv_can4vscp.Prelude.{
  ℕ, ◌%◌, ◌^◌, ◌≢◌, ◌==◌, arith, Bool, inl, inr, true, not, Option, none, List, [], ◌∷◌, ltb, leb,
  length,
}
use vscpl1drv_can4vscp.Platform.{Platform, Response}
use vscpl1drv_can4vscp.Driver.{
  Driver, Run, ok, starved, ◌>>=◌, Code, success, init_fail, has_flag, flag_timestamp,
  no_statistics,
}
use vscpl1drv_can4vscp.Driver.Outcome.{bind-ne-starved, if-ne-starved, test-ne-starved}
use vscpl1drv_can4vscp.Commands.{
  Poll, deadline_of, send_frame, send_command_wait, take_caps, caps_loop, get_device_capabilities,
}
use vscpl1drv_can4vscp.Commands.Waiting.{Expires}
use vscpl1drv_can4vscp.Config.Text.{Bytes}
use vscpl1drv_can4vscp.Session.{
  config_step, mode_command, command_noop, command_close, config_timestamp, config_baudrate,
  baudrate_115200,
}
use vscpl1drv_can4vscp.Session.Progress.{
  send_frame-ne-starved, send_command_wait-ne-starved, config_step-ne-starved,
}
use vscpl1drv_can4vscp.Session.Close.{Closing, close}
use vscpl1drv_can4vscp.Session.Open.{
  Opening, Session, Attempt, config_text, path_max, switch_mode, start, handshake, checkpoint,
  set_mode, set_rate, set_timestamp, ask_capabilities, establish, when_open, can4vscp_open,
}

module _ (p : Platform) where
  take_caps-ne-starved :
      (saveseq : ℕ) (r : Response) (d : Driver) → take_caps p saveseq r d ≢ starved
  unfolding take_caps
  take_caps-ne-starved saveseq r d = ground arith

  caps_loop-ne-starved :
      (saveseq deadline : ℕ) (qs : List Poll) (d : Driver)
      → Expires deadline qs
      → caps_loop p saveseq deadline qs d ≢ starved
  unfolding caps_loop
  caps_loop-ne-starved saveseq deadline [] d e = absurd e
  caps_loop-ne-starved saveseq deadline (q ∷ qs) d (inl late) = ground arith
  caps_loop-ne-starved saveseq deadline (q ∷ qs) d (inr later) =
      test-ne-starved (ltb q.now deadline) _ _ (λ e. cc)
        (on (q.others d) (q.others d).response_list
          (λ a. caps_loop-ne-starved saveseq deadline qs a later))
    where
      on :
          (e : Driver) (rs : List Response)
          → ((a : Driver) → caps_loop p saveseq deadline qs a ≢ starved)
          → elim rs [
            | [] ↦ caps_loop p saveseq deadline qs e
            | r ∷ rest ↦
                take_caps p saveseq r
                  (record e { response_list = p.responses.remove_head e.response_list })
                >>= caps_loop p saveseq deadline qs
          ]
            ≢ starved
      on e [] h = h e
      on e (r ∷ rest) h =
          let e' = record e { response_list = p.responses.remove_head e.response_list } in
          bind-ne-starved (take_caps p saveseq r e') (caps_loop p saveseq deadline qs)
            (take_caps-ne-starved saveseq r e') h

  get_device_capabilities-ne-starved :
      (start : ℕ) (polls : List Poll) (d : Driver)
      → Expires (deadline_of start 500) polls
      → get_device_capabilities p start polls d ≢ starved
  unfolding get_device_capabilities
  get_device_capabilities-ne-starved start polls d e =
      bind-ne-starved (send_frame p p.frame_types.caps_request 2 (1 ∷ 10 ∷ []) d) _
        (send_frame-ne-starved p p.frame_types.caps_request 2 (1 ∷ 10 ∷ []) d)
        (λ sent.
          if-ne-starved sent.1 _ _
            (bind-ne-starved (caps_loop p d.sequencyno (deadline_of start 500) polls sent.0) _
              (caps_loop-ne-starved d.sequencyno (deadline_of start 500) polls sent.0 e)
              (λ a e. cc))
            (λ e. cc))

abbrev AllExpire : List Attempt → Type 0
AllExpire [] = Unit {0}
AllExpire (a ∷ rest) = Expires (deadline_of a.wait.start 500) a.wait.polls × AllExpire rest

handshake-ne-starved :
    (p : Platform) (tries : List Attempt) (d : Driver)
    → AllExpire tries
    → handshake p tries d ≢ starved
unfolding handshake
handshake-ne-starved p [] d k = λ e. cc
handshake-ne-starved p (a ∷ rest) d k =
    bind-ne-starved (send_command_wait p command_noop [] a.wait.start 500 a.wait.polls none d) _
      (send_command_wait-ne-starved p command_noop [] 500 a.wait d k.0)
      (λ r. if-ne-starved r.1 _ _ (λ e. cc) (handshake-ne-starved p rest (a.sleep r.0) k.1))

-- The clock reaches the deadline of each wait of open.
abbrev pub OpeningExpires : Opening → Type 0
OpeningExpires o =
    AllExpire (o.first ∷ o.second ∷ o.third ∷ [])
    × Expires (deadline_of o.caps_wait.start 500) o.caps_wait.polls
    × Expires (deadline_of o.timestamp_wait.start 500) o.timestamp_wait.polls
    × Expires (deadline_of o.baudrate_wait.start 500) o.baudrate_wait.polls
    × Expires (deadline_of o.mode_wait.start 1000) o.mode_wait.polls
    × Expires (deadline_of o.closing.wait.start 1000) o.closing.wait.polls

pub close-ne-starved :
    (p : Platform) (c : Closing) (d : Driver)
    → Expires (deadline_of c.wait.start 1000) c.wait.polls
    → close p c d ≢ starved
unfolding close
close-ne-starved p c d e =
    if-ne-starved (not d.running) _ _ (λ e. cc)
      (bind-ne-starved (send_command_wait p command_close [] c.wait.start 1000 c.wait.polls none d)
        _ (send_command_wait-ne-starved p command_close [] 1000 c.wait d e) (λ r e. cc))

module _ (p : Platform) (o : Opening) (e : OpeningExpires o) where
  checkpoint-ne-starved :
      (done : Bool) (next : Driver → Run (Driver × Code)) (d : Driver)
      → ((a : Driver) → next a ≢ starved)
      → checkpoint p o.closing done next d ≢ starved
  unfolding checkpoint
  checkpoint-ne-starved done next d h = if-ne-starved done _ _ (h d) (
      if-ne-starved d.strict _ _
        (bind-ne-starved (close p o.closing d) _ (close-ne-starved p o.closing d e.5) (λ r q. cc))
        (h d))

  set_mode-ne-starved : (d : Driver) → set_mode p o d ≢ starved
  set_mode-ne-starved d =
      bind-ne-starved
        (send_command_wait p (mode_command d) [] o.mode_wait.start 1000 o.mode_wait.polls none d) _
        (send_command_wait-ne-starved p (mode_command d) [] 1000 o.mode_wait d e.4)
        (λ r. checkpoint-ne-starved r.1 (λ a. ok (a, success)) r.0 (λ a q. cc))

  set_rate-ne-starved : (d : Driver) → set_rate p o d ≢ starved
  set_rate-ne-starved d =
      let rate = not (d.baud == baudrate_115200) in
      bind-ne-starved (config_step p rate config_baudrate (d.baud % 2 ^ 8) o.baudrate_wait d) _
        (config_step-ne-starved p rate config_baudrate (d.baud % 2 ^ 8) o.baudrate_wait d e.3)
        (λ r. checkpoint-ne-starved r.1 (set_mode p o) r.0 set_mode-ne-starved)

  set_timestamp-ne-starved : (d : Driver) → set_timestamp p o d ≢ starved
  set_timestamp-ne-starved d =
      bind-ne-starved
        (config_step p (has_flag d flag_timestamp) config_timestamp 1 o.timestamp_wait d) _
        (config_step-ne-starved p (has_flag d flag_timestamp) config_timestamp 1 o.timestamp_wait d
          e.2)
        (λ r. checkpoint-ne-starved r.1 (set_rate p o) r.0 set_rate-ne-starved)

  ask_capabilities-ne-starved : (d : Driver) → ask_capabilities p o d ≢ starved
  ask_capabilities-ne-starved d =
      bind-ne-starved
        (get_device_capabilities p o.caps_wait.start o.caps_wait.polls (record d { opened = true }))
        _
        (get_device_capabilities-ne-starved p o.caps_wait.start o.caps_wait.polls
          (record d { opened = true }) e.1)
        (λ r. set_timestamp-ne-starved r.0)

  establish-ne-starved : (d : Driver) → establish p o d ≢ starved
  unfolding establish
  establish-ne-starved d =
      let started = start (switch_mode (record d { stat = no_statistics })) in
      bind-ne-starved (handshake p (o.first ∷ o.second ∷ o.third ∷ []) started) _
        (handshake-ne-starved p (o.first ∷ o.second ∷ o.third ∷ []) started e.0)
        (λ r. checkpoint-ne-starved r.1 (ask_capabilities p o) r.0 ask_capabilities-ne-starved)

  when_open-ne-starved : (r : Session × Code) → when_open p o r ≢ starved
  when_open-ne-starved (s, success) =
      bind-ne-starved (establish p o s.driver) _ (establish-ne-starved s.driver) (λ r q. cc)
  when_open-ne-starved (s, Code.parameter) = λ q. cc
  when_open-ne-starved (s, Code.not_open) = λ q. cc
  when_open-ne-starved (s, Code.fifo_full) = λ q. cc
  when_open-ne-starved (s, Code.fifo_empty) = λ q. cc
  when_open-ne-starved (s, Code.timeout) = λ q. cc
  when_open-ne-starved (s, Code.generic) = λ q. cc
  when_open-ne-starved (s, init_fail) = λ q. cc

  -- It ends, if the clock reaches the deadline of each of its waits at one of the polls.
  pub can4vscp_open-ne-starved :
      (config : Option Bytes) (flags : ℕ) (s : Session) → can4vscp_open p o config flags s ≢ starved
  unfolding can4vscp_open
  can4vscp_open-ne-starved config flags s =
      if-ne-starved s.driver.running _ _ (λ q. cc)
        (if-ne-starved (leb path_max (length (config_text config))) _ _ (λ q. cc)
          (when_open-ne-starved _))
