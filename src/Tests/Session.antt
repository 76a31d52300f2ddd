-- ===== src/Tests/Session.antt =====
-- Opening and closing a driver.
use vscpl1drv_can4vscp.Session.Configured.{can4vscp_open-print_config}
use vscpl1drv_can4vscp.Config.Fields.{print_config}
use vscpl1drv_can4vscp.Config.Numbers.{decimal_upto}
use vscpl1drv_can4vscp.Session.{baudrate_115200}
use vscpl1drv_can4vscp.Frame.{
  build_frame, put, put_crc, put_escaped, put_payload, put_checksum, add_with_escape,
}
use vscpl1drv_can4vscp.Commands.{post_frame}
use vscpl1drv_can4vscp.Serial.{frame_bytes}
use vscpl1drv_can4vscp.Prelude.{
  ℕ, ◌≡◌, ◌≢◌, ◌⊎◌, inl, refl, true, false, none, some, [], ◌∷◌, arith,
}
use vscpl1drv_can4vscp.Platform.{Platform}
use vscpl1drv_can4vscp.Driver.{
  Driver, construct, no_statistics, ok, success, init_fail, flag_strict,
}
use vscpl1drv_can4vscp.Serial.{send_msg}
use vscpl1drv_can4vscp.Commands.{
  Poll, send_command, send_frame, send_command_wait, wait4_command_response, wait_loop, wait_round,
  get_device_capabilities, caps_loop, command_verdict,
}
use vscpl1drv_can4vscp.Config.{info, debug, read_config, next_config_token}
use vscpl1drv_can4vscp.Config.Text.{codes, strchr, atoi, digits_from}
use vscpl1drv_can4vscp.Session.{Waiting, config_step}
use vscpl1drv_can4vscp.Session.Close.{Closing, close}
use vscpl1drv_can4vscp.Session.Open.{
  Attempt, Opening, Session, switch_mode, start, handshake, establish, can4vscp_open, when_open,
  open_serial_interface, configure, prepare, checkpoint,
}
use vscpl1drv_can4vscp.Session.Outcome.{OpeningKeeps, can4vscp_open-outcome}
use vscpl1drv_can4vscp.Session.Answered.{NoopAnswered}
use vscpl1drv_can4vscp.Session.Strict.{establish-found}
use vscpl1drv_can4vscp.Session.Closed.{close_lem}
use vscpl1drv_can4vscp.Handles.{
  ℤ, pos, Table, no_objects, set_object, get_driver_object, add_driver_object, free_slot, index,
}
use vscpl1drv_can4vscp.Canal.{new_session, enter, canal_open, canal_close}
use vscpl1drv_can4vscp.Canal.Laws.{canal_open_lem, canal_close_lem}
use vscpl1drv_can4vscp.Tests.Example.{example_platform, open_driver}
use vscpl1drv_can4vscp.Tests.Commands.{quiet_at}

-- The device does not answer.
abbrev pub silent : Waiting
silent = record { start = 0; polls = quiet_at 1000 ∷ [] }

-- A poll at which the device's answer to a command is in the queue.
abbrev answer : ℕ → ℕ → Poll
answer seq code = record {
  now = 0;
  others = λ d. record d {
    response_list =
        record { op = 18; seq = seq; channel = 0; size_payload = 2; payload = 0 ∷ code ∷ [] } ∷ [];
  };
}

abbrev no_reply : Attempt
no_reply = record { wait = silent; sleep = λ d. d }

abbrev pub closing : Closing
closing = record { wait = silent; joined = λ d. d }

abbrev pub unanswered : Opening
unanswered = record {
  descriptor = 0;
  opens = true;
  first = no_reply;
  second = no_reply;
  third = no_reply;
  caps_wait = silent;
  timestamp_wait = silent;
  baudrate_wait = silent;
  mode_wait = silent;
  closing = closing;
}

-- The first try of the NOOP command and the OPEN command are answered.
abbrev pub answered : Opening
answered = record unanswered {
  first = record { wait = record { start = 0; polls = answer 0 0 ∷ [] }; sleep = λ d. d };
  mode_wait = record { start = 0; polls = answer 2 1 ∷ [] };
}

abbrev pub new_driver : Driver
new_driver = construct 0 (λ i. 0) 0 no_statistics

abbrev fresh : Session
fresh = new_session new_driver info

unanswered-OpeningKeeps : OpeningKeeps unanswered
unanswered-OpeningKeeps = (
  (
    ((λ d. (refl, refl, refl)), tt),
    (λ d. (refl, refl, refl)),
    (
      ((λ d. (refl, refl, refl)), tt),
      (λ d. (refl, refl, refl)),
      (((λ d. (refl, refl, refl)), tt), (λ d. (refl, refl, refl)), tt),
    ),
  ),
  ((λ d. (refl, refl, refl)), tt),
  ((λ d. (refl, refl, refl)), tt),
  ((λ d. (refl, refl, refl)), tt),
  ((λ d. (refl, refl, refl)), tt),
  (((λ d. (refl, refl, refl)), tt), (λ d. (refl, refl, refl))),
)

answered-OpeningKeeps : OpeningKeeps answered
answered-OpeningKeeps =
    let (tries, caps, stamp, rate, mode, closed) = unanswered-OpeningKeeps in
    (
      (((λ d. (refl, refl, refl)), tt), (λ d. (refl, refl, refl)), tries.2),
      caps,
      stamp,
      rate,
      ((λ d. (refl, refl, refl)), tt),
      closed,
    )

-- Strict mode, and no answer.
abbrev given_up : Session
unfolding can4vscp_open
given_up = elim (can4vscp_open example_platform unanswered none flag_strict fresh) [
  | ok r ↦ r.0
  | _ ↦ fresh
]

can4vscp_open-outcome_example :
    ((init_fail ≡ success) × (given_up.driver.running ≡ true) × (given_up.driver.opened ≡ true))
    ⊎ ((init_fail ≡ init_fail)
        × (given_up.driver.running ≡ false)
        × (given_up.driver.opened ≡ false)
        × ((unanswered.opens ≡ false) ⊎ (given_up.driver.strict ≡ true)))
unfolding construct given_up can4vscp_open open_serial_interface establish handshake
    send_command_wait send_command send_frame send_msg post_frame frame_bytes build_frame put
    put_crc put_escaped put_payload put_checksum add_with_escape switch_mode configure prepare
    wait4_command_response wait_loop wait_round checkpoint close
can4vscp_open-outcome_example =
    can4vscp_open-outcome example_platform unanswered none flag_strict fresh given_up init_fail
      unanswered-OpeningKeeps refl refl refl

-- With responses of four bytes that give the capabilities.
abbrev pub caps_platform : Platform
caps_platform = record example_platform { caps_size = 4 }

close_lem_example :
    (r : Driver) × (close example_platform closing open_driver ≡ ok (r, success))
    × (r.running ≡ false)
    × (r.opened ≡ false)
    × (r.port.is_open ≡ false)
    × ((c' : Closing) → close example_platform c' r ≡ ok (r, success))
unfolding construct
close_lem_example =
    close_lem example_platform closing open_driver refl (λ e. refl) (λ e. refl) (inl (omega arith))

abbrev strict_driver : Driver
strict_driver = record open_driver { strict = true }

abbrev established : Driver
unfolding establish
established = elim (establish example_platform answered strict_driver) [
  | ok r ↦ r.0
  | _ ↦ strict_driver
]

establish-found_example :
    NoopAnswered example_platform
      (start (switch_mode (record strict_driver { stat = no_statistics })))
      (answered.first ∷ answered.second ∷ answered.third ∷ [])
unfolding construct established get_device_capabilities caps_loop config_step command_verdict
    can4vscp_open open_serial_interface establish handshake send_command_wait send_command
    send_frame send_msg post_frame frame_bytes build_frame put put_crc put_escaped put_payload
    put_checksum add_with_escape switch_mode configure prepare wait4_command_response wait_loop
    wait_round checkpoint close
establish-found_example =
    establish-found example_platform answered strict_driver established answered-OpeningKeeps refl
      refl

can4vscp_open-print_config_example :
    let text = print_config (codes "tty") 12 (codes "h") 65535 debug in
    (read_config baudrate_115200 text ≡ record {
      device = some (codes "tty");
      baud = 12;
      udp_host = codes "h";
      udp_port = 65535;
      level = debug;
    })
    × (can4vscp_open example_platform unanswered (some text) flag_strict fresh
        ≡ when_open example_platform unanswered (
            open_serial_interface unanswered (record fresh {
              driver = record (prepare flag_strict new_driver) { baud = 12 };
              device_name = codes "tty";
              syslog_level = debug;
            })))
unfolding construct decimal_upto prepare
can4vscp_open-print_config_example =
    can4vscp_open-print_config example_platform unanswered flag_strict fresh (codes "tty")
      (codes "h") 12 65535 debug refl (λ e. cc)
      (λ e. omega arith, (λ e. omega arith, (λ e. omega arith, tt))) (λ e. omega arith, tt)
      (omega arith) (omega arith) (omega arith) (omega arith) (omega arith)

-- The table behind CanalOpen with a device that answers, in strict mode.
abbrev opened_table : Table
unfolding canal_open
opened_table =
    elim (canal_open example_platform answered closing info new_driver none flag_strict
      no_objects) [ ok r ↦ r.0 | _ ↦ no_objects ]

abbrev first_handle : ℕ
first_handle = 1681

canal_open_example :
    ((first_handle ≡ 0) × (opened_table ≡ no_objects))
    ⊎ ((d' : Driver) × (get_driver_object no_objects (pos first_handle) ≡ none)
        × (get_driver_object opened_table (pos first_handle) ≡ some d')
        × (d'.running ≡ true)
        × (d'.opened ≡ true)
        × ((k : ℤ)
            → k ≢ pos first_handle
            → get_driver_object opened_table k ≡ get_driver_object no_objects k))
unfolding construct opened_table canal_open read_config next_config_token strchr atoi digits_from
    enter add_driver_object free_slot get_device_capabilities caps_loop config_step command_verdict
    can4vscp_open open_serial_interface establish handshake send_command_wait send_command
    send_frame send_msg post_frame frame_bytes build_frame put put_crc put_escaped put_payload
    put_checksum add_with_escape switch_mode configure prepare wait4_command_response wait_loop
    wait_round checkpoint close
canal_open_example =
    canal_open_lem example_platform answered closing info new_driver none flag_strict first_handle
      no_objects opened_table answered-OpeningKeeps refl refl refl

abbrev one_object : Table
one_object = set_object no_objects 2 (some open_driver)

canal_close_example :
    (t' : Table) × (canal_close example_platform closing closing (pos 1683) one_object
      ≡ ok (t', success))
    × (get_driver_object t' (pos 1683) ≡ none)
    × ((k : ℤ) → k ≢ pos 1683 → get_driver_object t' k ≡ get_driver_object one_object k)
unfolding construct get_driver_object index
canal_close_example =
    canal_close_lem example_platform closing closing (pos 1683) one_object open_driver refl refl
      (λ e. refl) (λ e. refl) (inl (omega arith))
