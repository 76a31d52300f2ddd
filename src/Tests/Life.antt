-- ===== src/Tests/Life.antt =====
-- A driver object that is opened, written to, and closed.
use vscpl1drv_can4vscp.Frame.{
  build_frame, put, put_crc, put_escaped, put_payload, put_checksum, add_with_escape,
}
use vscpl1drv_can4vscp.Commands.{post_frame}
use vscpl1drv_can4vscp.Serial.{frame_bytes}
use vscpl1drv_can4vscp.Prelude.{ℕ, ◌≡◌, ◌≢◌, inl, refl, false, none, some, arith}
use vscpl1drv_can4vscp.Platform.{Platform}
use vscpl1drv_can4vscp.Driver.{Driver, construct, ok, success}
use vscpl1drv_can4vscp.Serial.{send_msg}
use vscpl1drv_can4vscp.Commands.{
  send_command, send_frame, send_command_wait, wait4_command_response, wait_loop, wait_round,
  get_device_capabilities, caps_loop, command_verdict,
}
use vscpl1drv_can4vscp.Config.{info, read_config, next_config_token}
use vscpl1drv_can4vscp.Config.Text.{codes, strchr, atoi, digits_from}
use vscpl1drv_can4vscp.Session.{config_step}
use vscpl1drv_can4vscp.Session.Close.{close}
use vscpl1drv_can4vscp.Session.Open.{
  switch_mode, handshake, establish, can4vscp_open, open_serial_interface, configure, prepare,
  checkpoint,
}
use vscpl1drv_can4vscp.Handles.{
  ℤ, pos, Table, no_objects, get_driver_object, add_driver_object, free_slot, index,
}
use vscpl1drv_can4vscp.Canal.{enter, canal_open, canal_close}
use vscpl1drv_can4vscp.Tests.Example.{example_platform, list_dllist-IsFifo}
use vscpl1drv_can4vscp.Tests.Session.{closing, unanswered, caps_platform, new_driver}
use vscpl1drv_can4vscp.Tests.Queues.{message}
use vscpl1drv_can4vscp.Queues.{write_msg}
use vscpl1drv_can4vscp.Transmit.Worker.{Worker}
use vscpl1drv_can4vscp.System.{here, further, other, write}
use vscpl1drv_can4vscp.System.Busy.{Busy, OpeningBusy, ClosingBusy}
use vscpl1drv_can4vscp.System.Life.{object_now, canal_open-returns, life_lem}

abbrev worker : Driver → Worker
worker d = record { driver = d; in_progress = false; seq = 0 }

-- No thread takes a step.
idle : (p : Platform) → Busy p (λ d. d)
idle p d = (worker d, worker d, here (worker d), refl, refl)

closing-ClosingBusy : (p : Platform) → ClosingBusy p closing
closing-ClosingBusy p = ((idle p, tt), idle p)

unanswered-OpeningBusy : (p : Platform) → OpeningBusy p unanswered
unanswered-OpeningBusy p = (
  ((idle p, tt), idle p, ((idle p, tt), idle p, ((idle p, tt), idle p, tt))),
  (idle p, tt),
  (idle p, tt),
  (idle p, tt),
  (idle p, tt),
  closing-ClosingBusy p,
)

canal_open-returns_example :
    (r : Table × ℕ) × (canal_open caps_platform unanswered closing info new_driver
        (some (codes ";1"))
        0x13
        no_objects
      ≡ ok r)
canal_open-returns_example =
    canal_open-returns caps_platform unanswered closing info new_driver (some (codes ";1")) 0x13
      no_objects (omega arith) list_dllist-IsFifo (unanswered-OpeningBusy caps_platform)
      (
        (inl (omega arith), (inl (omega arith), (inl (omega arith), tt))),
        inl (omega arith),
        inl (omega arith),
        inl (omega arith),
        inl (omega arith),
        inl (omega arith),
      )
      (inl (omega arith)) (omega arith)

abbrev opened_table : Table
unfolding construct canal_open read_config next_config_token strchr atoi digits_from enter
    add_driver_object free_slot get_device_capabilities caps_loop config_step command_verdict
    can4vscp_open open_serial_interface establish handshake send_command_wait send_command
    send_frame send_msg post_frame frame_bytes build_frame put put_crc put_escaped put_payload
    put_checksum add_with_escape switch_mode configure prepare wait4_command_response wait_loop
    wait_round checkpoint close
opened_table =
    elim (canal_open example_platform unanswered closing info new_driver none 0 no_objects) [
      | ok r ↦ r.0
      | _ ↦ no_objects
    ]

abbrev first_handle : ℕ
first_handle = 1681

abbrev opened_driver : Driver
unfolding opened_table get_driver_object index
opened_driver = elim (get_driver_object opened_table (pos first_handle)) [
  | none ↦ new_driver
  | some d ↦ d
]

abbrev written : Worker
written = worker (write_msg example_platform (some message) opened_driver).0

life_example :
    (left : Table) × (canal_close example_platform closing closing
        (pos first_handle)
        (object_now (pos first_handle) written.driver opened_table)
      ≡ ok (left, success))
    × (get_driver_object left (pos first_handle) ≡ none)
    × ((k : ℤ) → k ≢ pos first_handle → get_driver_object left k ≡ get_driver_object no_objects k)
unfolding construct canal_open read_config next_config_token strchr atoi digits_from enter
    add_driver_object free_slot get_device_capabilities caps_loop config_step command_verdict
    can4vscp_open open_serial_interface establish handshake send_command_wait send_command
    send_frame send_msg post_frame frame_bytes build_frame put put_crc put_escaped put_payload
    put_checksum add_with_escape switch_mode configure prepare wait4_command_response wait_loop
    wait_round checkpoint close opened_table opened_driver get_driver_object index
life_example =
    life_lem example_platform unanswered closing closing closing info new_driver none 0 first_handle
      no_objects opened_table list_dllist-IsFifo (unanswered-OpeningBusy example_platform) refl refl
      refl (λ e. absurd (omega (arith, e))) (closing-ClosingBusy example_platform)
      (inl (omega arith)) (worker opened_driver) written refl
      (further (worker opened_driver) written written
        (other (worker opened_driver) written.driver (write (some message) opened_driver))
        (here written))
