-- ===== src/Session/Open.antt =====
-- src/common/can4vscpobj.cpp: `open` and `OpenSerialInterface`, on Linux. The handle and the result
-- of the open call of the port, the waits, and what other threads do meanwhile, are arguments.
-- The characters that are read and logged before the threads start are not in the model.
use vscpl1drv_can4vscp.Prelude.{
  ℕ, ◌%◌, ◌^◌, ◌==◌, Bool, true, false, not, Option, none, some, List, [], ◌∷◌, ◌++◌, leb, length,
  if◌then◌else◌, bit_and,
}
use vscpl1drv_can4vscp.Platform.{Platform}
use vscpl1drv_can4vscp.Rx.{State, idle}
use vscpl1drv_can4vscp.Driver.{
  Driver, Run, ok, fault, ◌>>=◌, Code, success, init_fail, has_flag, no_statistics, flag_timestamp,
  flag_strict, flag_hardware_handshake, flag_no_switch_to_new_mode,
}
use vscpl1drv_can4vscp.Commands.{send_command_wait, get_device_capabilities}
use vscpl1drv_can4vscp.Config.{Level, read_config}
use vscpl1drv_can4vscp.Config.Text.{Bytes, codes}
use vscpl1drv_can4vscp.Session.{
  Waiting, config_step, mode_command, command_noop, config_timestamp, config_baudrate,
  baudrate_115200,
}
use vscpl1drv_can4vscp.Session.Close.{Closing, close}

-- One try of the NOOP command, and what the other threads do during the sleep behind it.
pub record Attempt : Type 0 where
  pub wait : Waiting
  pub sleep : Driver → Driver

-- m_com.getFD() and m_com.open(), and the waits in their order.
pub record Opening : Type 0 where
  pub descriptor : ℕ
  pub opens : Bool
  pub first : Attempt
  pub second : Attempt
  pub third : Attempt
  pub caps_wait : Waiting
  pub timestamp_wait : Waiting
  pub baudrate_wait : Waiting
  pub mode_wait : Waiting
  pub closing : Closing

-- The driver object with m_pdeviceName, gSyslogLevel, and what the port was set to by setParam.
pub record Settings : Type 0 where
  pub device : Bytes
  pub baud : Bytes
  pub hardware_flow : Bool

pub record Session : Type 0 where
  pub driver : Driver
  pub device_name : Bytes
  pub syslog_level : Level
  pub settings : Option Settings

-- The device and the rate do not come from the configuration.
unfoldable pub open_serial_interface : Opening → Session → Session × Code
open_serial_interface o s =
    if not (o.descriptor == 0) then (s, success) else if not o.opens then (s, init_fail) else (
      record s {
        driver = record s.driver { port = record s.driver.port { is_open = true } };
        settings = some (record {
          device = codes "/dev/ttyUSB0";
          baud = codes "115200";
          hardware_flow = has_flag s.driver flag_hardware_handshake;
        });
      },
      success,
    )

-- What `open` sets before it looks whether the driver is running.
unfoldable pub prepare : ℕ → Driver → Driver
prepare flags d = record d {
  baud = baudrate_115200;
  init_flag = flags;
  strict = if not (bit_and flags flag_strict == 0) then true else d.strict;
  rx = record d.rx { state = State.none; substate = idle };
  stat = no_statistics;
}

-- PATH_MAX, and the copy of the string, which has no end in the array if it does not fit.
abbrev pub path_max : ℕ
path_max = 4096

abbrev pub config_text : Option Bytes → Bytes
config_text none = codes "/dev/ttyUSB0;0"
config_text (some s) = s

abbrev pub put_bytes : Bytes → Driver → Driver
put_bytes bytes d = record d { port = record d.port { writes = d.port.writes ++ (bytes ∷ []) } }

-- The mode of the interface, written to the port three times over. The second string is cut short.
unfoldable pub switch_mode : Driver → Driver
switch_mode d =
    if has_flag d flag_no_switch_to_new_mode
    then d
    else put_bytes (codes "set mode vscp" ++ (13 ∷ 10 ∷ []))
        (put_bytes (13 ∷ []) (put_bytes (13 ∷ []) d))

-- The threads are started.
abbrev pub start : Driver → Driver
start d = record d { running = true; opened = true }

-- The loop over the tries: up to the first that is answered.
unfoldable pub handshake : Platform → List Attempt → Driver → Run (Driver × Bool)
handshake p [] d = ok (d, false)
handshake p (a ∷ rest) d = do
  (d', found, msg) ← send_command_wait p command_noop [] a.wait.start 500 a.wait.polls none d
  let slept = handshake p rest (a.sleep d')
  if found then ok (d', true) else slept

-- A step that failed ends the opening, with the driver closed, in strict mode only.
unfoldable pub checkpoint :
    Platform → Closing → Bool → (Driver → Run (Driver × Code)) → Driver → Run (Driver × Code)
checkpoint p c done next d =
    if done
    then next d
    else if d.strict
    then (do (closed, code) ← close p c d; ok (closed, init_fail))
    else next d

abbrev pub set_mode : Platform → Opening → Driver → Run (Driver × Code)
set_mode p o d = do
  (d', answered, msg) ←
      send_command_wait p (mode_command d) [] o.mode_wait.start 1000 o.mode_wait.polls none d
  checkpoint p o.closing answered (λ e. ok (e, success)) d'

abbrev pub set_rate : Platform → Opening → Driver → Run (Driver × Code)
set_rate p o d = do
  (d', rated) ←
      config_step p (not (d.baud == baudrate_115200)) config_baudrate (d.baud % 2 ^ 8)
        o.baudrate_wait d
  checkpoint p o.closing rated (set_mode p o) d'

abbrev pub set_timestamp : Platform → Opening → Driver → Run (Driver × Code)
set_timestamp p o d = do
  (d', stamped) ← config_step p (has_flag d flag_timestamp) config_timestamp 1 o.timestamp_wait d
  checkpoint p o.closing stamped (set_rate p o) d'

abbrev pub ask_capabilities : Platform → Opening → Driver → Run (Driver × Code)
ask_capabilities p o d = do
  (d', got) ←
      get_device_capabilities p o.caps_wait.start o.caps_wait.polls (record d { opened = true })
  set_timestamp p o d'

-- From the open port on.
unfoldable pub establish : Platform → Opening → Driver → Run (Driver × Code)
establish p o d = do
  (d', found) ←
      handshake p (o.first ∷ o.second ∷ o.third ∷ [])
        (start (switch_mode (record d { stat = no_statistics })))
  checkpoint p o.closing found (ask_capabilities p o) d'

abbrev pub when_open : Platform → Opening → Session × Code → Run (Session × Code)
when_open p o (s, success) = do
  (d, code) ← establish p o s.driver
  ok (record s { driver = d }, code)
when_open p o (s, code) = ok (s, code)

abbrev pub given_or : Bytes → Option Bytes → Bytes
given_or before none = before
given_or before (some s) = s

-- The fields of the configuration string, where they are kept.
unfoldable pub configure : Bytes → Session → Session
configure text s =
    let c = read_config s.driver.baud text in
    record s {
      driver = record s.driver { baud = c.baud };
      device_name = given_or s.device_name c.device;
      syslog_level = c.level;
    }

unfoldable pub can4vscp_open :
    Platform → Opening → Option Bytes → ℕ → Session → Run (Session × Code)
can4vscp_open p o config flags s =
    let prepared = record s { driver = prepare flags s.driver } in
    if s.driver.running
    then ok (prepared, success)
    else if leb path_max (length (config_text config))
    then fault
    else when_open p o (open_serial_interface o (configure (config_text config) prepared))
