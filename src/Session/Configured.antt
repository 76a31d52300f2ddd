-- ===== src/Session/Configured.antt =====
-- `open` of src/common/can4vscpobj.cpp with a configuration string.
use vscpl1drv_can4vscp.Prelude.{ℕ, ◌<◌, ◌≤◌, ◌≡◌, ◌≢◌, ◌∙◌, ap, arith, false, some, [], length}
use vscpl1drv_can4vscp.Platform.{Platform}
use vscpl1drv_can4vscp.Config.{Config, Level, read_config}
use vscpl1drv_can4vscp.Config.Text.{Bytes}
use vscpl1drv_can4vscp.Config.Tokens.{Lacks}
use vscpl1drv_can4vscp.Config.Fields.{print_config, print_udp, read_config-print_config}
use vscpl1drv_can4vscp.Session.Codes.{baudrate_max}
use vscpl1drv_can4vscp.Session.Open.{
  Opening, Session, prepare, configure, path_max, given_or, open_serial_interface, when_open,
  can4vscp_open,
}

-- The session with the fields of the configuration in their places.
abbrev pub with_config : Config → Session → Session
with_config c s = record s {
  driver = record s.driver { baud = c.baud };
  device_name = given_or s.device_name c.device;
  syslog_level = c.level;
}

-- open of a stopped driver, with a string that fits, goes on with its fields.
can4vscp_open-fits :
    (p : Platform) (o : Opening) (text : Bytes) (flags : ℕ) (s : Session)
    → s.driver.running ≡ false
    → length text < path_max
    → let prepared = record s { driver = prepare flags s.driver } in
      can4vscp_open p o (some text) flags s
      ≡ when_open p o
          (open_serial_interface o (with_config (read_config prepared.driver.baud text) prepared))
unfolding can4vscp_open configure
can4vscp_open-fits p o text flags s stopped short = ground (arith, stopped)

-- A configuration string printed from a device, a baud code, a UDP host and port and a log level is
-- read as these, and open of a stopped driver goes on to open the port with this device, baud code
-- and level in their fields. The string is shorter than PATH_MAX, the device is not empty, neither
-- it nor the host has a semicolon, the code is one of the 13 codes, the port is from 1 to 65535,
-- and the UDP field has at most 255 bytes.
pub can4vscp_open-print_config :
    (p : Platform) (o : Opening) (flags : ℕ) (s : Session) (device host : Bytes) (baud port : ℕ)
    (level : Level)
    → s.driver.running ≡ false
    → device ≢ []
    → Lacks b';' device
    → Lacks b';' host
    → baud < baudrate_max
    → 0 < port
    → port < 65536
    → length (print_udp host port) ≤ 255
    → length (print_config device baud host port level) < path_max
    → let prepared = prepare flags s.driver in
      let text = print_config device baud host port level in
      (read_config prepared.baud text ≡ record {
        device = some device;
        baud = baud;
        udp_host = host;
        udp_port = port;
        level = level;
      })
      × (can4vscp_open p o (some text) flags s
          ≡ when_open p o (
              open_serial_interface o (record s {
                driver = record prepared { baud = baud };
                device_name = device;
                syslog_level = level;
              })))
can4vscp_open-print_config p o flags s device host baud port level stopped some_device hd hh hb
      positive small short fits =
    let text = print_config device baud host port level in
    let prepared : Session = record s { driver = prepare flags s.driver } in
    let fields =
      read_config-print_config prepared.driver.baud device host baud port level some_device hd hh hb
        positive small short in
    (
      fields,
      can4vscp_open-fits p o text flags s stopped fits
          ∙ ap (λ c. when_open p o (open_serial_interface o (with_config c prepared))) fields,
    )
