-- ===== src/Config.antt =====
-- src/common/can4vscpobj.cpp: the configuration string of `open`, with `nextConfigToken`,
-- `parseLogLevel` and `syslogPriority`. A C string is the list of its bytes before the NUL; a pointer
-- that may be NULL is an `Option`.
pub mod Text
pub mod Tokens
pub mod Numbers
pub mod Fields
use vscpl1drv_can4vscp.Prelude.{
  ℕ, ◌-◌, ◌==◌, ◌&&◌, ◌||◌, Bool, true, false, Option, none, some, List, [], ◌∷◌, ltb,
  if◌then◌else◌,
}
use vscpl1drv_can4vscp.Session.Codes.{baudrate_115200, baudrate_max}
use Text.{Bytes, codes, strchr, strrchr, strcasecmp, take, atoi, low_byte}

-- The field up to the next `;`, and the cursor behind it.
unfoldable pub next_config_token : Option Bytes → Option Bytes × Option Bytes
next_config_token none = (none, none)
next_config_token (some s) = let (field, rest) = strchr b';' s in (some field, rest)

-- spdlog::level::level_enum
pub data Level : Type 0 where
  trace debug info warn err critical off : Level

-- LOG_...
pub data Priority : Type 0 where
  log_debug log_info log_warning log_err log_crit : Priority

unfoldable pub syslog_priority : Level → Priority
syslog_priority trace = log_debug
syslog_priority debug = log_debug
syslog_priority warn = log_warning
syslog_priority err = log_err
syslog_priority critical = log_crit
syslog_priority info = log_info
syslog_priority off = log_info

unfoldable pub parse_log_level : Option Bytes → Level
parse_log_level none = info
parse_log_level (some []) = info
parse_log_level (some (c ∷ s)) =
    let level = c ∷ s in
    if strcasecmp level (codes "trace")
    then trace
    else if strcasecmp level (codes "debug")
    then debug
    else if strcasecmp level (codes "warn") || strcasecmp level (codes "warning")
    then warn
    else if strcasecmp level (codes "err") || strcasecmp level (codes "error")
    then err
    else if strcasecmp level (codes "critical")
    then critical
    else if strcasecmp level (codes "off")
    then off
    else info

-- CAN4VSCP_UDP_DEBUG_DEFAULT_PORT
abbrev pub default_port : ℕ
default_port = 9999

-- What `open` reads from the string. `device` is `none` where m_pdeviceName is left as it is.
pub record Config : Type 0 where
  pub device : Option Bytes
  pub baud : ℕ
  pub udp_host : Bytes
  pub udp_port : ℕ
  pub level : Level

-- (NULL != p) && *p
abbrev pub given : Option Bytes → Option Bytes
given none = none
given (some []) = none
given (some (c ∷ s)) = some (c ∷ s)

-- `m_nBaud`, a `uint8_t` that is `before` where the field is not given.
abbrev pub read_baud : ℕ → Option Bytes → ℕ
read_baud before none = before
read_baud before (some s) =
    let code = low_byte (atoi s) in if ltb (baudrate_max - 1) code then baudrate_115200 else code

-- `(portval > 0) && (portval < 65536)`, of an `int`
abbrev pub read_port : Bool × ℕ → ℕ
read_port (negative, n) =
    if (if negative then false else ltb 0 n) && ltb n 65536 then n else default_port

-- The port stands behind the last colon of the string, where there is one.
abbrev pub udp_target : Bytes → Option (Bytes × Bytes) → Bytes × ℕ
udp_target s none = (s, default_port)
udp_target s (some parts) = (parts.0, read_port (atoi parts.1))

-- `strncpy` keeps 255 bytes.
abbrev pub read_udp : Option Bytes → Bytes × ℕ
read_udp none = (codes "127.0.0.1", default_port)
read_udp (some s) = udp_target (take 255 s) (strrchr b':' (take 255 s))

-- The fields of the string in their order, with `m_nBaud` as it is before.
unfoldable pub read_config : ℕ → Bytes → Config
read_config baud s =
    let (device, at_baud) = next_config_token (some s) in
    let (rate, at_udp) = next_config_token at_baud in
    let (udp, at_level) = next_config_token at_udp in
    let (level, at_end) = next_config_token at_level in
    let (host, port) = read_udp (given udp) in
    record {
      device = given device;
      baud = read_baud baud (given rate);
      udp_host = host;
      udp_port = port;
      level = parse_log_level level;
    }
