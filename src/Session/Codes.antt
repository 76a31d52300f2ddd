-- ===== src/Session/Codes.antt =====
-- Codes of src/common/can4vscp-protocol.h: commands, configurations and baud rates.
use vscpl1drv_can4vscp.Prelude.{ℕ}

-- VSCP_CAN4VSCP_DRIVER_COMMAND_...
abbrev pub command_noop : ℕ
command_noop = 0

abbrev pub command_open : ℕ
command_open = 1

abbrev pub command_listen : ℕ
command_listen = 2

abbrev pub command_loopback : ℕ
command_loopback = 3

abbrev pub command_close : ℕ
command_close = 4

-- VSCP_DRIVER_CONFIG_...
abbrev pub config_timestamp : ℕ
config_timestamp = 2

abbrev pub config_baudrate : ℕ
config_baudrate = 3

-- SET_BAUDRATE_115200
abbrev pub baudrate_115200 : ℕ
baudrate_115200 = 0

-- SET_BAUDRATE_MAX
abbrev pub baudrate_max : ℕ
baudrate_max = 13
