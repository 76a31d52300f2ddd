-- ===== src/Session.antt =====
-- src/common/can4vscpobj.cpp: `softOpen`, which sets the interface up again. Each step that waits has
-- the clock at its start and the polls of its wait. `Msg` is not set at first.
pub mod Codes
pub mod Progress
pub mod Close
pub mod Open
pub mod Keeping
pub mod Flags
pub mod Outcome
pub mod Configured
pub mod Answered
pub mod Strict
pub mod Closed
pub mod Returns
pub mod Whole
pub mod Total
pub use Codes.*
use vscpl1drv_can4vscp.Prelude.{
  ℕ, ◌%◌, ◌^◌, ◌==◌, Bool, true, false, Option, none, List, [], ◌∷◌, if◌then◌else◌,
}
use vscpl1drv_can4vscp.Platform.{Platform, Response}
use vscpl1drv_can4vscp.Driver.{
  Driver, Run, ok, ◌>>=◌, Code, success, init_fail, has_flag, flag_timestamp,
}
use vscpl1drv_can4vscp.Commands.{Poll, send_command_wait, send_config_wait}

pub record Waiting : Type 0 where
  pub start : ℕ
  pub polls : List Poll

-- A configuration step, if it is asked for.
unfoldable pub config_step : Platform → Bool → ℕ → ℕ → Waiting → Driver → Run (Driver × Bool)
config_step p wanted code conf w d =
    if wanted
    then (do
      (d', found, msg) ← send_config_wait p code (conf ∷ []) w.start 500 w.polls none d
      ok (d', found))
    else ok (d, true)

-- The command of the mode, m_initFlag & 0x03.
abbrev pub mode_command : Driver → ℕ
mode_command d =
    let mode = d.init_flag % 4 in
    if mode == 1 then command_listen else if mode == 2 then command_loopback else command_open

unfoldable pub soft_open : Platform → Waiting → Waiting → Waiting → Driver → Run (Driver × Code)
soft_open p timestamp_wait baudrate_wait mode_wait d = do
  (d1, stamped) ← config_step p (has_flag d flag_timestamp) config_timestamp 1 timestamp_wait d
  if stamped
      then (do
        let other_rate = if d1.baud == baudrate_115200 then false else true
        (d2, rated) ← config_step p other_rate config_baudrate (d1.baud % 2 ^ 8) baudrate_wait d1
        if rated
            then (do
              (d3, answered, msg) ←
                  send_command_wait p (mode_command d2) [] mode_wait.start 1000 mode_wait.polls none
                    d2
              ok (d3, if answered then success else init_fail))
            else ok (d2, init_fail))
      else ok (d1, init_fail)
