-- ===== src/Rx.antt =====
-- The receive state machine of src/common/can4vscpobj.cpp: `serialData2StateMachine`. What
-- `Comm::readChar` delivers is a list of results; the error numbers only choose a log message.
-- A character is taken from the list and stored below `m_lengthMsgRcv`; at the end of the list
-- nothing is left to read.
pub mod Bounds
pub mod EndToEnd
pub mod RoundTrip
use vscpl1drv_can4vscp.Prelude.{
  ℕ, ◌+◌, Bool, true, false, ◌&&◌, List, [], ◌∷◌, ◌==◌, ltb, if◌then◌else◌,
}
use vscpl1drv_can4vscp.Prelude.Memory.{Memory, update}
use vscpl1drv_can4vscp.Frame.{dle, stx, etx}

-- INCOMING_STATE_NONE, INCOMING_STATE_STX, INCOMING_STATE_ETX.
pub data State : Type 0 where
  none in_frame ended : State

-- INCOMING_SUBSTATE_NONE, INCOMING_SUBSTATE_DLE.
pub data Substate : Type 0 where
  idle escape : Substate

-- sizeof(m_bufferMsgRcv)
abbrev pub buffer_size : ℕ
buffer_size = 5120

-- m_RxMsgState, m_RxMsgSubState, m_bufferMsgRcv and m_lengthMsgRcv.
pub record Rx : Type 0 where
  pub state : State
  pub substate : Substate
  pub buf : Memory
  pub len : ℕ

-- One result of `readChar`: `cnt > 0`, `cnt == 0` or `cnt < 0`.
pub data Read : Type 0 where
  char : ℕ → Read
  nothing failed : Read

-- "start all over"
unfoldable pub restart : Rx → Rx
restart r = record r { state = none; substate = idle; len = 0 }

unfoldable pub begin_frame : Rx → Rx
begin_frame r = record r { state = in_frame; substate = idle; len = 0 }

unfoldable pub store : ℕ → Rx → Rx
unfolding restart
store c r =
    if ltb r.len buffer_size
    then record r { substate = idle; buf = update r.buf r.len c; len = r.len + 1 }
    else restart r

-- The state after a character, and whether it completed a frame.
unfoldable pub step_none : Substate → ℕ → Rx → Rx × Bool
unfolding restart begin_frame
step_none idle c r =
    if c == dle then (record r { substate = escape }, false) else (restart r, false)
step_none escape c r = if c == stx then (begin_frame r, false) else (restart r, false)

unfoldable pub step_in_frame : Substate → ℕ → Rx → Rx × Bool
unfolding begin_frame store
step_in_frame idle c r =
    if c == dle then (record r { substate = escape }, false) else (store c r, false)
step_in_frame escape c r =
    if c == stx
    then (begin_frame r, false)
    else if c == etx
    then (record r { state = none; substate = idle }, true)
    else (store c r, false)

unfoldable pub step : State → Substate → ℕ → Rx → Rx × Bool
unfolding step_none step_in_frame
step none s c r = step_none s c r
step in_frame s c r = step_in_frame s c r
step ended s c r = (r, false)

-- Reads until a frame is complete or nothing is left; with the reads that remain.
unfoldable pub serial_data : Rx → List Read → Rx × Bool × List Read
unfolding step
serial_data r [] = (r, false, [])
serial_data r (nothing ∷ rs) = (r, false, rs)
serial_data r (failed ∷ rs) = (r, false, rs)
serial_data r (char c ∷ rs) =
    let (r', complete) = step r.state r.substate c r in
    let rest = serial_data r' rs in if complete then (r', true, rs) else rest
