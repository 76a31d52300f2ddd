-- ===== src/Receive/Kinds.antt =====
-- The tests on the frame type in `readSerialData` (src/common/can4vscpobj.cpp), in their order.
use vscpl1drv_can4vscp.Prelude.{ℕ, ◌==◌, if◌then◌else◌}
use vscpl1drv_can4vscp.Platform.{FrameTypes}

-- `refused` are the seven types that are answered by a NACK, `response` the eight that go to
-- the response queue.
pub data Kind : Type 0 where
  noop canal canal_timestamp refused multi_canal multi_canal_timestamp response unknown : Kind

unfoldable pub classify : FrameTypes → ℕ → Kind
classify t c =
    if c == t.noop
    then Kind.noop
    else if c == t.canal
    then Kind.canal
    else if c == t.canal_timestamp
    then Kind.canal_timestamp
    else if c == t.vscp_event
    then refused
    else if c == t.vscp_event_timestamp
    then refused
    else if c == t.configure
    then refused
    else if c == t.poll
    then refused
    else if c == t.no_event
    then refused
    else if c == t.multi_frame_vscp
    then refused
    else if c == t.multi_frame_vscp_timestamp
    then refused
    else if c == t.multi_frame_canal
    then multi_canal
    else if c == t.multi_frame_canal_timestamp
    then multi_canal_timestamp
    else if c == t.sent_ack
    then response
    else if c == t.sent_nack
    then response
    else if c == t.ack
    then response
    else if c == t.nack
    then response
    else if c == t.error
    then response
    else if c == t.command_reply
    then response
    else if c == t.caps_response
    then response
    else if c == t.command
    then response
    else unknown
