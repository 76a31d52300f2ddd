-- ===== src/System/Running.antt =====
-- The states that the threads of src/common/can4vscpobj.cpp reach: the bounds of the queues and the
-- flags of the session.
use vscpl1drv_can4vscp.Prelude.{ℕ}
use vscpl1drv_can4vscp.Platform.{Platform, IsFifo}
use vscpl1drv_can4vscp.Session.Flags.{Same}
use vscpl1drv_can4vscp.Transmit.Worker.{Worker}
use vscpl1drv_can4vscp.System.{Reach}
use vscpl1drv_can4vscp.System.Sound.{IsSound, Reach-IsSound}
use vscpl1drv_can4vscp.System.Flags.{Reach-Same}

-- In every state that the threads of an open driver reach (calls of clients on it, with the
-- blocking ones among them, rounds of the receive thread and rounds of the transmit thread in any
-- order, with steps of the others during the waits of a transmit round), the receive queue has at
-- most 4096 messages, the response queue at most 32 responses, and the receive length is within the
-- buffer; the tokens for blocked writers are at most k more than the messages counted as sent, and
-- the transmit queue and these tokens together at most 4097 + k more than the messages counted as
-- sent. All this is so, for any k, if it held at first. Whether the driver is running, open and
-- strict is as it was at first. The lists keep the order of their nodes.
pub Reach_lem :
    (p : Platform) (messages : IsFifo p.messages) (responses : IsFifo p.responses) (tokens : ℕ)
    (w w' : Worker)
    → Reach p w w'
    → IsSound tokens w.driver
    → IsSound tokens w'.driver × Same w.driver w'.driver
Reach_lem p messages responses tokens w w' steps v =
    (Reach-IsSound p messages responses tokens w w' steps v, Reach-Same p responses w w' steps)
