-- ===== src/Queues/Bounds.antt =====
-- The bound of the transmit queue, `writeMsg` of src/common/can4vscpobj.cpp.
use vscpl1drv_can4vscp.Prelude.{
  suc, ◌+◌, ◌≤◌, ◌<◌, ◌≡◌, arith, true, false, some, [], ◌∷◌, ◌++◌, length, length-append, ◌⊎◌,
}
use vscpl1drv_can4vscp.Message.{CanalMsg}
use vscpl1drv_can4vscp.Platform.{Platform, IsFifo}
use vscpl1drv_can4vscp.Driver.{Driver, success, max_send, not_open, fifo_full}
use vscpl1drv_can4vscp.Queues.{write_msg}

-- writeMsg of a message keeps the transmit queue at most 4097 messages long. A call on a closed
-- driver reports that it is not open and one on a queue of more than 4096 messages that it is full,
-- and the object is as it was; every other call reports success, puts the message at the end of the
-- queue and adds a token for the transmit thread. The list keeps the order of its nodes.
pub write_msg-bounded :
    (p : Platform) (messages : IsFifo p.messages) (m : CanalMsg) (d : Driver)
    → length d.transmit_list ≤ suc max_send
    → let r = write_msg p (some m) d in
      (length r.0.transmit_list ≤ suc max_send)
      × (((d.opened ≡ false) × (r ≡ (d, not_open)))
          ⊎ ((d.opened ≡ true) × (max_send < length d.transmit_list) × (r ≡ (d, fifo_full)))
          ⊎ ((d.opened ≡ true)
              × (length d.transmit_list ≤ max_send)
              × (r.1 ≡ success)
              × (r.0.transmit_list ≡ d.transmit_list ++ (m ∷ []))
              × (r.0.transmit_data_get_sem ≡ d.transmit_data_get_sem + 1)))
unfolding write_msg
write_msg-bounded p messages m d h =
    grind
      (arith, messages.add_node_lem d.transmit_list m, length-append {0} d.transmit_list (m ∷ []))
