-- ===== src/Queues.antt =====
-- src/common/can4vscpobj.cpp: the client's side of the two message queues, `writeMsg`,
-- `writeMsgBlocking`, `readMsg`, `readMsgBlocking`, `dataAvailable`, `getStatistics`, `getStatus`.
-- A pointer that may be NULL is an `Option`, or a Boolean where only the result is written through
-- it. `new` does not return NULL.
pub mod Fifo
pub mod Bounds
use vscpl1drv_can4vscp.Prelude.{
  ℕ, zero, ◌+◌, ◌-◌, ◌==◌, Bool, true, false, not, Option, none, some, List, [], ◌∷◌, ltb, length,
  if◌then◌else◌,
}
use vscpl1drv_can4vscp.Message.{CanalMsg}
use vscpl1drv_can4vscp.Platform.{Platform}
use vscpl1drv_can4vscp.Driver.{
  Driver, Code, success, parameter, not_open, fifo_full, fifo_empty, timeout, generic, Statistics,
  max_send,
}

-- How `semaphoreTimedWait` ends: with a token, at the deadline (EAGAIN), or with another error.
pub data Wait : Type 0 where
  got_token timed_out failed_wait : Wait

-- dll_addNode on the transmit list, and the token for the transmit thread.
abbrev pub append_transmit : Platform → CanalMsg → Driver → Driver
append_transmit p m d = record d {
  transmit_list = p.messages.add_node d.transmit_list m;
  transmit_data_get_sem = d.transmit_data_get_sem + 1;
}

unfoldable pub write_msg : Platform → Option CanalMsg → Driver → Driver × Code
write_msg p none d = (d, parameter)
write_msg p (some m) d =
    if not d.opened
    then (d, not_open)
    else if ltb max_send (length d.transmit_list)
    then (d, fifo_full)
    else (append_transmit p m d, success)

-- Behind a wait that is granted: it has taken a token, and its room is not looked at again.
abbrev pub write_granted : Platform → CanalMsg → Driver → Driver
write_granted p m d =
    append_transmit p m (record d { transmit_data_put_sem = d.transmit_data_put_sem - 1 })

-- `meanwhile` is what the other threads do to the object during the wait.
unfoldable pub write_msg_blocking :
    Platform → Wait → (Driver → Driver) → Option CanalMsg → Driver → Driver × Code
write_msg_blocking p wait meanwhile none d = (d, parameter)
write_msg_blocking p wait meanwhile (some m) d =
    let waited = meanwhile d in
    if not d.opened
    then (d, not_open)
    else if ltb max_send (length d.transmit_list)
    then elim wait [
      | got_token ↦ (write_granted p m waited, success)
      | timed_out ↦ (waited, timeout)
      | failed_wait ↦ (waited, generic)
    ]
    else (append_transmit p m d, success)

-- dll_removeNode of the first message. The stale tokens are drained when the queue is empty behind.
unfoldable pub drop_head : Platform → Driver → Driver
drop_head p d =
    let rest = p.messages.remove_head d.receive_list in
    record d {
      receive_list = rest;
      receive_data_sem = if length rest == 0 then 0 else d.receive_data_sem;
    }

-- The copy of the first message, where the queue has one.
unfoldable pub take_head : Platform → Driver → List CanalMsg → Driver × Code × Option CanalMsg
take_head p d [] = (d, fifo_empty, none)
take_head p d (m ∷ ms) = (drop_head p d, success, some m)

unfoldable pub read_msg : Platform → Bool → Driver → Driver × Code × Option CanalMsg
read_msg p null d =
    if null
    then (d, parameter, none)
    else if not d.opened
    then (d, not_open, none)
    else take_head p d d.receive_list

-- Behind a wait that is granted.
abbrev pub read_granted : Platform → Driver → Driver × Code × Option CanalMsg
read_granted p d =
    take_head p (record d { receive_data_sem = d.receive_data_sem - 1 }) d.receive_list

-- A wait that fails in another way than by the deadline goes on as if it had been granted.
unfoldable pub read_msg_blocking :
    Platform → Wait → (Driver → Driver) → Bool → Driver → Driver × Code × Option CanalMsg
read_msg_blocking p wait meanwhile null d =
    let waited = meanwhile d in
    if null
    then (d, parameter, none)
    else if not d.opened
    then (d, not_open, none)
    else if length d.receive_list == 0
    then elim wait [
      | got_token ↦ read_granted p waited
      | timed_out ↦ (waited, timeout, none)
      | failed_wait ↦ take_head p waited waited.receive_list
    ]
    else take_head p d d.receive_list

unfoldable pub data_available : Driver → ℕ
data_available d = if not d.opened then 0 else length d.receive_list

unfoldable pub get_statistics : Bool → Driver → Code × Option Statistics
get_statistics null d = if null then (parameter, none) else (success, some d.stat)

unfoldable pub get_status : Bool → Driver → Code
get_status null d = if null then parameter else if not d.opened then not_open else success
