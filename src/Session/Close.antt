-- ===== src/Session/Close.antt =====
-- src/common/can4vscpobj.cpp: `close`, `cleanup` and the destructor. The wait for the two threads
-- has what they do until they end as an argument.
use vscpl1drv_can4vscp.Prelude.{◌+◌, false, not, none, [], if◌then◌else◌}
use vscpl1drv_can4vscp.Platform.{Platform}
use vscpl1drv_can4vscp.Driver.{Driver, Run, ok, ◌>>=◌, Code, success}
use vscpl1drv_can4vscp.Commands.{send_command_wait}
use vscpl1drv_can4vscp.Session.{Waiting, command_close}

pub record Closing : Type 0 where
  pub wait : Waiting
  pub joined : Driver → Driver

-- The tokens that wake the threads.
abbrev pub wake : Driver → Driver
wake d = record d {
  receive_data_sem = d.receive_data_sem + 1;
  transmit_data_put_sem = d.transmit_data_put_sem + 1;
  transmit_data_get_sem = d.transmit_data_get_sem + 1;
  transmit_ack_nack_sem = d.transmit_ack_nack_sem + 1;
}

abbrev pub stop_running : Driver → Driver
stop_running d = record d { running = false; opened = false }

abbrev pub close_port : Driver → Driver
close_port d = if d.port.is_open then record d { port = record d.port { is_open = false } } else d

-- Behind the CLOSE command, whose result is not looked at.
abbrev pub shut : Closing → Driver → Driver
shut c d = close_port (c.joined (wake (stop_running d)))

unfoldable pub close : Platform → Closing → Driver → Run (Driver × Code)
close p c d = if not d.running then ok (d, success) else (do
  (sent, answered, msg) ← send_command_wait p command_close [] c.wait.start 1000 c.wait.polls none d
  ok (shut c sent, success))

-- The queues are emptied. Semaphores and mutexes are destroyed with the object.
unfoldable pub cleanup : Platform → Driver → Driver
cleanup p d = record d {
  transmit_list = p.messages.remove_all_nodes d.transmit_list;
  receive_list = p.messages.remove_all_nodes d.receive_list;
  response_list = p.responses.remove_all_nodes d.response_list;
}

-- ~CCan4VSCPObj
unfoldable pub destruct : Platform → Closing → Driver → Run Driver
destruct p c d =
    if d.running then (do (closed, code) ← close p c d; ok (cleanup p closed)) else ok (cleanup p d)
