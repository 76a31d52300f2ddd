-- ===== src/Tests/System.antt =====
-- A run of the threads of an open driver.
use vscpl1drv_can4vscp.Prelude.{refl, false, some, arith}
use vscpl1drv_can4vscp.Driver.{construct, ok}
use vscpl1drv_can4vscp.Serial.{send_msg}
use vscpl1drv_can4vscp.Queues.{write_msg, write_granted}
use vscpl1drv_can4vscp.Transmit.{transmit_message, transmit_head, transmit_frame, data_bytes}
use vscpl1drv_can4vscp.Transmit.Worker.{Worker, worker_round, transmit_first, complete}
use vscpl1drv_can4vscp.System.{
  write, write_waited, rest, Meanwhile, other, round, Reach, here, further,
}
use vscpl1drv_can4vscp.System.Sound.{IsSound}
use vscpl1drv_can4vscp.System.Running.{Reach_lem}
use vscpl1drv_can4vscp.Session.Flags.{Same}
use vscpl1drv_can4vscp.Tests.Example.{example_platform, list_dllist-IsFifo, open_driver}
use vscpl1drv_can4vscp.Tests.Queues.{message}
use vscpl1drv_can4vscp.Tests.Transmit.{quiet_round}

abbrev idle_worker : Worker
idle_worker = record { driver = open_driver; in_progress = false; seq = 0 }

-- Behind a call of writeMsg, and behind the round that sends the message.
abbrev written : Worker
written = record idle_worker { driver = (write_msg example_platform (some message) open_driver).0 }

abbrev sent : Worker
unfolding worker_round
sent = elim (worker_round example_platform (quiet_round false) written) [ ok w ↦ w | _ ↦ written ]

-- Behind a blocking call that takes the token of that round.
abbrev waited : Worker
waited = record sent { driver = write_granted example_platform message sent.driver }

quiet_round-Meanwhile : Meanwhile example_platform (quiet_round false)
quiet_round-Meanwhile = record {
  ack = λ d. rest d;
  get = λ d. rest d;
  timestamp = (λ d. rest d, tt);
  baudrate = (λ d. rest d, tt);
  mode = (λ d. rest d, tt);
}

run : Reach example_platform idle_worker waited
unfolding construct sent write_msg worker_round transmit_first transmit_message transmit_head
    transmit_frame data_bytes send_msg complete
run =
    further idle_worker written waited
      (other idle_worker written.driver (write (some message) open_driver))
      (further written sent waited
        (round (quiet_round false) written sent refl quiet_round-Meanwhile refl)
        (further sent waited waited
          (other sent waited.driver (write_waited message sent.driver (omega arith)))
          (here waited)))

idle_worker-IsSound : IsSound 0 idle_worker.driver
unfolding construct
idle_worker-IsSound = record {
  receive = omega arith;
  response = omega arith;
  rx_len = omega arith;
  writers = omega arith;
  transmit = omega arith;
}

Reach_lem_example : IsSound 0 waited.driver × Same idle_worker.driver waited.driver
Reach_lem_example =
    Reach_lem example_platform list_dllist-IsFifo list_dllist-IsFifo 0 idle_worker waited run
      idle_worker-IsSound
