-- ===== src/Tests/Transmit.antt =====
-- The transmission of messages, and the set-up of the interface.
use vscpl1drv_can4vscp.Prelude.{
  ℕ, ◌≡◌, ◌≢◌, refl, inl, Bool, true, false, [], ◌∷◌, ◌++◌, ◌+◌, arith,
}
use vscpl1drv_can4vscp.Frame.Encode.{encode}
use vscpl1drv_can4vscp.Message.{id_bytes}
use vscpl1drv_can4vscp.Driver.{Driver, construct, ok, starved}
use vscpl1drv_can4vscp.Transmit.{transmit_message}
use vscpl1drv_can4vscp.Transmit.Frames.{IsTransfer, transmit_message_lem}
use vscpl1drv_can4vscp.Transmit.Worker.{Worker, Round, worker_round, work_thread_transmit}
use vscpl1drv_can4vscp.Transmit.Worker.Resend.{IsReady, Sent, wire_of}
use vscpl1drv_can4vscp.Transmit.Worker.Rounds.{worker_round-no_ack, worker_round-ack}
use vscpl1drv_can4vscp.Transmit.Worker.Drain.{wires, work_thread_transmit-drains}
use vscpl1drv_can4vscp.Transmit.Worker.Answered.{AnsweredRound}
use vscpl1drv_can4vscp.Transmit.Worker.Acked.{work_thread_transmit-acked}
use vscpl1drv_can4vscp.Session.{Waiting, soft_open}
use vscpl1drv_can4vscp.Session.Progress.{soft_open-ne-starved}
use vscpl1drv_can4vscp.Tests.Commands.{quiet_at}
use vscpl1drv_can4vscp.Tests.Example.{example_platform, list_dllist-IsFifo, open_driver}
use vscpl1drv_can4vscp.Tests.Queues.{message}

abbrev loaded : Driver
loaded = record open_driver { transmit_list = message ∷ [] }

transmit_message_example :
    let wire = encode example_platform.crc8 1 0 16 5 (id_bytes 3 ++ (7 ∷ [])) in
    (e : Driver) × (next : ℕ) × (transmit_message example_platform 16 loaded ≡ ok (e, true, next))
    × IsTransfer loaded e wire 16 true next
unfolding construct
transmit_message_example =
    transmit_message_lem example_platform 16 message [] loaded refl refl refl refl (omega arith)

abbrev at_once : Waiting
at_once = record { start = 0; polls = quiet_at 1000 ∷ [] }

-- A round whose wait for the ACK gets its token or not.
abbrev pub quiet_round : Bool → Round
quiet_round granted = record {
  ack_granted = granted;
  ack_others = λ d. d;
  get_granted = false;
  get_others = λ d. d;
  micro_seconds = 0;
  milli_seconds = 0;
  timestamp_wait = at_once;
  baudrate_wait = at_once;
  mode_wait = at_once;
}

-- A thread that waits for the response to the frame 15, with the ACK noted or not.
abbrev waiting_worker : Bool → Worker
waiting_worker acked = record {
  driver = record loaded {
    init_flag = 8;
    transmit_list = message ∷ message ∷ [];
    info = record { waiting_for_ack_nack = false; ack = acked; seq = 15; channel = 0 };
  };
  in_progress = true;
  seq = 16;
}

loaded-IsReady : IsReady (waiting_worker false).driver message (message ∷ [])
unfolding construct
loaded-IsReady = record {
  opened = refl;
  is_open = refl;
  transmit_list = refl;
  size_data = refl;
  dlc = omega arith;
}

worker_round-no_ack_example :
    (w' : Worker) × (worker_round example_platform (quiet_round true) (waiting_worker false)
      ≡ ok w')
    × Sent example_platform (waiting_worker false).driver message 16 w'
    × (w'.in_progress ≡ true)
unfolding construct
worker_round-no_ack_example =
    worker_round-no_ack example_platform (quiet_round true) (waiting_worker false) message
      (message ∷ []) refl refl refl loaded-IsReady

worker_round-ack_example :
    (w' : Worker) × (worker_round example_platform (quiet_round true) (waiting_worker true) ≡ ok w')
    × (w'.driver.transmit_list ≡ message ∷ [])
    × (w'.driver.stat.transmit_frames ≡ 1)
    × (w'.driver.port.writes ≡ wire_of example_platform 16 message ∷ [])
    × (w'.in_progress ≡ true)
unfolding construct
worker_round-ack_example =
    worker_round-ack example_platform list_dllist-IsFifo (quiet_round true) (waiting_worker true)
      message message [] refl refl refl refl refl refl refl refl refl (omega arith)

-- Two messages on an open port, without waits for ACKs.
abbrev streaming : Driver
streaming = record loaded { transmit_list = message ∷ message ∷ [] }

work_thread_transmit-drains_example :
    (w' : Worker) × (work_thread_transmit example_platform
        (quiet_round false ∷ quiet_round false ∷ [])
        streaming
      ≡ ok w')
    × (w'.driver.transmit_list ≡ [])
    × (w'.driver.port.writes ≡ wires example_platform 0 (message ∷ message ∷ []))
    × (w'.driver.stat.transmit_frames ≡ 2)
unfolding construct
work_thread_transmit-drains_example =
    work_thread_transmit-drains example_platform list_dllist-IsFifo (λ writes bytes. refl)
      (quiet_round false ∷ quiet_round false ∷ []) streaming (message ∷ message ∷ []) refl
      (record {
        running = refl;
        opened = refl;
        is_open = refl;
        no_acks = refl;
        transmit_list = refl;
      })
      (refl, omega arith, (refl, omega arith, tt))

-- A round in which the ACK comes.
abbrev acked : Round
acked = record (quiet_round true) {
  ack_others = λ d. record d {
    info = record d.info { ack = true; waiting_for_ack_nack = false };
    transmit_ack_nack_sem = d.transmit_ack_nack_sem + 1;
  };
}

acked-AnsweredRound : AnsweredRound acked
acked-AnsweredRound = record {
  granted = refl;
  answered = λ d. record {
    ack = refl;
    running = refl;
    opened = refl;
    port = refl;
    init_flag = refl;
    transmit_list = refl;
    stat = refl;
  };
  nothing = refl;
  same = λ d. refl;
}

work_thread_transmit-acked_example :
    (w' : Worker) × (work_thread_transmit example_platform
        (quiet_round false ∷ acked ∷ acked ∷ [])
        (record streaming { init_flag = 8 })
      ≡ ok w')
    × (w'.driver.transmit_list ≡ [])
    × (w'.driver.port.writes ≡ wires example_platform 0 (message ∷ message ∷ []))
    × (w'.driver.stat.transmit_frames ≡ 2)
    × (w'.in_progress ≡ false)
unfolding construct
work_thread_transmit-acked_example =
    work_thread_transmit-acked example_platform list_dllist-IsFifo (λ writes bytes. refl)
      (quiet_round false) (acked ∷ acked ∷ []) (record streaming { init_flag = 8 }) message
      (message ∷ []) refl (acked-AnsweredRound, (acked-AnsweredRound, tt))
      (record { running = refl; opened = refl; is_open = refl; acks = refl; transmit_list = refl })
      (refl, omega arith, (refl, omega arith, tt))

soft_open-ne-starved_example :
    soft_open example_platform at_once at_once at_once open_driver ≢ starved
soft_open-ne-starved_example =
    soft_open-ne-starved example_platform at_once at_once at_once open_driver (inl (omega arith))
      (inl (omega arith)) (inl (omega arith))
