-- ===== src/Driver.antt =====
-- The object `CCan4VSCPObj` of src/common/can4vscpobj.h and can4vscpobj.cpp: its fields, its
-- constructor, and the outcome types of its operations. The counters of `canalStatistics` and the
-- semaphores do not wrap in the model.
pub mod Outcome
use vscpl1drv_can4vscp.Prelude.{ℕ, Bool, false, not, List, [], ◌==◌, ltb, if◌then◌else◌, bit_and}
use vscpl1drv_can4vscp.Prelude.Memory.{Memory}
use vscpl1drv_can4vscp.Message.{CanalMsg}
use vscpl1drv_can4vscp.Platform.{Response}
use vscpl1drv_can4vscp.Rx.{Rx, State, idle, buffer_size}

-- The CANAL_ERROR_... codes that the driver returns.
pub data Code : Type 0 where
  success parameter not_open fifo_full fifo_empty timeout generic init_fail : Code

-- The result of code that may read outside an array, `fault`, or run out of the model's fuel.
pub data Run {ℓ} (A : Type ℓ) : Type ℓ where
  ok : A → Run A
  fault starved : Run A

infixl 5 ◌>>=◌
abbrev pub ◌>>=◌ {ℓ κ} : {A : Type ℓ} {B : Type κ} → Run A → (A → Run B) → Run B
ok a >>= f = f a
fault >>= f = fault
starved >>= f = starved

-- m_bufferMsgRcv[i]
abbrev pub read_byte : Memory → ℕ → Run ℕ
read_byte buf i = if ltb i buffer_size then ok (buf i) else fault

pub record ResponseInfo : Type 0 where
  pub waiting_for_ack_nack : Bool
  pub ack : Bool
  pub seq : ℕ
  pub channel : ℕ

pub record Statistics : Type 0 where
  pub receive_data : ℕ
  pub receive_frames : ℕ
  pub transmit_data : ℕ
  pub transmit_frames : ℕ
  pub bus_off : ℕ
  pub bus_warnings : ℕ
  pub overruns : ℕ

-- The serial port: whether it is open, and every buffer handed to `comm_puts`, in order.
pub record Port : Type 0 where
  pub is_open : Bool
  pub writes : List (List ℕ)

pub record Driver : Type 0 where
  pub init_flag : ℕ
  pub filter : ℕ
  pub mask : ℕ
  pub baud : ℕ
  pub max_vscp_frames : ℕ
  pub max_canal_frames : ℕ
  pub running : Bool
  pub opened : Bool
  pub strict : Bool
  pub rx : Rx
  pub sequencyno : ℕ
  pub info : ResponseInfo
  pub activity : ℕ
  pub stat : Statistics
  pub transmit_list : List CanalMsg
  pub receive_list : List CanalMsg
  pub response_list : List Response
  pub receive_data_sem : ℕ
  pub transmit_data_put_sem : ℕ
  pub transmit_data_get_sem : ℕ
  pub transmit_ack_nack_sem : ℕ
  pub port : Port

-- CAN4VSCP_FLAG_...
abbrev pub flag_no_switch_to_new_mode : ℕ
flag_no_switch_to_new_mode = 0x04

abbrev pub flag_wait_for_ack : ℕ
flag_wait_for_ack = 0x08

abbrev pub flag_timestamp : ℕ
flag_timestamp = 0x10

abbrev pub flag_hardware_handshake : ℕ
flag_hardware_handshake = 0x20

abbrev pub flag_reopen : ℕ
flag_reopen = 0x40

abbrev pub flag_strict : ℕ
flag_strict = 0x80

-- `m_initFlag & flag`, as a condition.
abbrev pub has_flag : Driver → ℕ → Bool
has_flag d flag = not (bit_and d.init_flag flag == 0)

-- CAN4VSCP_MAX_RCVMSG, CAN4VSCP_MAX_SNDMSG, CAN4VSCP_MAX_RESPONSEMSG
abbrev pub max_receive : ℕ
max_receive = 4096

abbrev pub max_send : ℕ
max_send = 4096

abbrev pub max_response : ℕ
max_response = 32

abbrev pub no_statistics : Statistics
no_statistics = record {
  receive_data = 0;
  receive_frames = 0;
  transmit_data = 0;
  transmit_frames = 0;
  bus_off = 0;
  bus_warnings = 0;
  overruns = 0;
}

-- The constructor, at the clock reading `now`. What it leaves unset are the bytes and the length of
-- the receive buffer, and the statistics.
unfoldable pub construct : ℕ → Memory → ℕ → Statistics → Driver
construct now buf len stat = record {
  init_flag = 0;
  filter = 0;
  mask = 0;
  baud = 0;
  max_vscp_frames = 1;
  max_canal_frames = 1;
  running = false;
  opened = false;
  strict = false;
  rx = record { state = State.none; substate = idle; buf = buf; len = len };
  sequencyno = 0;
  info = record { waiting_for_ack_nack = false; ack = false; seq = 0; channel = 0 };
  activity = now;
  stat = stat;
  transmit_list = [];
  receive_list = [];
  response_list = [];
  receive_data_sem = 0;
  transmit_data_put_sem = 0;
  transmit_data_get_sem = 0;
  transmit_ack_nack_sem = 0;
  port = record { is_open = false; writes = [] };
}
