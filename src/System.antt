-- ===== src/System.antt =====
-- src/common/can4vscpobj.cpp: the threads of an open driver as steps on its state. The calls of
-- clients and the rounds of the two threads are taken one after the other, in any order. While the
-- transmit thread waits, the others take steps of their own.
pub mod Keeping
pub mod Steps
pub mod Sound
pub mod Flags
pub mod Ledger
pub mod Responses
pub mod Running
pub mod Busy
pub mod Life
use vscpl1drv_can4vscp.Prelude.{
  ℕ, ◌<◌, ◌≡◌, ◌==◌, Bool, true, false, Option, some, List, [], ◌∷◌, ltb, length,
}
use vscpl1drv_can4vscp.Message.{CanalMsg}
use vscpl1drv_can4vscp.Platform.{Platform}
use vscpl1drv_can4vscp.Rx.{Read}
use vscpl1drv_can4vscp.Driver.{Driver, ok, max_send}
use vscpl1drv_can4vscp.Filter.{set_filter, set_mask}
use vscpl1drv_can4vscp.Serial.{send_noop_frame}
use vscpl1drv_can4vscp.Receive.{read_serial_data}
use vscpl1drv_can4vscp.Queues.{
  Wait, write_msg, write_msg_blocking, write_granted, read_msg, read_msg_blocking, read_granted,
  take_head,
}
use vscpl1drv_can4vscp.Commands.{Poll}
use vscpl1drv_can4vscp.Transmit.Worker.{Worker, Round, worker_round}

-- A call of a client, or a round of `workThreadReceive`. A blocking call that waits is the step at
-- which its wait ends: granted, with a token that is there, or, where readMsgBlocking goes on, failed.
-- What the others do during the wait are their own steps, in between; a wait that ends the call with
-- an error changes nothing.
pub data Other (p : Platform) : Driver → Driver → Type 0 where
  write : (m : Option CanalMsg) (d : Driver) → Other p d (write_msg p m d).0
  read : (null : Bool) (d : Driver) → Other p d (read_msg p null d).0
  write_at_once :
      (wait : Wait) (meanwhile : Driver → Driver) (m : CanalMsg) (d : Driver)
      → ltb max_send (length d.transmit_list) ≡ false
      → Other p d (write_msg_blocking p wait meanwhile (some m) d).0
  write_waited :
      (m : CanalMsg) (d : Driver) → 0 < d.transmit_data_put_sem → Other p d (write_granted p m d)
  read_at_once :
      (wait : Wait) (meanwhile : Driver → Driver) (null : Bool) (d : Driver)
      → (length d.receive_list == 0) ≡ false
      → Other p d (read_msg_blocking p wait meanwhile null d).0
  read_waited : (d : Driver) → 0 < d.receive_data_sem → Other p d (read_granted p d).0
  read_failed : (d : Driver) → Other p d (take_head p d d.receive_list).0
  filter : (n : ℕ) (d : Driver) → Other p d (set_filter n d).0
  mask : (n : ℕ) (d : Driver) → Other p d (set_mask n d).0
  noop : (d : Driver) → Other p d (send_noop_frame p d)
  receive :
      (now : ℕ) (clock : ℕ → ℕ) (reads left : List Read) (d e : Driver)
      → read_serial_data p now clock reads d ≡ ok (e, left)
      → Other p d e

pub data Others (p : Platform) : Driver → Driver → Type 0 where
  rest : (d : Driver) → Others p d d
  next : (a b c : Driver) → Other p a b → Others p b c → Others p a c

abbrev pub AllPolls : Platform → List Poll → Type 0
AllPolls p [] = Unit {0}
AllPolls p (q ∷ qs) = ((d : Driver) → Others p d (q.others d)) × AllPolls p qs

-- What the other threads do during the waits of a round.
pub record Meanwhile (p : Platform) (r : Round) : Type 0 where
  pub ack : (d : Driver) → Others p d (r.ack_others d)
  pub get : (d : Driver) → Others p d (r.get_others d)
  pub timestamp : AllPolls p r.timestamp_wait.polls
  pub baudrate : AllPolls p r.baudrate_wait.polls
  pub mode : AllPolls p r.mode_wait.polls

-- A step of another thread, or a round of `workThreadTransmit`.
pub data Step (p : Platform) : Worker → Worker → Type 0 where
  other : (w : Worker) (d : Driver) → Other p w.driver d → Step p w (record w { driver = d })
  round :
      (r : Round) (w w' : Worker)
      → w.driver.running ≡ true
      → Meanwhile p r
      → worker_round p r w ≡ ok w'
      → Step p w w'

pub data Reach (p : Platform) : Worker → Worker → Type 0 where
  here : (w : Worker) → Reach p w w
  further : (a b c : Worker) → Step p a b → Reach p b c → Reach p a c
