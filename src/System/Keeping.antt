-- ===== src/System/Keeping.antt =====
-- What every step of the threads of src/common/can4vscpobj.cpp keeps, for any relation that does not
-- look at more than the flags of the session, the receive state, the queues and the counters of the
-- transmit queue, and that the operations on the queues keep.
use vscpl1drv_can4vscp.Prelude.{
  ℕ, ◌+◌, ◌-◌, ◌<◌, ◌==◌, ◌≡◌, refl, false, arith, Bool, Option, none, some, List, [], ◌∷◌, ◌++◌,
  ltb, length, not, ◌-◌,
}
use vscpl1drv_can4vscp.Message.{CanalMsg, id_bytes}
use vscpl1drv_can4vscp.Platform.{Platform}
use vscpl1drv_can4vscp.Rx.{Read}
use vscpl1drv_can4vscp.Driver.{Driver, ok, max_send}
use vscpl1drv_can4vscp.Driver.Outcome.{OnOk, OnOk-unit, bind-OnOk, if-OnOk}
use vscpl1drv_can4vscp.Filter.{set_filter, set_mask}
use vscpl1drv_can4vscp.Serial.{send_msg, send_noop_frame}
use vscpl1drv_can4vscp.Receive.{read_serial_data}
use vscpl1drv_can4vscp.Queues.{
  write_msg, append_transmit, read_msg, take_head, drop_head, read_msg_blocking, write_msg_blocking,
  read_granted, Wait, write_granted,
}
use vscpl1drv_can4vscp.Commands.{Poll}
use vscpl1drv_can4vscp.Session.Keeping.{Quiet, Keeping, same_quiet, AllKeepRel, same-Rel}
use vscpl1drv_can4vscp.Transmit.{data_bytes, transmit_frame, transmit_head, transmit_message}
use vscpl1drv_can4vscp.Transmit.Worker.{complete}
use vscpl1drv_can4vscp.System.{
  Other, write, read, write_at_once, write_waited, read_at_once, read_waited, read_failed, filter,
  mask, noop, receive, Others, rest, next, AllPolls,
}

-- The relation is also kept where a message is added to the transmit queue with room, where the
-- first message is done with, where the first message of the receive queue is read, and where
-- `readSerialData` returns.
pub record QueueKeeping (p : Platform) : Type 1 where
  pub base : Keeping p
  pub append :
      (m : CanalMsg) (d : Driver)
      → ltb max_send (length d.transmit_list) ≡ false
      → base.Rel d (append_transmit p m d)
  pub granted :
      (m : CanalMsg) (d : Driver) → 0 < d.transmit_data_put_sem → base.Rel d (write_granted p m d)
  pub done :
      (m : CanalMsg) (ms : List CanalMsg) (d : Driver)
      → d.transmit_list ≡ m ∷ ms
      → base.Rel d (complete p m d)
  pub drop :
      (m : CanalMsg) (ms : List CanalMsg) (d : Driver)
      → d.receive_list ≡ m ∷ ms
      → base.Rel d (drop_head p d)
  pub received :
      (now : ℕ) (clock : ℕ → ℕ) (reads left : List Read) (d e : Driver)
      → read_serial_data p now clock reads d ≡ ok (e, left)
      → base.Rel d e

transmit_frame-Quiet :
    (p : Platform) (declared : ℕ) (payload : List ℕ) (seq : ℕ) (d : Driver)
    → Quiet d (transmit_frame p declared payload seq d).0
unfolding transmit_frame send_msg
transmit_frame-Quiet p declared payload seq d = ground arith

abbrev pub QuietSent : Driver → Driver × Bool × ℕ → Type 0
QuietSent d r = Quiet d r.0

transmit_head-Quiet :
    (p : Platform) (seq : ℕ) (d : Driver) (ms : List CanalMsg)
    → OnOk (QuietSent d) (transmit_head p seq d ms)
unfolding transmit_head
transmit_head-Quiet p seq d [] = same_quiet d
transmit_head-Quiet p seq d (m ∷ ms) =
    if-OnOk (QuietSent d) (ltb 8 m.size_data) _ _ (λ e. tt)
      (λ e.
        bind-OnOk (λ bytes. Unit {0}) (QuietSent d) (data_bytes m.bytes m.size_data) _
          (OnOk-unit (data_bytes m.bytes m.size_data))
          (λ bytes u. transmit_frame-Quiet p (4 + m.size_data) (id_bytes m.id ++ bytes) seq d))

pub transmit_message-Quiet :
    (p : Platform) (seq : ℕ) (d : Driver) → OnOk (QuietSent d) (transmit_message p seq d)
unfolding transmit_message
transmit_message-Quiet p seq d =
    if-OnOk (QuietSent d) (not d.opened) _ _ (λ e. same_quiet d)
      (λ e. transmit_head-Quiet p seq d d.transmit_list)

module _ (p : Platform) (Q : QueueKeeping p) where
  write_msg-Rel : (m : Option CanalMsg) (d : Driver) → Q.base.Rel d (write_msg p m d).0
  unfolding write_msg
  write_msg-Rel none d = same-Rel p Q.base d
  write_msg-Rel (some m) d = ground (arith, Q.append m d, same-Rel p Q.base d)

  take_head-Rel :
      (d : Driver) (ms : List CanalMsg) → d.receive_list ≡ ms → Q.base.Rel d (take_head p d ms).0
  unfolding take_head
  take_head-Rel d [] e = same-Rel p Q.base d
  take_head-Rel d (m ∷ ms) e = Q.drop m ms d e

  read_msg-Rel : (null : Bool) (d : Driver) → Q.base.Rel d (read_msg p null d).0
  unfolding read_msg
  read_msg-Rel null d = ground (arith, take_head-Rel d d.receive_list refl, same-Rel p Q.base d)

  write_at_once-Rel :
      (wait : Wait) (meanwhile : Driver → Driver) (m : CanalMsg) (d : Driver)
      → ltb max_send (length d.transmit_list) ≡ false
      → Q.base.Rel d (write_msg_blocking p wait meanwhile (some m) d).0
  unfolding write_msg_blocking
  write_at_once-Rel wait meanwhile m d room =
      rw room (ground (arith, Q.append m d room, same-Rel p Q.base d))

  read_at_once-Rel :
      (wait : Wait) (meanwhile : Driver → Driver) (null : Bool) (d : Driver)
      → (length d.receive_list == 0) ≡ false
      → Q.base.Rel d (read_msg_blocking p wait meanwhile null d).0
  unfolding read_msg_blocking
  read_at_once-Rel wait meanwhile null d held =
      rw held (ground (arith, take_head-Rel d d.receive_list refl, same-Rel p Q.base d))

  pub Other-Rel : (d e : Driver) → Other p d e → Q.base.Rel d e
  unfolding set_filter set_mask send_noop_frame send_msg
  Other-Rel _ _ (write m d) = write_msg-Rel m d
  Other-Rel _ _ (read null d) = read_msg-Rel null d
  Other-Rel _ _ (write_at_once wait meanwhile m d room) = write_at_once-Rel wait meanwhile m d room
  Other-Rel _ _ (write_waited m d token) = Q.granted m d token
  Other-Rel _ _ (read_at_once wait meanwhile null d held) =
      read_at_once-Rel wait meanwhile null d held
  Other-Rel _ _ (read_waited d token) =
      let taken = record d { receive_data_sem = d.receive_data_sem - 1 } in
      Q.base.trans d taken (read_granted p d).0 (Q.base.quiet d taken (ground arith))
        (take_head-Rel taken d.receive_list refl)
  Other-Rel _ _ (read_failed d) = take_head-Rel d d.receive_list refl
  Other-Rel _ _ (filter n d) = Q.base.quiet d (set_filter n d).0 (ground arith)
  Other-Rel _ _ (mask n d) = Q.base.quiet d (set_mask n d).0 (ground arith)
  Other-Rel _ _ (noop d) = Q.base.quiet d (send_noop_frame p d) (ground arith)
  Other-Rel _ _ (receive now clock reads left d e run) = Q.received now clock reads left d e run

  pub Others-Rel : (d e : Driver) → Others p d e → Q.base.Rel d e
  Others-Rel _ _ (rest d) = same-Rel p Q.base d
  Others-Rel _ _ (next a b c first later) =
      Q.base.trans a b c (Other-Rel a b first) (Others-Rel b c later)

  pub polls-AllKeepRel : (qs : List Poll) → AllPolls p qs → AllKeepRel Q.base.Rel qs
  polls-AllKeepRel [] k = tt
  polls-AllKeepRel (q ∷ qs) k = (λ d. Others-Rel d (q.others d) (k.0 d), polls-AllKeepRel qs k.1)
