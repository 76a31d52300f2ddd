-- ===== src/Calls.antt =====
-- The CANAL functions on a handle (src/linux/vscpl1drv-can4vscp.cpp) as the calls of one interface,
-- and sequences of them.
pub mod Objects
pub mod Refines
pub mod Isolation
pub mod Linux
pub mod Simulation
use vscpl1drv_can4vscp.Prelude.{
  ℕ, ◌==◌, Bool, true, false, Option, none, some, List, [], ◌∷◌, if◌then◌else◌,
}
use vscpl1drv_can4vscp.Message.{CanalMsg}
use vscpl1drv_can4vscp.Platform.{Platform}
use vscpl1drv_can4vscp.Driver.{Driver, Run, ok, ◌>>=◌, Code, Statistics}
use vscpl1drv_can4vscp.Queues.{Wait}
use vscpl1drv_can4vscp.Session.Close.{Closing}
use vscpl1drv_can4vscp.Session.Open.{Opening}
use vscpl1drv_can4vscp.Config.{Level}
use vscpl1drv_can4vscp.Config.Text.{Bytes}
use vscpl1drv_can4vscp.Handles.{
  ℤ, pos, negsuc, Table, canal_send, canal_blocking_send, canal_receive, canal_blocking_receive,
  canal_data_available, canal_get_status, canal_get_statistics, canal_set_filter, canal_set_mask,
}
use vscpl1drv_can4vscp.Canal.{canal_open, canal_close}

-- A function of the interface, with its arguments but for the handle.
pub data Op : Type 0 where
  send : Option CanalMsg → Op
  blocking_send : Wait → (Driver → Driver) → Option CanalMsg → Op
  receive : Bool → Op
  blocking_receive : Wait → (Driver → Driver) → Bool → Op
  count_waiting : Op
  status : Bool → Op
  statistics : Bool → Op
  filter : ℕ → Op
  mask : ℕ → Op
  close_handle : Closing → Closing → Op

pub data Reply : Type 0 where
  code : Code → Reply
  received : Code → Option CanalMsg → Reply
  waiting : ℕ → Reply
  counted : Code → Option Statistics → Reply
  opened_as : ℕ → Reply

abbrev pub received_pair : Code × Option CanalMsg → Reply
received_pair r = received r.0 r.1

abbrev pub counted_pair : Code × Option Statistics → Reply
counted_pair r = counted r.0 r.1

abbrev pub replied {ℓ} : {A : Type 0} {T : Type ℓ} → (A → Reply) → T × A → T × Reply
replied mk r = (r.0, mk r.1)

unfoldable pub linux_op : Platform → Op → ℤ → Table → Run (Table × Reply)
linux_op p (send m) h t = ok (replied code (canal_send p h m t))
linux_op p (blocking_send wait meanwhile m) h t =
    ok (replied code (canal_blocking_send p wait meanwhile h m t))
linux_op p (receive null) h t = ok (replied received_pair (canal_receive p h null t))
linux_op p (blocking_receive wait meanwhile null) h t =
    ok (replied received_pair (canal_blocking_receive p wait meanwhile h null t))
linux_op p count_waiting h t = ok (t, waiting (canal_data_available h t))
linux_op p (status null) h t = ok (t, code (canal_get_status h null t))
linux_op p (statistics null) h t = ok (t, counted_pair (canal_get_statistics h null t))
linux_op p (filter n) h t = ok (replied code (canal_set_filter h n t))
linux_op p (mask n) h t = ok (replied code (canal_set_mask h n t))
linux_op p (close_handle c deleting) h t = canal_close p c deleting h t >>= λ r. ok (replied code r)

-- Calls one after the other, with their replies, on a state and a function for one call.
unfoldable pub run_calls {ℓ κ} :
    {C : Type κ} {T : Type ℓ} → (C → T → Run (T × Reply)) → List C → T → Run (T × List Reply)
run_calls step [] t = ok (t, [])
run_calls step (c ∷ cs) t = step c t >>= λ r. run_calls step cs r.0 >>= λ s. ok (s.0, r.1 ∷ s.1)

pub record Call : Type 0 where
  pub handle : ℤ
  pub op : Op

abbrev pub linux_call : Platform → Call → Table → Run (Table × Reply)
linux_call p c t = linux_op p c.op c.handle t

abbrev pub linux_run : Platform → List Call → Table → Run (Table × List Reply)
linux_run p cs t = run_calls (linux_call p) cs t

-- `CanalOpen`, with the new object, what happens while it opens and the wait where it is deleted
-- again; or a call through a handle.
pub data Request : Type 0 where
  open_device : Opening → Closing → Level → Driver → Option Bytes → ℕ → Request
  through : Call → Request

unfoldable pub linux_request : Platform → Request → Table → Run (Table × Reply)
linux_request p (open_device o deleting level d device flags) t =
    canal_open p o deleting level d device flags t >>= λ r. ok (replied opened_as r)
linux_request p (through c) t = linux_call p c t

abbrev pub same_handle : ℤ → ℤ → Bool
same_handle (pos m) (pos n) = m == n
same_handle (negsuc m) (negsuc n) = m == n
same_handle (pos m) (negsuc n) = false
same_handle (negsuc m) (pos n) = false
