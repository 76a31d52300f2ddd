-- ===== src/Calls/Objects.antt =====
-- What the CANAL functions promise: a handle is an object of its own, or none.
use vscpl1drv_can4vscp.Prelude.{ℕ, ◌≡◌, refl, Option, none, some, arith}
use mathlib.Core.Path.{fun_ext}
use vscpl1drv_can4vscp.Platform.{Platform}
use vscpl1drv_can4vscp.Driver.{Driver, Run, ok, ◌>>=◌, success}
use vscpl1drv_can4vscp.Filter.{set_filter, set_mask}
use vscpl1drv_can4vscp.Queues.{
  write_msg, write_msg_blocking, read_msg, read_msg_blocking, data_available, get_status,
  get_statistics,
}
use vscpl1drv_can4vscp.Session.Close.{Closing, close, destruct}
use vscpl1drv_can4vscp.Handles.{
  ℤ, Table, set_object, index, object_at, put_at, get_driver_object, paired,
}
use vscpl1drv_can4vscp.Calls.{
  Op, send, blocking_send, receive, blocking_receive, count_waiting, status, statistics, filter,
  mask, close_handle, Reply, code, waiting, received_pair, counted_pair,
}

-- An operation that changes the object, and one that reads it; the default stands for no object.
abbrev pub change {ℓ} :
    {A : Type ℓ} → (A → Reply) → A → (Driver → Driver × A) → Option Driver → Option Driver × Reply
change mk default f none = (none, mk default)
change mk default f (some d) = let r = f d in (some r.0, mk r.1)

abbrev pub look {ℓ} : {A : Type ℓ} → A → (Driver → A) → Option Driver → A
look default f none = default
look default f (some d) = f d

abbrev pub close_object : Platform → Closing → Closing → Option Driver → Run (Option Driver × Reply)
close_object p c deleting none = ok (none, code success)
close_object p c deleting (some d) =
    close p c d >>= λ r. destruct p deleting r.0 >>= λ gone. ok (none, code success)

unfoldable pub object_op : Platform → Op → Option Driver → Run (Option Driver × Reply)
object_op p (send m) o = ok (change code success (write_msg p m) o)
object_op p (blocking_send wait meanwhile m) o =
    ok (change code success (write_msg_blocking p wait meanwhile m) o)
object_op p (receive null) o =
    ok (change received_pair (success, none) (λ d. paired (read_msg p null d)) o)
object_op p (blocking_receive wait meanwhile null) o = ok (
    change received_pair (success, none) (λ d. paired (read_msg_blocking p wait meanwhile null d))
      o)
object_op p count_waiting o = ok (o, waiting (look 0 data_available o))
object_op p (status null) o = ok (o, code (look success (get_status null) o))
object_op p (statistics null) o =
    ok (o, counted_pair (look (success, none) (get_statistics null) o))
object_op p (filter n) o = ok (change code success (set_filter n) o)
object_op p (mask n) o = ok (change code success (set_mask n) o)
object_op p (close_handle c deleting) o = close_object p c deleting o

-- The object of a handle, put back.
abbrev pub put_back {ℓ} : {A : Type ℓ} → ℤ → Table → Option Driver × A → Table × A
put_back h t r = (put_at t (index h) r.0, r.1)

set_object_self : (t : Table) (i : ℕ) → set_object t i (t i) ≡ t
set_object_self t i = fun_ext λ j. here j
  where
    here : (j : ℕ) → set_object t i (t i) j ≡ t j
    here j = ground arith

pub put_at_self : (t : Table) (h : ℤ) → put_at t (index h) (get_driver_object t h) ≡ t
unfolding get_driver_object
put_at_self t h = on (index h)
  where
    on : (x : Option ℕ) → put_at t x (object_at t x) ≡ t
    on none = refl
    on (some i) = set_object_self t i
