-- ===== src/Calls/Refines.antt =====
-- The CANAL functions of src/linux/vscpl1drv-can4vscp.cpp do with the table what the operations of
-- one object say.
use vscpl1drv_can4vscp.Prelude.{◌≡◌, refl, sym, ap, ◌∙◌, Option, none, some}
use vscpl1drv_can4vscp.Platform.{Platform}
use vscpl1drv_can4vscp.Driver.{Driver, Run, ok, fault, starved, ◌>>=◌, Code, success}
use vscpl1drv_can4vscp.Filter.{set_filter, set_mask}
use vscpl1drv_can4vscp.Queues.{
  write_msg, write_msg_blocking, read_msg, read_msg_blocking, data_available, get_status,
  get_statistics,
}
use vscpl1drv_can4vscp.Session.Close.{Closing, close, destruct}
use vscpl1drv_can4vscp.Handles.{
  ℤ, Table, index, put_at, get_driver_object, remove_driver_object, on_found, on_object, paired,
  canal_send, canal_blocking_send, canal_receive, canal_blocking_receive, canal_data_available,
  canal_get_status, canal_get_statistics, canal_set_filter, canal_set_mask,
}
use vscpl1drv_can4vscp.Canal.{canal_close, close_found}
use vscpl1drv_can4vscp.Calls.{
  Op, send, blocking_send, receive, blocking_receive, count_waiting, status, statistics, filter,
  mask, close_handle, Reply, code, waiting, received_pair, counted_pair, replied, linux_op,
}
use vscpl1drv_can4vscp.Calls.Objects.{change, look, close_object, object_op, put_back, put_at_self}

-- A table with the object of a handle put back is the table.
pub put_back-same :
    (h : ℤ) (t : Table) (o : Option Driver) (r : Reply)
    → get_driver_object t h ≡ o
    → put_back h t (o, r) ≡ (t, r)
put_back-same h t o r e = ap (λ x. put_back h t (x, r)) (sym e) ∙ ap (λ s. (s, r)) (put_at_self t h)

on_object-change :
    {A : Type 0} (mk : A → Reply) (h : ℤ) (default : A) (f : Driver → Driver × A) (t : Table)
    → replied mk (on_object h default f t)
      ≡ put_back h t (change mk default f (get_driver_object t h))
unfolding on_object
on_object-change mk h default f t = on (get_driver_object t h) refl
  where
    on :
        (o : Option Driver)
        → get_driver_object t h ≡ o
        → replied mk (on_found h default f t o) ≡ put_back h t (change mk default f o)
    on none e = sym (put_back-same h t none (mk default) e)
    on (some d) e = refl

look-same : (mk : Reply) (h : ℤ) (t : Table) → (t, mk) ≡ put_back h t (get_driver_object t h, mk)
look-same mk h t = sym (put_back-same h t (get_driver_object t h) mk refl)

-- What stands in the two functions behind the destructor.
abbrev put_empty : ℤ → Table → Driver → Run (Table × Code)
put_empty h t gone = ok (put_at t (index h) none, success)

abbrev pub leave_none : Driver → Run (Option Driver × Reply)
leave_none gone = ok (none, code success)

abbrev reply_code : Table × Code → Run (Table × Reply)
reply_code r = ok (replied code r)

abbrev pub put : ℤ → Table → Option Driver × Reply → Run (Table × Reply)
put h t r = ok (put_back h t r)

destroyed :
    (h : ℤ) (t : Table) (x : Run Driver)
    → ((x >>= put_empty h t) >>= reply_code) ≡ ((x >>= leave_none) >>= put h t)
destroyed h t (ok d) = refl
destroyed h t fault = refl
destroyed h t starved = refl

shut_down :
    (p : Platform) (deleting : Closing) (h : ℤ) (t : Table) (x : Run (Driver × Code))
    → ((x >>= λ y. destruct p deleting y.0 >>= put_empty h t) >>= reply_code)
      ≡ ((x >>= λ y. destruct p deleting y.0 >>= leave_none) >>= put h t)
shut_down p deleting h t (ok y) = destroyed h t (destruct p deleting y.0)
shut_down p deleting h t fault = refl
shut_down p deleting h t starved = refl

closed-object :
    (p : Platform) (c deleting : Closing) (h : ℤ) (t : Table)
    → (canal_close p c deleting h t >>= reply_code)
      ≡ (close_object p c deleting (get_driver_object t h) >>= put h t)
unfolding canal_close remove_driver_object
closed-object p c deleting h t = on (get_driver_object t h) refl
  where
    on :
        (o : Option Driver)
        → get_driver_object t h ≡ o
        → (close_found p c deleting h t o >>= reply_code)
          ≡ (close_object p c deleting o >>= put h t)
    on none e = ap ok (sym (put_back-same h t none (code success) e))
    on (some d) e = shut_down p deleting h t (close p c d)

-- A CANAL function through a handle is the operation of the object of that handle, or of none, put
-- back into the table.
pub linux_op-object_op :
    (p : Platform) (op : Op) (h : ℤ) (t : Table)
    → linux_op p op h t ≡ (object_op p op (get_driver_object t h) >>= λ r. ok (put_back h t r))
unfolding linux_op object_op canal_send canal_blocking_send canal_receive canal_blocking_receive
    canal_data_available canal_get_status canal_get_statistics canal_set_filter canal_set_mask
linux_op-object_op p (send m) h t = ap ok (on_object-change code h success (write_msg p m) t)
linux_op-object_op p (blocking_send wait meanwhile m) h t =
    ap ok (on_object-change code h success (write_msg_blocking p wait meanwhile m) t)
linux_op-object_op p (receive null) h t =
    ap ok (on_object-change received_pair h (success, none) (λ d. paired (read_msg p null d)) t)
linux_op-object_op p (blocking_receive wait meanwhile null) h t = ap ok (
    on_object-change received_pair h (success, none)
      (λ d. paired (read_msg_blocking p wait meanwhile null d)) t)
linux_op-object_op p count_waiting h t =
    ap ok (look-same (waiting (look 0 data_available (get_driver_object t h))) h t)
linux_op-object_op p (status null) h t =
    ap ok (look-same (code (look success (get_status null) (get_driver_object t h))) h t)
linux_op-object_op p (statistics null) h t = ap ok (
    look-same (counted_pair (look (success, none) (get_statistics null) (get_driver_object t h))) h
      t)
linux_op-object_op p (filter n) h t = ap ok (on_object-change code h success (set_filter n) t)
linux_op-object_op p (mask n) h t = ap ok (on_object-change code h success (set_mask n) t)
linux_op-object_op p (close_handle c deleting) h t = closed-object p c deleting h t
