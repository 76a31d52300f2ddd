-- ===== src/Windows/Objects.antt =====
-- The CANAL functions of src/windows/can4vscpdrv.cpp do with the array what those of
-- src/linux/vscpl1drv-can4vscp.cpp do with the table.
use vscpl1drv_can4vscp.Prelude.{◌≡◌, refl, sym, ap, Option, none, some}
use vscpl1drv_can4vscp.Platform.{Platform}
use vscpl1drv_can4vscp.Driver.{Driver, Run, ok, fault, starved, ◌>>=◌, Code, success}
use vscpl1drv_can4vscp.Driver.Outcome.{OnOk, bind-OnOk, OnOk-unit, run-OnOk}
use vscpl1drv_can4vscp.Filter.{set_filter, set_mask}
use vscpl1drv_can4vscp.Queues.{
  write_msg, write_msg_blocking, read_msg, read_msg_blocking, data_available, get_status,
  get_statistics,
}
use vscpl1drv_can4vscp.Session.Close.{Closing, close, destruct}
use vscpl1drv_can4vscp.Handles.{ℤ, Table, get_driver_object, paired}
use vscpl1drv_can4vscp.Calls.{
  Op, send, blocking_send, receive, blocking_receive, count_waiting, status, statistics, filter,
  mask, close_handle, Reply, code, waiting, received_pair, counted_pair, replied,
}
use vscpl1drv_can4vscp.Calls.Objects.{change, close_object, object_op, put_back}
use vscpl1drv_can4vscp.Calls.Refines.{put_back-same, leave_none, put}
use vscpl1drv_can4vscp.Calls.Simulation.{seen}
use vscpl1drv_can4vscp.Dll.{DllDrvObj, set_driver_object, dll_remove_driver_object}
use vscpl1drv_can4vscp.Dll.Laws.{
  objects_of, IsWhole, set_driver_object_lem, set_driver_object-IsWhole,
}
use vscpl1drv_can4vscp.Windows.{on_drv_obj, close_drv_obj, windows_op}

abbrev view : DllDrvObj × Reply → Table × Reply
view r = (objects_of r.0, r.1)

module _ (p : Platform) (h : ℤ) (a : DllDrvObj) (whole : IsWhole a) where
  on_drv_obj-change :
      {A : Type 0} (mk : A → Reply) (default : A) (f : Driver → Driver × A) (o : Option Driver)
      → get_driver_object (objects_of a) h ≡ o
      → view (replied mk (on_drv_obj h default f a o))
        ≡ put_back h (objects_of a) (change mk default f o)
  on_drv_obj-change mk default f none e = sym (put_back-same h (objects_of a) none (mk default) e)
  on_drv_obj-change mk default f (some d) e =
      ap (λ t. (t, mk (f d).1)) (set_driver_object_lem h a (some (f d).0) whole)

  on_drv_obj-IsWhole :
      {A : Type 0} (default : A) (f : Driver → Driver × A) (o : Option Driver)
      → IsWhole (on_drv_obj h default f a o).0
  on_drv_obj-IsWhole default f none = whole
  on_drv_obj-IsWhole default f (some d) = set_driver_object-IsWhole h a (some (f d).0) whole

  read-same :
      (o : Option Driver) (r : Reply)
      → get_driver_object (objects_of a) h ≡ o
      → (objects_of a, r) ≡ put_back h (objects_of a) (o, r)
  read-same o r e = sym (put_back-same h (objects_of a) o r e)

  -- Behind `close` and the destructor.
  removed : Driver → Run (DllDrvObj × Reply)
  removed gone = ok (dll_remove_driver_object h a, code success)

  destroyed :
      (x : Run Driver)
      → seen objects_of (x >>= removed) ≡ ((x >>= leave_none) >>= put h (objects_of a))
  unfolding removed dll_remove_driver_object
  destroyed (ok d) = ap (λ t. ok (t, code success)) (set_driver_object_lem h a none whole)
  destroyed fault = refl
  destroyed starved = refl

  shut_down :
      (deleting : Closing) (x : Run (Driver × Code))
      → seen objects_of (x >>= λ y. destruct p deleting y.0 >>= removed)
        ≡ ((x >>= λ y. destruct p deleting y.0 >>= leave_none) >>= put h (objects_of a))
  shut_down deleting (ok y) = destroyed (destruct p deleting y.0)
  shut_down deleting fault = refl
  shut_down deleting starved = refl

  closed :
      (c deleting : Closing) (o : Option Driver)
      → get_driver_object (objects_of a) h ≡ o
      → seen objects_of (close_drv_obj p c deleting h a o)
        ≡ (close_object p c deleting o >>= put h (objects_of a))
  unfolding removed
  closed c deleting none e = ap ok (read-same none (code success) e)
  closed c deleting (some d) e = shut_down deleting (close p c d)

  -- A CANAL function with the object of its handle is the operation of that object, put back.
  pub windows_op-object_op :
      (op : Op) (o : Option Driver)
      → get_driver_object (objects_of a) h ≡ o
      → seen objects_of (windows_op p op h a o)
        ≡ (object_op p op o >>= λ r. ok (put_back h (objects_of a) r))
  unfolding windows_op object_op
  windows_op-object_op (send m) o e = ap ok (on_drv_obj-change code success (write_msg p m) o e)
  windows_op-object_op (blocking_send wait meanwhile m) o e =
      ap ok (on_drv_obj-change code success (write_msg_blocking p wait meanwhile m) o e)
  windows_op-object_op (receive null) o e =
      ap ok (on_drv_obj-change received_pair (success, none) (λ d. paired (read_msg p null d)) o e)
  windows_op-object_op (blocking_receive wait meanwhile null) o e = ap ok (
      on_drv_obj-change received_pair (success, none)
        (λ d. paired (read_msg_blocking p wait meanwhile null d)) o e)
  windows_op-object_op count_waiting none e = ap ok (read-same none (waiting 0) e)
  windows_op-object_op count_waiting (some d) e =
      ap ok (read-same (some d) (waiting (data_available d)) e)
  windows_op-object_op (status null) none e = ap ok (read-same none (code success) e)
  windows_op-object_op (status null) (some d) e =
      ap ok (read-same (some d) (code (get_status null d)) e)
  windows_op-object_op (statistics null) none e =
      ap ok (read-same none (counted_pair (success, none)) e)
  windows_op-object_op (statistics null) (some d) e =
      ap ok (read-same (some d) (counted_pair (get_statistics null d)) e)
  windows_op-object_op (filter n) o e = ap ok (on_drv_obj-change code success (set_filter n) o e)
  windows_op-object_op (mask n) o e = ap ok (on_drv_obj-change code success (set_mask n) o e)
  windows_op-object_op (close_handle c deleting) o e = closed c deleting o e

  closed-IsWhole :
      (c deleting : Closing) (o : Option Driver)
      → OnOk (λ r. IsWhole r.0) (close_drv_obj p c deleting h a o)
  unfolding dll_remove_driver_object
  closed-IsWhole c deleting none = whole
  closed-IsWhole c deleting (some d) =
      bind-OnOk (λ y. Unit {0}) (λ r. IsWhole r.0) (close p c d) _ (OnOk-unit (close p c d))
        (λ y k.
          run-OnOk (λ r. IsWhole r.0) (destruct p deleting y.0)
            (set_driver_object h a none, code success) (set_driver_object-IsWhole h a none whole))

  pub windows_op-IsWhole :
      (op : Op) (o : Option Driver) → OnOk (λ r. IsWhole r.0) (windows_op p op h a o)
  unfolding windows_op
  windows_op-IsWhole (send m) o = on_drv_obj-IsWhole success (write_msg p m) o
  windows_op-IsWhole (blocking_send wait meanwhile m) o =
      on_drv_obj-IsWhole success (write_msg_blocking p wait meanwhile m) o
  windows_op-IsWhole (receive null) o =
      on_drv_obj-IsWhole (success, none) (λ d. paired (read_msg p null d)) o
  windows_op-IsWhole (blocking_receive wait meanwhile null) o =
      on_drv_obj-IsWhole (success, none) (λ d. paired (read_msg_blocking p wait meanwhile null d)) o
  windows_op-IsWhole count_waiting o = whole
  windows_op-IsWhole (status null) o = whole
  windows_op-IsWhole (statistics null) o = whole
  windows_op-IsWhole (filter n) o = on_drv_obj-IsWhole success (set_filter n) o
  windows_op-IsWhole (mask n) o = on_drv_obj-IsWhole success (set_mask n) o
  windows_op-IsWhole (close_handle c deleting) o = closed-IsWhole c deleting o
