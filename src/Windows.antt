-- ===== src/Windows.antt =====
-- src/windows/can4vscpdrv.cpp: `DllMain`, the pointer `theApp` to the table of driver objects, and
-- the CANAL functions through it. The objects are those of the model, with the branches of
-- src/common/can4vscpobj.cpp that are not for WIN32. `new` does not return NULL.
pub mod Objects
pub mod Shown
pub mod Laws
use vscpl1drv_can4vscp.Prelude.{ℕ, ◌==◌, Bool, Option, none, some, List, if◌then◌else◌}
use vscpl1drv_can4vscp.Platform.{Platform}
use vscpl1drv_can4vscp.Driver.{Driver, Run, ok, fault, ◌>>=◌, Code, success}
use vscpl1drv_can4vscp.Filter.{set_filter, set_mask}
use vscpl1drv_can4vscp.Queues.{
  write_msg, write_msg_blocking, read_msg, read_msg_blocking, data_available, get_status,
  get_statistics,
}
use vscpl1drv_can4vscp.Session.Close.{Closing, close, destruct}
use vscpl1drv_can4vscp.Session.Open.{Opening, Session, can4vscp_open}
use vscpl1drv_can4vscp.Handles.{ℤ, paired}
use vscpl1drv_can4vscp.Canal.{new_session}
use vscpl1drv_can4vscp.Calls.{
  Op, send, blocking_send, receive, blocking_receive, count_waiting, status, statistics, filter,
  mask, close_handle, Reply, code, received, waiting, counted, opened_as, received_pair,
  counted_pair, replied, Call, Request, open_device, through,
}
use vscpl1drv_can4vscp.Dll.{
  DllDrvObj, new_dll_drv_obj, init_instance, dll_add_driver_object, dll_get_driver_object,
  set_driver_object, dll_remove_driver_object, dll_destroy,
}

-- theApp: NULL, the table, or the table behind its `delete`.
pub data App : Type 0 where
  null_app : App
  attached : DllDrvObj → App
  deleted : DllDrvObj → App

pub data Reason : Type 0 where
  process_attach thread_attach thread_detach process_detach : Reason

-- `delete theApp`; the pointer is not set to NULL.
abbrev pub delete_app : App → Run App
delete_app null_app = ok null_app
delete_app (attached a) = ok (deleted (dll_destroy a).0)
delete_app (deleted a) = fault

unfoldable pub dll_main : Reason → App → Run App
dll_main process_attach app = ok (attached (init_instance new_dll_drv_obj))
dll_main thread_attach app = ok app
dll_main thread_detach app = ok app
dll_main process_detach app = delete_app app

-- What is done with the table that the pointer stands for: there is none behind NULL and none that
-- may be used behind `delete`.
abbrev pub with_app {ℓ} : {A : Type ℓ} → (DllDrvObj → Run (DllDrvObj × A)) → App → Run (App × A)
with_app f null_app = fault
with_app f (attached a) = f a >>= λ r. ok (attached r.0, r.1)
with_app f (deleted a) = fault

-- The object goes to the table, or is deleted where the table is full.
abbrev pub keep_or_delete : Platform → Closing → Driver → DllDrvObj × ℕ → Run (DllDrvObj × Reply)
keep_or_delete p deleting d r =
    if r.1 == 0
    then destruct p deleting d >>= (λ gone. ok (r.0, opened_as 0))
    else ok (r.0, opened_as r.1)

abbrev pub windows_opened : Platform → Closing → Session × Code → App → Run (App × Reply)
windows_opened p deleting (s, success) app =
    with_app (λ a. keep_or_delete p deleting s.driver (dll_add_driver_object s.driver a)) app
windows_opened p deleting (s, failure) app =
    destruct p deleting s.driver >>= λ gone. ok (app, opened_as 0)

-- An operation on the object of a handle; without an object the functions below return 0.
abbrev pub on_drv_obj {ℓ} :
    {A : Type ℓ} → ℤ → A → (Driver → Driver × A) → DllDrvObj → Option Driver → DllDrvObj × A
on_drv_obj h default f a none = (a, default)
on_drv_obj h default f a (some d) = let r = f d in (set_driver_object h a (some r.0), r.1)

abbrev pub close_drv_obj :
    Platform → Closing → Closing → ℤ → DllDrvObj → Option Driver → Run (DllDrvObj × Reply)
close_drv_obj p c deleting h a none = ok (a, code success)
close_drv_obj p c deleting h a (some d) = do
  (closed, result) ← close p c d
  gone ← destruct p deleting closed
  ok (dll_remove_driver_object h a, code success)

-- The CANAL functions through a handle, where `o` is what `getDriverObject` gives for the handle.
unfoldable pub windows_op : Platform → Op → ℤ → DllDrvObj → Option Driver → Run (DllDrvObj × Reply)
windows_op p (close_handle c deleting) h a o = close_drv_obj p c deleting h a o
windows_op p (send m) h a o = ok (replied code (on_drv_obj h success (write_msg p m) a o))
windows_op p (blocking_send wait meanwhile m) h a o =
    ok (replied code (on_drv_obj h success (write_msg_blocking p wait meanwhile m) a o))
windows_op p (receive null) h a o =
    ok (replied received_pair (on_drv_obj h (success, none) (λ d. paired (read_msg p null d)) a o))
windows_op p (blocking_receive wait meanwhile null) h a o = ok (
    replied received_pair
      (on_drv_obj h (success, none) (λ d. paired (read_msg_blocking p wait meanwhile null d)) a o))
windows_op p count_waiting h a o = ok (a, waiting (elim o [ none ↦ 0 | some d ↦ data_available d ]))
windows_op p (status null) h a o =
    ok (a, code (elim o [ none ↦ success | some d ↦ get_status null d ]))
windows_op p (statistics null) h a o =
    ok (a, counted_pair (elim o [ none ↦ (success, none) | some d ↦ get_statistics null d ]))
windows_op p (filter n) h a o = ok (replied code (on_drv_obj h success (set_filter n) a o))
windows_op p (mask n) h a o = ok (replied code (on_drv_obj h success (set_mask n) a o))

unfoldable pub windows_request : Platform → Request → App → Run (App × Reply)
windows_request p (open_device o deleting level d device flags) app =
    can4vscp_open p o device flags (new_session d level) >>= λ r. windows_opened p deleting r app
windows_request p (through c) app =
    with_app (λ a. windows_op p c.op c.handle a (dll_get_driver_object a c.handle)) app
