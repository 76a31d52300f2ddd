-- ===== src/Windows/Laws.antt =====
-- Laws of the CANAL functions of src/windows/can4vscpdrv.cpp: from the attachment of the process on
-- they are those of src/linux/vscpl1drv-can4vscp.cpp.
use vscpl1drv_can4vscp.Prelude.{ℕ, ◌==◌, ◌≡◌, refl, ap, ◌∙◌, Option, List}
use vscpl1drv_can4vscp.Platform.{Platform}
use vscpl1drv_can4vscp.Driver.{
  Driver, Run, ok, fault, starved, ◌>>=◌, Code, success, parameter, not_open, fifo_full, fifo_empty,
  timeout, generic, init_fail,
}
use vscpl1drv_can4vscp.Driver.Outcome.{OnOk, OnOk-ok, bind-OnOk, if-OnOk, OnOk-unit, run-OnOk}
use vscpl1drv_can4vscp.Session.Close.{Closing, destruct}
use vscpl1drv_can4vscp.Session.Open.{Opening, Session, can4vscp_open}
use vscpl1drv_can4vscp.Config.{Level}
use vscpl1drv_can4vscp.Config.Text.{Bytes}
use vscpl1drv_can4vscp.Handles.{no_objects}
use vscpl1drv_can4vscp.Canal.{new_session}
use vscpl1drv_can4vscp.Calls.{
  Reply, opened_as, Call, Request, open_device, through, linux_request, run_calls,
}
use vscpl1drv_can4vscp.Calls.Simulation.{seen, run_calls_lem}
use vscpl1drv_can4vscp.Dll.{
  DllDrvObj, new_dll_drv_obj, init_instance, dll_add_driver_object, dll_get_driver_object,
}
use vscpl1drv_can4vscp.Dll.Laws.{
  IsWhole, dll_add-IsWhole, new-IsWhole, objects_of-new, dll_destroy_lem,
}
use vscpl1drv_can4vscp.Windows.{
  App, null_app, attached, deleted, process_attach, process_detach, dll_main, keep_or_delete,
  windows_opened, windows_op, windows_request,
}
use vscpl1drv_can4vscp.Windows.Objects.{windows_op-IsWhole}
use vscpl1drv_can4vscp.Windows.Shown.{
  app_objects, IsAttached, StaysAttached, StaysWhole, request-seen,
}

attached-IsAttached :
    (x : Run (DllDrvObj × Reply))
    → OnOk StaysWhole x
    → OnOk StaysAttached (x >>= λ r. ok (attached r.0, r.1))
attached-IsAttached (ok r) h = h
attached-IsAttached fault h = tt
attached-IsAttached starved h = tt

kept-IsWhole :
    (p : Platform) (deleting : Closing) (d : Driver) (x : DllDrvObj × ℕ)
    → IsWhole x.0
    → OnOk StaysWhole (keep_or_delete p deleting d x)
kept-IsWhole p deleting d x h =
    if-OnOk StaysWhole (x.1 == 0) _ _
      (λ e. run-OnOk StaysWhole (destruct p deleting d) (x.0, opened_as 0) h) (λ e. h)

open-IsAttached :
    (p : Platform) (deleting : Closing) (a : DllDrvObj) (whole : IsWhole a) (s : Session)
    (failure : Code)
    → OnOk StaysAttached (windows_opened p deleting (s, failure) (attached a))
open-IsAttached p deleting a whole s success =
    attached-IsAttached (keep_or_delete p deleting s.driver (dll_add_driver_object s.driver a)) (
      kept-IsWhole p deleting s.driver (dll_add_driver_object s.driver a)
        (dll_add-IsWhole s.driver a whole))
open-IsAttached p deleting a whole s parameter =
    run-OnOk StaysAttached (destruct p deleting s.driver) (attached a, opened_as 0) whole
open-IsAttached p deleting a whole s not_open =
    run-OnOk StaysAttached (destruct p deleting s.driver) (attached a, opened_as 0) whole
open-IsAttached p deleting a whole s fifo_full =
    run-OnOk StaysAttached (destruct p deleting s.driver) (attached a, opened_as 0) whole
open-IsAttached p deleting a whole s fifo_empty =
    run-OnOk StaysAttached (destruct p deleting s.driver) (attached a, opened_as 0) whole
open-IsAttached p deleting a whole s timeout =
    run-OnOk StaysAttached (destruct p deleting s.driver) (attached a, opened_as 0) whole
open-IsAttached p deleting a whole s generic =
    run-OnOk StaysAttached (destruct p deleting s.driver) (attached a, opened_as 0) whole
open-IsAttached p deleting a whole s init_fail =
    run-OnOk StaysAttached (destruct p deleting s.driver) (attached a, opened_as 0) whole

request-IsAttached :
    (p : Platform) (c : Request) (app : App)
    → IsAttached app
    → OnOk StaysAttached (windows_request p c app)
unfolding windows_request
request-IsAttached p (through c) (attached a) h =
    attached-IsAttached (windows_op p c.op c.handle a (dll_get_driver_object a c.handle))
      (windows_op-IsWhole p c.handle a h c.op (dll_get_driver_object a c.handle))
request-IsAttached p (open_device o deleting level d device flags) (attached a) h =
    bind-OnOk (λ r. Unit {0}) StaysAttached (can4vscp_open p o device flags (new_session d level)) _
      (OnOk-unit (can4vscp_open p o device flags (new_session d level)))
      (λ r k. open-IsAttached p deleting a h r.0 r.1)
request-IsAttached p c null_app h = absurd h
request-IsAttached p c (deleted a) h = absurd h

-- From DLL_PROCESS_ATTACH on, every sequence of calls of the CANAL functions of the Windows driver,
-- CanalOpen and CanalClose among them, has the outcome of the same calls of the Linux driver from
-- its empty table, on the same driver objects (those of the model): the same replies, and the same
-- objects in the slots.
pub attached_lem :
    (p : Platform) (cs : List Request) (app : App)
    → (dll_main process_attach app >>= λ started.
        seen app_objects (run_calls (windows_request p) cs started))
      ≡ run_calls (linux_request p) cs no_objects
unfolding dll_main
attached_lem p cs app =
    run_calls_lem (windows_request p) (linux_request p) app_objects IsAttached (request-seen p)
      (request-IsAttached p) cs (attached (init_instance new_dll_drv_obj)) new-IsWhole
    ∙ ap (run_calls (linux_request p) cs) objects_of-new

-- DLL_PROCESS_DETACH leaves the objects in the array and theApp pointing at the deleted table: a
-- second detachment and every call through a handle use it, and a CanalOpen that returns gives no
-- handle.
pub deleted_lem :
    (p : Platform) (a : DllDrvObj)
    → (dll_main process_detach (attached a) ≡ ok (deleted a))
      × (dll_main process_detach (deleted a) ≡ fault)
      × ((c : Call) → windows_request p (through c) (deleted a) ≡ fault)
      × ((o : Opening) (deleting : Closing) (level : Level) (d : Driver) (device : Option Bytes)
            (flags : ℕ) (r : App × Reply)
          → windows_request p (open_device o deleting level d device flags) (deleted a) ≡ ok r
          → r ≡ (deleted a, opened_as 0))
unfolding dll_main windows_request
deleted_lem p a = (
  ap (λ x. ok (deleted x.0)) (dll_destroy_lem a),
  refl,
  λ c. refl,
  λ o deleting level d device flags r e.
      OnOk-ok (λ x. x ≡ (deleted a, opened_as 0)) _ r
        (bind-OnOk (λ x. Unit {0}) (λ x. x ≡ (deleted a, opened_as 0))
          (can4vscp_open p o device flags (new_session d level)) _
          (OnOk-unit (can4vscp_open p o device flags (new_session d level)))
          (λ s k. failed s.0 s.1 deleting))
        e,
)
  where
    failed :
        (s : Session) (failure : Code) (deleting : Closing)
        → OnOk
            (λ x. x ≡ (deleted a, opened_as 0))
            (windows_opened p deleting (s, failure) (deleted a))
    failed s success deleting = tt
    failed s parameter deleting =
        run-OnOk (λ x. x ≡ (deleted a, opened_as 0)) (destruct p deleting s.driver)
          (deleted a, opened_as 0) refl
    failed s not_open deleting =
        run-OnOk (λ x. x ≡ (deleted a, opened_as 0)) (destruct p deleting s.driver)
          (deleted a, opened_as 0) refl
    failed s fifo_full deleting =
        run-OnOk (λ x. x ≡ (deleted a, opened_as 0)) (destruct p deleting s.driver)
          (deleted a, opened_as 0) refl
    failed s fifo_empty deleting =
        run-OnOk (λ x. x ≡ (deleted a, opened_as 0)) (destruct p deleting s.driver)
          (deleted a, opened_as 0) refl
    failed s timeout deleting =
        run-OnOk (λ x. x ≡ (deleted a, opened_as 0)) (destruct p deleting s.driver)
          (deleted a, opened_as 0) refl
    failed s generic deleting =
        run-OnOk (λ x. x ≡ (deleted a, opened_as 0)) (destruct p deleting s.driver)
          (deleted a, opened_as 0) refl
    failed s init_fail deleting =
        run-OnOk (λ x. x ≡ (deleted a, opened_as 0)) (destruct p deleting s.driver)
          (deleted a, opened_as 0) refl
