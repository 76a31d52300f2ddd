-- ===== src/Windows/Shown.antt =====
-- What the CANAL functions of src/windows/can4vscpdrv.cpp do with an attached table, seen as the table
-- of src/linux/vscpl1drv-can4vscp.cpp.
use vscpl1drv_can4vscp.Prelude.{
  ℕ, ◌==◌, ◌≡◌, refl, sym, ap, ◌∙◌, Bool-cases, inl, inr, if◌then◌else◌,
}
use vscpl1drv_can4vscp.Platform.{Platform}
use vscpl1drv_can4vscp.Driver.{
  Driver, Run, ok, fault, starved, ◌>>=◌, Code, success, parameter, not_open, fifo_full, fifo_empty,
  timeout, generic, init_fail,
}
use vscpl1drv_can4vscp.Session.Close.{Closing, destruct}
use vscpl1drv_can4vscp.Session.Open.{Session, can4vscp_open}
use vscpl1drv_can4vscp.Handles.{Table, no_objects}
use vscpl1drv_can4vscp.Canal.{new_session, enter, enter_opened, canal_open}
use vscpl1drv_can4vscp.Calls.{
  Reply, opened_as, replied, Call, Request, open_device, through, linux_request,
}
use vscpl1drv_can4vscp.Calls.Objects.{object_op, put_back}
use vscpl1drv_can4vscp.Calls.Refines.{linux_op-object_op}
use vscpl1drv_can4vscp.Calls.Simulation.{seen}
use vscpl1drv_can4vscp.Dll.{DllDrvObj, dll_add_driver_object, dll_get_driver_object}
use vscpl1drv_can4vscp.Dll.Laws.{
  objects_of, IsWhole, dll_get_driver_object_lem, dll_add_driver_object_lem,
}
use vscpl1drv_can4vscp.Windows.{
  App, null_app, attached, deleted, keep_or_delete, windows_opened, windows_op, windows_request,
}
use vscpl1drv_can4vscp.Windows.Objects.{windows_op-object_op}

-- The table behind the pointer, and a pointer to a table with all its slots.
abbrev pub app_objects : App → Table
app_objects null_app = no_objects
app_objects (attached a) = objects_of a
app_objects (deleted a) = objects_of a

abbrev pub IsAttached : App → Type 0
IsAttached null_app = ⊥
IsAttached (attached a) = IsWhole a
IsAttached (deleted a) = ⊥

abbrev pub StaysAttached : App × Reply → Type 0
StaysAttached r = IsAttached r.0

abbrev pub StaysWhole : DllDrvObj × Reply → Type 0
StaysWhole r = IsWhole r.0

pub attached-seen :
    (x : Run (DllDrvObj × Reply))
    → seen app_objects (x >>= λ r. ok (attached r.0, r.1)) ≡ seen objects_of x
attached-seen (ok r) = refl
attached-seen fault = refl
attached-seen starved = refl

pub through-seen :
    (p : Platform) (c : Call) (a : DllDrvObj)
    → IsWhole a
    → seen app_objects (windows_request p (through c) (attached a))
      ≡ linux_request p (through c) (objects_of a)
unfolding windows_request linux_request
through-seen p c a whole =
    let here = dll_get_driver_object_lem a c.handle in
    attached-seen (windows_op p c.op c.handle a (dll_get_driver_object a c.handle))
    ∙ windows_op-object_op p c.handle a whole c.op (dll_get_driver_object a c.handle) (sym here)
    ∙ ap (λ o. object_op p c.op o >>= λ r. ok (put_back c.handle (objects_of a) r)) here
    ∙ sym (linux_op-object_op p c.op c.handle (objects_of a))

-- What `enter` does with the outcome of `addDriverObject`.
abbrev pub entered : Platform → Closing → Driver → Table × ℕ → Run (Table × ℕ)
entered p deleting d x = if x.1 == 0 then destruct p deleting d >>= (λ gone. ok (x.0, 0)) else ok x

abbrev pub reply_handle : Table × ℕ → Run (Table × Reply)
reply_handle x = ok (replied opened_as x)

pub deleted-seen :
    {S : Type 0} (f : S → Table) (s : S) (x : Run Driver)
    → seen f (x >>= λ gone. ok (s, opened_as 0)) ≡ ((x >>= λ gone. ok (f s, 0)) >>= reply_handle)
deleted-seen f s (ok d) = refl
deleted-seen f s fault = refl
deleted-seen f s starved = refl

pub kept-seen :
    (p : Platform) (deleting : Closing) (d : Driver) (x : DllDrvObj × ℕ)
    → seen objects_of (keep_or_delete p deleting d x)
      ≡ (entered p deleting d (objects_of x.0, x.1) >>= reply_handle)
kept-seen p deleting d x = elim (Bool-cases (x.1 == 0)) [
  | inl full ↦ rw full (deleted-seen objects_of x.0 (destruct p deleting d))
  | inr room ↦ rw room refl
]

pub open-seen :
    (p : Platform) (deleting : Closing) (a : DllDrvObj) (whole : IsWhole a) (s : Session)
    (failure : Code)
    → seen app_objects (windows_opened p deleting (s, failure) (attached a))
      ≡ (enter_opened p deleting (objects_of a) (s, failure) >>= reply_handle)
unfolding enter
open-seen p deleting a whole s success =
    attached-seen (keep_or_delete p deleting s.driver (dll_add_driver_object s.driver a))
    ∙ kept-seen p deleting s.driver (dll_add_driver_object s.driver a)
    ∙ ap (λ x. entered p deleting s.driver x >>= reply_handle)
        (dll_add_driver_object_lem s.driver a whole)
open-seen p deleting a whole s parameter =
    deleted-seen app_objects (attached a) (destruct p deleting s.driver)
open-seen p deleting a whole s not_open =
    deleted-seen app_objects (attached a) (destruct p deleting s.driver)
open-seen p deleting a whole s fifo_full =
    deleted-seen app_objects (attached a) (destruct p deleting s.driver)
open-seen p deleting a whole s fifo_empty =
    deleted-seen app_objects (attached a) (destruct p deleting s.driver)
open-seen p deleting a whole s timeout =
    deleted-seen app_objects (attached a) (destruct p deleting s.driver)
open-seen p deleting a whole s generic =
    deleted-seen app_objects (attached a) (destruct p deleting s.driver)
open-seen p deleting a whole s init_fail =
    deleted-seen app_objects (attached a) (destruct p deleting s.driver)

pub opened-seen :
    (p : Platform) (deleting : Closing) (a : DllDrvObj) (x : Run (Session × Code))
    → IsWhole a
    → seen app_objects (x >>= λ r. windows_opened p deleting r (attached a))
      ≡ ((x >>= enter_opened p deleting (objects_of a)) >>= reply_handle)
opened-seen p deleting a (ok r) whole = open-seen p deleting a whole r.0 r.1
opened-seen p deleting a fault whole = refl
opened-seen p deleting a starved whole = refl

pub request-seen :
    (p : Platform) (c : Request) (app : App)
    → IsAttached app
    → seen app_objects (windows_request p c app) ≡ linux_request p c (app_objects app)
unfolding windows_request linux_request canal_open
request-seen p (through c) (attached a) h = through-seen p c a h
request-seen p (open_device o deleting level d device flags) (attached a) h =
    opened-seen p deleting a (can4vscp_open p o device flags (new_session d level)) h
request-seen p c null_app h = absurd h
request-seen p c (deleted a) h = absurd h
