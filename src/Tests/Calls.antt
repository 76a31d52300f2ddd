-- ===== src/Tests/Calls.antt =====
-- Sequences of calls on the two tables of driver objects.
use vscpl1drv_can4vscp.Prelude.{ℕ, Option, ◌≡◌, refl, some, none, List, [], ◌∷◌, false}
use vscpl1drv_can4vscp.Driver.{Driver, ok, fault, ◌>>=◌}
use vscpl1drv_can4vscp.Handles.{
  pos, Table, no_objects, set_object, get_driver_object, canal_send, canal_receive, canal_set_mask,
  on_object,
}
use vscpl1drv_can4vscp.Calls.{
  opened_as, send, receive, mask, Reply, Call, Request, open_device, through, linux_run, linux_op,
  run_calls, linux_request,
}
use vscpl1drv_can4vscp.Calls.Objects.{object_op}
use vscpl1drv_can4vscp.Calls.Isolation.{ops_of, replies_of}
use vscpl1drv_can4vscp.Calls.Linux.{linux_run-own}
use vscpl1drv_can4vscp.Calls.Simulation.{seen}
use vscpl1drv_can4vscp.Dll.{DllDrvObj, new_dll_drv_obj, set_driver_object}
use vscpl1drv_can4vscp.Windows.{
  App, null_app, attached, deleted, process_attach, process_detach, dll_main, windows_request,
}
use vscpl1drv_can4vscp.Windows.Shown.{app_objects}
use vscpl1drv_can4vscp.Windows.Laws.{attached_lem, deleted_lem}
use vscpl1drv_can4vscp.Tests.Example.{example_platform, open_driver}
use vscpl1drv_can4vscp.Tests.Queues.{message}
use vscpl1drv_can4vscp.Tests.Session.{answered, closing, new_driver}
use vscpl1drv_can4vscp.Session.Open.{Opening}
use vscpl1drv_can4vscp.Driver.{flag_strict}
use vscpl1drv_can4vscp.Session.Close.{Closing}
use vscpl1drv_can4vscp.Config.{Level, info}
use vscpl1drv_can4vscp.Config.Text.{Bytes}

abbrev two_objects : Table
two_objects = set_object (set_object no_objects 0 (some open_driver)) 1 (some open_driver)

abbrev calls : List Call
calls =
    record { handle = pos 1681; op = send (some message) }
    ∷ record { handle = pos 1682; op = mask 7 }
    ∷ record { handle = pos 1681; op = receive false }
    ∷ []

abbrev after_calls : Table × List Reply
unfolding linux_op canal_send canal_receive canal_set_mask on_object run_calls
after_calls = elim (linux_run example_platform calls two_objects) [
  | ok r ↦ r
  | _ ↦ (no_objects, [])
]

linux_run-own_example :
    run_calls
      (object_op example_platform)
      (ops_of (pos 1681) calls)
      (get_driver_object two_objects (pos 1681))
    ≡ ok (get_driver_object after_calls.0 (pos 1681), replies_of (pos 1681) calls after_calls.1)
unfolding after_calls linux_op canal_send canal_receive canal_set_mask on_object run_calls
linux_run-own_example =
    linux_run-own example_platform (pos 1681) calls two_objects after_calls.0 after_calls.1 refl

-- The device is opened, and a message sent through the handle.
abbrev requests : List Request
requests =
    open_device answered closing info new_driver none flag_strict
    ∷ through record { handle = pos 1681; op = send (some message) }
    ∷ []

attached_example :
    (dll_main process_attach null_app >>= λ started.
    seen app_objects (run_calls (windows_request example_platform) requests started))
    ≡ run_calls (linux_request example_platform) requests no_objects
attached_example = attached_lem example_platform requests null_app

abbrev one_slot : DllDrvObj
one_slot = set_driver_object (pos 1681) new_dll_drv_obj (some open_driver)

deleted_example :
    (dll_main process_detach (attached one_slot) ≡ ok (deleted one_slot))
    × (dll_main process_detach (deleted one_slot) ≡ fault)
    × ((c : Call) → windows_request example_platform (through c) (deleted one_slot) ≡ fault)
    × ((o : Opening) (deleting : Closing) (level : Level) (d : Driver) (device : Option Bytes)
          (flags : ℕ) (r : App × Reply)
        → windows_request example_platform
            (open_device o deleting level d device flags)
            (deleted one_slot)
          ≡ ok r
        → r ≡ (deleted one_slot, opened_as 0))
deleted_example = deleted_lem example_platform one_slot
