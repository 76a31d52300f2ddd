-- ===== src/Tests/Handles.antt =====
-- The table of driver objects.
use vscpl1drv_can4vscp.Prelude.{◌≡◌, some, []}
use vscpl1drv_can4vscp.Handles.{Table, no_objects, set_object, destroy}
use vscpl1drv_can4vscp.Handles.Laws.{destroy_lem}
use vscpl1drv_can4vscp.Tests.Example.{open_driver}

abbrev one_object : Table
one_object = set_object no_objects 0 (some open_driver)

destroy_example : destroy one_object ≡ (one_object, [])
destroy_example = destroy_lem one_object
