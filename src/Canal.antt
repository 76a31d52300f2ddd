-- ===== src/Canal.antt =====
-- src/linux/vscpl1drv-can4vscp.cpp: `CanalOpen` and `CanalClose`, with the object that they make and
-- delete. `new` does not return NULL.
pub mod Laws
use vscpl1drv_can4vscp.Prelude.{ℕ, ◌==◌, Option, none, some, Bool, true, false, if◌then◌else◌}
use vscpl1drv_can4vscp.Platform.{Platform}
use vscpl1drv_can4vscp.Driver.{Driver, Run, ok, ◌>>=◌, Code, success}
use vscpl1drv_can4vscp.Config.{Level}
use vscpl1drv_can4vscp.Config.Text.{Bytes, codes}
use vscpl1drv_can4vscp.Session.Close.{Closing, close, destruct}
use vscpl1drv_can4vscp.Session.Open.{Opening, Session, can4vscp_open}
use vscpl1drv_can4vscp.Handles.{
  ℤ, Table, add_driver_object, get_driver_object, remove_driver_object,
}

-- A new object, in a process with a level for the system log.
abbrev pub new_session : Driver → Level → Session
new_session d level = record {
  driver = d;
  device_name = codes "/dev/ttyUSB0";
  syslog_level = level;
  settings = none;
}

-- The object goes to the table, or is deleted where the table is full.
unfoldable pub enter : Platform → Closing → Table → Driver → Run (Table × ℕ)
enter p deleting t d =
    let added = add_driver_object d t in
    if added.1 == 0 then destruct p deleting d >>= (λ gone. ok (added.0, 0)) else ok added

abbrev pub enter_opened : Platform → Closing → Table → Session × Code → Run (Table × ℕ)
enter_opened p deleting t (s, success) = enter p deleting t s.driver
enter_opened p deleting t (s, code) = destruct p deleting s.driver >>= λ gone. ok (t, 0)

-- With a new object `d`, and the wait of `close` where the object is deleted again.
unfoldable pub canal_open :
    Platform → Opening → Closing → Level → Driver → Option Bytes → ℕ → Table → Run (Table × ℕ)
canal_open p o deleting level d device flags t =
    can4vscp_open p o device flags (new_session d level) >>= enter_opened p deleting t

abbrev pub close_found :
    Platform → Closing → Closing → ℤ → Table → Option Driver → Run (Table × Code)
close_found p c deleting h t none = ok (t, success)
close_found p c deleting h t (some d) = do
  (closed, code) ← close p c d
  gone ← destruct p deleting closed
  ok (remove_driver_object h t, success)

-- With the waits of the two calls of `close`.
unfoldable pub canal_close : Platform → Closing → Closing → ℤ → Table → Run (Table × Code)
canal_close p c deleting h t = close_found p c deleting h t (get_driver_object t h)
