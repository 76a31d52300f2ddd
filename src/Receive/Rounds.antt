-- ===== src/Receive/Rounds.antt =====
-- The loop of `workThreadReceive` (src/common/can4vscpobj.cpp).
use vscpl1drv_can4vscp.Prelude.{◌≡◌, ◌≢◌, refl, List, [], ◌∷◌}
use vscpl1drv_can4vscp.Rx.{Read}
use vscpl1drv_can4vscp.Platform.{Platform, IsFifo}
use vscpl1drv_can4vscp.Driver.{Driver, Run, ok, fault, starved}
use vscpl1drv_can4vscp.Driver.Outcome.{OnOk, bind-OnOk, if-OnOk, bind-ne-starved, if-ne-starved}
use vscpl1drv_can4vscp.Receive.{Look, receive_loop, read_serial_data}
use vscpl1drv_can4vscp.Receive.Invariant.{IsBounded, read_serial_data-IsBounded}
use vscpl1drv_can4vscp.Receive.Progress.{read_serial_data-ne-starved}

-- Every round ends.
pub receive_loop-ne-starved :
    (p : Platform) (ks : List Look) (d : Driver) → receive_loop p ks d ≢ starved
unfolding receive_loop
receive_loop-ne-starved p [] d = λ e. cc
receive_loop-ne-starved p (k ∷ ks) d =
    if-ne-starved d.running _ _
      (bind-ne-starved (read_serial_data p k.now k.clock k.reads d) (λ r. receive_loop p ks r.0)
        (read_serial_data-ne-starved p k.now k.clock k.reads d)
        (λ r. receive_loop-ne-starved p ks r.0))
      (λ e. cc)

abbrev BoundedRead : Driver × List Read → Type 0
BoundedRead r = IsBounded r.0

-- Where the rounds return, the queues are within their bounds, if they were before.
pub receive_loop-IsBounded :
    (p : Platform) (messages : IsFifo p.messages) (responses : IsFifo p.responses) (ks : List Look)
    (d : Driver)
    → IsBounded d
    → OnOk IsBounded (receive_loop p ks d)
unfolding receive_loop
receive_loop-IsBounded p messages responses [] d v = v
receive_loop-IsBounded p messages responses (k ∷ ks) d v =
    if-OnOk IsBounded d.running _ _
      (λ e.
        bind-OnOk BoundedRead IsBounded (read_serial_data p k.now k.clock k.reads d)
          (λ r. receive_loop p ks r.0) (on (read_serial_data p k.now k.clock k.reads d) refl)
          (λ r w. receive_loop-IsBounded p messages responses ks r.0 w))
      (λ e. v)
  where
    on :
        (r : Run (Driver × List Read))
        → read_serial_data p k.now k.clock k.reads d ≡ r
        → OnOk BoundedRead r
    on (ok (e, left)) run =
        read_serial_data-IsBounded p messages responses k.now k.clock k.reads left d e v run
    on fault run = tt
    on starved run = tt
