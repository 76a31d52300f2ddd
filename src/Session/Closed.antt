-- ===== src/Session/Closed.antt =====
-- `close` of src/common/can4vscpobj.cpp returns, and what it leaves.
use vscpl1drv_can4vscp.Commands.Sent.{send_frame-fits}
use vscpl1drv_can4vscp.Prelude.{
  ℕ, ◌%◌, ◌^◌, ◌≡◌, ◌≢◌, ◌∙◌, ap, arith, Bool, true, false, not, Option, none, List, [], ◌∷◌,
  if◌then◌else◌, ◌*◌, length, ◌+◌, ◌≤◌, subst, sym,
}
use vscpl1drv_can4vscp.Platform.{Platform, Response}
use vscpl1drv_can4vscp.Driver.{Driver, Run, ok, fault, ◌>>=◌, success}
use vscpl1drv_can4vscp.Driver.Outcome.{total, bind-ne-fault, if-ne-fault, ok-ne-fault}
use vscpl1drv_can4vscp.Commands.{
  Poll, Polled, finish, go_on, then_on, wait_round, wait_loop, deadline_of, send_command,
  command_verdict, wait4_command_response, send_command_wait, send_data_size,
}
use vscpl1drv_can4vscp.Commands.Waiting.{Expires}
use vscpl1drv_can4vscp.Session.{command_close}
use vscpl1drv_can4vscp.Session.Progress.{send_command_wait-ne-starved}
use vscpl1drv_can4vscp.Session.Close.{Closing, wake, stop_running, close_port, shut, close}
use vscpl1drv_can4vscp.Session.Open.{start}

then_on-ne-fault :
    (next : Option Response → Driver → Run (Driver × Bool × Option Response))
    → ((got : Option Response) (d : Driver) → next got d ≢ fault)
    → (r : Polled) → then_on next r ≢ fault
then_on-ne-fault next h (finish d result got) = λ e. cc
then_on-ne-fault next h (go_on got d) = h got d

wait_loop-ne-fault :
    (p : Platform) (verdict : Response → Option Bool) (deadline : ℕ) (qs : List Poll)
    (got : Option Response) (d : Driver)
    → wait_loop p verdict deadline qs got d ≢ fault
unfolding wait_loop
wait_loop-ne-fault p verdict deadline [] got d = λ e. cc
wait_loop-ne-fault p verdict deadline (q ∷ qs) got d =
    then_on-ne-fault (wait_loop p verdict deadline qs)
      (λ g e. wait_loop-ne-fault p verdict deadline qs g e) (wait_round p verdict deadline q got d)

-- The parameters are few enough for the frame to fit in its array.
send_command-ne-fault :
    (p : Platform) (code : ℕ) (param : List ℕ) (d : Driver)
    → 2 * length param + 16 ≤ send_data_size
    → send_command p code param d ≢ fault
unfolding send_command
send_command-ne-fault p code param d short =
    let fits =
      send_frame-fits p p.frame_types.command ((length param + 1) % 2 ^ 8) (code ∷ param) d
        (omega arith) in
    subst (λ r. r ≢ fault) (sym fits) (ok-ne-fault _)

-- The same of the command with its wait.
pub send_command_wait-ne-fault :
    (p : Platform) (code : ℕ) (param : List ℕ) (start timeout : ℕ) (polls : List Poll)
    (msg : Option Response) (d : Driver)
    → 2 * length param + 16 ≤ send_data_size
    → send_command_wait p code param start timeout polls msg d ≢ fault
unfolding send_command_wait wait4_command_response
send_command_wait-ne-fault p code param start timeout polls msg d short =
    bind-ne-fault (send_command p code param d) _ (send_command-ne-fault p code param d short)
      (λ sent.
        if-ne-fault sent.1 _ _
          (wait_loop-ne-fault p (command_verdict p code d.sequencyno) (deadline_of start timeout)
            polls msg sent.0)
          (ok-ne-fault _))

close-running :
    (p : Platform) (c : Closing) (d : Driver)
    → d.running ≡ true
    → close p c d ≡ (
        send_command_wait p command_close [] c.wait.start 1000 c.wait.polls none d >>= λ r.
        ok (shut c r.0, success))
unfolding close
close-running p c d runs =
    let sent = send_command_wait p command_close [] c.wait.start 1000 c.wait.polls none d in
    ap (λ b. if not b then ok (d, success) else (sent >>= λ r. ok (shut c r.0, success))) runs

close-stopped :
    (p : Platform) (c : Closing) (d : Driver) → d.running ≡ false → close p c d ≡ ok (d, success)
unfolding close
close-stopped p c d stopped =
    let sent = send_command_wait p command_close [] c.wait.start 1000 c.wait.polls none d in
    ap (λ b. if not b then ok (d, success) else (sent >>= λ r. ok (shut c r.0, success))) stopped

close_port_flags :
    (d : Driver)
    → ((close_port d).running ≡ d.running)
      × ((close_port d).opened ≡ d.opened)
      × ((close_port d).port.is_open ≡ false)
close_port_flags d = ground arith

-- close of a running driver returns success with the driver neither running nor open and the port
-- closed, and a second close changes nothing. The clock reaches the deadline of the wait for the
-- answer at one of the polls, and the threads leave the two flags alone until they end.
pub close_lem :
    (p : Platform) (c : Closing) (d : Driver)
    → d.running ≡ true
    → ((e : Driver) → (c.joined e).running ≡ e.running)
    → ((e : Driver) → (c.joined e).opened ≡ e.opened)
    → Expires (deadline_of c.wait.start 1000) c.wait.polls
    → (r : Driver) × (close p c d ≡ ok (r, success))
      × (r.running ≡ false)
      × (r.opened ≡ false)
      × (r.port.is_open ≡ false)
      × ((c' : Closing) → close p c' r ≡ ok (r, success))
close_lem p c d runs keeps_running keeps_opened expires =
    let (sent, e) =
      total (send_command_wait p command_close [] c.wait.start 1000 c.wait.polls none d)
        (send_command_wait-ne-fault p command_close [] c.wait.start 1000 c.wait.polls none d
          (omega arith))
        (send_command_wait-ne-starved p command_close [] 1000 c.wait d expires) in
    let woken = wake (stop_running sent.0) in
    let (running, opened, port) = close_port_flags (c.joined woken) in
    let down = running ∙ keeps_running woken in
    (
      shut c sent.0,
      close-running p c d runs ∙ ap (λ r. r >>= λ x. ok (shut c x.0, success)) e,
      down,
      opened ∙ keeps_opened woken,
      port,
      λ c'. close-stopped p c' (shut c sent.0) down,
    )
