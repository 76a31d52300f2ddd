-- ===== src/Session/Outcome.antt =====
-- The outcomes of `open` and `close` of src/common/can4vscpobj.cpp.
use vscpl1drv_can4vscp.Prelude.{
  ℕ, ◌%◌, ◌^◌, ◌≡◌, ◌==◌, ◌∙◌, ◌⊎◌, refl, subst, sym, arith, Bool, inl, inr, true, false, not,
  Option, none, [], ◌∷◌, leb, length,
}
use vscpl1drv_can4vscp.Platform.{Platform}
use vscpl1drv_can4vscp.Driver.{
  Driver, Run, ok, Code, success, init_fail, has_flag, flag_timestamp, no_statistics,
}
use vscpl1drv_can4vscp.Driver.Outcome.{OnOk, OnOk-ok, bind-OnOk, if-OnOk}
use vscpl1drv_can4vscp.Commands.{send_command_wait, get_device_capabilities}
use vscpl1drv_can4vscp.Config.Text.{Bytes}
use vscpl1drv_can4vscp.Session.{
  config_step, mode_command, command_close, config_timestamp, config_baudrate, baudrate_115200,
}
use vscpl1drv_can4vscp.Session.Close.{Closing, wake, stop_running, close_port, shut, close}
use vscpl1drv_can4vscp.Session.Open.{
  Opening, Session, open_serial_interface, prepare, config_text, path_max, configure, switch_mode,
  start, handshake, checkpoint, set_mode, set_rate, set_timestamp, ask_capabilities, establish,
  when_open, can4vscp_open,
}
use vscpl1drv_can4vscp.Session.Flags.{
  Same, Keeps, AllKeep, SameAfter, SameWait, AllTriesKeep, send_command_wait-Same, config_step-Same,
  get_device_capabilities-Same, handshake-Same, switch_mode-Same,
}

-- Running and open, in a mode that is strict or not.
abbrev Up : Bool → Driver → Type 0
Up strict d = (d.running ≡ true) × (d.opened ≡ true) × (d.strict ≡ strict)

abbrev Down : Driver → Type 0
Down d = (d.running ≡ false) × (d.opened ≡ false)

-- Behind the start of the threads, the driver is up with success, or down with a failure in strict
-- mode.
abbrev Ended : Bool → Driver × Code → Type 0
Ended strict r =
    ((r.1 ≡ success) × Up strict r.0)
    ⊎ ((r.1 ≡ init_fail) × Down r.0 × (r.0.strict ≡ strict) × (strict ≡ true))

Up-Same : (strict : Bool) (d e : Driver) → Up strict d → Same d e → Up strict e
Up-Same strict d e u s = (s.0 ∙ u.0, s.1 ∙ u.1, s.2 ∙ u.2)

-- The other threads leave the flags alone in close.
abbrev pub ClosingKeeps : Closing → Type 0
ClosingKeeps c = AllKeep c.wait.polls × Keeps c.joined

close_port-Same : (d : Driver) → Same d (close_port d)
close_port-Same d = ground arith

shut-Down :
    (c : Closing) (d : Driver) → Keeps c.joined → Down (shut c d) × ((shut c d).strict ≡ d.strict)
shut-Down c d k =
    let e = wake (stop_running d) in
    let (r, o, s) = k e in
    let (r', o', s') = close_port-Same (c.joined e) in ((r' ∙ r, o' ∙ o), s' ∙ s)

-- What `close` of a running driver gives back.
abbrev Closed : Driver → Driver × Code → Type 0
Closed d r = (r.1 ≡ success) × Down r.0 × (r.0.strict ≡ d.strict)

close-Closed :
    (p : Platform) (c : Closing) (d : Driver)
    → ClosingKeeps c
    → d.running ≡ true
    → OnOk (Closed d) (close p c d)
unfolding close
close-Closed p c d k runs =
    if-OnOk (Closed d) (not d.running) _ _ (λ stopped. absurd (grind (arith, stopped, runs)))
      (λ e.
        bind-OnOk (SameWait d) (Closed d)
          (send_command_wait p command_close [] c.wait.start 1000 c.wait.polls none d) _
          (send_command_wait-Same p command_close [] c.wait.start 1000 c.wait.polls none d k.0)
          (λ r same. let h = shut-Down c r.0 k.1 in (refl, h.0, h.1 ∙ same.2)))

checkpoint-Ended :
    (p : Platform) (c : Closing) (done strict : Bool) (next : Driver → Run (Driver × Code))
    (d : Driver)
    → ClosingKeeps c
    → Up strict d
    → OnOk (Ended strict) (next d)
    → OnOk (Ended strict) (checkpoint p c done next d)
unfolding checkpoint
checkpoint-Ended p c done strict next d k up later =
    if-OnOk (Ended strict) done _ _ (λ e. later)
      (λ e.
        if-OnOk (Ended strict) d.strict _ _
          (λ s.
            bind-OnOk (Closed d) (Ended strict) (close p c d) _ (close-Closed p c d k up.0)
              (λ r h. inr (refl, h.1, h.2 ∙ up.2, sym up.2 ∙ s)))
          (λ s. later))

-- The other threads leave the flags alone in all the waits of open.
abbrev pub OpeningKeeps : Opening → Type 0
OpeningKeeps o =
    AllTriesKeep (o.first ∷ o.second ∷ o.third ∷ [])
    × AllKeep o.caps_wait.polls
    × AllKeep o.timestamp_wait.polls
    × AllKeep o.baudrate_wait.polls
    × AllKeep o.mode_wait.polls
    × ClosingKeeps o.closing

module _ (p : Platform) (o : Opening) (k : OpeningKeeps o) (strict : Bool) where
  set_mode-Ended : (d : Driver) → Up strict d → OnOk (Ended strict) (set_mode p o d)
  set_mode-Ended d up =
      bind-OnOk (SameWait d) (Ended strict)
        (send_command_wait p (mode_command d) [] o.mode_wait.start 1000 o.mode_wait.polls none d) _
        (send_command_wait-Same p (mode_command d) [] o.mode_wait.start 1000 o.mode_wait.polls none
          d k.4)
        (λ r same.
          let up' = Up-Same strict d r.0 up same in
          checkpoint-Ended p o.closing r.1 strict (λ e. ok (e, success)) r.0 k.5 up'
            (inl (refl, up')))

  set_rate-Ended : (d : Driver) → Up strict d → OnOk (Ended strict) (set_rate p o d)
  set_rate-Ended d up =
      let rate = not (d.baud == baudrate_115200) in
      bind-OnOk (SameAfter d) (Ended strict)
        (config_step p rate config_baudrate (d.baud % 2 ^ 8) o.baudrate_wait d) _
        (config_step-Same p rate config_baudrate (d.baud % 2 ^ 8) o.baudrate_wait d k.3)
        (λ r same.
          let up' = Up-Same strict d r.0 up same in
          checkpoint-Ended p o.closing r.1 strict (set_mode p o) r.0 k.5 up'
            (set_mode-Ended r.0 up'))

  set_timestamp-Ended : (d : Driver) → Up strict d → OnOk (Ended strict) (set_timestamp p o d)
  set_timestamp-Ended d up =
      bind-OnOk (SameAfter d) (Ended strict)
        (config_step p (has_flag d flag_timestamp) config_timestamp 1 o.timestamp_wait d) _
        (config_step-Same p (has_flag d flag_timestamp) config_timestamp 1 o.timestamp_wait d k.2)
        (λ r same.
          let up' = Up-Same strict d r.0 up same in
          checkpoint-Ended p o.closing r.1 strict (set_rate p o) r.0 k.5 up'
            (set_rate-Ended r.0 up'))

  ask_capabilities-Ended : (d : Driver) → Up strict d → OnOk (Ended strict) (ask_capabilities p o d)
  ask_capabilities-Ended d up =
      let d' = record d { opened = true } in
      bind-OnOk (SameAfter d') (Ended strict)
        (get_device_capabilities p o.caps_wait.start o.caps_wait.polls d') _
        (get_device_capabilities-Same p o.caps_wait.start o.caps_wait.polls d' k.1)
        (λ r same. set_timestamp-Ended r.0 (Up-Same strict d' r.0 (up.0, refl, up.2) same))

  establish-Ended : (d : Driver) → d.strict ≡ strict → OnOk (Ended strict) (establish p o d)
  unfolding establish
  establish-Ended d s =
      let cleared = record d { stat = no_statistics } in
      let started = start (switch_mode cleared) in
      let up : Up strict started = (refl, refl, (switch_mode-Same cleared).2 ∙ s) in
      bind-OnOk (SameAfter started) (Ended strict)
        (handshake p (o.first ∷ o.second ∷ o.third ∷ []) started) _
        (handshake-Same p (o.first ∷ o.second ∷ o.third ∷ []) started k.0)
        (λ r same.
          let up' = Up-Same strict started r.0 up same in
          checkpoint-Ended p o.closing r.1 strict (ask_capabilities p o) r.0 k.5 up'
            (ask_capabilities-Ended r.0 up'))

-- How `open` of a driver that is down ends: up with success, or down with a failure, which is the
-- port's or that of a step in strict mode.
abbrev pub Result : Opening → Session × Code → Type 0
Result o r =
    ((r.1 ≡ success) × (r.0.driver.running ≡ true) × (r.0.driver.opened ≡ true))
    ⊎ ((r.1 ≡ init_fail)
        × (r.0.driver.running ≡ false)
        × (r.0.driver.opened ≡ false)
        × ((o.opens ≡ false) ⊎ (r.0.driver.strict ≡ true)))

open_serial_interface-cases :
    (o : Opening) (s : Session)
    → (((open_serial_interface o s).1 ≡ success)
        × Same s.driver (open_serial_interface o s).0.driver)
      ⊎ (((open_serial_interface o s).1 ≡ init_fail)
          × (o.opens ≡ false)
          × Same s.driver (open_serial_interface o s).0.driver)
unfolding open_serial_interface
open_serial_interface-cases o s = ground arith

Ended-Result :
    (o : Opening) (strict : Bool) (s : Session) (r : Driver × Code)
    → Ended strict r
    → Result o (record s { driver = r.0 }, r.1)
Ended-Result o strict s r (inl (e, up)) = inl (e, up.0, up.1)
Ended-Result o strict s r (inr (e, down, kept, st)) = inr (e, down.0, down.1, inr (kept ∙ st))

when_open-Result :
    (p : Platform) (o : Opening) (s : Session)
    → OpeningKeeps o
    → s.driver.running ≡ false
    → s.driver.opened ≡ false
    → OnOk (Result o) (when_open p o (open_serial_interface o s))
when_open-Result p o s k not_running not_open = elim (open_serial_interface-cases o s) [
  | inl (e, same) ↦
      let s' = (open_serial_interface o s).0 in
      let strict = s'.driver.strict in
      subst (λ c. OnOk (Result o) (when_open p o (s', c))) (sym e)
        (bind-OnOk (Ended strict) (Result o) (establish p o s'.driver) _
          (establish-Ended p o k strict s'.driver refl) (λ r h. Ended-Result o strict s' r h))
  | inr (e, fails, same) ↦
      let s' = (open_serial_interface o s).0 in
      subst (λ c. OnOk (Result o) (when_open p o (s', c))) (sym e)
        (inr (refl, same.0 ∙ not_running, same.1 ∙ not_open, inl fails))
]

pub can4vscp_open-Result :
    (p : Platform) (o : Opening) (config : Option Bytes) (flags : ℕ) (s : Session)
    → OpeningKeeps o
    → s.driver.running ≡ false
    → s.driver.opened ≡ false
    → OnOk (Result o) (can4vscp_open p o config flags s)
unfolding can4vscp_open configure prepare
can4vscp_open-Result p o config flags s k not_running not_open =
    if-OnOk (Result o) s.driver.running _ _ (λ runs. absurd (grind (arith, runs, not_running)))
      (λ f.
        if-OnOk (Result o) (leb path_max (length (config_text config))) _ _ (λ g. tt)
          (λ g. when_open-Result p o _ k not_running not_open))

-- Where open of a driver that is neither running nor open returns, it has one of two outcomes:
-- success, with the driver running and open, or an initialization failure, with the driver neither
-- running nor open, and this only if the port does not open or the driver is in strict mode. The
-- other threads leave the three flags alone while open waits.
pub can4vscp_open-outcome :
    (p : Platform) (o : Opening) (config : Option Bytes) (flags : ℕ) (s s' : Session) (code : Code)
    → OpeningKeeps o
    → s.driver.running ≡ false
    → s.driver.opened ≡ false
    → can4vscp_open p o config flags s ≡ ok (s', code)
    → ((code ≡ success) × (s'.driver.running ≡ true) × (s'.driver.opened ≡ true))
      ⊎ ((code ≡ init_fail)
          × (s'.driver.running ≡ false)
          × (s'.driver.opened ≡ false)
          × ((o.opens ≡ false) ⊎ (s'.driver.strict ≡ true)))
can4vscp_open-outcome p o config flags s s' code k not_running not_open e =
    OnOk-ok (Result o) (can4vscp_open p o config flags s) (s', code)
      (can4vscp_open-Result p o config flags s k not_running not_open) e
