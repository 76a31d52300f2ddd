-- ===== src/Session/Strict.antt =====
-- Strict mode of `open` of src/common/can4vscpobj.cpp.
use vscpl1drv_can4vscp.Prelude.{◌≡◌, ◌∙◌, refl, sym, ap, Bool, true, false, [], ◌∷◌, if◌then◌else◌}
use vscpl1drv_can4vscp.Platform.{Platform}
use vscpl1drv_can4vscp.Driver.{
  Driver, Run, ok, fault, starved, ◌>>=◌, Code, success, init_fail, no_statistics,
}
use vscpl1drv_can4vscp.Driver.Outcome.{OnOk}
use vscpl1drv_can4vscp.Session.Close.{Closing, close}
use vscpl1drv_can4vscp.Session.Open.{
  Opening, switch_mode, start, handshake, checkpoint, ask_capabilities, establish,
}
use vscpl1drv_can4vscp.Session.Flags.{SameAfter, handshake-Same, switch_mode-Same}
use vscpl1drv_can4vscp.Session.Answered.{NoopAnswered, handshake-NoopAnswered}
use vscpl1drv_can4vscp.Session.Outcome.{OpeningKeeps}

abbrev give_up : Driver × Code → Run (Driver × Code)
give_up r = ok (r.0, init_fail)

give_up-fails : (r : Run (Driver × Code)) (e : Driver) → (r >>= give_up) ≡ ok (e, success) → ⊥
give_up-fails (ok r) e h = cc
give_up-fails fault e h = cc
give_up-fails starved e h = cc

-- A strict checkpoint that is passed with success has been reached with it.
checkpoint-strict :
    (p : Platform) (c : Closing) (next : Driver → Run (Driver × Code)) (a : Driver)
    (r : Run (Driver × Bool)) (e : Driver)
    → OnOk (SameAfter a) r
    → a.strict ≡ true
    → (◌>>=◌ {B = Driver × Code} r (λ x. checkpoint p c x.1 next x.0)) ≡ ok (e, success)
    → (d : Driver) × (r ≡ ok (d, true))
unfolding checkpoint
checkpoint-strict p c next a (ok (d, true)) e same s h = (d, refl)
checkpoint-strict p c next a (ok (d, false)) e same s h =
    let strict : d.strict ≡ true = same.2 ∙ s in
    let step : (if d.strict then (close p c d >>= give_up) else next d)
        ≡ (close p c d >>= give_up) =
      ap (λ b. if b then (close p c d >>= give_up) else next d) strict in
    absurd (give_up-fails (close p c d) e (sym step ∙ h))
checkpoint-strict p c next a fault e same s h = cc
checkpoint-strict p c next a starved e same s h = cc

-- In strict mode, with the port open, open succeeds only if one of the three NOOP commands, of
-- which those before it ended without an answer, was sent and answered: at a poll before its
-- deadline, the first response of the queue was a command reply with the sequence number of the
-- command and exactly two bytes of payload, 0 and the code of NOOP. The other threads leave the
-- three flags alone while open waits.
pub establish-found :
    (p : Platform) (o : Opening) (d e : Driver)
    → OpeningKeeps o
    → d.strict ≡ true
    → establish p o d ≡ ok (e, success)
    → NoopAnswered p
        (start (switch_mode (record d { stat = no_statistics })))
        (o.first ∷ o.second ∷ o.third ∷ [])
unfolding establish
establish-found p o d e k strict h =
    let cleared = record d { stat = no_statistics } in
    let ready = start (switch_mode cleared) in
    let tries = o.first ∷ o.second ∷ o.third ∷ [] in
    let (found, answered) =
      checkpoint-strict p o.closing (ask_capabilities p o) ready (handshake p tries ready) e
        (handshake-Same p tries ready k.0) ((switch_mode-Same cleared).2 ∙ strict) h in
    handshake-NoopAnswered p tries ready found answered
