-- ===== src/Session/Flags.antt =====
-- The flags `m_bRun`, `m_bOpen` and `m_bStrict` of src/common/can4vscpobj.cpp in the operations that
-- send commands and wait.
use vscpl1drv_can4vscp.Prelude.{ℕ, ◌≡◌, ◌∙◌, refl, arith, Bool, Option, none, List, [], ◌∷◌, ltb}
use vscpl1drv_can4vscp.Platform.{Platform, Response}
use vscpl1drv_can4vscp.Driver.{Driver, ◌>>=◌}
use vscpl1drv_can4vscp.Driver.Outcome.{OnOk, bind-OnOk, if-OnOk, test-OnOk}
use vscpl1drv_can4vscp.Commands.{
  Poll, deadline_of, send_frame, send_command_wait, take_caps, caps_loop, get_device_capabilities,
}
use vscpl1drv_can4vscp.Session.{Waiting, config_step, command_noop}
use vscpl1drv_can4vscp.Session.Keeping.{
  Keeping, AllKeepRel, weaken, send_frame-Rel, send_command_wait-Rel, config_step-Rel,
}
use vscpl1drv_can4vscp.Session.Open.{Attempt, handshake, switch_mode}

abbrev pub Same : Driver → Driver → Type 0
Same d e = (e.running ≡ d.running) × (e.opened ≡ d.opened) × (e.strict ≡ d.strict)

pub Same-trans : (a b c : Driver) → Same a b → Same b c → Same a c
Same-trans a b c h k = (k.0 ∙ h.0, k.1 ∙ h.1, k.2 ∙ h.2)

abbrev pub flags_keeping : (p : Platform) → Keeping p
flags_keeping p = record {
  Rel = Same;
  quiet = λ d e q. (q.running, q.opened, q.strict);
  trans = Same-trans;
  take_response = λ d r rs e. (refl, refl, refl);
  empty_responses = λ d. (refl, refl, refl);
}

-- What other threads do leaves the flags as they are.
abbrev pub Keeps : (Driver → Driver) → Type 0
Keeps f = (d : Driver) → Same d (f d)

abbrev pub AllKeep : List Poll → Type 0
AllKeep qs = AllKeepRel Same qs

-- Of the driver that an operation on `d` gives back.
abbrev pub SameAfter : Driver → Driver × Bool → Type 0
SameAfter d r = Same d r.0

-- The same of the operations that also give back a response.
abbrev pub SameWait : Driver → Driver × Bool × Option Response → Type 0
SameWait d r = Same d r.0

module _ (p : Platform) where
  pub send_command_wait-Same :
      (code : ℕ) (param : List ℕ) (start timeout : ℕ) (polls : List Poll) (msg : Option Response)
      (d : Driver)
      → AllKeep polls
      → OnOk (SameWait d) (send_command_wait p code param start timeout polls msg d)
  send_command_wait-Same code param start timeout polls msg d k =
      send_command_wait-Rel p (flags_keeping p) code param start timeout polls msg d k

  pub config_step-Same :
      (wanted : Bool) (code conf : ℕ) (w : Waiting) (d : Driver)
      → AllKeep w.polls
      → OnOk (SameAfter d) (config_step p wanted code conf w d)
  config_step-Same wanted code conf w d k =
      config_step-Rel p (flags_keeping p) wanted code conf w d k

  take_caps-Same :
      (saveseq : ℕ) (r : Response) (d : Driver) → OnOk (Same d) (take_caps p saveseq r d)
  unfolding take_caps
  take_caps-Same saveseq r d = ground arith

  caps_loop-Same :
      (saveseq deadline : ℕ) (polls : List Poll) (d : Driver)
      → AllKeep polls
      → OnOk (Same d) (caps_loop p saveseq deadline polls d)
  unfolding caps_loop
  caps_loop-Same saveseq deadline [] d k = tt
  caps_loop-Same saveseq deadline (q ∷ qs) d k =
      test-OnOk (Same d) (ltb q.now deadline) _ _ (refl, refl, refl)
        (on (q.others d) (q.others d).response_list (k.0 d)
          (λ a. caps_loop-Same saveseq deadline qs a k.1))
    where
      on :
          (e : Driver) (rs : List Response)
          → Same d e
          → ((a : Driver) → OnOk (Same a) (caps_loop p saveseq deadline qs a))
          → OnOk (Same d) (elim rs [
            | [] ↦ caps_loop p saveseq deadline qs e
            | r ∷ rest ↦
                take_caps p saveseq r
                  (record e { response_list = p.responses.remove_head e.response_list })
                >>= caps_loop p saveseq deadline qs
          ])
      on e [] h later =
          weaken p (flags_keeping p) (λ x. x) d e (caps_loop p saveseq deadline qs e) h (later e)
      on e (r ∷ rest) h later =
          let e' = record e { response_list = p.responses.remove_head e.response_list } in
          bind-OnOk (Same e') (Same d) (take_caps p saveseq r e') (caps_loop p saveseq deadline qs)
            (take_caps-Same saveseq r e')
            (λ a same.
              weaken p (flags_keeping p) (λ x. x) d a (caps_loop p saveseq deadline qs a)
                (Same-trans d e' a h same) (later a))

  pub get_device_capabilities-Same :
      (start : ℕ) (polls : List Poll) (d : Driver)
      → AllKeep polls
      → OnOk (SameAfter d) (get_device_capabilities p start polls d)
  unfolding get_device_capabilities
  get_device_capabilities-Same start polls d k =
      bind-OnOk (SameAfter d) (SameAfter d)
        (send_frame p p.frame_types.caps_request 2 (1 ∷ 10 ∷ []) d) _
        (send_frame-Rel p (flags_keeping p) p.frame_types.caps_request 2 (1 ∷ 10 ∷ []) d)
        (λ sent h.
          if-OnOk (SameAfter d) sent.1 _ _
            (λ e.
              bind-OnOk (Same d) (SameAfter d)
                (caps_loop p d.sequencyno (deadline_of start 500) polls sent.0) _
                (weaken p (flags_keeping p) (λ x. x) d sent.0 _ h
                  (caps_loop-Same d.sequencyno (deadline_of start 500) polls sent.0 k))
                (λ a same. same))
            (λ e. h))

abbrev pub AllTriesKeep : List Attempt → Type 0
AllTriesKeep [] = Unit {0}
AllTriesKeep (a ∷ rest) = AllKeep a.wait.polls × Keeps a.sleep × AllTriesKeep rest

pub handshake-Same :
    (p : Platform) (tries : List Attempt) (d : Driver)
    → AllTriesKeep tries
    → OnOk (SameAfter d) (handshake p tries d)
unfolding handshake
handshake-Same p [] d k = (refl, refl, refl)
handshake-Same p (a ∷ rest) d k =
    bind-OnOk (SameWait d) (SameAfter d)
      (send_command_wait p command_noop [] a.wait.start 500 a.wait.polls none d) _
      (send_command_wait-Same p command_noop [] a.wait.start 500 a.wait.polls none d k.0)
      (λ r same.
        if-OnOk (SameAfter d) r.1 _ _ (λ e. same)
          (λ e.
            weaken p (flags_keeping p) (λ x. x.0) d (a.sleep r.0) _
              (Same-trans d r.0 (a.sleep r.0) same (k.1 r.0))
              (handshake-Same p rest (a.sleep r.0) k.2)))

pub switch_mode-Same : (d : Driver) → Same d (switch_mode d)
unfolding switch_mode
switch_mode-Same d = ground arith
