-- ===== src/Session/Keeping.antt =====
-- What the operations of src/common/can4vscpobj.cpp that send commands and wait keep, for any
-- relation that the other threads keep and that does not look at more than the flags of the session,
-- the receive state, the queues and the counters of the transmit queue.
use vscpl1drv_can4vscp.Prelude.{
  length, ◌%◌, ◌^◌, ℕ, ◌+◌, ◌≡◌, refl, arith, Bool, Bool-cases, inl, inr, Option, none, some, List,
  [], ◌∷◌, ltb,
}
use vscpl1drv_can4vscp.Platform.{Platform, Response}
use vscpl1drv_can4vscp.Driver.{Driver, Run, ok, fault, starved}
use vscpl1drv_can4vscp.Driver.Outcome.{OnOk, bind-OnOk, if-OnOk}
use vscpl1drv_can4vscp.Serial.{send_msg, frame_bytes}
use vscpl1drv_can4vscp.Commands.{
  Poll, Polled, finish, go_on, judge, take_response, then_on, wait_round, wait_loop, deadline_of,
  send_data_size, post_frame, send_frame, send_command, send_command_wait, send_config_wait,
  wait4_command_response, command_verdict,
}
use vscpl1drv_can4vscp.Session.{Waiting, config_step}

-- The flags, the queues, the receive state and the counters of the transmit queue are the same.
pub record Quiet (d e : Driver) : Type 0 where
  pub running : e.running ≡ d.running
  pub opened : e.opened ≡ d.opened
  pub strict : e.strict ≡ d.strict
  pub transmit_list : e.transmit_list ≡ d.transmit_list
  pub receive_list : e.receive_list ≡ d.receive_list
  pub response_list : e.response_list ≡ d.response_list
  pub rx : e.rx ≡ d.rx
  pub transmit_data : e.stat.transmit_data ≡ d.stat.transmit_data
  pub transmit_frames : e.stat.transmit_frames ≡ d.stat.transmit_frames
  pub transmit_data_put_sem : e.transmit_data_put_sem ≡ d.transmit_data_put_sem

abbrev pub same_quiet : (d : Driver) → Quiet d d
same_quiet d = record {
  running = refl;
  opened = refl;
  strict = refl;
  transmit_list = refl;
  receive_list = refl;
  response_list = refl;
  rx = refl;
  transmit_data = refl;
  transmit_frames = refl;
  transmit_data_put_sem = refl;
}

-- A relation between an object and the object later on, which is kept where the response queue
-- loses its first response or all of them.
pub record Keeping (p : Platform) : Type 1 where
  pub Rel : Driver → Driver → Type 0
  pub quiet : (d e : Driver) → Quiet d e → Rel d e
  pub trans : (a b c : Driver) → Rel a b → Rel b c → Rel a c
  pub take_response :
      (d : Driver) (r : Response) (rs : List Response)
      → d.response_list ≡ r ∷ rs
      → Rel d (record d { response_list = p.responses.remove_head d.response_list })
  pub empty_responses :
      (d : Driver)
      → Rel d (record d { response_list = p.responses.remove_all_nodes d.response_list })

pub send_msg-Quiet : (p : Platform) (bytes : List ℕ) (d : Driver) → Quiet d (send_msg p bytes d).0
unfolding send_msg
send_msg-Quiet p bytes d = ground arith

-- What other threads do keeps a relation.
abbrev pub KeepsRel : (Driver → Driver → Type 0) → (Driver → Driver) → Type 0
KeepsRel Rel f = (d : Driver) → Rel d (f d)

abbrev pub AllKeepRel : (Driver → Driver → Type 0) → List Poll → Type 0
AllKeepRel Rel [] = Unit {0}
AllKeepRel Rel (q ∷ qs) = KeepsRel Rel q.others × AllKeepRel Rel qs

module _ (p : Platform) (K : Keeping p) where
  -- Of the object that an operation on `d` gives back.
  abbrev pub RelAfter : Driver → Driver × Bool → Type 0
  RelAfter d r = K.Rel d r.0

  abbrev pub RelWait : Driver → Driver × Bool × Option Response → Type 0
  RelWait d r = K.Rel d r.0

  abbrev RelPolled : Driver → Polled → Type 0
  RelPolled d (finish e result got) = K.Rel d e
  RelPolled d (go_on got e) = K.Rel d e

  pub same-Rel : (d : Driver) → K.Rel d d
  same-Rel d = K.quiet d d (same_quiet d)

  pub weaken {ℓ} :
      {A : Type ℓ} (driver : A → Driver) (a b : Driver) (r : Run A)
      → K.Rel a b
      → OnOk (λ x. K.Rel b (driver x)) r
      → OnOk (λ x. K.Rel a (driver x)) r
  weaken driver a b (ok r) h k = K.trans a b (driver r) h k
  weaken driver a b fault h k = tt
  weaken driver a b starved h k = tt

  judge-Rel :
      (d e : Driver) (r : Response) (o : Option Bool) → K.Rel d e → RelPolled d (judge e r o)
  judge-Rel d e r (some result) h = h
  judge-Rel d e r none h = h

module _ (p : Platform) (K : Keeping p) (verdict : Response → Option Bool) (deadline : ℕ) where
  take_response-Rel :
      (d e : Driver) (got : Option Response) (rs : List Response)
      → e.response_list ≡ rs
      → K.Rel d e
      → RelPolled p K d (take_response p verdict got e rs)
  take_response-Rel d e got [] same h = h
  take_response-Rel d e got (r ∷ rs) same h =
      let e' = record e { response_list = p.responses.remove_head e.response_list } in
      judge-Rel p K d e' r (verdict r) (K.trans d e e' h (K.take_response e r rs same))

  wait_round-Rel :
      (q : Poll) (got : Option Response) (d : Driver)
      → KeepsRel K.Rel q.others
      → RelPolled p K d (wait_round p verdict deadline q got d)
  unfolding wait_round
  wait_round-Rel q got d k = elim (Bool-cases (ltb q.now deadline)) [
    | inl early ↦
        rw early (take_response-Rel d (q.others d) got (q.others d).response_list refl (k d))
    | inr late ↦ rw late (same-Rel p K d)
  ]

  then_on-Rel :
      (next : Option Response → Driver → Run (Driver × Bool × Option Response)) (d : Driver)
      (r : Polled)
      → RelPolled p K d r
      → ((g : Option Response) (e : Driver) → OnOk (RelWait p K e) (next g e))
      → OnOk (RelWait p K d) (then_on next r)
  then_on-Rel next d (finish e result g) h later = h
  then_on-Rel next d (go_on g e) h later = weaken p K (λ r. r.0) d e (next g e) h (later g e)

  wait_loop-Rel :
      (qs : List Poll) (got : Option Response) (d : Driver)
      → AllKeepRel K.Rel qs
      → OnOk (RelWait p K d) (wait_loop p verdict deadline qs got d)
  unfolding wait_loop
  wait_loop-Rel [] got d k = tt
  wait_loop-Rel (q ∷ qs) got d k =
      then_on-Rel (wait_loop p verdict deadline qs) d (wait_round p verdict deadline q got d)
        (wait_round-Rel q got d k.0) (λ g e. wait_loop-Rel qs g e k.1)

module _ (p : Platform) (K : Keeping p) where
  post_frame-Rel : (wire : List ℕ) (d : Driver) → K.Rel d (post_frame p wire d).0
  unfolding post_frame send_msg
  post_frame-Rel wire d =
      let emptied = record d { response_list = p.responses.remove_all_nodes d.response_list } in
      K.trans d emptied (post_frame p wire d).0 (K.empty_responses d)
        (K.quiet emptied (post_frame p wire d).0 (ground arith))

  pub send_frame-Rel :
      (frame_type declared : ℕ) (payload : List ℕ) (d : Driver)
      → OnOk (λ r. K.Rel d r.0) (send_frame p frame_type declared payload d)
  unfolding send_frame
  send_frame-Rel frame_type declared payload d =
      let wire = frame_bytes p frame_type d.sequencyno declared payload in
      if-OnOk (λ r. K.Rel d r.0) (ltb send_data_size (length wire)) fault (ok (post_frame p wire d))
        (λ e. tt) (λ e. post_frame-Rel wire d)

  pub send_command_wait-Rel :
      (code : ℕ) (param : List ℕ) (start timeout : ℕ) (polls : List Poll) (msg : Option Response)
      (d : Driver)
      → AllKeepRel K.Rel polls
      → OnOk (RelWait p K d) (send_command_wait p code param start timeout polls msg d)
  unfolding send_command_wait send_command wait4_command_response
  send_command_wait-Rel code param start timeout polls msg d k =
      bind-OnOk (λ r. K.Rel d r.0) (RelWait p K d) (send_command p code param d) _
        (send_frame-Rel p.frame_types.command ((length param + 1) % 2 ^ 8) (code ∷ param) d)
        (λ sent h.
          if-OnOk (RelWait p K d) sent.1 _ _
            (λ e.
              weaken p K (λ r. r.0) d sent.0 _ h
                (wait_loop-Rel p K (command_verdict p code d.sequencyno) (deadline_of start timeout)
                  polls msg sent.0 k))
            (λ e. h))

  pub config_step-Rel :
      (wanted : Bool) (code conf : ℕ) (w : Waiting) (d : Driver)
      → AllKeepRel K.Rel w.polls
      → OnOk (RelAfter p K d) (config_step p wanted code conf w d)
  unfolding config_step send_config_wait send_command_wait
  config_step-Rel wanted code conf w d k =
      if-OnOk (RelAfter p K d) wanted _ _
        (λ e.
          bind-OnOk (RelWait p K d) (RelAfter p K d)
            (send_command_wait p code (conf ∷ []) w.start 500 w.polls none d) _
            (send_command_wait-Rel code (conf ∷ []) w.start 500 w.polls none d k) (λ a h. h))
        (λ e. same-Rel p K d)
