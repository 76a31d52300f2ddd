-- ===== src/Session/Whole.antt =====
-- `getDeviceCapabilities` of src/common/can4vscpobj.cpp reads no byte that a response does not have.
use vscpl1drv_can4vscp.Prelude.{
  ℕ, zero, suc, ◌<◌, ◌≤◌, ◌≡◌, ◌≢◌, ◌==◌, ◌∙◌, ==_iff, refl, sym, ap, subst, arith, Bool-cases, inl,
  inr, none, some, List, [], ◌∷◌, ltb, length, get_elem?, Bool, if◌then◌else◌, true, false,
}
use vscpl1drv_can4vscp.Platform.{Platform, Response, IsFifo}
use vscpl1drv_can4vscp.Frame.Encode.{encode}
use vscpl1drv_can4vscp.Commands.Sent.{send_frame-fits}
use vscpl1drv_can4vscp.Driver.{Driver, Run, ok, fault, starved, ◌>>=◌}
use vscpl1drv_can4vscp.Driver.Outcome.{ok-ne-fault, bind-ne-fault, if-ne-fault, test-ne-fault, OnOk}
use vscpl1drv_can4vscp.Serial.{send_msg}
use vscpl1drv_can4vscp.Receive.Stored.{Whole}
use vscpl1drv_can4vscp.Commands.{
  Poll, deadline_of, payload_at, take_caps, caps_loop, get_device_capabilities, post_frame,
}

abbrev pub KeepWhole : List Poll → Type 0
KeepWhole [] = Unit {0}
KeepWhole (q ∷ qs) =
    ((d : Driver) → Whole d.response_list → Whole (q.others d).response_list) × KeepWhole qs

payload_at-ne-fault : (r : Response) (i : ℕ) → i < length r.payload → payload_at r i ≢ fault
payload_at-ne-fault r i h = on r.payload i h
  where
    on :
        (xs : List ℕ) (i : ℕ)
        → i < length xs
        → elim (get_elem? xs i) [ some b ↦ ok b | none ↦ fault ] ≢ fault
    on [] i h = absurd (omega arith)
    on (x ∷ xs) zero h = λ e. cc
    on (x ∷ xs) (suc i) h = on xs i (omega arith)

taken :
    {A : Type 0} {P : Driver → Type 0} (r : Run Driver) (f : Driver → Run A)
    → r ≢ fault
    → OnOk P r
    → ((a : Driver) → P a → f a ≢ fault)
    → (r >>= f) ≢ fault
taken (ok a) f h k later = later a k
taken fault f h k later = λ e. absurd (h refl)
taken starved f h k later = λ e. cc

-- The responses are not touched by the capabilities.
abbrev SameResponses : Driver → Driver → Type 0
SameResponses d e = e.response_list ≡ d.response_list

post_frame-empties :
    (p : Platform) (fifo : IsFifo p.responses) (wire : List ℕ) (d : Driver)
    → (post_frame p wire d).0.response_list ≡ []
unfolding post_frame send_msg
post_frame-empties p fifo wire d = ground (arith, fifo.remove_all_nodes_lem d.response_list)

module _ (p : Platform) (four : 4 ≤ p.caps_size) (fifo : IsFifo p.responses) where
  take_caps-ne-fault :
      (saveseq : ℕ) (r : Response) (d : Driver)
      → (4 ≤ r.size_payload → 4 ≤ length r.payload)
      → take_caps p saveseq r d ≢ fault
  unfolding take_caps
  take_caps-ne-fault saveseq r d whole = elim (Bool-cases (p.caps_size == r.size_payload)) [
    | inl fits ↦
        let size = (==_iff p.caps_size r.size_payload).0 fits in
        let long = whole (omega (arith, four, size)) in
        if-ne-fault _ _ _
          (bind-ne-fault (payload_at r 0) _ (payload_at-ne-fault r 0 (omega (arith, long))) (λ b0.
            bind-ne-fault (payload_at r 1) _ (payload_at-ne-fault r 1 (omega (arith, long))) (λ b1.
              bind-ne-fault (payload_at r 2) _ (payload_at-ne-fault r 2 (omega (arith, long)))
                (λ b2.
                  bind-ne-fault (payload_at r 3) _ (payload_at-ne-fault r 3 (omega (arith, long)))
                    (λ b3. ok-ne-fault _)))))
          (ok-ne-fault d)
    | inr other ↦ rw other (λ e. cc)
  ]

  take_caps_keeps :
      (saveseq : ℕ) (r : Response) (d : Driver) → OnOk (SameResponses d) (take_caps p saveseq r d)
  unfolding take_caps
  take_caps_keeps saveseq r d = ground arith

  caps_loop-ne-fault :
      (saveseq deadline : ℕ) (qs : List Poll) (d : Driver)
      → KeepWhole qs
      → Whole d.response_list
      → caps_loop p saveseq deadline qs d ≢ fault
  unfolding caps_loop
  caps_loop-ne-fault saveseq deadline [] d k w = λ e. cc
  caps_loop-ne-fault saveseq deadline (q ∷ qs) d k w =
      test-ne-fault (ltb q.now deadline) _ _ (ok-ne-fault d) (
        on (q.others d) (q.others d).response_list refl (k.0 d w)
          (λ a v. caps_loop-ne-fault saveseq deadline qs a k.1 v))
    where
      on :
          (e : Driver) (rs : List Response)
          → e.response_list ≡ rs
          → Whole rs
          → ((a : Driver) → Whole a.response_list → caps_loop p saveseq deadline qs a ≢ fault)
          → elim rs [
            | [] ↦ caps_loop p saveseq deadline qs e
            | r ∷ rest ↦
                take_caps p saveseq r
                  (record e { response_list = p.responses.remove_head e.response_list })
                >>= caps_loop p saveseq deadline qs
          ]
            ≢ fault
      on e [] eq v h = h e (subst Whole (sym eq) tt)
      on e (r ∷ rest) eq v h =
          let e' = record e { response_list = p.responses.remove_head e.response_list } in
          let left : e'.response_list ≡ rest =
            ap p.responses.remove_head eq ∙ fifo.remove_head_lem r rest in
          taken {P = SameResponses e'} (take_caps p saveseq r e') (caps_loop p saveseq deadline qs)
            (take_caps-ne-fault saveseq r e' v.0) (take_caps_keeps saveseq r e')
            (λ a same. h a (subst Whole (sym (same ∙ left)) v.1))

  pub get_device_capabilities-ne-fault :
      (start : ℕ) (polls : List Poll) (d : Driver)
      → KeepWhole polls
      → get_device_capabilities p start polls d ≢ fault
  unfolding get_device_capabilities
  get_device_capabilities-ne-fault start polls d k =
      let caps = p.frame_types.caps_request in
      let wire = encode p.crc8 caps 0 d.sequencyno 2 (1 ∷ 10 ∷ []) in
      let sent = post_frame p wire d in
      let asked =
        if-ne-fault sent.1 _ _
          (bind-ne-fault (caps_loop p d.sequencyno (deadline_of start 500) polls sent.0) _
            (caps_loop-ne-fault d.sequencyno (deadline_of start 500) polls sent.0 k
              (subst Whole (sym (post_frame-empties p fifo wire d)) tt))
            (λ a. ok-ne-fault _))
          (ok-ne-fault _) in
      subst
        (λ r.
          (◌>>=◌ {B = Driver × Bool} r (λ s.
            if s.1
            then (caps_loop p d.sequencyno (deadline_of start 500) polls s.0 >>= λ a. ok (a, true))
            else ok (s.0, false)))
          ≢ fault)
        (sym (send_frame-fits p caps 2 (1 ∷ 10 ∷ []) d (omega arith))) asked
